-- ===== src/Commands/Held.antt =====
-- What src/commands/cmd_list.cpp, cmd_hash.cpp and cmd_set.cpp each write for their own type:
-- `as_list_or_error`, `get_or_create_list` and their namesakes, and the shapes of the handlers
-- around them. The type is a parameter, with the laws that the proofs need.
pub mod Laws
use gredis.Base.Bytes.{Bytes}
use gredis.Base.Int.{ℤ}
use gredis.Base.{◌≡◌, Bool, Option, none, some, if◌then◌else◌}
use gredis.Commands.Text.{wrong_type}
use gredis.Commands.Value.{Value}
use gredis.Protocol.Writer.{error}
use gredis.Storage.Database.{Database, lookup_read, lookup_write, write_value, set, del}

-- one alternative of the variant: `std::get_if`, the alternative, a fresh value and `empty()`
pub record Kind (Z A : Type 0) : Type 0 where
  pub open_value : Value Z → Option A
  pub wrap : A → Value Z
  pub fresh : A
  pub has_no_elements : A → Bool
  pub open-wrap : (a : A) → open_value (wrap a) ≡ some a

module _ {Z A : Type 0} (k : Kind Z A) where
  -- none once WRONGTYPE is sent
  unfoldable pub get_or_create : Database (Value Z) → Bytes → ℤ → Option A × Database (Value Z)
  get_or_create db key now =
      let (found, db') = lookup_write db key now in
      let (again, db'') = lookup_write (set db' key (k.wrap k.fresh)) key now in
      elim found [
        | some v ↦ (k.open_value v, db')
        | none ↦ (elim again [ none ↦ none | some v ↦ k.open_value v ], db'')
      ]

  -- a handler that looks a key up and answers `missing` or WRONGTYPE unless the value has the type
  unfoldable pub read_held :
      Database (Value Z) → Bytes → ℤ → Bytes → (A → Bytes) → Bytes × Database (Value Z)
  read_held db key now missing f =
      let (found, db') = lookup_read db key now in
      elim found [
        | none ↦ (missing, db')
        | some v ↦ elim (k.open_value v) [ none ↦ (error wrong_type, db') | some a ↦ (f a, db') ]
      ]

  -- the same, where the handler changes the value in place
  unfoldable pub update_held :
      Database (Value Z) → Bytes → ℤ → Bytes → (A → Bytes × A) → Bytes × Database (Value Z)
  update_held db key now missing f =
      let (found, db') = lookup_read db key now in
      elim found [
        | none ↦ (missing, db')
        | some v ↦ elim (k.open_value v) [
          | none ↦ (error wrong_type, db')
          | some a ↦ ((f a).0, write_value db' key (k.wrap (f a).1))
        ]
      ]

  -- the same, where the key goes with the last element
  unfoldable pub shrink_held :
      Database (Value Z) → Bytes → ℤ → Bytes → (A → Bytes × A) → Bytes × Database (Value Z)
  shrink_held db key now missing f =
      let (found, db') = lookup_write db key now in
      elim found [
        | none ↦ (missing, db')
        | some v ↦ elim (k.open_value v) [
          | none ↦ (error wrong_type, db')
          | some a ↦
              let written = write_value db' key (k.wrap (f a).1) in
              ((f a).0, if k.has_no_elements (f a).1 then (del written key).1 else written)
        ]
      ]

  -- a handler that creates the value where the key is missing
  unfoldable pub grow_held :
      Database (Value Z) → Bytes → ℤ → (A → Bytes × A) → Bytes × Database (Value Z)
  grow_held db key now f =
      let (held, db') = get_or_create db key now in
      elim held [
        | none ↦ (error wrong_type, db')
        | some a ↦ ((f a).0, write_value db' key (k.wrap (f a).1))
      ]
