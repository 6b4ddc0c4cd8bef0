-- ===== src/Commands/Strings/Many.antt =====
-- MGET and MSET, of src/commands/cmd_string.cpp.
use gredis.Base.Bytes.{Bytes, bytes_eq, codes}
use gredis.Base.Int.{ℤ}
use gredis.Base.{
  ◌-◌, ◌%◌, ◌==◌, ◌≡◌, ◌∙◌, refl, ap, ap₂, Bool, true, false, Option, none, some, arith,
  if◌then◌else◌, Bool-cases, inl, inr, List, [], ◌∷◌, ◌++◌, drop, length,
}
use gredis.Commands.Strings.{mget_reply, mget_loop, cmd_mget, mset_loop, cmd_mset}
use gredis.Commands.Value.{Value, string_value}
use gredis.Protocol.Writer.{array_header, simple, error}
use gredis.Storage.Database
use gredis.Storage.Database.Contents.{entry, IsValid, Shows, Shows-trans, Shows-refl}
use gredis.Storage.Database.Methods.{value_in, lookup-entry, set-Shows}
use gredis.Storage.Database.{Database, lookup_read}

-- the value that the last pair with this key tells
unfoldable pub last_value : Bytes → List Bytes → Option Bytes
last_value p [] = none
last_value p (key ∷ []) = none
last_value p (key ∷ value ∷ argv) = elim (last_value p argv) [
  | some x ↦ some x
  | none ↦ if bytes_eq key p then some value else none
]

module _ {Z : Type 0} where
  -- the replies to the keys, one after the other
  unfoldable pub replies_of : (Bytes → Option (Value Z × Option ℤ)) → List Bytes → Bytes
  replies_of f [] = []
  replies_of f (key ∷ keys) = mget_reply (value_in (f key)) ++ replies_of f keys

  mget_loop-Shows :
      (db r : Database (Value Z)) (keys : List Bytes) (now : ℤ)
      → Shows now (entry db) r
      → ((mget_loop r keys now).0 ≡ replies_of (entry db now) keys)
        × Shows now (entry db) (mget_loop r keys now).1
  unfolding mget_loop replies_of
  mget_loop-Shows db r [] now s = (refl, s)
  mget_loop-Shows db r (key ∷ keys) now s =
      let (found, still, _, _) = lookup-entry r key now s.valid in
      let (told, rest) =
        mget_loop-Shows db (lookup_read r key now).1 keys now
          (Shows-trans now (entry db) r _ s.shows still) in
      let here = found ∙ ap value_in (s.shows now key (ground arith)) in
      (ap₂ (λ v replies. mget_reply v ++ replies) here told, rest)

  -- On a valid database MGET answers an array of one reply for each key, in order: the string that
  -- the key shows, or nil for a key that shows nothing or another type; nothing that can be seen
  -- changes.
  pub cmd_mget-Shows :
      (db : Database (Value Z)) (argv : List Bytes) (now : ℤ)
      → IsValid db
      → ((cmd_mget db argv now).0
          ≡ array_header (length argv - 1) ++ replies_of (entry db now) (drop 1 argv))
        × Shows now (entry db) (cmd_mget db argv now).1
  unfolding cmd_mget
  cmd_mget-Shows db argv now v =
      let (told, rest) = mget_loop-Shows db db (drop 1 argv) now (Shows-refl db now v) in
      (ap (λ replies. array_header (length argv - 1) ++ replies) told, rest)

  abbrev pub stored_or : Option Bytes → Option (Value Z × Option ℤ) → Option (Value Z × Option ℤ)
  stored_or none e = e
  stored_or (some x) e = some (string_value x, none)

  stored_or_later :
      (o : Option Bytes) (b : Bool) (value : Bytes) (e : Option (Value Z × Option ℤ))
      → stored_or o (if b then some (string_value value, none) else e)
        ≡ stored_or (elim o [ some x ↦ some x | none ↦ if b then some value else none ]) e
  stored_or_later (some x) b value e = refl
  stored_or_later none true value e = refl
  stored_or_later none false value e = refl

  mset_loop-Shows :
      (db : Database (Value Z)) (argv : List Bytes) (now : ℤ)
      → IsValid db
      → Shows now (λ t p. stored_or (last_value p argv) (entry db t p)) (mset_loop db argv)
  unfolding mset_loop last_value
  mset_loop-Shows db [] now v = Shows-refl db now v
  mset_loop-Shows db (key ∷ []) now v = Shows-refl db now v
  mset_loop-Shows db (key ∷ value ∷ argv) now v =
      let s = set-Shows db key (string_value value) now v in
      let rest = mset_loop-Shows (Database.set db key (string_value value)) argv now s.valid in
      record {
        valid = rest.valid;
        shows = λ t p le.
            rest.shows t p le
            ∙ ap (stored_or (last_value p argv)) (s.shows t p le)
            ∙ stored_or_later (last_value p argv) (bytes_eq key p) value (entry db t p);
      }

  -- On a valid database MSET with pairs of keys and values stores them all with no deadline, the
  -- last value for a key that comes twice, and leaves every other key; with a part of a pair it
  -- answers an error and changes nothing.
  pub cmd_mset-Shows :
      (db : Database (Value Z)) (argv : List Bytes) (now : ℤ)
      → IsValid db
      → ((cmd_mset db argv).0 ≡ (
          if length argv % 2 == 0
          then error (codes "ERR wrong number of arguments for 'mset' command")
          else simple (codes "OK")))
        × Shows now
            (λ t p.
              if length argv % 2 == 0
              then entry db t p
              else stored_or (last_value p (drop 1 argv)) (entry db t p))
            (cmd_mset db argv).1
  unfolding cmd_mset
  cmd_mset-Shows db argv now v = elim (Bool-cases (length argv % 2 == 0)) [
    | inl e ↦ rw e (refl, Shows-refl db now v)
    | inr e ↦ rw e (refl, mset_loop-Shows db (drop 1 argv) now v)
  ]
