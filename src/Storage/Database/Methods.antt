-- ===== src/Storage/Database/Methods.antt =====
-- The methods of src/storage/database.cpp, each as the change that a caller sees from its `now_ms`
-- on. Lazy expiry is part of every statement: a key whose deadline has passed is not there.
use gredis.Base.Bytes.{Bytes, bytes_eq}
use gredis.Base.Int.{ℤ, ltb_ℤ}
use gredis.Base.{◌≡◌, ◌∙◌, refl, sym, Option, none, some, arith, if◌then◌else◌}
use gredis.Storage.Database.Contents.{
  entry, entry_of, IsValid, Holds-IsValid, Shows, entry-Holds, lookup-Shows,
}
use gredis.Storage.Database.Effects.{
  value_of, deadline_of, Holds, lookup_and_expire-Holds, set-Holds, erase_both-Holds,
}
use gredis.Storage.Database.{Database, lookup_and_expire, lookup_read, lookup_write, set, del}
use gredis.Storage.HashTable.Operations.{erase-Models}
use gredis.Storage.HashTable.Strings.{string_key}
use gredis.Storage.HashTable.Update.{is_some, update}

module _ {V : Type 0} where
  abbrev pub value_in : Option (V × Option ℤ) → Option V
  value_in none = none
  value_in (some (x, d)) = some x

  lookup-value :
      (db : Database V) (key : Bytes) (now_ms : ℤ)
      → IsValid db
      → (lookup_and_expire db key now_ms).0 ≡ value_in (entry db now_ms key)
  unfolding entry
  lookup-value db key now_ms v =
      let (found, _) = lookup_and_expire-Holds db key now_ms (v.keys, v.ttls) in
      found ∙ ground arith

  pub lookup_missing :
      (db : Database V) (key : Bytes) (now_ms : ℤ)
      → IsValid db
      → (lookup_and_expire db key now_ms).0 ≡ none
      → entry db now_ms key ≡ none
  lookup_missing db key now_ms v e =
      let z : value_in (entry db now_ms key) ≡ none = sym (lookup-value db key now_ms v) ∙ e in
      ground arith

  pub lookup-entry :
      (db : Database V) (key : Bytes) (now_ms : ℤ)
      → IsValid db
      → ((lookup_read db key now_ms).0 ≡ value_in (entry db now_ms key))
        × Shows now_ms (entry db) (lookup_read db key now_ms).1
        × ((lookup_write db key now_ms).0 ≡ value_in (entry db now_ms key))
        × Shows now_ms (entry db) (lookup_write db key now_ms).1
  unfolding lookup_read lookup_write
  lookup-entry db key now_ms v =
      let a = lookup-value db key now_ms v in let b = lookup-Shows db key now_ms v in (a, b, a, b)

  -- a value that has no deadline, or one that is still to come
  abbrev pub live_value : Option V → Option ℤ → ℤ → Option V
  live_value value none now_ms = value
  live_value value (some d) now_ms = if ltb_ℤ now_ms d then value else none

  value_in-live_value :
      (value : Option V) (deadline : Option ℤ) (now_ms : ℤ)
      → value_in (entry_of value deadline now_ms) ≡ live_value value deadline now_ms
  value_in-live_value none none now_ms = refl
  value_in-live_value (some x) none now_ms = refl
  value_in-live_value none (some d) now_ms = ground arith
  value_in-live_value (some x) (some d) now_ms = ground arith

  -- `lookup_read` and `lookup_write` return the value that the keyspace has for a key if the key
  -- has no deadline or one after `now_ms`, and else nothing, and change nothing that can be seen
  -- from then on.
  pub lookup-is_live :
      (db : Database V) (key : Bytes) (now_ms : ℤ)
      → IsValid db
      → ((lookup_read db key now_ms).0 ≡ live_value (value_of db key) (deadline_of db key) now_ms)
        × Shows now_ms (entry db) (lookup_read db key now_ms).1
        × ((lookup_write db key now_ms).0
            ≡ live_value (value_of db key) (deadline_of db key) now_ms)
        × Shows now_ms (entry db) (lookup_write db key now_ms).1
  unfolding entry
  lookup-is_live db key now_ms v =
      let (a, b, c, d) = lookup-entry db key now_ms v in
      let live = value_in-live_value (value_of db key) (deadline_of db key) now_ms in
      (a ∙ live, b, c ∙ live, d)

  -- `set` stores the value with no deadline, whatever the key had, leaves every other key as it
  -- was, and keeps the database valid.
  pub set-Shows :
      (db : Database V) (key : Bytes) (x : V) (now_ms : ℤ)
      → IsValid db
      → Shows now_ms (λ t p. if bytes_eq key p then some (x, none) else entry db t p) (set db key x)
  unfolding entry
  set-Shows db key x now_ms v =
      let m = set-Holds db key x (v.keys, v.ttls) in
      record {
        valid =
            Holds-IsValid _ _ _ _ m (λ p e. ground (arith, v.owned p))
              (λ p y e. ground (arith, v.covered p y)) v.sorted;
        shows = λ t p le. entry-Holds _ _ _ _ m t p ∙ ground arith;
      }

  pub erased-Shows :
      (db r : Database V) (key : Bytes) (now_ms : ℤ)
      → IsValid db
      → Holds (update (value_of db) key none) (update (deadline_of db) key none) db.expiry_heap r
      → Shows now_ms (λ t p. if bytes_eq key p then none else entry db t p) r
  unfolding entry
  erased-Shows db r key now_ms v m = record {
    valid =
        Holds-IsValid _ _ _ _ m (λ p e. ground (arith, v.owned p))
          (λ p y e. ground (arith, v.covered p y)) v.sorted;
    shows = λ t p le. entry-Holds _ _ _ _ m t p ∙ ground arith;
  }

  -- `del` removes a key with its deadline, reports whether the keyspace had it, leaves every other
  -- key as it was, and keeps the database valid.
  pub del-Shows :
      (db : Database V) (key : Bytes) (now_ms : ℤ)
      → IsValid db
      → ((del db key).0 ≡ is_some (value_of db key))
        × Shows now_ms (λ t p. if bytes_eq key p then none else entry db t p) (del db key).1
  unfolding del value_of
  del-Shows db key now_ms v = (
    (erase-Models db.keyspace key v.keys).0,
    erased-Shows db _ key now_ms v (erase_both-Holds db key (v.keys, v.ttls)),
  )
