-- ===== src/Storage/Database/Ttl.antt =====
-- The methods of src/storage/database.cpp that look a key up before they act: `take`, `expire_at`,
-- `persist` and `pttl`.
use gredis.Base.Bytes.{Bytes, bytes_eq, bytes_eq_iff}
use gredis.Base.Int.{ℤ, pos, negsuc, ◌-ℤ◌, ltb_ℤ, ◌≤ℤ◌, leb_ℤ, eqb_ℤ-refl, -ℤ_parts}
use gredis.Util.Int64.{max_int64, wrap_int64, wrap_int64-InRange}
use gredis.Base.{
  ◌≡◌, ◌∙◌, refl, ap, Bool, true, false, Option, none, some, arith, if◌then◌else◌, Bool-cases,
  Option-cases, inl, inr,
}
use gredis.Storage.Database.Contents.{
  entry_of, entry, IsValid, Holds-IsValid, Shows, entry-Holds, is_due_mono, lookup-Shows,
}
use gredis.Storage.Database.Effects.{
  value_of, deadline_of, Holds, Holds-map, lookup_found, erase_both-Holds, update-still,
}
use gredis.Storage.Database.Methods.{value_in, lookup_missing, erased-Shows}
use gredis.Storage.Database.{Database, is_due, lookup_and_expire, take, expire_at, persist, pttl}
use gredis.Storage.Expiry.Queue.{push-IsSorted, queued-push}
use gredis.Storage.Expiry.{push}
use gredis.Storage.HashTable
use gredis.Storage.HashTable.Operations.{
  erase-Models, take-Models, find-Models, insert_or_assign-Models,
}
use gredis.Storage.HashTable.Strings.{string_key}
use gredis.Storage.HashTable.Update.{is_some, update}

module _ {V : Type 0} where
  found_entry :
      (db : Database V) (key : Bytes) (now_ms : ℤ) (x : V)
      → is_due (deadline_of db key) now_ms ≡ false
      → value_of db key ≡ some x
      → entry db now_ms key ≡ some (x, deadline_of db key)
  unfolding entry
  found_entry db key now_ms x e h = rw (e, h) refl

  missing-Shows :
      (db : Database V) (key : Bytes) (now_ms : ℤ) (f : ℤ → Bytes → Option (V × Option ℤ))
      → IsValid db
      → entry db now_ms key ≡ none
      → ((t : ℤ) (p : Bytes) → leb_ℤ now_ms t ≡ true → entry db t p ≡ f t p)
      → Shows now_ms f (lookup_and_expire db key now_ms).1
  missing-Shows db key now_ms f v e h =
      let s = lookup-Shows db key now_ms v in
      record { valid = s.valid; shows = λ t p le. s.shows t p le ∙ h t p le }

  -- what is not there now is not there later
  pub entry-none :
      (db : Database V) (p : Bytes) (now t : ℤ)
      → entry db now p ≡ none
      → leb_ℤ now t ≡ true
      → entry db t p ≡ none
  unfolding entry
  entry-none db p now t e le = ground (arith, is_due_mono (deadline_of db p) now t le)

  -- `take` returns the value of a key that has not expired and removes the key; every other key
  -- stays, and the database stays valid.
  pub take-Shows :
      (db : Database V) (key : Bytes) (now_ms : ℤ)
      → IsValid db
      → ((take db key now_ms).0 ≡ value_in (entry db now_ms key))
        × Shows now_ms (λ t p. if bytes_eq key p then none else entry db t p) (take db key now_ms).1
  unfolding take
  take-Shows db key now_ms v =
      let db' = (lookup_and_expire db key now_ms).1 in
      elim (Option-cases (lookup_and_expire db key now_ms).0) [
        | inl e ↦
            let gone = lookup_missing db key now_ms v e in
            rw (e, take, gone)
              (
                refl,
                missing-Shows db key now_ms _ v gone (λ t p le.
                    ground (arith, bytes_eq_iff key p, entry-none db key now_ms t gone le)),
              )
        | inr (x, e) ↦
            let (early, value, m) = lookup_found db key now_ms x (v.keys, v.ttls) e in
            let (out, a) = take-Models db'.keyspace key m.keys in
            let (_, b) = erase-Models db'.expires key m.ttls in
            let r : Database V = record db' {
              expires = (HashTable.erase db'.expires key).1;
              keyspace = (HashTable.take db'.keyspace key).1;
            } in
            let h : Holds (update (value_of db) key none) (update (deadline_of db) key none)
                db.expiry_heap r =
              record {
                keys = a.valid;
                ttls = b.valid;
                values_are =
                    λ p. unfold value_of in (a.reads p ∙ update-still _ _ key none m.values_are p);
                deadlines_are = λ p.
                    unfold deadline_of in (b.reads p ∙ update-still _ _ key none m.deadlines_are p);
                queue = m.queue;
              } in
            rw (e, take, found_entry db key now_ms x early value)
              (out ∙ unfold value_of in m.values_are key ∙ value, erased-Shows db r key now_ms v h)
      ]

  -- the entry of a key that is there, with a new deadline
  abbrev pub with_deadline : Option (V × Option ℤ) → Option ℤ → ℤ → Option (V × Option ℤ)
  with_deadline none d t = none
  with_deadline (some (x, _)) d t = entry_of (some x) d t

  -- `expire_at` reports whether the key is there; a key that is there gets the new deadline, which
  -- ends it at once if it has passed; every other key stays, and the database stays valid.
  pub expire_at-Shows :
      (db : Database V) (key : Bytes) (deadline_ms now_ms : ℤ)
      → IsValid db
      → ((expire_at db key deadline_ms now_ms).0 ≡ is_some (entry db now_ms key))
        × Shows now_ms
            (λ t p.
              if bytes_eq key p
              then with_deadline (entry db now_ms key) (some deadline_ms) t
              else entry db t p)
            (expire_at db key deadline_ms now_ms).1
  unfolding expire_at
  expire_at-Shows db key deadline_ms now_ms v =
      let db' = (lookup_and_expire db key now_ms).1 in
      elim (Option-cases (lookup_and_expire db key now_ms).0) [
        | inl e ↦
            let gone = lookup_missing db key now_ms v e in
            rw (e, expire_at, gone)
              (
                refl,
                missing-Shows db key now_ms _ v gone (λ t p le.
                    ground (arith, bytes_eq_iff key p, entry-none db key now_ms t gone le)),
              )
        | inr (x, e) ↦
            let (early, value, m) = lookup_found db key now_ms x (v.keys, v.ttls) e in
            elim (Bool-cases (leb_ℤ deadline_ms now_ms)) [
              | inl past ↦
                  let h = erase_both-Holds db' key (m.keys, m.ttls) in
                  let h' =
                    Holds-map _ (update (value_of db) key none) _ (update (deadline_of db) key none)
                      _ db.expiry_heap _ h (update-still _ _ key none m.values_are)
                      (update-still _ _ key none m.deadlines_are) m.queue in
                  let s = erased-Shows db _ key now_ms v h' in
                  rw (e, expire_at, past, found_entry db key now_ms x early value)
                    (
                      refl,
                      record { valid = s.valid; shows = λ t p le. s.shows t p le ∙ ground arith },
                    )
              | inr ahead ↦
                  let (_, b) = insert_or_assign-Models db'.expires key deadline_ms m.ttls in
                  let r : Database V = record db' {
                    expires = (HashTable.insert_or_assign db'.expires key deadline_ms).0;
                    expiry_heap =
                        push (record { deadline_ms = deadline_ms; key = key }) db'.expiry_heap;
                  } in
                  let h : Holds (value_of db) (update (deadline_of db) key (some deadline_ms))
                      (push (record { deadline_ms = deadline_ms; key = key }) db.expiry_heap) r =
                    record {
                      keys = m.keys;
                      ttls = b.valid;
                      values_are = λ p. unfold value_of in m.values_are p;
                      deadlines_are = λ p.
                          unfold deadline_of in
                          (b.reads p ∙ update-still _ _ key (some deadline_ms) m.deadlines_are p);
                      queue = ap (push _) m.queue;
                    } in
                  rw (e, expire_at, ahead, found_entry db key now_ms x early value)
                    (
                      refl,
                      record {
                        valid =
                            Holds-IsValid _ _ _ _ h
                              (λ p w. ground (arith, v.owned p, bytes_eq_iff key p))
                              (λ p y w.
                                rw queued-push
                                  (ground (arith, v.covered p y, bytes_eq_iff key p, eqb_ℤ-refl y)))
                              (push-IsSorted _ _ v.sorted);
                        shows = λ t p le.
                            entry-Holds _ _ _ _ h t p
                            ∙ unfold entry in ground (arith, bytes_eq_iff key p);
                      },
                    )
            ]
      ]

  -- whether an entry has a deadline
  abbrev pub has_deadline : Option (V × Option ℤ) → Bool
  has_deadline none = false
  has_deadline (some (x, d)) = is_some d

  -- `persist` takes the deadline off a key that is there and reports whether there was one; every
  -- other key stays, and the database stays valid.
  pub persist-Shows :
      (db : Database V) (key : Bytes) (now_ms : ℤ)
      → IsValid db
      → ((persist db key now_ms).0 ≡ has_deadline (entry db now_ms key))
        × Shows now_ms
            (λ t p.
              if bytes_eq key p then with_deadline (entry db now_ms key) none t else entry db t p)
            (persist db key now_ms).1
  unfolding persist
  persist-Shows db key now_ms v =
      let db' = (lookup_and_expire db key now_ms).1 in
      elim (Option-cases (lookup_and_expire db key now_ms).0) [
        | inl e ↦
            let gone = lookup_missing db key now_ms v e in
            rw (e, persist, gone)
              (
                refl,
                missing-Shows db key now_ms _ v gone (λ t p le.
                    ground (arith, bytes_eq_iff key p, entry-none db key now_ms t gone le)),
              )
        | inr (x, e) ↦
            let (early, value, m) = lookup_found db key now_ms x (v.keys, v.ttls) e in
            let (out, b) = erase-Models db'.expires key m.ttls in
            let r : Database V = record db' { expires = (HashTable.erase db'.expires key).1 } in
            let h : Holds (value_of db) (update (deadline_of db) key none) db.expiry_heap r =
              record {
                keys = m.keys;
                ttls = b.valid;
                values_are = λ p. unfold value_of in m.values_are p;
                deadlines_are = λ p.
                    unfold deadline_of in (b.reads p ∙ update-still _ _ key none m.deadlines_are p);
                queue = m.queue;
              } in
            rw (e, persist, found_entry db key now_ms x early value)
              (
                out ∙ ap is_some (unfold deadline_of in m.deadlines_are key),
                record {
                  valid =
                      Holds-IsValid _ _ _ _ h (λ p w. ground (arith, v.owned p))
                        (λ p y w. ground (arith, v.covered p y)) v.sorted;
                  shows = λ t p le.
                      entry-Holds _ _ _ _ h t p
                      ∙ unfold entry in ground (arith, bytes_eq_iff key p);
                },
              )
      ]

  -- the reply of PTTL to an entry
  abbrev pub ttl_reply : Option (V × Option ℤ) → ℤ → ℤ
  ttl_reply none now_ms = negsuc 1
  ttl_reply (some (x, none)) now_ms = negsuc 0
  ttl_reply (some (x, some d)) now_ms = d -ℤ now_ms

  -- `pttl` is -2 for a key that is not there, -1 for one with no deadline, and else the time left,
  -- which is more than 0, at a time from 0 on with a deadline that is an int64_t; nothing that can
  -- be seen changes.
  pub pttl-Shows :
      (db : Database V) (key : Bytes) (now_ms : ℤ)
      → IsValid db
      → pos 0 ≤ℤ now_ms
      → ((d : ℤ) → deadline_of db key ≡ some d → d ≤ℤ max_int64)
      → ((pttl db key now_ms).0 ≡ ttl_reply (entry db now_ms key) now_ms)
        × (has_deadline (entry db now_ms key) ≡ true → ltb_ℤ (pos 0) (pttl db key now_ms).0 ≡ true)
        × Shows now_ms (entry db) (pttl db key now_ms).1
  unfolding pttl
  pttl-Shows db key now_ms v started bounded =
      let db' = (lookup_and_expire db key now_ms).1 in
      elim (Option-cases (lookup_and_expire db key now_ms).0) [
        | inl e ↦
            let gone = lookup_missing db key now_ms v e in
            rw (e, pttl, gone) (refl, λ w. cc, lookup-Shows db key now_ms v)
        | inr (x, e) ↦
            let (early, value, m) = lookup_found db key now_ms x (v.keys, v.ttls) e in
            let (out, b) = find-Models db'.expires key m.ttls in
            let told : (HashTable.find db'.expires key).0 ≡ deadline_of db key =
              out ∙ unfold deadline_of in m.deadlines_are key in
            let r : Database V = record db' { expires = (HashTable.find db'.expires key).1 } in
            let h : Holds (value_of db) (deadline_of db) db.expiry_heap r = record {
              keys = m.keys;
              ttls = b.valid;
              values_are = λ p. unfold value_of in m.values_are p;
              deadlines_are = λ p. unfold deadline_of in (b.reads p ∙ m.deadlines_are p);
              queue = m.queue;
            } in
            let s : Shows now_ms (entry db) r = record {
              valid = Holds-IsValid _ _ _ _ h v.owned v.covered v.sorted;
              shows = λ t p le. entry-Holds _ _ _ _ h t p ∙ unfold entry in refl;
            } in
            elim (Option-cases (deadline_of db key)) [
              | inl none_set ↦
                  rw (e, pttl, told, found_entry db key now_ms x early value, none_set)
                    (refl, λ w. cc, s)
              | inr (d, set_to) ↦
                  let ahead : ltb_ℤ (pos 0) (d -ℤ now_ms) ≡ true =
                    let early' : leb_ℤ d now_ms ≡ false = rw set_to at early in
                    ground (arith, -ℤ_parts d now_ms) in
                  let small = bounded d set_to in
                  let whole : wrap_int64 (d -ℤ now_ms) ≡ d -ℤ now_ms =
                    wrap_int64-InRange (d -ℤ now_ms)
                      (ground (arith, -ℤ_parts d now_ms), ground (arith, -ℤ_parts d now_ms)) in
                  rw (e, pttl, told, found_entry db key now_ms x early value, set_to, whole, ahead)
                    (refl, λ w. ahead, s)
            ]
      ]
