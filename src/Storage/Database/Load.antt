-- ===== src/Storage/Database/Load.antt =====
-- `load_key` and `for_each_for_snapshot` of src/storage/database.cpp: deadlines go to the unix clock
-- and back.
use gredis.Base.Bytes.{Bytes, bytes_eq, bytes_eq_iff}
use gredis.Base.Int.{ℤ, ◌+ℤ◌, ◌-ℤ◌, ltb_ℤ, leb_ℤ, eqb_ℤ-refl}
use gredis.Base.{
  ◌≡◌, ◌∙◌, refl, Bool, true, not, ◌&&◌, ◌||◌, none, some, arith, if◌then◌else◌, Bool-cases, inl,
  inr,
}
use gredis.Storage.Database.Contents.{entry_of, entry, IsValid, Holds-IsValid, Shows, entry-Holds}
use gredis.Storage.Database.Effects.{value_of, deadline_of, Holds}
use gredis.Storage.Database.{Database, load_key}
use gredis.Storage.Expiry.Queue.{push-IsSorted, queued-push}
use gredis.Storage.Expiry.{push}
use gredis.Storage.HashTable
use gredis.Storage.HashTable.Operations.{insert_or_assign-Models}
use gredis.Storage.HashTable.Strings.{string_key}
use gredis.Storage.HashTable.Update.{update}
use gredis.Util.Int64.{
  InRange, in_range, add_would_overflow-in_range, sub_would_overflow-in_range, in_range-InRange,
  add_would_overflow, sub_would_overflow,
}

-- the deadline on the monotonic clock that a loaded one stands for
abbrev pub mono_deadline : ℤ → ℤ → ℤ → ℤ
mono_deadline expire_unix_ms now_mono now_unix = now_mono +ℤ (expire_unix_ms -ℤ now_unix)

-- a deadline that can be told on both clocks, and is still ahead
abbrev pub is_ahead : ℤ → ℤ → ℤ → Bool
is_ahead expire_unix_ms now_mono now_unix =
    in_range (expire_unix_ms -ℤ now_unix)
    && in_range (mono_deadline expire_unix_ms now_mono now_unix)
    && ltb_ℤ now_mono (mono_deadline expire_unix_ms now_mono now_unix)

-- the guards of `load_key` together
guards :
    (e m u : ℤ)
    → InRange e
    → InRange m
    → InRange u
    → (if sub_would_overflow e u || add_would_overflow m (e -ℤ u)
        then true
        else leb_ℤ (mono_deadline e m u) m)
      ≡ not (is_ahead e m u)
guards e m u he hm hu = elim (Bool-cases (in_range (e -ℤ u))) [
  | inr wide ↦ rw (sub_would_overflow-in_range e u he hu, wide) refl
  | inl fits ↦
      rw
        (
          sub_would_overflow-in_range e u he hu,
          add_would_overflow-in_range m (e -ℤ u) hm (in_range-InRange _ fits),
          fits,
        )
        (ground arith)
]

module _ {V : Type 0} where
  -- A key with no deadline is stored; the keys beside it stay.
  pub load_key-forever :
      (db : Database V) (key : Bytes) (x : V) (now_mono now_unix : ℤ)
      → IsValid db
      → deadline_of db key ≡ none
      → Shows now_mono
          (λ t p. if bytes_eq key p then some (x, none) else entry db t p)
          (load_key db key x none now_mono now_unix)
  unfolding load_key
  load_key-forever db key x now_mono now_unix v fresh =
      let a = (insert_or_assign-Models db.keyspace key x v.keys).1 in
      let h : Holds (update (value_of db) key (some x)) (deadline_of db) db.expiry_heap
          (record db { keyspace = (HashTable.insert_or_assign db.keyspace key x).0 }) =
        record {
          keys = a.valid;
          ttls = v.ttls;
          values_are = unfold value_of in a.reads;
          deadlines_are = λ p. unfold deadline_of in refl;
          queue = refl;
        } in
      record {
        valid = Holds-IsValid _ _ _ _ h (λ p w. ground (arith, v.owned p)) v.covered v.sorted;
        shows = λ t p le.
            entry-Holds _ _ _ _ h t p ∙ unfold entry in ground (arith, bytes_eq_iff key p);
      }

  -- `load_key` stores a key with its deadline moved to the monotonic clock exactly if neither step
  -- of the conversion leaves the range of int64_t and the deadline is ahead; else the database
  -- shows what it did before.
  pub load_key-deadline :
      (db : Database V) (key : Bytes) (x : V) (expire_unix_ms now_mono now_unix : ℤ)
      → IsValid db
      → InRange expire_unix_ms
      → InRange now_mono
      → InRange now_unix
      → Shows now_mono
          (λ t p.
            if bytes_eq key p && is_ahead expire_unix_ms now_mono now_unix
            then entry_of (some x) (some (mono_deadline expire_unix_ms now_mono now_unix)) t
            else entry db t p)
          (load_key db key x (some expire_unix_ms) now_mono now_unix)
  load_key-deadline db key x expire_unix_ms now_mono now_unix v he hm hu =
      let d = mono_deadline expire_unix_ms now_mono now_unix in
      let g = guards expire_unix_ms now_mono now_unix he hm hu in
      elim (Bool-cases (is_ahead expire_unix_ms now_mono now_unix)) [
        | inr not_ahead ↦
            let dropped : load_key db key x (some expire_unix_ms) now_mono now_unix ≡ db =
              unfold load_key in ground arith in
            rw dropped (record { valid = v; shows = λ t p le. rw not_ahead (ground arith) })
        | inl ahead ↦
            let a = (insert_or_assign-Models db.keyspace key x v.keys).1 in
            let b = (insert_or_assign-Models db.expires key d v.ttls).1 in
            let r : Database V = record db {
              expires = (HashTable.insert_or_assign db.expires key d).0;
              expiry_heap = push (record { deadline_ms = d; key = key }) db.expiry_heap;
              keyspace = (HashTable.insert_or_assign db.keyspace key x).0;
            } in
            let stored : load_key db key x (some expire_unix_ms) now_mono now_unix ≡ r =
              unfold load_key in ground arith in
            let h : Holds (update (value_of db) key (some x)) (update (deadline_of db) key (some d))
                (push (record { deadline_ms = d; key = key }) db.expiry_heap) r =
              record {
                keys = a.valid;
                ttls = b.valid;
                values_are = unfold value_of in a.reads;
                deadlines_are = unfold deadline_of in b.reads;
                queue = refl;
              } in
            rw (stored, ahead)
              (record {
                valid =
                    Holds-IsValid _ _ _ _ h (λ p w. ground (arith, v.owned p))
                      (λ p y w.
                        rw queued-push
                          (ground (arith, v.covered p y, bytes_eq_iff key p, eqb_ℤ-refl y)))
                      (push-IsSorted _ _ v.sorted);
                shows = λ t p le.
                    entry-Holds _ _ _ _ h t p ∙ unfold entry in ground (arith, bytes_eq_iff key p);
              })
      ]
