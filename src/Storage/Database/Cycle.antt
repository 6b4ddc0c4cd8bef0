-- ===== src/Storage/Database/Cycle.antt =====
-- `run_active_expiration_cycle` of src/storage/database.cpp and the compaction of its queue.
use gredis.Base.Bytes.{Bytes, bytes_eq_iff}
use gredis.Base.Int.{ℤ, leb_ℤ, eqb_ℤ-refl, eqb_ℤ-eq}
use gredis.Base.{
  ℕ, suc, ◌+◌, ◌*◌, ◌≤◌, ◌<◌, ◌≡◌, ◌∙◌, refl, Bool, true, false, ◌&&◌, none, arith, if◌then◌else◌,
  ltb, Bool-cases, Option-cases, inl, inr, [], ◌∷◌, length,
}
use gredis.Storage.Database.Contents.{
  Shows-trans, entry, IsValid, Holds-IsValid, Shows, entry-Holds, is_due_mono,
}
use gredis.Storage.Database.Effects.{value_of, deadline_of, Holds, erase_both-Holds, update-still}
use gredis.Storage.Database.{
  Database, is_due, is_same, erase_both, expire_entry, expire_loop, maybe_compact_expiry_heap,
  run_active_expiration_cycle,
}
use gredis.Storage.Expiry.Queue.{
  queued, push_all-IsSorted, queued-push_all, queued-IsFrom, length-push_all,
}
use gredis.Storage.Expiry.{Entry, ExpiryHeap, rebuild_from}
use gredis.Storage.HashTable
use gredis.Storage.HashTable.Operations.{find-Models}
use gredis.Storage.HashTable.Strings.{string_key}
use gredis.Storage.HashTable.Update.{update}
use gredis.Storage.HashTable.Visit.{for_each-view}

module _ {V : Type 0} where
  -- the database with the part of the queue that the loop has still to read
  abbrev with_queue : Database V → ExpiryHeap → Database V
  with_queue db heap = record db { expiry_heap = heap }

  -- one entry: what it erases has passed, and the queue still covers every deadline that is left
  expire_entry-Shows :
      (db : Database V) (e : Entry) (heap : ExpiryHeap) (now : ℤ)
      → IsValid (with_queue db (e ∷ heap))
      → leb_ℤ e.deadline_ms now ≡ true
      → Shows now (entry db) (with_queue (expire_entry db e).1 heap)
  unfolding expire_entry entry value_of deadline_of queued
  expire_entry-Shows db e heap now v due =
      let (told, b) = find-Models db.expires e.key v.ttls in
      let db' : Database V = record db { expires = (HashTable.find db.expires e.key).1 } in
      elim (Bool-cases (is_same (HashTable.Invariant.view db.expires e.key) e.deadline_ms)) [
        | inl live ↦
            let m = erase_both-Holds db' e.key (v.keys, b.valid) in
            let h : Holds (update (value_of db) e.key none) (update (deadline_of db) e.key none)
                heap (with_queue (erase_both db' e.key) heap) =
              record {
                keys = m.keys;
                ttls = m.ttls;
                values_are = λ p. m.values_are p;
                deadlines_are = λ p. m.deadlines_are p ∙ update-still _ _ e.key none b.reads p;
                queue = refl;
              } in
            rw (told, expire_entry, live)
              record {
                valid =
                    Holds-IsValid _ _ _ _ h (λ p w. ground (arith, v.owned p))
                      (λ p y w. ground (arith, v.covered p y)) v.sorted.1;
                shows = λ t p le.
                    entry-Holds _ _ _ _ h t p
                    ∙ ground
                        (arith, bytes_eq_iff e.key p, is_due_mono (deadline_of db e.key) now t le);
              }
        | inr stale ↦
            rw (told, expire_entry, stale)
              (let h : Holds (value_of db) (deadline_of db) heap (with_queue db' heap) = record {
                keys = v.keys;
                ttls = b.valid;
                values_are = λ p. refl;
                deadlines_are = b.reads;
                queue = refl;
              } in
                record {
                  valid =
                      Holds-IsValid _ _ _ _ h v.owned
                        (λ p y w. ground (
                          arith,
                          v.covered p y,
                          bytes_eq_iff e.key p,
                          eqb_ℤ-refl y,
                          eqb_ℤ-eq e.deadline_ms y,
                        ))
                        v.sorted.1;
                  shows = λ t p le. entry-Holds _ _ _ _ h t p;
                })
      ]

  queue-Shows :
      (db : Database V) (heap : ExpiryHeap) (now : ℤ)
      → IsValid (with_queue db heap)
      → Shows now (entry db) (with_queue db heap)
  unfolding entry value_of deadline_of
  queue-Shows db heap now v = record { valid = v; shows = λ t p le. refl }

  -- any number of rounds, cut off by any reading of the wall clock
  expire_loop-Shows :
      (late : ℕ → Bool) (round : ℕ) (now : ℤ) (max_keys expired : ℕ) (heap : ExpiryHeap)
      (db : Database V)
      → IsValid (with_queue db heap)
      → Shows now (entry db) (expire_loop late round now max_keys expired heap db).1
  unfolding expire_loop
  expire_loop-Shows late round now max_keys expired [] db v = queue-Shows db [] now v
  expire_loop-Shows late round now max_keys expired (e ∷ heap) db v =
      let r = (expire_entry db e).1 in
      let expired' = if (expire_entry db e).0 then expired + 1 else expired in
      elim (Bool-cases (ltb expired max_keys && leb_ℤ e.deadline_ms now)) [
        | inr stop ↦ rw stop (queue-Shows db (e ∷ heap) now v)
        | inl go ↦
            let one = expire_entry-Shows db e heap now v (ground arith) in
            let kept : (t : ℤ) (p : Bytes) → leb_ℤ now t ≡ true → entry r t p ≡ entry db t p =
              λ t p le. unfold entry value_of deadline_of in one.shows t p le in
            elim (Bool-cases (late round)) [
              | inl cut ↦ rw (go, cut) one
              | inr more ↦
                  rw (go, more)
                    (Shows-trans now (entry db) r _ kept
                      (expire_loop-Shows late (suc round) now max_keys expired' heap r one.valid))
            ]
      ]

  expire_loop-count :
      (late : ℕ → Bool) (round : ℕ) (now : ℤ) (max_keys expired : ℕ) (heap : ExpiryHeap)
      (db : Database V)
      → expired ≤ max_keys
      → (expire_loop late round now max_keys expired heap db).0 ≤ max_keys
  unfolding expire_loop
  expire_loop-count late round now max_keys expired [] db h = h
  expire_loop-count late round now max_keys expired (e ∷ heap) db h =
      let r = (expire_entry db e).1 in
      let expired' = if (expire_entry db e).0 then expired + 1 else expired in
      ground (arith, expire_loop-count late (suc round) now max_keys expired' heap r)

  nothing_due :
      (db : Database V) (now : ℤ) (p : Bytes)
      → IsValid db
      → ((d : ℤ) → queued p d db.expiry_heap ≡ true → leb_ℤ d now ≡ false)
      → is_due (deadline_of db p) now ≡ false
  nothing_due db now p v h = elim (Option-cases (deadline_of db p)) [
    | inl e ↦ rw e refl
    | inr (d, e) ↦ rw e (h d (v.covered p d e))
  ]

  -- with time enough, the loop stops under its limit only when nothing more is due
  expire_loop-drains :
      (late : ℕ → Bool) (round : ℕ) (now : ℤ) (max_keys expired : ℕ) (heap : ExpiryHeap)
      (db : Database V)
      → IsValid (with_queue db heap)
      → ((i : ℕ) → late i ≡ false)
      → (expire_loop late round now max_keys expired heap db).0 < max_keys
      → (p : Bytes)
      → is_due (deadline_of (expire_loop late round now max_keys expired heap db).1 p) now ≡ false
  unfolding expire_loop
  expire_loop-drains late round now max_keys expired [] db v never h p =
      nothing_due _ now p v (unfold queued in λ d w. cc)
  expire_loop-drains late round now max_keys expired (e ∷ heap) db v never h p =
      let r = (expire_entry db e).1 in
      let expired' = if (expire_entry db e).0 then expired + 1 else expired in
      elim (Bool-cases (ltb expired max_keys && leb_ℤ e.deadline_ms now)) [
        | inr stop ↦ rw stop (
            let under = rw stop at h in
            nothing_due _ now p v (
              unfold queued in
              λ d w. ground (arith, queued-IsFrom p e.deadline_ms d heap v.sorted.0)))
        | inl go ↦
            let one = expire_entry-Shows db e heap now v (ground arith) in
            rw (go, never round)
              (expire_loop-drains late (suc round) now max_keys expired' heap r one.valid never
                (rw (go, never round) at h) p)
      ]

  -- compaction drops only entries that tell no deadline
  compact-Shows :
      (db : Database V) (now : ℤ) → IsValid db → Shows now (entry db) (maybe_compact_expiry_heap db)
  unfolding maybe_compact_expiry_heap rebuild_from value_of deadline_of
  compact-Shows db now v =
      elim (Bool-cases (ltb (2 * (HashTable.size db.expires + 1024)) (length db.expiry_heap))) [
        | inr few ↦ rw few (queue-Shows db db.expiry_heap now v)
        | inl many ↦ rw many (
            queue-Shows db (rebuild_from db.expires) now record {
              keys = v.keys;
              ttls = v.ttls;
              owned = v.owned;
              covered =
                  λ p d e. queued-push_all p d _ [] ((for_each-view db.expires v.ttls).0 p ∙ e);
              sorted = push_all-IsSorted (HashTable.for_each db.expires) [] tt;
            })
      ]

  compact-length :
      (db : Database V)
      → IsValid db
      → length (maybe_compact_expiry_heap db).expiry_heap
        ≤ 2 * (HashTable.size (maybe_compact_expiry_heap db).expires + 1024)
  unfolding maybe_compact_expiry_heap rebuild_from
  compact-length db v = ground (
    arith,
    length-push_all (HashTable.for_each db.expires) [],
    (for_each-view db.expires v.ttls).2,
  )

  compact-deadlines :
      (db : Database V) (p : Bytes)
      → deadline_of (maybe_compact_expiry_heap db) p ≡ deadline_of db p
  unfolding maybe_compact_expiry_heap deadline_of
  compact-deadlines db p = ground arith

  -- An expiration cycle changes nothing that can be seen from its time on, wherever the wall clock
  -- cuts it off, keeps the database valid, and expires at most `max_keys` keys.
  pub cycle-Shows :
      (late : ℕ → Bool) (db : Database V) (now : ℤ) (max_keys : ℕ)
      → IsValid db
      → Shows now (entry db) (run_active_expiration_cycle late db now max_keys).1
        × ((run_active_expiration_cycle late db now max_keys).0 ≤ max_keys)
  unfolding run_active_expiration_cycle
  cycle-Shows late db now max_keys v =
      let r = expire_loop-Shows late 0 now max_keys 0 db.expiry_heap db v in
      (
        Shows-trans now (entry db) _ _ r.shows (compact-Shows _ now r.valid),
        expire_loop-count late 0 now max_keys 0 db.expiry_heap db (omega arith),
      )

  -- After a cycle the queue has at most twice as many entries as there are deadlines, and 2048
  -- more.
  pub cycle-queue_bound :
      (late : ℕ → Bool) (db : Database V) (now : ℤ) (max_keys : ℕ)
      → IsValid db
      → length (run_active_expiration_cycle late db now max_keys).1.expiry_heap
        ≤ 2 * (HashTable.size (run_active_expiration_cycle late db now max_keys).1.expires + 1024)
  unfolding run_active_expiration_cycle
  cycle-queue_bound late db now max_keys v =
      compact-length _ (expire_loop-Shows late 0 now max_keys 0 db.expiry_heap db v).valid

  -- A cycle that the wall clock does not cut off and that expired fewer keys than its limit leaves
  -- no deadline that has passed.
  pub cycle-drains :
      (late : ℕ → Bool) (db : Database V) (now : ℤ) (max_keys : ℕ)
      → IsValid db
      → ((i : ℕ) → late i ≡ false)
      → (run_active_expiration_cycle late db now max_keys).0 < max_keys
      → (p : Bytes)
      → is_due (deadline_of (run_active_expiration_cycle late db now max_keys).1 p) now ≡ false
  unfolding run_active_expiration_cycle
  cycle-drains late db now max_keys v never few p =
      rw compact-deadlines
        (expire_loop-drains late 0 now max_keys 0 db.expiry_heap db v never few p)
