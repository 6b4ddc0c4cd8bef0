-- ===== src/Storage/Database/Effects.antt =====
-- What a method of src/storage/database.cpp does to the two tables of a database, seen as two maps,
-- and to its queue.
use gredis.Base.Bytes.{Bytes}
use gredis.Base.Int.{ℤ}
use gredis.Base.{
  ◌≡◌, ◌∙◌, refl, sym, false, Option, none, some, if◌then◌else◌, Bool-cases, inl, inr,
}
use gredis.Storage.Database.{Database, is_due, erase_both, lookup_and_expire, set}
use gredis.Storage.Expiry.{ExpiryHeap}
use gredis.Storage.HashTable
use gredis.Storage.HashTable.Invariant.{IsValid, view}
use gredis.Storage.HashTable.Operations.{find-Models, insert_or_assign-Models, erase-Models}
use gredis.Storage.HashTable.Strings.{string_key}
use gredis.Storage.HashTable.Update.{update}

pub update-still :
    {A : Type 0} (f g : Bytes → Option A) (key : Bytes) (o : Option A)
    → ((p : Bytes) → f p ≡ g p)
    → (p : Bytes) → update f key o p ≡ update g key o p
update-still f g key o h p = rw (h p) refl

module _ {V : Type 0} where
  unfoldable pub value_of : Database V → Bytes → Option V
  value_of db p = view db.keyspace p

  unfoldable pub deadline_of : Database V → Bytes → Option ℤ
  deadline_of db p = view db.expires p

  -- both tables of `db` are sound, and hold these maps beside this queue
  pub record Holds (values : Bytes → Option V) (deadlines : Bytes → Option ℤ) (heap : ExpiryHeap)
      (db : Database V) : Type 0 where
    pub keys : IsValid db.keyspace
    pub ttls : IsValid db.expires
    pub values_are : (p : Bytes) → value_of db p ≡ values p
    pub deadlines_are : (p : Bytes) → deadline_of db p ≡ deadlines p
    pub queue : db.expiry_heap ≡ heap

  abbrev pub IsSound : Database V → Type 0
  IsSound db = IsValid db.keyspace × IsValid db.expires

  pub erase_both-Holds :
      (db : Database V) (key : Bytes)
      → IsSound db
      → Holds
          (update (value_of db) key none)
          (update (deadline_of db) key none)
          db.expiry_heap
          (erase_both db key)
  unfolding erase_both value_of deadline_of
  erase_both-Holds db key s =
      let a = (erase-Models db.keyspace key s.0).1 in
      let b = (erase-Models db.expires key s.1).1 in
      record {
        keys = a.valid;
        ttls = b.valid;
        values_are = a.reads;
        deadlines_are = b.reads;
        queue = refl;
      }

  pub Holds-map :
      (v v' : Bytes → Option V) (d d' : Bytes → Option ℤ) (h h' : ExpiryHeap) (r : Database V)
      → Holds v d h r
      → ((p : Bytes) → v p ≡ v' p)
      → ((p : Bytes) → d p ≡ d' p)
      → h ≡ h'
      → Holds v' d' h' r
  Holds-map v v' d d' h h' r m e f g = record {
    keys = m.keys;
    ttls = m.ttls;
    values_are = λ p. m.values_are p ∙ e p;
    deadlines_are = λ p. m.deadlines_are p ∙ f p;
    queue = m.queue ∙ g;
  }

  -- the maps that a lookup at `key` leaves: the key is gone from both if its deadline has passed
  abbrev pub after_lookup :
      {A : Type 0} → Database V → Bytes → ℤ → (Bytes → Option A) → Bytes → Option A
  after_lookup db key now_ms f = if is_due (deadline_of db key) now_ms then update f key none else f

  pub lookup_and_expire-Holds :
      (db : Database V) (key : Bytes) (now_ms : ℤ)
      → IsSound db
      → ((lookup_and_expire db key now_ms).0
          ≡ (if is_due (deadline_of db key) now_ms then none else value_of db key))
        × Holds
            (after_lookup db key now_ms (value_of db))
            (after_lookup db key now_ms (deadline_of db))
            db.expiry_heap
            (lookup_and_expire db key now_ms).1
  unfolding lookup_and_expire value_of deadline_of
  lookup_and_expire-Holds db key now_ms s =
      let (found, ttl) = find-Models db.expires key s.1 in
      let (value, keys) = find-Models db.keyspace key s.0 in
      let db' : Database V = record db { expires = (HashTable.find db.expires key).1 } in
      elim (Bool-cases (is_due (view db.expires key) now_ms)) [
        | inl due ↦
            let gone = erase_both-Holds db' key (s.0, ttl.valid) in
            rw (found, due, lookup_and_expire)
              (
                refl,
                record {
                  keys = gone.keys;
                  ttls = gone.ttls;
                  values_are = gone.values_are;
                  deadlines_are = λ p.
                      gone.deadlines_are p
                      ∙ update-still _ _ key none (unfold deadline_of in ttl.reads) p;
                  queue = gone.queue;
                },
              )
        | inr early ↦
            rw (found, early, lookup_and_expire)
              (
                value,
                record {
                  keys = keys.valid;
                  ttls = ttl.valid;
                  values_are = keys.reads;
                  deadlines_are = ttl.reads;
                  queue = refl;
                },
              )
      ]

  -- a lookup that finds a value leaves the maps as they are
  pub lookup_found :
      (db : Database V) (key : Bytes) (now_ms : ℤ) (x : V)
      → IsSound db
      → (lookup_and_expire db key now_ms).0 ≡ some x
      → (is_due (deadline_of db key) now_ms ≡ false)
        × (value_of db key ≡ some x)
        × Holds (value_of db) (deadline_of db) db.expiry_heap (lookup_and_expire db key now_ms).1
  lookup_found db key now_ms x s e =
      let (found, h) = lookup_and_expire-Holds db key now_ms s in
      elim (Bool-cases (is_due (deadline_of db key) now_ms)) [
        | inl due ↦ absurd (let z : none ≡ some x = sym (rw due at found) ∙ e in cc)
        | inr early ↦ (early, sym (rw early at found) ∙ e, rw early at h)
      ]

  pub set-Holds :
      (db : Database V) (key : Bytes) (x : V)
      → IsSound db
      → Holds
          (update (value_of db) key (some x))
          (update (deadline_of db) key none)
          db.expiry_heap
          (set db key x)
  unfolding set value_of deadline_of
  set-Holds db key x s =
      let a = (insert_or_assign-Models db.keyspace key x s.0).1 in
      let b = (erase-Models db.expires key s.1).1 in
      record {
        keys = a.valid;
        ttls = b.valid;
        values_are = a.reads;
        deadlines_are = b.reads;
        queue = refl;
      }
