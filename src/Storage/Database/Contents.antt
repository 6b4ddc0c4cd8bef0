-- ===== src/Storage/Database/Contents.antt =====
-- What a database of src/storage/database.h holds at a time: for each key that has not expired, its
-- value and its deadline. The invariant, and when two databases hold the same from some time on.
use gredis.Base.Bytes.{Bytes, bytes_eq_iff}
use gredis.Base.Int.{ℤ, leb_ℤ}
use gredis.Base.{
  ◌≡◌, ◌∙◌, refl, sym, ap, ap₂, true, false, Option, none, some, arith, if◌then◌else◌, Bool-cases,
  inl, inr,
}
use gredis.Storage.Database.Effects.{value_of, deadline_of, Holds, IsSound, lookup_and_expire-Holds}
use gredis.Storage.Database.{Database, is_due, lookup_and_expire, empty_database}
use gredis.Storage.Expiry.Queue.{queued, IsSorted}
use gredis.Storage.Expiry.{ExpiryHeap}
use gredis.Storage.HashTable.Invariant.{empty_table-Models, Models}
use gredis.Storage.HashTable.Invariant
use gredis.Storage.HashTable.Strings.{string_key}
use gredis.Storage.HashTable.Update.{is_some}

-- a deadline that has passed stays passed
pub is_due_mono :
    (d : Option ℤ) (now t : ℤ) → leb_ℤ now t ≡ true → is_due d now ≡ true → is_due d t ≡ true
is_due_mono none now t le e = e
is_due_mono (some d) now t le e = ground arith

module _ {V : Type 0} where
  -- a value with its deadline, if there is a value and the deadline has not passed
  abbrev pub entry_of : Option V → Option ℤ → ℤ → Option (V × Option ℤ)
  entry_of value deadline t =
      if is_due deadline t then none else elim value [ none ↦ none | some x ↦ some (x, deadline) ]

  unfoldable pub entry : Database V → ℤ → Bytes → Option (V × Option ℤ)
  entry db t p = entry_of (value_of db p) (deadline_of db p) t

  -- only keys with a value have a deadline
  abbrev pub IsOwned : (Bytes → Option V) → (Bytes → Option ℤ) → Type 0
  IsOwned values deadlines = (p : Bytes) → is_some (deadlines p) ≡ true → is_some (values p) ≡ true

  pub record IsValid (db : Database V) : Type 0 where
    pub keys : Invariant.IsValid db.keyspace
    pub ttls : Invariant.IsValid db.expires
    pub owned : IsOwned (value_of db) (deadline_of db)
    pub covered : (p : Bytes) (d : ℤ) → deadline_of db p ≡ some d → queued p d db.expiry_heap ≡ true
    pub sorted : IsSorted db.expiry_heap

  pub IsValid-IsSound : (db : Database V) → IsValid db → IsSound db
  IsValid-IsSound db v = (v.keys, v.ttls)

  pub Holds-IsValid :
      (v : Bytes → Option V) (d : Bytes → Option ℤ) (h : ExpiryHeap) (r : Database V)
      → Holds v d h r
      → IsOwned v d
      → ((p : Bytes) (x : ℤ) → d p ≡ some x → queued p x h ≡ true)
      → IsSorted h
      → IsValid r
  Holds-IsValid v d h r m owned covered sorted = record {
    keys = m.keys;
    ttls = m.ttls;
    owned = λ p e. rw (m.values_are p) (owned p (rw (m.deadlines_are p) at e));
    covered = λ p x e. rw m.queue (covered p x (sym (m.deadlines_are p) ∙ e));
    sorted = rw m.queue sorted;
  }

  -- `r` is valid, and from `now` on it holds what `f` says
  pub record Shows (now : ℤ) (f : ℤ → Bytes → Option (V × Option ℤ)) (r : Database V) : Type 0 where
    pub valid : IsValid r
    pub shows : (t : ℤ) (p : Bytes) → leb_ℤ now t ≡ true → entry r t p ≡ f t p

  pub Shows-refl : (db : Database V) (now : ℤ) → IsValid db → Shows now (entry db) db
  Shows-refl db now v = record { valid = v; shows = λ t p le. refl }

  pub Shows-trans :
      (now : ℤ) (f : ℤ → Bytes → Option (V × Option ℤ)) (db r : Database V)
      → ((t : ℤ) (p : Bytes) → leb_ℤ now t ≡ true → entry db t p ≡ f t p)
      → Shows now (entry db) r
      → Shows now f r
  Shows-trans now f db r h s = record {
    valid = s.valid;
    shows = λ t p le. s.shows t p le ∙ h t p le;
  }

  pub entry-Holds :
      (v : Bytes → Option V) (d : Bytes → Option ℤ) (h : ExpiryHeap) (r : Database V)
      → Holds v d h r
      → (t : ℤ) (p : Bytes) → entry r t p ≡ entry_of (v p) (d p) t
  unfolding entry
  entry-Holds v d h r m t p = ap₂ (λ a b. entry_of a b t) (m.values_are p) (m.deadlines_are p)

  pub empty_database-Shows : (now : ℤ) → Shows now (λ t p. none) (empty_database {V = V})
  unfolding empty_database entry value_of deadline_of
  empty_database-Shows now =
      let a = empty_table-Models {K = Bytes} {V = V} in
      let b = empty_table-Models {K = Bytes} {V = ℤ} in
      record {
        valid = record {
          keys = a.valid;
          ttls = b.valid;
          owned = λ p e.
              absurd (let z = ap is_some (b.reads p) in let w : false ≡ true = sym z ∙ e in cc);
          covered = λ p d e. absurd (let w : none ≡ some d = sym (b.reads p) ∙ e in cc);
          sorted = tt;
        };
        shows = λ t p le. rw (a.reads p, b.reads p) refl;
      }

  -- erasing a key that is due changes nothing from then on
  pub lookup-Shows :
      (db : Database V) (key : Bytes) (now : ℤ)
      → IsValid db
      → Shows now (entry db) (lookup_and_expire db key now).1
  unfolding entry
  lookup-Shows db key now v =
      let (found, m) = lookup_and_expire-Holds db key now (v.keys, v.ttls) in
      elim (Bool-cases (is_due (deadline_of db key) now)) [
        | inr early ↦
            let m' = rw early at m in
            record {
              valid = Holds-IsValid _ _ _ _ m' v.owned v.covered v.sorted;
              shows = λ t p le. entry-Holds _ _ _ _ m' t p;
            }
        | inl due ↦
            let m' = rw due at m in
            record {
              valid =
                  Holds-IsValid _ _ _ _ m' (λ p e. ground (arith, v.owned p))
                    (λ p x e. ground (arith, v.covered p x)) v.sorted;
              shows = λ t p le.
                  entry-Holds _ _ _ _ m' t p
                  ∙ ground
                      (arith, bytes_eq_iff key p, is_due_mono (deadline_of db key) now t le due);
            }
      ]
