-- ===== src/Storage/Database/Overwrite.antt =====
-- A write through the pointer that `lookup_write` of src/storage/database.cpp returns, as the
-- handlers of src/commands do it.
use gredis.Base.Bytes.{Bytes, bytes_eq, bytes_eq_refl, bytes_eq_iff}
use gredis.Base.Int.{ℤ}
use gredis.Base.{
  ◌≡◌, ◌∙◌, refl, sym, ap, Option, none, some, true, false, arith, if◌then◌else◌, Bool-cases, inl,
  inr,
}
use gredis.Storage.Database.Contents.{entry_of, entry, IsValid, Holds-IsValid, Shows, entry-Holds}
use gredis.Storage.Database.Effects.{value_of, deadline_of, Holds, lookup_found, update-still}
use gredis.Storage.Database.Methods.{del-Shows, set-Shows, value_in, lookup-entry}
use gredis.Storage.Database.{set, del, Database, lookup_read, lookup_write, write_value}
use gredis.Storage.HashTable.Strings.{string_key}
use gredis.Storage.HashTable.Update.{update, assign-Models}

module _ {V : Type 0} where
  pub entry-some :
      (db : Database V) (now_ms : ℤ) (key : Bytes) (old : V) (d : Option ℤ)
      → entry db now_ms key ≡ some (old, d)
      → (deadline_of db key ≡ d) × (value_of db key ≡ some old)
  unfolding entry
  entry-some db now_ms key old d e = (ground arith, ground arith)

  write_value-Holds :
      (db r : Database V) (key : Bytes) (x old : V)
      → Holds (value_of db) (deadline_of db) db.expiry_heap r
      → value_of db key ≡ some old
      → Holds
          (update (value_of db) key (some x))
          (deadline_of db)
          db.expiry_heap
          (write_value r key x)
  unfolding write_value value_of deadline_of
  write_value-Holds db r key x old h e =
      let a = assign-Models r.keyspace h.keys key x old (unfold value_of in h.values_are key ∙ e) in
      record {
        keys = a.valid;
        ttls = h.ttls;
        values_are = λ p. a.reads p ∙ update-still _ _ key (some x) h.values_are p;
        deadlines_are = h.deadlines_are;
        queue = h.queue;
      }

  -- Writing to a key that is there gives it the new value with the deadline that it had.
  pub overwrite-Shows :
      (db : Database V) (key : Bytes) (now_ms : ℤ) (x old : V) (d : Option ℤ)
      → IsValid db
      → entry db now_ms key ≡ some (old, d)
      → Shows now_ms
          (λ t p. if bytes_eq key p then entry_of (some x) d t else entry db t p)
          (write_value (lookup_write db key now_ms).1 key x)
  unfolding lookup_write
  overwrite-Shows db key now_ms x old d v e =
      let (ends, has) = entry-some db now_ms key old d e in
      let found = (lookup-entry db key now_ms v).0 ∙ ap value_in e in
      let (early, _, h) =
        lookup_found db key now_ms old (v.keys, v.ttls) (unfold lookup_read in found) in
      let m = write_value-Holds db _ key x old h has in
      record {
        valid = Holds-IsValid _ _ _ _ m (λ p o. ground (arith, v.owned p)) v.covered v.sorted;
        shows = λ t p le.
            entry-Holds _ _ _ _ m t p ∙ (unfold entry in ground (arith, bytes_eq_iff key p, ends));
      }

  -- what is shown once the key shows `o`
  abbrev pub changed :
      Database V → Bytes → Option (V × Option ℤ) → ℤ → Bytes → Option (V × Option ℤ)
  changed db key none t p = if bytes_eq key p then none else entry db t p
  changed db key (some (x, d)) t p = if bytes_eq key p then entry_of (some x) d t else entry db t p

  -- a write to a key that is there, in a database that shows what `db` does
  pub rewrite-Shows :
      (db r : Database V) (key : Bytes) (now_ms : ℤ) (x old : V) (d : Option ℤ)
      → Shows now_ms (entry db) r
      → entry db now_ms key ≡ some (old, d)
      → Shows now_ms (changed db key (some (x, d))) (write_value r key x)
  rewrite-Shows db r key now_ms x old d s e =
      let e' = s.shows now_ms key (ground arith) ∙ e in
      let (ends, has) = entry-some r now_ms key old d e' in
      let v = s.valid in
      let m =
        write_value-Holds r r key x old
          (record {
            keys = v.keys;
            ttls = v.ttls;
            values_are = λ p. refl;
            deadlines_are = λ p. refl;
            queue = refl;
          })
          has in
      record {
        valid = Holds-IsValid _ _ _ _ m (λ p o. ground (arith, v.owned p)) v.covered v.sorted;
        shows = λ t p le. entry-Holds _ _ _ _ m t p ∙ elim (Bool-cases (bytes_eq key p)) [
          | inl same ↦ unfold entry in ground (arith, bytes_eq_iff key p, ends)
          | inr other ↦
              rw (sym (s.shows t p le)) (unfold entry in ground (arith, bytes_eq_iff key p))
        ];
      }

  -- a key that is not there is set, and looked up again
  pub create-Shows :
      (db r : Database V) (key : Bytes) (now_ms : ℤ) (x : V)
      → Shows now_ms (entry db) r
      → ((lookup_write (set r key x) key now_ms).0 ≡ some x)
        × (entry (set r key x) now_ms key ≡ some (x, none))
        × Shows now_ms (entry (set r key x)) (lookup_write (set r key x) key now_ms).1
        × Shows now_ms (changed db key (some (x, none))) (set r key x)
  create-Shows db r key now_ms x s =
      let w = set-Shows r key x now_ms s.valid in
      let (_, _, found, still) = lookup-entry (set r key x) key now_ms w.valid in
      let here : entry (set r key x) now_ms key ≡ some (x, none) =
        w.shows now_ms key (ground arith) ∙ rw (bytes_eq_refl key) refl in
      (
        found ∙ ap value_in here,
        here,
        still,
        record {
          valid = w.valid;
          shows = λ t p le.
              w.shows t p le
              ∙ ap (λ o. if bytes_eq key p then some (x, none) else o) (s.shows t p le);
        },
      )

  changed-elsewhere :
      (db : Database V) (key : Bytes) (o : Option (V × Option ℤ)) (t : ℤ) (p : Bytes)
      → bytes_eq key p ≡ false
      → changed db key o t p ≡ entry db t p
  changed-elsewhere db key none t p other = rw other refl
  changed-elsewhere db key (some (x, d)) t p other = rw other refl

  changed-here :
      (db r : Database V) (key : Bytes) (o : Option (V × Option ℤ)) (t : ℤ) (p : Bytes)
      → bytes_eq key p ≡ true
      → changed db key o t p ≡ changed r key o t p
  changed-here db r key none t p same = rw same refl
  changed-here db r key (some (x, d)) t p same = rw same refl

  -- a change of what a changed database shows at the same key
  pub changed_again :
      (db r u : Database V) (key : Bytes) (now_ms : ℤ) (o o' : Option (V × Option ℤ))
      → Shows now_ms (changed db key o) r
      → Shows now_ms (changed r key o') u
      → Shows now_ms (changed db key o') u
  changed_again db r u key now_ms o o' s w = record {
    valid = w.valid;
    shows = λ t p le. w.shows t p le ∙ elim (Bool-cases (bytes_eq key p)) [
      | inl same ↦ changed-here r db key o' t p same
      | inr other ↦
          changed-elsewhere r key o' t p other
          ∙ s.shows t p le
          ∙ changed-elsewhere db key o t p other
          ∙ sym (changed-elsewhere db key o' t p other)
    ];
  }

  -- the key is gone after it is deleted
  pub remove-Shows :
      (db r : Database V) (key : Bytes) (now_ms : ℤ) (o : Option (V × Option ℤ))
      → Shows now_ms (changed db key o) r
      → Shows now_ms (changed db key none) (del r key).1
  remove-Shows db r key now_ms o s =
      changed_again db r _ key now_ms o none s (del-Shows r key now_ms s.valid).1
