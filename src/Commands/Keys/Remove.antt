-- ===== src/Commands/Keys/Remove.antt =====
-- DEL, UNLINK and EXISTS, of src/commands/cmd_keys.cpp.
use gredis.Base.Bytes.{Bytes, bytes_eq, bytes_eq_iff}
use gredis.Base.Int.{ℤ, pos}
use gredis.Base.{
  ℕ, ◌+◌, ◌≡◌, ◌∙◌, refl, sym, ap, ap₂, Bool, true, false, ◌||◌, Option, none, arith, if◌then◌else◌,
  Bool-cases, Option-cases, inl, inr, List, [], ◌∷◌, drop,
}
use gredis.Commands.Keys.{del_loop, cmd_del, unlink_loop, cmd_unlink, exists_loop, cmd_exists}
use gredis.Commands.Value.{Value}
use gredis.Protocol.Writer.{integer}
use gredis.Storage.Database
use gredis.Storage.Database.Contents.{entry, IsValid, Shows, Shows-trans, Shows-refl}
use gredis.Storage.Database.Methods.{value_in, lookup-entry, del-Shows}
use gredis.Storage.Database.Ttl.{take-Shows, entry-none}
use gredis.Storage.Database.{Database, lookup_read, lookup_write, del}
use gredis.Storage.HashTable.Chain.{to_nat}
use gredis.Storage.HashTable.Update.{is_some}

abbrev pub is_member : Bytes → List Bytes → Bool
is_member p [] = false
is_member p (key ∷ keys) = bytes_eq key p || is_member p keys

module _ {A : Type 0} where
  -- how many of the keys are there, each counted where it comes first
  unfoldable pub number_gone : List Bytes → (Bytes → Option A) → ℕ
  number_gone [] f = 0
  number_gone (key ∷ keys) f =
      to_nat (is_some (f key)) + number_gone keys (λ q. if bytes_eq key q then none else f q)

  -- how many of the keys are there, with repetitions
  unfoldable pub number_there : List Bytes → (Bytes → Option A) → ℕ
  number_there [] f = 0
  number_there (key ∷ keys) f = to_nat (is_some (f key)) + number_there keys f

  number_gone-same :
      (keys : List Bytes) (f g : Bytes → Option A)
      → ((q : Bytes) → f q ≡ g q)
      → number_gone keys f ≡ number_gone keys g
  unfolding number_gone
  number_gone-same [] f g h = refl
  number_gone-same (key ∷ keys) f g h =
      ap₂ (λ o n. to_nat (is_some o) + n) (h key)
        (number_gone-same keys _ _ (λ q. ap (λ o. if bytes_eq key q then none else o) (h q)))

module _ {V : Type 0} where
  Gone : Database V → List Bytes → ℤ → ℕ → Database V → Type 0
  Gone db keys now n r =
      (n ≡ number_gone keys (entry db now))
      × Shows now (λ t p. if is_member p keys then none else entry db t p) r

  -- one key, then the others
  Gone-step :
      (db r u : Database V) (key : Bytes) (keys : List Bytes) (now : ℤ) (n : ℕ)
      → Shows now (λ t p. if bytes_eq key p then none else entry db t p) r
      → Gone r keys now n u
      → Gone db (key ∷ keys) now (to_nat (is_some (entry db now key)) + n) u
  unfolding Gone number_gone
  Gone-step db r u key keys now n s (count, rest) = (
    ap (λ m. to_nat (is_some (entry db now key)) + m)
        (count ∙ number_gone-same keys _ _ (λ q. s.shows now q (ground arith))),
    record {
      valid = rest.valid;
      shows = λ t p le.
          rest.shows t p le
          ∙ ap (λ o. if is_member p keys then none else o) (s.shows t p le)
          ∙ both (bytes_eq key p) (is_member p keys) (entry db t p);
    },
  )
    where
      both :
          (a b : Bool) (o : Option (V × Option ℤ))
          → (if b then none else if a then none else o) ≡ (if a || b then none else o)
      both true true o = refl
      both true false o = refl
      both false b o = refl

  gone_key :
      (db r u : Database V) (key : Bytes) (now : ℤ)
      → Shows now (entry db) r
      → Shows now (λ t p. if bytes_eq key p then none else entry r t p) u
      → Shows now (λ t p. if bytes_eq key p then none else entry db t p) u
  gone_key db r u key now s w = record {
    valid = w.valid;
    shows =
        λ t p le. w.shows t p le ∙ ap (λ o. if bytes_eq key p then none else o) (s.shows t p le);
  }

  missing_key :
      (db r : Database V) (key : Bytes) (now : ℤ)
      → entry db now key ≡ none
      → Shows now (entry db) r
      → Shows now (λ t p. if bytes_eq key p then none else entry db t p) r
  missing_key db r key now e s = record {
    valid = s.valid;
    shows = λ t p le. s.shows t p le ∙ elim (Bool-cases (bytes_eq key p)) [
      | inr other ↦ rw other refl
      | inl same ↦
          let k : key ≡ p = (bytes_eq_iff key p).0 same in
          rw same (ap (entry db t) (sym k) ∙ entry-none db key now t e le)
    ];
  }

module _ {Z : Type 0} where
  exists_loop-Shows :
      (db r : Database (Value Z)) (keys : List Bytes) (now : ℤ)
      → Shows now (entry db) r
      → ((exists_loop r keys now).0 ≡ number_there keys (entry db now))
        × Shows now (entry db) (exists_loop r keys now).1
  unfolding exists_loop number_there
  exists_loop-Shows db r [] now s = (refl, s)
  exists_loop-Shows db r (key ∷ keys) now s =
      let (found, still, _, _) = lookup-entry r key now s.valid in
      let (told, rest) =
        exists_loop-Shows db (lookup_read r key now).1 keys now
          (Shows-trans now (entry db) r _ s.shows still) in
      let here = found ∙ ap value_in (s.shows now key (ground arith)) in
      elim (Option-cases (entry db now key)) [
        | inl e ↦ rw (here, e, exists_loop) (omega (arith, told), rest)
        | inr (x, e) ↦ rw (here, e, exists_loop) (omega (arith, told), rest)
      ]

  del_loop-Gone :
      (db : Database (Value Z)) (keys : List Bytes) (now : ℤ)
      → IsValid db
      → Gone db keys now (del_loop db keys now).0 (del_loop db keys now).1
  unfolding del_loop Gone
  del_loop-Gone db [] now v = (unfold number_gone in refl, Shows-refl db now v)
  del_loop-Gone db (key ∷ keys) now v =
      let (_, _, found, still) = lookup-entry db key now v in
      let db' = (lookup_write db key now).1 in
      let removed = (del-Shows db' key now still.valid).1 in
      elim (Option-cases (entry db now key)) [
        | inl e ↦
            let s = missing_key db db' key now e still in
            let g = Gone-step db db' _ key keys now _ s (del_loop-Gone db' keys now still.valid) in
            let z : to_nat (is_some (entry db now key)) ≡ 0 = rw e refl in
            rw (found, e, del_loop) (omega (arith, z, g.0), g.1)
        | inr (x, e) ↦
            let s = gone_key db db' _ key now still removed in
            let g =
              Gone-step db _ _ key keys now _ s
                (del_loop-Gone (del db' key).1 keys now removed.valid) in
            let z : to_nat (is_some (entry db now key)) ≡ 1 = rw e refl in
            rw (found, e, del_loop) (omega (arith, z, g.0), g.1)
      ]

  unlink_loop-Gone :
      (zset_size : Z → ℕ) (db : Database (Value Z)) (keys : List Bytes) (now : ℤ)
      → IsValid db
      → Gone db keys now (unlink_loop zset_size db keys now).0 (unlink_loop zset_size db keys now).2
  unfolding unlink_loop Gone
  unlink_loop-Gone zset_size db [] now v = (unfold number_gone in refl, Shows-refl db now v)
  unlink_loop-Gone zset_size db (key ∷ keys) now v =
      let (found, removed) = take-Shows db key now v in
      let r = (Database.take db key now).1 in
      let g =
        Gone-step db r _ key keys now _ removed
          (unlink_loop-Gone zset_size r keys now removed.valid) in
      elim (Option-cases (entry db now key)) [
        | inl e ↦
            let z : to_nat (is_some (entry db now key)) ≡ 0 = rw e refl in
            rw (found, e, unlink_loop) (omega (arith, z, g.0), g.1)
        | inr (x, e) ↦
            let z : to_nat (is_some (entry db now key)) ≡ 1 = rw e refl in
            rw (found, e, unlink_loop) (omega (arith, z, g.0), g.1)
      ]

  -- On a valid database EXISTS answers how many of its keys are there, each as often as it is
  -- named, and changes nothing that can be seen.
  pub cmd_exists-Shows :
      (db : Database (Value Z)) (argv : List Bytes) (now : ℤ)
      → IsValid db
      → ((cmd_exists db argv now).0 ≡ integer (pos (number_there (drop 1 argv) (entry db now))))
        × Shows now (entry db) (cmd_exists db argv now).1
  unfolding cmd_exists
  cmd_exists-Shows db argv now v =
      let (told, rest) = exists_loop-Shows db db (drop 1 argv) now (Shows-refl db now v) in
      (ap (λ n. integer (pos n)) told, rest)

  -- On a valid database DEL and UNLINK answer alike, how many of their keys are there, a repeated
  -- key counted once; the keys are gone afterwards, and no other key changes.
  pub cmd_del-Shows :
      (zset_size : Z → ℕ) (db : Database (Value Z)) (argv : List Bytes) (now : ℤ)
      → IsValid db
      → ((cmd_del db argv now).0 ≡ integer (pos (number_gone (drop 1 argv) (entry db now))))
        × ((cmd_unlink zset_size db argv now).0 ≡ (cmd_del db argv now).0)
        × Shows now
            (λ t p. if is_member p (drop 1 argv) then none else entry db t p)
            (cmd_del db argv now).1
        × Shows now
            (λ t p. if is_member p (drop 1 argv) then none else entry db t p)
            (cmd_unlink zset_size db argv now).2
  unfolding cmd_del cmd_unlink Gone
  cmd_del-Shows zset_size db argv now v =
      let a = del_loop-Gone db (drop 1 argv) now v in
      let b = unlink_loop-Gone zset_size db (drop 1 argv) now v in
      (ap (λ n. integer (pos n)) a.0, ap (λ n. integer (pos n)) (b.0 ∙ sym a.0), a.1, b.1)
