-- ===== src/Storage/HashTable/Operations.antt =====
-- What the operations of src/storage/hash_table.h promise a caller: each is the change of a finite
-- map at one key, whatever the rehash is doing, and the count follows.
use mathlib.Core.Option.{or_else}
use gredis.Base.{
  ℕ, ◌+◌, ◌-◌, ◌≡◌, ◌∙◌, refl, sym, not, Option, none, some, arith, Option-cases, inl, inr,
}
use gredis.Storage.HashTable.{
  HashKey, HashTable, size, find, insert_or_assign, unlink, take, erase, maybe_start_growth,
  maybe_start_shrink, maybe_rehash_step,
}
use gredis.Storage.HashTable.Chain.{to_nat}
use gredis.Storage.HashTable.Place.{look, look-none, many-some}
use gredis.Storage.HashTable.Writes.{unlink-Holds, count-pos}
use gredis.Storage.HashTable.Invariant.{
  IsValid, view, Models, IsStill, Models-IsStill, find_const-view, maybe_start_growth-IsStill,
  maybe_start_shrink-IsStill,
}
use gredis.Storage.HashTable.Rehash.{maybe_rehash_step-IsStill}
use gredis.Storage.HashTable.Update.{
  is_some, update, old-Models, new-Models, rehashing_of, assign-Models, insert_node-Models,
  unlink_keeps_nothing, unlink-count, unlink-none, unlink_old, unlink_new,
}

module _ {ℓ} {K V : Type ℓ} ⦃k : HashKey K⦄ where
  -- `unlink` at a key that is there
  unlink-Models :
      (t : HashTable K V) (v : IsValid t) (q : K) (x : V)
      → view t q ≡ some x
      → (u : HashTable K V) × (unlink t q ≡ some (x, u))
        × Models (update (view t) q none) (size t - 1) u
  unfolding view or_else size
  unlink-Models t v q x h = elim (Option-cases (look t.old_table q)) [
    | inr (y, e) ↦
        let same : y ≡ x = ground arith in
        let w = unlink-Holds t.old_table v.old_sound v.pos q y e (omega (arith, v.once q)) in
        let m =
          old-Models t v _ _ _ (size t - 1) w (λ p. omega (arith, v.once p))
            (λ i j at. unlink_keeps_nothing t v q j)
            (unfold size in
              omega (
                arith,
                unlink-count t v t.old_table q,
                count-pos t.old_table v.old_sound v.pos q y e,
              )) in
        let alone =
          look-none t.new_table q v.new_sound
            (omega (arith, v.once q, many-some t.old_table q y v.old_sound e)) in
        (
          _,
          rw (← same) (unlink_old t v q y e),
          record {
            valid = m.valid;
            reads = λ p. m.reads p ∙ ground (arith, k.equal_iff q p);
            sized = m.sized;
          },
        )
    | inl e ↦
        let h' : look t.new_table q ≡ some x = ground arith in
        let (i, at) = rehashing_of t v q h' in
        let w =
          unlink-Holds t.new_table v.new_sound (v.room i at) q x h' (omega (arith, v.once q)) in
        let m =
          new-Models t v _ _ _ (size t - 1) i at w (λ p. omega (arith, v.once p))
            (unfold size in
              omega (
                arith,
                unlink-count t v t.new_table q,
                count-pos t.new_table v.new_sound (v.room i at) q x h',
              )) in
        (
          _,
          unlink_new t v q x i e h' at,
          record {
            valid = m.valid;
            reads = λ p. m.reads p ∙ ground (arith, k.equal_iff q p);
            sized = m.sized;
          },
        )
  ]

  update-reads :
      (t u : HashTable K V) (q : K) (o : Option V) (n : ℕ) (w : HashTable K V)
      → IsStill t u
      → Models (update (view u) q o) n w
      → Models (update (view t) q o) n w
  update-reads t u q o n w s m = record {
    valid = m.valid;
    reads = λ p. m.reads p ∙ ground (arith, s.reads p);
    sized = m.sized;
  }

  -- On a valid table `find` returns what the map holds at the key, and the rehash step that it
  -- takes leaves the map and the size as they were.
  pub find-Models :
      (t : HashTable K V) (q : K) → IsValid t → ((find t q).0 ≡ view t q) × IsStill t (find t q).1
  unfolding find
  find-Models t q v =
      let s = maybe_rehash_step-IsStill t v in (find_const-view _ q s.valid ∙ s.reads q, s)

  -- On a valid table `insert_or_assign` leaves a valid table whose map differs at the key alone,
  -- whether or not a rehash is under way; it returns whether the key is new, and the size grows by
  -- one exactly then.
  pub insert_or_assign-Models :
      (t : HashTable K V) (q : K) (x : V)
      → IsValid t
      → ((insert_or_assign t q x).1 ≡ not (is_some (view t q)))
        × Models
            (update (view t) q (some x))
            (size t + to_nat (not (is_some (view t q))))
            (insert_or_assign t q x).0
  unfolding insert_or_assign
  insert_or_assign-Models t q x v =
      let u = maybe_rehash_step t in
      let s = maybe_rehash_step-IsStill t v in
      let found = find_const-view u q s.valid in
      elim (Option-cases (view u q)) [
        | inr (old, e) ↦
            let m = assign-Models u s.valid q x old e in
            let e' : view t q ≡ some old = sym (s.reads q) ∙ e in
            rw (found, e, e', insert_or_assign)
              (
                refl,
                update-reads t u q _ _ _ s (record {
                  valid = m.valid;
                  reads = m.reads;
                  sized = m.sized ∙ (omega (arith, s.sized));
                }),
              )
        | inl e ↦
            let g = maybe_start_growth-IsStill u s.valid in
            let all = Models-IsStill _ _ s g in
            let m = insert_node-Models (maybe_start_growth u) g.valid q x (g.reads q ∙ e) in
            let e' : view t q ≡ none = sym (s.reads q) ∙ e in
            rw (found, e, e', insert_or_assign)
              (
                refl,
                update-reads t _ q _ _ _ all (record {
                  valid = m.valid;
                  reads = m.reads;
                  sized = m.sized ∙ (omega (arith, all.sized));
                }),
              )
      ]

  take_tail :
      (t u : HashTable K V) (q : K) (x : V)
      → IsStill t u
      → IsValid u
      → view u q ≡ some x
      → (w : HashTable K V) × (unlink u q ≡ some (x, w))
        × Models (update (view t) q none) (size t - 1) (maybe_start_shrink w)
  take_tail t u q x s v e =
      let (w, run, m) = unlink-Models u v q x e in
      let all =
        Models-IsStill _ _ (update-reads t u q none _ w s m)
          (maybe_start_shrink-IsStill w m.valid) in
      (
        w,
        run,
        record { valid = all.valid; reads = all.reads; sized = all.sized ∙ omega (arith, s.sized) },
      )

  nothing_there :
      (t u : HashTable K V) (q : K)
      → IsStill t u
      → view u q ≡ none
      → Models (update (view t) q none) (size t - 0) u
  nothing_there t u q s e = record {
    valid = s.valid;
    reads = λ p. ground (arith, s.reads p, s.reads q, k.equal_iff q p);
    sized = s.sized ∙ omega arith;
  }

  -- On a valid table `take` returns what the map held at the key, and leaves a valid table without
  -- the key, smaller by one if it was there.
  pub take-Models :
      (t : HashTable K V) (q : K)
      → IsValid t
      → ((take t q).0 ≡ view t q)
        × Models (update (view t) q none) (size t - to_nat (is_some (view t q))) (take t q).1
  unfolding take
  take-Models t q v =
      let u = maybe_rehash_step t in
      let s = maybe_rehash_step-IsStill t v in
      elim (Option-cases (view u q)) [
        | inr (x, e) ↦
            let (w, run, m) = take_tail t u q x s s.valid e in
            rw (run, sym (s.reads q) ∙ e, take) (refl, m)
        | inl e ↦
            rw (unlink-none u s.valid q e, sym (s.reads q) ∙ e, take)
              (refl, nothing_there t u q s e)
      ]

  -- On a valid table `erase` reports whether the key was there, and leaves a valid table without
  -- the key, smaller by one if it was there.
  pub erase-Models :
      (t : HashTable K V) (q : K)
      → IsValid t
      → ((erase t q).0 ≡ is_some (view t q))
        × Models (update (view t) q none) (size t - to_nat (is_some (view t q))) (erase t q).1
  unfolding erase
  erase-Models t q v =
      let u = maybe_rehash_step t in
      let s = maybe_rehash_step-IsStill t v in
      elim (Option-cases (view u q)) [
        | inr (x, e) ↦
            let (w, run, m) = take_tail t u q x s s.valid e in
            rw (run, sym (s.reads q) ∙ e, erase) (refl, m)
        | inl e ↦
            rw (unlink-none u s.valid q e, sym (s.reads q) ∙ e, erase)
              (refl, nothing_there t u q s e)
      ]
