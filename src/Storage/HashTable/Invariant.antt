-- ===== src/Storage/HashTable/Invariant.antt =====
-- The invariant of the whole hash table of src/storage/hash_table.h, and the finite map it stands for.
use mathlib.Core.Option.{or_else}
use Prim.Native.Nat.{max}
use gredis.Base.{
  ℕ, ◌+◌, ◌*◌, ◌/◌, ◌≤◌, ◌<◌, ◌≡◌, ◌⊎◌, ◌∙◌, refl, ap, false, Option, none, some, [], arith, length,
  get_or, inl, inr,
}
use gredis.Storage.HashTable.{
  HashKey, HashTable, no_table, empty_table, size, is_rehashing, find_const, start_rehash,
  maybe_start_shrink, maybe_start_growth,
}
use gredis.Storage.HashTable.Place.{IsSound, look, many, Holds, fresh-Holds}

module _ {ℓ} {K V : Type ℓ} ⦃k : HashKey K⦄ where
  -- what the cursor says of the two tables
  pub record IsValid (t : HashTable K V) : Type ℓ where
    pub old_sound : IsSound t.old_table
    pub new_sound : IsSound t.new_table
    pub pos : 0 < length t.old_table.buckets
    pub once : (p : K) → many t.old_table p + many t.new_table p ≤ 1
    pub idle : t.rehash_idx ≡ none → t.new_table ≡ no_table
    pub cursor : (i : ℕ) → t.rehash_idx ≡ some i → i ≤ length t.old_table.buckets
    pub room : (i : ℕ) → t.rehash_idx ≡ some i → 0 < length t.new_table.buckets
    pub moved :
        (i : ℕ) → t.rehash_idx ≡ some i → (j : ℕ) → j < i → get_or t.old_table.buckets j [] ≡ []

  -- the finite map that the table stands for
  unfoldable pub view : HashTable K V → K → Option V
  view t p = or_else (look t.old_table p) (look t.new_table p)

  -- a valid table that stands for the map `f`, with `n` entries counted
  pub record Models (f : K → Option V) (n : ℕ) (t : HashTable K V) : Type ℓ where
    pub valid : IsValid t
    pub reads : (p : K) → view t p ≡ f p
    pub sized : size t ≡ n

  abbrev pub IsStill : HashTable K V → HashTable K V → Type ℓ
  IsStill t = Models (view t) (size t)

  pub IsStill-refl : (t : HashTable K V) → IsValid t → IsStill t t
  IsStill-refl t v = record { valid = v; reads = λ p. refl; sized = refl }

  pub Models-IsStill :
      {f : K → Option V} {n : ℕ} (t u : HashTable K V) → Models f n t → IsStill t u → Models f n u
  Models-IsStill t u m s = record {
    valid = s.valid;
    reads = λ p. s.reads p ∙ m.reads p;
    sized = s.sized ∙ m.sized;
  }

  pub no_table-Holds : Holds 0 (λ _. none) (λ _. 0) (no_table {K = K} {V = V})
  no_table-Holds = fresh-Holds 0

  pub empty_table-Models : Models (λ _. none) 0 (empty_table {K = K} {V = V})
  unfolding empty_table view size or_else
  empty_table-Models =
      let fresh = fresh-Holds {K = K} {V = V} 4 in
      let nothing = no_table-Holds in
      record {
        valid = record {
          old_sound = fresh.sound;
          new_sound = nothing.sound;
          pos = omega arith;
          once = λ p. omega (arith, fresh.manys p, nothing.manys p);
          idle = λ _. refl;
          cursor = λ i e. absurd (cc);
          room = λ i e. absurd (cc);
          moved = λ i e j lt. absurd (cc);
        };
        reads = λ p. rw (fresh.looks p) (nothing.looks p);
        sized = refl;
      }

  -- the lookup on a constant table reads the map
  pub find_const-view : (t : HashTable K V) (q : K) → IsValid t → find_const t q ≡ view t q
  unfolding find_const view look or_else
  find_const-view t q v =
      ground
        (arith, v.idle, ap (λ s. look s q) {x = t.new_table} {y = no_table}, no_table-Holds.looks q)

  -- a rehash starts with an empty table beside a table that was alone
  pub start_rehash-IsStill :
      (t : HashTable K V) (n : ℕ) → IsValid t → t.rehash_idx ≡ none → IsStill t (start_rehash n t)
  unfolding start_rehash view size
  start_rehash-IsStill t n v e =
      let fresh = fresh-Holds {K = K} {V = V} (max n 4) in
      let nothing = no_table-Holds in
      let alone = v.idle e in
      record {
        valid = record {
          old_sound = v.old_sound;
          new_sound = fresh.sound;
          pos = v.pos;
          once = λ p. omega (arith, v.once p, fresh.manys p);
          idle = λ h. absurd (cc);
          cursor = λ i h. let z : i ≡ 0 = cc in omega arith;
          room = λ i h. omega (arith, fresh.width);
          moved = λ i h j lt. let z : i ≡ 0 = cc in absurd (omega arith);
        };
        reads = λ p. rw (fresh.looks p, alone, nothing.looks p) refl;
        sized = rw alone refl;
      }

  pub not_rehashing : (t : HashTable K V) → is_rehashing t ≡ false → t.rehash_idx ≡ none
  not_rehashing t e = ground arith

  shrink_cases :
      (t : HashTable K V)
      → (maybe_start_shrink t ≡ t)
        ⊎ ((is_rehashing t ≡ false)
            × (maybe_start_shrink t ≡ start_rehash (max (length t.old_table.buckets / 2) 4) t))
  unfolding maybe_start_shrink
  shrink_cases t = ground arith

  pub maybe_start_shrink-IsStill :
      (t : HashTable K V) → IsValid t → IsStill t (maybe_start_shrink t)
  maybe_start_shrink-IsStill t v = elim (shrink_cases t) [
    | inl e ↦ rw e (IsStill-refl t v)
    | inr (idle, e) ↦ rw e (start_rehash-IsStill t _ v (not_rehashing t idle))
  ]

  growth_cases :
      (t : HashTable K V)
      → (maybe_start_growth t ≡ t)
        ⊎ ((is_rehashing t ≡ false)
            × (maybe_start_growth t ≡ start_rehash (length t.old_table.buckets * 2) t))
  unfolding maybe_start_growth
  growth_cases t = ground arith

  pub maybe_start_growth-IsStill :
      (t : HashTable K V) → IsValid t → IsStill t (maybe_start_growth t)
  maybe_start_growth-IsStill t v = elim (growth_cases t) [
    | inl e ↦ rw e (IsStill-refl t v)
    | inr (idle, e) ↦ rw e (start_rehash-IsStill t _ v (not_rehashing t idle))
  ]
