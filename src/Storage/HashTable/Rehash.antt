-- ===== src/Storage/HashTable/Rehash.antt =====
-- `rehash_step` of src/storage/hash_table.h: buckets move to the new table, and no entry is lost,
-- doubled or miscounted on the way.
use mathlib.Core.Option.{or_else}
use native.Mathlib.Decide.{ℕ_discrete}
use gredis.Base.{
  ℕ, zero, suc, ◌+◌, ◌-◌, ◌*◌, ◌≤◌, ◌<◌, ◌≡◌, refl, ap, ◌&&◌, Option, none, some, List, [], ◌∷◌,
  arith, if◌then◌else◌, ◌==◌, ltb, leb, leb→le, length, get_or, Bool-cases, inl, inr,
  get_or-set_self, get_or-set_ne, length-set,
}
use gredis.Storage.HashTable.{
  HashKey, Node, Table, HashTable, home, chain_of, no_table, size, is_rehashing, drop_bucket,
  migrate_bucket, migrate, finish, rehash_step, maybe_rehash_step, find_chain, find_in,
}
use gredis.Storage.HashTable.Chain.{occurs, find_chain-none}
use gredis.Storage.HashTable.Place.{look, many, total, All-IsHashed, occurs_elsewhere, home-lt}
use gredis.Storage.HashTable.Writes.{
  drop-Holds, move_chain-Holds, count-move_chain, length-le_total,
}
use gredis.Storage.HashTable.Invariant.{
  IsValid, view, IsStill, IsStill-refl, Models-IsStill, no_table-Holds,
}

module _ {ℓ} {K V : Type ℓ} ⦃k : HashKey K⦄ where
  module _ (t : HashTable K V) (v : IsValid t) (i : ℕ) (at : t.rehash_idx ≡ some i)
      (lt : i < length t.old_table.buckets) where
    -- a bucket with nothing in it is passed over
    skip-IsStill :
        get_or t.old_table.buckets i [] ≡ [] → IsStill t (record t { rehash_idx = some (suc i) })
    unfolding view size
    skip-IsStill e = record {
      valid = record {
        old_sound = v.old_sound;
        new_sound = v.new_sound;
        pos = v.pos;
        once = v.once;
        idle = λ h. absurd (cc);
        cursor = λ j h. let z : j ≡ suc i = cc in omega arith;
        room = λ j h. v.room i at;
        moved = λ j h l below.
            let z : j ≡ suc i = cc in
            elim (ℕ_discrete l i) [ yes p ↦ rw p e | no p ↦ v.moved i at l (omega arith) ];
      };
      reads = λ p. refl;
      sized = refl;
    }

    -- the keys of the bucket have all their old nodes in it, and no other key has one
    occurs-bucket :
        (p : K)
        → occurs p (get_or t.old_table.buckets i [])
          ≡ (if home (k.hash p) (length t.old_table.buckets) == i then many t.old_table p else 0)
    unfolding many
    occurs-bucket p = elim (ℕ_discrete (home (k.hash p) (length t.old_table.buckets)) i) [
      | yes e ↦ rw e (ground arith)
      | no n ↦ ground (arith, occurs_elsewhere p _ i _ (v.old_sound.placed i) n)
    ]

    find-bucket :
        (p : K)
        → find_chain p (k.hash p) (get_or t.old_table.buckets i [])
          ≡ (if home (k.hash p) (length t.old_table.buckets) == i then look t.old_table p else none)
    unfolding look find_in
    find-bucket p = elim (ℕ_discrete (home (k.hash p) (length t.old_table.buckets)) i) [
      | yes e ↦ rw e (ground arith)
      | no n ↦
          let a = v.old_sound.placed i in
          ground (arith, find_chain-none p _ (All-IsHashed _ _ _ a) (occurs_elsewhere p _ i _ a n))
    ]

    bucket_few : (p : K) → occurs p (get_or t.old_table.buckets i []) ≤ 1
    bucket_few p = ground (arith, occurs-bucket p, v.once p)

    bucket-size : length (get_or t.old_table.buckets i []) ≤ t.old_table.count
    bucket-size = omega (arith, v.old_sound.counted, length-le_total t.old_table.buckets i lt)

    -- the nodes of a bucket change tables
    migrate_bucket-IsStill : IsStill t (migrate_bucket t i)
    unfolding migrate_bucket drop_bucket view size or_else
    migrate_bucket-IsStill =
        let c = get_or t.old_table.buckets i [] in
        let hashed = All-IsHashed _ _ c (v.old_sound.placed i) in
        let old = drop-Holds t.old_table v.old_sound v.pos i lt in
        let new = move_chain-Holds c t.new_table v.new_sound (v.room i at) hashed bucket_few in
        record {
          valid = record {
            old_sound = old.sound;
            new_sound = new.sound;
            pos = rw old.width v.pos;
            once = λ p. ground (arith, old.manys p, new.manys p, occurs-bucket p, v.once p);
            idle = λ h. absurd (cc);
            cursor = λ j h. let z : j ≡ suc i = cc in rw old.width (omega arith);
            room = λ j h. rw new.width (v.room i at);
            moved = λ j h l below.
                let z : j ≡ suc i = cc in
                elim (ℕ_discrete i l) [
                  | yes e ↦ rw (← e) (get_or-set_self t.old_table.buckets i [] [] lt)
                  | no n ↦
                      rw (get_or-set_ne t.old_table.buckets i l [] [] n)
                        (v.moved i at l (omega arith))
                ];
          };
          reads = λ p. ground (arith, old.looks p, new.looks p, find-bucket p);
          sized = omega (arith, count-move_chain c t.new_table, bucket-size);
        }

    pub migrate_bucket-width :
        length (migrate_bucket t i).old_table.buckets ≡ length t.old_table.buckets
    unfolding migrate_bucket drop_bucket
    migrate_bucket-width = length-set t.old_table.buckets i []

module _ {ℓ} (K V : Type ℓ) ⦃k : HashKey K⦄ where
  abbrev Keeps : ℕ → Type ℓ
  Keeps rounds =
      (budget skips : ℕ) (t : HashTable K V) (i : ℕ)
      → IsValid t
      → t.rehash_idx ≡ some i
      → i + rounds ≡ length t.old_table.buckets
      → IsStill t (migrate rounds budget skips t i)

  -- one round, given that those after it keep the map
  migrate_round : (rounds : ℕ) → Keeps rounds → Keeps (suc rounds)
  unfolding migrate
  migrate_round rounds ih budget skips t i v at room =
      elim (Bool-cases (ltb 0 budget && ltb 0 skips)) [
        | inr stop ↦ rw stop (IsStill-refl t v)
        | inl go ↦ rw go (round (get_or t.old_table.buckets i []) refl)
      ]
    where
      round :
          (c : List (Node K V))
          → get_or t.old_table.buckets i [] ≡ c
          → IsStill t (elim c [
            | [] ↦
                migrate rounds budget (skips - 1) (record t { rehash_idx = some (suc i) }) (suc i)
            | _ ∷ _ ↦ migrate rounds (budget - 1) skips (migrate_bucket t i) (suc i)
          ])
      round [] e =
          let next = skip-IsStill t v i at (omega arith) e in
          Models-IsStill _ _ next (ih budget (skips - 1) _ (suc i) next.valid refl (omega arith))
      round (x ∷ c) e =
          let next = migrate_bucket-IsStill t v i at (omega arith) in
          let width = migrate_bucket-width t v i at (omega arith) in
          Models-IsStill _ _ next (
            ih (budget - 1) skips _ (suc i) next.valid (unfold migrate_bucket in refl)
              (omega arith))

  -- any number of rounds
  migrate-IsStill : (rounds : ℕ) → Keeps rounds
  unfolding migrate
  migrate-IsStill zero budget skips t i v at room = IsStill-refl t v
  migrate-IsStill (suc rounds) budget skips t i v at room =
      migrate_round rounds (migrate-IsStill rounds) budget skips t i v at room

module _ {ℓ} {K V : Type ℓ} ⦃k : HashKey K⦄ where
  total_nothing :
      (bs : List (List (Node K V))) → ((j : ℕ) → j < length bs → get_or bs j [] ≡ []) → total bs ≡ 0
  unfolding total
  total_nothing [] h = refl
  total_nothing (c ∷ cs) h =
      omega
        (arith, ap length (h 0 (omega arith)), total_nothing cs (λ j lt. h (suc j) (omega arith)))

  look_nothing : (t : Table K V) (p : K) → chain_of t.buckets (k.hash p) ≡ [] → look t p ≡ none
  unfolding look find_in find_chain
  look_nothing t p e = rw e refl

  -- the swap at the end forgets only an old table with no nodes
  finish-IsStill : (t : HashTable K V) → IsValid t → IsStill t (finish t)
  unfolding finish view size or_else
  finish-IsStill t v = go t.rehash_idx refl
    where
      go :
          (o : Option ℕ)
          → t.rehash_idx ≡ o
          → IsStill t (elim o [
            | none ↦ t
            | some i ↦
                if leb (length t.old_table.buckets) i
                then record { old_table = t.new_table; new_table = no_table; rehash_idx = none }
                else t
          ])
      go none e = IsStill-refl t v
      go (some i) e = elim (Bool-cases (leb (length t.old_table.buckets) i)) [
        | inr more ↦ rw more (IsStill-refl t v)
        | inl done ↦ rw done (
            let nothing = no_table-Holds in
            let i_end : length t.old_table.buckets ≤ i = leb→le _ _ done in
            let empty =
              λ (j : ℕ) (lt : j < length t.old_table.buckets). v.moved i e j (omega arith) in
            let gone = λ (p : K). look_nothing t.old_table p (empty _ (home-lt _ _ v.pos)) in
            record {
              valid = record {
                old_sound = v.new_sound;
                new_sound = nothing.sound;
                pos = v.room i e;
                once = λ p. omega (arith, nothing.manys p, v.once p);
                idle = λ _. refl;
                cursor = λ j h. absurd (cc);
                room = λ j h. absurd (cc);
                moved = λ j h l lt. absurd (cc);
              };
              reads = λ p. ground (arith, gone p, nothing.looks p);
              sized = omega (arith, v.old_sound.counted, total_nothing t.old_table.buckets empty);
            })
      ]

  -- `rehash_step` with any budget leaves a valid table valid, with the same map and the same size.
  pub rehash_step-IsStill :
      (budget : ℕ) (t : HashTable K V) → IsValid t → IsStill t (rehash_step budget t)
  unfolding rehash_step
  rehash_step-IsStill budget t v = go t.rehash_idx refl
    where
      go :
          (o : Option ℕ)
          → t.rehash_idx ≡ o
          → IsStill t (elim o [
            | none ↦ t
            | some i ↦
                if budget == 0
                then t
                else finish (migrate (length t.old_table.buckets - i) budget (10 * budget) t i)
          ])
      go none e = IsStill-refl t v
      go (some i) e = elim (Bool-cases (budget == 0)) [
        | inl nothing ↦ rw nothing (IsStill-refl t v)
        | inr some_budget ↦
            let rounds = length t.old_table.buckets - i in
            let m =
              migrate-IsStill K V rounds budget (10 * budget) t i v e
                (omega (arith, v.cursor i e)) in
            rw some_budget (Models-IsStill _ _ m (finish-IsStill _ m.valid))
      ]

  pub maybe_rehash_step-IsStill : (t : HashTable K V) → IsValid t → IsStill t (maybe_rehash_step t)
  unfolding maybe_rehash_step
  maybe_rehash_step-IsStill t v = elim (Bool-cases (is_rehashing t)) [
    | inl e ↦ rw e (rehash_step-IsStill 1 t v)
    | inr e ↦ rw e (IsStill-refl t v)
  ]
