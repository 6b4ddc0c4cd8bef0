-- ===== src/Storage/HashTable/Visit.antt =====
-- `for_each` of src/storage/hash_table.h visits every entry once, also in the middle of a rehash.
use mathlib.Core.Option.{or_else}
use gredis.Base.{
  ℕ, zero, suc, ◌+◌, ◌≤◌, ◌≡◌, ◌≢◌, ◌∙◌, refl, sym, ap, Option, none, some, List, [], ◌∷◌, ◌++◌,
  arith, if◌then◌else◌, length, get_or, length-append, Option-cases, inl, inr,
}
use gredis.Storage.HashTable.{
  HashKey, Node, Table, HashTable, home, size, find_chain, find_in, entries_of, visit_buckets,
  for_each,
}
use gredis.Storage.HashTable.Chain.{to_nat, All, IsHashed, occurs, match_iff, find_chain-none}
use gredis.Storage.HashTable.Invariant.{IsValid, view}
use gredis.Storage.HashTable.Place.{IsSound, look, many, total, All-IsHashed, occurs_elsewhere}

-- the value that an association list gives first for a key, and how often the key stands in it
module _ {ℓ} {K V : Type ℓ} ⦃k : HashKey K⦄ where
  unfoldable pub assoc : K → List (K × V) → Option V
  assoc q [] = none
  assoc q ((p, x) ∷ es) = if k.equal p q then some x else assoc q es

  unfoldable pub times : K → List (K × V) → ℕ
  times q [] = 0
  times q ((p, x) ∷ es) = to_nat (k.equal p q) + times q es

  assoc-append :
      (q : K) (xs ys : List (K × V)) → assoc q (xs ++ ys) ≡ or_else (assoc q xs) (assoc q ys)
  unfolding assoc or_else
  assoc-append q [] ys = refl
  assoc-append q ((p, x) ∷ xs) ys = ground (arith, assoc-append q xs ys)

  times-append : (q : K) (xs ys : List (K × V)) → times q (xs ++ ys) ≡ times q xs + times q ys
  unfolding times
  times-append q [] ys = omega arith
  times-append q ((p, x) ∷ xs) ys = omega (arith, times-append q xs ys)

  assoc-entries_of :
      (q : K) (ns : List (Node K V))
      → All IsHashed ns
      → assoc q (entries_of ns) ≡ find_chain q (k.hash q) ns
  unfolding assoc entries_of find_chain
  assoc-entries_of q [] a = refl
  assoc-entries_of q (n ∷ ns) a = rw (match_iff q n a.0, assoc-entries_of q ns a.1) refl

  times-entries_of : (q : K) (ns : List (Node K V)) → times q (entries_of ns) ≡ occurs q ns
  unfolding times entries_of occurs
  times-entries_of q [] = refl
  times-entries_of q (n ∷ ns) = omega (arith, times-entries_of q ns)

  length-entries_of : (ns : List (Node K V)) → length (entries_of ns) ≡ length ns
  unfolding entries_of
  length-entries_of [] = refl
  length-entries_of (n ∷ ns) = ap suc (length-entries_of ns)

  length-visit_buckets : (bs : List (List (Node K V))) → length (visit_buckets bs) ≡ total bs
  unfolding visit_buckets total
  length-visit_buckets [] = refl
  length-visit_buckets (c ∷ cs) =
      length-append (entries_of c) (visit_buckets cs)
      ∙ omega (arith, length-entries_of c, length-visit_buckets cs)

  -- a key with nodes in no bucket is not visited
  visit_nowhere :
      (q : K) (bs : List (List (Node K V)))
      → ((i : ℕ) → All IsHashed (get_or bs i []))
      → ((i : ℕ) → occurs q (get_or bs i []) ≡ 0)
      → (assoc q (visit_buckets bs) ≡ none) × (times q (visit_buckets bs) ≡ 0)
  unfolding visit_buckets assoc times or_else
  visit_nowhere q [] a h = (refl, refl)
  visit_nowhere q (c ∷ cs) a h =
      let rest = visit_nowhere q cs (λ i. a (suc i)) (λ i. h (suc i)) in
      let e = assoc-entries_of q c (a 0) ∙ find_chain-none q c (a 0) (h 0) in
      (
        rw (assoc-append q (entries_of c) (visit_buckets cs), e, rest.0) refl,
        times-append q (entries_of c) (visit_buckets cs)
            ∙ omega (arith, times-entries_of q c, h 0, rest.1),
      )

  -- a key with nodes in bucket `j` alone is visited there
  visit_only :
      (q : K) (bs : List (List (Node K V))) (j : ℕ)
      → ((i : ℕ) → All IsHashed (get_or bs i []))
      → ((i : ℕ) → i ≢ j → occurs q (get_or bs i []) ≡ 0)
      → (assoc q (visit_buckets bs) ≡ find_chain q (k.hash q) (get_or bs j []))
        × (times q (visit_buckets bs) ≡ occurs q (get_or bs j []))
  unfolding visit_buckets assoc times or_else find_chain occurs
  visit_only q [] j a h = (refl, refl)
  visit_only q (c ∷ cs) zero a h =
      let rest = visit_nowhere q cs (λ i. a (suc i)) (λ i. h (suc i) (omega arith)) in
      (
        rw (assoc-append q (entries_of c) (visit_buckets cs), assoc-entries_of q c (a 0), rest.0)
            (ground arith),
        times-append q (entries_of c) (visit_buckets cs)
            ∙ omega (arith, times-entries_of q c, rest.1),
      )
  visit_only q (c ∷ cs) (suc j) a h =
      let rest = visit_only q cs j (λ i. a (suc i)) (λ i n. h (suc i) (omega arith)) in
      let zero_here = h 0 (omega arith) in
      let e = assoc-entries_of q c (a 0) ∙ find_chain-none q c (a 0) zero_here in
      (
        rw (assoc-append q (entries_of c) (visit_buckets cs), e) rest.0,
        times-append q (entries_of c) (visit_buckets cs)
            ∙ omega (arith, times-entries_of q c, zero_here, rest.1),
      )

  visit_table :
      (t : Table K V) (q : K)
      → IsSound t
      → (assoc q (visit_buckets t.buckets) ≡ look t q)
        × (times q (visit_buckets t.buckets) ≡ many t q)
  unfolding look many find_in
  visit_table t q s =
      visit_only q t.buckets (home (k.hash q) (length t.buckets))
        (λ i. All-IsHashed _ i _ (s.placed i))
        (λ i n. occurs_elsewhere q _ i _ (s.placed i) (λ e. n (sym e)))

  -- a table that is not in use has nothing to visit
  for_each-both :
      (t : HashTable K V)
      → IsValid t
      → for_each t ≡ visit_buckets t.old_table.buckets ++ visit_buckets t.new_table.buckets
  unfolding for_each
  for_each-both t v = elim (Option-cases t.rehash_idx) [
    | inl e ↦
        let none_new = ap (λ (u : Table K V). visit_buckets u.buckets) (v.idle e) in
        ground (arith, none_new)
    | inr (i, e) ↦ ground arith
  ]

  -- `for_each` on a valid table visits exactly the entries of the map, each key once and as many
  -- as `size` says, also in the middle of a rehash.
  pub for_each-view :
      (t : HashTable K V)
      → IsValid t
      → ((q : K) → assoc q (for_each t) ≡ view t q)
        × ((q : K) → times q (for_each t) ≤ 1)
        × (length (for_each t) ≡ size t)
  unfolding view size
  for_each-view t v =
      let old = visit_buckets t.old_table.buckets in
      let new = visit_buckets t.new_table.buckets in
      let in_old = λ (q : K). visit_table t.old_table q v.old_sound in
      let in_new = λ (q : K). visit_table t.new_table q v.new_sound in
      rw (for_each-both t v) (
        λ q. rw (assoc-append q old new, (in_old q).0, (in_new q).0) refl,
        λ q. omega (arith, times-append q old new, (in_old q).1, (in_new q).1, v.once q),
        length-append old new
            ∙ omega (
              arith,
              length-visit_buckets t.old_table.buckets,
              length-visit_buckets t.new_table.buckets,
              v.old_sound.counted,
              v.new_sound.counted,
            ),
      )
