-- ===== src/Storage/HashTable/Chain.antt =====
-- One chain of a bucket (`Node* -> next` in src/storage/hash_table.h): lookup, assignment and
-- unlinking, by the number of nodes that hold a key.
use gredis.Base.{
  ℕ, ◌+◌, ◌≤◌, ◌≡◌, refl, Bool, true, false, none, some, List, [], ◌∷◌, arith, if◌then◌else◌,
  ==_iff, length,
}
use gredis.Storage.HashTable.{HashKey, Node, is_match, find_chain, assign_chain, unlink_chain}

abbrev pub to_nat : Bool → ℕ
to_nat true = 1
to_nat false = 0

module _ {ℓ κ} {A : Type ℓ} (P : A → Type κ) where
  abbrev pub All : List A → Type κ
  All [] = Unit
  All (x ∷ xs) = P x × All xs

pub equal_refl {ℓ} : {K : Type ℓ} ⦃k : HashKey K⦄ (a : K) → k.equal a a ≡ true
equal_refl ⦃k⦄ a = (k.equal_iff a a).1 refl

module _ {ℓ} {K V : Type ℓ} ⦃k : HashKey K⦄ where
  abbrev pub IsHashed : Node K V → Type 0
  IsHashed n = n.hash ≡ k.hash n.key

  unfoldable pub occurs : K → List (Node K V) → ℕ
  occurs q [] = 0
  occurs q (n ∷ ns) = to_nat (k.equal n.key q) + occurs q ns

  pub match_iff : (q : K) (n : Node K V) → IsHashed n → is_match q (k.hash q) n ≡ k.equal n.key q
  match_iff q n h = ground (arith, k.equal_iff n.key q, ==_iff n.hash (k.hash q))

  pub find_chain-none :
      (q : K) (ns : List (Node K V))
      → All IsHashed ns
      → occurs q ns ≡ 0
      → find_chain q (k.hash q) ns ≡ none
  unfolding find_chain occurs
  find_chain-none q [] a h = refl
  find_chain-none q (n ∷ ns) a h = rw (match_iff q n a.0) (ground (arith, find_chain-none q ns a.1))

  pub occurs-none :
      (q : K) (ns : List (Node K V))
      → All IsHashed ns
      → find_chain q (k.hash q) ns ≡ none
      → occurs q ns ≡ 0
  unfolding find_chain occurs
  occurs-none q [] a h = refl
  occurs-none q (n ∷ ns) a h =
      let h' = rw (match_iff q n a.0) at h in ground (arith, occurs-none q ns a.1)

  pub occurs-some :
      (q : K) (ns : List (Node K V)) (v : V)
      → All IsHashed ns
      → find_chain q (k.hash q) ns ≡ some v
      → 1 ≤ occurs q ns
  unfolding find_chain occurs
  occurs-some q [] v a h = absurd (cc)
  occurs-some q (n ∷ ns) v a h =
      let h' = rw (match_iff q n a.0) at h in ground (arith, occurs-some q ns v a.1)

  pub occurs-assign :
      (p q : K) (h : ℕ) (v : V) (ns : List (Node K V))
      → occurs p (assign_chain q h v ns) ≡ occurs p ns
  unfolding occurs assign_chain
  occurs-assign p q h v [] = refl
  occurs-assign p q h v (n ∷ ns) = ground (arith, occurs-assign p q h v ns)

  pub length-assign :
      (q : K) (h : ℕ) (v : V) (ns : List (Node K V)) → length (assign_chain q h v ns) ≡ length ns
  unfolding assign_chain
  length-assign q h v [] = refl
  length-assign q h v (n ∷ ns) = ground (arith, length-assign q h v ns)

  pub find-assign :
      (p q : K) (v : V) (ns : List (Node K V)) (old : V)
      → All IsHashed ns
      → find_chain q (k.hash q) ns ≡ some old
      → find_chain p (k.hash p) (assign_chain q (k.hash q) v ns)
        ≡ (if k.equal q p then some v else find_chain p (k.hash p) ns)
  unfolding find_chain assign_chain
  find-assign p q v [] old a h = absurd (cc)
  find-assign p q v (n ∷ ns) old a h = ground (
    arith,
    find-assign p q v ns old a.1,
    match_iff q n a.0,
    match_iff p n a.0,
    k.equal_iff n.key q,
    k.equal_iff n.key p,
    k.equal_iff q p,
  )

  pub occurs-unlink :
      (p q : K) (ns : List (Node K V)) (old : V)
      → All IsHashed ns
      → find_chain q (k.hash q) ns ≡ some old
      → occurs p (unlink_chain q (k.hash q) ns) + to_nat (k.equal q p) ≡ occurs p ns
  unfolding occurs find_chain unlink_chain
  occurs-unlink p q [] old a h = absurd (cc)
  occurs-unlink p q (n ∷ ns) old a h = ground (
    arith,
    occurs-unlink p q ns old a.1,
    match_iff q n a.0,
    k.equal_iff n.key q,
    k.equal_iff n.key p,
    k.equal_iff q p,
  )

  pub length-unlink :
      (q : K) (h : ℕ) (ns : List (Node K V)) (old : V)
      → find_chain q h ns ≡ some old
      → length (unlink_chain q h ns) + 1 ≡ length ns
  unfolding find_chain unlink_chain
  length-unlink q h [] old e = absurd (cc)
  length-unlink q h (n ∷ ns) old e = ground (arith, length-unlink q h ns old)

  pub find-unlink_ne :
      (p q : K) (ns : List (Node K V))
      → All IsHashed ns
      → k.equal q p ≡ false
      → find_chain p (k.hash p) (unlink_chain q (k.hash q) ns) ≡ find_chain p (k.hash p) ns
  unfolding find_chain unlink_chain
  find-unlink_ne p q [] a h = refl
  find-unlink_ne p q (n ∷ ns) a h = ground (
    arith,
    find-unlink_ne p q ns a.1,
    match_iff q n a.0,
    match_iff p n a.0,
    k.equal_iff n.key q,
    k.equal_iff n.key p,
    k.equal_iff q p,
  )

  pub All-assign {κ} :
      (P : Node K V → Type κ)
      → ((n : Node K V) (v : V) → P n → P (record n { value = v }))
      → (q : K) (h : ℕ) (v : V) (ns : List (Node K V)) → All P ns
      → All P (assign_chain q h v ns)
  unfolding assign_chain
  All-assign P keep q h v [] a = tt
  All-assign P keep q h v (n ∷ ns) a = ground (arith, keep n v a.0, All-assign P keep q h v ns a.1)

  pub All-unlink {κ} :
      (P : Node K V → Type κ) (q : K) (h : ℕ) (ns : List (Node K V))
      → All P ns
      → All P (unlink_chain q h ns)
  unfolding unlink_chain
  All-unlink P q h [] a = tt
  All-unlink P q h (n ∷ ns) a = ground (arith, All-unlink P q h ns a.1)

  pub occurs-le_length : (q : K) (ns : List (Node K V)) → occurs q ns ≤ length ns
  unfolding occurs
  occurs-le_length q [] = omega arith
  occurs-le_length q (n ∷ ns) = ground (arith, occurs-le_length q ns)
