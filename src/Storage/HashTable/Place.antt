-- ===== src/Storage/HashTable/Place.antt =====
-- One `Table` of src/storage/hash_table.h: where nodes stand, and what a write to one bucket does.
use native.Mathlib.Decide.{ℕ_discrete}
use gredis.Base.Bits.{bit_and-lt}
use gredis.Base.{
  ℕ, zero, suc, ◌+◌, ◌≤◌, ◌<◌, ◌≡◌, ◌≢◌, ◌∙◌, refl, sym, ap, Option, none, some, List, [], ◌∷◌,
  arith, length, get_or, set, replicate, length-set, get_or-set_self, get_or-set_ne,
  length-replicate, get_or-replicate, Bool-cases, inl, inr,
}
use gredis.Storage.HashTable.{
  HashKey, Node, Table, home, chain_of, fresh_table, find_chain, find_in,
}
use gredis.Storage.HashTable.Chain.{
  All, IsHashed, occurs, find_chain-none, occurs-none, occurs-some,
}

pub home-lt : (h n : ℕ) → 0 < n → home h n < n
unfolding home
home-lt h n p = bit_and-lt h n p

module _ {ℓ} {A : Type ℓ} where
  unfoldable pub total : List (List A) → ℕ
  total [] = 0
  total (c ∷ cs) = length c + total cs

  pub total-set :
      (bs : List (List A)) (i : ℕ) (c : List A)
      → i < length bs
      → total (set bs i c) + length (get_or bs i []) ≡ total bs + length c
  unfolding total
  total-set [] i c h = absurd (omega arith)
  total-set (b ∷ bs) zero c h = omega arith
  total-set (b ∷ bs) (suc i) c h = omega (arith, total-set bs i c (omega arith))

pub total-replicate {ℓ} : (A : Type ℓ) (n : ℕ) → total (replicate {A = List A} n []) ≡ 0
unfolding total
total-replicate A zero = refl
total-replicate A (suc n) = omega (arith, total-replicate A n)

module _ {ℓ} {K V : Type ℓ} where
  pub chain-set_self :
      (bs : List (List (Node K V))) (i h : ℕ) (c : List (Node K V))
      → i < length bs
      → home h (length bs) ≡ i
      → chain_of (set bs i c) h ≡ c
  chain-set_self bs i h c lt e = rw (length-set, e) (get_or-set_self bs i c [] lt)

  pub chain-set_ne :
      (bs : List (List (Node K V))) (i h : ℕ) (c : List (Node K V))
      → home h (length bs) ≢ i
      → chain_of (set bs i c) h ≡ chain_of bs h
  chain-set_ne bs i h c n = rw length-set (get_or-set_ne bs i _ c [] (λ e. n (sym e)))

module _ {ℓ} {K V : Type ℓ} ⦃k : HashKey K⦄ where
  -- a node of bucket `i` in a vector of `n`
  abbrev pub IsAt : ℕ → ℕ → Node K V → Type 0
  IsAt n i x = (x.hash ≡ k.hash x.key) × (home x.hash n ≡ i)

  pub record IsSound (t : Table K V) : Type 0 where
    pub placed : (i : ℕ) → All (IsAt (length t.buckets) i) (get_or t.buckets i [])
    pub counted : t.count ≡ total t.buckets

  unfoldable pub look : Table K V → K → Option V
  unfolding find_in
  look t q = find_in t q (k.hash q)

  unfoldable pub many : Table K V → K → ℕ
  many t q = occurs q (chain_of t.buckets (k.hash q))

  pub All-IsHashed : (n i : ℕ) (ns : List (Node K V)) → All (IsAt n i) ns → All IsHashed ns
  All-IsHashed n i [] a = tt
  All-IsHashed n i (x ∷ ns) a = (a.0.0, All-IsHashed n i ns a.1)

  -- a key has no node in a bucket that is not its own
  pub occurs_elsewhere :
      (q : K) (n i : ℕ) (ns : List (Node K V))
      → All (IsAt n i) ns
      → home (k.hash q) n ≢ i
      → occurs q ns ≡ 0
  unfolding occurs
  occurs_elsewhere q n i [] a h = refl
  occurs_elsewhere q n i (x ∷ ns) a h = elim (Bool-cases (k.equal x.key q)) [
    | inl e ↦ absurd (
        h (
          ap (λ t. home (k.hash t) n) (sym ((k.equal_iff x.key q).0 e))
          ∙ sym (ap (λ t. home t n) a.0.0)
          ∙ a.0.1))
    | inr e ↦ rw e (omega (arith, occurs_elsewhere q n i ns a.1 h))
  ]

  pub IsHashed-chain : (t : Table K V) → IsSound t → (h : ℕ) → All IsHashed (chain_of t.buckets h)
  IsHashed-chain t s h = All-IsHashed _ _ _ (s.placed (home h (length t.buckets)))

  pub look-none : (t : Table K V) (q : K) → IsSound t → many t q ≡ 0 → look t q ≡ none
  unfolding look many
  look-none t q s h = find_chain-none q _ (IsHashed-chain t s (k.hash q)) h

  pub many-none : (t : Table K V) (q : K) → IsSound t → look t q ≡ none → many t q ≡ 0
  unfolding look many
  many-none t q s h = occurs-none q _ (IsHashed-chain t s (k.hash q)) h

  pub many-some : (t : Table K V) (q : K) (v : V) → IsSound t → look t q ≡ some v → 1 ≤ many t q
  unfolding look many
  many-some t q v s h = occurs-some q _ v (IsHashed-chain t s (k.hash q)) h

  -- a sound table of `n` buckets that reads as `f`, with `m` nodes for each key
  pub record Holds (n : ℕ) (f : K → Option V) (m : K → ℕ) (t : Table K V) : Type ℓ where
    pub sound : IsSound t
    pub width : length t.buckets ≡ n
    pub looks : (p : K) → look t p ≡ f p
    pub manys : (p : K) → many t p ≡ m p

  pub fresh-Holds : (n : ℕ) → Holds n (λ _. none) (λ _. 0) (fresh_table n)
  unfolding look many find_chain occurs
  fresh-Holds n = record {
    sound = record { placed = λ i. rw get_or-replicate tt; counted = sym (total-replicate _ n) };
    width = length-replicate n [];
    looks = λ p. rw get_or-replicate;
    manys = λ p. rw get_or-replicate;
  }

  -- every write puts a chain `c` of the right nodes at an index `i`
  pub set-IsSound :
      (t : Table K V) (i : ℕ) (c : List (Node K V)) (n : ℕ)
      → IsSound t
      → i < length t.buckets
      → All (IsAt (length t.buckets) i) c
      → n + length (get_or t.buckets i []) ≡ t.count + length c
      → IsSound (record { buckets = set t.buckets i c; count = n })
  set-IsSound t i c n s lt a e = record {
    placed = λ j. elim (ℕ_discrete i j) [
      | yes p ↦ rw (length-set, ← p, get_or-set_self t.buckets i c [] lt) a
      | no p ↦ rw (length-set, get_or-set_ne t.buckets i j c [] p) (s.placed j)
    ];
    counted = omega (arith, total-set t.buckets i c lt, s.counted);
  }
