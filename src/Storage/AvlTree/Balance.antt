-- ===== src/Storage/AvlTree/Balance.antt =====
-- The balance of src/storage/avl_tree.h: every operation keeps the heights and sizes right, and the
-- two subtrees of a node within one of each other in height.
use Prim.Native.Nat.{max}
use gredis.Base.{
  ℕ, ◌+◌, ◌≤◌, ◌≡◌, refl, false, arith, ltb, ltb→lt, if◌then◌else◌, Bool-cases, inl, inr,
}
use gredis.Storage.AvlTree.{
  Tree, leaf, node, height_of, subtree_size, updated, rotate_left, rotate_right, leans_left,
  leans_right, rebalance_node,
}

abbrev pub IsNear : ℕ → ℕ → ℕ → Type 0
IsNear d a b = (a ≤ b + d) × (b ≤ a + d)

not_ltb : (a b : ℕ) → ltb a b ≡ false → b ≤ a
not_ltb a b h = ground arith

module _ {ℓ} {K : Type ℓ} where
  -- heights and sizes as `update` computes them, and the balance
  unfoldable pub IsAvl : Tree K → Type 0
  IsAvl leaf = Unit {0}
  IsAvl (node l k h s r) =
      IsAvl l
      × IsAvl r
      × (h ≡ 1 + max (height_of l) (height_of r))
      × (s ≡ 1 + subtree_size l + subtree_size r)
      × IsNear 1 (height_of l) (height_of r)

  unfoldable pub Rebalanced : Tree K → Tree K → Tree K → Type 0
  Rebalanced l r t =
      IsAvl t
      × (max (height_of l) (height_of r) ≤ height_of t)
      × (height_of t ≤ 1 + max (height_of l) (height_of r))
      × (IsNear 1 (height_of l) (height_of r) → height_of t ≡ 1 + max (height_of l) (height_of r))
      × (subtree_size t ≡ 1 + subtree_size l + subtree_size r)

  heavy_left :
      (a : Tree K) (x : K) (h s : ℕ) (b : Tree K) (k : K) (r : Tree K)
      → IsAvl (node a x h s b)
      → IsAvl r
      → h ≡ height_of r + 2
      → Rebalanced (node a x h s b) r (
          rotate_right (
            updated
              (if leans_right (node a x h s b)
                then rotate_left (node a x h s b)
                else node a x h s b)
              k
              r))
  unfolding Rebalanced rotate_left rotate_right IsAvl
  heavy_left a x h s leaf k r al ar e = ground arith
  heavy_left a x h s (node b y i t c) k r (aa, (ab, ac, ei, et, nb), eh, es, na) ar e =
      elim (Bool-cases (ltb (height_of a) i)) [
        | inl leans ↦
            let low = ltb→lt (height_of a) i leans in
            rw leans (
              (
                (aa, ab, refl, refl, (omega arith, omega arith)),
                (ac, ar, refl, refl, (omega arith, omega arith)),
                refl,
                refl,
                (omega arith, omega arith),
              ),
              omega arith,
              omega arith,
              λ n. omega arith,
              omega arith,
            )
        | inr straight ↦
            let high = not_ltb (height_of a) i straight in
            rw straight (
              (
                aa,
                ((ab, ac, ei, et, nb), ar, refl, refl, (omega arith, omega arith)),
                refl,
                refl,
                (omega arith, omega arith),
              ),
              omega arith,
              omega arith,
              λ n. omega arith,
              omega arith,
            )
      ]

  heavy_right :
      (l : Tree K) (k : K) (a : Tree K) (x : K) (h s : ℕ) (b : Tree K)
      → IsAvl l
      → IsAvl (node a x h s b)
      → h ≡ height_of l + 2
      → Rebalanced l (node a x h s b) (
          rotate_left (
            updated l k (
              if leans_left (node a x h s b)
              then rotate_right (node a x h s b)
              else node a x h s b)))
  unfolding Rebalanced rotate_left rotate_right IsAvl
  heavy_right l k leaf x h s b al ar e = ground arith
  heavy_right l k (node c y i t d) x h s b al ((ac, ad, ei, et, nc), ab, eh, es, nb) e =
      elim (Bool-cases (ltb (height_of b) i)) [
        | inl leans ↦
            let low = ltb→lt (height_of b) i leans in
            rw leans (
              (
                (al, ac, refl, refl, (omega arith, omega arith)),
                (ad, ab, refl, refl, (omega arith, omega arith)),
                refl,
                refl,
                (omega arith, omega arith),
              ),
              omega arith,
              omega arith,
              λ n. omega arith,
              omega arith,
            )
        | inr straight ↦
            let high = not_ltb (height_of b) i straight in
            rw straight (
              (
                (al, (ac, ad, ei, et, nc), refl, refl, (omega arith, omega arith)),
                ab,
                refl,
                refl,
                (omega arith, omega arith),
              ),
              omega arith,
              omega arith,
              λ n. omega arith,
              omega arith,
            )
      ]

  pub rebalance_node-IsAvl :
      (l : Tree K) (k : K) (r : Tree K)
      → IsAvl l
      → IsAvl r
      → IsNear 2 (height_of l) (height_of r)
      → Rebalanced l r (rebalance_node l k r)
  unfolding Rebalanced rebalance_node IsAvl
  rebalance_node-IsAvl l k r al ar n = elim (Bool-cases (ltb (height_of r + 1) (height_of l))) [
    | inl left ↦
        let far = ltb→lt (height_of r + 1) (height_of l) left in
        rw left (left_case l k r al ar (omega arith))
    | inr level ↦ elim (Bool-cases (ltb (height_of l + 1) (height_of r))) [
      | inl right ↦
          let far = ltb→lt (height_of l + 1) (height_of r) right in
          rw (level, right) (right_case l k r al ar (omega arith))
      | inr even ↦
          let near : IsNear 1 (height_of l) (height_of r) = (not_ltb _ _ level, not_ltb _ _ even) in
          rw (level, even)
            ((al, ar, refl, refl, near), omega arith, omega arith, λ m. omega arith, omega arith)
    ]
  ]
    where
      left_case :
          (l : Tree K) (k : K) (r : Tree K)
          → IsAvl l
          → IsAvl r
          → height_of l ≡ height_of r + 2
          → Rebalanced l r (rotate_right (updated (if leans_right l then rotate_left l else l) k r))
      left_case leaf k r al ar e = absurd (omega arith)
      left_case (node a x h s b) k r al ar e = heavy_left a x h s b k r al ar e

      right_case :
          (l : Tree K) (k : K) (r : Tree K)
          → IsAvl l
          → IsAvl r
          → height_of r ≡ height_of l + 2
          → Rebalanced l r (rotate_left (updated l k (if leans_left r then rotate_right r else r)))
      right_case l k leaf al ar e = absurd (omega arith)
      right_case l k (node a x h s b) al ar e = heavy_right l k a x h s b al ar e
