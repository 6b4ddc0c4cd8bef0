-- ===== src/Storage/AvlTree/Rank.antt =====
-- `select` of src/storage/avl_tree.h against the list of the keys in order, and the rotations, which
-- leave that list as it is.
use gredis.Base.{
  ℕ, zero, suc, ◌+◌, ◌-◌, ◌≤◌, ◌<◌, ◌≡◌, ◌∙◌, refl, sym, ap, Bool, true, false, some, arith,
  if◌then◌else◌, ltb, ◌==◌, Bool-cases, inl, inr, List, [], ◌∷◌, ◌++◌, length, length-append,
  get_elem?, ltb→lt,
}
use gredis.Storage.AvlTree.Balance.{IsAvl}
use gredis.Storage.AvlTree.{
  Tree, leaf, node, height_of, subtree_size, rotate_left, rotate_right, leans_left, leans_right,
  rebalance_node, select, keys_of,
}

module _ {ℓ} {A : Type ℓ} where
  append_assoc : (xs ys zs : List A) → (xs ++ ys) ++ zs ≡ xs ++ (ys ++ zs)
  append_assoc [] ys zs = refl
  append_assoc (x ∷ xs) ys zs = ap (λ l. x ∷ l) (append_assoc xs ys zs)

  get_elem-before :
      (xs ys : List A) (i : ℕ) → i < length xs → get_elem? (xs ++ ys) i ≡ get_elem? xs i
  get_elem-before [] ys i h = absurd (omega arith)
  get_elem-before (x ∷ xs) ys zero h = refl
  get_elem-before (x ∷ xs) ys (suc i) h = get_elem-before xs ys i (omega arith)

  get_elem-after :
      (xs : List A) (y : A) (ys : List A) (i : ℕ)
      → length xs ≤ i
      → get_elem? (xs ++ y ∷ ys) i
        ≡ (if i == length xs then some y else get_elem? ys (i - (length xs + 1)))
  get_elem-after [] y ys zero h = refl
  get_elem-after [] y ys (suc i) h = ground arith
  get_elem-after (x ∷ xs) y ys zero h = absurd (omega arith)
  get_elem-after (x ∷ xs) y ys (suc i) h = get_elem-after xs y ys i (omega arith) ∙ ground arith

module _ {ℓ} {K : Type ℓ} where
  length-keys_of : (t : Tree K) → IsAvl t → length (keys_of t) ≡ subtree_size t
  unfolding keys_of IsAvl
  length-keys_of leaf a = refl
  length-keys_of (node l k h s r) (al, ar, eh, es, n) =
      length-append (keys_of l) (k ∷ keys_of r)
      ∙ (omega (arith, length-keys_of l al, length-keys_of r ar))

  keys_of-rotate_left : (t : Tree K) → keys_of (rotate_left t) ≡ keys_of t
  unfolding keys_of rotate_left
  keys_of-rotate_left leaf = refl
  keys_of-rotate_left (node a x h s leaf) = refl
  keys_of-rotate_left (node a x h s (node b y i t c)) =
      append_assoc (keys_of a) (x ∷ keys_of b) (y ∷ keys_of c)

  keys_of-rotate_right : (t : Tree K) → keys_of (rotate_right t) ≡ keys_of t
  unfolding keys_of rotate_right
  keys_of-rotate_right leaf = refl
  keys_of-rotate_right (node leaf x h s c) = refl
  keys_of-rotate_right (node (node a y i t b) x h s c) =
      sym (append_assoc (keys_of a) (y ∷ keys_of b) (x ∷ keys_of c))

  -- Rebalancing a node leaves the keys of its subtree and their order as they are.
  pub keys_of-rebalance_node :
      (l : Tree K) (k : K) (r : Tree K)
      → keys_of (rebalance_node l k r) ≡ keys_of l ++ k ∷ keys_of r
  unfolding rebalance_node
  keys_of-rebalance_node l k r = elim (Bool-cases (ltb (height_of r + 1) (height_of l))) [
    | inl left ↦ rw left (
        keys_of-rotate_right _
        ∙ (unfold keys_of in ap (λ ks. ks ++ k ∷ keys_of r) (straightened_left l (leans_right l))))
    | inr level ↦ elim (Bool-cases (ltb (height_of l + 1) (height_of r))) [
      | inl right ↦
          rw (level, right)
            (keys_of-rotate_left _
              ∙ (unfold keys_of in
                  ap (λ ks. keys_of l ++ k ∷ ks) (straightened_right r (leans_left r))))
      | inr even ↦ rw (level, even) (unfold keys_of in refl)
    ]
  ]
    where
      straightened_left :
          (l : Tree K) (b : Bool) → keys_of (if b then rotate_left l else l) ≡ keys_of l
      straightened_left l true = keys_of-rotate_left l
      straightened_left l false = refl

      straightened_right :
          (r : Tree K) (b : Bool) → keys_of (if b then rotate_right r else r) ≡ keys_of r
      straightened_right r true = keys_of-rotate_right r
      straightened_right r false = refl

  -- `select` on a balanced tree gives the key at its rank in the order of the keys, counted from
  -- 0, and none from the size on.
  pub select-keys_of :
      (t : Tree K) (rank : ℕ) → IsAvl t → select t rank ≡ get_elem? (keys_of t) rank
  unfolding select keys_of IsAvl
  select-keys_of leaf rank a = refl
  select-keys_of (node l k h s r) rank (al, ar, _, _, _) =
      let size = length-keys_of l al in
      elim (Bool-cases (ltb rank (subtree_size l))) [
        | inl before ↦
            let lt = ltb→lt rank (subtree_size l) before in
            rw (before, select)
              (select-keys_of l rank al
                ∙ sym (get_elem-before (keys_of l) (k ∷ keys_of r) rank (omega (arith, size))))
        | inr after ↦
            let le : subtree_size l ≤ rank = ground arith in
            let at_rank = get_elem-after (keys_of l) k (keys_of r) rank (omega (arith, size)) in
            let there = rw size at at_rank in
            elim (Bool-cases (rank == subtree_size l)) [
              | inl here ↦ rw (after, here, select) (sym (rw here at there))
              | inr further ↦
                  rw (after, further, select) (select-keys_of r _ ar ∙ sym (rw further at there))
            ]
      ]
