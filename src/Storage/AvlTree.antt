-- ===== src/Storage/AvlTree.antt =====
-- src/storage/avl_tree.h: the balanced tree with the size of each subtree. A `Node*` into a tree is
-- the key of that node, since the keys of a tree differ; the parent pointers, which the loops go up
-- by, are the calls that wait for a recursive one. Memory is not modelled.
pub mod Balance
pub mod Change
pub mod Rank
mod Examples
use Prim.Native.Nat.{max}
use gredis.Base.{
  ℕ, suc, ◌+◌, ◌-◌, ◌≤◌, ◌≡◌, Bool, true, false, Option, none, some, List, [], ◌∷◌, ◌++◌, ltb, ◌==◌,
  if◌then◌else◌,
}

-- `Compare`: the only thing that the tree asks of a key
pub record Compare {ℓ} (K : Type ℓ) : Type ℓ where
  pub less : K → K → Bool

-- the left subtree, the key, the height, the size and the right subtree
pub data Tree {ℓ} (K : Type ℓ) : Type ℓ where
  leaf : Tree K
  node : Tree K → K → ℕ → ℕ → Tree K → Tree K

pub record AvlTree {ℓ} (K : Type ℓ) : Type ℓ where
  pub root : Tree K
  pub count : ℕ

module _ {ℓ} {K : Type ℓ} where
  abbrev pub height_of : Tree K → ℕ
  height_of leaf = 0
  height_of (node l k h s r) = h

  abbrev pub subtree_size : Tree K → ℕ
  subtree_size leaf = 0
  subtree_size (node l k h s r) = s

  -- a node whose height and size `update` has computed
  abbrev pub updated : Tree K → K → Tree K → Tree K
  updated l k r =
      node l k (1 + max (height_of l) (height_of r)) (1 + subtree_size l + subtree_size r) r

  unfoldable pub rotate_left : Tree K → Tree K
  rotate_left leaf = leaf
  rotate_left (node a x h s leaf) = node a x h s leaf
  rotate_left (node a x h s (node b y i t c)) = updated (updated a x b) y c

  unfoldable pub rotate_right : Tree K → Tree K
  rotate_right leaf = leaf
  rotate_right (node leaf x h s c) = node leaf x h s c
  rotate_right (node (node a y i t b) x h s c) = updated a y (updated b x c)

  -- `balance_factor` below 0, and above 0
  abbrev pub leans_right : Tree K → Bool
  leans_right leaf = false
  leans_right (node l k h s r) = ltb (height_of l) (height_of r)

  abbrev pub leans_left : Tree K → Bool
  leans_left leaf = false
  leans_left (node l k h s r) = ltb (height_of r) (height_of l)

  unfoldable pub rebalance_node : Tree K → K → Tree K → Tree K
  rebalance_node l k r =
      if ltb (height_of r + 1) (height_of l)
      then rotate_right (updated (if leans_right l then rotate_left l else l) k r)
      else if ltb (height_of l + 1) (height_of r)
      then rotate_left (updated l k (if leans_left r then rotate_right r else r))
      else updated l k r

  -- the least key, which `leftmost` finds, and the tree without it, rebalanced on the way up
  unfoldable pub take_leftmost : Tree K → K → Tree K → K × Tree K
  take_leftmost leaf k r = (k, r)
  take_leftmost (node l x h s m) k r =
      let (least, l') = take_leftmost l x m in (least, rebalance_node l' k r)

  -- a node without its key: its successor takes its place where it has both children
  unfoldable pub join : Tree K → Tree K → Tree K
  join leaf r = r
  join (node a x h s b) leaf = node a x h s b
  join (node a x h s b) (node c y i t d) =
      let (least, r') = take_leftmost c y d in rebalance_node (node a x h s b) least r'

  unfoldable pub select : Tree K → ℕ → Option K
  select leaf rank = none
  select (node l k h s r) rank = elim (ltb rank (subtree_size l)) [
    | true ↦ select l rank
    | false ↦ elim (rank == subtree_size l) [
      | true ↦ some k
      | false ↦ select r (rank - (subtree_size l + 1))
    ]
  ]

  -- the keys in order
  unfoldable pub keys_of : Tree K → List K
  keys_of leaf = []
  keys_of (node l k h s r) = keys_of l ++ k ∷ keys_of r

module _ {ℓ} {K : Type ℓ} ⦃c : Compare K⦄ where
  -- none where an equivalent key is there
  unfoldable pub insert_into : K → Tree K → Option (Tree K)
  insert_into q leaf = some (updated leaf q leaf)
  insert_into q (node l k h s r) = elim (c.less q k) [
    | true ↦ elim (insert_into q l) [ none ↦ none | some l' ↦ some (rebalance_node l' k r) ]
    | false ↦ elim (c.less k q) [
      | true ↦ elim (insert_into q r) [ none ↦ none | some r' ↦ some (rebalance_node l k r') ]
      | false ↦ none
    ]
  ]

  unfoldable pub insert : AvlTree K → K → Option (AvlTree K)
  insert t q = elim (insert_into q t.root) [
    | none ↦ none
    | some root ↦ some (record { root = root; count = t.count + 1 })
  ]

  unfoldable pub erase_from : K → Tree K → Tree K
  erase_from q leaf = leaf
  erase_from q (node l k h s r) = elim (c.less q k) [
    | true ↦ rebalance_node (erase_from q l) k r
    | false ↦ elim (c.less k q) [ true ↦ rebalance_node l k (erase_from q r) | false ↦ join l r ]
  ]

  unfoldable pub erase : AvlTree K → K → AvlTree K
  erase t q = record { root = erase_from q t.root; count = t.count - 1 }

  unfoldable pub find : K → Tree K → Option K
  find q leaf = none
  find q (node l k h s r) = elim (c.less q k) [
    | true ↦ find q l
    | false ↦ elim (c.less k q) [ true ↦ find q r | false ↦ some k ]
  ]

  -- `result` is the last key seen that is not less
  unfoldable pub lower_bound_from : K → Tree K → Option K → Option K
  lower_bound_from q leaf result = result
  lower_bound_from q (node l k h s r) result = elim (c.less k q) [
    | true ↦ lower_bound_from q r result
    | false ↦ lower_bound_from q l (some k)
  ]

  unfoldable pub lower_bound : K → Tree K → Option K
  lower_bound q t = lower_bound_from q t none
