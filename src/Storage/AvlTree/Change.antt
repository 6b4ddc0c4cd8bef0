-- ===== src/Storage/AvlTree/Change.antt =====
-- `insert` and `erase` of src/storage/avl_tree.h keep the tree balanced, and its sizes right.
use Prim.Native.Nat.{max}
use gredis.Base.{ℕ, ◌+◌, ◌≤◌, ◌≡◌, refl, sym, some, arith, Bool-cases, Option-cases, inl, inr}
use gredis.Storage.AvlTree.Balance.{IsNear, IsAvl, Rebalanced, rebalance_node-IsAvl}
use gredis.Storage.AvlTree.{
  Compare, Tree, leaf, node, height_of, subtree_size, updated, rebalance_node, take_leftmost, join,
  insert_into, erase_from, find,
}
use gredis.Storage.HashTable.Chain.{to_nat}
use gredis.Storage.HashTable.Update.{is_some}

module _ {ℓ} {K : Type ℓ} where
  -- `t` is balanced, as high as `h` or one less, and has `n` keys
  abbrev Lowered : Tree K → ℕ → ℕ → Type 0
  Lowered t h n = IsAvl t × (height_of t ≤ h) × (h ≤ height_of t + 1) × (subtree_size t ≡ n)

  take_leftmost-IsAvl :
      (l : Tree K) (k : K) (r : Tree K)
      → IsAvl l
      → IsAvl r
      → IsNear 1 (height_of l) (height_of r)
      → Lowered
          (take_leftmost l k r).1
          (1 + max (height_of l) (height_of r))
          (subtree_size l + subtree_size r)
  unfolding take_leftmost IsAvl Rebalanced
  take_leftmost-IsAvl leaf k r al ar n = (ar, omega arith, omega arith, omega arith)
  take_leftmost-IsAvl (node l x h s m) k r (al, am, eh, es, nm) ar n =
      let (a, low, high, size) = take_leftmost-IsAvl l x m al am nm in
      let b = rebalance_node-IsAvl (take_leftmost l x m).1 k r a ar (omega arith, omega arith) in
      let hh : height_of (node l x h s m) ≡ h = refl in
      let ss : subtree_size (node l x h s m) ≡ s = refl in
      (b.0, grind (arith, b), grind (arith, b), omega (arith, b))

  join-IsAvl :
      (l r : Tree K)
      → IsAvl l
      → IsAvl r
      → IsNear 1 (height_of l) (height_of r)
      → Lowered (join l r) (1 + max (height_of l) (height_of r)) (subtree_size l + subtree_size r)
  unfolding join IsAvl Rebalanced
  join-IsAvl leaf r al ar n = (ar, omega arith, omega arith, omega arith)
  join-IsAvl (node a x h s b) leaf al ar n = (al, omega arith, omega arith, omega arith)
  join-IsAvl (node a x h s b) (node c y i t d) al (ac, ad, ei, et, nd) n =
      let (q, low, high, size) = take_leftmost-IsAvl c y d ac ad nd in
      let (least, r') = take_leftmost c y d in
      let w = rebalance_node-IsAvl (node a x h s b) least r' al q (omega arith, omega arith) in
      let hh : height_of (node a x h s b) ≡ h = refl in
      let ss : subtree_size (node a x h s b) ≡ s = refl in
      let hi : height_of (node c y i t d) ≡ i = refl in
      let st : subtree_size (node c y i t d) ≡ t = refl in
      (w.0, grind (arith, w), grind (arith, w), omega (arith, w))

module _ {ℓ} {K : Type ℓ} ⦃c : Compare K⦄ where
  -- Inserting a new key into a balanced tree leaves a balanced tree with right heights and sizes,
  -- higher by one at most, with one key more.
  pub insert_into-IsAvl :
      (q : K) (t t' : Tree K)
      → IsAvl t
      → insert_into q t ≡ some t'
      → IsAvl t'
        × (height_of t ≤ height_of t')
        × (height_of t' ≤ height_of t + 1)
        × (subtree_size t' ≡ subtree_size t + 1)
  unfolding insert_into IsAvl Rebalanced
  insert_into-IsAvl q leaf t' a e =
      let z : updated leaf q leaf ≡ t' = cc in
      rw (sym z) ((tt, tt, refl, refl, (omega arith, omega arith)), omega arith, omega arith, refl)
  insert_into-IsAvl q (node l k h s r) t' (al, ar, eh, es, n) e = elim (Bool-cases (c.less q k)) [
    | inl left ↦ elim (Option-cases (insert_into q l)) [
      | inl missing ↦ absurd (let z = rw (left, missing, insert_into) at e in cc)
      | inr (l', found) ↦
          let (a, low, high, size) = insert_into-IsAvl q l l' al found in
          let w = rebalance_node-IsAvl l' k r a ar (omega arith, omega arith) in
          let z : rebalance_node l' k r ≡ t' = (let y = rw (left, found, insert_into) at e in cc) in
          rw (sym z) (w.0, grind (arith, w), grind (arith, w), grind (arith, w))
    ]
    | inr right ↦ elim (Bool-cases (c.less k q)) [
      | inr same ↦ absurd (let z = rw (right, same, insert_into) at e in cc)
      | inl more ↦ elim (Option-cases (insert_into q r)) [
        | inl missing ↦ absurd (let z = rw (right, more, missing, insert_into) at e in cc)
        | inr (r', found) ↦
            let (a, low, high, size) = insert_into-IsAvl q r r' ar found in
            let w = rebalance_node-IsAvl l k r' al a (omega arith, omega arith) in
            let z : rebalance_node l k r' ≡ t' =
              (let y = rw (right, more, found, insert_into) at e in cc) in
            rw (sym z) (w.0, grind (arith, w), grind (arith, w), grind (arith, w))
      ]
    ]
  ]

  -- Erasing a key from a balanced tree leaves a balanced tree with right heights and sizes, lower
  -- by one at most, with one key less if `find` finds the key and as many if it does not.
  pub erase_from-IsAvl :
      (q : K) (t : Tree K)
      → IsAvl t
      → IsAvl (erase_from q t)
        × (height_of (erase_from q t) ≤ height_of t)
        × (height_of t ≤ height_of (erase_from q t) + 1)
        × (subtree_size (erase_from q t) + to_nat (is_some (find q t)) ≡ subtree_size t)
  unfolding erase_from find IsAvl Rebalanced
  erase_from-IsAvl q leaf a = (tt, omega arith, omega arith, omega arith)
  erase_from-IsAvl q (node l k h s r) (al, ar, eh, es, n) = elim (Bool-cases (c.less q k)) [
    | inl left ↦
        let (a, low, high, size) = erase_from-IsAvl q l al in
        let w = rebalance_node-IsAvl (erase_from q l) k r a ar (omega arith, omega arith) in
        rw (left, erase_from, find) (w.0, grind (arith, w), grind (arith, w), grind (arith, w))
    | inr right ↦ elim (Bool-cases (c.less k q)) [
      | inl more ↦
          let (a, low, high, size) = erase_from-IsAvl q r ar in
          let w = rebalance_node-IsAvl l k (erase_from q r) al a (omega arith, omega arith) in
          rw (right, more, erase_from, find)
            (w.0, grind (arith, w), grind (arith, w), grind (arith, w))
      | inr same ↦
          let w = join-IsAvl l r al ar n in
          rw (right, same, erase_from, find)
            (w.0, grind (arith, w), grind (arith, w), grind (arith, w))
    ]
  ]
