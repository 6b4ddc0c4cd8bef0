-- ===== src/Storage/AvlTree/Examples.antt =====
-- Trees of numbers, and the theorems at inputs that meet their hypotheses.
use gredis.Base.{ℕ, ◌+◌, ◌≤◌, ◌≡◌, refl, Option, none, some, arith, ltb, List, [], ◌∷◌, get_elem?}
use gredis.Storage.AvlTree.Balance.{IsAvl}
use gredis.Storage.AvlTree.Change.{insert_into-IsAvl, erase_from-IsAvl}
use gredis.Storage.AvlTree.Rank.{select-keys_of}
use gredis.Storage.AvlTree.{
  Compare, Tree, leaf, node, height_of, subtree_size, rotate_left, rotate_right, rebalance_node,
  insert_into, erase_from, find, select, lower_bound, lower_bound_from, join, take_leftmost,
  keys_of,
}
use gredis.Storage.HashTable.Chain.{to_nat}
use gredis.Storage.HashTable.Update.{is_some}

instance number_order : Compare ℕ
number_order = record { less = ltb }

abbrev or_same : Tree ℕ → Option (Tree ℕ) → Tree ℕ
or_same t none = t
or_same t (some u) = u

abbrev insert_all : List ℕ → Tree ℕ → Tree ℕ
insert_all [] t = t
insert_all (q ∷ qs) t = insert_all qs (or_same t (insert_into q t))

abbrev one_to_seven : Tree ℕ
one_to_seven = insert_all (1 ∷ 2 ∷ 3 ∷ 4 ∷ 5 ∷ 6 ∷ 7 ∷ []) leaf

tree_runs :
    (keys_of one_to_seven ≡ 1 ∷ 2 ∷ 3 ∷ 4 ∷ 5 ∷ 6 ∷ 7 ∷ [])
    × (height_of one_to_seven ≡ 3)
    × (keys_of (erase_from 4 one_to_seven) ≡ 1 ∷ 2 ∷ 3 ∷ 5 ∷ 6 ∷ 7 ∷ [])
    × (insert_into 3 one_to_seven ≡ none)
    × (select one_to_seven 4 ≡ some 5)
    × (lower_bound 8 one_to_seven ≡ none)
unfolding insert_into rebalance_node rotate_left rotate_right keys_of erase_from join take_leftmost
    select lower_bound lower_bound_from number_order
tree_runs = (refl, refl, refl, refl, refl, refl)

abbrev two : Tree ℕ
two = node leaf 1 2 2 (node leaf 2 1 1 leaf)

two-IsAvl : IsAvl two
unfolding IsAvl
two-IsAvl =
    ((tt), (tt, tt, refl, refl, (omega arith, omega arith)), refl, refl, (omega arith, omega arith))

abbrev three : Tree ℕ
three = node (node leaf 1 1 1 leaf) 2 2 3 (node leaf 3 1 1 leaf)

three_inserted : insert_into 3 two ≡ some three
unfolding insert_into rebalance_node rotate_left rotate_right number_order
three_inserted = refl

insert_into-IsAvl_example :
    IsAvl three
    × (height_of two ≤ height_of three)
    × (height_of three ≤ height_of two + 1)
    × (subtree_size three ≡ subtree_size two + 1)
insert_into-IsAvl_example = insert_into-IsAvl 3 two three two-IsAvl three_inserted

erase_from-IsAvl_example :
    IsAvl (erase_from 1 two)
    × (height_of (erase_from 1 two) ≤ height_of two)
    × (height_of two ≤ height_of (erase_from 1 two) + 1)
    × (subtree_size (erase_from 1 two) + to_nat (is_some (find 1 two)) ≡ subtree_size two)
erase_from-IsAvl_example = erase_from-IsAvl 1 two two-IsAvl

select-keys_of_example : select two 1 ≡ get_elem? (keys_of two) 1
select-keys_of_example = select-keys_of two 1 two-IsAvl
