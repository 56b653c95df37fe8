-- ===== src/Avl/Runs.antt =====
-- Runs of lib/abstract/avl.hpp on numbers, and the theorems at concrete inputs.
use enigma_db.Base.{ℕ, ◌≡◌, refl, none, some, [], ◌∷◌, arith, length}
use enigma_db.Base.Int.{pos, negsuc, dec}
use enigma_db.Base.Decimal.{digits, to_string}
use enigma_db.Ordered.Numbers.{number_ordered}
use enigma_db.SortedList.{upsert, erase, find}
use enigma_db.Avl.{
  Tree, null, node, AvlTree, insert, remove, search, search_node, to_sorted_vector, insert_node,
  remove_node, rebalance_after_insert, rebalance_after_remove, rotate_left, find_left_most,
}
use enigma_db.Avl.Contents.{to_list}
use enigma_db.Avl.Reference.{find_node_ref, find_node_ref-upsert}
use enigma_db.Avl.Printing.{inorder, print_nodes}
use enigma_db.Avl.Insert.{counted}
use enigma_db.Avl.Remove.Successor.{removed_size}
use enigma_db.Avl.Laws.{IsValid, keys, insert-upsert, remove-erase, search-find}
use enigma_db.Avl.Size.{IsCounted, to_sorted_vector-insert, remove_two_children}

abbrev leaf : ℕ → Tree ℕ
leaf k = node k 1 null null

-- 1, 2, 3 inserted in this order: the root is rotated to the left.
abbrev three : AvlTree ℕ
three = record { root = node 2 2 (leaf 1) (leaf 3); size = pos 3 }

abbrev two : AvlTree ℕ
two = record { root = node 1 2 null (leaf 2); size = pos 2 }

insert_rotates : insert two 3 ≡ some three
unfolding insert insert_node rebalance_after_insert rotate_left
insert_rotates = refl

three-IsValid : IsValid three
three-IsValid = ground arith

insert-upsert_example :
    (t' : AvlTree ℕ) × (insert three 5 ≡ some t')
    × IsValid t'
    × (keys t' ≡ upsert 5 (1 ∷ 2 ∷ 3 ∷ []))
    × (t'.size ≡ counted {T = ℕ} (find 5 (1 ∷ 2 ∷ 3 ∷ [])) (pos 3))
insert-upsert_example = insert-upsert three 5 three-IsValid

remove-erase_example :
    (t' : AvlTree ℕ) × (remove three 2 ≡ some t')
    × IsValid t'
    × (keys t' ≡ erase 2 (1 ∷ 2 ∷ 3 ∷ []))
    × (t'.size ≡ removed_size three.root 2 (pos 3))
remove-erase_example = remove-erase three 2 three-IsValid

search-find_example : search three 3 ≡ find 3 (1 ∷ 2 ∷ 3 ∷ [])
search-find_example = search-find three 3 three-IsValid

-- The place of 4 is the right child of 3.
find_node_ref-upsert_example :
    ((find_node_ref three.root 4).0 ≡ null)
    × ((find_node_ref three.root 4).1 null ≡ three.root)
    × (to_list ((find_node_ref three.root 4).1 (leaf 4)) ≡ 1 ∷ 2 ∷ 3 ∷ 4 ∷ [])
unfolding find_node_ref search_node
find_node_ref-upsert_example = find_node_ref-upsert three.root 4 (ground arith)

-- "1(H:1, B:0) 2(H:2, B:0) 3(H:1, B:0) ", and a new line.
printed :
    inorder (some to_string) three
    ≡ 49 ∷ 40 ∷ 72 ∷ 58 ∷ 49 ∷ 44 ∷ 32 ∷ 66 ∷ 58 ∷ 48 ∷ 41 ∷ 32 ∷ 50 ∷ 40 ∷ 72 ∷ 58 ∷ 50 ∷ 44 ∷ 32
      ∷ 66 ∷ 58 ∷ 48 ∷ 41 ∷ 32 ∷ 51 ∷ 40 ∷ 72 ∷ 58 ∷ 49 ∷ 44 ∷ 32 ∷ 66 ∷ 58 ∷ 48 ∷ 41 ∷ 32 ∷ 10 ∷ []
unfolding inorder print_nodes digits
printed = refl

to_sorted_vector-insert_example :
    (t' : AvlTree ℕ) × (insert three 5 ≡ some t')
    × IsCounted t'
    × (to_sorted_vector t' ≡ some (upsert 5 (1 ∷ 2 ∷ 3 ∷ [])))
to_sorted_vector-insert_example = to_sorted_vector-insert three 5 three-IsValid refl

remove_two_children_example :
    (t' : AvlTree ℕ) × (remove three 2 ≡ some t') × (t'.size ≡ dec (pos (length (keys t'))))
remove_two_children_example =
    remove_two_children 2 2 (leaf 1) (leaf 3) (pos 3) three-IsValid refl refl refl

-- Three keys removed, the root first: the count is -1 and the sorted vector of no keys throws.
drained :
    (remove three 2 ≡ some (record { root = node 3 2 (leaf 1) null; size = pos 1 }))
    × (remove (record { root = node 3 2 (leaf 1) null; size = pos 1 }) 1
        ≡ some (record { root = leaf 3; size = pos 0 }))
    × (remove (record { root = leaf 3; size = pos 0 }) 3
        ≡ some (record { root = null; size = negsuc 0 }))
    × (to_sorted_vector {T = ℕ} (record { root = null; size = negsuc 0 }) ≡ none)
unfolding remove remove_node rebalance_after_remove find_left_most to_sorted_vector
drained = (refl, refl, refl, refl)
