-- ===== src/Avl/Laws.antt =====
-- The public operations of `AVLTree<T>` in lib/abstract/avl.hpp against a sorted list.
use enigma_db.Base.{ℕ, ◌≡◌, refl, some, List, [], inl, inr, arith, true, false, Bool-cases}
use enigma_db.Base.Int.{pos}
use enigma_db.Ordered.{Ordered}
use enigma_db.SortedList.{IsSorted, IsSorted-split, upsert, erase, find}
use enigma_db.SortedList.Laws.{upsert-IsSorted, erase-IsSorted}
use enigma_db.SortedList.Split.{find-left, find-right, find-here}
use enigma_db.Avl.{
  Tree, null, node, AvlTree, new, clear, insert, remove, search, to_sorted_vector, get_key,
  search_node,
}
use enigma_db.Avl.Contents.{to_list, in_order_into_vector-append}
use enigma_db.Avl.Balance.{IsBalanced}
use enigma_db.Avl.Insert.{counted, insert_node-Inserted}
use enigma_db.Avl.Remove.{remove_node-Removed}
use enigma_db.Avl.Remove.Successor.{removed_size}

abbrev pub keys {ℓ} : {T : Type ℓ} → AvlTree T → List T
keys t = to_list t.root

module _ {ℓ} {T : Type ℓ} ⦃o : Ordered T⦄ where
  -- A balanced search tree.
  pub record IsValid (t : AvlTree T) : Type 0 where
    pub balanced : IsBalanced t.root
    pub sorted : IsSorted (keys t)

  -- On a balanced search tree `insert` dereferences no null pointer, and its result is a balanced
  -- search tree that holds the old keys with the new one in its place, an equal key replaced;
  -- `size_` goes up by one if no equal key was there, and stays otherwise.
  pub insert-upsert :
      (t : AvlTree T) (key : T)
      → IsValid t
      → (t' : AvlTree T) × (insert t key ≡ some t')
        × IsValid t'
        × (keys t' ≡ upsert key (keys t))
        × (t'.size ≡ counted (find key (keys t)) t.size)
  unfolding insert
  insert-upsert t key v =
      let sub = insert_node-Inserted t.root key t.size v.balanced v.sorted in
      (
        record { root = sub.tree; size = counted (find key (keys t)) t.size },
        ground (arith, sub.returns),
        record {
          balanced = sub.balanced;
          sorted = rw sub.contents (upsert-IsSorted key (keys t) v.sorted);
        },
        sub.contents,
        refl,
      )

  -- On a balanced search tree `remove` dereferences no null pointer and throws nothing, and its
  -- result is a balanced search tree that holds the old keys without the one that equals `key`;
  -- `size_` goes down by two if that key's node has two children, by one if it has fewer, and stays
  -- if there is none (`removed_size`).
  pub remove-erase :
      (t : AvlTree T) (key : T)
      → IsValid t
      → (t' : AvlTree T) × (remove t key ≡ some t')
        × IsValid t'
        × (keys t' ≡ erase key (keys t))
        × (t'.size ≡ removed_size t.root key t.size)
  unfolding remove
  remove-erase t key v =
      let sub = remove_node-Removed t.root key t.size v.balanced v.sorted in
      (
        record { root = sub.tree; size = removed_size t.root key t.size },
        ground (arith, sub.returns),
        record {
          balanced = sub.balanced;
          sorted = rw sub.contents (erase-IsSorted key (keys t) v.sorted);
        },
        sub.contents,
        refl,
      )

  search_node-find :
      (t : Tree T) (key : T)
      → IsSorted (to_list t)
      → get_key (search_node t key) ≡ find key (to_list t)
  unfolding search_node
  search_node-find null key s = refl
  search_node-find (node k h l r) key s =
      let (sl, below, above, sr) = IsSorted-split (to_list l) k (to_list r) s in
      let gt : o.equal k key ≡ false → o.less key k ≡ false → o.less k key ≡ true =
        λ p q. ground (arith, o.equal_lem k key) in
      elim (Bool-cases (o.equal k key)) [
        | inl e ↦ ground (arith, find-here (to_list l) k key (to_list r) below e)
        | inr ne ↦ elim (Bool-cases (o.less key k)) [
          | inl lt ↦
              ground
                (arith, find-left (to_list l) k key (to_list r) above lt, search_node-find l key sl)
          | inr nlt ↦ ground (
            arith,
            find-right (to_list l) k key (to_list r) below (gt ne nlt),
            search_node-find r key sr,
          )
        ]
      ]

  -- On a balanced search tree `search` finds the key that equals the one asked for, if there is one.
  pub search-find : (t : AvlTree T) (key : T) → IsValid t → search t key ≡ find key (keys t)
  unfolding search
  search-find t key v = search_node-find t.root key v.sorted

  pub new-IsValid : IsValid new
  unfolding new
  new-IsValid = record { balanced = tt; sorted = tt }

  pub clear-IsValid : (t : AvlTree T) → IsValid (clear t)
  unfolding clear
  clear-IsValid t = record { balanced = tt; sorted = tt }

module _ {ℓ} {T : Type ℓ} where
  -- With a count that is not negative, the sorted vector holds the keys in order.
  pub to_sorted_vector-keys :
      (t : AvlTree T) (n : ℕ) → t.size ≡ pos n → to_sorted_vector t ≡ some (keys t)
  unfolding to_sorted_vector
  to_sorted_vector-keys t n e = ground (arith, in_order_into_vector-append t.root [])
