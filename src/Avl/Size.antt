-- ===== src/Avl/Size.antt =====
-- The counter `size_` of lib/abstract/avl.hpp.
use enigma_db.Base.{
  ℕ, suc, ◌≡◌, ◌∙◌, sym, ap, some, List, ◌∷◌, ◌++◌, arith, true, false, length, length-append,
}
use enigma_db.Base.Int.{ℤ, pos, dec}
use enigma_db.Ordered.{Ordered}
use enigma_db.SortedList.Split.{erase-here}
use enigma_db.SortedList.{IsSorted-split, IsSorted, upsert, find}
use enigma_db.SortedList.Laws.{length-upsert}
use enigma_db.Avl.{Tree, node, AvlTree, insert, remove, to_sorted_vector, is_null}
use enigma_db.Avl.Contents.{to_list}
use enigma_db.Avl.Insert.{counted}
use enigma_db.Avl.Remove.Successor.{removed_size}
use enigma_db.Avl.Laws.{IsValid, keys, insert-upsert, remove-erase, to_sorted_vector-keys}

-- `size_` is the number of keys.
abbrev pub IsCounted {ℓ} : {T : Type ℓ} → AvlTree T → Type 0
IsCounted t = t.size ≡ pos (length (keys t))

module _ {ℓ} {T : Type ℓ} ⦃o : Ordered T⦄ where
  counts_up :
      (ks : List T) (key : T) (n : ℤ) (t' : AvlTree T)
      → IsSorted ks
      → t'.size ≡ counted (find key ks) n
      → keys t' ≡ upsert key ks
      → n ≡ pos (length ks)
      → IsCounted t'
  counts_up ks key n t' s e k c = rw (e, k, c) (ground (arith, length-upsert key ks s))

  -- Where `size_` counts the keys of a balanced search tree it does so after `insert`, and `toSortedVector` then returns the
  -- old keys with the new one in its place.
  pub to_sorted_vector-insert :
      (t : AvlTree T) (key : T)
      → IsValid t
      → IsCounted t
      → (t' : AvlTree T) × (insert t key ≡ some t')
        × IsCounted t'
        × (to_sorted_vector t' ≡ some (upsert key (keys t)))
  to_sorted_vector-insert t key v c =
      let (t', returns, v', contents, size) = insert-upsert t key v in
      let counts : IsCounted t' = counts_up (keys t) key t.size t' v.sorted size contents c in
      (t', returns, counts, to_sorted_vector-keys t' (length (keys t')) counts ∙ ap some contents)

  removed_size-two :
      (k : T) (h : ℕ) (l r : Tree T) (n : ℤ)
      → is_null l ≡ false
      → is_null r ≡ false
      → removed_size (node k h l r) k n ≡ dec (dec n)
  unfolding removed_size
  removed_size-two k h l r n left right = cc (o.irrefl k)

  -- The removal of a balanced search tree's root with two children counts down twice: where `size_` was the number of
  -- keys, it is one less than that afterwards.
  pub remove_two_children :
      (k : T) (h : ℕ) (l r : Tree T) (n : ℤ)
      → IsValid (record { root = node k h l r; size = n })
      → n ≡ pos (length (to_list (node k h l r)))
      → is_null l ≡ false
      → is_null r ≡ false
      → (t' : AvlTree T) × (remove (record { root = node k h l r; size = n }) k ≡ some t')
        × (t'.size ≡ dec (pos (length (keys t'))))
  remove_two_children k h l r n v c left right =
      let (t', returns, v', contents, size) =
        remove-erase (record { root = node k h l r; size = n }) k v in
      let (_, below, _, _) = IsSorted-split (to_list l) k (to_list r) v.sorted in
      let same : o.equal k k ≡ true = ground (arith, o.equal_lem k k, o.irrefl k) in
      (t', returns, twice t' (contents ∙ erase-here (to_list l) k k (to_list r) below same) size)
    where
      one_more : length (to_list l ++ (k ∷ to_list r)) ≡ suc (length (to_list l ++ to_list r))
      one_more =
          omega (
            arith,
            length-append (to_list l) (to_list r),
            length-append (to_list l) (k ∷ to_list r),
          )

      twice :
          (t' : AvlTree T)
          → keys t' ≡ to_list l ++ to_list r
          → t'.size ≡ removed_size (node k h l r) k n
          → t'.size ≡ dec (pos (length (keys t')))
      twice t' e q =
          q
          ∙ removed_size-two k h l r n left right
          ∙ ap (λ x. dec (dec x)) (c ∙ ap pos one_more)
          ∙ ap (λ x. dec (pos (length x))) (sym e)
