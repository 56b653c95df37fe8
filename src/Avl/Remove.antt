-- ===== src/Avl/Remove.antt =====
-- `remove` of lib/abstract/avl.hpp on a balanced search tree: it returns, the new tree is balanced,
-- and its keys are the old ones without the key that was asked for.
mod Rebalance
pub mod Successor
use enigma_db.Base.{
  ℕ, ◌+◌, ◌≡◌, refl, ◌∙◌, sym, ap, Option, none, some, List, [], ◌∷◌, ◌++◌, ◌⊎◌, inl, inr, arith,
  Bool, true, false, Bool-cases, append-nil,
}
use mathlib.Core.Path.{subst}
use enigma_db.Base.Int.{ℤ, dec}
use enigma_db.Ordered.{Ordered, equal-of_not_less, asymm}
use enigma_db.SortedList.{IsSorted, IsSorted-split, Below, Above, erase}
use enigma_db.SortedList.Split.{erase-left, erase-right, erase-here}
use enigma_db.Avl.{
  Tree, null, node, is_null, rebalance_after_remove, get_height, get_key, ◌>>=◌, remove_node,
  find_left_most,
}
use enigma_db.Avl.Contents.{to_list, to_list-rebalance_after_remove}
use enigma_db.Avl.Balance.{IsBalanced}
use Rebalance.{Rebalanced, rebalance_after_remove-Rebalanced}
use Successor.{
  Shrunk, find_left_most-first, to_list-null, height-null, shrink_left, shrink_right, removed_size,
  removed_size-first,
}

module _ {ℓ} {T : Type ℓ} ⦃o : Ordered T⦄ where
  pub record Removed (t : Tree T) (key : T) (n : ℤ) : Type ℓ where
    pub tree : Tree T
    pub returns : remove_node t key n ≡ some (tree, removed_size t key n)
    pub balanced : IsBalanced tree
    pub shrunk : Shrunk t tree
    pub contents : to_list tree ≡ erase key (to_list t)

  erase-first : (m : T) (rest : List T) → erase m (m ∷ rest) ≡ rest
  erase-first m rest = ground (arith, o.equal_lem m m, o.irrefl m)

  go_right :
      (k : T) (h : ℕ) (l r : Tree T) (key : T) (n : ℤ)
      → IsBalanced (node k h l r)
      → IsSorted (to_list l ++ (k ∷ to_list r))
      → o.less k key ≡ true
      → Removed r key n
      → Removed (node k h l r) key n
  go_right k h l r key n b s lt sub =
      let (_, below, _, _) = IsSorted-split (to_list l) k (to_list r) s in
      let re =
        rebalance_after_remove-Rebalanced k h l sub.tree b.3 sub.balanced (omega arith)
          (omega arith) in
      record {
        tree = re.tree;
        returns = unfold remove_node removed_size in ground (arith, sub.returns, re.returns);
        balanced = re.balanced;
        shrunk =
            shrink_right (get_height l) (get_height r) (get_height sub.tree) h (get_height re.tree)
              b.0 b.1 b.2 sub.shrunk re.height;
        contents =
            to_list-rebalance_after_remove (node k h l sub.tree) re.tree re.returns
            ∙ ap (λ x. to_list l ++ (k ∷ x)) sub.contents
            ∙ sym (erase-right (to_list l) k key (to_list r) below lt);
      }

  go_left :
      (k : T) (h : ℕ) (l r : Tree T) (key : T) (n : ℤ)
      → IsBalanced (node k h l r)
      → IsSorted (to_list l ++ (k ∷ to_list r))
      → o.less key k ≡ true
      → Removed l key n
      → Removed (node k h l r) key n
  go_left k h l r key n b s lt sub =
      let (_, _, above, _) = IsSorted-split (to_list l) k (to_list r) s in
      let re =
        rebalance_after_remove-Rebalanced k h sub.tree r sub.balanced b.4 (omega arith)
          (omega arith) in
      record {
        tree = re.tree;
        returns =
            unfold remove_node removed_size in
            ground (arith, sub.returns, re.returns, asymm key k lt);
        balanced = re.balanced;
        shrunk =
            shrink_left (get_height l) (get_height r) (get_height sub.tree) h (get_height re.tree)
              b.0 b.1 b.2 sub.shrunk re.height;
        contents =
            to_list-rebalance_after_remove (node k h sub.tree r) re.tree re.returns
            ∙ ap (λ x. x ++ (k ∷ to_list r)) sub.contents
            ∙ sym (erase-left (to_list l) k key (to_list r) above lt);
      }

  -- A node with a free side is replaced by its other child, which is in balance already.
  rebalance-IsBalanced :
      (t : Tree T)
      → IsBalanced t
      → (t' : Tree T) × (rebalance_after_remove t ≡ some t')
        × IsBalanced t'
        × (get_height t' ≡ get_height t)
        × (to_list t' ≡ to_list t)
  rebalance-IsBalanced null b = (null, unfold rebalance_after_remove in refl, tt, refl, refl)
  rebalance-IsBalanced (node k h l r) b =
      let re = rebalance_after_remove-Rebalanced k h l r b.3 b.4 (omega arith) (omega arith) in
      (
        re.tree,
        re.returns,
        re.balanced,
        omega (arith, re.height),
        to_list-rebalance_after_remove (node k h l r) re.tree re.returns,
      )

  found_no_right :
      (k : T) (h : ℕ) (l r : Tree T) (key : T) (n : ℤ)
      → IsBalanced (node k h l r)
      → IsSorted (to_list l ++ (k ∷ to_list r))
      → o.less k key ≡ false
      → o.less key k ≡ false
      → is_null r ≡ true
      → Removed (node k h l r) key n
  found_no_right k h l r key n b s nlt ngt none_right =
      let (_, below, _, _) = IsSorted-split (to_list l) k (to_list r) s in
      let (t, returns, balanced, height, keys) = rebalance-IsBalanced l b.3 in
      record {
        tree = t;
        returns = unfold remove_node removed_size in ground (arith, returns);
        balanced = balanced;
        shrunk = inr (omega (arith, height, height-null r none_right));
        contents =
            keys
            ∙ sym (append-nil (to_list l))
            ∙ ap (λ x. to_list l ++ x) (sym (to_list-null r none_right))
            ∙ sym
                (erase-here (to_list l) k key (to_list r) below (equal-of_not_less k key nlt ngt));
      }

  found_no_left :
      (k : T) (h : ℕ) (l r : Tree T) (key : T) (n : ℤ)
      → IsBalanced (node k h l r)
      → IsSorted (to_list l ++ (k ∷ to_list r))
      → o.less k key ≡ false
      → o.less key k ≡ false
      → is_null r ≡ false
      → is_null l ≡ true
      → Removed (node k h l r) key n
  found_no_left k h l r key n b s nlt ngt some_right none_left =
      let (_, below, _, _) = IsSorted-split (to_list l) k (to_list r) s in
      let (t, returns, balanced, height, keys) = rebalance-IsBalanced r b.4 in
      record {
        tree = t;
        returns = unfold remove_node removed_size in ground (arith, returns);
        balanced = balanced;
        shrunk = inr (omega (arith, height, height-null l none_left));
        contents =
            keys
            ∙ ap (λ x. x ++ to_list r) (sym (to_list-null l none_left))
            ∙ sym
                (erase-here (to_list l) k key (to_list r) below (equal-of_not_less k key nlt ngt));
      }

  -- The successor's key takes the place of the removed one.
  found_two :
      (k : T) (h : ℕ) (l r : Tree T) (key : T) (n : ℤ)
      → IsBalanced (node k h l r)
      → IsSorted (to_list l ++ (k ∷ to_list r))
      → o.less k key ≡ false
      → o.less key k ≡ false
      → is_null r ≡ false
      → is_null l ≡ false
      → ((m : T) → Removed r m n)
      → Removed (node k h l r) key n
  found_two k h l r key n b s nlt ngt some_right some_left remove_from_right =
      let (_, below, _, sr) = IsSorted-split (to_list l) k (to_list r) s in
      let (successor, m, rest, found, least, first) = find_left_most-first r some_right in
      let sub = remove_from_right m in
      let re =
        rebalance_after_remove-Rebalanced m h l sub.tree b.3 sub.balanced (omega arith)
          (omega arith) in
      record {
        tree = re.tree;
        returns =
            unfold remove_node removed_size in
            ground (
              arith,
              found,
              least,
              sub.returns,
              re.returns,
              removed_size-first r m rest n sr first,
            );
        balanced = re.balanced;
        shrunk =
            shrink_right (get_height l) (get_height r) (get_height sub.tree) h (get_height re.tree)
              b.0 b.1 b.2 sub.shrunk re.height;
        contents =
            to_list-rebalance_after_remove (node m h l sub.tree) re.tree re.returns
            ∙ ap (λ x. to_list l ++ (m ∷ x)) (sub.contents ∙ rw first (erase-first m rest))
            ∙ ap (λ x. to_list l ++ x) (sym first)
            ∙ sym
                (erase-here (to_list l) k key (to_list r) below (equal-of_not_less k key nlt ngt));
      }

  pub remove_node-Removed :
      (t : Tree T) (key : T) (n : ℤ) → IsBalanced t → IsSorted (to_list t) → Removed t key n
  remove_node-Removed null key n b s = record {
    tree = null;
    returns = unfold remove_node removed_size in refl;
    balanced = tt;
    shrunk = inl refl;
    contents = refl;
  }
  remove_node-Removed (node k h l r) key n b s =
      let (sl, _, _, sr) = IsSorted-split (to_list l) k (to_list r) s in
      elim (Bool-cases (o.less k key)) [
        | inl lt ↦ go_right k h l r key n b s lt (remove_node-Removed r key n b.4 sr)
        | inr nlt ↦ elim (Bool-cases (o.less key k)) [
          | inl gt ↦ go_left k h l r key n b s gt (remove_node-Removed l key n b.3 sl)
          | inr ngt ↦ elim (Bool-cases (is_null r)) [
            | inl no_right ↦ found_no_right k h l r key n b s nlt ngt no_right
            | inr right ↦ elim (Bool-cases (is_null l)) [
              | inl no_left ↦ found_no_left k h l r key n b s nlt ngt right no_left
              | inr left ↦
                  found_two k h l r key n b s nlt ngt right left
                    (λ m. remove_node-Removed r m n b.4 sr)
            ]
          ]
        ]
      ]
