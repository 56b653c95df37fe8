-- ===== src/Avl/Insert.antt =====
-- `insert` of lib/abstract/avl.hpp on a balanced search tree: it returns, the new tree is balanced,
-- and its keys are the old ones with the new key put in its place.
mod Rebalance
use enigma_db.Base.{
  ℕ, ◌+◌, ◌≡◌, refl, ◌∙◌, sym, ap, Option, none, some, List, [], ◌∷◌, ◌++◌, inl, inr, arith, Bool,
  true, false, Bool-cases,
}
use enigma_db.Base.Int.{ℤ, inc}
use enigma_db.Ordered.{Ordered, equal-of_not_less}
use enigma_db.SortedList.{
  IsSorted, IsSorted-split, Below, Above, upsert, find, upsert-left, upsert-right, upsert-here,
}
use enigma_db.SortedList.Split.{find-left, find-right, find-here}
use enigma_db.Avl.{Tree, null, node, rebalance_after_insert, get_height, ◌>>=◌, insert_node}
use enigma_db.Avl.Contents.{to_list, to_list-rebalance_after_insert}
use enigma_db.Avl.Balance.{IsBalanced}
use Rebalance.{Grown, rebalance_left, rebalance_right}

-- `size_` after an insertion that found an equal key, or none.
abbrev pub counted {ℓ} : {T : Type ℓ} → Option T → ℤ → ℤ
counted none n = inc n
counted (some _) n = n

module _ {ℓ} {T : Type ℓ} ⦃o : Ordered T⦄ where
  pub record Inserted (t : Tree T) (key : T) (n : ℤ) : Type ℓ where
    pub tree : Tree T
    pub returns : insert_node t key n ≡ some (tree, counted (find key (to_list t)) n)
    pub balanced : IsBalanced tree
    pub grown : Grown t key tree
    pub contents : to_list tree ≡ upsert key (to_list t)

  replace_key :
      (k : T) (h : ℕ) (l r : Tree T) (key : T) (n : ℤ)
      → IsBalanced (node k h l r)
      → IsSorted (to_list l ++ (k ∷ to_list r))
      → o.equal k key ≡ true
      → Inserted (node k h l r) key n
  replace_key k h l r key n b s e =
      let (_, below, _, _) = IsSorted-split (to_list l) k (to_list r) s in
      record {
        tree = node key h l r;
        returns =
            unfold insert_node in ground (arith, find-here (to_list l) k key (to_list r) below e);
        balanced = b;
        grown = inl refl;
        contents = sym (upsert-here (to_list l) k key (to_list r) below e);
      }

  go_right :
      (k : T) (h : ℕ) (l r : Tree T) (key : T) (n : ℤ)
      → IsBalanced (node k h l r)
      → IsSorted (to_list l ++ (k ∷ to_list r))
      → o.equal k key ≡ false
      → o.less k key ≡ true
      → Inserted r key n
      → Inserted (node k h l r) key n
  go_right k h l r key n b s ne lt sub =
      let (_, below, _, _) = IsSorted-split (to_list l) k (to_list r) s in
      let (t, returns, balanced, grown) =
        rebalance_right key k h l r sub.tree lt b sub.balanced sub.grown in
      record {
        tree = t;
        returns =
            unfold insert_node in
            ground (arith, sub.returns, returns, find-right (to_list l) k key (to_list r) below lt);
        balanced = balanced;
        grown = grown;
        contents =
            to_list-rebalance_after_insert key k l sub.tree t returns
            ∙ ap (λ x. to_list l ++ (k ∷ x)) sub.contents
            ∙ sym (upsert-right (to_list l) k key (to_list r) below lt);
      }

  go_left :
      (k : T) (h : ℕ) (l r : Tree T) (key : T) (n : ℤ)
      → IsBalanced (node k h l r)
      → IsSorted (to_list l ++ (k ∷ to_list r))
      → o.equal k key ≡ false
      → o.less k key ≡ false
      → o.less key k ≡ true
      → Inserted l key n
      → Inserted (node k h l r) key n
  go_left k h l r key n b s ne nlt lt sub =
      let (_, _, above, _) = IsSorted-split (to_list l) k (to_list r) s in
      let (t, returns, balanced, grown) =
        rebalance_left key k h l r sub.tree lt b sub.balanced sub.grown in
      record {
        tree = t;
        returns =
            unfold insert_node in
            ground (arith, sub.returns, returns, find-left (to_list l) k key (to_list r) above lt);
        balanced = balanced;
        grown = grown;
        contents =
            to_list-rebalance_after_insert key k sub.tree r t returns
            ∙ ap (λ x. x ++ (k ∷ to_list r)) sub.contents
            ∙ sym (upsert-left (to_list l) k key (to_list r) lt);
      }

  pub insert_node-Inserted :
      (t : Tree T) (key : T) (n : ℤ) → IsBalanced t → IsSorted (to_list t) → Inserted t key n
  insert_node-Inserted null key n b s = record {
    tree = node key 1 null null;
    returns = unfold insert_node in refl;
    balanced = ground arith;
    grown = inr (omega arith, inl refl);
    contents = refl;
  }
  insert_node-Inserted (node k h l r) key n b s =
      let (sl, _, _, sr) = IsSorted-split (to_list l) k (to_list r) s in
      elim (Bool-cases (o.equal k key)) [
        | inl e ↦ replace_key k h l r key n b s e
        | inr ne ↦ elim (Bool-cases (o.less k key)) [
          | inl lt ↦ go_right k h l r key n b s ne lt (insert_node-Inserted r key n b.4 sr)
          | inr nlt ↦
              go_left k h l r key n b s ne nlt (ground (arith, o.equal_lem k key))
                (insert_node-Inserted l key n b.3 sl)
        ]
      ]
