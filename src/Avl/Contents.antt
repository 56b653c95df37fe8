-- ===== src/Avl/Contents.antt =====
-- The keys of a tree of lib/abstract/avl.hpp in order, and that rotations leave them alone.
use enigma_db.Base.{
  ℕ, ◌≡◌, refl, sym, Option, none, some, List, [], ◌∷◌, ◌++◌, append-nil, append_assoc, arith,
}
use enigma_db.Ordered.{Ordered}
use enigma_db.Avl.{
  Tree, null, node, rotate_left, rotate_right, rotate_left_right, rotate_right_left,
  in_order_into_vector, rebalance_after_remove, rebalance_after_insert, with_height, get_height,
  ◌>>=◌,
}

module _ {ℓ} {T : Type ℓ} where
  abbrev pub to_list : Tree T → List T
  to_list null = []
  to_list (node k h l r) = to_list l ++ (k ∷ to_list r)

  pub in_order_into_vector-append :
      (t : Tree T) (v : List T) → in_order_into_vector t v ≡ v ++ to_list t
  unfolding in_order_into_vector
  in_order_into_vector-append null v = sym (append-nil v)
  in_order_into_vector-append (node k h l r) v = ground (
    arith,
    in_order_into_vector-append l v,
    in_order_into_vector-append r (in_order_into_vector l v ++ (k ∷ [])),
    append_assoc v (to_list l) (k ∷ []),
    append_assoc v (to_list l ++ (k ∷ [])) (to_list r),
    append_assoc (to_list l) (k ∷ []) (to_list r),
  )

  to_list-rotate_left : (t t' : Tree T) → rotate_left t ≡ some t' → to_list t' ≡ to_list t
  unfolding rotate_left
  to_list-rotate_left null t' e = cc
  to_list-rotate_left (node k h l null) t' e = cc
  to_list-rotate_left (node k h l (node rk rh rl rr)) t' e =
      ground (arith, append_assoc (to_list l) (k ∷ to_list rl) (rk ∷ to_list rr))

  to_list-rotate_right : (t t' : Tree T) → rotate_right t ≡ some t' → to_list t' ≡ to_list t
  unfolding rotate_right
  to_list-rotate_right null t' e = cc
  to_list-rotate_right (node k h null r) t' e = cc
  to_list-rotate_right (node k h (node lk lh ll lr) r) t' e =
      ground (arith, append_assoc (to_list ll) (lk ∷ to_list lr) (k ∷ to_list r))

  to_list-rotate_left_right :
      (k : T) (h : ℕ) (l r t' : Tree T)
      → rotate_left_right k h l r ≡ some t'
      → to_list t' ≡ to_list l ++ (k ∷ to_list r)
  unfolding rotate_left_right
  to_list-rotate_left_right k h l r t' e = go (rotate_left l) refl e
    where
      go :
          (o : Option (Tree T))
          → rotate_left l ≡ o
          → (o >>= λ l'. rotate_right (node k h l' r)) ≡ some t'
          → to_list t' ≡ to_list l ++ (k ∷ to_list r)
      go none p q = cc
      go (some l') p q =
          ground (arith, to_list-rotate_left l l' p, to_list-rotate_right (node k h l' r) t' q)

  to_list-rotate_right_left :
      (k : T) (h : ℕ) (l r t' : Tree T)
      → rotate_right_left k h l r ≡ some t'
      → to_list t' ≡ to_list l ++ (k ∷ to_list r)
  unfolding rotate_right_left
  to_list-rotate_right_left k h l r t' e = go (rotate_right r) refl e
    where
      go :
          (o : Option (Tree T))
          → rotate_right r ≡ o
          → (o >>= λ r'. rotate_left (node k h l r')) ≡ some t'
          → to_list t' ≡ to_list l ++ (k ∷ to_list r)
      go none p q = cc
      go (some r') p q =
          ground (arith, to_list-rotate_right r r' p, to_list-rotate_left (node k h l r') t' q)

  pub to_list-rebalance_after_remove :
      (t t' : Tree T) → rebalance_after_remove t ≡ some t' → to_list t' ≡ to_list t
  unfolding rebalance_after_remove
  to_list-rebalance_after_remove null t' e = ground arith
  to_list-rebalance_after_remove (node k h l r) t' e = ground (
    arith,
    to_list-rotate_left (with_height k l r) t',
    to_list-rotate_right (with_height k l r) t',
    to_list-rotate_left_right k (get_height (with_height k l r)) l r t',
    to_list-rotate_right_left k (get_height (with_height k l r)) l r t',
  )

module _ {ℓ} {T : Type ℓ} ⦃o : Ordered T⦄ where
  pub to_list-rebalance_after_insert :
      (key k : T) (l r t' : Tree T)
      → rebalance_after_insert key k l r ≡ some t'
      → to_list t' ≡ to_list l ++ (k ∷ to_list r)
  unfolding rebalance_after_insert
  to_list-rebalance_after_insert key k l r t' e = ground (
    arith,
    to_list-rotate_left (with_height k l r) t',
    to_list-rotate_right (with_height k l r) t',
    to_list-rotate_left_right k (get_height (with_height k l r)) l r t',
    to_list-rotate_right_left k (get_height (with_height k l r)) l r t',
  )
