-- ===== src/Avl/Remove/Rebalance.antt =====
-- The end of `remove` in lib/abstract/avl.hpp: the rotations after a child has shrunk, and the
-- leftmost node that takes the place of a removed one.
use enigma_db.Base.{ℕ, ◌+◌, ◌≤◌, ◌<◌, ◌≡◌, refl, ◌∙◌, some, ◌⊎◌, inl, inr, arith, max}
use enigma_db.Base.{Bool-cases}
use enigma_db.Base.Int.{
  sub_ℕ, is_nonzero, above_one-sub, not_above_one-sub, not_below_minus_one-sub, nonzero-sub,
  not_negative-sub,
}
use native.Mathlib.Decide.{dec_lt}
use enigma_db.Avl.{
  Tree, null, node, rotate_left, rotate_right, rotate_left_right, rotate_right_left,
  rebalance_after_remove, with_height, get_height,
}
use enigma_db.Avl.Balance.{
  IsBalanced, rotate_right-LeftHeavy, rotate_right-Even, rotate_left-RightHeavy, rotate_left-Even,
  rotate_left_right-balances, rotate_right_left-balances,
}

module _ {ℓ} {T : Type ℓ} where
  pub record Rebalanced (k : T) (h : ℕ) (l r : Tree T) : Type ℓ where
    pub tree : Tree T
    pub returns : rebalance_after_remove (node k h l r) ≡ some tree
    pub balanced : IsBalanced tree
    pub height :
        (get_height tree ≡ 1 + max (get_height l) (get_height r))
        ⊎ ((get_height tree ≡ max (get_height l) (get_height r))
            × ((get_height l ≡ get_height r + 2) ⊎ (get_height r ≡ get_height l + 2)))

  -- Which branch is taken, for each shape.
  settle :
      (k : T) (h : ℕ) (l r : Tree T)
      → get_height l ≤ get_height r + 1
      → get_height r ≤ get_height l + 1
      → rebalance_after_remove (node k h l r) ≡ some (with_height k l r)
  unfolding rebalance_after_remove
  settle k h l r u v =
      let over = not_above_one-sub (get_height l) (get_height r) u in
      let under = not_below_minus_one-sub (get_height l) (get_height r) v in
      elim (Bool-cases (is_nonzero (sub_ℕ (get_height l) (get_height r)))) [
        | inl e ↦ rw (e, over, under)
        | inr e ↦ rw e
      ]

  turn_ll :
      (k : T) (h : ℕ) (lk : T) (lh : ℕ) (ll lr r : Tree T)
      → lh ≡ get_height r + 2
      → get_height lr ≤ get_height ll
      → rebalance_after_remove (node k h (node lk lh ll lr) r)
        ≡ rotate_right (with_height k (node lk lh ll lr) r)
  unfolding rebalance_after_remove
  turn_ll k h lk lh ll lr r e u = rw (
    nonzero-sub lh (get_height r) (omega arith),
    above_one-sub lh (get_height r) (omega arith),
    not_negative-sub (get_height ll) (get_height lr) u,
  )

  turn_lr :
      (k : T) (h : ℕ) (lk : T) (lh : ℕ) (ll lr r : Tree T)
      → lh ≡ get_height r + 2
      → get_height ll < get_height lr
      → rebalance_after_remove (node k h (node lk lh ll lr) r)
        ≡ rotate_left_right k (get_height (with_height k (node lk lh ll lr) r)) (node lk lh ll lr) r
  unfolding rebalance_after_remove
  turn_lr k h lk lh ll lr r e u = ground arith

  turn_rr :
      (k : T) (h : ℕ) (l : Tree T) (rk : T) (rh : ℕ) (rl rr : Tree T)
      → rh ≡ get_height l + 2
      → get_height rl ≤ get_height rr
      → rebalance_after_remove (node k h l (node rk rh rl rr))
        ≡ rotate_left (with_height k l (node rk rh rl rr))
  unfolding rebalance_after_remove
  turn_rr k h l rk rh rl rr e u = ground arith

  turn_rl :
      (k : T) (h : ℕ) (l : Tree T) (rk : T) (rh : ℕ) (rl rr : Tree T)
      → rh ≡ get_height l + 2
      → get_height rr < get_height rl
      → rebalance_after_remove (node k h l (node rk rh rl rr))
        ≡ rotate_right_left k (get_height (with_height k l (node rk rh rl rr))) l (node rk rh rl rr)
  unfolding rebalance_after_remove
  turn_rl k h l rk rh rl rr e u = ground arith

  left_high :
      (k : T) (h : ℕ) (lk : T) (lh : ℕ) (ll lr r : Tree T)
      → IsBalanced (node lk lh ll lr)
      → IsBalanced r
      → lh ≡ get_height r + 2
      → Rebalanced k h (node lk lh ll lr) r
  left_high k h lk lh ll lr r bl br e =
      let l : Tree T = node lk lh ll lr in
      let h' : ℕ = get_height (with_height k l r) in
      elim (dec_lt (get_height ll) (get_height lr)) [
        | yes inwards ↦
            let (t, returns, balanced, height) =
              rotate_left_right-balances k h' l r bl br e (omega arith) in
            record {
              tree = t;
              returns = turn_lr k h lk lh ll lr r e inwards ∙ returns;
              balanced = balanced;
              height = inr (omega arith, inl e);
            }
        | no outwards ↦ elim (dec_lt (get_height lr) (get_height ll)) [
          | yes lean ↦
              let (t, returns, balanced, height) =
                rotate_right-LeftHeavy k h' l r bl br e (omega arith) in
              record {
                tree = t;
                returns = turn_ll k h lk lh ll lr r e (omega arith) ∙ returns;
                balanced = balanced;
                height = inr (omega arith, inl e);
              }
          | no level ↦
              let (t, returns, balanced, height) =
                rotate_right-Even k h' l r bl br e (omega arith) in
              record {
                tree = t;
                returns = turn_ll k h lk lh ll lr r e (omega arith) ∙ returns;
                balanced = balanced;
                height = inl (omega arith);
              }
        ]
      ]

  right_high :
      (k : T) (h : ℕ) (l : Tree T) (rk : T) (rh : ℕ) (rl rr : Tree T)
      → IsBalanced l
      → IsBalanced (node rk rh rl rr)
      → rh ≡ get_height l + 2
      → Rebalanced k h l (node rk rh rl rr)
  right_high k h l rk rh rl rr bl br e =
      let r : Tree T = node rk rh rl rr in
      let h' : ℕ = get_height (with_height k l r) in
      elim (dec_lt (get_height rr) (get_height rl)) [
        | yes inwards ↦
            let (t, returns, balanced, height) =
              rotate_right_left-balances k h' l r bl br e (omega arith) in
            record {
              tree = t;
              returns = turn_rl k h l rk rh rl rr e inwards ∙ returns;
              balanced = balanced;
              height = inr (omega arith, inr e);
            }
        | no outwards ↦ elim (dec_lt (get_height rl) (get_height rr)) [
          | yes lean ↦
              let (t, returns, balanced, height) =
                rotate_left-RightHeavy k h' l r bl br e (omega arith) in
              record {
                tree = t;
                returns = turn_rr k h l rk rh rl rr e (omega arith) ∙ returns;
                balanced = balanced;
                height = inr (omega arith, inr e);
              }
          | no level ↦
              let (t, returns, balanced, height) =
                rotate_left-Even k h' l r bl br e (omega arith) in
              record {
                tree = t;
                returns = turn_rr k h l rk rh rl rr e (omega arith) ∙ returns;
                balanced = balanced;
                height = inl (omega arith);
              }
        ]
      ]

  -- Siblings whose heights differ by two at most are brought into balance.
  pub rebalance_after_remove-Rebalanced :
      (k : T) (h : ℕ) (l r : Tree T)
      → IsBalanced l
      → IsBalanced r
      → get_height l ≤ get_height r + 2
      → get_height r ≤ get_height l + 2
      → Rebalanced k h l r
  rebalance_after_remove-Rebalanced k h l r bl br u v =
      elim (dec_lt (get_height r + 1) (get_height l)) [
        | yes high ↦ left k h l r bl br (omega arith)
        | no low ↦ elim (dec_lt (get_height l + 1) (get_height r)) [
          | yes high ↦ right k h l r bl br (omega arith)
          | no level ↦ record {
            tree = with_height k l r;
            returns = settle k h l r (omega arith) (omega arith);
            balanced = (refl, omega arith, omega arith, bl, br);
            height = inl refl;
          }
        ]
      ]
    where
      left :
          (k : T) (h : ℕ) (l r : Tree T)
          → IsBalanced l
          → IsBalanced r
          → get_height l ≡ get_height r + 2
          → Rebalanced k h l r
      left k h null r bl br e = absurd (omega arith)
      left k h (node lk lh ll lr) r bl br e = left_high k h lk lh ll lr r bl br e

      right :
          (k : T) (h : ℕ) (l r : Tree T)
          → IsBalanced l
          → IsBalanced r
          → get_height r ≡ get_height l + 2
          → Rebalanced k h l r
      right k h l null bl br e = absurd (omega arith)
      right k h l (node rk rh rl rr) bl br e = right_high k h l rk rh rl rr bl br e
