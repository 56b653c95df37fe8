-- ===== src/Avl/Insert/Rebalance.antt =====
-- The end of `insert` in lib/abstract/avl.hpp: which rotation follows the growth of a child.
use enigma_db.Base.{ℕ, ◌+◌, ◌≤◌, ◌<◌, ◌≡◌, refl, ◌∙◌, some, ◌⊎◌, inl, inr, arith, true, false}
use native.Mathlib.Decide.{dec_lt}
use enigma_db.Ordered.{Ordered, asymm}
use enigma_db.Avl.{
  Tree, null, node, rotate_left, rotate_right, rotate_left_right, rotate_right_left,
  rebalance_after_insert, with_height, get_height,
}
use enigma_db.Avl.Balance.{
  IsBalanced, LeftHeavy, RightHeavy, rotate_right-LeftHeavy, rotate_left-RightHeavy,
  rotate_left_right-balances, rotate_right_left-balances,
}

module _ {ℓ} {T : Type ℓ} ⦃o : Ordered T⦄ where
  -- A tree that has grown leans to the side that the key went to, or is a new leaf.
  abbrev pub Leans : T → Tree T → Type 0
  Leans key null = ⊥
  Leans key (node k h l r) =
      (h ≡ 1)
      ⊎ ((o.less key k ≡ true) × LeftHeavy (node k h l r))
      ⊎ ((o.less k key ≡ true) × RightHeavy (node k h l r))

  abbrev pub Grown : Tree T → T → Tree T → Type 0
  Grown t key t' =
      (get_height t' ≡ get_height t) ⊎ ((get_height t' ≡ get_height t + 1) × Leans key t')

  rebalance-none :
      (key k : T) (l r : Tree T)
      → get_height l ≤ get_height r + 1
      → get_height r ≤ get_height l + 1
      → rebalance_after_insert key k l r ≡ some (with_height k l r)
  unfolding rebalance_after_insert
  rebalance-none key k l r h h' = ground arith

  rebalance-ll :
      (key k lk : T) (lh : ℕ) (ll lr r : Tree T)
      → lh ≡ get_height r + 2
      → o.less key lk ≡ true
      → rebalance_after_insert key k (node lk lh ll lr) r
        ≡ rotate_right (with_height k (node lk lh ll lr) r)
  unfolding rebalance_after_insert
  rebalance-ll key k lk lh ll lr r e h = ground arith

  rebalance-lr :
      (key k lk : T) (lh : ℕ) (ll lr r : Tree T)
      → lh ≡ get_height r + 2
      → o.less key lk ≡ false
      → o.less lk key ≡ true
      → (h : ℕ) × (rebalance_after_insert key k (node lk lh ll lr) r
          ≡ rotate_left_right k h (node lk lh ll lr) r)
  unfolding rebalance_after_insert
  rebalance-lr key k lk lh ll lr r e h h' =
      (get_height (with_height k (node lk lh ll lr) r), ground arith)

  rebalance-rr :
      (key k rk : T) (rh : ℕ) (l rl rr : Tree T)
      → rh ≡ get_height l + 2
      → o.less rk key ≡ true
      → rebalance_after_insert key k l (node rk rh rl rr)
        ≡ rotate_left (with_height k l (node rk rh rl rr))
  unfolding rebalance_after_insert
  rebalance-rr key k rk rh l rl rr e h = ground arith

  rebalance-rl :
      (key k rk : T) (rh : ℕ) (l rl rr : Tree T)
      → rh ≡ get_height l + 2
      → o.less rk key ≡ false
      → o.less key rk ≡ true
      → (h : ℕ) × (rebalance_after_insert key k l (node rk rh rl rr)
          ≡ rotate_right_left k h l (node rk rh rl rr))
  unfolding rebalance_after_insert
  rebalance-rl key k rk rh l rl rr e h h' =
      (get_height (with_height k l (node rk rh rl rr)), ground arith)

  turn_left :
      (key k : T) (h : ℕ) (l r : Tree T) (ck : T) (ch : ℕ) (cl cr : Tree T)
      → IsBalanced (node k h l r)
      → IsBalanced (node ck ch cl cr)
      → get_height r < get_height l
      → ch ≡ get_height l + 1
      → Leans key (node ck ch cl cr)
      → (t : Tree T) × (rebalance_after_insert key k (node ck ch cl cr) r ≡ some t)
        × IsBalanced t
        × Grown (node k h l r) key t
  turn_left key k h l r ck ch cl cr b bl high e (inl leaf) = absurd (omega arith)
  turn_left key k h l r ck ch cl cr b bl high e (inr (inl (less, lean))) =
      let (t, returns, balanced, height) =
        rotate_right-LeftHeavy k (get_height (with_height k (node ck ch cl cr) r))
          (node ck ch cl cr) r bl b.4 (omega arith) lean in
      (
        t,
        rebalance-ll key k ck ch cl cr r (omega arith) less ∙ returns,
        balanced,
        inl (omega arith),
      )
  turn_left key k h l r ck ch cl cr b bl high e (inr (inr (less, lean))) =
      let (h', chosen) = rebalance-lr key k ck ch cl cr r (omega arith) (asymm ck key less) less in
      let (t, returns, balanced, height) =
        rotate_left_right-balances k h' (node ck ch cl cr) r bl b.4 (omega arith) lean in
      (t, chosen ∙ returns, balanced, inl (omega arith))

  -- The left child took the key.
  pub rebalance_left :
      (key k : T) (h : ℕ) (l r c : Tree T)
      → o.less key k ≡ true
      → IsBalanced (node k h l r)
      → IsBalanced c
      → Grown l key c
      → (t : Tree T) × (rebalance_after_insert key k c r ≡ some t)
        × IsBalanced t
        × Grown (node k h l r) key t
  rebalance_left key k h l r c lt b bl (inl same) = (
    with_height k c r,
    rebalance-none key k c r (omega arith) (omega arith),
    (refl, omega arith, omega arith, bl, b.4),
    inl (omega arith),
  )
  rebalance_left key k h l r null lt b bl (inr (e, lean)) = absurd lean
  rebalance_left key k h l r (node ck ch cl cr) lt b bl (inr (e, lean)) =
      elim (dec_lt (get_height r) (get_height l)) [
        | yes high ↦ turn_left key k h l r ck ch cl cr b bl high e lean
        | no low ↦ (
          with_height k (node ck ch cl cr) r,
          rebalance-none key k (node ck ch cl cr) r (omega arith) (omega arith),
          (refl, omega arith, omega arith, bl, b.4),
          elim (dec_lt (get_height l) (get_height r)) [
            | yes lower ↦ inl (omega arith)
            | no level ↦ inr (omega arith, inr (inl (lt, omega arith)))
          ],
        )
      ]

  turn_right :
      (key k : T) (h : ℕ) (l r : Tree T) (ck : T) (ch : ℕ) (cl cr : Tree T)
      → IsBalanced (node k h l r)
      → IsBalanced (node ck ch cl cr)
      → get_height l < get_height r
      → ch ≡ get_height r + 1
      → Leans key (node ck ch cl cr)
      → (t : Tree T) × (rebalance_after_insert key k l (node ck ch cl cr) ≡ some t)
        × IsBalanced t
        × Grown (node k h l r) key t
  turn_right key k h l r ck ch cl cr b bl high e (inl leaf) = absurd (omega arith)
  turn_right key k h l r ck ch cl cr b bl high e (inr (inr (less, lean))) =
      let (t, returns, balanced, height) =
        rotate_left-RightHeavy k (get_height (with_height k l (node ck ch cl cr))) l
          (node ck ch cl cr) b.3 bl (omega arith) lean in
      (
        t,
        rebalance-rr key k ck ch l cl cr (omega arith) less ∙ returns,
        balanced,
        inl (omega arith),
      )
  turn_right key k h l r ck ch cl cr b bl high e (inr (inl (less, lean))) =
      let (h', chosen) = rebalance-rl key k ck ch l cl cr (omega arith) (asymm key ck less) less in
      let (t, returns, balanced, height) =
        rotate_right_left-balances k h' l (node ck ch cl cr) b.3 bl (omega arith) lean in
      (t, chosen ∙ returns, balanced, inl (omega arith))

  -- The right child took the key.
  pub rebalance_right :
      (key k : T) (h : ℕ) (l r c : Tree T)
      → o.less k key ≡ true
      → IsBalanced (node k h l r)
      → IsBalanced c
      → Grown r key c
      → (t : Tree T) × (rebalance_after_insert key k l c ≡ some t)
        × IsBalanced t
        × Grown (node k h l r) key t
  rebalance_right key k h l r c lt b bl (inl same) = (
    with_height k l c,
    rebalance-none key k l c (omega arith) (omega arith),
    (refl, omega arith, omega arith, b.3, bl),
    inl (omega arith),
  )
  rebalance_right key k h l r null lt b bl (inr (e, lean)) = absurd lean
  rebalance_right key k h l r (node ck ch cl cr) lt b bl (inr (e, lean)) =
      elim (dec_lt (get_height l) (get_height r)) [
        | yes high ↦ turn_right key k h l r ck ch cl cr b bl high e lean
        | no low ↦ (
          with_height k l (node ck ch cl cr),
          rebalance-none key k l (node ck ch cl cr) (omega arith) (omega arith),
          (refl, omega arith, omega arith, b.3, bl),
          elim (dec_lt (get_height r) (get_height l)) [
            | yes lower ↦ inl (omega arith)
            | no level ↦ inr (omega arith, inr (inr (lt, omega arith)))
          ],
        )
      ]
