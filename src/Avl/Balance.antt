-- ===== src/Avl/Balance.antt =====
-- The balance invariant of lib/abstract/avl.hpp, and what each rotation makes of it.
use enigma_db.Base.{ℕ, ◌+◌, ◌≤◌, ◌≡◌, refl, some, arith, max}
use enigma_db.Avl.{
  Tree, null, node, rotate_left, rotate_right, rotate_left_right, rotate_right_left, with_height,
  get_height,
}

module _ {ℓ} {T : Type ℓ} where
  -- Cached heights are right, and the heights of siblings differ by one at most.
  abbrev pub IsBalanced : Tree T → Type 0
  IsBalanced null = Unit
  IsBalanced (node k h l r) =
      (h ≡ 1 + max (get_height l) (get_height r))
      × (get_height l ≤ get_height r + 1)
      × (get_height r ≤ get_height l + 1)
      × IsBalanced l
      × IsBalanced r

  -- Which side of a node is the higher by one.
  abbrev pub LeftHeavy : Tree T → Type 0
  LeftHeavy null = ⊥
  LeftHeavy (node k h l r) = get_height l ≡ get_height r + 1

  abbrev pub RightHeavy : Tree T → Type 0
  RightHeavy null = ⊥
  RightHeavy (node k h l r) = get_height r ≡ get_height l + 1

  abbrev pub Even : Tree T → Type 0
  Even null = Unit
  Even (node k h l r) = get_height r ≡ get_height l

  -- The left side is two higher and does not lean to the right: one rotation.
  pub rotate_right-LeftHeavy :
      (k : T) (h : ℕ) (l r : Tree T)
      → IsBalanced l
      → IsBalanced r
      → get_height l ≡ get_height r + 2
      → LeftHeavy l
      → (t : Tree T) × (rotate_right (node k h l r) ≡ some t)
        × IsBalanced t
        × (get_height t ≡ get_height l)
  unfolding rotate_right
  rotate_right-LeftHeavy k h null r bl br e lean = absurd lean
  rotate_right-LeftHeavy k h (node lk lh ll lr) r bl br e lean =
      (with_height lk ll (with_height k lr r), refl, ground arith, ground arith)

  pub rotate_right-Even :
      (k : T) (h : ℕ) (l r : Tree T)
      → IsBalanced l
      → IsBalanced r
      → get_height l ≡ get_height r + 2
      → Even l
      → (t : Tree T) × (rotate_right (node k h l r) ≡ some t)
        × IsBalanced t
        × (get_height t ≡ get_height l + 1)
  unfolding rotate_right
  rotate_right-Even k h null r bl br e lean = absurd (omega arith)
  rotate_right-Even k h (node lk lh ll lr) r bl br e lean =
      (with_height lk ll (with_height k lr r), refl, ground arith, ground arith)

  pub rotate_left-RightHeavy :
      (k : T) (h : ℕ) (l r : Tree T)
      → IsBalanced l
      → IsBalanced r
      → get_height r ≡ get_height l + 2
      → RightHeavy r
      → (t : Tree T) × (rotate_left (node k h l r) ≡ some t)
        × IsBalanced t
        × (get_height t ≡ get_height r)
  unfolding rotate_left
  rotate_left-RightHeavy k h l null bl br e lean = absurd lean
  rotate_left-RightHeavy k h l (node rk rh rl rr) bl br e lean =
      (with_height rk (with_height k l rl) rr, refl, ground arith, ground arith)

  pub rotate_left-Even :
      (k : T) (h : ℕ) (l r : Tree T)
      → IsBalanced l
      → IsBalanced r
      → get_height r ≡ get_height l + 2
      → Even r
      → (t : Tree T) × (rotate_left (node k h l r) ≡ some t)
        × IsBalanced t
        × (get_height t ≡ get_height r + 1)
  unfolding rotate_left
  rotate_left-Even k h l null bl br e lean = absurd (omega arith)
  rotate_left-Even k h l (node rk rh rl rr) bl br e lean =
      (with_height rk (with_height k l rl) rr, refl, ground arith, ground arith)

  -- The higher side leans inwards: two rotations.
  pub rotate_left_right-balances :
      (k : T) (h : ℕ) (l r : Tree T)
      → IsBalanced l
      → IsBalanced r
      → get_height l ≡ get_height r + 2
      → RightHeavy l
      → (t : Tree T) × (rotate_left_right k h l r ≡ some t)
        × IsBalanced t
        × (get_height t ≡ get_height l)
  unfolding rotate_left_right rotate_left rotate_right
  rotate_left_right-balances k h null r bl br e lean = absurd lean
  rotate_left_right-balances k h (node lk lh ll null) r bl br e lean = absurd (omega arith)
  rotate_left_right-balances k h (node lk lh ll (node mk mh ml mr)) r bl br e lean =
      (with_height mk (with_height lk ll ml) (with_height k mr r), refl, ground arith, ground arith)

  pub rotate_right_left-balances :
      (k : T) (h : ℕ) (l r : Tree T)
      → IsBalanced l
      → IsBalanced r
      → get_height r ≡ get_height l + 2
      → LeftHeavy r
      → (t : Tree T) × (rotate_right_left k h l r ≡ some t)
        × IsBalanced t
        × (get_height t ≡ get_height r)
  unfolding rotate_right_left rotate_left rotate_right
  rotate_right_left-balances k h l null bl br e lean = absurd lean
  rotate_right_left-balances k h l (node rk rh null rr) bl br e lean = absurd (omega arith)
  rotate_right_left-balances k h l (node rk rh (node mk mh ml mr) rr) bl br e lean =
      (with_height mk (with_height k l ml) (with_height rk mr rr), refl, ground arith, ground arith)
