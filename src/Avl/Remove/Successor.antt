-- ===== src/Avl/Remove/Successor.antt =====
-- The parts of `remove` in lib/abstract/avl.hpp that its proof needs: the leftmost node, the counter
-- `size_`, and the heights of a node whose child has shrunk.
use enigma_db.Base.{
  max, ◌≤◌, ℕ, ◌+◌, ◌≡◌, refl, ap, some, List, [], ◌∷◌, ◌++◌, ◌⊎◌, arith, true, false,
}
use mathlib.Core.Path.{subst}
use enigma_db.Base.Int.{ℤ, dec}
use enigma_db.Ordered.{Ordered, asymm}
use enigma_db.SortedList.{IsSorted, IsSorted-split, Below}
use enigma_db.Avl.{Tree, null, node, is_null, get_height, get_key, find_left_most}
use enigma_db.Avl.Contents.{to_list}

-- A node whose child may be one lower than before is as high as before or one lower.
pub shrink_right :
    (a b b' h t : ℕ)
    → h ≡ 1 + max a b
    → a ≤ b + 1
    → b ≤ a + 1
    → (b' ≡ b) ⊎ (b ≡ b' + 1)
    → (t ≡ 1 + max a b') ⊎ ((t ≡ max a b') × ((a ≡ b' + 2) ⊎ (b' ≡ a + 2)))
    → (t ≡ h) ⊎ (h ≡ t + 1)
shrink_right a b b' h t e u v c d = ground arith

pub shrink_left :
    (a b a' h t : ℕ)
    → h ≡ 1 + max a b
    → a ≤ b + 1
    → b ≤ a + 1
    → (a' ≡ a) ⊎ (a ≡ a' + 1)
    → (t ≡ 1 + max a' b) ⊎ ((t ≡ max a' b) × ((a' ≡ b + 2) ⊎ (b ≡ a' + 2)))
    → (t ≡ h) ⊎ (h ≡ t + 1)
shrink_left a b a' h t e u v c d = ground arith

module _ {ℓ} {T : Type ℓ} where
  abbrev pub Shrunk : Tree T → Tree T → Type 0
  Shrunk t t' = (get_height t' ≡ get_height t) ⊎ (get_height t ≡ get_height t' + 1)

  -- The leftmost node holds the first key.
  pub find_left_most-first :
      (t : Tree T)
      → is_null t ≡ false
      → (s : Tree T) × (m : T) × (rest : List T) × (find_left_most t ≡ some s)
        × (get_key s ≡ some m)
        × (to_list t ≡ m ∷ rest)
  unfolding find_left_most
  find_left_most-first null e = cc
  find_left_most-first (node k h null r) e = (node k h null r, k, to_list r, refl, refl, refl)
  find_left_most-first (node k h (node lk lh ll lr) r) e =
      let (s, m, rest, p, q, first) = find_left_most-first (node lk lh ll lr) refl in
      (s, m, rest ++ (k ∷ to_list r), p, q, ap (λ x. x ++ (k ∷ to_list r)) first)

  pub to_list-null : (t : Tree T) → is_null t ≡ true → to_list t ≡ []
  to_list-null null e = refl
  to_list-null (node k h l r) e = cc

  pub height-null : (t : Tree T) → is_null t ≡ true → get_height t ≡ 0
  height-null null e = refl
  height-null (node k h l r) e = cc

module _ {ℓ} {T : Type ℓ} ⦃o : Ordered T⦄ where
  -- `size_` after a removal: once down for a node with a free side, and twice for one with two
  -- children, whose successor is removed by a call of its own.
  unfoldable pub removed_size : Tree T → T → ℤ → ℤ
  removed_size null key n = n
  removed_size (node k h l r) key n = elim (o.less k key) [
    | true ↦ removed_size r key n
    | false ↦ elim (o.less key k) [
      | true ↦ removed_size l key n
      | false ↦ elim (is_null r) [
        | true ↦ dec n
        | false ↦ elim (is_null l) [ true ↦ dec n | false ↦ dec (dec n) ]
      ]
    ]
  ]

  pub removed_size-first :
      (t : Tree T) (m : T) (rest : List T) (n : ℤ)
      → IsSorted (to_list t)
      → to_list t ≡ m ∷ rest
      → removed_size t m n ≡ dec n
  unfolding removed_size
  removed_size-first null m rest n s e = cc
  removed_size-first (node k h null r) m rest n s e =
      let same : k ≡ m = cc in ground (arith, o.irrefl m)
  removed_size-first (node k h (node lk lh ll lr) r) m rest n s e =
      let l : Tree T = node lk lh ll lr in
      let (_, m', rest', _, _, first) = find_left_most-first l refl in
      let (sl, below, _, _) = IsSorted-split (to_list l) k (to_list r) s in
      let low : Below k (m' ∷ rest') = subst (Below k) first below in
      let same : m' ≡ m = cc (e, first) in
      ground (arith, removed_size-first (node lk lh ll lr) m' rest' n sl first, asymm m' k low.0)
