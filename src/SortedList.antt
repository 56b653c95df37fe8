-- ===== src/SortedList.antt =====
-- The abstract view of an ordered table: a sorted list without equal elements, with insertion or
-- replacement, removal and lookup, against which lib/abstract/avl.hpp is proved.
pub mod Split
pub mod Laws
use enigma_db.Base.{
  ◌≡◌, refl, sym, ap, ◌∙◌, Option, none, some, List, [], ◌∷◌, ◌++◌, arith, Bool, true, false, All,
  if◌then◌else◌, All-append,
}
use enigma_db.Ordered.{
  Ordered, not_less-of_equal, equal-of_not_less, equal_comm, asymm, less-equal_right,
  less-equal_left, equal-less_right,
}

module _ {ℓ} {T : Type ℓ} ⦃o : Ordered T⦄ where
  abbrev pub Above : T → List T → Type 0
  Above a xs = All (λ x. o.less a x ≡ true) xs

  abbrev pub Below : T → List T → Type 0
  Below a xs = All (λ x. o.less x a ≡ true) xs

  abbrev pub IsSorted : List T → Type 0
  IsSorted [] = Unit
  IsSorted (x ∷ xs) = Above x xs × IsSorted xs

  -- An equal element is replaced.
  abbrev pub upsert : T → List T → List T
  upsert a [] = a ∷ []
  upsert a (x ∷ xs) =
      if o.equal x a then a ∷ xs else if o.less x a then x ∷ upsert a xs else a ∷ x ∷ xs

  abbrev pub erase : T → List T → List T
  erase a [] = []
  erase a (x ∷ xs) = if o.equal x a then xs else x ∷ erase a xs

  abbrev pub find : T → List T → Option T
  find a [] = none
  find a (x ∷ xs) = if o.equal x a then some x else find a xs

  pub Above-trans : (a b : T) (xs : List T) → o.less a b ≡ true → Above b xs → Above a xs
  Above-trans a b [] h k = tt
  Above-trans a b (x ∷ xs) h (kx, kxs) = (o.trans a b x h kx, Above-trans a b xs h kxs)

  pub Above-equal : (a b : T) (xs : List T) → o.equal a b ≡ true → Above a xs → Above b xs
  Above-equal a b [] h k = tt
  Above-equal a b (x ∷ xs) h (kx, kxs) = (less-equal_left a x b kx h, Above-equal a b xs h kxs)

  -- A sorted list cut at an element.
  pub IsSorted-split :
      (xs : List T) (a : T) (ys : List T)
      → IsSorted (xs ++ (a ∷ ys))
      → IsSorted xs × Below a xs × Above a ys × IsSorted ys
  IsSorted-split [] a ys (h, k) = (tt, tt, h, k)
  IsSorted-split (x ∷ xs) a ys (h, k) =
      let (s, b, u, v) = IsSorted-split xs a ys k in
      ((Above-left xs h, s), (Above-mid xs h, b), u, v)
    where
      Above-left : (zs : List T) → Above x (zs ++ (a ∷ ys)) → Above x zs
      Above-left [] h = tt
      Above-left (z ∷ zs) h = (h.0, Above-left zs h.1)

      Above-mid : (zs : List T) → Above x (zs ++ (a ∷ ys)) → o.less x a ≡ true
      Above-mid [] h = h.0
      Above-mid (z ∷ zs) h = Above-mid zs h.1

  -- Insertion goes on to the right of every smaller element.
  pub upsert-right :
      (xs : List T) (x a : T) (ys : List T)
      → Below x xs
      → o.less x a ≡ true
      → upsert a (xs ++ (x ∷ ys)) ≡ xs ++ (x ∷ upsert a ys)
  upsert-right [] x a ys b h = ground (arith, equal-less_right x a x, o.equal_lem x a)
  upsert-right (z ∷ xs) x a ys b h =
      ground (arith, o.trans z x a, o.equal_lem z a, upsert-right xs x a ys)

  pub upsert-left :
      (xs : List T) (x a : T) (ys : List T)
      → o.less a x ≡ true
      → upsert a (xs ++ (x ∷ ys)) ≡ upsert a xs ++ (x ∷ ys)
  upsert-left [] x a ys h = ground (arith, o.equal_lem x a, asymm a x)
  upsert-left (z ∷ xs) x a ys h = ground (arith, upsert-left xs x a ys)

  pub upsert-here :
      (xs : List T) (x a : T) (ys : List T)
      → Below x xs
      → o.equal x a ≡ true
      → upsert a (xs ++ (x ∷ ys)) ≡ xs ++ (a ∷ ys)
  upsert-here [] x a ys b h = ground arith
  upsert-here (z ∷ xs) x a ys b h =
      ground (arith, less-equal_right z x a, o.equal_lem z a, upsert-here xs x a ys)
