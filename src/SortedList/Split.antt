-- ===== src/SortedList/Split.antt =====
-- Lookup and removal in a sorted list cut at an element, as lib/abstract/avl.hpp descends.
use enigma_db.Base.{◌≡◌, refl, none, some, List, [], ◌∷◌, ◌++◌, arith, true}
use enigma_db.Ordered.{Ordered, less-equal_right}
use enigma_db.SortedList.{Above, Below, erase, find}

module _ {ℓ} {T : Type ℓ} ⦃o : Ordered T⦄ where
  -- Nothing above `a` equals it.
  pub find-Above : (a : T) (xs : List T) → Above a xs → find a xs ≡ none
  find-Above a [] h = refl
  find-Above a (x ∷ xs) h = ground (arith, o.equal_lem x a, find-Above a xs)

  pub find-right :
      (xs : List T) (x a : T) (ys : List T)
      → Below x xs
      → o.less x a ≡ true
      → find a (xs ++ (x ∷ ys)) ≡ find a ys
  find-right [] x a ys b h = ground (arith, o.equal_lem x a)
  find-right (z ∷ xs) x a ys b h =
      ground (arith, o.trans z x a, o.equal_lem z a, find-right xs x a ys)

  pub find-left :
      (xs : List T) (x a : T) (ys : List T)
      → Above x ys
      → o.less a x ≡ true
      → find a (xs ++ (x ∷ ys)) ≡ find a xs
  find-left [] x a ys u h = ground (arith, o.equal_lem x a, find-Above a ys (above ys u))
    where
      above : (zs : List T) → Above x zs → Above a zs
      above [] k = tt
      above (z ∷ zs) k = (o.trans a x z h k.0, above zs k.1)
  find-left (z ∷ xs) x a ys u h = ground (arith, find-left xs x a ys)

  pub find-here :
      (xs : List T) (x a : T) (ys : List T)
      → Below x xs
      → o.equal x a ≡ true
      → find a (xs ++ (x ∷ ys)) ≡ some x
  find-here [] x a ys b h = ground arith
  find-here (z ∷ xs) x a ys b h =
      ground (arith, less-equal_right z x a, o.equal_lem z a, find-here xs x a ys)

  erase-Above : (a : T) (xs : List T) → Above a xs → erase a xs ≡ xs
  erase-Above a [] h = refl
  erase-Above a (x ∷ xs) h = ground (arith, o.equal_lem x a, erase-Above a xs)

  pub erase-right :
      (xs : List T) (x a : T) (ys : List T)
      → Below x xs
      → o.less x a ≡ true
      → erase a (xs ++ (x ∷ ys)) ≡ xs ++ (x ∷ erase a ys)
  erase-right [] x a ys b h = ground (arith, o.equal_lem x a)
  erase-right (z ∷ xs) x a ys b h =
      ground (arith, o.trans z x a, o.equal_lem z a, erase-right xs x a ys)

  pub erase-left :
      (xs : List T) (x a : T) (ys : List T)
      → Above x ys
      → o.less a x ≡ true
      → erase a (xs ++ (x ∷ ys)) ≡ erase a xs ++ (x ∷ ys)
  erase-left [] x a ys u h = ground (arith, o.equal_lem x a, erase-Above a ys (above ys u))
    where
      above : (zs : List T) → Above x zs → Above a zs
      above [] k = tt
      above (z ∷ zs) k = (o.trans a x z h k.0, above zs k.1)
  erase-left (z ∷ xs) x a ys u h = ground (arith, erase-left xs x a ys)

  pub erase-here :
      (xs : List T) (x a : T) (ys : List T)
      → Below x xs
      → o.equal x a ≡ true
      → erase a (xs ++ (x ∷ ys)) ≡ xs ++ ys
  erase-here [] x a ys b h = ground arith
  erase-here (z ∷ xs) x a ys b h =
      ground (arith, less-equal_right z x a, o.equal_lem z a, erase-here xs x a ys)
