-- ===== src/SortedList/Laws.antt =====
-- Insertion and removal keep a list sorted, and how they read back.
use enigma_db.Base.{suc, ◌≡◌, refl, none, some, List, [], ◌∷◌, arith, true, length, if◌then◌else◌}
use enigma_db.Ordered.{Ordered, equal-less_right, equal-euclid}
use enigma_db.SortedList.{Above, Above-trans, Above-equal, IsSorted, upsert, erase, find}
use enigma_db.SortedList.Split.{find-Above}

module _ {ℓ} {T : Type ℓ} ⦃o : Ordered T⦄ where
  Above-upsert : (b a : T) (xs : List T) → o.less b a ≡ true → Above b xs → Above b (upsert a xs)
  Above-upsert b a [] h k = (h, tt)
  Above-upsert b a (x ∷ xs) h k = ground (arith, Above-upsert b a xs)

  pub upsert-IsSorted : (a : T) (xs : List T) → IsSorted xs → IsSorted (upsert a xs)
  upsert-IsSorted a [] s = (tt, tt)
  upsert-IsSorted a (x ∷ xs) s = ground (
    arith,
    o.equal_lem x a,
    Above-upsert x a xs,
    upsert-IsSorted a xs,
    Above-equal x a xs,
    Above-trans a x xs,
  )

  Above-erase : (b a : T) (xs : List T) → Above b xs → Above b (erase a xs)
  Above-erase b a [] k = tt
  Above-erase b a (x ∷ xs) k = ground (arith, Above-erase b a xs)

  pub erase-IsSorted : (a : T) (xs : List T) → IsSorted xs → IsSorted (erase a xs)
  erase-IsSorted a [] s = tt
  erase-IsSorted a (x ∷ xs) s = ground (arith, Above-erase x a xs, erase-IsSorted a xs)

  -- What was inserted is found under every equal element, and no other lookup changes.
  pub find-upsert :
      (a b : T) (xs : List T)
      → IsSorted xs
      → find b (upsert a xs) ≡ (if o.equal a b then some a else find b xs)
  find-upsert a b [] s = refl
  find-upsert a b (x ∷ xs) s =
      ground (arith, find-upsert a b xs, equal-euclid x a b, equal-less_right x a b)

  pub length-upsert :
      (a : T) (xs : List T)
      → IsSorted xs
      → length (upsert a xs) ≡ (elim (find a xs) [ none ↦ suc (length xs) | some _ ↦ length xs ])
  length-upsert a [] s = refl
  length-upsert a (x ∷ xs) s =
      ground (arith, length-upsert a xs, o.equal_lem x a, Above-trans a x xs, find-Above a xs)
