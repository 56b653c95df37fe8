-- ===== src/Ordered/Lex.antt =====
-- Sequences over an ordered type, compared from the first elements on: the order of
-- `std::lexicographical_compare`.
use enigma_db.Base.{◌≡◌, refl, Bool, true, false, not, ◌&&◌, ◌||◌, List, [], ◌∷◌, arith}
use enigma_db.Ordered.{Ordered, IsStrictWeak, asymm}

module _ {A : Type 0} ⦃o : Ordered A⦄ where
  abbrev pub lex_less : List A → List A → Bool
  lex_less [] [] = false
  lex_less [] (y ∷ ys) = true
  lex_less (x ∷ xs) [] = false
  lex_less (x ∷ xs) (y ∷ ys) = o.less x y || (not (o.less y x) && lex_less xs ys)

  abbrev pub lex_equal : List A → List A → Bool
  lex_equal [] [] = true
  lex_equal [] (y ∷ ys) = false
  lex_equal (x ∷ xs) [] = false
  lex_equal (x ∷ xs) (y ∷ ys) = o.equal x y && lex_equal xs ys

  lex_irrefl : (xs : List A) → lex_less xs xs ≡ false
  lex_irrefl [] = refl
  lex_irrefl (x ∷ xs) = ground (arith, o.irrefl x, lex_irrefl xs)

  lex_cotrans :
      (xs ys zs : List A) → lex_less xs zs ≡ true → lex_less xs ys ≡ false → lex_less ys zs ≡ true
  lex_cotrans [] [] zs h k = h
  lex_cotrans [] (y ∷ ys) zs h k = absurd (cc k)
  lex_cotrans (x ∷ xs) ys [] h k = absurd (cc h)
  lex_cotrans (x ∷ xs) [] (z ∷ zs) h k = refl
  lex_cotrans (x ∷ xs) (y ∷ ys) (z ∷ zs) h k = ground (
    arith,
    o.cotrans x y z,
    o.cotrans z x y,
    o.cotrans y z x,
    o.cotrans x z y,
    o.cotrans z y x,
    asymm x y,
    asymm y z,
    asymm x z,
    lex_cotrans xs ys zs,
  )

  lex_trans :
      (xs ys zs : List A) → lex_less xs ys ≡ true → lex_less ys zs ≡ true → lex_less xs zs ≡ true
  lex_trans [] [] zs h k = absurd (cc h)
  lex_trans [] (y ∷ ys) [] h k = absurd (cc k)
  lex_trans [] (y ∷ ys) (z ∷ zs) h k = refl
  lex_trans (x ∷ xs) [] zs h k = absurd (cc h)
  lex_trans (x ∷ xs) (y ∷ ys) [] h k = absurd (cc k)
  lex_trans (x ∷ xs) (y ∷ ys) (z ∷ zs) h k = ground (
    arith,
    o.trans x y z,
    o.cotrans x z y,
    o.cotrans y x z,
    o.cotrans z y x,
    asymm x y,
    asymm y z,
    asymm x z,
    asymm z x,
    lex_trans xs ys zs,
  )

  lex_equal_lem : (xs ys : List A) → lex_equal xs ys ≡ not (lex_less xs ys || lex_less ys xs)
  lex_equal_lem [] [] = refl
  lex_equal_lem [] (y ∷ ys) = refl
  lex_equal_lem (x ∷ xs) [] = refl
  lex_equal_lem (x ∷ xs) (y ∷ ys) =
      ground (arith, o.equal_lem x y, asymm x y, asymm y x, lex_equal_lem xs ys)

  pub lex-IsStrictWeak : IsStrictWeak lex_less lex_equal
  lex-IsStrictWeak = record {
    irrefl = lex_irrefl;
    trans = lex_trans;
    cotrans = lex_cotrans;
    equal_lem = lex_equal_lem;
  }

  abbrev pub lex_ordered : Ordered (List A)
  lex_ordered = record { less = lex_less; equal = lex_equal; lawful = lex-IsStrictWeak }
