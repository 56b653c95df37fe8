-- ===== src/Base/Decimal.antt =====
-- `std::to_string` of a natural number, and what its digits stand for.
use enigma_db.Base.{
  ℕ, zero, suc, ◌+◌, ◌-◌, ◌*◌, ◌/◌, ◌%◌, ◌^◌, ◌≤◌, ◌<◌, ◌≡◌, refl, ◌∙◌, sym, ap, ap₂, replicate,
  ltb, inl, inr, List, [], ◌∷◌, ◌++◌, foldl, All, All-append, arith, Bool-cases, if◌then◌else◌,
}
use mathlib.Core.Path.{subst}

-- The decimal digits of a number below `10 ^ fuel`.
unfoldable pub digits : ℕ → ℕ → List ℕ
digits zero n = []
digits (suc fuel) n =
    let rest = digits fuel (n / 10) in
    if ltb n 10 then (48 + n) ∷ [] else rest ++ ((48 + n % 10) ∷ [])

-- `std::to_string` of a number of at most 64 bits.
abbrev pub to_string : ℕ → List ℕ
to_string n = digits 20 n

-- What digits stand for, behind those that stand for a number.
abbrev step : ℕ → ℕ → ℕ
step n c = 10 * n + (c - 48)

unfoldable pub decimal : List ℕ → ℕ
decimal text = foldl step 0 text

foldl-append : (a : ℕ) (xs ys : List ℕ) → foldl step a (xs ++ ys) ≡ foldl step (foldl step a xs) ys
foldl-append a [] ys = refl
foldl-append a (x ∷ xs) ys = foldl-append (step a x) xs ys

tenth : (fuel n : ℕ) → n < 10 ^ suc fuel → n / 10 < 10 ^ fuel
tenth fuel n h = let power : 10 ^ suc fuel ≡ 10 * 10 ^ fuel = omega arith in omega arith

pub decimal-digits : (fuel n : ℕ) → n < 10 ^ fuel → decimal (digits fuel n) ≡ n
unfolding decimal digits
decimal-digits zero n h = omega arith
decimal-digits (suc fuel) n h = elim (Bool-cases (ltb n 10)) [
  | inl last ↦ rw last (omega arith)
  | inr more ↦
      let rest : decimal (digits fuel (n / 10)) ≡ n / 10 =
        decimal-digits fuel (n / 10) (tenth fuel n h) in
      rw (more, foldl-append 0 (digits fuel (n / 10)) ((48 + n % 10) ∷ []), rest) (omega arith)
]

-- A decimal digit.
abbrev pub IsDigit : ℕ → Type 0
IsDigit c = (48 ≤ c) × (c ≤ 57)

pub digits-IsDigit : (fuel n : ℕ) → All IsDigit (digits fuel n)
unfolding digits
digits-IsDigit zero n = tt
digits-IsDigit (suc fuel) n = elim (Bool-cases (ltb n 10)) [
  | inl last ↦ rw last ((omega arith, ground arith), tt)
  | inr more ↦ rw more (
      All-append IsDigit (digits fuel (n / 10)) ((48 + n % 10) ∷ []) (digits-IsDigit fuel (n / 10))
        ((omega arith, omega arith), tt))
]

pub digits-injective :
    (fuel n m : ℕ) → n < 10 ^ fuel → m < 10 ^ fuel → digits fuel n ≡ digits fuel m → n ≡ m
digits-injective fuel n m h k same =
    sym (decimal-digits fuel n h) ∙ ap decimal same ∙ decimal-digits fuel m k

-- Zeros in front do not change what digits stand for.
pub decimal-zeros : (n : ℕ) (text : List ℕ) → decimal (replicate n 48 ++ text) ≡ decimal text
unfolding decimal
decimal-zeros zero text = refl
decimal-zeros (suc n) text = decimal-zeros n text

pub replicate-IsDigit : (n : ℕ) → All IsDigit (replicate n 48)
replicate-IsDigit zero = tt
replicate-IsDigit (suc n) = ((omega arith, omega arith), replicate-IsDigit n)

-- Text ends at the first character that is none of its own.
pub split_lem :
    (P : ℕ → Type 0) (separator : ℕ) (xs ys rest rest' : List ℕ)
    → ¬ P separator
    → All P xs
    → All P ys
    → xs ++ (separator ∷ rest) ≡ ys ++ (separator ∷ rest')
    → (xs ≡ ys) × (rest ≡ rest')
split_lem P separator [] [] rest rest' other h k same = (refl, cc same)
split_lem P separator [] (y ∷ ys) rest rest' other h (k, ks) same =
    absurd (other (subst P (sym (cc same)) k))
split_lem P separator (x ∷ xs) [] rest rest' other (h, hs) k same =
    absurd (other (subst P (cc same) h))
split_lem P separator (x ∷ xs) (y ∷ ys) rest rest' other (h, hs) (k, ks) same =
    let (front, back) = split_lem P separator xs ys rest rest' other hs ks (cc same) in
    (ap₂ (λ a as'. a ∷ as') (cc same) front, back)
