-- ===== src/Text/Reading.antt =====
-- Text of integers and times, read back.
use enigma_db.Base.{
  ℕ, ◌-◌, ◌^◌, ◌<◌, ◌≡◌, refl, ◌∙◌, ap, ◌==◌, ltb, false, inl, inr, List, [], ◌∷◌, ◌++◌, All, arith,
  take, take-append, length, length-append, Bool-cases, if◌then◌else◌,
}
use enigma_db.Base.Decimal.{to_string, decimal, decimal-digits, digits-IsDigit, IsDigit}
use enigma_db.Text.{signed_text, time_text}

-- The bits of an integer of `w` bits.
pub read_signed : ℕ → List ℕ → ℕ
read_signed w [] = 0
read_signed w (c ∷ text) = if c == 45 then 2 ^ w - decimal text else decimal (c ∷ text)

read_unsigned : (w : ℕ) (text : List ℕ) → All IsDigit text → read_signed w text ≡ decimal text
unfolding read_signed decimal
read_unsigned w [] h = refl
read_unsigned w (c ∷ text) ((low, high), h) =
    let digit : (c == 45) ≡ false = ground (arith, low, high) in rw digit refl

read_negative : (w : ℕ) (text : List ℕ) → read_signed w (45 ∷ text) ≡ 2 ^ w - decimal text
unfolding read_signed
read_negative w text = refl

-- Integers of at most 64 bits.
pub read_signed-signed_text :
    (w x : ℕ) → 2 ^ w < 10 ^ 20 → x < 2 ^ w → read_signed w (signed_text w x) ≡ x
unfolding signed_text
read_signed-signed_text w x fits h = elim (Bool-cases (ltb x (2 ^ (w - 1)))) [
  | inl positive ↦
      rw positive
        (read_unsigned w (to_string x) (digits-IsDigit 20 x) ∙ decimal-digits 20 x (omega arith))
  | inr negative ↦ rw negative (
      read_negative w (to_string (2 ^ w - x))
      ∙ ap (λ n. 2 ^ w - n) (decimal-digits 20 (2 ^ w - x) (omega arith))
      ∙ omega arith)
]

-- The nanoseconds in front of "ns".
pub read_time : List ℕ → ℕ
read_time text = read_signed 64 (take (length text - 2) text)

pub read_time-time_text : (x : ℕ) → x < 2 ^ 64 → read_time (time_text x) ≡ x
unfolding read_time time_text
read_time-time_text x h =
    let text = signed_text 64 x in
    let size : length (text ++ (110 ∷ 115 ∷ [])) - 2 ≡ length text =
      omega (arith, length-append text (110 ∷ 115 ∷ [])) in
    rw (size, take-append text (110 ∷ 115 ∷ [])) (read_signed-signed_text 64 x (omega arith) h)
