-- ===== src/Text/Runs.antt =====
-- Numbers as text.
use enigma_db.Base.{◌≡◌, refl, [], ◌∷◌}
use enigma_db.Base.Decimal.{digits}
use enigma_db.Text.{signed_text, double_text, magnitude_text, millionths, rounded}

minus_one : signed_text 32 4294967295 ≡ 45 ∷ 49 ∷ []
unfolding signed_text digits
minus_one = refl

-- 1.5
one_and_a_half : double_text 0x3ff8000000000000 ≡ 49 ∷ 46 ∷ 53 ∷ 48 ∷ 48 ∷ 48 ∷ 48 ∷ 48 ∷ []
unfolding double_text magnitude_text millionths rounded digits
one_and_a_half = refl

-- -0.1
minus_tenth : double_text 0xbfb999999999999a ≡ 45 ∷ 48 ∷ 46 ∷ 49 ∷ 48 ∷ 48 ∷ 48 ∷ 48 ∷ 48 ∷ []
unfolding double_text magnitude_text millionths rounded digits
minus_tenth = refl

-- -0.0
negative_zero : double_text 0x8000000000000000 ≡ 45 ∷ 48 ∷ 46 ∷ 48 ∷ 48 ∷ 48 ∷ 48 ∷ 48 ∷ 48 ∷ []
unfolding double_text magnitude_text millionths rounded digits
negative_zero = refl

-- the least double above 5e-7
rounded_up : double_text 0x3ea0c6f7a0b5ed8e ≡ 48 ∷ 46 ∷ 48 ∷ 48 ∷ 48 ∷ 48 ∷ 48 ∷ 49 ∷ []
unfolding double_text magnitude_text millionths rounded digits
rounded_up = refl

-- 123456789.25
millions :
    double_text 0x419d6f3455000000
    ≡ 49 ∷ 50 ∷ 51 ∷ 52 ∷ 53 ∷ 54 ∷ 55 ∷ 56 ∷ 57 ∷ 46 ∷ 50 ∷ 53 ∷ 48 ∷ 48 ∷ 48 ∷ 48 ∷ []
unfolding double_text magnitude_text millionths rounded digits
millions = refl

infinite : double_text 0xfff0000000000000 ≡ 45 ∷ 105 ∷ 110 ∷ 102 ∷ []
unfolding double_text magnitude_text
infinite = refl

no_number : double_text 0x7ff8000000000000 ≡ 110 ∷ 97 ∷ 110 ∷ []
unfolding double_text magnitude_text
no_number = refl
