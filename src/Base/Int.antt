-- ===== src/Base/Int.antt =====
-- The values of a C++ `int`, as integers: `negsuc n` is -(n + 1). The range is not bounded here.
use Prim.Native.Nat.{ℕ, zero, suc, ◌+◌, ◌-◌, ◌≤◌, ◌<◌}
use mathlib.Core.Path.{◌≡◌}
use native.Mathlib.Omega.{arith}
use mathlib.Core.Bool.{Bool, true, false}
use enigma_db.Base.Tests.{ltb, leb, if◌then◌else◌}

pub data ℤ : Type 0 where
  pos : ℕ → ℤ
  negsuc : ℕ → ℤ

-- `++n` and `--n`
abbrev pub inc : ℤ → ℤ
inc (pos n) = pos (n + 1)
inc (negsuc zero) = pos 0
inc (negsuc (suc n)) = negsuc n

abbrev pub dec : ℤ → ℤ
dec (pos zero) = negsuc 0
dec (pos (suc n)) = pos n
dec (negsuc n) = negsuc (n + 1)

-- `a - b` of two counts
abbrev pub sub_ℕ : ℕ → ℕ → ℤ
sub_ℕ a b = if leb b a then pos (a - b) else negsuc (b - a - 1)

-- The tests `n > 1`, `n < -1`, `n < 0`, `n <= 0` and `n != 0`.
abbrev pub above_one : ℤ → Bool
above_one (pos n) = ltb 1 n
above_one (negsuc n) = false

abbrev pub below_minus_one : ℤ → Bool
below_minus_one (pos n) = false
below_minus_one (negsuc n) = ltb 0 n

abbrev pub is_negative : ℤ → Bool
is_negative (pos n) = false
is_negative (negsuc n) = true

abbrev pub is_positive : ℤ → Bool
is_positive (pos n) = ltb 0 n
is_positive (negsuc n) = false

abbrev pub is_nonzero : ℤ → Bool
is_nonzero (pos n) = ltb 0 n
is_nonzero (negsuc n) = true

-- The tests on a difference, as comparisons of its parts.
pub above_one-sub : (a b : ℕ) → b + 1 < a → above_one (sub_ℕ a b) ≡ true
above_one-sub a b h = ground arith

pub not_above_one-sub : (a b : ℕ) → a ≤ b + 1 → above_one (sub_ℕ a b) ≡ false
not_above_one-sub a b h = ground arith

pub not_below_minus_one-sub : (a b : ℕ) → b ≤ a + 1 → below_minus_one (sub_ℕ a b) ≡ false
not_below_minus_one-sub a b h = ground arith

pub nonzero-sub : (a b : ℕ) → b + 1 < a → is_nonzero (sub_ℕ a b) ≡ true
nonzero-sub a b h = ground arith

pub not_negative-sub : (a b : ℕ) → b ≤ a → is_negative (sub_ℕ a b) ≡ false
not_negative-sub a b h = ground arith
