-- ===== src/Base/Bits.antt =====
-- Bit fields as arithmetic, at every width: a mask of low bits is a remainder, and `|` of a
-- field with what lies below it is a sum.
use Prim.Native.Nat.{
  ℕ, zero, suc, ◌+◌, ◌-◌, ◌*◌, ◌/◌, ◌%◌, ◌^◌, ◌≤◌, ◌<◌, min, max, bit_and, bit_or, digits, bitwise,
  bit_and-bitwise, bit_or-bitwise,
}
use mathlib.Core.Path.{◌≡◌, refl, ap}
use mathlib.Core.WellFounded as WF
use mathlib.Core.WellFounded.{Acc, WellFounded}
use native.Mathlib.Nat.{pow-suc, one-le-pow}
use mathlib.Core.Bool.{Bool, true, ◌&&◌}
use native.Mathlib.Omega.{arith}
use enigma_db.Base.Tests.{◌==◌, ==_iff}

below_acc : (k n : ℕ) → n < k → Acc ◌<◌ n
below_acc zero n h = absurd (omega arith)
below_acc (suc k) n h = Acc.intro n (λ m hm. below_acc k m (omega arith))

-- `<` on the native numbers is well founded.
unfoldable pub lt_wf : WellFounded ◌<◌
unfolding below_acc
lt_wf = record { apply = λ n. below_acc (suc n) n (omega arith) }

-- The digit recursion gives one result on all fuels that cover the left operand.
module _ (rest : ℕ → ℕ) (f : ℕ → ℕ → ℕ) where
  enough_fuel : (n m a b : ℕ) → a ≤ n → a ≤ m → digits rest f n a b ≡ digits rest f m a b
  enough_fuel zero zero zero b h k = refl
  enough_fuel zero (suc m) zero b h k = refl
  enough_fuel (suc n) zero zero b h k = refl
  enough_fuel (suc n) (suc m) zero b h k = refl
  enough_fuel (suc n) (suc m) (suc a) b h k =
      ap (λ (t : ℕ). t * 2 + f (suc a % 2) (b % 2))
        (enough_fuel n m (suc a / 2) (b / 2) (omega arith) (omega arith))
  enough_fuel zero m (suc a) b h k = absurd (omega arith)
  enough_fuel (suc n) zero (suc a) b h k = absurd (omega arith)

  pub low_digit :
      (a b : ℕ)
      → bitwise rest f (suc a) b ≡ bitwise rest f (suc a / 2) (b / 2) * 2 + f (suc a % 2) (b % 2)
  low_digit a b =
      ap (λ (t : ℕ). t * 2 + f (suc a % 2) (b % 2))
        (enough_fuel a (suc a / 2) (suc a / 2) (b / 2) (omega arith) (omega arith))

bit_or_digit : (a b : ℕ) → bit_or a b ≡ bit_or (a / 2) (b / 2) * 2 + max (a % 2) (b % 2)
bit_or_digit zero b = simp bit_or-bitwise (omega arith)
bit_or_digit (suc a) b = simp bit_or-bitwise (low_digit (λ y. y) max a b)

bit_and_digit : (a b : ℕ) → bit_and a b ≡ bit_and (a / 2) (b / 2) * 2 + min (a % 2) (b % 2)
bit_and_digit zero b = simp bit_and-bitwise (omega arith)
bit_and_digit (suc a) b = simp bit_and-bitwise (low_digit (λ y. 0) min a b)

zero-bit_or : (b : ℕ) → bit_or 0 b ≡ b
zero-bit_or b = simp bit_or-bitwise (omega arith)

bit_and-zero : (a : ℕ) → bit_and a 0 ≡ 0
bit_and-zero a =
    WF.induction lt_wf {C = λ n. bit_and n 0 ≡ 0} a
      λ n ih. ground (arith, bit_and_digit n 0, ih (n / 2))

pub double_pow : (k b : ℕ) → b * 2 ^ suc k ≡ 2 * (b * 2 ^ k)
double_pow k b = omega (arith, ap (λ (t : ℕ). b * t) (pow-suc 2 k))

-- `r | (q << k)` is a sum when `r` has no bit from `k` up.
pub bit_or-shifted : (k r q : ℕ) → r < 2 ^ k → bit_or r (q * 2 ^ k) ≡ r + q * 2 ^ k
bit_or-shifted zero r q h = ground (arith, zero-bit_or q)
bit_or-shifted (suc k) r q h = ground (
  arith,
  bit_or_digit r (q * 2 ^ suc k),
  double_pow k q,
  pow-suc 2 k,
  bit_or-shifted k (r / 2) q (omega arith),
)

-- The same with the high field on the left: `(q << k) | r`.
pub bit_or_fields : (k q r : ℕ) → r < 2 ^ k → bit_or (q * 2 ^ k) r ≡ q * 2 ^ k + r
bit_or_fields zero q r h = ground (arith, bit_or-zero q)
  where
    bit_or-zero : (a : ℕ) → bit_or a 0 ≡ a
    bit_or-zero a =
        WF.induction lt_wf {C = λ n. bit_or n 0 ≡ n} a
          λ n ih. ground (arith, bit_or_digit n 0, ih (n / 2))
bit_or_fields (suc k) q r h = ground (
  arith,
  bit_or_digit (q * 2 ^ suc k) r,
  double_pow k q,
  pow-suc 2 k,
  bit_or_fields k q (r / 2) (omega arith),
)

mask_of_fields : (k q r : ℕ) → r < 2 ^ k → bit_and (r + q * 2 ^ k) (2 ^ k - 1) ≡ r
mask_of_fields zero q r h = ground (arith, bit_and-zero (r + q * 2 ^ 0))
mask_of_fields (suc k) q r h = ground (
  arith,
  bit_and_digit (r + q * 2 ^ suc k) (2 ^ suc k - 1),
  double_pow k q,
  pow-suc 2 k,
  one-le-pow k 2,
  mask_of_fields k q (r / 2) (omega arith),
)

-- `a & (2^k - 1)` is the remainder by `2 ^ k`.
pub bit_and-mask : (k a : ℕ) → bit_and a (2 ^ k - 1) ≡ a % 2 ^ k
bit_and-mask k a = ground (arith, one-le-pow k 2, mask_of_fields k (a / 2 ^ k) (a % 2 ^ k))

-- A test that holds at every number below a bound, by evaluation.
holds_below : ℕ → (ℕ → Bool) → Bool
holds_below zero p = true
holds_below (suc n) p = p n && holds_below n p

holds_below_sound : (n : ℕ) (p : ℕ → Bool) (x : ℕ) → holds_below n p ≡ true → x < n → p x ≡ true
unfolding holds_below
holds_below_sound zero p x e h = absurd (omega arith)
holds_below_sound (suc n) p x e h = ground (arith, holds_below_sound n p x)

-- Two functions that agree on every byte, found so by evaluation.
agree_on_bytes : (f g : ℕ → ℕ) → Bool
unfolding holds_below
agree_on_bytes f g = holds_below 256 (λ b. f b == g b)

eq_on_bytes : (f g : ℕ → ℕ) → agree_on_bytes f g ≡ true → (b : ℕ) → b < 256 → f b ≡ g b
unfolding agree_on_bytes
eq_on_bytes f g e b h = (==_iff (f b) (g b)).0 (holds_below_sound 256 (λ x. f x == g x) b e h)

pub bit_and-top_bit : (b : ℕ) → b < 256 → bit_and b 0x80 ≡ b / 128 * 128
unfolding agree_on_bytes
bit_and-top_bit b h = eq_on_bytes (λ x. bit_and x 0x80) (λ x. x / 128 * 128) refl b h

pub bit_and-middle : (b : ℕ) → b < 256 → bit_and b 0x7e ≡ b % 128 / 2 * 2
unfolding agree_on_bytes
bit_and-middle b h = eq_on_bytes (λ x. bit_and x 0x7e) (λ x. x % 128 / 2 * 2) refl b h
