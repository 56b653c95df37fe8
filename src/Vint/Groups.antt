-- ===== src/Vint/Groups.antt =====
-- The numbers that the bytes of lib/utils/vint/vint.hpp stand for, and what the masks and shifts
-- of its loops do to them.
use native.Mathlib.Numerals.{towards_suc}
use enigma_db.Base.{
  ℕ, zero, suc, ◌+◌, ◌*◌, ◌%◌, ◌^◌, ◌≤◌, ◌<◌, bit_and, bit_or, ◌≡◌, List, [], ◌∷◌, arith, ap,
}
use enigma_db.Base.Bits.{bit_and-mask, bit_or-shifted}

abbrev pub IsByte : ℕ → Type 0
IsByte b = b < 256

-- A byte with the top bit set: another byte follows.
abbrev pub IsContinuation : ℕ → Type 0
IsContinuation b = (128 ≤ b) × (b < 256)

-- The number whose groups of seven bits, lowest first, are the low bits of the bytes.
abbrev pub groups_value : List ℕ → ℕ
groups_value [] = 0
groups_value (b ∷ bs) = b % 128 + 128 * groups_value bs

pub low_group : (b : ℕ) → bit_and b 0x7f ≡ b % 128
low_group b = bit_and-mask 7 b

pub flagged : (v : ℕ) → bit_or (bit_and v 0x7f) 0x80 % 2 ^ 8 ≡ v % 128 + 128
flagged v = ground (arith, low_group v, bit_or-shifted 7 (v % 128) 1)

shift_seven : (s : ℕ) → 2 ^ (s + 7) ≡ 128 * 2 ^ s
shift_seven s = simp towards_suc (omega arith)

-- `result |= (uint32_t)g << 7 * i` in round `i`: the sum, with what does not fit 32 bits lost.
pub add_group32 :
    (i r g : ℕ)
    → i < 5
    → g < 128
    → r < 2 ^ (7 * i)
    → bit_or r (g * 2 ^ (7 * i) % 2 ^ 32) ≡ (r + g * 2 ^ (7 * i)) % 2 ^ 32
add_group32 zero r g h hg hr = ground (arith, bit_or-shifted 0 r g)
add_group32 (suc zero) r g h hg hr = ground (arith, bit_or-shifted 7 r g)
add_group32 (suc (suc zero)) r g h hg hr = ground (arith, bit_or-shifted 14 r g)
add_group32 (suc (suc (suc zero))) r g h hg hr = ground (arith, bit_or-shifted 21 r g)
add_group32 (suc (suc (suc (suc zero)))) r g h hg hr = ground (arith, bit_or-shifted 28 r (g % 16))
add_group32 (suc (suc (suc (suc (suc i))))) r g h hg hr = absurd (omega arith)

pub add_group64 :
    (i r g : ℕ)
    → i < 10
    → g < 128
    → r < 2 ^ (7 * i)
    → bit_or r (g * 2 ^ (7 * i) % 2 ^ 64) ≡ (r + g * 2 ^ (7 * i)) % 2 ^ 64
add_group64 zero r g h hg hr = ground (arith, bit_or-shifted 0 r g)
add_group64 (suc zero) r g h hg hr = ground (arith, bit_or-shifted 7 r g)
add_group64 (suc (suc zero)) r g h hg hr = ground (arith, bit_or-shifted 14 r g)
add_group64 (suc (suc (suc zero))) r g h hg hr = ground (arith, bit_or-shifted 21 r g)
add_group64 (suc (suc (suc (suc zero)))) r g h hg hr = ground (arith, bit_or-shifted 28 r g)
add_group64 (suc (suc (suc (suc (suc zero))))) r g h hg hr = ground (arith, bit_or-shifted 35 r g)
add_group64 (suc (suc (suc (suc (suc (suc zero)))))) r g h hg hr =
    ground (arith, bit_or-shifted 42 r g)
add_group64 (suc (suc (suc (suc (suc (suc (suc zero))))))) r g h hg hr =
    ground (arith, bit_or-shifted 49 r g)
add_group64 (suc (suc (suc (suc (suc (suc (suc (suc zero)))))))) r g h hg hr =
    ground (arith, bit_or-shifted 56 r g)
add_group64 (suc (suc (suc (suc (suc (suc (suc (suc (suc zero))))))))) r g h hg hr =
    ground (arith, bit_or-shifted 63 r (g % 2))
add_group64 (suc (suc (suc (suc (suc (suc (suc (suc (suc (suc i)))))))))) r g h hg hr =
    absurd (omega arith)

-- No bit is lost before the last round.
pub room32 : (i : ℕ) → i < 4 → 128 * 2 ^ (7 * i) ≤ 2 ^ 32
room32 zero h = omega arith
room32 (suc zero) h = omega arith
room32 (suc (suc zero)) h = omega arith
room32 (suc (suc (suc zero))) h = omega arith
room32 (suc (suc (suc (suc i)))) h = absurd (omega arith)

pub room64 : (i : ℕ) → i < 9 → 128 * 2 ^ (7 * i) ≤ 2 ^ 64
room64 zero h = omega arith
room64 (suc zero) h = omega arith
room64 (suc (suc zero)) h = omega arith
room64 (suc (suc (suc zero))) h = omega arith
room64 (suc (suc (suc (suc zero)))) h = omega arith
room64 (suc (suc (suc (suc (suc zero))))) h = omega arith
room64 (suc (suc (suc (suc (suc (suc zero)))))) h = omega arith
room64 (suc (suc (suc (suc (suc (suc (suc zero))))))) h = omega arith
room64 (suc (suc (suc (suc (suc (suc (suc (suc zero)))))))) h = omega arith
room64 (suc (suc (suc (suc (suc (suc (suc (suc (suc i))))))))) h = absurd (omega arith)

pub next_shift : (i : ℕ) → 7 * i + 7 ≡ 7 * (i + 1)
next_shift i = omega arith

pub next_power : (i : ℕ) → 2 ^ (7 * (i + 1)) ≡ 128 * 2 ^ (7 * i)
next_power i = rw (← next_shift i) (shift_seven (7 * i))

-- The groups above the first count 128 times as much.
pub regroup :
    (r i b : ℕ) (bs : List ℕ)
    → r + b % 128 * 2 ^ (7 * i) + groups_value bs * 2 ^ (7 * (i + 1))
      ≡ r + groups_value (b ∷ bs) * 2 ^ (7 * i)
regroup r i b bs = omega (arith, ap (λ (t : ℕ). groups_value bs * t) (next_power i))
