-- ===== src/Crc/Bitwise.antt =====
-- CRC-32C bit by bit: a shift register with the reversed polynomial 0x82F63B78, against which the
-- table of lib/utils/crypto_utils.hpp is proved.
use enigma_db.Base.{
  ℕ, zero, suc, ◌+◌, ◌*◌, ◌/◌, ◌%◌, ◌^◌, ◌<◌, ◌≡◌, refl, ◌∙◌, sym, ap, bit_and, bit_xor, Option,
  none, some, List, [], ◌∷◌, arith, get_elem?, foldl,
}
use enigma_db.Base.Bits.{bit_and-mask, double_pow}
use enigma_db.Base.Xor.{
  bit_xor_half, bit_xor_low, bit_xor_comm, bit_xor_assoc, bit_xor-zero, bit_xor_shift,
  bit_xor_fields,
}
use enigma_db.Crc.{crc_round}
use enigma_db.Crc.Table.{crc32_table}

-- What is taken off when the lowest bit is 1.
abbrev pub reduction : ℕ → ℕ
reduction zero = 0
reduction (suc d) = 0x82f63b78

-- One bit is shifted out.
abbrev pub shift_bit : ℕ → ℕ
shift_bit x = bit_xor (x / 2) (reduction (x % 2))

abbrev pub shift_bits : ℕ → ℕ → ℕ
shift_bits zero x = x
shift_bits (suc n) x = shift_bits n (shift_bit x)

-- A byte goes into the register and its eight bits are shifted out.
abbrev pub shift_byte : ℕ → ℕ → ℕ
shift_byte crc byte = shift_bits 8 (bit_xor crc byte)

-- The checksum of a list of bytes.
abbrev pub crc32c : List ℕ → ℕ
crc32c bytes = bit_xor (foldl shift_byte 0xffffffff bytes) 0xffffffff

reduction-bit_xor :
    (x y : ℕ) → x < 2 → y < 2 → reduction ((x + y) % 2) ≡ bit_xor (reduction x) (reduction y)
reduction-bit_xor zero zero h k = refl
reduction-bit_xor zero (suc zero) h k = refl
reduction-bit_xor (suc zero) zero h k = refl
reduction-bit_xor (suc zero) (suc zero) h k = refl
reduction-bit_xor zero (suc (suc y)) h k = absurd (omega arith)
reduction-bit_xor (suc zero) (suc (suc y)) h k = absurd (omega arith)
reduction-bit_xor (suc (suc x)) y h k = absurd (omega arith)

exchange : (a b c d : ℕ) → bit_xor (bit_xor a b) (bit_xor c d) ≡ bit_xor (bit_xor a c) (bit_xor b d)
exchange a b c d =
    bit_xor_assoc a b (bit_xor c d)
    ∙ ap (bit_xor a)
        (sym (bit_xor_assoc b c d) ∙ ap (λ t. bit_xor t d) (bit_xor_comm b c) ∙ bit_xor_assoc c b d)
    ∙ sym (bit_xor_assoc a c (bit_xor b d))

shift_bit-bit_xor : (x y : ℕ) → shift_bit (bit_xor x y) ≡ bit_xor (shift_bit x) (shift_bit y)
shift_bit-bit_xor x y =
    let low : bit_xor x y % 2 ≡ (x % 2 + y % 2) % 2 = omega (arith, bit_xor_low x y) in
    ap (λ t. bit_xor t (reduction (bit_xor x y % 2))) (bit_xor_half x y)
    ∙ ap (λ t. bit_xor (bit_xor (x / 2) (y / 2)) (reduction t)) low
    ∙ ap (bit_xor (bit_xor (x / 2) (y / 2)))
        (reduction-bit_xor (x % 2) (y % 2) (omega arith) (omega arith))
    ∙ exchange (x / 2) (y / 2) (reduction (x % 2)) (reduction (y % 2))

shift_bits-bit_xor :
    (n x y : ℕ) → shift_bits n (bit_xor x y) ≡ bit_xor (shift_bits n x) (shift_bits n y)
shift_bits-bit_xor zero x y = refl
shift_bits-bit_xor (suc n) x y =
    ap (shift_bits n) (shift_bit-bit_xor x y) ∙ shift_bits-bit_xor n (shift_bit x) (shift_bit y)

-- Zero bits only shift what is above them.
shift_bits-zeros : (n q : ℕ) → shift_bits n (q * 2 ^ n) ≡ q
shift_bits-zeros zero q = omega arith
shift_bits-zeros (suc n) q =
    let half : q * 2 ^ suc n / 2 ≡ q * 2 ^ n = omega (arith, double_pow n q) in
    let even : q * 2 ^ suc n % 2 ≡ 0 = omega (arith, double_pow n q) in
    ap (shift_bits n) (
      ap (λ t. bit_xor (q * 2 ^ suc n / 2) (reduction t)) even
      ∙ bit_xor-zero (q * 2 ^ suc n / 2)
      ∙ half)
    ∙ shift_bits-zeros n q

shift_bits-fields :
    (n x : ℕ)
    → x % 2 ^ n < 2 ^ n
    → shift_bits n (x / 2 ^ n * 2 ^ n + x % 2 ^ n) ≡ bit_xor (x / 2 ^ n) (shift_bits n (x % 2 ^ n))
shift_bits-fields n x h =
    ap (shift_bits n) (sym (bit_xor_fields n (x / 2 ^ n) (x % 2 ^ n) h))
    ∙ shift_bits-bit_xor n (x / 2 ^ n * 2 ^ n) (x % 2 ^ n)
    ∙ ap (λ t. bit_xor t (shift_bits n (x % 2 ^ n))) (shift_bits-zeros n (x / 2 ^ n))

abbrev pub from_index : ℕ → ℕ → List ℕ
from_index zero i = []
from_index (suc n) i = shift_bits 8 i ∷ from_index n (i + 1)

-- The table holds what the shift register makes of every byte.
pub table_lem : crc32_table ≡ from_index 256 0
unfolding crc32_table
table_lem = refl

pub get_elem?-from_index :
    (n i k : ℕ) → k < n → get_elem? (from_index n i) k ≡ some (shift_bits 8 (i + k))
get_elem?-from_index zero i k h = absurd (omega arith)
get_elem?-from_index (suc n) i zero h = ap (λ t. some (shift_bits 8 t)) (omega arith)
get_elem?-from_index (suc n) i (suc k) h =
    get_elem?-from_index n (i + 1) k (omega arith) ∙ ap (λ t. some (shift_bits 8 t)) (omega arith)

high_part : (crc byte : ℕ) → byte < 256 → crc / 2 ^ 8 ≡ bit_xor crc byte / 2 ^ 8
high_part crc byte h =
    let none_left : byte / 2 ^ 8 ≡ 0 = omega arith in
    sym
      (bit_xor_shift 8 crc byte ∙ ap (bit_xor (crc / 2 ^ 8)) none_left ∙ bit_xor-zero (crc / 2 ^ 8))

-- A round with the table is eight shifts of the register.
pub crc_round-shift_byte :
    (crc byte : ℕ) → byte < 256 → crc_round crc byte ≡ some (shift_byte crc byte)
unfolding crc_round
crc_round-shift_byte crc byte h =
    let x = bit_xor crc byte in
    let found : get_elem? crc32_table (bit_and x 0xff) ≡ some (shift_bits 8 (x % 256)) =
      ap (get_elem? crc32_table) (bit_and-mask 8 x)
      ∙ ap (λ t. get_elem? t (x % 256)) table_lem
      ∙ get_elem?-from_index 256 0 (x % 256) (omega arith)
      ∙ ap (λ t. some (shift_bits 8 t)) (omega arith) in
    ap (λ (t : Option ℕ). elim t [ none ↦ none | some v ↦ some (bit_xor (crc / 2 ^ 8) v) ]) found
    ∙ ap (λ t. some (bit_xor t (shift_bits 8 (x % 256)))) (high_part crc byte h)
    ∙ ap some (sym (shift_bits-fields 8 x (omega arith)) ∙ ap (shift_bits 8) (omega arith))
