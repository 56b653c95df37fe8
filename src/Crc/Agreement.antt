-- ===== src/Crc/Agreement.antt =====
-- Both overloads of `computeCRC32` in lib/utils/crypto_utils.cpp return the same 32-bit checksum of
-- all the bytes of a vector, also where more can be read behind them.
use enigma_db.Base.{
  ℕ, zero, suc, ◌+◌, ◌-◌, ◌/◌, ◌%◌, ◌^◌, ◌<◌, ◌≡◌, refl, ◌∙◌, sym, ap, ap₂, bit_and, bit_xor, ◌==◌,
  Option, none, some, List, [], ◌∷◌, ◌++◌, arith, get_elem?, get_elem?-drop, drop, length,
  append-nil, if◌then◌else◌,
}
use enigma_db.Base.Bits.{bit_and-mask}
use enigma_db.Base.Xor.{bit_xor_shift}
use enigma_db.Crc.{crc_round, crc_loop, complement32, compute_crc32, compute_crc32_vector}
use enigma_db.Crc.Table.{crc32_table}
use enigma_db.Crc.Bitwise.{shift_bits, shift_bit, reduction, table_lem, get_elem?-from_index}

bit_xor_bound : (a b : ℕ) → a < 2 ^ 32 → b < 2 ^ 32 → bit_xor a b < 2 ^ 32
bit_xor_bound a b ha hb =
    let low_a : a / 2 ^ 32 ≡ 0 = omega arith in
    let low_b : b / 2 ^ 32 ≡ 0 = omega arith in
    let high : bit_xor a b / 2 ^ 32 ≡ bit_xor 0 0 =
      bit_xor_shift 32 a b ∙ ap₂ bit_xor low_a low_b in
    omega (arith, high)

reduction_bound : (d : ℕ) → reduction d < 2 ^ 32
reduction_bound zero = omega arith
reduction_bound (suc d) = omega arith

shift_bits_bound : (n x : ℕ) → x < 2 ^ 32 → shift_bits n x < 2 ^ 32
shift_bits_bound zero x h = h
shift_bits_bound (suc n) x h =
    shift_bits_bound n (shift_bit x)
      (bit_xor_bound (x / 2) (reduction (x % 2)) (omega arith) (reduction_bound (x % 2)))

-- A round always finds its index in the table.
crc_round_total :
    (crc byte : ℕ) → crc < 2 ^ 32 → (c : ℕ) × (crc_round crc byte ≡ some c) × (c < 2 ^ 32)
unfolding crc_round
crc_round_total crc byte h =
    let k = bit_xor crc byte % 256 in
    let found : get_elem? crc32_table (bit_and (bit_xor crc byte) 0xff)
        ≡ some (shift_bits 8 (0 + k)) =
      ap (get_elem? crc32_table) (bit_and-mask 8 (bit_xor crc byte))
      ∙ ap (λ t. get_elem? t k) table_lem
      ∙ get_elem?-from_index 256 0 k (omega arith) in
    (
      bit_xor (crc / 2 ^ 8) (shift_bits 8 (0 + k)),
      ap (λ (t : Option ℕ). elim t [ none ↦ none | some v ↦ some (bit_xor (crc / 2 ^ 8) v) ]) found,
      bit_xor_bound (crc / 2 ^ 8) (shift_bits 8 (0 + k)) (omega arith)
          (shift_bits_bound 8 (0 + k) (omega arith)),
    )

-- The loop over bytes that stand somewhere in the memory.
crc_loop_total :
    (bs : List ℕ) (crc : ℕ)
    → crc < 2 ^ 32
    → (c : ℕ) × (c < 2 ^ 32)
      × ((i : ℕ) (bytes rest : List ℕ)
          → drop i bytes ≡ bs ++ rest
          → crc_loop (length bs) i bytes crc ≡ some c)
unfolding crc_loop
crc_loop_total [] crc h = (crc, h, λ i bytes rest e. refl)
crc_loop_total (b ∷ bs) crc h =
    let (c₁, round, h₁) = crc_round_total crc b h in
    let (c, bound, loops) = crc_loop_total bs c₁ h₁ in
    (
      c,
      bound,
      λ i bytes rest e.
          let (found, behind) = get_elem?-drop bytes i b (bs ++ rest) e in
          let next_index : i + 1 ≡ suc i = omega arith in
          rw (found, crc_loop)
            (rw (round, crc_loop)
              (loops (i + 1) bytes rest (ap (λ k. drop k bytes) next_index ∙ behind))),
    )

-- The overload on a vector, over all its bytes, and the overload on a pointer to the same bytes,
-- whatever can be read behind them, return one checksum of 32 bits.
pub compute_crc32_vector-compute_crc32 :
    (bs : List ℕ)
    → length bs < 2 ^ 64
    → (c : ℕ) × (c < 2 ^ 32)
      × (compute_crc32_vector bs 0 (length bs) ≡ some c)
      × ((rest : List ℕ) → compute_crc32 (bs ++ rest) 0 (length bs) ≡ some c)
unfolding compute_crc32_vector compute_crc32
compute_crc32_vector-compute_crc32 bs fits =
    let (c, bound, loops) = crc_loop_total bs 0xffffffff (omega arith) in
    let rounds : (0 + (if length bs == 0 then (length bs + 2 ^ 64 - 0) % 2 ^ 64 else length bs))
            % 2 ^ 64
          - 0
        ≡ length bs =
      ground arith in
    (
      bit_xor c 0xffffffff,
      bit_xor_bound c 0xffffffff bound (omega arith),
      ap (λ n. complement32 (crc_loop n 0 bs 0xffffffff)) rounds
          ∙ ap complement32 (loops 0 bs [] (sym (append-nil bs))),
      λ rest. ap complement32 (loops 0 (bs ++ rest) rest refl),
    )
