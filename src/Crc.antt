-- ===== src/Crc.antt =====
-- lib/utils/crypto_utils.hpp and crypto_utils.cpp: the two overloads of `computeCRC32`.
pub mod Table
pub mod Bitwise
pub mod Laws
pub mod Agreement
mod Runs
use enigma_db.Base.{
  ℕ, zero, suc, ◌+◌, ◌-◌, ◌/◌, ◌%◌, ◌^◌, bit_and, bit_xor, ◌==◌, Option, none, some, List, [], ◌∷◌,
  get_elem?, length, if◌then◌else◌,
}
use enigma_db.Crc.Table.{crc32_table}

-- `crc = (crc >> 8) ^ crc32Table[(crc ^ byte) & 0xFF]`; `none` would be an index behind the table.
pub crc_round : ℕ → ℕ → Option ℕ
crc_round crc byte = elim (get_elem? crc32_table (bit_and (bit_xor crc byte) 0xff)) [
  | none ↦ none
  | some t ↦ some (bit_xor (crc / 2 ^ 8) t)
]

-- The loop from index `i` with `n` rounds left; `none` is a read past the end.
pub crc_loop : ℕ → ℕ → List ℕ → ℕ → Option ℕ
crc_loop zero i bytes crc = some crc
crc_loop (suc n) i bytes crc = elim (get_elem? bytes i) [
  | none ↦ none
  | some byte ↦ elim (crc_round crc byte) [
    | none ↦ none
    | some crc' ↦ crc_loop n (i + 1) bytes crc'
  ]
]

-- `~crc` of a `uint32_t`.
abbrev pub complement32 : Option ℕ → Option ℕ
complement32 none = none
complement32 (some crc) = some (bit_xor crc 0xffffffff)

-- The overload on a pointer: `bytes` is what can be read from it.
pub compute_crc32 : List ℕ → ℕ → ℕ → Option ℕ
compute_crc32 bytes offset size = complement32 (crc_loop size offset bytes 0xffffffff)

-- The overload on a vector: the size 0 stands for the rest of the vector, and the bound of the loop
-- is a sum of 64 bits.
pub compute_crc32_vector : List ℕ → ℕ → ℕ → Option ℕ
compute_crc32_vector bytes offset size =
    let size' = if size == 0 then (length bytes + 2 ^ 64 - offset) % 2 ^ 64 else size in
    let bound = (offset + size') % 2 ^ 64 in
    complement32 (crc_loop (bound - offset) offset bytes 0xffffffff)
