-- ===== src/Bytes.antt =====
-- lib/utils/byte_parser.hpp and byte_parser.cpp: little-endian integers and strings in a vector of
-- bytes, and a parser over them. Fields and keys are in Field/Parser.
pub mod Integers
pub mod Reads
pub mod RoundTrip
pub mod Strings
mod Runs
use enigma_db.Base.{
  ℕ, zero, suc, ◌+◌, ◌*◌, ◌/◌, ◌%◌, ◌^◌, bit_and, bit_or, leb, Option, none, some, List, [], ◌∷◌,
  ◌++◌, get_elem?, set, take, drop, length, if◌then◌else◌,
}
use enigma_db.Outcome.{Outcome, returned, crashed, Method, ◌>>=◌}

-- `bytes` holds the bytes that can be read from the pointer `data_` on; `length` is what the
-- constructor was told. The cursor stays within one object, so it does not wrap.
pub record ByteParser : Type 0 where
  pub bytes : List ℕ
  pub cursor : ℕ
  pub length : ℕ

unfoldable pub new : List ℕ → ℕ → ByteParser
new bytes length = record { bytes = bytes; cursor = 0; length = length }

abbrev pub advance : ℕ → ByteParser → ByteParser
advance n p = record p { cursor = p.cursor + n }

pub write_uint16 : List ℕ → ℕ → List ℕ
write_uint16 out value = (out ++ (bit_and value 0xff ∷ [])) ++ (bit_and (value / 2 ^ 8) 0xff ∷ [])

-- The loop of `writeUint32` and `writeUint64` at index `i` with `n` rounds left.
pub write_loop : ℕ → ℕ → List ℕ → ℕ → List ℕ
write_loop zero i out value = out
write_loop (suc n) i out value =
    write_loop n (i + 1) (out ++ (bit_and (value / 2 ^ (8 * i)) 0xff ∷ [])) value

pub write_uint32 : List ℕ → ℕ → List ℕ
write_uint32 out value = write_loop 4 0 out value

pub write_uint64 : List ℕ → ℕ → List ℕ
write_uint64 out value = write_loop 8 0 out value

-- `readUint16(data, offset)`; `none` is a read past the end.
pub read_uint16_at : List ℕ → ℕ → Option ℕ
read_uint16_at bytes offset = elim (get_elem? bytes offset) [
  | none ↦ none
  | some lsb ↦ elim (get_elem? bytes (offset + 1)) [
    | none ↦ none
    | some msb ↦ some (bit_or lsb (msb * 2 ^ 8) % 2 ^ 16)
  ]
]

pub read_uint16 : Method ByteParser ℕ
read_uint16 p = elim (get_elem? p.bytes p.cursor) [
  | none ↦ crashed
  | some lsb ↦ elim (get_elem? p.bytes (p.cursor + 1)) [
    | none ↦ crashed
    | some msb ↦ returned (bit_or lsb (msb * 2 ^ 8) % 2 ^ 16) (advance 2 p)
  ]
]

-- The loop of `readUint32` and `readUint64` at index `i` with `n` rounds left, on an integer of
-- `width` bits.
pub read_loop : ℕ → ℕ → ℕ → List ℕ → ℕ → ℕ → Option ℕ
read_loop zero i width bytes cursor result = some result
read_loop (suc n) i width bytes cursor result = elim (get_elem? bytes (cursor + i)) [
  | none ↦ none
  | some b ↦ read_loop n (i + 1) width bytes cursor (bit_or result (b * 2 ^ (i * 8) % 2 ^ width))
]

pub read_uint32 : Method ByteParser ℕ
read_uint32 p = elim (read_loop 4 0 32 p.bytes p.cursor 0) [
  | none ↦ crashed
  | some result ↦ returned result (advance 4 p)
]

pub read_uint64 : Method ByteParser ℕ
read_uint64 p = elim (read_loop 8 0 64 p.bytes p.cursor 0) [
  | none ↦ crashed
  | some result ↦ returned result (advance 8 p)
]

-- The loop of `patchUint64`; `none` is a write past the end of the vector.
pub patch_loop : ℕ → ℕ → List ℕ → ℕ → ℕ → Option (List ℕ)
patch_loop zero i out offset value = some out
patch_loop (suc n) i out offset value = elim (get_elem? out (offset + i)) [
  | none ↦ none
  | some _ ↦
      patch_loop n (i + 1) (set out (offset + i) (bit_and (value / 2 ^ (8 * i)) 0xff)) offset value
]

pub patch_uint64 : List ℕ → ℕ → ℕ → Option (List ℕ)
patch_uint64 out offset value = patch_loop 8 0 out offset value

-- `none` is the failed `assert`.
pub write_string : List ℕ → List ℕ → Option (List ℕ)
write_string out s =
    if leb (length s) 0xffff then some (write_uint16 out (length s % 2 ^ 16) ++ s) else none

-- `std::string str(data_ + cursor_, size); cursor_ += size;`
abbrev pub read_bytes : ℕ → Method ByteParser (List ℕ)
read_bytes size p =
    if leb (p.cursor + size) (length p.bytes)
    then returned (take size (drop p.cursor p.bytes)) (advance size p)
    else crashed

pub read_string : Method ByteParser (List ℕ)
read_string = read_uint16 >>= read_bytes

pub read_byte : Method ByteParser ℕ
read_byte p = elim (get_elem? p.bytes p.cursor) [
  | none ↦ crashed
  | some b ↦ returned b (advance 1 p)
]

-- `magic`, the letters ENTRY.
abbrev pub magic : List ℕ
magic = 69 ∷ 78 ∷ 84 ∷ 82 ∷ 89 ∷ []

unfoldable pub write_magic_bytes : List ℕ → List ℕ
write_magic_bytes out = out ++ magic
