-- ===== src/Vint.antt =====
-- lib/utils/vint/vint.hpp: variable-length integers, seven bits a byte with the lowest first,
-- the top bit set on every byte but the last. A byte vector is a list of numbers below 256, and
-- the pair of pointers `data`, `limit` is the list of the bytes between them.
pub mod Groups
pub mod Put
pub mod Get
pub mod RoundTrip
mod Runs
use enigma_db.Base.{
  ℕ, zero, suc, ◌+◌, ◌*◌, ◌/◌, ◌%◌, ◌^◌, bit_and, bit_or, Bool, ◌&&◌, Option, none, some, List, [],
  ◌∷◌, ◌++◌, ltb, ◌==◌, if◌then◌else◌, length, get_elem?, set,
}

-- `enum class StatusCode`
pub data StatusCode : Type 0 where
  ok truncated malformed : StatusCode

-- What is pushed in one round: `(value & 0x7F) | 0x80` as a `uint8_t`.
abbrev pub flagged_group : ℕ → ℕ
flagged_group value = bit_or (bit_and value 0x7f) 0x80 % 2 ^ 8

-- The `for` loop with `n` rounds left: the vector and the index `i` at which the loop ends.
pub put_loop : ℕ → ℕ → List ℕ → ℕ → List ℕ × ℕ
put_loop zero i out value = (out, i)
put_loop (suc n) i out value =
    let out' = out ++ (flagged_group value ∷ []) in
    let value' = value / 2 ^ 7 in
    let more = put_loop n (i + 1) out' value' in if value' == 0 then (out', i) else more

-- `out[at] &= 0x7F`; `none` is a write past the end of the vector.
pub clear_flag : List ℕ → ℕ → Option (List ℕ)
clear_flag out at = elim (get_elem? out at) [
  | none ↦ none
  | some b ↦ some (set out at (bit_and b 0x7f))
]

-- The vector after the call; `none` stands for a write out of range or a failed `assert`.
pub put_varint32 : List ℕ → ℕ → Option (List ℕ)
put_varint32 out value =
    let start = length out in
    let (out', i) = put_loop 5 0 out value in
    elim (clear_flag out' (start + i)) [
      | none ↦ none
      | some out'' ↦ if ltb i 5 then some out'' else none
    ]

pub put_varint64 : List ℕ → ℕ → Option (List ℕ)
put_varint64 out value =
    let start = length out in
    let (out', i) = put_loop 10 0 out value in
    elim (clear_flag out' (start + i)) [
      | none ↦ none
      | some out'' ↦ if ltb i 10 then some out'' else none
    ]

-- `status`, the returned pointer (`none` is `nullptr`, `some rest` points at `rest`) and the
-- value of the reference parameter `out` after the call.
abbrev pub Decoded : Type 0
Decoded = StatusCode × Option (List ℕ) × ℕ

-- The `for` loop of `getVarint32` with `n` rounds left.
pub get_loop32 : ℕ → List ℕ → ℕ → ℕ → ℕ → Decoded
get_loop32 zero bytes result shift out = (malformed, none, out)
get_loop32 (suc n) [] result shift out = (truncated, none, out)
get_loop32 (suc n) (byte ∷ bytes) result shift out =
    let result' = bit_or result (bit_and byte 0x7f * 2 ^ shift % 2 ^ 32) in
    let more = get_loop32 n bytes result' (shift + 7) out in
    if bit_and byte 0x80 == 0 then (ok, some bytes, result') else more

pub get_varint32 : List ℕ → ℕ → Decoded
get_varint32 bytes out = get_loop32 5 bytes 0 0 out

-- The `for` loop of `getVarint64` at index `i` with `n` rounds left.
pub get_loop64 : ℕ → ℕ → List ℕ → ℕ → ℕ → ℕ → Decoded
get_loop64 zero i bytes result shift out = (malformed, none, out)
get_loop64 (suc n) i [] result shift out = (truncated, none, out)
get_loop64 (suc n) i (byte ∷ bytes) result shift out =
    let result' = bit_or result (bit_and byte 0x7f * 2 ^ shift % 2 ^ 64) in
    let more = get_loop64 n (i + 1) bytes result' (shift + 7) out in
    if bit_and byte 0x80 == 0
    then if i == 9 && ltb 0 (bit_and byte 0x7e)
      then (malformed, none, out)
      else (ok, some bytes, result')
    else more

pub get_varint64 : List ℕ → ℕ → Decoded
get_varint64 bytes out = get_loop64 10 0 bytes 0 0 out
