-- ===== src/Bytes/RoundTrip.antt =====
-- What lib/utils/byte_parser.cpp writes, it reads back.
use enigma_db.Base.{
  ℕ, suc, ◌+◌, ◌*◌, ◌/◌, ◌%◌, ◌^◌, ◌≤◌, ◌<◌, ◌≡◌, refl, ◌∙◌, ap, bit_or, some, List, [], ◌∷◌, ◌++◌,
  arith, length, get_elem?-drop, drop, drop-append, append_assoc,
}
use enigma_db.Base.Bits.{bit_or-shifted}
use enigma_db.Outcome.{returned}
use enigma_db.Bytes.{
  read_uint16_at, write_uint16, write_uint32, write_uint64, read_uint16, read_uint32, read_uint64,
  read_loop,
}
use enigma_db.Bytes.Reads.{at, behind, Reads}
use enigma_db.Bytes.Integers.{
  bytes_of, length-bytes_of, bytes_of-IsByte, pow256, value_of-bytes_of, low_byte, read_loop_lem,
  write_loop_lem,
}

-- The reading loop in front of the bytes of a number.
read_number :
    (k w v n : ℕ) (before rest : List ℕ)
    → k * 8 ≤ w
    → v < pow256 k
    → read_loop k 0 w (before ++ (bytes_of k v ++ rest)) (length before) 0 ≡ some v
read_number k w v n before rest hw hv =
    let zero_behind : length before + 0 ≡ length before = omega arith in
    read_loop_lem k 0 w (before ++ (bytes_of k v ++ rest)) (length before) 0 (bytes_of k v) rest
      (length-bytes_of k v) (bytes_of-IsByte k v)
      (ap (λ i. drop i (before ++ (bytes_of k v ++ rest))) zero_behind
        ∙ drop-append before (bytes_of k v ++ rest))
      (omega arith) (omega arith)
    ∙ ap some (omega (arith, value_of-bytes_of k v hv))

pub write_uint64_lem : (out : List ℕ) (value : ℕ) → write_uint64 out value ≡ out ++ bytes_of 8 value
unfolding write_uint64
write_uint64_lem out value =
    let e : value / 2 ^ (8 * 0) ≡ value = omega arith in
    write_loop_lem 8 0 out value ∙ ap (λ v. out ++ bytes_of 8 v) e

pub read_uint64_lem :
    (value : ℕ)
    → value < 2 ^ 64
    → (before rest : List ℕ) (n : ℕ)
    → read_uint64 (at before (bytes_of 8 value ++ rest) n)
      ≡ returned value (at (before ++ bytes_of 8 value) rest n)
unfolding read_uint64
read_uint64_lem value h before rest n =
    rw (read_number 8 64 value n before rest (omega arith) h, read_uint64)
      (ap (returned value) (behind before (bytes_of 8 value) rest n 8 (length-bytes_of 8 value)))

-- `writeUint64` appends eight bytes to any vector; `readUint64` in front of them, whatever follows,
-- returns the value and stands behind them.
pub read_uint64-write_uint64 :
    (out : List ℕ) (value : ℕ) (rest : List ℕ) (n : ℕ)
    → value < 2 ^ 64
    → (bs : List ℕ) × (write_uint64 out value ≡ out ++ bs)
      × (length bs ≡ 8)
      × (read_uint64 (at out (bs ++ rest) n) ≡ returned value (at (out ++ bs) rest n))
read_uint64-write_uint64 out value rest n h = (
  bytes_of 8 value,
  write_uint64_lem out value,
  length-bytes_of 8 value,
  read_uint64_lem value h out rest n,
)

pub write_uint32_lem : (out : List ℕ) (value : ℕ) → write_uint32 out value ≡ out ++ bytes_of 4 value
unfolding write_uint32
write_uint32_lem out value =
    let e : value / 2 ^ (8 * 0) ≡ value = omega arith in
    write_loop_lem 4 0 out value ∙ ap (λ v. out ++ bytes_of 4 v) e

pub read_uint32_lem :
    (value : ℕ)
    → value < 2 ^ 32
    → (before rest : List ℕ) (n : ℕ)
    → read_uint32 (at before (bytes_of 4 value ++ rest) n)
      ≡ returned value (at (before ++ bytes_of 4 value) rest n)
unfolding read_uint32
read_uint32_lem value h before rest n =
    rw (read_number 4 32 value n before rest (omega arith) h, read_uint32)
      (ap (returned value) (behind before (bytes_of 4 value) rest n 4 (length-bytes_of 4 value)))

-- `writeUint32` appends four bytes to any vector; `readUint32` in front of them, whatever follows,
-- returns the value and stands behind them.
pub read_uint32-write_uint32 :
    (out : List ℕ) (value : ℕ) (rest : List ℕ) (n : ℕ)
    → value < 2 ^ 32
    → (bs : List ℕ) × (write_uint32 out value ≡ out ++ bs)
      × (length bs ≡ 4)
      × (read_uint32 (at out (bs ++ rest) n) ≡ returned value (at (out ++ bs) rest n))
read_uint32-write_uint32 out value rest n h = (
  bytes_of 4 value,
  write_uint32_lem out value,
  length-bytes_of 4 value,
  read_uint32_lem value h out rest n,
)

joined16 : (v : ℕ) → v < 2 ^ 16 → bit_or (v % 256) (v / 256 % 256 * 2 ^ 8) % 2 ^ 16 ≡ v
joined16 v h = omega (arith, bit_or-shifted 8 (v % 256) (v / 256 % 256) (omega arith))

pub write_uint16_lem : (out : List ℕ) (value : ℕ) → write_uint16 out value ≡ out ++ bytes_of 2 value
unfolding write_uint16
write_uint16_lem out value =
    rw (low_byte value, low_byte (value / 2 ^ 8))
      (append_assoc out (value % 256 ∷ []) (value / 256 % 256 ∷ []))

pub read_uint16_lem :
    (value : ℕ)
    → value < 2 ^ 16
    → (before rest : List ℕ) (n : ℕ)
    → read_uint16 (at before (bytes_of 2 value ++ rest) n)
      ≡ returned value (at (before ++ bytes_of 2 value) rest n)
unfolding read_uint16
read_uint16_lem value h before rest n =
    let bs = bytes_of 2 value in
    let (first, tail) =
      get_elem?-drop (before ++ (bs ++ rest)) (length before) (value % 256)
        (value / 256 % 256 ∷ rest) (drop-append before (bs ++ rest)) in
    let next_index : length before + 1 ≡ suc (length before) = omega arith in
    let (second, _) =
      get_elem?-drop (before ++ (bs ++ rest)) (length before + 1) (value / 256 % 256) rest
        (ap (λ i. drop i (before ++ (bs ++ rest))) next_index ∙ tail) in
    rw (first, read_uint16)
      (rw (second, read_uint16)
        (rw (joined16 value h) (ap (returned value) (behind before bs rest n 2 refl))))

-- `writeUint16` appends two bytes to any vector; `readUint16` in front of them, whatever follows,
-- returns the value and stands behind them.
pub read_uint16-write_uint16 :
    (out : List ℕ) (value : ℕ) (rest : List ℕ) (n : ℕ)
    → value < 2 ^ 16
    → (bs : List ℕ) × (write_uint16 out value ≡ out ++ bs)
      × (length bs ≡ 2)
      × (read_uint16 (at out (bs ++ rest) n) ≡ returned value (at (out ++ bs) rest n))
read_uint16-write_uint16 out value rest n h =
    (bytes_of 2 value, write_uint16_lem out value, refl, read_uint16_lem value h out rest n)

-- The reader at an offset, on the two bytes of a number.
pub read_uint16_at-write_uint16 :
    (value : ℕ)
    → value < 2 ^ 16
    → (a : ℕ) × (b : ℕ) × (write_uint16 [] value ≡ a ∷ b ∷ [])
      × ((rest : List ℕ) → read_uint16_at (a ∷ b ∷ rest) 0 ≡ some value)
unfolding write_uint16 read_uint16_at
read_uint16_at-write_uint16 value h = (
  value % 256,
  value / 256 % 256,
  rw (low_byte value, low_byte (value / 2 ^ 8)) refl,
  λ rest. ap some (joined16 value h),
)

pub read_uint16-Reads : (v : ℕ) → v < 2 ^ 16 → Reads read_uint16 v (bytes_of 2 v)
read_uint16-Reads v h before rest n _ = read_uint16_lem v h before rest n

pub read_uint32-Reads : (v : ℕ) → v < 2 ^ 32 → Reads read_uint32 v (bytes_of 4 v)
read_uint32-Reads v h before rest n _ = read_uint32_lem v h before rest n

pub read_uint64-Reads : (v : ℕ) → v < 2 ^ 64 → Reads read_uint64 v (bytes_of 8 v)
read_uint64-Reads v h before rest n _ = read_uint64_lem v h before rest n
