-- ===== src/Compression.antt =====
-- lib/compression: the interface of a compressor, the one that copies, and the one that calls LZ4.
-- A pointer and a length are the list of the bytes, `out` is the vector that the caller passes, and
-- an `int` is the number that its 32 bits make.
pub mod RoundTrip
mod Runs
use enigma_db.Base.{
  ℕ, zero, suc, ◌+◌, ◌-◌, ◌^◌, ◌==◌, ltb, leb, Bool, true, false, ◌||◌, List, [], ◌∷◌, ◌++◌, take,
  drop, replicate, length, if◌then◌else◌,
}
use enigma_db.Bytes.Integers.{bytes_of, value_of}
use enigma_db.Field.{Result, given, raised, faulted}

pub data CompressorId : Type 0 where
  noop lz4 : CompressorId

-- `Compressor`
pub record Compressor : Type 0 where
  pub id : CompressorId
  pub name : List ℕ
  pub compress : List ℕ → List ℕ → Result (List ℕ)
  pub decompress : List ℕ → List ℕ → Result (List ℕ)

-- `out.resize(n)`: what is new is zero.
abbrev pub resize : ℕ → List ℕ → List ℕ
resize n out = take n out ++ replicate (n - length out) 0

-- Bytes written over the beginning of a buffer.
abbrev pub overwrite : List ℕ → List ℕ → List ℕ
overwrite bytes buffer = bytes ++ drop (length bytes) buffer

pub copy : List ℕ → List ℕ → Result (List ℕ)
copy bytes out = given (overwrite bytes (resize (length bytes) out))

-- "noop"
pub noop_compressor : Compressor
noop_compressor = record {
  id = noop;
  name = 110 ∷ 111 ∷ 111 ∷ 112 ∷ [];
  compress = copy;
  decompress = copy;
}

-- An `int` that is zero or negative.
abbrev pub is_not_positive : ℕ → Bool
is_not_positive bits = (bits == 0) || leb (2 ^ 31) bits

-- `LZ4_compressBound`, and `LZ4_compress_default` and `LZ4_decompress_safe` with a source and the
-- capacity of the destination: what they return, and the bytes at the beginning of the destination.
module _ (compress_bound : ℕ → ℕ) (compress_default : List ℕ → ℕ → ℕ × List ℕ)
    (decompress_safe : List ℕ → ℕ → ℕ × List ℕ) where
  -- The part of `compress` behind the check of the length.
  pub compress_block : List ℕ → List ℕ → Result (List ℕ)
  compress_block bytes out =
      let max_size_possible = compress_bound (length bytes) in
      let headed = overwrite (bytes_of 4 (length bytes)) (resize (max_size_possible + 4) out) in
      let (size, written) = compress_default bytes max_size_possible in
      if is_not_positive size
      then raised
      else given (resize (size + 4) (take 4 headed ++ overwrite written (drop 4 headed)))

  pub lz4_compress : List ℕ → List ℕ → Result (List ℕ)
  lz4_compress bytes out =
      if ltb 4294967295 (length bytes) then raised else compress_block bytes out

  -- The size is compared with the one in the header as an `int`.
  pub decompress_block : ℕ → List ℕ → List ℕ → Result (List ℕ)
  decompress_block original_size bytes out =
      let (size, written) = decompress_safe bytes original_size in
      if size == original_size then given (overwrite written (resize original_size out)) else raised

  pub lz4_decompress : List ℕ → List ℕ → Result (List ℕ)
  lz4_decompress bytes out =
      if ltb (length bytes) 4
      then raised
      else decompress_block (value_of (take 4 bytes)) (drop 4 bytes) out

  -- "LZ4"
  pub lz4_compressor : Compressor
  lz4_compressor = record {
    id = lz4;
    name = 76 ∷ 90 ∷ 52 ∷ [];
    compress = lz4_compress;
    decompress = lz4_decompress;
  }
