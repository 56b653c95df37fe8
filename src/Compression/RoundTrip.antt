-- ===== src/Compression/RoundTrip.antt =====
-- Both compressors of lib/compression give back what they were given.
use enigma_db.Base.{
  ℕ, zero, suc, ◌+◌, ◌-◌, ◌^◌, ◌<◌, ◌≤◌, ◌≡◌, refl, ◌∙◌, sym, ap, ◌==◌, ltb, true, false, List, [],
  ◌∷◌, ◌++◌, arith, take, drop, replicate, length, length-append, take-append, append_assoc,
  append-nil,
}
use enigma_db.Bytes.Integers.{bytes_of, value_of, value_of-bytes_of}
use enigma_db.Field.{given}
use enigma_db.Compression.{
  Compressor, resize, overwrite, copy, noop_compressor, is_not_positive, compress_block,
  lz4_compress, decompress_block, lz4_decompress, lz4_compressor,
}

-- The compressed bytes and, whatever the caller's vectors hold, the way there and back.
abbrev pub GivesBack : Compressor → List ℕ → Type 0
GivesBack c bytes =
    (out : List ℕ)
    → (packed : List ℕ) × (c.compress bytes out ≡ given packed)
      × ((out' : List ℕ) → c.decompress packed out' ≡ given bytes)

length_replicate : (n a : ℕ) → length (replicate n a) ≡ n
length_replicate zero a = refl
length_replicate (suc n) a = ap suc (length_replicate n a)

take_missing : (n : ℕ) (xs : List ℕ) → length (take n xs) + (n - length xs) ≡ n
take_missing zero xs = omega arith
take_missing (suc n) [] = omega arith
take_missing (suc n) (x ∷ xs) = omega (arith, take_missing n xs)

length-resize : (n : ℕ) (out : List ℕ) → length (resize n out) ≡ n
length-resize n out = omega (
  arith,
  length-append (take n out) (replicate (n - length out) 0),
  length_replicate (n - length out) 0,
  take_missing n out,
)

drop_all : (n : ℕ) (xs : List ℕ) → length xs ≤ n → drop n xs ≡ []
drop_all zero [] h = refl
drop_all zero (x ∷ xs) h = absurd (omega arith)
drop_all (suc n) [] h = refl
drop_all (suc n) (x ∷ xs) h = drop_all n xs (omega arith)

-- A vector of the right size is overwritten as a whole.
overwritten : (bytes out : List ℕ) → overwrite bytes (resize (length bytes) out) ≡ bytes
overwritten bytes out =
    ap (λ t. bytes ++ t)
      (drop_all (length bytes) (resize (length bytes) out)
        (omega (arith, length-resize (length bytes) out)))
    ∙ append-nil bytes

-- A vector is cut behind its first bytes.
resize-append : (n : ℕ) (xs ys : List ℕ) → length xs ≡ n → resize n (xs ++ ys) ≡ xs
resize-append n xs ys e =
    let none_missing : length xs - length (xs ++ ys) ≡ 0 = omega (arith, length-append xs ys) in
    rw (← e, take-append xs ys, none_missing) (append-nil xs)

noop-GivesBack : (bytes : List ℕ) → GivesBack noop_compressor bytes
unfolding noop_compressor copy
noop-GivesBack bytes out =
    (bytes, ap given (overwritten bytes out), λ out'. ap given (overwritten bytes out'))

-- What the documentation of LZ4 promises of its functions, for the sources that it supports: with a
-- destination of the size that it asks for, the compression succeeds and can be undone.
pub record IsLz4 (compress_bound : ℕ → ℕ) (compress_default : List ℕ → ℕ → ℕ × List ℕ)
    (decompress_safe : List ℕ → ℕ → ℕ × List ℕ) (bytes : List ℕ) : Type 0 where
  pub supported : length bytes ≤ 0x7e000000
  pub written : List ℕ
  pub some_written : 0 < length written
  pub fits : length written ≤ compress_bound (length bytes)
  pub bounded : compress_bound (length bytes) < 2 ^ 31
  pub compresses :
      compress_default bytes (compress_bound (length bytes)) ≡ (length written, written)
  pub decompresses : decompress_safe written (length bytes) ≡ (length bytes, bytes)

module _ (compress_bound : ℕ → ℕ) (compress_default : List ℕ → ℕ → ℕ × List ℕ)
    (decompress_safe : List ℕ → ℕ → ℕ × List ℕ) (bytes : List ℕ)
    (h : IsLz4 compress_bound compress_default decompress_safe bytes) where
  compress_block_lem :
      (out : List ℕ)
      → compress_block compress_bound compress_default decompress_safe bytes out
        ≡ given (bytes_of 4 (length bytes) ++ h.written)
  unfolding compress_block
  compress_block_lem out =
      let header = bytes_of 4 (length bytes) in
      let rest = drop 4 (resize (compress_bound (length bytes) + 4) out) in
      let positive : is_not_positive (length h.written) ≡ false =
        ground (arith, h.some_written, h.fits, h.bounded) in
      rw (h.compresses, positive)
        (ap (λ t. given (resize (length h.written + 4) t))
            (sym (append_assoc header h.written (drop (length h.written) rest)))
          ∙ ap given (
              resize-append (length h.written + 4) (header ++ h.written)
                (drop (length h.written) rest) (omega (arith, length-append header h.written))))

  lz4_compress_lem :
      (out : List ℕ)
      → lz4_compress compress_bound compress_default decompress_safe bytes out
        ≡ given (bytes_of 4 (length bytes) ++ h.written)
  unfolding lz4_compress
  lz4_compress_lem out =
      let small : ltb 4294967295 (length bytes) ≡ false = ground (arith, h.supported) in
      rw small (compress_block_lem out)

  decompress_block_lem :
      (out : List ℕ)
      → decompress_block compress_bound compress_default decompress_safe
          (length bytes)
          h.written
          out
        ≡ given bytes
  unfolding decompress_block
  decompress_block_lem out =
      let same : (length bytes == length bytes) ≡ true = ground arith in
      rw (h.decompresses, same) (ap given (overwritten bytes out))

  lz4_decompress_lem :
      (out : List ℕ)
      → lz4_decompress compress_bound compress_default decompress_safe
          (bytes_of 4 (length bytes) ++ h.written)
          out
        ≡ given bytes
  unfolding lz4_decompress
  lz4_decompress_lem out =
      let long : ltb (length (bytes_of 4 (length bytes) ++ h.written)) 4 ≡ false = ground arith in
      let number : value_of (bytes_of 4 (length bytes)) ≡ length bytes =
        value_of-bytes_of 4 (length bytes) (omega (arith, h.supported)) in
      rw (long, number) (decompress_block_lem out)

-- Both compressors give back every sequence of bytes from what they make of it, whatever the vectors
-- hold that the caller passes: the one that copies always, and the one that calls LZ4 for a sequence
-- on which LZ4 keeps its promises.
pub compressors_give_back :
    (compress_bound : ℕ → ℕ) (compress_default : List ℕ → ℕ → ℕ × List ℕ)
    (decompress_safe : List ℕ → ℕ → ℕ × List ℕ) (bytes : List ℕ)
    → IsLz4 compress_bound compress_default decompress_safe bytes
    → GivesBack noop_compressor bytes
      × GivesBack (lz4_compressor compress_bound compress_default decompress_safe) bytes
unfolding lz4_compressor
compressors_give_back bound compress decompress bytes h = (
  noop-GivesBack bytes,
  λ out. (
    bytes_of 4 (length bytes) ++ h.written,
    lz4_compress_lem bound compress decompress bytes h out,
    lz4_decompress_lem bound compress decompress bytes h,
  ),
)
