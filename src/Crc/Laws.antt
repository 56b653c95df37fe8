-- ===== src/Crc/Laws.antt =====
-- Both overloads of `computeCRC32` in lib/utils/crypto_utils.cpp against CRC-32C.
use enigma_db.Base.{
  ℕ, suc, ◌+◌, ◌-◌, ◌%◌, ◌^◌, ◌<◌, ◌≡◌, refl, ◌∙◌, ap, ◌==◌, Option, none, some, List, [], ◌∷◌,
  ◌++◌, arith, get_elem?-drop, drop, drop-append, foldl, length, length-append, All, ◌⊎◌, inl, inr,
  if◌then◌else◌,
}
use enigma_db.Crc.{crc_round, crc_loop, complement32, compute_crc32, compute_crc32_vector}
use enigma_db.Crc.Bitwise.{shift_byte, crc32c, crc_round-shift_byte}

-- The loop over the bytes that stand from an index on.
crc_loop_lem :
    (bs : List ℕ) (i : ℕ) (bytes rest : List ℕ) (crc : ℕ)
    → All (λ b. b < 256) bs
    → drop i bytes ≡ bs ++ rest
    → crc_loop (length bs) i bytes crc ≡ some (foldl shift_byte crc bs)
unfolding crc_loop
crc_loop_lem [] i bytes rest crc hb hd = refl
crc_loop_lem (b ∷ bs) i bytes rest crc (hb, hbs) hd =
    let (found, behind) = get_elem?-drop bytes i b (bs ++ rest) hd in
    let next_index : i + 1 ≡ suc i = omega arith in
    let here : drop (i + 1) bytes ≡ bs ++ rest = ap (λ k. drop k bytes) next_index ∙ behind in
    ap
      (λ (t : Option ℕ). elim t [
        | none ↦ none
        | some byte ↦ elim (crc_round crc byte) [
          | none ↦ none
          | some crc' ↦ crc_loop (length bs) (i + 1) bytes crc'
        ]
      ])
      found
    ∙ ap
        (λ (t : Option ℕ). elim t [
          | none ↦ none
          | some crc' ↦ crc_loop (length bs) (i + 1) bytes crc'
        ])
        (crc_round-shift_byte crc b hb)
    ∙ crc_loop_lem bs (i + 1) bytes rest (shift_byte crc b) hbs here

-- On a range inside the bytes the overload on a pointer returns the CRC-32C of the range.
pub compute_crc32-crc32c :
    (before bs rest : List ℕ)
    → All (λ b. b < 256) bs
    → compute_crc32 (before ++ (bs ++ rest)) (length before) (length bs) ≡ some (crc32c bs)
unfolding compute_crc32
compute_crc32-crc32c before bs rest h = ap complement32 (
    crc_loop_lem bs (length before) (before ++ (bs ++ rest)) rest 0xffffffff h
      (drop-append before (bs ++ rest)))

pub rounds_lem :
    (offset n behind total size : ℕ)
    → total ≡ offset + n + behind
    → total < 2 ^ 64
    → ((0 < size) × (size ≡ n)) ⊎ ((size ≡ 0) × (behind ≡ 0))
    → (offset + (if size == 0 then (total + 2 ^ 64 - offset) % 2 ^ 64 else size)) % 2 ^ 64 - offset
      ≡ n
rounds_lem offset n behind total size e fits (inl (up, same)) = ground arith
rounds_lem offset n behind total size e fits (inr (zero_size, last)) = ground arith

-- The overload on a vector returns the CRC-32C of a range inside the vector, and of everything from
-- the offset on where the size is 0.
pub compute_crc32_vector-crc32c :
    (before bs rest : List ℕ)
    → All (λ b. b < 256) bs
    → length (before ++ (bs ++ rest)) < 2 ^ 64
    → (size : ℕ) → ((0 < size) × (size ≡ length bs)) ⊎ ((size ≡ 0) × (rest ≡ []))
    → compute_crc32_vector (before ++ (bs ++ rest)) (length before) size ≡ some (crc32c bs)
unfolding compute_crc32_vector
compute_crc32_vector-crc32c before bs rest h fits size range =
    let total : length (before ++ (bs ++ rest)) ≡ length before + length bs + length rest =
      omega (arith, length-append before (bs ++ rest), length-append bs rest) in
    ap (λ n. complement32 (crc_loop n (length before) (before ++ (bs ++ rest)) 0xffffffff))
      (rounds_lem (length before) (length bs) (length rest) (length (before ++ (bs ++ rest))) size
        total fits (measured range))
    ∙ ap complement32 (
        crc_loop_lem bs (length before) (before ++ (bs ++ rest)) rest 0xffffffff h
          (drop-append before (bs ++ rest)))
  where
    measured :
        ((0 < size) × (size ≡ length bs)) ⊎ ((size ≡ 0) × (rest ≡ []))
        → ((0 < size) × (size ≡ length bs)) ⊎ ((size ≡ 0) × (length rest ≡ 0))
    measured (inl r) = inl r
    measured (inr (z, e)) = inr (z, ap length e)
