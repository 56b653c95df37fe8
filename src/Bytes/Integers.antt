-- ===== src/Bytes/Integers.antt =====
-- The little-endian integers that lib/utils/byte_parser.cpp writes and reads.
use native.Mathlib.Nat.{pow-le-pow_right, mul-le-mul_right, mod-eq_of_lt, div-div-eq-div-mul}
use native.Mathlib.Numerals.{towards_suc}
use enigma_db.Base.{
  ℕ, zero, suc, ◌+◌, ◌*◌, ◌/◌, ◌%◌, ◌^◌, ◌≤◌, ◌<◌, ◌≡◌, refl, ◌∙◌, sym, ap, bit_and, bit_or, some,
  List, [], ◌∷◌, ◌++◌, arith, length, All, get_elem?-drop, drop, append_assoc, append-nil,
}
use enigma_db.Base.Bits.{bit_and-mask, bit_or-shifted}
use enigma_db.Bytes.{write_loop, read_loop}

abbrev pub IsByte : ℕ → Type 0
IsByte b = b < 256

-- The lowest `n` bytes of a number, the least significant one first.
abbrev pub bytes_of : ℕ → ℕ → List ℕ
bytes_of zero v = []
bytes_of (suc n) v = v % 256 ∷ bytes_of n (v / 256)

-- The number that the bytes stand for.
abbrev pub value_of : List ℕ → ℕ
value_of [] = 0
value_of (b ∷ bs) = b + 256 * value_of bs

pub length-bytes_of : (n v : ℕ) → length (bytes_of n v) ≡ n
length-bytes_of zero v = refl
length-bytes_of (suc n) v = ap suc (length-bytes_of n (v / 256))

pub bytes_of-IsByte : (n v : ℕ) → All IsByte (bytes_of n v)
bytes_of-IsByte zero v = tt
bytes_of-IsByte (suc n) v = (omega arith, bytes_of-IsByte n (v / 256))

abbrev pub pow256 : ℕ → ℕ
pow256 zero = 1
pow256 (suc n) = 256 * pow256 n

pub value_of-bytes_of : (n v : ℕ) → v < pow256 n → value_of (bytes_of n v) ≡ v
value_of-bytes_of zero v h = omega arith
value_of-bytes_of (suc n) v h = omega (arith, value_of-bytes_of n (v / 256) (omega arith))

pub low_byte : (v : ℕ) → bit_and v 0xff ≡ v % 256
low_byte v = bit_and-mask 8 v

shift_eight : (s : ℕ) → 2 ^ (s + 8) ≡ 256 * 2 ^ s
shift_eight s = simp towards_suc (omega arith)

pub next_power : (i : ℕ) → 2 ^ ((i + 1) * 8) ≡ 256 * 2 ^ (i * 8)
next_power i = ap (λ s. 2 ^ s) (omega arith) ∙ shift_eight (i * 8)

-- `result |= (uintN_t)b << (i * 8)` adds the byte, as long as it fits.
add_byte :
    (i w r b : ℕ)
    → (i + 1) * 8 ≤ w
    → b < 256
    → r < 2 ^ (i * 8)
    → (bit_or r (b * 2 ^ (i * 8) % 2 ^ w) ≡ r + b * 2 ^ (i * 8))
      × (r + b * 2 ^ (i * 8) < 2 ^ ((i + 1) * 8))
add_byte i w r b hw hb hr =
    let room : 2 ^ ((i + 1) * 8) ≤ 2 ^ w = pow-le-pow_right (omega arith) hw in
    let below : b * 2 ^ (i * 8) ≤ 255 * 2 ^ (i * 8) =
      mul-le-mul_right (2 ^ (i * 8)) (omega arith) in
    let fits : b * 2 ^ (i * 8) < 2 ^ w = omega (arith, next_power i) in
    (ap (bit_or r) (mod-eq_of_lt fits) ∙ bit_or-shifted (i * 8) r b hr, omega (arith, next_power i))

regroup :
    (i r b v : ℕ) → r + b * 2 ^ (i * 8) + v * 2 ^ ((i + 1) * 8) ≡ r + (b + 256 * v) * 2 ^ (i * 8)
regroup i r b v = omega (arith, ap (λ (t : ℕ). v * t) (next_power i))

-- What the reading loop makes of the bytes in front of it.
pub read_loop_lem :
    (n i w : ℕ) (bytes : List ℕ) (cursor result : ℕ) (bs rest : List ℕ)
    → length bs ≡ n
    → All IsByte bs
    → drop (cursor + i) bytes ≡ bs ++ rest
    → result < 2 ^ (i * 8)
    → (i + n) * 8 ≤ w
    → read_loop n i w bytes cursor result ≡ some (result + value_of bs * 2 ^ (i * 8))
unfolding read_loop
read_loop_lem zero i w bytes cursor result [] rest hl hb hd hr hw = ap some (omega arith)
read_loop_lem zero i w bytes cursor result (b ∷ bs) rest hl hb hd hr hw = absurd (omega arith)
read_loop_lem (suc n) i w bytes cursor result [] rest hl hb hd hr hw = absurd (omega arith)
read_loop_lem (suc n) i w bytes cursor result (b ∷ bs) rest hl (hb, hbs) hd hr hw =
    let (found, behind) = get_elem?-drop bytes (cursor + i) b (bs ++ rest) hd in
    let (adds, bound) = add_byte i w result b (omega arith) hb hr in
    let next_index : cursor + (i + 1) ≡ suc (cursor + i) = omega arith in
    let here : drop (cursor + (i + 1)) bytes ≡ bs ++ rest =
      ap (λ k. drop k bytes) next_index ∙ behind in
    let more =
      read_loop_lem n (i + 1) w bytes cursor (result + b * 2 ^ (i * 8)) bs rest (omega arith) hbs
        here bound (omega arith) in
    rw (found, read_loop) (rw (adds, read_loop) (more ∙ ap some (regroup i result b (value_of bs))))

next_shift : (i : ℕ) → 2 ^ (8 * i) * 256 ≡ 2 ^ (8 * (i + 1))
next_shift i = sym (ap (λ s. 2 ^ s) (omega arith) ∙ shift_eight (8 * i) ∙ omega arith)

-- What the writing loop appends.
pub write_loop_lem :
    (n i : ℕ) (out : List ℕ) (v : ℕ) → write_loop n i out v ≡ out ++ bytes_of n (v / 2 ^ (8 * i))
unfolding write_loop
write_loop_lem zero i out v = sym (append-nil out)
write_loop_lem (suc n) i out v =
    let higher : v / 2 ^ (8 * i) / 256 ≡ v / 2 ^ (8 * (i + 1)) =
      div-div-eq-div-mul v (2 ^ (8 * i)) 256 ∙ ap (λ t. v / t) (next_shift i) in
    rw (low_byte (v / 2 ^ (8 * i)), higher)
      (write_loop_lem n (i + 1) (out ++ (v / 2 ^ (8 * i) % 256 ∷ [])) v
        ∙ append_assoc out (v / 2 ^ (8 * i) % 256 ∷ []) (bytes_of n (v / 2 ^ (8 * (i + 1)))))
