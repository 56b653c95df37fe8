-- ===== src/Vint/Get.antt =====
-- What `getVarint32` and `getVarint64` of lib/utils/vint/vint.hpp return, on every input.
use enigma_db.Base.{
  ℕ, zero, suc, ◌+◌, ◌*◌, ◌%◌, ◌^◌, ◌≤◌, ◌<◌, bit_and, bit_or, ◌≡◌, refl, some, none, List, [], ◌∷◌,
  ◌++◌, arith, ltb, if◌then◌else◌, length, All, ap, ◌∙◌,
}
use enigma_db.Base.Bits.{bit_and-top_bit, bit_and-middle}
use enigma_db.Base.{◌⊎◌}
use native.Mathlib.Decide.{dec_lt}
use enigma_db.Vint.{
  Decoded, ok, truncated, malformed, get_loop32, get_varint32, get_loop64, get_varint64,
}
use enigma_db.Vint.Groups.{
  IsContinuation, groups_value, low_group, add_group32, add_group64, room32, room64, next_shift,
  next_power, regroup,
}

last32 :
    (n i b : ℕ) (rest : List ℕ) (r out : ℕ)
    → i < 5
    → b < 128
    → r < 2 ^ (7 * i)
    → get_loop32 (suc n) (b ∷ rest) r (7 * i) out ≡ (ok, some rest, (r + b * 2 ^ (7 * i)) % 2 ^ 32)
unfolding get_loop32
last32 n i b rest r out hi hb hr = ground (arith, low_group b, bit_and-top_bit b, add_group32 i r b)

group_room : (r g i : ℕ) → g < 128 → r < 2 ^ (7 * i) → r + g * 2 ^ (7 * i) < 2 ^ (7 * (i + 1))
group_room r g i hg hr = rw next_power (grind arith)

next32 :
    (n i b : ℕ) (rest : List ℕ) (r out : ℕ)
    → i < 4
    → IsContinuation b
    → r < 2 ^ (7 * i)
    → get_loop32 (suc n) (b ∷ rest) r (7 * i) out
      ≡ get_loop32 n rest (r + b % 128 * 2 ^ (7 * i)) (7 * (i + 1)) out
unfolding get_loop32
next32 n i b rest r out hi hb hr = ground (
  arith,
  low_group b,
  bit_and-top_bit b,
  add_group32 i r (b % 128),
  group_room r (b % 128) i,
  next_power i,
  room32 i,
  next_shift i,
)

loop32_terminated :
    (fs : List ℕ) (n i b : ℕ) (rest : List ℕ) (r out : ℕ)
    → All IsContinuation fs
    → b < 128
    → length fs < n
    → i + n ≡ 5
    → r < 2 ^ (7 * i)
    → get_loop32 n (fs ++ (b ∷ rest)) r (7 * i) out
      ≡ (ok, some rest, (r + groups_value (fs ++ (b ∷ [])) * 2 ^ (7 * i)) % 2 ^ 32)
loop32_terminated fs zero i b rest r out hf hb hn hi hr = absurd (omega arith)
loop32_terminated [] (suc n) i b rest r out hf hb hn hi hr = ground (arith, last32 n i b rest r out)
loop32_terminated (f ∷ fs) (suc n) i b rest r out hf hb hn hi hr =
    next32 n i f (fs ++ (b ∷ rest)) r out (omega arith) hf.0 hr
    ∙ loop32_terminated fs n (i + 1) b rest (r + f % 128 * 2 ^ (7 * i)) out hf.1 hb (omega arith)
        (omega arith) (group_room r (f % 128) i (omega arith) hr)
    ∙ ap (λ (t : ℕ). (ok, some rest, t % 2 ^ 32)) (regroup r i f (fs ++ (b ∷ [])))

-- `getVarint32` reads a number of at most 5 bytes, the last one without the flag and the others with
-- it, leaves what follows, and says OK also where the number does not fit 32 bits: it gives the rest
-- of it by 2 ^ 32 then.
pub get_varint32_terminated :
    (fs : List ℕ) (b : ℕ) (rest : List ℕ) (out : ℕ)
    → All IsContinuation fs
    → b < 128
    → length fs < 5
    → get_varint32 (fs ++ (b ∷ rest)) out ≡ (ok, some rest, groups_value (fs ++ (b ∷ [])) % 2 ^ 32)
unfolding get_varint32
get_varint32_terminated fs b rest out hf hb hn =
    loop32_terminated fs 5 0 b rest 0 out hf hb hn refl (omega arith)
    ∙ ap (λ (t : ℕ). (ok, some rest, t % 2 ^ 32)) (omega arith)

loop32_unterminated :
    (fs more : List ℕ) (n r shift out : ℕ)
    → All IsContinuation fs
    → (more ≡ []) ⊎ (n ≤ length fs)
    → get_loop32 n (fs ++ more) r shift out
      ≡ ((if ltb (length fs) n then truncated else malformed), none, out)
unfolding get_loop32
loop32_unterminated fs more zero r shift out h m = ground arith
loop32_unterminated [] [] (suc n) r shift out h m = ground arith
loop32_unterminated [] (x ∷ more) (suc n) r shift out h m = ground arith
loop32_unterminated (f ∷ fs) more (suc n) r shift out h m =
    let r' = bit_or r (bit_and f 0x7f * 2 ^ shift % 2 ^ 32) in
    ground (arith, bit_and-top_bit f, loop32_unterminated fs more n r' (shift + 7) out)

-- Where no byte ends the number: 5 continuation bytes are malformed, whatever follows them, and
-- fewer with nothing behind them are truncated. The pointer is null and `out` is unchanged.
pub get_varint32_unterminated :
    (fs more : List ℕ) (out : ℕ)
    → All IsContinuation fs
    → (more ≡ []) ⊎ (5 ≤ length fs)
    → get_varint32 (fs ++ more) out
      ≡ ((if ltb (length fs) 5 then truncated else malformed), none, out)
unfolding get_varint32
get_varint32_unterminated fs more out h m = loop32_unterminated fs more 5 0 0 out h m

last64 :
    (n i b : ℕ) (rest : List ℕ) (r out : ℕ)
    → i < 9
    → b < 128
    → r < 2 ^ (7 * i)
    → get_loop64 (suc n) i (b ∷ rest) r (7 * i) out ≡ (ok, some rest, r + b * 2 ^ (7 * i))
unfolding get_loop64
last64 n i b rest r out hi hb hr = ground (
  arith,
  low_group b,
  bit_and-top_bit b,
  add_group64 i r b,
  group_room r b i,
  next_power i,
  room64 i,
)

-- In the tenth round one bit of the byte is left.
tenth64 :
    (n b : ℕ) (rest : List ℕ) (r out : ℕ)
    → b < 128
    → r < 2 ^ 63
    → get_loop64 (suc n) 9 (b ∷ rest) r 63 out
      ≡ (if ltb b 2 then (ok, some rest, r + b * 2 ^ 63) else (malformed, none, out))
unfolding get_loop64
tenth64 n b rest r out hb hr =
    ground (arith, low_group b, bit_and-top_bit b, bit_and-middle b, add_group64 9 r b)

next64 :
    (n i b : ℕ) (rest : List ℕ) (r out : ℕ)
    → i < 9
    → IsContinuation b
    → r < 2 ^ (7 * i)
    → get_loop64 (suc n) i (b ∷ rest) r (7 * i) out
      ≡ get_loop64 n (i + 1) rest (r + b % 128 * 2 ^ (7 * i)) (7 * (i + 1)) out
unfolding get_loop64
next64 n i b rest r out hi hb hr = ground (
  arith,
  low_group b,
  bit_and-top_bit b,
  add_group64 i r (b % 128),
  group_room r (b % 128) i,
  next_power i,
  room64 i,
  next_shift i,
)

-- The result of a read that has found the number `v`.
abbrev checked64 : ℕ → List ℕ → ℕ → Decoded
checked64 v rest out = if ltb v (2 ^ 64) then (ok, some rest, v) else (malformed, none, out)

final64 :
    (n i b : ℕ) (rest : List ℕ) (r out : ℕ)
    → i < 10
    → b < 128
    → r < 2 ^ (7 * i)
    → get_loop64 (suc n) i (b ∷ rest) r (7 * i) out ≡ checked64 (r + b * 2 ^ (7 * i)) rest out
final64 n i b rest r out hi hb hr = elim (dec_lt i 9) [
  | yes h ↦ ground (arith, last64 n i b rest r out, group_room r b i, next_power i, room64 i)
  | no h ↦
      let e : i ≡ 9 = omega arith in
      let hr' : r < 2 ^ 63 = rw e at hr in rw e (ground (arith, tenth64 n b rest r out))
]

loop64_terminated :
    (fs : List ℕ) (n i b : ℕ) (rest : List ℕ) (r out : ℕ)
    → All IsContinuation fs
    → b < 128
    → length fs < n
    → i + n ≡ 10
    → r < 2 ^ (7 * i)
    → get_loop64 n i (fs ++ (b ∷ rest)) r (7 * i) out
      ≡ checked64 (r + groups_value (fs ++ (b ∷ [])) * 2 ^ (7 * i)) rest out
loop64_terminated fs zero i b rest r out hf hb hn hi hr = absurd (omega arith)
loop64_terminated [] (suc n) i b rest r out hf hb hn hi hr =
    final64 n i b rest r out (omega arith) hb hr
    ∙ ap (λ (t : ℕ). checked64 (r + t * 2 ^ (7 * i)) rest out) (omega arith)
loop64_terminated (f ∷ fs) (suc n) i b rest r out hf hb hn hi hr =
    next64 n i f (fs ++ (b ∷ rest)) r out (omega arith) hf.0 hr
    ∙ loop64_terminated fs n (i + 1) b rest (r + f % 128 * 2 ^ (7 * i)) out hf.1 hb (omega arith)
        (omega arith) (group_room r (f % 128) i (omega arith) hr)
    ∙ ap (λ (t : ℕ). checked64 t rest out) (regroup r i f (fs ++ (b ∷ [])))

-- `getVarint64` reads a number of at most 10 bytes, the last one without the flag and the others with
-- it, exactly if it fits 64 bits, and calls it malformed otherwise.
pub get_varint64_terminated :
    (fs : List ℕ) (b : ℕ) (rest : List ℕ) (out : ℕ)
    → All IsContinuation fs
    → b < 128
    → length fs < 10
    → get_varint64 (fs ++ (b ∷ rest)) out ≡ (
        if ltb (groups_value (fs ++ (b ∷ []))) (2 ^ 64)
        then (ok, some rest, groups_value (fs ++ (b ∷ [])))
        else (malformed, none, out))
unfolding get_varint64
get_varint64_terminated fs b rest out hf hb hn =
    loop64_terminated fs 10 0 b rest 0 out hf hb hn refl (omega arith)
    ∙ ap (λ (t : ℕ). checked64 t rest out) (omega arith)

loop64_unterminated :
    (fs more : List ℕ) (n i r shift out : ℕ)
    → All IsContinuation fs
    → (more ≡ []) ⊎ (n ≤ length fs)
    → get_loop64 n i (fs ++ more) r shift out
      ≡ ((if ltb (length fs) n then truncated else malformed), none, out)
unfolding get_loop64
loop64_unterminated fs more zero i r shift out h m = ground arith
loop64_unterminated [] [] (suc n) i r shift out h m = ground arith
loop64_unterminated [] (x ∷ more) (suc n) i r shift out h m = ground arith
loop64_unterminated (f ∷ fs) more (suc n) i r shift out h m =
    let r' = bit_or r (bit_and f 0x7f * 2 ^ shift % 2 ^ 64) in
    ground (arith, bit_and-top_bit f, loop64_unterminated fs more n (i + 1) r' (shift + 7) out)

-- Where no byte ends the number: 10 continuation bytes are malformed, whatever follows them, and
-- fewer with nothing behind them are truncated. The pointer is null and `out` is unchanged.
pub get_varint64_unterminated :
    (fs more : List ℕ) (out : ℕ)
    → All IsContinuation fs
    → (more ≡ []) ⊎ (10 ≤ length fs)
    → get_varint64 (fs ++ more) out
      ≡ ((if ltb (length fs) 10 then truncated else malformed), none, out)
unfolding get_varint64
get_varint64_unterminated fs more out h m = loop64_unterminated fs more 10 0 0 0 out h m
