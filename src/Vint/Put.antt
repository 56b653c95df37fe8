-- ===== src/Vint/Put.antt =====
-- What `putVarint32` and `putVarint64` of lib/utils/vint/vint.hpp append.
use enigma_db.Base.{
  ℕ, zero, suc, ◌+◌, ◌/◌, ◌%◌, ◌^◌, ◌≤◌, ◌<◌, bit_and, ◌≡◌, refl, some, List, [], ◌∷◌, ◌++◌, arith,
  ltb, if◌then◌else◌, length, All, ap, ◌∙◌, get_elem?, set, append_assoc, length-append,
}
use enigma_db.Base.{◌⊎◌, inl}
use native.Mathlib.Nat.{pow-suc}
use enigma_db.Vint.{put_loop, clear_flag, put_varint32, put_varint64}
use enigma_db.Vint.Groups.{IsContinuation, groups_value, flagged, low_group}

-- The bytes before the last one for a number below `128 ^ (k + 1)`, and the last byte.
abbrev pub leading : ℕ → ℕ → List ℕ
leading zero v = []
leading (suc k) v =
    let more = leading k (v / 128) in if ltb v 128 then [] else (v % 128 + 128) ∷ more

abbrev pub final : ℕ → ℕ → ℕ
final zero v = v
final (suc k) v = let more = final k (v / 128) in if ltb v 128 then v else more

stop_round :
    (n i : ℕ) (out : List ℕ) (v : ℕ)
    → v < 128
    → put_loop (suc n) i out v ≡ (out ++ ((v + 128) ∷ []), i)
unfolding put_loop
stop_round n i out v h = ground (arith, flagged v)

next_round :
    (n i : ℕ) (out : List ℕ) (v : ℕ)
    → 128 ≤ v
    → put_loop (suc n) i out v ≡ put_loop n (i + 1) (out ++ ((v % 128 + 128) ∷ [])) (v / 128)
unfolding put_loop
next_round n i out v h = ground (arith, flagged v)

-- The loop pushes the leading bytes and a flagged last byte, and ends at the last byte's index.
put_loop_lem :
    (k i : ℕ) (out : List ℕ) (v : ℕ)
    → v < 128 ^ suc k
    → put_loop (suc k) i out v
      ≡ (out ++ (leading k v ++ ((final k v + 128) ∷ [])), i + length (leading k v))
put_loop_lem zero i out v h = ground (arith, stop_round 0 i out v)
put_loop_lem (suc k) i out v h = ground (
  arith,
  stop_round (suc k) i out v,
  next_round (suc k) i out v,
  put_loop_lem k (i + 1) (out ++ ((v % 128 + 128) ∷ [])) (v / 128) (omega arith),
  append_assoc out ((v % 128 + 128) ∷ []) (leading k (v / 128) ++ ((final k (v / 128) + 128) ∷ [])),
)

pub final-lt : (k v : ℕ) → v < 128 ^ suc k → final k v < 128
final-lt zero v h = omega arith
final-lt (suc k) v h = ground (arith, final-lt k (v / 128) (omega arith))

pub leading-IsContinuation : (k v : ℕ) → All IsContinuation (leading k v)
leading-IsContinuation zero v = tt
leading-IsContinuation (suc k) v = ground (arith, leading-IsContinuation k (v / 128))

pub length-leading : (k v : ℕ) → length (leading k v) ≤ k
length-leading zero v = omega arith
length-leading (suc k) v = ground (arith, length-leading k (v / 128))

pub value-leading : (k v : ℕ) → v < 128 ^ suc k → groups_value (leading k v ++ (final k v ∷ [])) ≡ v
value-leading zero v h = omega arith
value-leading (suc k) v h = ground (arith, value-leading k (v / 128) (omega arith))

-- The encoding has no byte to spare.
pub leading_minimal : (k v : ℕ) → (leading k v ≡ []) ⊎ (128 ^ length (leading k v) ≤ v)
leading_minimal zero v = inl refl
leading_minimal (suc k) v =
    ground (arith, pow-suc 128 (length (leading k (v / 128))), leading_minimal k (v / 128))

set_last : (xs : List ℕ) (b c : ℕ) → set (xs ++ (b ∷ [])) (length xs) c ≡ xs ++ (c ∷ [])
set_last [] b c = refl
set_last (x ∷ xs) b c = ap (λ t. x ∷ t) (set_last xs b c)

get_last : (xs : List ℕ) (b : ℕ) → get_elem? (xs ++ (b ∷ [])) (length xs) ≡ some b
get_last [] b = refl
get_last (x ∷ xs) b = get_last xs b

clear_last :
    (xs : List ℕ) (b : ℕ)
    → clear_flag (xs ++ (b ∷ [])) (length xs) ≡ some (xs ++ (bit_and b 0x7f ∷ []))
unfolding clear_flag
clear_last xs b = ground (arith, get_last xs b, set_last xs b (bit_and b 0x7f))

flag_off : (b : ℕ) → b < 128 → bit_and (b + 128) 0x7f ≡ b
flag_off b h = omega (arith, low_group (b + 128))

cleared :
    (out xs : List ℕ) (b : ℕ)
    → b < 128
    → clear_flag (out ++ (xs ++ ((b + 128) ∷ []))) (length out + length xs)
      ≡ some (out ++ (xs ++ (b ∷ [])))
cleared out xs b h =
    rw
      (
        ← append_assoc out xs ((b + 128) ∷ []),
        ← append_assoc out xs (b ∷ []),
        ← length-append out xs,
      )
      (clear_last (out ++ xs) (b + 128) ∙ rw (flag_off b h))

pub put_varint32_lem :
    (out : List ℕ) (v : ℕ)
    → v < 2 ^ 32
    → put_varint32 out v ≡ some (out ++ (leading 4 v ++ (final 4 v ∷ [])))
unfolding put_varint32
put_varint32_lem out v h = ground (
  arith,
  put_loop_lem 4 0 out v,
  cleared out (leading 4 v) (final 4 v) (final-lt 4 v (omega arith)),
  length-leading 4 v,
)

pub put_varint64_lem :
    (out : List ℕ) (v : ℕ)
    → v < 2 ^ 64
    → put_varint64 out v ≡ some (out ++ (leading 9 v ++ (final 9 v ∷ [])))
unfolding put_varint64
put_varint64_lem out v h = ground (
  arith,
  put_loop_lem 9 0 out v,
  cleared out (leading 9 v) (final 9 v) (final-lt 9 v (omega arith)),
  length-leading 9 v,
)
