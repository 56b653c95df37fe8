-- ===== src/Vint/RoundTrip.antt =====
-- `putVarint32`, `putVarint64` and the getters of lib/utils/vint/vint.hpp together.
use enigma_db.Base.{
  ℕ, ◌^◌, ◌≤◌, ◌<◌, ◌≡◌, some, List, [], ◌∷◌, ◌++◌, arith, length, All, ap, ◌∙◌, ◌⊎◌, append_assoc,
}
use enigma_db.Vint.{ok, put_varint32, put_varint64, get_varint32, get_varint64}
use enigma_db.Vint.Groups.{IsContinuation, groups_value}
use enigma_db.Vint.Get.{get_varint32_terminated, get_varint64_terminated}
use enigma_db.Vint.Put.{
  leading, final, final-lt, leading-IsContinuation, length-leading, value-leading, leading_minimal,
  put_varint32_lem, put_varint64_lem,
}

-- `putVarint32` keeps the vector and appends one number: continuation bytes and a last byte, whose
-- groups of seven bits are the value, at most 5 bytes, and no longer than the value needs.
pub put_varint32_shortest :
    (out : List ℕ) (v : ℕ)
    → v < 2 ^ 32
    → (fs : List ℕ) × (b : ℕ) × (put_varint32 out v ≡ some (out ++ (fs ++ (b ∷ []))))
      × All IsContinuation fs
      × (b < 128)
      × (length fs < 5)
      × (groups_value (fs ++ (b ∷ [])) ≡ v)
      × ((fs ≡ []) ⊎ (128 ^ length fs ≤ v))
put_varint32_shortest out v h = (
  leading 4 v,
  final 4 v,
  put_varint32_lem out v h,
  leading-IsContinuation 4 v,
  final-lt 4 v (omega arith),
  omega (arith, length-leading 4 v),
  value-leading 4 v (omega arith),
  leading_minimal 4 v,
)

-- `putVarint64` keeps the vector and appends one number: continuation bytes and a last byte, whose
-- groups of seven bits are the value, at most 10 bytes, and no longer than the value needs.
pub put_varint64_shortest :
    (out : List ℕ) (v : ℕ)
    → v < 2 ^ 64
    → (fs : List ℕ) × (b : ℕ) × (put_varint64 out v ≡ some (out ++ (fs ++ (b ∷ []))))
      × All IsContinuation fs
      × (b < 128)
      × (length fs < 10)
      × (groups_value (fs ++ (b ∷ [])) ≡ v)
      × ((fs ≡ []) ⊎ (128 ^ length fs ≤ v))
put_varint64_shortest out v h = (
  leading 9 v,
  final 9 v,
  put_varint64_lem out v h,
  leading-IsContinuation 9 v,
  final-lt 9 v (omega arith),
  omega (arith, length-leading 9 v),
  value-leading 9 v (omega arith),
  leading_minimal 9 v,
)

-- What `putVarint32` appends to any vector, `getVarint32` reads back in front of any bytes: the
-- status is OK, the pointer stands behind the number, and `out` is the value.
pub get-put32 :
    (out : List ℕ) (v : ℕ) (rest : List ℕ) (old : ℕ)
    → v < 2 ^ 32
    → (bytes : List ℕ) × (put_varint32 out v ≡ some (out ++ bytes))
      × (get_varint32 (bytes ++ rest) old ≡ (ok, some rest, v))
get-put32 out v rest old h =
    let put = put_varint32_shortest out v h in
    (
      put.0 ++ (put.1 ∷ []),
      put.2,
      rw (append_assoc put.0 (put.1 ∷ []) rest) (
          get_varint32_terminated put.0 put.1 rest old put.3 put.4 put.5
          ∙ ap (λ (t : ℕ). (ok, some rest, t)) (rw put.6 (omega arith))),
    )

-- What `putVarint64` appends to any vector, `getVarint64` reads back in front of any bytes: the
-- status is OK, the pointer stands behind the number, and `out` is the value.
pub get-put64 :
    (out : List ℕ) (v : ℕ) (rest : List ℕ) (old : ℕ)
    → v < 2 ^ 64
    → (bytes : List ℕ) × (put_varint64 out v ≡ some (out ++ bytes))
      × (get_varint64 (bytes ++ rest) old ≡ (ok, some rest, v))
get-put64 out v rest old h =
    let put = put_varint64_shortest out v h in
    (
      put.0 ++ (put.1 ∷ []),
      put.2,
      rw (append_assoc put.0 (put.1 ∷ []) rest) (
          get_varint64_terminated put.0 put.1 rest old put.3 put.4 put.5 ∙ rw put.6 (ground arith)),
    )
