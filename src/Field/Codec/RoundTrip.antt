-- ===== src/Field/Codec/RoundTrip.antt =====
-- A field of lib/datatypes/field.cpp is read back from its bytes.
use enigma_db.Base.{
  ap, ℕ, zero, suc, ◌-◌, ◌≤◌, ◌≡◌, refl, ap, false, none, some, List, [], ◌∷◌, ◌++◌, ltb, arith,
  length, ◌⊎◌, inl, inr,
}
use mathlib.Core.Path.{subst}
use native.Mathlib.Decide.{dec_lt}
use enigma_db.Field.{
  given, raised, FieldType, int32, int64, double, string, bool, uuid, binary, timestamp, null_type,
  custom, FieldValue, monostate, int32_value, int64_value, double_value, time_point, string_value,
  binary_value, uuid_value, bool_value, Descriptor, registry_get,
}
use enigma_db.Field.Codec.{
  types_from, type_byte, type_of_byte, value_type, make_field, get_descriptor, serialize,
  deserialize, value_matches_type,
}
use enigma_db.Field.Codec.Serialized.{IsValue, value_size, field_of, value_lem}

type_of_byte-type_byte : (t : FieldType) → type_of_byte (type_byte t) ≡ some t
type_of_byte-type_byte int32 = refl
type_of_byte-type_byte int64 = refl
type_of_byte-type_byte double = refl
type_of_byte-type_byte string = refl
type_of_byte-type_byte bool = refl
type_of_byte-type_byte uuid = refl
type_of_byte-type_byte binary = refl
type_of_byte-type_byte timestamp = refl
type_of_byte-type_byte null_type = refl
type_of_byte-type_byte custom = refl

make_field_lem : (v : FieldValue) → make_field v (value_type v) none ≡ given (field_of v)
unfolding make_field value_matches_type
make_field_lem monostate = refl
make_field_lem (int32_value v) = refl
make_field_lem (int64_value v) = refl
make_field_lem (double_value v) = refl
make_field_lem (time_point v) = refl
make_field_lem (string_value s) = refl
make_field_lem (binary_value bs) = refl
make_field_lem (uuid_value bs) = refl
make_field_lem (bool_value b) = refl

body_lem :
    (v : FieldValue) (d : Descriptor) (bs rest : List ℕ)
    → registry_get (value_type v) ≡ given d
    → d.deserialize (bs ++ rest) (length bs) ≡ given v
    → deserialize (type_byte (value_type v) ∷ (bs ++ rest)) (suc (length bs)) ≡ given (field_of v)
unfolding deserialize
body_lem v d bs rest registered reads =
    let one_less : suc (length bs) - 1 ≡ length bs = omega arith in
    let long : ltb (suc (length bs)) 1 ≡ false = ground arith in
    rw (long, type_of_byte-type_byte (value_type v), registered, one_less, reads) (make_field_lem v)

-- `serialize` gives the bytes of every built-in value, strings of up to 65535 bytes, one more than the value takes, and
-- `deserialize` on them, whatever follows, gives back the field, its type included.
pub deserialize-serialize :
    (v : FieldValue) (rest : List ℕ)
    → IsValue v
    → (bs : List ℕ) × (serialize (field_of v) ≡ given bs)
      × (length bs ≡ suc (value_size v))
      × (deserialize (bs ++ rest) (length bs) ≡ given (field_of v))
unfolding serialize deserialize get_descriptor make_field value_matches_type
deserialize-serialize v rest h =
    let (d, bs, registered, serializes, size, reads) = value_lem v rest h in
    (
      type_byte (value_type v) ∷ bs,
      ground (arith, registered, serializes),
      ap suc size,
      body_lem v d bs rest registered reads,
    )

types_from_past : (k : ℕ) (ts : List FieldType) → length ts ≤ k → types_from k ts ≡ none
types_from_past k [] h = refl
types_from_past zero (t ∷ ts) h = absurd (omega arith)
types_from_past (suc k) (t ∷ ts) h = types_from_past k ts (omega arith)

-- `deserialize` throws on no bytes, and on every type byte that stands for no built-in type: that of
-- a custom type, and those behind the last of the enumeration.
pub deserialize_untyped :
    (b : ℕ) (bs : List ℕ) (len : ℕ) → (len ≡ 0) ⊎ (9 ≤ b) → deserialize (b ∷ bs) len ≡ raised
unfolding deserialize registry_get
deserialize_untyped b bs len (inl nothing) = rw nothing refl
deserialize_untyped b bs len (inr high) = elim (dec_lt b 10) [
  | yes low ↦ let nine : b ≡ 9 = omega arith in rw nine (ground arith)
  | no behind ↦
      let unknown : type_of_byte b ≡ none =
        types_from_past b
          (int32 ∷ int64 ∷ double ∷ string ∷ bool ∷ uuid ∷ binary ∷ timestamp ∷ null_type ∷ custom
            ∷ [])
          (omega arith) in
      rw unknown (ground arith)
]

-- The bytes of a field do not depend on what follows them.
pub field_bytes :
    (v : FieldValue)
    → IsValue v
    → (bs : List ℕ) × (serialize (field_of v) ≡ given bs)
      × (length bs ≡ suc (value_size v))
      × ((rest : List ℕ) → deserialize (bs ++ rest) (length bs) ≡ given (field_of v))
field_bytes v h =
    let (bs, writes, size, _) = deserialize-serialize v [] h in
    (
      bs,
      writes,
      size,
      λ rest.
          let (bs', writes', _, reads) = deserialize-serialize v rest h in
          let same : bs' ≡ bs = cc (writes', writes) in
          subst (λ t. deserialize (t ++ rest) (length t) ≡ given (field_of v)) same reads,
    )
