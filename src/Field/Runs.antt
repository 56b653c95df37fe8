-- ===== src/Field/Runs.antt =====
-- Runs of lib/datatypes/field.cpp, and the theorems at concrete inputs.
use enigma_db.Base.{ℕ, All, true, none, refl, ◌≡◌, List, [], ◌∷◌, ◌++◌, arith, length}
use enigma_db.Field.{
  faulted, registry_get, bool, bool_value, bool_descriptor, deserialize_scalar, copy_bytes, bool_of,
  given, string_value,
}
use enigma_db.Field.Codec.{make_field, serialize, deserialize}
use enigma_db.Field.Codec.Typing.{make_field-deserialize}
use enigma_db.Field.Codec.RoundTrip.{deserialize-serialize}
use enigma_db.Field.Codec.Serialized.{field_of}
use enigma_db.Field.Uuid.{string_to_uuid}
use enigma_db.Text.{uuid_to_string}
use enigma_db.Field.Uuid.RoundTrip.{string_to_uuid-uuid_to_string}
use enigma_db.Field.Uuid.Accepted.{IsUuidText, string_to_uuid_lem}
use enigma_db.Bytes.Integers.{IsByte}

deserialize-serialize_example :
    (bs : List ℕ) × (serialize (field_of (string_value (107 ∷ 118 ∷ []))) ≡ given bs)
    × (length bs ≡ 5)
    × (deserialize (bs ++ (9 ∷ [])) (length bs) ≡ given (field_of (string_value (107 ∷ 118 ∷ []))))
deserialize-serialize_example =
    deserialize-serialize (string_value (107 ∷ 118 ∷ [])) (9 ∷ []) (omega arith)

make_field-deserialize_example :
    make_field (bool_value true) bool none
    ≡ given (record { value = bool_value true; type = bool; descriptor = none })
unfolding registry_get bool_descriptor deserialize_scalar copy_bytes bool_of
make_field-deserialize_example =
    make_field-deserialize bool bool_descriptor (1 ∷ []) 1 (bool_value true) refl refl

abbrev sample_uuid : List ℕ
sample_uuid = 171 ∷ 1 ∷ 2 ∷ 3 ∷ 4 ∷ 5 ∷ 6 ∷ 7 ∷ 8 ∷ 9 ∷ 10 ∷ 11 ∷ 12 ∷ 13 ∷ 14 ∷ 15 ∷ []

sample_bytes : All IsByte sample_uuid
sample_bytes = (
  omega arith,
  (
    omega arith,
    (
      omega arith,
      (
        omega arith,
        (
          omega arith,
          (
            omega arith,
            (
              omega arith,
              (
                omega arith,
                (
                  omega arith,
                  (
                    omega arith,
                    (
                      omega arith,
                      (omega arith, (omega arith, (omega arith, (omega arith, (omega arith, tt))))),
                    ),
                  ),
                ),
              ),
            ),
          ),
        ),
      ),
    ),
  ),
)

string_to_uuid-uuid_to_string_example :
    string_to_uuid (uuid_to_string sample_uuid) ≡ given sample_uuid
string_to_uuid-uuid_to_string_example = string_to_uuid-uuid_to_string sample_uuid sample_bytes refl

-- The text "AB0102030405060708090a0B0c0d0e0f".
abbrev sample_text : List ℕ
sample_text =
    65 ∷ 66 ∷ 48 ∷ 49 ∷ 48 ∷ 50 ∷ 48 ∷ 51 ∷ 48 ∷ 52 ∷ 48 ∷ 53 ∷ 48 ∷ 54 ∷ 48 ∷ 55 ∷ 48 ∷ 56 ∷ 48
    ∷ 57 ∷ 48 ∷ 97 ∷ 48 ∷ 66 ∷ 48 ∷ 99 ∷ 48 ∷ 100 ∷ 48 ∷ 101 ∷ 48 ∷ 102 ∷ []

string_to_uuid_lem_example :
    ((uuid : List ℕ) → string_to_uuid sample_text ≡ given uuid → IsUuidText sample_text uuid)
    × ((uuid : List ℕ) → IsUuidText sample_text uuid → string_to_uuid sample_text ≡ given uuid)
    × ¬ (string_to_uuid sample_text ≡ faulted)
string_to_uuid_lem_example = string_to_uuid_lem sample_text
