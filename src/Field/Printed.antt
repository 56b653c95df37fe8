-- ===== src/Field/Printed.antt =====
-- lib/datatypes/field.cpp: what the fields of built-in types print.
use enigma_db.Base.{
  ℕ, ◌^◌, ◌<◌, ◌≡◌, refl, ◌∙◌, sym, ap, ◌==◌, Bool, true, false, List, [], ◌∷◌, All, arith, length,
}
use enigma_db.Text.{signed_text, double_text, bool_text, time_text, binary_text, uuid_to_string}
use enigma_db.Text.Reading.{read_signed, read_signed-signed_text, read_time, read_time-time_text}
use enigma_db.Bytes.Integers.{IsByte}
use enigma_db.Field.{
  Result, given, raised, faulted, FieldType, int32, int64, double, string, bool, uuid, binary,
  timestamp, null_type, custom, FieldValue, monostate, int32_value, int64_value, double_value,
  time_point, string_value, binary_value, uuid_value, bool_value, registry_get, int32_descriptor,
  int64_descriptor, double_descriptor, string_descriptor, bool_descriptor, timestamp_descriptor,
  binary_descriptor, null_descriptor, uuid_descriptor,
}
use enigma_db.Field.Codec.{value_type, to_string, get_descriptor}
use enigma_db.Field.Codec.Serialized.{field_of}
use enigma_db.Field.Uuid.{string_to_uuid}
use enigma_db.Field.Uuid.RoundTrip.{string_to_uuid-uuid_to_string}

-- The text of a value.
abbrev pub value_text : FieldValue → List ℕ
value_text monostate = 110 ∷ 117 ∷ 108 ∷ 108 ∷ []
value_text (int32_value x) = signed_text 32 x
value_text (int64_value x) = signed_text 64 x
value_text (double_value x) = double_text x
value_text (time_point x) = time_text x
value_text (string_value s) = s
value_text (binary_value bs) = binary_text bs
value_text (uuid_value bs) = uuid_to_string bs
value_text (bool_value b) = bool_text b

-- A field of a built-in type prints: nothing throws, and no assertion fails.
pub to_string-field_of : (v : FieldValue) → to_string (field_of v) ≡ given (value_text v)
unfolding to_string get_descriptor registry_get int32_descriptor int64_descriptor double_descriptor
    string_descriptor bool_descriptor timestamp_descriptor binary_descriptor null_descriptor
    uuid_descriptor
to_string-field_of monostate = refl
to_string-field_of (int32_value x) = refl
to_string-field_of (int64_value x) = refl
to_string-field_of (double_value x) = refl
to_string-field_of (time_point x) = refl
to_string-field_of (string_value s) = refl
to_string-field_of (binary_value bs) = refl
to_string-field_of (uuid_value bs) = refl
to_string-field_of (bool_value b) = refl

-- A value of a type whose text says it all: no double, of which six decimals are printed, and no
-- binary value, of which the size is.
abbrev pub IsExact : FieldValue → Type 0
IsExact monostate = Unit
IsExact (int32_value x) = x < 2 ^ 32
IsExact (int64_value x) = x < 2 ^ 64
IsExact (double_value x) = ⊥
IsExact (time_point x) = x < 2 ^ 64
IsExact (string_value s) = Unit
IsExact (binary_value bs) = ⊥
IsExact (uuid_value bs) = All IsByte bs × (length bs ≡ 16)
IsExact (bool_value b) = Unit

abbrev read_bool : List ℕ → Bool
read_bool [] = false
read_bool (c ∷ text) = c == 49

abbrev read_uuid : Result (List ℕ) → FieldValue
read_uuid (given bs) = uuid_value bs
read_uuid raised = monostate
read_uuid faulted = monostate

-- The value of a type behind a text.
abbrev read_value : FieldType → List ℕ → FieldValue
read_value int32 text = int32_value (read_signed 32 text)
read_value int64 text = int64_value (read_signed 64 text)
read_value double text = monostate
read_value string text = string_value text
read_value bool text = bool_value (read_bool text)
read_value uuid text = read_uuid (string_to_uuid text)
read_value binary text = monostate
read_value timestamp text = time_point (read_time text)
read_value null_type text = monostate
read_value custom text = monostate

read_value-value_text : (v : FieldValue) → IsExact v → read_value (value_type v) (value_text v) ≡ v
unfolding bool_text
read_value-value_text monostate h = refl
read_value-value_text (int32_value x) h =
    ap int32_value (read_signed-signed_text 32 x (omega arith) h)
read_value-value_text (int64_value x) h =
    ap int64_value (read_signed-signed_text 64 x (omega arith) h)
read_value-value_text (double_value x) h = absurd h
read_value-value_text (time_point x) h = ap time_point (read_time-time_text x h)
read_value-value_text (string_value s) h = refl
read_value-value_text (binary_value bs) h = absurd h
read_value-value_text (uuid_value bs) (h, counts) =
    ap read_uuid (string_to_uuid-uuid_to_string bs h counts)
read_value-value_text (bool_value true) h = refl
read_value-value_text (bool_value false) h = refl

pub value_text-injective :
    (v w : FieldValue)
    → IsExact v
    → IsExact w
    → value_type v ≡ value_type w
    → value_text v ≡ value_text w
    → v ≡ w
value_text-injective v w h k types same =
    sym (read_value-value_text v h)
    ∙ ap (λ t. read_value t (value_text v)) types
    ∙ ap (read_value (value_type w)) same
    ∙ read_value-value_text w k

-- Two fields of one built-in type, other than doubles and binary values, that print the same hold the
-- same value.
pub to_string_determines :
    (v w : FieldValue)
    → IsExact v
    → IsExact w
    → value_type v ≡ value_type w
    → to_string (field_of v) ≡ to_string (field_of w)
    → v ≡ w
to_string_determines v w h k types same =
    value_text-injective v w h k types
      (cc (sym (to_string-field_of v) ∙ same ∙ to_string-field_of w))
