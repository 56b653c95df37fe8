-- ===== src/Field/Codec.antt =====
-- lib/datatypes/field.hpp and field.cpp: a field, its bytes, and the way back.
pub mod Serialized
pub mod RoundTrip
pub mod Typing
use enigma_db.Base.{
  ℕ, zero, suc, ◌-◌, Bool, true, false, Option, none, some, List, [], ◌∷◌, ◌==◌, ltb, if◌then◌else◌,
}
use enigma_db.Field.{
  Result, given, raised, faulted, ◌>>=◌, FieldType, int32, int64, double, string, bool, uuid,
  binary, timestamp, null_type, custom, FieldValue, monostate, int32_value, int64_value,
  double_value, time_point, string_value, binary_value, uuid_value, bool_value, Descriptor,
  registry_get,
}

-- The values of the enumeration.
abbrev pub type_byte : FieldType → ℕ
type_byte int32 = 0
type_byte int64 = 1
type_byte double = 2
type_byte string = 3
type_byte bool = 4
type_byte uuid = 5
type_byte binary = 6
type_byte timestamp = 7
type_byte null_type = 8
type_byte custom = 9

-- A byte behind the last value takes the `default` of the registry's switch.
abbrev pub types_from : ℕ → List FieldType → Option FieldType
types_from k [] = none
types_from zero (t ∷ ts) = some t
types_from (suc k) (t ∷ ts) = types_from k ts

abbrev pub type_of_byte : ℕ → Option FieldType
type_of_byte k =
    types_from k
      (int32 ∷ int64 ∷ double ∷ string ∷ bool ∷ uuid ∷ binary ∷ timestamp ∷ null_type ∷ custom ∷ [])

-- The type that a value has; a custom type matches every value.
abbrev pub value_type : FieldValue → FieldType
value_type monostate = null_type
value_type (int32_value v) = int32
value_type (int64_value v) = int64
value_type (double_value v) = double
value_type (time_point v) = timestamp
value_type (string_value s) = string
value_type (binary_value bs) = binary
value_type (uuid_value bs) = uuid
value_type (bool_value b) = bool

pub value_matches_type : FieldValue → FieldType → Bool
value_matches_type v t = elim t [ custom ↦ true | u ↦ type_byte (value_type v) == type_byte u ]

pub record Field : Type 0 where
  pub value : FieldValue
  pub type : FieldType
  pub descriptor : Option Descriptor

-- The constructor, with its assertion.
pub make_field : FieldValue → FieldType → Option Descriptor → Result Field
make_field v t d =
    if value_matches_type v t
    then given (record { value = v; type = t; descriptor = d })
    else faulted

unfoldable pub get_descriptor : Field → Result Descriptor
get_descriptor f = elim f.descriptor [ none ↦ registry_get f.type | some d ↦ given d ]

pub is_null : Field → Bool
is_null f = elim f.value [ monostate ↦ true | _ ↦ false ]

pub serialize : Field → Result (List ℕ)
serialize f =
    get_descriptor f >>= λ d. Descriptor.serialize d f.value >>= λ bs. given (type_byte f.type ∷ bs)

unfoldable pub to_string : Field → Result (List ℕ)
to_string f = get_descriptor f >>= λ d. Descriptor.to_string d f.value

-- `operator==` and `operator<` ask the descriptor of the left field.
unfoldable pub field_equal : Field → Field → Result Bool
field_equal f g = get_descriptor f >>= λ d. d.equals f.value g.value

unfoldable pub field_less : Field → Field → Result Bool
field_less f g = get_descriptor f >>= λ d. d.less_than f.value g.value

-- `deserialize(data, len)`; with no byte to read `data[0]` is a fault.
pub deserialize : List ℕ → ℕ → Result Field
deserialize bytes len = if ltb len 1 then raised else elim bytes [
  | [] ↦ faulted
  | b ∷ bs ↦ elim (type_of_byte b) [
    | none ↦ raised
    | some t ↦ registry_get t >>= λ d. d.deserialize bs (len - 1) >>= λ v. make_field v t none
  ]
]
