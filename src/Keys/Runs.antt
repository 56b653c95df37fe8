-- ===== src/Keys/Runs.antt =====
-- Keys of lib/entry/key.hpp at concrete values.
use enigma_db.Base.{◌≡◌, refl, All, true, List, [], ◌∷◌, arith}
use enigma_db.Field.{
  given, raised, FieldType, int32, string, FieldValue, int32_value, time_point, bool_value,
  string_value, registry_get, string_descriptor,
}
use enigma_db.Ordered.{IsStrictWeak}
use enigma_db.Keys.Printing.{IsPart, key_to_string_determines}
use enigma_db.Field.Codec.{to_string, get_descriptor}
use enigma_db.Field.Codec.Serialized.{field_of}
use enigma_db.Keys.{
  key_to_string, print_parts, key_less, key_equal, find_column, key_parts, build_key_from_row,
}
use enigma_db.Keys.Order.{SchemaKey, key_of, schema_less, schema_equal, key_less-IsStrictWeak}
use enigma_db.Keys.Ranks.{rank, field_of_type}

abbrev columns : List FieldType
columns = int32 ∷ string ∷ []

-- The key of -1 and "a", and that of 2 and "".
abbrev low : SchemaKey columns
low = record { parts = (4294967295, (97 ∷ [], tt)); ordered = (omega arith, (tt, tt)) }

abbrev high : SchemaKey columns
high = record { parts = (2, ([], tt)); ordered = (omega arith, (tt, tt)) }

negative_first : key_less (key_of columns low.parts) (key_of columns high.parts) ≡ given true
unfolding rank
negative_first = (key_less-IsStrictWeak columns).0 low high

-- Strings print as they are.
same_text :
    key_to_string (field_of (string_value (97 ∷ 44 ∷ 32 ∷ 98 ∷ [])) ∷ [])
    ≡ key_to_string (field_of (string_value (97 ∷ [])) ∷ field_of (string_value (98 ∷ [])) ∷ [])
unfolding key_to_string print_parts to_string get_descriptor registry_get string_descriptor
same_text = refl

abbrev printed : List FieldValue
printed = int32_value 4294967295 ∷ time_point 5 ∷ bool_value true ∷ []

printed-IsPart : All IsPart printed
printed-IsPart = ((omega arith, λ e. cc e), ((omega arith, λ e. cc e), ((tt, λ e. cc e), tt)))

key_to_string_determines_example : printed ≡ printed
key_to_string_determines_example =
    key_to_string_determines printed printed printed-IsPart printed-IsPart refl refl

missing_column :
    build_key_from_row ((97 ∷ []) ∷ []) ((98 ∷ [], field_of_type int32 5) ∷ []) ≡ raised
unfolding build_key_from_row key_parts find_column
missing_column = refl

key_less-IsStrictWeak_example :
    ((a b : SchemaKey columns)
      → key_less (key_of columns a.parts) (key_of columns b.parts) ≡ given (schema_less a b))
    × ((a b : SchemaKey columns)
        → key_equal (key_of columns a.parts) (key_of columns b.parts) ≡ given (schema_equal a b))
    × IsStrictWeak (schema_less {ts = columns}) (schema_equal {ts = columns})
key_less-IsStrictWeak_example = key_less-IsStrictWeak columns
