-- ===== src/Field.antt =====
-- lib/datatypes: the built-in descriptors of the types of fields, and the registry.
mod Values
pub mod Codec
pub mod Parser
pub mod Uuid
pub mod Printed
mod Runs
unfoldable pub use enigma_db.Field.Values.*
use enigma_db.Base.{ℕ, Bool, true, false, List, [], ◌∷◌, ◌==◌}
use enigma_db.Text.{signed_text, double_text, bool_text, time_text, binary_text, uuid_to_string}
use enigma_db.Bytes.Integers.{bytes_of}
use enigma_db.Scalars.{
  int32_less, int64_less, double_less, double_equal, bool_less, bool_equal, bytes_less, bytes_equal,
}

-- The descriptors: `std::get<T>` throws on a value of another type, and `toString` asserts that it has
-- the type.
unfoldable pub int32_descriptor : Descriptor
int32_descriptor = record {
  name = 73 ∷ 110 ∷ 116 ∷ 51 ∷ 50 ∷ [];
  serialize = λ v. elim v [ int32_value x ↦ given (bytes_of 4 x) | _ ↦ raised ];
  deserialize = λ bytes len. deserialize_scalar 4 bytes len >>= λ x. given (int32_value x);
  equals = compare_as get_int32 (◌==◌);
  less_than = compare_as get_int32 int32_less;
  to_string = λ v. elim v [ int32_value x ↦ given (signed_text 32 x) | _ ↦ faulted ];
}

unfoldable pub int64_descriptor : Descriptor
int64_descriptor = record {
  name = 73 ∷ 110 ∷ 116 ∷ 54 ∷ 52 ∷ [];
  serialize = λ v. elim v [ int64_value x ↦ given (bytes_of 8 x) | _ ↦ raised ];
  deserialize = λ bytes len. deserialize_scalar 8 bytes len >>= λ x. given (int64_value x);
  equals = compare_as get_int64 (◌==◌);
  less_than = compare_as get_int64 int64_less;
  to_string = λ v. elim v [ int64_value x ↦ given (signed_text 64 x) | _ ↦ faulted ];
}

unfoldable pub double_descriptor : Descriptor
double_descriptor = record {
  name = 68 ∷ 111 ∷ 117 ∷ 98 ∷ 108 ∷ 101 ∷ [];
  serialize = λ v. elim v [ double_value x ↦ given (bytes_of 8 x) | _ ↦ raised ];
  deserialize = λ bytes len. deserialize_scalar 8 bytes len >>= λ x. given (double_value x);
  equals = compare_as get_double double_equal;
  less_than = compare_as get_double double_less;
  to_string = λ v. elim v [ double_value x ↦ given (double_text x) | _ ↦ faulted ];
}

unfoldable pub string_descriptor : Descriptor
string_descriptor = record {
  name = 83 ∷ 116 ∷ 114 ∷ 105 ∷ 110 ∷ 103 ∷ [];
  serialize = λ v. elim v [ string_value s ↦ serialize_string s | _ ↦ raised ];
  deserialize = λ bytes len. deserialize_string bytes len >>= λ s. given (string_value s);
  equals = compare_as get_string bytes_equal;
  less_than = compare_as get_string bytes_less;
  to_string = λ v. elim v [ string_value s ↦ given s | _ ↦ faulted ];
}

unfoldable pub bool_descriptor : Descriptor
bool_descriptor = record {
  name = 66 ∷ 111 ∷ 111 ∷ 108 ∷ [];
  serialize = λ v. elim v [ bool_value b ↦ given (bytes_of 1 (bool_byte b)) | _ ↦ raised ];
  deserialize = λ bytes len. deserialize_scalar 1 bytes len >>= bool_of;
  equals = compare_as get_bool bool_equal;
  less_than = compare_as get_bool bool_less;
  to_string = λ v. elim v [ bool_value b ↦ given (bool_text b) | _ ↦ faulted ];
}

unfoldable pub timestamp_descriptor : Descriptor
timestamp_descriptor = record {
  name = 84 ∷ 105 ∷ 109 ∷ 101 ∷ 115 ∷ 116 ∷ 97 ∷ 109 ∷ 112 ∷ [];
  serialize = λ v. elim v [ time_point x ↦ given (bytes_of 8 x) | _ ↦ raised ];
  deserialize = λ bytes len. deserialize_scalar 8 bytes len >>= λ x. given (time_point x);
  equals = compare_as get_timestamp (◌==◌);
  less_than = compare_as get_timestamp int64_less;
  to_string = λ v. elim v [ time_point x ↦ given (time_text x) | _ ↦ faulted ];
}

unfoldable pub binary_descriptor : Descriptor
binary_descriptor = record {
  name = 66 ∷ 105 ∷ 110 ∷ 97 ∷ 114 ∷ 121 ∷ [];
  serialize = λ v. elim v [ binary_value bs ↦ given bs | _ ↦ raised ];
  deserialize = λ bytes len. copy_bytes len bytes >>= λ bs. given (binary_value bs);
  equals = compare_as get_binary bytes_equal;
  less_than = compare_as get_binary bytes_less;
  to_string = λ v. elim v [ binary_value bs ↦ given (binary_text bs) | _ ↦ faulted ];
}

unfoldable pub null_descriptor : Descriptor
null_descriptor = record {
  name = 78 ∷ 117 ∷ 108 ∷ 108 ∷ [];
  serialize = λ v. elim v [ monostate ↦ given [] | _ ↦ raised ];
  deserialize = λ bytes len. given monostate;
  equals = compare_as get_null (λ x y. true);
  less_than = compare_as get_null (λ x y. false);
  to_string = λ v. elim v [ monostate ↦ given (110 ∷ 117 ∷ 108 ∷ 108 ∷ []) | _ ↦ faulted ];
}

unfoldable pub uuid_descriptor : Descriptor
uuid_descriptor = record {
  name = 85 ∷ 85 ∷ 73 ∷ 68 ∷ [];
  serialize = λ v. elim v [ uuid_value bs ↦ given bs | _ ↦ raised ];
  deserialize = λ bytes len. deserialize_uuid bytes len >>= λ bs. given (uuid_value bs);
  equals = compare_as get_uuid bytes_equal;
  less_than = compare_as get_uuid bytes_less;
  to_string = λ v. elim v [ uuid_value bs ↦ given (uuid_to_string bs) | _ ↦ faulted ];
}

-- `TypeRegistry::get`
unfoldable pub registry_get : FieldType → Result Descriptor
registry_get int32 = given int32_descriptor
registry_get int64 = given int64_descriptor
registry_get double = given double_descriptor
registry_get string = given string_descriptor
registry_get bool = given bool_descriptor
registry_get uuid = given uuid_descriptor
registry_get binary = given binary_descriptor
registry_get timestamp = given timestamp_descriptor
registry_get null_type = given null_descriptor
registry_get custom = raised
