-- ===== src/Field/Codec/Typing.antt =====
-- The values that the built-in descriptors of lib/datatypes deserialize, and the assertion of the
-- constructor in lib/datatypes/field.hpp.
use enigma_db.Base.{ℕ, zero, suc, ◌≡◌, refl, true, none, List}
use mathlib.Core.Path.{subst}
use enigma_db.Field.{
  Result, given, raised, faulted, ◌>>=◌, FieldType, int32, int64, double, string, bool, uuid,
  binary, timestamp, null_type, custom, FieldValue, Descriptor, registry_get, deserialize_scalar,
  deserialize_string, deserialize_uuid, copy_bytes, int32_value, int64_value, double_value,
  time_point, string_value, binary_value, uuid_value, bool_of, int32_descriptor, int64_descriptor,
  double_descriptor, string_descriptor, bool_descriptor, timestamp_descriptor, binary_descriptor,
  null_descriptor, uuid_descriptor,
}
use enigma_db.Field.Codec.{value_matches_type, make_field}

-- A value, if there is one, has the type.
abbrev HasType : FieldType → Result FieldValue → Type 0
HasType t (given v) = value_matches_type v t ≡ true
HasType t raised = Unit
HasType t faulted = Unit

bind-HasType :
    {A : Type 0} (t : FieldType) (r : Result A) (f : A → Result FieldValue)
    → ((a : A) → HasType t (f a))
    → HasType t (r >>= f)
bind-HasType t (given a) f h = h a
bind-HasType t raised f h = tt
bind-HasType t faulted f h = tt

value-HasType :
    {A : Type 0} (t : FieldType) (r : Result A) (f : A → FieldValue)
    → ((a : A) → value_matches_type (f a) t ≡ true)
    → HasType t (r >>= λ x. given (f x))
value-HasType t r f h = bind-HasType t r (λ x. given (f x)) h

bool_of-HasType : (n : ℕ) → HasType bool (bool_of n)
unfolding bool_of value_matches_type
bool_of-HasType zero = refl
bool_of-HasType (suc zero) = refl
bool_of-HasType (suc (suc n)) = tt

abbrev IsTyped : FieldType → Result Descriptor → Type 0
IsTyped t (given d) = (bytes : List ℕ) (len : ℕ) → HasType t (d.deserialize bytes len)
IsTyped t raised = Unit
IsTyped t faulted = Unit

registry_get-IsTyped : (t : FieldType) → IsTyped t (registry_get t)
unfolding registry_get value_matches_type int32_descriptor int64_descriptor double_descriptor
    string_descriptor bool_descriptor timestamp_descriptor binary_descriptor null_descriptor
    uuid_descriptor
registry_get-IsTyped int32 =
    λ bytes len. value-HasType int32 (deserialize_scalar 4 bytes len) int32_value (λ x. refl)
registry_get-IsTyped int64 =
    λ bytes len. value-HasType int64 (deserialize_scalar 8 bytes len) int64_value (λ x. refl)
registry_get-IsTyped double =
    λ bytes len. value-HasType double (deserialize_scalar 8 bytes len) double_value (λ x. refl)
registry_get-IsTyped string =
    λ bytes len. value-HasType string (deserialize_string bytes len) string_value (λ x. refl)
registry_get-IsTyped bool =
    λ bytes len. bind-HasType bool (deserialize_scalar 1 bytes len) bool_of bool_of-HasType
registry_get-IsTyped uuid =
    λ bytes len. value-HasType uuid (deserialize_uuid bytes len) uuid_value (λ x. refl)
registry_get-IsTyped binary =
    λ bytes len. value-HasType binary (copy_bytes len bytes) binary_value (λ x. refl)
registry_get-IsTyped timestamp =
    λ bytes len. value-HasType timestamp (deserialize_scalar 8 bytes len) time_point (λ x. refl)
registry_get-IsTyped null_type = λ bytes len. refl
registry_get-IsTyped custom = tt

-- Whatever the bytes are, a value that the registry's descriptor of a type deserializes has that
-- type: the assertion of the constructor of `Field` does not fail on it.
pub make_field-deserialize :
    (t : FieldType) (d : Descriptor) (bytes : List ℕ) (len : ℕ) (v : FieldValue)
    → registry_get t ≡ given d
    → d.deserialize bytes len ≡ given v
    → make_field v t none ≡ given (record { value = v; type = t; descriptor = none })
unfolding make_field
make_field-deserialize t d bytes len v found reads =
    let typed : IsTyped t (given d) = subst (IsTyped t) found (registry_get-IsTyped t) in
    let matches : value_matches_type v t ≡ true = subst (HasType t) reads (typed bytes len) in
    rw matches refl
