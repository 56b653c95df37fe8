-- ===== src/Field/Values.antt =====
-- lib/datatypes: the types and the values of fields, the interface of a descriptor, and the
-- serializers and comparators that the built-in descriptors are made of.
use enigma_db.Base.{
  ℕ, zero, suc, Bool, true, false, Option, none, some, List, [], ◌==◌, leb, ltb, take, drop, length,
  if◌then◌else◌,
}
use enigma_db.Bytes.{write_string, read_uint16_at}
use enigma_db.Bytes.Integers.{value_of}

-- `raised` is an exception, `faulted` a failed assertion or a read past the end.
pub data Result (A : Type 0) : Type 0 where
  given : A → Result A
  raised faulted : Result A

infixl 5 ◌>>=◌
abbrev pub ◌>>=◌ : {A B : Type 0} → Result A → (A → Result B) → Result B
given a >>= f = f a
raised >>= f = raised
faulted >>= f = faulted

-- The value of an operation that may fail an assertion or leave its buffer.
abbrev pub asserted : {A : Type 0} → Option A → Result A
asserted none = faulted
asserted (some a) = given a

pub data FieldType : Type 0 where
  int32 int64 double string bool uuid binary timestamp null_type custom : FieldType

-- Integers and doubles are the numbers that their bits make, a time point is its count of
-- nanoseconds, and a UUID is its sixteen bytes.
pub data FieldValue : Type 0 where
  monostate : FieldValue
  int32_value int64_value double_value time_point : ℕ → FieldValue
  string_value binary_value uuid_value : List ℕ → FieldValue
  bool_value : Bool → FieldValue

-- `ITypeDescriptor`: the operations of a type. A pointer and a length are the bytes that can be read from the pointer, and
-- the length.
pub record Descriptor : Type 0 where
  pub name : List ℕ
  pub serialize : FieldValue → Result (List ℕ)
  pub deserialize : List ℕ → ℕ → Result FieldValue
  pub equals : FieldValue → FieldValue → Result Bool
  pub less_than : FieldValue → FieldValue → Result Bool
  pub to_string : FieldValue → Result (List ℕ)

-- `std::memcpy` and the constructors from two pointers: `n` bytes from a pointer on.
unfoldable pub copy_bytes : ℕ → List ℕ → Result (List ℕ)
copy_bytes n bytes = if leb n (length bytes) then given (take n bytes) else faulted

-- `ScalarSerializer<T>::deserialize` with `sizeof(T)` for `n`, on a little-endian machine.
unfoldable pub deserialize_scalar : ℕ → List ℕ → ℕ → Result ℕ
deserialize_scalar n bytes len =
    if len == n then (copy_bytes n bytes >>= λ bs. given (value_of bs)) else raised

unfoldable pub serialize_string : List ℕ → Result (List ℕ)
serialize_string s = asserted (write_string [] s)

-- The size is read before `len` is looked at, and is not compared with it.
unfoldable pub deserialize_string : List ℕ → ℕ → Result (List ℕ)
deserialize_string bytes len = elim (read_uint16_at bytes 0) [
  | none ↦ faulted
  | some size ↦ if ltb len 2 then raised else copy_bytes size (drop 2 bytes)
]

unfoldable pub deserialize_uuid : List ℕ → ℕ → Result (List ℕ)
deserialize_uuid bytes len = if len == 16 then copy_bytes 16 bytes else raised

-- A byte other than 0 and 1 is no `bool`.
unfoldable pub bool_of : ℕ → Result FieldValue
bool_of zero = given (bool_value false)
bool_of (suc zero) = given (bool_value true)
bool_of (suc (suc n)) = faulted

abbrev pub bool_byte : Bool → ℕ
bool_byte false = 0
bool_byte true = 1

-- `std::variant::index`
unfoldable pub variant_index : FieldValue → ℕ
variant_index monostate = 0
variant_index (int32_value v) = 1
variant_index (int64_value v) = 2
variant_index (double_value v) = 3
variant_index (string_value s) = 4
variant_index (bool_value b) = 5
variant_index (time_point v) = 7
variant_index (binary_value bs) = 6
variant_index (uuid_value bs) = 8

-- `ComparatorOnly<T>`, with `std::get<T>`.
unfoldable pub compare_as :
    {T : Type 0} → (FieldValue → Result T) → (T → T → Bool) → FieldValue → FieldValue → Result Bool
compare_as get f x y =
    if variant_index x == variant_index y
    then (get x >>= λ a. get y >>= λ b. given (f a b))
    else faulted

abbrev pub get_int32 : FieldValue → Result ℕ
get_int32 v = elim v [ int32_value x ↦ given x | _ ↦ raised ]

abbrev pub get_int64 : FieldValue → Result ℕ
get_int64 v = elim v [ int64_value x ↦ given x | _ ↦ raised ]

abbrev pub get_double : FieldValue → Result ℕ
get_double v = elim v [ double_value x ↦ given x | _ ↦ raised ]

abbrev pub get_string : FieldValue → Result (List ℕ)
get_string v = elim v [ string_value x ↦ given x | _ ↦ raised ]

abbrev pub get_bool : FieldValue → Result Bool
get_bool v = elim v [ bool_value x ↦ given x | _ ↦ raised ]

abbrev pub get_timestamp : FieldValue → Result ℕ
get_timestamp v = elim v [ time_point x ↦ given x | _ ↦ raised ]

abbrev pub get_binary : FieldValue → Result (List ℕ)
get_binary v = elim v [ binary_value x ↦ given x | _ ↦ raised ]

abbrev pub get_uuid : FieldValue → Result (List ℕ)
get_uuid v = elim v [ uuid_value x ↦ given x | _ ↦ raised ]

abbrev pub get_null : FieldValue → Result (Unit {0})
get_null v = elim v [ monostate ↦ given tt | _ ↦ raised ]
