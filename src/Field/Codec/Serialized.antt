-- ===== src/Field/Codec/Serialized.antt =====
-- The values of lib/datatypes, the bytes that their serializers make of them, and the way back.
use enigma_db.Base.{
  ◌+◌, ap, ℕ, ◌^◌, ◌≤◌, ◌<◌, ◌≡◌, refl, ◌∙◌, ap, true, false, none, some, List, [], ◌∷◌, ◌++◌, take,
  arith, length, length-append, take-append,
}
use enigma_db.Bytes.Integers.{bytes_of, length-bytes_of, value_of-bytes_of, pow256}
use enigma_db.Bytes.{write_string}
use enigma_db.Bytes.RoundTrip.{read_uint16_at-write_uint16}
use enigma_db.Bytes.Strings.{write_string_lem}
use enigma_db.Field.{
  given, FieldValue, monostate, int32_value, int64_value, double_value, time_point, string_value,
  binary_value, uuid_value, bool_value, Descriptor, registry_get, copy_bytes, deserialize_scalar,
  serialize_string, deserialize_string, deserialize_uuid, bool_of, int32_descriptor,
  int64_descriptor, double_descriptor, string_descriptor, bool_descriptor, timestamp_descriptor,
  binary_descriptor, null_descriptor, uuid_descriptor,
}
use enigma_db.Field.Codec.{value_type, Field}

-- What a C++ value of the type can be: integers of its width, strings that `serialize` takes.
abbrev pub IsValue : FieldValue → Type 0
IsValue monostate = Unit
IsValue (int32_value v) = v < 2 ^ 32
IsValue (int64_value v) = v < 2 ^ 64
IsValue (double_value v) = v < 2 ^ 64
IsValue (time_point v) = v < 2 ^ 64
IsValue (string_value s) = length s < 2 ^ 16
IsValue (binary_value bs) = Unit
IsValue (uuid_value bs) = length bs ≡ 16
IsValue (bool_value b) = Unit

-- The number of bytes a value takes.
abbrev pub value_size : FieldValue → ℕ
value_size monostate = 0
value_size (int32_value v) = 4
value_size (int64_value v) = 8
value_size (double_value v) = 8
value_size (time_point v) = 8
value_size (string_value s) = length s + 2
value_size (binary_value bs) = length bs
value_size (uuid_value bs) = 16
value_size (bool_value b) = 1

-- The field of a value, without a descriptor of its own.
abbrev pub field_of : FieldValue → Field
field_of v = record { value = v; type = value_type v; descriptor = none }

copy_bytes_lem : (bs rest : List ℕ) (n : ℕ) → length bs ≡ n → copy_bytes n (bs ++ rest) ≡ given bs
unfolding copy_bytes
copy_bytes_lem bs rest n e =
    let fits : n ≤ length (bs ++ rest) = omega (arith, length-append bs rest) in
    let got : take n (bs ++ rest) ≡ bs = rw (← e) (take-append bs rest) in ground (arith, fits, got)

scalar_lem :
    (n v : ℕ) (rest : List ℕ)
    → v < pow256 n
    → deserialize_scalar n (bytes_of n v ++ rest) n ≡ given v
unfolding deserialize_scalar
scalar_lem n v rest h =
    let copied = copy_bytes_lem (bytes_of n v) rest n (length-bytes_of n v) in
    let read = value_of-bytes_of n v h in ground (arith, copied, read)

string_lem :
    (s rest : List ℕ)
    → length s < 2 ^ 16
    → (bs : List ℕ) × (serialize_string s ≡ given bs)
      × (length bs ≡ length s + 2)
      × (deserialize_string (bs ++ rest) (length bs) ≡ given s)
unfolding serialize_string deserialize_string
string_lem s rest h =
    let (a, b, writes, reads) = read_uint16_at-write_uint16 (length s) h in
    let size = reads (s ++ rest) in
    let copied = copy_bytes_lem s rest (length s) refl in
    let written : write_string [] s ≡ some (a ∷ b ∷ s) =
      write_string_lem [] s h ∙ ap (λ t. some (t ++ s)) writes in
    (a ∷ b ∷ s, ground (arith, written), omega arith, ground (arith, size, copied))

uuid_lem :
    (bs rest : List ℕ) → length bs ≡ 16 → deserialize_uuid (bs ++ rest) (length bs) ≡ given bs
unfolding deserialize_uuid
uuid_lem bs rest h = let copied = copy_bytes_lem bs rest 16 h in ground (arith, copied)

-- The bytes of a value and the way back, for every built-in type.
pub value_lem :
    (v : FieldValue) (rest : List ℕ)
    → IsValue v
    → (d : Descriptor) × (bs : List ℕ) × (registry_get (value_type v) ≡ given d)
      × (d.serialize v ≡ given bs)
      × (length bs ≡ value_size v)
      × (d.deserialize (bs ++ rest) (length bs) ≡ given v)
unfolding registry_get int32_descriptor int64_descriptor double_descriptor string_descriptor
    bool_descriptor timestamp_descriptor binary_descriptor null_descriptor uuid_descriptor bool_of
value_lem monostate rest h = (null_descriptor, [], refl, refl, refl, refl)
value_lem (int32_value v) rest h = (
  int32_descriptor,
  bytes_of 4 v,
  refl,
  refl,
  refl,
  ground (arith, scalar_lem 4 v rest (omega arith)),
)
value_lem (int64_value v) rest h = (
  int64_descriptor,
  bytes_of 8 v,
  refl,
  refl,
  refl,
  ground (arith, scalar_lem 8 v rest (omega arith)),
)
value_lem (double_value v) rest h = (
  double_descriptor,
  bytes_of 8 v,
  refl,
  refl,
  refl,
  ground (arith, scalar_lem 8 v rest (omega arith)),
)
value_lem (time_point v) rest h = (
  timestamp_descriptor,
  bytes_of 8 v,
  refl,
  refl,
  refl,
  ground (arith, scalar_lem 8 v rest (omega arith)),
)
value_lem (string_value s) rest h =
    let (bs, writes, size, reads) = string_lem s rest h in
    (string_descriptor, bs, refl, ground (arith, writes), size, ground (arith, reads))
value_lem (binary_value bs) rest h = (
  binary_descriptor,
  bs,
  refl,
  refl,
  refl,
  ground (arith, copy_bytes_lem bs rest (length bs) refl),
)
value_lem (uuid_value bs) rest h =
    (uuid_descriptor, bs, refl, refl, h, ground (arith, uuid_lem bs rest h))
value_lem (bool_value false) rest h = (
  bool_descriptor,
  bytes_of 1 0,
  refl,
  refl,
  refl,
  ground (arith, scalar_lem 1 0 rest (omega arith)),
)
value_lem (bool_value true) rest h = (
  bool_descriptor,
  bytes_of 1 1,
  refl,
  refl,
  refl,
  ground (arith, scalar_lem 1 1 rest (omega arith)),
)
