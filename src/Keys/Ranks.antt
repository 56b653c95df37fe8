-- ===== src/Keys/Ranks.antt =====
-- The fields of lib/datatypes in their order: a field of a built-in type as the sequence of numbers
-- by which its descriptor compares it.
use enigma_db.Base.{ℕ, ◌^◌, ◌<◌, ◌≡◌, refl, ap, ltb, Bool, true, false, none, List, [], ◌∷◌, arith}
use enigma_db.Ordered.Numbers.{number_ordered}
use enigma_db.Ordered.Lex.{lex_less, lex_equal}
use enigma_db.Scalars.{int32_key, int64_key, is_nan, double_key}
use enigma_db.Field.{
  Result, given, ◌>>=◌, FieldType, int32, int64, double, string, bool, uuid, binary, timestamp,
  null_type, custom, FieldValue, monostate, int32_value, int64_value, double_value, time_point,
  string_value, binary_value, uuid_value, bool_value, Descriptor, registry_get, bool_byte,
  compare_as, variant_index, int32_descriptor, int64_descriptor, double_descriptor,
  string_descriptor, bool_descriptor, timestamp_descriptor, binary_descriptor, null_descriptor,
  uuid_descriptor,
}
use enigma_db.Field.Codec.{Field, get_descriptor, field_less, field_equal}

unfoldable pub rank : FieldValue → List ℕ
rank monostate = []
rank (int32_value x) = int32_key x ∷ []
rank (int64_value x) = int64_key x ∷ []
rank (double_value x) = double_key x ∷ []
rank (time_point x) = int64_key x ∷ []
rank (string_value s) = s
rank (binary_value bs) = bs
rank (uuid_value bs) = bs
rank (bool_value b) = bool_byte b ∷ []

-- The values of a type, and the field that holds one.
abbrev pub Carrier : FieldType → Type 0
Carrier int32 = ℕ
Carrier int64 = ℕ
Carrier double = ℕ
Carrier string = List ℕ
Carrier bool = Bool
Carrier uuid = List ℕ
Carrier binary = List ℕ
Carrier timestamp = ℕ
Carrier null_type = Unit
Carrier custom = ⊥

abbrev pub value_of_type : (t : FieldType) → Carrier t → FieldValue
value_of_type int32 x = int32_value x
value_of_type int64 x = int64_value x
value_of_type double x = double_value x
value_of_type string s = string_value s
value_of_type bool b = bool_value b
value_of_type uuid bs = uuid_value bs
value_of_type binary bs = binary_value bs
value_of_type timestamp x = time_point x
value_of_type null_type u = monostate
value_of_type custom x = absurd x

abbrev pub field_of_type : (t : FieldType) → Carrier t → Field
field_of_type t x = record { value = value_of_type t x; type = t; descriptor = none }

-- A value that its C++ type has, and that can be compared with itself: no NaN.
abbrev pub IsOrdered : FieldValue → Type 0
IsOrdered (int32_value x) = x < 2 ^ 32
IsOrdered (int64_value x) = x < 2 ^ 64
IsOrdered (double_value x) = is_nan x ≡ false
IsOrdered (time_point x) = x < 2 ^ 64
IsOrdered v = Unit

single_less : (a b : ℕ) → ltb a b ≡ lex_less (a ∷ []) (b ∷ [])
single_less a b = ground arith

-- The descriptor of the type gives these two answers.
abbrev Compares : FieldValue → FieldValue → Result Descriptor → Type 0
Compares x y r =
    ((r >>= λ d. d.less_than x y) ≡ given (lex_less (rank x) (rank y)))
    × ((r >>= λ d. d.equals x y) ≡ given (lex_equal (rank x) (rank y)))

int32-Compares :
    (x y : ℕ)
    → x < 2 ^ 32
    → y < 2 ^ 32
    → Compares (int32_value x) (int32_value y) (registry_get int32)
unfolding registry_get int32_descriptor compare_as variant_index rank
int32-Compares x y hx hy = (ap given (ground arith), ap given (ground arith))

int64-Compares :
    (x y : ℕ)
    → x < 2 ^ 64
    → y < 2 ^ 64
    → Compares (int64_value x) (int64_value y) (registry_get int64)
unfolding registry_get int64_descriptor compare_as variant_index rank
int64-Compares x y hx hy = (ap given (ground arith), ap given (ground arith))

timestamp-Compares :
    (x y : ℕ)
    → x < 2 ^ 64
    → y < 2 ^ 64
    → Compares (time_point x) (time_point y) (registry_get timestamp)
unfolding registry_get timestamp_descriptor compare_as variant_index rank
timestamp-Compares x y hx hy = (ap given (ground arith), ap given (ground arith))

double-Compares :
    (x y : ℕ)
    → is_nan x ≡ false
    → is_nan y ≡ false
    → Compares (double_value x) (double_value y) (registry_get double)
unfolding registry_get double_descriptor compare_as variant_index rank
double-Compares x y hx hy =
    (rw (hx, hy) (ap given (ground arith)), rw (hx, hy) (ap given (ground arith)))

bool-Compares : (x y : Bool) → Compares (bool_value x) (bool_value y) (registry_get bool)
unfolding registry_get bool_descriptor compare_as variant_index rank
bool-Compares true true = (refl, refl)
bool-Compares true false = (refl, refl)
bool-Compares false true = (refl, refl)
bool-Compares false false = (refl, refl)

bytes-Compares :
    (xs ys : List ℕ)
    → Compares (string_value xs) (string_value ys) (registry_get string)
      × Compares (binary_value xs) (binary_value ys) (registry_get binary)
      × Compares (uuid_value xs) (uuid_value ys) (registry_get uuid)
unfolding registry_get string_descriptor binary_descriptor uuid_descriptor compare_as variant_index
    rank
bytes-Compares xs ys = ((refl, refl), (refl, refl), (refl, refl))

null-Compares : Compares monostate monostate (registry_get null_type)
unfolding registry_get null_descriptor compare_as variant_index rank
null-Compares = (refl, refl)

registry_get-Compares :
    (t : FieldType) (x y : Carrier t)
    → IsOrdered (value_of_type t x)
    → IsOrdered (value_of_type t y)
    → Compares (value_of_type t x) (value_of_type t y) (registry_get t)
registry_get-Compares int32 x y hx hy = int32-Compares x y hx hy
registry_get-Compares int64 x y hx hy = int64-Compares x y hx hy
registry_get-Compares double x y hx hy = double-Compares x y hx hy
registry_get-Compares string x y hx hy = (bytes-Compares x y).0
registry_get-Compares bool x y hx hy = bool-Compares x y
registry_get-Compares uuid x y hx hy = (bytes-Compares x y).2
registry_get-Compares binary x y hx hy = (bytes-Compares x y).1
registry_get-Compares timestamp x y hx hy = timestamp-Compares x y hx hy
registry_get-Compares null_type x y hx hy = null-Compares
registry_get-Compares custom x y hx hy = absurd x

-- Fields of a built-in type are compared by their ranks.
pub field_less_lem :
    (t : FieldType) (x y : Carrier t)
    → IsOrdered (value_of_type t x)
    → IsOrdered (value_of_type t y)
    → field_less (field_of_type t x) (field_of_type t y)
      ≡ given (lex_less (rank (value_of_type t x)) (rank (value_of_type t y)))
unfolding field_less get_descriptor
field_less_lem t x y hx hy = (registry_get-Compares t x y hx hy).0

pub field_equal_lem :
    (t : FieldType) (x y : Carrier t)
    → IsOrdered (value_of_type t x)
    → IsOrdered (value_of_type t y)
    → field_equal (field_of_type t x) (field_of_type t y)
      ≡ given (lex_equal (rank (value_of_type t x)) (rank (value_of_type t y)))
unfolding field_equal get_descriptor
field_equal_lem t x y hx hy = (registry_get-Compares t x y hx hy).1
