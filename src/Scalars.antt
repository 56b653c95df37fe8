-- ===== src/Scalars.antt =====
-- The built-in `<` and `==` that lib/datatypes/comparator.hpp applies to the alternatives of a field
-- value, on the bits of the values.
use enigma_db.Base.{ℕ, ◌+◌, ◌-◌, ◌%◌, ◌==◌, ltb, Bool, true, false, not, ◌&&◌, List, if◌then◌else◌}
use enigma_db.Ordered.Numbers.{number_ordered}
use enigma_db.Ordered.Lex.{lex_less, lex_equal}

-- Two's complement: the numbers are moved up by half of the range.
abbrev pub int32_key : ℕ → ℕ
int32_key x = (x + 2147483648) % 4294967296

abbrev pub int64_key : ℕ → ℕ
int64_key x = (x + 9223372036854775808) % 18446744073709551616

abbrev pub int32_less : ℕ → ℕ → Bool
int32_less x y = ltb (int32_key x) (int32_key y)

abbrev pub int64_less : ℕ → ℕ → Bool
int64_less x y = ltb (int64_key x) (int64_key y)

-- IEEE 754: the numbers in their order, with one key for both zeros.
abbrev pub is_nan : ℕ → Bool
is_nan x = ltb 0x7ff0000000000000 (x % 9223372036854775808)

abbrev pub double_key : ℕ → ℕ
double_key x =
    if ltb x 9223372036854775808 then 9223372036854775808 + x else 18446744073709551616 - x

abbrev pub double_less : ℕ → ℕ → Bool
double_less x y = not (is_nan x) && (not (is_nan y) && ltb (double_key x) (double_key y))

abbrev pub double_equal : ℕ → ℕ → Bool
double_equal x y = not (is_nan x) && (not (is_nan y) && (double_key x == double_key y))

abbrev pub bool_less : Bool → Bool → Bool
bool_less x y = not x && y

abbrev pub bool_equal : Bool → Bool → Bool
bool_equal true y = y
bool_equal false y = not y

-- The characters of a `std::string`, the bytes of a vector and those of a UUID.
abbrev pub bytes_less : List ℕ → List ℕ → Bool
bytes_less xs ys = lex_less xs ys

abbrev pub bytes_equal : List ℕ → List ℕ → Bool
bytes_equal xs ys = lex_equal xs ys
