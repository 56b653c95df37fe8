-- ===== src/Text.antt =====
-- The text of numbers, `std::to_string` and `std::setw` in particular, and that of lib/datatypes.
-- A text is the list of its characters.
pub mod Reading
mod Runs
use enigma_db.Base.{
  ℕ, zero, suc, ◌+◌, ◌-◌, ◌*◌, ◌/◌, ◌%◌, ◌^◌, ◌==◌, ltb, leb, Bool, true, false, ◌||◌, ◌&&◌, List,
  [], ◌∷◌, ◌++◌, length, replicate, if◌then◌else◌,
}
use enigma_db.Base.Decimal.{digits, to_string}

-- `std::to_string` of an integer of `w` bits in two's complement.
unfoldable pub signed_text : ℕ → ℕ → List ℕ
signed_text w x = if ltb x (2 ^ (w - 1)) then to_string x else 45 ∷ to_string (2 ^ w - x)

-- The nearest quotient, the even one in the middle.
pub rounded : ℕ → ℕ → ℕ
rounded n d =
    let q = n / d in
    let twice = 2 * (n % d) in if ltb twice d || ((twice == d) && (q % 2 == 0)) then q else q + 1

-- The finite double with the exponent and the fraction, in millionths: a double is its significand
-- times `2 ^ (exponent - 1075)`.
pub millionths : ℕ → ℕ → ℕ
millionths exponent fraction =
    if exponent == 0
    then rounded (fraction * 2 * 10 ^ 6) (2 ^ 1075)
    else rounded ((fraction + 2 ^ 52) * 2 ^ exponent * 10 ^ 6) (2 ^ 1075)

abbrev fixed_point : ℕ → List ℕ
fixed_point n =
    let decimals = to_string (n % 10 ^ 6) in
    digits 310 (n / 10 ^ 6) ++ (46 ∷ (replicate (6 - length decimals) 48 ++ decimals))

pub magnitude_text : ℕ → ℕ → List ℕ
magnitude_text exponent fraction =
    if exponent == 2047
    then if fraction == 0 then 105 ∷ 110 ∷ 102 ∷ [] else 110 ∷ 97 ∷ 110 ∷ []
    else fixed_point (millionths exponent fraction)

-- `std::to_string` of a double, `%f` of its bits: the sign, and six decimals.
unfoldable pub double_text : ℕ → List ℕ
double_text x =
    let magnitude = magnitude_text (x / 2 ^ 52 % 2 ^ 11) (x % 2 ^ 52) in
    if ltb x (2 ^ 63) then magnitude else 45 ∷ magnitude

-- A boolean is an integer when it is printed.
unfoldable pub bool_text : Bool → List ℕ
bool_text false = 48 ∷ []
bool_text true = 49 ∷ []

-- The nanoseconds, and "ns".
unfoldable pub time_text : ℕ → List ℕ
time_text nanos = signed_text 64 nanos ++ (110 ∷ 115 ∷ [])

-- "<bin:", the size, and "b>".
unfoldable pub binary_text : List ℕ → List ℕ
binary_text bytes = (60 ∷ 98 ∷ 105 ∷ 110 ∷ 58 ∷ []) ++ (to_string (length bytes) ++ (98 ∷ 62 ∷ []))

-- A hexadecimal digit.
unfoldable pub hex_char : ℕ → ℕ
hex_char n = if ltb n 10 then 48 + n else 87 + n

-- The `-` in front of some of the bytes.
unfoldable pub hyphen : ℕ → List ℕ
hyphen i = if ((i == 4) || (i == 6)) || ((i == 8) || (i == 10)) then 45 ∷ [] else []

-- The loop of `uuidToString` from the byte at `i` on.
unfoldable pub print : ℕ → List ℕ → List ℕ
print i [] = []
print i (byte ∷ bytes) =
    hyphen i ++ (hex_char (byte / 16) ∷ hex_char (byte % 16) ∷ print (i + 1) bytes)

unfoldable pub uuid_to_string : List ℕ → List ℕ
uuid_to_string uuid = print 0 uuid
