-- ===== src/Field/Uuid.antt =====
-- lib/datatypes/types/uuid.hpp: a UUID from text, and its order. A UUID is the list of its bytes, and
-- a text that of its characters.
pub mod RoundTrip
pub mod Pairs
pub mod Accepted
use enigma_db.Base.{
  ℕ, zero, suc, ◌+◌, ◌-◌, ◌*◌, ◌/◌, ◌%◌, ◌==◌, ltb, leb, Bool, true, false, ◌&&◌, ◌||◌, not, Option,
  none, some, List, [], ◌∷◌, ◌++◌, length, if◌then◌else◌,
}
use enigma_db.Field.{Result, given, raised, faulted, ◌>>=◌}

-- The value of a hexadecimal digit.
unfoldable pub hex_digit : ℕ → Option ℕ
hex_digit c =
    if leb 48 c && leb c 57
    then some (c - 48)
    else if leb 97 c && leb c 102
    then some (c - 87)
    else if leb 65 c && leb c 70
    then some (c - 55)
    else none

-- `isspace` in the "C" locale.
pub is_space : ℕ → Bool
is_space c = (c == 32) || (leb 9 c && leb c 13)

pub one_digit : ℕ → Result ℕ
one_digit c = elim (hex_digit c) [ none ↦ raised | some d ↦ given d ]

-- `std::stoi` in base 16 of two characters, the first of which is no `-`: white space and a sign may
-- stand in front of a digit, and what follows the digits is not looked at.
unfoldable pub stoi : ℕ → ℕ → Result ℕ
stoi c d = elim (hex_digit c) [
  | some x ↦ elim (hex_digit d) [ none ↦ given x | some y ↦ given (x * 16 + y) ]
  | none ↦ if is_space c || (c == 43) then one_digit d else raised
]

-- `uuid[j++] = byte`: the array has 16 bytes, and a write behind them is a fault.
unfoldable pub store : ℕ → List ℕ → Result (List ℕ)
store byte uuid = if ltb (length uuid) 16 then given (uuid ++ (byte ∷ [])) else faulted

-- The loop of `stringToUuid`, with the bytes that it has read.
unfoldable pub parse : List ℕ → List ℕ → Result (List ℕ)
parse [] uuid = given uuid
parse (c ∷ []) uuid = if c == 45 then given uuid else raised
parse (c ∷ d ∷ text) uuid = elim (c == 45) [
  | true ↦ parse (d ∷ text) uuid
  | false ↦ elim (leb 16 (length uuid)) [
    | true ↦ raised
    | false ↦ stoi c d >>= λ byte. store byte uuid >>= λ uuid'. parse text uuid'
  ]
]

unfoldable pub string_to_uuid : List ℕ → Result (List ℕ)
string_to_uuid text = parse text [] >>= λ uuid. if length uuid == 16 then given uuid else raised

-- `std::memcmp(x, y, 16) < 0`
pub uuid_less : List ℕ → List ℕ → Bool
uuid_less [] ys = false
uuid_less (x ∷ xs) [] = false
uuid_less (x ∷ xs) (y ∷ ys) = if ltb x y then true else if ltb y x then false else uuid_less xs ys
