-- ===== src/Keys.antt =====
-- lib/entry/key.hpp and key.cpp: keys, compared part by part, and built from a row. A `Key` is the
-- list of its parts.
pub mod Ranks
pub mod Order
pub mod Printing
mod Runs
use enigma_db.Base.{
  ℕ, zero, suc, ◌==◌, Bool, true, false, Option, none, some, List, [], ◌∷◌, ◌++◌, length,
  if◌then◌else◌,
}
use enigma_db.Base.Strings.{same_bytes}
use enigma_db.Field.{Result, given, raised, faulted, ◌>>=◌}
use enigma_db.Field.Codec.{Field, field_less, field_equal, to_string}
use enigma_db.Entry.{Row}

-- `operator<`: the loop over the parts that both keys have, and then the sizes.
pub key_less : List Field → List Field → Result Bool
key_less [] [] = given false
key_less [] (b ∷ bs) = given true
key_less (a ∷ as') [] = given false
key_less (a ∷ as') (b ∷ bs) = field_less a b >>= λ before. elim before [
  | true ↦ given true
  | false ↦ field_less b a >>= λ after. elim after [ true ↦ given false | false ↦ key_less as' bs ]
]

-- `operator==` of two vectors of the same size.
unfoldable pub equal_parts : List Field → List Field → Result Bool
equal_parts [] bs = given true
equal_parts (a ∷ as') [] = given true
equal_parts (a ∷ as') (b ∷ bs) =
    field_equal a b >>= λ same. elim same [ true ↦ equal_parts as' bs | false ↦ given false ]

unfoldable pub key_equal : List Field → List Field → Result Bool
key_equal as' bs = if length as' == length bs then equal_parts as' bs else given false

-- `row.find(column)`
unfoldable pub find_column : List ℕ → Row Field → Option Field
find_column column [] = none
find_column column ((name, v) ∷ row) =
    if same_bytes name column then some v else find_column column row

-- The loop of `buildKeyFromRow`, with the parts that it has found.
pub key_parts : List (List ℕ) → Row Field → List Field → Result (List Field)
key_parts [] row parts = given parts
key_parts (column ∷ columns) row parts = elim (find_column column row) [
  | none ↦ raised
  | some v ↦ key_parts columns row (parts ++ (v ∷ []))
]

pub build_key_from_row : List (List ℕ) → Row Field → Result (List Field)
build_key_from_row columns row = key_parts columns row []

-- The loop of `toString`: ", " stands behind every part but the last one.
pub print_parts : List Field → Result (List ℕ)
print_parts [] = given []
print_parts (a ∷ as') = to_string a >>= λ text.
    print_parts as' >>= λ rest. given (text ++ elim as' [ [] ↦ rest | b ∷ bs ↦ 44 ∷ 32 ∷ rest ])

pub key_to_string : List Field → Result (List ℕ)
key_to_string parts = print_parts parts >>= λ text. given (91 ∷ (text ++ (93 ∷ [])))
