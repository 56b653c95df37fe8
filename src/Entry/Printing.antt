-- ===== src/Entry/Printing.antt =====
-- lib/entry/entry.hpp and entry.cpp: `operator<<` and `toHex`.
use enigma_db.Base.{
  ℕ, ◌+◌, ◌*◌, ◌/◌, ◌%◌, ◌≡◌, refl, ap, Option, none, some, List, [], ◌∷◌, ◌++◌, All, arith, length,
  if◌then◌else◌,
}
use enigma_db.Base.Decimal.{to_string}
use enigma_db.Text.{hex_char}
use enigma_db.Bytes.Integers.{IsByte}
use enigma_db.Field.{Result, given, ◌>>=◌}
use enigma_db.Field.Codec.{Field}
use enigma_db.Field.Uuid.{hex_digit}
use enigma_db.Field.Uuid.RoundTrip.{hex_digit-hex_char}
use enigma_db.Entry.{Entry}
use enigma_db.Entry.Codec.{serialize}

-- `operator<<`: "[", the table, "] ", " {", "} ", "[DELETED]" if it is, " @" and the time stamp.
pub print_entry : {K F : Type 0} → Entry K F → List ℕ
print_entry e =
    (91 ∷ [])
    ++ (e.table_name
        ++ ((93 ∷ 32 ∷ 32 ∷ 123 ∷ 125 ∷ 32 ∷ [])
            ++ ((if e.is_tombstone then 91 ∷ 68 ∷ 69 ∷ 76 ∷ 69 ∷ 84 ∷ 69 ∷ 68 ∷ 93 ∷ [] else [])
                ++ ((32 ∷ 64 ∷ []) ++ to_string e.timestamp))))

-- The loop of `toHex`: two digits and a blank.
pub hex_bytes : List ℕ → List ℕ
hex_bytes [] = []
hex_bytes (b ∷ bs) = hex_char (b / 16) ∷ hex_char (b % 16) ∷ 32 ∷ hex_bytes bs

pub to_hex : Entry (List Field) Field → Result (List ℕ)
to_hex e = serialize e >>= λ bs. given (hex_bytes bs)

-- The bytes that pairs of digits stand for.
pub read_hex : List ℕ → Option (List ℕ)
read_hex [] = some []
read_hex (h ∷ []) = none
read_hex (h ∷ l ∷ []) = none
read_hex (h ∷ l ∷ blank ∷ text) = elim (hex_digit h) [
  | none ↦ none
  | some x ↦ elim (hex_digit l) [
    | none ↦ none
    | some y ↦ elim (read_hex text) [ none ↦ none | some bs ↦ some ((x * 16 + y) ∷ bs) ]
  ]
]

read_hex-hex_bytes : (bs : List ℕ) → All IsByte bs → read_hex (hex_bytes bs) ≡ some bs
unfolding read_hex hex_bytes
read_hex-hex_bytes [] h = refl
read_hex-hex_bytes (b ∷ bs) (h, hs) =
    rw
      (
        hex_digit-hex_char (b / 16) (omega arith),
        read_hex,
        hex_digit-hex_char (b % 16) (omega arith),
        read_hex,
        read_hex-hex_bytes bs hs,
      )
      (ap (λ n. some (n ∷ bs)) (omega arith))

length-hex_bytes : (bs : List ℕ) → length (hex_bytes bs) ≡ 3 * length bs
unfolding hex_bytes
length-hex_bytes [] = refl
length-hex_bytes (b ∷ bs) = omega (arith, length-hex_bytes bs)

-- `toHex` of an entry that is serialized into bytes prints three characters for each, and the pairs of
-- digits among them stand for these bytes.
pub read_hex-to_hex :
    (e : Entry (List Field) Field) (bs : List ℕ)
    → serialize e ≡ given bs
    → All IsByte bs
    → (text : List ℕ) × (to_hex e ≡ given text)
      × (length text ≡ 3 * length bs)
      × (read_hex text ≡ some bs)
unfolding to_hex
read_hex-to_hex e bs writes h = (
  hex_bytes bs,
  ap (λ r. r >>= λ bs'. given (hex_bytes bs')) writes,
  length-hex_bytes bs,
  read_hex-hex_bytes bs h,
)
