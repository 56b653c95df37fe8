-- ===== src/Field/Uuid/RoundTrip.antt =====
-- lib/datatypes/types/uuid.hpp: what uuidToString prints, read by stringToUuid.
use enigma_db.Base.{
  ℕ, ◌+◌, ◌/◌, ◌%◌, ◌<◌, ◌≤◌, ◌≡◌, refl, ◌∙◌, sym, ap, ◌==◌, leb, Bool, true, false, ◌||◌, some,
  List, [], ◌∷◌, ◌++◌, All, arith, length, length-append, append_assoc, append-nil, if◌then◌else◌,
}
use enigma_db.Field.{given}
use enigma_db.Field.Uuid.{hex_digit, stoi, store, parse, string_to_uuid}
use enigma_db.Text.{hex_char, hyphen, print, uuid_to_string}
use enigma_db.Bytes.Integers.{IsByte}

pub hex_digit-hex_char : (n : ℕ) → n < 16 → hex_digit (hex_char n) ≡ some n
unfolding hex_digit hex_char
hex_digit-hex_char n h = ground arith

hex_char_plain : (n : ℕ) → n < 16 → (hex_char n == 45) ≡ false
unfolding hex_char
hex_char_plain n h = ground arith

stoi-hex_char :
    (byte : ℕ) → byte < 256 → stoi (hex_char (byte / 16)) (hex_char (byte % 16)) ≡ given byte
unfolding stoi
stoi-hex_char byte h =
    rw
      (
        hex_digit-hex_char (byte / 16) (omega arith),
        stoi,
        hex_digit-hex_char (byte % 16) (omega arith),
      )
      (ap given (omega arith))

pub store-room :
    (byte : ℕ) (uuid : List ℕ) → length uuid < 16 → store byte uuid ≡ given (uuid ++ (byte ∷ []))
unfolding store
store-room byte uuid room = ground arith

parse_byte :
    (byte : ℕ) (text uuid : List ℕ)
    → byte < 256
    → length uuid < 16
    → parse (hex_char (byte / 16) ∷ hex_char (byte % 16) ∷ text) uuid
      ≡ parse text (uuid ++ (byte ∷ []))
unfolding parse
parse_byte byte text uuid h room =
    let plain = hex_char_plain (byte / 16) (omega arith) in
    let fits : leb 16 (length uuid) ≡ false = ground arith in
    rw (plain, parse, fits, stoi-hex_char byte h, store-room byte uuid room) refl

skip_hyphen :
    (b : Bool) (c d : ℕ) (text uuid : List ℕ)
    → parse ((if b then 45 ∷ [] else []) ++ (c ∷ d ∷ text)) uuid ≡ parse (c ∷ d ∷ text) uuid
unfolding parse
skip_hyphen true c d text uuid = refl
skip_hyphen false c d text uuid = refl

parse-hyphen :
    (i c d : ℕ) (text uuid : List ℕ)
    → parse (hyphen i ++ (c ∷ d ∷ text)) uuid ≡ parse (c ∷ d ∷ text) uuid
unfolding hyphen
parse-hyphen i c d text uuid =
    skip_hyphen (((i == 4) || (i == 6)) || ((i == 8) || (i == 10))) c d text uuid

parse-print :
    (i : ℕ) (bytes uuid : List ℕ)
    → All IsByte bytes
    → length uuid + length bytes ≤ 16
    → parse (print i bytes) uuid ≡ given (uuid ++ bytes)
unfolding parse print
parse-print i [] uuid h room = ap given (sym (append-nil uuid))
parse-print i (byte ∷ bytes) uuid (h, hs) room =
    parse-hyphen i (hex_char (byte / 16)) (hex_char (byte % 16)) (print (i + 1) bytes) uuid
    ∙ parse_byte byte (print (i + 1) bytes) uuid h (omega arith)
    ∙ parse-print (i + 1) bytes (uuid ++ (byte ∷ [])) hs
        (omega (arith, length-append uuid (byte ∷ [])))
    ∙ ap given (append_assoc uuid (byte ∷ []) bytes)

-- What `uuidToString` prints of 16 bytes, `stringToUuid` reads as these bytes.
pub string_to_uuid-uuid_to_string :
    (uuid : List ℕ)
    → All IsByte uuid
    → length uuid ≡ 16
    → string_to_uuid (uuid_to_string uuid) ≡ given uuid
unfolding string_to_uuid uuid_to_string
string_to_uuid-uuid_to_string uuid h counts =
    let full : (length uuid == 16) ≡ true = ground arith in
    rw (parse-print 0 uuid [] h (omega arith), full) refl
