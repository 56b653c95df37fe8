-- ===== src/Keys/Printing.antt =====
-- lib/entry/key.hpp: what keys print.
use enigma_db.Base.{
  ℕ, ◌+◌, ◌-◌, ◌/◌, ◌%◌, ◌^◌, ◌<◌, ◌≡◌, ◌≢◌, refl, ◌∙◌, sym, ap, ap₂, ◌==◌, ltb, ◌||◌, true, false,
  inl, inr, List, [], ◌∷◌, ◌++◌, map, All, All-append, All-each, arith, append_assoc, Bool-cases,
}
use enigma_db.Base.Decimal.{to_string, digits-IsDigit, split_lem}
use enigma_db.Text.{signed_text, bool_text, time_text, uuid_to_string, hex_char, hyphen, print}
use enigma_db.Bytes.Integers.{IsByte}
use enigma_db.Field.{
  given, string, FieldValue, monostate, int32_value, int64_value, double_value, time_point,
  string_value, binary_value, uuid_value, bool_value, ◌>>=◌,
}
use enigma_db.Field.Codec.{Field, value_type}
use enigma_db.Field.Codec as Codec
use enigma_db.Field.Codec.Serialized.{field_of}
use enigma_db.Field.Printed.{value_text, to_string-field_of, IsExact, value_text-injective}
use enigma_db.Keys.{print_parts, key_to_string}

-- The texts of the parts, with ", " between them, and "]".
abbrev key_text : List FieldValue → List ℕ
key_text [] = 93 ∷ []
key_text (v ∷ []) = value_text v ++ (93 ∷ [])
key_text (v ∷ w ∷ vs) = value_text v ++ (44 ∷ 32 ∷ key_text (w ∷ vs))

-- A part, and the parts behind it.
print_more :
    (a b : Field) (bs : List Field) (text rest : List ℕ)
    → Codec.to_string a ≡ given text
    → print_parts (b ∷ bs) ≡ given rest
    → print_parts (a ∷ b ∷ bs) ≡ given (text ++ (44 ∷ 32 ∷ rest))
unfolding print_parts
print_more a b bs text rest prints more =
    ap (λ r. r >>= λ t. print_parts (b ∷ bs) >>= λ rest'. given (t ++ (44 ∷ 32 ∷ rest'))) prints
    ∙ ap (λ r. r >>= λ rest'. given (text ++ (44 ∷ 32 ∷ rest'))) more

print_last :
    (a : Field) (text : List ℕ)
    → Codec.to_string a ≡ given text
    → print_parts (a ∷ []) ≡ given (text ++ [])
unfolding print_parts
print_last a text prints = ap (λ r. r >>= λ t. given (t ++ [])) prints

print_parts-fields :
    (vs : List FieldValue)
    → (text : List ℕ) × (print_parts (map field_of vs) ≡ given text)
      × (text ++ (93 ∷ []) ≡ key_text vs)
print_parts-fields [] = ([], unfold print_parts in refl, refl)
print_parts-fields (v ∷ []) = (
  value_text v ++ [],
  print_last (field_of v) (value_text v) (to_string-field_of v),
  append_assoc (value_text v) [] (93 ∷ []),
)
print_parts-fields (v ∷ w ∷ vs) =
    let (rest, prints, joined) = print_parts-fields (w ∷ vs) in
    (
      value_text v ++ (44 ∷ 32 ∷ rest),
      print_more (field_of v) (field_of w) (map field_of vs) (value_text v) rest
          (to_string-field_of v) prints,
      append_assoc (value_text v) (44 ∷ 32 ∷ rest) (93 ∷ [])
          ∙ ap (λ t. value_text v ++ (44 ∷ 32 ∷ t)) joined,
    )

-- A key of built-in values prints.
key_to_string-fields :
    (vs : List FieldValue) → key_to_string (map field_of vs) ≡ given (91 ∷ key_text vs)
unfolding key_to_string
key_to_string-fields vs =
    let (text, prints, joined) = print_parts-fields vs in
    ap (λ r. r >>= λ t. given (91 ∷ (t ++ (93 ∷ [])))) prints ∙ ap (λ t. given (91 ∷ t)) joined

-- Neither "," nor "]".
abbrev IsInside : ℕ → Type 0
IsInside c = (c ≢ 44) × (c ≢ 93)

inside : (c : ℕ) → ((c == 44) || (c == 93)) ≡ false → IsInside c
inside c h = (λ e. ground (arith, e, h), λ e. ground (arith, e, h))

digits-IsInside : (n : ℕ) → All IsInside (to_string n)
digits-IsInside n =
    All-each (to_string n) (λ c (low, high). (λ e. omega (arith, e), λ e. omega (arith, e)))
      (digits-IsDigit 20 n)

signed_text-IsInside : (w x : ℕ) → All IsInside (signed_text w x)
unfolding signed_text
signed_text-IsInside w x = elim (Bool-cases (ltb x (2 ^ (w - 1)))) [
  | inl positive ↦ rw positive (digits-IsInside x)
  | inr negative ↦ rw negative (inside 45 refl, digits-IsInside (2 ^ w - x))
]

hex_char-IsInside : (n : ℕ) → n < 16 → IsInside (hex_char n)
unfolding hex_char
hex_char-IsInside n h = (λ e. ground (arith, e), λ e. ground (arith, e))

hyphen-IsInside : (i : ℕ) → All IsInside (hyphen i)
unfolding hyphen
hyphen-IsInside i = elim (Bool-cases (((i == 4) || (i == 6)) || ((i == 8) || (i == 10)))) [
  | inl there ↦ rw there (inside 45 refl, tt)
  | inr missing ↦ rw missing tt
]

print-IsInside : (i : ℕ) (bytes : List ℕ) → All IsByte bytes → All IsInside (print i bytes)
unfolding print
print-IsInside i [] h = tt
print-IsInside i (byte ∷ bytes) (h, hs) = All-append IsInside (hyphen i) _ (hyphen-IsInside i) (
  hex_char-IsInside (byte / 16) (omega arith),
  (hex_char-IsInside (byte % 16) (omega arith), print-IsInside (i + 1) bytes hs),
)

-- A value whose text says it all, and which is no string.
abbrev pub IsPart : FieldValue → Type 0
IsPart v = IsExact v × (value_type v ≢ string)

time_text-IsInside : (x : ℕ) → All IsInside (time_text x)
unfolding time_text
time_text-IsInside x =
    All-append IsInside (signed_text 64 x) (110 ∷ 115 ∷ []) (signed_text-IsInside 64 x)
      (inside 110 refl, (inside 115 refl, tt))

value_text-IsInside : (v : FieldValue) → IsPart v → All IsInside (value_text v)
unfolding bool_text uuid_to_string
value_text-IsInside monostate h =
    (inside 110 refl, (inside 117 refl, (inside 108 refl, (inside 108 refl, tt))))
value_text-IsInside (int32_value x) h = signed_text-IsInside 32 x
value_text-IsInside (int64_value x) h = signed_text-IsInside 64 x
value_text-IsInside (double_value x) (exact, other) = absurd exact
value_text-IsInside (time_point x) h = time_text-IsInside x
value_text-IsInside (string_value s) (exact, other) = absurd (other refl)
value_text-IsInside (binary_value bs) (exact, other) = absurd exact
value_text-IsInside (uuid_value bs) ((bytes, counts), other) = print-IsInside 0 bs bytes
value_text-IsInside (bool_value true) h = (inside 49 refl, tt)
value_text-IsInside (bool_value false) h = (inside 48 refl, tt)

key_text-injective :
    (vs ws : List FieldValue)
    → All IsPart vs
    → All IsPart ws
    → map value_type vs ≡ map value_type ws
    → key_text vs ≡ key_text ws
    → vs ≡ ws
key_text-injective [] [] h k types same = refl
key_text-injective [] (w ∷ ws) h k types same = absurd (cc types)
key_text-injective (v ∷ vs) [] h k types same = absurd (cc types)
key_text-injective (v ∷ []) (w ∷ []) (h, hs) (k, ks) types same =
    let (texts, ends) =
      split_lem IsInside 93 (value_text v) (value_text w) [] [] (λ (a, b). b refl)
        (value_text-IsInside v h) (value_text-IsInside w k) same in
    ap (λ t. t ∷ []) (value_text-injective v w (h.0) (k.0) (cc types) texts)
key_text-injective (v ∷ []) (w ∷ w' ∷ ws) h k types same = absurd (cc types)
key_text-injective (v ∷ v' ∷ vs) (w ∷ []) h k types same = absurd (cc types)
key_text-injective (v ∷ v' ∷ vs) (w ∷ w' ∷ ws) (h, hs) (k, ks) types same =
    let (texts, ends) =
      split_lem IsInside 44 (value_text v) (value_text w) _ _ (λ (a, b). a refl)
        (value_text-IsInside v h) (value_text-IsInside w k) same in
    ap₂ (λ t ts. t ∷ ts) (value_text-injective v w (h.0) (k.0) (cc types) texts)
      (key_text-injective (v' ∷ vs) (w' ∷ ws) hs ks (cc types) (cc ends))

-- Two keys of a table, whose parts have the same built-in types, none of them a double, a string or a
-- binary value, that print the same are the same.
pub key_to_string_determines :
    (vs ws : List FieldValue)
    → All IsPart vs
    → All IsPart ws
    → map value_type vs ≡ map value_type ws
    → key_to_string (map field_of vs) ≡ key_to_string (map field_of ws)
    → vs ≡ ws
key_to_string_determines vs ws h k types same =
    key_text-injective vs ws h k types
      (cc (sym (key_to_string-fields vs) ∙ same ∙ key_to_string-fields ws))
