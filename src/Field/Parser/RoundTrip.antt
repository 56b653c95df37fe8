-- ===== src/Field/Parser/RoundTrip.antt =====
-- Fields and keys written by lib/utils/byte_parser.cpp are parsed back.
use enigma_db.Base.{
  ℕ, suc, ◌+◌, ◌%◌, ◌^◌, ◌≤◌, ◌<◌, ◌≡◌, refl, ◌∙◌, sym, ap, ltb, some, List, [], ◌∷◌, ◌++◌, false,
  arith, drop-append, length, All, map, append_assoc, append-nil,
}
use enigma_db.Outcome.{returned}
use enigma_db.Bytes.{write_uint16, read_uint16, write_string, read_string}
use enigma_db.Bytes.Strings.{string_bytes, write_string-string_bytes, read_string-Reads}
use enigma_db.Bytes.Reads.{at, behind, Reads, returned-Reads, bind-Reads}
use enigma_db.Bytes.Integers.{bytes_of}
use enigma_db.Bytes.RoundTrip.{write_uint16_lem, read_uint16-Reads}
use enigma_db.Field.{given, asserted, FieldValue}
use enigma_db.Field.Codec.{Field, deserialize}
use enigma_db.Field.Codec.RoundTrip.{field_bytes}
use enigma_db.Field.Codec.Serialized.{IsValue, value_size, field_of}
use enigma_db.Field.Parser.Written.{Written, bind-Written}
use enigma_db.Field.Parser.{
  write_variant, read_variant, read_variant_body, write_parts, write_key, read_parts, read_key,
}

-- A value whose bytes, with that of its type, are at most 65535.
abbrev pub IsPart : FieldValue → Type 0
IsPart v = IsValue v × (value_size v < 65535)

variant_body :
    (v : FieldValue) (body : List ℕ)
    → ((rest : List ℕ) → deserialize (body ++ rest) (length body) ≡ given (field_of v))
    → Reads (read_variant_body (length body)) (some (field_of v)) body
unfolding read_variant_body
variant_body v body reads before rest n enough =
    let fits : ltb n (length before + length body) ≡ false = ground arith in
    rw (fits, drop-append before (body ++ rest), reads rest)
      (ap (returned (some (field_of v))) (behind before body rest n (length body) refl))

pub variant-Written :
    (v : FieldValue)
    → IsPart v
    → Written
        (λ out. write_variant out (field_of v))
        read_variant
        (some (field_of v))
        (value_size v + 3)
unfolding write_variant read_variant
variant-Written v (h, short) =
    let (body, serializes, size, reads) = field_bytes v h in
    let low : length body % 2 ^ 16 ≡ length body = omega arith in
    record {
      bytes = bytes_of 2 (length body) ++ body;
      writes = λ out.
          rw (serializes, low)
            (ap (λ t. given (t ++ body)) (write_uint16_lem out (length body))
              ∙ ap given (append_assoc out (bytes_of 2 (length body)) body));
      counts = omega (arith, size);
      reads =
          bind-Reads read_uint16 read_variant_body (length body) (some (field_of v))
            (bytes_of 2 (length body)) body (read_uint16-Reads (length body) (omega arith))
            (variant_body v body reads);
    }

-- For a built-in value whose bytes, with that of its type, are at most 65535 `writeVariant`
-- appends to any vector what `readVariant` reads as the field, whatever follows, if the parser was
-- told at least the length up to there; the parser then stands behind the field.
pub read_variant-write_variant :
    (out : List ℕ) (v : FieldValue) (rest : List ℕ) (n : ℕ)
    → IsPart v
    → length out + value_size v + 3 ≤ n
    → (bs : List ℕ) × (write_variant out (field_of v) ≡ given (out ++ bs))
      × (length bs ≡ value_size v + 3)
      × (read_variant (at out (bs ++ rest) n)
          ≡ returned (some (field_of v)) (at (out ++ bs) rest n))
read_variant-write_variant out v rest n h long =
    let w = variant-Written v h in
    (w.bytes, w.writes out, w.counts, w.reads out rest n (omega (arith, w.counts)))

pub string-Written :
    (s : List ℕ)
    → length s < 2 ^ 16
    → Written (λ out. asserted (write_string out s)) read_string s (length s + 2)
string-Written s h = record {
  bytes = string_bytes s;
  writes = λ out. ap asserted (write_string-string_bytes out s h);
  counts = omega arith;
  reads = read_string-Reads s h;
}

abbrev pub parts_size : List FieldValue → ℕ
parts_size [] = 0
parts_size (v ∷ vs) = value_size v + 3 + parts_size vs

length-map : (vs : List FieldValue) → length (map field_of vs) ≡ length vs
length-map [] = refl
length-map (v ∷ vs) = ap suc (length-map vs)

parts-Written :
    (vs : List FieldValue) (before : List Field)
    → All IsPart vs
    → Written
        (λ out. write_parts out (map field_of vs))
        (read_parts (length vs) before)
        (before ++ map field_of vs)
        (parts_size vs)
unfolding write_parts read_parts
parts-Written [] before h = record {
  bytes = [];
  writes = λ out. ap given (sym (append-nil out));
  counts = refl;
  reads = rw (append-nil before) (returned-Reads before);
}
parts-Written (v ∷ vs) before (h, hs) =
    rw (← append_assoc before (field_of v ∷ []) (map field_of vs)) (
      bind-Written (λ out. write_variant out (field_of v))
        (λ out. write_parts out (map field_of vs)) read_variant _ (some (field_of v))
        ((before ++ (field_of v ∷ [])) ++ map field_of vs) (value_size v + 3) (parts_size vs)
        (variant-Written v h) (parts-Written vs (before ++ (field_of v ∷ [])) hs))

pub uint16-Written :
    (v : ℕ) → v < 2 ^ 16 → Written (λ out. given (write_uint16 out v)) read_uint16 v 2
uint16-Written v h = record {
  bytes = bytes_of 2 v;
  writes = λ out. ap given (write_uint16_lem out v);
  counts = refl;
  reads = read_uint16-Reads v h;
}

pub key-Written :
    (vs : List FieldValue)
    → length vs < 2 ^ 16
    → All IsPart vs
    → Written
        (λ out. write_key out (map field_of vs))
        read_key
        (map field_of vs)
        (2 + parts_size vs)
unfolding write_key read_key
key-Written vs few h =
    let low : length (map field_of vs) % 2 ^ 16 ≡ length vs = omega (arith, length-map vs) in
    rw low (
      bind-Written (λ out. given (write_uint16 out (length vs)))
        (λ out. write_parts out (map field_of vs)) read_uint16 (λ size. read_parts size [])
        (length vs) (map field_of vs) 2 (parts_size vs) (uint16-Written (length vs) few)
        (parts-Written vs [] h))

-- For at most 65535 such values `writeKey` appends to any vector what `readKey` reads as the same
-- parts, whatever follows, if the parser was told at least the length up to there; the parser then
-- stands behind the key.
pub read_key-write_key :
    (out : List ℕ) (vs : List FieldValue) (rest : List ℕ) (n : ℕ)
    → length vs < 2 ^ 16
    → All IsPart vs
    → length out + 2 + parts_size vs ≤ n
    → (bs : List ℕ) × (write_key out (map field_of vs) ≡ given (out ++ bs))
      × (length bs ≡ parts_size vs + 2)
      × (read_key (at out (bs ++ rest) n) ≡ returned (map field_of vs) (at (out ++ bs) rest n))
read_key-write_key out vs rest n few h long =
    let w = key-Written vs few h in
    (w.bytes, w.writes out, omega (arith, w.counts), w.reads out rest n (omega (arith, w.counts)))
