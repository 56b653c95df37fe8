-- ===== src/Field/Parser.antt =====
-- lib/utils/byte_parser.cpp: fields and keys, written into a vector of bytes and parsed from it.
pub mod Written
pub mod RoundTrip
use enigma_db.Base.{
  ℕ, zero, suc, ◌+◌, ◌%◌, ◌^◌, ltb, Option, none, some, List, [], ◌∷◌, ◌++◌, drop, length,
  if◌then◌else◌,
}
use enigma_db.Outcome
use enigma_db.Outcome.{Outcome, returned, thrown, crashed, Method}
use enigma_db.Bytes.{ByteParser, advance, write_uint16, read_uint16}
use enigma_db.Field.{Result, given, raised, faulted, ◌>>=◌}
use enigma_db.Field.Codec.{Field, serialize, deserialize}

-- A size above 65535 is cut to its low 16 bits.
pub write_variant : List ℕ → Field → Result (List ℕ)
write_variant out f = serialize f >>= λ serialized.
    given (write_uint16 out (length serialized % 2 ^ 16) ++ serialized)

-- The part behind the size.
pub read_variant_body : ℕ → Method ByteParser (Option Field)
read_variant_body size p =
    if ltb p.length (p.cursor + size)
    then returned none p
    else elim (deserialize (drop p.cursor p.bytes) size) [
      | given f ↦ returned (some f) (advance size p)
      | raised ↦ thrown p
      | faulted ↦ crashed
    ]

pub read_variant : Method ByteParser (Option Field)
read_variant = Outcome.◌>>=◌ read_uint16 read_variant_body

-- The loop over the parts of a key.
pub write_parts : List ℕ → List Field → Result (List ℕ)
write_parts out [] = given out
write_parts out (part ∷ parts) = write_variant out part >>= λ out'. write_parts out' parts

pub write_key : List ℕ → List Field → Result (List ℕ)
write_key out parts = write_parts (write_uint16 out (length parts % 2 ^ 16)) parts

-- The loop of `readKey` with `n` rounds left, behind the parts that it has read.
pub read_parts : ℕ → List Field → Method ByteParser (List Field)
read_parts zero parts = returned parts
read_parts (suc n) parts =
    Outcome.◌>>=◌ read_variant
      λ val. elim val [ none ↦ thrown | some f ↦ read_parts n (parts ++ (f ∷ [])) ]

pub read_key : Method ByteParser (List Field)
read_key = Outcome.◌>>=◌ read_uint16 λ size. read_parts size []
