-- ===== src/Entry/Codec.antt =====
-- lib/entry/entry.cpp: an entry as bytes, behind a header with its size and before its checksum.
pub mod Body
pub mod RoundTrip
mod Runs
use enigma_db.Base.{
  ℕ, zero, suc, ◌+◌, ◌-◌, ◌%◌, ◌^◌, ◌==◌, ltb, Bool, true, false, not, Option, none, some, List, [],
  ◌∷◌, ◌++◌, take, drop, leb, length, if◌then◌else◌,
}
use enigma_db.Base.Strings.{same_bytes}
use enigma_db.Outcome
use enigma_db.Outcome.{Outcome, returned, thrown, crashed, Method}
use enigma_db.Bytes.{
  ByteParser, magic, write_magic_bytes, write_uint16, write_uint32, write_uint64, write_string,
  patch_uint64, read_uint16, read_uint32, read_uint64, read_string, read_byte,
}
use enigma_db.Bytes as Parser
use enigma_db.Crc.{compute_crc32, compute_crc32_vector}
use enigma_db.Field.{Result, given, raised, faulted, ◌>>=◌, asserted}
use enigma_db.Field.Codec.{Field}
use enigma_db.Field.Parser.{write_variant, write_key, read_variant, read_key}
use enigma_db.Entry.{Row, Entry}

unfoldable pub has_column : List ℕ → Row Field → Bool
has_column key [] = false
has_column key ((k, v) ∷ row) = if same_bytes k key then true else has_column key row

-- `rowData_.emplace(key, value)` does nothing if the key is there.
pub emplace : Row Field → List ℕ → Field → Row Field
emplace row key value = if has_column key row then row else row ++ ((key, value) ∷ [])

-- The loop over the row.
pub write_row : List ℕ → Row Field → Result (List ℕ)
write_row out [] = given out
write_row out ((key, value) ∷ row) = asserted (write_string out key) >>= λ out'.
    write_variant out' value >>= λ out''. write_row out'' row

abbrev pub tombstone_byte : Bool → ℕ
tombstone_byte tombstone = if tombstone then 1 else 0

-- What is written between the header and the checksum.
pub write_body : Entry (List Field) Field → List ℕ → Result (List ℕ)
write_body e out = asserted (write_string out e.table_name) >>= λ out₁.
    write_key out₁ e.primary_key >>= λ out₂.
    write_row (write_uint16 out₂ (length e.row_data % 2 ^ 16)) e.row_data >>= λ out₃.
    given (write_uint64 (out₃ ++ (tombstone_byte e.is_tombstone ∷ [])) e.timestamp)

-- The eight bytes that are patched when the size is known.
abbrev pub placeholder : List ℕ
placeholder = 0 ∷ 0 ∷ 0 ∷ 0 ∷ 0 ∷ 0 ∷ 0 ∷ 0 ∷ []

pub serialize : Entry (List Field) Field → Result (List ℕ)
serialize e = write_body e (write_magic_bytes [] ++ placeholder) >>= λ out.
    asserted (patch_uint64 out 5 ((length out + 4) % 2 ^ 64)) >>= λ patched.
    asserted (compute_crc32_vector patched 0 (length patched)) >>= λ checksum.
    given (write_uint32 patched checksum)

-- The loop over the columns with `n` rounds left; `none` is the early return on a corrupt field.
pub read_row : ℕ → Row Field → Method ByteParser (Option (Row Field))
read_row zero row = returned (some row)
read_row (suc n) row = Outcome.◌>>=◌ read_string λ key. Outcome.◌>>=◌ read_variant λ variant.
    elim variant [ none ↦ returned none | some value ↦ read_row n (emplace row key value) ]

-- The end of the body: `static_cast<bool>` of a byte is whether it is not zero.
pub read_tail :
    List ℕ → List Field → Row Field → Method ByteParser (Option (Entry (List Field) Field))
read_tail name key row = Outcome.◌>>=◌ read_byte λ b. Outcome.◌>>=◌ read_uint64 λ stamp. returned (
    some (record {
      table_name = name;
      primary_key = key;
      row_data = row;
      is_tombstone = not (b == 0);
      timestamp = stamp;
    }))

pub read_body : Method ByteParser (Option (Entry (List Field) Field))
read_body = Outcome.◌>>=◌ read_string λ name. Outcome.◌>>=◌ read_key λ key.
    Outcome.◌>>=◌ read_uint16 λ n.
      Outcome.◌>>=◌ (read_row n [])
        λ columns. elim columns [ none ↦ returned none | some row ↦ read_tail name key row ]

-- `computeCRC32(data, 0, totalSize - 4)` against the checksum read: the size is what the bytes say.
pub verify :
    List ℕ
    → ℕ
    → Entry (List Field) Field
    → ℕ
    → Method ByteParser (Option (Entry (List Field) Field))
verify bytes total e expected = elim (compute_crc32 bytes 0 ((total + 2 ^ 64 - 4) % 2 ^ 64)) [
  | none ↦ λ p. crashed
  | some actual ↦ returned (if expected == actual then some e else none)
]

pub read_entry : List ℕ → Method ByteParser (Option (Entry (List Field) Field))
read_entry bytes = Outcome.◌>>=◌ read_uint64 λ total. Outcome.◌>>=◌ read_body λ body. elim body [
  | none ↦ returned none
  | some e ↦ Outcome.◌>>=◌ read_uint32 (verify bytes total e)
]

-- The result of a method of a parser that goes out of scope.
abbrev pub result_of : {A : Type 0} → Outcome ByteParser A → Result A
result_of (returned a p) = given a
result_of (thrown p) = raised
result_of crashed = faulted

-- `deserialize(data, length)`: `bytes` can be read from `data`, and `none` is `std::nullopt`.
pub deserialize : List ℕ → ℕ → Result (Option (Entry (List Field) Field))
deserialize bytes size =
    if ltb (length bytes) 5
    then faulted
    else if same_bytes (take 5 bytes) magic
    then result_of (read_entry bytes (Parser.new (drop 5 bytes) ((size + 2 ^ 64 - 5) % 2 ^ 64)))
    else given none
