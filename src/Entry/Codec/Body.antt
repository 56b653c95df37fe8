-- ===== src/Entry/Codec/Body.antt =====
-- The body of an entry in lib/entry/entry.cpp, written and read.
use enigma_db.Base.{
  ℕ, suc, ◌+◌, ◌%◌, ◌^◌, ◌<◌, ◌≡◌, refl, sym, ap, Bool, true, false, some, List, [], ◌∷◌, ◌++◌,
  arith, length, All, map, append_assoc, append-nil,
}
use enigma_db.Outcome
use enigma_db.Outcome.{returned}
use enigma_db.Bytes.{
  write_string, write_uint16, write_uint64, read_uint16, read_uint64, read_byte, read_string,
}
use enigma_db.Bytes.Reads.{returned-Reads, map-Reads}
use enigma_db.Bytes.Integers.{bytes_of}
use enigma_db.Bytes.RoundTrip.{write_uint64_lem, read_uint64-Reads}
use enigma_db.Bytes.Strings.{read_byte-Reads}
use enigma_db.Field.{given, asserted, FieldValue}
use enigma_db.Field.Codec.{Field}
use enigma_db.Field.Codec.Serialized.{value_size, field_of}
use enigma_db.Field.Parser.{write_variant, read_variant, write_key, read_key}
use enigma_db.Field.Parser.Written.{Written, bind-Written}
use enigma_db.Field.Parser.RoundTrip.{
  IsPart, parts_size, string-Written, variant-Written, uint16-Written, key-Written,
}
use enigma_db.Entry.{Row, Entry}
use enigma_db.Entry.Codec.{
  has_column, emplace, write_row, tombstone_byte, write_body, read_row, read_tail, read_body,
}

abbrev pub Column : Type 0
Column = List ℕ × FieldValue

abbrev pub row_of : List Column → Row Field
row_of [] = []
row_of ((name, v) ∷ columns) = (name, field_of v) ∷ row_of columns

-- An entry of built-in values.
pub record Stored : Type 0 where
  pub table_name : List ℕ
  pub key : List FieldValue
  pub columns : List Column
  pub is_tombstone : Bool
  pub timestamp : ℕ

abbrev pub entry_of : Stored → Entry (List Field) Field
entry_of e = record {
  table_name = e.table_name;
  primary_key = map field_of e.key;
  row_data = row_of e.columns;
  is_tombstone = e.is_tombstone;
  timestamp = e.timestamp;
}

abbrev pub IsColumn : Column → Type 0
IsColumn c = (length c.0 < 2 ^ 16) × IsPart c.1

-- No name stands in the row before, or twice among the columns.
abbrev pub AreDistinct : Row Field → List Column → Type 0
AreDistinct row [] = Unit
AreDistinct row ((name, v) ∷ columns) =
    (has_column name row ≡ false) × AreDistinct (row ++ ((name, field_of v) ∷ [])) columns

abbrev pub row_size : List Column → ℕ
row_size [] = 0
row_size ((name, v) ∷ columns) = length name + 2 + (value_size v + 3 + row_size columns)

-- What fits the sizes of the format: 16 bits for names, for the bytes of a value and for the number
-- of parts and columns.
pub record IsStorable (e : Stored) : Type 0 where
  pub named : length e.table_name < 2 ^ 16
  pub few_parts : length e.key < 2 ^ 16
  pub parts : All IsPart e.key
  pub few_columns : length e.columns < 2 ^ 16
  pub column_values : All IsColumn e.columns
  pub distinct : AreDistinct [] e.columns
  pub stamp : e.timestamp < 2 ^ 64

abbrev pub body_size : Stored → ℕ
body_size e =
    length e.table_name + 2 + (2 + parts_size e.key + (2 + (row_size e.columns + (1 + 8))))

length-row_of : (columns : List Column) → length (row_of columns) ≡ length columns
length-row_of [] = refl
length-row_of ((name, v) ∷ columns) = ap suc (length-row_of columns)

row-Written :
    (columns : List Column) (row : Row Field)
    → All IsColumn columns
    → AreDistinct row columns
    → Written
        (λ out. write_row out (row_of columns))
        (read_row (length columns) row)
        (some (row ++ row_of columns))
        (row_size columns)
unfolding write_row read_row emplace
row-Written [] row h d = record {
  bytes = [];
  writes = λ out. ap given (sym (append-nil out));
  counts = refl;
  reads = rw (append-nil row) (returned-Reads (some row));
}
row-Written ((name, v) ∷ columns) row ((short, part), hs) (new, ds) =
    let grown = row ++ ((name, field_of v) ∷ []) in
    let more : Written (λ out. write_row out (row_of columns))
        (read_row (length columns) (emplace row name (field_of v))) (some (grown ++ row_of columns))
        (row_size columns) =
      rw new (row-Written columns grown hs ds) in
    rw (← append_assoc row ((name, field_of v) ∷ []) (row_of columns)) (
      bind-Written (λ out. asserted (write_string out name)) _ read_string _ name _
        (length name + 2) (value_size v + 3 + row_size columns) (string-Written name short)
        (bind-Written (λ out. write_variant out (field_of v)) _ read_variant _ (some (field_of v)) _
          (value_size v + 3) (row_size columns) (variant-Written v part) more))

byte-Written : (b : ℕ) → Written (λ out. given (out ++ (b ∷ []))) read_byte b 1
byte-Written b = record {
  bytes = b ∷ [];
  writes = λ out. refl;
  counts = refl;
  reads = read_byte-Reads b;
}

-- The time stamp is read last, into whatever is made of it.
stamp-Written :
    {A : Type 0} (f : ℕ → A) (stamp : ℕ)
    → stamp < 2 ^ 64
    → Written
        (λ out. given (write_uint64 out stamp))
        (Outcome.◌>>=◌ read_uint64 λ x. returned (f x))
        (f stamp)
        8
stamp-Written f stamp h = record {
  bytes = bytes_of 8 stamp;
  writes = λ out. ap given (write_uint64_lem out stamp);
  counts = refl;
  reads = map-Reads read_uint64 f stamp (bytes_of 8 stamp) (read_uint64-Reads stamp h);
}

tail-Written :
    (name : List ℕ) (key : List Field) (row : Row Field) (flag : Bool) (stamp : ℕ)
    → stamp < 2 ^ 64
    → Written
        (λ out. given (write_uint64 (out ++ (tombstone_byte flag ∷ [])) stamp))
        (read_tail name key row)
        (some (record {
          table_name = name;
          primary_key = key;
          row_data = row;
          is_tombstone = flag;
          timestamp = stamp;
        }))
        (1 + 8)
unfolding read_tail
tail-Written name key row false stamp h =
    bind-Written (λ out. given (out ++ (0 ∷ []))) (λ out. given (write_uint64 out stamp)) read_byte
      _ 0 _ 1 8 (byte-Written 0) (stamp-Written _ stamp h)
tail-Written name key row true stamp h =
    bind-Written (λ out. given (out ++ (1 ∷ []))) (λ out. given (write_uint64 out stamp)) read_byte
      _ 1 _ 1 8 (byte-Written 1) (stamp-Written _ stamp h)

-- The body of every storable entry.
pub body-Written :
    (e : Stored)
    → IsStorable e
    → Written (write_body (entry_of e)) read_body (some (entry_of e)) (body_size e)
unfolding write_body read_body
body-Written e ok =
    let low : length (row_of e.columns) % 2 ^ 16 ≡ length e.columns =
      omega (arith, length-row_of e.columns, ok.few_columns) in
    let count : Written (λ out. given (write_uint16 out (length (row_of e.columns) % 2 ^ 16)))
        read_uint16 (length e.columns) 2 =
      rw low (uint16-Written (length e.columns) ok.few_columns) in
    bind-Written (λ out. asserted (write_string out e.table_name)) _ read_string _ e.table_name _
      (length e.table_name + 2) _ (string-Written e.table_name ok.named)
      (bind-Written (λ out. write_key out (map field_of e.key)) _ read_key _ (map field_of e.key) _
        (2 + parts_size e.key) _ (key-Written e.key ok.few_parts ok.parts)
        (bind-Written (λ out. given (write_uint16 out (length (row_of e.columns) % 2 ^ 16))) _
          read_uint16 _ (length e.columns) _ 2 _ count
          (bind-Written (λ out. write_row out (row_of e.columns)) _ (read_row (length e.columns) [])
            _ (some (row_of e.columns)) _ (row_size e.columns) (1 + 8)
            (row-Written e.columns [] ok.column_values ok.distinct)
            (tail-Written e.table_name (map field_of e.key) (row_of e.columns) e.is_tombstone
              e.timestamp ok.stamp))))
