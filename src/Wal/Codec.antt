-- ===== src/Wal/Codec.antt =====
-- lib/wal/wal_codec.hpp: the record of an entry in a stream.
pub mod Records
pub mod Torn
pub mod Progress
use enigma_db.Base.{
  ℕ, zero, suc, ◌+◌, ◌%◌, ◌^◌, ltb, Bool, true, false, Option, none, some, List, [], ◌∷◌, ◌++◌,
  take, length, if◌then◌else◌,
}
use enigma_db.Base.Strings.{same_bytes}
use enigma_db.Outcome.{Outcome, returned, thrown, crashed, Method}
use enigma_db.Bytes.Integers.{bytes_of, value_of}
use enigma_db.Field.{Result, given, raised, faulted}
use enigma_db.Field.Codec.{Field}
use enigma_db.Entry.{Entry}
use enigma_db.Entry.Codec.{serialize, deserialize}
use enigma_db.Wal.Streams.{Output, write, flush, Input, read}

pub data FlushMode : Type 0 where
  no_flush force_flush : FlushMode

-- "WAL01"
abbrev pub wal_magic : List ℕ
wal_magic = 87 ∷ 65 ∷ 76 ∷ 48 ∷ 49 ∷ []

abbrev pub finish : FlushMode → Output → Output
finish no_flush o = o
finish force_flush o = flush o

-- The part behind the serialization: the length is a `uint32_t`.
pub write_payload : FlushMode → List ℕ → Output → Output
write_payload mode serialized o =
    let payload_length = length serialized % 2 ^ 32 in
    finish mode (write (take payload_length serialized) (write (bytes_of 4 payload_length) o))

-- The magic bytes are in the stream when the serialization fails.
pub write_open : FlushMode → Entry (List Field) Field → Method Output ℕ
write_open mode e o = elim (serialize e) [
  | given serialized ↦
      returned ((5 + 4 + length serialized % 2 ^ 32) % 2 ^ 32)
        (write_payload mode serialized (write wal_magic o))
  | raised ↦ thrown (write wal_magic o)
  | faulted ↦ crashed
]

-- `writeRecord`
pub write_record : FlushMode → Entry (List Field) Field → Method Output ℕ
write_record mode e o = elim o.path [ none ↦ crashed | some path ↦ write_open mode e o ]

-- What the deserialization of the payload makes of the read.
abbrev pub outcome_of : {A : Type 0} → Result A → Method Input A
outcome_of (given a) s = returned a s
outcome_of raised s = thrown s
outcome_of faulted s = crashed

-- The parts of `readRecord`, from the last to the first; `none` is `std::nullopt`.
pub read_payload : ℕ → Method Input (Option (Entry (List Field) Field))
read_payload payload_length s =
    let (payload, s') = read payload_length s in
    if ltb (length payload) payload_length
    then returned none s'
    else outcome_of (deserialize payload (length payload)) s'

pub read_length : Method Input (Option (Entry (List Field) Field))
read_length s =
    let (number, s') = read 4 s in
    if ltb (length number) 4 then returned none s' else read_payload (value_of number) s'

pub read_magic : Method Input (Option (Entry (List Field) Field))
read_magic s =
    let (magic, s') = read 5 s in
    if ltb (length magic) 5
    then returned none s'
    else if same_bytes magic wal_magic
    then read_length s'
    else returned none s'

pub read_record : Method Input (Option (Entry (List Field) Field))
read_record s = if s.is_open then read_magic s else crashed
