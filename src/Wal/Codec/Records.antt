-- ===== src/Wal/Codec/Records.antt =====
-- What lib/wal/wal_codec.hpp writes for an entry, and what it reads from it.
use enigma_db.Base.{
  ℕ, ◌+◌, ◌%◌, ◌^◌, ◌<◌, ◌≡◌, refl, ◌∙◌, sym, ap, ltb, false, none, some, List, [], ◌++◌, arith,
  take, take-append, length, append-nil,
}
use enigma_db.Outcome.{returned, crashed}
use enigma_db.Bytes.Integers.{bytes_of, value_of-bytes_of}
use enigma_db.Field.{given}
use enigma_db.Field.Codec.{Field}
use enigma_db.Entry.{Entry}
use enigma_db.Entry.Codec.{serialize, deserialize}
use enigma_db.Entry.Codec.Body.{Stored, entry_of, IsStorable, body_size}
use enigma_db.Entry.Codec.RoundTrip.{deserialize-serialize_entry}
use enigma_db.Wal.Streams.{Output, write, reading}
use enigma_db.Wal.Streams.Laws.{write-write, read_lem}
use enigma_db.Wal.Codec.{
  FlushMode, wal_magic, finish, write_payload, write_open, write_record, outcome_of, read_payload,
  read_length, read_magic, read_record,
}

-- The record of a payload.
abbrev pub frame : List ℕ → List ℕ
frame payload = wal_magic ++ (bytes_of 4 (length payload) ++ payload)

-- An entry and the payload of its record.
pub record Encoded (e : Stored) : Type 0 where
  pub payload : List ℕ
  pub writes : serialize (entry_of e) ≡ given payload
  pub counts : length payload ≡ body_size e + 17
  pub short : length payload < 2 ^ 32
  pub reads : deserialize payload (length payload) ≡ given (some (entry_of e))

pub encode : (e : Stored) → IsStorable e → body_size e + 17 < 2 ^ 32 → Encoded e
encode e ok small =
    let (payload, writes, counts, reads) = deserialize-serialize_entry e [] ok (omega arith) in
    record {
      payload = payload;
      writes = writes;
      counts = counts;
      short = omega arith;
      reads = ap (λ t. deserialize t (length payload)) (sym (append-nil payload)) ∙ reads;
    }

write_open_lem :
    (mode : FlushMode) (e : Stored) (w : Encoded e) (o : Output)
    → write_open mode (entry_of e) o
      ≡ returned ((9 + length w.payload) % 2 ^ 32) (finish mode (write (frame w.payload) o))
unfolding write_open write_payload
write_open_lem mode e w o =
    let low : length w.payload % 2 ^ 32 ≡ length w.payload = omega (arith, w.short) in
    let all : take (length w.payload) w.payload ≡ w.payload =
      ap (λ t. take (length w.payload) t) (sym (append-nil w.payload)) ∙ take-append w.payload [] in
    let parts =
      write-write (bytes_of 4 (length w.payload)) w.payload (write wal_magic o)
      ∙ write-write wal_magic (bytes_of 4 (length w.payload) ++ w.payload) o in
    rw (w.writes, write_open, low, all, parts) refl

pub write_record_lem :
    (mode : FlushMode) (e : Stored) (w : Encoded e) (o : Output) (path : List ℕ)
    → o.path ≡ some path
    → write_record mode (entry_of e) o
      ≡ returned ((9 + length w.payload) % 2 ^ 32) (finish mode (write (frame w.payload) o))
unfolding write_record
write_record_lem mode e w o path is_open =
    ap (λ p. elim p [ none ↦ crashed | some path' ↦ write_open mode (entry_of e) o ]) is_open
    ∙ write_open_lem mode e w o

read_payload_lem :
    (payload rest : List ℕ)
    → read_payload (length payload) (reading (payload ++ rest))
      ≡ outcome_of (deserialize payload (length payload)) (reading rest)
unfolding read_payload
read_payload_lem payload rest =
    let full : ltb (length payload) (length payload) ≡ false = ground arith in
    rw (read_lem (length payload) payload rest refl, full) refl

pub read_magic_lem :
    (rest : List ℕ) → read_magic (reading (wal_magic ++ rest)) ≡ read_length (reading rest)
unfolding read_magic
read_magic_lem rest = rw (read_lem 5 wal_magic rest refl) refl

pub read_length_lem :
    (n : ℕ) (rest : List ℕ)
    → n < 2 ^ 32
    → read_length (reading (bytes_of 4 n ++ rest)) ≡ read_payload n (reading rest)
unfolding read_length
read_length_lem n rest small =
    rw (read_lem 4 (bytes_of 4 n) rest refl, value_of-bytes_of 4 n small) refl

-- A record whose length fits is read up to its end, whatever its payload.
pub read_record-frame :
    (payload rest : List ℕ)
    → length payload < 2 ^ 32
    → read_record (reading (frame payload ++ rest))
      ≡ outcome_of (deserialize payload (length payload)) (reading rest)
unfolding read_record
read_record-frame payload rest short =
    read_magic_lem (bytes_of 4 (length payload) ++ (payload ++ rest))
    ∙ read_length_lem (length payload) (payload ++ rest) short
    ∙ read_payload_lem payload rest

-- Without an open file the assertion of `writeRecord` fails.
pub write_record_unopened :
    (mode : FlushMode) (e : Entry (List Field) Field) (o : Output)
    → o.path ≡ none
    → write_record mode e o ≡ crashed
unfolding write_record
write_record_unopened mode e o unopened =
    ap (λ p. elim p [ none ↦ crashed | some path' ↦ write_open mode e o ]) unopened

-- A record of an entry of built-in values that fits the format, written into an open stream, is the
-- bytes that `writeRecord` counts, and `readRecord` on them, whatever stands behind them, gives back
-- the entry and stops there.
pub read_record-write_record :
    (mode : FlushMode) (e : Stored) (o : Output) (path rest : List ℕ)
    → o.path ≡ some path
    → IsStorable e
    → body_size e + 26 < 2 ^ 32
    → (bs : List ℕ) × (write_record mode (entry_of e) o
        ≡ returned (length bs) (finish mode (write bs o)))
      × (read_record (reading (bs ++ rest)) ≡ returned (some (entry_of e)) (reading rest))
read_record-write_record mode e o path rest is_open ok small =
    let w = encode e ok (omega arith) in
    let fits : (9 + length w.payload) % 2 ^ 32 ≡ length (frame w.payload) =
      omega (arith, w.counts) in
    (
      frame w.payload,
      rw (← fits) (write_record_lem mode e w o path is_open),
      read_record-frame w.payload rest w.short ∙ ap (λ r. outcome_of r (reading rest)) w.reads,
    )
