-- ===== src/Wal/Codec/Torn.antt =====
-- `readRecord` of lib/wal/wal_codec.hpp in front of a record that was not written to its end.
use enigma_db.Base.{
  ℕ, ◌+◌, ◌^◌, ◌<◌, ◌≡◌, refl, ◌∙◌, ap, ltb, true, none, inl, inr, List, [], ◌++◌, arith, length,
  split-append, Bool-cases,
}
use enigma_db.Outcome.{returned}
use enigma_db.Bytes.Integers.{bytes_of}
use enigma_db.Wal.Streams.{reading, ended}
use enigma_db.Wal.Streams.Laws.{read_past}
use enigma_db.Wal.Codec.{wal_magic, read_payload, read_length, read_magic, read_record}
use enigma_db.Wal.Codec.Records.{frame, read_magic_lem, read_length_lem}

-- The first bytes of the record of a payload, without the last one at least.
pub record IsTorn (payload tail : List ℕ) : Type 0 where
  pub lost : List ℕ
  pub whole : tail ++ lost ≡ frame payload
  pub missing : length tail < length (frame payload)

payload_torn :
    (n : ℕ) (tail : List ℕ) → length tail < n → read_payload n (reading tail) ≡ returned none ended
unfolding read_payload
payload_torn n tail short =
    let cut : ltb (length tail) n ≡ true = ground arith in rw (read_past n tail short, cut) refl

length_torn : (tail : List ℕ) → length tail < 4 → read_length (reading tail) ≡ returned none ended
unfolding read_length
length_torn tail short =
    let cut : ltb (length tail) 4 ≡ true = ground arith in rw (read_past 4 tail short, cut) refl

magic_torn : (tail : List ℕ) → length tail < 5 → read_magic (reading tail) ≡ returned none ended
unfolding read_magic
magic_torn tail short =
    let cut : ltb (length tail) 5 ≡ true = ground arith in rw (read_past 5 tail short, cut) refl

behind_length :
    (payload tail lost : List ℕ)
    → length payload < 2 ^ 32
    → tail ++ lost ≡ bytes_of 4 (length payload) ++ payload
    → length tail < 4 + length payload
    → read_length (reading tail) ≡ returned none ended
behind_length payload tail lost small whole missing = elim (Bool-cases (ltb (length tail) 4)) [
  | inl short ↦ length_torn tail (ground arith)
  | inr long ↦
      let (rest, front, back) =
        split-append tail lost (bytes_of 4 (length payload)) payload whole (ground arith) in
      let counted : length tail ≡ 4 + length rest = omega (arith, ap length front) in
      ap (λ t. read_length (reading t)) front
      ∙ read_length_lem (length payload) rest small
      ∙ payload_torn (length payload) rest (omega arith)
]

-- In front of the first bytes of a record, which is not there to its end, `readRecord` reads to the
-- end of the stream and returns `std::nullopt`.
pub read_record_torn :
    (payload tail : List ℕ)
    → length payload < 2 ^ 32
    → IsTorn payload tail
    → read_record (reading tail) ≡ returned none ended
unfolding read_record
read_record_torn payload tail small torn = elim (Bool-cases (ltb (length tail) 5)) [
  | inl short ↦ magic_torn tail (ground arith)
  | inr long ↦
      let (rest, front, back) =
        split-append tail torn.lost wal_magic (bytes_of 4 (length payload) ++ payload) torn.whole
          (ground arith) in
      let counted : length tail ≡ 5 + length rest = omega (arith, ap length front) in
      ap (λ t. read_magic (reading t)) front
      ∙ read_magic_lem rest
      ∙ behind_length payload rest torn.lost small back (omega (arith, torn.missing))
]

-- So it does at the end.
pub read_record_end : read_record (reading []) ≡ returned none ended
unfolding read_record
read_record_end = magic_torn [] (omega arith)
