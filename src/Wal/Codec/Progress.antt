-- ===== src/Wal/Codec/Progress.antt =====
-- `readRecord` of lib/wal/wal_codec.hpp comes nearer to the end of its stream.
use enigma_db.Base.{ℕ, ◌+◌, ◌≤◌, inl, inr, ltb, Bool, true, false, arith, length, if◌then◌else◌}
use enigma_db.Base.Strings.{same_bytes}
use enigma_db.Outcome.{Outcome, returned, thrown, crashed}
use enigma_db.Bytes.Integers.{value_of}
use enigma_db.Field.{Result, given, raised, faulted}
use enigma_db.Entry.Codec.{deserialize}
use enigma_db.Wal.Streams.{Input, read}
use enigma_db.Wal.Streams.Laws.{left, left-read, read_progress}
use enigma_db.Wal.Codec.{wal_magic, outcome_of, read_payload, read_length, read_magic, read_record}

-- A stream that is returned has at most `n` left.
abbrev pub Leaves : {A : Type 0} → ℕ → Outcome Input A → Type 0
Leaves n (returned a s) = left s ≤ n
Leaves n (thrown s) = Unit
Leaves n crashed = Unit

if-Leaves :
    {A : Type 0} (n : ℕ) (b : Bool) (out out' : Outcome Input A)
    → Leaves n out
    → Leaves n out'
    → Leaves n (if b then out else out')
if-Leaves n true out out' h h' = h
if-Leaves n false out out' h h' = h'

outcome_of-Leaves :
    {A : Type 0} (n : ℕ) (r : Result A) (s : Input) → left s ≤ n → Leaves n (outcome_of r s)
outcome_of-Leaves n (given a) s h = h
outcome_of-Leaves n raised s h = tt
outcome_of-Leaves n faulted s h = tt

read_payload-Leaves : (n size : ℕ) (s : Input) → left s ≤ n → Leaves n (read_payload size s)
unfolding read_payload
read_payload-Leaves n size s h =
    let (payload, s') = read size s in
    let h' : left s' ≤ n = omega (arith, left-read size s) in
    if-Leaves n (ltb (length payload) size) _ _ h'
      (outcome_of-Leaves n (deserialize payload (length payload)) s' h')

read_length-Leaves : (n : ℕ) (s : Input) → left s ≤ n → Leaves n (read_length s)
unfolding read_length
read_length-Leaves n s h =
    let (number, s') = read 4 s in
    let h' : left s' ≤ n = omega (arith, left-read 4 s) in
    if-Leaves n (ltb (length number) 4) _ _ h' (read_payload-Leaves n (value_of number) s' h')

read_magic-Leaves : (n : ℕ) (s : Input) → left s ≤ n + 5 → Leaves n (read_magic s)
unfolding read_magic
read_magic-Leaves n s h =
    let (magic, s') = read 5 s in
    let h' : left s' ≤ n = elim (read_progress 5 s) [
      | inl end ↦ omega arith
      | inr fewer ↦ omega arith
    ] in
    if-Leaves n (ltb (length magic) 5) _ _ h'
      (if-Leaves n (same_bytes magic wal_magic) _ _ (read_length-Leaves n s' h') h')

pub read_record-Leaves : (n : ℕ) (s : Input) → left s ≤ n + 5 → Leaves n (read_record s)
unfolding read_record
read_record-Leaves n s h = if-Leaves n s.is_open _ _ (read_magic-Leaves n s h) tt
