-- ===== src/Wal/Load/Termination.antt =====
-- The loop of `WALManager::loadAll` over the records of a file ends, whatever the file holds.
use enigma_db.Base.{
  ℕ, zero, suc, ◌+◌, ◌≤◌, ◌<◌, ◌≡◌, ◌≢◌, inl, inr, refl, Option, none, List, Bool-cases, ◌-◌, arith,
  length,
}
use enigma_db.Outcome.{Outcome, returned, thrown, crashed, ◌>>=◌}
use enigma_db.Field.Codec.{Field}
use enigma_db.Entry.{Entry}
use enigma_db.Wal.Streams.{Input, is_good, ended}
use enigma_db.Wal.Codec.{read_record}
use enigma_db.Wal.Load.{replied, load_stream}
use enigma_db.Wal.Streams.Laws.{left}
use enigma_db.Wal.Codec.Progress.{Leaves, read_record-Leaves}

abbrev pub IsDone : {A : Type 0} → Outcome Input (Option A) → Type 0
IsDone (returned a s) = a ≢ none
IsDone (thrown s) = Unit
IsDone crashed = Unit

module _ {A : Type 0} (reply : A → Entry (List Field) Field → A) where
  bind-IsDone :
      {B : Type 0} (out : Outcome Input B) (more : B → Input → Outcome Input (Option A)) (n : ℕ)
      → Leaves n out
      → ((b : B) (s : Input) → left s ≤ n → IsDone (more b s))
      → IsDone (((λ s. out) >>= more) ended)
  bind-IsDone (returned b s) more n h f = f b s h
  bind-IsDone (thrown s) more n h f = tt
  bind-IsDone crashed more n h f = tt

  -- Fuel beyond what the stream can still give is never used up: the loop of `loadAll` over the
  -- records of a stream ends in a result, an exception or a fault, whatever stands in the file.
  pub load_stream_terminates :
      (fuel : ℕ) (a : A) (s : Input) → left s < fuel → IsDone (load_stream reply fuel a s)
  unfolding load_stream
  load_stream_terminates zero a s h = absurd (omega arith)
  load_stream_terminates (suc fuel) a s h = elim (Bool-cases (is_good s)) [
    | inl good ↦
        let some_left : left s ≡ length s.rest + 1 = rw good refl in
        rw (good, load_stream)
          (bind-IsDone (read_record s) (λ entry. load_stream reply fuel (replied reply a entry))
            (left s - 5) (read_record-Leaves (left s - 5) s (omega arith))
            (λ entry s' h'. load_stream_terminates fuel (replied reply a entry) s' (omega arith)))
    | inr bad ↦ rw (bad, load_stream) (λ e. absurd (cc e))
  ]
