-- ===== src/Wal/Runs.antt =====
-- The write-ahead log of lib/wal at concrete inputs.
use enigma_db.Base.{
  ℕ, ◌+◌, ◌%◌, ◌^◌, ◌≡◌, refl, leb, true, false, some, none, List, [], ◌∷◌, ◌++◌, arith, foldl,
  length, map, inl, inr, Bool-cases,
}
use enigma_db.Outcome.{returned, crashed}
use enigma_db.Field.{given}
use enigma_db.Entry.Codec.Body.{Stored, entry_of}
use enigma_db.Wal.Samples.{sample, sample-IsStorable, sample_encoded}
use enigma_db.Wal.Streams.{FilePath, Files, contents, Output, write, spill, reading, ended}
use enigma_db.Wal.Streams as Streams
use enigma_db.Wal.Codec.{no_flush, force_flush, write_record, read_record}
use enigma_db.Wal.Codec.Records.{frame, read_record-write_record, write_record_lem}
use enigma_db.Wal.Codec.Torn.{IsTorn, read_record_torn}
use enigma_db.Wal.Log.{Log, empty, record_of}
use enigma_db.Wal.Load.{load_stream, load_file, load_all, is_wal_file, wal_paths}
use enigma_db.Wal.Load.Termination.{IsDone, load_stream_terminates}
use enigma_db.Wal.Load.Cut.{Cut}
use enigma_db.Wal.Streams.Spilled.{pending}
use enigma_db.Base.Strings.{same_bytes}
use enigma_db.Wal.Load.Recovery.{Holds, torn, load_all_recovers}
use enigma_db.Wal.Writer.{Writer, count, append, new}
use enigma_db.Wal.Writer.Rotation.{append-new}
use enigma_db.Wal.Writer.Safety.{InOrder, appended, spilled, Run, start, next, run_recoverable}
use enigma_db.Wal.Manager.{WalManager}
use enigma_db.Wal.Manager as Manager
use enigma_db.Wal.Manager.Laws.{Switches, flush_thread_lem}

abbrev sample_path : FilePath
sample_path = 119 ∷ []

-- A stream with the file open, and the writer that has it.
abbrev sample_stream : Output
sample_stream = record { path = some sample_path; good = true; buffer = []; files = [] }

abbrev sample_writer : Writer
sample_writer = record {
  writer_id = 1;
  wal_dir = 100 ∷ [];
  current_out_stream = sample_stream;
  seg = 0;
  max_file_size = 1000;
  current_file_number = 1;
  current_file_size = 0;
}

read_record-write_record_example :
    (bs : List ℕ) × (write_record force_flush (entry_of sample) sample_stream
      ≡ returned (length bs) (Streams.flush (write bs sample_stream)))
    × (read_record (reading (bs ++ (7 ∷ [])))
        ≡ returned (some (entry_of sample)) (reading (7 ∷ [])))
read_record-write_record_example =
    read_record-write_record force_flush sample sample_stream sample_path (7 ∷ []) refl
      sample-IsStorable (omega arith)

-- The record of the payload 1 2 without its last byte.
read_record_torn_example :
    read_record (reading (87 ∷ 65 ∷ 76 ∷ 48 ∷ 49 ∷ 2 ∷ 0 ∷ 0 ∷ 0 ∷ 1 ∷ [])) ≡ returned none ended
read_record_torn_example =
    read_record_torn (1 ∷ 2 ∷ []) (87 ∷ 65 ∷ 76 ∷ 48 ∷ 49 ∷ 2 ∷ 0 ∷ 0 ∷ 0 ∷ 1 ∷ []) (omega arith)
      (record { lost = 2 ∷ []; whole = refl; missing = omega arith })

load_stream_terminates_example :
    IsDone (load_stream (λ (n : ℕ) e. n + 1) 9 0 (reading (87 ∷ 65 ∷ 76 ∷ 48 ∷ 49 ∷ 1 ∷ [])))
load_stream_terminates_example =
    load_stream_terminates (λ (n : ℕ) e. n + 1) 9 0 (reading (87 ∷ 65 ∷ 76 ∷ 48 ∷ 49 ∷ 1 ∷ []))
      (omega arith)

-- The log of one entry, and then five bytes of another one.
abbrev sample_name : FilePath
sample_name = 119 ∷ 95 ∷ 46 ∷ 119 ∷ 97 ∷ 108 ∷ []

abbrev sample_bytes : List ℕ
sample_bytes = frame sample_encoded.payload ++ []

abbrev sample_files : Files
sample_files = (100 ∷ 47 ∷ sample_name, sample_bytes ++ (87 ∷ 65 ∷ 76 ∷ 48 ∷ 49 ∷ [])) ∷ []

sample-IsTorn : IsTorn sample_encoded.payload (87 ∷ 65 ∷ 76 ∷ 48 ∷ 49 ∷ [])
sample-IsTorn = record { lost = _; whole = refl; missing = omega arith }

sample-Holds : Holds (λ p. true) sample_files (100 ∷ 47 ∷ sample_name) (sample ∷ [])
unfolding contents
sample-Holds = record {
  readable = refl;
  bytes = sample_bytes;
  tail = 87 ∷ 65 ∷ 76 ∷ 48 ∷ 49 ∷ [];
  stored = refl;
  log = record_of sample_encoded empty;
  behind = torn sample_encoded sample-IsTorn;
}

load_all_recovers_example :
    load_all
      (λ entries. entries)
      (λ p. true)
      sample_files
      (100 ∷ [])
      ((sample_name, true) ∷ (sample_name, false) ∷ [])
    ≡ given (entry_of sample ∷ [])
unfolding wal_paths is_wal_file
load_all_recovers_example =
    load_all_recovers (λ entries. entries) (λ p. true) sample_files (100 ∷ [])
      ((sample_name, true) ∷ (sample_name, false) ∷ []) (λ p. sample ∷ []) (sample-Holds, tt)

abbrev sample_manager : WalManager
sample_manager = record {
  wal_dir = 100 ∷ [];
  joinable = true;
  flush_thread_running = true;
  writers = sample_writer ∷ [];
  writers_count = 1;
  files = [];
}

flush_thread_lem_example : Switches sample_manager
flush_thread_lem_example = flush_thread_lem sample_manager refl

append-new_example :
    append (λ p. true) (entry_of sample) no_flush (new (λ dir name. 3) [] 1 (100 ∷ []) 1000)
    ≡ crashed
append-new_example =
    append-new (λ dir name. 3) (λ p. true) [] 1 (100 ∷ []) 1000 (entry_of sample) no_flush

-- A writer behind the append of the sample.
abbrev next_writer : Writer
next_writer = record sample_writer {
  current_out_stream = write (frame sample_encoded.payload) sample_stream;
  current_file_size = (0 + (9 + length sample_encoded.payload) % 2 ^ 32) % 2 ^ 64;
}

sample-append :
    append (λ p. true) (entry_of sample) no_flush sample_writer ≡ returned true next_writer
unfolding append count
sample-append =
    let room : leb 1000 ((0 + (9 + length sample_encoded.payload) % 2 ^ 32) % 2 ^ 64) ≡ false =
      ground (arith, sample_encoded.counts) in
    rw
      (write_record_lem no_flush sample sample_encoded sample_stream sample_path refl, append, room)
      refl

sample-InOrder : InOrder sample_stream
unfolding contents
sample-InOrder = record {
  whole = λ q. elim (Bool-cases (same_bytes sample_path q)) [
    | inl same ↦ rw same ([], empty)
    | inr other ↦ rw other ([], empty)
  ];
  idle = tt;
}

-- The append, of which the stream has passed 20 bytes on.
abbrev spilled_writer : Writer
spilled_writer = record next_writer { current_out_stream = spill 20 next_writer.current_out_stream }

sample_run : Run (λ p. true) sample_writer spilled_writer
sample_run =
    next (next start (appended sample no_flush sample-IsStorable (omega arith) sample-append))
      (spilled 20)

run_recoverable_example :
    (es : List Stored) × (c : Cut es (contents spilled_writer.current_out_stream.files sample_path))
    × Log es (
        contents spilled_writer.current_out_stream.files sample_path
        ++ pending spilled_writer.current_out_stream.path spilled_writer.current_out_stream.buffer
            sample_path)
    × (load_file
          (λ (n : ℕ) e. n + 1)
          (λ p. true)
          spilled_writer.current_out_stream.files
          0
          sample_path
        ≡ given (foldl (λ (n : ℕ) e. n + 1) 0 (map entry_of c.kept)))
run_recoverable_example =
    run_recoverable (λ (n : ℕ) e. n + 1) (λ p. true) sample_writer spilled_writer 0 sample_path
      sample-InOrder sample_run refl
