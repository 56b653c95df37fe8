-- ===== src/Wal/Manager/Runs.antt =====
-- The pool of lib/wal/wal_manager.cpp at concrete inputs.
use enigma_db.Base.{
  ℕ, ◌+◌, ◌%◌, ◌^◌, ◌≡◌, ◌≢◌, refl, leb, All, true, false, some, List, [], ◌∷◌, arith, length,
}
use mathlib.Core.List.{Perm}
use mathlib.Core.List.Perm
use enigma_db.Outcome.{returned}
use enigma_db.Field.{given}
use enigma_db.Field.Codec.{Field}
use enigma_db.Entry.{Entry}
use enigma_db.Entry.Codec.Body.{entry_of}
use enigma_db.Wal.Samples.{sample, sample-IsStorable, sample_encoded}
use enigma_db.Wal.Streams.{FilePath, Files, Output, write}
use enigma_db.Wal.Streams as Streams
use enigma_db.Wal.Codec.{force_flush}
use enigma_db.Wal.Codec.Records.{frame, write_record_lem}
use enigma_db.Wal.Holding.{nothing_held}
use enigma_db.Wal.Load.{load_all, is_wal_file, wal_paths}
use enigma_db.Wal.Writer.{Writer, file_path, file_name, padded}
use enigma_db.Wal.Writer as Writer
use enigma_db.Wal.Manager.{WalManager, append, on_writer, destroy}
use enigma_db.Wal.Manager.Isolation.{IsPool, run_isolated}
use enigma_db.Base.Decimal.{digits}
use enigma_db.Wal.Manager.Rounds.{IsClosed, destroy_lem}
use enigma_db.Wal.Manager.Settled.{Keeps}
use enigma_db.Wal.Manager.Complete.{Run, start, next, appended, flushed, run_complete, run_stopped}
use enigma_db.Wal.Codec.Torn.{IsTorn}

-- "w_1_00000001.wal", in the directory "d".
abbrev log_name : FilePath
log_name = 119 ∷ 95 ∷ 49 ∷ 95 ∷ 48 ∷ 48 ∷ 48 ∷ 48 ∷ 48 ∷ 48 ∷ 48 ∷ 49 ∷ 46 ∷ 119 ∷ 97 ∷ 108 ∷ []

abbrev log_path : FilePath
log_path = 100 ∷ 47 ∷ log_name

abbrev log_stream : Output
log_stream = record { path = some log_path; good = true; buffer = []; files = [] }

abbrev log_writer : Output → ℕ → Writer
log_writer o size = record {
  writer_id = 1;
  wal_dir = 100 ∷ [];
  current_out_stream = o;
  seg = 0;
  max_file_size = 1000;
  current_file_number = 1;
  current_file_size = size;
}

abbrev pool : Output → ℕ → WalManager
pool o size = record {
  wal_dir = 100 ∷ [];
  joinable = true;
  flush_thread_running = true;
  writers = log_writer o size ∷ [];
  writers_count = 1;
  files = o.files;
}

pool-Keeps : Keeps [] (pool log_stream 0)
pool-Keeps = record {
  settled = (record { emptied = refl; healthy = refl }, tt);
  stores = record { found = []; holding = nothing_held; same = Perm.refl []; distinct = tt };
}

-- The stream and the size behind the append of the sample.
abbrev logged_stream : Output
logged_stream = Streams.flush (write (frame sample_encoded.payload) log_stream)

abbrev logged_size : ℕ
logged_size = (0 + (9 + length sample_encoded.payload) % 2 ^ 32) % 2 ^ 64

logged_append :
    append (λ p. true) 7 (entry_of sample) (pool log_stream 0)
    ≡ returned true (pool logged_stream logged_size)
unfolding append on_writer Writer.append Writer.count
logged_append =
    let room : leb 1000 logged_size ≡ false = ground (arith, sample_encoded.counts) in
    rw
      (
        write_record_lem force_flush sample sample_encoded log_stream log_path refl,
        Writer.append,
        room,
      )
      refl

-- The append, and then the flush thread.
logged_run :
    Run
      (λ p. true)
      (pool log_stream 0)
      (sample ∷ [])
      (pool (Streams.flush logged_stream) logged_size)
unfolding on_writer Writer.flush
logged_run =
    next (next start (appended 7 sample sample-IsStorable (omega arith) logged_append))
      (flushed 0 refl)

run_complete_example :
    (loaded : List (Entry (List Field) Field)) × (load_all
        (λ entries. entries)
        (λ p. true)
        (Streams.flush logged_stream).files
        (100 ∷ [])
        ((log_name, true) ∷ [])
      ≡ given loaded)
    × Perm loaded (entry_of sample ∷ [])
unfolding wal_paths is_wal_file Streams.flush Streams.write Streams.sync Streams.extend
run_complete_example =
    run_complete (λ entries. entries) (λ p. true) (λ p. true) (pool log_stream 0)
      (pool (Streams.flush logged_stream) logged_size) [] (sample ∷ []) (100 ∷ [])
      ((log_name, true) ∷ []) pool-Keeps logged_run (λ xs. Perm.refl xs) (Perm.refl (log_path ∷ []))
      (refl, tt)

-- Five bytes of the record.
cut_record : IsTorn sample_encoded.payload (87 ∷ 65 ∷ 76 ∷ 48 ∷ 49 ∷ [])
cut_record = record { lost = _; whole = refl; missing = omega arith }

run_stopped_example :
    (loaded : List (Entry (List Field) Field)) × (load_all
        (λ entries. entries)
        (λ p. true)
        (Streams.extend (Streams.flush logged_stream).files log_path (87 ∷ 65 ∷ 76 ∷ 48 ∷ 49 ∷ []))
        (100 ∷ [])
        ((log_name, true) ∷ [])
      ≡ given loaded)
    × Perm loaded (entry_of sample ∷ [])
unfolding wal_paths is_wal_file Streams.flush Streams.write Streams.sync Streams.extend
run_stopped_example =
    run_stopped (λ entries. entries) (λ p. true) (λ p. true) (pool log_stream 0)
      (pool (Streams.flush logged_stream) logged_size) [] (sample ∷ []) (100 ∷ [])
      ((log_name, true) ∷ []) sample sample_encoded log_path (87 ∷ 65 ∷ 76 ∷ 48 ∷ 49 ∷ [])
      pool-Keeps logged_run cut_record (λ xs. Perm.refl xs) (Perm.refl (log_path ∷ [])) (refl, tt)

destroy_lem_example :
    (m' : WalManager) × (destroy (pool log_stream 0) ≡ returned tt m')
    × (m'.joinable ≡ false)
    × (m'.flush_thread_running ≡ false)
    × All IsClosed m'.writers
    × Keeps [] m'
destroy_lem_example = destroy_lem [] (pool log_stream 0) refl pool-Keeps

-- A second writer, with "d/w_2_00000001.wal" open.
abbrev other_path : FilePath
other_path =
    100 ∷ 47 ∷ 119 ∷ 95 ∷ 50 ∷ 95 ∷ 48 ∷ 48 ∷ 48 ∷ 48 ∷ 48 ∷ 48 ∷ 48 ∷ 49 ∷ 46 ∷ 119 ∷ 97 ∷ 108 ∷ []

abbrev other_writer : Writer
other_writer = record (log_writer (record log_stream { path = some other_path }) 0) {
  writer_id = 2;
}

abbrev both : Files → WalManager
both files = record (pool log_stream 0) {
  writers = log_writer (record log_stream { files = files }) 0 ∷ other_writer ∷ [];
  writers_count = 2;
  files = files;
}

both-IsPool : IsPool (100 ∷ []) 0 (both []).writers
unfolding file_path file_name padded digits
both-IsPool = (
  record { numbered = refl; directory = refl; bounded = omega arith; own = refl },
  (record { numbered = refl; directory = refl; bounded = omega arith; own = refl }, tt),
)

-- The flush thread comes to the first writer.
both_run : Run (λ p. true) (both []) [] (both ((log_path, []) ∷ []))
unfolding on_writer Writer.flush Streams.flush Streams.sync Streams.extend
both_run = next start (flushed 0 refl)

run_isolated_example : other_writer.current_out_stream.path ≢ some log_path
run_isolated_example =
    run_isolated (λ p. true) (both []) (both ((log_path, []) ∷ [])) [] (100 ∷ []) log_path 0 1
      (log_writer (record log_stream { files = (log_path, []) ∷ [] }) 0) other_writer both-IsPool
      both_run (omega arith) (omega arith) (λ e. omega (arith, e)) refl refl refl
