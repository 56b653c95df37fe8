-- ===== src/Wal/Manager.antt =====
-- lib/wal/wal_manager.hpp and wal_manager.cpp: a pool of writers in one directory, and the thread
-- that flushes them. A round of the thread is a call of `flush_all`.
pub mod Laws
pub mod Settled
pub mod Complete
pub mod Rounds
pub mod Loops
pub mod Isolation
mod Runs
use enigma_db.Base.{
  ℕ, zero, suc, ◌+◌, ◌%◌, ◌^◌, Bool, true, false, Option, none, some, List, [], ◌∷◌, length, set,
  get_elem?, if◌then◌else◌,
}
use enigma_db.Outcome.{Outcome, returned, thrown, crashed, Method, ◌>>=◌}
use enigma_db.Field.Codec.{Field}
use enigma_db.Entry.{Entry}
use enigma_db.Wal.Streams.{FilePath, Files}
use enigma_db.Wal.Codec.{force_flush}
use enigma_db.Wal.Writer.{Writer}
use enigma_db.Wal.Writer as Writer

-- `joinable` is that of the flush thread. The writers share the files of the directory.
pub record WalManager : Type 0 where
  pub wal_dir : FilePath
  pub joinable : Bool
  pub flush_thread_running : Bool
  pub writers : List Writer
  pub writers_count : ℕ
  pub files : Files

-- The loop of the constructor with `n` rounds left, behind the writer with the id `i`.
pub new_writers : (FilePath → FilePath → ℕ) → Files → FilePath → ℕ → ℕ → ℕ → List Writer
new_writers open_segment files dir limit i zero = []
new_writers open_segment files dir limit i (suc n) =
    Writer.new open_segment files (i + 1) dir limit
    ∷ new_writers open_segment files dir limit (i + 1) n

pub new : (FilePath → FilePath → ℕ) → Files → ℕ → ℕ → FilePath → WalManager
new open_segment files num_writers max_file_size dir = record {
  wal_dir = dir;
  joinable = false;
  flush_thread_running = false;
  writers = new_writers open_segment files dir max_file_size 0 num_writers;
  writers_count = num_writers;
  files = files;
}

-- A writer with the directory as it is.
abbrev pub in_directory : Files → Writer → Writer
in_directory files w = record w {
  current_out_stream = record w.current_out_stream { files = files };
}

-- What a call of the writer at `i` makes of the manager.
abbrev pub put_back : ℕ → Writer → WalManager → WalManager
put_back i w m = record m { writers = set m.writers i w; files = w.current_out_stream.files }

abbrev pub taken_back : {A : Type 0} → ℕ → WalManager → Outcome Writer A → Outcome WalManager A
taken_back i m (returned a w) = returned a (put_back i w m)
taken_back i m (thrown w) = thrown (put_back i w m)
taken_back i m crashed = crashed

-- `writers_[i]->f()`
pub on_writer : {A : Type 0} → ℕ → Method Writer A → Method WalManager A
on_writer i f m = elim (get_elem? m.writers i) [
  | none ↦ crashed
  | some w ↦ taken_back i m (f (in_directory m.files w))
]

-- `thread_id` is the hash of the id of the calling thread. There is no remainder by zero.
pub append : (FilePath → Bool) → ℕ → Entry (List Field) Field → Method WalManager Bool
append opens thread_id e m = elim m.writers_count [
  | zero ↦ crashed
  | suc n ↦ on_writer (thread_id % suc n) (Writer.append opens e force_flush) m
]

-- The loops over the writers, with `n` writers left from the one at `i` on.
pub each_writer : Method Writer (Unit {0}) → ℕ → ℕ → Method WalManager (Unit {0})
each_writer f i zero = returned tt
each_writer f i (suc n) = on_writer i f >>= λ done. each_writer f (i + 1) n

pub close : Method WalManager (Unit {0})
close m = each_writer Writer.close 0 (length m.writers) m

pub flush_all : Method WalManager (Unit {0})
flush_all m = each_writer Writer.flush 0 (length m.writers) m

-- A thread that can still be joined must not be overwritten.
pub start_flush_thread : Method WalManager (Unit {0})
start_flush_thread m =
    if m.flush_thread_running
    then returned tt m
    else if m.joinable
    then crashed
    else returned tt (record m { flush_thread_running = true; joinable = true })

-- `detach` throws where there is nothing to detach.
pub stop_flush_thread : Method WalManager (Unit {0})
stop_flush_thread m =
    if m.flush_thread_running
    then if m.joinable
      then returned tt (record m { flush_thread_running = false; joinable = false })
      else thrown (record m { flush_thread_running = false })
    else returned tt m

-- `~WALManager`
pub destroy : Method WalManager (Unit {0})
destroy = stop_flush_thread >>= λ done. close

-- The loop of `getWritersMetaData` with `n` rounds left; `none` is an index behind the last writer.
pub total_file_number : List Writer → ℕ → ℕ → ℕ → Option ℕ
total_file_number writers i zero total = some total
total_file_number writers i (suc n) total = elim (get_elem? writers i) [
  | none ↦ none
  | some w ↦
      total_file_number writers (i + 1) n ((total + Writer.get_current_file_number w) % 2 ^ 32)
]

-- `getWritersMetaData`, less what it prints.
pub get_writers_meta_data : WalManager → Option ℕ
get_writers_meta_data m = total_file_number m.writers 0 m.writers_count 0
