-- ===== src/Wal/Manager/Laws.antt =====
-- lib/wal/wal_manager.cpp: an append through the pool, and the state of the flush thread.
use enigma_db.Base.{ℕ, ◌≡◌, refl, ap, Bool, true, false, none, some, List, get_elem?}
use enigma_db.Outcome.{Outcome, returned, thrown, crashed}
use enigma_db.Wal.Streams.{FilePath, Files, Output}
use enigma_db.Wal.Log.{Log}
use enigma_db.Wal.Writer.{Writer}
use enigma_db.Wal.Writer as Writer
use enigma_db.Wal.Manager.{
  WalManager, in_directory, taken_back, on_writer, start_flush_thread, stop_flush_thread,
}

-- The call returns true or throws, and the manager that it leaves behind is as described.
abbrev pub Leaves : (WalManager → Type 0) → Outcome WalManager Bool → Type 0
Leaves P (returned b m) = (b ≡ true) × P m
Leaves P (thrown m) = P m
Leaves P crashed = ⊥

pub on_writer_lem :
    {A : Type 0} (i : ℕ) (f : Writer → Outcome Writer A) (m : WalManager) (w : Writer)
    → get_elem? m.writers i ≡ some w
    → on_writer i f m ≡ taken_back i m (f (in_directory m.files w))
unfolding on_writer
on_writer_lem i f m w found =
    ap (λ o. elim o [ none ↦ crashed | some w' ↦ taken_back i m (f (in_directory m.files w')) ])
      found

abbrev in_files : Files → Output → Output
in_files files o = record o { files = files }

-- The calls return, with the thread running and joinable, or stopped and joined.
abbrev pub Switches : WalManager → Type 0
Switches m =
    ((m' : WalManager) × (start_flush_thread m ≡ returned tt m')
      × (m'.joinable ≡ true)
      × (m'.flush_thread_running ≡ true))
    × ((m' : WalManager) × (stop_flush_thread m ≡ returned tt m')
        × (m'.joinable ≡ false)
        × (m'.flush_thread_running ≡ false))

thread_cases :
    (dir : FilePath) (joinable running : Bool) (writers : List Writer) (n : ℕ) (files : Files)
    → joinable ≡ running
    → Switches (record {
      wal_dir = dir;
      joinable = joinable;
      flush_thread_running = running;
      writers = writers;
      writers_count = n;
      files = files;
    })
unfolding start_flush_thread stop_flush_thread
thread_cases dir true true writers n files same = ((_, refl, refl, refl), (_, refl, refl, refl))
thread_cases dir false false writers n files same = ((_, refl, refl, refl), (_, refl, refl, refl))
thread_cases dir true false writers n files same = absurd (cc same)
thread_cases dir false true writers n files same = absurd (cc same)

-- As long as the flush thread can be joined exactly when it is running, as in a new manager, it can
-- be started and stopped in any order: neither call throws or fails, after the one it is running and
-- can be joined, and after the other it is not running and has been joined.
pub flush_thread_lem : (m : WalManager) → m.joinable ≡ m.flush_thread_running → Switches m
flush_thread_lem m same =
    thread_cases m.wal_dir m.joinable m.flush_thread_running m.writers m.writers_count m.files same
