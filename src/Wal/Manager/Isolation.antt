-- ===== src/Wal/Manager/Isolation.antt =====
-- lib/wal/wal_manager.cpp: the writers of a pool do not share files.
use enigma_db.Base.{
  ℕ, zero, suc, ◌+◌, ◌%◌, ◌^◌, ◌<◌, ◌≡◌, ◌≢◌, refl, ◌∙◌, sym, Bool, some, List, [], ◌∷◌, get_elem?,
  set, arith, inl, inr, Option-cases,
}
use mathlib.Core.Path.{subst}
use enigma_db.Outcome.{Outcome, returned, thrown, crashed, Method, After, if-After}
use enigma_db.Entry.Codec.Body.{Stored, entry_of, IsStorable, body_size}
use enigma_db.Wal.Streams.{FilePath, Files}
use enigma_db.Wal.Codec.{force_flush}
use enigma_db.Wal.Writer.{Writer, file_path}
use enigma_db.Wal.Writer as Writer
use enigma_db.Wal.Writer.Names.{file_path_distinct}
use enigma_db.Wal.Writer.Ownership.{
  IsOwn, IsOwner, renumber-IsOwner, files-IsOwner, append-IsOwner, flush-IsOwner, close-IsOwner,
}
use enigma_db.Wal.Manager.{
  WalManager, in_directory, taken_back, on_writer, append, new_writers, start_flush_thread,
  stop_flush_thread,
}
use enigma_db.Wal.Manager.Complete.{
  Step, appended, append_failed, flushed, closed, flush_started, flush_stopped, Run, start, next,
}

-- Writers with the ids behind `first`, of which each has at most a file of its own open.
abbrev pub IsPool : FilePath → ℕ → List Writer → Type 0
IsPool dir first [] = Unit
IsPool dir first (w ∷ ws) = IsOwner (first + 1) dir w × IsPool dir (first + 1) ws

-- The constructor of the manager makes such writers.
pub new_writers-IsPool :
    (open_segment : FilePath → FilePath → ℕ) (files : Files) (dir : FilePath) (limit i n : ℕ)
    → IsPool dir i (new_writers open_segment files dir limit i n)
unfolding new_writers Writer.new Writer.init
new_writers-IsPool open_segment files dir limit i zero = tt
new_writers-IsPool open_segment files dir limit i (suc n) = (
  record { numbered = refl; directory = refl; bounded = omega arith; own = tt },
  new_writers-IsPool open_segment files dir limit (i + 1) n,
)

get_elem?-IsPool :
    (dir : FilePath) (first i : ℕ) (ws : List Writer) (w : Writer)
    → IsPool dir first ws
    → get_elem? ws i ≡ some w
    → IsOwner (first + i + 1) dir w
get_elem?-IsPool dir first i [] w h found = absurd (cc found)
get_elem?-IsPool dir first zero (v ∷ ws) w (h, hs) found =
    renumber-IsOwner w (omega arith) (subst (IsOwner (first + 1) dir) (cc found) h)
get_elem?-IsPool dir first (suc i) (v ∷ ws) w (h, hs) found =
    renumber-IsOwner w (omega arith) (get_elem?-IsPool dir (first + 1) i ws w hs found)

set-IsPool :
    (dir : FilePath) (first i : ℕ) (ws : List Writer) (w : Writer)
    → IsPool dir first ws
    → IsOwner (first + i + 1) dir w
    → IsPool dir first (set ws i w)
set-IsPool dir first i [] w h k = tt
set-IsPool dir first zero (v ∷ ws) w (h, hs) k = (renumber-IsOwner w (omega arith) k, hs)
set-IsPool dir first (suc i) (v ∷ ws) w (h, hs) k =
    (h, set-IsPool dir (first + 1) i ws w hs (renumber-IsOwner w (omega arith) k))

-- The pool of a manager.
abbrev pub Owns : FilePath → WalManager → Type 0
Owns dir m = IsPool dir 0 m.writers

taken_back-Owns :
    {A : Type 0} (dir : FilePath) (i : ℕ) (m : WalManager) (out : Outcome Writer A)
    → Owns dir m
    → After (IsOwner (i + 1) dir) out
    → After (Owns dir) (taken_back i m out)
taken_back-Owns dir i m (returned a w) h k =
    set-IsPool dir 0 i m.writers w h (renumber-IsOwner w (omega arith) k)
taken_back-Owns dir i m (thrown w) h k =
    set-IsPool dir 0 i m.writers w h (renumber-IsOwner w (omega arith) k)
taken_back-Owns dir i m crashed h k = tt

on_writer-Owns :
    {A : Type 0} (dir : FilePath) (i : ℕ) (f : Method Writer A) (m : WalManager)
    → Owns dir m
    → ((w : Writer) → IsOwner (i + 1) dir w → After (IsOwner (i + 1) dir) (f w))
    → After (Owns dir) (on_writer i f m)
unfolding on_writer
on_writer-Owns dir i f m h calls = elim (Option-cases (get_elem? m.writers i)) [
  | inl missing ↦ rw (missing, After) tt
  | inr (w, found) ↦
      rw (found, After)
        (taken_back-Owns dir i m (f (in_directory m.files w)) h (
          calls (in_directory m.files w) (
            files-IsOwner m.files w
              (renumber-IsOwner w (omega arith) (get_elem?-IsPool dir 0 i m.writers w h found)))))
]

append-Owns :
    (opens : FilePath → Bool) (thread_id : ℕ) (e : Stored) (dir : FilePath) (m : WalManager)
    → IsStorable e
    → body_size e + 17 < 2 ^ 32
    → Owns dir m
    → After (Owns dir) (append opens thread_id (entry_of e) m)
unfolding append
append-Owns opens thread_id e dir m ok small h =
    elim m.writers_count
      as (λ k. After (Owns dir) (elim k [
        | zero ↦ crashed
        | suc n ↦ on_writer (thread_id % suc n) (Writer.append opens (entry_of e) force_flush) m
      ])) [
        | zero ↦ tt
        | suc n ↦
            on_writer-Owns dir (thread_id % suc n) (Writer.append opens (entry_of e) force_flush) m
              h (λ w k. append-IsOwner opens e force_flush w ok small k)
      ]

start-Owns :
    (dir : FilePath) (m : WalManager) → Owns dir m → After (Owns dir) (start_flush_thread m)
unfolding start_flush_thread
start-Owns dir m h =
    if-After (Owns dir) m.flush_thread_running _ _ h (if-After (Owns dir) m.joinable _ _ tt h)

stop-Owns : (dir : FilePath) (m : WalManager) → Owns dir m → After (Owns dir) (stop_flush_thread m)
unfolding stop_flush_thread
stop-Owns dir m h =
    if-After (Owns dir) m.flush_thread_running _ _ (if-After (Owns dir) m.joinable _ _ h h) h

Step-Owns :
    {opens : FilePath → Bool} {m m' : WalManager} {added : List Stored} (dir : FilePath)
    → Step opens m added m'
    → Owns dir m
    → Owns dir m'
Step-Owns {opens} dir (appended {m} thread_id e ok small returns) h =
    subst (After (Owns dir)) returns (append-Owns opens thread_id e dir m ok small h)
Step-Owns {opens} dir (append_failed {m} thread_id e ok small throws) h =
    subst (After (Owns dir)) throws (append-Owns opens thread_id e dir m ok small h)
Step-Owns dir (flushed {m} i returns) h =
    subst (After (Owns dir)) returns
      (on_writer-Owns dir i Writer.flush m h (λ w k. flush-IsOwner w k))
Step-Owns dir (closed {m} i returns) h =
    subst (After (Owns dir)) returns
      (on_writer-Owns dir i Writer.close m h (λ w k. close-IsOwner w k))
Step-Owns dir (flush_started {m} returns) h = subst (After (Owns dir)) returns (start-Owns dir m h)
Step-Owns dir (flush_stopped {m} returns) h = subst (After (Owns dir)) returns (stop-Owns dir m h)

Run-Owns :
    {opens : FilePath → Bool} {m m' : WalManager} {added : List Stored} (dir : FilePath)
    → Run opens m added m'
    → Owns dir m
    → Owns dir m'
Run-Owns dir start h = h
Run-Owns dir (next run step) h = Step-Owns dir step (Run-Owns dir run h)

-- In every manager that appends of built-in values by any threads, the flush thread and `close` lead
-- to, from one whose writers have the ids that the constructor gives and at most files of their own
-- open, no two writers have the same file open.
pub run_isolated :
    (opens : FilePath → Bool) (m m' : WalManager) (added : List Stored) (dir path : FilePath)
    (i j : ℕ) (w w' : Writer)
    → IsPool dir 0 m.writers
    → Run opens m added m'
    → i + 1 < 2 ^ 64
    → j + 1 < 2 ^ 64
    → i ≢ j
    → get_elem? m'.writers i ≡ some w
    → get_elem? m'.writers j ≡ some w'
    → w.current_out_stream.path ≡ some path
    → w'.current_out_stream.path ≢ some path
run_isolated opens m m' added dir path i j w w' pool run small small' other found found' opened
      opened' =
    let owns = Run-Owns dir run pool in
    let a = get_elem?-IsPool dir 0 i m'.writers w owns found in
    let b = get_elem?-IsPool dir 0 j m'.writers w' owns found' in
    let mine : path ≡ file_path w w.current_file_number =
      subst (IsOwn (file_path w w.current_file_number)) opened a.own in
    let theirs : path ≡ file_path w' w'.current_file_number =
      subst (IsOwn (file_path w' w'.current_file_number)) opened' b.own in
    let (ids, numbers) =
      file_path_distinct w w' w.current_file_number w'.current_file_number
        (a.directory ∙ sym b.directory) (omega (arith, a.numbered, small))
        (omega (arith, b.numbered, small')) a.bounded b.bounded (sym mine ∙ theirs) in
    other (omega (arith, a.numbered, b.numbered, ids))
