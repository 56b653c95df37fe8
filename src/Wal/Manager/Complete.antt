-- ===== src/Wal/Manager/Complete.antt =====
-- lib/wal/wal_manager.cpp: a run of the pool, in which the calls of any threads and the rounds of
-- the flush thread interleave, and what `loadAll` gives behind it.
use enigma_db.Base.{
  ℕ, ◌+◌, ◌^◌, ◌<◌, ◌≡◌, sym, Bool, true, List, [], ◌∷◌, ◌++◌, All, append-nil, append_assoc, map,
}
use mathlib.Core.Path.{subst}
use mathlib.Core.List.{Perm}
use enigma_db.Outcome.{After, if-After, returned, thrown}
use enigma_db.Field.{given}
use enigma_db.Field.Codec.{Field}
use enigma_db.Entry.{Entry}
use enigma_db.Entry.Codec.Body.{Stored, entry_of, IsStorable, body_size}
use enigma_db.Wal.Streams.{FilePath, extend}
use enigma_db.Wal.Codec.Records.{Encoded}
use enigma_db.Wal.Codec.Torn.{IsTorn}
use enigma_db.Wal.Load.Recovery.{torn}
use enigma_db.Wal.Holding.{names}
use enigma_db.Wal.Holding.Loaded.{load_all-Stores, load_all-torn}
use enigma_db.Wal.Load.{load_all, wal_paths}
use enigma_db.Wal.Writer as Writer
use enigma_db.Wal.Manager.{WalManager, on_writer, append, start_flush_thread, stop_flush_thread}
use enigma_db.Wal.Manager.Settled.{Keeps, append-Keeps, flush-Keeps, close-Keeps}

-- One call of one thread, and the entries that it logs. A writer is locked while it is called, so
-- that the flush thread and `close` take one step for each writer.
pub data Step (opens : FilePath → Bool) : WalManager → List Stored → WalManager → Type 0 where
  appended :
      {m m' : WalManager} {b : Bool} (thread_id : ℕ) (e : Stored)
      → IsStorable e
      → body_size e + 17 < 2 ^ 32
      → append opens thread_id (entry_of e) m ≡ returned b m'
      → Step opens m (e ∷ []) m'
  append_failed :
      {m m' : WalManager} (thread_id : ℕ) (e : Stored)
      → IsStorable e
      → body_size e + 17 < 2 ^ 32
      → append opens thread_id (entry_of e) m ≡ thrown m'
      → Step opens m (e ∷ []) m'
  flushed :
      {m m' : WalManager} (i : ℕ) → on_writer i Writer.flush m ≡ returned tt m' → Step opens m [] m'
  closed :
      {m m' : WalManager} (i : ℕ) → on_writer i Writer.close m ≡ returned tt m' → Step opens m [] m'
  flush_started : {m m' : WalManager} → start_flush_thread m ≡ returned tt m' → Step opens m [] m'
  flush_stopped : {m m' : WalManager} → stop_flush_thread m ≡ returned tt m' → Step opens m [] m'

-- The steps so far, and the entries that they have logged, in this order.
pub data Run (opens : FilePath → Bool) (m : WalManager) : List Stored → WalManager → Type 0 where
  start : Run opens m [] m
  next :
      {es fs : List Stored} {m' m'' : WalManager}
      → Run opens m es m'
      → Step opens m' fs m''
      → Run opens m (es ++ fs) m''

start-Keeps :
    (es : List Stored) (m : WalManager) → Keeps es m → After (Keeps es) (start_flush_thread m)
unfolding start_flush_thread
start-Keeps es m h =
    if-After (Keeps es) m.flush_thread_running _ _ h
      (if-After (Keeps es) m.joinable _ _ tt (record { settled = h.settled; stores = h.stores }))

pub stop-Keeps :
    (es : List Stored) (m : WalManager) → Keeps es m → After (Keeps es) (stop_flush_thread m)
unfolding stop_flush_thread
stop-Keeps es m h =
    if-After (Keeps es) m.flush_thread_running _ _
      (if-After (Keeps es) m.joinable _ _ (record { settled = h.settled; stores = h.stores })
        (record { settled = h.settled; stores = h.stores }))
      h

Step-Keeps :
    {opens : FilePath → Bool} {m m' : WalManager} {added : List Stored} (es : List Stored)
    → Step opens m added m'
    → Keeps es m
    → Keeps (es ++ added) m'
Step-Keeps {opens} es (appended {m} thread_id e ok small returns) h =
    subst (After (Keeps (es ++ (e ∷ [])))) returns (append-Keeps opens thread_id e m es ok small h)
Step-Keeps {opens} es (append_failed {m} thread_id e ok small throws) h =
    subst (After (Keeps (es ++ (e ∷ [])))) throws (append-Keeps opens thread_id e m es ok small h)
Step-Keeps es (flushed {m} {m'} i returns) h =
    subst (λ t. Keeps t m') (sym (append-nil es))
      (subst (After (Keeps es)) returns (flush-Keeps i m es h))
Step-Keeps es (closed {m} {m'} i returns) h =
    subst (λ t. Keeps t m') (sym (append-nil es))
      (subst (After (Keeps es)) returns (close-Keeps i m es h))
Step-Keeps es (flush_started {m} {m'} returns) h =
    subst (λ t. Keeps t m') (sym (append-nil es))
      (subst (After (Keeps es)) returns (start-Keeps es m h))
Step-Keeps es (flush_stopped {m} {m'} returns) h =
    subst (λ t. Keeps t m') (sym (append-nil es))
      (subst (After (Keeps es)) returns (stop-Keeps es m h))

pub Run-Keeps :
    {opens : FilePath → Bool} {m m' : WalManager} {added : List Stored} (es : List Stored)
    → Run opens m added m'
    → Keeps es m
    → Keeps (es ++ added) m'
Run-Keeps {m} es start h = subst (λ t. Keeps t m) (sym (append-nil es)) h
Run-Keeps {m'} es (next {es = before} {fs} run step) h =
    subst (λ t. Keeps t m') (append_assoc es before fs)
      (Step-Keeps (es ++ before) step (Run-Keeps es run h))

-- A pool whose writers have nothing in their buffers, over a directory of files with distinct names
-- that hold some entries: behind any run, in which any threads append entries of built-in values
-- that fit the format, whether the calls return or throw since a file cannot be opened, and the
-- flush thread and `close` come to any writers in between, `loadAll` gives exactly the entries that
-- were there and those that were appended, each as often, if every file can be opened, the
-- directory is listed completely, in any order, and sorting loses and adds nothing.
pub run_complete :
    (sort : List (Entry (List Field) Field) → List (Entry (List Field) Field))
    (opens readable : FilePath → Bool) (m m' : WalManager) (es added : List Stored) (dir : FilePath)
    (listing : List (FilePath × Bool))
    → Keeps es m
    → Run opens m added m'
    → ((xs : List (Entry (List Field) Field)) → Perm (sort xs) xs)
    → Perm (wal_paths dir listing) (names m'.files)
    → All (λ path. readable path ≡ true) (wal_paths dir listing)
    → (loaded : List (Entry (List Field) Field)) × (load_all sort readable m'.files dir listing
        ≡ given loaded)
      × Perm loaded (map entry_of (es ++ added))
run_complete sort opens readable m m' es added dir listing h run sorts listed free =
    load_all-Stores sort readable m'.files dir listing (es ++ added) sorts listed free
      ((Run-Keeps es run h).stores)

-- A pool whose writers have nothing in their buffers, over a directory of files with distinct names
-- that hold some entries, runs as threads append entries of built-in values that fit the format and
-- as the flush thread and `close` come to its writers, and the program stops while it appends one
-- entry more: of the record, a file has the first bytes at its end, but not all. Then `loadAll` gives
-- exactly the entries that were there and those that were appended before, each as often, if every
-- file can be opened, the directory is listed completely, in any order, and sorting loses and adds
-- nothing.
pub run_stopped :
    (sort : List (Entry (List Field) Field) → List (Entry (List Field) Field))
    (opens readable : FilePath → Bool) (m m' : WalManager) (es added : List Stored) (dir : FilePath)
    (listing : List (FilePath × Bool)) (e : Stored) (c : Encoded e) (path tail : List ℕ)
    → Keeps es m
    → Run opens m added m'
    → IsTorn c.payload tail
    → ((xs : List (Entry (List Field) Field)) → Perm (sort xs) xs)
    → Perm (wal_paths dir listing) (names m'.files)
    → All (λ path'. readable path' ≡ true) (wal_paths dir listing)
    → (loaded : List (Entry (List Field) Field)) × (load_all sort readable
          (extend m'.files path tail)
          dir
          listing
        ≡ given loaded)
      × Perm loaded (map entry_of (es ++ added))
run_stopped sort opens readable m m' es added dir listing e c path tail h run cut sorts listed
      free =
    load_all-torn sort readable m'.files dir listing (es ++ added) path tail sorts listed free
      ((Run-Keeps es run h).stores) (torn c cut)
