-- ===== src/Wal/Load/Recovery.antt =====
-- `WALManager::loadAll` of lib/wal/wal_manager.cpp on files that hold logs.
use enigma_db.Base.{
  ℕ, zero, suc, ◌+◌, ◌≤◌, ◌≡◌, refl, ◌∙◌, ap, Bool, true, Option, none, some, List, [], ◌∷◌, ◌++◌,
  foldl, map, All, arith, length, length-append, append_assoc, append-nil, sym,
}
use enigma_db.Outcome.{returned, >>=-returned}
use enigma_db.Field as Field
use enigma_db.Field.{Result, given}
use enigma_db.Field.Codec.{Field}
use enigma_db.Entry.{Entry}
use enigma_db.Entry.Codec.Body.{Stored, entry_of}
use enigma_db.Wal.Streams.{FilePath, Files, contents, Input, reading, ended}
use enigma_db.Wal.Codec.{read_record, outcome_of}
use enigma_db.Wal.Codec.Records.{frame, Encoded, read_record-frame}
use enigma_db.Wal.Codec.Torn.{IsTorn, read_record_torn, read_record_end}
use enigma_db.Wal.Log.{Log, empty, record_of, length-Log}
use enigma_db.Wal.Load.{
  replied, load_stream, loaded, open_read, load_file, load_files, load_all, load_all_with,
  wal_paths,
}

-- What may stand behind the last record of a file: nothing, or the beginning of a record.
pub data Tail : List ℕ → Type 0 where
  nothing : Tail []
  torn : {e : Stored} {tail : List ℕ} (w : Encoded e) → IsTorn w.payload tail → Tail tail

Tail-ended : {tail : List ℕ} → Tail tail → read_record (reading tail) ≡ returned none ended
Tail-ended nothing = read_record_end
Tail-ended (torn {tail} w t) = read_record_torn w.payload tail w.short t

module _ {A : Type 0} (reply : A → Entry (List Field) Field → A) where
  load_stream_step :
      (fuel : ℕ) (a : A) (bytes : List ℕ) (o : Option (Entry (List Field) Field)) (s : Input)
      → read_record (reading bytes) ≡ returned o s
      → load_stream reply (suc fuel) a (reading bytes)
        ≡ load_stream reply fuel (replied reply a o) s
  unfolding load_stream
  load_stream_step fuel a bytes o s reads =
      >>=-returned read_record (λ entry. load_stream reply fuel (replied reply a entry)) reads

  load_stream-ended :
      (fuel : ℕ) (a : A) → load_stream reply (suc fuel) a ended ≡ returned (some a) ended
  unfolding load_stream
  load_stream-ended fuel a = refl

  load_stream-Log :
      {es : List Stored} {bytes : List ℕ} (fuel : ℕ) (a : A) (tail : List ℕ)
      → Log es bytes
      → Tail tail
      → length es + 2 ≤ fuel
      → load_stream reply fuel a (reading (bytes ++ tail))
        ≡ returned (some (foldl reply a (map entry_of es))) ended
  load_stream-Log zero a tail l t h = absurd (omega arith)
  load_stream-Log (suc zero) a tail l t h = absurd (omega arith)
  load_stream-Log (suc (suc fuel)) a tail empty t h =
      load_stream_step (suc fuel) a tail none ended (Tail-ended t) ∙ load_stream-ended fuel a
  load_stream-Log (suc (suc fuel)) a tail (record_of {e} {es} {bytes} w l) t h =
      ap (λ bs. load_stream reply (suc (suc fuel)) a (reading bs))
        (append_assoc (frame w.payload) bytes tail)
      ∙ load_stream_step (suc fuel) a (frame w.payload ++ (bytes ++ tail)) (some (entry_of e))
          (reading (bytes ++ tail))
          (read_record-frame w.payload (bytes ++ tail) w.short
            ∙ ap (λ r. outcome_of r (reading (bytes ++ tail))) w.reads)
      ∙ load_stream-Log {es = es} {bytes = bytes} (suc fuel) (reply a (entry_of e)) tail l t
          (omega arith)

  pub load_file-Log :
      {es : List Stored} {bytes tail : List ℕ} (opens : FilePath → Bool) (files : Files) (a : A)
      (path : FilePath)
      → opens path ≡ true
      → contents files path ≡ bytes ++ tail
      → Log es bytes
      → Tail tail
      → load_file reply opens files a path ≡ given (foldl reply a (map entry_of es))
  unfolding load_file open_read
  load_file-Log {es} {bytes} {tail} opens files a path readable stored l t =
      rw (readable, stored)
        (ap (loaded reply) (
          load_stream-Log (length (bytes ++ tail) + 2) a tail l t
            (omega (arith, length-Log l, length-append bytes tail))))

-- A file that can be opened and holds the log of the entries, with what may stand behind it.
pub record Holds (opens : FilePath → Bool) (files : Files) (path : FilePath) (es : List Stored)
    : Type 0 where
  pub readable : opens path ≡ true
  pub bytes : List ℕ
  pub tail : List ℕ
  pub stored : contents files path ≡ bytes ++ tail
  pub log : Log es bytes
  pub behind : Tail tail

-- The entries of the files, one file behind the other.
abbrev pub all_held : (FilePath → List Stored) → List FilePath → List Stored
all_held held [] = []
all_held held (path ∷ paths) = held path ++ all_held held paths

foldl-map_append :
    {A : Type 0} (reply : A → Entry (List Field) Field → A) (a : A) (es fs : List Stored)
    → foldl reply a (map entry_of (es ++ fs))
      ≡ foldl reply (foldl reply a (map entry_of es)) (map entry_of fs)
foldl-map_append reply a [] fs = refl
foldl-map_append reply a (e ∷ es) fs = foldl-map_append reply (reply a (entry_of e)) es fs

push_all :
    (before : List (Entry (List Field) Field)) (es : List Stored)
    → foldl (λ entries e. entries ++ (e ∷ [])) before (map entry_of es) ≡ before ++ map entry_of es
push_all before [] = sym (append-nil before)
push_all before (e ∷ es) =
    push_all (before ++ (entry_of e ∷ [])) es
    ∙ append_assoc before (entry_of e ∷ []) (map entry_of es)

load_files-Log :
    {A : Type 0} (reply : A → Entry (List Field) Field → A) (opens : FilePath → Bool)
    (files : Files) (held : FilePath → List Stored) (a : A) (paths : List FilePath)
    → All (λ path. Holds opens files path (held path)) paths
    → load_files reply opens files a paths
      ≡ given (foldl reply a (map entry_of (all_held held paths)))
unfolding load_files
load_files-Log reply opens files held a [] hs = refl
load_files-Log reply opens files held a (path ∷ paths) (h, hs) =
    let more = foldl reply a (map entry_of (held path)) in
    ap (λ r. Field.◌>>=◌ r λ a'. load_files reply opens files a' paths)
      (load_file-Log reply opens files a path h.readable h.stored h.log h.behind)
    ∙ load_files-Log reply opens files held more paths hs
    ∙ ap given (sym (foldl-map_append reply a (held path) (all_held held paths)))

-- `loadAll` on a directory whose log files can be opened and hold records of built-in values, each
-- file with, at its end, at most the beginning of a record that was not written to its end: it
-- gives the entries of the complete records, sorted, and nothing else.
pub load_all_recovers :
    (sort : List (Entry (List Field) Field) → List (Entry (List Field) Field))
    (opens : FilePath → Bool) (files : Files) (dir : FilePath) (listing : List (FilePath × Bool))
    (held : FilePath → List Stored)
    → All (λ path. Holds opens files path (held path)) (wal_paths dir listing)
    → load_all sort opens files dir listing
      ≡ given (sort (map entry_of (all_held held (wal_paths dir listing))))
unfolding load_all load_all_with
load_all_recovers sort opens files dir listing held hs =
    let push = λ (entries : List (Entry (List Field) Field)) (e : Entry (List Field) Field).
      entries ++ (e ∷ []) in
    ap (λ r. Field.◌>>=◌ r λ entries. given (sort entries))
      (load_files-Log push opens files held [] (wal_paths dir listing) hs)
    ∙ ap (λ t. given (sort t)) (push_all [] (all_held held (wal_paths dir listing)))
