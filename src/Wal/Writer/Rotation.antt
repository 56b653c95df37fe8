-- ===== src/Wal/Writer/Rotation.antt =====
-- lib/wal/wal_writer.cpp: when a writer goes over to the next file, what the file is called, and
-- what becomes of a writer that has none.
use enigma_db.Base.{
  ℕ, ◌-◌, ◌<◌, ◌≡◌, refl, ap, leb, Bool, true, none, List, [], ◌∷◌, ◌++◌, arith, length,
  length-append, append_assoc, drop-append,
}
use enigma_db.Base.Strings.{same_bytes_self}
use mathlib.Core.Path.{subst}
use enigma_db.Outcome.{Outcome, returned, thrown, crashed}
use enigma_db.Field.Codec.{Field}
use enigma_db.Entry.{Entry}
use enigma_db.Wal.Streams.{FilePath, Files}
use enigma_db.Wal.Codec.{FlushMode}
use enigma_db.Wal.Codec.Records.{write_record_unopened}
use enigma_db.Wal.Load.{ends_with, is_wal_file, wal_paths}
use enigma_db.Wal.Writer.{Writer, to_string, padded, file_name, file_path, init, new, append}

-- The writer that a call returns is below the limit.
abbrev Below : {A : Type 0} → Outcome Writer A → Type 0
Below (returned a w) = w.current_file_size < w.max_file_size
Below (thrown w) = Unit
Below crashed = Unit

unopened_lem :
    (opens : FilePath → Bool) (e : Entry (List Field) Field) (mode : FlushMode) (w : Writer)
    → w.current_out_stream.path ≡ none
    → append opens e mode w ≡ crashed
unfolding append
unopened_lem opens e mode w unopened =
    rw (write_record_unopened mode e w.current_out_stream unopened, append) refl

-- The first append to a new writer fails its assertion, whatever the entry, the engine, the
-- directory and the limit are: the constructor opens no file.
pub append-new :
    (open_segment : FilePath → FilePath → ℕ) (opens : FilePath → Bool) (files : Files) (id : ℕ)
    (dir : FilePath) (limit : ℕ) (e : Entry (List Field) Field) (mode : FlushMode)
    → append opens e mode (new open_segment files id dir limit) ≡ crashed
unfolding new init
append-new open_segment opens files id dir limit e mode =
    unopened_lem opens e mode (new open_segment files id dir limit) refl

ends_with-append : (name suffix : List ℕ) → ends_with suffix (name ++ suffix) ≡ true
ends_with-append name suffix =
    let long : leb (length suffix) (length (name ++ suffix)) ≡ true =
      ground (arith, length-append name suffix) in
    let at_end : length (name ++ suffix) - length suffix ≡ length name =
      omega (arith, length-append name suffix) in
    rw (long, at_end, drop-append name suffix) (same_bytes_self suffix)

is_wal_file-file_name : (id number : ℕ) → is_wal_file (file_name id number, true) ≡ true
unfolding file_name is_wal_file
is_wal_file-file_name id number =
    let front = (119 ∷ 95 ∷ []) ++ (to_string id ++ ((95 ∷ []) ++ padded (to_string number))) in
    let extension : List ℕ = 46 ∷ 119 ∷ 97 ∷ 108 ∷ [] in
    let whole : front ++ extension ≡ file_name id number =
      ap (λ t. 119 ∷ 95 ∷ t)
        (append_assoc (to_string id) ((95 ∷ []) ++ padded (to_string number)) extension) in
    subst (λ t. ends_with extension t ≡ true) whole (ends_with-append front extension)

-- `loadAll` reads every file that a writer in its directory opens, at the path where the writer
-- opens it, as soon as the system lists it as a regular file.
pub wal_paths-file_path :
    (w : Writer) (number : ℕ) (listing : List (FilePath × Bool))
    → wal_paths w.wal_dir ((file_name w.writer_id number, true) ∷ listing)
      ≡ file_path w number ∷ wal_paths w.wal_dir listing
unfolding wal_paths file_path
wal_paths-file_path w number listing =
    let accepted : is_wal_file (file_name w.writer_id number, true) ≡ true =
      is_wal_file-file_name w.writer_id number in
    rw accepted refl
