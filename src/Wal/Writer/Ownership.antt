-- ===== src/Wal/Writer/Ownership.antt =====
-- lib/wal/wal_writer.cpp: the file that a writer has open is its own.
use enigma_db.Base.{
  ℕ, ◌+◌, ◌%◌, ◌^◌, ◌<◌, ◌≡◌, refl, ◌∙◌, sym, leb, Bool, true, false, Option, none, some, List,
  arith, inl, inr, Bool-cases, Option-cases,
}
use mathlib.Core.Path.{subst}
use enigma_db.Outcome.{returned, After, if-After, bind-After}
use enigma_db.Entry.Codec.Body.{Stored, entry_of, IsStorable, body_size}
use enigma_db.Wal.Streams.{FilePath, Files, Output, write, sync, open_append}
use enigma_db.Wal.Streams as Streams
use enigma_db.Wal.Codec.{FlushMode, no_flush, force_flush, finish}
use enigma_db.Wal.Codec.Records.{frame, encode, write_record_lem, write_record_unopened}
use enigma_db.Wal.Writer.{Writer, close_stream, flush, close, rotate, count, append, file_path}
use enigma_db.Wal.Writer.Durability.{path-close_stream}

output : Option FilePath → Bool → List ℕ → Files → Output
output path good buffer files = record { path = path; good = good; buffer = buffer; files = files }

open_path-write :
    (bytes : List ℕ) (path : Option FilePath) (good : Bool) (buffer : List ℕ) (files : Files)
    → (write bytes (output path good buffer files)).path ≡ path
unfolding write output
open_path-write bytes none good buffer files = refl
open_path-write bytes (some p) true buffer files = refl
open_path-write bytes (some p) false buffer files = refl

path-write : (bytes : List ℕ) (o : Output) → (write bytes o).path ≡ o.path
unfolding output
path-write bytes o = open_path-write bytes o.path o.good o.buffer o.files

open_path-flush :
    (path : Option FilePath) (good : Bool) (buffer : List ℕ) (files : Files)
    → (Streams.flush (output path good buffer files)).path ≡ path
unfolding Streams.flush sync output
open_path-flush none good buffer files = refl
open_path-flush (some p) true buffer files = refl
open_path-flush (some p) false buffer files = refl

path-flush : (o : Output) → (Streams.flush o).path ≡ o.path
unfolding output
path-flush o = open_path-flush o.path o.good o.buffer o.files

path-finish : (mode : FlushMode) (o : Output) → (finish mode o).path ≡ o.path
path-finish no_flush o = refl
path-finish force_flush o = path-flush o

-- No file is open, or the one with the name.
abbrev pub IsOwn : FilePath → Option FilePath → Type 0
IsOwn name none = Unit
IsOwn name (some path) = path ≡ name

open_append-IsOwn :
    (opens : FilePath → Bool) (name : FilePath) (path : Option FilePath) (good : Bool)
    (buffer : List ℕ) (files : Files)
    → path ≡ none
    → IsOwn name (open_append opens name (output path good buffer files)).path
unfolding open_append output
open_append-IsOwn opens name none good buffer files closed = elim (Bool-cases (opens name)) [
  | inl free ↦ rw free refl
  | inr refused ↦ rw refused tt
]
open_append-IsOwn opens name (some p) good buffer files closed = absurd (cc closed)

-- A writer with an id in a directory, and with the file of its number open, if any.
pub record IsOwner (id : ℕ) (dir : FilePath) (w : Writer) : Type 0 where
  pub numbered : w.writer_id ≡ id
  pub directory : w.wal_dir ≡ dir
  pub bounded : w.current_file_number < 2 ^ 32
  pub own : IsOwn (file_path w w.current_file_number) w.current_out_stream.path

pub renumber-IsOwner :
    {id id' : ℕ} {dir : FilePath} (w : Writer) → id ≡ id' → IsOwner id dir w → IsOwner id' dir w
renumber-IsOwner {dir} w same h = subst (λ n. IsOwner n dir w) same h

-- The files of the directory do not matter.
pub files-IsOwner :
    {id : ℕ} {dir : FilePath} (files : Files) (w : Writer)
    → IsOwner id dir w
    → IsOwner id dir
        (record w { current_out_stream = record w.current_out_stream { files = files } })
unfolding file_path
files-IsOwner files w h = record {
  numbered = h.numbered;
  directory = h.directory;
  bounded = h.bounded;
  own = h.own;
}

-- A call that leaves the path of the stream as it is.
stream-IsOwner :
    {id : ℕ} {dir : FilePath} (w : Writer) (o : Output) (size : ℕ)
    → o.path ≡ w.current_out_stream.path
    → IsOwner id dir w
    → IsOwner id dir (record w { current_out_stream = o; current_file_size = size })
unfolding file_path
stream-IsOwner w o size same h = record {
  numbered = h.numbered;
  directory = h.directory;
  bounded = h.bounded;
  own = subst (IsOwn (file_path w w.current_file_number)) (sym same) h.own;
}

closed-IsOwner :
    {id : ℕ} {dir : FilePath} (w : Writer) (o : Output)
    → o.path ≡ none
    → IsOwner id dir w
    → IsOwner id dir (record w { current_out_stream = o })
unfolding file_path
closed-IsOwner w o closed h = record {
  numbered = h.numbered;
  directory = h.directory;
  bounded = h.bounded;
  own = subst (IsOwn (file_path w w.current_file_number)) (sym closed) tt;
}

module _ {id : ℕ} {dir : FilePath} where
  pub flush-IsOwner : (w : Writer) → IsOwner id dir w → After (IsOwner id dir) (flush w)
  unfolding flush
  flush-IsOwner w h =
      stream-IsOwner w (Streams.flush w.current_out_stream) w.current_file_size
        (path-flush w.current_out_stream) h

  pub close-IsOwner : (w : Writer) → IsOwner id dir w → After (IsOwner id dir) (close w)
  unfolding close
  close-IsOwner w h =
      closed-IsOwner w (close_stream w.current_out_stream) (path-close_stream w.current_out_stream)
        h

  rotate-IsOwner :
      (opens : FilePath → Bool) (w : Writer)
      → IsOwner id dir w
      → After (IsOwner id dir) (rotate opens w)
  unfolding rotate file_path output
  rotate-IsOwner opens w h =
      let number = (w.current_file_number + 1) % 2 ^ 32 in
      let o = close_stream w.current_out_stream in
      let w' = record w {
        current_out_stream = open_append opens (file_path w number) o;
        current_file_number = number;
      } in
      let h' : IsOwner id dir w' = record {
        numbered = h.numbered;
        directory = h.directory;
        bounded = omega arith;
        own =
            open_append-IsOwn opens (file_path w number) o.path o.good o.buffer o.files
              (path-close_stream w.current_out_stream);
      } in
      if-After (IsOwner id dir) (w'.current_out_stream.good) _ _
        (stream-IsOwner w' w'.current_out_stream 0 refl h') h'

  count-IsOwner :
      (opens : FilePath → Bool) (written : ℕ) (w : Writer)
      → IsOwner id dir w
      → After (IsOwner id dir) (count opens written w)
  unfolding count
  count-IsOwner opens written w h =
      let size = (w.current_file_size + written) % 2 ^ 64 in
      let w' = record w { current_file_size = size } in
      let h' : IsOwner id dir w' = stream-IsOwner w w.current_out_stream size refl h in
      if-After (IsOwner id dir) (leb w.max_file_size size) _ _
        (bind-After (IsOwner id dir) (rotate opens) (λ done. returned true) w'
          (rotate-IsOwner opens w' h') (λ done w'' k. k))
        h'

  pub append-IsOwner :
      (opens : FilePath → Bool) (e : Stored) (mode : FlushMode) (w : Writer)
      → IsStorable e
      → body_size e + 17 < 2 ^ 32
      → IsOwner id dir w
      → After (IsOwner id dir) (append opens (entry_of e) mode w)
  unfolding append
  append-IsOwner opens e mode w ok small h = elim (Option-cases w.current_out_stream.path) [
    | inl unopened ↦
        rw (write_record_unopened mode (entry_of e) w.current_out_stream unopened, append) tt
    | inr (path, opened) ↦
        let c = encode e ok small in
        let o = w.current_out_stream in
        rw (write_record_lem mode e c o path opened, append)
          (count-IsOwner opens _ _ (
            stream-IsOwner w (finish mode (write (frame c.payload) o)) w.current_file_size
              (path-finish mode (write (frame c.payload) o) ∙ path-write (frame c.payload) o) h))
  ]
