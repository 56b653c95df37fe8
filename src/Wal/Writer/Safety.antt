-- ===== src/Wal/Writer/Safety.antt =====
-- lib/wal/wal_writer.cpp: what the files hold, at every point of every run of a writer.
use enigma_db.Base.{
  ℕ, ◌+◌, ◌%◌, ◌^◌, ◌<◌, ◌≡◌, refl, leb, Bool, true, Option, none, some, List, [], ◌∷◌, ◌++◌, foldl,
  map, inl, inr, Option-cases, append-nil,
}
use mathlib.Core.Path.{subst}
use enigma_db.Outcome.{After, if-After, bind-After, returned, thrown}
use enigma_db.Field.{given}
use enigma_db.Field.Codec.{Field}
use enigma_db.Entry.{Entry}
use enigma_db.Entry.Codec.Body.{Stored, entry_of, IsStorable, body_size}
use enigma_db.Wal.Streams.{FilePath, Files, contents, Output, write, open_append, spill}
use enigma_db.Wal.Streams as Streams
use enigma_db.Wal.Streams.Spilled.{
  Whole, pending, spill-Whole, write-Whole, flush-Whole, close-Whole, open_append-Whole,
}
use enigma_db.Wal.Codec.{FlushMode, no_flush, force_flush, finish}
use enigma_db.Wal.Codec.Records.{frame, Encoded, encode, write_record_lem, write_record_unopened}
use enigma_db.Wal.Log.{Log, empty, record_of, IsLog, append-IsLog}
use enigma_db.Wal.Load.{load_file}
use enigma_db.Wal.Load.Recovery.{load_file-Log}
use enigma_db.Wal.Load.Cut.{Cut, Log-Cut}
use enigma_db.Wal.Writer.{Writer, close_stream, flush, close, rotate, count, append, file_path}

-- What every file holds, together with what is in the buffer for it, is the log of some entries.
abbrev pub InOrder : Output → Type 0
InOrder = Whole IsLog

frame-IsLog : (e : Stored) (w : Encoded e) → IsLog (frame w.payload)
frame-IsLog e w = subst IsLog (append-nil (frame w.payload)) (e ∷ [], record_of w empty)

write-InOrder :
    (e : Stored) (w : Encoded e) (o : Output) → InOrder o → InOrder (write (frame w.payload) o)
write-InOrder e w o h = write-Whole IsLog append-IsLog (frame w.payload) o (frame-IsLog e w) h

finish-InOrder : (mode : FlushMode) (o : Output) → InOrder o → InOrder (finish mode o)
finish-InOrder no_flush o h = h
finish-InOrder force_flush o h = flush-Whole IsLog append-IsLog o h

close_cases :
    (path : Option FilePath) (o : Output)
    → InOrder o
    → InOrder (elim path [ none ↦ o | some p ↦ Streams.close (Streams.flush o) ])
close_cases none o h = h
close_cases (some p) o h =
    close-Whole IsLog append-IsLog (Streams.flush o) (flush-Whole IsLog append-IsLog o h)

close_stream-InOrder : (o : Output) → InOrder o → InOrder (close_stream o)
unfolding close_stream
close_stream-InOrder o h = close_cases o.path o h

abbrev Orderly : Writer → Type 0
Orderly w = InOrder w.current_out_stream

module _ (opens : FilePath → Bool) where
  rotate-After : (w : Writer) → InOrder w.current_out_stream → After Orderly (rotate opens w)
  unfolding rotate
  rotate-After w h =
      let name = file_path w ((w.current_file_number + 1) % 2 ^ 32) in
      let closed = close_stream w.current_out_stream in
      let opened : InOrder (open_append opens name closed) =
        open_append-Whole IsLog append-IsLog opens name closed
          (close_stream-InOrder w.current_out_stream h) in
      if-After Orderly ((open_append opens name closed).good) _ _ opened opened

  count-After :
      (written : ℕ) (w : Writer)
      → InOrder w.current_out_stream
      → After Orderly (count opens written w)
  unfolding count
  count-After written w h =
      let size = (w.current_file_size + written) % 2 ^ 64 in
      let w' = record w { current_file_size = size } in
      if-After Orderly (leb w.max_file_size size) _ _
        (bind-After Orderly (rotate opens) (λ done. returned true) w' (rotate-After w' h)
          (λ done w'' k. k))
        h

  append-After :
      (e : Stored) (mode : FlushMode) (w : Writer)
      → IsStorable e
      → body_size e + 17 < 2 ^ 32
      → InOrder w.current_out_stream
      → After Orderly (append opens (entry_of e) mode w)
  unfolding append
  append-After e mode w ok small h = elim (Option-cases w.current_out_stream.path) [
    | inl unopened ↦
        rw (write_record_unopened mode (entry_of e) w.current_out_stream unopened, append) tt
    | inr (path, opened) ↦
        let c = encode e ok small in
        rw (write_record_lem mode e c w.current_out_stream path opened, append)
          (count-After _ _ (finish-InOrder mode _ (write-InOrder e c w.current_out_stream h)))
  ]

-- One call of a writer that returns or throws, or bytes of the buffer that the stream passes on by
-- itself, at any point and as many as it likes.
pub data Step (opens : FilePath → Bool) : Writer → Writer → Type 0 where
  appended :
      {w w' : Writer} {b : Bool} (e : Stored) (mode : FlushMode)
      → IsStorable e
      → body_size e + 17 < 2 ^ 32
      → append opens (entry_of e) mode w ≡ returned b w'
      → Step opens w w'
  failed :
      {w w' : Writer} (e : Stored) (mode : FlushMode)
      → IsStorable e
      → body_size e + 17 < 2 ^ 32
      → append opens (entry_of e) mode w ≡ thrown w'
      → Step opens w w'
  flushed : {w w' : Writer} → flush w ≡ returned tt w' → Step opens w w'
  spilled :
      {w : Writer} (n : ℕ)
      → Step opens w (record w { current_out_stream = spill n w.current_out_stream })
  closed : {w w' : Writer} → close w ≡ returned tt w' → Step opens w w'

pub data Run (opens : FilePath → Bool) (w : Writer) : Writer → Type 0 where
  start : Run opens w w
  next : {w' w'' : Writer} → Run opens w w' → Step opens w' w'' → Run opens w w''

Step-InOrder :
    {opens : FilePath → Bool} {w w' : Writer}
    → Step opens w w'
    → InOrder w.current_out_stream
    → InOrder w'.current_out_stream
unfolding flush close
Step-InOrder {opens} (appended {w} e mode ok small returns) h =
    subst (After Orderly) returns (append-After opens e mode w ok small h)
Step-InOrder {opens} (failed {w} e mode ok small throws) h =
    subst (After Orderly) throws (append-After opens e mode w ok small h)
Step-InOrder (flushed {w} returns) h =
    subst (After Orderly) returns (flush-Whole IsLog append-IsLog w.current_out_stream h)
Step-InOrder (spilled {w} n) h = spill-Whole IsLog append-IsLog n w.current_out_stream h
Step-InOrder (closed {w} returns) h =
    subst (After Orderly) returns (close_stream-InOrder w.current_out_stream h)

pub Run-InOrder :
    {opens : FilePath → Bool} {w w' : Writer}
    → InOrder w.current_out_stream
    → Run opens w w'
    → InOrder w'.current_out_stream
Run-InOrder h start = h
Run-InOrder h (next run step) = Step-InOrder step (Run-InOrder h run)

-- After any appends of built-in values, flushes and closes of a writer, and whatever part of the
-- buffer the stream passed on between them, from a writer whose files with the buffer hold complete
-- records, and whether or not files could be opened: every file with what is in the buffer for it
-- holds complete records. The file itself holds the first of them, with at most the beginning of the
-- next one behind them, and `loadAll` gets their entries from it.
pub run_recoverable :
    {A : Type 0} (reply : A → Entry (List Field) Field → A) (opens : FilePath → Bool)
    (w w' : Writer) (a : A) (path : FilePath)
    → InOrder w.current_out_stream
    → Run opens w w'
    → opens path ≡ true
    → (es : List Stored) × (c : Cut es (contents w'.current_out_stream.files path)) × Log es (
        contents w'.current_out_stream.files path
        ++ pending w'.current_out_stream.path w'.current_out_stream.buffer path)
      × (load_file reply opens w'.current_out_stream.files a path
          ≡ given (foldl reply a (map entry_of c.kept)))
run_recoverable reply opens w w' a path h run readable =
    let o = w'.current_out_stream in
    let (es, log) = (Run-InOrder h run).whole path in
    let c = Log-Cut (contents o.files path) (pending o.path o.buffer path) log refl in
    (es, c, log, load_file-Log reply opens o.files a path readable c.stored c.log c.behind)
