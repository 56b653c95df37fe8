-- ===== src/Wal/Writer/Durability.antt =====
-- lib/wal/wal_writer.cpp: an entry that is appended with `FORCE_FLUSH` is in its file.
use enigma_db.Base.{
  ℕ, ◌+◌, ◌%◌, ◌^◌, ◌<◌, ◌≡◌, refl, ◌∙◌, sym, ap, leb, Bool, true, false, Option, none, some, List,
  [], ◌∷◌, ◌++◌, append_assoc, append-nil, if◌then◌else◌,
}
use mathlib.Core.Path.{subst}
use enigma_db.Outcome.{Outcome, returned, thrown, crashed, ◌>>=◌}
use enigma_db.Entry.Codec.Body.{Stored, entry_of, IsStorable, body_size}
use enigma_db.Wal.Streams.{FilePath, Files, contents, extend, Output, write, open_append}
use enigma_db.Wal.Streams as Streams
use enigma_db.Wal.Streams.Directory.{contents-extended, contents-opened}
use enigma_db.Wal.Streams.Idle.{
  IsIdle, flush-IsIdle, close-IsIdle, open_append-IsIdle, path-close, flushed-IsIdle,
}
use enigma_db.Wal.Codec.{force_flush}
use enigma_db.Wal.Codec.Records.{frame, Encoded, encode, write_record_lem}
use enigma_db.Wal.Log.{Log, empty, record_of, append-Log}
use enigma_db.Wal.Writer.{Writer, close_stream, rotate, count, append, file_path}

-- The call returns true or throws, and the writer that it leaves behind is as described.
abbrev pub Ends : (Writer → Type 0) → Outcome Writer Bool → Type 0
Ends P (returned b w) = (b ≡ true) × P w
Ends P (thrown w) = P w
Ends P crashed = ⊥

if-Ends :
    (P : Writer → Type 0) (b : Bool) (out out' : Outcome Writer Bool)
    → Ends P out
    → Ends P out'
    → Ends P (if b then out else out')
if-Ends P true out out' h h' = h
if-Ends P false out out' h h' = h'

closed-path :
    (path : Option FilePath) (good : Bool) (buffer : List ℕ) (files : Files)
    → (close_stream (record { path = path; good = good; buffer = buffer; files = files })).path
      ≡ none
unfolding close_stream
closed-path none good buffer files = refl
closed-path (some p) good buffer files =
    path-close
      (Streams.flush (record { path = some p; good = good; buffer = buffer; files = files }))

pub path-close_stream : (o : Output) → (close_stream o).path ≡ none
path-close_stream o = closed-path o.path o.good o.buffer o.files

-- A writer whose stream is idle.
abbrev pub Idle : (Files → Type 0) → Writer → Type 0
Idle R w = IsIdle R w.current_out_stream

-- What holds of the files and does not depend on those that are extended by nothing.
module _ (R : Files → Type 0)
    (opened : (files : Files) (path : FilePath) → R files → R (extend files path [])) where
  close_cases :
      (path : Option FilePath) (o : Output)
      → IsIdle R o
      → IsIdle R (elim path [ none ↦ o | some p ↦ Streams.close (Streams.flush o) ])
  close_cases none o h = h
  close_cases (some p) o h = close-IsIdle R opened (Streams.flush o) (flush-IsIdle R opened o h)

  pub close_stream-IsIdle : (o : Output) → IsIdle R o → IsIdle R (close_stream o)
  unfolding close_stream
  close_stream-IsIdle o h = close_cases o.path o h

  rotated-Ends :
      (good : Bool) (w w' : Writer)
      → Idle R w
      → Idle R w'
      → Ends
          (Idle R)
          (((λ x. if good then returned tt w else thrown w') >>= λ done. returned true) w)
  rotated-Ends true w w' h h' = (refl, h)
  rotated-Ends false w w' h h' = h'

  rotate-Ends :
      (opens : FilePath → Bool) (w : Writer)
      → Idle R w
      → Ends (Idle R) ((rotate opens >>= λ done. returned true) w)
  unfolding rotate
  rotate-Ends opens w h =
      let name = file_path w ((w.current_file_number + 1) % 2 ^ 32) in
      let closed = close_stream w.current_out_stream in
      let next : IsIdle R (open_append opens name closed) =
        open_append-IsIdle R opened opens name closed (path-close_stream w.current_out_stream)
          (close_stream-IsIdle w.current_out_stream h) in
      rotated-Ends ((open_append opens name closed).good) _ _ next next

  count-Ends :
      (opens : FilePath → Bool) (written : ℕ) (w : Writer)
      → Idle R w
      → Ends (Idle R) (count opens written w)
  unfolding count
  count-Ends opens written w h =
      let size = (w.current_file_size + written) % 2 ^ 64 in
      let w' = record w { current_file_size = size } in
      if-Ends (Idle R) (leb w.max_file_size size) _ _ (rotate-Ends opens w' h) (refl, h)

  -- An append to an open stream, of what the files and the buffer are extended by.
  pub append-Ends :
      (opens : FilePath → Bool) (e : Stored) (w : Writer) (path : FilePath) (buffer : List ℕ)
      (files : Files)
      → w.current_out_stream
        ≡ record { path = some path; good = true; buffer = buffer; files = files }
      → (c : Encoded e) → R (extend files path (buffer ++ frame c.payload))
      → Ends (Idle R) (append opens (entry_of e) force_flush w)
  unfolding append
  append-Ends opens e w path buffer files stream c h =
      let o = w.current_out_stream in
      let after : IsIdle R (Streams.flush (write (frame c.payload) o)) =
        subst (λ t. IsIdle R (Streams.flush (write (frame c.payload) t))) (sym stream)
          (flushed-IsIdle R path buffer (frame c.payload) files h) in
      rw (write_record_lem force_flush e c o path (ap (λ t. t.path) stream), append)
        (count-Ends opens _ _ after)

map-Ends :
    (P Q : Writer → Type 0) (out : Outcome Writer Bool)
    → ((w : Writer) → P w → Q w)
    → Ends P out
    → Ends Q out
map-Ends P Q (returned b w) f (done, h) = (done, f w h)
map-Ends P Q (thrown w) f h = f w h
map-Ends P Q crashed f h = h

extended-Log :
    (e : Stored) (c : Encoded e) (es : List Stored) (bytes buffer : List ℕ)
    → Log es (bytes ++ buffer)
    → Log (es ++ (e ∷ [])) (bytes ++ (buffer ++ frame c.payload))
extended-Log e c es bytes buffer log =
    subst (λ t. Log (es ++ (e ∷ [])) t)
      (ap (λ t. (bytes ++ buffer) ++ t) (append-nil (frame c.payload))
        ∙ append_assoc bytes buffer (frame c.payload))
      (append-Log log (record_of c empty))

-- If the file that is open and the buffer hold the log of some entries, then an append with
-- `FORCE_FLUSH` of an entry of built-in values that fits the format returns true, or it throws since
-- the next file cannot be opened; either way the file now holds the log of these entries and the
-- new one.
pub append_durable :
    (opens : FilePath → Bool) (e : Stored) (w : Writer) (path : FilePath) (buffer : List ℕ)
    (files : Files) (es : List Stored)
    → w.current_out_stream
      ≡ record { path = some path; good = true; buffer = buffer; files = files }
    → IsStorable e
    → body_size e + 17 < 2 ^ 32
    → Log es (contents files path ++ buffer)
    → Ends
        (λ w'. Log (es ++ (e ∷ [])) (contents w'.current_out_stream.files path))
        (append opens (entry_of e) force_flush w)
append_durable opens e w path buffer files es stream ok small log =
    let c = encode e ok small in
    let R = λ (fs : Files). contents fs path ≡ contents files path ++ (buffer ++ frame c.payload) in
    map-Ends (Idle R) _ _
      (λ w' h.
        subst (λ t. Log (es ++ (e ∷ [])) t) (sym h.kept)
          (extended-Log e c es (contents files path) buffer log))
      (append-Ends R (λ fs q h. contents-opened fs q path ∙ h) opens e w path buffer files stream c
        (contents-extended files path (buffer ++ frame c.payload)))
