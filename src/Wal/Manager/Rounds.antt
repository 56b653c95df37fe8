-- ===== src/Wal/Manager/Rounds.antt =====
-- lib/wal/wal_manager.cpp: the loops over all writers.
use enigma_db.Base.{
  ℕ, zero, suc, ◌+◌, ◌≡◌, refl, ◌∙◌, sym, ap, false, none, some, List, [], ◌∷◌, ◌++◌, All,
  All-append, get_elem?, set, append-nil, length, length-append,
}
use mathlib.Core.Path.{subst}
use enigma_db.Outcome.{After, bind-After, Outcome, returned, Method, >>=-returned}
use enigma_db.Entry.Codec.Body.{Stored}
use enigma_db.Wal.Writer.{Writer, close_stream, on_stream}
use enigma_db.Wal.Writer as Writer
use enigma_db.Wal.Writer.Durability.{path-close_stream}
use enigma_db.Wal.Manager.{
  new, new_writers, WalManager, in_directory, put_back, taken_back, on_writer, each_writer,
  stop_flush_thread, close, destroy,
}
use enigma_db.Wal.Manager.Laws.{on_writer_lem, flush_thread_lem}
use enigma_db.Wal.Manager.Settled.{Keeps, IsSettled, close-Keeps}
use enigma_db.Wal.Holding.{Stores}
use enigma_db.Wal.Streams.{FilePath, Files}
use enigma_db.Wal.Manager.Complete.{stop-Keeps}

get_elem?-append :
    (before after : List Writer) (w : Writer)
    → get_elem? (before ++ (w ∷ after)) (length before) ≡ some w
get_elem?-append [] after w = refl
get_elem?-append (v ∷ before) after w = get_elem?-append before after w

set-append :
    (before after : List Writer) (v w : Writer)
    → set (before ++ (v ∷ after)) (length before) w ≡ (before ++ (w ∷ [])) ++ after
set-append [] after v w = refl
set-append (u ∷ before) after v w = ap (λ t. u ∷ t) (set-append before after v w)

-- A method that always returns, with a writer as described.
abbrev pub Always : (Writer → Type 0) → Method Writer (Unit {0}) → Type 0
Always Q f = (w : Writer) → (w' : Writer) × (f w ≡ returned tt w') × Q w'

-- The call returns, all writers are as described, and the flush thread is as it was.
abbrev pub Swept : (Writer → Type 0) → WalManager → Outcome WalManager (Unit {0}) → Type 0
Swept Q m out =
    (m' : WalManager) × (out ≡ returned tt m')
    × All Q m'.writers
    × (m'.joinable ≡ m.joinable)
    × (m'.flush_thread_running ≡ m.flush_thread_running)

-- The writers at the end of the loop, behind those that have been called.
each_writer-Swept :
    (Q : Writer → Type 0) (f : Method Writer (Unit {0})) (before after : List Writer)
    (m : WalManager)
    → Always Q f
    → m.writers ≡ before ++ after
    → All Q before
    → Swept Q m (each_writer f (length before) (length after) m)
unfolding each_writer
each_writer-Swept Q f before [] m always shape h =
    (m, refl, subst (All Q) (sym (shape ∙ append-nil before)) h, refl, refl)
each_writer-Swept Q f before (w ∷ after) m always shape h =
    let i = length before in
    let (w', returns, k) = always (in_directory m.files w) in
    let m' = put_back i w' m in
    let call : on_writer i f m ≡ returned tt m' =
      on_writer_lem i f m w (ap (λ ws. get_elem? ws i) shape ∙ get_elem?-append before after w)
      ∙ ap (taken_back i m) returns in
    let shape' : m'.writers ≡ (before ++ (w' ∷ [])) ++ after =
      ap (λ ws. set ws i w') shape ∙ set-append before after w w' in
    let (m'', ends, all, joins, runs) =
      each_writer-Swept Q f (before ++ (w' ∷ [])) after m' always shape'
        (All-append Q before (w' ∷ []) h (k, tt)) in
    let counts : length (before ++ (w' ∷ [])) ≡ i + 1 = length-append before (w' ∷ []) in
    (
      m'',
      >>=-returned (on_writer i f) (λ done. each_writer f (i + 1) (length after)) call
          ∙ subst (λ j. each_writer f j (length after) m' ≡ returned tt m'') counts ends,
      all,
      joins,
      runs,
    )

each_close-Keeps :
    (es : List Stored) (n i : ℕ) (m : WalManager)
    → Keeps es m
    → After (Keeps es) (each_writer Writer.close i n m)
unfolding each_writer
each_close-Keeps es zero i m h = h
each_close-Keeps es (suc n) i m h =
    bind-After (Keeps es) (on_writer i Writer.close) (λ done. each_writer Writer.close (i + 1) n) m
      (close-Keeps i m es h) (λ done m' h'. each_close-Keeps es n (i + 1) m' h')

-- No file is open.
abbrev pub IsClosed : Writer → Type 0
IsClosed w = w.current_out_stream.path ≡ none

close-Always : Always IsClosed Writer.close
unfolding Writer.close
close-Always w = (on_stream close_stream w, refl, path-close_stream w.current_out_stream)

-- The destructor of a pool whose flush thread can be joined exactly when it is running, and whose
-- writers have nothing in their buffers, returns, with the thread stopped and joined, the file of
-- every writer closed, and the entries in the directory that it had before.
pub destroy_lem :
    (es : List Stored) (m : WalManager)
    → m.joinable ≡ m.flush_thread_running
    → Keeps es m
    → (m' : WalManager) × (destroy m ≡ returned tt m')
      × (m'.joinable ≡ false)
      × (m'.flush_thread_running ≡ false)
      × All IsClosed m'.writers
      × Keeps es m'
unfolding destroy close
destroy_lem es m same h =
    let (m₁, stops, joined, stopped) = (flush_thread_lem m same).1 in
    let h₁ : Keeps es m₁ = subst (After (Keeps es)) stops (stop-Keeps es m h) in
    let (m₂, closes, all, joins, runs) =
      each_writer-Swept IsClosed Writer.close [] m₁.writers m₁ close-Always refl tt in
    (
      m₂,
      >>=-returned stop_flush_thread (λ done m'. each_writer Writer.close 0 (length m'.writers) m')
            stops
          ∙ closes,
      joins ∙ joined,
      runs ∙ stopped,
      all,
      subst (After (Keeps es)) closes (each_close-Keeps es (length m₁.writers) 0 m₁ h₁),
    )

new_writers-IsSettled :
    (open_segment : FilePath → FilePath → ℕ) (files : Files) (dir : FilePath) (limit i n : ℕ)
    → All IsSettled (new_writers open_segment files dir limit i n)
unfolding new_writers Writer.new Writer.init
new_writers-IsSettled open_segment files dir limit i zero = tt
new_writers-IsSettled open_segment files dir limit i (suc n) = (
  record { emptied = refl; healthy = tt },
  new_writers-IsSettled open_segment files dir limit (i + 1) n,
)

-- A new pool is settled, over whatever the directory holds.
pub new-Keeps :
    (es : List Stored) (open_segment : FilePath → FilePath → ℕ) (files : Files) (n limit : ℕ)
    (dir : FilePath)
    → Stores es files
    → Keeps es (new open_segment files n limit dir)
unfolding new
new-Keeps es open_segment files n limit dir h = record {
  settled = new_writers-IsSettled open_segment files dir limit 0 n;
  stores = h;
}
