-- ===== src/Wal/Manager/Settled.antt =====
-- lib/wal/wal_manager.cpp: what one call of a pool whose writers are settled does to what its
-- directory holds.
use enigma_db.Base.{
  ℕ, zero, suc, ◌+◌, ◌%◌, ◌^◌, ◌<◌, ◌≡◌, refl, ◌∙◌, ap, ap₂, Bool, Option, none, some, List, [],
  ◌∷◌, ◌++◌, All, get_elem?, set, append-nil, inl, inr, Option-cases,
}
use mathlib.Core.Path.{subst}
use enigma_db.Outcome.{After, Outcome, returned, thrown, crashed, Method}
use enigma_db.Entry.Codec.Body.{Stored, entry_of, IsStorable, body_size}
use enigma_db.Wal.Streams.{FilePath, Files, Output, extend}
use enigma_db.Wal.Streams.Idle.{IsHealthy, flush-IsIdle}
use enigma_db.Wal.Codec.{force_flush}
use enigma_db.Wal.Codec.Records.{frame, encode, write_record_unopened}
use enigma_db.Wal.Log.{empty, record_of}
use enigma_db.Wal.Holding.{Stores, extend-Stores, opened-Stores}
use enigma_db.Wal.Writer.{Writer, close_stream}
use enigma_db.Wal.Writer as Writer
use enigma_db.Wal.Writer.Durability.{Ends, Idle, append-Ends, close_stream-IsIdle}
use enigma_db.Wal.Manager.{WalManager, in_directory, taken_back, on_writer, append}

-- A writer between two calls: nothing is left in its buffer, and a file that is open is good.
pub record IsSettled (w : Writer) : Type 0 where
  pub emptied : w.current_out_stream.buffer ≡ []
  pub healthy : IsHealthy w.current_out_stream.path w.current_out_stream.good

-- The writers are settled, and the directory holds the entries.
pub record Keeps (es : List Stored) (m : WalManager) : Type 0 where
  pub settled : All IsSettled m.writers
  pub stores : Stores es m.files

Ends-After : (P : Writer → Type 0) (out : Outcome Writer Bool) → Ends P out → After P out
Ends-After P (returned b w) (done, h) = h
Ends-After P (thrown w) h = h
Ends-After P crashed h = tt

get_elem?-All :
    {A : Type 0} (P : A → Type 0) (xs : List A) (i : ℕ) (x : A)
    → All P xs
    → get_elem? xs i ≡ some x
    → P x
get_elem?-All P [] i x h found = absurd (cc found)
get_elem?-All P (y ∷ xs) zero x (h, hs) found = subst P (cc found) h
get_elem?-All P (y ∷ xs) (suc i) x (h, hs) found = get_elem?-All P xs i x hs found

set-All :
    {A : Type 0} (P : A → Type 0) (xs : List A) (i : ℕ) (x : A)
    → All P xs
    → P x
    → All P (set xs i x)
set-All P [] i x h k = tt
set-All P (y ∷ xs) zero x (h, hs) k = (k, hs)
set-All P (y ∷ xs) (suc i) x (h, hs) k = (h, set-All P xs i x hs k)

taken_back-Keeps :
    {A : Type 0} (es : List Stored) (i : ℕ) (m : WalManager) (out : Outcome Writer A)
    → All IsSettled m.writers
    → After (Idle (Stores es)) out
    → After (Keeps es) (taken_back i m out)
taken_back-Keeps es i m (returned a w) h k = record {
  settled = set-All IsSettled m.writers i w h (record { emptied = k.emptied; healthy = k.healthy });
  stores = k.kept;
}
taken_back-Keeps es i m (thrown w) h k = record {
  settled = set-All IsSettled m.writers i w h (record { emptied = k.emptied; healthy = k.healthy });
  stores = k.kept;
}
taken_back-Keeps es i m crashed h k = tt

-- A call of one of the writers, in the directory as the others have left it.
on_writer-Keeps :
    {A : Type 0} (es : List Stored) (i : ℕ) (f : Method Writer A) (m : WalManager)
    → All IsSettled m.writers
    → ((w : Writer) → IsSettled w → After (Idle (Stores es)) (f (in_directory m.files w)))
    → After (Keeps es) (on_writer i f m)
unfolding on_writer
on_writer-Keeps es i f m h calls = elim (Option-cases (get_elem? m.writers i)) [
  | inl missing ↦ rw (missing, After) tt
  | inr (w, found) ↦
      rw (found, After)
        (taken_back-Keeps es i m (f (in_directory m.files w)) h
          (calls w (get_elem?-All IsSettled m.writers i w h found)))
]

open_append-After :
    (opens : FilePath → Bool) (e : Stored) (w : Writer) (path : Option FilePath) (good : Bool)
    (buffer : List ℕ) (files : Files) (es : List Stored)
    → w.current_out_stream ≡ record { path = path; good = good; buffer = buffer; files = files }
    → IsStorable e
    → body_size e + 17 < 2 ^ 32
    → buffer ≡ []
    → IsHealthy path good
    → Stores es files
    → After (Idle (Stores (es ++ (e ∷ [])))) (Writer.append opens (entry_of e) force_flush w)
unfolding Writer.append
open_append-After opens e w none good buffer files es stream ok small clear healthy h =
    let unopened = ap (λ (o : Output). o.path) stream in
    rw (write_record_unopened force_flush (entry_of e) w.current_out_stream unopened, Writer.append)
      tt
open_append-After opens e w (some path) good buffer files es stream ok small clear healthy h =
    let c = encode e ok small in
    let open_stream : Bool → List ℕ → Output =
      λ g b. record { path = some path; good = g; buffer = b; files = files } in
    let R = Stores (es ++ (e ∷ [])) in
    Ends-After (Idle R) _ (
      append-Ends R (λ fs q k. opened-Stores fs q k) opens e w path [] files
        (stream ∙ ap₂ open_stream healthy clear) c
        (subst (λ t. R (extend files path t)) (append-nil (frame c.payload))
          (extend-Stores files path (frame c.payload ++ []) (record_of c empty) h)))

append-After :
    (opens : FilePath → Bool) (e : Stored) (w : Writer) (files : Files) (es : List Stored)
    → IsStorable e
    → body_size e + 17 < 2 ^ 32
    → Stores es files
    → IsSettled w
    → After
        (Idle (Stores (es ++ (e ∷ []))))
        (Writer.append opens (entry_of e) force_flush (in_directory files w))
append-After opens e w files es ok small stores h =
    let o = w.current_out_stream in
    open_append-After opens e (in_directory files w) o.path o.good o.buffer files es refl ok small
      h.emptied h.healthy stores

-- An append by any thread.
pub append-Keeps :
    (opens : FilePath → Bool) (thread_id : ℕ) (e : Stored) (m : WalManager) (es : List Stored)
    → IsStorable e
    → body_size e + 17 < 2 ^ 32
    → Keeps es m
    → After (Keeps (es ++ (e ∷ []))) (append opens thread_id (entry_of e) m)
unfolding append
append-Keeps opens thread_id e m es ok small h =
    elim m.writers_count
      as (λ k. After (Keeps (es ++ (e ∷ []))) (elim k [
        | zero ↦ crashed
        | suc n ↦ on_writer (thread_id % suc n) (Writer.append opens (entry_of e) force_flush) m
      ])) [
        | zero ↦ tt
        | suc n ↦
            on_writer-Keeps (es ++ (e ∷ [])) (thread_id % suc n)
              (Writer.append opens (entry_of e) force_flush) m h.settled
              (λ w k. append-After opens e w m.files es ok small h.stores k)
      ]

idle :
    (es : List Stored) (files : Files) (w : Writer)
    → Stores es files
    → IsSettled w
    → Idle (Stores es) (in_directory files w)
idle es files w h k = record { emptied = k.emptied; healthy = k.healthy; kept = h }

-- The flush thread, where it comes to a writer.
pub flush-Keeps :
    (i : ℕ) (m : WalManager) (es : List Stored)
    → Keeps es m
    → After (Keeps es) (on_writer i Writer.flush m)
unfolding Writer.flush
flush-Keeps i m es h = on_writer-Keeps es i Writer.flush m h.settled (λ w k.
    flush-IsIdle (Stores es) (λ fs q s. opened-Stores fs q s)
      (in_directory m.files w).current_out_stream (idle es m.files w h.stores k))

pub close-Keeps :
    (i : ℕ) (m : WalManager) (es : List Stored)
    → Keeps es m
    → After (Keeps es) (on_writer i Writer.close m)
unfolding Writer.close
close-Keeps i m es h = on_writer-Keeps es i Writer.close m h.settled (λ w k.
    close_stream-IsIdle (Stores es) (λ fs q s. opened-Stores fs q s)
      (in_directory m.files w).current_out_stream (idle es m.files w h.stores k))
