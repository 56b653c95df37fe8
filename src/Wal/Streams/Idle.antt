-- ===== src/Wal/Streams/Idle.antt =====
-- Output streams of lib/wal whose buffer is empty: whatever is done to them but a write keeps what
-- holds of the files, if it does not depend on files that are extended by nothing.
use enigma_db.Base.{
  ℕ, ◌++◌, ◌≡◌, refl, sym, inl, inr, Bool, true, false, Option, none, some, List, [], Bool-cases,
}
use mathlib.Core.Path.{subst}
use enigma_db.Wal.Streams.{FilePath, Files, extend, Output, write, sync, flush, close, open_append}

-- A stream that has a file open is good.
abbrev pub IsHealthy : Option FilePath → Bool → Type 0
IsHealthy none good = Unit
IsHealthy (some path) good = good ≡ true

-- An empty buffer, and what holds of the files.
pub record IsIdle (R : Files → Type 0) (o : Output) : Type 0 where
  pub emptied : o.buffer ≡ []
  pub healthy : IsHealthy o.path o.good
  pub kept : R o.files

abbrev idle_output : Option FilePath → Bool → Files → Output
idle_output path good files = record { path = path; good = good; buffer = []; files = files }

module _ (R : Files → Type 0)
    (opened : (files : Files) (path : FilePath) → R files → R (extend files path [])) where
  Keeps : (Output → Output) → Type 0
  Keeps f =
      (files : Files) (path : Option FilePath) (good : Bool)
      → IsHealthy path good
      → R files
      → IsIdle R (f (idle_output path good files))

  keep : (f : Output → Output) (o : Output) → Keeps f → IsIdle R o → IsIdle R (f o)
  unfolding Keeps
  keep f o keeps h =
      subst
        (λ b. IsIdle R (f (record { path = o.path; good = o.good; buffer = b; files = o.files })))
        (sym h.emptied) (keeps o.files o.path o.good h.healthy h.kept)

  flush-Keeps : Keeps flush
  unfolding Keeps flush sync
  flush-Keeps files none good k h = record { emptied = refl; healthy = k; kept = h }
  flush-Keeps files (some path) false k h = record { emptied = refl; healthy = k; kept = h }
  flush-Keeps files (some path) true k h = record {
    emptied = refl;
    healthy = k;
    kept = opened files path h;
  }

  close-Keeps : Keeps close
  unfolding Keeps close sync
  close-Keeps files none good k h = record { emptied = refl; healthy = tt; kept = h }
  close-Keeps files (some path) good k h = record {
    emptied = refl;
    healthy = tt;
    kept = opened files path h;
  }

  pub flush-IsIdle : (o : Output) → IsIdle R o → IsIdle R (flush o)
  flush-IsIdle o h = keep flush o flush-Keeps h

  pub close-IsIdle : (o : Output) → IsIdle R o → IsIdle R (close o)
  close-IsIdle o h = keep close o close-Keeps h

  open_closed :
      (opens : FilePath → Bool) (name : FilePath) (good : Bool) (files : Files)
      → R files
      → IsIdle R (open_append opens name (idle_output none good files))
  unfolding open_append
  open_closed opens name good files h = elim (Bool-cases (opens name)) [
    | inl free ↦ rw free (record { emptied = refl; healthy = refl; kept = opened files name h })
    | inr refused ↦ rw refused (record { emptied = refl; healthy = tt; kept = h })
  ]

  -- A stream that is opened must be closed.
  pub open_append-IsIdle :
      (opens : FilePath → Bool) (name : FilePath) (o : Output)
      → o.path ≡ none
      → IsIdle R o
      → IsIdle R (open_append opens name o)
  open_append-IsIdle opens name o closed h =
      subst
        (λ p. IsIdle R (
          open_append opens name
            (record { path = p; good = o.good; buffer = o.buffer; files = o.files })))
        (sym closed)
        (subst
          (λ b. IsIdle R (
            open_append opens name
              (record { path = none; good = o.good; buffer = b; files = o.files })))
          (sym h.emptied) (open_closed opens name o.good o.files h.kept))

closed-path :
    (path : Option FilePath) (good : Bool) (buffer : List ℕ) (files : Files)
    → (close (record { path = path; good = good; buffer = buffer; files = files })).path ≡ none
unfolding close
closed-path none good buffer files = refl
closed-path (some p) good buffer files = refl

pub path-close : (o : Output) → (close o).path ≡ none
path-close o = closed-path o.path o.good o.buffer o.files

-- What is flushed is in the file.
pub flushed-IsIdle :
    (R : Files → Type 0) (path : FilePath) (buffer bytes : List ℕ) (files : Files)
    → R (extend files path (buffer ++ bytes))
    → IsIdle R (
        flush
          (write bytes (record { path = some path; good = true; buffer = buffer; files = files })))
unfolding flush write sync
flushed-IsIdle R path buffer bytes files h = record { emptied = refl; healthy = refl; kept = h }
