-- ===== src/Wal/Log.antt =====
-- Files of lib/wal as the entries that they hold.
use enigma_db.Base.{ℕ, ◌≤◌, sym, List, [], ◌∷◌, ◌++◌, arith, length, length-append, append_assoc}
use mathlib.Core.Path.{subst}
use enigma_db.Entry.Codec.Body.{Stored}
use enigma_db.Wal.Codec.Records.{frame, Encoded}

-- The bytes that are the records of the entries, one behind the other.
pub data Log : List Stored → List ℕ → Type 0 where
  empty : Log [] []
  record_of :
      {e : Stored} {es : List Stored} {bytes : List ℕ} (w : Encoded e)
      → Log es bytes
      → Log (e ∷ es) (frame w.payload ++ bytes)

-- Some entries have the bytes for their log.
abbrev pub IsLog : List ℕ → Type 0
IsLog bytes = (es : List Stored) × Log es bytes

pub append-Log :
    {es fs : List Stored} {bytes more : List ℕ}
    → Log es bytes
    → Log fs more
    → Log (es ++ fs) (bytes ++ more)
append-Log empty m = m
append-Log {fs} {more} (record_of {e} {es} {bytes} w l) m =
    subst (λ t. Log (e ∷ (es ++ fs)) t) (sym (append_assoc (frame w.payload) bytes more))
      (record_of w (append-Log l m))

pub append-IsLog : (bytes more : List ℕ) → IsLog bytes → IsLog more → IsLog (bytes ++ more)
append-IsLog bytes more (es, l) (fs, m) = (es ++ fs, append-Log l m)

pub length-Log : {es : List Stored} {bytes : List ℕ} → Log es bytes → length es ≤ length bytes
length-Log empty = omega arith
length-Log (record_of {bytes} w l) =
    omega (arith, length-Log l, length-append (frame w.payload) bytes)
