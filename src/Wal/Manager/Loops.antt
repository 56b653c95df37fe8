-- ===== src/Wal/Manager/Loops.antt =====
-- lib/wal/wal_manager.cpp: the loops over the writers as runs of the pool, of a step for each writer.
use enigma_db.Base.{ℕ, zero, suc, Bool, ◌+◌, ◌≡◌, List, [], append-nil, length}
use mathlib.Core.Path.{subst}
use enigma_db.Outcome.{returned, Method, >>=-inverse}
use enigma_db.Entry.Codec.Body.{Stored}
use enigma_db.Wal.Streams.{FilePath}
use enigma_db.Wal.Writer.{Writer}
use enigma_db.Wal.Writer as Writer
use enigma_db.Wal.Manager.{WalManager, on_writer, each_writer, close, flush_all}
use enigma_db.Wal.Manager.Complete.{Step, flushed, closed, Run, start, next}

module _ (opens : FilePath → Bool) (f : Method Writer (Unit {0}))
    (step : (m m' : WalManager) (i : ℕ)
      → on_writer i f m ≡ returned tt m'
      → Step opens m [] m') where
  each_writer-Run :
      (n i : ℕ) (m₀ m m' : WalManager) (es : List Stored)
      → Run opens m₀ es m
      → each_writer f i n m ≡ returned tt m'
      → Run opens m₀ es m'
  unfolding each_writer
  each_writer-Run zero i m₀ m m' es run ends = subst (Run opens m₀ es) (cc ends) run
  each_writer-Run (suc n) i m₀ m m' es run ends =
      let (done, m₁, returns, rest) =
        >>=-inverse (on_writer i f) (λ done. each_writer f (i + 1) n) m tt m' ends in
      each_writer-Run n (i + 1) m₀ m₁ m' es
        (subst (λ t. Run opens m₀ t m₁) (append-nil es) (next run (step m m₁ i returns))) rest

-- A round of the flush thread.
pub flush_all-Run :
    (opens : FilePath → Bool) (m m' : WalManager) → flush_all m ≡ returned tt m' → Run opens m [] m'
unfolding flush_all
flush_all-Run opens m m' ends =
    each_writer-Run opens Writer.flush (λ n n' i returns. flushed i returns) (length m.writers) 0 m
      m m' [] start ends

pub close-Run :
    (opens : FilePath → Bool) (m m' : WalManager) → close m ≡ returned tt m' → Run opens m [] m'
unfolding close
close-Run opens m m' ends =
    each_writer-Run opens Writer.close (λ n n' i returns. closed i returns) (length m.writers) 0 m m
      m' [] start ends
