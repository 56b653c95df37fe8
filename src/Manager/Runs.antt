-- ===== src/Manager/Runs.antt =====
-- A run of lib/memtable/memtable_manager.cpp, and the theorem at it.
use enigma_db.Base.{ℕ, ◌≡◌}
use enigma_db.Ordered.Numbers.{number_ordered}
use enigma_db.Manager.{new, flush_oldest_frozen}
use enigma_db.Manager.Reached.{IsUseless, returns, flushed, Run, start, next, run-IsUseless}

-- A flush of the queue, which is empty.
flushed_run : Run {K = ℕ} {F = ℕ} new new
unfolding flush_oldest_frozen new
flushed_run = next start (flushed returns)

run-IsUseless_example : (new {K = ℕ} {F = ℕ} ≡ new) × IsUseless (new {K = ℕ} {F = ℕ})
run-IsUseless_example = run-IsUseless new flushed_run
