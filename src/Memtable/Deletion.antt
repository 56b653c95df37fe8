-- ===== src/Memtable/Deletion.antt =====
-- `MemTable::del` of lib/memtable/memtable.cpp, which calls `get` under its own lock.
use enigma_db.Base.{ℕ, ◌≡◌, arith, if◌then◌else◌}
use enigma_db.Ordered.{Ordered}
use enigma_db.Outcome.{thrown, crashed}
use enigma_db.Memtable.{MemTable, unlocked, unique_lock, shared_lock, get, del}

module _ {K F : Type 0} ⦃o : Ordered K⦄ where
  -- On a table with a free lock that is not frozen `del` does what C++ leaves undefined, whether the
  -- key is there or not: it holds the lock exclusively when `get` asks for it in the same thread. A
  -- frozen table rejects the call by an exception and stays as it was, with the lock free.
  pub del_undefined :
      (millis : ℕ) (key : K) (timestamp : ℕ) (m : MemTable K F)
      → m.rw_mutex ≡ unlocked
      → del millis key timestamp m ≡ (if m.frozen then thrown m else crashed)
  unfolding del unique_lock get shared_lock
  del_undefined millis key timestamp m free = ground arith
