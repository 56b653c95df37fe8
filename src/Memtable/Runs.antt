-- ===== src/Memtable/Runs.antt =====
-- Runs of lib/memtable/memtable.cpp on tables of numbers, and the theorems at concrete inputs.
use enigma_db.Base.{ℕ, ◌≡◌, refl, false, some, [], ◌∷◌, arith}
use enigma_db.Base.Int.{pos}
use enigma_db.Ordered.Numbers.{number_ordered}
use enigma_db.Avl.{node, null, insert, insert_node, rebalance_after_insert}
use enigma_db.Entry.{Entry, entry_ordered}
use enigma_db.Outcome.{returned, crashed}
use enigma_db.Memtable.{MemTable, unlocked, put, get, del, unique_lock}
use enigma_db.Memtable.Laws.{IsReady, entries, get-lookup, put-upsert}
use enigma_db.Memtable.Deletion.{del_undefined}

abbrev entry : ℕ → ℕ → Entry ℕ ℕ
entry k t = record {
  table_name = [];
  primary_key = k;
  row_data = (104 ∷ [], t) ∷ [];
  is_tombstone = false;
  timestamp = t;
}

-- Two entries, under 1 and 2.
abbrev table : MemTable ℕ ℕ
table = record {
  table_name = [];
  tree = record { root = node (entry 1 7) 2 null (node (entry 2 7) 1 null null); size = pos 2 };
  rw_mutex = unlocked;
  frozen = false;
}

-- The table after an entry under 2 was put in the place of the old one.
abbrev updated : MemTable ℕ ℕ
updated = record table {
  tree = record { root = node (entry 1 7) 2 null (node (entry 2 9) 1 null null); size = pos 2 };
}

table-IsReady : IsReady table
table-IsReady = record { tree = ground arith; count = refl; free = refl }

put_updates : put (entry 2 9) table ≡ returned tt updated
unfolding put unique_lock insert insert_node rebalance_after_insert
put_updates = refl

get-lookup_example : get 5 2 table ≡ returned (some (entry 2 7)) table
get-lookup_example = get-lookup 5 2 table table-IsReady

put-upsert_example :
    (m' : MemTable ℕ ℕ) × (put (entry 3 9) table ≡ returned tt m')
    × IsReady m'
    × (m'.frozen ≡ false)
    × (entries m' ≡ entry 1 7 ∷ entry 2 7 ∷ entry 3 9 ∷ [])
put-upsert_example = put-upsert (entry 3 9) table table-IsReady refl

del_undefined_example : del 5 2 9 table ≡ crashed
del_undefined_example = del_undefined 5 2 9 table refl
