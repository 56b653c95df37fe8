-- ===== src/Entry/Compare/Runs.antt =====
-- compareEntries of lib/entry/entry.hpp at concrete entries.
use enigma_db.Base.{refl, false, [], ◌∷◌, arith}
use enigma_db.Field.{int32_value, double_value, string_value}
use enigma_db.Entry.Codec.{has_column}
use enigma_db.Entry.Codec.Body.{Stored, entry_of}
use enigma_db.Entry.Compare.{compare_entries}
use enigma_db.Entry.Compare.Rows.{Decides}
use enigma_db.Entry.Compare.Laws.{SameEntry, compare_entries_lem}

abbrev left : Stored
left = record {
  table_name = 116 ∷ [];
  key = int32_value 7 ∷ [];
  columns = (97 ∷ [], string_value (120 ∷ [])) ∷ (98 ∷ [], double_value 0) ∷ [];
  is_tombstone = false;
  timestamp = 65536000;
}

-- The columns in the other order, the other zero, and a later time.
abbrev right : Stored
right = record left {
  columns = (98 ∷ [], double_value 9223372036854775808) ∷ (97 ∷ [], string_value (120 ∷ [])) ∷ [];
  timestamp = 65536001;
}

compare_entries_lem_example :
    Decides (compare_entries (entry_of left) (entry_of right) false) (SameEntry left right false)
unfolding has_column
compare_entries_lem_example =
    compare_entries_lem left right false (omega arith, tt) (omega arith, tt) (refl, tt)
      (tt, (refl, tt)) (refl, (tt, tt)) (refl, (refl, tt))
