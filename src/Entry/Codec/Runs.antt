-- ===== src/Entry/Codec/Runs.antt =====
-- Entries at concrete values, written and read.
use enigma_db.Base.{ℕ, ◌+◌, ◌≡◌, refl, true, some, List, [], ◌∷◌, ◌++◌, arith, length}
use enigma_db.Field.{given, int32_value, string_value}
use enigma_db.Entry.Codec.{has_column, serialize, deserialize}
use enigma_db.Entry.Codec.Body.{Stored, entry_of, IsStorable, body_size}
use enigma_db.Entry.Codec.RoundTrip.{deserialize-serialize_entry}

abbrev sample : Stored
sample = record {
  table_name = 116 ∷ [];
  key = int32_value 7 ∷ [];
  columns = (97 ∷ [], string_value (120 ∷ [])) ∷ (98 ∷ [], int32_value 4294967295) ∷ [];
  is_tombstone = true;
  timestamp = 65536000;
}

sample-IsStorable : IsStorable sample
unfolding has_column
sample-IsStorable = record {
  named = omega arith;
  few_parts = omega arith;
  parts = ((omega arith, omega arith), tt);
  few_columns = omega arith;
  column_values =
      ((omega arith, (omega arith, omega arith)), ((omega arith, (omega arith, omega arith)), tt));
  distinct = (refl, (refl, tt));
  stamp = omega arith;
}

deserialize-serialize_entry_example :
    (bs : List ℕ) × (serialize (entry_of sample) ≡ given bs)
    × (length bs ≡ body_size sample + 17)
    × (deserialize (bs ++ (255 ∷ [])) (length bs) ≡ given (some (entry_of sample)))
deserialize-serialize_entry_example =
    deserialize-serialize_entry sample (255 ∷ []) sample-IsStorable (omega arith)
