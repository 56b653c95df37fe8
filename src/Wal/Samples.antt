-- ===== src/Wal/Samples.antt =====
-- An entry for the log of lib/wal.
use enigma_db.Base.{[], ◌∷◌, false, arith}
use enigma_db.Entry.Codec.Body.{Stored, IsStorable}
use enigma_db.Wal.Codec.Records.{Encoded, encode}

abbrev pub sample : Stored
sample = record {
  table_name = 116 ∷ [];
  key = [];
  columns = [];
  is_tombstone = false;
  timestamp = 65536;
}

pub sample-IsStorable : IsStorable sample
sample-IsStorable = record {
  named = omega arith;
  few_parts = omega arith;
  parts = tt;
  few_columns = omega arith;
  column_values = tt;
  distinct = tt;
  stamp = omega arith;
}

pub sample_encoded : Encoded sample
sample_encoded = encode sample sample-IsStorable (omega arith)
