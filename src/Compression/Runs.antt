-- ===== src/Compression/Runs.antt =====
-- The compressors of lib/compression at a concrete input, with a stand-in for LZ4 that writes one
-- byte and then its source.
use enigma_db.Base.{ℕ, ◌+◌, refl, List, [], ◌∷◌, arith, length}
use enigma_db.Compression.{noop_compressor, lz4_compressor}
use enigma_db.Compression.RoundTrip.{GivesBack, IsLz4, compressors_give_back}

abbrev sample : List ℕ
sample = 5 ∷ 5 ∷ 7 ∷ []

abbrev bound : ℕ → ℕ
bound n = n + 1

abbrev store : List ℕ → ℕ → ℕ × List ℕ
store bytes capacity = (length (0 ∷ bytes), 0 ∷ bytes)

abbrev unstore : List ℕ → ℕ → ℕ × List ℕ
unstore [] capacity = (4294967295, [])
unstore (b ∷ bytes) capacity = (length bytes, bytes)

sample-IsLz4 : IsLz4 bound store unstore sample
sample-IsLz4 = record {
  supported = omega arith;
  written = 0 ∷ sample;
  some_written = omega arith;
  fits = omega arith;
  bounded = omega arith;
  compresses = refl;
  decompresses = refl;
}

compressors_give_back_example :
    GivesBack noop_compressor sample × GivesBack (lz4_compressor bound store unstore) sample
compressors_give_back_example = compressors_give_back bound store unstore sample sample-IsLz4
