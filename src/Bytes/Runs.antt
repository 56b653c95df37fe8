-- ===== src/Bytes/Runs.antt =====
-- Runs of lib/utils/byte_parser.cpp, and the theorems at concrete inputs.
use enigma_db.Base.{ℕ, ◌≡◌, refl, List, [], ◌∷◌, arith}
use enigma_db.Outcome.{crashed}
use enigma_db.Bytes.{write_uint32, write_loop, read_uint64, write_magic_bytes}
use enigma_db.Bytes.Strings.{read_uint64_past}

abbrev seven : List ℕ
seven = 7 ∷ []

header_run : write_uint32 (write_magic_bytes []) 258 ≡ 69 ∷ 78 ∷ 84 ∷ 82 ∷ 89 ∷ 2 ∷ 1 ∷ 0 ∷ 0 ∷ []
unfolding write_uint32 write_loop write_magic_bytes
header_run = refl

abbrev zeros : List ℕ
zeros = 0 ∷ 0 ∷ 0 ∷ 0 ∷ 0 ∷ 0 ∷ 0 ∷ 0 ∷ []

read_uint64_past_example :
    read_uint64 (record { bytes = zeros; cursor = 1; length = 100 }) ≡ crashed
read_uint64_past_example =
    read_uint64_past (record { bytes = zeros; cursor = 1; length = 100 }) (omega arith)
