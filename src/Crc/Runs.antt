-- ===== src/Crc/Runs.antt =====
-- Runs of lib/utils/crypto_utils.cpp, and the theorems at concrete inputs.
use enigma_db.Base.{ℕ, ◌≡◌, refl, some, List, [], ◌∷◌, arith}
use enigma_db.Crc.{crc_round, crc_loop, compute_crc32}
use enigma_db.Crc.Table.{crc32_table}
use enigma_db.Crc.Bitwise.{crc32c}
use enigma_db.Crc.Laws.{compute_crc32-crc32c}

-- The digits from 1 to 9.
abbrev digits : List ℕ
digits = 49 ∷ 50 ∷ 51 ∷ 52 ∷ 53 ∷ 54 ∷ 55 ∷ 56 ∷ 57 ∷ []

-- The published check value of CRC-32C.
check_value : compute_crc32 digits 0 9 ≡ some 0xe3069283
unfolding compute_crc32 crc_loop crc_round crc32_table
check_value = refl

compute_crc32-crc32c_example :
    compute_crc32 (7 ∷ 49 ∷ 50 ∷ 8 ∷ []) 1 2 ≡ some (crc32c (49 ∷ 50 ∷ []))
compute_crc32-crc32c_example =
    compute_crc32-crc32c (7 ∷ []) (49 ∷ 50 ∷ []) (8 ∷ []) (omega arith, (omega arith, tt))
