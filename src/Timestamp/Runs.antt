-- ===== src/Timestamp/Runs.antt =====
-- Runs of lib/abstract/timestamp_generator.cpp, and the theorems at concrete inputs.
use enigma_db.Base.{ℕ, ◌/◌, ◌^◌, ◌<◌, ◌≡◌, refl, none, some, arith}
use enigma_db.Timestamp.{TimestampGenerator, next, next_loop}
use enigma_db.Timestamp.Order.{next_increases, next_diverges}

-- A generator that has returned the stamp of millisecond 5 with the counter 7.
abbrev used : TimestampGenerator
used = record { logical_counter = 8; last_returned = 327687 }

next_steps : next 3 5 used ≡ some (327688, record { logical_counter = 9; last_returned = 327688 })
unfolding next next_loop
next_steps = refl

next_increases_example :
    (stamp : ℕ) × (g' : TimestampGenerator) × (next 65536 5 used ≡ some (stamp, g'))
    × (327687 < stamp)
    × (g'.last_returned ≡ stamp)
    × (stamp / 2 ^ 16 ≡ 5)
next_increases_example = next_increases 5 used (omega arith)

-- The clock has gone back from millisecond 5 to millisecond 3.
next_diverges_example : next 1000 3 used ≡ none
next_diverges_example = next_diverges 1000 3 used (omega arith)
