-- ===== src/Timestamp.antt =====
-- lib/abstract/timestamp_generator.hpp and .cpp: a wall clock in milliseconds joined with a
-- logical counter. The calls of one generator are taken one after the other; what
-- `system_clock::now()` gives, cast to `uint64_t`, is the argument `millis`.
pub mod Order
mod Runs
use enigma_db.Base.{
  ℕ, zero, suc, ◌+◌, ◌*◌, ◌%◌, ◌^◌, bit_and, bit_or, leb, Option, none, some, if◌then◌else◌,
}

pub record TimestampGenerator : Type 0 where
  pub logical_counter : ℕ
  pub last_returned : ℕ

-- `std::atomic<uint64_t> logicalCounter_{}; lastReturned_{};`
abbrev pub fresh : TimestampGenerator
fresh = record { logical_counter = 0; last_returned = 0 }

-- `(static_cast<uint64_t>(millis) & 0xFFFFFFFFFFFF) << 16`
abbrev pub wall_time48 : ℕ → ℕ
wall_time48 millis = bit_and millis 0xffff_ffff_ffff * 2 ^ 16 % 2 ^ 64

-- `logicalCounter_++ & 0xFFFF`, and the counter after it.
abbrev pub lamport16 : ℕ → ℕ
lamport16 counter = bit_and counter 0xffff

abbrev pub bump : ℕ → ℕ
bump counter = (counter + 1) % 2 ^ 64

-- `while (candidate <= prev)` with fuel: the candidate and the counter at its end; `none` says
-- that the fuel ran out.
pub next_loop : ℕ → ℕ → ℕ → ℕ → ℕ → Option (ℕ × ℕ)
next_loop zero wall prev candidate counter = none
next_loop (suc fuel) wall prev candidate counter =
    let rest = next_loop fuel wall prev (bit_or wall (lamport16 counter)) (bump counter) in
    if leb candidate prev then rest else some (candidate, counter)

pub next : ℕ → ℕ → TimestampGenerator → Option (ℕ × TimestampGenerator)
next fuel millis g =
    let wall = wall_time48 millis in
    elim (next_loop fuel wall g.last_returned (bit_or wall (lamport16 g.logical_counter))
      (bump g.logical_counter)) [
        | none ↦ none
        | some (candidate, counter) ↦
            some (candidate, record { logical_counter = counter; last_returned = candidate })
      ]
