-- ===== src/Timestamp/Order.antt =====
-- When `next` of lib/abstract/timestamp_generator.cpp returns, and what.
use enigma_db.Base.{
  ℕ, zero, suc, ◌+◌, ◌-◌, ◌*◌, ◌/◌, ◌%◌, ◌^◌, ◌≤◌, ◌<◌, ◌≡◌, refl, bit_or, leb, Option, none, some,
  arith, if◌then◌else◌,
}
use native.Mathlib.Decide.{dec_lt}
use enigma_db.Base.{max, ◌∙◌}
use enigma_db.Base.Bits.{bit_and-mask, bit_or_fields}
use enigma_db.Timestamp.{TimestampGenerator, fresh, wall_time48, lamport16, bump, next_loop, next}

wall_time48_lem : (m : ℕ) → wall_time48 m ≡ m % 2 ^ 48 * 2 ^ 16
wall_time48_lem m = omega (arith, bit_and-mask 48 m)

candidate_lem : (m c : ℕ) → bit_or (wall_time48 m) (lamport16 c) ≡ m % 2 ^ 48 * 2 ^ 16 + c % 2 ^ 16
candidate_lem m c =
    rw (wall_time48_lem, bit_and-mask 16 c)
      (bit_or_fields 16 (m % 2 ^ 48) (c % 2 ^ 16) (omega arith))

-- The loop of a call whose first candidate takes the counter's value `c`.
abbrev tries : ℕ → ℕ → ℕ → ℕ → Option (ℕ × ℕ)
tries fuel m prev c =
    next_loop fuel (wall_time48 m) prev (bit_or (wall_time48 m) (lamport16 c)) (bump c)

tries_lem :
    (fuel m prev c : ℕ)
    → tries (suc fuel) m prev c ≡ (
        if leb (m % 2 ^ 48 * 2 ^ 16 + c % 2 ^ 16) prev
        then tries fuel m prev (bump c)
        else some (m % 2 ^ 48 * 2 ^ 16 + c % 2 ^ 16, bump c))
unfolding next_loop
tries_lem fuel m prev c = rw (candidate_lem m c)

-- The candidates grow by one until the counter's low half is used up after `d` more rounds.
tries_return :
    (fuel m prev c d : ℕ)
    → c % 2 ^ 16 + d ≡ 65535
    → d < fuel
    → prev < m % 2 ^ 48 * 2 ^ 16 + 65535
    → (stamp : ℕ) × (c' : ℕ) × (tries fuel m prev c ≡ some (stamp, c'))
      × (prev < stamp)
      × (stamp / 2 ^ 16 ≡ m % 2 ^ 48)
tries_return zero m prev c d e hd hp = absurd (omega arith)
tries_return (suc fuel) m prev c d e hd hp = elim (dec_lt prev (m % 2 ^ 48 * 2 ^ 16 + c % 2 ^ 16)) [
  | yes over ↦ (
    m % 2 ^ 48 * 2 ^ 16 + c % 2 ^ 16,
    bump c,
    tries_lem fuel m prev c ∙ ground arith,
    over,
    omega arith,
  )
  | no under ↦
      let (stamp, c', returns, above, wall) =
        tries_return fuel m prev (bump c) (d - 1) (omega arith) (omega arith) hp in
      (stamp, c', tries_lem fuel m prev c ∙ ground (arith, returns), above, wall)
]

tries_forever :
    (fuel m prev c : ℕ) → m % 2 ^ 48 * 2 ^ 16 + 65535 ≤ prev → tries fuel m prev c ≡ none
tries_forever zero m prev c h = unfold next_loop in refl
tries_forever (suc fuel) m prev c h =
    tries_lem fuel m prev c ∙ ground (arith, tries_forever fuel m prev (bump c) h)

-- While some stamp of the current millisecond is above the last one returned, `next` ends within
-- 65536 rounds. Its stamp is above the last one, becomes the last one, and carries the low 48 bits
-- of the wall clock above its low 16 bits.
pub next_increases :
    (millis : ℕ) (g : TimestampGenerator)
    → g.last_returned < millis % 2 ^ 48 * 2 ^ 16 + 65535
    → (stamp : ℕ) × (g' : TimestampGenerator) × (next 65536 millis g ≡ some (stamp, g'))
      × (g.last_returned < stamp)
      × (g'.last_returned ≡ stamp)
      × (stamp / 2 ^ 16 ≡ millis % 2 ^ 48)
unfolding next
next_increases millis g h =
    let c = g.logical_counter in
    let (stamp, c', returns, above, wall) =
      tries_return 65536 millis g.last_returned c (65535 - c % 2 ^ 16) (omega arith) (omega arith)
        h in
    (
      stamp,
      record { logical_counter = c'; last_returned = stamp },
      rw (returns, next),
      above,
      refl,
      wall,
    )

-- While no stamp of the current millisecond is above the last one returned, as after the wall clock
-- has gone back by a millisecond, `next` does not end: no number of rounds is enough.
pub next_diverges :
    (fuel millis : ℕ) (g : TimestampGenerator)
    → millis % 2 ^ 48 * 2 ^ 16 + 65535 ≤ g.last_returned
    → next fuel millis g ≡ none
unfolding next
next_diverges fuel millis g h =
    rw (tries_forever fuel millis g.last_returned g.logical_counter h, next)

-- A new generator needs two rounds at most, and its stamp is the wall clock's 48 bits above 16
-- zero bits, or 1 where these bits are all zero.
pub next-fresh :
    (millis : ℕ)
    → (g : TimestampGenerator) × (next 3 millis fresh ≡ some (max 1 (millis % 2 ^ 48 * 2 ^ 16), g))
unfolding next
next-fresh millis = elim (dec_lt 0 (millis % 2 ^ 48)) [
  | yes up ↦ (
    record { logical_counter = 1; last_returned = max 1 (millis % 2 ^ 48 * 2 ^ 16) },
    rw (later up, next),
  )
  | no zero_bits ↦ (
    record { logical_counter = 2; last_returned = max 1 (millis % 2 ^ 48 * 2 ^ 16) },
    rw (epoch (omega arith), next),
  )
]
  where
    later : 0 < millis % 2 ^ 48 → tries 3 millis 0 0 ≡ some (max 1 (millis % 2 ^ 48 * 2 ^ 16), 1)
    later h = tries_lem 2 millis 0 0 ∙ ground arith

    epoch : millis % 2 ^ 48 ≡ 0 → tries 3 millis 0 0 ≡ some (max 1 (millis % 2 ^ 48 * 2 ^ 16), 2)
    epoch h = ground (arith, tries_lem 2 millis 0 0, tries_lem 1 millis 0 1)
