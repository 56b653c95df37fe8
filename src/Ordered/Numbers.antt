-- ===== src/Ordered/Numbers.antt =====
-- The numbers as the elements of a tree, for the runs at concrete inputs.
use enigma_db.Base.{ℕ, ltb, ◌==◌, arith}
use enigma_db.Ordered.{Ordered, IsStrictWeak}

pub number_lawful : IsStrictWeak ltb ◌==◌
number_lawful = record {
  irrefl = λ a. ground arith;
  trans = λ a b c h k. ground arith;
  cotrans = λ a b c h k. ground arith;
  equal_lem = λ a b. ground arith;
}

instance abbrev pub number_ordered : Ordered ℕ
number_ordered = record { less = ltb; equal = ◌==◌; lawful = number_lawful }
