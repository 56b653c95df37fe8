-- ===== src/Entry.antt =====
-- lib/entry/entry.hpp and lib/entry/core_constants.hpp: `core::Entry`, over its types of keys and
-- field values. A `std::string` is the list of its bytes; a `Row` is the list of its pairs.
pub mod Codec
pub mod Compare
pub mod Printing
use enigma_db.Base.{ℕ, Bool, none, some, List}
use enigma_db.Ordered.{Ordered, IsStrictWeak}
use enigma_db.Timestamp.{fresh, next}

abbrev pub Row : Type 0 → Type 0
Row F = List (List ℕ × F)

pub record Entry (K F : Type 0) : Type 0 where
  pub table_name : List ℕ
  pub primary_key : K
  pub row_data : Row F
  pub is_tombstone : Bool
  pub timestamp : ℕ

-- `TimestampGenerator tsGen; tsGen.next()`: a new generator needs two rounds of its loop at most
-- (`Timestamp.Order.next-fresh`), so the default is never taken.
pub new_timestamp : ℕ → ℕ
new_timestamp millis = elim (next 3 millis fresh) [ none ↦ 0 | some (stamp, _) ↦ stamp ]

-- The constructor, at the time `millis`. The parameter `ts` is not read.
unfoldable pub make_entry : {K F : Type 0} → ℕ → List ℕ → K → Row F → Bool → ℕ → Entry K F
make_entry millis table pk row tombstone ts = record {
  table_name = table;
  primary_key = pk;
  row_data = row;
  is_tombstone = tombstone;
  timestamp = new_timestamp millis;
}

module _ {K F : Type 0} ⦃o : Ordered K⦄ where
  -- `operator<` and `operator==` compare the primary keys.
  abbrev pub entry_less : Entry K F → Entry K F → Bool
  entry_less a b = o.less a.primary_key b.primary_key

  abbrev pub entry_equal : Entry K F → Entry K F → Bool
  entry_equal a b = o.equal a.primary_key b.primary_key

  pub entry-IsStrictWeak : IsStrictWeak entry_less entry_equal
  entry-IsStrictWeak = record {
    irrefl = λ a. o.irrefl a.primary_key;
    trans = λ a b c. o.trans a.primary_key b.primary_key c.primary_key;
    cotrans = λ a b c. o.cotrans a.primary_key b.primary_key c.primary_key;
    equal_lem = λ a b. o.equal_lem a.primary_key b.primary_key;
  }

  instance abbrev pub entry_ordered : Ordered (Entry K F)
  entry_ordered = record { less = entry_less; equal = entry_equal; lawful = entry-IsStrictWeak }
