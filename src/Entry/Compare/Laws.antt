-- ===== src/Entry/Compare/Laws.antt =====
-- lib/entry/entry.hpp: when compareEntries takes two entries for the same.
use enigma_db.Base.{
  ℕ, suc, ◌≡◌, refl, ◌∙◌, sym, ap, ◌==◌, Bool, true, false, ◌&&◌, inl, inr, Bool-cases,
  Option-cases, some, List, [], ◌∷◌, All, arith, length, if◌then◌else◌,
}
use mathlib.Core.Path.{subst}
use enigma_db.Base.Strings.{same_bytes}
use enigma_db.Ordered.Numbers.{number_ordered}
use enigma_db.Ordered.Lex.{lex_equal}
use enigma_db.Scalars.{bool_equal}
use enigma_db.Field.{FieldValue, variant_index}
use enigma_db.Field.Codec.Serialized.{field_of}
use enigma_db.Keys.{find_column}
use enigma_db.Keys.Ranks.{rank, IsOrdered}
use enigma_db.Entry.Codec.Body.{Column, Stored, entry_of, row_of, AreDistinct}
use enigma_db.Entry.Compare.{
  value_equal, columns_in, compare_row_data, compare_rest, compare_entries,
}
use enigma_db.Entry.Compare.Values.{
  Reflects, Reflects-and, Reflects-map, number-Reflects, bytes-Reflects, bool-Reflects,
  lex-Reflects, SameValue, value-Compared,
}
use enigma_db.Entry.Compare.Rows.{
  SameKey, SameTypes, Decides, key_equal-Decides, find_column-HasColumn, HasColumn-find_column,
  IsOrderedColumn, HasColumn-IsOrdered, IsIn,
}

-- The test of one column and those behind it.
column-Reflects :
    (v w : FieldValue) (more : Bool) (Q : Type 0)
    → IsOrdered v
    → IsOrdered w
    → Reflects more Q
    → Reflects
        ((variant_index v == variant_index w) && (value_equal v w && more))
        (SameValue v w × Q)
column-Reflects v w more Q h k q = elim (Bool-cases (variant_index v == variant_index w)) [
  | inl same ↦
      let t : variant_index v ≡ variant_index w = ground arith in
      rw (same, (value-Compared v w t h k).values)
        (Reflects-and (SameValue v w) Q (lex_equal (rank v) (rank w)) more
          (Reflects-map (rank v ≡ rank w) (SameValue v w) _ (λ r. (t, r)) (λ s. s.1)
            (lex-Reflects (rank v) (rank w)))
          q)
  | inr other ↦ rw other (λ ((t, _), _). ground arith)
]

columns_in-Reflects :
    (as' bs : List Column)
    → All IsOrderedColumn as'
    → All IsOrderedColumn bs
    → AreDistinct [] bs
    → Reflects (columns_in (row_of as') (row_of bs)) (All (IsIn bs) as')
unfolding columns_in
columns_in-Reflects [] bs h k d = tt
columns_in-Reflects ((name, v) ∷ as') bs (h, hs) k d =
    let more = columns_in (row_of as') (row_of bs) in
    elim (Option-cases (find_column name (row_of bs))) [
      | inl missing ↦
          rw (missing, columns_in)
            (λ ((w, has, _), _). cc (missing, HasColumn-find_column [] name w bs d has))
      | inr (f, found) ↦
          let (w, is, has) = find_column-HasColumn name f bs found in
          let at_w : find_column name (row_of bs) ≡ some (field_of w) = found ∙ ap some is in
          rw (at_w, columns_in)
            (Reflects-map (SameValue v w × All (IsIn bs) as') (All (IsIn bs) ((name, v) ∷ as')) _
              (λ (s, all). ((w, has, s), all))
              (λ ((x, there, s), all).
                let fields : some (field_of x) ≡ some (field_of w) =
                  sym (HasColumn-find_column [] name x bs d there) ∙ at_w in
                let equal : field_of x ≡ field_of w = cc fields in
                (subst (SameValue v) (ap (λ g. g.value) equal) s, all))
              (column-Reflects v w more (All (IsIn bs) as') h (HasColumn-IsOrdered name w bs k has)
                (columns_in-Reflects as' bs hs k d)))
    ]

-- Rows of the same number of columns, those of the first one in the second one. With distinct names
-- they have the same columns.
abbrev pub SameColumns : List Column → List Column → Type 0
SameColumns as' bs = (length as' ≡ length bs) × All (IsIn bs) as'

length-row : (columns : List Column) → length (row_of columns) ≡ length columns
length-row [] = refl
length-row ((name, v) ∷ columns) = ap suc (length-row columns)

if-Reflects :
    (P Q : Type 0) (b c : Bool)
    → Reflects b P
    → Reflects c Q
    → Reflects (if b then c else false) (P × Q)
if-Reflects P Q true c p q = Reflects-and P Q true c p q
if-Reflects P Q false c p q = λ h. p h.0

compare_row_data-Reflects :
    (as' bs : List Column)
    → All IsOrderedColumn as'
    → All IsOrderedColumn bs
    → AreDistinct [] bs
    → Reflects (compare_row_data (row_of as') (row_of bs)) (SameColumns as' bs)
unfolding compare_row_data
compare_row_data-Reflects as' bs h k d =
    rw (length-row as', length-row bs)
      (if-Reflects (length as' ≡ length bs) (All (IsIn bs) as') (length as' == length bs)
        (columns_in (row_of as') (row_of bs)) (number-Reflects (length as') (length bs))
        (columns_in-Reflects as' bs h k d))

-- The same time, where it is compared.
abbrev pub SameTime : Bool → ℕ → ℕ → Type 0
SameTime true s t = s ≡ t
SameTime false s t = Unit

time-Reflects :
    (compare_ts : Bool) (s t : ℕ)
    → Reflects (if compare_ts then s == t else true) (SameTime compare_ts s t)
time-Reflects true s t = number-Reflects s t
time-Reflects false s t = tt

-- Entries that differ at most in the order of their columns, in the sign of a zero and, where it is
-- not compared, in their time.
abbrev pub SameEntry : Stored → Stored → Bool → Type 0
SameEntry a b compare_ts =
    (a.table_name ≡ b.table_name)
    × (SameKey a.key b.key
        × ((a.is_tombstone ≡ b.is_tombstone)
            × (SameColumns a.columns b.columns × SameTime compare_ts a.timestamp b.timestamp)))

compare_rest-Reflects :
    (a b : Stored) (compare_ts : Bool)
    → All IsOrderedColumn a.columns
    → All IsOrderedColumn b.columns
    → AreDistinct [] b.columns
    → Reflects (compare_rest (entry_of a) (entry_of b) compare_ts) (
        (a.is_tombstone ≡ b.is_tombstone)
        × (SameColumns a.columns b.columns × SameTime compare_ts a.timestamp b.timestamp))
unfolding compare_rest
compare_rest-Reflects a b compare_ts h k d =
    Reflects-and (a.is_tombstone ≡ b.is_tombstone) _ (bool_equal a.is_tombstone b.is_tombstone) _
      (bool-Reflects a.is_tombstone b.is_tombstone)
      (Reflects-and (SameColumns a.columns b.columns) _
        (compare_row_data (row_of a.columns) (row_of b.columns)) _
        (compare_row_data-Reflects a.columns b.columns h k d)
        (time-Reflects compare_ts a.timestamp b.timestamp))

-- For entries of built-in values with no NaN in them, with keys whose parts have the same types in
-- both and with distinct column names in the second one, `compareEntries` throws nothing, and it
-- gives true exactly if the two have the same table name, the same parts of the key in the same
-- order, both or neither a tombstone, as many columns, each column of the first one under its name
-- and with the same value in the second one, and, where times are compared, the same time. Values
-- are the same if they are equal or the two zeros of a double.
pub compare_entries_lem :
    (a b : Stored) (compare_ts : Bool)
    → All IsOrdered a.key
    → All IsOrdered b.key
    → SameTypes a.key b.key
    → All IsOrderedColumn a.columns
    → All IsOrderedColumn b.columns
    → AreDistinct [] b.columns
    → Decides (compare_entries (entry_of a) (entry_of b) compare_ts) (SameEntry a b compare_ts)
unfolding compare_entries
compare_entries_lem a b compare_ts ka kb types ca cb distinct =
    let (same, keys, decides) = key_equal-Decides a.key b.key ka kb types in
    let rest = compare_rest (entry_of a) (entry_of b) compare_ts in
    let behind =
      if-Reflects (SameKey a.key b.key) _ same rest decides
        (compare_rest-Reflects a b compare_ts ca cb distinct) in
    elim (Bool-cases (same_bytes a.table_name b.table_name)) [
      | inl here ↦
          let name : a.table_name ≡ b.table_name =
            subst (λ x. Reflects x (a.table_name ≡ b.table_name)) here
              (bytes-Reflects a.table_name b.table_name) in
          (
            if same then rest else false,
            rw (here, keys) refl,
            Reflects-map _ (SameEntry a b compare_ts) _ (λ h. (name, h)) (λ h. h.1) behind,
          )
      | inr other ↦
          let differ : ¬ (a.table_name ≡ b.table_name) =
            subst (λ x. Reflects x (a.table_name ≡ b.table_name)) other
              (bytes-Reflects a.table_name b.table_name) in
          (false, rw other refl, λ h. differ h.0)
    ]
