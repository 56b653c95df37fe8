-- ===== src/Entry/Compare.antt =====
-- lib/entry/entry.hpp: compareEntries and compareRowData.
pub mod Laws
pub mod Values
pub mod Rows
mod Runs
use enigma_db.Base.{
  ℕ, ◌==◌, Bool, true, false, not, ◌&&◌, Option, none, some, List, [], ◌∷◌, length, if◌then◌else◌,
}
use enigma_db.Base.Strings.{same_bytes}
use enigma_db.Scalars.{double_equal, bool_equal, bytes_equal}
use enigma_db.Field.{
  Result, given, ◌>>=◌, FieldValue, monostate, int32_value, int64_value, double_value, time_point,
  string_value, binary_value, uuid_value, bool_value, variant_index,
}
use enigma_db.Field.Codec.{Field}
use enigma_db.Entry.{Row, Entry}
use enigma_db.Keys.{key_equal, find_column}

-- `operator==` of two variants.
pub value_equal : FieldValue → FieldValue → Bool
value_equal monostate w = elim w [ monostate ↦ true | _ ↦ false ]
value_equal (int32_value x) w = elim w [ int32_value y ↦ x == y | _ ↦ false ]
value_equal (int64_value x) w = elim w [ int64_value y ↦ x == y | _ ↦ false ]
value_equal (double_value x) w = elim w [ double_value y ↦ double_equal x y | _ ↦ false ]
value_equal (time_point x) w = elim w [ time_point y ↦ x == y | _ ↦ false ]
value_equal (string_value x) w = elim w [ string_value y ↦ bytes_equal x y | _ ↦ false ]
value_equal (binary_value x) w = elim w [ binary_value y ↦ bytes_equal x y | _ ↦ false ]
value_equal (uuid_value x) w = elim w [ uuid_value y ↦ bytes_equal x y | _ ↦ false ]
value_equal (bool_value x) w = elim w [ bool_value y ↦ bool_equal x y | _ ↦ false ]

-- The loop over the left row.
pub columns_in : Row Field → Row Field → Bool
columns_in [] rhs = true
columns_in ((k, v) ∷ lhs) rhs = elim (find_column k rhs) [
  | none ↦ false
  | some w ↦
      (variant_index v.value == variant_index w.value)
      && (value_equal v.value w.value && columns_in lhs rhs)
]

pub compare_row_data : Row Field → Row Field → Bool
compare_row_data lhs rhs = if length lhs == length rhs then columns_in lhs rhs else false

-- What is compared behind the keys.
pub compare_rest : Entry (List Field) Field → Entry (List Field) Field → Bool → Bool
compare_rest e₁ e₂ compare_ts =
    bool_equal e₁.is_tombstone e₂.is_tombstone
    && (compare_row_data e₁.row_data e₂.row_data
        && (if compare_ts then e₁.timestamp == e₂.timestamp else true))

pub compare_entries : Entry (List Field) Field → Entry (List Field) Field → Bool → Result Bool
compare_entries e₁ e₂ compare_ts =
    if same_bytes e₁.table_name e₂.table_name
    then (key_equal e₁.primary_key e₂.primary_key >>= λ same.
        given (if same then compare_rest e₁ e₂ compare_ts else false))
    else given false
