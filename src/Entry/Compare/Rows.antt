-- ===== src/Entry/Compare/Rows.antt =====
-- lib/entry/entry.hpp: when compareEntries takes two keys, or two rows, for the same.
use enigma_db.Base.{
  ℕ, suc, ◌≡◌, refl, ◌∙◌, sym, ap, ◌==◌, ◌⊎◌, Bool, true, false, inl, inr, Bool-cases, some, List,
  [], ◌∷◌, ◌++◌, All, map, arith, length, append_assoc, if◌then◌else◌,
}
use mathlib.Core.Path.{subst}
use enigma_db.Base.Strings.{same_bytes, same_bytes_self, same_bytes→≡}
use enigma_db.Ordered.Numbers.{number_ordered}
use enigma_db.Ordered.Lex.{lex_equal}
use enigma_db.Field.{Result, given, FieldValue, variant_index, ◌>>=◌}
use enigma_db.Field.Codec.{Field, field_equal}
use enigma_db.Field.Codec.Serialized.{field_of}
use enigma_db.Keys.{key_equal, equal_parts, find_column}
use enigma_db.Keys.Ranks.{rank, IsOrdered}
use enigma_db.Entry.{Row}
use enigma_db.Entry.Codec.{has_column}
use enigma_db.Entry.Codec.Body.{Column, row_of, AreDistinct}
use enigma_db.Entry.Compare.Values.{
  Reflects, Reflects-and, Reflects-map, lex-Reflects, SameValue, value-Compared,
}

-- The same values in the same places.
abbrev pub SameKey : List FieldValue → List FieldValue → Type 0
SameKey [] [] = Unit
SameKey [] (w ∷ ws) = ⊥
SameKey (v ∷ vs) [] = ⊥
SameKey (v ∷ vs) (w ∷ ws) = SameValue v w × SameKey vs ws

-- Values of one type in the same places, as far as both keys go.
abbrev pub SameTypes : List FieldValue → List FieldValue → Type 0
SameTypes [] ws = Unit
SameTypes (v ∷ vs) [] = Unit
SameTypes (v ∷ vs) (w ∷ ws) = (variant_index v ≡ variant_index w) × SameTypes vs ws

-- A comparison that throws nothing and says whether something holds.
abbrev pub Decides : Result Bool → Type 0 → Type 0
Decides r P = (b : Bool) × (r ≡ given b) × Reflects b P

equal_parts_cases :
    (same : Bool) (r rest : Result Bool) (P Q : Type 0)
    → r ≡ given same
    → Reflects same P
    → Decides rest Q
    → Decides (r >>= λ same'. elim same' [ true ↦ rest | false ↦ given false ]) (P × Q)
equal_parts_cases true r rest P Q e p (b, gives, q) =
    (b, rw (e, gives) refl, Reflects-and P Q true b p q)
equal_parts_cases false r rest P Q e p d = (false, rw e refl, λ h. p h.0)

equal_parts-Decides :
    (vs ws : List FieldValue)
    → All IsOrdered vs
    → All IsOrdered ws
    → SameTypes vs ws
    → length vs ≡ length ws
    → Decides (equal_parts (map field_of vs) (map field_of ws)) (SameKey vs ws)
unfolding equal_parts
equal_parts-Decides [] [] h k t e = (true, refl, tt)
equal_parts-Decides [] (w ∷ ws) h k t e = absurd (omega arith)
equal_parts-Decides (v ∷ vs) [] h k t e = absurd (omega arith)
equal_parts-Decides (v ∷ vs) (w ∷ ws) (h, hs) (k, ks) (t, ts) e =
    let c = value-Compared v w t h k in
    equal_parts_cases (lex_equal (rank v) (rank w)) (field_equal (field_of v) (field_of w)) _
      (SameValue v w) (SameKey vs ws) c.fields
      (Reflects-map (rank v ≡ rank w) (SameValue v w) _ (λ r. (t, r)) (λ s. s.1)
        (lex-Reflects (rank v) (rank w)))
      (equal_parts-Decides vs ws hs ks ts (omega (arith, e)))

SameKey-length : (vs ws : List FieldValue) → SameKey vs ws → length vs ≡ length ws
SameKey-length [] [] s = refl
SameKey-length [] (w ∷ ws) s = absurd s
SameKey-length (v ∷ vs) [] s = absurd s
SameKey-length (v ∷ vs) (w ∷ ws) (s, ss) = ap suc (SameKey-length vs ws ss)

length-map_field : (vs : List FieldValue) → length (map field_of vs) ≡ length vs
length-map_field [] = refl
length-map_field (v ∷ vs) = ap suc (length-map_field vs)

pub key_equal-Decides :
    (vs ws : List FieldValue)
    → All IsOrdered vs
    → All IsOrdered ws
    → SameTypes vs ws
    → Decides (key_equal (map field_of vs) (map field_of ws)) (SameKey vs ws)
unfolding key_equal
key_equal-Decides vs ws h k t = elim (Bool-cases (length vs == length ws)) [
  | inl same ↦
      rw (length-map_field vs, length-map_field ws, same)
        (equal_parts-Decides vs ws h k t (ground arith))
  | inr other ↦
      rw (length-map_field vs, length-map_field ws, other)
        (false, refl, λ s. let e = SameKey-length vs ws s in ground arith)
]

-- A column of the name with the value is there.
abbrev pub HasColumn : List ℕ → FieldValue → List Column → Type 0
HasColumn name w [] = ⊥
HasColumn name w ((n, v) ∷ columns) = ((name ≡ n) × (w ≡ v)) ⊎ HasColumn name w columns

pub find_column-HasColumn :
    (name : List ℕ) (f : Field) (columns : List Column)
    → find_column name (row_of columns) ≡ some f
    → (w : FieldValue) × (f ≡ field_of w) × HasColumn name w columns
unfolding find_column
find_column-HasColumn name f [] e = absurd (cc e)
find_column-HasColumn name f ((n, v) ∷ columns) e = elim (Bool-cases (same_bytes n name)) [
  | inl same ↦
      let now : some (field_of v) ≡ some f =
        subst (λ b. (if b then some (field_of v) else find_column name (row_of columns)) ≡ some f)
          same e in
      let is : f ≡ field_of v = cc now in (v, is, inl (sym (same_bytes→≡ n name same), refl))
  | inr other ↦
      let later : find_column name (row_of columns) ≡ some f =
        subst (λ b. (if b then some (field_of v) else find_column name (row_of columns)) ≡ some f)
          other e in
      let (w, is, has) = find_column-HasColumn name f columns later in (w, is, inr has)
]

-- A column is found behind others that do not have its name.
find_column-append :
    (row : Row Field) (name : List ℕ) (v : Field) (rest : Row Field)
    → has_column name row ≡ false
    → find_column name (row ++ ((name, v) ∷ rest)) ≡ some v
unfolding has_column find_column
find_column-append [] name v rest h = rw (same_bytes_self name) refl
find_column-append ((k, w) ∷ row) name v rest h = elim (Bool-cases (same_bytes k name)) [
  | inl same ↦ absurd (cc (h, same))
  | inr other ↦ rw other (find_column-append row name v rest (cc (h, other)))
]

pub HasColumn-find_column :
    (before : Row Field) (name : List ℕ) (w : FieldValue) (columns : List Column)
    → AreDistinct before columns
    → HasColumn name w columns
    → find_column name (before ++ row_of columns) ≡ some (field_of w)
HasColumn-find_column before name w [] d has = absurd has
HasColumn-find_column before name w ((n, v) ∷ columns) (new, ds) (inl (e, f)) =
    ap (λ x. find_column x (before ++ ((n, field_of v) ∷ row_of columns))) e
    ∙ find_column-append before n (field_of v) (row_of columns) new
    ∙ ap (λ x. some (field_of x)) (sym f)
HasColumn-find_column before name w ((n, v) ∷ columns) (new, ds) (inr has) =
    ap (λ row. find_column name row)
      (sym (append_assoc before ((n, field_of v) ∷ []) (row_of columns)))
    ∙ HasColumn-find_column (before ++ ((n, field_of v) ∷ [])) name w columns ds has

abbrev pub IsOrderedColumn : Column → Type 0
IsOrderedColumn c = IsOrdered c.1

pub HasColumn-IsOrdered :
    (name : List ℕ) (w : FieldValue) (columns : List Column)
    → All IsOrderedColumn columns
    → HasColumn name w columns
    → IsOrdered w
HasColumn-IsOrdered name w [] hs has = absurd has
HasColumn-IsOrdered name w ((n, v) ∷ columns) (h, hs) (inl (e, f)) = subst IsOrdered (sym f) h
HasColumn-IsOrdered name w ((n, v) ∷ columns) (h, hs) (inr has) =
    HasColumn-IsOrdered name w columns hs has

-- A column of the row has the name and the same value.
abbrev pub IsIn : List Column → Column → Type 0
IsIn columns c = (w : FieldValue) × HasColumn c.0 w columns × SameValue c.1 w
