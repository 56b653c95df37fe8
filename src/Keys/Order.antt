-- ===== src/Keys/Order.antt =====
-- The order of the keys of a table in lib/entry/key.hpp: keys with as many parts of the same built-in
-- types. It is what the trees of lib/abstract/avl.hpp ask of their elements.
use enigma_db.Base.{
  ℕ, suc, ◌≡◌, refl, ap, ◌==◌, Bool, true, false, not, ◌&&◌, ◌||◌, List, [], ◌∷◌, arith, length,
}
use enigma_db.Ordered.{Ordered, IsStrictWeak}
use enigma_db.Ordered.Numbers.{number_ordered}
use enigma_db.Ordered.Lex.{lex_less, lex_equal, lex-IsStrictWeak, lex_ordered}
use enigma_db.Field.{Result, given, ◌>>=◌, FieldType}
use enigma_db.Field.Codec.{Field}
use enigma_db.Keys.{key_less, equal_parts, key_equal}
use enigma_db.Keys.Ranks.{
  rank, Carrier, value_of_type, field_of_type, IsOrdered, field_less_lem, field_equal_lem,
}

instance abbrev rank_ordered : Ordered (List ℕ)
rank_ordered = lex_ordered

-- The values of a key whose parts have these types, and the key.
abbrev pub KeyOf : List FieldType → Type 0
KeyOf [] = Unit
KeyOf (t ∷ ts) = Carrier t × KeyOf ts

abbrev pub key_of : (ts : List FieldType) → KeyOf ts → List Field
key_of [] k = []
key_of (t ∷ ts) (x, k) = field_of_type t x ∷ key_of ts k

abbrev pub AreOrdered : (ts : List FieldType) → KeyOf ts → Type 0
AreOrdered [] k = Unit
AreOrdered (t ∷ ts) (x, k) = IsOrdered (value_of_type t x) × AreOrdered ts k

abbrev pub ranks : (ts : List FieldType) → KeyOf ts → List (List ℕ)
ranks [] k = []
ranks (t ∷ ts) (x, k) = rank (value_of_type t x) ∷ ranks ts k

-- A key of a table whose key columns have these types, with no NaN among its parts.
pub record SchemaKey (ts : List FieldType) : Type 0 where
  pub parts : KeyOf ts
  pub ordered : AreOrdered ts parts

less_cases :
    (r₁ r₂ r : Result Bool) (l g rest : Bool)
    → r₁ ≡ given l
    → r₂ ≡ given g
    → r ≡ given rest
    → (r₁ >>= λ before. elim before [
      | true ↦ given true
      | false ↦ r₂ >>= λ after. elim after [ true ↦ given false | false ↦ r ]
    ])
      ≡ given (l || (not g && rest))
less_cases r₁ r₂ r true g rest e₁ e₂ e = rw e₁ refl
less_cases r₁ r₂ r false true rest e₁ e₂ e = rw (e₁, e₂) refl
less_cases r₁ r₂ r false false rest e₁ e₂ e = rw (e₁, e₂) e

key_less_lem :
    (ts : List FieldType) (a b : KeyOf ts)
    → AreOrdered ts a
    → AreOrdered ts b
    → key_less (key_of ts a) (key_of ts b) ≡ given (lex_less (ranks ts a) (ranks ts b))
unfolding key_less
key_less_lem [] a b ha hb = refl
key_less_lem (t ∷ ts) (x, a) (y, b) (hx, ha) (hy, hb) =
    less_cases _ _ _ _ _ _ (field_less_lem t x y hx hy) (field_less_lem t y x hy hx)
      (key_less_lem ts a b ha hb)

same_cases :
    (r₁ r : Result Bool) (s rest : Bool)
    → r₁ ≡ given s
    → r ≡ given rest
    → (r₁ >>= λ same. elim same [ true ↦ r | false ↦ given false ]) ≡ given (s && rest)
same_cases r₁ r true rest e₁ e = rw e₁ e
same_cases r₁ r false rest e₁ e = rw e₁ refl

equal_parts_lem :
    (ts : List FieldType) (a b : KeyOf ts)
    → AreOrdered ts a
    → AreOrdered ts b
    → equal_parts (key_of ts a) (key_of ts b) ≡ given (lex_equal (ranks ts a) (ranks ts b))
unfolding equal_parts
equal_parts_lem [] a b ha hb = refl
equal_parts_lem (t ∷ ts) (x, a) (y, b) (hx, ha) (hy, hb) =
    same_cases _ _ _ _ (field_equal_lem t x y hx hy) (equal_parts_lem ts a b ha hb)

length-key_of : (ts : List FieldType) (a : KeyOf ts) → length (key_of ts a) ≡ length ts
length-key_of [] a = refl
length-key_of (t ∷ ts) (x, a) = ap suc (length-key_of ts a)

key_equal_lem :
    (ts : List FieldType) (a b : KeyOf ts)
    → AreOrdered ts a
    → AreOrdered ts b
    → key_equal (key_of ts a) (key_of ts b) ≡ given (lex_equal (ranks ts a) (ranks ts b))
unfolding key_equal
key_equal_lem ts a b ha hb =
    let same : (length (key_of ts a) == length (key_of ts b)) ≡ true =
      ground (arith, length-key_of ts a, length-key_of ts b) in
    rw same (equal_parts_lem ts a b ha hb)

abbrev pub schema_less : {ts : List FieldType} → SchemaKey ts → SchemaKey ts → Bool
schema_less {ts} a b = lex_less (ranks ts a.parts) (ranks ts b.parts)

abbrev pub schema_equal : {ts : List FieldType} → SchemaKey ts → SchemaKey ts → Bool
schema_equal {ts} a b = lex_equal (ranks ts a.parts) (ranks ts b.parts)

pub schema-IsStrictWeak :
    (ts : List FieldType) → IsStrictWeak (schema_less {ts = ts}) (schema_equal {ts = ts})
schema-IsStrictWeak ts =
    let laws = lex-IsStrictWeak {A = List ℕ} in
    record {
      irrefl = λ a. laws.irrefl (ranks ts a.parts);
      trans = λ a b c. laws.trans (ranks ts a.parts) (ranks ts b.parts) (ranks ts c.parts);
      cotrans = λ a b c. laws.cotrans (ranks ts a.parts) (ranks ts b.parts) (ranks ts c.parts);
      equal_lem = λ a b. laws.equal_lem (ranks ts a.parts) (ranks ts b.parts);
    }

instance abbrev pub schema_ordered : {ts : List FieldType} → Ordered (SchemaKey ts)
schema_ordered {ts} = record {
  less = schema_less {ts = ts};
  equal = schema_equal {ts = ts};
  lawful = schema-IsStrictWeak ts;
}

-- On the keys of a table, whose parts have the same built-in types and none of which is a NaN, `<` and
-- `==` neither throw nor fail; they are a strict weak order whose incomparable keys are the equal
-- ones: the lexicographic order of the parts, where integers and times are signed, doubles have one
-- zero, and strings, binary values and UUIDs are compared byte by byte.
pub key_less-IsStrictWeak :
    (ts : List FieldType)
    → ((a b : SchemaKey ts)
        → key_less (key_of ts a.parts) (key_of ts b.parts) ≡ given (schema_less a b))
      × ((a b : SchemaKey ts)
          → key_equal (key_of ts a.parts) (key_of ts b.parts) ≡ given (schema_equal a b))
      × IsStrictWeak (schema_less {ts = ts}) (schema_equal {ts = ts})
key_less-IsStrictWeak ts = (
  λ a b. key_less_lem ts a.parts b.parts a.ordered b.ordered,
  λ a b. key_equal_lem ts a.parts b.parts a.ordered b.ordered,
  schema-IsStrictWeak ts,
)
