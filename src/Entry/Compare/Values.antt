-- ===== src/Entry/Compare/Values.antt =====
-- lib/entry/entry.hpp: when compareEntries takes two values for the same.
use enigma_db.Base.{
  ℕ, ◌≡◌, refl, ◌∙◌, sym, ap, ap₂, ◌==◌, Bool, true, false, ◌&&◌, inl, inr, Bool-cases, List, [],
  ◌∷◌, arith, if◌then◌else◌,
}
use mathlib.Core.Path.{subst}
use enigma_db.Base.Strings.{same_bytes, same_bytes_self, same_bytes→≡}
use enigma_db.Scalars.{bool_equal}
use enigma_db.Ordered.Numbers.{number_ordered}
use enigma_db.Ordered.Lex.{lex_equal}
use enigma_db.Field.{
  given, FieldType, FieldValue, monostate, int32_value, int64_value, double_value, time_point,
  string_value, binary_value, uuid_value, bool_value, variant_index, int32, int64, double, string,
  bool, uuid, binary, timestamp, null_type, custom,
}
use enigma_db.Field.Codec.{field_equal}
use enigma_db.Field.Codec.Serialized.{field_of}
use enigma_db.Keys.Ranks.{Carrier, value_of_type, field_of_type, rank, IsOrdered, field_equal_lem}
use enigma_db.Entry.Compare.{value_equal}

-- A test says whether something holds.
abbrev pub Reflects : Bool → Type 0 → Type 0
Reflects true P = P
Reflects false P = ¬ P

pub Reflects-and :
    (P Q : Type 0) (b c : Bool) → Reflects b P → Reflects c Q → Reflects (b && c) (P × Q)
Reflects-and P Q true true p q = (p, q)
Reflects-and P Q true false p q = λ h. q h.1
Reflects-and P Q false c p q = λ h. p h.0

pub Reflects-map : (P Q : Type 0) (b : Bool) → (P → Q) → (Q → P) → Reflects b P → Reflects b Q
Reflects-map P Q true f g p = f p
Reflects-map P Q false f g p = λ q. p (g q)

pub number-Reflects : (x y : ℕ) → Reflects (x == y) (x ≡ y)
number-Reflects x y = elim (Bool-cases (x == y)) [
  | inl same ↦ rw same (ground arith)
  | inr other ↦ rw other (λ e. ground arith)
]

pub bytes-Reflects : (xs ys : List ℕ) → Reflects (same_bytes xs ys) (xs ≡ ys)
bytes-Reflects xs ys = elim (Bool-cases (same_bytes xs ys)) [
  | inl same ↦ rw same (same_bytes→≡ xs ys same)
  | inr other ↦ rw other (λ e.
      let self : same_bytes xs ys ≡ true = ap (same_bytes xs) (sym e) ∙ same_bytes_self xs in
      cc (other, self))
]

pub bool-Reflects : (a b : Bool) → Reflects (bool_equal a b) (a ≡ b)
bool-Reflects true true = refl
bool-Reflects true false = λ e. cc e
bool-Reflects false true = λ e. cc e
bool-Reflects false false = refl

lex_equal-same_bytes : (xs ys : List ℕ) → lex_equal xs ys ≡ same_bytes xs ys
lex_equal-same_bytes [] [] = refl
lex_equal-same_bytes [] (y ∷ ys) = refl
lex_equal-same_bytes (x ∷ xs) [] = refl
lex_equal-same_bytes (x ∷ xs) (y ∷ ys) = ground (arith, lex_equal-same_bytes xs ys)

pub lex-Reflects : (xs ys : List ℕ) → Reflects (lex_equal xs ys) (xs ≡ ys)
lex-Reflects xs ys = rw (lex_equal-same_bytes xs ys) (bytes-Reflects xs ys)

-- Values of one type that are the same: equal, or the two zeros of a double.
abbrev pub SameValue : FieldValue → FieldValue → Type 0
SameValue v w = (variant_index v ≡ variant_index w) × (rank v ≡ rank w)

abbrev type_of_index : ℕ → FieldType
type_of_index n =
    if n == 0
    then null_type
    else if n == 1
    then int32
    else if n == 2
    then int64
    else if n == 3
    then double
    else if n == 4
    then string
    else if n == 5
    then bool
    else if n == 6
    then binary
    else if n == 7
    then timestamp
    else uuid

-- A value as one of the type that its alternative has.
abbrev HasType : FieldType → FieldValue → Type 0
HasType t v = (x : Carrier t) × (v ≡ value_of_type t x)

value-HasType : (v : FieldValue) → HasType (type_of_index (variant_index v)) v
unfolding variant_index
value-HasType monostate = (tt, refl)
value-HasType (int32_value x) = (x, refl)
value-HasType (int64_value x) = (x, refl)
value-HasType (double_value x) = (x, refl)
value-HasType (time_point x) = (x, refl)
value-HasType (string_value s) = (s, refl)
value-HasType (binary_value bs) = (bs, refl)
value-HasType (uuid_value bs) = (bs, refl)
value-HasType (bool_value b) = (b, refl)

value_equal-typed :
    (t : FieldType) (x y : Carrier t)
    → IsOrdered (value_of_type t x)
    → IsOrdered (value_of_type t y)
    → value_equal (value_of_type t x) (value_of_type t y)
      ≡ lex_equal (rank (value_of_type t x)) (rank (value_of_type t y))
unfolding value_equal rank
value_equal-typed int32 x y h k = ground arith
value_equal-typed int64 x y h k = ground arith
value_equal-typed double x y h k = ground arith
value_equal-typed string x y h k = refl
value_equal-typed bool true true h k = refl
value_equal-typed bool true false h k = refl
value_equal-typed bool false true h k = refl
value_equal-typed bool false false h k = refl
value_equal-typed uuid x y h k = refl
value_equal-typed binary x y h k = refl
value_equal-typed timestamp x y h k = ground arith
value_equal-typed null_type x y h k = refl
value_equal-typed custom x y h k = absurd x

field_of_typed : (t : FieldType) (x : Carrier t) → field_of (value_of_type t x) ≡ field_of_type t x
field_of_typed int32 x = refl
field_of_typed int64 x = refl
field_of_typed double x = refl
field_of_typed string x = refl
field_of_typed bool x = refl
field_of_typed uuid x = refl
field_of_typed binary x = refl
field_of_typed timestamp x = refl
field_of_typed null_type x = refl
field_of_typed custom x = absurd x

-- What the two comparisons of values give.
pub record Compared (v w : FieldValue) : Type 0 where
  pub values : value_equal v w ≡ lex_equal (rank v) (rank w)
  pub fields : field_equal (field_of v) (field_of w) ≡ given (lex_equal (rank v) (rank w))

typed-Compared :
    (t : FieldType) (v w : FieldValue)
    → HasType t v
    → HasType t w
    → IsOrdered v
    → IsOrdered w
    → Compared v w
typed-Compared t v w (x, e) (y, f) h k =
    let hx : IsOrdered (value_of_type t x) = subst IsOrdered e h in
    let hy : IsOrdered (value_of_type t y) = subst IsOrdered f k in
    let both : Compared (value_of_type t x) (value_of_type t y) = record {
      values = value_equal-typed t x y hx hy;
      fields =
          ap₂ (λ a b. field_equal a b) (field_of_typed t x) (field_of_typed t y)
          ∙ field_equal_lem t x y hx hy;
    } in
    subst (λ a. Compared a w) (sym e) (subst (λ b. Compared (value_of_type t x) b) (sym f) both)

pub value-Compared :
    (v w : FieldValue)
    → variant_index v ≡ variant_index w
    → IsOrdered v
    → IsOrdered w
    → Compared v w
value-Compared v w same h k =
    typed-Compared (type_of_index (variant_index v)) v w (value-HasType v)
      (subst (λ n. HasType (type_of_index n) w) (sym same) (value-HasType w)) h k
