-- ===== src/Field/Uuid/Pairs.antt =====
-- lib/datatypes/types/uuid.hpp: the pairs of characters that `std::stoi` takes for a byte in
-- stringToUuid.
use enigma_db.Base.{
  ℕ, ◌+◌, ◌*◌, ◌<◌, ◌≤◌, ◌≡◌, refl, ◌==◌, leb, ◌⊎◌, Bool, true, false, ◌||◌, ◌&&◌, ◌-◌, inl, inr,
  Bool-cases, Option-cases, Option, none, some, arith, if◌then◌else◌,
}
use enigma_db.Field.{Result, given, raised, faulted}
use enigma_db.Field.Uuid.{hex_digit, is_space, one_digit, stoi}

-- A character is the hexadecimal digit of a value: 0 to 9, a to f or A to F.
abbrev pub IsDigit : ℕ → ℕ → Type 0
IsDigit c x =
    ((c ≡ 48 + x) × (x < 10))
    ⊎ (((c ≡ 87 + x) × (10 ≤ x) × (x < 16)) ⊎ ((c ≡ 55 + x) × (10 ≤ x) × (x < 16)))

-- White space or a plus sign.
abbrev pub IsLead : ℕ → Type 0
IsLead c = (c ≡ 32) ⊎ (((9 ≤ c) × (c ≤ 13)) ⊎ (c ≡ 43))

-- Two characters that stand for a byte: two digits, a digit and anything else, or a digit behind
-- white space or a plus sign.
pub data Pair (c d : ℕ) : ℕ → Type 0 where
  two : {x y : ℕ} → IsDigit c x → IsDigit d y → Pair c d (x * 16 + y)
  one : {x : ℕ} → IsDigit c x → ((y : ℕ) → ¬ IsDigit d y) → Pair c d x
  behind : {y : ℕ} → IsLead c → IsDigit d y → Pair c d y

IsDigit→hex_digit : (c x : ℕ) → IsDigit c x → hex_digit c ≡ some x
unfolding hex_digit
IsDigit→hex_digit c x (inl h) = ground arith
IsDigit→hex_digit c x (inr (inl h)) = ground arith
IsDigit→hex_digit c x (inr (inr h)) = ground arith

if_some :
    (b : Bool) (d x : ℕ) (o : Option ℕ)
    → (if b then some d else o) ≡ some x
    → ((b ≡ true) × (d ≡ x)) ⊎ (o ≡ some x)
if_some true d x o h = inl (refl, cc h)
if_some false d x o h = inr h

hex_digit→IsDigit : (c x : ℕ) → hex_digit c ≡ some x → IsDigit c x
unfolding hex_digit
hex_digit→IsDigit c x h = elim (if_some (leb 48 c && leb c 57) (c - 48) x _ h) [
  | inl (b, e) ↦ inl (ground arith)
  | inr h₁ ↦ elim (if_some (leb 97 c && leb c 102) (c - 87) x _ h₁) [
    | inl (b, e) ↦ inr (inl (ground arith))
    | inr h₂ ↦ elim (if_some (leb 65 c && leb c 70) (c - 55) x none h₂) [
      | inl (b, e) ↦ inr (inr (ground arith))
      | inr h₃ ↦ absurd (cc h₃)
    ]
  ]
]

hex_digit→none : (c : ℕ) → ((x : ℕ) → ¬ IsDigit c x) → hex_digit c ≡ none
hex_digit→none c h = elim (Option-cases (hex_digit c)) [
  | inl e ↦ e
  | inr (x, e) ↦ absurd (h x (hex_digit→IsDigit c x e))
]

none→IsDigit : (c : ℕ) → hex_digit c ≡ none → (x : ℕ) → ¬ IsDigit c x
none→IsDigit c h x k = cc (h, IsDigit→hex_digit c x k)

-- The test of `stoi` for white space or a plus sign.
is_lead : (c : ℕ) → IsLead c → (is_space c || (c == 43)) ≡ true
unfolding is_space
is_lead c (inl h) = ground arith
is_lead c (inr (inl h)) = ground arith
is_lead c (inr (inr h)) = ground arith

IsLead-cases : (c : ℕ) → (is_space c || (c == 43)) ≡ true → IsLead c
unfolding is_space
IsLead-cases c h = ground arith

lead_plain : (c : ℕ) → IsLead c → (x : ℕ) → ¬ IsDigit c x
lead_plain c h x k = ground arith

pub Pair→stoi : (c d byte : ℕ) → Pair c d byte → stoi c d ≡ given byte
unfolding stoi one_digit
Pair→stoi c d _ (two {x} {y} h k) = rw (IsDigit→hex_digit c x h, stoi, IsDigit→hex_digit d y k) refl
Pair→stoi c d _ (one {x} h k) = rw (IsDigit→hex_digit c x h, stoi, hex_digit→none d k) refl
Pair→stoi c d _ (behind {y} h k) =
    rw (hex_digit→none c (lead_plain c h), stoi, is_lead c h, one_digit, IsDigit→hex_digit d y k)
      refl

-- What a result says of a value: that it is there only if the value has the property.
abbrev pub Says : {A : Type 0} → (A → Type 0) → Result A → Type 0
Says P (given a) = P a
Says P raised = Unit
Says P faulted = ⊥

pub stoi-Says : (c d : ℕ) → Says (Pair c d) (stoi c d)
unfolding stoi one_digit
stoi-Says c d = elim (Option-cases (hex_digit c)) [
  | inr (x, e) ↦ elim (Option-cases (hex_digit d)) [
    | inr (y, k) ↦ rw (e, stoi, k) (two (hex_digit→IsDigit c x e) (hex_digit→IsDigit d y k))
    | inl k ↦ rw (e, stoi, k) (one (hex_digit→IsDigit c x e) (none→IsDigit d k))
  ]
  | inl e ↦ elim (Bool-cases (is_space c || (c == 43))) [
    | inr other ↦ rw (e, stoi, other) tt
    | inl lead ↦ elim (Option-cases (hex_digit d)) [
      | inr (y, k) ↦
          rw (e, stoi, lead, one_digit, k) (behind (IsLead-cases c lead) (hex_digit→IsDigit d y k))
      | inl k ↦ rw (e, stoi, lead, one_digit, k) tt
    ]
  ]
]
