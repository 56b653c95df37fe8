-- ===== src/Field/Uuid/Accepted.antt =====
-- lib/datatypes/types/uuid.hpp: the texts that stringToUuid accepts, and the bytes that it reads.
use enigma_db.Base.{
  ℕ, ◌+◌, ◌≤◌, ◌≡◌, refl, ◌∙◌, sym, ap, ◌==◌, leb, true, false, inl, inr, Bool-cases, List, [], ◌∷◌,
  ◌++◌, arith, length, append-nil, append_assoc, length-append, if◌then◌else◌,
}
use mathlib.Core.Path.{subst}
use enigma_db.Field.{Result, given, raised, faulted, ◌>>=◌}
use enigma_db.Field.Uuid.{stoi, store, parse, string_to_uuid}
use enigma_db.Field.Uuid.RoundTrip.{store-room}
use enigma_db.Field.Uuid.Pairs.{Pair, Says, Pair→stoi, stoi-Says}

-- A text of pairs with hyphens in front, between and behind them, and the bytes of the pairs.
pub data Reads : List ℕ → List ℕ → Type 0 where
  done : Reads [] []
  hyphen : {text bytes : List ℕ} → Reads text bytes → Reads (45 ∷ text) bytes
  pair :
      {c d byte : ℕ} {text bytes : List ℕ}
      → (c == 45) ≡ false
      → Pair c d byte
      → Reads text bytes
      → Reads (c ∷ d ∷ text) (byte ∷ bytes)

bind-Says :
    {A B : Type 0} (P : A → Type 0) (Q : B → Type 0) (r : Result A) (f : A → Result B)
    → Says P r
    → ((a : A) → P a → Says Q (f a))
    → Says Q (r >>= f)
bind-Says P Q (given a) f h k = k a h
bind-Says P Q raised f h k = tt
bind-Says P Q faulted f h k = absurd h

weaken-Says :
    {A : Type 0} (P Q : A → Type 0) (r : Result A) → Says P r → ((a : A) → P a → Q a) → Says Q r
weaken-Says P Q (given a) h k = k a h
weaken-Says P Q raised h k = tt
weaken-Says P Q faulted h k = h

parse-hyphen_first : (text uuid : List ℕ) → parse (45 ∷ text) uuid ≡ parse text uuid
unfolding parse
parse-hyphen_first [] uuid = refl
parse-hyphen_first (d ∷ text) uuid = refl

-- What the loop adds to the bytes that it has.
abbrev Added : List ℕ → List ℕ → List ℕ → Type 0
Added text uuid out = (bytes : List ℕ) × Reads text bytes × (out ≡ uuid ++ bytes)

hyphen-Added :
    (c : ℕ) (text uuid out : List ℕ)
    → (c == 45) ≡ true
    → Added text uuid out
    → Added (c ∷ text) uuid out
hyphen-Added c text uuid out dash (bytes, reads, e) =
    let same : c ≡ 45 = ground arith in
    (bytes, subst (λ x. Reads (x ∷ text) bytes) (sym same) (hyphen reads), e)

pair-Added :
    (c d byte : ℕ) (text uuid out : List ℕ)
    → (c == 45) ≡ false
    → Pair c d byte
    → Added text (uuid ++ (byte ∷ [])) out
    → Added (c ∷ d ∷ text) uuid out
pair-Added c d byte text uuid out plain p (bytes, reads, e) =
    (byte ∷ bytes, pair plain p reads, e ∙ append_assoc uuid (byte ∷ []) bytes)

parse-Says : (text uuid : List ℕ) → Says (Added text uuid) (parse text uuid)
unfolding parse
parse-Says [] uuid = ([], done, sym (append-nil uuid))
parse-Says (c ∷ []) uuid = elim (Bool-cases (c == 45)) [
  | inl dash ↦ rw dash (hyphen-Added c [] uuid uuid dash ([], done, sym (append-nil uuid)))
  | inr other ↦ rw other tt
]
parse-Says (c ∷ d ∷ text) uuid = elim (Bool-cases (c == 45)) [
  | inl dash ↦
      rw (dash, parse)
        (weaken-Says (Added (d ∷ text) uuid) (Added (c ∷ d ∷ text) uuid) (parse (d ∷ text) uuid)
          (parse-Says (d ∷ text) uuid) (λ out. hyphen-Added c (d ∷ text) uuid out dash))
  | inr plain ↦ elim (Bool-cases (leb 16 (length uuid))) [
    | inl full ↦ rw (plain, parse, full) tt
    | inr room ↦
        rw (plain, parse, room)
          (bind-Says (Pair c d) (Added (c ∷ d ∷ text) uuid) (stoi c d)
            (λ byte. store byte uuid >>= λ uuid'. parse text uuid') (stoi-Says c d)
            (λ byte p. rw (store-room byte uuid (ground arith)) (
              weaken-Says (Added text (uuid ++ (byte ∷ []))) (Added (c ∷ d ∷ text) uuid)
                (parse text (uuid ++ (byte ∷ []))) (parse-Says text (uuid ++ (byte ∷ [])))
                (λ out. pair-Added c d byte text uuid out plain p))))
  ]
]

Reads→parse :
    {text bytes : List ℕ} (uuid : List ℕ)
    → Reads text bytes
    → length uuid + length bytes ≤ 16
    → parse text uuid ≡ given (uuid ++ bytes)
unfolding parse
Reads→parse uuid done room = ap given (sym (append-nil uuid))
Reads→parse uuid (hyphen {text} r) room = parse-hyphen_first text uuid ∙ Reads→parse uuid r room
Reads→parse uuid (pair {c} {d} {byte} {text} {bytes} plain p r) room =
    let fits : leb 16 (length uuid) ≡ false = ground arith in
    rw (plain, parse, fits, Pair→stoi c d byte p, store-room byte uuid (omega arith))
      (Reads→parse (uuid ++ (byte ∷ [])) r (omega (arith, length-append uuid (byte ∷ [])))
        ∙ ap given (append_assoc uuid (byte ∷ []) bytes))

-- A text of sixteen pairs, and the bytes of them.
pub record IsUuidText (text uuid : List ℕ) : Type 0 where
  pub reads : Reads text uuid
  pub counts : length uuid ≡ 16

counted-Says :
    (text uuid : List ℕ)
    → Added text [] uuid
    → Says (IsUuidText text) (if length uuid == 16 then given uuid else raised)
counted-Says text uuid (bytes, reads, e) = elim (Bool-cases (length uuid == 16)) [
  | inl full ↦ rw full (record { reads = subst (Reads text) (sym e) reads; counts = ground arith })
  | inr other ↦ rw other tt
]

string_to_uuid-Says : (text : List ℕ) → Says (IsUuidText text) (string_to_uuid text)
unfolding string_to_uuid
string_to_uuid-Says text =
    bind-Says (Added text []) (IsUuidText text) (parse text []) _ (parse-Says text [])
      (counted-Says text)

-- `stringToUuid` returns the bytes of exactly the texts that are sixteen pairs of characters with
-- hyphens in front, between and behind them, a pair being two hexadecimal digits, a digit and
-- anything else, or a digit behind white space or a plus sign. On every other text it throws, and it
-- never writes behind the sixteen bytes of its array.
pub string_to_uuid_lem :
    (text : List ℕ)
    → ((uuid : List ℕ) → string_to_uuid text ≡ given uuid → IsUuidText text uuid)
      × ((uuid : List ℕ) → IsUuidText text uuid → string_to_uuid text ≡ given uuid)
      × ¬ (string_to_uuid text ≡ faulted)
unfolding string_to_uuid
string_to_uuid_lem text = (
  λ uuid accepted. subst (Says (IsUuidText text)) accepted (string_to_uuid-Says text),
  λ uuid h.
      let full : (length uuid == 16) ≡ true = ground (arith, h.counts) in
      rw (Reads→parse [] h.reads (omega (arith, h.counts)), full) refl,
  λ fault. subst (Says (IsUuidText text)) fault (string_to_uuid-Says text),
)
