-- ===== src/Outcome.antt =====
-- What a call of a method does to its object: it returns a value, it throws, or it does what C++
-- leaves undefined (`crashed`): it reads or writes through a pointer where there is no object, or it
-- locks a mutex that its own thread holds.

use enigma_db.Base.{◌≡◌, refl, ap, Bool, true, false, if◌then◌else◌}

pub data Outcome (S A : Type 0) : Type 0 where
  returned : A → S → Outcome S A
  thrown : S → Outcome S A
  crashed : Outcome S A

-- A method of an object with state `S`.
abbrev pub Method : Type 0 → Type 0 → Type 0
Method S A = S → Outcome S A

infixl 5 ◌>>=◌
abbrev pub ◌>>=◌ : {S A B : Type 0} → Method S A → (A → Method S B) → Method S B
◌>>=◌ m f s = elim (m s) [ returned a s' ↦ f a s' | thrown s' ↦ thrown s' | crashed ↦ crashed ]

pub >>=-returned :
    {S A B : Type 0} (m : Method S A) (f : A → Method S B) {s s' : S} {a : A}
    → m s ≡ returned a s'
    → (m >>= f) s ≡ f a s'
>>=-returned m f {s} returns =
    ap (λ out. elim out [ returned a s' ↦ f a s' | thrown s' ↦ thrown s' | crashed ↦ crashed ])
      returns

-- A sequence that returns has returned from its first call.
pub >>=-inverse :
    {S A B : Type 0} (m : Method S A) (f : A → Method S B) (s : S) (b : B) (t : S)
    → (m >>= f) s ≡ returned b t
    → (a : A) × (s' : S) × (m s ≡ returned a s') × (f a s' ≡ returned b t)
>>=-inverse {S} {A} m f s b t ends = first_call (m s) refl ends
  where
    first_call :
        (out : Outcome S A)
        → m s ≡ out
        → elim out [ returned a s' ↦ f a s' | thrown s' ↦ thrown s' | crashed ↦ crashed ]
          ≡ returned b t
        → (a : A) × (s' : S) × (m s ≡ returned a s') × (f a s' ≡ returned b t)
    first_call (returned a s') returns rest = (a, s', returns, rest)
    first_call (thrown s') returns rest = absurd (cc rest)
    first_call crashed returns rest = absurd (cc rest)

-- What a call that returns or throws leaves behind.
abbrev pub After : {S A : Type 0} → (S → Type 0) → Outcome S A → Type 0
After P (returned a s) = P s
After P (thrown s) = P s
After P crashed = Unit

pub if-After :
    {S A : Type 0} (P : S → Type 0) (b : Bool) (out out' : Outcome S A)
    → After P out
    → After P out'
    → After P (if b then out else out')
if-After P true out out' h h' = h
if-After P false out out' h h' = h'

pub bind-After :
    {S A B : Type 0} (P : S → Type 0) (m : Method S A) (f : A → Method S B) (s : S)
    → After P (m s)
    → ((a : A) (s' : S) → P s' → After P (f a s'))
    → After P ((m >>= f) s)
bind-After {S} {A} P m f s h k = after_cases (m s) h
  where
    after_cases :
        (out : Outcome S A)
        → After P out
        → After P (elim out [ returned a s' ↦ f a s' | thrown s' ↦ thrown s' | crashed ↦ crashed ])
    after_cases (returned a s') h = k a s' h
    after_cases (thrown s') h = h
    after_cases crashed h = tt

-- The destructors that run on both ways out.
abbrev pub finally : {S A : Type 0} → (S → S) → Outcome S A → Outcome S A
finally f (returned a s) = returned a (f s)
finally f (thrown s) = thrown (f s)
finally f crashed = crashed
