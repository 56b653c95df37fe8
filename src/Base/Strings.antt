-- ===== src/Base/Strings.antt =====
-- Strings as the lists of their bytes, compared as `operator==` of `std::string` and `std::memcmp` do.
use Prim.Native.Nat.{ℕ}
use mathlib.Core.Path.{◌≡◌, refl, ap₂}
use mathlib.Core.Logic.{inl, inr}
use mathlib.Core.Bool.{Bool, true, false}
use mathlib.Core.List.{List, [], ◌∷◌}
use native.Mathlib.Omega.{arith}
use enigma_db.Base.Tests.{◌==◌, if◌then◌else◌, ==-self, Bool-cases}

abbrev pub same_bytes : List ℕ → List ℕ → Bool
same_bytes [] [] = true
same_bytes [] (b ∷ bs) = false
same_bytes (a ∷ as') [] = false
same_bytes (a ∷ as') (b ∷ bs) = if a == b then same_bytes as' bs else false

pub same_bytes_self : (bs : List ℕ) → same_bytes bs bs ≡ true
same_bytes_self [] = refl
same_bytes_self (b ∷ bs) = rw (==-self b) (same_bytes_self bs)

-- Equal strings are the same.
pub same_bytes→≡ : (as' bs : List ℕ) → same_bytes as' bs ≡ true → as' ≡ bs
same_bytes→≡ [] [] h = refl
same_bytes→≡ [] (b ∷ bs) h = absurd (cc h)
same_bytes→≡ (a ∷ as') [] h = absurd (cc h)
same_bytes→≡ (a ∷ as') (b ∷ bs) h = elim (Bool-cases (a == b)) [
  | inl same ↦ ap₂ (λ x xs. x ∷ xs) (ground arith) (same_bytes→≡ as' bs (cc (h, same)))
  | inr other ↦ absurd (cc (h, other))
]
