-- ===== src/Ordered.antt =====
-- What lib/abstract/avl.hpp asks of its element type `T`: `std::less<T>` and `==`. The laws are
-- those of a strict weak order whose incomparable elements are the equal ones.
pub mod Numbers
pub mod Lex
use enigma_db.Base.{◌≡◌, Bool, true, false, not, ◌||◌, arith}

pub record IsStrictWeak {ℓ} {T : Type ℓ} (less equal : T → T → Bool) : Type ℓ where
  pub irrefl : (a : T) → less a a ≡ false
  pub trans : (a b c : T) → less a b ≡ true → less b c ≡ true → less a c ≡ true
  pub cotrans : (a b c : T) → less a c ≡ true → less a b ≡ false → less b c ≡ true
  pub equal_lem : (a b : T) → equal a b ≡ not (less a b || less b a)

pub record Ordered {ℓ} (T : Type ℓ) : Type ℓ where
  pub less : T → T → Bool
  pub equal : T → T → Bool
  pub lawful : IsStrictWeak less equal
  pub open lawful use *

module _ {ℓ} {T : Type ℓ} ⦃o : Ordered T⦄ where
  pub equal-of_not_less : (a b : T) → o.less a b ≡ false → o.less b a ≡ false → o.equal a b ≡ true
  equal-of_not_less a b h k = ground (arith, o.equal_lem a b)

  pub not_less-of_equal : (a b : T) → o.equal a b ≡ true → o.less a b ≡ false
  not_less-of_equal a b h = ground (arith, o.equal_lem a b)

  pub equal_comm : (a b : T) → o.equal a b ≡ o.equal b a
  equal_comm a b = ground (arith, o.equal_lem a b, o.equal_lem b a)

  pub asymm : (a b : T) → o.less a b ≡ true → o.less b a ≡ false
  asymm a b h = ground (arith, o.irrefl a, o.trans a b a)

  -- An element below `b` is below everything that equals `b`.
  pub less-equal_right : (a b c : T) → o.less a b ≡ true → o.equal b c ≡ true → o.less a c ≡ true
  less-equal_right a b c h e = ground (arith, o.equal_lem b c, o.cotrans a c b)

  pub less-equal_left : (a b c : T) → o.less a b ≡ true → o.equal a c ≡ true → o.less c b ≡ true
  less-equal_left a b c h e = ground (arith, o.equal_lem a c, o.cotrans a c b)

  pub equal-less_right : (a b c : T) → o.less a b ≡ true → o.equal b c ≡ true → o.equal a c ≡ false
  equal-less_right a b c h e = ground (arith, o.equal_lem a c, less-equal_right a b c)

  -- Two elements that equal a third are equal.
  pub equal-euclid : (a b c : T) → o.equal a b ≡ true → o.equal a c ≡ true → o.equal b c ≡ true
  equal-euclid a b c h k =
      ground
        (arith, o.equal_lem a b, o.equal_lem a c, o.equal_lem b c, o.cotrans b a c, o.cotrans c a b)
