-- ===== src/Prelude/Or.antt =====
-- The inclusive or of numbers whose digits are in different places.
use Prim.Native.Nat.{
  ℕ, zero, suc, ◌+◌, ◌*◌, ◌/◌, ◌%◌, ◌≤◌, ◌<◌, max, bit_or, bit_or-bitwise, digits,
}
use mathlib.Core.Path.{◌≡◌, refl, ap, sym, ◌∙◌}
use native.Mathlib.Omega.{arith}
use enet_rs.Prelude.Xor.{shifted}

digits_enough :
    (n m a b : ℕ) → a ≤ n → a ≤ m → digits (λ x. x) max n a b ≡ digits (λ x. x) max m a b
digits_enough zero zero a b h g = refl
digits_enough zero (suc m) zero b h g = refl
digits_enough zero (suc m) (suc a) b h g = absurd (omega (arith, h))
digits_enough (suc n) zero zero b h g = refl
digits_enough (suc n) zero (suc a) b h g = absurd (omega (arith, g))
digits_enough (suc n) (suc m) zero b h g = refl
digits_enough (suc n) (suc m) (suc a) b h g =
    ap (λ x. x * 2 + max (suc a % 2) (b % 2))
      (digits_enough n m (suc a / 2) (b / 2) (omega (arith, h)) (omega (arith, g)))

digits_step :
    (a b : ℕ)
    → digits (λ x. x) max a a b
      ≡ digits (λ x. x) max (a / 2) (a / 2) (b / 2) * 2 + max (a % 2) (b % 2)
digits_step zero b = omega arith
digits_step (suc a) b =
    ap (λ x. x * 2 + max (suc a % 2) (b % 2))
      (digits_enough a (suc a / 2) (suc a / 2) (b / 2) (omega arith) (omega arith))

or_digits : (a b : ℕ) → bit_or a b ≡ digits (λ x. x) max a a b
or_digits a b = λ i. bit_or-bitwise a b i

or_step : (a b : ℕ) → bit_or a b ≡ bit_or (a / 2) (b / 2) * 2 + max (a % 2) (b % 2)
or_step a b =
    or_digits a b
    ∙ digits_step a b
    ∙ ap (λ z. z * 2 + max (a % 2) (b % 2)) (sym (or_digits (a / 2) (b / 2)))

none_below : (n a : ℕ) → a ≤ n → bit_or a 0 ≡ a
none_below zero zero h = refl
none_below zero (suc a) h = absurd (omega (arith, h))
none_below (suc n) a h = omega (arith, or_step a 0, none_below n (a / 2) (omega (arith, h)))

or_none : (b : ℕ) → bit_or 0 b ≡ b
or_none b = λ i. bit_or-bitwise 0 b i

half_shifted : (k x : ℕ) → shifted (suc k) x / 2 ≡ shifted k x
half_shifted k x = omega arith

-- The second number below the digits of the first.
pub or_above : (k x y : ℕ) → y < shifted k 1 → bit_or (shifted k x) y ≡ shifted k x + y
or_above zero x zero h = omega (arith, none_below x x (omega arith))
or_above zero x (suc y) h = absurd (omega (arith, h))
or_above (suc k) x y h = omega (
  arith,
  or_step (shifted (suc k) x) y,
  ap (λ z. bit_or z (y / 2)) (half_shifted k x),
  or_above k x (y / 2) (omega (arith, h)),
)

-- The first number below the digits of the second.
pub or_below : (k x y : ℕ) → y < shifted k 1 → bit_or y (shifted k x) ≡ shifted k x + y
or_below zero x zero h = omega (arith, or_none x)
or_below zero x (suc y) h = absurd (omega (arith, h))
or_below (suc k) x y h = omega (
  arith,
  or_step y (shifted (suc k) x),
  ap (λ z. bit_or (y / 2) z) (half_shifted k x),
  or_below k x (y / 2) (omega (arith, h)),
)
