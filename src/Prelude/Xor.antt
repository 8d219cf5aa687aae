-- ===== src/Prelude/Xor.antt =====
-- The exclusive or of binary digits, half by half.
use Prim.Native.Nat.{
  ℕ, zero, suc, ◌+◌, ◌*◌, ◌/◌, ◌%◌, ◌≤◌, ◌<◌, bit_xor, bit_xor-bitwise, digits, differ,
}
use mathlib.Core.Path.{◌≡◌, refl, ap, sym, ◌∙◌}
use native.Mathlib.Omega.{arith}

-- More digits than the first number has change nothing.
digits_enough :
    (n m a b : ℕ) → a ≤ n → a ≤ m → digits (λ x. x) differ n a b ≡ digits (λ x. x) differ m a b
digits_enough zero zero a b h g = refl
digits_enough zero (suc m) zero b h g = refl
digits_enough zero (suc m) (suc a) b h g = absurd (omega (arith, h))
digits_enough (suc n) zero zero b h g = refl
digits_enough (suc n) zero (suc a) b h g = absurd (omega (arith, g))
digits_enough (suc n) (suc m) zero b h g = refl
digits_enough (suc n) (suc m) (suc a) b h g =
    ap (λ x. x * 2 + differ (suc a % 2) (b % 2))
      (digits_enough n m (suc a / 2) (b / 2) (omega (arith, h)) (omega (arith, g)))

differ_mod : (x y : ℕ) → x < 2 → y < 2 → differ x y ≡ (x + y) % 2
differ_mod zero y h g = omega (arith, g)
differ_mod (suc zero) zero h g = omega arith
differ_mod (suc zero) (suc zero) h g = omega arith
differ_mod (suc zero) (suc (suc y)) h g = absurd (omega (arith, g))
differ_mod (suc (suc x)) y h g = absurd (omega (arith, h))

xor_digits : (a b : ℕ) → bit_xor a b ≡ digits (λ x. x) differ a a b
xor_digits a b = λ i. bit_xor-bitwise a b i

digits_step :
    (a b : ℕ)
    → digits (λ x. x) differ a a b
      ≡ digits (λ x. x) differ (a / 2) (a / 2) (b / 2) * 2 + (a + b) % 2
digits_step zero b = omega arith
digits_step (suc a) b = omega (
  arith,
  digits_enough a (suc a / 2) (suc a / 2) (b / 2) (omega arith) (omega arith),
  differ_mod (suc a % 2) (b % 2) (omega arith) (omega arith),
)

xor_step : (a b : ℕ) → bit_xor a b ≡ bit_xor (a / 2) (b / 2) * 2 + (a + b) % 2
xor_step a b = omega (arith, xor_digits a b, xor_digits (a / 2) (b / 2), digits_step a b)

pub xor_half : (a b : ℕ) → bit_xor a b / 2 ≡ bit_xor (a / 2) (b / 2)
xor_half a b = omega (arith, xor_step a b)

pub xor_low : (a b : ℕ) → bit_xor a b % 2 ≡ (a + b) % 2
xor_low a b = omega (arith, xor_step a b)

halves_eq : (x y : ℕ) → x / 2 ≡ y / 2 → x % 2 ≡ y % 2 → x ≡ y
halves_eq x y h l = omega (arith, h, l)

xor_none : (b : ℕ) → bit_xor 0 b ≡ b
xor_none b = xor_digits 0 b

none_below : (n a : ℕ) → a ≤ n → bit_xor a 0 ≡ a
none_below zero zero h = refl
none_below zero (suc a) h = absurd (omega (arith, h))
none_below (suc n) a h = omega (arith, xor_step a 0, none_below n (a / 2) (omega (arith, h)))

assoc_below :
    (n a b c : ℕ) → a ≤ n → b ≤ n → c ≤ n → bit_xor (bit_xor a b) c ≡ bit_xor a (bit_xor b c)
assoc_below zero zero zero zero h g l = refl
assoc_below zero zero zero (suc c) h g l = absurd (omega (arith, l))
assoc_below zero zero (suc b) c h g l = absurd (omega (arith, g))
assoc_below zero (suc a) b c h g l = absurd (omega (arith, h))
assoc_below (suc n) a b c h g l =
    halves_eq (bit_xor (bit_xor a b) c) (bit_xor a (bit_xor b c))
      (xor_half (bit_xor a b) c
        ∙ ap (λ x. bit_xor x (c / 2)) (xor_half a b)
        ∙ assoc_below n (a / 2) (b / 2) (c / 2) (omega (arith, h)) (omega (arith, g))
            (omega (arith, l))
        ∙ sym (ap (λ x. bit_xor (a / 2) x) (xor_half b c))
        ∙ sym (xor_half a (bit_xor b c)))
      (omega (arith, xor_low (bit_xor a b) c, xor_low a b, xor_low a (bit_xor b c), xor_low b c))

pub xor_assoc : (a b c : ℕ) → bit_xor (bit_xor a b) c ≡ bit_xor a (bit_xor b c)
xor_assoc a b c = assoc_below (a + b + c) a b c (omega arith) (omega arith) (omega arith)

-- x * 2 ^ k, and 2 ^ k.
abbrev pub shifted : ℕ → ℕ → ℕ
shifted zero x = x
shifted (suc k) x = shifted k x * 2

-- Digits in different places are added.
pub xor_shifted : (k x y : ℕ) → y < shifted k 1 → bit_xor (shifted k x) y ≡ shifted k x + y
xor_shifted zero x zero h = omega (arith, none_below x x (omega arith))
xor_shifted zero x (suc y) h = absurd (omega (arith, h))
xor_shifted (suc k) x y h = omega (
  arith,
  xor_step (shifted (suc k) x) y,
  ap (λ z. bit_xor z (y / 2)) (let e : shifted k x * 2 / 2 ≡ shifted k x = omega arith in e),
  xor_shifted k x (y / 2) (omega (arith, h)),
)

pub xor_below : (k x y : ℕ) → x < shifted k 1 → y < shifted k 1 → bit_xor x y < shifted k 1
xor_below zero zero y h g = omega (arith, xor_none y, g)
xor_below zero (suc x) y h g = absurd (omega (arith, h))
xor_below (suc k) x y h g =
    omega (arith, xor_step x y, xor_below k (x / 2) (y / 2) (omega (arith, h)) (omega (arith, g)))
