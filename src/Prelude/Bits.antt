-- ===== src/Prelude/Bits.antt =====
-- Single bits of a number, by recursion on the bit's place, and the bit maps that enet keeps in
-- arrays of 32-bit words.
use Prim.Native.Nat.{ℕ, zero, suc, ◌+◌, ◌-◌, ◌*◌, ◌/◌, ◌%◌, ◌<◌}
use mathlib.Core.Path.{◌≡◌, refl, ap, ◌∙◌}
use mathlib.Core.Bool.{Bool, true, false}
use mathlib.Core.List.{List}
use native.Mathlib.Omega.{arith}
use enet_rs.Prelude.Tests.{◌==◌, if◌then◌else◌, Bool-cases}
use enet_rs.Prelude.Lists.{length, get_or, set, get_or-set_self, get_or-set_ne}
use mathlib.Core.Logic.{inl, inr}

-- x & (1 << k)
unfoldable pub test_bit : ℕ → ℕ → Bool
test_bit x zero = x % 2 == 1
test_bit x (suc k) = test_bit (x / 2) k

-- x | (1 << k)
unfoldable pub set_bit : ℕ → ℕ → ℕ
set_bit x zero = x + (1 - x % 2)
set_bit x (suc k) = set_bit (x / 2) k * 2 + x % 2

-- x & ~ (1 << k)
unfoldable pub clear_bit : ℕ → ℕ → ℕ
clear_bit x zero = x - x % 2
clear_bit x (suc k) = clear_bit (x / 2) k * 2 + x % 2

halve : (a b : ℕ) → b < 2 → (a * 2 + b) / 2 ≡ a
halve a b h = omega arith

pub test_bit-set_bit :
    (x k j : ℕ) → test_bit (set_bit x k) j ≡ (if k == j then true else test_bit x j)
unfolding test_bit set_bit
test_bit-set_bit x zero zero = ground arith
test_bit-set_bit x zero (suc j) =
    ap (λ y. test_bit y j) (let e : (x + (1 - x % 2)) / 2 ≡ x / 2 = omega arith in e) ∙ ground arith
test_bit-set_bit x (suc k) zero = ground arith
test_bit-set_bit x (suc k) (suc j) =
    ap (λ y. test_bit y j) (halve (set_bit (x / 2) k) (x % 2) (omega arith))
    ∙ test_bit-set_bit (x / 2) k j
    ∙ ground arith

pub test_bit-clear_bit :
    (x k j : ℕ) → test_bit (clear_bit x k) j ≡ (if k == j then false else test_bit x j)
unfolding test_bit clear_bit
test_bit-clear_bit x zero zero = ground arith
test_bit-clear_bit x zero (suc j) =
    ap (λ y. test_bit y j) (let e : (x - x % 2) / 2 ≡ x / 2 = omega arith in e) ∙ ground arith
test_bit-clear_bit x (suc k) zero = ground arith
test_bit-clear_bit x (suc k) (suc j) =
    ap (λ y. test_bit y j) (halve (clear_bit (x / 2) k) (x % 2) (omega arith))
    ∙ test_bit-clear_bit (x / 2) k j
    ∙ ground arith

pub test_bit-zero : (k : ℕ) → test_bit 0 k ≡ false
unfolding test_bit
test_bit-zero zero = refl
test_bit-zero (suc k) = test_bit-zero k

-- words [i / 32] & (1u << (i % 32))
unfoldable pub bitmap_test : List ℕ → ℕ → Bool
bitmap_test ws i = test_bit (get_or ws (i / 32) 0) (i % 32)

-- words [i / 32] |= 1u << (i % 32)
unfoldable pub bitmap_set : List ℕ → ℕ → List ℕ
bitmap_set ws i = set ws (i / 32) (set_bit (get_or ws (i / 32) 0) (i % 32))

pub bitmap_test-bitmap_set :
    (ws : List ℕ) (i j : ℕ)
    → i < 32 * length ws
    → bitmap_test (bitmap_set ws i) j ≡ (if i == j then true else bitmap_test ws j)
unfolding bitmap_test bitmap_set
bitmap_test-bitmap_set ws i j h = elim (Bool-cases (i / 32 == j / 32)) [
  | inl e ↦
      let e' : i / 32 ≡ j / 32 = ground arith in
      ap (λ w. test_bit w (j % 32))
        (ap (λ k. get_or (set ws k (set_bit (get_or ws k 0) (i % 32))) (j / 32) 0) e'
          ∙ get_or-set_self ws (j / 32) _ 0 (omega arith))
      ∙ test_bit-set_bit (get_or ws (j / 32) 0) (i % 32) (j % 32)
      ∙ ground arith
  | inr n ↦
      ap (λ w. test_bit w (j % 32)) (get_or-set_ne ws (i / 32) (j / 32) _ 0 (ground arith))
      ∙ ground arith
]
