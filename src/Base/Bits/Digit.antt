-- ===== src/Base/Bits/Digit.antt =====
-- Single bits, and the bits of what the native `bit_or` and `bit_and` return.
use Prim.Native.Nat.{
  ℕ, zero, suc, ◌+◌, ◌/◌, ◌%◌, ◌≤◌, min, max, bit_and, bit_or, digits, bit_and-bitwise,
  bit_or-bitwise,
}
use mathlib.Core.Path.{◌≡◌, refl, ◌∙◌, ap}
use native.Mathlib.Omega.{arith}
use native.Mathlib.Nat.{le_refl}

-- Bit `k` of `w`, as 0 or 1.
abbrev pub bit : ℕ → ℕ → ℕ
bit w zero = w % 2
bit w (suc k) = bit (w / 2) k

pub bit-le-one : (w k : ℕ) → bit w k ≤ 1
bit-le-one w zero = omega arith
bit-le-one w (suc k) = bit-le-one (w / 2) k

pub zero-bit : (k : ℕ) → bit 0 k ≡ 0
zero-bit zero = refl
zero-bit (suc k) = zero-bit k

module _ (z : ℕ → ℕ) (f : ℕ → ℕ → ℕ) (f_le : (x y : ℕ) → x ≤ 1 → y ≤ 1 → f x y ≤ 1)
    (z_bit : (b k : ℕ) → bit (z b) k ≡ f 0 (bit b k)) where
  bit-digits : (n a b k : ℕ) → a ≤ n → bit (digits z f n a b) k ≡ f (bit a k) (bit b k)
  bit-digits zero zero b k h = z_bit b k ∙ ap (λ x. f x (bit b k)) (omega (arith, zero-bit k))
  bit-digits zero (suc a) b k h = absurd (omega arith)
  bit-digits (suc n) zero b k h = z_bit b k ∙ ap (λ x. f x (bit b k)) (omega (arith, zero-bit k))
  bit-digits (suc n) (suc a) b zero h =
      omega (arith, f_le (suc a % 2) (b % 2) (omega arith) (omega arith))
  bit-digits (suc n) (suc a) b (suc k) h =
      ap (λ w. bit w k) (omega (arith, f_le (suc a % 2) (b % 2) (omega arith) (omega arith)))
      ∙ bit-digits n (suc a / 2) (b / 2) k (omega arith)

pub bit-bit_or : (a b k : ℕ) → bit (bit_or a b) k ≡ max (bit a k) (bit b k)
bit-bit_or a b k =
    ap (λ w. bit w k) (bit_or-bitwise a b)
    ∙ bit-digits (λ y. y) max (λ x y p q. omega arith) (λ y j. omega arith) a a b k (le_refl a)

pub bit-bit_and : (a b k : ℕ) → bit (bit_and a b) k ≡ min (bit a k) (bit b k)
bit-bit_and a b k =
    ap (λ w. bit w k) (bit_and-bitwise a b)
    ∙ bit-digits (λ y. 0) min (λ x y p q. omega arith) (λ y j. omega (arith, zero-bit j)) a a b k
        (le_refl a)

bit_ext_fuel : (n a b : ℕ) → a ≤ n → b ≤ n → ((k : ℕ) → bit a k ≡ bit b k) → a ≡ b
bit_ext_fuel zero a b p q h = omega arith
bit_ext_fuel (suc n) zero zero p q h = refl
bit_ext_fuel (suc n) a b p q h =
    omega (arith, h 0, bit_ext_fuel n (a / 2) (b / 2) (omega arith) (omega arith) (λ k. h (suc k)))

-- A number is determined by its bits.
pub bit_ext : (a b : ℕ) → ((k : ℕ) → bit a k ≡ bit b k) → a ≡ b
bit_ext a b h = bit_ext_fuel (a + b) a b (omega arith) (omega arith) h
