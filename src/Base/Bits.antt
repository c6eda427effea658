-- ===== src/Base/Bits.antt =====
-- Laws of the masks that the code uses: one bit, its complement in a word, and low bits.
mod Digit
mod Fields
pub use Digit.{bit, bit-le-one, zero-bit, bit-bit_or, bit-bit_and, bit_ext}
pub use Fields.{
  two_pow-pos, two_pow-suc, bit_of_lt, bit-ones, below_or_above, bit_or_fields, bit_and_low,
  bit_and_high, bit_or-lt, bit_and-lt, bit_and-one, bit_and_ten, bit_and_page,
}
use Prim.Native.Nat.{
  ℕ, zero, suc, ◌+◌, ◌-◌, ◌*◌, ◌/◌, ◌%◌, ◌^◌, ◌≤◌, ◌<◌, min, max, bit_and, bit_or,
}
use mathlib.Core.Path.{◌≡◌, refl, ◌∙◌, ap}
use mathlib.Core.Logic.{◌≢◌}
use native.Mathlib.Omega.{arith}
use native.Mathlib.Decide.{ℕ_discrete}
use native.Mathlib.Nat.{pow-suc, one-le-pow}

-- The mask `1 << k` has bit `k` and no other.
pub bit-two_pow_self : (k : ℕ) → bit (2 ^ k) k ≡ 1
bit-two_pow_self zero = refl
bit-two_pow_self (suc k) = ap (λ w. bit w k) (omega (arith, two_pow-suc k)) ∙ bit-two_pow_self k

pub bit-two_pow_ne : (k j : ℕ) → k ≢ j → bit (2 ^ k) j ≡ 0
bit-two_pow_ne zero zero h = absurd (h refl)
bit-two_pow_ne zero (suc j) h = zero-bit j
bit-two_pow_ne (suc k) zero h = omega (arith, two_pow-suc k)
bit-two_pow_ne (suc k) (suc j) h =
    ap (λ w. bit w j) (omega (arith, two_pow-suc k)) ∙ bit-two_pow_ne k j (λ e. h (ap suc e))

-- `~v` in a word of `n` bits.
abbrev pub complement : ℕ → ℕ → ℕ
complement n v = 2 ^ n - 1 - v

pub bit-complement : (n v j : ℕ) → v < 2 ^ n → j < n → bit (complement n v) j ≡ 1 - bit v j
bit-complement zero v j p q = absurd (omega arith)
bit-complement (suc n) v zero p q = omega (arith, two_pow-suc n)
bit-complement (suc n) v (suc j) p q =
    ap (λ w. bit w j) (omega (arith, two_pow-suc n))
    ∙ bit-complement n (v / 2) j (omega (arith, two_pow-suc n)) (omega arith)

pub two_pow-lt : (k n : ℕ) → k < n → 2 ^ k < 2 ^ n
two_pow-lt k zero h = absurd (omega arith)
two_pow-lt zero (suc n) h = omega (arith, two_pow-suc n, two_pow-pos n)
two_pow-lt (suc k) (suc n) h =
    omega (arith, two_pow-suc n, two_pow-suc k, two_pow-lt k n (omega arith))

-- Testing a bit by a mask reads that bit.
pub bit_and-two_pow_zero : (w k : ℕ) → bit w k ≡ 0 → bit_and w (2 ^ k) ≡ 0
bit_and-two_pow_zero w k h = bit_ext (bit_and w (2 ^ k)) 0 λ j. at j
  where
    at : (j : ℕ) → bit (bit_and w (2 ^ k)) j ≡ bit 0 j
    at j = elim (ℕ_discrete k j) [
      | yes e ↦ omega (arith, bit-bit_and w (2 ^ k) j, zero-bit j, ap (λ (i : ℕ). bit w i) e)
      | no ne ↦ omega (arith, bit-bit_and w (2 ^ k) j, zero-bit j, bit-two_pow_ne k j ne)
    ]

pub bit_and-two_pow_ne_zero : (w k : ℕ) → bit w k ≡ 1 → bit_and w (2 ^ k) ≢ 0
bit_and-two_pow_ne_zero w k h e =
    omega
      (arith, bit-bit_and w (2 ^ k) k, bit-two_pow_self k, zero-bit k, ap (λ (v : ℕ). bit v k) e)

-- Setting the lowest bit.
pub bit_or-one : (v : ℕ) → bit_or v 1 ≡ v / 2 * 2 + 1
bit_or-one v = bit_ext (bit_or v 1) (v / 2 * 2 + 1) at
  where
    at : (j : ℕ) → bit (bit_or v 1) j ≡ bit (v / 2 * 2 + 1) j
    at zero = omega (arith, bit-bit_or v 1 zero)
    at (suc j) =
        bit-bit_or v 1 (suc j)
        ∙ omega (
          arith,
          zero-bit j,
          ap (λ (w : ℕ). bit w j) {x = (v / 2 * 2 + 1) / 2} {y = v / 2} (omega arith),
        )
