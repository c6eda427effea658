-- ===== src/Base/Bits/Fields.antt =====
-- `|` of disjoint fields and `&` with the masks of the low and of the high bits, at every width.
use Prim.Native.Nat.{ℕ, zero, suc, ◌+◌, ◌%◌, ◌-◌, ◌*◌, ◌/◌, ◌^◌, ◌≤◌, ◌<◌, min, bit_and, bit_or}
use mathlib.Core.Path.{◌≡◌, sym, ◌∙◌, ap}
use mathlib.Core.Logic.{◌⊎◌, inl, inr}
use native.Mathlib.Omega.{arith}
use native.Mathlib.Nat.{pow-suc, one-le-pow}
use holyos.Base.Bits.Digit.{bit, bit-le-one, zero-bit, bit-bit_or, bit-bit_and, bit_ext}

pub two_pow-pos : (k : ℕ) → 1 ≤ 2 ^ k
two_pow-pos k = one-le-pow k 2 (omega arith)

pub two_pow-suc : (k : ℕ) → 2 ^ suc k ≡ 2 ^ k * 2
two_pow-suc k = pow-suc 2 k

double_field : (k q : ℕ) → q * 2 ^ suc k ≡ 2 * (q * 2 ^ k)
double_field k q = omega (arith, ap (λ (t : ℕ). q * t) (two_pow-suc k))

pub bit-fields_low : (k q r j : ℕ) → j < k → bit (q * 2 ^ k + r) j ≡ bit r j
bit-fields_low zero q r j h = absurd (omega arith)
bit-fields_low (suc k) q r zero h = omega (arith, double_field k q)
bit-fields_low (suc k) q r (suc j) h =
    ap (λ w. bit w j) (omega (arith, double_field k q)) ∙ bit-fields_low k q (r / 2) j (omega arith)

pub bit-fields_high : (k q r i : ℕ) → r < 2 ^ k → bit (q * 2 ^ k + r) (k + i) ≡ bit q i
bit-fields_high zero q r i h =
    ap (λ m. bit (q * 2 ^ 0 + r) m) {x = 0 + i} {y = i} (omega arith)
    ∙ ap (λ w. bit w i) {x = q * 2 ^ 0 + r} {y = q} (omega arith)
bit-fields_high (suc k) q r i h =
    ap (λ m. bit (q * 2 ^ suc k + r) m) {x = suc k + i} {y = suc (k + i)} (omega arith)
    ∙ ap (λ w. bit w (k + i)) {x = (q * 2 ^ suc k + r) / 2} {y = q * 2 ^ k + r / 2}
        (omega (arith, double_field k q))
    ∙ bit-fields_high k q (r / 2) i (omega (arith, two_pow-suc k))

pub bit_of_lt : (k r i : ℕ) → r < 2 ^ k → bit r (k + i) ≡ 0
bit_of_lt k r i h =
    ap (λ w. bit w (k + i)) {x = r} {y = 0 * 2 ^ k + r} (omega arith)
    ∙ bit-fields_high k 0 r i h
    ∙ zero-bit i

pub bit-ones : (k j : ℕ) → j < k → bit (2 ^ k - 1) j ≡ 1
bit-ones zero j h = absurd (omega arith)
bit-ones (suc k) zero h = omega (arith, two_pow-suc k, two_pow-pos k)
bit-ones (suc k) (suc j) h =
    ap (λ w. bit w j) (omega (arith, two_pow-suc k, two_pow-pos k)) ∙ bit-ones k j (omega arith)

-- Every bit number is below `k`, or `k` and some more.
pub below_or_above : (k j : ℕ) → (j < k) ⊎ ((i : ℕ) × (j ≡ k + i))
below_or_above zero j = inr (j, omega arith)
below_or_above (suc k) zero = inl (omega arith)
below_or_above (suc k) (suc j) = elim (below_or_above k j) [
  | inl h ↦ inl (omega arith)
  | inr (i, e) ↦ inr (i, omega arith)
]

-- `(q << k) | r` is a sum when `r` fits `k` bits.
pub bit_or_fields : (k q r : ℕ) → r < 2 ^ k → bit_or (q * 2 ^ k) r ≡ q * 2 ^ k + r
bit_or_fields k q r h = bit_ext (bit_or (q * 2 ^ k) r) (q * 2 ^ k + r) λ j.
    elim (below_or_above k j) [
      | inl low ↦ omega (
        arith,
        bit-bit_or (q * 2 ^ k) r j,
        bit-fields_low k q r j low,
        bit-fields_low k q 0 j low,
        ap (λ (w : ℕ). bit w j) {x = q * 2 ^ k + 0} {y = q * 2 ^ k} (omega arith),
        zero-bit j,
      )
      | inr (i, e) ↦ omega (
        arith,
        bit-bit_or (q * 2 ^ k) r j,
        ap (λ (m : ℕ). bit (q * 2 ^ k + r) m) e,
        ap (λ (m : ℕ). bit (q * 2 ^ k) m) e,
        ap (λ (m : ℕ). bit r m) e,
        bit-fields_high k q r i h,
        bit-fields_high k q 0 i (two_pow-pos k),
        ap (λ (w : ℕ). bit w (k + i)) {x = q * 2 ^ k + 0} {y = q * 2 ^ k} (omega arith),
        bit_of_lt k r i h,
      )
    ]

-- `& ((1 << k) - 1)` keeps the field of the low `k` bits.
pub bit_and_low : (k q r : ℕ) → r < 2 ^ k → bit_and (q * 2 ^ k + r) (2 ^ k - 1) ≡ r
bit_and_low k q r h = bit_ext (bit_and (q * 2 ^ k + r) (2 ^ k - 1)) r λ j.
    elim (below_or_above k j) [
      | inl low ↦ omega (
        arith,
        bit-bit_and (q * 2 ^ k + r) (2 ^ k - 1) j,
        bit-fields_low k q r j low,
        bit-ones k j low,
        bit-le-one r j,
      )
      | inr (i, e) ↦ omega (
        arith,
        bit-bit_and (q * 2 ^ k + r) (2 ^ k - 1) j,
        ap (λ (m : ℕ). bit (2 ^ k - 1) m) e,
        ap (λ (m : ℕ). bit r m) e,
        bit_of_lt k (2 ^ k - 1) i (omega (arith, two_pow-pos k)),
        bit_of_lt k r i h,
      )
    ]

-- A number of `n` bits has no bit outside the mask of `n` ones.
ones_keep : (n q i : ℕ) → q < 2 ^ n → min (bit q i) (bit (2 ^ n - 1) i) ≡ bit q i
ones_keep n q i h = elim (below_or_above n i) [
  | inl low ↦ omega (arith, bit-ones n i low, bit-le-one q i)
  | inr (d, e) ↦ omega (arith, ap (λ (m : ℕ). bit q m) e, bit_of_lt n q d h)
]

-- `& ~((1 << k) - 1)` in a word of `k + n` bits clears that field.
pub bit_and_high :
    (k n q r : ℕ)
    → r < 2 ^ k
    → q < 2 ^ n
    → bit_and (q * 2 ^ k + r) ((2 ^ n - 1) * 2 ^ k) ≡ q * 2 ^ k
bit_and_high k n q r h hq = bit_ext (bit_and (q * 2 ^ k + r) ((2 ^ n - 1) * 2 ^ k)) (q * 2 ^ k) λ j.
    elim (below_or_above k j) [
      | inl low ↦ omega (
        arith,
        bit-bit_and (q * 2 ^ k + r) ((2 ^ n - 1) * 2 ^ k) j,
        bit-fields_low k (2 ^ n - 1) 0 j low,
        bit-fields_low k q 0 j low,
        ap (λ (w : ℕ). bit w j) {x = q * 2 ^ k + 0} {y = q * 2 ^ k} (omega arith),
        ap (λ (w : ℕ). bit w j) {x = (2 ^ n - 1) * 2 ^ k + 0} {y = (2 ^ n - 1) * 2 ^ k}
            (omega arith),
        zero-bit j,
      )
      | inr (i, e) ↦ omega (
        arith,
        bit-bit_and (q * 2 ^ k + r) ((2 ^ n - 1) * 2 ^ k) j,
        ap (λ (m : ℕ). bit (q * 2 ^ k + r) m) e,
        ap (λ (m : ℕ). bit (q * 2 ^ k) m) e,
        ap (λ (m : ℕ). bit ((2 ^ n - 1) * 2 ^ k) m) e,
        bit-fields_high k q r i h,
        bit-fields_high k q 0 i (two_pow-pos k),
        ap (λ (w : ℕ). bit w (k + i)) {x = q * 2 ^ k + 0} {y = q * 2 ^ k} (omega arith),
        bit-fields_high k (2 ^ n - 1) 0 i (two_pow-pos k),
        ap (λ (w : ℕ). bit w (k + i)) {x = (2 ^ n - 1) * 2 ^ k + 0} {y = (2 ^ n - 1) * 2 ^ k}
            (omega arith),
        ones_keep n q i hq,
      )
    ]

-- A number without bits from `n` on is below `2 ^ n`.
pub lt_of_bits : (n w : ℕ) → ((i : ℕ) → bit w (n + i) ≡ 0) → w < 2 ^ n
lt_of_bits zero w h = omega (
  arith,
  bit_ext w 0 λ i. ap (λ m. bit w m) {x = i} {y = 0 + i} (omega arith) ∙ h i ∙ sym (zero-bit i),
)
lt_of_bits (suc n) w h = omega (
  arith,
  two_pow-suc n,
  lt_of_bits n (w / 2) λ i. ap (λ m. bit w m) {x = suc (n + i)} {y = suc n + i} (omega arith) ∙ h i,
)

pub bit_or-lt : (n a b : ℕ) → a < 2 ^ n → b < 2 ^ n → bit_or a b < 2 ^ n
bit_or-lt n a b p q =
    lt_of_bits n (bit_or a b)
      λ i. omega (arith, bit-bit_or a b (n + i), bit_of_lt n a i p, bit_of_lt n b i q)

pub bit_and-lt : (n a b : ℕ) → a < 2 ^ n → bit_and a b < 2 ^ n
bit_and-lt n a b p =
    lt_of_bits n (bit_and a b) λ i. omega (arith, bit-bit_and a b (n + i), bit_of_lt n a i p)

-- The low bits of a word.
pub bit_and-one : (v : ℕ) → bit_and v 1 ≡ v % 2
bit_and-one v =
    ap (λ w. bit_and w 1) {x = v} {y = v / 2 * 2 ^ 1 + v % 2} (omega arith)
    ∙ bit_and_low 1 (v / 2) (v % 2) (omega arith)

pub bit_and_ten : (v : ℕ) → bit_and v 0x3ff ≡ v % 1024
bit_and_ten v =
    ap (λ w. bit_and w 0x3ff) {x = v} {y = v / 1024 * 2 ^ 10 + v % 1024} (omega arith)
    ∙ bit_and_low 10 (v / 1024) (v % 1024) (omega arith)

-- The number of the page that a word of 32 bits points into, as an address.
pub bit_and_page : (v : ℕ) → v < 2 ^ 32 → bit_and v 0xffff_f000 ≡ v / 4096 * 4096
bit_and_page v word =
    ap (λ w. bit_and w 0xffff_f000) {x = v} {y = v / 4096 * 2 ^ 12 + v % 4096} (omega arith)
    ∙ bit_and_high 12 20 (v / 4096) (v % 4096) (omega arith) (omega arith)
