-- ===== src/Mm/Pmm/Frames.antt =====
-- The set of used page frames that a bitmap stands for, and what the three bit operations do to it.
use holyos.Base.{
  ℕ, ◌/◌, ◌%◌, ◌^◌, ◌<◌, ◌≤◌, ◌≡◌, ◌≢◌, refl, ◌∙◌, ap, List, done, fault, ◌==◌, arith, bit_and,
  bit_or, bit, bit-le-one, bit-bit_or, bit-bit_and, bit-two_pow_self, bit-two_pow_ne,
  bit-complement, complement, bit_and-two_pow_zero, bit_and-two_pow_ne_zero, two_pow-lt, length,
  get_or, set, get_or-set_self, get_or-set_ne,
}
use holyos.Mm.Pmm.{pmm_bits_per_entry, mask, entry, pmm_set_bit, pmm_clear_bit, pmm_test_bit}
use native.Mathlib.Decide.{ℕ_discrete}

-- 1 for a used frame, 0 for a free one.
abbrev pub used : List ℕ → ℕ → ℕ
used bitmap block = bit (entry bitmap block) (block % pmm_bits_per_entry)

-- The frame has a bit in the bitmap.
abbrev pub Covers : List ℕ → ℕ → Type 0
Covers bitmap block = block / pmm_bits_per_entry < length bitmap

pub used-le-one : (bitmap : List ℕ) (block : ℕ) → used bitmap block ≤ 1
used-le-one bitmap block = bit-le-one (entry bitmap block) (block % pmm_bits_per_entry)

pub pmm_test_bit-used :
    (block : ℕ) (bitmap : List ℕ)
    → Covers bitmap block
    → pmm_test_bit block bitmap ≡ done (used bitmap block == 1)
unfolding pmm_test_bit
pmm_test_bit-used block bitmap h = ground (
  arith,
  bit-le-one (entry bitmap block) (block % pmm_bits_per_entry),
  bit_and-two_pow_zero (entry bitmap block) (block % pmm_bits_per_entry),
  bit_and-two_pow_ne_zero (entry bitmap block) (block % pmm_bits_per_entry),
)

-- The bitmap with the entry of `block` replaced.
abbrev pub put : List ℕ → ℕ → ℕ → List ℕ
put bitmap block word = set bitmap (block / pmm_bits_per_entry) word

-- Replacing an entry touches only the frames of that entry.
used-put :
    (bitmap : List ℕ) (block other word : ℕ)
    → Covers bitmap block
    → ((other / pmm_bits_per_entry ≡ block / pmm_bits_per_entry)
        → used (put bitmap block word) other ≡ bit word (other % pmm_bits_per_entry))
      × ((other / pmm_bits_per_entry ≢ block / pmm_bits_per_entry)
          → used (put bitmap block word) other ≡ used bitmap other)
used-put bitmap block other word h = (
  λ e.
      ap (λ w. bit w (other % pmm_bits_per_entry))
        (ap (λ i. get_or (put bitmap block word) i 0) e
          ∙ get_or-set_self bitmap (block / pmm_bits_per_entry) word 0 h),
  λ ne.
      ap (λ w. bit w (other % pmm_bits_per_entry))
        (get_or-set_ne bitmap (block / pmm_bits_per_entry) (other / pmm_bits_per_entry) word 0
          (λ e. ne (omega arith))),
)

abbrev pub set_word : List ℕ → ℕ → ℕ
set_word bitmap block = bit_or (entry bitmap block) (mask block)

abbrev pub clear_word : List ℕ → ℕ → ℕ
clear_word bitmap block = bit_and (entry bitmap block) (complement 32 (mask block))

pub pmm_set_bit-put :
    (block : ℕ) (bitmap : List ℕ)
    → Covers bitmap block
    → pmm_set_bit block bitmap ≡ done (put bitmap block (set_word bitmap block))
unfolding pmm_set_bit
pmm_set_bit-put block bitmap h = ground arith

pub pmm_clear_bit-put :
    (block : ℕ) (bitmap : List ℕ)
    → Covers bitmap block
    → pmm_clear_bit block bitmap ≡ done (put bitmap block (clear_word bitmap block))
unfolding pmm_clear_bit
pmm_clear_bit-put block bitmap h = ground arith

pub pmm_clear_bit-fault :
    (block : ℕ) (bitmap : List ℕ) → ¬ Covers bitmap block → pmm_clear_bit block bitmap ≡ fault
unfolding pmm_clear_bit
pmm_clear_bit-fault block bitmap h = ground arith

pub used-set_self :
    (bitmap : List ℕ) (block : ℕ)
    → Covers bitmap block
    → used (put bitmap block (set_word bitmap block)) block ≡ 1
used-set_self bitmap block h =
    (used-put bitmap block block (set_word bitmap block) h).0 refl
    ∙ omega (
      arith,
      bit-bit_or (entry bitmap block) (mask block) (block % pmm_bits_per_entry),
      bit-two_pow_self (block % pmm_bits_per_entry),
      bit-le-one (entry bitmap block) (block % pmm_bits_per_entry),
    )

pub used-set_ne :
    (bitmap : List ℕ) (block other : ℕ)
    → Covers bitmap block
    → other ≢ block
    → used (put bitmap block (set_word bitmap block)) other ≡ used bitmap other
used-set_ne bitmap block other h ne =
    elim (ℕ_discrete (other / pmm_bits_per_entry) (block / pmm_bits_per_entry)) [
      | yes e ↦
          (used-put bitmap block other (set_word bitmap block) h).0 e
          ∙ omega (
            arith,
            bit-bit_or (entry bitmap block) (mask block) (other % pmm_bits_per_entry),
            bit-two_pow_ne (block % pmm_bits_per_entry) (other % pmm_bits_per_entry) (omega arith),
            ap (λ (i : ℕ). bit (get_or bitmap i 0) (other % pmm_bits_per_entry)) e,
          )
      | no far ↦ (used-put bitmap block other (set_word bitmap block) h).1 far
    ]

pub mask-lt : (block : ℕ) → mask block < 2 ^ 32
mask-lt block = two_pow-lt (block % pmm_bits_per_entry) 32 (omega arith)

pub used-clear_self :
    (bitmap : List ℕ) (block : ℕ)
    → Covers bitmap block
    → used (put bitmap block (clear_word bitmap block)) block ≡ 0
used-clear_self bitmap block h =
    (used-put bitmap block block (clear_word bitmap block) h).0 refl
    ∙ omega (
      arith,
      bit-bit_and (entry bitmap block) (complement 32 (mask block)) (block % pmm_bits_per_entry),
      bit-two_pow_self (block % pmm_bits_per_entry),
      bit-complement 32 (mask block) (block % pmm_bits_per_entry) (mask-lt block) (omega arith),
    )

pub used-clear_ne :
    (bitmap : List ℕ) (block other : ℕ)
    → Covers bitmap block
    → other ≢ block
    → used (put bitmap block (clear_word bitmap block)) other ≡ used bitmap other
used-clear_ne bitmap block other h ne =
    elim (ℕ_discrete (other / pmm_bits_per_entry) (block / pmm_bits_per_entry)) [
      | yes e ↦
          (used-put bitmap block other (clear_word bitmap block) h).0 e
          ∙ omega (
            arith,
            bit-bit_and (entry bitmap block) (complement 32 (mask block))
                (other % pmm_bits_per_entry),
            bit-two_pow_ne (block % pmm_bits_per_entry) (other % pmm_bits_per_entry) (omega arith),
            bit-complement 32 (mask block) (other % pmm_bits_per_entry) (mask-lt block)
                (omega arith),
            bit-le-one (entry bitmap other) (other % pmm_bits_per_entry),
            ap (λ (i : ℕ). bit (get_or bitmap i 0) (other % pmm_bits_per_entry)) e,
          )
      | no far ↦ (used-put bitmap block other (clear_word bitmap block) h).1 far
    ]
