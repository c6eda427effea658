-- ===== src/Mm/Pmm/Boot/Ranges.antt =====
-- The loops of `pmm_init` over the frames of a range.
use holyos.Base.{
  ℕ, zero, suc, ◌+◌, ◌*◌, ◌/◌, ◌%◌, ◌^◌, ◌<◌, ◌≤◌, ◌≡◌, ◌≢◌, ◌⊎◌, inl, refl, ◌∙◌, ap, List, done,
  fault, u32, arith, length, replicate, length-set, get_or-replicate, bit, bit_and-lt, bit_or-lt,
  complement, bit-ones,
}
use native.Mathlib.Decide.{dec_lt, ℕ_discrete}
use holyos.Mm.Pmm.{pmm_bits_per_entry, entry, mask}
use holyos.Mm.Pmm.Frames.{
  used, Covers, put, set_word, clear_word, mask-lt, pmm_clear_bit-put, pmm_set_bit-put,
  pmm_clear_bit-fault, used-clear_self, used-clear_ne, used-set_self, used-set_ne,
}
use holyos.Mm.Pmm.Valid.{AllWords, AllWords-set, AllWords-get_or}
use holyos.Mm.Pmm.Boot.{clear_range, reserve_range}

-- `bitmap'` is `bitmap` with the `rounds` frames from `block` on given the mark `m`.
pub record Marked (m rounds block : ℕ) (bitmap bitmap' : List ℕ) : Type 0 where
  pub same_length : length bitmap' ≡ length bitmap
  pub words : AllWords bitmap'
  pub inside : (j : ℕ) → block ≤ j → j < block + rounds → used bitmap' j ≡ m
  pub outside : (j : ℕ) → (j < block) ⊎ (block + rounds ≤ j) → used bitmap' j ≡ used bitmap j

Marked-step :
    {m rounds block : ℕ} {bitmap middle bitmap' : List ℕ}
    → length middle ≡ length bitmap
    → used middle block ≡ m
    → ((j : ℕ) → j ≢ block → used middle j ≡ used bitmap j)
    → Marked m rounds (block + 1) middle bitmap'
    → Marked m (suc rounds) block bitmap bitmap'
Marked-step {m} {rounds} {block} {bitmap} {middle} same this others rest = record {
  same_length = rest.same_length ∙ same;
  words = rest.words;
  inside = λ j low high. elim (ℕ_discrete j block) [
    | yes e ↦ rest.outside j (inl (omega arith)) ∙ ap (λ i. used middle i) e ∙ this
    | no ne ↦ rest.inside j (omega arith) (omega arith)
  ];
  outside = λ j away. rest.outside j (ground (arith, away)) ∙ others j (ground (arith, away));
}

pub clear_range-Marked :
    (rounds block : ℕ) (bitmap : List ℕ)
    → block + rounds ≤ length bitmap * pmm_bits_per_entry
    → AllWords bitmap
    → (bitmap' : List ℕ) × (clear_range rounds block bitmap ≡ done bitmap')
      × Marked 0 rounds block bitmap bitmap'
unfolding clear_range
clear_range-Marked zero block bitmap fits words = (
  bitmap,
  refl,
  record {
    same_length = refl;
    words = words;
    inside = λ j low high. absurd (omega arith);
    outside = λ j away. refl;
  },
)
clear_range-Marked (suc rounds) block bitmap fits words =
    let middle = put bitmap block (clear_word bitmap block) in
    let same : length middle ≡ length bitmap =
      length-set bitmap (block / pmm_bits_per_entry) (clear_word bitmap block) in
    let covers : Covers bitmap block = omega arith in
    let (bitmap', returned, rest) = clear_range-Marked rounds (block + 1) middle (omega arith) (
      AllWords-set bitmap (block / 32) (clear_word bitmap block) words (
        bit_and-lt 32 (entry bitmap block) (complement 32 (mask block))
          (AllWords-get_or bitmap (block / 32) words))) in
    (
      bitmap',
      rw (pmm_clear_bit-put block bitmap covers) returned,
      Marked-step same (used-clear_self bitmap block covers)
          (λ j ne. used-clear_ne bitmap block j covers ne) rest,
    )

pub reserve_range-Marked :
    (rounds block : ℕ) (bitmap : List ℕ) (used_blocks : ℕ)
    → block + rounds ≤ length bitmap * pmm_bits_per_entry
    → AllWords bitmap
    → used_blocks + rounds < 2 ^ 32
    → (bitmap' : List ℕ) × (reserve_range rounds block bitmap used_blocks
        ≡ done (bitmap', used_blocks + rounds))
      × Marked 1 rounds block bitmap bitmap'
unfolding reserve_range
reserve_range-Marked zero block bitmap n fits words small = (
  bitmap,
  ap (λ k. done (bitmap, k)) {x = n} {y = n + 0} (omega arith),
  record {
    same_length = refl;
    words = words;
    inside = λ j low high. absurd (omega arith);
    outside = λ j away. refl;
  },
)
reserve_range-Marked (suc rounds) block bitmap n fits words small =
    let middle = put bitmap block (set_word bitmap block) in
    let same : length middle ≡ length bitmap =
      length-set bitmap (block / pmm_bits_per_entry) (set_word bitmap block) in
    let covers : Covers bitmap block = omega arith in
    let (bitmap', returned, rest) =
      reserve_range-Marked rounds (block + 1) middle (n + 1) (omega arith)
        (AllWords-set bitmap (block / 32) (set_word bitmap block) words (
          bit_or-lt 32 (entry bitmap block) (mask block) (AllWords-get_or bitmap (block / 32) words)
            (mask-lt block)))
        (omega arith) in
    (
      bitmap',
      rw (pmm_set_bit-put block bitmap covers) (
          ap (λ k. reserve_range rounds (block + 1) middle k) {x = u32 (n + 1)} {y = n + 1}
            (omega arith)
          ∙ returned
          ∙ ap (λ k. done (bitmap', k)) {x = n + 1 + rounds} {y = n + suc rounds} (omega arith)),
      Marked-step same (used-set_self bitmap block covers)
          (λ j ne. used-set_ne bitmap block j covers ne) rest,
    )

-- Clearing a range that goes past the bitmap writes outside it.
pub clear_range-fault :
    (rounds block : ℕ) (bitmap : List ℕ)
    → length bitmap * pmm_bits_per_entry < block + rounds
    → 0 < rounds
    → clear_range rounds block bitmap ≡ fault
unfolding clear_range
clear_range-fault zero block bitmap past some = absurd (omega arith)
clear_range-fault (suc rounds) block bitmap past some =
    elim (dec_lt (block / pmm_bits_per_entry) (length bitmap)) [
      | yes covers ↦
          let same = length-set bitmap (block / pmm_bits_per_entry) (clear_word bitmap block) in
          rw (pmm_clear_bit-put block bitmap covers) (
            clear_range-fault rounds (block + 1) (put bitmap block (clear_word bitmap block))
              (omega arith) (omega arith))
      | no out ↦ rw (pmm_clear_bit-fault block bitmap out)
    ]

-- Before the third walk every frame is marked used.
pub ones-used : (n j : ℕ) → j / pmm_bits_per_entry < n → used (replicate n 0xffff_ffff) j ≡ 1
ones-used n j h =
    ap (λ w. bit w (j % pmm_bits_per_entry))
      (get_or-replicate n (j / pmm_bits_per_entry) 0xffff_ffff 0 h)
    ∙ bit-ones 32 (j % pmm_bits_per_entry) (omega arith)

pub ones-AllWords : (n : ℕ) → AllWords (replicate n 0xffff_ffff)
ones-AllWords zero = tt
ones-AllWords (suc n) = (omega arith, ones-AllWords n)
