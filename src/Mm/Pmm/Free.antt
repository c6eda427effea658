-- ===== src/Mm/Pmm/Free.antt =====
-- `pmm_free_page` and `pmm_is_page_free`.
use holyos.Base.{
  ℕ, ◌/◌, ◌%◌, ◌^◌, ◌<◌, ◌≤◌, ◌≡◌, ◌≢◌, inl, inr, ◌∙◌, ap, ap₂, List, done, ◌==◌, leb,
  if◌then◌else◌, sub32, arith, set, bit, bit_and, complement, bit-bit_or, bit-bit_and,
  bit-complement, bit-two_pow_self, bit-two_pow_ne, bit-le-one, bit_of_lt, bit_ext, below_or_above,
  bit_and-lt, length-set, set-set, set-get_or, get_or-set_self,
}
use native.Mathlib.Decide.{ℕ_discrete, dec_lt}
use holyos.Mm.Pmm.{Pmm, pmm_block_size, entry, mask, pmm_free_page, pmm_alloc_page}
use holyos.Mm.Pmm.Frames.{
  used, used-le-one, put, set_word, clear_word, mask-lt, pmm_test_bit-used, pmm_clear_bit-put,
  used-clear_self, used-clear_ne,
}
use holyos.Mm.Pmm.Valid.{IsValid, covered, AllWords-set, AllWords-get_or}
use holyos.Mm.Pmm.Alloc.{taken, alloc-taken, taken-IsValid, used-taken_self, max_blocks-taken}

-- Giving a frame back: its bit cleared and the counter moved.
unfoldable pub freed : Pmm → ℕ → Pmm
freed s block = record s {
  bitmap = put s.bitmap block (clear_word s.bitmap block);
  used_blocks = sub32 s.used_blocks 1;
}

unfoldable pub free_outcome : Pmm → ℕ → Pmm
free_outcome s block =
    if leb s.max_blocks block then s else if used s.bitmap block == 1 then freed s block else s

pub max_blocks-free_outcome :
    (s : Pmm) (block : ℕ) → (free_outcome s block).max_blocks ≡ s.max_blocks
unfolding free_outcome freed
max_blocks-free_outcome s block = ground arith

-- The three cases of a free.
pub free_outcome-outside : (s : Pmm) (block : ℕ) → s.max_blocks ≤ block → free_outcome s block ≡ s
unfolding free_outcome
free_outcome-outside s block h = ground arith

pub free_outcome-clear : (s : Pmm) (block : ℕ) → used s.bitmap block ≢ 1 → free_outcome s block ≡ s
unfolding free_outcome
free_outcome-clear s block h = ground arith

pub free_outcome-freed :
    (s : Pmm) (block : ℕ)
    → block < s.max_blocks
    → used s.bitmap block ≡ 1
    → free_outcome s block ≡ freed s block
unfolding free_outcome
free_outcome-freed s block h one = ground arith

pub free_lem :
    {s : Pmm} (page : ℕ)
    → IsValid s
    → pmm_free_page page s ≡ done (free_outcome s (page / pmm_block_size))
unfolding pmm_free_page free_outcome freed
free_lem {s} page v = ground (
  arith,
  pmm_test_bit-used (page / pmm_block_size) s.bitmap,
  pmm_clear_bit-put (page / pmm_block_size) s.bitmap,
  v.covers,
)

pub freed-IsValid : {s : Pmm} (block : ℕ) → IsValid s → IsValid (freed s block)
unfolding freed
freed-IsValid {s} block v = record {
  free = v.free;
  covers = omega (arith, v.covers, length-set s.bitmap (block / 32) (clear_word s.bitmap block));
  small = v.small;
  words = AllWords-set s.bitmap (block / 32) (clear_word s.bitmap block) v.words (
      bit_and-lt 32 (entry s.bitmap block) (complement 32 (mask block))
        (AllWords-get_or s.bitmap (block / 32) v.words));
  counter = omega arith;
}

pub free_outcome-IsValid : {s : Pmm} (block : ℕ) → IsValid s → IsValid (free_outcome s block)
unfolding free_outcome
free_outcome-IsValid {s} block v = ground (arith, freed-IsValid block v, v)

pub free_outcome-free :
    {s : Pmm}
    → IsValid s
    → (block : ℕ) → block < s.max_blocks
    → used (free_outcome s block).bitmap block ≡ 0
unfolding free_outcome freed
free_outcome-free {s} v block h =
    ground (arith, used-clear_self s.bitmap block (covered v block h), used-le-one s.bitmap block)

pub free_outcome-others :
    {s : Pmm}
    → IsValid s
    → (block j : ℕ) → j ≢ block
    → used (free_outcome s block).bitmap j ≡ used s.bitmap j
free_outcome-others {s} v block j ne = elim (dec_lt block s.max_blocks) [
  | yes h ↦
      unfold free_outcome freed in
      ground (arith, used-clear_ne s.bitmap block j (covered v block h) ne)
  | no h ↦ unfold free_outcome in ground arith
]

free_outcome-twice :
    {s : Pmm}
    → IsValid s
    → (block : ℕ) → free_outcome (free_outcome s block) block ≡ free_outcome s block
unfolding free_outcome
free_outcome-twice {s} v block =
    unfold freed in ground (arith, free_outcome-free v block, used-le-one s.bitmap block)

-- On a valid allocator `pmm_free_page` returns for every address; afterwards the frame of the address is
-- free if it exists, no other frame has changed, freeing it once more changes nothing, and the
-- allocator is valid.
pub pmm_free_page_lem :
    {s : Pmm} (page : ℕ)
    → IsValid s
    → (s' : Pmm) × (pmm_free_page page s ≡ done s')
      × (page / pmm_block_size < s.max_blocks → used s'.bitmap (page / pmm_block_size) ≡ 0)
      × ((j : ℕ) → j ≢ page / pmm_block_size → used s'.bitmap j ≡ used s.bitmap j)
      × (pmm_free_page page s' ≡ done s')
      × IsValid s'
pmm_free_page_lem {s} page v =
    let block = page / pmm_block_size in
    let v' = free_outcome-IsValid block v in
    (
      free_outcome s block,
      free_lem page v,
      λ h. free_outcome-free v block h,
      λ j ne. free_outcome-others v block j ne,
      free_lem page v' ∙ ap (λ t. done t) (free_outcome-twice v block),
      v',
    )

-- Setting a clear bit and clearing it again gives the word back.
clear-set_word :
    (bitmap : List ℕ) (block : ℕ)
    → entry bitmap block < 2 ^ 32
    → used bitmap block ≡ 0
    → bit_and (set_word bitmap block) (complement 32 (mask block)) ≡ entry bitmap block
clear-set_word bitmap block small free =
    bit_ext (bit_and (set_word bitmap block) (complement 32 (mask block))) (entry bitmap block) λ j.
      elim (below_or_above 32 j) [
        | inl low ↦ elim (ℕ_discrete j (block % 32)) [
          | yes e ↦ omega (
            arith,
            bit-bit_and (set_word bitmap block) (complement 32 (mask block)) j,
            bit-complement 32 (mask block) j (mask-lt block) low,
            ap (λ (m : ℕ). bit (mask block) m) e,
            ap (λ (m : ℕ). bit (entry bitmap block) m) e,
            bit-two_pow_self (block % 32),
          )
          | no ne ↦ omega (
            arith,
            bit-bit_and (set_word bitmap block) (complement 32 (mask block)) j,
            bit-bit_or (entry bitmap block) (mask block) j,
            bit-complement 32 (mask block) j (mask-lt block) low,
            bit-two_pow_ne (block % 32) j (omega arith),
            bit-le-one (entry bitmap block) j,
          )
        ]
        | inr (i, e) ↦ omega (
          arith,
          bit-bit_and (set_word bitmap block) (complement 32 (mask block)) j,
          bit-bit_or (entry bitmap block) (mask block) j,
          ap (λ (m : ℕ). bit (entry bitmap block) m) e,
          ap (λ (m : ℕ). bit (mask block) m) e,
          bit_of_lt 32 (entry bitmap block) i small,
          bit_of_lt 32 (mask block) i (mask-lt block),
        )
      ]

freed-taken :
    {s : Pmm} (block : ℕ)
    → IsValid s
    → block < s.max_blocks
    → used s.bitmap block ≡ 0
    → freed (taken s block) block ≡ s
unfolding freed taken
freed-taken {s} block v h free =
    ap₂ (λ bm n. record s { bitmap = bm; used_blocks = n })
      (set-set s.bitmap (block / 32) (set_word s.bitmap block)
          (clear_word (put s.bitmap block (set_word s.bitmap block)) block)
        ∙ ap (λ w. set s.bitmap (block / 32) (bit_and w (complement 32 (mask block))))
            (get_or-set_self s.bitmap (block / 32) (set_word s.bitmap block) 0 (covered v block h))
        ∙ ap (λ w. set s.bitmap (block / 32) w)
            (clear-set_word s.bitmap block (AllWords-get_or s.bitmap (block / 32) v.words) free)
        ∙ set-get_or s.bitmap (block / 32) 0)
      (omega (arith, v.counter))

freed-again :
    {s : Pmm}
    → IsValid s
    → (block : ℕ) → block < s.max_blocks
    → used s.bitmap block ≡ 0
    → free_outcome (taken s block) block ≡ s
freed-again {s} v block h free =
    unfold free_outcome in
    ground (arith, freed-taken block v h free, used-taken_self v block h, max_blocks-taken s block)

-- On a valid allocator, giving back the page that an allocation has just handed out restores the allocator exactly.
pub free-alloc :
    {s : Pmm} {page : ℕ} {s' : Pmm}
    → IsValid s
    → pmm_alloc_page s ≡ done (page, s')
    → page ≢ 0
    → pmm_free_page page s' ≡ done s
free-alloc {s} {page} {s'} v e nonzero =
    let (block, at, after, inside, free) = alloc-taken v e nonzero in
    rw after (
      free_lem page (taken-IsValid block v)
      ∙ ap (λ b. done (free_outcome (taken s block) b)) {x = page / pmm_block_size} {y = block}
          (omega arith)
      ∙ ap (λ t. done t) (freed-again v block inside free))
