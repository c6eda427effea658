-- ===== src/Mm/Pmm/Alloc.antt =====
-- `pmm_alloc_page_internal`: the lowest free frame.
use holyos.Base.{
  ℕ, zero, suc, ◌+◌, ◌-◌, ◌*◌, ◌/◌, ◌^◌, ◌<◌, ◌≤◌, ◌≡◌, ◌≢◌, ◌⊎◌, inl, inr, refl, sym, ◌∙◌, ap,
  Bool, true, false, Option, none, some, done, ◌==◌, if◌then◌else◌, u32, arith, length, bit_and,
  bit_and_low, bit_or-lt, length-set, Bool-cases,
}
use holyos.Cpu.Spinlock.{spinlock_lock, spinlock_unlock}
use holyos.Mm.Pmm.{
  Pmm, pmm_block_size, pmm_bits_per_entry, entry, mask, is_page_aligned, take_block, alloc_loop,
  pmm_alloc_page_internal, pmm_alloc_page, pmm_alloc_page_aligned,
}
use holyos.Mm.Pmm.Frames.{
  used, used-le-one, put, set_word, pmm_test_bit-used, pmm_set_bit-put, used-set_self, used-set_ne,
  mask-lt,
}
use holyos.Mm.Pmm.Valid.{IsValid, covered, AllWords-set, AllWords-get_or}

-- The first of `rounds` frames from `block` on that is not used.
pub first_free : (ℕ → ℕ) → ℕ → ℕ → Option ℕ
first_free frame zero block = none
first_free frame (suc rounds) block =
    let later = first_free frame rounds (block + 1) in
    if frame block == 1 then later else some block

-- Taking a frame: its bit set and the counter moved.
unfoldable pub taken : Pmm → ℕ → Pmm
taken s block = record s {
  bitmap = put s.bitmap block (set_word s.bitmap block);
  used_blocks = u32 (s.used_blocks + 1);
}

-- The result for the frame that is found, if one is.
abbrev pub outcome : Pmm → Option ℕ → ℕ × Pmm
outcome s none = (0, s)
outcome s (some block) = (block * pmm_block_size, taken s block)

-- Every frame begins on a page boundary, so the test of `aligned_only` never refuses one.
pub frame-IsAligned : (block : ℕ) → is_page_aligned (block * pmm_block_size) ≡ true
unfolding is_page_aligned
frame-IsAligned block = ground (
  arith,
  bit_and_low 12 block 0,
  ap (λ (a : ℕ). bit_and a (pmm_block_size - 1)) {x = block * pmm_block_size + 0}
      {y = block * pmm_block_size} (omega arith),
)

alloc_loop-first_free :
    (aligned_only : Bool) (rounds block : ℕ) (s : Pmm)
    → block + rounds ≤ 2 ^ 20
    → block + rounds ≤ length s.bitmap * pmm_bits_per_entry
    → alloc_loop aligned_only rounds block s
      ≡ done (outcome s (first_free (used s.bitmap) rounds block))
unfolding alloc_loop first_free take_block taken
alloc_loop-first_free aligned_only zero block s small covers = refl
alloc_loop-first_free aligned_only (suc rounds) block s small covers =
    let address : u32 (block * pmm_block_size) ≡ block * pmm_block_size = omega arith in
    rw (pmm_test_bit-used block s.bitmap (omega arith), address, frame-IsAligned)
      (ground (
        arith,
        alloc_loop-first_free aligned_only rounds (block + 1) s (omega arith) (omega arith),
        pmm_set_bit-put block s.bitmap (omega arith),
      ))

relock :
    (s : Pmm) (o : Option ℕ)
    → done (
      (outcome (record s { lock = 1 }) o).0,
      record (outcome (record s { lock = 1 }) o).1 { lock = 0 },
    )
      ≡ done (outcome (record s { lock = 0 }) o)
unfolding taken
relock s none = refl
relock s (some block) = refl

-- `pmm_alloc_page_internal` returns, whichever of its two callers asks.
pub alloc_lem :
    (aligned_only : Bool) {s : Pmm}
    → IsValid s
    → pmm_alloc_page_internal aligned_only s
      ≡ done (outcome s (first_free (used s.bitmap) s.max_blocks 0))
unfolding pmm_alloc_page_internal spinlock_lock spinlock_unlock taken
alloc_lem aligned_only {s} v = rw (v.free) (
    rw
      (alloc_loop-first_free aligned_only s.max_blocks 0 (record s { lock = 1 })
        (omega (arith, v.small)) (omega (arith, v.covers)))
      (relock s (first_free (used s.bitmap) s.max_blocks 0)))

-- On a valid allocator `pmm_alloc_page_aligned` and `pmm_alloc_page` do the same.
pub aligned-eq : {s : Pmm} → IsValid s → pmm_alloc_page_aligned s ≡ pmm_alloc_page s
unfolding pmm_alloc_page_aligned pmm_alloc_page
aligned-eq v = alloc_lem true v ∙ sym (alloc_lem false v)

first_free-some :
    (frame : ℕ → ℕ) (rounds block : ℕ) {b : ℕ}
    → first_free frame rounds block ≡ some b
    → (block ≤ b)
      × (b < block + rounds)
      × (frame b ≢ 1)
      × ((j : ℕ) → block ≤ j → j < b → frame j ≡ 1)
unfolding first_free
first_free-some frame zero block h = absurd (ground arith)
first_free-some frame (suc rounds) block {b} h = elim (Bool-cases (frame block == 1)) [
  | inl taken_one ↦
      let later = first_free-some frame rounds (block + 1) {b = b} (ground arith) in
      (omega arith, omega arith, later.2, λ j low high. ground (arith, later.3 j))
  | inr free_one ↦ (ground arith, ground arith, ground arith, λ j low high. absurd (ground arith))
]

first_free-none :
    (frame : ℕ → ℕ) (rounds block : ℕ)
    → first_free frame rounds block ≡ none
    → (j : ℕ) → block ≤ j
    → j < block + rounds
    → frame j ≡ 1
unfolding first_free
first_free-none frame zero block h j low high = absurd (omega arith)
first_free-none frame (suc rounds) block h j low high =
    ground (arith, first_free-none frame rounds (block + 1) (ground arith) j)

pub taken-IsValid : {s : Pmm} (block : ℕ) → IsValid s → IsValid (taken s block)
unfolding taken
taken-IsValid {s} block v = record {
  free = v.free;
  covers = omega (arith, v.covers, length-set s.bitmap (block / 32) (set_word s.bitmap block));
  small = v.small;
  words = AllWords-set s.bitmap (block / 32) (set_word s.bitmap block) v.words (
      bit_or-lt 32 (entry s.bitmap block) (mask block)
        (AllWords-get_or s.bitmap (block / 32) v.words) (mask-lt block));
  counter = omega arith;
}

pub max_blocks-taken : (s : Pmm) (block : ℕ) → (taken s block).max_blocks ≡ s.max_blocks
unfolding taken
max_blocks-taken s block = refl

pub used_blocks-taken :
    (s : Pmm) (block : ℕ) → (taken s block).used_blocks ≡ u32 (s.used_blocks + 1)
unfolding taken
used_blocks-taken s block = refl

pub used-taken_self :
    {s : Pmm}
    → IsValid s
    → (block : ℕ) → block < s.max_blocks
    → used (taken s block).bitmap block ≡ 1
unfolding taken
used-taken_self {s} v block h = used-set_self s.bitmap block (covered v block h)

pub used-taken_ne :
    {s : Pmm}
    → IsValid s
    → (block j : ℕ) → block < s.max_blocks
    → j ≢ block
    → used (taken s block).bitmap j ≡ used s.bitmap j
unfolding taken
used-taken_ne {s} v block j h ne = used-set_ne s.bitmap block j (covered v block h) ne

-- What a call of the allocator did: it found every frame used and changed nothing, or it took the
-- lowest free frame.
pub record TookNone (s : Pmm) (result : ℕ × Pmm) : Type 0 where
  pub null : result.0 ≡ 0
  pub unchanged : result.1 ≡ s
  pub all_used : (j : ℕ) → j < s.max_blocks → used s.bitmap j ≡ 1

pub record Took (s : Pmm) (block : ℕ) (result : ℕ × Pmm) : Type 0 where
  pub address : result.0 ≡ block * pmm_block_size
  pub in_range : block < s.max_blocks
  pub was_free : used s.bitmap block ≡ 0
  pub lowest : (j : ℕ) → j < block → used s.bitmap j ≡ 1
  pub now_used : used result.1.bitmap block ≡ 1
  pub others : (j : ℕ) → j ≢ block → used result.1.bitmap j ≡ used s.bitmap j
  pub counted : result.1.used_blocks ≡ u32 (s.used_blocks + 1)
  pub same_size : result.1.max_blocks ≡ s.max_blocks
  pub valid : IsValid result.1

outcome-Took :
    {s : Pmm} (o : Option ℕ)
    → IsValid s
    → first_free (used s.bitmap) s.max_blocks 0 ≡ o
    → TookNone s (outcome s o) ⊎ ((block : ℕ) × Took s block (outcome s o))
outcome-Took {s} none v e = inl (record {
  null = refl;
  unchanged = refl;
  all_used = λ j h. first_free-none (used s.bitmap) s.max_blocks 0 e j (omega arith) (omega arith);
})
outcome-Took {s} (some b) v e =
    let found = first_free-some (used s.bitmap) s.max_blocks 0 {b = b} e in
    let inside : b < s.max_blocks = omega (arith, found.1) in
    inr (
      b,
      record {
        address = refl;
        in_range = inside;
        was_free = omega (arith, used-le-one s.bitmap b, found.2);
        lowest = λ j h. found.3 j (omega arith) h;
        now_used = used-taken_self v b inside;
        others = λ j ne. used-taken_ne v b j inside ne;
        counted = unfold taken in refl;
        same_size = max_blocks-taken s b;
        valid = taken-IsValid b v;
      },
    )

-- On a valid allocator an allocation returns: with NULL, nothing changed and every frame used, or with
-- the address of the lowest free frame, which alone is used afterwards and counted, in a valid state.
pub pmm_alloc_page-Took :
    {s : Pmm}
    → IsValid s
    → (result : ℕ × Pmm) × (pmm_alloc_page s ≡ done result)
      × (TookNone s result ⊎ ((block : ℕ) × Took s block result))
unfolding pmm_alloc_page
pmm_alloc_page-Took {s} v =
    let o = first_free (used s.bitmap) s.max_blocks 0 in
    (outcome s o, alloc_lem false v, outcome-Took o v refl)

plain_lem :
    {s : Pmm}
    → IsValid s
    → pmm_alloc_page s ≡ done (outcome s (first_free (used s.bitmap) s.max_blocks 0))
unfolding pmm_alloc_page
plain_lem v = alloc_lem false v

done-injective : {r r' : ℕ × Pmm} → done r ≡ done r' → (r.0 ≡ r'.0) × (r.1 ≡ r'.1)
done-injective h = (ground arith, ground arith)

outcome-cases :
    {s : Pmm} (o : Option ℕ) {page : ℕ} {s' : Pmm}
    → IsValid s
    → first_free (used s.bitmap) s.max_blocks 0 ≡ o
    → (outcome s o).0 ≡ page
    → (outcome s o).1 ≡ s'
    → page ≢ 0
    → (block : ℕ) × (page ≡ block * pmm_block_size)
      × (s' ≡ taken s block)
      × (block < s.max_blocks)
      × (used s.bitmap block ≡ 0)
outcome-cases {s} none v e p q nonzero = absurd (nonzero (sym p))
outcome-cases {s} (some b) v e p q nonzero =
    let found = first_free-some (used s.bitmap) s.max_blocks 0 {b = b} e in
    (b, sym p, sym q, omega (arith, found.1), omega (arith, used-le-one s.bitmap b, found.2))

-- An allocation that returned a page took a frame that was free.
pub alloc-taken :
    {s : Pmm} {page : ℕ} {s' : Pmm}
    → IsValid s
    → pmm_alloc_page s ≡ done (page, s')
    → page ≢ 0
    → (block : ℕ) × (page ≡ block * pmm_block_size)
      × (s' ≡ taken s block)
      × (block < s.max_blocks)
      × (used s.bitmap block ≡ 0)
alloc-taken {s} v e nonzero =
    let same = done-injective (sym (plain_lem v) ∙ e) in
    outcome-cases (first_free (used s.bitmap) s.max_blocks 0) v refl same.0 same.1 nonzero

-- The same with `pmm_alloc_page_aligned`.
pub aligned-Took :
    {s : Pmm}
    → IsValid s
    → (result : ℕ × Pmm) × (pmm_alloc_page_aligned s ≡ done result)
      × (TookNone s result ⊎ ((block : ℕ) × Took s block result))
aligned-Took v = let (result, e, took) = pmm_alloc_page-Took v in (result, aligned-eq v ∙ e, took)
