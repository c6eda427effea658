-- ===== src/Mm/Pmm/Count.antt =====
-- The counter `pmm_used_blocks` against the number of frames that are used.
use holyos.Base.{
  ℕ, zero, suc, ◌+◌, ◌-◌, ◌/◌, ◌<◌, ◌≤◌, ◌≡◌, ◌≢◌, refl, ◌∙◌, ap, sym, done, arith, sub32, leb,
  if◌then◌else◌,
}
use native.Mathlib.Decide.{ℕ_discrete, dec_lt}
use holyos.Mm.Pmm.{Pmm, pmm_block_size, pmm_alloc_page, pmm_free_page, pmm_get_free_page_count}
use holyos.Mm.Pmm.Frames.{used, used-le-one, used-clear_self, used-clear_ne}
use holyos.Mm.Pmm.Valid.{IsValid, covered}
use holyos.Mm.Pmm.Alloc.{
  taken, alloc-taken, used-taken_self, used-taken_ne, max_blocks-taken, used_blocks-taken,
}
use holyos.Mm.Pmm.Free.{
  freed, free_outcome, free_lem, free_outcome-outside, free_outcome-clear, free_outcome-freed,
}

-- How many of the first `n` frames are used, and how many are free.
abbrev pub total : (ℕ → ℕ) → ℕ → ℕ
total frame zero = 0
total frame (suc n) = frame n + total frame n

total-le : (frame : ℕ → ℕ) (n : ℕ) → ((j : ℕ) → frame j ≤ 1) → total frame n ≤ n
total-le frame zero h = omega arith
total-le frame (suc n) h = omega (arith, h n, total-le frame n h)

total_same : (f g : ℕ → ℕ) (n : ℕ) → ((j : ℕ) → j < n → f j ≡ g j) → total f n ≡ total g n
total_same f g zero h = refl
total_same f g (suc n) h =
    omega (arith, h n (omega arith), total_same f g n λ j p. h j (omega arith))

-- Changing one frame changes the total by that much.
total_change :
    (f g : ℕ → ℕ) (n b : ℕ)
    → b < n
    → ((j : ℕ) → j ≢ b → f j ≡ g j)
    → total f n + g b ≡ total g n + f b
total_change f g zero b h same = absurd (omega arith)
total_change f g (suc n) b h same = elim (ℕ_discrete n b) [
  | yes e ↦ omega (
    arith,
    total_same f g n λ j p. same j (omega arith),
    ap (λ (m : ℕ). f m) e,
    ap (λ (m : ℕ). g m) e,
  )
  | no ne ↦ omega (arith, same n ne, total_change f g n b (omega arith) same)
]

abbrev pub used_frames : Pmm → ℕ
used_frames s = total (used s.bitmap) s.max_blocks

-- The counter says how many frames are used.
abbrev pub IsAccurate : Pmm → Type 0
IsAccurate s = s.used_blocks ≡ used_frames s

done-injective : {s s' : Pmm} → done s ≡ done s' → s ≡ s'
done-injective h = cc

pub used_frames-le : (s : Pmm) → used_frames s ≤ s.max_blocks
used_frames-le s = total-le (used s.bitmap) s.max_blocks (used-le-one s.bitmap)

-- On a valid allocator with an accurate counter, `pmm_get_free_page_count` is the number of frames that are free.
pub free_page_count_lem :
    {s : Pmm} → IsValid s → IsAccurate s → pmm_get_free_page_count s + used_frames s ≡ s.max_blocks
unfolding pmm_get_free_page_count
free_page_count_lem {s} v a = omega (arith, used_frames-le s, v.small)

used_frames-taken :
    {s : Pmm}
    → IsValid s
    → (block : ℕ) → block < s.max_blocks
    → used s.bitmap block ≡ 0
    → used_frames (taken s block) ≡ used_frames s + 1
used_frames-taken {s} v block h clear =
    ap (λ n. total (used (taken s block).bitmap) n) (max_blocks-taken s block)
    ∙ omega (
      arith,
      used-taken_self v block h,
      total_change (used (taken s block).bitmap) (used s.bitmap) s.max_blocks block h
          λ j ne. used-taken_ne v block j h ne,
    )

-- On a valid allocator an allocation that returns a page makes exactly one more frame used; if the counter was accurate, it
-- stays so, and one frame fewer is reported free.
pub alloc-Count :
    {s : Pmm} {page : ℕ} {s' : Pmm}
    → IsValid s
    → pmm_alloc_page s ≡ done (page, s')
    → page ≢ 0
    → (used_frames s' ≡ used_frames s + 1)
      × (IsAccurate s → IsAccurate s')
      × (IsAccurate s → pmm_get_free_page_count s' + 1 ≡ pmm_get_free_page_count s)
unfolding pmm_get_free_page_count
alloc-Count {s} {page} {s'} v e nonzero =
    let (block, at, after, inside, clear) = alloc-taken v e nonzero in
    let more = used_frames-taken v block inside clear in
    let bound = used_frames-le (taken s block) in
    let size = max_blocks-taken s block in
    let counter = used_blocks-taken s block in
    let small = v.small in rw after (more, λ a. omega arith, λ a. omega arith)

used_frames-freed :
    {s : Pmm}
    → IsValid s
    → (block : ℕ) → block < s.max_blocks
    → used s.bitmap block ≡ 1
    → used_frames (freed s block) + 1 ≡ used_frames s
unfolding freed
used_frames-freed {s} v block h set = omega (
  arith,
  used-clear_self s.bitmap block (covered v block h),
  total_change (used (freed s block).bitmap) (used s.bitmap) s.max_blocks block h
      λ j ne. used-clear_ne s.bitmap block j (covered v block h) ne,
)

used_blocks-freed : (s : Pmm) (block : ℕ) → (freed s block).used_blocks ≡ sub32 s.used_blocks 1
unfolding freed
used_blocks-freed s block = refl

free_outcome-Count :
    {s : Pmm}
    → IsValid s
    → IsAccurate s
    → (block : ℕ)
    → IsAccurate (free_outcome s block)
      × (used_frames (free_outcome s block)
          ≡ (if leb s.max_blocks block then used_frames s else used_frames s - used s.bitmap block))
free_outcome-Count {s} v a block = elim (dec_lt block s.max_blocks) [
  | no h ↦ rw (free_outcome-outside s block (omega arith)) (a, ground arith)
  | yes h ↦ elim (ℕ_discrete (used s.bitmap block) 1) [
    | yes one ↦
        let fewer = used_frames-freed v block h one in
        let counter = used_blocks-freed s block in
        let small = v.counter in rw (free_outcome-freed s block h one) (omega arith, ground arith)
    | no clear ↦
        let bound = used-le-one s.bitmap block in
        rw (free_outcome-clear s block clear) (a, ground arith)
  ]
]

-- On a valid allocator freeing any address keeps an accurate counter accurate, and makes one frame fewer used exactly when
-- the frame of the address exists and was used.
pub free-Count :
    {s : Pmm} (page : ℕ) {s' : Pmm}
    → IsValid s
    → IsAccurate s
    → pmm_free_page page s ≡ done s'
    → IsAccurate s'
      × (used_frames s' ≡ (
          if leb s.max_blocks (page / pmm_block_size)
          then used_frames s
          else used_frames s - used s.bitmap (page / pmm_block_size)))
free-Count {s} page {s'} v a e =
    let same = done-injective (sym e ∙ free_lem page v) in
    rw same (free_outcome-Count v a (page / pmm_block_size))
