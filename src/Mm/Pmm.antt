-- ===== src/Mm/Pmm.antt =====
-- kernel/mm/pmm.c: the page frame allocator. The bitmap is a list of its `uint32_t` entries; an access
-- outside it is a fault. `Boot` is `pmm_init`.
pub mod Frames
pub mod Valid
pub mod Alloc
pub mod Free
pub mod Count
pub mod Owners
pub mod Boot
use holyos.Base.{
  ℕ, zero, suc, ◌+◌, ◌-◌, ◌*◌, ◌/◌, ◌%◌, ◌^◌, List, Bool, true, false, not, ◌&&◌, Run, done, spins,
  fault, ◌>>=◌, ◌==◌, ◌!=◌, ltb, leb, if◌then◌else◌, u32, sub32, bit_and, bit_or, complement,
  length, get_or, set,
}
use holyos.Cpu.Spinlock.{spinlock_lock, spinlock_unlock}

abbrev pub pmm_block_size : ℕ
pmm_block_size = 4096

abbrev pub pmm_bits_per_entry : ℕ
pmm_bits_per_entry = 32

-- The static variables; `bitmap` is the array that `pmm_bitmap` points to.
pub record Pmm : Type 0 where
  pub lock : ℕ
  pub bitmap : List ℕ
  pub max_blocks : ℕ
  pub used_blocks : ℕ

-- `1 << (bit % PMM_BITS_PER_ENTRY)`
abbrev pub mask : ℕ → ℕ
mask block = 2 ^ (block % pmm_bits_per_entry)

abbrev pub entry : List ℕ → ℕ → ℕ
entry bitmap block = get_or bitmap (block / pmm_bits_per_entry) 0

abbrev pub in_bitmap : List ℕ → ℕ → Bool
in_bitmap bitmap block = ltb (block / pmm_bits_per_entry) (length bitmap)

unfoldable pub pmm_set_bit : ℕ → List ℕ → Run (List ℕ)
pmm_set_bit block bitmap =
    if in_bitmap bitmap block
    then done (set bitmap (block / pmm_bits_per_entry) (bit_or (entry bitmap block) (mask block)))
    else fault

unfoldable pub pmm_clear_bit : ℕ → List ℕ → Run (List ℕ)
pmm_clear_bit block bitmap =
    if in_bitmap bitmap block
    then done (
        set bitmap (block / pmm_bits_per_entry)
          (bit_and (entry bitmap block) (complement 32 (mask block))))
    else fault

-- The `int` that the source returns, as the test that its callers make of it.
unfoldable pub pmm_test_bit : ℕ → List ℕ → Run Bool
pmm_test_bit block bitmap =
    if in_bitmap bitmap block then done (bit_and (entry bitmap block) (mask block) != 0) else fault

unfoldable pub is_page_aligned : ℕ → Bool
is_page_aligned addr = bit_and addr (pmm_block_size - 1) == 0

-- The body of the loop for a block that is free and may be taken.
take_block : ℕ → Pmm → Run (ℕ × Pmm)
unfolding pmm_set_bit
take_block block s = do
  bitmap ← pmm_set_bit block s.bitmap
  done (
    u32 (block * pmm_block_size),
    record s { bitmap = bitmap; used_blocks = u32 (s.used_blocks + 1) },
  )

-- The loop from `block` on, with `rounds` blocks left. NULL is 0.
alloc_loop : Bool → ℕ → ℕ → Pmm → Run (ℕ × Pmm)
unfolding pmm_test_bit is_page_aligned take_block
alloc_loop aligned_only zero block s = done (0, s)
alloc_loop aligned_only (suc rounds) block s =
    let later = alloc_loop aligned_only rounds (block + 1) s in
    let refused = aligned_only && not (is_page_aligned (u32 (block * pmm_block_size))) in
    pmm_test_bit block s.bitmap >>= λ used.
    if used then later else if refused then later else take_block block s

unfoldable pub pmm_alloc_page_internal : Bool → Pmm → Run (ℕ × Pmm)
unfolding spinlock_lock spinlock_unlock alloc_loop
pmm_alloc_page_internal aligned_only s = do
  held ← spinlock_lock s.lock
  (addr, s') ← alloc_loop aligned_only s.max_blocks 0 (record s { lock = held })
  done (addr, record s' { lock = spinlock_unlock s'.lock })

unfoldable pub pmm_alloc_page : Pmm → Run (ℕ × Pmm)
unfolding pmm_alloc_page_internal
pmm_alloc_page s = pmm_alloc_page_internal false s

unfoldable pub pmm_alloc_page_aligned : Pmm → Run (ℕ × Pmm)
unfolding pmm_alloc_page_internal
pmm_alloc_page_aligned s = pmm_alloc_page_internal true s

-- No lock is taken.
unfoldable pub pmm_free_page : ℕ → Pmm → Run Pmm
unfolding pmm_test_bit pmm_clear_bit
pmm_free_page page s =
    let block = page / pmm_block_size in
    if leb s.max_blocks block then done s else do
      used ← pmm_test_bit block s.bitmap
      let freed = (do
        bitmap ← pmm_clear_bit block s.bitmap
        done (record s { bitmap = bitmap; used_blocks = sub32 s.used_blocks 1 }))
      if used then freed else done s

unfoldable pub pmm_get_free_page_count : Pmm → ℕ
pmm_get_free_page_count s = sub32 s.max_blocks s.used_blocks

unfoldable pub pmm_is_page_free : ℕ → Pmm → Run Bool
unfolding pmm_test_bit
pmm_is_page_free page s =
    let block = page / pmm_block_size in
    if page % pmm_block_size != 0
    then done false
    else if leb s.max_blocks block
    then done false
    else do used ← pmm_test_bit block s.bitmap; done (not used)
