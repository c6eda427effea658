-- ===== src/Mm/Pmm/Boot.antt =====
-- `pmm_init` of kernel/mm/pmm.c. The memory map is the list of the entries that its walk visits; the
-- walk itself, and the log lines, are left out, but for the division that the last one makes. The map
-- is taken not to lie in the memory that becomes the bitmap.
pub mod Ranges
pub mod Marks
pub mod Ready
pub mod Beyond
use holyos.Base.{
  ℕ, zero, suc, ◌+◌, ◌-◌, ◌*◌, ◌/◌, ◌%◌, ◌^◌, List, [], ◌∷◌, Bool, true, false, ◌&&◌, Run, done,
  spins, fault, ◌>>=◌, ◌==◌, ltb, leb, if◌then◌else◌, u32, replicate, length,
}
use holyos.Cpu.Spinlock.{spinlock_init}
use holyos.Mm.Pmm.{Pmm, pmm_block_size, pmm_bits_per_entry, pmm_clear_bit, pmm_set_bit}

-- `multiboot_memory_map_t`; `addr` and `len` have 64 bits.
pub record MmapEntry : Type 0 where
  pub addr : ℕ
  pub len : ℕ
  pub type : ℕ

abbrev pub multiboot_memory_available : ℕ
multiboot_memory_available = 1

abbrev pub is_available : MmapEntry → Bool
is_available e = e.type == multiboot_memory_available

abbrev pub end_address : MmapEntry → ℕ
end_address e = (e.addr + e.len) % 2 ^ 64

-- The first walk: the highest end of available memory, as a `uint32_t`.
unfoldable pub scan_max : List MmapEntry → ℕ → ℕ
scan_max [] max_mem = max_mem
scan_max (e ∷ es) max_mem =
    let end_addr = u32 (end_address e) in
    scan_max es (if is_available e && ltb max_mem end_addr then end_addr else max_mem)

-- The second walk: the first available region that is long enough for the bitmap; 0 if there is none.
unfoldable pub place_bitmap : List MmapEntry → ℕ → ℕ
place_bitmap [] bitmap_size = 0
place_bitmap (e ∷ es) bitmap_size =
    let later = place_bitmap es bitmap_size in
    if is_available e && leb (u32 (bitmap_size * 4)) e.len then u32 e.addr else later

-- `for (block = start; block < end; block++) pmm_clear_bit(block);` with `rounds` blocks left.
unfoldable pub clear_range : ℕ → ℕ → List ℕ → Run (List ℕ)
unfolding pmm_clear_bit
clear_range zero block bitmap = done bitmap
clear_range (suc rounds) block bitmap = do
  bitmap' ← pmm_clear_bit block bitmap
  clear_range rounds (block + 1) bitmap'

abbrev pub start_block : MmapEntry → ℕ
start_block e = u32 (e.addr / pmm_block_size)

abbrev pub end_block : MmapEntry → ℕ
end_block e = u32 (end_address e / pmm_block_size)

-- The third walk.
unfoldable pub free_available : List MmapEntry → List ℕ → Run (List ℕ)
unfolding clear_range
free_available [] bitmap = done bitmap
free_available (e ∷ es) bitmap =
    (if is_available e
      then clear_range (end_block e - start_block e) (start_block e) bitmap
      else done bitmap)
    >>= λ bitmap'. free_available es bitmap'

-- The loop over the bitmap's own blocks.
unfoldable pub reserve_range : ℕ → ℕ → List ℕ → ℕ → Run (List ℕ × ℕ)
unfolding pmm_set_bit
reserve_range zero block bitmap used_blocks = done (bitmap, used_blocks)
reserve_range (suc rounds) block bitmap used_blocks = do
  bitmap' ← pmm_set_bit block bitmap
  reserve_range rounds (block + 1) bitmap' (u32 (used_blocks + 1))

abbrev pub bitmap_entries : List MmapEntry → ℕ
bitmap_entries es =
    u32 (scan_max es 0 / pmm_block_size + pmm_bits_per_entry - 1) / pmm_bits_per_entry

abbrev pub bitmap_address : List MmapEntry → ℕ
bitmap_address es = place_bitmap es (bitmap_entries es)

abbrev pub bitmap_start : List MmapEntry → ℕ
bitmap_start es = bitmap_address es / pmm_block_size

-- `bitmap_end - bitmap_start`
abbrev pub bitmap_blocks : List MmapEntry → ℕ
bitmap_blocks es = bitmap_entries es * 4 / pmm_block_size + 1

-- From the boot state, in which the counter is 0. The last log line divides by `pmm_max_blocks`.
unfoldable pub pmm_init : List MmapEntry → Run Pmm
unfolding free_available reserve_range spinlock_init
pmm_init es =
    let max_blocks = scan_max es 0 / pmm_block_size in
    do
      bitmap ← free_available es (replicate (bitmap_entries es) 0xffff_ffff)
      (bitmap', used_blocks) ← reserve_range (bitmap_blocks es) (bitmap_start es) bitmap 0
      if max_blocks == 0
          then fault
          else done (record {
            lock = spinlock_init 0;
            bitmap = bitmap';
            max_blocks = max_blocks;
            used_blocks = used_blocks;
          })
