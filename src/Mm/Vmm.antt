-- ===== src/Mm/Vmm.antt =====
-- kernel/mm/vmm.c and include/kernel/mm/paging.h: the page tables. `ram` gives the `uint32_t` at a physical
-- address; all accesses of the code are to whole aligned words, and `memset` of a page is taken word by
-- word. `Mmu` is the address translation of the processor.
pub mod Mmu
pub mod Tables
pub mod Init
pub mod Map
pub mod Entry
pub mod Pages
pub mod Unmap
use holyos.Base.{
  ℕ, zero, suc, ◌+◌, ◌-◌, ◌*◌, ◌/◌, ◌%◌, ◌^◌, Bool, true, false, Run, done, spins, fault, ◌>>=◌,
  ◌==◌, ◌!=◌, if◌then◌else◌, u32, bit_and, bit_or, Option, none, some,
}
use holyos.Mm.Pmm.{Pmm, pmm_alloc_page_aligned, pmm_free_page}
use holyos.Mm.Vmm.Mmu.{translate}

abbrev pub page_present : ℕ
page_present = 1

abbrev pub page_write : ℕ
page_write = 2

abbrev pub page_size : ℕ
page_size = 4096

-- The static variables, the memory, the frame allocator, and the two control registers.
pub record Vmm : Type 0 where
  pub ram : ℕ → ℕ
  pub pmm : Pmm
  pub current_page_directory : ℕ
  pub next_virt : ℕ
  pub cr3 : ℕ
  pub paging : Bool

-- Where an access to an address goes: through the tables, once paging is on.
unfoldable pub physical : ℕ → Vmm → Option ℕ
physical addr s = if s.paging then translate s.ram s.cr3 addr else some addr

unfoldable pub load : ℕ → Vmm → Run ℕ
unfolding physical
load addr s = elim (physical addr s) [ none ↦ fault | some p ↦ done (s.ram p) ]

abbrev pub write : (ℕ → ℕ) → ℕ → ℕ → (ℕ → ℕ)
write ram p word q = if p == q then word else ram q

unfoldable pub store : ℕ → ℕ → Vmm → Run Vmm
unfolding physical
store addr word s = elim (physical addr s) [
  | none ↦ fault
  | some p ↦ done (record s { ram = write s.ram p word })
]

-- `memset(page, 0, PAGE_SIZE)`, with the number of words left.
unfoldable pub clear_words : ℕ → ℕ → Vmm → Run Vmm
unfolding store
clear_words zero addr s = done s
clear_words (suc words) addr s = store addr 0 s >>= λ s'. clear_words words (addr + 4) s'

-- `kernel_page_directory[i] = (i * PAGE_SIZE) | PAGE_PRESENT | PAGE_WRITE;` with the number of rounds left.
unfoldable pub identity_loop : ℕ → ℕ → ℕ → Vmm → Run Vmm
unfolding store
identity_loop zero i table s = done s
identity_loop (suc rounds) i table s =
    store (table + 4 * i) (bit_or (bit_or (u32 (i * page_size)) page_present) page_write) s
    >>= λ s'. identity_loop rounds (i + 1) table s'

-- `load_page_directory` and `enable_paging` of kernel/asm/paging.s.
unfoldable pub load_page_directory : ℕ → Vmm → Vmm
load_page_directory pd s = record s { cr3 = pd }

unfoldable pub enable_paging : Vmm → Vmm
enable_paging s = record s { paging = true }

unfoldable pub vmm_init : Vmm → Run Vmm
unfolding load_page_directory enable_paging
vmm_init s = do
  (directory, pmm) ← pmm_alloc_page_aligned s.pmm
  s ← clear_words 1024 directory (record s { pmm = pmm; current_page_directory = directory })
  (table, pmm) ← pmm_alloc_page_aligned s.pmm
  s ← clear_words 1024 table (record s { pmm = pmm })
  s ← identity_loop 1024 0 table s
  s ← store s.current_page_directory (bit_or (bit_or table page_present) page_write) s
  done (enable_paging (load_page_directory s.current_page_directory s))

abbrev pub pd_index : ℕ → ℕ
pd_index virt = bit_and (virt / 2 ^ 22) 0x3ff

abbrev pub pt_index : ℕ → ℕ
pt_index virt = bit_and (virt / 2 ^ 12) 0x3ff

-- `vmm_map_page` from `uint32_t* page_table = ...` on; `flush_tlb` has no effect on memory.
unfoldable pub set_entry : ℕ → ℕ → ℕ → Vmm → Run (Bool × Vmm)
set_entry virt phys flags s = do
  entry ← load (s.current_page_directory + 4 * pd_index virt) s
  s ←
      store (bit_and entry 0xffff_f000 + 4 * pt_index virt)
        (bit_or (bit_or phys flags) page_present) s
  done (true, s)

-- The part for a directory entry that is not present.
unfoldable pub add_table : ℕ → ℕ → Vmm → Run (Bool × Vmm)
add_table virt flags s = do
  (table, pmm) ← pmm_alloc_page_aligned s.pmm
  let s = record s { pmm = pmm }
  let added = (do
    s ← clear_words 1024 table s
    s ←
        store (s.current_page_directory + 4 * pd_index virt)
          (bit_or (bit_or table flags) page_present) s
    done (true, s))
  if table == 0 then done (false, s) else added

unfoldable pub vmm_map_page : ℕ → ℕ → ℕ → Vmm → Run (Bool × Vmm)
vmm_map_page virt phys flags s = do
  entry ← load (s.current_page_directory + 4 * pd_index virt) s
  (ready, s) ← (if bit_and entry page_present == 0 then add_table virt flags s else done (true, s))
  if ready then set_entry virt phys flags s else done (false, s)

unfoldable pub vmm_alloc_page : ℕ → Vmm → Run (ℕ × Vmm)
vmm_alloc_page flags s = do
  (phys, pmm) ← pmm_alloc_page_aligned s.pmm
  let s = record s { pmm = pmm }
  let virt = s.next_virt
  let mapped = (do
    (ok, s) ← vmm_map_page virt phys flags (record s { next_virt = u32 (s.next_virt + page_size) })
    let back = (do pmm ← pmm_free_page phys s.pmm; done (0, record s { pmm = pmm }))
    if ok then done (virt, s) else back)
  if phys == 0 then done (0, s) else mapped

unfoldable pub vmm_free_page : ℕ → Vmm → Run Vmm
vmm_free_page virt s = do
  entry ← load (s.current_page_directory + 4 * pd_index virt) s
  let slot = bit_and entry 0xffff_f000 + 4 * pt_index virt
  let freed = (do
    page ← load slot s
    pmm ← pmm_free_page (bit_and page 0xffff_f000) s.pmm
    store slot 0 (record s { pmm = pmm }))
  if bit_and entry page_present == 0 then done s else freed
