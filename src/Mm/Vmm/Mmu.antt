-- ===== src/Mm/Vmm/Mmu.antt =====
-- The address translation of the processor for 32-bit paging with pages of 4 KiB: two levels of tables
-- of 1024 words, whose lowest bit says that an entry is present. Rights are not modelled.
use holyos.Base.{ℕ, ◌+◌, ◌*◌, ◌/◌, ◌%◌, ◌^◌, ◌==◌, if◌then◌else◌, Option, none, some}

-- The entry of the directory for an address, and the table that an entry points to.
abbrev pub directory_entry : (ℕ → ℕ) → ℕ → ℕ → ℕ
directory_entry ram cr3 i = ram (cr3 + 4 * i)

abbrev pub frame : ℕ → ℕ
frame entry = entry / 4096 * 4096

-- The physical address for a virtual one, if its page is present.
unfoldable pub translate : (ℕ → ℕ) → ℕ → ℕ → Option ℕ
translate ram cr3 addr =
    let entry = directory_entry ram cr3 (addr / 2 ^ 22 % 1024) in
    let page = ram (frame entry + 4 * (addr / 2 ^ 12 % 1024)) in
    if entry % 2 == 0 then none else if page % 2 == 0 then none else some (frame page + addr % 4096)
