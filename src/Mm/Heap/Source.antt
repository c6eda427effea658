-- ===== src/Mm/Heap/Source.antt =====
-- What the heap takes from the virtual memory manager: `vmm_alloc_page` of kernel/mm/vmm.c with its
-- flags fixed, as the heap calls it.
use holyos.Base.{ℕ}

-- `heap_block_t`
pub record Block : Type 0 where
  pub magic : ℕ
  pub size : ℕ
  pub next : ℕ
  pub used : ℕ

-- The address of the page, 0 for none, what its first bytes hold when they are read as a header, and
-- the new state. A page is not cleared.
pub record PageSource (S : Type 0) : Type 0 where
  pub vmm_alloc_page : S → ℕ × Block × S
