-- ===== src/Mm.antt =====
-- kernel/mm: physical pages, virtual pages and the heap.
pub mod Pmm
pub mod Heap
pub mod Vmm
