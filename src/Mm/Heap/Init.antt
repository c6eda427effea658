-- ===== src/Mm/Heap/Init.antt =====
-- `heap_init`.
use holyos.Base.{ℕ, ◌+◌, ◌-◌, ◌^◌, ◌<◌, ◌≤◌, ◌≡◌, refl, [], ◌∷◌, arith, ==_ne}
use holyos.Cpu.Spinlock.{spinlock_init}
use holyos.Mm.Heap.{Heap, header_size, page_size, heap_init}
use holyos.Mm.Heap.Source.{PageSource}
use holyos.Mm.Heap.Blocks.{Holds}
use holyos.Mm.Heap.Split.{piece}

module _ {S : Type 0} (source : PageSource S) where
  -- The page that `heap_init` gets.
  abbrev pub first_page : Heap S → ℕ
  first_page s = (source.vmm_alloc_page s.pages).0

  -- With a page above the first 16 bytes and below the end of the address space, `heap_init` leaves a
  -- heap of one free block of 4080 bytes and a free lock; without a page it leaves an empty list.
  pub heap_init-Holds :
      (s : Heap S)
      → (header_size ≤ first_page s
          → first_page s + page_size < 2 ^ 32
          → Holds 0 (heap_init source s) (piece (first_page s) (page_size - header_size) 0 ∷ []))
        × (first_page s ≡ 0 → (heap_init source s).heap_start ≡ 0)
  unfolding heap_init spinlock_init
  heap_init-Holds s = (
    λ low bound.
        let addr = first_page s in
        rw (==_ne addr 0 (omega arith)) (record {
          start = refl;
          chain = (omega arith, ground arith, tt);
          tiles = (refl, omega arith);
          ends = refl;
          low = low;
          bound = bound;
          locked = refl;
        }),
    λ none_left. ground arith,
  )
