-- ===== src/Tests/Blocks.antt =====
-- A heap of one page at 0x2000 with three blocks: 16 bytes in use, 32 free, and the rest in use.
use holyos.Base.{
  ℕ, ◌+◌, ◌<◌, ◌≡◌, ◌≢◌, refl, List, [], ◌∷◌, true, false, done, spins, ◌==◌, if◌then◌else◌, arith,
}
use holyos.Mm.Heap.Init.{heap_init-Holds}
use holyos.Mm.Heap.Restore.{kfree-kmalloc}
use holyos.Mm.Heap.{
  Heap, page_size, align, kmalloc, kfree, krealloc, get_allocated_memory, get_free_memory,
  get_heap_size, expand_loop, heap_init, update,
}
use holyos.Mm.Heap.Source.{Block, PageSource}
use holyos.Mm.Heap.Blocks.{Piece, header, Holds}
use holyos.Mm.Heap.Find.{first_fit, bytes, header_bytes, memory_accounts}
use holyos.Mm.Heap.Split.{piece, align_wraps}
use holyos.Mm.Heap.Merge.{coalesce, kfree-coalesce}
use holyos.Mm.Heap.Coalesce.{NoFreePair, kfree-NoFreePair}
use holyos.Mm.Heap.Kmalloc.{Served, kmalloc-Served}
use holyos.Mm.Heap.Krealloc.{krealloc-spins}
use holyos.Mm.Heap.Expand.{Ascending, page_pieces, expand_loop-Holds}

abbrev low_piece : Piece
low_piece = piece 0x2000 16 1

abbrev gap : Piece
gap = piece 0x2020 32 0

abbrev high_piece : Piece
high_piece = piece 0x2050 4000 1

abbrev blank : Block
blank = record { magic = 0; size = 0; next = 0; used = 0 }

-- Three pages are left to hand out, from 0x3000 on; the state is the next address.
abbrev three_pages : PageSource ℕ
three_pages = record {
  vmm_alloc_page = λ p. if p == 0x6000 then (0, blank, p) else (p, blank, p + page_size);
}

abbrev small_ram : ℕ → Block
small_ram =
    update
      (update (update (λ p. blank) 0x2000 (header low_piece 0x2020)) 0x2020 (header gap 0x2050))
      0x2050 (header high_piece 0)

abbrev small_heap : Heap ℕ
small_heap = record {
  ram = small_ram;
  heap_start = 0x2000;
  heap_end = 0x2050;
  heap_size = 0x1000;
  lock = 0;
  pages = 0x3000;
}

abbrev three_blocks : List Piece
three_blocks = low_piece ∷ gap ∷ high_piece ∷ []

small_heap-Holds : Holds 0 small_heap three_blocks
small_heap-Holds = record {
  start = refl;
  chain = (omega arith, refl, (omega arith, refl, (omega arith, refl, tt)));
  tiles = (refl, (refl, (refl, refl)));
  ends = refl;
  low = omega arith;
  bound = omega arith;
  locked = refl;
}

aligned_20 : align 20 ≡ 32
unfolding align
aligned_20 = refl

gap_found : first_fit (align 20) three_blocks ≢ 0
unfolding first_fit align
gap_found = omega arith

kmalloc-Served_example : Served (align 20) three_blocks (kmalloc three_pages 4 20 small_heap)
kmalloc-Served_example =
    kmalloc-Served three_pages 4 20 three_blocks (omega arith) (omega arith) small_heap-Holds
      gap_found

kfree-coalesce_example :
    (s' : Heap ℕ) × (kfree 3 0x2010 small_heap ≡ done s')
    × Holds 0 s' (coalesce (piece 0x2000 16 0 ∷ gap ∷ high_piece ∷ []))
kfree-coalesce_example =
    kfree-coalesce 3 [] low_piece (gap ∷ high_piece ∷ []) (omega arith) small_heap-Holds

kfree-NoFreePair_example :
    (s' : Heap ℕ) × (gs : List Piece) × (kfree 3 0x2010 small_heap ≡ done s')
    × Holds 0 s' gs
    × NoFreePair gs
    × (s'.heap_start ≡ 0x2000)
    × (s'.heap_size ≡ 0x1000)
    × (bytes true gs + 16 ≡ bytes true three_blocks)
kfree-NoFreePair_example =
    kfree-NoFreePair 3 [] low_piece (gap ∷ high_piece ∷ []) (omega arith) small_heap-Holds

memory_accounts_example :
    (get_allocated_memory 4 small_heap ≡ done (bytes true three_blocks, small_heap))
    × (get_free_memory 4 small_heap ≡ done (bytes false three_blocks, small_heap))
    × (get_heap_size small_heap
        ≡ done (
          bytes true three_blocks + bytes false three_blocks + header_bytes three_blocks,
          small_heap,
        ))
memory_accounts_example = memory_accounts three_blocks 4 (omega arith) small_heap-Holds

align_wraps_example : align 0xffff_fff8 ≡ 0
align_wraps_example = align_wraps 0xffff_fff8 (omega arith) (omega arith)

growing : (align 40 ≢ 0) × (16 < align 40)
unfolding align
growing = (omega arith, omega arith)

krealloc-spins_example : krealloc three_pages 4 0x2010 40 small_heap ≡ spins
krealloc-spins_example =
    krealloc-spins three_pages 4 0x2010 40 small_heap refl (omega arith) (omega arith) growing.0
      refl growing.1

abbrev three_pages-Ascending : Ascending three_pages
three_pages-Ascending = record { next = λ p. p; steps = λ p. ground arith }

expand_loop-Holds_example :
    (s' : Heap ℕ) × (expand_loop three_pages 2 small_heap ≡ done s')
    × Holds 0 s' (low_piece ∷ gap ∷ high_piece ∷ page_pieces three_pages 2 0x3000)
expand_loop-Holds_example =
    expand_loop-Holds three_pages three_pages-Ascending 2 (low_piece ∷ gap ∷ []) high_piece
      small_heap-Holds refl (omega arith)

abbrev before_boot : Heap ℕ
before_boot = record {
  ram = λ p. blank;
  heap_start = 0;
  heap_end = 0;
  heap_size = 0;
  lock = 0;
  pages = 0x3000;
}

-- The heap of one page.
abbrev first_heap : Heap ℕ
first_heap = heap_init three_pages before_boot

first_heap-Holds : Holds 0 first_heap (piece 0x3000 4080 0 ∷ [])
first_heap-Holds = (heap_init-Holds three_pages before_boot).0 (omega arith) (omega arith)

first_page_found : first_fit (align 20) (piece 0x3000 4080 0 ∷ []) ≢ 0
unfolding first_fit align
first_page_found = omega arith

kfree-kmalloc_example :
    (ptr : ℕ) × (s1 : Heap ℕ) × (s2 : Heap ℕ) × (kmalloc three_pages 2 20 first_heap
      ≡ done (ptr, s1))
    × (kfree 2 ptr s1 ≡ done s2)
    × Holds 0 s2 (piece 0x3000 4080 0 ∷ [])
kfree-kmalloc_example =
    kfree-kmalloc three_pages 2 20 (piece 0x3000 4080 0 ∷ []) (omega arith) (omega arith)
      first_heap-Holds tt first_page_found
