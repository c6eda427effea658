-- ===== src/Mm/Heap/Krealloc.antt =====
-- `krealloc`: in place, or never.
use holyos.Base.{
  ℕ, ◌+◌, ◌<◌, ◌≤◌, ◌≡◌, ◌≢◌, refl, true, false, done, spins, leb, if◌then◌else◌, u32, sub32, arith,
  ==_ne,
}
use holyos.Cpu.Spinlock.{spinlock_lock, spinlock_unlock}
use holyos.Mm.Heap.{
  Heap, heap_magic, header_size, heap_alignment, align, krealloc, kmalloc, unlocked, split_block,
}
use holyos.Mm.Heap.Source.{PageSource}

module _ {S : Type 0} (source : PageSource S) where
  kmalloc-held :
      (fuel size : ℕ) (s : Heap S) → size ≢ 0 → s.lock ≢ 0 → kmalloc source fuel size s ≡ spins
  unfolding kmalloc spinlock_lock
  kmalloc-held fuel size s nonzero held = ground arith

leb_of_lt : (a b : ℕ) → b < a → leb a b ≡ false
leb_of_lt a b h = ground arith

leb_of_le : (a b : ℕ) → a ≤ b → leb a b ≡ true
leb_of_le a b h = ground arith

-- With the lock free, growing a block past its size never returns: `krealloc` calls `kmalloc` while it holds the lock that
-- `kmalloc` waits for.
pub krealloc-spins :
    {S : Type 0} (source : PageSource S) (fuel ptr size : ℕ) (s : Heap S)
    → s.lock ≡ 0
    → ptr ≢ 0
    → size ≢ 0
    → align size ≢ 0
    → (s.ram (sub32 ptr header_size)).magic ≡ heap_magic
    → (s.ram (sub32 ptr header_size)).size < align size
    → krealloc source fuel ptr size s ≡ spins
unfolding krealloc
krealloc-spins source fuel ptr size s free nonzero some aligned magic small =
    rw
      (
        ==_ne ptr 0 nonzero,
        ==_ne size 0 some,
        free,
        magic,
        leb_of_lt (align size) (s.ram (sub32 ptr header_size)).size small,
      )
      (rw (kmalloc-held source fuel (align size) (record s { lock = 1 }) aligned (omega arith)))

-- With the lock free, `krealloc` to a size that, aligned, the block has already returns the same
-- address and frees the lock.
pub krealloc-in_place :
    {S : Type 0} (source : PageSource S) (fuel ptr size : ℕ) (s : Heap S)
    → s.lock ≡ 0
    → ptr ≢ 0
    → size ≢ 0
    → (s.ram (sub32 ptr header_size)).magic ≡ heap_magic
    → align size ≤ (s.ram (sub32 ptr header_size)).size
    → (s' : Heap S) × (krealloc source fuel ptr size s ≡ done (ptr, s')) × (s'.lock ≡ 0)
unfolding krealloc
krealloc-in_place source fuel ptr size s free nonzero some magic large =
    let kept =
      if leb (u32 (align size + header_size + heap_alignment)) (s.ram (sub32 ptr header_size)).size
      then split_block (sub32 ptr header_size) (align size) (record s { lock = 1 })
      else record s { lock = 1 } in
    (
      unlocked kept,
      rw (
        ==_ne ptr 0 nonzero,
        ==_ne size 0 some,
        free,
        magic,
        leb_of_le (align size) (s.ram (sub32 ptr header_size)).size large,
      ),
      unfold unlocked spinlock_unlock in refl,
    )
