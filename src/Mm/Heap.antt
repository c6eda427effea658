-- ===== src/Mm/Heap.antt =====
-- kernel/mm/heap.c. `ram` gives the block header at an address; the bytes that a caller stores in its
-- memory are not modelled, and headers are taken not to overlap one another. A loop over the list
-- takes fuel, at least one more than the list has blocks. The virtual pages come from a `PageSource`.
pub mod Source
pub mod Blocks
pub mod Find
pub mod Split
pub mod Merge
pub mod Coalesce
pub mod Kmalloc
pub mod Expand
pub mod Init
pub mod Krealloc
pub mod Restore
use holyos.Base.{
  ℕ, zero, suc, ◌+◌, ◌-◌, ◌*◌, ◌/◌, ◌%◌, ◌^◌, Bool, true, false, not, ◌&&◌, ◌||◌, Run, done, spins,
  fault, ◌>>=◌, ◌==◌, ◌!=◌, ltb, leb, if◌then◌else◌, u32, sub32, bit_and,
}
use holyos.Cpu.Spinlock.{spinlock_init, spinlock_lock, spinlock_unlock}
use holyos.Mm.Heap.Source.{Block, PageSource}

abbrev pub heap_magic : ℕ
heap_magic = 0xdead_beef

abbrev pub heap_expand_size : ℕ
heap_expand_size = 0x10000

abbrev pub heap_alignment : ℕ
heap_alignment = 16

abbrev pub page_size : ℕ
page_size = 4096

-- `sizeof(heap_block_t)` on the 32-bit target.
abbrev pub header_size : ℕ
header_size = 16

-- The static variables, the memory, and the state of the page allocator.
pub record Heap (S : Type 0) : Type 0 where
  pub ram : ℕ → Block
  pub heap_start : ℕ
  pub heap_end : ℕ
  pub heap_size : ℕ
  pub lock : ℕ
  pub pages : S

-- A store to memory.
abbrev pub update : (ℕ → Block) → ℕ → Block → ℕ → Block
update ram p b q = if p == q then b else ram q

-- `(size + HEAP_ALIGNMENT - 1) & ~(HEAP_ALIGNMENT - 1)`
unfoldable pub align : ℕ → ℕ
align size = bit_and (u32 (size + heap_alignment - 1)) (2 ^ 32 - heap_alignment)

abbrev pub is_used : Block → Bool
is_used b = b.used != 0

-- The walk of `find_free_block` from `current` on.
unfoldable pub find_loop : ℕ → (ℕ → Block) → ℕ → ℕ → Run ℕ
find_loop zero ram size current = spins
find_loop (suc fuel) ram size current =
    let b = ram current in
    let later = find_loop fuel ram size b.next in
    if current == 0
    then done 0
    else if not (is_used b) && leb size b.size
    then done current
    else later

-- The walks of `get_allocated_memory` and `get_free_memory`.
unfoldable pub sum_loop : ℕ → Bool → (ℕ → Block) → ℕ → ℕ → Run ℕ
sum_loop zero of_used ram current total = spins
sum_loop (suc fuel) of_used ram current total =
    let b = ram current in
    let counts = if is_used b then of_used else not of_used in
    let later = sum_loop fuel of_used ram b.next (if counts then u32 (total + b.size) else total) in
    if current == 0 then done total else later

module _ {S : Type 0} where
  unfoldable pub find_free_block : ℕ → ℕ → Heap S → Run ℕ
  unfolding find_loop
  find_free_block fuel size s = find_loop fuel s.ram size s.heap_start

  unfoldable pub split_block : ℕ → ℕ → Heap S → Heap S
  split_block block size s =
      let b = s.ram block in
      let new_block = u32 (block + header_size + size) in
      let rest = record b {
        magic = heap_magic;
        size = sub32 (sub32 b.size size) header_size;
        used = 0;
      } in
      let ram = update s.ram new_block rest in
      let front = record (ram block) { size = size; next = new_block } in
      record s {
        ram = update ram block front;
        heap_end = if block == s.heap_end then new_block else s.heap_end;
      }

  unfoldable pub merge_loop : ℕ → ℕ → Heap S → Run (Heap S)
  merge_loop zero current s = spins
  merge_loop (suc fuel) current s =
      let b = s.ram current in
      let n = s.ram b.next in
      let merged = record b { size = u32 (b.size + header_size + n.size); next = n.next } in
      let joined = record s {
        ram = update s.ram current merged;
        heap_end = if n.next == 0 then current else s.heap_end;
      } in
      let again = merge_loop fuel current joined in
      let later = merge_loop fuel b.next s in
      if current == 0 || b.next == 0
      then done s
      else if not (is_used b) && not (is_used n)
      then again
      else later

  unfoldable pub merge_blocks : ℕ → Heap S → Run (Heap S)
  unfolding merge_loop
  merge_blocks fuel s = merge_loop fuel s.heap_start s

  unfoldable pub unlocked : Heap S → Heap S
  unfolding spinlock_unlock
  unlocked s = record s { lock = spinlock_unlock s.lock }

  unfoldable pub get_allocated_memory : ℕ → Heap S → Run (ℕ × Heap S)
  unfolding spinlock_lock sum_loop unlocked
  get_allocated_memory fuel s = do
    held ← spinlock_lock s.lock
    total ← sum_loop fuel true s.ram s.heap_start 0
    done (total, unlocked (record s { lock = held }))

  unfoldable pub get_free_memory : ℕ → Heap S → Run (ℕ × Heap S)
  unfolding spinlock_lock sum_loop unlocked
  get_free_memory fuel s = do
    held ← spinlock_lock s.lock
    total ← sum_loop fuel false s.ram s.heap_start 0
    done (total, unlocked (record s { lock = held }))

  unfoldable pub get_heap_size : Heap S → Run (ℕ × Heap S)
  unfolding spinlock_lock unlocked
  get_heap_size s = do
    held ← spinlock_lock s.lock
    done (s.heap_size, unlocked (record s { lock = held }))

  -- `block->used = flag;`
  unfoldable pub mark : ℕ → ℕ → Heap S → Heap S
  mark block flag s = record s { ram = update s.ram block (record (s.ram block) { used = flag }) }

  unfoldable pub kfree : ℕ → ℕ → Heap S → Run (Heap S)
  unfolding spinlock_lock mark merge_blocks unlocked
  kfree fuel ptr s = if ptr == 0 then done s else do
    held ← spinlock_lock s.lock
    let s = record s { lock = held }
    let block = sub32 ptr header_size
    if (s.ram block).magic != heap_magic
        then done (unlocked s)
        else do s ← merge_blocks fuel (mark block 0 s); done (unlocked s)

module _ {S : Type 0} (source : PageSource S) where
  -- The body of the loop of `heap_expand`, for a page that was had: its header keeps the `used` byte
  -- that the page held before.
  unfoldable pub add_page : ℕ → Block → S → Heap S → Run (Heap S)
  add_page addr old pages s =
      let new_block : Block = record {
        magic = heap_magic;
        size = page_size - header_size;
        next = 0;
        used = old.used;
      } in
      let ram = update s.ram addr new_block in
      if s.heap_end == 0
      then fault
      else done (record s {
        ram = update ram s.heap_end (record (ram s.heap_end) { next = addr });
        heap_end = addr;
        heap_size = u32 (s.heap_size + page_size);
        pages = pages;
      })

  unfoldable pub expand_loop : ℕ → Heap S → Run (Heap S)
  unfolding add_page
  expand_loop zero s = done s
  expand_loop (suc pages) s =
      let (addr, old, rest) = source.vmm_alloc_page s.pages in
      if addr == 0
      then done (record s { pages = rest })
      else (add_page addr old rest s >>= λ s'. expand_loop pages s')

  unfoldable pub heap_expand : ℕ → Heap S → Run (Heap S)
  unfolding expand_loop
  heap_expand size s =
      let required_size = u32 (size + header_size) in
      expand_loop (u32 (required_size + heap_expand_size - 1) / heap_expand_size) s

  unfoldable pub heap_init : Heap S → Heap S
  unfolding spinlock_init
  heap_init s =
      let (addr, old, rest) = source.vmm_alloc_page s.pages in
      let first : Block = record {
        magic = heap_magic;
        size = page_size - header_size;
        next = 0;
        used = 0;
      } in
      let s = record s { lock = spinlock_init s.lock; heap_start = addr; pages = rest } in
      if addr == 0
      then s
      else record s { ram = update s.ram addr first; heap_end = addr; heap_size = page_size }

  -- The end of `kmalloc`, with the block found.
  unfoldable pub take_found : ℕ → ℕ → Heap S → ℕ × Heap S
  unfolding split_block mark unlocked
  take_found block size s =
      let s' =
        if leb (u32 (size + header_size + heap_alignment)) (s.ram block).size
        then split_block block size s
        else s in
      (u32 (block + header_size), unlocked (mark block 1 s'))

  -- `kmalloc` under the lock, with the size aligned.
  unfoldable pub kmalloc_locked : ℕ → ℕ → Heap S → Run (ℕ × Heap S)
  unfolding find_free_block heap_expand take_found
  kmalloc_locked fuel size s = do
    block ← find_free_block fuel size s
    if block != 0 then done (take_found block size s) else do
      s ← heap_expand (u32 (size + header_size)) s
      block ← find_free_block fuel size s
      if block == 0 then done (0, unlocked s) else done (take_found block size s)

  unfoldable pub kmalloc : ℕ → ℕ → Heap S → Run (ℕ × Heap S)
  unfolding spinlock_lock kmalloc_locked align
  kmalloc fuel size s = if size == 0 then done (0, s) else do
    held ← spinlock_lock s.lock
    kmalloc_locked fuel (align size) (record s { lock = held })

  -- The end of `krealloc`, behind its call of `kmalloc`; the copy of the bytes is left out.
  unfoldable pub move_block : ℕ → ℕ → ℕ → Heap S → Run (ℕ × Heap S)
  unfolding mark merge_blocks unlocked
  move_block fuel block new_ptr s =
      if new_ptr == 0
      then done (0, unlocked s)
      else do s ← merge_blocks fuel (mark block 0 s); done (new_ptr, unlocked s)

  unfoldable pub krealloc : ℕ → ℕ → ℕ → Heap S → Run (ℕ × Heap S)
  unfolding spinlock_lock
  krealloc fuel ptr size s =
      if ptr == 0
      then kmalloc fuel size s
      else if size == 0
      then (do s ← kfree fuel ptr s; done (0, s))
      else do
        held ← spinlock_lock s.lock
        let s = record s { lock = held }
        let block = sub32 ptr header_size
        let size = align size
        let kept =
            if leb (u32 (size + header_size + heap_alignment)) (s.ram block).size
            then split_block block size s
            else s
        if (s.ram block).magic != heap_magic
            then done (0, unlocked s)
            else if leb size (s.ram block).size
            then done (ptr, unlocked kept)
            else do (new_ptr, s) ← kmalloc fuel size s; move_block fuel block new_ptr s
