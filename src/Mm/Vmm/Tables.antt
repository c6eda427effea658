-- ===== src/Mm/Vmm/Tables.antt =====
-- The invariant of the page tables: they lie in used frames below 4 MiB, which are mapped to themselves, and
-- no two of them share a frame.
use holyos.Base.{
  ℕ, zero, suc, ◌+◌, ◌*◌, ◌/◌, ◌%◌, ◌^◌, ◌<◌, ◌≤◌, ◌≡◌, ◌≢◌, ◌⊎◌, inl, refl, sym, ◌∙◌, ap, true,
  done, arith, some,
}
use holyos.Mm.Pmm.{Pmm}
use holyos.Mm.Pmm.Frames.{used}
use holyos.Mm.Pmm.Valid
use holyos.Mm.Vmm.{Vmm, physical, load, write, store, clear_words}
use holyos.Mm.Vmm.Mmu.{directory_entry, frame, translate}

-- An address of a frame that is in use.
pub record InUse (pmm : Pmm) (addr : ℕ) : Type 0 where
  pub aligned : addr % 4096 ≡ 0
  pub exists : addr / 4096 < pmm.max_blocks
  pub taken : used pmm.bitmap (addr / 4096) ≡ 1

-- Entry `i` of the directory.
abbrev pub entry_at : Vmm → ℕ → ℕ
entry_at s i = directory_entry s.ram s.current_page_directory i

abbrev pub IsPresent : ℕ → Type 0
IsPresent entry = entry % 2 ≡ 1

pub record IsSound (s : Vmm) : Type 0 where
  pub valid : Valid.IsValid s.pmm
  pub paged : s.paging ≡ true
  pub loaded : s.cr3 ≡ s.current_page_directory
  pub low : s.pmm.max_blocks ≤ 1024
  pub reserved : used s.pmm.bitmap 0 ≡ 1
  pub directory : InUse s.pmm s.current_page_directory
  pub word : (i : ℕ) → i < 1024 → entry_at s i < 2 ^ 32
  pub table :
      (i : ℕ)
      → i < 1024
      → IsPresent (entry_at s i)
      → InUse s.pmm (frame (entry_at s i)) × (frame (entry_at s i) ≢ s.current_page_directory)
  pub apart :
      (i j : ℕ)
      → i < 1024
      → j < 1024
      → i ≢ j
      → IsPresent (entry_at s i)
      → IsPresent (entry_at s j)
      → frame (entry_at s i) ≢ frame (entry_at s j)
  pub first : IsPresent (entry_at s 0)
  pub identity : (k : ℕ) → k < 1024 → s.ram (frame (entry_at s 0) + 4 * k) ≡ 4096 * k + 3

-- The first 4 MiB are mapped to themselves.
pub translate_low :
    (s : Vmm) (addr : ℕ) → IsSound s → addr < 2 ^ 22 → translate s.ram s.cr3 addr ≡ some addr
unfolding translate
translate_low s addr v small =
    let zeroth : addr / 2 ^ 22 % 1024 ≡ 0 = omega arith in
    let page = v.identity (addr / 2 ^ 12 % 1024) (omega arith) in
    rw (v.loaded, zeroth) (ground (arith, v.first, page))

pub physical_low : (s : Vmm) (addr : ℕ) → IsSound s → addr < 2 ^ 22 → physical addr s ≡ some addr
unfolding physical
physical_low s addr v small = rw (v.paged) (translate_low s addr v small)

pub load_low : (s : Vmm) (addr : ℕ) → IsSound s → addr < 2 ^ 22 → load addr s ≡ done (s.ram addr)
unfolding load
load_low s addr v small = rw (physical_low s addr v small, load)

pub store_low :
    (s : Vmm) (addr word : ℕ)
    → IsSound s
    → addr < 2 ^ 22
    → store addr word s ≡ done (record s { ram = write s.ram addr word })
unfolding store
store_low s addr word v small = rw (physical_low s addr v small, store)

physical_any_pmm :
    (s : Vmm) (pmm : Pmm) (addr : ℕ) → physical addr (record s { pmm = pmm }) ≡ physical addr s
unfolding physical
physical_any_pmm s pmm addr = refl

-- The frame allocator's state plays no part in a store.
pub store_any_pmm :
    (s : Vmm) (pmm : Pmm) (addr word : ℕ)
    → IsSound s
    → addr < 2 ^ 22
    → store addr word (record s { pmm = pmm })
      ≡ done (record s { pmm = pmm; ram = write s.ram addr word })
unfolding store
store_any_pmm s pmm addr word v small =
    let there : physical addr (record s { pmm = pmm }) ≡ some addr =
      physical_any_pmm s pmm addr ∙ physical_low s addr v small in
    rw (there, store)

-- A word outside the directory and all tables.
pub record IsOutside (s : Vmm) (addr : ℕ) : Type 0 where
  pub no_directory : frame addr ≢ s.current_page_directory
  pub no_table : (i : ℕ) → i < 1024 → IsPresent (entry_at s i) → frame addr ≢ frame (entry_at s i)

pub write_ne : (ram : ℕ → ℕ) (p word q : ℕ) → p ≢ q → write ram p word q ≡ ram q
write_ne ram p word q ne = ground arith

pub IsSound-write :
    (s : Vmm) (addr word : ℕ)
    → IsSound s
    → IsOutside s addr
    → IsSound (record s { ram = write s.ram addr word })
IsSound-write s addr word v o =
    let same : (i : ℕ)
        → i < 1024
        → write s.ram addr word (s.current_page_directory + 4 * i) ≡ entry_at s i =
      λ i small.
        write_ne s.ram addr word (s.current_page_directory + 4 * i)
          (λ e. o.no_directory (omega (arith, v.directory.aligned))) in
    record {
      valid = v.valid;
      paged = v.paged;
      loaded = v.loaded;
      low = v.low;
      reserved = v.reserved;
      directory = v.directory;
      word = λ i small. rw (same i small) (v.word i small);
      table = λ i small. rw (same i small) (v.table i small);
      apart = λ i j a b ne. rw (same i a, same j b) (v.apart i j a b ne);
      first = rw (same 0 (omega arith)) v.first;
      identity = λ k small. rw (same 0 (omega arith)) (
          write_ne s.ram addr word (frame (entry_at s 0) + 4 * k)
            (λ e. o.no_table 0 (omega arith) v.first (omega arith))
          ∙ v.identity k small);
    }

-- What `clear_words` leaves in memory.
unfoldable pub cleared : (ℕ → ℕ) → ℕ → ℕ → (ℕ → ℕ)
cleared ram addr zero = ram
cleared ram addr (suc words) = cleared (write ram addr 0) (addr + 4) words

pub cleared-outside :
    (ram : ℕ → ℕ) (addr words q : ℕ)
    → (q < addr) ⊎ (addr + 4 * words ≤ q)
    → cleared ram addr words q ≡ ram q
unfolding cleared
cleared-outside ram addr zero q out = refl
cleared-outside ram addr (suc words) q out =
    cleared-outside (write ram addr 0) (addr + 4) words q (ground arith) ∙ ground arith

pub cleared_inside :
    (ram : ℕ → ℕ) (addr words k : ℕ) → k < words → cleared ram addr words (addr + 4 * k) ≡ 0
unfolding cleared
cleared_inside ram addr zero k small = absurd (omega arith)
cleared_inside ram addr (suc words) zero small =
    ap (cleared (write ram addr 0) (addr + 4) words) {x = addr + 4 * 0} {y = addr} (omega arith)
    ∙ cleared-outside (write ram addr 0) (addr + 4) words addr (inl (omega arith))
    ∙ ground arith
cleared_inside ram addr (suc words) (suc k) small =
    ap (cleared (write ram addr 0) (addr + 4) words) {x = addr + 4 * suc k} {y = addr + 4 + 4 * k}
      (omega arith)
    ∙ cleared_inside (write ram addr 0) (addr + 4) words k (omega arith)

-- Clearing words of a page outside the tables.
pub clear_words-IsSound :
    (words k base : ℕ) (s : Vmm)
    → IsSound s
    → IsOutside s base
    → base % 4096 ≡ 0
    → base < 2 ^ 22
    → k + words ≤ 1024
    → (clear_words words (base + 4 * k) s
        ≡ done (record s { ram = cleared s.ram (base + 4 * k) words }))
      × IsSound (record s { ram = cleared s.ram (base + 4 * k) words })
unfolding clear_words cleared
clear_words-IsSound zero k base s v o aligned small room = (refl, v)
clear_words-IsSound (suc words) k base s v o aligned small room =
    let addr = base + 4 * k in
    let in_page : frame addr ≡ frame base = omega arith in
    let outside : IsOutside s addr = record {
      no_directory = λ e. o.no_directory (sym in_page ∙ e);
      no_table = λ i a p e. o.no_table i a p (sym in_page ∙ e);
    } in
    let v1 = IsSound-write s addr 0 v outside in
    let s1 = record s { ram = write s.ram addr 0 } in
    let same : (i : ℕ) → i < 1024 → entry_at s1 i ≡ entry_at s i = λ i a.
      write_ne s.ram addr 0 (s.current_page_directory + 4 * i)
        (λ e. o.no_directory (omega (arith, v.directory.aligned))) in
    let o1 : IsOutside s1 base = record {
      no_directory = o.no_directory;
      no_table = λ i a. rw (same i a) (o.no_table i a);
    } in
    let next : base + 4 * k + 4 ≡ base + 4 * (k + 1) = omega arith in
    let rest = clear_words-IsSound words (k + 1) base s1 v1 o1 aligned small (omega arith) in
    rw (store_low s addr 0 v (omega arith), next) rest
