-- ===== src/Mm/Vmm/Unmap.antt =====
-- `vmm_free_page`.
use holyos.Base.{
  ℕ, ◌+◌, ◌*◌, ◌/◌, ◌^◌, ◌<◌, ◌≤◌, ◌≡◌, ◌≢◌, ◌∙◌, done, arith, none, bit_and-one, bit_and_page,
}
use holyos.Mm.Pmm.{Pmm}
use holyos.Mm.Pmm.Frames.{used}
use holyos.Mm.Pmm.Free.{
  free_lem, free_outcome, free_outcome-IsValid, free_outcome-others, free_outcome-free,
  max_blocks-free_outcome,
}
use holyos.Mm.Vmm.{Vmm, write, vmm_free_page}
use holyos.Mm.Vmm.Mmu.{frame, translate}
use holyos.Mm.Vmm.Tables.{InUse, entry_at, IsPresent, IsSound, IsOutside, load_low, store_any_pmm}
use holyos.Mm.Vmm.Map.{upper, lower, translate_no_page, pd_index_lem, pt_index_lem}
use holyos.Mm.Vmm.Entry.{SamePage, slot, slot-IsSound, slot_others, entries, slot_here}

module _ (s : Vmm) (virt : ℕ) (v : IsSound s) (present : IsPresent (entry_at s (upper virt)))
    (word : s.ram (slot s virt) < 2 ^ 32) where
  -- The allocator afterwards.
  abbrev pub given_back : Pmm
  given_back = free_outcome s.pmm (s.ram (slot s virt) / 4096)

  slot-lt : slot s virt < 2 ^ 22
  slot-lt = let t = v.table (upper virt) (omega arith) present in omega (arith, v.low, t.0.exists)

  free_run :
      vmm_free_page virt s ≡ done (record s { pmm = given_back; ram = write s.ram (slot s virt) 0 })
  unfolding vmm_free_page
  free_run =
      let page = frame (s.ram (slot s virt)) in
      let block : page / 4096 ≡ s.ram (slot s virt) / 4096 = omega arith in
      rw
        (
          pd_index_lem virt,
          pt_index_lem virt,
          load_low s (s.current_page_directory + 4 * upper virt) v
              (omega (arith, v.low, v.directory.aligned, v.directory.exists)),
          bit_and-one (entry_at s (upper virt)),
          present,
          bit_and_page (entry_at s (upper virt)) (v.word (upper virt) (omega arith)),
          load_low s (slot s virt) v slot-lt,
          bit_and_page (s.ram (slot s virt)) word,
          free_lem page v.valid,
          block,
        )
        (store_any_pmm s given_back (slot s virt) 0 v slot-lt)

  -- A frame of the tables other than the one that was mapped.
  still_used :
      (addr : ℕ) → InUse s.pmm addr → frame (s.ram (slot s virt)) ≢ addr → InUse given_back addr
  still_used addr u ne = record {
    aligned = u.aligned;
    exists = omega (arith, u.exists, max_blocks-free_outcome s.pmm (s.ram (slot s virt) / 4096));
    taken =
        free_outcome-others v.valid (s.ram (slot s virt) / 4096) (addr / 4096)
          (λ e. ne (omega (arith, u.aligned)))
        ∙ u.taken;
  }

  -- On a machine with at most 1024 page frames, which are 4 MiB of memory, and on sound tables, `vmm_free_page` of a page above the first 4 MiB that is mapped to a frame other than
  -- frame 0 and the tables' own returns with sound tables: the frame is free, no address of the page
  -- is mapped any more, and all other addresses go where they went before.
  pub vmm_free_page_lem :
      2 ^ 22 ≤ virt
      → virt < 2 ^ 32
      → frame (s.ram (slot s virt)) ≢ 0
      → s.ram (slot s virt) / 4096 < s.pmm.max_blocks
      → IsOutside s (s.ram (slot s virt))
      → (s' : Vmm) × (vmm_free_page virt s ≡ done s')
        × IsSound s'
        × (used s'.pmm.bitmap (s.ram (slot s virt) / 4096) ≡ 0)
        × ((a : ℕ) → a < 2 ^ 32 → SamePage a virt → translate s'.ram s'.cr3 a ≡ none)
        × ((a : ℕ)
            → a < 2 ^ 32
            → ¬ SamePage a virt
            → translate s'.ram s'.cr3 a ≡ translate s.ram s.cr3 a)
  vmm_free_page_lem above small nonzero exists o =
      let block = s.ram (slot s virt) / 4096 in
      let high : upper virt ≢ 0 = omega arith in
      let v1 = slot-IsSound s virt 0 v present high in
      let same = entries s virt 0 v present high in
      (
        record s { pmm = given_back; ram = write s.ram (slot s virt) 0 },
        free_run,
        record {
          valid = free_outcome-IsValid block v.valid;
          paged = v.paged;
          loaded = v.loaded;
          low = omega (arith, v.low, max_blocks-free_outcome s.pmm block);
          reserved = free_outcome-others v.valid block 0 (λ e. nonzero (omega arith)) ∙ v.reserved;
          directory = still_used s.current_page_directory v.directory o.no_directory;
          word = v1.word;
          table = λ i a. rw (same i a) (λ p. (
            still_used (frame (entry_at s i)) (v.table i a p).0 (o.no_table i a p),
            (v.table i a p).1,
          ));
          apart = v1.apart;
          first = v1.first;
          identity = v1.identity;
        },
        free_outcome-free v.valid block exists,
        λ a bound page.
            let e : upper a ≡ upper virt = omega arith in
            let e' : lower a ≡ lower virt = omega arith in
            rw (v.loaded) (
              translate_no_page (write s.ram (slot s virt) 0) s.current_page_directory a
                (slot_here s virt 0 v present high a e e')),
        λ a bound ne.
            rw (v.loaded) (slot_others s virt 0 v present high a (λ e e'. ne (omega arith))),
      )
