-- ===== src/Mm/Vmm/Pages.antt =====
-- `vmm_alloc_page` and `vmm_free_page`.
use holyos.Base.{
  ℕ, ◌+◌, ◌/◌, ◌^◌, ◌<◌, ◌≤◌, ◌≡◌, ◌≢◌, ◌⊎◌, inl, inr, refl, sym, ◌∙◌, ap, subst, true, false, done,
  arith, u32, ==_ne,
}
use holyos.Mm.Pmm.{Pmm, pmm_alloc_page_aligned, pmm_free_page}
use holyos.Mm.Pmm.Frames.{used}
use holyos.Mm.Pmm.Alloc.{aligned-Took, aligned-eq}
use holyos.Mm.Pmm.Free.{free-alloc}
use holyos.Mm.Vmm.{Vmm, page_size, vmm_map_page, vmm_alloc_page}
use holyos.Mm.Vmm.Tables.{InUse, IsSound}
use holyos.Mm.Vmm.Map.{InUse-Took, new-InUse, Took-nonzero, Took-low, IsSound-Took}
use holyos.Mm.Vmm.Entry.{Maps, vmm_map_page_lem}

-- The code's variable for the next page is behind the identity mapping and not at the end of memory.
abbrev pub HasRoom : Vmm → Type 0
HasRoom s = (2 ^ 22 ≤ s.next_virt) × (s.next_virt + page_size < 2 ^ 32)

-- A page was handed out: a frame that nobody used is now in use and is where the page goes.
pub record Handed (s s' : Vmm) : Type 0 where
  pub phys : ℕ
  pub was_free : used s.pmm.bitmap (phys / 4096) ≡ 0
  pub in_use : InUse s'.pmm phys
  pub others_in_use : (addr : ℕ) → InUse s.pmm addr → InUse s'.pmm addr
  pub sound : IsSound s'
  pub next : s'.next_virt ≡ s.next_virt + page_size
  pub maps : Maps s.next_virt phys s s'

-- No page was handed out: no frame was lost, and the tables are as they were.
pub record Refused (s s' : Vmm) : Type 0 where
  pub same_frames : s'.pmm ≡ s.pmm
  pub same_memory : s'.ram ≡ s.ram
  pub sound : IsSound s'

IsSound-next : (s : Vmm) (n : ℕ) → IsSound s → IsSound (record s { next_virt = n })
IsSound-next s n v = record {
  valid = v.valid;
  paged = v.paged;
  loaded = v.loaded;
  low = v.low;
  reserved = v.reserved;
  directory = v.directory;
  word = v.word;
  table = v.table;
  apart = v.apart;
  first = v.first;
  identity = v.identity;
}

alloc_mapped :
    (flags : ℕ) (s : Vmm) {result : ℕ × Pmm} {s' : Vmm}
    → pmm_alloc_page_aligned s.pmm ≡ done result
    → result.0 ≢ 0
    → vmm_map_page s.next_virt result.0 flags
        (record s { pmm = result.1; next_virt = u32 (s.next_virt + page_size) })
      ≡ done (true, s')
    → vmm_alloc_page flags s ≡ done (s.next_virt, s')
unfolding vmm_alloc_page
alloc_mapped flags s {result} returned nonzero mapped =
    rw (returned, ==_ne result.0 0 nonzero, mapped)

alloc_refused :
    (flags : ℕ) (s : Vmm) {result : ℕ × Pmm} {s' : Vmm} {pmm : Pmm}
    → pmm_alloc_page_aligned s.pmm ≡ done result
    → result.0 ≢ 0
    → vmm_map_page s.next_virt result.0 flags
        (record s { pmm = result.1; next_virt = u32 (s.next_virt + page_size) })
      ≡ done (false, s')
    → pmm_free_page result.0 s'.pmm ≡ done pmm
    → vmm_alloc_page flags s ≡ done (0, record s' { pmm = pmm })
unfolding vmm_alloc_page
alloc_refused flags s {result} returned nonzero refused freed =
    rw (returned, ==_ne result.0 0 nonzero, refused, freed)

alloc_null :
    (flags : ℕ) (s : Vmm) {result : ℕ × Pmm}
    → pmm_alloc_page_aligned s.pmm ≡ done result
    → result.0 ≡ 0
    → vmm_alloc_page flags s ≡ done (0, record s { pmm = result.1 })
unfolding vmm_alloc_page
alloc_null flags s {result} returned null = rw (returned, null)

-- On a machine with at most 1024 page frames, which are 4 MiB of memory, and on sound tables with room for a page, `vmm_alloc_page` returns: with NULL, every frame accounted for as
-- before and the memory unchanged, or with the next virtual page, which then goes to a frame that was
-- free, while every other address goes where it went before.
pub vmm_alloc_page_lem :
    (flags : ℕ) (s : Vmm)
    → IsSound s
    → HasRoom s
    → flags < 4096
    → (s' : Vmm) × (((vmm_alloc_page flags s ≡ done (0, s')) × Refused s s')
        ⊎ ((vmm_alloc_page flags s ≡ done (s.next_virt, s')) × Handed s s'))
vmm_alloc_page_lem flags s v room low =
    let (result, returned, took) = aligned-Took v.valid in
    elim took [
      | inl n ↦ (
        record s { pmm = result.1 },
        inl (
          alloc_null flags s returned n.null,
          record {
            same_frames = n.unchanged;
            same_memory = refl;
            sound = subst (λ p. IsSound (record s { pmm = p })) (sym n.unchanged) v;
          },
        ),
      )
      | inr (block, t) ↦
          let advanced = u32 (s.next_virt + page_size) in
          let s1 = record s { pmm = result.1; next_virt = advanced } in
          let v1 = IsSound-next (record s { pmm = result.1 }) advanced (IsSound-Took v t).0 in
          let (small, aligned) = Took-low v t in
          let nonzero = Took-nonzero v.reserved t in
          elim (vmm_map_page_lem s.next_virt result.0 flags s1 v1 room.0 (omega arith) aligned
            (omega arith) low) [
              | inl refused ↦
                  let back = free-alloc v.valid (sym (aligned-eq v.valid) ∙ returned) nonzero in
                  (
                    record s1 { pmm = s.pmm },
                    inl (
                      alloc_refused flags s returned nonzero refused back,
                      record {
                        same_frames = refl;
                        same_memory = refl;
                        sound = IsSound-next s advanced v;
                      },
                    ),
                  )
              | inr (s', mapped, keeps, maps) ↦ (
                s',
                inr (
                  alloc_mapped flags s returned nonzero mapped,
                  record {
                    phys = result.0;
                    was_free =
                        ap (λ b. used s.pmm.bitmap b) {x = result.0 / 4096} {y = block}
                          (omega (arith, t.address))
                        ∙ t.was_free;
                    in_use = keeps.in_use result.0 (new-InUse t);
                    others_in_use = λ addr u. keeps.in_use addr (InUse-Took t u);
                    sound = keeps.sound;
                    next = keeps.same_next ∙ omega arith;
                    maps = record { here = maps.here; others = maps.others };
                  },
                ),
              )
            ]
    ]
