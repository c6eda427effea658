-- ===== src/Tests/Tables.antt =====
-- The page tables on a machine with sixteen frames, of which frame 0 is used.
use holyos.Base.{
  ℕ, ◌+◌, ◌-◌, ◌*◌, ◌&&◌, ◌==◌, ltb, leb, if◌then◌else◌, ◌/◌, ◌%◌, ◌^◌, ◌<◌, ◌≤◌, ◌≡◌, ◌≢◌, ◌⊎◌,
  inl, inr, refl, [], ◌∷◌, true, false, done, some, none, arith,
}
use holyos.Mm.Pmm.Frames.{used}
use holyos.Mm.Vmm.{Vmm, vmm_init, vmm_map_page, vmm_alloc_page, vmm_free_page}
use holyos.Mm.Vmm.Mmu.{translate}
use holyos.Mm.Vmm.Tables.{IsSound, IsOutside}
use holyos.Mm.Vmm.Unmap.{vmm_free_page_lem}
use holyos.Mm.Vmm.Init.{IsReady, vmm_init_lem}
use holyos.Mm.Vmm.Map.{Keeps}
use holyos.Mm.Vmm.Entry.{SamePage, Maps, vmm_map_page_lem}
use holyos.Mm.Vmm.Pages.{HasRoom, Refused, Handed, vmm_alloc_page_lem}

abbrev sixteen_frames : Vmm
sixteen_frames = record {
  ram = λ a. 0;
  pmm = record { lock = 0; bitmap = 1 ∷ []; max_blocks = 16; used_blocks = 1 };
  current_page_directory = 0;
  next_virt = 0xc000_0000;
  cr3 = 0;
  paging = false;
}

abbrev sixteen_frames-IsReady : IsReady sixteen_frames
sixteen_frames-IsReady = record {
  valid = record {
    free = refl;
    covers = omega arith;
    small = omega arith;
    words = (omega arith, tt);
    counter = omega arith;
  };
  off = refl;
  low = omega arith;
  one = 3;
  two = 4;
  distinct = omega arith;
  one_exists = omega arith;
  two_exists = omega arith;
  one_free = refl;
  two_free = refl;
}

vmm_init_lem_example :
    (s' : Vmm) × (vmm_init sixteen_frames ≡ done s')
    × IsSound s'
    × (s'.next_virt ≡ 0xc000_0000)
    × ((a : ℕ) → a < 2 ^ 22 → translate s'.ram s'.cr3 a ≡ some a)
    × ((a : ℕ) → 2 ^ 22 ≤ a → a < 2 ^ 32 → translate s'.ram s'.cr3 a ≡ none)
vmm_init_lem_example = vmm_init_lem sixteen_frames sixteen_frames-IsReady

-- The memory after `vmm_init`, with the directory in frame 1 and the table in frame 2.
abbrev booted : Vmm
booted = (vmm_init_lem sixteen_frames sixteen_frames-IsReady).0

booted-IsSound : IsSound booted
booted-IsSound = (vmm_init_lem sixteen_frames sixteen_frames-IsReady).2

vmm_map_page_lem_example :
    (vmm_map_page 0xc000_0000 0x5000 3 booted ≡ done (false, booted))
    ⊎ ((s' : Vmm) × (vmm_map_page 0xc000_0000 0x5000 3 booted ≡ done (true, s'))
        × Keeps booted s'
        × Maps 0xc000_0000 0x5000 booted s')
vmm_map_page_lem_example =
    vmm_map_page_lem 0xc000_0000 0x5000 3 booted booted-IsSound (omega arith) (omega arith)
      (omega arith) (omega arith) (omega arith)

booted-HasRoom : HasRoom booted
booted-HasRoom = (omega (arith, next), omega (arith, next))
  where
    next : booted.next_virt ≡ 0xc000_0000
    next = (vmm_init_lem sixteen_frames sixteen_frames-IsReady).3

vmm_alloc_page_lem_example :
    (s' : Vmm) × (((vmm_alloc_page 3 booted ≡ done (0, s')) × Refused booted s')
      ⊎ ((vmm_alloc_page 3 booted ≡ done (booted.next_virt, s')) × Handed booted s'))
vmm_alloc_page_lem_example = vmm_alloc_page_lem 3 booted booted-IsSound booted-HasRoom (omega arith)

-- One page, at 0xc0000000, goes to frame 4; its table is in frame 3.
abbrev one_page_ram : ℕ → ℕ
one_page_ram a =
    if a == 0x1000
    then 0x2003
    else if a == 0x1c00
    then 0x3003
    else if a == 0x3000
    then 0x4003
    else if leb 0x2000 a && ltb a 0x3000
    then (a - 0x2000) / 4 * 4096 + 3
    else 0

abbrev one_page : Vmm
one_page = record {
  ram = one_page_ram;
  pmm = record { lock = 0; bitmap = 31 ∷ []; max_blocks = 16; used_blocks = 5 };
  current_page_directory = 0x1000;
  next_virt = 0xc000_1000;
  cr3 = 0x1000;
  paging = true;
}

-- The directory has two entries.
one_page_entries :
    (i : ℕ)
    → i < 1024
    → ((i ≡ 0) × (one_page_ram (0x1000 + 4 * i) ≡ 0x2003))
      ⊎ ((i ≡ 768) × (one_page_ram (0x1000 + 4 * i) ≡ 0x3003))
      ⊎ (one_page_ram (0x1000 + 4 * i) ≡ 0)
one_page_entries i small = ground arith

one_page-IsSound : IsSound one_page
one_page-IsSound = record {
  valid = record {
    free = refl;
    covers = omega arith;
    small = omega arith;
    words = (omega arith, tt);
    counter = omega arith;
  };
  paged = refl;
  loaded = refl;
  low = omega arith;
  reserved = refl;
  directory = record { aligned = refl; exists = omega arith; taken = refl };
  word = λ i a. elim (one_page_entries i a) [
    | inl (zeroth, e) ↦ omega (arith, e)
    | inr (inl (upper, e)) ↦ omega (arith, e)
    | inr (inr e) ↦ omega (arith, e)
  ];
  table = λ i a p. elim (one_page_entries i a) [
    | inl (zeroth, e) ↦
        rw e (record { aligned = refl; exists = omega arith; taken = refl }, omega arith)
    | inr (inl (upper, e)) ↦
        rw e (record { aligned = refl; exists = omega arith; taken = refl }, omega arith)
    | inr (inr e) ↦ absurd (omega (arith, e, p))
  ];
  apart = λ i j a b ne p q e. absurd (differ i j a b ne p q e);
  first = refl;
  identity = λ k small. ground arith;
}
  where
    differ :
        (i j : ℕ)
        → i < 1024
        → j < 1024
        → i ≢ j
        → one_page_ram (0x1000 + 4 * i) % 2 ≡ 1
        → one_page_ram (0x1000 + 4 * j) % 2 ≡ 1
        → one_page_ram (0x1000 + 4 * i) / 4096 * 4096 ≡ one_page_ram (0x1000 + 4 * j) / 4096 * 4096
        → ⊥
    differ i j a b ne p q e = elim (one_page_entries i a) [
      | inl (zi, ei) ↦ elim (one_page_entries j b) [
        | inl (zj, ej) ↦ omega arith
        | inr (inl (uj, ej)) ↦ omega arith
        | inr (inr ej) ↦ omega arith
      ]
      | inr (inl (ui, ei)) ↦ elim (one_page_entries j b) [
        | inl (zj, ej) ↦ omega arith
        | inr (inl (uj, ej)) ↦ omega arith
        | inr (inr ej) ↦ omega arith
      ]
      | inr (inr ei) ↦ omega arith
    ]

one_page-IsOutside : IsOutside one_page 0x4003
one_page-IsOutside = record {
  no_directory = omega arith;
  no_table = λ i a p. elim (one_page_entries i a) [
    | inl (zeroth, e) ↦ λ h. absurd (omega (arith, e, h))
    | inr (inl (upper, e)) ↦ λ h. absurd (omega (arith, e, h))
    | inr (inr e) ↦ absurd (omega (arith, e, p))
  ];
}

vmm_free_page_lem_example :
    (s' : Vmm) × (vmm_free_page 0xc000_0000 one_page ≡ done s')
    × IsSound s'
    × (used s'.pmm.bitmap 4 ≡ 0)
    × ((a : ℕ) → a < 2 ^ 32 → SamePage a 0xc000_0000 → translate s'.ram s'.cr3 a ≡ none)
    × ((a : ℕ)
        → a < 2 ^ 32
        → ¬ SamePage a 0xc000_0000
        → translate s'.ram s'.cr3 a ≡ translate one_page_ram 0x1000 a)
vmm_free_page_lem_example =
    vmm_free_page_lem one_page 0xc000_0000 one_page-IsSound refl (omega arith) (omega arith)
      (omega arith) (omega arith) (omega arith) one_page-IsOutside
