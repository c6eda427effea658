-- ===== src/Tests/Frames.antt =====
-- The page frame allocator with eight frames, of which frames 0 and 2 are used.
use holyos.Base.{
  ℕ, ◌+◌, ◌-◌, ◌*◌, ◌/◌, ◌<◌, ◌≡◌, ◌≢◌, ◌⊎◌, inl, inr, refl, List, [], ◌∷◌, true, done, fault,
  if◌then◌else◌, leb, arith,
}
use holyos.Mm.Pmm.{
  Pmm, pmm_block_size, pmm_bits_per_entry, pmm_alloc_page, pmm_free_page, pmm_get_free_page_count,
  pmm_is_page_free,
}
use holyos.Mm.Pmm.Frames.{used}
use holyos.Mm.Pmm.Valid.{IsValid}
use holyos.Mm.Pmm.Alloc.{TookNone, Took, pmm_alloc_page-Took}
use holyos.Mm.Pmm.Free.{free-alloc, pmm_free_page_lem}
use holyos.Mm.Pmm.Count.{used_frames, IsAccurate, alloc-Count, free-Count}
use holyos.Mm.Pmm.Owners.{Client, alloc, free, here, next, Owns, exclusive_ownership}
use holyos.Mm.Pmm.Boot.{MmapEntry, scan_max, bitmap_entries, pmm_init}
use holyos.Mm.Pmm.Boot.Ready.{FirstFit, here, later, bitmap_bytes, Ready, pmm_init-Ready}
use holyos.Mm.Pmm.Boot.Beyond.{ReachesPast, pmm_init-fault}

abbrev eight_frames : Pmm
eight_frames = record { lock = 0; bitmap = 5 ∷ []; max_blocks = 8; used_blocks = 2 }

abbrev one_more : Pmm
one_more = record { lock = 0; bitmap = 7 ∷ []; max_blocks = 8; used_blocks = 3 }

eight_frames-IsValid : IsValid eight_frames
eight_frames-IsValid = record {
  free = refl;
  covers = omega arith;
  small = omega arith;
  words = (omega arith, tt);
  counter = omega arith;
}

first_alloc : pmm_alloc_page eight_frames ≡ done (0x1000, one_more)
unfolding pmm_alloc_page
first_alloc = refl

first_free : pmm_free_page 0x1000 one_more ≡ done eight_frames
unfolding pmm_free_page
first_free = refl

frame_1_is_free : pmm_is_page_free 0x1000 eight_frames ≡ done true
unfolding pmm_is_page_free
frame_1_is_free = refl

pmm_alloc_page-Took_example :
    (result : ℕ × Pmm) × (pmm_alloc_page eight_frames ≡ done result)
    × (TookNone eight_frames result ⊎ ((block : ℕ) × Took eight_frames block result))
pmm_alloc_page-Took_example = pmm_alloc_page-Took eight_frames-IsValid

free-alloc_example : pmm_free_page 0x1000 one_more ≡ done eight_frames
free-alloc_example = free-alloc eight_frames-IsValid first_alloc (omega arith)

pmm_free_page_lem_example :
    (s' : Pmm) × (pmm_free_page 0x2000 eight_frames ≡ done s')
    × (0x2000 / pmm_block_size < 8 → used s'.bitmap (0x2000 / pmm_block_size) ≡ 0)
    × ((j : ℕ) → j ≢ 0x2000 / pmm_block_size → used s'.bitmap j ≡ used (5 ∷ []) j)
    × (pmm_free_page 0x2000 s' ≡ done s')
    × IsValid s'
pmm_free_page_lem_example = pmm_free_page_lem 0x2000 eight_frames-IsValid

alloc-Count_example :
    (used_frames one_more ≡ used_frames eight_frames + 1)
    × (IsAccurate eight_frames → IsAccurate one_more)
    × (IsAccurate eight_frames
        → pmm_get_free_page_count one_more + 1 ≡ pmm_get_free_page_count eight_frames)
alloc-Count_example = alloc-Count eight_frames-IsValid first_alloc (omega arith)

abbrev one_fewer : Pmm
one_fewer = record { lock = 0; bitmap = 1 ∷ []; max_blocks = 8; used_blocks = 1 }

free_frame_2 : pmm_free_page 0x2000 eight_frames ≡ done one_fewer
unfolding pmm_free_page
free_frame_2 = refl

free-Count_example :
    IsAccurate one_fewer
    × (used_frames one_fewer ≡ (
        if leb 8 (0x2000 / pmm_block_size)
        then used_frames eight_frames
        else used_frames eight_frames - used (5 ∷ []) (0x2000 / pmm_block_size)))
free-Count_example = free-Count 0x2000 eight_frames-IsValid refl free_frame_2

abbrev no_pages : Client
no_pages = record { pmm = eight_frames; held = [] }

abbrev one_page : Client
one_page = record { pmm = one_more; held = 0x1000 ∷ [] }

exclusive_ownership_example : Owns no_pages
exclusive_ownership_example = exclusive_ownership eight_frames-IsValid (
    next {d = one_page} (next here (alloc first_alloc (omega arith)))
      (free {c = one_page} 0 refl first_free))

-- Four mebibytes of memory from 1 MiB on, behind a reserved region.
abbrev small_map : List MmapEntry
small_map =
    record { addr = 0xf0000; len = 0x10000; type = 2 }
    ∷ record { addr = 0x100000; len = 0x400000; type = 1 }
    ∷ []

small_map_place : FirstFit (bitmap_bytes small_map) small_map 0x100000
small_map_place = later (λ e. absurd (ground arith)) (here refl (omega arith))

pmm_init-Ready_example :
    (s : Pmm) × (pmm_init small_map ≡ done s) × Ready small_map 0x100000 (bitmap_bytes small_map) s
pmm_init-Ready_example =
    pmm_init-Ready small_map 0x100000 ((λ e. absurd (ground arith)), ((λ e. omega arith), tt))
      ((λ e. absurd (ground arith)), ((λ e. refl), tt)) small_map_place (omega arith)

-- A region that begins at 4 GiB.
abbrev high_map : List MmapEntry
high_map =
    record { addr = 0x100000; len = 0x400000; type = 1 }
    ∷ record { addr = 0x1_0000_0000; len = 0x1000; type = 1 }
    ∷ []

high_map_past : ReachesPast (bitmap_entries high_map * pmm_bits_per_entry) high_map
unfolding scan_max
high_map_past = inr (inl (refl, omega arith, omega arith))

pmm_init-fault_example : pmm_init high_map ≡ fault
pmm_init-fault_example = pmm_init-fault high_map high_map_past
