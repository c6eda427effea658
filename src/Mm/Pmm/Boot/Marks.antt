-- ===== src/Mm/Pmm/Boot/Marks.antt =====
-- Which frames are free after `pmm_init`.
use holyos.Base.{
  ℕ, ◌+◌, ◌-◌, ◌*◌, ◌/◌, ◌^◌, ◌<◌, ◌≤◌, ◌≡◌, inl, inr, refl, ◌∙◌, List, [], ◌∷◌, Bool, true, false,
  ◌&&◌, ◌||◌, done, ltb, leb, if◌then◌else◌, u32, arith, length, replicate, length-replicate,
  Bool-cases,
}
use holyos.Cpu.Spinlock.{spinlock_init}
use holyos.Mm.Pmm.{Pmm, pmm_block_size, pmm_bits_per_entry}
use holyos.Mm.Pmm.Frames.{used}
use holyos.Mm.Pmm.Valid.{AllWords, IsValid}
use holyos.Mm.Pmm.Boot.{
  MmapEntry, is_available, end_address, scan_max, start_block, end_block, free_available,
  bitmap_entries, bitmap_start, bitmap_blocks, pmm_init,
}
use holyos.Mm.Pmm.Boot.Ranges.{clear_range-Marked, reserve_range-Marked, ones-used, ones-AllWords}

abbrev pub in_entry : MmapEntry → ℕ → Bool
in_entry e j = is_available e && leb (start_block e) j && ltb j (end_block e)

-- The frame lies in the blocks of some available region.
abbrev pub is_in_map : List MmapEntry → ℕ → Bool
is_in_map [] j = false
is_in_map (e ∷ es) j = in_entry e j || is_in_map es j

-- The available regions end below 4 GiB.
abbrev pub Below4G : List MmapEntry → Type 0
Below4G [] = Unit {0}
Below4G (e ∷ es) = (is_available e ≡ true → e.addr + e.len < 2 ^ 32) × Below4G es

abbrev pub InBitmap : ℕ → List MmapEntry → Type 0
InBitmap frames [] = Unit {0}
InBitmap frames (e ∷ es) =
    (is_available e ≡ true → (start_block e ≤ end_block e) × (end_block e ≤ frames))
    × InBitmap frames es

scan_max_grows : (es : List MmapEntry) (m : ℕ) → m ≤ scan_max es m
unfolding scan_max
scan_max_grows [] m = omega arith
scan_max_grows (e ∷ es) m =
    ground (arith, scan_max_grows es (u32 (end_address e)), scan_max_grows es m)

pub scan_max-lt : (es : List MmapEntry) (m : ℕ) → m < 2 ^ 32 → scan_max es m < 2 ^ 32
unfolding scan_max
scan_max-lt [] m h = h
scan_max-lt (e ∷ es) m h =
    ground (arith, scan_max-lt es (u32 (end_address e)) (omega arith), scan_max-lt es m h)

Below4G-InBitmap :
    (es : List MmapEntry) (m frames : ℕ)
    → scan_max es m / pmm_block_size ≤ frames
    → Below4G es
    → InBitmap frames es
unfolding scan_max
Below4G-InBitmap [] m frames h below = tt
Below4G-InBitmap (e ∷ es) m frames h below = (
  λ a.
      let low = below.0 a in
      ground (arith, scan_max_grows es (u32 (end_address e)), scan_max_grows es m),
  Below4G-InBitmap es
      (if is_available e && ltb m (u32 (end_address e)) then u32 (end_address e) else m) frames h
      below.1,
)

-- What the third walk makes of a bitmap.
record Walked (es : List MmapEntry) (bitmap bitmap' : List ℕ) : Type 0 where
  same_length : length bitmap' ≡ length bitmap
  words : AllWords bitmap'
  marks : (j : ℕ) → used bitmap' j ≡ (if is_in_map es j then 0 else used bitmap j)

free_available-Walked :
    (es : List MmapEntry) (bitmap : List ℕ)
    → InBitmap (length bitmap * pmm_bits_per_entry) es
    → AllWords bitmap
    → (bitmap' : List ℕ) × (free_available es bitmap ≡ done bitmap') × Walked es bitmap bitmap'
unfolding free_available
free_available-Walked [] bitmap fits words =
    (bitmap, refl, record { same_length = refl; words = words; marks = λ j. refl })
free_available-Walked (e ∷ es) bitmap fits words = elim (Bool-cases (is_available e)) [
  | inl on ↦
      let range = fits.0 on in
      let (middle, first, marked) =
        clear_range-Marked (end_block e - start_block e) (start_block e) bitmap (omega arith)
          words in
      let (bitmap', rest, walked) =
        free_available-Walked es middle (rw marked.same_length fits.1) marked.words in
      (
        bitmap',
        rw (on, first) rest,
        record {
          same_length = walked.same_length ∙ marked.same_length;
          words = walked.words;
          marks = λ j. ground (arith, walked.marks j, marked.inside j, marked.outside j);
        },
      )
  | inr off ↦
      let (bitmap', rest, walked) = free_available-Walked es bitmap fits.1 words in
      (
        bitmap',
        rw off rest,
        record {
          same_length = walked.same_length;
          words = walked.words;
          marks = λ j. ground (arith, walked.marks j);
        },
      )
]

-- The frame is one of those that hold the bitmap.
abbrev pub is_bitmap_frame : List MmapEntry → ℕ → Bool
is_bitmap_frame es j = leb (bitmap_start es) j && ltb j (bitmap_start es + bitmap_blocks es)

pub record Booted (es : List MmapEntry) (s : Pmm) : Type 0 where
  pub valid : IsValid s
  pub size : s.max_blocks ≡ scan_max es 0 / pmm_block_size
  pub counter : s.used_blocks ≡ bitmap_blocks es
  pub frames :
      (j : ℕ)
      → j < s.max_blocks
      → used s.bitmap j ≡ (if is_bitmap_frame es j then 1 else if is_in_map es j then 0 else 1)

-- When the available regions end below 4 GiB and hold at least one block, and the blocks of the bitmap
-- have bits in it, `pmm_init` returns a valid allocator in which exactly the frames of the available
-- regions outside the bitmap are free, and whose counter is the number of the bitmap's blocks.
pub pmm_init-Booted :
    (es : List MmapEntry)
    → Below4G es
    → 0 < scan_max es 0 / pmm_block_size
    → bitmap_start es + bitmap_blocks es ≤ bitmap_entries es * pmm_bits_per_entry
    → (s : Pmm) × (pmm_init es ≡ done s) × Booted es s
unfolding pmm_init spinlock_init
pmm_init-Booted es below some_block room =
    let size = scan_max-lt es 0 (omega arith) in
    let ones : List ℕ = replicate (bitmap_entries es) 0xffff_ffff in
    let long : length ones ≡ bitmap_entries es = length-replicate (bitmap_entries es) 0xffff_ffff in
    let (freed, walk, walked) =
      free_available-Walked es ones
        (Below4G-InBitmap es 0 (length ones * pmm_bits_per_entry) (omega arith) below)
        (ones-AllWords (bitmap_entries es)) in
    let (bitmap, reserve, marked) =
      reserve_range-Marked (bitmap_blocks es) (bitmap_start es) freed 0
        (omega (arith, walked.same_length)) walked.words (omega arith) in
    (
      record {
        lock = 0;
        bitmap = bitmap;
        max_blocks = scan_max es 0 / pmm_block_size;
        used_blocks = 0 + bitmap_blocks es;
      },
      rw walk (rw reserve (ground arith)),
      record {
        valid = record {
          free = refl;
          covers = omega (arith, walked.same_length, marked.same_length);
          small = omega arith;
          words = marked.words;
          counter = omega arith;
        };
        size = refl;
        counter = omega arith;
        frames = λ j h. ground (
          arith,
          marked.inside j,
          marked.outside j,
          walked.marks j,
          ones-used (bitmap_entries es) j (omega arith),
        );
      },
    )
