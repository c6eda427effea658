-- ===== src/Mm/Pmm/Boot/Ready.antt =====
-- What `pmm_init` makes of a memory map, in terms of the map's addresses.
use holyos.Base.{
  ℕ, ◌+◌, ◌*◌, ◌/◌, ◌%◌, ◌^◌, ◌<◌, ◌≤◌, ◌≡◌, inl, inr, refl, ◌∙◌, ap, List, [], ◌∷◌, Bool, true,
  false, ◌&&◌, ◌||◌, done, ltb, leb, if◌then◌else◌, u32, arith, Bool-cases,
}
use holyos.Mm.Pmm.{Pmm}
use holyos.Mm.Pmm.Frames.{used}
use holyos.Mm.Pmm.Valid.{IsValid}
use holyos.Mm.Pmm.Boot.{
  MmapEntry, is_available, end_address, scan_max, place_bitmap, bitmap_entries, bitmap_address,
  pmm_init,
}
use holyos.Mm.Pmm.Boot.Marks.{Below4G, is_in_map, scan_max-lt, Booted, pmm_init-Booted}

-- The available regions begin at the start of a page.
abbrev pub AlignedStarts : List MmapEntry → Type 0
AlignedStarts [] = Unit {0}
AlignedStarts (e ∷ es) = (is_available e ≡ true → e.addr % 4096 ≡ 0) × AlignedStarts es

-- The highest address that an available region ends at.
abbrev pub highest_end : List MmapEntry → ℕ
highest_end [] = 0
highest_end (e ∷ es) =
    let rest = highest_end es in
    if is_available e && ltb rest (e.addr + e.len) then e.addr + e.len else rest

-- The bytes of a bitmap of 32-bit words with a bit for each whole page below the highest end.
abbrev pub bitmap_bytes : List MmapEntry → ℕ
bitmap_bytes es = (highest_end es / 4096 + 31) / 32 * 4

-- `a` is where the first available region of at least `bytes` bytes begins.
pub data FirstFit (bytes : ℕ) : List MmapEntry → ℕ → Type 0 where
  here :
      {e : MmapEntry} {es : List MmapEntry}
      → is_available e ≡ true
      → bytes ≤ e.len
      → FirstFit bytes (e ∷ es) e.addr
  later :
      {e : MmapEntry} {es : List MmapEntry} {a : ℕ}
      → (is_available e ≡ true → e.len < bytes)
      → FirstFit bytes es a
      → FirstFit bytes (e ∷ es) a

-- All bytes of the page frame `j` lie in one available region.
abbrev pub is_memory : List MmapEntry → ℕ → Bool
is_memory [] j = false
is_memory (e ∷ es) j =
    (is_available e && leb e.addr (j * 4096) && leb ((j + 1) * 4096) (e.addr + e.len))
    || is_memory es j

-- The page frame `j` has one of the `bytes` bytes from `a` on, or begins at the first address behind them.
abbrev pub is_taken : ℕ → ℕ → ℕ → Bool
is_taken a bytes j = ltb a ((j + 1) * 4096) && leb (j * 4096) (a + bytes)

higher_of_three :
    (m end rest : ℕ)
    → (if ltb (if ltb m end then end else m) rest then rest else (if ltb m end then end else m)) ≡ (
        if ltb m (if ltb rest end then end else rest)
        then (if ltb rest end then end else rest)
        else m)
higher_of_three m end rest = grind arith

scan_max-highest :
    (es : List MmapEntry) (m : ℕ)
    → Below4G es
    → scan_max es m ≡ (if ltb m (highest_end es) then highest_end es else m)
unfolding scan_max
scan_max-highest [] m below = ground arith
scan_max-highest (e ∷ es) m below = elim (Bool-cases (is_available e)) [
  | inl on ↦
      let low = below.0 on in
      let same : u32 (end_address e) ≡ e.addr + e.len = omega arith in
      rw (on, same)
        (scan_max-highest es (if ltb m (e.addr + e.len) then e.addr + e.len else m) below.1
          ∙ higher_of_three m (e.addr + e.len) (highest_end es))
  | inr off ↦ rw off (scan_max-highest es m below.1)
]

FirstFit-place :
    (words : ℕ) {es : List MmapEntry} {a : ℕ}
    → words * 4 < 2 ^ 32
    → Below4G es
    → FirstFit (words * 4) es a
    → place_bitmap es words ≡ a
unfolding place_bitmap
FirstFit-place words small below (here on long) = let low = below.0 on in ground (arith, on)
FirstFit-place words small below (later short rest) =
    let found = FirstFit-place words small below.1 rest in ground (arith, short)

FirstFit-aligned :
    {bytes : ℕ} {es : List MmapEntry} {a : ℕ}
    → AlignedStarts es
    → FirstFit bytes es a
    → a % 4096 ≡ 0
FirstFit-aligned aligned (here on long) = aligned.0 on
FirstFit-aligned aligned (later short rest) = FirstFit-aligned aligned.1 rest

is_in_map-memory :
    (es : List MmapEntry) (j : ℕ) → Below4G es → AlignedStarts es → is_in_map es j ≡ is_memory es j
is_in_map-memory [] j below aligned = refl
is_in_map-memory (e ∷ es) j below aligned = elim (Bool-cases (is_available e)) [
  | inl on ↦
      let low = below.0 on in
      let start = aligned.0 on in rw (on, is_in_map-memory es j below.1 aligned.1) (ground arith)
  | inr off ↦ rw off (is_in_map-memory es j below.1 aligned.1)
]

-- The allocator `s` for the map `es`, with its bitmap of `bytes` bytes at `a`.
pub record Ready (es : List MmapEntry) (a bytes : ℕ) (s : Pmm) : Type 0 where
  pub valid : IsValid s
  pub size : s.max_blocks ≡ highest_end es / 4096
  pub counter_above : bytes < s.used_blocks * 4096
  pub counter_below : s.used_blocks * 4096 ≤ bytes + 4096
  pub frames :
      (j : ℕ)
      → j < s.max_blocks
      → used s.bitmap j ≡ (if is_taken a bytes j then 1 else if is_memory es j then 0 else 1)

Booted-Ready :
    {es : List MmapEntry} {a : ℕ} {s : Pmm}
    → Below4G es
    → AlignedStarts es
    → scan_max es 0 ≡ highest_end es
    → a % 4096 ≡ 0
    → bitmap_address es ≡ a
    → bitmap_entries es * 4 ≡ bitmap_bytes es
    → Booted es s
    → Ready es a (bitmap_bytes es) s
Booted-Ready {es} {a} below aligned highest page place bytes booted = record {
  valid = booted.valid;
  size = omega (arith, booted.size);
  counter_above = omega (arith, booted.counter);
  counter_below = omega (arith, booted.counter);
  frames = λ j h. ground (arith, booted.frames j h, is_in_map-memory es j below aligned);
}

-- Take a memory map whose available regions begin at page boundaries and end below 4 GiB, and let the
-- first available region that has room for a bit for each page frame below the highest end begin at
-- `a`, with at least one more page between the bitmap there and the highest end. Then `pmm_init` returns a valid allocator of as
-- many frames as there are whole pages below the highest end, in which a frame is free exactly when it lies in an available region,
-- has no byte of the bitmap and does not begin where the bitmap ends; its counter is the least number of pages that is more than the bitmap's bytes.
pub pmm_init-Ready :
    (es : List MmapEntry) (a : ℕ)
    → Below4G es
    → AlignedStarts es
    → FirstFit (bitmap_bytes es) es a
    → a + bitmap_bytes es + 4096 ≤ highest_end es
    → (s : Pmm) × (pmm_init es ≡ done s) × Ready es a (bitmap_bytes es) s
pmm_init-Ready es a below aligned fit room =
    let highest : scan_max es 0 ≡ highest_end es = ground (arith, scan_max-highest es 0 below) in
    let low = scan_max-lt es 0 (omega arith) in
    let words : bitmap_entries es ≡ (highest_end es / 4096 + 31) / 32 = omega arith in
    let page = FirstFit-aligned aligned fit in
    let place : bitmap_address es ≡ a =
      ap (λ n. place_bitmap es n) words
      ∙ FirstFit-place ((highest_end es / 4096 + 31) / 32) (omega arith) below fit in
    let (s, returns, booted) = pmm_init-Booted es below (omega arith) (omega arith) in
    (s, returns, Booted-Ready below aligned highest page place (omega arith) booted)
