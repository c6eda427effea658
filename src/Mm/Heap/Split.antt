-- ===== src/Mm/Heap/Split.antt =====
-- `kmalloc` on a block that is found: the block is cut to size, or taken whole.
use holyos.Base.{
  ℕ, ◌+◌, ◌-◌, ◌*◌, ◌/◌, ◌%◌, ◌^◌, ◌<◌, ◌≤◌, ◌≡◌, inl, inr, refl, sym, ◌∙◌, ap, subst, List, [],
  ◌∷◌, ◌++◌, true, false, ◌==◌, leb, if◌then◌else◌, u32, sub32, arith, Bool-cases, bit_and,
  bit_and_high,
}
use holyos.Cpu.Spinlock.{spinlock_unlock}
use holyos.Mm.Heap.{
  Heap, heap_magic, header_size, heap_alignment, update, align, split_block, mark, unlocked,
  take_found,
}
use holyos.Mm.Heap.Source.{Block, PageSource}
use holyos.Mm.Heap.Blocks.{
  Piece, header, first_or, Chain, Tiles, Tiles-le, last_at, Apart, Holds, Apart-below, Apart-above,
  Chain-update, Chain-append, Chain-take, first_or-append, after, Tiles-take, Tiles-append,
  end_of-append, last_at_same, last_at-ge,
}

abbrev pub piece : ℕ → ℕ → ℕ → Piece
piece at size used = record { at = at; size = size; used = used }

-- What becomes of a block, followed by `gs`, when `size` bytes of it are handed out.
abbrev pub served : ℕ → Piece → List Piece → List Piece
served size g gs =
    if leb (size + header_size + heap_alignment) g.size
    then piece g.at size 1 ∷ piece (g.at + header_size + size) (g.size - size - header_size) 0 ∷ gs
    else piece g.at g.size 1 ∷ gs

-- `align` rounds up to the next multiple of 16, as long as that is below 2 ^ 32.
pub align_lem :
    (size : ℕ)
    → size + heap_alignment ≤ 2 ^ 32
    → (align size % heap_alignment ≡ 0) × (size ≤ align size) × (align size < size + heap_alignment)
unfolding align
align_lem size h = omega (
  arith,
  bit_and_high 4 28 ((size + 15) / 16) ((size + 15) % 16) (omega arith) (omega arith),
  ap (λ (n : ℕ). bit_and n (2 ^ 32 - heap_alignment)) {x = u32 (size + heap_alignment - 1)}
      {y = (size + 15) / 16 * 16 + (size + 15) % 16} (omega arith),
)

-- A request within 15 bytes of 2 ^ 32 is rounded to 0.
pub align_wraps : (size : ℕ) → 2 ^ 32 < size + heap_alignment → size < 2 ^ 32 → align size ≡ 0
unfolding align
align_wraps size h small =
    ap (λ (n : ℕ). bit_and n (2 ^ 32 - heap_alignment)) {x = u32 (size + heap_alignment - 1)}
      {y = 0 * 2 ^ 4 + (size - (2 ^ 32 - 15))} (omega arith)
    ∙ bit_and_high 4 28 0 (size - (2 ^ 32 - 15)) (omega arith) (omega arith)

-- The two headers that `split_block` writes.
split_headers :
    (ram : ℕ → Block) (g : Piece) (size q : ℕ)
    → ram g.at ≡ header g q
    → size + header_size ≤ g.size
    → g.at + header_size + g.size < 2 ^ 32
    → let b = ram g.at in
      let new_block = u32 (g.at + header_size + size) in
      let back = record b {
        magic = heap_magic;
        size = sub32 (sub32 b.size size) header_size;
        used = 0;
      } in
      let ram1 = update ram new_block back in
      let ram2 = update ram1 g.at (record (ram1 g.at) { size = size; next = new_block }) in
      (ram2 g.at ≡ header (piece g.at size g.used) (g.at + header_size + size))
      × (ram2 (g.at + header_size + size)
          ≡ header (piece (g.at + header_size + size) (g.size - size - header_size) 0) q)
split_headers ram g size q e room small =
    let low : u32 (g.at + header_size + size) ≡ g.at + header_size + size = omega arith in
    let left : sub32 (sub32 g.size size) header_size ≡ g.size - size - header_size = omega arith in
    rw (low, e, left) (ground arith)

split_end :
    (g : Piece) (size : ℕ) (ys : List Piece) (hi : ℕ)
    → Tiles (g.at + header_size + g.size) ys hi
    → g.at + header_size + g.size < 2 ^ 32
    → size + header_size ≤ g.size
    → (if g.at == last_at g ys then u32 (g.at + header_size + size) else last_at g ys)
      ≡ last_at (piece (g.at + header_size + size) (g.size - size - header_size) 0) ys
split_end g size [] hi t small room = ground arith
split_end g size (n ∷ ys) hi t small room =
    ground (arith, last_at-ge (g.at + header_size + g.size) n ys hi t)

module _ {S : Type 0} {lock : ℕ} {s : Heap S} (size : ℕ) (xs : List Piece) (g : Piece)
    (ys : List Piece) (h : Holds lock s (xs ++ g ∷ ys)) where
  -- What the chain and the tiling say of the block and of the blocks on both sides.
  pub Chain-parts : Chain s.ram xs g.at × Chain s.ram (g ∷ ys) 0
  Chain-parts = Chain-take s.ram xs (g ∷ ys) 0 h.chain

  pub tile_parts :
      Tiles s.heap_start xs (after s.heap_start xs)
      × Tiles (after s.heap_start xs) (g ∷ ys) (s.heap_start + s.heap_size)
  tile_parts = Tiles-take s.heap_start xs (g ∷ ys) (s.heap_start + s.heap_size) h.tiles

  pub Apart-before : (a : ℕ) → g.at ≤ a → Apart a xs
  Apart-before a low =
      Apart-above a s.heap_start xs (after s.heap_start xs) (omega (arith, tile_parts.1))
        tile_parts.0

  pub Apart-behind : (a : ℕ) → a < g.at + header_size + g.size → Apart a ys
  Apart-behind a low =
      Apart-below a (after s.heap_start xs + header_size + g.size) ys (s.heap_start + s.heap_size)
        (omega (arith, tile_parts.1.0)) tile_parts.1.1

  pub piece_below : g.at + header_size + g.size ≤ s.heap_start + s.heap_size
  piece_below = omega (
    arith,
    tile_parts.1.0,
    Tiles-le (after s.heap_start xs + header_size + g.size) ys (s.heap_start + s.heap_size)
        tile_parts.1.1,
  )

  -- Replacing the header of a block by one of the same place, size and successor.
  pub Holds-mark : (flag : ℕ) → Holds lock (mark g.at flag s) (xs ++ piece g.at g.size flag ∷ ys)
  unfolding mark
  Holds-mark flag = record {
    start =
        h.start
        ∙ first_or-append xs (g ∷ ys) 0
        ∙ sym (first_or-append xs (piece g.at g.size flag ∷ ys) 0);
    chain =
        let b = record (s.ram g.at) { used = flag } in
        let rest = Chain-parts in
        Chain-append (update s.ram g.at b) xs (piece g.at g.size flag ∷ ys) 0
          (Chain-update s.ram g.at b xs g.at (Apart-before g.at (omega arith)) rest.0)
          (
            rest.1.0,
            ground (arith, rest.1.1),
            Chain-update s.ram g.at b ys 0 (Apart-behind g.at (omega arith)) rest.1.2,
          );
    tiles =
        Tiles-append s.heap_start xs (piece g.at g.size flag ∷ ys) (s.heap_start + s.heap_size)
          tile_parts.0 tile_parts.1;
    ends =
        h.ends
        ∙ end_of-append xs g ys
        ∙ last_at_same g (piece g.at g.size flag) ys refl
        ∙ sym (end_of-append xs (piece g.at g.size flag) ys);
    low = h.low;
    bound = h.bound;
    locked = h.locked;
  }

  abbrev front : Piece
  front = piece g.at size g.used

  abbrev rest_piece : Piece
  rest_piece = piece (g.at + header_size + size) (g.size - size - header_size) 0

  pub Holds-split :
      size + header_size ≤ g.size
      → Holds lock (split_block g.at size s) (xs ++ front ∷ rest_piece ∷ ys)
  unfolding split_block
  Holds-split room = record {
    start =
        h.start
        ∙ first_or-append xs (g ∷ ys) 0
        ∙ sym (first_or-append xs (front ∷ rest_piece ∷ ys) 0);
    chain =
        let c = Chain-parts in
        let low : u32 (g.at + header_size + size) ≡ g.at + header_size + size =
          omega (arith, piece_below, h.bound) in
        let cut =
          split_headers s.ram g size (first_or ys 0) c.1.1 room
            (omega (arith, piece_below, h.bound)) in
        Chain-append _ xs (front ∷ rest_piece ∷ ys) 0
          (Chain-update _ g.at _ xs g.at (Apart-before g.at (omega arith)) (
            Chain-update s.ram (u32 (g.at + header_size + size)) _ xs g.at
              (Apart-before (u32 (g.at + header_size + size)) (omega arith)) c.0))
          (
            c.1.0,
            cut.0,
            (
              omega (arith, c.1.0),
              cut.1,
              Chain-update _ g.at _ ys 0 (Apart-behind g.at (omega arith)) (
                  Chain-update s.ram (u32 (g.at + header_size + size)) _ ys 0
                    (Apart-behind (u32 (g.at + header_size + size)) (omega arith)) c.1.2),
            ),
          );
    tiles =
        Tiles-append s.heap_start xs (front ∷ rest_piece ∷ ys) (s.heap_start + s.heap_size)
          tile_parts.0
          (
            tile_parts.1.0,
            (
              omega (arith, tile_parts.1.0),
              subst (λ lo. Tiles lo ys (s.heap_start + s.heap_size))
                  {x = after s.heap_start xs + header_size + g.size}
                  {y = after s.heap_start xs
                    + header_size
                    + size
                    + header_size
                    + (g.size - size - header_size)}
                  (omega arith) tile_parts.1.1,
            ),
          );
    ends =
        ap (λ e. if g.at == e then u32 (g.at + header_size + size) else e)
          (h.ends ∙ end_of-append xs g ys)
        ∙ split_end g size ys (s.heap_start + s.heap_size)
            (subst (λ lo. Tiles lo ys (s.heap_start + s.heap_size))
              {x = after s.heap_start xs + header_size + g.size} {y = g.at + header_size + g.size}
              (omega (arith, tile_parts.1.0)) tile_parts.1.1)
            (omega (arith, piece_below, h.bound)) room
        ∙ sym (end_of-append xs front (rest_piece ∷ ys));
    low = h.low;
    bound = h.bound;
    locked = h.locked;
  }

pub Holds-unlocked :
    {S : Type 0} {lock : ℕ} {s : Heap S} {gs : List Piece}
    → Holds lock s gs
    → Holds 0 (unlocked s) gs
unfolding unlocked spinlock_unlock
Holds-unlocked h = record {
  start = h.start;
  chain = h.chain;
  tiles = h.tiles;
  ends = h.ends;
  low = h.low;
  bound = h.bound;
  locked = refl;
}

pub Holds-lock :
    {S : Type 0} {lock : ℕ} {s : Heap S} {gs : List Piece}
    → Holds lock s gs
    → Holds 1 (record s { lock = 1 }) gs
Holds-lock h = record {
  start = h.start;
  chain = h.chain;
  tiles = h.tiles;
  ends = h.ends;
  low = h.low;
  bound = h.bound;
  locked = refl;
}

module _ {S : Type 0} (source : PageSource S) (block size : ℕ) (s : Heap S) where
  take_found_cut :
      leb (u32 (size + header_size + heap_alignment)) (s.ram block).size ≡ true
      → take_found source block size s
        ≡ (u32 (block + header_size), unlocked (mark block 1 (split_block block size s)))
  unfolding take_found
  take_found_cut e = rw e

  take_found_whole :
      leb (u32 (size + header_size + heap_alignment)) (s.ram block).size ≡ false
      → take_found source block size s ≡ (u32 (block + header_size), unlocked (mark block 1 s))
  unfolding take_found
  take_found_whole e = rw e

-- When the search finds a block, `kmalloc` hands out the memory behind its header; the block becomes a
-- used one of the requested size followed by a free one with the rest, or a used one of its old size
-- where the rest would be too small, and no other block changes.
pub take_found-Holds :
    {S : Type 0} {s : Heap S} (source : PageSource S) (size : ℕ) (xs : List Piece) (g : Piece)
    (ys : List Piece)
    → Holds 1 s (xs ++ g ∷ ys)
    → size ≤ g.size
    → ((take_found source g.at size s).0 ≡ g.at + header_size)
      × Holds 0 (take_found source g.at size s).1 (xs ++ served size g ys)
take_found-Holds {s} source size xs g ys h large =
    let c = Chain-parts size xs g ys h in
    let below = piece_below size xs g ys h in
    let above = Tiles-le s.heap_start xs (after s.heap_start xs) (tile_parts size xs g ys h).0 in
    let address : u32 (g.at + header_size) ≡ g.at + header_size = omega (arith, h.bound) in
    let wide : u32 (size + header_size + heap_alignment) ≡ size + header_size + heap_alignment =
      omega (arith, h.bound, h.low, (tile_parts size xs g ys h).1.0) in
    elim (Bool-cases (leb (size + header_size + heap_alignment) g.size)) [
      | inl cut ↦
          rw (take_found_cut source g.at size s (rw (wide, c.1.1) cut), cut)
            (
              address,
              Holds-unlocked (
                  Holds-mark size xs (piece g.at size g.used)
                    (piece (g.at + header_size + size) (g.size - size - header_size) 0 ∷ ys)
                    (Holds-split size xs g ys h (ground arith)) 1),
            )
      | inr whole ↦
          rw (take_found_whole source g.at size s (rw (wide, c.1.1) whole), whole)
            (address, Holds-unlocked (Holds-mark size xs g ys h 1))
    ]
