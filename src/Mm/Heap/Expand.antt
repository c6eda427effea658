-- ===== src/Mm/Heap/Expand.antt =====
-- `heap_expand`, and `kmalloc` when no block fits.
use holyos.Base.{
  ℕ, zero, suc, ◌+◌, ◌-◌, ◌*◌, ◌^◌, ◌<◌, ◌≡◌, ◌≢◌, ◌⊎◌, inl, inr, refl, sym, ◌∙◌, ap, subst, List,
  [], ◌∷◌, ◌++◌, done, u32, arith, ◌==◌, if◌then◌else◌, ==_ne,
}
use mathlib.Core.List.{append_assoc}
use holyos.Mm.Heap.{Heap, header_size, page_size, update, add_page, expand_loop}
use holyos.Mm.Heap.Source.{Block, PageSource}
use holyos.Mm.Heap.Blocks.{
  Piece, header, Holds, Chain-update, Chain-append, first_or-append, Tiles-append, end_of-append,
}
use holyos.Mm.Heap.Split.{piece, Chain-parts, tile_parts, Apart-before, piece_below}

-- Where the next page will be; a page that is had lies there. `vmm_alloc_page` hands out ascending
-- addresses.
pub record Ascending {S : Type 0} (source : PageSource S) : Type 0 where
  pub next : S → ℕ
  pub steps :
      (p : S)
      → ((source.vmm_alloc_page p).0 ≡ 0)
        ⊎ (((source.vmm_alloc_page p).0 ≡ next p)
            × (next (source.vmm_alloc_page p).2 ≡ next p + page_size))

-- The block of a new page: 4080 bytes, with the `used` byte that was there.
abbrev pub page_piece : ℕ → Block → Piece
page_piece addr old = piece addr (page_size - header_size) old.used

-- The memory with the new block's header written and the old last block pointing to it.
abbrev grown : (ℕ → Block) → Piece → ℕ → Block → ℕ → Block
grown ram g addr old =
    let ram1 = update ram addr (header (page_piece addr old) 0) in
    update ram1 g.at (record (ram1 g.at) { next = addr })

-- The blocks of the first `count` pages that the source hands out, up to the first request that it refuses.
abbrev pub page_pieces : {S : Type 0} → PageSource S → ℕ → S → List Piece
page_pieces source zero p = []
page_pieces source (suc count) p =
    let (addr, old, rest) = source.vmm_alloc_page p in
    let later = page_pieces source count rest in
    if addr == 0 then [] else page_piece addr old ∷ later

page_headers :
    (ram : ℕ → Block) (g : Piece) (old : Block) (addr : ℕ)
    → ram g.at ≡ header g 0
    → addr ≢ g.at
    → (grown ram g addr old g.at ≡ header g addr)
      × (grown ram g addr old addr ≡ header (page_piece addr old) 0)
page_headers ram g old addr e ne = ground arith

module _ {S : Type 0} (source : PageSource S) where
  Holds-pages :
      {lock : ℕ} {s : Heap S} {gs : List Piece} (rest : S)
      → Holds lock s gs
      → Holds lock (record s { pages = rest }) gs
  Holds-pages rest h = record {
    start = h.start;
    chain = h.chain;
    tiles = h.tiles;
    ends = h.ends;
    low = h.low;
    bound = h.bound;
    locked = h.locked;
  }

  -- A page behind the heap's end adds its block to the list.
  add_page-Holds :
      {lock : ℕ} {s : Heap S} (xs : List Piece) (g : Piece) (addr : ℕ) (old : Block) (rest : S)
      → Holds lock s (xs ++ g ∷ [])
      → addr ≡ s.heap_start + s.heap_size
      → addr + page_size < 2 ^ 32
      → (s' : Heap S) × (add_page source addr old rest s ≡ done s')
        × Holds lock s' (xs ++ g ∷ page_piece addr old ∷ [])
        × (s'.pages ≡ rest)
        × (s'.heap_start + s'.heap_size ≡ s.heap_start + s.heap_size + page_size)
  unfolding add_page
  add_page-Holds {s} xs g addr old rest h at small =
      let c = Chain-parts 0 xs g [] h in
      let t = tile_parts 0 xs g [] h in
      let below = piece_below 0 xs g [] h in
      let last : s.heap_end ≡ g.at = h.ends ∙ end_of-append xs g [] in
      let cells = page_headers s.ram g old addr c.1.1 (omega arith) in
      let low = h.low in
      let sum : u32 (s.heap_size + page_size) ≡ s.heap_size + page_size = omega arith in
      (
        record s {
          ram = grown s.ram g addr old;
          heap_end = addr;
          heap_size = s.heap_size + page_size;
          pages = rest;
        },
        rw (last, ==_ne g.at 0 c.1.0, sum),
        record {
          start =
              h.start
              ∙ first_or-append xs (g ∷ []) 0
              ∙ sym (first_or-append xs (g ∷ page_piece addr old ∷ []) 0);
          chain =
              Chain-append (grown s.ram g addr old) xs (g ∷ page_piece addr old ∷ []) 0
                (Chain-update _ g.at _ xs g.at (Apart-before 0 xs g [] h g.at (omega arith)) (
                  Chain-update s.ram addr _ xs g.at (Apart-before 0 xs g [] h addr (omega arith))
                    c.0))
                (c.1.0, cells.0, (omega arith, cells.1, tt));
          tiles =
              Tiles-append s.heap_start xs (g ∷ page_piece addr old ∷ [])
                (s.heap_start + (s.heap_size + page_size)) t.0
                (t.1.0, (omega (arith, t.1.1), omega (arith, t.1.1)));
          ends = sym (end_of-append xs g (page_piece addr old ∷ []));
          low = h.low;
          bound = omega arith;
          locked = h.locked;
        },
        refl,
        omega arith,
      )

  pages-none :
      (rounds : ℕ) (p : S)
      → (source.vmm_alloc_page p).0 ≡ 0
      → page_pieces source (suc rounds) p ≡ []
  pages-none rounds p e = rw e refl

  pages-some :
      (rounds : ℕ) (p : S)
      → (source.vmm_alloc_page p).0 ≢ 0
      → page_pieces source (suc rounds) p
        ≡ page_piece (source.vmm_alloc_page p).0 (source.vmm_alloc_page p).1
          ∷ page_pieces source rounds (source.vmm_alloc_page p).2
  pages-some rounds p ne = rw (==_ne (source.vmm_alloc_page p).0 0 ne) refl

  -- With pages that come at the heap's end, the loop of `heap_expand` returns, and what it adds behind the list is
  -- one block of 4080 bytes for each page that the source hands out, in the order of the pages: as
  -- many as the rounds, or up to the first refusal. The blocks that were there stay as they were.
  pub expand_loop-Holds :
      {lock : ℕ} (ascending : Ascending source) (rounds : ℕ) (xs : List Piece) (g : Piece)
      {s : Heap S}
      → Holds lock s (xs ++ g ∷ [])
      → ascending.next s.pages ≡ s.heap_start + s.heap_size
      → s.heap_start + s.heap_size + rounds * page_size < 2 ^ 32
      → (s' : Heap S) × (expand_loop source rounds s ≡ done s')
        × Holds lock s' (xs ++ g ∷ page_pieces source rounds s.pages)
  unfolding expand_loop
  expand_loop-Holds ascending zero xs g {s} h at small = (s, refl, h)
  expand_loop-Holds {lock} ascending (suc rounds) xs g {s} h at small =
      let addr = (source.vmm_alloc_page s.pages).0 in
      let old = (source.vmm_alloc_page s.pages).1 in
      let rest = (source.vmm_alloc_page s.pages).2 in
      elim (ascending.steps s.pages) [
        | inl none_left ↦ (
          record s { pages = rest },
          rw none_left,
          subst (λ ns. Holds lock (record s { pages = rest }) (xs ++ g ∷ ns))
              (sym (pages-none rounds s.pages none_left)) (Holds-pages rest h),
        )
        | inr (there, up) ↦
            let (s1, added, h1, p1, size1) =
              add_page-Holds xs g addr old rest h (there ∙ at) (omega arith) in
            let shift = append_assoc xs (g ∷ []) (page_piece addr old ∷ []) in
            let (s', returned, h') =
              expand_loop-Holds {lock = lock} ascending rounds (xs ++ g ∷ []) (page_piece addr old)
                {s = s1} (subst (λ l. Holds lock s1 l) (sym shift) h1)
                (ap ascending.next p1 ∙ up ∙ ap (λ n. n + page_size) at ∙ sym size1)
                (omega arith) in
            let nonzero : addr ≢ 0 = omega (arith, h.low) in
            let pages =
              pages-some rounds s.pages nonzero
              ∙ ap (λ p. page_piece addr old ∷ page_pieces source rounds p) (sym p1) in
            (
              s',
              rw (==_ne addr 0 nonzero, added) returned,
              subst (λ l. Holds lock s' l)
                  (append_assoc xs (g ∷ [])
                      (page_piece addr old ∷ page_pieces source rounds s1.pages)
                    ∙ ap (λ ns. xs ++ g ∷ ns) (sym pages))
                  h',
            )
      ]
