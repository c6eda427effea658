-- ===== src/Mm/Heap/Merge.antt =====
-- `merge_blocks` and `kfree`: neighbouring free blocks become one.
use holyos.Base.{
  ℕ, zero, suc, ◌+◌, ◌^◌, ◌<◌, ◌≤◌, ◌≡◌, ◌≢◌, inl, inr, refl, sym, ◌∙◌, ap, subst, List, [], ◌∷◌,
  ◌++◌, ◌&&◌, done, ◌>>=◌, ◌==◌, if◌then◌else◌, u32, sub32, arith, length, length-append,
  Bool-cases, ==_ne,
}
use mathlib.Core.List.{append_assoc}
use holyos.Cpu.Spinlock.{spinlock_lock}
use holyos.Mm.Heap.{
  Heap, heap_magic, header_size, update, mark, unlocked, merge_loop, merge_blocks, kfree,
}
use holyos.Mm.Heap.Source.{Block}
use holyos.Mm.Heap.Blocks.{
  Piece, header, first_or, Chain, Tiles, Tiles-le, last_at, Holds, Chain-update, Chain-append,
  first_or-append, after, Tiles-append, end_of-append, is_free,
}
use holyos.Mm.Heap.Split.{
  piece, Chain-parts, tile_parts, Apart-before, Apart-behind, piece_below, Holds-mark,
  Holds-unlocked, Holds-lock,
}

-- The list with every run of neighbouring free blocks joined, `g` being the block before `gs`.
abbrev pub join : Piece → Piece → Piece
join g n = piece g.at (g.size + header_size + n.size) g.used

unfoldable pub coalesce_from : Piece → List Piece → List Piece
coalesce_from g [] = g ∷ []
coalesce_from g (n ∷ gs) =
    let joined = coalesce_from (join g n) gs in
    let kept = g ∷ coalesce_from n gs in if is_free g && is_free n then joined else kept

unfoldable pub coalesce : List Piece → List Piece
unfolding coalesce_from
coalesce [] = []
coalesce (g ∷ gs) = coalesce_from g gs

joined_header :
    (ram : ℕ → Block) (g n : Piece) (q : ℕ)
    → ram g.at ≡ header g n.at
    → ram n.at ≡ header n q
    → g.size + header_size + n.size < 2 ^ 32
    → let b = ram g.at in
      let m = ram b.next in
      update ram g.at (record b { size = u32 (b.size + header_size + m.size); next = m.next }) g.at
      ≡ header (join g n) q
joined_header ram g n q e f fits = rw (e, f) (ground arith)

joined_end :
    (ram : ℕ → Block) (g n : Piece) (ys : List Piece)
    → Chain ram ys 0
    → (if first_or ys 0 == 0 then g.at else last_at n ys) ≡ last_at (join g n) ys
joined_end ram g n [] c = refl
joined_end ram g n (y ∷ ys) c = rw (==_ne y.at 0 c.0)

module _ {S : Type 0} where
  abbrev joined_heap : Heap S → ℕ → Heap S
  joined_heap s current =
      let b = s.ram current in
      let n = s.ram b.next in
      record s {
        ram =
            update s.ram current
              (record b { size = u32 (b.size + header_size + n.size); next = n.next });
        heap_end = if n.next == 0 then current else s.heap_end;
      }

  -- Joining two neighbours in memory joins them in the list.
  Holds-join :
      {lock : ℕ} {s : Heap S} (xs : List Piece) (g n : Piece) (ys : List Piece)
      → Holds lock s (xs ++ g ∷ n ∷ ys)
      → Holds lock (joined_heap s g.at) (xs ++ join g n ∷ ys)
  Holds-join {s} xs g n ys h =
      let c = Chain-parts 0 xs g (n ∷ ys) h in
      let t = tile_parts 0 xs g (n ∷ ys) h in
      let fits : g.size + header_size + n.size < 2 ^ 32 = omega (
        arith,
        h.bound,
        Tiles-le (after s.heap_start xs + header_size + g.size + header_size + n.size) ys
            (s.heap_start + s.heap_size) t.1.1.1,
      ) in
      record {
        start =
            h.start
            ∙ first_or-append xs (g ∷ n ∷ ys) 0
            ∙ sym (first_or-append xs (join g n ∷ ys) 0);
        chain =
            Chain-append _ xs (join g n ∷ ys) 0
              (Chain-update s.ram g.at _ xs g.at (Apart-before 0 xs g (n ∷ ys) h g.at (omega arith))
                c.0)
              (
                c.1.0,
                joined_header s.ram g n (first_or ys 0) c.1.1 c.1.2.1 fits,
                Chain-update s.ram g.at _ ys 0 (Apart-behind 0 xs g (n ∷ ys) h g.at (omega arith)).1
                    c.1.2.2,
              );
        tiles = Tiles-append s.heap_start xs (join g n ∷ ys) (s.heap_start + s.heap_size) t.0 (
          t.1.0,
          subst (λ lo. Tiles lo ys (s.heap_start + s.heap_size))
              {x = after s.heap_start xs + header_size + g.size + header_size + n.size}
              {y = after s.heap_start xs + header_size + (g.size + header_size + n.size)}
              (omega arith) t.1.1.1,
        );
        ends =
            rw (c.1.1, c.1.2.1)
              (ap (λ e. if first_or ys 0 == 0 then g.at else e)
                  (h.ends ∙ end_of-append xs g (n ∷ ys))
                ∙ joined_end s.ram g n ys c.1.2.2
                ∙ sym (end_of-append xs (join g n) ys));
        low = h.low;
        bound = h.bound;
        locked = h.locked;
      }

  merge_loop-cons :
      (fuel : ℕ) (s : Heap S) (g n : Piece) (q : ℕ)
      → g.at ≢ 0
      → n.at ≢ 0
      → s.ram g.at ≡ header g n.at
      → s.ram n.at ≡ header n q
      → merge_loop (suc fuel) g.at s ≡ (
          if is_free g && is_free n
          then merge_loop fuel g.at (joined_heap s g.at)
          else merge_loop fuel n.at s)
  unfolding merge_loop
  merge_loop-cons fuel s g n q gz nz e f = rw (e, f, ==_ne g.at 0 gz, ==_ne n.at 0 nz)

  merge_loop-nil :
      (fuel : ℕ) (s : Heap S) (g : Piece)
      → s.ram g.at ≡ header g 0
      → merge_loop (suc fuel) g.at s ≡ done s
  unfolding merge_loop
  merge_loop-nil fuel s g e = rw e (elim (Bool-cases (g.at == 0)) [ inl z ↦ rw z | inr z ↦ rw z ])

  merge_loop-coalesce :
      {lock : ℕ} (fuel : ℕ) (xs : List Piece) (g : Piece) (ys : List Piece) {s : Heap S}
      → length ys < fuel
      → Holds lock s (xs ++ g ∷ ys)
      → (s' : Heap S) × (merge_loop fuel g.at s ≡ done s')
        × Holds lock s' (xs ++ coalesce_from g ys)
  unfolding coalesce_from
  merge_loop-coalesce {lock} zero xs g ys enough h = absurd (omega arith)
  merge_loop-coalesce {lock} (suc fuel) xs g [] {s} enough h =
      (s, merge_loop-nil fuel s g (Chain-parts 0 xs g [] h).1.1, h)
  merge_loop-coalesce {lock} (suc fuel) xs g (n ∷ ys) {s} enough h =
      let c = (Chain-parts 0 xs g (n ∷ ys) h).1 in
      let step = merge_loop-cons fuel s g n (first_or ys 0) c.0 c.2.0 c.1 c.2.1 in
      elim (Bool-cases (is_free g && is_free n)) [
        | inl both ↦
            let (s', returned, holds) =
              merge_loop-coalesce fuel xs (join g n) ys (omega arith) (Holds-join xs g n ys h) in
            (s', step ∙ rw both returned, rw both holds)
        | inr kept ↦
            let shift = append_assoc xs (g ∷ []) (n ∷ ys) in
            let (s', returned, holds) =
              merge_loop-coalesce fuel (xs ++ g ∷ []) n ys (omega arith)
                (subst (λ gs. Holds lock s gs) (sym shift) h) in
            (
              s',
              step ∙ rw kept returned,
              rw kept (
                  subst (λ gs. Holds lock s' gs) (append_assoc xs (g ∷ []) (coalesce_from n ys))
                    holds),
            )
      ]

  merge_blocks-coalesce :
      {lock : ℕ} (fuel : ℕ) (gs : List Piece) {s : Heap S}
      → length gs ≤ fuel
      → 0 < fuel
      → Holds lock s gs
      → (s' : Heap S) × (merge_blocks fuel s ≡ done s') × Holds lock s' (coalesce gs)
  unfolding merge_blocks coalesce
  merge_blocks-coalesce fuel [] {s} enough some h = absurd (omega arith)
  merge_blocks-coalesce fuel (g ∷ gs) {s} enough some h =
      let (s', returned, holds) = merge_loop-coalesce fuel [] g gs (omega arith) h in
      (s', ap (λ p. merge_loop fuel p s) h.start ∙ returned, holds)

length-mark :
    (xs : List Piece) (g n : Piece) (ys : List Piece)
    → length (xs ++ n ∷ ys) ≡ length (xs ++ g ∷ ys)
length-mark xs g n ys = omega (arith, length-append xs (n ∷ ys), length-append xs (g ∷ ys))

kfree-steps :
    {S : Type 0} (fuel ptr block : ℕ) (s : Heap S)
    → ptr ≢ 0
    → s.lock ≡ 0
    → sub32 ptr header_size ≡ block
    → (s.ram block).magic ≡ heap_magic
    → kfree fuel ptr s
      ≡ (merge_blocks fuel (mark block 0 (record s { lock = 1 })) >>= λ s'. done (unlocked s'))
unfolding kfree spinlock_lock
kfree-steps fuel ptr block s nonzero free at magic = rw (==_ne ptr 0 nonzero, free, at, magic)

-- Freeing a block of the heap, with the lock free, returns and frees the lock; its bytes become free, every run of neighbouring free blocks
-- becomes one block, and nothing else of the list changes.
pub kfree-coalesce :
    {S : Type 0} {s : Heap S} (fuel : ℕ) (xs : List Piece) (g : Piece) (ys : List Piece)
    → length (xs ++ g ∷ ys) ≤ fuel
    → Holds 0 s (xs ++ g ∷ ys)
    → (s' : Heap S) × (kfree fuel (g.at + header_size) s ≡ done s')
      × Holds 0 s' (coalesce (xs ++ piece g.at g.size 0 ∷ ys))
kfree-coalesce {s} fuel xs g ys enough h =
    let c = (Chain-parts 0 xs g ys h).1 in
    let below = piece_below 0 xs g ys h in
    let marked = Holds-mark 0 xs g ys (Holds-lock h) 0 in
    let (s', returned, holds) =
      merge_blocks-coalesce fuel (xs ++ piece g.at g.size 0 ∷ ys)
        (omega (arith, length-mark xs g (piece g.at g.size 0) ys))
        (omega (arith, length-append xs (g ∷ ys))) marked in
    (
      unlocked s',
      kfree-steps fuel (g.at + header_size) g.at s (omega arith) h.locked (omega (arith, h.bound))
            (ap (λ (b : Block). b.magic) c.1)
          ∙ rw returned,
      Holds-unlocked holds,
    )

-- An address behind which no header of the heap lies is ignored: nothing changes.
pub kfree-ignored :
    {S : Type 0} (fuel ptr : ℕ) (s : Heap S)
    → s.lock ≡ 0
    → ptr ≢ 0
    → (s.ram (sub32 ptr header_size)).magic ≢ heap_magic
    → kfree fuel ptr s ≡ done s
unfolding kfree spinlock_lock unlocked
kfree-ignored fuel ptr s free nonzero bad = ground arith
