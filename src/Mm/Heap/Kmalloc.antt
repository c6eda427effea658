-- ===== src/Mm/Heap/Kmalloc.antt =====
-- `kmalloc` when the list has a block that fits.
use holyos.Base.{
  ℕ, ◌+◌, ◌<◌, ◌≤◌, ◌≡◌, ◌≢◌, refl, sym, ◌∙◌, ap, subst, List, ◌∷◌, ◌++◌, Run, done, arith, length,
  ==_ne,
}
use holyos.Cpu.Spinlock.{spinlock_lock}
use holyos.Mm.Heap.{Heap, header_size, align, find_free_block, take_found, kmalloc_locked, kmalloc}
use holyos.Mm.Heap.Source.{PageSource}
use holyos.Mm.Heap.Blocks.{Piece, Holds}
use holyos.Mm.Heap.Find.{first_fit, first_fit-Found, find_free_block-first_fit}
use holyos.Mm.Heap.Split.{served, take_found-Holds, Holds-lock}

module _ {S : Type 0} (source : PageSource S) where
  pub kmalloc-enters :
      (fuel size : ℕ) (s : Heap S)
      → size ≢ 0
      → s.lock ≡ 0
      → kmalloc source fuel size s ≡ kmalloc_locked source fuel (align size) (record s { lock = 1 })
  unfolding kmalloc spinlock_lock
  kmalloc-enters fuel size s nonzero free = rw (==_ne size 0 nonzero, free)

  locked_found :
      (fuel size block : ℕ) (s : Heap S)
      → find_free_block fuel size s ≡ done block
      → block ≢ 0
      → kmalloc_locked source fuel size s ≡ done (take_found source block size s)
  unfolding kmalloc_locked
  locked_found fuel size block s e nonzero = rw e (ground arith)

-- What a successful search of `kmalloc` leads to.
pub record Served {S : Type 0} (size : ℕ) (gs : List Piece) (result : Run (ℕ × Heap S))
    : Type 0 where
  pub before : List Piece
  pub piece : Piece
  pub behind : List Piece
  pub splits : gs ≡ before ++ piece ∷ behind
  pub first : piece.at ≡ first_fit size gs
  pub free : piece.used ≡ 0
  pub large : size ≤ piece.size
  pub heap : Heap S
  pub returns : result ≡ done (piece.at + header_size, heap)
  pub holds : Holds 0 heap (before ++ served size piece behind)

-- With the lock free, a request of at least one byte for which some free block is large enough is served from the first such block: `kmalloc`
-- returns the address behind its header, the block is used afterwards and cut to the aligned size where
-- the rest can be a block, and the blocks before and behind it stay as they were.
pub kmalloc-Served :
    {S : Type 0} (source : PageSource S) (fuel size : ℕ) {s : Heap S} (gs : List Piece)
    → length gs < fuel
    → size ≢ 0
    → Holds 0 s gs
    → first_fit (align size) gs ≢ 0
    → Served (align size) gs (kmalloc source fuel size s)
kmalloc-Served source fuel size {s} gs enough nonzero h found =
    let f = first_fit-Found (align size) gs refl found in
    let s1 = record s { lock = 1 } in
    let here = subst (λ l. Holds 1 s1 l) f.splits (Holds-lock h) in
    let taken = take_found-Holds source (align size) f.before f.piece f.behind here f.large in
    record {
      before = f.before;
      piece = f.piece;
      behind = f.behind;
      splits = f.splits;
      first = f.at;
      free = f.free;
      large = f.large;
      heap = (take_found source f.piece.at (align size) s1).1;
      returns =
          kmalloc-enters source fuel size s nonzero h.locked
          ∙ locked_found source fuel (align size) f.piece.at s1
              (find_free_block-first_fit gs fuel (align size) enough (Holds-lock h)
                ∙ ap (λ b. done b) (sym f.at))
              (λ e. found (sym f.at ∙ e))
          ∙ ap (λ a. done (a, (take_found source f.piece.at (align size) s1).1)) taken.0;
      holds = taken.1;
    }
