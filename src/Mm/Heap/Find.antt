-- ===== src/Mm/Heap/Find.antt =====
-- The walks over the list: `find_free_block` is first fit, and the two sums are those of the list.
use holyos.Base.{
  ℕ, zero, suc, ◌+◌, ◌^◌, ◌<◌, ◌≤◌, ◌≡◌, ◌≢◌, ◌⊎◌, inl, inr, refl, sym, ◌∙◌, ap, List, [], ◌∷◌,
  ◌++◌, Bool, true, false, not, ◌&&◌, done, ◌!=◌, leb, if◌then◌else◌, u32, arith, length,
  Bool-cases, ==_ne,
}
use holyos.Cpu.Spinlock.{spinlock_lock, spinlock_unlock}
use holyos.Mm.Heap.{
  Heap, header_size, find_loop, find_free_block, sum_loop, unlocked, get_allocated_memory,
  get_free_memory, get_heap_size,
}
use holyos.Mm.Heap.Source.{Block}
use holyos.Mm.Heap.Blocks.{Piece, first_or, Chain, Tiles, Holds, is_free}

abbrev pub fits : ℕ → Piece → Bool
fits size g = is_free g && leb size g.size

-- The first block of the list that is free and large enough; 0 if there is none.
unfoldable pub first_fit : ℕ → List Piece → ℕ
first_fit size [] = 0
first_fit size (g ∷ gs) = let later = first_fit size gs in if fits size g then g.at else later

pub find_loop-first_fit :
    (fuel : ℕ) (ram : ℕ → Block) (size : ℕ) (gs : List Piece)
    → length gs < fuel
    → Chain ram gs 0
    → find_loop fuel ram size (first_or gs 0) ≡ done (first_fit size gs)
unfolding find_loop first_fit
find_loop-first_fit zero ram size gs enough c = absurd (omega arith)
find_loop-first_fit (suc fuel) ram size [] enough c = refl
find_loop-first_fit (suc fuel) ram size (g ∷ gs) enough c =
    ground (arith, c.0, c.1, find_loop-first_fit fuel ram size gs)

pub find_free_block-first_fit :
    {S : Type 0} {lock : ℕ} {s : Heap S} (gs : List Piece) (fuel size : ℕ)
    → length gs < fuel
    → Holds lock s gs
    → find_free_block fuel size s ≡ done (first_fit size gs)
unfolding find_free_block
find_free_block-first_fit {s} gs fuel size enough h =
    ap (λ p. find_loop fuel s.ram size p) h.start
    ∙ find_loop-first_fit fuel s.ram size gs enough h.chain

-- A block that is found splits the list at the first block that fits.
pub record Found (size : ℕ) (gs : List Piece) (block : ℕ) : Type 0 where
  pub before : List Piece
  pub piece : Piece
  pub behind : List Piece
  pub splits : gs ≡ before ++ piece ∷ behind
  pub at : piece.at ≡ block
  pub free : piece.used ≡ 0
  pub large : size ≤ piece.size

first_fit-cons :
    (size : ℕ) (g : Piece) (gs : List Piece)
    → ((fits size g ≡ true) × (first_fit size (g ∷ gs) ≡ g.at))
      ⊎ ((fits size g ≡ false) × (first_fit size (g ∷ gs) ≡ first_fit size gs))
unfolding first_fit
first_fit-cons size g gs = elim (Bool-cases (fits size g)) [
  | inl yes_fits ↦ inl (yes_fits, rw yes_fits)
  | inr no_fit ↦ inr (no_fit, rw no_fit)
]

pub first_fit-Found :
    (size : ℕ) (gs : List Piece) {block : ℕ}
    → first_fit size gs ≡ block
    → block ≢ 0
    → Found size gs block
first_fit-Found size [] e nonzero = absurd (nonzero (sym (unfold first_fit in e)))
first_fit-Found size (g ∷ gs) {block} e nonzero = elim (first_fit-cons size g gs) [
  | inl (fit, here) ↦ record {
    before = [];
    piece = g;
    behind = gs;
    splits = refl;
    at = sym here ∙ e;
    free = ground arith;
    large = ground arith;
  }
  | inr (unfit, later) ↦
      let rest = first_fit-Found size gs (sym later ∙ e) nonzero in
      record {
        before = g ∷ rest.before;
        piece = rest.piece;
        behind = rest.behind;
        splits = ap (λ xs. g ∷ xs) rest.splits;
        at = rest.at;
        free = rest.free;
        large = rest.large;
      }
]

-- The bytes of the used and of the free blocks, and of all headers.
abbrev pub amount : Bool → Piece → ℕ
amount of_used g =
    if g.used != 0 then (if of_used then g.size else 0) else if of_used then 0 else g.size

abbrev pub bytes : Bool → List Piece → ℕ
bytes of_used [] = 0
bytes of_used (g ∷ gs) = amount of_used g + bytes of_used gs

abbrev pub header_bytes : List Piece → ℕ
header_bytes [] = 0
header_bytes (g ∷ gs) = header_size + header_bytes gs

counted :
    (of_used : Bool) (g : Piece) (total : ℕ)
    → total + amount of_used g < 2 ^ 32
    → (if (if g.used != 0 then of_used else not of_used) then u32 (total + g.size) else total)
      ≡ total + amount of_used g
counted true g total small = ground arith
counted false g total small = ground arith

sum_loop-cons :
    (fuel : ℕ) (of_used : Bool) (ram : ℕ → Block) (g : Piece) (gs : List Piece) (total : ℕ)
    → Chain ram (g ∷ gs) 0
    → sum_loop (suc fuel) of_used ram g.at total
      ≡ sum_loop fuel of_used ram
          (first_or gs 0)
          (if (if g.used != 0 then of_used else not of_used) then u32 (total + g.size) else total)
unfolding sum_loop
sum_loop-cons fuel of_used ram g gs total c = rw (==_ne g.at 0 c.0, c.1)

sum_loop-bytes :
    (fuel : ℕ) (of_used : Bool) (ram : ℕ → Block) (gs : List Piece) (total : ℕ)
    → length gs < fuel
    → total + bytes of_used gs < 2 ^ 32
    → Chain ram gs 0
    → sum_loop fuel of_used ram (first_or gs 0) total ≡ done (total + bytes of_used gs)
unfolding sum_loop
sum_loop-bytes zero of_used ram gs total enough small c = absurd (omega arith)
sum_loop-bytes (suc fuel) of_used ram [] total enough small c =
    ap (λ n. done n) {x = total} {y = total + 0} (omega arith)
sum_loop-bytes (suc fuel) of_used ram (g ∷ gs) total enough small c =
    sum_loop-cons fuel of_used ram g gs total c
    ∙ ap (λ n. sum_loop fuel of_used ram (first_or gs 0) n) (counted of_used g total (omega arith))
    ∙ sum_loop-bytes fuel of_used ram gs (total + amount of_used g) (omega arith) (omega arith) c.2
    ∙ ap (λ n. done n) {x = total + amount of_used g + bytes of_used gs}
        {y = total + bytes of_used (g ∷ gs)} (omega arith)

Tiles-bytes :
    (lo : ℕ) (gs : List Piece) (hi : ℕ)
    → Tiles lo gs hi
    → lo + (bytes true gs + bytes false gs + header_bytes gs) ≡ hi
Tiles-bytes lo [] hi t = omega arith
Tiles-bytes lo (g ∷ gs) hi t = ground (arith, Tiles-bytes (lo + header_size + g.size) gs hi t.1)

-- With the lock free, `get_allocated_memory` and `get_free_memory` return the bytes of the used and of
-- the free blocks, these two and the headers of all blocks make up what `get_heap_size` returns, and
-- none of the three changes the heap.
pub memory_accounts :
    {S : Type 0} {s : Heap S} (gs : List Piece) (fuel : ℕ)
    → length gs < fuel
    → Holds 0 s gs
    → (get_allocated_memory fuel s ≡ done (bytes true gs, s))
      × (get_free_memory fuel s ≡ done (bytes false gs, s))
      × (get_heap_size s ≡ done (bytes true gs + bytes false gs + header_bytes gs, s))
unfolding get_allocated_memory get_free_memory get_heap_size spinlock_lock spinlock_unlock unlocked
memory_accounts {s} gs fuel enough h =
    let whole = Tiles-bytes s.heap_start gs (s.heap_start + s.heap_size) h.tiles in
    let summed : (of_used : Bool)
        → bytes of_used gs < 2 ^ 32
        → sum_loop fuel of_used s.ram s.heap_start 0 ≡ done (bytes of_used gs) =
      λ of_used small.
        ap (λ p. sum_loop fuel of_used s.ram p 0) h.start
        ∙ sum_loop-bytes fuel of_used s.ram gs 0 enough (omega arith) h.chain
        ∙ ap (λ n. done n) {x = 0 + bytes of_used gs} {y = bytes of_used gs} (omega arith) in
    rw (h.locked, summed true (omega (arith, h.bound)), summed false (omega (arith, h.bound)))
      (
        refl,
        refl,
        ap (λ n. done (n, record s { lock = 0 })) {x = s.heap_size}
            {y = bytes true gs + bytes false gs + header_bytes gs} (omega arith),
      )
