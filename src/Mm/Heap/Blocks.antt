-- ===== src/Mm/Heap/Blocks.antt =====
-- The list of blocks that the heap's headers hold: a chain of headers that tiles an address range.
use holyos.Base.{
  ℕ, ◌+◌, ◌^◌, ◌<◌, ◌≤◌, ◌≡◌, ◌≢◌, refl, sym, ◌∙◌, ap, List, [], ◌∷◌, ◌++◌, Bool, ◌!=◌, not, arith,
}
use holyos.Mm.Heap.{Heap, heap_magic, header_size, update}
use holyos.Mm.Heap.Source.{Block}

-- A block of the list: where its header is, the bytes behind the header, and the `used` byte.
pub record Piece : Type 0 where
  pub at : ℕ
  pub size : ℕ
  pub used : ℕ

abbrev pub header : Piece → ℕ → Block
header g next = record { magic = heap_magic; size = g.size; next = next; used = g.used }

-- The address that the list begins at, `stop` if it is empty.
abbrev pub first_or : List Piece → ℕ → ℕ
first_or [] stop = stop
first_or (g ∷ gs) stop = g.at

-- The headers of `gs` stand in memory, each pointing to the next and the last one to `stop`.
abbrev pub Chain : (ℕ → Block) → List Piece → ℕ → Type 0
Chain ram [] stop = Unit {0}
Chain ram (g ∷ gs) stop = (g.at ≢ 0) × (ram g.at ≡ header g (first_or gs stop)) × Chain ram gs stop

-- The blocks lie one behind the other and fill the addresses from `lo` up to `hi`.
abbrev pub Tiles : ℕ → List Piece → ℕ → Type 0
Tiles lo [] hi = lo ≡ hi
Tiles lo (g ∷ gs) hi = (g.at ≡ lo) × Tiles (lo + header_size + g.size) gs hi

abbrev pub last_at : Piece → List Piece → ℕ
last_at g [] = g.at
last_at g (n ∷ gs) = last_at n gs

abbrev pub end_of : List Piece → ℕ
end_of [] = 0
end_of (g ∷ gs) = last_at g gs

-- No header of the list is at the address.
abbrev pub Apart : ℕ → List Piece → Type 0
Apart a [] = Unit {0}
Apart a (g ∷ gs) = (g.at ≢ a) × Apart a gs

-- The heap holds the blocks `gs`, which fill its `heap_size` bytes from `heap_start` on; `heap_end` is
-- the last of them. The lock has the given value.
pub record Holds {S : Type 0} (lock : ℕ) (s : Heap S) (gs : List Piece) : Type 0 where
  pub start : s.heap_start ≡ first_or gs 0
  pub chain : Chain s.ram gs 0
  pub tiles : Tiles s.heap_start gs (s.heap_start + s.heap_size)
  pub ends : s.heap_end ≡ end_of gs
  pub low : header_size ≤ s.heap_start
  pub bound : s.heap_start + s.heap_size < 2 ^ 32
  pub locked : s.lock ≡ lock

pub Tiles-le : (lo : ℕ) (gs : List Piece) (hi : ℕ) → Tiles lo gs hi → lo ≤ hi
Tiles-le lo [] hi t = omega arith
Tiles-le lo (g ∷ gs) hi t = omega (arith, Tiles-le (lo + header_size + g.size) gs hi t.1)

pub Apart-below : (a lo : ℕ) (gs : List Piece) (hi : ℕ) → a < lo → Tiles lo gs hi → Apart a gs
Apart-below a lo [] hi h t = tt
Apart-below a lo (g ∷ gs) hi h t =
    (omega arith, Apart-below a (lo + header_size + g.size) gs hi (omega arith) t.1)

pub Apart-above : (a lo : ℕ) (gs : List Piece) (hi : ℕ) → hi ≤ a → Tiles lo gs hi → Apart a gs
Apart-above a lo [] hi h t = tt
Apart-above a lo (g ∷ gs) hi h t = (
  omega (arith, Tiles-le (lo + header_size + g.size) gs hi t.1),
  Apart-above a (lo + header_size + g.size) gs hi h t.1,
)

-- A store elsewhere keeps a chain.
pub Chain-update :
    (ram : ℕ → Block) (a : ℕ) (b : Block) (gs : List Piece) (stop : ℕ)
    → Apart a gs
    → Chain ram gs stop
    → Chain (update ram a b) gs stop
Chain-update ram a b [] stop away c = tt
Chain-update ram a b (g ∷ gs) stop away c =
    (c.0, ground (arith, c.1, away.0), Chain-update ram a b gs stop away.1 c.2)

pub first_or-append :
    (xs ys : List Piece) (stop : ℕ) → first_or (xs ++ ys) stop ≡ first_or xs (first_or ys stop)
first_or-append [] ys stop = refl
first_or-append (x ∷ xs) ys stop = refl

pub Chain-append :
    (ram : ℕ → Block) (xs ys : List Piece) (stop : ℕ)
    → Chain ram xs (first_or ys stop)
    → Chain ram ys stop
    → Chain ram (xs ++ ys) stop
Chain-append ram [] ys stop c d = d
Chain-append ram (x ∷ xs) ys stop c d = (
  c.0,
  c.1 ∙ ap (λ q. header x q) (sym (first_or-append xs ys stop)),
  Chain-append ram xs ys stop c.2 d,
)

pub Chain-take :
    (ram : ℕ → Block) (xs ys : List Piece) (stop : ℕ)
    → Chain ram (xs ++ ys) stop
    → Chain ram xs (first_or ys stop) × Chain ram ys stop
Chain-take ram [] ys stop c = (tt, c)
Chain-take ram (x ∷ xs) ys stop c =
    let (front, back) = Chain-take ram xs ys stop c.2 in
    ((c.0, c.1 ∙ ap (λ q. header x q) (first_or-append xs ys stop), front), back)

-- Where the blocks behind `xs` begin.
abbrev pub after : ℕ → List Piece → ℕ
after lo [] = lo
after lo (g ∷ gs) = after (lo + header_size + g.size) gs

pub Tiles-take :
    (lo : ℕ) (xs ys : List Piece) (hi : ℕ)
    → Tiles lo (xs ++ ys) hi
    → Tiles lo xs (after lo xs) × Tiles (after lo xs) ys hi
Tiles-take lo [] ys hi t = (refl, t)
Tiles-take lo (x ∷ xs) ys hi t =
    let (front, back) = Tiles-take (lo + header_size + x.size) xs ys hi t.1 in ((t.0, front), back)

pub Tiles-append :
    (lo : ℕ) (xs ys : List Piece) (hi : ℕ)
    → Tiles lo xs (after lo xs)
    → Tiles (after lo xs) ys hi
    → Tiles lo (xs ++ ys) hi
Tiles-append lo [] ys hi t u = u
Tiles-append lo (x ∷ xs) ys hi t u = (t.0, Tiles-append (lo + header_size + x.size) xs ys hi t.1 u)

pub last_at_same : (g g' : Piece) (gs : List Piece) → g.at ≡ g'.at → last_at g gs ≡ last_at g' gs
last_at_same g g' [] e = e
last_at_same g g' (n ∷ gs) e = refl

pub last_at-ge :
    (lo : ℕ) (g : Piece) (gs : List Piece) (hi : ℕ) → Tiles lo (g ∷ gs) hi → lo ≤ last_at g gs
last_at-ge lo g [] hi t = omega arith
last_at-ge lo g (n ∷ gs) hi t = omega (arith, last_at-ge (lo + header_size + g.size) n gs hi t.1)

pub end_of-append :
    (xs : List Piece) (g : Piece) (ys : List Piece) → end_of (xs ++ g ∷ ys) ≡ last_at g ys
end_of-append [] g ys = refl
end_of-append (x ∷ []) g ys = refl
end_of-append (x ∷ y ∷ xs) g ys = end_of-append (y ∷ xs) g ys

abbrev pub is_free : Piece → Bool
is_free g = not (g.used != 0)
