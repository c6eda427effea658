-- ===== src/Mm/Heap/Coalesce.antt =====
-- What joining free neighbours does to the list.
use holyos.Base.{
  ℕ, ◌+◌, ◌≡◌, refl, sym, ◌∙◌, ap, List, [], ◌∷◌, ◌++◌, ◌≤◌, done, length, true, false, ◌&&◌, arith,
  Bool-cases, subst, inl, inr,
}
use holyos.Mm.Heap.{Heap, header_size, kfree}
use holyos.Mm.Heap.Split.{piece}
use holyos.Mm.Heap.Blocks.{Piece, Holds, Tiles, first_or, is_free}
use holyos.Mm.Heap.Find.{amount, bytes}
use holyos.Mm.Heap.Merge.{join, coalesce_from, coalesce, kfree-coalesce}

-- No two neighbours are both free.
abbrev pub NoFreePair : List Piece → Type 0
NoFreePair [] = Unit {0}
NoFreePair (g ∷ []) = Unit {0}
NoFreePair (g ∷ n ∷ gs) = ((is_free g && is_free n) ≡ false) × NoFreePair (n ∷ gs)

module _ (n m : Piece) (gs : List Piece) where
  pub from_joined :
      (is_free n && is_free m) ≡ true → coalesce_from n (m ∷ gs) ≡ coalesce_from (join n m) gs
  unfolding coalesce_from
  from_joined e = rw e

  pub from_kept :
      (is_free n && is_free m) ≡ false → coalesce_from n (m ∷ gs) ≡ n ∷ coalesce_from m gs
  unfolding coalesce_from
  from_kept e = rw e

NoFreePair-cons :
    (g n : Piece) (gs : List Piece)
    → (is_free g && is_free n) ≡ false
    → NoFreePair (coalesce_from n gs)
    → NoFreePair (g ∷ coalesce_from n gs)
NoFreePair-cons g n [] e p = unfold coalesce_from in (e, tt)
NoFreePair-cons g n (m ∷ gs) e p = elim (Bool-cases (is_free n && is_free m)) [
  | inl both ↦
      rw (from_joined n m gs both)
        (NoFreePair-cons g (join n m) gs e (rw (from_joined n m gs both) at p))
  | inr kept ↦ rw (from_kept n m gs kept) (e, rw (from_kept n m gs kept) at p)
]

coalesce_from-NoFreePair : (g : Piece) (gs : List Piece) → NoFreePair (coalesce_from g gs)
coalesce_from-NoFreePair g [] = unfold coalesce_from in tt
coalesce_from-NoFreePair g (n ∷ gs) = elim (Bool-cases (is_free g && is_free n)) [
  | inl both ↦ rw (from_joined g n gs both) (coalesce_from-NoFreePair (join g n) gs)
  | inr kept ↦
      rw (from_kept g n gs kept) (NoFreePair-cons g n gs kept (coalesce_from-NoFreePair n gs))
]

coalesce_from-bytes :
    (g : Piece) (gs : List Piece) → bytes true (coalesce_from g gs) ≡ bytes true (g ∷ gs)
coalesce_from-bytes g [] = unfold coalesce_from in refl
coalesce_from-bytes g (n ∷ gs) = elim (Bool-cases (is_free g && is_free n)) [
  | inl both ↦ rw (from_joined g n gs both) (
      coalesce_from-bytes (join g n) gs
      ∙ ground (arith, ap (λ (k : ℕ). k + bytes true gs) {x = 0} {y = 0} refl))
  | inr kept ↦ rw (from_kept g n gs kept) (ap (λ k. amount true g + k) (coalesce_from-bytes n gs))
]

coalesce_from-Tiles :
    (lo : ℕ) (g : Piece) (gs : List Piece) (hi : ℕ)
    → Tiles lo (g ∷ gs) hi
    → Tiles lo (coalesce_from g gs) hi
coalesce_from-Tiles lo g [] hi t = unfold coalesce_from in t
coalesce_from-Tiles lo g (n ∷ gs) hi t = elim (Bool-cases (is_free g && is_free n)) [
  | inl both ↦ rw (from_joined g n gs both) (
      coalesce_from-Tiles lo (join g n) gs hi (
        t.0,
        subst (λ l. Tiles l gs hi) {x = lo + header_size + g.size + header_size + n.size}
            {y = lo + header_size + (g.size + header_size + n.size)} (omega arith) t.1.1,
      ))
  | inr kept ↦
      rw (from_kept g n gs kept) (t.0, coalesce_from-Tiles (lo + header_size + g.size) n gs hi t.1)
]

coalesce_lem :
    (lo : ℕ) (gs : List Piece) (hi : ℕ)
    → Tiles lo gs hi
    → NoFreePair (coalesce gs)
      × Tiles lo (coalesce gs) hi
      × (bytes true (coalesce gs) ≡ bytes true gs)
coalesce_lem lo [] hi t = unfold coalesce in (tt, t, refl)
coalesce_lem lo (g ∷ gs) hi t =
    unfold coalesce in
    (coalesce_from-NoFreePair g gs, coalesce_from-Tiles lo g gs hi t, coalesce_from-bytes g gs)

-- Freeing one block takes its bytes from the used ones.
bytes-mark :
    (xs : List Piece) (g : Piece) (ys : List Piece)
    → bytes true (xs ++ piece g.at g.size 0 ∷ ys) + amount true g ≡ bytes true (xs ++ g ∷ ys)
bytes-mark [] g ys = ground arith
bytes-mark (x ∷ xs) g ys = omega (arith, bytes-mark xs g ys)

Tiles-mark :
    (lo : ℕ) (xs : List Piece) (g : Piece) (ys : List Piece) (hi : ℕ)
    → Tiles lo (xs ++ g ∷ ys) hi
    → Tiles lo (xs ++ piece g.at g.size 0 ∷ ys) hi
Tiles-mark lo [] g ys hi t = t
Tiles-mark lo (x ∷ xs) g ys hi t = (t.0, Tiles-mark (lo + header_size + x.size) xs g ys hi t.1)

-- A list of blocks covers one range of addresses.
same_start :
    (gs : List Piece) (lo hi lo' : ℕ)
    → Tiles lo gs hi
    → lo' ≡ first_or gs 0
    → header_size ≤ lo'
    → lo ≡ lo'
same_start [] lo hi lo' t start low = absurd (omega arith)
same_start (g ∷ gs) lo hi lo' t start low = omega (arith, t.0)

same_end :
    (gs : List Piece) (lo hi lo' hi' : ℕ) → lo ≡ lo' → Tiles lo gs hi → Tiles lo' gs hi' → hi ≡ hi'
same_end [] lo hi lo' hi' e t u = omega arith
same_end (g ∷ gs) lo hi lo' hi' e t u =
    same_end gs (lo + header_size + g.size) hi (lo' + header_size + g.size) hi' (omega arith) t.1
      u.1

-- Freeing a block of the heap, with the lock free: `kfree` returns with the lock free and a well-formed heap
-- of the same addresses, in which no two neighbours are both free and the used bytes are those before
-- without the block's.
pub kfree-NoFreePair :
    {S : Type 0} {s : Heap S} (fuel : ℕ) (xs : List Piece) (g : Piece) (ys : List Piece)
    → length (xs ++ g ∷ ys) ≤ fuel
    → Holds 0 s (xs ++ g ∷ ys)
    → (s' : Heap S) × (gs : List Piece) × (kfree fuel (g.at + header_size) s ≡ done s')
      × Holds 0 s' gs
      × NoFreePair gs
      × (s'.heap_start ≡ s.heap_start)
      × (s'.heap_size ≡ s.heap_size)
      × (bytes true gs + amount true g ≡ bytes true (xs ++ g ∷ ys))
kfree-NoFreePair {s = s} fuel xs g ys enough h =
    let (s', returned, holds) = kfree-coalesce fuel xs g ys enough h in
    let freed = xs ++ piece g.at g.size 0 ∷ ys in
    let (apart, tiled, kept) =
      coalesce_lem s.heap_start freed (s.heap_start + s.heap_size)
        (Tiles-mark s.heap_start xs g ys (s.heap_start + s.heap_size) h.tiles) in
    let start =
      same_start (coalesce freed) s.heap_start (s.heap_start + s.heap_size) s'.heap_start tiled
        holds.start holds.low in
    let end =
      same_end (coalesce freed) s.heap_start (s.heap_start + s.heap_size) s'.heap_start
        (s'.heap_start + s'.heap_size) start tiled holds.tiles in
    (
      s',
      coalesce freed,
      returned,
      holds,
      apart,
      sym start,
      omega arith,
      ap (λ n. n + amount true g) kept ∙ bytes-mark xs g ys,
    )
