-- ===== src/Mm/Heap/Restore.antt =====
-- `kfree` after `kmalloc`.
use holyos.Base.{
  ℕ, ◌+◌, ◌-◌, ◌<◌, ◌≡◌, ◌≢◌, ◌⊎◌, refl, sym, ◌∙◌, ap, ap₂, List, [], ◌∷◌, ◌++◌, done, length, true,
  ◌&&◌, leb, arith, Bool-cases, subst, inl, inr, length-append,
}
use holyos.Mm.Heap.{Heap, header_size, heap_alignment, align, kmalloc, kfree}
use holyos.Mm.Heap.Source.{PageSource}
use holyos.Mm.Heap.Split.{piece, served}
use holyos.Mm.Heap.Blocks.{Piece, Holds, is_free}
use holyos.Mm.Heap.Find.{first_fit}
use holyos.Mm.Heap.Kmalloc.{kmalloc-Served}
use holyos.Mm.Heap.Merge.{join, coalesce_from, coalesce, kfree-coalesce}
use holyos.Mm.Heap.Coalesce.{NoFreePair, from_joined, from_kept}

coalesce_from-same :
    (g : Piece) (gs : List Piece) → NoFreePair (g ∷ gs) → coalesce_from g gs ≡ g ∷ gs
coalesce_from-same g [] apart = unfold coalesce_from in refl
coalesce_from-same g (n ∷ gs) apart =
    from_kept g n gs apart.0 ∙ ap (λ xs. g ∷ xs) (coalesce_from-same n gs apart.1)

module _ (a b : Piece) (ys : List Piece) (both : (is_free a && is_free b) ≡ true) where
  coalesce_from-parts : NoFreePair (join a b ∷ ys) → coalesce_from a (b ∷ ys) ≡ join a b ∷ ys
  coalesce_from-parts apart = from_joined a b ys both ∙ coalesce_from-same (join a b) ys apart

  coalesce_from-behind :
      (p : Piece) (xs : List Piece)
      → NoFreePair (p ∷ xs ++ join a b ∷ ys)
      → coalesce_from p (xs ++ a ∷ b ∷ ys) ≡ p ∷ xs ++ join a b ∷ ys
  coalesce_from-behind p [] apart =
      from_kept p a (b ∷ ys) apart.0 ∙ ap (λ gs. p ∷ gs) (coalesce_from-parts apart.1)
  coalesce_from-behind p (x ∷ xs) apart =
      from_kept p x (xs ++ a ∷ b ∷ ys) apart.0
      ∙ ap (λ gs. p ∷ gs) (coalesce_from-behind x xs apart.1)

  -- Two parts of a block are joined again.
  coalesce-parts :
      (xs : List Piece)
      → NoFreePair (xs ++ join a b ∷ ys)
      → coalesce (xs ++ a ∷ b ∷ ys) ≡ xs ++ join a b ∷ ys
  unfolding coalesce
  coalesce-parts [] apart = coalesce_from-parts apart
  coalesce-parts (x ∷ xs) apart = coalesce_from-behind x xs apart

coalesce-same : (gs : List Piece) → NoFreePair gs → coalesce gs ≡ gs
unfolding coalesce
coalesce-same [] apart = refl
coalesce-same (g ∷ gs) apart = coalesce_from-same g gs apart

free_piece : (g : Piece) (size : ℕ) → size ≡ g.size → g.used ≡ 0 → piece g.at size 0 ≡ g
free_piece g size e f = ap₂ (λ k u. piece g.at k u) e (sym f)

-- What `kmalloc` makes of a block: all of it, or two parts.
served-cases :
    (size : ℕ) (g : Piece) (gs : List Piece)
    → g.used ≡ 0
    → (served size g gs ≡ piece g.at g.size 1 ∷ gs)
      ⊎ ((b : Piece) × (served size g gs ≡ piece g.at size 1 ∷ b ∷ gs)
          × (is_free b ≡ true)
          × (join (piece g.at size 0) b ≡ g))
served-cases size g gs free = elim (Bool-cases (leb (size + header_size + heap_alignment) g.size)) [
  | inr small ↦ inl (rw small)
  | inl large ↦ inr (
    piece (g.at + header_size + size) (g.size - size - header_size) 0,
    rw large,
    refl,
    free_piece g (size + header_size + (g.size - size - header_size)) (ground (arith, large)) free,
  )
]

-- Freeing a block that `kmalloc` made of `g` gives the list with `g` back.
kfree-served :
    {S : Type 0} {s : Heap S} (fuel size : ℕ) (xs : List Piece) (g : Piece) (ys : List Piece)
    → length (xs ++ g ∷ ys) < fuel
    → g.used ≡ 0
    → NoFreePair (xs ++ g ∷ ys)
    → Holds 0 s (xs ++ served size g ys)
    → (s' : Heap S) × (kfree fuel (g.at + header_size) s ≡ done s') × Holds 0 s' (xs ++ g ∷ ys)
kfree-served {s = s} fuel size xs g ys enough free apart h = elim (served-cases size g ys free) [
  | inl whole ↦
      let all = piece g.at g.size 1 in
      let (s', returned, holds) =
        kfree-coalesce fuel xs all ys
          (omega (arith, length-append xs (g ∷ ys), length-append xs (all ∷ ys)))
          (subst (λ l. Holds 0 s (xs ++ l)) whole h) in
      let same = ap (λ b. xs ++ b ∷ ys) (free_piece g g.size refl free) in
      (
        s',
        returned,
        subst (λ l. Holds 0 s' l) (ap coalesce same ∙ coalesce-same (xs ++ g ∷ ys) apart) holds,
      )
  | inr (b, split, rest, whole) ↦
      let part = piece g.at size 1 in
      let (s', returned, holds) =
        kfree-coalesce fuel xs part (b ∷ ys)
          (omega (arith, length-append xs (g ∷ ys), length-append xs (part ∷ b ∷ ys)))
          (subst (λ l. Holds 0 s (xs ++ l)) split h) in
      let same = ap (λ k. xs ++ k ∷ ys) whole in
      (
        s',
        returned,
        subst (λ l. Holds 0 s' l)
            (coalesce-parts (piece g.at size 0) b ys rest xs
                (subst (λ l. NoFreePair l) (sym same) apart)
              ∙ same)
            holds,
      )
]

-- On a heap with the lock free and without two free neighbours, for a request of at least one byte for
-- which some free block is large enough, `kmalloc` returns an address, and `kfree` of this address returns
-- with the list of blocks as it was before the request: the same addresses, sizes and marks, and the lock free.
pub kfree-kmalloc :
    {S : Type 0} (source : PageSource S) (fuel size : ℕ) {s : Heap S} (gs : List Piece)
    → length gs < fuel
    → size ≢ 0
    → Holds 0 s gs
    → NoFreePair gs
    → first_fit (align size) gs ≢ 0
    → (ptr : ℕ) × (s1 : Heap S) × (s2 : Heap S) × (kmalloc source fuel size s ≡ done (ptr, s1))
      × (kfree fuel ptr s1 ≡ done s2)
      × Holds 0 s2 gs
kfree-kmalloc source fuel size gs enough nonzero h apart found =
    let k = kmalloc-Served source fuel size gs enough nonzero h found in
    let (s2, freed, holds) =
      kfree-served fuel (align size) k.before k.piece k.behind
        (subst (λ l. length l < fuel) k.splits enough) k.free
        (subst (λ l. NoFreePair l) k.splits apart) k.holds in
    (
      k.piece.at + header_size,
      k.heap,
      s2,
      k.returns,
      freed,
      subst (λ l. Holds 0 s2 l) (sym k.splits) holds,
    )
