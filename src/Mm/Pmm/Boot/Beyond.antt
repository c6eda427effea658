-- ===== src/Mm/Pmm/Boot/Beyond.antt =====
-- `pmm_init` on a memory map with memory past the frames of the bitmap.
use holyos.Base.{
  ℕ, zero, suc, ◌+◌, ◌-◌, ◌*◌, ◌/◌, ◌<◌, ◌≡◌, ◌⊎◌, inl, inr, refl, ◌∙◌, List, [], ◌∷◌, true, done,
  fault, arith, length, replicate, length-replicate, length-set, Bool-cases,
}
use native.Mathlib.Decide.{dec_lt}
use holyos.Mm.Pmm.{pmm_bits_per_entry}
use holyos.Mm.Pmm.Frames.{put, clear_word, pmm_clear_bit-put, pmm_clear_bit-fault}
use holyos.Mm.Pmm.Boot.{
  MmapEntry, is_available, clear_range, start_block, end_block, free_available, bitmap_entries,
  pmm_init,
}
use holyos.Mm.Pmm.Boot.Ranges.{clear_range-fault}

-- Some available region has a block past the first `frames`.
abbrev pub ReachesPast : ℕ → List MmapEntry → Type 0
ReachesPast frames [] = ⊥
ReachesPast frames (e ∷ es) =
    ((is_available e ≡ true) × (start_block e < end_block e) × (frames < end_block e))
    ⊎ ReachesPast frames es

clear_range-cases :
    (rounds block : ℕ) (bitmap : List ℕ)
    → (clear_range rounds block bitmap ≡ fault)
      ⊎ ((bitmap' : List ℕ) × (clear_range rounds block bitmap ≡ done bitmap')
          × (length bitmap' ≡ length bitmap))
unfolding clear_range
clear_range-cases zero block bitmap = inr (bitmap, refl, refl)
clear_range-cases (suc rounds) block bitmap =
    elim (dec_lt (block / pmm_bits_per_entry) (length bitmap)) [
      | no out ↦ inl (rw (pmm_clear_bit-fault block bitmap out))
      | yes covers ↦
          elim (clear_range-cases rounds (block + 1) (put bitmap block (clear_word bitmap block))) [
            | inl e ↦ inl (rw (pmm_clear_bit-put block bitmap covers) e)
            | inr (bitmap', e, same) ↦ inr (
              bitmap',
              rw (pmm_clear_bit-put block bitmap covers) e,
              same ∙ length-set bitmap (block / pmm_bits_per_entry) (clear_word bitmap block),
            )
          ]
    ]

free_available-fault :
    (es : List MmapEntry) (bitmap : List ℕ)
    → ReachesPast (length bitmap * pmm_bits_per_entry) es
    → free_available es bitmap ≡ fault
unfolding free_available
free_available-fault [] bitmap past = absurd past
free_available-fault (e ∷ es) bitmap (inl (on, some, past)) = rw (
  on,
  clear_range-fault (end_block e - start_block e) (start_block e) bitmap (omega arith)
      (omega arith),
)
free_available-fault (e ∷ es) bitmap (inr later) = elim (Bool-cases (is_available e)) [
  | inr off ↦ rw off (free_available-fault es bitmap later)
  | inl on ↦ elim (clear_range-cases (end_block e - start_block e) (start_block e) bitmap) [
    | inl stop ↦ rw (on, stop)
    | inr (bitmap', go, same) ↦ rw (on, go) (free_available-fault es bitmap' (rw same later))
  ]
]

-- When an available region has a block past the frames that the bitmap has bits for, `pmm_init` writes
-- outside the bitmap.
pub pmm_init-fault :
    (es : List MmapEntry)
    → ReachesPast (bitmap_entries es * pmm_bits_per_entry) es
    → pmm_init es ≡ fault
unfolding pmm_init
pmm_init-fault es past = rw (
    free_available-fault es (replicate (bitmap_entries es) 0xffff_ffff)
      (rw (length-replicate {A = ℕ} (bitmap_entries es) 0xffff_ffff) past))
