-- ===== src/Mm/Pmm/Valid.antt =====
-- The invariant of the frame allocator between two calls.
use holyos.Base.{ℕ, zero, suc, ◌*◌, ◌^◌, ◌<◌, ◌≤◌, ◌≡◌, List, [], ◌∷◌, arith, length, get_or, set}
use holyos.Mm.Pmm.{Pmm, pmm_bits_per_entry}
use holyos.Mm.Pmm.Frames.{Covers}

-- Every entry is a `uint32_t`.
abbrev pub AllWords : List ℕ → Type 0
AllWords [] = Unit {0}
AllWords (w ∷ ws) = (w < 2 ^ 32) × AllWords ws

pub record IsValid (s : Pmm) : Type 0 where
  pub free : s.lock ≡ 0
  pub covers : s.max_blocks ≤ length s.bitmap * pmm_bits_per_entry
  pub small : s.max_blocks ≤ 2 ^ 20
  pub words : AllWords s.bitmap
  pub counter : s.used_blocks < 2 ^ 32

pub covered : {s : Pmm} → IsValid s → (block : ℕ) → block < s.max_blocks → Covers s.bitmap block
covered v block h = omega (arith, v.covers)

pub AllWords-set : (ws : List ℕ) (i w : ℕ) → AllWords ws → w < 2 ^ 32 → AllWords (set ws i w)
AllWords-set [] i w h lt = tt
AllWords-set (x ∷ ws) zero w h lt = (lt, h.1)
AllWords-set (x ∷ ws) (suc i) w h lt = (h.0, AllWords-set ws i w h.1 lt)

pub AllWords-get_or : (ws : List ℕ) (i : ℕ) → AllWords ws → get_or ws i 0 < 2 ^ 32
AllWords-get_or [] i h = omega arith
AllWords-get_or (x ∷ ws) zero h = h.0
AllWords-get_or (x ∷ ws) (suc i) h = AllWords-get_or ws i h.1
