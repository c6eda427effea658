-- ===== src/Cpu/Descriptors/Segments.antt =====
-- A descriptor of the segment table reads back as the segment that it was written for.
use holyos.Base.{
  ℕ, ◌+◌, ◌*◌, ◌/◌, ◌%◌, ◌^◌, ◌<◌, ◌≡◌, ◌≢◌, refl, sym, ◌∙◌, ap, List, done, length, get_or, set,
  get_or-set_self, get_or-set_ne, bit_and, bit_or, bit_and_low, bit_or_fields, ◌-◌, two_pow-pos,
  arith, u8,
}
use native.Mathlib.Nat.{div-add-mod', mod-lt}
use holyos.Cpu.Descriptors.{GdtEntry, null_segment, segment, gdt_set_entry}

-- The processor's reading of a descriptor.
abbrev pub segment_base : GdtEntry → ℕ
segment_base e = e.base_lo + e.base_mi * 2 ^ 16 + e.base_hi * 2 ^ 24

abbrev pub segment_limit : GdtEntry → ℕ
segment_limit e = e.limit_lo + e.flags % 16 * 2 ^ 16

pub bit_and-mask : (k x : ℕ) → bit_and x (2 ^ k - 1) ≡ x % 2 ^ k
bit_and-mask k x =
    ap (λ w. bit_and w (2 ^ k - 1)) (sym (div-add-mod' x (2 ^ k)))
    ∙ bit_and_low k (x / 2 ^ k) (x % 2 ^ k) (mod-lt x (two_pow-pos k))

segment_fields :
    (base limit access nibble : ℕ)
    → let e = segment base limit access (nibble * 2 ^ 4) in
      (e.limit_lo ≡ limit % 2 ^ 16)
      × (e.base_lo ≡ base % 2 ^ 16)
      × (e.base_mi ≡ base / 2 ^ 16 % 2 ^ 8)
      × (e.access ≡ access)
      × (e.flags ≡ u8 (nibble * 2 ^ 4 + limit / 2 ^ 16 % 2 ^ 4))
      × (e.base_hi ≡ base / 2 ^ 24 % 2 ^ 8)
unfolding segment
segment_fields base limit access nibble =
    let low_limit = bit_and-mask 16 limit in
    let high_limit = bit_and-mask 4 (limit / 2 ^ 16) in
    let low_base = bit_and-mask 16 base in
    let middle_base = bit_and-mask 8 (base / 2 ^ 16) in
    let high_base = bit_and-mask 8 (base / 2 ^ 24) in
    let joined = bit_or_fields 4 nibble (limit / 2 ^ 16 % 2 ^ 4) (omega arith) in
    (
      omega arith,
      omega arith,
      omega arith,
      refl,
      ap u8 (ap (bit_or (nibble * 2 ^ 4)) high_limit ∙ joined),
      omega arith,
    )

written :
    (i base limit access flags : ℕ) (entries : List GdtEntry)
    → i < length entries
    → gdt_set_entry i base limit access flags entries
      ≡ done (set entries i (segment base limit access flags))
unfolding gdt_set_entry
written i base limit access flags entries inside = ground arith

-- For a base of 32 bits, a limit of 20 bits and flags in the high half of their byte, `gdt_set_entry` writes
-- a descriptor that the processor reads as this base, limit, access and flags, and leaves the others as they
-- are.
pub gdt_set_entry_lem :
    (i base limit access nibble j : ℕ) (entries : List GdtEntry)
    → i < length entries
    → base < 2 ^ 32
    → limit < 2 ^ 20
    → nibble < 16
    → j ≢ i
    → (entries' : List GdtEntry) × (gdt_set_entry i base limit access (nibble * 2 ^ 4) entries
        ≡ done entries')
      × (segment_base (get_or entries' i null_segment) ≡ base)
      × (segment_limit (get_or entries' i null_segment) ≡ limit)
      × ((get_or entries' i null_segment).access ≡ access)
      × ((get_or entries' i null_segment).flags / 16 ≡ nibble)
      × (get_or entries' j null_segment ≡ get_or entries j null_segment)
gdt_set_entry_lem i base limit access nibble j entries inside word field high ne =
    let e = segment base limit access (nibble * 2 ^ 4) in
    let (limit_lo, base_lo, base_mi, same_access, flags, base_hi) =
      segment_fields base limit access nibble in
    (
      set entries i e,
      written i base limit access (nibble * 2 ^ 4) entries inside,
      rw (get_or-set_self entries i e null_segment inside) (omega arith),
      rw (get_or-set_self entries i e null_segment inside) (omega arith),
      rw (get_or-set_self entries i e null_segment inside) same_access,
      rw (get_or-set_self entries i e null_segment inside) (omega arith),
      get_or-set_ne entries i j e null_segment (λ h. ne (sym h)),
    )
