-- ===== src/Video/Vga/Cells.antt =====
-- The three operations of the text screen, cell by cell.
use holyos.Base.{
  ℕ, ◌+◌, ◌-◌, ◌*◌, ◌/◌, ◌%◌, ◌^◌, ◌<◌, ◌≤◌, ◌≡◌, ◌⊎◌, inl, inr, refl, ◌∙◌, ap, ap₂, false, ◌||◌,
  leb, u8, u16, bit_and, bit_or, arith, bit_or_fields, bit_and_low, Bool-cases, bit_ext, bit-bit_or,
  ◌≢◌,
}
use holyos.Mem.{RawMemory, store16, load16, memcpy, memset16}
use holyos.Mem.Copy.{memcpy_lem, memset16_lem}
use holyos.Video.{Color}
use holyos.Video.Vga.{vga_buffer, vga_write, vga_clear, vga_scroll, sign_extended}

-- The character and the colours shown in column `x` of row `y`.
abbrev pub cell : ℕ → ℕ → RawMemory → ℕ
cell x y mem = load16 mem (vga_buffer + 2 * (y * 80 + x))

-- Scrolling moves every row up by one, and the last row is blank afterwards.
pub vga_scroll_lem :
    (mem : RawMemory) (x : ℕ)
    → x < 80
    → ((y : ℕ) → y < 24 → cell x y (vga_scroll mem) ≡ cell x (y + 1) mem)
      × (cell x 24 (vga_scroll mem) ≡ 0x720)
unfolding vga_scroll
vga_scroll_lem mem x small =
    let bottom = vga_buffer + 2 * (80 * (25 - 1)) in
    let moved = memcpy vga_buffer (vga_buffer + 160) 3840 mem in
    let copied = (memcpy_lem vga_buffer (vga_buffer + 160) 3840 mem (inl (omega arith))).0 in
    let blank : bit_or 32 (7 * 2 ^ 8) ≡ 0x720 = refl in
    let filled = memset16_lem bottom (bit_or 32 (7 * 2 ^ 8)) 80 moved (omega (arith, blank)) in
    (
      λ y row.
          let at = 2 * (y * 80 + x) in
          let byte : (i : ℕ)
              → i < 3840
              → memset16 bottom (bit_or 32 (7 * 2 ^ 8)) 80 moved (vga_buffer + i)
                ≡ mem (vga_buffer + 160 + i) =
            λ i below. filled.1 (vga_buffer + i) (inl (omega arith)) ∙ copied i below in
          ap₂ (λ low high. low + 256 * high)
            (byte at (omega arith) ∙ ap mem {x = vga_buffer + 160 + at} (omega arith))
            (ap (vga_scroll mem) {x = vga_buffer + at + 1} {y = vga_buffer + (at + 1)} (omega arith)
              ∙ byte (at + 1) (omega arith)
              ∙ ap mem {x = vga_buffer + 160 + (at + 1)} (omega arith)),
      ap (λ p. load16 (vga_scroll mem) p) {x = vga_buffer + 2 * (24 * 80 + x)} {y = bottom + 2 * x}
            (omega arith)
          ∙ filled.0 x small
          ∙ blank,
    )

-- The lowest bits of a colour component.
low_bit : (v : ℕ) → bit_and v 1 ≡ v % 2
low_bit v =
    ap (λ w. bit_and w 1) {x = v} {y = v / 2 * 2 ^ 1 + v % 2} (omega arith)
    ∙ bit_and_low 1 (v / 2) (v % 2) (omega arith)

low_three : (v : ℕ) → bit_and v 7 ≡ v % 8
low_three v =
    ap (λ w. bit_and w 7) {x = v} {y = v / 8 * 2 ^ 3 + v % 8} (omega arith)
    ∙ bit_and_low 3 (v / 8) (v % 8) (omega arith)

leb_gt : (a b : ℕ) → b < a → leb a b ≡ false
leb_gt a b h = ground arith

bit_or_comm : (a b : ℕ) → bit_or a b ≡ bit_or b a
bit_or_comm a b =
    bit_ext (bit_or a b) (bit_or b a) λ j. omega (arith, bit-bit_or a b j, bit-bit_or b a j)

-- The attribute byte of the text mode: the background's lowest bit above the foreground's three.
abbrev pub attribute : Color → Color → ℕ
attribute fg bg = bg.r % 2 * 16 + fg.r % 8

attribute_lem :
    (fg bg : Color) → u8 (bit_or (bit_and bg.r 1 * 2 ^ 4) (bit_and fg.r 7)) ≡ attribute fg bg
attribute_lem fg bg =
    let low = low_bit bg.r in
    let high = low_three fg.r in
    omega
      (arith, low, high, bit_or_fields 4 (bit_and bg.r 1) (bit_and fg.r 7) (omega (arith, high)))

cell_word :
    (c : ℕ) (fg bg : Color)
    → c < 128
    → u16 (bit_or (attribute fg bg * 2 ^ 8) (sign_extended c)) ≡ attribute fg bg * 256 + c
cell_word c fg bg ascii = ground (arith, bit_or_fields 8 (attribute fg bg) c (omega arith))

store16_cell : (mem : RawMemory) (p v : ℕ) → v < 2 ^ 16 → load16 (store16 mem p v) p ≡ v
store16_cell mem p v word = ground arith

store16_other :
    (mem : RawMemory) (p v q : ℕ)
    → (q + 2 ≤ p) ⊎ (p + 2 ≤ q)
    → load16 (store16 mem p v) q ≡ load16 mem q
store16_other mem p v q apart = ground arith

-- An ASCII character that is written on the screen shows in its cell with the attribute of its
-- colours, every other cell stays, and a position off the screen changes nothing.
pub vga_write_lem :
    (c x y : ℕ) (fg bg : Color) (mem : RawMemory)
    → c < 128
    → (x < 80 → y < 25 → cell x y (vga_write c x y fg bg mem) ≡ attribute fg bg * 256 + c)
      × ((x' y' : ℕ)
          → x' < 80
          → y' * 80 + x' ≢ y * 80 + x
          → cell x' y' (vga_write c x y fg bg mem) ≡ cell x' y' mem)
      × ((80 ≤ x) ⊎ (25 ≤ y) → vga_write c x y fg bg mem ≡ mem)
unfolding vga_write
vga_write_lem c x y fg bg mem ascii =
    let word = attribute fg bg * 256 + c in
    let at = vga_buffer + 2 * (y * 80 + x) in
    rw (attribute_lem fg bg, cell_word c fg bg ascii)
      (
        λ left up. rw (leb_gt 80 x left, leb_gt 25 y up) (store16_cell mem at word (omega arith)),
        λ x' y' left ne. elim (Bool-cases (leb 80 x || leb 25 y)) [
          | inl off ↦ rw off refl
          | inr on ↦
              rw on (store16_other mem at word (vga_buffer + 2 * (y' * 80 + x')) (omega arith))
        ],
        λ off. ground arith,
      )

-- Clearing leaves a space with the colour as its foreground in every cell.
pub vga_clear_lem :
    (color : Color) (x y : ℕ) (mem : RawMemory)
    → x < 80
    → y < 25
    → cell x y (vga_clear color mem) ≡ color.r % 8 * 256 + 32
unfolding vga_clear
vga_clear_lem color x y mem left up =
    let low = low_three color.r in
    let fields = bit_or_fields 8 (color.r % 8) 32 (omega arith) in
    let word : u16 (bit_or 32 (bit_and color.r 7 * 2 ^ 8)) ≡ color.r % 8 * 256 + 32 =
      rw (low, bit_or_comm 32 (color.r % 8 * 2 ^ 8), fields) (omega arith) in
    let at = vga_buffer + 2 * (y * 80 + x) in
    ap (λ w. load16 (memset16 vga_buffer w 2000 mem) at) word
    ∙ (memset16_lem vga_buffer (color.r % 8 * 256 + 32) 2000 mem (omega arith)).0 (y * 80 + x)
        (omega arith)
