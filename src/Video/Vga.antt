-- ===== src/Video/Vga.antt =====
-- drivers/video/vga.c: the text screen at 0xB8000, 80 by 25 cells of two bytes, and the search for a
-- controller on the PCI bus.
pub mod Cells
use holyos.Base.{
  ℕ, zero, suc, ◌+◌, ◌-◌, ◌*◌, ◌/◌, ◌%◌, ◌^◌, Bool, ◌||◌, ◌==◌, ltb, leb, if◌then◌else◌, u8, u16,
  bit_and, bit_or, Option, some,
}
use holyos.Mem.{RawMemory, store16, memcpy, memset16}
use holyos.Cpu.Ports.{Ports}
use holyos.Video.{Color, VideoDriver}

abbrev pub vga_buffer : ℕ
vga_buffer = 0xb8000

abbrev pub vga_xres : ℕ
vga_xres = 80

abbrev pub vga_yres : ℕ
vga_yres = 25

-- The conversion of a `char`, which is signed, to the unsigned 16 bits of a cell.
abbrev pub sign_extended : ℕ → ℕ
sign_extended c = if ltb c 128 then c else c + 0xff00

unfoldable pub vga_write : ℕ → ℕ → ℕ → Color → Color → RawMemory → RawMemory
vga_write c x y fg bg mem =
    let color = u8 (bit_or (bit_and bg.r 1 * 2 ^ 4) (bit_and fg.r 7)) in
    if leb vga_xres x || leb vga_yres y
    then mem
    else store16 mem (vga_buffer + 2 * (y * vga_xres + x))
        (u16 (bit_or (color * 2 ^ 8) (sign_extended c)))

unfoldable pub vga_clear : Color → RawMemory → RawMemory
unfolding memset16
vga_clear color mem =
    memset16 vga_buffer (u16 (bit_or 32 (bit_and color.r 7 * 2 ^ 8))) (vga_xres * vga_yres) mem

unfoldable pub vga_scroll : RawMemory → RawMemory
unfolding memcpy memset16
vga_scroll mem =
    memset16 (vga_buffer + 2 * (vga_xres * (vga_yres - 1))) (bit_or 32 (7 * 2 ^ 8)) vga_xres
      (memcpy vga_buffer (vga_buffer + 2 * vga_xres) (vga_xres * (vga_yres - 1) * 2) mem)
