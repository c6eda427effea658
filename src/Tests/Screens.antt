-- ===== src/Tests/Screens.antt =====
-- Memory, the text screen, the PCI bus and the terminal.
use holyos.Base.{ℕ, ◌+◌, ◌%◌, ◌<◌, ◌≡◌, ◌⊎◌, refl, [], ◌∷◌, done, fault, some, none, arith, u8}
use holyos.Cpu.Ports.{Ports}
use holyos.Mem.{RawMemory}
use holyos.Video.{Color, VideoDriver}
use holyos.Video.Vga.{vga_write, vga_clear, vga_scroll}
use holyos.Video.Vga.Cells.{cell, vga_scroll_lem}
use holyos.Pci.{is_vga_pci_present}
use holyos.Pci.Search.{Answers, IsVga, Somewhere, is_vga_pci_present_lem}
use holyos.Tty.{Tty, fresh_tty, tty_init, tty_write}
use holyos.Tty.Cursor.{IsValid, Keeps, tty_write-Keeps, tty_init-IsValid}

-- One register, which every port writes and reads.
abbrev loopback : Ports ℕ
loopback = record {
  inb = λ port h. (h, h);
  outb = λ port v h. v;
  inl = λ port h. (h, h);
  outl = λ port v h. v;
}

-- Every byte of memory holds the low byte of its address.
abbrev numbered : RawMemory
numbered p = p % 256

abbrev white : Color
white = record { r = 255; g = 255; b = 255 }

abbrev black : Color
black = record { r = 0; g = 0; b = 0 }

vga_scroll_lem_example :
    ((y : ℕ) → y < 24 → cell 79 y (vga_scroll numbered) ≡ cell 79 (y + 1) numbered)
    × (cell 79 24 (vga_scroll numbered) ≡ 0x720)
vga_scroll_lem_example = vga_scroll_lem numbered 79 (omega arith)

-- The address that was written comes back, so that every class is 0x8000.. and no slot is absent.
loopback-Answers : Answers loopback (λ a. a)
loopback-Answers a h = refl

is_vga_pci_present_lem_example :
    (((is_vga_pci_present loopback 0).0 ≡ 1) × Somewhere loopback (λ a. a) 0 256)
    ⊎ (((is_vga_pci_present loopback 0).0 ≡ 0)
        × ((b k : ℕ) → b < 256 → k < 32 → ¬ IsVga loopback (λ a. a) (u8 b) k))
is_vga_pci_present_lem_example = is_vga_pci_present_lem loopback (λ a. a) 0 loopback-Answers

abbrev text_driver : VideoDriver RawMemory
text_driver = record {
  priority = 10;
  probe = λ v. (1, v);
  write = some vga_write;
  clear = some vga_clear;
  scroll = some vga_scroll;
  width = 80;
  height = 25;
  bpp = 4;
}

abbrev blank_screen : Tty RawMemory
blank_screen = record (fresh_tty text_driver numbered) { xpos = 79; ypos = 24 }

blank_screen-IsValid : IsValid blank_screen
unfolding fresh_tty
blank_screen-IsValid = record {
  free = refl;
  column = omega arith;
  row = omega arith;
  columns = omega arith;
  rows = omega arith;
  whole = refl;
  line = omega arith;
}

tty_write-Keeps_example :
    Keeps blank_screen (tty_write (some text_driver) (b'A' ∷ 10 ∷ 9 ∷ []) blank_screen)
tty_write-Keeps_example =
    tty_write-Keeps (some text_driver) (b'A' ∷ 10 ∷ 9 ∷ []) blank_screen-IsValid

tty_init-IsValid_example :
    ((t : Tty RawMemory) × (tty_init (some text_driver) blank_screen ≡ done t)
      × IsValid t
      × (t.width ≡ 80)
      × (t.height ≡ 25))
    × (tty_init none blank_screen ≡ fault)
tty_init-IsValid_example =
    tty_init-IsValid text_driver blank_screen (omega arith) (omega arith) (omega arith)
      (omega arith)
