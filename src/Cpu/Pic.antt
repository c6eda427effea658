-- ===== src/Cpu/Pic.antt =====
-- kernel/cpu/pic.c, without its log output.
pub mod Masks
use holyos.Base.{ℕ, ◌+◌, ◌%◌, ◌^◌, ltb, leb, if◌then◌else◌, u8, bit_and, bit_or, complement}
use holyos.Cpu.Ports.{Ports}

abbrev pub pic1_command : ℕ
pic1_command = 0x20

abbrev pub pic1_data : ℕ
pic1_data = 0x21

abbrev pub pic2_command : ℕ
pic2_command = 0xa0

abbrev pub pic2_data : ℕ
pic2_data = 0xa1

abbrev pub pic_eoi : ℕ
pic_eoi = 0x20

abbrev pub icw1_icw4 : ℕ
icw1_icw4 = 0x01

abbrev pub icw1_init : ℕ
icw1_init = 0x10

abbrev pub icw4_8086 : ℕ
icw4_8086 = 0x01

-- The choice of the port by the interrupt's number.
abbrev pub data_port_of : ℕ → ℕ
data_port_of irq = if ltb irq 8 then pic1_data else pic2_data

module _ {H : Type 0} (ports : Ports H) where
  unfoldable pub pic_init : H → H
  pic_init h =
      let h = ports.outb pic1_command (bit_or icw1_init icw1_icw4) h in
      let h = ports.outb pic2_command (bit_or icw1_init icw1_icw4) h in
      let h = ports.outb pic1_data 0x20 h in
      let h = ports.outb pic2_data 0x28 h in
      let h = ports.outb pic1_data 4 h in
      let h = ports.outb pic2_data 2 h in
      let h = ports.outb pic1_data icw4_8086 h in
      let h = ports.outb pic2_data icw4_8086 h in
      ports.outb pic2_data 0xff (ports.outb pic1_data 0xff h)

  unfoldable pub pic_mask_irq : ℕ → H → H
  pic_mask_irq irq h =
      let port = data_port_of irq in
      let (old, h) = ports.inb port h in ports.outb port (u8 (bit_or old (2 ^ (irq % 8)))) h

  unfoldable pub pic_unmask_irq : ℕ → H → H
  pic_unmask_irq irq h =
      let port = data_port_of irq in
      let (old, h) = ports.inb port h in
      ports.outb port (u8 (bit_and old (complement 32 (2 ^ (irq % 8))))) h

  unfoldable pub pic_send_eoi : ℕ → H → H
  pic_send_eoi irq h =
      let h = if leb 8 irq then ports.outb pic2_command pic_eoi h else h in
      ports.outb pic1_command pic_eoi h
