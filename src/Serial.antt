-- ===== src/Serial.antt =====
-- drivers/serial/serial.c, and `kprintf` of kernel/kprintf.c. A busy-wait polls at most `rounds` times, and
-- spins when the line is not ready then.
pub mod Output
use holyos.Base.{
  ℕ, zero, suc, ◌+◌, ◌-◌, ◌^◌, List, [], ◌∷◌, Run, done, spins, fault, ◌>>=◌, ◌==◌, ◌!=◌,
  if◌then◌else◌, u8, bit_and,
}
use holyos.Cpu.Ports.{Ports}
use holyos.Print.{Arg, vsnprintf}

abbrev pub com1 : ℕ
com1 = 0x3f8

abbrev pub kprintf_bufsize : ℕ
kprintf_bufsize = 4096

module _ {H : Type 0} (ports : Ports H) where
  -- The result is 1 when the chip does not send the test byte back.
  unfoldable pub serial8086_init : H → ℕ × H
  serial8086_init h =
      let h = ports.outb (com1 + 1) 0x00 h in
      let h = ports.outb (com1 + 3) 0x80 h in
      let h = ports.outb (com1 + 0) 0x03 h in
      let h = ports.outb (com1 + 1) 0x00 h in
      let h = ports.outb (com1 + 3) 0x03 h in
      let h = ports.outb (com1 + 2) 0xc7 h in
      let h = ports.outb (com1 + 4) 0x0b h in
      let h = ports.outb (com1 + 4) 0x1e h in
      let h = ports.outb (com1 + 0) 0xae h in
      let (echo, h) = ports.inb (com1 + 0) h in
      if echo != 0xae then (1, h) else (0, ports.outb (com1 + 4) 0x0f h)

  unfoldable pub serial_received : H → ℕ × H
  serial_received h = let (status, h) = ports.inb (com1 + 5) h in (bit_and status 1, h)

  unfoldable pub is_transmit_empty : H → ℕ × H
  is_transmit_empty h = let (status, h) = ports.inb (com1 + 5) h in (bit_and status 0x20, h)

  unfoldable pub serial_read : ℕ → H → Run (ℕ × H)
  serial_read zero h = spins
  serial_read (suc rounds) h =
      let (received, h) = serial_received h in
      let later = serial_read rounds h in if received == 0 then later else done (ports.inb com1 h)

  unfoldable pub serial_write : ℕ → ℕ → H → Run H
  serial_write zero c h = spins
  serial_write (suc rounds) c h =
      let (empty, h) = is_transmit_empty h in
      let later = serial_write rounds c h in
      if empty == 0 then later else done (ports.outb com1 (u8 c) h)

  -- `for (int i = 0; i < len; i++) serial_write(buf[i]);`, with the characters from `buf[i]` on.
  unfoldable pub write_all : ℕ → ℕ → List ℕ → H → Run H
  write_all rounds zero buf h = done h
  write_all rounds (suc len) [] h = fault
  write_all rounds (suc len) (c ∷ buf) h =
      serial_write rounds c h >>= λ h'. write_all rounds len buf h'

  -- `base` is the address of the local `buf` and `locals` what its 4096 bytes hold.
  unfoldable pub kprintf : ℕ → ℕ → List ℕ → List ℕ → List ℕ → List Arg → H → Run H
  kprintf rounds base locals scratch fmt args h = do
    (len, buf) ← vsnprintf base kprintf_bufsize scratch fmt args locals
    write_all rounds len buf h
