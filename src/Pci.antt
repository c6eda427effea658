-- ===== src/Pci.antt =====
-- drivers/pci/pci.c: the access to the configuration space, the identification of a function, and
-- `is_vga_pci_present` of drivers/video/vga.c. Log output is left out.
pub mod Address
pub mod Search
pub mod Scan
pub mod Device
use holyos.Base.{
  ℕ, zero, suc, ◌+◌, ◌-◌, ◌*◌, ◌/◌, ◌%◌, ◌^◌, Bool, ◌==◌, if◌then◌else◌, u8, u16, u32, bit_and,
  bit_or,
}
use holyos.Cpu.Ports.{Ports}

abbrev pub pci_config_address : ℕ
pci_config_address = 0xcf8

abbrev pub pci_config_data : ℕ
pci_config_data = 0xcfc

-- `(bus << 16) | (slot << 11) | (func << 8) | (offset & 0xFC) | 0x80000000`
unfoldable pub config_address : ℕ → ℕ → ℕ → ℕ → ℕ
config_address bus slot func offset = u32 (
    bit_or
      (bit_or (bit_or (bit_or (bus * 2 ^ 16) (slot * 2 ^ 11)) (func * 2 ^ 8)) (bit_and offset 0xfc))
      0x8000_0000)

module _ {H : Type 0} (ports : Ports H) where
  unfoldable pub pci_read_config : ℕ → ℕ → ℕ → ℕ → H → ℕ × H
  unfolding config_address
  pci_read_config bus slot func offset h =
      ports.inl pci_config_data
        (ports.outl pci_config_address (config_address bus slot func offset) h)

  unfoldable pub pci_write_config : ℕ → ℕ → ℕ → ℕ → ℕ → H → H
  unfolding config_address
  pci_write_config bus slot func offset value h =
      ports.outl pci_config_data value
        (ports.outl pci_config_address (config_address bus slot func offset) h)

  unfoldable pub pci_get_vendor_id : ℕ → ℕ → ℕ → H → ℕ × H
  unfolding pci_read_config
  pci_get_vendor_id bus slot func h =
      let (word, h) = pci_read_config bus slot func 0x00 h in (u16 (bit_and word 0xffff), h)

  unfoldable pub pci_get_device_id : ℕ → ℕ → ℕ → H → ℕ × H
  unfolding pci_read_config
  pci_get_device_id bus slot func h =
      let (word, h) = pci_read_config bus slot func 0x00 h in (u16 (word / 2 ^ 16), h)

  -- The rest of the loop over the slots of a bus, and over the buses, with the number of rounds left.
  unfoldable pub scan_slots : ℕ → ℕ → ℕ → H → ℕ × H
  unfolding pci_read_config
  scan_slots zero bus slot h = (0, h)
  scan_slots (suc left) bus slot h =
      let (id, h) = pci_read_config (u8 bus) slot 0 0x00 h in
      let skipped = scan_slots left bus (slot + 1) h in
      let (class, h) = pci_read_config (u8 bus) slot 0 0x08 h in
      let later = scan_slots left bus (slot + 1) h in
      if id == 0xffff_ffff then skipped else if class / 2 ^ 16 == 0x0300 then (1, h) else later

  -- `return 1` leaves both loops.
  unfoldable pub or_else : ℕ × H → (H → ℕ × H) → ℕ × H
  or_else (found, h) later = if found == 0 then later h else (found, h)

  unfoldable pub scan_buses : ℕ → ℕ → H → ℕ × H
  unfolding or_else
  scan_buses zero bus h = (0, h)
  scan_buses (suc left) bus h = or_else (scan_slots 32 bus 0 h) (λ h'. scan_buses left (bus + 1) h')

  unfoldable pub is_vga_pci_present : H → ℕ × H
  unfolding scan_buses
  is_vga_pci_present h = scan_buses 256 0 h
