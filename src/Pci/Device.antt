-- ===== src/Pci/Device.antt =====
-- drivers/pci/pci.c: the details of a function, and `pci_device_t` of include/kernel/pci.h without its reserved
-- bytes, which are not written.
pub mod Fields
use holyos.Base.{ℕ, zero, suc, ◌+◌, ◌*◌, ◌/◌, ◌%◌, ◌^◌, List, [], ◌∷◌, u8, u16, bit_and}
use holyos.Cpu.Ports.{Ports}
use holyos.Pci.{pci_read_config}

pub record PciDevice : Type 0 where
  pub vendor_id : ℕ
  pub device_id : ℕ
  pub command : ℕ
  pub status : ℕ
  pub revision_id : ℕ
  pub prog_if : ℕ
  pub subclass : ℕ
  pub class_code : ℕ
  pub cache_line_size : ℕ
  pub latency_timer : ℕ
  pub header_type : ℕ
  pub bist : ℕ
  pub bar : List ℕ
  pub cardbus_cis_ptr : ℕ
  pub subsystem_vendor_id : ℕ
  pub subsystem_id : ℕ
  pub expansion_rom_base : ℕ
  pub capabilities_ptr : ℕ
  pub interrupt_line : ℕ
  pub interrupt_pin : ℕ
  pub min_grant : ℕ
  pub max_latency : ℕ

-- `(uint16_t)(data & 0xFFFF)`, `(uint16_t)(data >> 16)` and `(uint8_t)((data >> shift) & 0xFF)`.
abbrev pub low_half : ℕ → ℕ
low_half word = u16 (bit_and word 0xffff)

abbrev pub high_half : ℕ → ℕ
high_half word = u16 (word / 2 ^ 16)

abbrev pub byte_at : ℕ → ℕ → ℕ
byte_at word shift = u8 (bit_and (word / 2 ^ shift) 0xff)

module _ {H : Type 0} (ports : Ports H) where
  -- The rest of the loop over the base addresses.
  unfoldable pub read_bars : ℕ → ℕ → ℕ → ℕ → ℕ → H → List ℕ × H
  read_bars zero i bus device function h = ([], h)
  read_bars (suc left) i bus device function h =
      let (word, h) = pci_read_config ports bus device function (0x10 + i * 4) h in
      let (bars, h) = read_bars left (i + 1) bus device function h in (word ∷ bars, h)

  unfoldable pub pci_get_device_info : ℕ → ℕ → ℕ → H → PciDevice × H
  pci_get_device_info bus device function h =
      let (ids, h) = pci_read_config ports bus device function 0x00 h in
      let (control, h) = pci_read_config ports bus device function 0x04 h in
      let (class, h) = pci_read_config ports bus device function 0x08 h in
      let (header, h) = pci_read_config ports bus device function 0x0c h in
      let (bar, h) = read_bars 6 0 bus device function h in
      let (cardbus_cis_ptr, h) = pci_read_config ports bus device function 0x28 h in
      let (subsystem, h) = pci_read_config ports bus device function 0x2c h in
      let (expansion_rom_base, h) = pci_read_config ports bus device function 0x30 h in
      let (capabilities, h) = pci_read_config ports bus device function 0x34 h in
      let (interrupt, h) = pci_read_config ports bus device function 0x3c h in
      (
        record {
          vendor_id = low_half ids;
          device_id = high_half ids;
          command = low_half control;
          status = high_half control;
          revision_id = byte_at class 0;
          prog_if = byte_at class 8;
          subclass = byte_at class 16;
          class_code = byte_at class 24;
          cache_line_size = byte_at header 0;
          latency_timer = byte_at header 8;
          header_type = byte_at header 16;
          bist = byte_at header 24;
          bar = bar;
          cardbus_cis_ptr = cardbus_cis_ptr;
          subsystem_vendor_id = low_half subsystem;
          subsystem_id = high_half subsystem;
          expansion_rom_base = expansion_rom_base;
          capabilities_ptr = byte_at capabilities 0;
          interrupt_line = byte_at interrupt 0;
          interrupt_pin = byte_at interrupt 8;
          min_grant = byte_at interrupt 16;
          max_latency = byte_at interrupt 24;
        },
        h,
      )
