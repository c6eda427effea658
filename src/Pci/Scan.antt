-- ===== src/Pci/Scan.antt =====
-- drivers/pci/pci.c: the enumeration of the bus. What `pci_scan_function` logs of a function is an entry of the
-- list `found`, with the class in place of its name. The recursion over bridges is on the depth that is left;
-- at depth 0 it does not end.
pub mod Termination
use holyos.Base.{
  ℕ, zero, suc, ◌+◌, ◌-◌, ◌*◌, ◌/◌, ◌%◌, ◌^◌, List, [], ◌∷◌, ◌++◌, Bool, ◌&&◌, ◌==◌, ◌!=◌,
  if◌then◌else◌, Run, done, spins, ◌>>=◌, u8, u16, bit_and,
}
use holyos.Cpu.Ports.{Ports}
use holyos.Pci.{pci_read_config, pci_get_vendor_id, pci_get_device_id}

abbrev pub pci_class_bridge : ℕ
pci_class_bridge = 0x06

pub record Found : Type 0 where
  pub bus : ℕ
  pub device : ℕ
  pub function : ℕ
  pub class : ℕ
  pub vendor_id : ℕ
  pub device_id : ℕ

pub record Scan (H : Type 0) : Type 0 where
  pub hardware : H
  pub found : List Found

module _ {H : Type 0} (ports : Ports H) where
  -- `(uint8_t)((pci_read_config(bus, device, function, offset) >> shift) & 0xFF)`
  unfoldable pub config_byte : ℕ → ℕ → ℕ → ℕ → ℕ → H → ℕ × H
  config_byte bus device function offset shift h =
      let (word, h) = pci_read_config ports bus device function offset h in
      (u8 (bit_and (word / 2 ^ shift) 0xff), h)

  -- `deeper` is `pci_scan_bus`, called for the bus behind a bridge.
  module _ (deeper : ℕ → Scan H → Run (Scan H)) where
    unfoldable pub pci_scan_function : ℕ → ℕ → ℕ → Scan H → Run (Scan H)
    pci_scan_function bus device function s =
        let (vendor_id, h) = pci_get_vendor_id ports bus device function s.hardware in
        let (device_id, h) = pci_get_device_id ports bus device function h in
        let (class, h) = config_byte bus device function 0x08 24 h in
        let entry : Found = record {
          bus = bus;
          device = device;
          function = function;
          class = class;
          vendor_id = vendor_id;
          device_id = device_id;
        } in
        let (class_code, h) = config_byte bus device function 0x0b 24 h in
        let (subclass, h) = config_byte bus device function 0x0b 16 h in
        let logged : Scan H = record { hardware = h; found = s.found ++ entry ∷ [] } in
        let (secondary_bus, h') = config_byte bus device function 0x18 8 h in
        if class_code == pci_class_bridge && subclass == 0x04
        then deeper secondary_bus (record logged { hardware = h' })
        else done logged

    -- The rest of the loop over the functions of a device.
    unfoldable pub scan_functions : ℕ → ℕ → ℕ → ℕ → Scan H → Run (Scan H)
    scan_functions zero bus device function s = done s
    scan_functions (suc left) bus device function s =
        let (vendor_id, h) = pci_get_vendor_id ports bus device function s.hardware in
        let s = record s { hardware = h } in
        (if vendor_id != 0xffff then pci_scan_function bus device function s else done s) >>= λ s'.
        scan_functions left bus device (function + 1) s'

    unfoldable pub pci_scan_device : ℕ → ℕ → Scan H → Run (Scan H)
    pci_scan_device bus device s =
        let (vendor_id, h) = pci_get_vendor_id ports bus device 0 s.hardware in
        let absent = record s { hardware = h } in
        let (header_type, h) = config_byte bus device 0 0x0e 16 h in
        let present = record s { hardware = h } in
        if vendor_id == 0xffff
        then done absent
        else if bit_and header_type 0x80 != 0
        then scan_functions 8 bus device 0 present
        else pci_scan_function bus device 0 present

    -- The rest of the loop over the devices of a bus.
    unfoldable pub scan_devices : ℕ → ℕ → ℕ → Scan H → Run (Scan H)
    scan_devices zero bus device s = done s
    scan_devices (suc left) bus device s =
        pci_scan_device bus device s >>= λ s'. scan_devices left bus (device + 1) s'

  unfoldable pub pci_scan_bus : ℕ → ℕ → Scan H → Run (Scan H)
  pci_scan_bus zero bus s = spins
  pci_scan_bus (suc depth) bus s = scan_devices (λ bus'. pci_scan_bus depth bus') 32 bus 0 s

  -- The rest of the loop of `pci_init` over the host controllers, which ends at the first that is absent.
  unfoldable pub scan_hosts : ℕ → ℕ → ℕ → Scan H → Run (Scan H)
  scan_hosts zero depth function s = done s
  scan_hosts (suc left) depth function s =
      let (vendor_id, h) = pci_get_vendor_id ports 0 0 function s.hardware in
      let s = record s { hardware = h } in
      let next =
        (pci_scan_bus depth function s >>= λ s'. scan_hosts left depth (function + 1) s') in
      if vendor_id != 0xffff then next else done s

  unfoldable pub pci_init : ℕ → H → Run (Scan H)
  pci_init depth h =
      let (header_type, h) = config_byte 0 0 0 0x0e 16 h in
      let s : Scan H = record { hardware = h; found = [] } in
      if bit_and header_type 0x80 == 0 then pci_scan_bus depth 0 s else scan_hosts 8 depth 0 s
