-- ===== src/Pci/Scan/Termination.antt =====
-- The enumeration ends when every bridge leads to a bus with a larger number.
use holyos.Base.{
  ℕ, zero, suc, ◌+◌, ◌/◌, ◌^◌, ◌<◌, ◌≤◌, ◌≡◌, refl, sym, ◌∙◌, ap, subst, Bool, true, false, ◌&&◌,
  ◌==◌, ◌!=◌, if◌then◌else◌, Run, done, ◌>>=◌, arith, u8, bit_and,
}
use holyos.Cpu.Ports.{Ports}
use holyos.Pci.{pci_read_config, pci_get_vendor_id, pci_get_device_id}
use holyos.Pci.Scan.{
  Scan, pci_class_bridge, config_byte, pci_scan_function, scan_functions, pci_scan_device,
  scan_devices, pci_scan_bus, scan_hosts, pci_init,
}

-- A call that returns.
pub record Returns {H : Type 0} (result : Run (Scan H)) : Type 0 where
  pub scan : Scan H
  pub is_done : result ≡ done scan

Returns-then :
    {H : Type 0} {m : Run (Scan H)} {f : Scan H → Run (Scan H)}
    → Returns m
    → ((s : Scan H) → Returns (f s))
    → Returns (m >>= f)
Returns-then {f = f} r next = record {
  scan = (next r.scan).scan;
  is_done = ap (λ m. m >>= f) r.is_done ∙ (next r.scan).is_done;
}

Returns-if :
    {H : Type 0} (b : Bool) {m n : Run (Scan H)}
    → (b ≡ true → Returns m)
    → (b ≡ false → Returns n)
    → Returns (if b then m else n)
Returns-if true first second = first refl
Returns-if false first second = second refl

both : (a b : ℕ) → (a == pci_class_bridge && b == 0x04) ≡ true → (a ≡ pci_class_bridge) × (b ≡ 0x04)
both a b h = ground arith

returned : {H : Type 0} (s : Scan H) → Returns (done s)
returned s = record { scan = s; is_done = refl }

module _ {H : Type 0} (ports : Ports H) (config : ℕ → ℕ → ℕ → ℕ → ℕ)
    (constant : (bus slot func offset : ℕ) (h : H)
      → (pci_read_config ports bus slot func offset h).0 ≡ config bus slot func offset) where
  -- The byte of the configuration space.
  unfoldable pub byte_of : ℕ → ℕ → ℕ → ℕ → ℕ → ℕ
  byte_of bus device function offset shift =
      u8 (bit_and (config bus device function offset / 2 ^ shift) 0xff)

  reads :
      (bus device function offset shift : ℕ) (h : H)
      → (config_byte ports bus device function offset shift h).0
        ≡ byte_of bus device function offset shift
  unfolding config_byte byte_of
  reads bus device function offset shift h =
      ap (λ (w : ℕ). u8 (bit_and (w / 2 ^ shift) 0xff)) (constant bus device function offset h)

  module _ (deeper : ℕ → Scan H → Run (Scan H)) (bus : ℕ)
      (ascending : (device function : ℕ)
        → device < 32
        → function < 8
        → byte_of bus device function 0x0b 24 ≡ pci_class_bridge
        → byte_of bus device function 0x0b 16 ≡ 0x04
        → (s : Scan H) → Returns (deeper (byte_of bus device function 0x18 8) s)) where
    behind :
        {n b : ℕ}
        → n ≡ b
        → ((s : Scan H) → Returns (deeper b s))
        → (s : Scan H) → Returns (deeper n s)
    behind e r s = subst (λ k. Returns (deeper k s)) (sym e) (r s)

    function-Returns :
        (device function : ℕ) (s : Scan H)
        → device < 32
        → function < 8
        → Returns (pci_scan_function ports deeper bus device function s)
    unfolding pci_scan_function
    function-Returns device function s d f =
        let vendor = pci_get_vendor_id ports bus device function s.hardware in
        let device_id = pci_get_device_id ports bus device function vendor.1 in
        let class = config_byte ports bus device function 0x08 24 device_id.1 in
        let class_code = config_byte ports bus device function 0x0b 24 class.1 in
        let subclass = config_byte ports bus device function 0x0b 16 class_code.1 in
        let secondary = config_byte ports bus device function 0x18 8 subclass.1 in
        Returns-if (class_code.0 == pci_class_bridge && subclass.0 == 0x04)
          (λ bridge.
            behind (reads bus device function 0x18 8 subclass.1)
              (ascending device function d f
                (sym (reads bus device function 0x0b 24 class.1)
                  ∙ (both class_code.0 subclass.0 bridge).0)
                (sym (reads bus device function 0x0b 16 class_code.1)
                  ∙ (both class_code.0 subclass.0 bridge).1))
              _)
          (λ other. returned _)

    functions-Return :
        (left device function : ℕ) (s : Scan H)
        → device < 32
        → left + function ≤ 8
        → Returns (scan_functions ports deeper left bus device function s)
    unfolding scan_functions
    functions-Return zero device function s d f = returned s
    functions-Return (suc left) device function s d f =
        Returns-then
          (Returns-if ((pci_get_vendor_id ports bus device function s.hardware).0 != 0xffff)
            (λ present. function-Returns device function _ d (omega arith)) (λ absent. returned _))
          (λ s'. functions-Return left device (function + 1) s' d (omega arith))

    device-Returns :
        (device : ℕ) (s : Scan H)
        → device < 32
        → Returns (pci_scan_device ports deeper bus device s)
    unfolding pci_scan_device
    device-Returns device s d =
        let vendor = pci_get_vendor_id ports bus device 0 s.hardware in
        let header_type = config_byte ports bus device 0 0x0e 16 vendor.1 in
        Returns-if (vendor.0 == 0xffff) (λ absent. returned _)
          (λ present.
            Returns-if (bit_and header_type.0 0x80 != 0)
              (λ many. functions-Return 8 device 0 _ d (omega arith))
              (λ one. function-Returns device 0 _ d (omega arith)))

    devices-Return :
        (left device : ℕ) (s : Scan H)
        → left + device ≤ 32
        → Returns (scan_devices ports deeper left bus device s)
    unfolding scan_devices
    devices-Return zero device s d = returned s
    devices-Return (suc left) device s d =
        Returns-then (device-Returns device s (omega arith))
          (λ s'. devices-Return left (device + 1) s' (omega arith))

  -- Every bridge on the bus leads to a bus with a larger number.
  unfoldable pub Ascends : Type 0
  unfolding byte_of
  Ascends =
      (bus device function : ℕ)
      → bus < 256
      → device < 32
      → function < 8
      → byte_of bus device function 0x0b 24 ≡ pci_class_bridge
      → byte_of bus device function 0x0b 16 ≡ 0x04
      → bus < byte_of bus device function 0x18 8

  module _ (ascends : Ascends) where
    bus-Returns :
        (depth bus : ℕ) (s : Scan H)
        → 256 < depth + bus
        → bus < 256
        → Returns (pci_scan_bus ports depth bus s)
    unfolding pci_scan_bus Ascends byte_of
    bus-Returns zero bus s enough small = absurd (omega arith)
    bus-Returns (suc depth) bus s enough small =
        devices-Return (λ bus'. pci_scan_bus ports depth bus') bus
          (λ device function d f class subclass s'.
            let up = ascends bus device function small d f class subclass in
            bus-Returns depth (byte_of bus device function 0x18 8) s' (omega arith) (omega arith))
          32 0 s (omega arith)

    hosts-Return :
        (left function : ℕ) (s : Scan H)
        → left + function ≤ 8
        → Returns (scan_hosts ports left 257 function s)
    unfolding scan_hosts
    hosts-Return zero function s few = returned s
    hosts-Return (suc left) function s few =
        let vendor = pci_get_vendor_id ports 0 0 function s.hardware in
        Returns-if (vendor.0 != 0xffff)
          (λ present.
            Returns-then (bus-Returns 257 function _ (omega arith) (omega arith))
              (λ s'. hosts-Return left (function + 1) s' (omega arith)))
          (λ absent. returned _)

    -- Where the configuration space does not change under reading and every bridge leads to a bus with a larger
    -- number than its own, the enumeration of `pci_init` ends, within a depth of 257 buses.
    pub pci_init-Returns : (h : H) → Returns (pci_init ports 257 h)
    unfolding pci_init
    pci_init-Returns h =
        let header_type = config_byte ports 0 0 0 0x0e 16 h in
        Returns-if (bit_and header_type.0 0x80 == 0)
          (λ one. bus-Returns 257 0 _ (omega arith) (omega arith))
          (λ many. hosts-Return 8 0 _ (omega arith))
