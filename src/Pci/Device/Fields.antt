-- ===== src/Pci/Device/Fields.antt =====
-- The fields of `pci_device_t` hold the whole of the registers that they come from.
use holyos.Base.{ℕ, zero, suc, ◌+◌, ◌*◌, ◌/◌, ◌^◌, ◌<◌, ◌≡◌, ◌∙◌, ap, get_or, arith}
use holyos.Cpu.Ports.{Ports}
use holyos.Cpu.Descriptors.Segments.{bit_and-mask}
use holyos.Pci.{pci_read_config}
use holyos.Pci.Device.{low_half, high_half, byte_at, read_bars, pci_get_device_info}

-- The fields next to one another, as in the register.
abbrev pub halves : ℕ → ℕ → ℕ
halves low high = low + high * 2 ^ 16

abbrev pub bytes : ℕ → ℕ → ℕ → ℕ → ℕ
bytes a b c d = a + b * 2 ^ 8 + c * 2 ^ 16 + d * 2 ^ 24

halves-word : (w : ℕ) → w < 2 ^ 32 → halves (low_half w) (high_half w) ≡ w
halves-word w small = omega (arith, bit_and-mask 16 w)

bytes-word :
    (w : ℕ) → w < 2 ^ 32 → bytes (byte_at w 0) (byte_at w 8) (byte_at w 16) (byte_at w 24) ≡ w
bytes-word w small =
    let a = bit_and-mask 8 (w / 2 ^ 0) in
    let b = bit_and-mask 8 (w / 2 ^ 8) in
    let c = bit_and-mask 8 (w / 2 ^ 16) in let d = bit_and-mask 8 (w / 2 ^ 24) in omega arith

module _ {H : Type 0} (ports : Ports H) (config : ℕ → ℕ → ℕ → ℕ → ℕ)
    (constant : (bus slot func offset : ℕ) (h : H)
      → (pci_read_config ports bus slot func offset h).0 ≡ config bus slot func offset)
    (words : (bus slot func offset : ℕ) → config bus slot func offset < 2 ^ 32) where
  bars-read :
      (left i k bus device function : ℕ) (h : H)
      → k < left
      → get_or (read_bars ports left i bus device function h).0 k 0
        ≡ config bus device function (0x10 + (i + k) * 4)
  unfolding read_bars
  bars-read zero i k bus device function h inside = absurd (omega arith)
  bars-read (suc left) i zero bus device function h inside =
      constant bus device function (0x10 + i * 4) h
      ∙ ap (config bus device function) {x = 0x10 + i * 4} {y = 0x10 + (i + 0) * 4} (omega arith)
  bars-read (suc left) i (suc k) bus device function h inside =
      bars-read left (i + 1) k bus device function
        (pci_read_config ports bus device function (0x10 + i * 4) h).1 (omega arith)
      ∙ ap (config bus device function) {x = 0x10 + (i + 1 + k) * 4} {y = 0x10 + (i + suc k) * 4}
          (omega arith)

  -- Where the configuration space is of 32-bit words that do not change under reading, the fields that
  -- `pci_get_device_info` reads make up their registers: the identification, command and status, the class,
  -- the header, the subsystem and the interrupt register, and the base addresses, in their order.
  pub pci_get_device_info_lem :
      (bus device function k : ℕ) (h : H)
      → k < 6
      → let d = (pci_get_device_info ports bus device function h).0 in
        (halves d.vendor_id d.device_id ≡ config bus device function 0x00)
        × (halves d.command d.status ≡ config bus device function 0x04)
        × (bytes d.revision_id d.prog_if d.subclass d.class_code ≡ config bus device function 0x08)
        × (bytes d.cache_line_size d.latency_timer d.header_type d.bist
            ≡ config bus device function 0x0c)
        × (get_or d.bar k 0 ≡ config bus device function (0x10 + k * 4))
        × (halves d.subsystem_vendor_id d.subsystem_id ≡ config bus device function 0x2c)
        × (bytes d.interrupt_line d.interrupt_pin d.min_grant d.max_latency
            ≡ config bus device function 0x3c)
  unfolding pci_get_device_info
  pci_get_device_info_lem bus device function k h inside =
      let of_halves = λ (offset : ℕ) (w : ℕ) (e : w ≡ config bus device function offset).
        halves-word w (omega (arith, e, words bus device function offset)) ∙ e in
      let of_bytes = λ (offset : ℕ) (w : ℕ) (e : w ≡ config bus device function offset).
        bytes-word w (omega (arith, e, words bus device function offset)) ∙ e in
      (
        of_halves 0x00 _ (constant bus device function 0x00 _),
        of_halves 0x04 _ (constant bus device function 0x04 _),
        of_bytes 0x08 _ (constant bus device function 0x08 _),
        of_bytes 0x0c _ (constant bus device function 0x0c _),
        bars-read 6 0 k bus device function _ inside
            ∙ ap (config bus device function) {x = 0x10 + (0 + k) * 4} {y = 0x10 + k * 4}
                (omega arith),
        of_halves 0x2c _ (constant bus device function 0x2c _),
        of_bytes 0x3c _ (constant bus device function 0x3c _),
      )
