-- ===== src/Tests/Machine.antt =====
-- The descriptor tables, the interrupts and the scan of the PCI bus.
use holyos.Base.{
  ◌<◌, ◌^◌, ℕ, ◌+◌, ◌/◌, ◌≡◌, ◌>>=◌, refl, List, done, some, none, arith, length, get_or, replicate,
}
use holyos.Cpu.Ports.{Ports}
use holyos.Cpu.Descriptors.{GdtEntry, IdtEntry, null_segment, null_gate, gdt_set_entry, idt_init}
use holyos.Cpu.Descriptors.Segments.{segment_base, segment_limit, gdt_set_entry_lem}
use holyos.Cpu.Descriptors.Gates.{gate_offset, idt_init_lem}
use holyos.Cpu.Interrupt.{IsrHandler, interrupt_register_handler, interrupt_handler, end_interrupt}
use holyos.Cpu.Interrupt.Dispatch.{handler-register}
use holyos.Pci.{pci_read_config}
use holyos.Pci.Device.{pci_get_device_info}
use holyos.Pci.Device.Fields.{halves, bytes, pci_get_device_info_lem}
use holyos.Pci.Scan.{pci_init}
use holyos.Pci.Scan.Termination.{Returns, Ascends, byte_of, pci_init-Returns}

gdt_set_entry_lem_example :
    (entries' : List GdtEntry) × (gdt_set_entry 1 0x1234_5678 0xabcde 0x9a 0xc0
        (replicate 6 null_segment)
      ≡ done entries')
    × (segment_base (get_or entries' 1 null_segment) ≡ 0x1234_5678)
    × (segment_limit (get_or entries' 1 null_segment) ≡ 0xabcde)
    × ((get_or entries' 1 null_segment).access ≡ 0x9a)
    × ((get_or entries' 1 null_segment).flags / 16 ≡ 12)
    × (get_or entries' 2 null_segment ≡ null_segment)
gdt_set_entry_lem_example =
    gdt_set_entry_lem 1 0x1234_5678 0xabcde 0x9a 12 2 (replicate 6 null_segment) (omega arith)
      (omega arith) (omega arith) (omega arith) (omega arith)

idt_init_lem_example :
    (after : List IdtEntry) × (idt_init 0x5000
        (replicate 32 0x10_1000)
        (replicate 16 0x10_2000)
        (replicate 256 null_gate)
      ≡ done (after, record { limit = 2047; base = 0x5000 }))
    × (length after ≡ 256)
    × (gate_offset (get_or after 33 null_gate) ≡ 0x10_2000)
    × ((get_or after 33 null_gate).sel ≡ 8)
    × ((get_or after 33 null_gate).flags ≡ 0xee)
idt_init_lem_example =
    idt_init_lem 0x5000 (replicate 32 0x10_1000) (replicate 16 0x10_2000) (replicate 256 null_gate)
      33 refl refl refl (omega arith) (omega arith)

-- One register, which every port writes and reads.
abbrev register : Ports ℕ
register = record {
  inb = λ port h. (h, h);
  outb = λ port v h. v;
  inl = λ port h. (h, h);
  outl = λ port v h. v;
}

abbrev counts : IsrHandler ℕ
counts int_no h = done (int_no, h + 1)

handler-register_example :
    let after = (interrupt_register_handler register 33 (some counts) (replicate 48 none) 0).0 in
    (interrupt_handler register 33 after 5
      ≡ (counts 33 5 >>= λ (r : ℕ × ℕ). done (r.0, end_interrupt register r.0 r.1)))
    × (interrupt_handler register 32 after 5 ≡ interrupt_handler register 32 (replicate 48 none) 5)
handler-register_example =
    handler-register register 33 32 counts (replicate 48 none) 0 5 refl (omega arith) (omega arith)
      (omega arith)

-- A bus on which every function answers with the same word, of class 3.
abbrev same_word : ℕ → ℕ → ℕ → ℕ → ℕ
same_word bus slot func offset = 0x0300_8086

abbrev answers : Ports ℕ
answers = record {
  inb = λ port h. (0, h);
  outb = λ port v h. h;
  inl = λ port h. (0x0300_8086, h);
  outl = λ port v h. v;
}

answers-constant :
    (bus slot func offset h : ℕ)
    → (pci_read_config answers bus slot func offset h).0 ≡ same_word bus slot func offset
unfolding pci_read_config
answers-constant bus slot func offset h = refl

no_bridges : Ascends answers same_word answers-constant
unfolding Ascends byte_of
no_bridges bus device function b d f class subclass = absurd (omega (arith, class))

pci_init-Returns_example : Returns (pci_init answers 257 0)
pci_init-Returns_example = pci_init-Returns answers same_word answers-constant no_bridges 0

same_word-word : (bus slot func offset : ℕ) → same_word bus slot func offset < 2 ^ 32
same_word-word bus slot func offset = omega arith

pci_get_device_info_lem_example :
    let d = (pci_get_device_info answers 0 2 0 0).0 in
    (halves d.vendor_id d.device_id ≡ 0x0300_8086)
    × (halves d.command d.status ≡ 0x0300_8086)
    × (bytes d.revision_id d.prog_if d.subclass d.class_code ≡ 0x0300_8086)
    × (bytes d.cache_line_size d.latency_timer d.header_type d.bist ≡ 0x0300_8086)
    × (get_or d.bar 5 0 ≡ 0x0300_8086)
    × (halves d.subsystem_vendor_id d.subsystem_id ≡ 0x0300_8086)
    × (bytes d.interrupt_line d.interrupt_pin d.min_grant d.max_latency ≡ 0x0300_8086)
pci_get_device_info_lem_example =
    pci_get_device_info_lem answers same_word answers-constant same_word-word 0 2 0 5 0
      (omega arith)
