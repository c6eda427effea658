-- ===== src/Cpu/Descriptors.antt =====
-- kernel/cpu/gdt.c and idt.c, without their log output. The addresses of the tables and the addresses in
-- `isr_stub_table` and `irq_stub_table`, which the assembler defines, are arguments. A load of a table is the
-- pointer that is loaded.
pub mod Segments
pub mod Gates
use holyos.Base.{
  ℕ, zero, suc, ◌+◌, ◌-◌, ◌*◌, ◌/◌, ◌%◌, ◌^◌, List, [], ◌∷◌, Bool, ◌||◌, ◌!=◌, if◌then◌else◌, Run,
  done, fault, ◌>>=◌, ltb, length, get_or, set, u8, u16, u32, bit_and, bit_or,
}

pub record GdtEntry : Type 0 where
  pub limit_lo : ℕ
  pub base_lo : ℕ
  pub base_mi : ℕ
  pub access : ℕ
  pub flags : ℕ
  pub base_hi : ℕ

pub record GdtPtr : Type 0 where
  pub limit : ℕ
  pub base : ℕ

pub record IdtEntry : Type 0 where
  pub base_lo : ℕ
  pub sel : ℕ
  pub zero_byte : ℕ
  pub flags : ℕ
  pub base_hi : ℕ

pub record IdtPtr : Type 0 where
  pub limit : ℕ
  pub base : ℕ

abbrev pub null_segment : GdtEntry
null_segment = record { limit_lo = 0; base_lo = 0; base_mi = 0; access = 0; flags = 0; base_hi = 0 }

abbrev pub null_gate : IdtEntry
null_gate = record { base_lo = 0; sel = 0; zero_byte = 0; flags = 0; base_hi = 0 }

-- The fields that `gdt_set_entry` and `idt_set_entry` write.
unfoldable pub segment : ℕ → ℕ → ℕ → ℕ → GdtEntry
segment base limit access flags = record {
  limit_lo = u16 (bit_and limit 0xffff);
  base_lo = u16 (bit_and base 0xffff);
  base_mi = u8 (bit_and (base / 2 ^ 16) 0xff);
  access = access;
  flags = u8 (bit_or flags (bit_and (limit / 2 ^ 16) 0x0f));
  base_hi = u8 (bit_and (base / 2 ^ 24) 0xff);
}

unfoldable pub gate : ℕ → ℕ → ℕ → IdtEntry
gate base sel flags = record {
  base_lo = u16 (bit_and base 0xffff);
  sel = sel;
  zero_byte = 0;
  flags = u8 (bit_or flags 0x60);
  base_hi = u16 (bit_and (base / 2 ^ 16) 0xffff);
}

-- A write out of an array is a fault.
unfoldable pub gdt_set_entry : ℕ → ℕ → ℕ → ℕ → ℕ → List GdtEntry → Run (List GdtEntry)
unfolding segment
gdt_set_entry i base limit access flags entries =
    if ltb i (length entries) then done (set entries i (segment base limit access flags)) else fault

unfoldable pub idt_set_entry : ℕ → ℕ → ℕ → ℕ → List IdtEntry → Run (List IdtEntry)
unfolding gate
idt_set_entry i base sel flags entries =
    if ltb i (length entries) then done (set entries i (gate base sel flags)) else fault

-- The loop that counts the entries up to the last that is used, from the entry `i` on.
unfoldable pub count_entries : List GdtEntry → ℕ → ℕ → ℕ
count_entries [] i num_entries = num_entries
count_entries (e ∷ entries) i num_entries =
    count_entries entries (i + 1) (if e.access != 0 || e.flags != 0 then i + 1 else num_entries)

-- `gdt_init` loads the table at the address `table`.
unfoldable pub gdt_init : ℕ → List GdtEntry → Run (List GdtEntry × GdtPtr)
unfolding gdt_set_entry count_entries
gdt_init table entries = do
  entries ← gdt_set_entry 1 0 0xfffff 0x9a 0xc0 (set entries 0 null_segment)
  entries ← gdt_set_entry 2 0 0xfffff 0x92 0xc0 entries
  entries ← gdt_set_entry 3 0 0xfffff 0xfa 0xc0 entries
  entries ← gdt_set_entry 4 0 0xfffff 0xf2 0xc0 entries
  done (entries, record { limit = u16 (8 * count_entries entries 0 0 - 1); base = table })

-- The rest of a loop that sets the gates of the stubs, from the vector `i` on.
unfoldable pub set_gates : List ℕ → ℕ → List IdtEntry → Run (List IdtEntry)
set_gates [] i entries = done entries
set_gates (stub ∷ stubs) i entries =
    idt_set_entry i stub 0x08 0x8e entries >>= λ entries'. set_gates stubs (i + 1) entries'

-- The tables of stubs have 32 and 16 addresses.
unfoldable pub idt_init : ℕ → List ℕ → List ℕ → List IdtEntry → Run (List IdtEntry × IdtPtr)
idt_init table isr_stub_table irq_stub_table entries = do
  entries ← set_gates isr_stub_table 0 (set entries 0 null_gate)
  entries ← set_gates irq_stub_table 32 entries
  done (entries, record { limit = 8 * 256 - 1; base = table })
