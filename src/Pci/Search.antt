-- ===== src/Pci/Search.antt =====
-- The search for a VGA controller.
use holyos.Base.{
  ℕ, zero, suc, ◌+◌, ◌/◌, ◌^◌, ◌<◌, ◌≤◌, ◌≡◌, ◌≢◌, ◌⊎◌, inl, inr, refl, sym, ◌∙◌, ap, subst, u8,
  arith, ==_ne,
}
use native.Mathlib.Decide.{ℕ_discrete}
use holyos.Cpu.Ports.{Ports}
use holyos.Pci.{
  config_address, pci_config_address, pci_config_data, pci_read_config, scan_slots, or_else,
  scan_buses, is_vga_pci_present,
}

module _ {H : Type 0} (ports : Ports H) (space : ℕ → ℕ) where
  -- A read of the data port gives the word of the configuration space that was selected.
  abbrev pub Answers : Type 0
  Answers =
      (a : ℕ) (h : H) → (ports.inl pci_config_data (ports.outl pci_config_address a h)).0 ≡ space a

  -- Function 0 of the slot is there and is a VGA controller.
  abbrev pub IsVga : ℕ → ℕ → Type 0
  IsVga bus slot =
      (space (config_address bus slot 0 0) ≢ 0xffff_ffff)
      × (space (config_address bus slot 0 8) / 2 ^ 16 ≡ 0x0300)

  pub record FoundIn (bus slot left : ℕ) : Type 0 where
    pub where_slot : ℕ
    pub from : slot ≤ where_slot
    pub to : where_slot < slot + left
    pub controller : IsVga (u8 bus) where_slot

  NoneIn : ℕ → ℕ → ℕ → Type 0
  NoneIn bus slot left = (k : ℕ) → slot ≤ k → k < slot + left → ¬ IsVga (u8 bus) k

  here_or_not : (bus slot : ℕ) → IsVga bus slot ⊎ (¬ IsVga bus slot)
  here_or_not bus slot = elim (ℕ_discrete (space (config_address bus slot 0 0)) 0xffff_ffff) [
    | yes absent ↦ inr (λ v. v.0 absent)
    | no there ↦ elim (ℕ_discrete (space (config_address bus slot 0 8) / 2 ^ 16) 0x0300) [
      | yes vga ↦ inl (there, vga)
      | no other ↦ inr (λ v. other v.1)
    ]
  ]

  -- One round of the search: the controller is here, or the search goes on from some state.
  round :
      (answers : Answers) (left bus slot : ℕ) (h : H)
      → (IsVga (u8 bus) slot × ((scan_slots ports (suc left) bus slot h).0 ≡ 1))
        ⊎ ((¬ IsVga (u8 bus) slot)
            × ((h' : H) × ((scan_slots ports (suc left) bus slot h).0
                  ≡ (scan_slots ports left bus (slot + 1) h').0)))
  unfolding scan_slots pci_read_config
  round answers left bus slot h =
      let id = config_address (u8 bus) slot 0 0 in
      let class = config_address (u8 bus) slot 0 8 in
      let h1 = (ports.inl pci_config_data (ports.outl pci_config_address id h)).1 in
      let h2 = (ports.inl pci_config_data (ports.outl pci_config_address class h1)).1 in
      elim (ℕ_discrete (space id) 0xffff_ffff) [
        | yes absent ↦ inr ((λ v. v.0 absent), (h1, rw (answers id h, absent) refl))
        | no there ↦ elim (ℕ_discrete (space class / 2 ^ 16) 0x0300) [
          | yes vga ↦ inl (
            (there, vga),
            rw (answers id h, ==_ne (space id) 0xffff_ffff there, answers class h1, vga) refl,
          )
          | no other ↦ inr (
            (λ v. other v.1),
            (
              h2,
              rw
                  (
                    answers id h,
                    ==_ne (space id) 0xffff_ffff there,
                    answers class h1,
                    ==_ne (space class / 2 ^ 16) 0x0300 other,
                  )
                  refl,
            ),
          )
        ]
      ]

  slots_lem :
      (answers : Answers) (left bus slot : ℕ) (h : H)
      → (((scan_slots ports left bus slot h).0 ≡ 1) × FoundIn bus slot left)
        ⊎ (((scan_slots ports left bus slot h).0 ≡ 0) × NoneIn bus slot left)
  unfolding NoneIn
  slots_lem answers zero bus slot h =
      inr ((unfold scan_slots in refl), λ k from to v. absurd (omega arith))
  slots_lem answers (suc left) bus slot h = elim (round answers left bus slot h) [
    | inl (vga, e) ↦
        inl
          (e, record { where_slot = slot; from = omega arith; to = omega arith; controller = vga })
    | inr (no_vga, (h', e)) ↦ elim (slots_lem answers left bus (slot + 1) h') [
      | inl (one, f) ↦ inl (
        e ∙ one,
        record {
          where_slot = f.where_slot;
          from = omega (arith, f.from);
          to = omega (arith, f.to);
          controller = f.controller;
        },
      )
      | inr (none_found, none_in) ↦ inr (
        e ∙ none_found,
        λ k from to v. elim (ℕ_discrete slot k) [
          | yes same ↦ no_vga (subst (λ (i : ℕ). IsVga (u8 bus) i) (sym same) v)
          | no ne ↦ none_in k (omega arith) (omega arith) v
        ],
      )
    ]
  ]

  -- When the search succeeds, a controller is there.
  pub record Somewhere (bus left : ℕ) : Type 0 where
    pub which_bus : ℕ
    pub which_slot : ℕ
    pub on_bus : which_bus < bus + left
    pub in_slot : which_slot < 32
    pub is_vga : IsVga (u8 which_bus) which_slot

  or_else-found : (r : ℕ × H) (later : H → ℕ × H) → r.0 ≡ 1 → (or_else ports r later).0 ≡ 1
  unfolding or_else
  or_else-found (found, h) later one = rw one refl

  or_else-later : (r : ℕ × H) (later : H → ℕ × H) → r.0 ≡ 0 → or_else ports r later ≡ later r.1
  unfolding or_else
  or_else-later (found, h) later nothing = rw nothing refl

  next_bus :
      (left bus : ℕ) (h : H)
      → scan_buses ports (suc left) bus h
        ≡ or_else ports (scan_slots ports 32 bus 0 h) (λ h'. scan_buses ports left (bus + 1) h')
  unfolding scan_buses
  next_bus left bus h = refl

  no_bus : (bus : ℕ) (h : H) → (scan_buses ports zero bus h).0 ≡ 0
  unfolding scan_buses
  no_bus bus h = refl

  buses_lem :
      (answers : Answers) (left bus : ℕ) (h : H)
      → (((scan_buses ports left bus h).0 ≡ 1) × Somewhere bus left)
        ⊎ (((scan_buses ports left bus h).0 ≡ 0)
            × ((b k : ℕ) → bus ≤ b → b < bus + left → k < 32 → ¬ IsVga (u8 b) k))
  unfolding NoneIn
  buses_lem answers zero bus h = inr (no_bus bus h, λ b k from to small v. absurd (omega arith))
  buses_lem answers (suc left) bus h = elim (slots_lem answers 32 bus 0 h) [
    | inl (one, f) ↦ inl (
      ap (λ r. r.0) (next_bus left bus h) ∙ or_else-found _ _ one,
      record {
        which_bus = bus;
        which_slot = f.where_slot;
        on_bus = omega arith;
        in_slot = omega (arith, f.to);
        is_vga = f.controller;
      },
    )
    | inr (nothing, none_in) ↦
        elim (buses_lem answers left (bus + 1) (scan_slots ports 32 bus 0 h).1) [
          | inl (one, s) ↦ inl (
            ap (λ r. r.0) (next_bus left bus h ∙ or_else-later _ _ nothing) ∙ one,
            record {
              which_bus = s.which_bus;
              which_slot = s.which_slot;
              on_bus = omega (arith, s.on_bus);
              in_slot = s.in_slot;
              is_vga = s.is_vga;
            },
          )
          | inr (no_more, nowhere) ↦ inr (
            ap (λ r. r.0) (next_bus left bus h ∙ or_else-later _ _ nothing) ∙ no_more,
            λ b k from to small v. elim (ℕ_discrete bus b) [
              | yes same ↦
                  none_in k (omega arith) (omega arith)
                    (subst (λ (i : ℕ). IsVga (u8 i) k) (sym same) v)
              | no ne ↦ nowhere b k (omega arith) (omega arith) small v
            ],
          )
        ]
  ]

  -- With a configuration space that answers reads the same way throughout, `is_vga_pci_present` returns
  -- 1 when some slot holds a VGA controller as its function 0, and returns 0 when none of the 8192
  -- slots does.
  pub is_vga_pci_present_lem :
      (h : H)
      → Answers
      → (((is_vga_pci_present ports h).0 ≡ 1) × Somewhere 0 256)
        ⊎ (((is_vga_pci_present ports h).0 ≡ 0) × ((b k : ℕ) → b < 256 → k < 32 → ¬ IsVga (u8 b) k))
  unfolding is_vga_pci_present
  is_vga_pci_present_lem h answers = elim (buses_lem answers 256 0 h) [
    | inl found ↦ inl found
    | inr (nothing, nowhere) ↦
        inr (nothing, λ b k bus slot. nowhere b k (omega arith) (omega arith) slot)
  ]
