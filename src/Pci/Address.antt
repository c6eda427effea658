-- ===== src/Pci/Address.antt =====
-- The word that selects a register, and what the search for a controller finds.
use holyos.Base.{
  ℕ, ◌+◌, ◌*◌, ◌/◌, ◌%◌, ◌^◌, ◌<◌, ◌≡◌, ◌∙◌, ap, bit_and, bit_or, arith, bit_or_fields,
  bit_and_high, bit_ext, bit-bit_or,
}
use holyos.Pci.{config_address}

or_comm : (a b : ℕ) → bit_or a b ≡ bit_or b a
or_comm a b =
    bit_ext (bit_or a b) (bit_or b a) λ j. omega (arith, bit-bit_or a b j, bit-bit_or b a j)

register_lem : (offset : ℕ) → offset < 2 ^ 8 → bit_and offset 0xfc ≡ offset / 4 * 4
register_lem offset small =
    ap (λ w. bit_and w 0xfc) {x = offset} {y = offset / 4 * 2 ^ 2 + offset % 4} (omega arith)
    ∙ bit_and_high 2 6 (offset / 4) (offset % 4) (omega arith) (omega arith)

-- The address word keeps the bus, the slot, the function and the register apart, each in its own
-- field below the enable bit.
pub config_address_lem :
    (bus slot func offset : ℕ)
    → bus < 2 ^ 8
    → slot < 2 ^ 5
    → func < 2 ^ 3
    → offset < 2 ^ 8
    → config_address bus slot func offset
      ≡ 2 ^ 31 + bus * 2 ^ 16 + slot * 2 ^ 11 + func * 2 ^ 8 + offset / 4 * 4
unfolding config_address
config_address_lem bus slot func offset bs ss fs os =
    let register = register_lem offset os in
    let a : bit_or (bus * 2 ^ 16) (slot * 2 ^ 11) ≡ (bus * 32 + slot) * 2 ^ 11 =
      bit_or_fields 16 bus (slot * 2 ^ 11) (omega arith) ∙ omega arith in
    let b : bit_or ((bus * 32 + slot) * 2 ^ 11) (func * 2 ^ 8)
        ≡ (bus * 256 + slot * 8 + func) * 2 ^ 8 =
      bit_or_fields 11 (bus * 32 + slot) (func * 2 ^ 8) (omega arith) ∙ omega arith in
    let c = bit_or_fields 8 (bus * 256 + slot * 8 + func) (offset / 4 * 4) (omega arith) in
    let d =
      bit_or_fields 31 1 ((bus * 256 + slot * 8 + func) * 2 ^ 8 + offset / 4 * 4) (omega arith) in
    rw
      (
        a,
        b,
        register,
        c,
        or_comm ((bus * 256 + slot * 8 + func) * 2 ^ 8 + offset / 4 * 4) 0x8000_0000,
      )
      (omega (arith, d))
