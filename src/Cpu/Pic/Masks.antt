-- ===== src/Cpu/Pic/Masks.antt =====
-- What `pic_mask_irq` and `pic_unmask_irq` do to the mask register that the data port reads back.
use holyos.Base.{
  ℕ, ◌%◌, ◌^◌, ◌<◌, ◌≡◌, ◌∙◌, ap, ◌==◌, if◌then◌else◌, u8, bit_and, bit_or, bit, complement, arith,
  bit-bit_or, bit-bit_and, bit-le-one, bit-two_pow_self, bit-two_pow_ne, bit-complement, bit_or-lt,
  bit_and-lt, two_pow-lt, ==_refl, ==_ne,
}
use native.Mathlib.Decide.{ℕ_discrete}
use holyos.Cpu.Ports.{Ports}
use holyos.Cpu.Pic.{data_port_of, pic_mask_irq, pic_unmask_irq}

module _ {H : Type 0} (ports : Ports H) where
  -- The mask that the controller of the interrupt shows.
  abbrev pub mask_of : ℕ → H → ℕ
  mask_of irq h = (ports.inb (data_port_of irq) h).0

  -- A data port reads back what was written to it.
  abbrev pub ReadsBack : ℕ → Type 0
  ReadsBack port = (v : ℕ) (h : H) → v < 2 ^ 8 → (ports.inb port (ports.outb port v h)).0 ≡ v

  -- With a data port that reads back what was written, `pic_mask_irq` sets the interrupt's bit of the
  -- mask and keeps the other seven.
  pub pic_mask_irq_lem :
      (irq : ℕ) (h : H) (j : ℕ)
      → ReadsBack (data_port_of irq)
      → mask_of irq h < 2 ^ 8
      → j < 8
      → bit (mask_of irq (pic_mask_irq ports irq h)) j
        ≡ (if j == irq % 8 then 1 else bit (mask_of irq h) j)
  unfolding pic_mask_irq
  pic_mask_irq_lem irq h j reads byte small =
      let old = mask_of irq h in
      let k = irq % 8 in
      let fits = bit_or-lt 8 old (2 ^ k) byte (two_pow-lt k 8 (omega arith)) in
      let same : u8 (bit_or old (2 ^ k)) ≡ bit_or old (2 ^ k) = omega arith in
      let written =
        reads (u8 (bit_or old (2 ^ k))) (ports.inb (data_port_of irq) h).1 (omega arith) in
      ap (λ v. bit v j) (written ∙ same) ∙ bit-bit_or old (2 ^ k) j ∙ elim (ℕ_discrete k j) [
        | yes e ↦ rw (e, ==_refl j) (omega (arith, bit-two_pow_self j, bit-le-one old j))
        | no ne ↦ rw (==_ne j k (λ e. ne (omega arith))) (omega (arith, bit-two_pow_ne k j ne))
      ]

  -- With a data port that reads back what was written, `pic_unmask_irq` clears the interrupt's bit of
  -- the mask and keeps the other seven.
  pub pic_unmask_irq_lem :
      (irq : ℕ) (h : H) (j : ℕ)
      → ReadsBack (data_port_of irq)
      → mask_of irq h < 2 ^ 8
      → j < 8
      → bit (mask_of irq (pic_unmask_irq ports irq h)) j
        ≡ (if j == irq % 8 then 0 else bit (mask_of irq h) j)
  unfolding pic_unmask_irq
  pic_unmask_irq_lem irq h j reads byte small =
      let old = mask_of irq h in
      let k = irq % 8 in
      let keep = complement 32 (2 ^ k) in
      let fits = bit_and-lt 8 old keep byte in
      let other = bit-complement 32 (2 ^ k) j (two_pow-lt k 32 (omega arith)) (omega arith) in
      let same : u8 (bit_and old keep) ≡ bit_and old keep = omega arith in
      let written =
        reads (u8 (bit_and old keep)) (ports.inb (data_port_of irq) h).1 (omega arith) in
      ap (λ v. bit v j) (written ∙ same) ∙ bit-bit_and old keep j ∙ elim (ℕ_discrete k j) [
        | yes e ↦
            rw (e, ==_refl j)
              (omega (
                arith,
                bit-two_pow_self j,
                bit-complement 32 (2 ^ j) j (two_pow-lt j 32 (omega arith)) (omega arith),
              ))
        | no ne ↦
            rw (==_ne j k (λ e. ne (omega arith)))
              (omega (arith, bit-two_pow_ne k j ne, other, bit-le-one old j))
      ]
