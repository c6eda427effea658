-- ===== src/Cpu/Ports.antt =====
-- include/kernel/cpu/io.h: the I/O instructions, over the state `H` of the hardware behind the ports.
-- What a device answers is not in the sources, so it is a parameter.
use holyos.Base.{ℕ}

pub record Ports (H : Type 0) : Type 0 where
  pub inb : ℕ → H → ℕ × H
  pub outb : ℕ → ℕ → H → H
  pub inl : ℕ → H → ℕ × H
  pub outl : ℕ → ℕ → H → H
