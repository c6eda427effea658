-- ===== src/Ps2/I8042/Poll.antt =====
-- When the polling loops of the controller end.
use holyos.Base.{
  ℕ, zero, suc, ◌<◌, ◌≡◌, refl, Bool, true, false, done, spins, ◌>>=◌, ◌==◌, if◌then◌else◌, bit_and,
  arith, ap,
}
use holyos.Cpu.Ports.{Ports}
use holyos.Ps2.I8042.{status_port, data_port, status_output_full, wait_output, i8042_read_data}

module _ {H : Type 0} (ports : Ports H) where
  abbrev pub has_output : ℕ → Bool
  has_output status = if bit_and status status_output_full == 0 then false else true

  -- The hardware after `n` reads of the status.
  abbrev pub after_polls : ℕ → H → H
  after_polls zero h = h
  after_polls (suc n) h = after_polls n (ports.inb status_port h).1

  -- The first `n` status reads show an empty output buffer.
  abbrev pub Empty : ℕ → H → Type 0
  Empty zero h = Unit {0}
  Empty (suc n) h =
      (has_output (ports.inb status_port h).0 ≡ false) × Empty n (ports.inb status_port h).1

  wait_output-ready :
      (n fuel : ℕ) (h : H)
      → n < fuel
      → Empty n h
      → has_output (ports.inb status_port (after_polls n h)).0 ≡ true
      → wait_output ports fuel h ≡ done (after_polls (suc n) h)
  unfolding wait_output
  wait_output-ready n zero h enough empty ready = absurd (omega arith)
  wait_output-ready zero (suc fuel) h enough empty ready = ground arith
  wait_output-ready (suc n) (suc fuel) h enough empty ready =
      ground
        (arith, wait_output-ready n fuel (ports.inb status_port h).1 (omega arith) empty.1 ready)

  wait_output-spins : (fuel : ℕ) (h : H) → Empty fuel h → wait_output ports fuel h ≡ spins
  unfolding wait_output
  wait_output-spins zero h empty = refl
  wait_output-spins (suc fuel) h empty =
      ground (arith, wait_output-spins fuel (ports.inb status_port h).1 empty.1)

  -- When the status shows output for the first time after `n` reads that showed none, any larger
  -- number of polls lets `i8042_read_data` return the byte that the data port gives right then.
  pub i8042_read_data-ready :
      (n fuel : ℕ) (h : H)
      → n < fuel
      → Empty n h
      → has_output (ports.inb status_port (after_polls n h)).0 ≡ true
      → i8042_read_data ports fuel h ≡ done (ports.inb data_port (after_polls (suc n) h))
  unfolding i8042_read_data
  i8042_read_data-ready n fuel h enough empty ready =
      ap (λ r. r >>= λ h'. done (ports.inb data_port h'))
        (wait_output-ready n fuel h enough empty ready)

  -- While the status shows no output, `i8042_read_data` does not return.
  pub i8042_read_data-spins :
      (fuel : ℕ) (h : H) → Empty fuel h → i8042_read_data ports fuel h ≡ spins
  unfolding i8042_read_data
  i8042_read_data-spins fuel h empty =
      ap (λ r. r >>= λ h'. done (ports.inb data_port h')) (wait_output-spins fuel h empty)
