-- ===== src/Ps2/Keyboard/Handler.antt =====
-- The whole keyboard interrupt: controller, decoding and event ring together.
use holyos.Base.{ℕ, suc, ◌<◌, ◌≡◌, true, done}
use holyos.Cpu.Ports.{Ports}
use holyos.Input.{Input}
use holyos.Input.Queue.{add_last}
use holyos.Input.Ring.{IsValid, contents}
use holyos.Input.Refine.{push-add_last}
use holyos.Ps2.I8042.{status_port, data_port}
use holyos.Ps2.I8042.Poll.{has_output, after_polls, Empty, i8042_read_data-ready}
use holyos.Ps2.Keyboard.{decode, ps2kbd_handler}

module _ {H : Type 0} (ports : Ports H) where
  -- What the data port gives once the status has shown output after `n` reads that showed none.
  abbrev pub answer : ℕ → H → ℕ × H
  answer n h = ports.inb data_port (after_polls ports (suc n) h)

  -- When the status shows output for the first time after `n` reads that showed none, the handler
  -- returns for any larger number of polls: `shift_pressed` and the event are those that `decode` gives
  -- for the byte at the data port, and a valid ring then holds that event last, unless it was full.
  pub ps2kbd_handler_lem :
      (n fuel shift : ℕ) (h : H) {input : Input}
      → n < fuel
      → Empty ports n h
      → has_output ports (ports.inb status_port (after_polls ports n h)).0 ≡ true
      → IsValid input
      → (input' : Input) × (ps2kbd_handler ports fuel shift input h
          ≡ done ((decode shift (answer n h).0).0, input', (answer n h).1))
        × IsValid input'
        × (contents input' ≡ add_last (decode shift (answer n h).0).1 (contents input))
  unfolding ps2kbd_handler
  ps2kbd_handler_lem n fuel shift h {input} enough empty ready v =
      let read = i8042_read_data-ready ports n fuel h enough empty ready in
      let (input', pushed, valid, holds) = push-add_last (decode shift (answer n h).0).1 v in
      (input', rw (read, pushed), valid, holds)
