-- ===== src/Ps2/Keyboard.antt =====
-- drivers/input/ps2/ps2kbd.c: the interrupt handler. `decode` is what it does with a byte, between
-- the read from the controller and the push.
pub mod Layout
pub mod Typing
pub mod Handler
use holyos.Base.{
  ℕ, List, [], ◌∷◌, ◌||◌, Run, done, spins, fault, ◌>>=◌, ◌==◌, ◌!=◌, if◌then◌else◌, bit_and,
}
use holyos.Cpu.Ports.{Ports}
use holyos.Input.{KeyEventType, key_pressed, key_released, KeyEvent, Input, input_push_event}
use holyos.Ps2.Keymap.{keymap_to_ascii}
use holyos.Ps2.I8042.{i8042_read_data}

-- `shift_pressed` after a byte.
unfoldable pub shift_after : ℕ → ℕ → ℕ
shift_after shift scancode =
    if scancode == 0x2a || scancode == 0x36
    then 1
    else if scancode == 0xaa || scancode == 0xb6
    then 0
    else shift

-- The event for a byte, with `shift_pressed` already updated.
unfoldable pub key_event : ℕ → ℕ → KeyEvent
unfolding keymap_to_ascii
key_event shift scancode =
    let released = bit_and scancode 0x80 != 0 in
    let code = bit_and scancode 0x7f in
    record {
      type = if released then key_released else key_pressed;
      scancode = code;
      ascii = if released then 0 else keymap_to_ascii code shift;
    }

unfoldable pub decode : ℕ → ℕ → ℕ × KeyEvent
unfolding shift_after key_event
decode shift scancode =
    let shift' = shift_after shift scancode in (shift', key_event shift' scancode)

module _ {H : Type 0} (ports : Ports H) where
  -- The handler turns `shift_pressed`, the event ring and the hardware into their new values.
  unfoldable pub ps2kbd_handler : ℕ → ℕ → Input → H → Run (ℕ × Input × H)
  unfolding i8042_read_data decode input_push_event
  ps2kbd_handler fuel shift_pressed input h = do
    (scancode, h) ← i8042_read_data ports fuel h
    let (shift, event) = decode shift_pressed scancode
    input ← input_push_event event input
    done (shift, input, h)
