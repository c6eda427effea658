-- ===== src/Tests/Texts.antt =====
-- Numbers as text, formatted printing and the command line.
use holyos.Base.{
  suc, zero, map, u8, bit_and, ◌-◌, ℕ, ◌-◌, ◌^◌, ◌≤◌, ◌≡◌, ◌≢◌, refl, List, [], ◌∷◌, ◌++◌, done,
  none, arith, length, take, replicate, length-replicate,
}
use holyos.Cpu.Ports.{Ports}
use holyos.Input.{KeyEvent, key_pressed, zero_event}
use holyos.Input.Ring
use holyos.Main.{Kernel, main_loop}
use holyos.Main.Typing.{AreKeys, Typed, edit_all, main_loop-Typed}
use holyos.Str.{itoa, atoi}
use holyos.Str.Compare.{stored}
use holyos.Str.Decimal.Read.{atoi-itoa}
use holyos.Print.{vsnprintf}
use holyos.Print.Pieces.{
  Piece, plain, decimal_of, hex_of, char_of, string_of, null_string, percent, unknown,
}
use holyos.Print.Format.{format_of, args_of, text_of, AreProper, vsnprintf_lem}
use holyos.Serial.{kprintf}
use holyos.Serial.Output.{Line, Sends, kprintf-Sends}
use holyos.Tty.{Tty, newline}
use holyos.Tty.Cursor.{IsValid}
use holyos.Tty.Shell.{tty_execute_command, tty_handle_keypress}
use holyos.Tty.Shell.Dispatch.{Command, Names, run_command, tty_execute_command_lem}
use holyos.Tty.Shell.Editor.{HasLine, Types, edit, tty_handle_keypress_lem}
use holyos.Tty.Shell.Newline.{Runs, newline-Runs}

-- The word of -42.
abbrev minus_42 : ℕ
minus_42 = 2 ^ 32 - 42

atoi-itoa_example :
    (text rest : List ℕ) × (itoa minus_42 (replicate 12 0) ≡ done (length text, stored text rest))
    × (length text ≤ 11)
    × (length (stored text rest) ≡ 12)
    × (atoi (stored text rest) ≡ done minus_42)
atoi-itoa_example = atoi-itoa minus_42 (replicate 12 0) (omega arith) (omega arith) (omega arith)

-- "a=%d %x%c%s%s%%%q" with -42, 255, "!", "ok" and the null pointer.
abbrev pieces : List Piece
pieces =
    plain b'a'
    ∷ plain b'='
    ∷ decimal_of minus_42
    ∷ plain b' '
    ∷ hex_of 255
    ∷ char_of b'!'
    ∷ string_of (b'o' ∷ b'k' ∷ []) []
    ∷ null_string
    ∷ percent
    ∷ unknown b'q'
    ∷ []

pieces-AreProper : AreProper pieces
unfolding AreProper
pieces-AreProper = ground arith

vsnprintf_lem_example :
    (behind : List ℕ) × (vsnprintf 0x1000 10
        (replicate 32 0)
        (format_of pieces ++ 0 ∷ [])
        (args_of pieces)
        (replicate 16 7)
      ≡ done (length (take 9 (text_of pieces)), stored (take 9 (text_of pieces)) behind))
    × (length (stored (take 9 (text_of pieces)) behind) ≡ 16)
vsnprintf_lem_example =
    vsnprintf_lem 0x1000 9 (replicate 32 0) pieces [] (replicate 16 7) (omega arith) refl
      pieces-AreProper (omega arith)

-- A chip that needs three polls for a byte.
record Chip : Type 0 where
  left : ℕ
  out : List ℕ

-- A read of the line status register.
abbrev slow_read : ℕ → List ℕ → ℕ × Chip
slow_read zero out = (0x60, record { left = 0; out = out })
slow_read (suc left) out = (0, record { left = left; out = out })

-- A write to the holding register.
abbrev slow_write : ℕ → List ℕ → ℕ → Chip
slow_write zero out v = record { left = 3; out = out ++ v ∷ [] }
slow_write (suc left) out v = record { left = suc left; out = out }

abbrev slow_port : Ports Chip
slow_port = record {
  inb = λ port h. slow_read h.left h.out;
  outb = λ port v h. slow_write h.left h.out v;
  inl = λ port h. (0, h);
  outl = λ port v h. h;
}

slow_idle :
    (left : ℕ) (out : List ℕ)
    → left ≡ 0
    → (bit_and (slow_read left out).0 0x20 ≢ 0)
      × ((slow_read left out).1.left ≡ 0)
      × ((slow_read left out).1.out ≡ out)
slow_idle zero out idle = ((λ e. absurd (omega (arith, e))), refl, refl)
slow_idle (suc left) out idle = absurd (omega arith)

slow_busy :
    (now : ℕ) (out : List ℕ) (left : ℕ)
    → now ≡ suc left
    → (bit_and (slow_read now out).0 0x20 ≡ 0)
      × ((slow_read now out).1.left ≡ left)
      × ((slow_read now out).1.out ≡ out)
slow_busy zero out left busy = absurd (omega arith)
slow_busy (suc now) out left busy = (refl, omega arith, refl)

slow_transmit :
    (left : ℕ) (out : List ℕ) (c : ℕ)
    → left ≡ 0
    → ((slow_write left out c).out ≡ out ++ c ∷ []) × ((slow_write left out c).left ≤ 3)
slow_transmit zero out c idle = (refl, omega arith)
slow_transmit (suc left) out c idle = absurd (omega arith)

abbrev slow_line : Line slow_port
slow_line = record {
  busy = λ h. h.left;
  sent = λ h. h.out;
  slow = 3;
  poll_idle = λ h. slow_idle h.left h.out;
  poll_busy = λ h. slow_busy h.left h.out;
  transmit = λ h. slow_transmit h.left h.out;
}

kprintf-Sends_example :
    Sends slow_port slow_line
      (map u8 (take 4095 (text_of pieces)))
      (record { left = 2; out = [] })
      (kprintf slow_port 4 0x1000
        (replicate 4096 0)
        (replicate 32 0)
        (format_of pieces ++ 0 ∷ [])
        (args_of pieces)
        (record { left = 2; out = [] }))
kprintf-Sends_example =
    kprintf-Sends slow_port slow_line 4 0x1000 (replicate 4096 0) (replicate 32 0) pieces []
      (record { left = 2; out = [] }) (omega arith) (omega arith) (omega arith)
      (length-replicate {A = ℕ} 4096 0) refl pieces-AreProper

-- A terminal of 80 columns without a screen, on which `echo a` is typed.
abbrev typed : List ℕ
typed = b'e' ∷ b'c' ∷ b'h' ∷ b'o' ∷ b' ' ∷ b'a' ∷ []

abbrev typed_tty : Tty ℕ
typed_tty = record {
  lock = 0;
  buffer = typed ++ replicate 122 0;
  buf_pos = 6;
  width = 80;
  height = 25;
  fg = record { r = 255; g = 255; b = 255 };
  bg = record { r = 0; g = 0; b = 0 };
  xpos = 8;
  ypos = 0;
  screen = 0;
}

typed_tty-IsValid : IsValid typed_tty
typed_tty-IsValid = record {
  free = refl;
  column = omega arith;
  row = omega arith;
  columns = omega arith;
  rows = omega arith;
  whole = refl;
  line = omega arith;
}

typed_tty-HasLine : HasLine typed_tty typed
typed_tty-HasLine = record {
  rest = replicate 122 0;
  stands = refl;
  position = refl;
  text = ground arith;
}

tty_execute_command_lem_example :
    (command : Command) × Names typed command
    × (tty_execute_command none 0x1000
          (replicate 4096 0)
          (replicate 32 0)
          (stored typed [])
          typed_tty
        ≡ run_command none command typed_tty)
tty_execute_command_lem_example =
    tty_execute_command_lem none 0x1000 (replicate 4096 0) (replicate 32 0) (omega arith)
      (omega (arith, length-replicate {A = ℕ} 4096 0)) refl typed [] typed_tty
      typed_tty-HasLine.text (omega arith)

tty_handle_keypress_lem_example :
    Types
      (edit b'b' typed)
      (tty_handle_keypress none 0x1000 (replicate 4096 0) (replicate 32 0) b'b' typed_tty)
tty_handle_keypress_lem_example =
    tty_handle_keypress_lem none 0x1000 (replicate 4096 0) (replicate 32 0) b'b' typed_tty-IsValid
      typed typed_tty-HasLine (omega arith) (omega arith)

newline-Runs_example :
    Runs none typed_tty typed
      (tty_handle_keypress none 0x1000 (replicate 4096 0) (replicate 32 0) newline typed_tty)
newline-Runs_example =
    newline-Runs none 0x1000 (replicate 4096 0) (replicate 32 0) (omega arith)
      (omega (arith, length-replicate {A = ℕ} 4096 0)) refl typed_tty-IsValid typed
      typed_tty-HasLine (omega arith) (omega arith)

-- A ring with the key `b` and the backspace, before the line that is typed.
abbrev two_keys : List KeyEvent
two_keys =
    (record { type = key_pressed; scancode = 48; ascii = b'b' })
    ∷ (record { type = key_pressed; scancode = 14; ascii = 8 })
    ∷ []

abbrev waiting : Kernel ℕ
waiting = record {
  input = record { buffer = two_keys ++ replicate 254 zero_event; head = 2; tail = 0; lock = 0 };
  tty = typed_tty;
}

waiting-IsValid : holyos.Input.Ring.IsValid waiting.input
waiting-IsValid = record {
  storage = refl;
  head_in = omega arith;
  tail_in = omega arith;
  free = refl;
}

two_keys-AreKeys : AreKeys two_keys
unfolding AreKeys
two_keys-AreKeys = ground arith

main_loop-Typed_example :
    Typed
      (edit_all two_keys typed)
      (main_loop none 0x1000 (replicate 4096 0) (replicate 32 0) 2 waiting)
main_loop-Typed_example =
    main_loop-Typed none 0x1000 (replicate 4096 0) (replicate 32 0) two_keys waiting typed refl
      waiting-IsValid typed_tty-IsValid typed_tty-HasLine two_keys-AreKeys
