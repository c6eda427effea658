-- ===== src/Tty/Shell.antt =====
-- kernel/tty/tty.c: formatted output, the commands and the line editor. `base` is the address of the local
-- `buf` of `tty_printf` and `locals` what its 4096 bytes hold, `scratch` the local `buffer` of `vsnprintf`.
pub mod Editor
pub mod Dispatch
pub mod Newline
use holyos.Base.{
  ℕ, zero, suc, ◌+◌, ◌-◌, Run, done, spins, fault, ◌>>=◌, Option, List, [], ◌∷◌, ◌==◌, ltb,
  if◌then◌else◌, drop,
}
use holyos.Str.{put, strcmp, strncmp}
use holyos.Print.{Arg, string, vsnprintf}
use holyos.Video.{VideoDriver}
use holyos.Tty.{
  Tty, tty_buffer_size, newline, backspace, tty_putchar, tty_write, tty_reset_line, tty_show_prompt,
  cmd_help, cmd_clear, cmd_echo,
}

-- "help", "clear" and "echo "
abbrev pub help_name : List ℕ
help_name = b'h' ∷ b'e' ∷ b'l' ∷ b'p' ∷ []

abbrev pub clear_name : List ℕ
clear_name = b'c' ∷ b'l' ∷ b'e' ∷ b'a' ∷ b'r' ∷ []

abbrev pub echo_name : List ℕ
echo_name = b'e' ∷ b'c' ∷ b'h' ∷ b'o' ∷ b' ' ∷ []

abbrev terminated : List ℕ → List ℕ
terminated [] = 0 ∷ []
terminated (c ∷ cs) = c ∷ terminated cs

-- "unknown command: '%s'\n"
abbrev pub unknown_format : List ℕ
unknown_format =
    b'u' ∷ b'n' ∷ b'k' ∷ b'n' ∷ b'o' ∷ b'w' ∷ b'n' ∷ b' ' ∷ b'c' ∷ b'o' ∷ b'm' ∷ b'm' ∷ b'a' ∷ b'n'
    ∷ b'd' ∷ b':' ∷ b' ' ∷ 39 ∷ b'%' ∷ b's' ∷ 39 ∷ newline ∷ 0 ∷ []

module _ {V : Type 0} (driver : Option (VideoDriver V)) (base : ℕ) (locals scratch : List ℕ) where
  unfoldable pub tty_printf : List ℕ → List Arg → Tty V → Run (Tty V)
  tty_printf fmt args s = do
    (len, buf) ← vsnprintf base 4096 scratch fmt args locals
    tty_write driver buf s

  unfoldable pub tty_execute_command : List ℕ → Tty V → Run (Tty V)
  tty_execute_command cmd s = do
    help ← strcmp cmd (terminated help_name)
    if help == 0 then cmd_help driver s else (do
      clear ← strcmp cmd (terminated clear_name)
      if clear == 0 then cmd_clear driver s else (do
        echo ← strncmp cmd (terminated echo_name) 5
        if echo == 0
            then cmd_echo driver (drop 5 cmd) s
            else tty_printf unknown_format (string cmd ∷ []) s))

  -- The end of a line.
  unfoldable pub end_line : Tty V → Run (Tty V)
  end_line s = do
    s ← tty_putchar driver newline s
    buffer ← put s.buffer s.buf_pos 0
    let s = record s { buffer = buffer }
    s ← (if ltb 0 s.buf_pos then tty_execute_command s.buffer s else done s)
    tty_show_prompt driver (tty_reset_line driver s)

  -- `ascii` is the event's character.
  unfoldable pub tty_handle_keypress : ℕ → Tty V → Run (Tty V)
  tty_handle_keypress ascii s =
      let rubbed = tty_putchar driver backspace (record s { buf_pos = s.buf_pos - 1 }) in
      let typed =
        (put s.buffer s.buf_pos ascii >>= λ buffer.
        tty_putchar driver ascii (record s { buffer = buffer; buf_pos = s.buf_pos + 1 })) in
      if ascii == 0
      then done s
      else if ascii == newline
      then end_line s
      else if ascii == backspace
      then if ltb 0 s.buf_pos then rubbed else done s
      else if ltb s.buf_pos tty_buffer_size
      then typed
      else done s
