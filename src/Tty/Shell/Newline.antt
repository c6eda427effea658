-- ===== src/Tty/Shell/Newline.antt =====
-- The end of a line runs the command that the line names, and starts a new line.
use holyos.Base.{
  ℕ, ◌+◌, ◌^◌, ◌<◌, ◌≤◌, ◌≡◌, refl, sym, ◌∙◌, ap, subst, Run, done, fault, Option, List, [], ◌∷◌,
  ◌++◌, true, ltb, length, arith, length-append, length-replicate, replicate,
}
use holyos.Str.{put}
use holyos.Str.Compare.{stored}
use holyos.Str.Decimal.Write.{drop-split}
use holyos.Str.Reverse.{put-append}
use holyos.Video.{VideoDriver}
use holyos.Tty.{Tty, tty_buffer_size, newline, tty_putchar, tty_reset_line, tty_show_prompt}
use holyos.Tty.Cursor.{
  IsValid, Keeps, Keeps-then, tty_putchar-Keeps, tty_write-Keeps, commands-Keep,
}
use holyos.Tty.Shell.{tty_handle_keypress, end_line, tty_execute_command}
use holyos.Tty.Shell.Dispatch.{
  Command, help, clear, echo, unknown, Names, run_command, unknown_text, tty_execute_command_lem,
}
use holyos.Tty.Shell.Editor.{HasLine, Types}

module _ {V : Type 0} (driver : Option (VideoDriver V)) where
  -- Every command returns with the terminal valid.
  pub run_command-Keeps :
      (command : Command) {s : Tty V} → IsValid s → Keeps s (run_command driver command s)
  unfolding run_command
  run_command-Keeps help {s} v = (commands-Keep driver [] v).0
  run_command-Keeps clear {s} v = (commands-Keep driver [] v).1
  run_command-Keeps (echo args) {s} v =
      let k = tty_write-Keeps driver args v in
      Keeps-then driver k (λ s'. tty_putchar driver newline s')
        (tty_putchar-Keeps driver newline k.valid)
  run_command-Keeps (unknown line) {s} v = tty_write-Keeps driver (unknown_text line) v

  -- The prompt behind a command starts an empty line.
  prompts : {s : Tty V} → IsValid s → Types [] (tty_show_prompt driver (tty_reset_line driver s))
  unfolding tty_show_prompt tty_reset_line
  prompts {s} v =
      let k =
        tty_write-Keeps driver (36 ∷ 32 ∷ [])
          {s = record s { buf_pos = 0; buffer = replicate tty_buffer_size 0 }}
          (record {
            free = v.free;
            column = v.column;
            row = v.row;
            columns = v.columns;
            rows = v.rows;
            whole = length-replicate {A = ℕ} tty_buffer_size 0;
            line = omega arith;
          }) in
      record {
        tty = k.tty;
        returns = k.returns;
        valid = k.valid;
        has_line = record {
          rest = replicate tty_buffer_size 0;
          stands = k.same_buffer;
          position = k.same_buf_pos;
          text = tt;
        };
      }

is_some : (n : ℕ) → 0 < n → ltb 0 n ≡ true
is_some n h = ground arith

with_nul :
    {V : Type 0} {s : Tty V}
    → IsValid s
    → (buffer : List ℕ) → length buffer ≡ tty_buffer_size
    → IsValid (record s { buffer = buffer })
with_nul v buffer whole = record {
  free = v.free;
  column = v.column;
  row = v.row;
  columns = v.columns;
  rows = v.rows;
  whole = whole;
  line = v.line;
}

-- The end of the line `line` on the terminal `s`: the new line is printed, the command of the line is run on
-- the terminal with the NUL behind the line, and the prompt is shown on an empty line.
pub record Runs {V : Type 0} (driver : Option (VideoDriver V)) (s : Tty V) (line : List ℕ)
    (result : Run (Tty V)) : Type 0 where
  pub printed : Tty V
  pub prints : tty_putchar driver newline s ≡ done printed
  pub behind : List ℕ
  pub command : Command
  pub named : Names line command
  pub ran : Tty V
  pub runs : run_command driver command (record printed { buffer = stored line behind }) ≡ done ran
  pub returns : result ≡ tty_show_prompt driver (tty_reset_line driver ran)
  pub types : Types [] result

module _ {V : Type 0} (driver : Option (VideoDriver V)) (base : ℕ) (locals scratch : List ℕ) where
  line_ended :
      (s printed ran : Tty V) (buffer : List ℕ)
      → tty_putchar driver newline s ≡ done printed
      → put printed.buffer printed.buf_pos 0 ≡ done buffer
      → 0 < printed.buf_pos
      → tty_execute_command driver base locals scratch buffer (record printed { buffer = buffer })
        ≡ done ran
      → tty_handle_keypress driver base locals scratch newline s
        ≡ tty_show_prompt driver (tty_reset_line driver ran)
  unfolding tty_handle_keypress end_line
  line_ended s printed ran buffer prints written some runs =
      rw (prints, written, is_some printed.buf_pos some, runs) refl

  line_faults :
      (s printed : Tty V)
      → tty_putchar driver newline s ≡ done printed
      → put printed.buffer printed.buf_pos 0 ≡ fault
      → tty_handle_keypress driver base locals scratch newline s ≡ fault
  unfolding tty_handle_keypress end_line
  line_faults s printed prints written = rw (prints, written) refl

  -- On a valid terminal with a line of 128 characters, the end of the line writes behind the buffer.
  pub tty_handle_keypress-fault :
      {s : Tty V} (v : IsValid s)
      → s.buf_pos ≡ tty_buffer_size
      → tty_handle_keypress driver base locals scratch newline s ≡ fault
  unfolding put
  tty_handle_keypress-fault {s} v full =
      let k = tty_putchar-Keeps driver newline v in
      line_faults s k.tty k.returns (ground (arith, k.valid.whole, k.same_buf_pos, full))

  module _ (address : base + 4096 ≤ 2 ^ 32) (room : 4096 ≤ length locals)
      (numbers : length scratch ≡ 32) where
    -- On a valid terminal with a line of 1 to 127 characters, `tty_handle_keypress` of the end of the line
    -- prints the new line, runs the command that the line names, and shows the prompt; it returns with the
    -- terminal valid and an empty line.
    pub newline-Runs :
        {s : Tty V} (v : IsValid s) (line : List ℕ)
        → HasLine s line
        → 0 < length line
        → length line < tty_buffer_size
        → Runs driver s line (tty_handle_keypress driver base locals scratch newline s)
    newline-Runs {s} v line h some short =
        let k = tty_putchar-Keeps driver newline v in
        let (x, behind, e, n) =
          drop-split 0 h.rest
            (omega (arith, v.whole, ap length h.stands, length-append line h.rest)) in
        let written : put k.tty.buffer k.tty.buf_pos 0 ≡ done (stored line behind) =
          ap (λ b. put b k.tty.buf_pos 0) (k.same_buffer ∙ h.stands ∙ ap (λ t. line ++ t) e)
          ∙ put-append line behind x 0 k.tty.buf_pos (k.same_buf_pos ∙ h.position) in
        let ready = with_nul k.valid (stored line behind) (
          omega (
            arith,
            v.whole,
            ap length h.stands,
            length-append line h.rest,
            ap length e,
            length-append line (0 ∷ behind),
          )) in
        let (command, named, ran_as) =
          tty_execute_command_lem driver base locals scratch address room numbers line behind
            (record k.tty { buffer = stored line behind }) h.text (omega arith) in
        let r = run_command-Keeps driver command ready in
        let ended =
          line_ended s k.tty r.tty (stored line behind) k.returns written
            (omega (arith, k.same_buf_pos, h.position)) (ran_as ∙ r.returns) in
        record {
          printed = k.tty;
          prints = k.returns;
          behind = behind;
          command = command;
          named = named;
          ran = r.tty;
          runs = r.returns;
          returns = ended;
          types = subst (Types []) (sym ended) (prompts driver r.valid);
        }
