-- ===== src/Tty/Cursor.antt =====
-- The cursor stays on the screen, whatever is printed.
use holyos.Base.{
  ℕ, ◌+◌, ◌^◌, ◌<◌, ◌≤◌, ◌≡◌, ◌⊎◌, inl, inr, refl, sym, subst, ◌∙◌, ap, Run, done, fault, ◌>>=◌,
  Option, none, some, List, [], ◌∷◌, ◌==◌, length, arith, Bool-cases, length-replicate,
}
use holyos.Cpu.Spinlock.{spinlock_lock, spinlock_unlock, spinlock_init}
use holyos.Video.{VideoDriver}
use holyos.Tty.{
  Tty, tty_buffer_size, newline, available_commands, help_help, help_clear, help_echo, show,
  put_char, wrap_line, wrap_screen, tty_putchar, tty_write, tty_clear, tty_show_prompt, fresh_tty,
  tty_init, cmd_help, cmd_clear, cmd_echo,
}

-- The terminal between two calls: the lock is free, the size is not zero and the cursor on the screen.
pub record IsValid {V : Type 0} (s : Tty V) : Type 0 where
  pub free : s.lock ≡ 0
  pub column : s.xpos < s.width
  pub row : s.ypos < s.height
  pub columns : s.width < 2 ^ 16
  pub rows : s.height < 2 ^ 16
  pub whole : length s.buffer ≡ tty_buffer_size
  pub line : s.buf_pos ≤ tty_buffer_size

-- A call that returns with the terminal valid, its size and the line that is being typed as before.
pub record Keeps {V : Type 0} (s : Tty V) (result : Run (Tty V)) : Type 0 where
  pub tty : Tty V
  pub returns : result ≡ done tty
  pub valid : IsValid tty
  pub same_width : tty.width ≡ s.width
  pub same_height : tty.height ≡ s.height
  pub same_buffer : tty.buffer ≡ s.buffer
  pub same_buf_pos : tty.buf_pos ≡ s.buf_pos

module _ {V : Type 0} (driver : Option (VideoDriver V)) where
  -- The fields that putting a character keeps, and where the row may be.
  record Put (s t : Tty V) : Type 0 where
    width : t.width ≡ s.width
    height : t.height ≡ s.height
    row : t.ypos ≤ s.ypos + 1
    buffer : t.buffer ≡ s.buffer
    buf_pos : t.buf_pos ≡ s.buf_pos

  put_char-Put : (c : ℕ) (s : Tty V) → s.ypos < 2 ^ 16 → Put s (put_char driver c s)
  unfolding put_char show
  put_char-Put c s small = record {
    width = ground arith;
    height = ground arith;
    row = ground arith;
    buffer = ground arith;
    buf_pos = ground arith;
  }

  -- After the two wraps the cursor is on the screen again.
  wrapped :
      (s : Tty V)
      → 0 < s.width
      → s.width < 2 ^ 16
      → 0 < s.height
      → s.height < 2 ^ 16
      → s.ypos ≤ s.height
      → let t = wrap_screen driver (wrap_line driver s) in
        (t.xpos < t.width)
        × (t.ypos < t.height)
        × (t.width ≡ s.width)
        × (t.height ≡ s.height)
        × (t.buffer ≡ s.buffer)
        × (t.buf_pos ≡ s.buf_pos)
  unfolding wrap_line wrap_screen
  wrapped s wide width high height row = ground arith

  putchar_run :
      (c : ℕ) (s : Tty V)
      → s.lock ≡ 0
      → (tty_putchar driver c s ≡ done (record s { lock = 0 }))
        ⊎ (tty_putchar driver c s
            ≡ done
                (record (wrap_screen driver
                  (wrap_line driver (put_char driver c (record s { lock = 1 })))) { lock = 0 }))
  unfolding tty_putchar spinlock_lock spinlock_unlock
  putchar_run c s free = elim (Bool-cases (c == 0)) [
    | inl nul ↦ inl (rw (free, nul) refl)
    | inr char ↦ inr (rw (free, char) refl)
  ]

  -- `tty_putchar` returns for every character, the lock free again and the cursor on the screen.
  pub tty_putchar-Keeps : (c : ℕ) {s : Tty V} → IsValid s → Keeps s (tty_putchar driver c s)
  tty_putchar-Keeps c {s} v =
      let s1 = record s { lock = 1 } in
      let t = put_char driver c s1 in
      let p = put_char-Put c s1 (omega (arith, v.row, v.rows)) in
      let w =
        wrapped t (omega (arith, v.column, p.width)) (omega (arith, v.columns, p.width))
          (omega (arith, v.row, p.height)) (omega (arith, v.rows, p.height))
          (omega (arith, v.row, p.row, p.height)) in
      elim (putchar_run c s v.free) [
        | inl same ↦ record {
          tty = record s { lock = 0 };
          returns = same;
          valid = record {
            free = refl;
            column = v.column;
            row = v.row;
            columns = v.columns;
            rows = v.rows;
            whole = v.whole;
            line = v.line;
          };
          same_width = refl;
          same_height = refl;
          same_buffer = refl;
          same_buf_pos = refl;
        }
        | inr put ↦ record {
          tty = record (wrap_screen driver (wrap_line driver t)) { lock = 0 };
          returns = put;
          valid = record {
            free = refl;
            column = w.0;
            row = w.1;
            columns = omega (arith, w.2, p.width, v.columns);
            rows = omega (arith, w.3, p.height, v.rows);
            whole = ap length (w.4 ∙ p.buffer) ∙ v.whole;
            line = omega (arith, w.5, p.buf_pos, v.line);
          };
          same_width = w.2 ∙ p.width;
          same_height = w.3 ∙ p.height;
          same_buffer = w.4 ∙ p.buffer;
          same_buf_pos = w.5 ∙ p.buf_pos;
        }
      ]

  pub Keeps-self : {s : Tty V} → IsValid s → Keeps s (done s)
  Keeps-self {s} v = record {
    tty = s;
    returns = refl;
    valid = v;
    same_width = refl;
    same_height = refl;
    same_buffer = refl;
    same_buf_pos = refl;
  }

  pub Keeps-then :
      {s : Tty V} {m : Run (Tty V)} (k : Keeps s m) (f : Tty V → Run (Tty V))
      → Keeps k.tty (f k.tty)
      → Keeps s (m >>= f)
  Keeps-then k f next = record {
    tty = next.tty;
    returns = ap (λ r. r >>= f) k.returns ∙ next.returns;
    valid = next.valid;
    same_width = next.same_width ∙ k.same_width;
    same_height = next.same_height ∙ k.same_height;
    same_buffer = next.same_buffer ∙ k.same_buffer;
    same_buf_pos = next.same_buf_pos ∙ k.same_buf_pos;
  }

  write_step :
      (c : ℕ) (str : List ℕ) (s : Tty V)
      → (tty_write driver (c ∷ str) s ≡ done s)
        ⊎ (tty_write driver (c ∷ str) s
            ≡ (tty_putchar driver c s >>= λ s'. tty_write driver str s'))
  unfolding tty_write
  write_step c str s = elim (Bool-cases (c == 0)) [
    | inl nul ↦ inl (rw nul refl)
    | inr char ↦ inr (rw char refl)
  ]

  write_end : (s : Tty V) → tty_write driver [] s ≡ done s
  unfolding tty_write
  write_end s = refl

  -- `tty_write` returns for every string, the lock free again and the cursor on the screen.
  pub tty_write-Keeps : (str : List ℕ) {s : Tty V} → IsValid s → Keeps s (tty_write driver str s)
  tty_write-Keeps [] {s} v = subst (λ r. Keeps s r) (sym (write_end s)) (Keeps-self v)
  tty_write-Keeps (c ∷ str) {s} v =
      let k = tty_putchar-Keeps c v in
      let rest = Keeps-then k (λ s'. tty_write driver str s') (tty_write-Keeps str k.valid) in
      elim (write_step c str s) [
        | inl e ↦ subst (λ r. Keeps s r) (sym e) (Keeps-self v)
        | inr e ↦ subst (λ r. Keeps s r) (sym e) rest
      ]

  clear-IsValid : {s : Tty V} → IsValid s → IsValid (tty_clear driver s)
  unfolding tty_clear
  clear-IsValid {s} v = record {
    free = v.free;
    column = omega (arith, v.column);
    row = omega (arith, v.row);
    columns = v.columns;
    rows = v.rows;
    whole = v.whole;
    line = v.line;
  }

  -- The commands `help`, `clear` and `echo` return with a valid terminal, whatever their argument.
  pub commands-Keep :
      (args : List ℕ) {s : Tty V}
      → IsValid s
      → Keeps s (cmd_help driver s)
        × Keeps s (cmd_clear driver s)
        × Keeps s (cmd_echo driver args s)
  unfolding cmd_help cmd_clear cmd_echo tty_clear
  commands-Keep args {s} v =
      let a = tty_write-Keeps available_commands v in
      let b = tty_write-Keeps help_help a.valid in
      let c = tty_write-Keeps help_clear b.valid in
      let d = tty_write-Keeps help_echo c.valid in
      let e = tty_write-Keeps args v in
      let more : Tty V → Run (Tty V) =
        λ s3. tty_write driver help_clear s3 >>= λ s4. tty_write driver help_echo s4 in
      (
        Keeps-then a (λ s2. tty_write driver help_help s2 >>= more)
            (Keeps-then b more (Keeps-then c (λ s4. tty_write driver help_echo s4) d)),
        record {
          tty = tty_clear driver s;
          returns = refl;
          valid = clear-IsValid v;
          same_width = refl;
          same_height = refl;
          same_buffer = refl;
          same_buf_pos = refl;
        },
        Keeps-then e (λ s2. tty_putchar driver newline s2) (tty_putchar-Keeps newline e.valid),
      )

-- `tty_init` with a driver whose size is not zero and fits 16 bits returns with a valid terminal of
-- that size, and without a driver it faults.
pub tty_init-IsValid :
    {V : Type 0} (d : VideoDriver V) (s : Tty V)
    → 0 < d.width
    → d.width < 2 ^ 16
    → 0 < d.height
    → d.height < 2 ^ 16
    → ((t : Tty V) × (tty_init (some d) s ≡ done t)
        × IsValid t
        × (t.width ≡ d.width)
        × (t.height ≡ d.height))
      × (tty_init none s ≡ fault)
unfolding tty_init tty_show_prompt fresh_tty spinlock_init
tty_init-IsValid d s wide width high height =
    let k = tty_write-Keeps (some d) (36 ∷ 32 ∷ []) {s = fresh_tty d s.screen} (record {
      free = refl;
      column = omega arith;
      row = omega arith;
      columns = omega arith;
      rows = omega arith;
      whole = length-replicate {A = ℕ} tty_buffer_size 0;
      line = omega arith;
    }) in
    ((k.tty, k.returns, k.valid, k.same_width ∙ omega arith, k.same_height ∙ omega arith), refl)
