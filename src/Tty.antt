-- ===== src/Tty.antt =====
-- kernel/tty/tty.c: the cursor and the output of the terminal. `V` is the state of the video hardware
-- and `driver` what `video_get_current_driver` returns.
pub mod Cursor
pub mod Shell
use holyos.Base.{
  ℕ, zero, suc, ◌+◌, ◌-◌, ◌^◌, ◌%◌, Run, done, spins, fault, ◌>>=◌, ◌>>◌, Option, none, some, List,
  [], ◌∷◌, ◌==◌, ltb, leb, if◌then◌else◌, u16, bit_and, replicate,
}
use holyos.Cpu.Spinlock.{spinlock_init, spinlock_lock, spinlock_unlock}
use holyos.Video.{Color, VideoDriver, video_write, video_clear, video_scroll}

abbrev pub tty_buffer_size : ℕ
tty_buffer_size = 128

-- `tty_t`, and the screen that the output goes to.
pub record Tty (V : Type 0) : Type 0 where
  pub lock : ℕ
  pub buffer : List ℕ
  pub buf_pos : ℕ
  pub width : ℕ
  pub height : ℕ
  pub fg : Color
  pub bg : Color
  pub xpos : ℕ
  pub ypos : ℕ
  pub screen : V

abbrev pub newline : ℕ
newline = 10

abbrev pub backspace : ℕ
backspace = 8

abbrev pub tab : ℕ
tab = 9

abbrev pub carriage_return : ℕ
carriage_return = 13

-- "available commands:\n"
abbrev pub available_commands : List ℕ
available_commands =
    97 ∷ 118 ∷ 97 ∷ 105 ∷ 108 ∷ 97 ∷ 98 ∷ 108 ∷ 101 ∷ 32 ∷ 99 ∷ 111 ∷ 109 ∷ 109 ∷ 97 ∷ 110 ∷ 100
    ∷ 115 ∷ 58 ∷ 10 ∷ []

-- "\thelp \t- Show this help\n"
abbrev pub help_help : List ℕ
help_help =
    9 ∷ 104 ∷ 101 ∷ 108 ∷ 112 ∷ 32 ∷ 9 ∷ 45 ∷ 32 ∷ 83 ∷ 104 ∷ 111 ∷ 119 ∷ 32 ∷ 116 ∷ 104 ∷ 105 ∷ 115
    ∷ 32 ∷ 104 ∷ 101 ∷ 108 ∷ 112 ∷ 10 ∷ []

-- "\tclear \t- Clear the screen\n"
abbrev pub help_clear : List ℕ
help_clear =
    9 ∷ 99 ∷ 108 ∷ 101 ∷ 97 ∷ 114 ∷ 32 ∷ 9 ∷ 45 ∷ 32 ∷ 67 ∷ 108 ∷ 101 ∷ 97 ∷ 114 ∷ 32 ∷ 116 ∷ 104
    ∷ 101 ∷ 32 ∷ 115 ∷ 99 ∷ 114 ∷ 101 ∷ 101 ∷ 110 ∷ 10 ∷ []

-- "\techo \t- Print arguments\n"
abbrev pub help_echo : List ℕ
help_echo =
    9 ∷ 101 ∷ 99 ∷ 104 ∷ 111 ∷ 32 ∷ 9 ∷ 45 ∷ 32 ∷ 80 ∷ 114 ∷ 105 ∷ 110 ∷ 116 ∷ 32 ∷ 97 ∷ 114 ∷ 103
    ∷ 117 ∷ 109 ∷ 101 ∷ 110 ∷ 116 ∷ 115 ∷ 10 ∷ []

-- The terminal that `tty_init` sets up, behind its `video_clear`.
unfoldable pub fresh_tty : {V : Type 0} → VideoDriver V → V → Tty V
unfolding spinlock_init video_clear
fresh_tty d screen = record {
  lock = spinlock_init 0;
  buffer = replicate tty_buffer_size 0;
  buf_pos = 0;
  width = u16 d.width;
  height = u16 d.height;
  fg = record { r = 255; g = 255; b = 255 };
  bg = record { r = 0; g = 0; b = 0 };
  xpos = 0;
  ypos = 0;
  screen = video_clear (some d) (record { r = 0; g = 0; b = 0 }) screen;
}

module _ {V : Type 0} (driver : Option (VideoDriver V)) where
  -- `video_write(c, current_tty.xpos, current_tty.ypos, current_tty.fg, current_tty.bg)`
  unfoldable pub show : ℕ → Tty V → Tty V
  unfolding video_write
  show c s = record s { screen = video_write driver c s.xpos s.ypos s.fg s.bg s.screen }

  -- What `tty_putchar` does for the character itself.
  unfoldable pub put_char : ℕ → Tty V → Tty V
  unfolding show
  put_char c s =
      let back =
        if ltb 0 s.xpos
        then record s { xpos = s.xpos - 1 }
        else record s { xpos = u16 (s.width + 2 ^ 16 - 1); ypos = u16 (s.ypos + 2 ^ 16 - 1) } in
      let shown = show c s in
      if c == newline
      then record s { xpos = 0; ypos = u16 (s.ypos + 1) }
      else if c == backspace
      then if ltb 0 s.xpos then show 32 back else s
      else if c == tab
      then record s { xpos = u16 (bit_and (s.xpos + 4) (2 ^ 32 - 4)) }
      else if c == carriage_return
      then record s { xpos = 0 }
      else record shown { xpos = u16 (s.xpos + 1) }

  -- What it does behind that: the wrap at the right edge and the scroll at the bottom.
  unfoldable pub wrap_line : Tty V → Tty V
  wrap_line s = if leb s.width s.xpos then record s { xpos = 0; ypos = u16 (s.ypos + 1) } else s

  unfoldable pub wrap_screen : Tty V → Tty V
  unfolding video_scroll
  wrap_screen s =
      if leb s.height s.ypos
      then record s { screen = video_scroll driver s.screen; ypos = u16 (s.height + 2 ^ 16 - 1) }
      else s

  unfoldable pub tty_putchar : ℕ → Tty V → Run (Tty V)
  unfolding spinlock_lock spinlock_unlock put_char wrap_line wrap_screen
  tty_putchar c s = do
    held ← spinlock_lock s.lock
    let s = record s { lock = held }
    let t = wrap_screen (wrap_line (put_char c s))
    if c == 0
        then done (record s { lock = spinlock_unlock s.lock })
        else done (record t { lock = spinlock_unlock t.lock })

  -- A string is the bytes up to its NUL.
  unfoldable pub tty_write : List ℕ → Tty V → Run (Tty V)
  unfolding tty_putchar
  tty_write [] s = done s
  tty_write (c ∷ str) s = if c == 0 then done s else (tty_putchar c s >>= λ s'. tty_write str s')

  unfoldable pub tty_clear : Tty V → Tty V
  unfolding video_clear
  tty_clear s = record s { screen = video_clear driver s.bg s.screen; xpos = 0; ypos = 0 }

  unfoldable pub tty_reset_line : Tty V → Tty V
  tty_reset_line s = record s { buf_pos = 0; buffer = replicate tty_buffer_size 0 }

  unfoldable pub tty_show_prompt : Tty V → Run (Tty V)
  unfolding tty_write
  tty_show_prompt s = tty_write (36 ∷ 32 ∷ []) s

  unfoldable pub tty_init : Tty V → Run (Tty V)
  unfolding fresh_tty tty_show_prompt
  tty_init s = elim driver [ none ↦ fault | some d ↦ tty_show_prompt (fresh_tty d s.screen) ]

  unfoldable pub cmd_help : Tty V → Run (Tty V)
  unfolding tty_write
  cmd_help s = do
    s ← tty_write available_commands s
    s ← tty_write help_help s
    s ← tty_write help_clear s
    tty_write help_echo s

  unfoldable pub cmd_clear : Tty V → Run (Tty V)
  unfolding tty_clear
  cmd_clear s = done (tty_clear s)

  unfoldable pub cmd_echo : List ℕ → Tty V → Run (Tty V)
  unfolding tty_write tty_putchar
  cmd_echo args s = do s ← tty_write args s; tty_putchar newline s
