-- ===== src/Main.antt =====
-- kernel/main.c: the main loop of `kmain`, which takes the events out of the ring and hands them to the terminal.
pub mod Typing
use holyos.Base.{ℕ, zero, suc, List, Run, done, ◌>>=◌, Option, if◌then◌else◌}
use holyos.Input.{Input, KeyEvent, input_has_events, input_pop_event}
use holyos.Tty.{Tty}
use holyos.Tty.Shell.{tty_handle_keypress}
use holyos.Video.{VideoDriver}

-- What the loop works on.
pub record Kernel (V : Type 0) : Type 0 where
  pub input : Input
  pub tty : Tty V

module _ {V : Type 0} (driver : Option (VideoDriver V)) (base : ℕ) (locals scratch : List ℕ) where
  -- The body of the loop.
  unfoldable pub round : Kernel V → Run (Kernel V)
  round s =
      let handled = (do
        (e, input) ← input_pop_event s.input
        tty ← tty_handle_keypress driver base locals scratch e.ascii s.tty
        done (record { input = input; tty = tty })) in
      if input_has_events s.input then handled else done s

  -- So many rounds of it.
  unfoldable pub main_loop : ℕ → Kernel V → Run (Kernel V)
  unfolding round
  main_loop zero s = done s
  main_loop (suc rounds) s = round s >>= λ s'. main_loop rounds s'
