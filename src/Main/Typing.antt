-- ===== src/Main/Typing.antt =====
-- Every event that is in the ring reaches the line on the terminal.
use holyos.Base.{
  ℕ, suc, ◌<◌, ◌≡◌, ◌≢◌, refl, sym, ◌∙◌, ap, subst, List, [], ◌∷◌, true, false, Run, done, Option,
  if◌then◌else◌, length,
}
use holyos.Input.{Input, KeyEvent, input_has_events, input_pop_event}
use holyos.Input.Ring.{contents}
use holyos.Input.Ring
use holyos.Input.Refine.{has_events_lem, pop-take_first}
use holyos.Input.Queue.{take_first, is_empty}
use holyos.Tty.{Tty, newline}
use holyos.Tty.Cursor.{IsValid}
use holyos.Tty.Shell.{tty_handle_keypress}
use holyos.Tty.Shell.Editor.{HasLine, edit, tty_handle_keypress_lem}
use holyos.Video.{VideoDriver}
use holyos.Main.{Kernel, round, main_loop}

-- Events of keys within a line.
unfoldable pub AreKeys : List KeyEvent → Type 0
AreKeys [] = Unit {0}
AreKeys (e ∷ es) = (e.ascii ≢ newline) × (e.ascii < 256) × AreKeys es

-- The line after the events, the first of them first.
unfoldable pub edit_all : List KeyEvent → List ℕ → List ℕ
edit_all [] line = line
edit_all (e ∷ es) line = edit_all es (edit e.ascii line)

-- The kernel after the loop has typed a line: the ring is empty.
pub record Typed {V : Type 0} (line : List ℕ) (result : Run (Kernel V)) : Type 0 where
  pub kernel : Kernel V
  pub returns : result ≡ done kernel
  pub ring : holyos.Input.Ring.IsValid kernel.input
  pub emptied : contents kernel.input ≡ []
  pub valid : IsValid kernel.tty
  pub has_line : HasLine kernel.tty line

module _ {V : Type 0} (driver : Option (VideoDriver V)) (base : ℕ) (locals scratch : List ℕ) where
  handles :
      (s : Kernel V) (e : KeyEvent) (input : Input) (tty : Tty V)
      → input_has_events s.input ≡ true
      → input_pop_event s.input ≡ done (e, input)
      → tty_handle_keypress driver base locals scratch e.ascii s.tty ≡ done tty
      → round driver base locals scratch s ≡ done (record { input = input; tty = tty })
  unfolding round
  handles s e input tty has popped typed = rw (has, popped, typed) refl

  goes_on :
      (rounds : ℕ) (s s' : Kernel V)
      → round driver base locals scratch s ≡ done s'
      → main_loop driver base locals scratch (suc rounds) s
        ≡ main_loop driver base locals scratch rounds s'
  unfolding main_loop
  goes_on rounds s s' e = rw e refl

  ends : (s : Kernel V) → main_loop driver base locals scratch 0 s ≡ done s
  unfolding main_loop
  ends s = refl

  -- With a valid ring that holds events of keys within a line, and a valid terminal, the main loop returns from
  -- as many rounds as there are events with the ring empty, the terminal valid, and its line the one before with
  -- every event's key typed, the first first.
  pub main_loop-Typed :
      (es : List KeyEvent) (s : Kernel V) (line : List ℕ)
      → contents s.input ≡ es
      → holyos.Input.Ring.IsValid s.input
      → IsValid s.tty
      → HasLine s.tty line
      → AreKeys es
      → Typed (edit_all es line) (main_loop driver base locals scratch (length es) s)
  unfolding AreKeys edit_all
  main_loop-Typed [] s line held ring valid has_line keys = record {
    kernel = s;
    returns = ends s;
    ring = ring;
    emptied = held;
    valid = valid;
    has_line = has_line;
  }
  main_loop-Typed (e ∷ es) s line held ring valid has_line keys =
      let has = has_events_lem s.input ring ∙ ap (λ q. if is_empty q then false else true) held in
      let (input, popped, still, rest) = pop-take_first ring in
      let t =
        tty_handle_keypress_lem driver base locals scratch e.ascii valid line has_line keys.0
          keys.1 in
      let handled =
        handles s e input t.tty has (popped ∙ ap (λ q. done ((take_first q).0, input)) held)
          t.returns in
      let later =
        main_loop-Typed es (record { input = input; tty = t.tty }) (edit e.ascii line)
          (rest ∙ ap (λ q. (take_first q).1) held) still t.valid t.has_line keys.2 in
      subst (Typed (edit_all es (edit e.ascii line)))
        (sym (goes_on (length es) s (record { input = input; tty = t.tty }) handled)) later
