-- ===== src/Tty/Shell/Editor.antt =====
-- The line editor: the characters that were typed since the prompt, and what a key does to them.
use holyos.Base.{
  ℕ, ◌+◌, ◌-◌, ◌<◌, ◌≤◌, ◌≡◌, ◌≢◌, refl, sym, ◌∙◌, ap, ap₂, subst, Run, done, Option, List, [], ◌∷◌,
  ◌++◌, Bool-cases, inl, inr, true, false, ◌==◌, ==_ne, if◌then◌else◌, ltb, length, arith,
  length-append,
}
use native.Mathlib.Decide.{ℕ_discrete}
use holyos.Str.{put}
use holyos.Str.Compare.{IsText}
use holyos.Str.Decimal.Write.{drop-split, IsText-append}
use holyos.Str.Reverse.{append_assoc, last_of, put-append}
use holyos.Video.{VideoDriver}
use holyos.Tty.{Tty, tty_buffer_size, newline, backspace, tty_putchar}
use holyos.Tty.Cursor.{IsValid, tty_putchar-Keeps}
use holyos.Tty.Shell.{tty_handle_keypress}

-- The line in the buffer: its characters, and what lies behind them.
pub record HasLine {V : Type 0} (s : Tty V) (line : List ℕ) : Type 0 where
  pub rest : List ℕ
  pub stands : s.buffer ≡ line ++ rest
  pub position : s.buf_pos ≡ length line
  pub text : IsText line

-- A key that leaves a valid terminal with another line.
pub record Types {V : Type 0} (line : List ℕ) (result : Run (Tty V)) : Type 0 where
  pub tty : Tty V
  pub returns : result ≡ done tty
  pub valid : IsValid tty
  pub has_line : HasLine tty line

IsText-front : (cs ds : List ℕ) → IsText (cs ++ ds) → IsText cs
IsText-front [] ds t = tt
IsText-front (c ∷ cs) ds t = (t.0, t.1, IsText-front cs ds t.2)

no_room : (n : ℕ) → tty_buffer_size ≤ n → ltb n tty_buffer_size ≡ false
no_room n h = ground arith

some_room : (n : ℕ) → n < tty_buffer_size → ltb n tty_buffer_size ≡ true
some_room n h = ground arith

-- The line without its last character.
abbrev pub drop_last : List ℕ → List ℕ
drop_last [] = []
drop_last (c ∷ []) = []
drop_last (c ∷ d ∷ cs) = c ∷ drop_last (d ∷ cs)

-- What a key other than the end of the line does to the line.
unfoldable pub edit : ℕ → List ℕ → List ℕ
edit c line =
    if c == 0
    then line
    else if c == backspace
    then drop_last line
    else if ltb (length line) tty_buffer_size
    then line ++ c ∷ []
    else line

drop_last-append : (cs : List ℕ) (d : ℕ) → drop_last (cs ++ d ∷ []) ≡ cs
drop_last-append [] d = refl
drop_last-append (c ∷ []) d = refl
drop_last-append (c ∷ e ∷ cs) d = ap (λ t. c ∷ t) (drop_last-append (e ∷ cs) d)

edit-char :
    (c : ℕ) (line : List ℕ)
    → c ≢ 0
    → c ≢ backspace
    → edit c line ≡ (if ltb (length line) tty_buffer_size then line ++ c ∷ [] else line)
unfolding edit
edit-char c line char forward = rw (==_ne c 0 char, ==_ne c backspace forward) refl

edit-nul : (line : List ℕ) → edit 0 line ≡ line
unfolding edit
edit-nul line = refl

edit-back : (line : List ℕ) → edit backspace line ≡ drop_last line
unfolding edit
edit-back line = refl

module _ {V : Type 0} (driver : Option (VideoDriver V)) (base : ℕ) (locals scratch : List ℕ) where
  -- A valid terminal with another line in its buffer, behind a character that is printed.
  module _ (c : ℕ) {s : Tty V} (v : IsValid s) (line rest : List ℕ) (t : IsText line)
      (fits : length (line ++ rest) ≡ tty_buffer_size) where
    with_line : Tty V
    with_line = record s { buffer = line ++ rest; buf_pos = length line }

    with_line-IsValid : IsValid with_line
    unfolding with_line
    with_line-IsValid = record {
      free = v.free;
      column = v.column;
      row = v.row;
      columns = v.columns;
      rows = v.rows;
      whole = fits;
      line = omega (arith, length-append line rest);
    }

    shows : Types line (tty_putchar driver c with_line)
    unfolding with_line
    shows =
        let k = tty_putchar-Keeps driver c with_line-IsValid in
        record {
          tty = k.tty;
          returns = k.returns;
          valid = k.valid;
          has_line = record {
            rest = rest;
            stands = k.same_buffer;
            position = k.same_buf_pos;
            text = t;
          };
        }

  same : {s : Tty V} → IsValid s → {line : List ℕ} → HasLine s line → Types line (done s)
  same {s} v h = record { tty = s; returns = refl; valid = v; has_line = h }

  key_nul : (s : Tty V) → tty_handle_keypress driver base locals scratch 0 s ≡ done s
  unfolding tty_handle_keypress
  key_nul s = refl

  key_rubbed :
      (s : Tty V)
      → 0 < s.buf_pos
      → tty_handle_keypress driver base locals scratch backspace s
        ≡ tty_putchar driver backspace (record s { buf_pos = s.buf_pos - 1 })
  unfolding tty_handle_keypress
  key_rubbed s h = ground arith

  key_rubbed_empty :
      (s : Tty V)
      → s.buf_pos ≡ 0
      → tty_handle_keypress driver base locals scratch backspace s ≡ done s
  unfolding tty_handle_keypress
  key_rubbed_empty s h = ground arith

  module _ (c : ℕ) (s : Tty V) (char : c ≢ 0) (more : c ≢ newline) (forward : c ≢ backspace) where
    key_full :
        tty_buffer_size ≤ s.buf_pos → tty_handle_keypress driver base locals scratch c s ≡ done s
    unfolding tty_handle_keypress
    key_full h =
        rw (==_ne c 0 char, ==_ne c newline more, ==_ne c backspace forward, no_room s.buf_pos h)
          refl

    key_typed :
        (buffer : List ℕ)
        → s.buf_pos < tty_buffer_size
        → put s.buffer s.buf_pos c ≡ done buffer
        → tty_handle_keypress driver base locals scratch c s
          ≡ tty_putchar driver c (record s { buffer = buffer; buf_pos = s.buf_pos + 1 })
    unfolding tty_handle_keypress
    key_typed buffer h e =
        rw
          (
            ==_ne c 0 char,
            ==_ne c newline more,
            ==_ne c backspace forward,
            some_room s.buf_pos h,
            e,
          )
          refl

  -- A character behind the line.
  types_char :
      (c : ℕ) {s : Tty V} (v : IsValid s) {line : List ℕ} (h : HasLine s line)
      → c ≢ 0
      → c ≢ newline
      → c ≢ backspace
      → c < 256
      → length line < tty_buffer_size
      → Types (line ++ c ∷ []) (tty_handle_keypress driver base locals scratch c s)
  unfolding with_line
  types_char c {s} v {line} h char more forward byte room =
      let (x, r, e, n) =
        drop-split 0 h.rest
          (omega (arith, v.whole, ap length h.stands, length-append line h.rest)) in
      let buffer : List ℕ = (line ++ c ∷ []) ++ r in
      let written : put s.buffer s.buf_pos c ≡ done buffer =
        ap (λ b. put b s.buf_pos c) (h.stands ∙ ap (λ t. line ++ t) e)
        ∙ put-append line r x c s.buf_pos h.position
        ∙ ap done (sym (append_assoc line (c ∷ []) r)) in
      let key = key_typed c s char more forward buffer (omega (arith, h.position)) written in
      let place : s.buf_pos + 1 ≡ length (line ++ c ∷ []) =
        omega (arith, h.position, length-append line (c ∷ [])) in
      let shown =
        shows c v (line ++ c ∷ []) r (IsText-append line (c ∷ []) h.text (omega arith, byte, tt)) (
          omega (
            arith,
            v.whole,
            ap length h.stands,
            length-append line h.rest,
            ap length e,
            length-append (line ++ c ∷ []) r,
            length-append line (c ∷ []),
          )) in
      subst (Types (line ++ c ∷ []))
        (sym
          (key ∙ ap (λ p. tty_putchar driver c (record s { buffer = buffer; buf_pos = p })) place))
        shown

  -- The backspace key on a line of some characters.
  types_back :
      {s : Tty V} (v : IsValid s) (line : List ℕ) (d : ℕ)
      → HasLine s (line ++ d ∷ [])
      → Types line (tty_handle_keypress driver base locals scratch backspace s)
  unfolding with_line
  types_back {s} v line d h =
      let stands : s.buffer ≡ line ++ d ∷ h.rest = h.stands ∙ append_assoc line (d ∷ []) h.rest in
      let place : s.buf_pos - 1 ≡ length line =
        omega (arith, h.position, length-append line (d ∷ [])) in
      let shown =
        shows backspace v line (d ∷ h.rest) (IsText-front line (d ∷ []) h.text)
          (sym (ap length stands) ∙ v.whole) in
      subst (Types line)
        (sym (
          key_rubbed s (omega (arith, h.position, length-append line (d ∷ [])))
          ∙ ap₂ (λ b p. tty_putchar driver backspace (record s { buffer = b; buf_pos = p })) stands
              place))
        shown

  types_back_any :
      {s : Tty V} (v : IsValid s) (line : List ℕ)
      → HasLine s line
      → Types (drop_last line) (tty_handle_keypress driver base locals scratch backspace s)
  types_back_any {s} v [] h = subst (Types []) (sym (key_rubbed_empty s h.position)) (same v h)
  types_back_any {s} v (x ∷ xs) h =
      let (line, d, e) = last_of x xs in
      let shorter = types_back v line d (subst (HasLine s) e h) in
      subst (λ l. Types l (tty_handle_keypress driver base locals scratch backspace s))
        (sym (ap drop_last e ∙ drop_last-append line d)) shorter

  -- Every key but the end of the line, on a valid terminal: `tty_handle_keypress` returns with the terminal
  -- valid, and its line is the one before with the key's character behind it, or without its last character
  -- for a backspace. The NUL changes nothing, and no character does on a line of 128.
  pub tty_handle_keypress_lem :
      (c : ℕ) {s : Tty V} (v : IsValid s) (line : List ℕ)
      → HasLine s line
      → c ≢ newline
      → c < 256
      → Types (edit c line) (tty_handle_keypress driver base locals scratch c s)
  tty_handle_keypress_lem c {s} v line h more byte =
      let Result =
        λ (l : List ℕ) (k : ℕ). Types l (tty_handle_keypress driver base locals scratch k s) in
      elim (ℕ_discrete c 0) [
        | yes nul ↦
            subst (λ k. Result (edit k line) k) (sym nul)
              (subst (λ l. Result l 0) (sym (edit-nul line))
                (subst (Types line) (sym (key_nul s)) (same v h)))
        | no char ↦ elim (ℕ_discrete c backspace) [
          | yes back ↦
              subst (λ k. Result (edit k line) k) (sym back)
                (subst (λ l. Result l backspace) (sym (edit-back line)) (types_back_any v line h))
          | no forward ↦ elim (Bool-cases (ltb (length line) tty_buffer_size)) [
            | inl room ↦
                subst (λ l. Result l c) (sym (edit-char c line char forward ∙ rw room refl))
                  (types_char c v h char more forward byte (ground arith))
            | inr none ↦
                subst (λ l. Result l c) (sym (edit-char c line char forward ∙ rw none refl))
                  (subst (Types line)
                    (sym (key_full c s char more forward (ground (arith, h.position)))) (same v h))
          ]
        ]
      ]
