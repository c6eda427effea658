-- ===== src/Tty/Shell/Dispatch.antt =====
-- `tty_execute_command` runs the command that the line names.
use holyos.Base.{
  ℕ, zero, suc, ◌+◌, ◌^◌, ◌<◌, ◌≤◌, ◌≡◌, ◌≢◌, refl, sym, fun_ext, ◌∙◌, ap, ap₂, Run, done, ◌>>=◌,
  Option, List, [], ◌∷◌, ◌++◌, true, false, ◌==◌, ==_ne, if◌then◌else◌, length, take, drop, arith,
  map, length-append,
}
use mathlib.Core.List.{List-discrete}
use native.Mathlib.Decide.{ℕ_discrete}
use holyos.Str.{strcmp, strncmp}
use holyos.Str.Compare.{IsText, stored, cons-injective, strcmp_lem, strncmp_lem}
use holyos.Print.{string, vsnprintf}
use holyos.Print.Pieces.{Piece, plain, string_of, piece_format, piece_args, piece_text, IsProper}
use holyos.Print.Format.{format_of, args_of, text_of, AreProper, vsnprintf_lem}
use holyos.Video.{VideoDriver}
use holyos.Tty.{Tty, newline, tty_putchar, tty_write, cmd_help, cmd_clear, cmd_echo}
use holyos.Tty.Shell.{
  help_name, clear_name, echo_name, unknown_format, tty_printf, tty_execute_command,
}

-- A text with a NUL behind that no text is equal to is told apart by `strcmp`.
same_text :
    (cs ds rest rest' : List ℕ)
    → IsText cs
    → IsText ds
    → (result : ℕ) × (strcmp (stored cs rest) (stored ds rest') ≡ done result)
      × (cs ≡ ds → (result == 0) ≡ true)
      × (cs ≢ ds → (result == 0) ≡ false)
same_text cs ds rest rest' t u =
    let (result, returned, same) = strcmp_lem cs ds rest rest' t u in
    (
      result,
      returned,
      (λ e. ap (λ n. n == 0) (same.1 e)),
      λ ne. ==_ne result 0 (λ e. ne (same.0 e)),
    )

same_start :
    (n : ℕ) (cs ds rest rest' : List ℕ)
    → IsText cs
    → IsText ds
    → (result : ℕ) × (strncmp (stored cs rest) (stored ds rest') n ≡ done result)
      × (take n cs ≡ take n ds → (result == 0) ≡ true)
      × (take n cs ≢ take n ds → (result == 0) ≡ false)
same_start n cs ds rest rest' t u =
    let (result, returned, same) = strncmp_lem n cs ds rest rest' t u in
    (
      result,
      returned,
      (λ e. ap (λ k. k == 0) (same.1 e)),
      λ ne. ==_ne result 0 (λ e. ne (same.0 e)),
    )

help-IsText : IsText help_name
help-IsText = ground arith

clear-IsText : IsText clear_name
clear-IsText = ground arith

echo-IsText : IsText echo_name
echo-IsText = ground arith

-- Whether a line is one of the names.
clear_is_not_help : clear_name ≢ help_name
clear_is_not_help e = absurd (omega (arith, ap length e))

echo_is_not : (args name : List ℕ) → take 5 name ≢ echo_name → echo_name ++ args ≢ name
echo_is_not args name other e = other (sym (ap (take 5) e))

help_is_not_echo : take 5 help_name ≢ echo_name
help_is_not_echo e = absurd (omega (arith, ap length e))

clear_is_not_echo : take 5 clear_name ≢ echo_name
clear_is_not_echo e = absurd (omega (arith, (cons-injective e).0))

-- A line that is no command: none of the names, and not the start of `echo`.
pub record IsUnknown (cs : List ℕ) : Type 0 where
  pub not_help : cs ≢ help_name
  pub not_clear : cs ≢ clear_name
  pub not_echo : take 5 cs ≢ echo_name

module _ {V : Type 0} (driver : Option (VideoDriver V)) (base : ℕ) (locals scratch : List ℕ) where
  module _ (cs rest : List ℕ) (t : IsText cs) (s : Tty V) where
    runs_help :
        cs ≡ help_name
        → tty_execute_command driver base locals scratch (stored cs rest) s ≡ cmd_help driver s
    unfolding tty_execute_command
    runs_help e =
        let (r, returned, same, other) = same_text cs help_name rest [] t help-IsText in
        rw (returned, same e) refl

    runs_clear :
        cs ≡ clear_name
        → tty_execute_command driver base locals scratch (stored cs rest) s ≡ cmd_clear driver s
    unfolding tty_execute_command
    runs_clear e =
        let (r, returned, same, other) = same_text cs help_name rest [] t help-IsText in
        let (r', returned', same', other') = same_text cs clear_name rest [] t clear-IsText in
        rw (returned, other (λ h. clear_is_not_help (sym e ∙ h)), returned', same' e) refl

    runs_echo :
        cs ≢ help_name
        → cs ≢ clear_name
        → take 5 cs ≡ echo_name
        → tty_execute_command driver base locals scratch (stored cs rest) s
          ≡ cmd_echo driver (drop 5 (stored cs rest)) s
    unfolding tty_execute_command
    runs_echo not_help not_clear e =
        let (r, returned, same, other) = same_text cs help_name rest [] t help-IsText in
        let (r', returned', same', other') = same_text cs clear_name rest [] t clear-IsText in
        let (r'', returned'', same'', other'') = same_start 5 cs echo_name rest [] t echo-IsText in
        rw (returned, other not_help, returned', other' not_clear, returned'', same'' e) refl

    runs_unknown :
        IsUnknown cs
        → tty_execute_command driver base locals scratch (stored cs rest) s
          ≡ tty_printf driver base locals scratch unknown_format (string (stored cs rest) ∷ []) s
    unfolding tty_execute_command
    runs_unknown u =
        let (r, returned, same, other) = same_text cs help_name rest [] t help-IsText in
        let (r', returned', same', other') = same_text cs clear_name rest [] t clear-IsText in
        let (r'', returned'', same'', other'') = same_start 5 cs echo_name rest [] t echo-IsText in
        rw
          (
            returned,
            other u.not_help,
            returned',
            other' u.not_clear,
            returned'',
            other'' u.not_echo,
          )
          refl

  -- What is printed of a string is its characters up to the NUL.
  pub tty_write-stored :
      (cs rest : List ℕ) (s : Tty V) → tty_write driver (stored cs rest) s ≡ tty_write driver cs s
  unfolding tty_write
  tty_write-stored [] rest s = refl
  tty_write-stored (c ∷ cs) rest s =
      ap (λ (f : Tty V → Run (Tty V)). if c == 0 then done s else (tty_putchar driver c s >>= f))
        (fun_ext (λ s'. tty_write-stored cs rest s'))

take-all : (n : ℕ) (xs : List ℕ) → length xs ≤ n → take n xs ≡ xs
take-all zero [] h = refl
take-all zero (x ∷ xs) h = absurd (omega arith)
take-all (suc n) [] h = refl
take-all (suc n) (x ∷ xs) h = ap (λ t. x ∷ t) (take-all n xs (omega arith))

take-drop : (n : ℕ) (xs : List ℕ) → take n xs ++ drop n xs ≡ xs
take-drop zero xs = refl
take-drop (suc n) [] = refl
take-drop (suc n) (x ∷ xs) = ap (λ t. x ∷ t) (take-drop n xs)

-- "unknown command: '", and the text that is printed for an unknown command.
abbrev unknown_start : List ℕ
unknown_start =
    b'u' ∷ b'n' ∷ b'k' ∷ b'n' ∷ b'o' ∷ b'w' ∷ b'n' ∷ b' ' ∷ b'c' ∷ b'o' ∷ b'm' ∷ b'm' ∷ b'a' ∷ b'n'
    ∷ b'd' ∷ b':' ∷ b' ' ∷ 39 ∷ []

abbrev pub unknown_text : List ℕ → List ℕ
unknown_text cs = unknown_start ++ (cs ++ 39 ∷ newline ∷ [])

abbrev unknown_pieces : List ℕ → List ℕ → List Piece
unknown_pieces cs rest =
    map plain unknown_start ++ string_of cs rest ∷ plain 39 ∷ plain newline ∷ []

unknown-format : (cs rest : List ℕ) → format_of (unknown_pieces cs rest) ++ 0 ∷ [] ≡ unknown_format
unfolding format_of piece_format
unknown-format cs rest = refl

unknown-args : (cs rest : List ℕ) → args_of (unknown_pieces cs rest) ≡ string (stored cs rest) ∷ []
unfolding args_of piece_args
unknown-args cs rest = refl

unknown-text : (cs rest : List ℕ) → text_of (unknown_pieces cs rest) ≡ unknown_text cs
unfolding text_of piece_text
unknown-text cs rest = refl

unknown-AreProper : (cs rest : List ℕ) → IsText cs → AreProper (unknown_pieces cs rest)
unfolding AreProper IsProper
unknown-AreProper cs rest t = ground arith

-- The commands, the lines that name them, and what each of them is to do.
pub data Command : Type 0 where
  help clear : Command
  echo : List ℕ → Command
  unknown : List ℕ → Command

pub Names : List ℕ → Command → Type 0
Names cs help = cs ≡ help_name
Names cs clear = cs ≡ clear_name
Names cs (echo args) = cs ≡ echo_name ++ args
Names cs (unknown line) = (cs ≡ line) × IsUnknown cs

unfoldable pub run_command : {V : Type 0} → Option (VideoDriver V) → Command → Tty V → Run (Tty V)
run_command driver help s = cmd_help driver s
run_command driver clear s = cmd_clear driver s
run_command driver (echo args) s = tty_write driver args s >>= λ s'. tty_putchar driver newline s'
run_command driver (unknown line) s = tty_write driver (unknown_text line) s

-- Every line names a command.
command_of : (cs : List ℕ) → (command : Command) × Names cs command
unfolding Names
command_of cs = elim (List-discrete ℕ_discrete cs help_name) [
  | yes e ↦ (help, e)
  | no not_help ↦ elim (List-discrete ℕ_discrete cs clear_name) [
    | yes e ↦ (clear, e)
    | no not_clear ↦ elim (List-discrete ℕ_discrete (take 5 cs) echo_name) [
      | yes e ↦ (echo (drop 5 cs), sym (take-drop 5 cs) ∙ ap (λ t. t ++ drop 5 cs) e)
      | no not_echo ↦ (
        unknown cs,
        (refl, record { not_help = not_help; not_clear = not_clear; not_echo = not_echo }),
      )
    ]
  ]
]

module _ {V : Type 0} (driver : Option (VideoDriver V)) (base : ℕ) (locals scratch : List ℕ)
    (address : base + 4096 ≤ 2 ^ 32) (room : 4096 ≤ length locals)
    (numbers : length scratch ≡ 32) where
  prints_unknown :
      (cs rest : List ℕ) (s : Tty V)
      → IsText cs
      → length cs < 4000
      → tty_printf driver base locals scratch unknown_format (string (stored cs rest) ∷ []) s
        ≡ tty_write driver (unknown_text cs) s
  unfolding tty_printf
  prints_unknown cs rest s t short =
      let ps = unknown_pieces cs rest in
      let (behind, printed, size) =
        vsnprintf_lem base 4095 scratch ps [] locals (omega arith) numbers
          (unknown-AreProper cs rest t) (omega arith) in
      let whole =
        take-all 4095 (unknown_text cs) (omega (arith, length-append cs (39 ∷ newline ∷ []))) in
      let asked =
        ap₂ (λ fmt args. vsnprintf base 4096 scratch fmt args locals) (unknown-format cs rest)
          (unknown-args cs rest) in
      rw (sym asked ∙ printed) (
        tty_write-stored driver base locals scratch (take 4095 (text_of ps)) behind s
        ∙ ap (λ text. tty_write driver text s) (ap (take 4095) (unknown-text cs rest) ∙ whole))

  echoes :
      (args rest : List ℕ) (s : Tty V)
      → cmd_echo driver (stored args rest) s
        ≡ (tty_write driver args s >>= λ s'. tty_putchar driver newline s')
  unfolding cmd_echo
  echoes args rest s = rw (tty_write-stored driver base locals scratch args rest s) refl

  runs :
      (cs rest : List ℕ) (s : Tty V) (command : Command)
      → IsText cs
      → length cs < 4000
      → Names cs command
      → tty_execute_command driver base locals scratch (stored cs rest) s
        ≡ run_command driver command s
  unfolding run_command Names
  runs cs rest s help t short named = runs_help driver base locals scratch cs rest t s named
  runs cs rest s clear t short named = runs_clear driver base locals scratch cs rest t s named
  runs cs rest s (echo args) t short named =
      runs_echo driver base locals scratch cs rest t s
        (λ e. echo_is_not args help_name help_is_not_echo (sym named ∙ e))
        (λ e. echo_is_not args clear_name clear_is_not_echo (sym named ∙ e)) (ap (take 5) named)
      ∙ ap (λ line. cmd_echo driver (drop 5 (stored line rest)) s) named
      ∙ echoes args rest s
  runs cs rest s (unknown line) t short named =
      runs_unknown driver base locals scratch cs rest t s named.1
      ∙ prints_unknown cs rest s t short
      ∙ ap (λ text. tty_write driver (unknown_text text) s) named.0

  -- `tty_execute_command` of a line that ends with NUL and has less than 4000 characters: the line names a
  -- command, and this is run. `help` and `clear` run their functions, `echo ` and a text prints the text and a
  -- new line, and any other line prints that the command is unknown, with the line.
  pub tty_execute_command_lem :
      (cs rest : List ℕ) (s : Tty V)
      → IsText cs
      → length cs < 4000
      → (command : Command) × Names cs command
        × (tty_execute_command driver base locals scratch (stored cs rest) s
            ≡ run_command driver command s)
  tty_execute_command_lem cs rest s t short =
      let (command, named) = command_of cs in (command, named, runs cs rest s command t short named)
