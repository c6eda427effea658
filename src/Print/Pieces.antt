-- ===== src/Print/Pieces.antt =====
-- A format by its pieces, each with the argument it takes and the text it stands for, and what the code does
-- for one of them.
use holyos.Base.{
  ℕ, suc, ◌+◌, ◌^◌, ◌<◌, ◌≤◌, ◌≡◌, ◌≢◌, inl, inr, refl, sym, ap, List, [], ◌∷◌, ◌++◌, Bool-cases,
  ==_ne, Run, done, ◌>>=◌, ◌==◌, if◌then◌else◌, arith, length, u8,
}
use holyos.Str.{put}
use holyos.Str.Compare.{IsText, stored}
use holyos.Str.Reverse.{append_assoc, put-append}
use holyos.Str.Decimal.{decimal, one_more}
use holyos.Str.Decimal.Write.{itoa_lem}
use holyos.Str.Hex.{hexadecimal}
use holyos.Str.Hex.Store.{itoh_lem}
use holyos.Print.{
  Arg, number, string, null, next_number, next_string, before_end, put_checked, directive,
}
use holyos.Print.Copies.{
  full, room, emitted, emitted-nil, emitted-full, emitted-next, copy_string_lem, copy_number_lem,
}

-- A plain character, the directives `%d`, `%x`, `%c`, `%s` and `%%`, and a `%` before another character.
pub data Piece : Type 0 where
  plain decimal_of hex_of char_of : ℕ → Piece
  string_of : List ℕ → List ℕ → Piece
  null_string percent : Piece
  unknown : ℕ → Piece

unfoldable pub piece_format : Piece → List ℕ
piece_format (plain c) = c ∷ []
piece_format (decimal_of n) = b'%' ∷ b'd' ∷ []
piece_format (hex_of n) = b'%' ∷ b'x' ∷ []
piece_format (char_of n) = b'%' ∷ b'c' ∷ []
piece_format (string_of cs rest) = b'%' ∷ b's' ∷ []
piece_format null_string = b'%' ∷ b's' ∷ []
piece_format percent = b'%' ∷ b'%' ∷ []
piece_format (unknown d) = b'%' ∷ d ∷ []

unfoldable pub piece_args : Piece → List Arg
piece_args (plain c) = []
piece_args (decimal_of n) = number n ∷ []
piece_args (hex_of n) = number n ∷ []
piece_args (char_of n) = number n ∷ []
piece_args (string_of cs rest) = string (stored cs rest) ∷ []
piece_args null_string = null ∷ []
piece_args percent = []
piece_args (unknown d) = []

unfoldable pub piece_text : Piece → List ℕ
piece_text (plain c) = c ∷ []
piece_text (decimal_of n) = decimal n
piece_text (hex_of n) = hexadecimal n
piece_text (char_of n) = u8 n ∷ []
piece_text (string_of cs rest) = cs
piece_text null_string = b'(' ∷ b'n' ∷ b'u' ∷ b'l' ∷ b'l' ∷ b')' ∷ []
piece_text percent = b'%' ∷ []
piece_text (unknown d) = b'%' ∷ d ∷ []

-- The characters that are not a directive's, and the arguments that the code prints right.
unfoldable pub IsProper : Piece → Type 0
IsProper (plain c) = (0 < c) × (c ≢ b'%')
IsProper (decimal_of n) = (n < 2 ^ 32) × (n ≢ 2 ^ 31)
IsProper (hex_of n) = n < 2 ^ 32
IsProper (char_of n) = Unit {0}
IsProper (string_of cs rest) = IsText cs
IsProper null_string = Unit {0}
IsProper percent = Unit {0}
IsProper (unknown d) = (0 < d) × (d ≢ b'd') × (d ≢ b'x') × (d ≢ b'c') × (d ≢ b's') × (d ≢ b'%')

pub emitted-one :
    (cap : ℕ) (out b : List ℕ) (c x : ℕ)
    → length out < cap
    → emitted cap out (x ∷ b) (c ∷ []) ≡ (length out + 1, out ++ c ∷ b)
emitted-one cap out b c x h =
    rw
      (
        emitted-next cap out b [] c x h,
        emitted-nil cap (out ++ c ∷ []) b,
        append_assoc out (c ∷ []) b,
        sym (one_more out c),
      )
      refl

-- The result of a directive that leaves the arguments `args`.
abbrev pub leaves : List Arg → ℕ × List ℕ → Run (List Arg × ℕ × List ℕ)
leaves args (str, buf) = done (args, str, buf)

module _ (base cap : ℕ) (scratch : List ℕ) (address : base + cap < 2 ^ 32)
    (locals : length scratch ≡ 32) where
  put_checked_lem :
      (c : ℕ) (out b : List ℕ)
      → length out ≤ cap
      → cap < length out + length b
      → put_checked base (suc cap) c (length out) (out ++ b) ≡ done (emitted cap out b (c ∷ []))
  unfolding put_checked
  put_checked_lem c out [] fits buffer = absurd (omega arith)
  put_checked_lem c out (x ∷ b) fits buffer = elim (Bool-cases (length out == cap)) [
    | inl e ↦
        rw
          (
            full base cap address (length out) (ground arith),
            emitted-full cap out (x ∷ b) (c ∷ []) (ground arith),
          )
          refl
    | inr e ↦
        rw
          (
            room base cap address (length out) (ground arith),
            put-append out b x c (length out) refl,
            emitted-one cap out b c x (ground arith),
          )
          refl
  ]

  pub directed_decimal :
      (n : ℕ) (args : List Arg) (out b : List ℕ)
      → n < 2 ^ 32
      → n ≢ 2 ^ 31
      → length out ≤ cap
      → cap < length out + length b
      → directive base (suc cap) scratch b'd' (number n ∷ args) (length out) (out ++ b)
        ≡ leaves args (emitted cap out b (decimal n))
  unfolding directive next_number
  directed_decimal n args out b word not_least fits buffer =
      let (rest, stores, size) = itoa_lem n scratch word not_least (omega arith) in
      rw (stores, copy_number_lem base cap address (decimal n) (0 ∷ rest) out b fits buffer) refl

  pub directed_hex :
      (n : ℕ) (args : List Arg) (out b : List ℕ)
      → n < 2 ^ 32
      → length out ≤ cap
      → cap < length out + length b
      → directive base (suc cap) scratch b'x' (number n ∷ args) (length out) (out ++ b)
        ≡ leaves args (emitted cap out b (hexadecimal n))
  unfolding directive next_number
  directed_hex n args out b word fits buffer =
      let (rest, stores, size) = itoh_lem n scratch word (omega arith) in
      rw (stores, copy_number_lem base cap address (hexadecimal n) (0 ∷ rest) out b fits buffer)
        refl

  pub directed_string :
      (cs rest : List ℕ) (args : List Arg) (out b : List ℕ)
      → IsText cs
      → length out ≤ cap
      → cap < length out + length b
      → directive base
          (suc cap)
          scratch
          b's'
          (string (stored cs rest) ∷ args)
          (length out)
          (out ++ b)
        ≡ leaves args (emitted cap out b cs)
  unfolding directive next_string
  directed_string cs rest args out b text fits buffer =
      rw (copy_string_lem base cap address cs rest out b text fits buffer) refl

  null-IsText : IsText (piece_text null_string)
  unfolding piece_text
  null-IsText = ground arith

  pub directed_null :
      (args : List Arg) (out b : List ℕ)
      → length out ≤ cap
      → cap < length out + length b
      → directive base (suc cap) scratch b's' (null ∷ args) (length out) (out ++ b)
        ≡ leaves args (emitted cap out b (piece_text null_string))
  unfolding directive next_string piece_text
  directed_null args out b fits buffer =
      let text : List ℕ = b'(' ∷ b'n' ∷ b'u' ∷ b'l' ∷ b'l' ∷ b')' ∷ [] in
      rw (copy_string_lem base cap address text [] out b null-IsText fits buffer) refl

  pub directed_char :
      (n : ℕ) (args : List Arg) (out b : List ℕ)
      → length out < cap
      → cap < length out + length b
      → directive base (suc cap) scratch b'c' (number n ∷ args) (length out) (out ++ b)
        ≡ leaves args (emitted cap out b (u8 n ∷ []))
  unfolding directive next_number
  directed_char n args out [] fits buffer = absurd (omega arith)
  directed_char n args out (x ∷ b) fits buffer =
      rw (put-append out b x (u8 n) (length out) refl)
        (ap (leaves args) (sym (emitted-one cap out b (u8 n) x fits)))

  pub directed_percent :
      (args : List Arg) (out b : List ℕ)
      → length out ≤ cap
      → cap < length out + length b
      → directive base (suc cap) scratch b'%' args (length out) (out ++ b)
        ≡ leaves args (emitted cap out b (b'%' ∷ []))
  unfolding directive
  directed_percent args out b fits buffer = rw (put_checked_lem b'%' out b fits buffer) refl

  -- No directive's character.
  not_directive :
      (d : ℕ) (args : List Arg) (str : ℕ) (buf : List ℕ)
      → IsProper (unknown d)
      → directive base (suc cap) scratch d args str buf ≡ (
          if before_end base (suc cap) str
          then (do
            buf ← put buf str b'%'
            (str, buf) ← put_checked base (suc cap) d (str + 1) buf
            done (args, str, buf))
          else done (args, str, buf))
  unfolding directive IsProper
  not_directive d args str buf proper =
      rw
        (
          ==_ne d b'd' proper.1,
          ==_ne d b'x' proper.2,
          ==_ne d b'c' proper.3,
          ==_ne d b's' proper.4,
          ==_ne d b'%' proper.5,
        )
        refl

  pub directed_unknown :
      (d : ℕ) (args : List Arg) (out b : List ℕ)
      → IsProper (unknown d)
      → length out < cap
      → cap < length out + length b
      → directive base (suc cap) scratch d args (length out) (out ++ b)
        ≡ leaves args (emitted cap out b (b'%' ∷ d ∷ []))
  directed_unknown d args out [] proper fits buffer = absurd (omega arith)
  directed_unknown d args out (x ∷ b) proper fits buffer =
      rw
        (
          not_directive d args (length out) (out ++ x ∷ b) proper,
          room base cap address (length out) fits,
          put-append out b x b'%' (length out) refl,
          one_more out b'%',
          sym (append_assoc out (b'%' ∷ []) b),
          put_checked_lem d (out ++ b'%' ∷ []) b (omega (arith, one_more out b'%'))
              (omega (arith, one_more out b'%')),
        )
        (ap (leaves args) (sym (emitted-next cap out b (d ∷ []) b'%' x fits)))
