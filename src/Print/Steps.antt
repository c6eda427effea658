-- ===== src/Print/Steps.antt =====
-- One round of the loop on the format of `vsnprintf`.
use holyos.Base.{
  ℕ, suc, ◌+◌, ◌^◌, ◌<◌, ◌≡◌, ◌≢◌, refl, sym, ap, List, [], ◌∷◌, ◌++◌, true, Run, done, ==_ne, ◌!=◌,
  arith, length,
}
use holyos.Str.Compare.{stored}
use holyos.Str.Reverse.{put-append}
use holyos.Print.{Arg, number, string, null, directive, format_loop}
use holyos.Print.Copies.{full, room, emitted}
use holyos.Print.Pieces.{
  Piece, plain, decimal_of, hex_of, char_of, string_of, null_string, percent, unknown, piece_format,
  piece_args, piece_text, IsProper, emitted-one, leaves, directed_decimal, directed_hex,
  directed_string, directed_null, directed_char, directed_percent, directed_unknown,
}

module _ (base cap : ℕ) (scratch : List ℕ) (address : base + cap < 2 ^ 32)
    (locals : length scratch ≡ 32) where
  -- The loop goes on behind a state.
  abbrev pub loop_from : List ℕ → List Arg → ℕ × List ℕ → Run (ℕ × List ℕ)
  loop_from fmt args (str, buf) = format_loop base (suc cap) scratch fmt args str buf

  loop_directive :
      (d : ℕ) (fmt : List ℕ) (args args' : List Arg) (str : ℕ) (buf : List ℕ) (after : ℕ × List ℕ)
      → str < cap
      → directive base (suc cap) scratch d args str buf ≡ leaves args' after
      → format_loop base (suc cap) scratch (b'%' ∷ d ∷ fmt) args str buf ≡ loop_from fmt args' after
  unfolding format_loop
  loop_directive d fmt args args' str buf after h e = rw (room base cap address str h, e) refl

  not_nul : (c : ℕ) → 0 < c → (c != 0) ≡ true
  not_nul c h = ground arith

  loop_plain :
      (c d : ℕ) (fmt : List ℕ) (args : List Arg) (out b : List ℕ)
      → 0 < c
      → c ≢ b'%'
      → length out < cap
      → cap < length out + length b
      → format_loop base (suc cap) scratch (c ∷ d ∷ fmt) args (length out) (out ++ b)
        ≡ loop_from (d ∷ fmt) args (emitted cap out b (c ∷ []))
  unfolding format_loop
  loop_plain c d fmt args out [] some_char other h buffer = absurd (omega arith)
  loop_plain c d fmt args out (x ∷ b) some_char other h buffer =
      rw
        (
          room base cap address (length out) h,
          put-append out b x c (length out) refl,
          ==_ne c b'%' other,
          not_nul c some_char,
        )
        (ap (loop_from (d ∷ fmt) args) (sym (emitted-one cap out b c x h)))

  pub loop_piece :
      (p : Piece) (d : ℕ) (fmt : List ℕ) (args : List Arg) (out b : List ℕ)
      → IsProper p
      → length out < cap
      → cap < length out + length b
      → format_loop base
          (suc cap)
          scratch
          (piece_format p ++ d ∷ fmt)
          (piece_args p ++ args)
          (length out)
          (out ++ b)
        ≡ loop_from (d ∷ fmt) args (emitted cap out b (piece_text p))
  unfolding piece_format piece_args piece_text IsProper
  loop_piece (plain c) d fmt args out b proper h buffer =
      loop_plain c d fmt args out b proper.0 proper.1 h buffer
  loop_piece (decimal_of n) d fmt args out b proper h buffer =
      loop_directive b'd' (d ∷ fmt) (number n ∷ args) args (length out) (out ++ b)
        (emitted cap out b (piece_text (decimal_of n))) h
        (directed_decimal base cap scratch address locals n args out b proper.0 proper.1
          (omega arith) buffer)
  loop_piece (hex_of n) d fmt args out b proper h buffer =
      loop_directive b'x' (d ∷ fmt) (number n ∷ args) args (length out) (out ++ b)
        (emitted cap out b (piece_text (hex_of n))) h
        (directed_hex base cap scratch address locals n args out b proper (omega arith) buffer)
  loop_piece (char_of n) d fmt args out b proper h buffer =
      loop_directive b'c' (d ∷ fmt) (number n ∷ args) args (length out) (out ++ b)
        (emitted cap out b (piece_text (char_of n))) h
        (directed_char base cap scratch address locals n args out b h buffer)
  loop_piece (string_of cs rest) d fmt args out b proper h buffer =
      loop_directive b's' (d ∷ fmt) (string (stored cs rest) ∷ args) args (length out) (out ++ b)
        (emitted cap out b (piece_text (string_of cs rest))) h
        (directed_string base cap scratch address locals cs rest args out b proper (omega arith)
          buffer)
  loop_piece null_string d fmt args out b proper h buffer =
      loop_directive b's' (d ∷ fmt) (null ∷ args) args (length out) (out ++ b)
        (emitted cap out b (piece_text null_string)) h
        (directed_null base cap scratch address locals args out b (omega arith) buffer)
  loop_piece percent d fmt args out b proper h buffer =
      loop_directive b'%' (d ∷ fmt) args args (length out) (out ++ b)
        (emitted cap out b (piece_text percent)) h
        (directed_percent base cap scratch address locals args out b (omega arith) buffer)
  loop_piece (unknown e) d fmt args out b proper h buffer =
      loop_directive e (d ∷ fmt) args args (length out) (out ++ b)
        (emitted cap out b (piece_text (unknown e))) h
        (directed_unknown base cap scratch address locals e args out b proper h buffer)

  pub loop_full :
      (fmt g : List ℕ) (c : ℕ) (args : List Arg) (str : ℕ) (buf : List ℕ)
      → fmt ≡ c ∷ g
      → str ≡ cap
      → format_loop base (suc cap) scratch fmt args str buf ≡ done (str, buf)
  unfolding format_loop
  loop_full [] g c args str buf e h = absurd (cc)
  loop_full (a ∷ []) g c args str buf e h = rw (full base cap address str h) (ground arith)
  loop_full (a ∷ d ∷ fmt) g c args str buf e h = rw (full base cap address str h) (ground arith)

  pub loop_end :
      (rest : List ℕ) (args : List Arg) (str : ℕ) (buf : List ℕ)
      → format_loop base (suc cap) scratch (0 ∷ rest) args str buf ≡ done (str, buf)
  unfolding format_loop
  loop_end [] args str buf = refl
  loop_end (d ∷ rest) args str buf = refl
