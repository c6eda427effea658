-- ===== src/Print.antt =====
-- lib/sprintf.c: formatted printing into a buffer. An address is a 32-bit word; `base` is the buffer's, and
-- `str` is the place in the buffer that is written next. `scratch` is what the stack holds in the 32 bytes
-- of the local `buffer`. A directive whose argument is missing, or is of another type, is a fault.
pub mod Copies
pub mod Pieces
pub mod Steps
pub mod Format
use holyos.Base.{
  ℕ, zero, suc, ◌+◌, ◌-◌, ◌^◌, ◌%◌, List, [], ◌∷◌, Bool, ◌&&◌, Run, done, fault, ◌>>=◌, ◌==◌, ◌!=◌,
  ltb, if◌then◌else◌, u8, u32,
}
use holyos.Str.{itoa, itoh, put}

-- What `va_arg` reads: a word, a pointer to a string by the bytes it points to, or the null pointer.
pub data Arg : Type 0 where
  number : ℕ → Arg
  string : List ℕ → Arg
  null : Arg

abbrev pub size_max : ℕ
size_max = 2 ^ 32 - 1

-- "(null)"
abbrev pub null_text : List ℕ
null_text = b'(' ∷ b'n' ∷ b'u' ∷ b'l' ∷ b'l' ∷ b')' ∷ 0 ∷ []

-- `va_arg(args, int)`
unfoldable pub next_number : List Arg → Run (ℕ × List Arg)
next_number [] = fault
next_number (number n ∷ args) = done (n, args)
next_number (string s ∷ args) = fault
next_number (null ∷ args) = fault

-- `va_arg(args, const char*)`, with `if (!s) s = "(null)"`.
unfoldable pub next_string : List Arg → Run (List ℕ × List Arg)
next_string [] = fault
next_string (number n ∷ args) = fault
next_string (string s ∷ args) = done (s, args)
next_string (null ∷ args) = done (null_text, args)

module _ (base size : ℕ) where
  -- `str < end`, where `end` is `buf + size - 1`.
  unfoldable pub before_end : ℕ → Bool
  before_end str = ltb (u32 (base + str)) (u32 (base + size + 2 ^ 32 - 1))

  -- `for (int i = 0; i < len && str < end; i++) *str++ = buffer[i];`, with the characters from `buffer[i]` on.
  unfoldable pub copy_number : ℕ → List ℕ → ℕ → List ℕ → Run (ℕ × List ℕ)
  unfolding before_end put
  copy_number zero buffer str buf = done (str, buf)
  copy_number (suc len) [] str buf = if before_end str then fault else done (str, buf)
  copy_number (suc len) (c ∷ buffer) str buf =
      let next = (put buf str c >>= λ buf'. copy_number len buffer (str + 1) buf') in
      if before_end str then next else done (str, buf)

  -- `while (*s && str < end) *str++ = *s++;`
  unfoldable pub copy_string : List ℕ → ℕ → List ℕ → Run (ℕ × List ℕ)
  unfolding before_end put
  copy_string [] str buf = fault
  copy_string (c ∷ s) str buf =
      let next = (put buf str c >>= λ buf'. copy_string s (str + 1) buf') in
      if c != 0 && before_end str then next else done (str, buf)

  -- `if (str < end) *str++ = c;`
  unfoldable pub put_checked : ℕ → ℕ → List ℕ → Run (ℕ × List ℕ)
  unfolding before_end put
  put_checked c str buf =
      if before_end str then (put buf str c >>= λ buf'. done (str + 1, buf')) else done (str, buf)

module _ (base size : ℕ) (scratch : List ℕ) where
  -- The `switch` on the character after a `%`.
  unfoldable pub directive : ℕ → List Arg → ℕ → List ℕ → Run (List Arg × ℕ × List ℕ)
  unfolding next_number next_string copy_number copy_string put_checked put
  directive c args str buf =
      if c == b'd'
      then (do
        (num, args) ← next_number args
        (len, buffer) ← itoa num scratch
        (str, buf) ← copy_number base size len buffer str buf
        done (args, str, buf))
      else if c == b'x'
      then (do
        (num, args) ← next_number args
        (len, buffer) ← itoh num scratch
        (str, buf) ← copy_number base size len buffer str buf
        done (args, str, buf))
      else if c == b'c'
      then (do (c, args) ← next_number args; buf ← put buf str (u8 c); done (args, str + 1, buf))
      else if c == b's'
      then (do
        (s, args) ← next_string args
        (str, buf) ← copy_string base size s str buf
        done (args, str, buf))
      else if c == b'%'
      then (do (str, buf) ← put_checked base size b'%' str buf; done (args, str, buf))
      else if before_end base size str
      then (do
        buf ← put buf str b'%'
        (str, buf) ← put_checked base size c (str + 1) buf
        done (args, str, buf))
      else done (args, str, buf)

  -- The loop on the format, which is read up to its NUL; a `%` before the NUL takes the NUL for a directive, and
  -- the loop reads on behind it.
  unfoldable pub format_loop : List ℕ → List Arg → ℕ → List ℕ → Run (ℕ × List ℕ)
  unfolding before_end put
  format_loop [] args str buf = fault
  format_loop (c ∷ []) args str buf =
      let wrong = (if c == b'%' then fault else (put buf str c >>= λ buf'. fault)) in
      if c != 0 && before_end base size str then wrong else done (str, buf)
  format_loop (c ∷ d ∷ fmt) args str buf =
      let plain = (put buf str c >>= λ buf'. format_loop (d ∷ fmt) args (str + 1) buf') in
      let directed = (do
        (args, str, buf) ← directive d args str buf
        format_loop fmt args str buf) in
      let next = (if c == b'%' then directed else plain) in
      if c != 0 && before_end base size str then next else done (str, buf)

  unfoldable pub vsnprintf : List ℕ → List Arg → List ℕ → Run (ℕ × List ℕ)
  unfolding format_loop put
  vsnprintf fmt args buf = do
    (str, buf) ← format_loop fmt args 0 buf
    buf ← put buf str 0
    done (str, buf)

-- `snprintf` passes its arguments on, and `sprintf` and `vsprintf` the size `SIZE_MAX`.
unfoldable pub snprintf : ℕ → ℕ → List ℕ → List ℕ → List Arg → List ℕ → Run (ℕ × List ℕ)
unfolding vsnprintf
snprintf base size scratch fmt args buf = vsnprintf base size scratch fmt args buf

unfoldable pub vsprintf : ℕ → List ℕ → List ℕ → List Arg → List ℕ → Run (ℕ × List ℕ)
unfolding vsnprintf
vsprintf base scratch fmt args buf = vsnprintf base size_max scratch fmt args buf

unfoldable pub sprintf : ℕ → List ℕ → List ℕ → List Arg → List ℕ → Run (ℕ × List ℕ)
unfolding vsnprintf
sprintf base scratch fmt args buf = vsnprintf base size_max scratch fmt args buf
