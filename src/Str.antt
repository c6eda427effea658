-- ===== src/Str.antt =====
-- lib/string.c, the functions on strings. A pointer to characters is the list of the bytes from there to
-- the end of the object; a read or a write past the end is a fault. An `int` is its 32-bit word.
pub mod Compare
pub mod Reverse
pub mod Decimal
pub mod Hex
use holyos.Base.{
  ℕ, zero, suc, ◌+◌, ◌-◌, ◌*◌, ◌/◌, ◌%◌, ◌^◌, List, [], ◌∷◌, Bool, true, false, ◌&&◌, ◌||◌, Run,
  done, spins, fault, ◌>>=◌, ◌==◌, ◌!=◌, ltb, leb, if◌then◌else◌, u32, sub32, length, get_or, set,
}

-- `buf[i] = c` and `s[i]`.
unfoldable pub put : List ℕ → ℕ → ℕ → Run (List ℕ)
put buf i c = if ltb i (length buf) then done (set buf i c) else fault

unfoldable pub char_at : List ℕ → ℕ → Run ℕ
char_at s i = if ltb i (length s) then done (get_or s i 0) else fault

unfoldable pub memcmp : List ℕ → List ℕ → ℕ → Run ℕ
memcmp a b zero = done 0
memcmp [] b (suc size) = fault
memcmp (x ∷ a) [] (suc size) = fault
memcmp (x ∷ a) (y ∷ b) (suc size) =
    if x != y then done (if ltb x y then 2 ^ 32 - 1 else 1) else memcmp a b size

unfoldable pub strlen : List ℕ → Run ℕ
strlen [] = fault
strlen (c ∷ str) = if c == 0 then done 0 else (strlen str >>= λ len. done (len + 1))

unfoldable pub strcmp : List ℕ → List ℕ → Run ℕ
strcmp [] s2 = fault
strcmp (a ∷ s1) [] = fault
strcmp (a ∷ s1) (b ∷ s2) = if a != 0 && a == b then strcmp s1 s2 else done (sub32 a b)

-- The loop of `strncmp`, `n` not yet decremented.
unfoldable pub strncmp_loop : ℕ → List ℕ → List ℕ → Run ℕ
strncmp_loop n [] s2 = fault
strncmp_loop n (a ∷ s1) [] = fault
strncmp_loop n (a ∷ s1) (b ∷ s2) =
    if n - 1 != 0 && (a != 0 && a == b) then strncmp_loop (n - 1) s1 s2 else done (sub32 a b)

unfoldable pub strncmp : List ℕ → List ℕ → ℕ → Run ℕ
unfolding strncmp_loop
strncmp s1 s2 n = if n == 0 then done 0 else strncmp_loop n s1 s2

-- The loop of `reverse`; `last` is `j + 1`, so that it is not negative for an empty string.
unfoldable pub reverse_loop : ℕ → ℕ → ℕ → List ℕ → Run (List ℕ)
unfolding put char_at
reverse_loop zero i last s = spins
reverse_loop (suc fuel) i last s =
    let swapped = (do
      c ← char_at s i
      d ← char_at s (last - 1)
      s ← put s i d
      s ← put s (last - 1) c
      reverse_loop fuel (i + 1) (last - 1) s) in
    if ltb (i + 1) last then swapped else done s

-- One round more than half of the length is enough fuel.
unfoldable pub reverse : List ℕ → Run (List ℕ)
unfolding strlen reverse_loop
reverse s = do len ← strlen s; reverse_loop (len + 1) 0 len s

-- Arithmetic of `int`: the sign, the negation, and division with remainder towards zero.
abbrev pub is_negative : ℕ → Bool
is_negative n = leb (2 ^ 31) n

abbrev pub negate : ℕ → ℕ
negate n = sub32 0 n

-- `n % 10 + '0'`, as the `char` that is stored.
abbrev pub digit_char : ℕ → ℕ
digit_char n = if is_negative n then (304 - negate n % 10) % 256 else n % 10 + 48

-- `n / 10`
abbrev pub tenth : ℕ → ℕ
tenth n = if is_negative n then negate (negate n / 10) else n / 10

-- `do { buf[i++] = n % 10 + '0'; } while ((n /= 10) > 0);`
unfoldable pub digits_loop : ℕ → ℕ → ℕ → List ℕ → Run (ℕ × List ℕ)
unfolding put
digits_loop zero n i buf = spins
digits_loop (suc fuel) n i buf =
    let later = λ (buf' : List ℕ). digits_loop fuel (tenth n) (i + 1) buf' in
    do
      buf' ← put buf i (digit_char n)
      if tenth n == 0 || is_negative (tenth n) then done (i + 1, buf') else later buf'

-- Ten rounds are enough, as an `int` has at most ten digits.
unfoldable pub itoa : ℕ → List ℕ → Run (ℕ × List ℕ)
itoa n buf = do
  (i, buf) ← digits_loop 11 (if is_negative n then negate n else n) 0 buf
  (i, buf) ← (if is_negative n then (put buf i b'-' >>= λ b. done (i + 1, b)) else done (i, buf))
  buf ← put buf i 0
  buf ← reverse buf
  done (i, buf)

-- The value of `val * 10 + (*s - '0')` for each digit; the 32-bit word of the value.
unfoldable pub atoi_loop : ℕ → List ℕ → Run ℕ
atoi_loop val [] = fault
atoi_loop val (c ∷ s) =
    if leb b'0' c && leb c b'9' then atoi_loop (u32 (val * 10 + (c - b'0'))) s else done val

unfoldable pub atoi : List ℕ → Run ℕ
unfolding atoi_loop
atoi [] = fault
atoi (c ∷ s) =
    if c == b'-' then (atoi_loop 0 s >>= λ val. done (negate val)) else atoi_loop 0 (c ∷ s)

-- `hex_chars[i]`
abbrev pub hex_char : ℕ → ℕ
hex_char i = if ltb i 10 then b'0' + i else b'A' + (i - 10)

-- `while ((n / d == 0) && (d >= 0x10)) d /= 0x10;`
unfoldable pub first_digit : ℕ → ℕ → ℕ → ℕ
first_digit zero n d = d
first_digit (suc fuel) n d =
    let later = first_digit fuel n (d / 16) in if n / d == 0 && leb 16 d then later else d

-- `while (d >= 0xF) { *ptr++ = hex_chars[i / d]; i = i % d; d /= 0x10; }` and the last digit; an index of 16
-- or more is outside `hex_chars`.
unfoldable pub hex_loop : ℕ → ℕ → ℕ → ℕ → List ℕ → Run (ℕ × List ℕ)
unfolding put
hex_loop zero i d ptr buf = spins
hex_loop (suc fuel) i d ptr buf =
    let later = λ (buf' : List ℕ). hex_loop fuel (i % d) (d / 16) (ptr + 1) buf' in
    let digit = if leb 15 d then i / d else i in
    if leb 16 digit then fault else do
      buf' ← put buf ptr (hex_char digit)
      if leb 15 d then later buf' else done (ptr + 1, buf')

-- The divisor falls from 16 ^ 7, so that nine rounds are enough.
unfoldable pub itoh : ℕ → List ℕ → Run (ℕ × List ℕ)
unfolding hex_loop first_digit strlen
itoh n buf = do
  (ptr, buf) ← hex_loop 9 n (first_digit 8 n 0x1000_0000) 0 buf
  buf ← put buf ptr 0
  len ← strlen buf
  done (len, buf)
