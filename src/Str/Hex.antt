-- ===== src/Str/Hex.antt =====
-- `itoh` writes the hexadecimal text of a word.
pub mod Store
use holyos.Base.{
  ℕ, zero, suc, ◌+◌, ◌-◌, ◌*◌, ◌/◌, ◌%◌, ◌^◌, ◌<◌, ◌≤◌, ◌≡◌, refl, sym, ◌∙◌, ap, ap₂, List, [], ◌∷◌,
  ◌++◌, Bool, Bool-cases, inl, inr, true, false, Run, done, spins, fault, ◌>>=◌, ◌==◌, ltb, leb,
  ◌&&◌, if◌then◌else◌, arith, length, drop, length-append,
}
use native.Mathlib.Nat.{
  le-div_iff_mul-le, div-lt_iff_lt-mul, mod-lt, div-eq_of_lt, div-div-eq-div-mul, mod_def,
}
use holyos.Str.{itoh, first_digit, hex_loop, hex_char, put, strlen}
use holyos.Str.Compare.{IsText, stored, strlen_lem}
use holyos.Str.Decimal.{written_behind, written_behind-digit, one_more}
use holyos.Str.Reverse.{backwards, append_assoc, put-append, length-backwards}

-- The hexadecimal digits of a number of at most `size` digits, the lowest first.
unfoldable pub low_hex : ℕ → ℕ → List ℕ
low_hex zero n = []
low_hex (suc size) n = hex_char (n % 16) ∷ (if n / 16 == 0 then [] else low_hex size (n / 16))

-- The hexadecimal text of a 32-bit word.
unfoldable pub hexadecimal : ℕ → List ℕ
hexadecimal n = backwards (low_hex 8 n)

unfoldable pub hex_to : ℕ → ℕ
hex_to zero = 1
hex_to (suc size) = 16 * hex_to size

-- The `size + 1` digits of a number, the highest first.
unfoldable pub fixed : ℕ → ℕ → List ℕ
fixed zero n = hex_char n ∷ []
fixed (suc size) n = hex_char (n / hex_to (suc size)) ∷ fixed size (n % hex_to (suc size))

div-mod : (a m : ℕ) → a % (16 * m) / 16 ≡ a / 16 % m
div-mod a m =
    let high = div-div-eq-div-mul a 16 m in
    let outer = mod_def a (16 * m) in let inner = mod_def (a / 16) m in grind arith

hex_to-nonzero : (size : ℕ) → 0 < hex_to size
unfolding hex_to
hex_to-nonzero zero = omega arith
hex_to-nonzero (suc size) = omega (arith, hex_to-nonzero size)

div-mod_low : (a m : ℕ) → a % (16 * m) % 16 ≡ a % 16
div-mod_low a m = let outer = mod_def a (16 * m) in grind arith

-- The last digit of the digits is the remainder by 16.
fixed-last : (size n : ℕ) → fixed (suc size) n ≡ fixed size (n / 16) ++ hex_char (n % 16) ∷ []
unfolding fixed hex_to
fixed-last zero n = refl
fixed-last (suc size) n =
    rw
      (
        fixed-last size (n % hex_to (suc (suc size))),
        div-mod n (hex_to (suc size)),
        div-mod_low n (hex_to (suc size)),
        div-div-eq-div-mul n 16 (hex_to (suc size)),
      )
      refl

low_hex-last : (size n : ℕ) → n < 16 → low_hex (suc size) n ≡ hex_char n ∷ []
unfolding low_hex
low_hex-last size n small = ground arith

low_hex-more :
    (size n : ℕ) → 16 ≤ n → low_hex (suc size) n ≡ hex_char (n % 16) ∷ low_hex size (n / 16)
unfolding low_hex
low_hex-more size n large = ground arith

fixed-one : (n : ℕ) → fixed 0 n ≡ hex_char n ∷ []
unfolding fixed
fixed-one n = refl

-- The digits from the first that is not 0, or the last digit, are the hexadecimal text.
pub fixed-eq :
    (size more n : ℕ)
    → size ≤ more
    → (0 < size → hex_to size ≤ n)
    → n < hex_to (suc size)
    → fixed size n ≡ backwards (low_hex (suc more) n)
unfolding hex_to
fixed-eq zero more n h first below = rw (low_hex-last more n (omega arith)) (fixed-one n)
fixed-eq (suc size) zero n h first below = absurd (omega arith)
fixed-eq (suc size) (suc more) n h first below =
    let at_least = first (omega arith) in
    let some_place = hex_to-nonzero size in
    rw
      (
        low_hex-more (suc more) n (omega arith),
        fixed-last size n,
        fixed-eq size more (n / 16) (omega arith) (λ positive. omega arith) (omega arith),
      )
      refl

keeps_place : (fuel n d : ℕ) → 0 < d → d ≤ n → first_digit (suc fuel) n d ≡ d
unfolding first_digit
keeps_place fuel n d some_place large =
    let some_digit = (le-div_iff_mul-le {k = d} {x = 1} {y = n} some_place).1 (omega arith) in
    ground arith

sixteenth : (d : ℕ) → 16 * d / 16 ≡ d
sixteenth d = omega arith

next_place :
    (fuel n d : ℕ) → 0 < d → n < 16 * d → first_digit (suc fuel) n (16 * d) ≡ first_digit fuel n d
unfolding first_digit
next_place fuel n d some_place small =
    let no_digit = div-eq_of_lt small in ground (arith, sixteenth d)

-- The largest place of a number, found from a place that is large enough.
pub first_digit_lem :
    (fuel size n : ℕ)
    → size ≤ fuel
    → n < hex_to (suc size)
    → (place : ℕ) × (place ≤ size)
      × (first_digit fuel n (hex_to size) ≡ hex_to place)
      × (0 < place → hex_to place ≤ n)
      × (n < hex_to (suc place))
unfolding first_digit hex_to
first_digit_lem zero zero n h below = (0, omega arith, refl, (λ p. absurd (omega arith)), below)
first_digit_lem zero (suc size) n h below = absurd (omega arith)
first_digit_lem (suc fuel) zero n h below =
    (0, omega arith, ground arith, (λ p. absurd (omega arith)), below)
first_digit_lem (suc fuel) (suc size) n h below = elim (Bool-cases (leb (hex_to (suc size)) n)) [
  | inl large ↦ (
    suc size,
    omega arith,
    keeps_place fuel n (hex_to (suc size)) (hex_to-nonzero (suc size)) (ground arith),
    (λ p. ground arith),
    below,
  )
  | inr small ↦
      let (place, at_most, e, first, less) =
        first_digit_lem fuel size n (omega arith) (ground arith) in
      (
        place,
        omega arith,
        (next_place fuel n (hex_to size) (hex_to-nonzero size) (ground arith) ∙ e),
        first,
        less,
      )
]

above15 : (d : ℕ) → 16 ≤ d → leb 15 d ≡ true
above15 d h = ground arith

small_digit : (digit : ℕ) → digit < 16 → leb 16 digit ≡ false
small_digit digit h = ground arith

-- A round of the loop that writes a digit before others, and the last.
more_digits :
    (fuel i d ptr : ℕ) (buf buf' : List ℕ)
    → 16 ≤ d
    → i / d < 16
    → put buf ptr (hex_char (i / d)) ≡ done buf'
    → hex_loop (suc fuel) i d ptr buf ≡ hex_loop fuel (i % d) (d / 16) (ptr + 1) buf'
unfolding hex_loop
more_digits fuel i d ptr buf buf' large digit written =
    rw (above15 d large, small_digit (i / d) digit, written) refl

last_digit :
    (fuel i ptr : ℕ) (buf buf' : List ℕ)
    → i < 16
    → put buf ptr (hex_char i) ≡ done buf'
    → hex_loop (suc fuel) i 1 ptr buf ≡ done (ptr + 1, buf')
unfolding hex_loop
last_digit fuel i ptr buf buf' digit written = rw (small_digit i digit, written) refl

pub length-fixed : (size n : ℕ) → length (fixed size n) ≡ size + 1
unfolding fixed
length-fixed zero n = refl
length-fixed (suc size) n = omega (arith, length-fixed size (n % hex_to (suc size)))

pub hex_loop_lem :
    (size fuel n : ℕ) (a b : List ℕ)
    → n < hex_to (suc size)
    → size < fuel
    → size < length b
    → hex_loop fuel n (hex_to size) (length a) (a ++ b) ≡ done (written_behind a b (fixed size n))
unfolding hex_to fixed
hex_loop_lem size zero n a b bound enough room = absurd (omega arith)
hex_loop_lem size (suc fuel) n a [] bound enough room = absurd (omega arith)
hex_loop_lem zero (suc fuel) n a (x ∷ b) bound enough room =
    last_digit fuel n (length a) (a ++ x ∷ b) (a ++ hex_char n ∷ b) bound
      (put-append a b x (hex_char n) (length a) refl)
hex_loop_lem (suc size) (suc fuel) n a (x ∷ b) bound enough room =
    let d = hex_to (suc size) in
    let c = hex_char (n / d) in
    let positive = hex_to-nonzero size in
    let later =
      hex_loop_lem size fuel (n % d) (a ++ c ∷ []) b (mod-lt n (hex_to-nonzero (suc size)))
        (omega arith) (omega arith) in
    rw
      (
        more_digits fuel n d (length a) (a ++ x ∷ b) (a ++ c ∷ b) (omega arith)
            ((div-lt_iff_lt-mul (hex_to-nonzero (suc size))).1 (omega arith))
            (put-append a b x c (length a) refl),
        sixteenth (hex_to size),
        one_more a c,
        sym (append_assoc a (c ∷ []) b),
        later,
        written_behind-digit a b (fixed size (n % d)) x c,
      )
      refl
