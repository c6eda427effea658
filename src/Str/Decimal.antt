-- ===== src/Str/Decimal.antt =====
-- `itoa` writes the decimal text of an `int`, and `atoi` reads it back.
pub mod Write
pub mod Read
use holyos.Base.{
  ℕ, zero, suc, ◌+◌, ◌-◌, ◌*◌, ◌/◌, ◌%◌, ◌^◌, ◌<◌, ◌≤◌, ◌≡◌, ◌≢◌, refl, sym, ap, ap₂, subst, List,
  [], ◌∷◌, ◌++◌, Bool, Bool-cases, ◌⊎◌, inl, inr, true, false, ◌||◌, ◌&&◌, Run, done, spins, fault,
  ◌>>=◌, ◌==◌, ltb, leb, if◌then◌else◌, arith, length, drop, length-append, length-drop, sub32, u32,
}
use holyos.Str.{digits_loop, digit_char, tenth, is_negative, negate, put}
use holyos.Str.Reverse.{backwards, append_assoc, put-append, length-backwards, reverse_lem}

-- The decimal digits of a number of at most `size` digits, the lowest first.
unfoldable pub low_digits : ℕ → ℕ → List ℕ
low_digits zero n = []
low_digits (suc size) n = (n % 10 + b'0') ∷ (if n / 10 == 0 then [] else low_digits size (n / 10))

-- The decimal text of a 32-bit word read as an `int`.
unfoldable pub decimal : ℕ → List ℕ
decimal n =
    if is_negative n
    then b'-' ∷ backwards (low_digits 10 (negate n))
    else backwards (low_digits 10 n)

unfoldable pub ten_to : ℕ → ℕ
ten_to zero = 1
ten_to (suc size) = 10 * ten_to size

pub IsDigit : ℕ → Type 0
IsDigit c = (b'0' ≤ c) × (c ≤ b'9')

pub IsDigits : List ℕ → Type 0
IsDigits [] = Unit {0}
IsDigits (c ∷ cs) = IsDigit c × IsDigits cs

unfoldable pub value : List ℕ → ℕ
value [] = 0
value (c ∷ cs) = value cs * 10 + (c - b'0')

pub low_digits-IsDigits : (size n : ℕ) → IsDigits (low_digits size n)
unfolding low_digits IsDigits IsDigit
low_digits-IsDigits zero n = tt
low_digits-IsDigits (suc size) n = ground (arith, low_digits-IsDigits size (n / 10))

pub value-low_digits : (size n : ℕ) → n < ten_to (suc size) → value (low_digits (suc size) n) ≡ n
unfolding low_digits value ten_to
value-low_digits zero n small = ground arith
value-low_digits (suc size) n small = ground (arith, value-low_digits size (n / 10))

pub length-low_digits : (size n : ℕ) → length (low_digits size n) ≤ size
unfolding low_digits
length-low_digits zero n = omega arith
length-low_digits (suc size) n = ground (arith, length-low_digits size (n / 10))

positive_char : (n : ℕ) → n < 2 ^ 31 → (digit_char n ≡ n % 10 + b'0') × (tenth n ≡ n / 10)
positive_char n small = ground arith

-- The last digit, and a digit that others follow.
write_last :
    (fuel n i : ℕ) (buf buf' : List ℕ)
    → n < 10
    → put buf i (n % 10 + b'0') ≡ done buf'
    → digits_loop (suc fuel) n i buf ≡ done (i + 1, buf')
unfolding digits_loop
write_last fuel n i buf buf' small written =
    let (char, next) = positive_char n (omega arith) in rw (char, next, written) (ground arith)

write_more :
    (fuel n i : ℕ) (buf buf' : List ℕ)
    → n < 2 ^ 31
    → 10 ≤ n
    → put buf i (n % 10 + b'0') ≡ done buf'
    → digits_loop (suc fuel) n i buf ≡ digits_loop fuel (n / 10) (i + 1) buf'
unfolding digits_loop
write_more fuel n i buf buf' small large written =
    let (char, next) = positive_char n small in rw (char, next, written) (ground arith)

low_digits-last : (size n : ℕ) → n < 10 → low_digits (suc size) n ≡ (n % 10 + b'0') ∷ []
unfolding low_digits
low_digits-last size n small = ground arith

low_digits-more :
    (size n : ℕ) → 10 ≤ n → low_digits (suc size) n ≡ (n % 10 + b'0') ∷ low_digits size (n / 10)
unfolding low_digits
low_digits-more size n large = ground arith

-- The state after the loop has written `ds` behind `a`.
abbrev pub written_behind : List ℕ → List ℕ → List ℕ → ℕ × List ℕ
written_behind a b ds = (length a + length ds, a ++ (ds ++ drop (length ds) b))

last_round :
    (size fuel n x : ℕ) (a b : List ℕ)
    → n < 10
    → digits_loop (suc fuel) n (length a) (a ++ x ∷ b)
      ≡ done (written_behind a (x ∷ b) (low_digits (suc size) n))
last_round size fuel n x a b below =
    rw
      (
        low_digits-last size n below,
        write_last fuel n (length a) (a ++ x ∷ b) (a ++ (n % 10 + b'0') ∷ b) below
            (put-append a b x (n % 10 + b'0') (length a) refl),
      )
      refl

pub one_more : (a : List ℕ) (d : ℕ) → length a + 1 ≡ length (a ++ d ∷ [])
one_more a d = omega (arith, length-append a (d ∷ []))

-- What follows a digit, as seen from before it.
pub written_behind-digit :
    (a b ds : List ℕ) (x d : ℕ)
    → written_behind (a ++ d ∷ []) b ds ≡ written_behind a (x ∷ b) (d ∷ ds)
written_behind-digit a b ds x d =
    ap₂ (λ (i : ℕ) (t : List ℕ). (i, t)) (omega (arith, length-append a (d ∷ [])))
      (append_assoc a (d ∷ []) (ds ++ drop (length ds) b))

-- The loop writes the digits behind what is in the buffer before the place it starts at.
pub digits_loop_lem :
    (size fuel n : ℕ) (a b : List ℕ)
    → n < 2 ^ 31
    → n < ten_to (suc size)
    → size < fuel
    → size < length b
    → digits_loop fuel n (length a) (a ++ b) ≡ done (written_behind a b (low_digits (suc size) n))
unfolding ten_to
digits_loop_lem size zero n a b small bound enough room = absurd (omega arith)
digits_loop_lem size (suc fuel) n a [] small bound enough room = absurd (omega arith)
digits_loop_lem zero (suc fuel) n a (x ∷ b) small bound enough room =
    last_round 0 fuel n x a b (omega arith)
digits_loop_lem (suc size) (suc fuel) n a (x ∷ b) small bound enough room =
    elim (Bool-cases (ltb n 10)) [
      | inl below ↦ last_round (suc size) fuel n x a b (ground arith)
      | inr above ↦
          let d = n % 10 + b'0' in
          let later =
            digits_loop_lem size fuel (n / 10) (a ++ d ∷ []) b (omega arith) (omega arith)
              (omega arith) (omega arith) in
          rw
            (
              low_digits-more (suc size) n (ground arith),
              write_more fuel n (length a) (a ++ x ∷ b) (a ++ d ∷ b) small (ground arith)
                  (put-append a b x d (length a) refl),
              sym (written_behind-digit a b (low_digits (suc size) (n / 10)) x d),
              sym (append_assoc a (d ∷ []) b),
              one_more a d,
              later,
            )
            refl
    ]

pub length-decimal : (n : ℕ) → length (decimal n) ≤ 11
unfolding decimal
length-decimal n =
    let small = length-low_digits 10 n in
    let smaller = length-low_digits 10 (negate n) in
    ground (arith, length-backwards (low_digits 10 n), length-backwards (low_digits 10 (negate n)))
