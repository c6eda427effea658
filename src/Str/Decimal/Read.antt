-- ===== src/Str/Decimal/Read.antt =====
-- `atoi` on the text that `itoa` writes.
use holyos.Base.{
  ℕ, ◌+◌, ◌-◌, ◌*◌, ◌^◌, ◌<◌, ◌≤◌, ◌≡◌, ◌≢◌, refl, ◌∙◌, ap, List, [], ◌∷◌, ◌++◌, Bool-cases, inl,
  inr, done, ◌>>=◌, arith, length, u32,
}
use holyos.Str.{itoa, atoi, atoi_loop, is_negative, negate}
use holyos.Str.Compare.{stored}
use holyos.Str.Reverse.{backwards, append_assoc, length-backwards}
use holyos.Str.Decimal.{
  low_digits, decimal, length-decimal, ten_to, value, IsDigit, IsDigits, low_digits-IsDigits,
  value-low_digits,
}
use holyos.Str.Decimal.Write.{itoa_lem, decimal-negative, decimal-positive}

read_digit :
    (val c : ℕ) (s : List ℕ)
    → IsDigit c
    → atoi_loop val (c ∷ s) ≡ atoi_loop (u32 (val * 10 + (c - b'0'))) s
unfolding atoi_loop IsDigit
read_digit val c s digit = ground arith

-- Digits written the highest first add up to their value.
read_digits :
    (ds t : List ℕ)
    → IsDigits ds
    → value ds < 2 ^ 32
    → atoi_loop 0 (backwards ds ++ t) ≡ atoi_loop (value ds) t
unfolding value IsDigits
read_digits [] t digits bound = refl
read_digits (d ∷ ds) t digits bound =
    rw
      (
        append_assoc (backwards ds) (d ∷ []) t,
        read_digits ds (d ∷ t) digits.1 (omega arith),
        read_digit (value ds) d t digits.0,
      )
      (ap (λ v. atoi_loop v t) (omega arith))

-- A text of digits has no sign.
no_sign : (c : ℕ) (s : List ℕ) → IsDigit c → atoi (c ∷ s) ≡ atoi_loop 0 (c ∷ s)
unfolding atoi IsDigit
no_sign c s digit = ground arith

IsDigits-append : (xs : List ℕ) (d : ℕ) → IsDigits xs → IsDigit d → IsDigits (xs ++ d ∷ [])
unfolding IsDigits
IsDigits-append [] d t u = (u, tt)
IsDigits-append (x ∷ xs) d t u = (t.0, IsDigits-append xs d t.1 u)

IsDigits-backwards : (ds : List ℕ) → IsDigits ds → IsDigits (backwards ds)
unfolding IsDigits
IsDigits-backwards [] t = tt
IsDigits-backwards (d ∷ ds) t = IsDigits-append (backwards ds) d (IsDigits-backwards ds t.1) t.0

unsigned : (cs t : List ℕ) → IsDigits cs → 0 < length cs → atoi (cs ++ t) ≡ atoi_loop 0 (cs ++ t)
unfolding IsDigits
unsigned [] t digits h = absurd (omega arith)
unsigned (c ∷ cs) t digits h = no_sign c (cs ++ t) digits.0

read_end : (val : ℕ) (rest : List ℕ) → atoi_loop val (0 ∷ rest) ≡ done val
unfolding atoi_loop
read_end val rest = refl

signed : (s : List ℕ) → atoi (b'-' ∷ s) ≡ (atoi_loop 0 s >>= λ val. done (negate val))
unfolding atoi
signed s = refl

-- The loop on the digits of a number.
read_number :
    (n : ℕ) (rest : List ℕ)
    → n < 2 ^ 31
    → atoi_loop 0 (stored (backwards (low_digits 10 n)) rest) ≡ done n
unfolding ten_to
read_number n rest small =
    let is_n = value-low_digits 9 n (omega arith) in
    read_digits (low_digits 10 n) (0 ∷ rest) (low_digits-IsDigits 10 n) (omega arith)
    ∙ read_end (value (low_digits 10 n)) rest
    ∙ ap done is_n

some_digit : (n : ℕ) → 0 < length (backwards (low_digits 10 n))
unfolding low_digits
some_digit n = omega (arith, length-backwards (low_digits 10 n))

read_positive :
    (n : ℕ) (rest : List ℕ) → n < 2 ^ 31 → atoi (stored (backwards (low_digits 10 n)) rest) ≡ done n
read_positive n rest small =
    unsigned (backwards (low_digits 10 n)) (0 ∷ rest)
      (IsDigits-backwards (low_digits 10 n) (low_digits-IsDigits 10 n)) (some_digit n)
    ∙ read_number n rest small

read_negative :
    (n : ℕ) (rest : List ℕ)
    → n < 2 ^ 31
    → atoi (b'-' ∷ stored (backwards (low_digits 10 n)) rest) ≡ done (negate n)
read_negative n rest small =
    rw (signed (stored (backwards (low_digits 10 n)) rest), read_number n rest small) refl

-- The decimal text of a number is read as the number.
pub atoi-decimal :
    (n : ℕ) (rest : List ℕ) → n < 2 ^ 32 → n ≢ 2 ^ 31 → atoi (stored (decimal n) rest) ≡ done n
atoi-decimal n rest word not_least = elim (Bool-cases (is_negative n)) [
  | inl e ↦
      rw (decimal-negative n e)
        (read_negative (negate n) rest (ground arith) ∙ ap done (ground arith))
  | inr e ↦ rw (decimal-positive n e) (read_positive n rest (ground arith))
]

-- Of every `int` n but the least, in a buffer of twelve bytes or more, `itoa` stores a text and returns its
-- length: the text is of at most eleven characters with a NUL behind, the buffer keeps its size, and `atoi`
-- of the buffer returns n.
pub atoi-itoa :
    (n : ℕ) (buf : List ℕ)
    → n < 2 ^ 32
    → n ≢ 2 ^ 31
    → 12 ≤ length buf
    → (text rest : List ℕ) × (itoa n buf ≡ done (length text, stored text rest))
      × (length text ≤ 11)
      × (length (stored text rest) ≡ length buf)
      × (atoi (stored text rest) ≡ done n)
atoi-itoa n buf word not_least room =
    let (rest, stores, size) = itoa_lem n buf word not_least room in
    (decimal n, rest, stores, length-decimal n, size, atoi-decimal n rest word not_least)
