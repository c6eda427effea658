-- ===== src/Str/Decimal/Write.antt =====
-- `itoa` on every `int` but the least.
use holyos.Base.{
  ℕ, zero, suc, ◌+◌, ◌^◌, ◌<◌, ◌≤◌, ◌≡◌, ◌≢◌, refl, sym, ◌∙◌, ap, ap₂, List, [], ◌∷◌, ◌++◌, Bool,
  Bool-cases, inl, inr, true, false, Run, done, ◌>>=◌, if◌then◌else◌, arith, length, drop,
  length-append,
}
use holyos.Str.{itoa, digits_loop, is_negative, negate, put, reverse}
use holyos.Str.Compare.{IsText, stored}
use holyos.Str.Reverse.{
  backwards, append_assoc, put-append, length-backwards, backwards-append, reverse_lem,
}
use holyos.Str.Decimal.{
  low_digits, decimal, ten_to, IsDigit, IsDigits, low_digits-IsDigits, length-low_digits,
  digits_loop_lem,
}

IsDigits-IsText : (ds : List ℕ) → IsDigits ds → IsText ds
unfolding IsDigits IsDigit
IsDigits-IsText [] t = tt
IsDigits-IsText (d ∷ ds) t = (omega arith, omega arith, IsDigits-IsText ds t.1)

pub IsText-append : (cs ds : List ℕ) → IsText cs → IsText ds → IsText (cs ++ ds)
IsText-append [] ds t u = u
IsText-append (c ∷ cs) ds t u = (t.0, t.1, IsText-append cs ds t.2 u)

-- The part of a buffer behind a place is a character and the characters after it.
pub drop-split :
    (place : ℕ) (b : List ℕ)
    → place < length b
    → (x : ℕ) × (rest : List ℕ) × (drop place b ≡ x ∷ rest) × (place + 1 + length rest ≡ length b)
drop-split place [] h = absurd (omega arith)
drop-split zero (x ∷ b) h = (x, b, refl, omega arith)
drop-split (suc place) (y ∷ b) h =
    let (x, rest, e, n) = drop-split place b (omega arith) in (x, rest, e, omega arith)

-- The NUL and the turn of the text.
abbrev finished : ℕ → List ℕ → Run (ℕ × List ℕ)
finished i buf = do buf ← put buf i 0; buf ← reverse buf; done (i, buf)

finished_lem :
    (cs rest : List ℕ) (x i : ℕ)
    → IsText cs
    → i ≡ length cs
    → finished i (cs ++ x ∷ rest) ≡ done (i, stored (backwards cs) rest)
finished_lem cs rest x i t e = rw (put-append cs rest x 0 i e, reverse_lem cs rest t) refl

-- `itoa` after its loop.
abbrev signed : Bool → ℕ → List ℕ → Run (ℕ × List ℕ)
signed negative i buf = do
  (i, buf) ← (if negative then (put buf i b'-' >>= λ b. done (i + 1, b)) else done (i, buf))
  finished i buf

itoa-signed :
    (n i : ℕ) (buf buf' : List ℕ)
    → digits_loop 11 (if is_negative n then negate n else n) 0 buf ≡ done (i, buf')
    → itoa n buf ≡ signed (is_negative n) i buf'
unfolding itoa
itoa-signed n i buf buf' e = rw e refl

-- The loop on the magnitude, and the room that is left behind the digits.
loop_room :
    (m : ℕ) (buf : List ℕ)
    → m < 2 ^ 31
    → 12 ≤ length buf
    → let ds = low_digits 10 m in
      (x y : ℕ) × (rest : List ℕ) × (digits_loop 11 m 0 buf ≡ done (length ds, ds ++ x ∷ y ∷ rest))
      × (length ds + 2 + length rest ≡ length buf)
unfolding ten_to
loop_room m buf small room =
    let ds = low_digits 10 m in
    let short = length-low_digits 10 m in
    let (x, behind, e, n) = drop-split (length ds) buf (omega arith) in
    let (y, rest, e', n') = drop-split 0 behind (omega arith) in
    (
      x,
      y,
      rest,
      digits_loop_lem 9 11 m [] buf small (omega arith) (omega arith) (omega arith)
          ∙ ap done (
              ap₂ (λ (i : ℕ) (t : List ℕ). (i, t)) (omega arith)
                (ap (λ t. ds ++ t) (e ∙ ap (λ t. x ∷ t) e'))),
      omega arith,
    )

signed-negative :
    (ds rest : List ℕ) (x y : ℕ)
    → IsText ds
    → signed true (length ds) (ds ++ x ∷ y ∷ rest)
      ≡ done (length (b'-' ∷ backwards ds), stored (b'-' ∷ backwards ds) rest)
signed-negative ds rest x y t =
    rw
      (
        put-append ds (y ∷ rest) x b'-' (length ds) refl,
        sym (append_assoc ds (b'-' ∷ []) (y ∷ rest)),
        finished_lem (ds ++ b'-' ∷ []) rest y (length ds + 1)
            (IsText-append ds (b'-' ∷ []) t (omega arith, omega arith, tt))
            (omega (arith, length-append ds (b'-' ∷ []))),
        backwards-append ds b'-',
      )
      (ap (λ i. done (i, stored (b'-' ∷ backwards ds) rest)) (omega (arith, length-backwards ds)))

signed-positive :
    (ds rest : List ℕ) (x : ℕ)
    → IsText ds
    → signed false (length ds) (ds ++ x ∷ rest)
      ≡ done (length (backwards ds), stored (backwards ds) rest)
signed-positive ds rest x t =
    rw (finished_lem ds rest x (length ds) t refl, length-backwards ds) refl

pub length-stored : (cs rest : List ℕ) → length (stored cs rest) ≡ length cs + 1 + length rest
length-stored cs rest = omega (arith, length-append cs (0 ∷ rest))

pub decimal-negative :
    (n : ℕ) → is_negative n ≡ true → decimal n ≡ b'-' ∷ backwards (low_digits 10 (negate n))
unfolding decimal
decimal-negative n e = rw e refl

pub decimal-positive : (n : ℕ) → is_negative n ≡ false → decimal n ≡ backwards (low_digits 10 n)
unfolding decimal
decimal-positive n e = rw e refl

-- The two signs.
module _ (n : ℕ) (buf : List ℕ) (room : 12 ≤ length buf) where
  Stores : List ℕ → Type 0
  Stores text =
      (rest : List ℕ) × (itoa n buf ≡ done (length text, stored text rest))
      × (length (stored text rest) ≡ length buf)

  Stores-negative :
      is_negative n ≡ true
      → negate n < 2 ^ 31
      → Stores (b'-' ∷ backwards (low_digits 10 (negate n)))
  unfolding Stores
  Stores-negative negative small =
      let ds = low_digits 10 (negate n) in
      let (x, y, rest, ran, size) = loop_room (negate n) buf small room in
      let digits = IsDigits-IsText ds (low_digits-IsDigits 10 (negate n)) in
      (
        rest,
        itoa-signed n (length ds) buf (ds ++ x ∷ y ∷ rest) (rw negative ran)
            ∙ rw negative (signed-negative ds rest x y digits),
        omega (arith, length-stored (b'-' ∷ backwards ds) rest, length-backwards ds),
      )

  Stores-positive : is_negative n ≡ false → n < 2 ^ 31 → Stores (backwards (low_digits 10 n))
  unfolding Stores
  Stores-positive positive small =
      let ds = low_digits 10 n in
      let (x, y, rest, ran, size) = loop_room n buf small room in
      let digits = IsDigits-IsText ds (low_digits-IsDigits 10 n) in
      (
        y ∷ rest,
        itoa-signed n (length ds) buf (ds ++ x ∷ y ∷ rest) (rw positive ran)
            ∙ rw positive (signed-positive ds (y ∷ rest) x digits),
        omega (arith, length-stored (backwards ds) (y ∷ rest), length-backwards ds),
      )

-- `itoa` stores the decimal text of its number, and returns the length of it, in a buffer of twelve bytes.
pub itoa_lem :
    (n : ℕ) (buf : List ℕ)
    → n < 2 ^ 32
    → n ≢ 2 ^ 31
    → 12 ≤ length buf
    → (rest : List ℕ) × (itoa n buf ≡ done (length (decimal n), stored (decimal n) rest))
      × (length (stored (decimal n) rest) ≡ length buf)
unfolding Stores
itoa_lem n buf word not_least room = elim (Bool-cases (is_negative n)) [
  | inl e ↦ rw (decimal-negative n e) (Stores-negative n buf room e (ground arith))
  | inr e ↦ rw (decimal-positive n e) (Stores-positive n buf room e (ground arith))
]
