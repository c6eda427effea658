-- ===== src/Str/Reverse.antt =====
-- `reverse` turns a string round in its buffer.
use holyos.Base.{
  ℕ, zero, suc, ◌+◌, ◌-◌, ◌<◌, ◌≤◌, ◌≡◌, refl, sym, ap, subst, List, [], ◌∷◌, ◌++◌, done, arith,
  length, get_or, set, length-append, ltb, true,
}
use holyos.Str.{reverse, reverse_loop, put, char_at}
use holyos.Str.Compare.{IsText, stored, strlen_lem}

-- The characters in the opposite order.
abbrev pub backwards : List ℕ → List ℕ
backwards [] = []
backwards (c ∷ cs) = backwards cs ++ c ∷ []

pub append_assoc : (xs ys zs : List ℕ) → (xs ++ ys) ++ zs ≡ xs ++ (ys ++ zs)
append_assoc [] ys zs = refl
append_assoc (x ∷ xs) ys zs = ap (λ t. x ∷ t) (append_assoc xs ys zs)

pub get_or-append : (xs ys : List ℕ) (x d : ℕ) → get_or (xs ++ x ∷ ys) (length xs) d ≡ x
get_or-append [] ys x d = refl
get_or-append (z ∷ xs) ys x d = get_or-append xs ys x d

pub set-append : (xs ys : List ℕ) (x y : ℕ) → set (xs ++ x ∷ ys) (length xs) y ≡ xs ++ y ∷ ys
set-append [] ys x y = refl
set-append (z ∷ xs) ys x y = ap (λ t. z ∷ t) (set-append xs ys x y)

pub put-append :
    (xs ys : List ℕ) (x y i : ℕ) → i ≡ length xs → put (xs ++ x ∷ ys) i y ≡ done (xs ++ y ∷ ys)
unfolding put
put-append xs ys x y i e = ground (arith, e, set-append xs ys x y, length-append xs (x ∷ ys))

pub char_at-append : (xs ys : List ℕ) (x i : ℕ) → i ≡ length xs → char_at (xs ++ x ∷ ys) i ≡ done x
unfolding char_at
char_at-append xs ys x i e = ground (arith, e, get_or-append xs ys x 0, length-append xs (x ∷ ys))

-- A string of at least one character by its last.
pub last_of : (x : ℕ) (xs : List ℕ) → (ys : List ℕ) × (y : ℕ) × (x ∷ xs ≡ ys ++ y ∷ [])
last_of x [] = ([], x, refl)
last_of x (z ∷ xs) = let (ys, y, e) = last_of z xs in (x ∷ ys, y, ap (λ t. x ∷ t) e)

pub backwards-append : (xs : List ℕ) (y : ℕ) → backwards (xs ++ y ∷ []) ≡ y ∷ backwards xs
backwards-append [] y = refl
backwards-append (x ∷ xs) y = ap (λ t. t ++ x ∷ []) (backwards-append xs y)

pub length-backwards : (xs : List ℕ) → length (backwards xs) ≡ length xs
length-backwards [] = refl
length-backwards (x ∷ xs) =
    omega (arith, length-backwards xs, length-append (backwards xs) (x ∷ []))

-- The string with its characters at two places, split at the second.
at_second : (a ys b : List ℕ) (c d : ℕ) → a ++ c ∷ (ys ++ d ∷ b) ≡ (a ++ c ∷ ys) ++ d ∷ b
at_second a ys b c d = sym (append_assoc a (c ∷ ys) (d ∷ b))

length-first : (a ys : List ℕ) (c : ℕ) → length (a ++ c ∷ ys) ≡ length a + length ys + 1
length-first a ys c = omega (arith, length-append a (c ∷ ys))

-- A round of the loop exchanges the outer characters.
module _ (a ys b : List ℕ) (c d i last : ℕ) (first_is : i ≡ length a)
    (last_is : last ≡ length a + length ys + 2) where
  read_second : char_at (a ++ c ∷ (ys ++ d ∷ b)) (last - 1) ≡ done d
  read_second = rw (
    at_second a ys b c d,
    char_at-append (a ++ c ∷ ys) b d (last - 1) (omega (arith, length-first a ys c)),
  )

  write_second : put (a ++ d ∷ (ys ++ d ∷ b)) (last - 1) c ≡ done (a ++ d ∷ (ys ++ c ∷ b))
  write_second = rw (
    at_second a ys b d d,
    put-append (a ++ d ∷ ys) b d c (last - 1) (omega (arith, length-first a ys d)),
    at_second a ys b d c,
  )

  below : ltb (i + 1) last ≡ true
  below = ground (arith, first_is, last_is)

  exchange :
      (fuel : ℕ)
      → reverse_loop (suc fuel) i last (a ++ c ∷ (ys ++ d ∷ b))
        ≡ reverse_loop fuel (i + 1) (last - 1) (a ++ d ∷ (ys ++ c ∷ b))
  unfolding reverse_loop
  exchange fuel = rw (
    below,
    char_at-append a (ys ++ d ∷ b) c i first_is,
    read_second,
    put-append a (ys ++ d ∷ b) c d i first_is,
    write_second,
  )

-- A loop whose characters still to be exchanged are at most one.
stops :
    (fuel : ℕ) (s : List ℕ) (i last : ℕ) → last ≤ i + 1 → reverse_loop (suc fuel) i last s ≡ done s
unfolding reverse_loop
stops fuel s i last ended = ground arith

turn :
    (fuel : ℕ) (a m b : List ℕ) (i last : ℕ)
    → length m < fuel
    → i ≡ length a
    → last ≡ length a + length m
    → reverse_loop fuel i last (a ++ (m ++ b)) ≡ done (a ++ (backwards m ++ b))
turn zero a m b i last enough first_is last_is = absurd (omega arith)
turn (suc fuel) a [] b i last enough first_is last_is = stops fuel (a ++ b) i last (omega arith)
turn (suc fuel) a (x ∷ []) b i last enough first_is last_is =
    stops fuel (a ++ x ∷ b) i last (omega arith)
turn (suc fuel) a (x ∷ z ∷ xs) b i last enough first_is last_is =
    let (ys, y, e) = last_of z xs in
    let sizes = length-append ys (y ∷ []) in
    let count = ap length e in
    let later =
      turn fuel (a ++ y ∷ []) ys (x ∷ b) (i + 1) (last - 1) (omega arith)
        (omega (arith, length-append a (y ∷ []))) (omega (arith, length-append a (y ∷ []))) in
    subst
      (λ (t : List ℕ).
        reverse_loop (suc fuel) i last (a ++ x ∷ (t ++ b))
        ≡ done (a ++ ((backwards t ++ x ∷ []) ++ b)))
      (sym e)
      (rw (
        backwards-append ys y,
        append_assoc ys (y ∷ []) b,
        exchange a ys b x y i last first_is (omega arith) fuel,
        sym (append_assoc a (y ∷ []) (ys ++ x ∷ b)),
        later,
        append_assoc a (y ∷ []) (backwards ys ++ x ∷ b),
        append_assoc (backwards ys) (x ∷ []) b,
      ))

-- The buffer then holds the characters of the string in the opposite order, and the rest unchanged.
pub reverse_lem :
    (cs rest : List ℕ) → IsText cs → reverse (stored cs rest) ≡ done (stored (backwards cs) rest)
unfolding reverse
reverse_lem cs rest t = rw (
  strlen_lem cs rest t,
  turn (length cs + 1) [] cs (0 ∷ rest) 0 (length cs) (omega arith) refl (omega arith),
)
