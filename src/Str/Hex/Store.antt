-- ===== src/Str/Hex/Store.antt =====
-- `itoh` on every word.
use holyos.Base.{
  ℕ, zero, suc, ◌+◌, ◌/◌, ◌^◌, ◌<◌, ◌≤◌, ◌≡◌, refl, ◌∙◌, ap, ap₂, List, [], ◌∷◌, ◌++◌, done, arith,
  length, drop,
}
use holyos.Str.{itoh, first_digit, hex_loop}
use holyos.Str.Compare.{IsText, stored, strlen_lem}
use holyos.Str.Decimal.Write.{drop-split, IsText-append, length-stored}
use holyos.Str.Decimal.{written_behind}
use holyos.Str.Reverse.{backwards, put-append, length-backwards}
use holyos.Str.Hex.{
  low_hex, hexadecimal, hex_to, fixed, fixed-eq, first_digit_lem, hex_loop_lem, length-fixed,
}

low_hex-IsText : (size n : ℕ) → IsText (low_hex size n)
unfolding low_hex
low_hex-IsText zero n = tt
low_hex-IsText (suc size) n = ground (arith, low_hex-IsText size (n / 16))

backwards-IsText : (cs : List ℕ) → IsText cs → IsText (backwards cs)
backwards-IsText [] t = tt
backwards-IsText (c ∷ cs) t =
    IsText-append (backwards cs) (c ∷ []) (backwards-IsText cs t.2) (t.0, t.1, tt)

length-low_hex : (size n : ℕ) → length (low_hex size n) ≤ size
unfolding low_hex
length-low_hex zero n = omega arith
length-low_hex (suc size) n = ground (arith, length-low_hex size (n / 16))

pub length-hexadecimal : (n : ℕ) → length (hexadecimal n) ≤ 8
unfolding hexadecimal
length-hexadecimal n = omega (arith, length-backwards (low_hex 8 n), length-low_hex 8 n)

pub hexadecimal-IsText : (n : ℕ) → IsText (hexadecimal n)
unfolding hexadecimal
hexadecimal-IsText n = backwards-IsText (low_hex 8 n) (low_hex-IsText 8 n)

behind_same :
    (b ds text : List ℕ) (x : ℕ) (rest : List ℕ)
    → ds ≡ text
    → drop (length ds) b ≡ x ∷ rest
    → written_behind [] b ds ≡ (length text, text ++ x ∷ rest)
behind_same b ds text x rest same behind =
    ap₂ (λ (i : ℕ) (t : List ℕ). (i, t)) (omega (arith, ap length same))
      (ap₂ (λ (s t : List ℕ). s ++ t) same behind)

-- The loop on a word writes the hexadecimal text, and leaves a byte behind it.
loop_room :
    (n : ℕ) (buf : List ℕ)
    → n < 2 ^ 32
    → 9 ≤ length buf
    → (x : ℕ) × (rest : List ℕ) × (hex_loop 9 n (first_digit 8 n 0x1000_0000) 0 buf
        ≡ done (length (hexadecimal n), hexadecimal n ++ x ∷ rest))
      × (length (hexadecimal n) + 1 + length rest ≡ length buf)
unfolding hex_to hexadecimal
loop_room n buf word room =
    let (place, at_most, e, first, below) = first_digit_lem 8 7 n (omega arith) (omega arith) in
    let text = fixed-eq place 7 n at_most first below in
    let (x, rest, e', size) =
      drop-split (length (fixed place n)) buf (omega (arith, length-fixed place n)) in
    let looped = hex_loop_lem place 9 n [] buf below (omega arith) (omega arith) in
    (
      x,
      rest,
      rw e (looped ∙ ap done (behind_same buf (fixed place n) (hexadecimal n) x rest text e')),
      omega (arith, ap length text),
    )

-- Of every word n, in a buffer of nine bytes or more, `itoh` stores the hexadecimal text of n with a NUL
-- behind and returns the length of the text; the buffer keeps its size. The hexadecimal text is the digits
-- of the quotients of n by the powers of 16, to the highest that is not 0, and `0` for 0.
pub itoh_lem :
    (n : ℕ) (buf : List ℕ)
    → n < 2 ^ 32
    → 9 ≤ length buf
    → (rest : List ℕ) × (itoh n buf ≡ done (length (hexadecimal n), stored (hexadecimal n) rest))
      × (length (stored (hexadecimal n) rest) ≡ length buf)
unfolding itoh
itoh_lem n buf word room =
    let (x, rest, looped, size) = loop_room n buf word room in
    (
      rest,
      rw
          (
            looped,
            put-append (hexadecimal n) rest x 0 (length (hexadecimal n)) refl,
            strlen_lem (hexadecimal n) rest (hexadecimal-IsText n),
          )
          refl,
      omega (arith, length-stored (hexadecimal n) rest),
    )
