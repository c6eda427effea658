-- ===== src/Print/Format.antt =====
-- `vsnprintf` prints what its format stands for, cut at the size of the buffer.
use holyos.Base.{
  ℕ, zero, suc, ◌+◌, ◌-◌, ◌^◌, ◌<◌, ◌≤◌, ◌≡◌, inl, inr, refl, sym, ◌∙◌, ap, ap₂, subst, List, [],
  ◌∷◌, ◌++◌, Bool-cases, false, done, ◌==◌, arith, length, take, drop, length-append, length-take,
  length-drop, ltb, u32,
}
use holyos.Str.{put}
use holyos.Str.Compare.{stored}
use holyos.Str.Reverse.{append_assoc, put-append}
use holyos.Str.Decimal.{written_behind}
use holyos.Str.Decimal.Write.{drop-split, length-stored}
use holyos.Print.{Arg, before_end, format_loop, vsnprintf, sprintf}
use holyos.Print.Steps.{loop_from, loop_piece, loop_full, loop_end}
use holyos.Print.Copies.{emitted, emitted-nil, emitted-full}
use holyos.Print.Pieces.{Piece, piece_format, piece_args, piece_text, IsProper}

-- A format, its arguments and the text it stands for.
unfoldable pub format_of : List Piece → List ℕ
unfolding piece_format
format_of [] = []
format_of (p ∷ ps) = piece_format p ++ format_of ps

unfoldable pub args_of : List Piece → List Arg
unfolding piece_args
args_of [] = []
args_of (p ∷ ps) = piece_args p ++ args_of ps

unfoldable pub text_of : List Piece → List ℕ
unfolding piece_text
text_of [] = []
text_of (p ∷ ps) = piece_text p ++ text_of ps

unfoldable pub AreProper : List Piece → Type 0
unfolding IsProper
AreProper [] = Unit {0}
AreProper (p ∷ ps) = IsProper p × AreProper ps

-- A format that ends with NUL is not empty.
starts_with : (fs rest : List ℕ) → (d : ℕ) × (g : List ℕ) × (fs ++ 0 ∷ rest ≡ d ∷ g)
starts_with [] rest = (0, rest, refl)
starts_with (f ∷ fs) rest = (f, fs ++ 0 ∷ rest, refl)

drop-nil : (n : ℕ) → drop {A = ℕ} n [] ≡ []
drop-nil zero = refl
drop-nil (suc n) = refl

drop-append : (w v b : List ℕ) → drop (length v) (drop (length w) b) ≡ drop (length (w ++ v)) b
drop-append [] v b = refl
drop-append (x ∷ w) v [] = drop-nil (length v)
drop-append (x ∷ w) v (y ∷ b) = drop-append w v b

written_behind-append :
    (out b w v : List ℕ)
    → written_behind (out ++ w) (drop (length w) b) v ≡ written_behind out b (w ++ v)
written_behind-append out b w v =
    ap₂ (λ (i : ℕ) (t : List ℕ). (i, t)) (omega (arith, length-append out w, length-append w v))
      (rw (drop-append w v b, append_assoc out w (v ++ drop (length (w ++ v)) b))
        (ap (λ t. out ++ t) (sym (append_assoc w v (drop (length (w ++ v)) b)))))

same_state :
    (out w b : List ℕ)
    → ◌≡◌ {A = ℕ × List ℕ}
        (length (out ++ w), (out ++ w) ++ b)
        (length out + length w, out ++ (w ++ b))
same_state out w b =
    ap₂ (λ (i : ℕ) (t : List ℕ). (i, t)) (length-append out w) (append_assoc out w b)

take-append :
    (n : ℕ) (xs ys : List ℕ) → take n (xs ++ ys) ≡ take n xs ++ take (n - length (take n xs)) ys
take-append zero xs ys = refl
take-append (suc n) [] ys = ap (λ k. take k ys) {x = suc n} (omega arith)
take-append (suc n) (x ∷ xs) ys =
    ap (λ t. x ∷ t) (take-append n xs ys ∙ ap (λ k. take n xs ++ take k ys) (omega arith))

emitted-append :
    (cap : ℕ) (out b xs ys : List ℕ)
    → let w = take (cap - length out) xs in
      emitted cap (out ++ w) (drop (length w) b) ys ≡ emitted cap out b (xs ++ ys)
emitted-append cap out b xs ys =
    let w = take (cap - length out) xs in
    written_behind-append out b w (take (cap - length (out ++ w)) ys)
    ∙ ap (written_behind out b) (
        ap (λ k. w ++ take k ys) (omega (arith, length-append out w))
        ∙ sym (take-append (cap - length out) xs ys))

module _ (base cap : ℕ) (scratch : List ℕ) (address : base + cap < 2 ^ 32)
    (locals : length scratch ≡ 32) where
  -- The rest of the loop, from the state after a piece.
  Emits : List Piece → List ℕ → Type 0
  Emits ps rest =
      (out b : List ℕ)
      → length out ≤ cap
      → cap < length out + length b
      → format_loop base (suc cap) scratch (format_of ps ++ 0 ∷ rest) (args_of ps) (length out)
          (out ++ b)
        ≡ done (emitted cap out b (text_of ps))

  after_piece :
      (p : Piece) (ps : List Piece) (rest out b : List ℕ)
      → IsProper p
      → Emits ps rest
      → length out < cap
      → cap < length out + length b
      → format_loop base
          (suc cap)
          scratch
          (format_of (p ∷ ps) ++ 0 ∷ rest)
          (args_of (p ∷ ps))
          (length out)
          (out ++ b)
        ≡ done (emitted cap out b (text_of (p ∷ ps)))
  unfolding Emits format_of args_of text_of
  after_piece p ps rest out b proper emits h buffer =
      let w = take (cap - length out) (piece_text p) in
      let (d, g, e) = starts_with (format_of ps) rest in
      let step =
        loop_piece base cap scratch address locals p d g (args_of ps) out b proper h buffer in
      let sizes = length-append out w in
      let later =
        emits (out ++ w) (drop (length w) b)
          (omega (arith, length-take (cap - length out) (piece_text p)))
          (omega
            (arith, length-take (cap - length out) (piece_text p), length-drop (length w) b)) in
      let step' =
        subst
          (λ (fs : List ℕ).
            format_loop base (suc cap) scratch (piece_format p ++ fs) (piece_args p ++ args_of ps)
              (length out) (out ++ b)
            ≡ loop_from base cap scratch address locals fs (args_of ps)
                (emitted cap out b (piece_text p)))
          (sym e) step in
      rw (append_assoc (piece_format p) (format_of ps) (0 ∷ rest)) step'
      ∙ ap (loop_from base cap scratch address locals (format_of ps ++ 0 ∷ rest) (args_of ps))
          (sym (same_state out w (drop (length w) b)))
      ∙ later
      ∙ ap done (emitted-append cap out b (piece_text p) (text_of ps))

  format_loop_lem : (ps : List Piece) (rest : List ℕ) → AreProper ps → Emits ps rest
  unfolding Emits AreProper format_of args_of text_of
  format_loop_lem [] rest proper out b fits buffer =
      loop_end base cap scratch address locals rest [] (length out) (out ++ b)
      ∙ ap done (sym (emitted-nil cap out b))
  format_loop_lem (p ∷ ps) rest proper out b fits buffer = elim (Bool-cases (length out == cap)) [
    | inl e ↦
        let (c, g, starts) = starts_with (format_of (p ∷ ps)) rest in
        loop_full base cap scratch address locals (format_of (p ∷ ps) ++ 0 ∷ rest) g c
          (args_of (p ∷ ps)) (length out) (out ++ b) starts (ground arith)
        ∙ ap done (sym (emitted-full cap out b (text_of (p ∷ ps)) (ground arith)))
    | inr e ↦
        after_piece p ps rest out b proper.0 (format_loop_lem ps rest proper.1) (ground arith)
          buffer
  ]

  vsnprintf-looped :
      (fmt : List ℕ) (args : List Arg) (buf text behind : List ℕ) (x i : ℕ)
      → format_loop base (suc cap) scratch fmt args 0 buf ≡ done (i, text ++ x ∷ behind)
      → i ≡ length text
      → vsnprintf base (suc cap) scratch fmt args buf ≡ done (i, stored text behind)
  unfolding vsnprintf
  vsnprintf-looped fmt args buf text behind x i e size =
      rw (e, put-append text behind x 0 i size) refl

whole_room : (cap : ℕ) (text : List ℕ) → take (cap - 0) text ≡ take cap text
whole_room cap text = ap (λ n. take n text) (omega arith)

from_start :
    (cap : ℕ) (b text behind : List ℕ)
    → drop (length (take cap text)) b ≡ behind
    → emitted cap [] b text ≡ (length (take cap text), take cap text ++ behind)
from_start cap b text behind e =
    ap₂ (λ (i : ℕ) (t : List ℕ). (i, t)) (omega (arith, ap length (whole_room cap text)))
      (ap₂ (λ (u t : List ℕ). u ++ t) (whole_room cap text) (rw (whole_room cap text) e))

-- Into a buffer of `cap + 1` bytes or more that ends in the address space, with 32 bytes on the stack for
-- numbers, `vsnprintf` of a format of proper pieces and their arguments stores the text that the pieces
-- stand for, cut at `cap` characters, with a NUL behind, and returns the length of what it stored. The
-- buffer keeps its size.
pub vsnprintf_lem :
    (base cap : ℕ) (scratch : List ℕ) (ps : List Piece) (rest buf : List ℕ)
    → base + cap < 2 ^ 32
    → length scratch ≡ 32
    → AreProper ps
    → cap < length buf
    → let printed = take cap (text_of ps) in
      (behind : List ℕ) × (vsnprintf base
          (suc cap)
          scratch
          (format_of ps ++ 0 ∷ rest)
          (args_of ps)
          buf
        ≡ done (length printed, stored printed behind))
      × (length (stored printed behind) ≡ length buf)
unfolding Emits
vsnprintf_lem base cap scratch ps rest buf address locals proper fits =
    let printed = take cap (text_of ps) in
    let (x, behind, e, size) =
      drop-split (length printed) buf (omega (arith, length-take cap (text_of ps))) in
    let looped =
      format_loop_lem base cap scratch address locals ps rest proper [] buf (omega arith)
        (omega arith) in
    (
      behind,
      vsnprintf-looped base cap scratch address locals (format_of ps ++ 0 ∷ rest) (args_of ps) buf
          printed behind x (length printed)
          (looped ∙ ap done (from_start cap buf (text_of ps) (x ∷ behind) e)) refl,
      omega (arith, length-stored printed behind),
    )

ends_before :
    (base : ℕ)
    → 2 ≤ base
    → base < 2 ^ 32
    → ltb (u32 (base + 0)) (u32 (base + (2 ^ 32 - 1) + 2 ^ 32 - 1)) ≡ false
ends_before base low word = ground arith

-- `sprintf` into a buffer at an address of at least 2 stores the empty string and returns 0, whatever its format
-- and arguments are: with the size `SIZE_MAX` the end of the buffer is before its start.
pub sprintf_lem :
    (base : ℕ) (scratch fmt : List ℕ) (args : List Arg) (c x : ℕ) (buf : List ℕ)
    → 2 ≤ base
    → base < 2 ^ 32
    → sprintf base scratch (c ∷ fmt) args (x ∷ buf) ≡ done (0, 0 ∷ buf)
unfolding sprintf vsnprintf format_loop before_end put
sprintf_lem base scratch [] args c x buf low word = rw (ends_before base low word) (ground arith)
sprintf_lem base scratch (d ∷ fmt) args c x buf low word =
    rw (ends_before base low word) (ground arith)
