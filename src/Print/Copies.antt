-- ===== src/Print/Copies.antt =====
-- The loops that copy a text write as much of it as there is room for.
use holyos.Base.{
  ℕ, zero, suc, ◌+◌, ◌-◌, ◌^◌, ◌<◌, ◌≤◌, ◌≡◌, inl, inr, refl, sym, ◌∙◌, ap, List, [], ◌∷◌, ◌++◌,
  Bool-cases, true, false, done, ◌==◌, ltb, arith, length, take,
}
use holyos.Str.{put}
use holyos.Str.Compare.{IsText, stored}
use holyos.Str.Reverse.{append_assoc, put-append}
use holyos.Str.Decimal.{written_behind, written_behind-digit, one_more}
use holyos.Print.{before_end, copy_number, copy_string}

-- The buffer from the address `base`, of which the characters before `cap` may be written, and the NUL there.
module _ (base cap : ℕ) (address : base + cap < 2 ^ 32) where
  pub before_end_lem : (str : ℕ) → str ≤ cap → before_end base (suc cap) str ≡ ltb str cap
  unfolding before_end
  before_end_lem str inside = ground (arith, address)

  pub full : (str : ℕ) → str ≡ cap → before_end base (suc cap) str ≡ false
  full str e = before_end_lem str (omega arith) ∙ ground arith

  pub room : (str : ℕ) → str < cap → before_end base (suc cap) str ≡ true
  room str h = before_end_lem str (omega arith) ∙ ground arith

  copied_string :
      (c : ℕ) (s buf buf' : List ℕ) (str : ℕ)
      → 0 < c
      → str < cap
      → put buf str c ≡ done buf'
      → copy_string base (suc cap) (c ∷ s) str buf ≡ copy_string base (suc cap) s (str + 1) buf'
  unfolding copy_string
  copied_string c s buf buf' str some_char h written = rw (room str h, written) (ground arith)

  copied_number :
      (len c : ℕ) (s buf buf' : List ℕ) (str : ℕ)
      → str < cap
      → put buf str c ≡ done buf'
      → copy_number base (suc cap) (suc len) (c ∷ s) str buf
        ≡ copy_number base (suc cap) len s (str + 1) buf'
  unfolding copy_number
  copied_number len c s buf buf' str h written = rw (room str h, written) refl

  string_ends :
      (s buf : List ℕ) (str : ℕ) → copy_string base (suc cap) (0 ∷ s) str buf ≡ done (str, buf)
  unfolding copy_string
  string_ends s buf str = refl

  string_full :
      (c : ℕ) (s buf : List ℕ) (str : ℕ)
      → str ≡ cap
      → copy_string base (suc cap) (c ∷ s) str buf ≡ done (str, buf)
  unfolding copy_string
  string_full c s buf str e = rw (full str e) (ground arith)

  number_ends :
      (s buf : List ℕ) (str : ℕ) → copy_number base (suc cap) 0 s str buf ≡ done (str, buf)
  unfolding copy_number
  number_ends s buf str = refl

  number_full :
      (len c : ℕ) (s buf : List ℕ) (str : ℕ)
      → str ≡ cap
      → copy_number base (suc cap) (suc len) (c ∷ s) str buf ≡ done (str, buf)
  unfolding copy_number
  number_full len c s buf str e = rw (full str e) refl

pub nothing_behind : (out b : List ℕ) → written_behind out b [] ≡ (length out, out ++ b)
nothing_behind out b = ap (λ (i : ℕ). (i, out ++ b)) (omega arith)

pub take-nil : (n : ℕ) → take {A = ℕ} n [] ≡ []
take-nil zero = refl
take-nil (suc n) = refl

pub take-none : (n : ℕ) (cs : List ℕ) → n ≡ 0 → take n cs ≡ []
take-none zero cs e = refl
take-none (suc n) cs e = absurd (omega arith)

next_room :
    (cap : ℕ) (out : List ℕ) (c : ℕ)
    → length out < cap
    → cap - length out ≡ suc (cap - length (out ++ c ∷ []))
next_room cap out c h = omega (arith, one_more out c)

-- What fits behind `out` of a text begins with its first character, and goes on behind that.
pub take-next :
    (cap : ℕ) (out cs : List ℕ) (c : ℕ)
    → length out < cap
    → take (cap - length out) (c ∷ cs) ≡ c ∷ take (cap - length (out ++ c ∷ [])) cs
take-next cap out cs c h = ap (λ n. take n (c ∷ cs)) (next_room cap out c h)

-- The state after as much of a text is written behind `out` as may be.
abbrev pub emitted : ℕ → List ℕ → List ℕ → List ℕ → ℕ × List ℕ
emitted cap out b cs = written_behind out b (take (cap - length out) cs)

pub emitted-nil : (cap : ℕ) (out b : List ℕ) → emitted cap out b [] ≡ (length out, out ++ b)
emitted-nil cap out b = rw (take-nil (cap - length out)) (nothing_behind out b)

pub emitted-full :
    (cap : ℕ) (out b cs : List ℕ) → length out ≡ cap → emitted cap out b cs ≡ (length out, out ++ b)
emitted-full cap out b cs e =
    rw (take-none (cap - length out) cs (omega arith)) (nothing_behind out b)

pub emitted-next :
    (cap : ℕ) (out b cs : List ℕ) (c x : ℕ)
    → length out < cap
    → emitted cap out (x ∷ b) (c ∷ cs) ≡ emitted cap (out ++ c ∷ []) b cs
emitted-next cap out b cs c x h =
    rw
      (
        take-next cap out cs c h,
        written_behind-digit out b (take (cap - length (out ++ c ∷ [])) cs) x c,
      )
      refl

module _ (base cap : ℕ) (address : base + cap < 2 ^ 32) where
  pub copy_string_lem :
      (cs rest out b : List ℕ)
      → IsText cs
      → length out ≤ cap
      → cap < length out + length b
      → copy_string base (suc cap) (stored cs rest) (length out) (out ++ b)
        ≡ done (emitted cap out b cs)
  copy_string_lem [] rest out b t fits buffer =
      string_ends base cap address rest (out ++ b) (length out)
      ∙ ap done (sym (emitted-nil cap out b))
  copy_string_lem (c ∷ cs) rest out [] t fits buffer = absurd (omega arith)
  copy_string_lem (c ∷ cs) rest out (x ∷ b) t fits buffer = elim (Bool-cases (length out == cap)) [
    | inl e ↦
        string_full base cap address c (stored cs rest) (out ++ x ∷ b) (length out) (ground arith)
        ∙ ap done (sym (emitted-full cap out (x ∷ b) (c ∷ cs) (ground arith)))
    | inr e ↦
        let sizes = one_more out c in
        let later = copy_string_lem cs rest (out ++ c ∷ []) b t.2 (ground arith) (omega arith) in
        rw
          (
            copied_string base cap address c (stored cs rest) (out ++ x ∷ b) (out ++ c ∷ b)
                (length out) t.0 (ground arith) (put-append out b x c (length out) refl),
            one_more out c,
            sym (append_assoc out (c ∷ []) b),
            later,
            emitted-next cap out b cs c x (ground arith),
          )
          refl
  ]

  pub copy_number_lem :
      (cs rest out b : List ℕ)
      → length out ≤ cap
      → cap < length out + length b
      → copy_number base (suc cap) (length cs) (cs ++ rest) (length out) (out ++ b)
        ≡ done (emitted cap out b cs)
  copy_number_lem [] rest out b fits buffer =
      number_ends base cap address rest (out ++ b) (length out)
      ∙ ap done (sym (emitted-nil cap out b))
  copy_number_lem (c ∷ cs) rest out [] fits buffer = absurd (omega arith)
  copy_number_lem (c ∷ cs) rest out (x ∷ b) fits buffer = elim (Bool-cases (length out == cap)) [
    | inl e ↦
        number_full base cap address (length cs) c (cs ++ rest) (out ++ x ∷ b) (length out)
          (ground arith)
        ∙ ap done (sym (emitted-full cap out (x ∷ b) (c ∷ cs) (ground arith)))
    | inr e ↦
        let sizes = one_more out c in
        let later = copy_number_lem cs rest (out ++ c ∷ []) b (ground arith) (omega arith) in
        rw
          (
            copied_number base cap address (length cs) c (cs ++ rest) (out ++ x ∷ b) (out ++ c ∷ b)
                (length out) (ground arith) (put-append out b x c (length out) refl),
            one_more out c,
            sym (append_assoc out (c ∷ []) b),
            later,
            emitted-next cap out b cs c x (ground arith),
          )
          refl
  ]
