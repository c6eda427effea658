-- ===== src/Ps2/Keyboard/Typing.antt =====
-- The handler turns the bytes of a keyboard back into the characters that are typed.
use holyos.Base.{
  ℕ, ◌<◌, ◌≤◌, ◌≡◌, refl, ◌∙◌, ap, ap₂, List, [], ◌∷◌, ◌++◌, Bool, true, false, ◌&&◌, ◌||◌, ◌==◌,
  ltb, if◌then◌else◌, passes, passes-test, arith,
}
use holyos.Input.{KeyEvent}
use holyos.Ps2.Keyboard.Layout.{strokes}
use holyos.Ps2.Keyboard.{decode, shift_after}

-- `shift_pressed` and the events after a sequence of bytes, one interrupt for each.
abbrev pub decode_all : ℕ → List ℕ → ℕ × List KeyEvent
decode_all shift [] = (shift, [])
decode_all shift (b ∷ bs) =
    let (shift', e) = decode shift b in
    let (shift'', es) = decode_all shift' bs in (shift'', e ∷ es)

-- The characters of the events that have one.
abbrev pub characters : List KeyEvent → List ℕ
characters [] = []
characters (e ∷ es) = let cs = characters es in if e.ascii == 0 then cs else e.ascii ∷ cs

-- The bytes of typing a text.
pub strokes_all : List ℕ → List ℕ
strokes_all [] = []
strokes_all (c ∷ cs) = strokes c ++ strokes_all cs

abbrev pub Printable : List ℕ → Type 0
Printable [] = Unit {0}
Printable (c ∷ cs) = (32 ≤ c) × (c < 127) × Printable cs

abbrev is_one : ℕ → List ℕ → Bool
is_one c [] = false
is_one c (x ∷ []) = x == c
is_one c (x ∷ y ∷ xs) = false

types : ℕ → Bool
unfolding strokes decode
types c =
    ltb c 32
    || ((decode_all 0 (strokes c)).0 == 0 && is_one c (characters (decode_all 0 (strokes c)).1))

types_table : passes types 127 ≡ true
unfolding passes types
types_table = refl

is_one_sound : (c : ℕ) (cs : List ℕ) → is_one c cs ≡ true → cs ≡ c ∷ []
is_one_sound c [] h = ground arith
is_one_sound c (x ∷ []) h = ground arith
is_one_sound c (x ∷ y ∷ xs) h = ground arith

types_sound :
    (c : ℕ)
    → types c ≡ true
    → 32 ≤ c
    → ((decode_all 0 (strokes c)).0 ≡ 0) × (characters (decode_all 0 (strokes c)).1 ≡ c ∷ [])
unfolding types
types_sound c h low = ground (arith, is_one_sound c (characters (decode_all 0 (strokes c)).1))

strokes_lem :
    (c : ℕ)
    → 32 ≤ c
    → c < 127
    → ((decode_all 0 (strokes c)).0 ≡ 0) × (characters (decode_all 0 (strokes c)).1 ≡ c ∷ [])
strokes_lem c low high = types_sound c (passes-test types 127 c high types_table) low

decode_all-append :
    (shift : ℕ) (bs bs' : List ℕ)
    → (decode_all shift (bs ++ bs')).0 ≡ (decode_all (decode_all shift bs).0 bs').0
decode_all-append shift [] bs' = refl
decode_all-append shift (b ∷ bs) bs' = decode_all-append (decode shift b).0 bs bs'

characters-append :
    (shift : ℕ) (bs bs' : List ℕ)
    → characters (decode_all shift (bs ++ bs')).1
      ≡ characters (decode_all shift bs).1 ++ characters (decode_all (decode_all shift bs).0 bs').1
characters-append shift [] bs' = refl
characters-append shift (b ∷ bs) bs' = ground (arith, characters-append (decode shift b).0 bs bs')

-- Typing any printable text on a keyboard with the US layout, from a released shift key, makes the handler produce exactly the
-- characters of the text, in order, among events without a character, and leaves shift released.
pub decode-strokes_all :
    (text : List ℕ)
    → Printable text
    → ((decode_all 0 (strokes_all text)).0 ≡ 0)
      × (characters (decode_all 0 (strokes_all text)).1 ≡ text)
unfolding strokes_all
decode-strokes_all [] p = (refl, refl)
decode-strokes_all (c ∷ cs) p =
    let (released, one) = strokes_lem c p.0 p.1 in
    let (still, rest) = decode-strokes_all cs p.2 in
    (
      decode_all-append 0 (strokes c) (strokes_all cs)
          ∙ ap (λ s. (decode_all s (strokes_all cs)).0) released
          ∙ still,
      characters-append 0 (strokes c) (strokes_all cs)
          ∙ ap₂ (λ xs s. xs ++ characters (decode_all s (strokes_all cs)).1) one released
          ∙ ap (λ xs. c ∷ xs) rest,
    )

-- The codes of the shift keys.
abbrev pub is_shift_make : ℕ → Bool
is_shift_make b = b == 0x2a || b == 0x36

abbrev pub is_shift_break : ℕ → Bool
is_shift_break b = b == 0xaa || b == 0xb6

-- No byte of the sequence is a code of a shift key.
abbrev pub NoShift : List ℕ → Type 0
NoShift [] = Unit {0}
NoShift (b ∷ bs) = (is_shift_make b ≡ false) × (is_shift_break b ≡ false) × NoShift bs

decode-shift : (shift b : ℕ) → (decode shift b).0 ≡ shift_after shift b
unfolding decode
decode-shift shift b = refl

NoShift-keeps : (shift : ℕ) (bs : List ℕ) → NoShift bs → (decode_all shift bs).0 ≡ shift
NoShift-keeps shift [] h = refl
NoShift-keeps shift (b ∷ bs) h =
    NoShift-keeps (decode shift b).0 bs h.2
    ∙ decode-shift shift b
    ∙ unfold shift_after in ground arith

-- The handler's `shift_pressed` is that of the latest shift code: 1 after a make code, 0 after a break
-- code of either shift key, and what it was if there came none.
pub shift-latest :
    (shift : ℕ) (before after : List ℕ) (b : ℕ)
    → NoShift after
    → (is_shift_make b ≡ true → (decode_all shift (before ++ b ∷ after)).0 ≡ 1)
      × (is_shift_break b ≡ true → (decode_all shift (before ++ b ∷ after)).0 ≡ 0)
      × ((decode_all shift after).0 ≡ shift)
shift-latest shift before after b none_later = (
  λ make. at ∙ unfold shift_after in ground arith,
  λ break. at ∙ unfold shift_after in ground arith,
  NoShift-keeps shift after none_later,
)
  where
    at : (decode_all shift (before ++ b ∷ after)).0 ≡ shift_after (decode_all shift before).0 b
    at =
        decode_all-append shift before (b ∷ after)
        ∙ NoShift-keeps (decode (decode_all shift before).0 b).0 after none_later
        ∙ decode-shift (decode_all shift before).0 b
