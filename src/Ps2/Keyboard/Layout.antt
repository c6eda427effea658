-- ===== src/Ps2/Keyboard/Layout.antt =====
-- What a keyboard with the US layout sends in scan code set 1. This is what the hardware does, and does not use
-- the tables of drivers/input/ps2/keymap.c.
use holyos.Base.{ℕ, ◌+◌, List, [], ◌∷◌, Option, none, some, ◌==◌, if◌then◌else◌}

-- Neighbouring keys of a row: the make code of the first, and the characters on the keys, from left to right.
pub record Row : Type 0 where
  pub first : ℕ
  pub keys : List ℕ

-- The keys alone.
abbrev pub plain_rows : List Row
plain_rows =
    (record {
      first = 0x2;
      keys = b'1' ∷ b'2' ∷ b'3' ∷ b'4' ∷ b'5' ∷ b'6' ∷ b'7' ∷ b'8' ∷ b'9' ∷ b'0' ∷ b'-' ∷ b'=' ∷ [];
    })
    ∷ (record {
      first = 0x10;
      keys = b'q' ∷ b'w' ∷ b'e' ∷ b'r' ∷ b't' ∷ b'y' ∷ b'u' ∷ b'i' ∷ b'o' ∷ b'p' ∷ b'[' ∷ b']' ∷ [];
    })
    ∷ (record {
      first = 0x1e;
      keys = b'a' ∷ b's' ∷ b'd' ∷ b'f' ∷ b'g' ∷ b'h' ∷ b'j' ∷ b'k' ∷ b'l' ∷ b';' ∷ 39 ∷ b'`' ∷ [];
    })
    ∷ (record {
      first = 0x2b;
      keys = 92 ∷ b'z' ∷ b'x' ∷ b'c' ∷ b'v' ∷ b'b' ∷ b'n' ∷ b'm' ∷ b',' ∷ b'.' ∷ b'/' ∷ [];
    })
    ∷ (record { first = 0x39; keys = b' ' ∷ [] })
    ∷ []

-- The same keys with a shift key held.
abbrev pub shifted_rows : List Row
shifted_rows =
    (record {
      first = 0x2;
      keys = b'!' ∷ b'@' ∷ b'#' ∷ b'$' ∷ b'%' ∷ b'^' ∷ b'&' ∷ b'*' ∷ b'(' ∷ b')' ∷ b'_' ∷ b'+' ∷ [];
    })
    ∷ (record {
      first = 0x10;
      keys = b'Q' ∷ b'W' ∷ b'E' ∷ b'R' ∷ b'T' ∷ b'Y' ∷ b'U' ∷ b'I' ∷ b'O' ∷ b'P' ∷ b'{' ∷ b'}' ∷ [];
    })
    ∷ (record {
      first = 0x1e;
      keys = b'A' ∷ b'S' ∷ b'D' ∷ b'F' ∷ b'G' ∷ b'H' ∷ b'J' ∷ b'K' ∷ b'L' ∷ b':' ∷ 34 ∷ b'~' ∷ [];
    })
    ∷ (record {
      first = 0x2b;
      keys = b'|' ∷ b'Z' ∷ b'X' ∷ b'C' ∷ b'V' ∷ b'B' ∷ b'N' ∷ b'M' ∷ b'<' ∷ b'>' ∷ b'?' ∷ [];
    })
    ∷ (record { first = 0x39; keys = b' ' ∷ [] })
    ∷ []

abbrev pub position : ℕ → List ℕ → ℕ → Option ℕ
position c [] i = none
position c (x ∷ xs) i = let later = position c xs (i + 1) in if x == c then some i else later

abbrev pub or_later : Option ℕ → Option ℕ → Option ℕ
or_later none later = later
or_later (some k) later = some k

-- The make code of the key for a character.
abbrev pub make_code : ℕ → List Row → Option ℕ
make_code c [] = none
make_code c (r ∷ rs) = or_later (position c r.keys r.first) (make_code c rs)

-- The bytes of typing one character: make and break code of its key, between those of the left shift
-- key where the key alone has another character.
abbrev pub key_for : Option ℕ → Option ℕ → List ℕ
key_for (some k) other = k ∷ (k + 128) ∷ []
key_for none (some k) = 0x2a ∷ k ∷ (k + 128) ∷ 0xaa ∷ []
key_for none none = []

unfoldable pub strokes : ℕ → List ℕ
strokes c = key_for (make_code c plain_rows) (make_code c shifted_rows)
