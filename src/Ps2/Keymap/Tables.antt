-- ===== src/Ps2/Keymap/Tables.antt =====
-- What the two tables have in common.
use holyos.Base.{
  ℕ, ◌+◌, ◌<◌, ◌≤◌, ◌≡◌, refl, Bool, true, ◌&&◌, leb, ltb, ◌==◌, ◌!=◌, if◌then◌else◌, passes,
  passes-test, arith,
}
use holyos.Ps2.Keymap.{keymap_to_ascii}

abbrev is_lower : ℕ → Bool
is_lower c = leb b'a' c && leb c b'z'

-- The checks of the two characters of one key.
agree : ℕ → ℕ → Bool
agree plain shifted =
    ltb plain 127
    && ltb shifted 127
    && (if plain == 0 then shifted == 0 else shifted != 0)
    && (if is_lower plain then shifted + 32 == plain else true)

agree_table : passes (λ code. agree (keymap_to_ascii code 0) (keymap_to_ascii code 1)) 256 ≡ true
unfolding passes agree keymap_to_ascii
agree_table = refl

agree_sound :
    (plain shifted : ℕ)
    → agree plain shifted ≡ true
    → (plain < 127)
      × (shifted < 127)
      × (plain ≡ 0 → shifted ≡ 0)
      × (shifted ≡ 0 → plain ≡ 0)
      × (b'a' ≤ plain → plain ≤ b'z' → shifted + 32 ≡ plain)
unfolding agree
agree_sound plain shifted h = ground arith

-- For every byte, both tables give ASCII, they name the same keys, and shift makes a lower-case
-- letter its capital.
pub keymap_agree :
    (code : ℕ)
    → code < 256
    → (keymap_to_ascii code 0 < 127)
      × (keymap_to_ascii code 1 < 127)
      × (keymap_to_ascii code 0 ≡ 0 → keymap_to_ascii code 1 ≡ 0)
      × (keymap_to_ascii code 1 ≡ 0 → keymap_to_ascii code 0 ≡ 0)
      × (b'a' ≤ keymap_to_ascii code 0
          → keymap_to_ascii code 0 ≤ b'z'
          → keymap_to_ascii code 1 + 32 ≡ keymap_to_ascii code 0)
keymap_agree code h =
    agree_sound (keymap_to_ascii code 0) (keymap_to_ascii code 1)
      (passes-test (λ c. agree (keymap_to_ascii c 0) (keymap_to_ascii c 1)) 256 code h agree_table)
