-- ===== src/Chars/Tests.antt =====
-- The witnesses of the character classes.
use yaml.Base.{true, refl, ◌≡◌, ◌||◌, ◌<◌, codes}
use yaml.Chars.Classes.{is_blankz-or, as_hex-lt, is_digit-as_hex}
use yaml.Chars.{
  is_breakz, is_hex, is_digit, is_break, as_hex, is_z, as_digit, is_spacez, is_space, is_blankz,
  is_blank,
}

is_blankz-or_example :
    (is_breakz (codes "a\t") 1 ≡ (is_break (codes "a\t") 1 || is_z (codes "a\t") 1))
    × (is_spacez (codes "a\t") 1 ≡ (is_space (codes "a\t") 1 || is_breakz (codes "a\t") 1))
    × (is_blankz (codes "a\t") 1 ≡ (is_blank (codes "a\t") 1 || is_breakz (codes "a\t") 1))
is_blankz-or_example = is_blankz-or (codes "a\t") 1

as_hex-lt_example : as_hex (codes "xF") 1 < 16
unfolding is_hex
as_hex-lt_example = as_hex-lt (codes "xF") 1 refl

is_digit-as_hex_example :
    (is_hex (codes "7") 0 ≡ true)
    × (as_hex (codes "7") 0 ≡ as_digit (codes "7") 0)
    × (as_digit (codes "7") 0 < 10)
unfolding is_digit
is_digit-as_hex_example = is_digit-as_hex (codes "7") 0 refl
