-- ===== src/Chars/Classes.antt =====
-- How the classes of yamlprivateh.go relate, and what their values are.
use yaml.Base.{true, arith, ◌≡◌, ◌||◌, ◌<◌, ℕ, Bytes}
use yaml.Chars.{
  is_breakz, is_hex, is_break, as_hex, is_z, is_digit, is_spacez, as_digit, is_space, is_blankz,
  is_blank,
}

-- The three classes that the source writes out in full, for their speed, are unions: a break or NUL,
-- a space or one of these, a blank or one of these.
pub is_blankz-or :
    (b : Bytes) (i : ℕ)
    → (is_breakz b i ≡ (is_break b i || is_z b i))
      × (is_spacez b i ≡ (is_space b i || is_breakz b i))
      × (is_blankz b i ≡ (is_blank b i || is_breakz b i))
unfolding is_breakz is_break is_z is_spacez is_space is_blankz is_blank
is_blankz-or b i = (ground arith, ground arith, ground arith)

-- The value of a hexadecimal digit is below 16.
pub as_hex-lt : (b : Bytes) (i : ℕ) → is_hex b i ≡ true → as_hex b i < 16
unfolding is_hex as_hex
as_hex-lt b i h = ground arith

-- A decimal digit is a hexadecimal digit of the same value, which is below 10.
pub is_digit-as_hex :
    (b : Bytes) (i : ℕ)
    → is_digit b i ≡ true
    → (is_hex b i ≡ true) × (as_hex b i ≡ as_digit b i) × (as_digit b i < 10)
unfolding is_hex as_hex is_digit as_digit
is_digit-as_hex b i h = (ground arith, ground arith, ground arith)
