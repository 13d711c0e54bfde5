-- ===== src/Reader/Octets.antt =====
-- The masks on an octet as comparisons: tables of 256 entries, checked by evaluation.
use yaml.Chars.{width}
use yaml.Base.{ℕ, zero, suc, ◌<◌, Bool, true, ◌&&◌, leb, ltb, ◌==◌, if◌then◌else◌, ◌≡◌, refl, arith}
use yaml.Reader.Decode.{is_trailing}

unfoldable pub agree_below : (f g : ℕ → ℕ) → ℕ → Bool
agree_below f g zero = true
agree_below f g (suc n) = f n == g n && agree_below f g n

pub agree_below→eq : (f g : ℕ → ℕ) (n : ℕ) → agree_below f g n ≡ true → (i : ℕ) → i < n → f i ≡ g i
unfolding agree_below
agree_below→eq f g zero e i h = absurd (omega arith)
agree_below→eq f g (suc n) e i h = ground (arith, agree_below→eq f g n (ground arith) i)

abbrev pub width_by_range : ℕ → ℕ
width_by_range b =
    if ltb b 128
    then 1
    else if ltb b 192
    then 0
    else if ltb b 224
    then 2
    else if ltb b 240
    then 3
    else if ltb b 248
    then 4
    else 0

pub width_lem : (b : ℕ) → b < 256 → width b ≡ width_by_range b
unfolding agree_below width
width_lem = agree_below→eq width width_by_range 256 refl

abbrev bit : Bool → ℕ
bit b = if b then 1 else 0

trailing_bit : (b : ℕ) → b < 256 → bit (is_trailing b) ≡ bit (leb 128 b && ltb b 192)
unfolding agree_below is_trailing
trailing_bit =
    agree_below→eq (λ b. bit (is_trailing b)) (λ b. bit (leb 128 b && ltb b 192)) 256 refl

pub is_trailing_lem : (b : ℕ) → b < 256 → is_trailing b ≡ (leb 128 b && ltb b 192)
is_trailing_lem b h = ground (arith, trailing_bit b h)
