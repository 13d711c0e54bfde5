-- ===== src/Chars.antt =====
-- The character classes of yamlprivateh.go. A test at index `i` of a slice is a test on the bytes from
-- `i` on; what lies behind the end reads as NUL, which the buffers of the scanner end in.
pub mod Classes
mod Tests
use Prim.Native.Nat.{bit_and}
use yaml.Base.{
  ℕ, ◌+◌, ◌-◌, zero, suc, Bool, not, ◌&&◌, ◌||◌, [], ◌∷◌, Bytes, leb, ltb, ◌==◌, if◌then◌else◌,
}

abbrev pub at : Bytes → ℕ → ℕ
at [] i = 0
at (x ∷ xs) zero = x
at (x ∷ xs) (suc i) = at xs i

abbrev is_in_range : ℕ → ℕ → ℕ → Bool
is_in_range low high octet = leb low octet && leb octet high

unfoldable pub is_alpha : Bytes → ℕ → Bool
is_alpha b i =
    is_in_range b'0' b'9' (at b i)
    || is_in_range b'A' b'Z' (at b i)
    || is_in_range b'a' b'z' (at b i)
    || at b i == b'_'
    || at b i == b'-'

unfoldable pub is_digit : Bytes → ℕ → Bool
is_digit b i = is_in_range b'0' b'9' (at b i)

-- Called behind `is_digit` only; below `0` the source goes negative, and this stops at 0.
unfoldable pub as_digit : Bytes → ℕ → ℕ
as_digit b i = at b i - b'0'

unfoldable pub is_hex : Bytes → ℕ → Bool
is_hex b i =
    is_in_range b'0' b'9' (at b i)
    || is_in_range b'A' b'F' (at b i)
    || is_in_range b'a' b'f' (at b i)

unfoldable pub as_hex : Bytes → ℕ → ℕ
as_hex b i =
    if is_in_range b'A' b'F' (at b i)
    then at b i - b'A' + 10
    else if is_in_range b'a' b'f' (at b i)
    then at b i - b'a' + 10
    else at b i - b'0'

unfoldable pub is_ascii : Bytes → ℕ → Bool
is_ascii b i = leb (at b i) 0x7F

unfoldable pub is_printable : Bytes → ℕ → Bool
is_printable b i =
    at b i == 0x0A
    || is_in_range 0x20 0x7E (at b i)
    || (at b i == 0xC2 && leb 0xA0 (at b (i + 1)))
    || (ltb 0xC2 (at b i) && ltb (at b i) 0xED)
    || (at b i == 0xED && ltb (at b (i + 1)) 0xA0)
    || at b i == 0xEE
    || (at b i == 0xEF
        && not (at b (i + 1) == 0xBB && at b (i + 2) == 0xBF)
        && not (at b (i + 1) == 0xBF && (at b (i + 2) == 0xBE || at b (i + 2) == 0xBF)))

unfoldable pub is_z : Bytes → ℕ → Bool
is_z b i = at b i == 0

-- The index is not used: the test is at the start of the slice.
unfoldable pub is_bom : Bytes → ℕ → Bool
is_bom b i = at b 0 == 0xEF && at b 1 == 0xBB && at b 2 == 0xBF

unfoldable pub is_space : Bytes → ℕ → Bool
is_space b i = at b i == b' '

unfoldable pub is_tab : Bytes → ℕ → Bool
is_tab b i = at b i == b'\t'

unfoldable pub is_blank : Bytes → ℕ → Bool
is_blank b i = at b i == b' ' || at b i == b'\t'

unfoldable pub is_break : Bytes → ℕ → Bool
is_break b i =
    at b i == b'\r'
    || at b i == b'\n'
    || (at b i == 0xC2 && at b (i + 1) == 0x85)
    || (at b i == 0xE2 && at b (i + 1) == 0x80 && at b (i + 2) == 0xA8)
    || (at b i == 0xE2 && at b (i + 1) == 0x80 && at b (i + 2) == 0xA9)

unfoldable pub is_crlf : Bytes → ℕ → Bool
is_crlf b i = at b i == b'\r' && at b (i + 1) == b'\n'

unfoldable pub is_breakz : Bytes → ℕ → Bool
is_breakz b i =
    at b i == b'\r'
    || at b i == b'\n'
    || (at b i == 0xC2 && at b (i + 1) == 0x85)
    || (at b i == 0xE2 && at b (i + 1) == 0x80 && at b (i + 2) == 0xA8)
    || (at b i == 0xE2 && at b (i + 1) == 0x80 && at b (i + 2) == 0xA9)
    || at b i == 0

unfoldable pub is_spacez : Bytes → ℕ → Bool
is_spacez b i =
    at b i == b' '
    || at b i == b'\r'
    || at b i == b'\n'
    || (at b i == 0xC2 && at b (i + 1) == 0x85)
    || (at b i == 0xE2 && at b (i + 1) == 0x80 && at b (i + 2) == 0xA8)
    || (at b i == 0xE2 && at b (i + 1) == 0x80 && at b (i + 2) == 0xA9)
    || at b i == 0

unfoldable pub is_blankz : Bytes → ℕ → Bool
is_blankz b i =
    at b i == b' '
    || at b i == b'\t'
    || at b i == b'\r'
    || at b i == b'\n'
    || (at b i == 0xC2 && at b (i + 1) == 0x85)
    || (at b i == 0xE2 && at b (i + 1) == 0x80 && at b (i + 2) == 0xA8)
    || (at b i == 0xE2 && at b (i + 1) == 0x80 && at b (i + 2) == 0xA9)
    || at b i == 0

-- The width of a character, by its leading octet; 0 if it is none.
unfoldable pub width : ℕ → ℕ
width b =
    if bit_and b 0x80 == 0x00
    then 1
    else if bit_and b 0xE0 == 0xC0
    then 2
    else if bit_and b 0xF0 == 0xE0
    then 3
    else if bit_and b 0xF8 == 0xF0
    then 4
    else 0
