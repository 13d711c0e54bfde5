-- ===== src/Reader/Scalars.antt =====
-- The tests of yamlprivateh.go on the working buffer, which the reader fills: octets and characters.
use yaml.Base.{
  ◌++◌, Bool, true, not, arith, ◌≡◌, ◌||◌, ◌&&◌, ◌==◌, leb, ℕ, Bytes, length, ◌∙◌, ◌+◌, ◌/◌,
}
use yaml.Reader.Decode.{encode_utf8, is_allowed}
use yaml.Reader.Utf8.{
  Length, one, two, three, four, encode_1, encode_2, encode_3, encode_4, allowed-Length,
}
use yaml.Chars.{is_break, width, is_printable, at}
use yaml.Reader.Octets.{width_lem}

-- The line breaks of YAML 1.1.
abbrev pub is_line_break : ℕ → Bool
is_line_break v = v == 0x0D || v == 0x0A || v == 0x85 || v == 0x2028 || v == 0x2029

-- The characters that the emitter may write unescaped.
abbrev pub is_plain_character : ℕ → Bool
is_plain_character v =
    v == 0x0A || (leb 0x20 v && leb v 0x7E) || (leb 0xA0 v && leb v 0xFFFF && not (v == 0xFEFF))

width_from :
    (v : ℕ) (rest : Bytes)
    → Length v
    → width (at (encode_utf8 v ++ rest) 0) ≡ length (encode_utf8 v)
width_from v rest (one a) = rw (encode_1 v a) (width_lem v (omega arith) ∙ ground arith)
width_from v rest (two a b) =
    rw (encode_2 v a b) (width_lem (192 + v / 64) (omega arith) ∙ ground arith)
width_from v rest (three a b c) =
    rw (encode_3 v a b) (width_lem (224 + v / 4096) (omega arith) ∙ ground arith)
width_from v rest (four a b) =
    rw (encode_4 v a b) (width_lem (240 + v / 262144) (omega arith) ∙ ground arith)

is_break_from :
    (v : ℕ) (rest : Bytes) → Length v → is_break (encode_utf8 v ++ rest) 0 ≡ is_line_break v
unfolding is_break
is_break_from v rest (one a) = rw (encode_1 v a) (ground arith)
is_break_from v rest (two a b) = rw (encode_2 v a b) (ground arith)
is_break_from v rest (three a b c) = rw (encode_3 v a b) (ground arith)
is_break_from v rest (four a b) = rw (encode_4 v a b) (ground arith)

is_printable_from :
    (v : ℕ) (rest : Bytes)
    → is_allowed v ≡ true
    → Length v
    → is_printable (encode_utf8 v ++ rest) 0 ≡ is_plain_character v
unfolding is_printable is_allowed
is_printable_from v rest h (one a) = rw (encode_1 v a) (ground arith)
is_printable_from v rest h (two a b) = rw (encode_2 v a b) (ground arith)
is_printable_from v rest h (three a b c) = rw (encode_3 v a b) (ground arith)
is_printable_from v rest h (four a b) = rw (encode_4 v a b) (ground arith)

-- In a UTF-8 buffer at an allowed character, the width by the leading octet is the length of the
-- character's sequence.
pub width-encode_utf8 :
    (v : ℕ) (rest : Bytes)
    → is_allowed v ≡ true
    → width (at (encode_utf8 v ++ rest) 0) ≡ length (encode_utf8 v)
width-encode_utf8 v rest h = width_from v rest (allowed-Length v h)

-- The test on octets for a line break, at an allowed character, is that for CR, LF, NEL, LS or PS.
pub is_break-encode_utf8 :
    (v : ℕ) (rest : Bytes)
    → is_allowed v ≡ true
    → is_break (encode_utf8 v ++ rest) 0 ≡ is_line_break v
is_break-encode_utf8 v rest h = is_break_from v rest (allowed-Length v h)

-- The test on octets for a printable character, at an allowed character, holds for LF, for U+0020 to
-- U+007E and for U+00A0 to U+FFFF, the byte order mark excluded, and for no other.
pub is_printable-encode_utf8 :
    (v : ℕ) (rest : Bytes)
    → is_allowed v ≡ true
    → is_printable (encode_utf8 v ++ rest) 0 ≡ is_plain_character v
is_printable-encode_utf8 v rest h = is_printable_from v rest h (allowed-Length v h)
