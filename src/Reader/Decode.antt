-- ===== src/Reader/Decode.antt =====
-- The body of the loop of `yaml_parser_update_buffer`: one character from the raw buffer, checked, and
-- written to the buffer as UTF-8.
use Prim.Native.Nat.{bit_and}
use yaml.Chars.{width, at}
use yaml.Base.{
  ◌-◌, ℕ, zero, suc, ◌+◌, ◌*◌, ◌/◌, ◌%◌, ◌^◌, Bool, not, ◌&&◌, ◌||◌, [], ◌∷◌, String, Option, none,
  some, Bytes, length, leb, ltb, ◌==◌, if◌then◌else◌,
}

-- One character and its width; an incomplete one at the end of the raw buffer; the arguments of
-- `yaml_parser_set_reader_error`, the offset counted from the character, `none` for the value -1.
pub data Decoded : Type 0 where
  char : ℕ → ℕ → Decoded
  incomplete : Decoded
  error : String → ℕ → Option ℕ → Decoded
  panic : Decoded

-- `x & (2^k - 1)`
abbrev pub low_bits : ℕ → ℕ → ℕ
low_bits x k = x % 2 ^ k

-- The value of the leading octet of a sequence of `w`.
unfoldable pub leading_value : ℕ → ℕ → ℕ
leading_value w octet =
    if w == 1
    then low_bits octet 7
    else if w == 2
    then low_bits octet 5
    else if w == 3
    then low_bits octet 4
    else low_bits octet 3

-- The check of the length of the sequence against the value, and that of the range.
unfoldable pub check_sequence : ℕ → ℕ → Decoded
check_sequence w value =
    if w == 1
      || (w == 2 && leb 0x80 value)
      || (w == 3 && leb 0x800 value)
      || (w == 4 && leb 0x10000 value)
    then if (leb 0xD800 value && leb value 0xDFFF) || ltb 0x10FFFF value
      then error "invalid Unicode character" 0 (some value)
      else char value w
    else error "invalid length of a UTF-8 sequence" 0 none

unfoldable pub is_trailing : ℕ → Bool
is_trailing octet = bit_and octet 0xC0 == 0x80

-- `for k := 1; k < width; k++`: the rounds left, the index, the value so far and the octets.
unfoldable pub trailing_octets : ℕ → ℕ → ℕ → Bytes → ℕ → Decoded
trailing_octets zero k value raw w = check_sequence w value
trailing_octets (suc n) k value [] w = panic
trailing_octets (suc n) k value (octet ∷ raw) w =
    if not (is_trailing octet)
    then error "invalid trailing UTF-8 octet" k (some octet)
    else trailing_octets n (k + 1) (value * 2 ^ 6 + low_bits octet 6) raw w

unfoldable pub decode_utf8 : Bool → Bytes → Decoded
unfolding trailing_octets check_sequence leading_value is_trailing
decode_utf8 eof [] = panic
decode_utf8 eof (octet ∷ raw) =
    let w = width octet in
    if w == 0
    then error "invalid leading UTF-8 octet" 0 (some octet)
    else if ltb (suc (length raw)) w
    then (if eof then error "incomplete UTF-8 octet sequence" 0 none else incomplete)
    else trailing_octets (w - 1) 1 (leading_value w octet) raw w

-- The UTF-16 case; `low` and `high` are the places of the two bytes of a unit.
unfoldable pub decode_utf16 : ℕ → ℕ → Bool → Bytes → Decoded
decode_utf16 low high eof raw =
    if ltb (length raw) 2
    then (if eof then error "incomplete UTF-16 character" 0 none else incomplete)
    else let value = at raw low + at raw high * 2 ^ 8 in
      let value2 = at raw (low + 2) + at raw (high + 2) * 2 ^ 8 in
      (if bit_and value 0xFC00 == 0xDC00
        then error "unexpected low surrogate area" 0 (some value)
        else if bit_and value 0xFC00 == 0xD800
        then if ltb (length raw) 4
          then (if eof then error "incomplete UTF-16 surrogate pair" 0 none else incomplete)
          else if not (bit_and value2 0xFC00 == 0xDC00)
          then error "expected low surrogate area" 2 (some value2)
          else char (0x10000 + low_bits value 10 * 2 ^ 10 + low_bits value2 10) 4
        else char value 2)

-- The range of the characters that are allowed.
unfoldable pub is_allowed : ℕ → Bool
is_allowed value =
    value == 0x09
    || value == 0x0A
    || value == 0x0D
    || (leb 0x20 value && leb value 0x7E)
    || value == 0x85
    || (leb 0xA0 value && leb value 0xD7FF)
    || (leb 0xE000 value && leb value 0xFFFD)
    || (leb 0x10000 value && leb value 0x10FFFF)

abbrev byte : ℕ → ℕ
byte x = x % 2 ^ 8

-- What is put into the buffer.
unfoldable pub encode_utf8 : ℕ → Bytes
encode_utf8 value =
    if leb value 0x7F
    then byte value ∷ []
    else if leb value 0x7FF
    then byte (0xC0 + value / 2 ^ 6) ∷ byte (0x80 + low_bits value 6) ∷ []
    else if leb value 0xFFFF
    then byte (0xE0 + value / 2 ^ 12)
      ∷ byte (0x80 + low_bits (value / 2 ^ 6) 6)
      ∷ byte (0x80 + low_bits value 6)
      ∷ []
    else byte (0xF0 + value / 2 ^ 18)
      ∷ byte (0x80 + low_bits (value / 2 ^ 12) 6)
      ∷ byte (0x80 + low_bits (value / 2 ^ 6) 6)
      ∷ byte (0x80 + low_bits value 6)
      ∷ []
