-- ===== src/Reader/Tests.antt =====
-- The reader on small buffers, and the witnesses of its round trips.
use yaml.Base.{ℕ, true, List, [], ◌∷◌, none, Bytes, codes, refl, arith, ◌≡◌, ◌++◌, length, ◌*◌}
use yaml.Reader.Decode.{decode_utf8, is_allowed, encode_utf8, char, error, decode_utf16}
use yaml.Chars.{width, at, is_break, is_printable}
use yaml.Reader.Fill.{Reader, fill, filled, determine_encoding}
use yaml.Reader.Canonical.{encode-decode}
use yaml.Types.{utf16le_encoding, any_encoding, utf8_encoding}
use yaml.Reader.Utf16.{unit_bytes, utf16_units, decode-utf16_units}
use yaml.Reader.Text.{text, having_read, fill-text}
use yaml.Reader.Utf8.{decode-encode}
use yaml.Reader.Scalars.{
  width-encode_utf8, is_line_break, is_plain_character, is_break-encode_utf8,
  is_printable-encode_utf8,
}
use yaml.Reader.Start.{byte_order_mark, past_mark, fill-unmarked, fill-byte_order_mark}

-- U+20AC, in UTF-8.
abbrev euro : Bytes
euro = 0xE2 ∷ 0x82 ∷ 0xAC ∷ []

euro_is_read : decode_utf8 true euro ≡ char 0x20AC 3
unfolding decode_utf8 width
euro_is_read = refl

-- An overlong slash.
overlong_slash :
    decode_utf8 true (0xC0 ∷ 0xAF ∷ []) ≡ error "invalid length of a UTF-8 sequence" 0 none
unfolding decode_utf8 width
overlong_slash = refl

decode-encode_example :
    decode_utf8 true (encode_utf8 0x20AC ++ codes "x") ≡ char 0x20AC (length (encode_utf8 0x20AC))
unfolding is_allowed
decode-encode_example = decode-encode 0x20AC true (codes "x") refl

encode-decode_example : encode_utf8 0x20AC ≡ euro
encode-decode_example =
    encode-decode true euro 0x20AC 3 (omega arith, (omega arith, (omega arith, tt))) euro_is_read

decode-utf16_units_example :
    decode_utf16 1 0 true (unit_bytes true (utf16_units 0x1F600) ++ [])
    ≡ char 0x1F600 (2 * length (utf16_units 0x1F600))
unfolding is_allowed
decode-utf16_units_example = decode-utf16_units true true 0x1F600 [] refl

abbrev characters : List ℕ
characters = 0x61 ∷ 0x20AC ∷ 0x1F600 ∷ []

abbrev reader : Reader
reader = record {
  encoding = utf16le_encoding;
  eof = true;
  raw = text utf16le_encoding characters;
  offset = 2;
  buffer = [];
  unread = 0;
}

fill-text_example : fill 3 reader ≡ filled (having_read characters reader)
unfolding is_allowed
fill-text_example = fill-text 3 characters reader tt (refl, (refl, (refl, tt))) refl (omega arith)

width-encode_utf8_example :
    width (at (encode_utf8 0x20AC ++ codes "x") 0) ≡ length (encode_utf8 0x20AC)
unfolding is_allowed
width-encode_utf8_example = width-encode_utf8 0x20AC (codes "x") refl

is_break-encode_utf8_example : is_break (encode_utf8 0x2028 ++ []) 0 ≡ is_line_break 0x2028
unfolding is_allowed
is_break-encode_utf8_example = is_break-encode_utf8 0x2028 [] refl

is_printable-encode_utf8_example :
    is_printable (encode_utf8 0xFEFF ++ []) 0 ≡ is_plain_character 0xFEFF
unfolding is_allowed
is_printable-encode_utf8_example = is_printable-encode_utf8 0xFEFF [] refl

abbrev marked_reader : Reader
marked_reader = record reader {
  encoding = any_encoding;
  raw = byte_order_mark utf16le_encoding ++ text utf16le_encoding characters;
  offset = 0;
}

fill-byte_order_mark_example :
    fill 3 (determine_encoding marked_reader)
    ≡ filled (
        having_read characters
          (past_mark utf16le_encoding (text utf16le_encoding characters) marked_reader))
unfolding is_allowed
fill-byte_order_mark_example =
    fill-byte_order_mark 3 utf16le_encoding characters marked_reader tt (refl, (refl, (refl, tt)))
      refl (omega arith)

abbrev unmarked_reader : Reader
unmarked_reader = record marked_reader { raw = text utf8_encoding characters }

fill-unmarked_example :
    fill 3 (determine_encoding unmarked_reader)
    ≡ filled (having_read characters (record unmarked_reader { encoding = utf8_encoding }))
unfolding is_allowed
fill-unmarked_example =
    fill-unmarked 3 0x61 (0x20AC ∷ 0x1F600 ∷ []) unmarked_reader (refl, (refl, (refl, tt)))
      (omega arith) refl (omega arith)
