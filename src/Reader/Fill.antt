-- ===== src/Reader/Fill.antt =====
-- The loop of `yaml_parser_update_buffer` over the raw buffer, and the byte order mark.
use yaml.Base.{
  ℕ, zero, suc, ◌+◌, Bool, true, false, ◌&&◌, ◌++◌, String, Option, some, Bytes, length, drop, leb,
  ◌==◌, if◌then◌else◌, is_empty,
}
use yaml.Types.{Encoding, utf8_encoding, utf16le_encoding, utf16be_encoding, any_encoding}
use yaml.Reader.Decode.{
  decode_utf8, encode_utf8, is_allowed, decode_utf16, Decoded, char, error, incomplete,
}
use yaml.Chars.{at}

-- The fields of `yaml_parser_t` that the reader works on. `raw` is what is not read of the raw buffer,
-- and `buffer` what is written of the working buffer.
pub record Reader : Type 0 where
  pub encoding : Encoding
  pub eof : Bool
  pub raw : Bytes
  pub offset : ℕ
  pub buffer : Bytes
  pub unread : ℕ

-- `yaml_parser_set_reader_error` takes the problem, the offset and the value.
pub data Filled : Type 0 where
  filled : Reader → Filled
  reader_error : String → ℕ → Option ℕ → Filled
  panic : Filled

-- `switch parser.encoding`
unfoldable pub decode_char : Encoding → Bool → Bytes → Decoded
unfolding decode_utf8 decode_utf16
decode_char any_encoding eof raw = Decoded.panic
decode_char utf8_encoding eof raw = decode_utf8 eof raw
decode_char utf16le_encoding eof raw = decode_utf16 0 1 eof raw
decode_char utf16be_encoding eof raw = decode_utf16 1 0 eof raw

-- `Move the raw pointers`, and the character into the buffer.
abbrev pub put_char : ℕ → ℕ → Reader → Reader
put_char v w r = record r {
  raw = drop w r.raw;
  offset = r.offset + w;
  buffer = r.buffer ++ encode_utf8 v;
  unread = r.unread + 1;
}

-- `for parser.raw_buffer_pos != len(parser.raw_buffer)`, with a round for each byte as fuel.
unfoldable pub fill : ℕ → Reader → Filled
fill zero r = if is_empty r.raw then filled r else panic
fill (suc n) r = elim (is_empty r.raw) [
  | true ↦ filled r
  | false ↦ elim (decode_char r.encoding r.eof r.raw) [
    | char v w ↦ elim (is_allowed v) [
      | true ↦ fill n (put_char v w r)
      | false ↦ reader_error "control characters are not allowed" r.offset (some v)
    ]
    | incomplete ↦ filled r
    | error problem k value ↦ reader_error problem (r.offset + k) value
    | Decoded.panic ↦ panic
  ]
]

-- `yaml_parser_determine_encoding` behind its loop: the raw buffer holds three bytes, or the end of
-- the input is reached.
unfoldable pub determine_encoding : Reader → Reader
determine_encoding r =
    if leb 2 (length r.raw) && at r.raw 0 == 0xff && at r.raw 1 == 0xfe
    then record r { encoding = utf16le_encoding; raw = drop 2 r.raw; offset = r.offset + 2 }
    else if leb 2 (length r.raw) && at r.raw 0 == 0xfe && at r.raw 1 == 0xff
    then record r { encoding = utf16be_encoding; raw = drop 2 r.raw; offset = r.offset + 2 }
    else if leb 3 (length r.raw) && at r.raw 0 == 0xef && at r.raw 1 == 0xbb && at r.raw 2 == 0xbf
    then record r { encoding = utf8_encoding; raw = drop 3 r.raw; offset = r.offset + 3 }
    else record r { encoding = utf8_encoding }
