-- ===== src/Reader/Start.antt =====
-- The byte order mark: how a whole input is read, from the encoding that it begins with.
use yaml.Base.{
  List, [], ◌∷◌, ◌++◌, refl, arith, ◌≡◌, ◌+◌, ◌≤◌, ℕ, not, ◌&&◌, ◌||◌, ◌==◌, ◌≢◌, Bytes, length,
  ◌∙◌, ap, Bool, true,
}
use yaml.Reader.Utf8.{
  Length, one, two, three, four, allowed-Length, encode_1, encode_2, encode_3, encode_4,
}
use yaml.Types.{Encoding, utf8_encoding, utf16le_encoding, utf16be_encoding, any_encoding}
use yaml.Reader.Fill.{determine_encoding, Reader, fill, filled}
use yaml.Reader.Text.{text, having_read, IsDetermined, AreAllowed, fill-text}
use yaml.Reader.Decode.{encode_utf8}
use yaml.Chars.{at}

-- U+FEFF in each encoding.
abbrev pub byte_order_mark : Encoding → Bytes
byte_order_mark any_encoding = []
byte_order_mark utf8_encoding = 0xEF ∷ 0xBB ∷ 0xBF ∷ []
byte_order_mark utf16le_encoding = 0xFF ∷ 0xFE ∷ []
byte_order_mark utf16be_encoding = 0xFE ∷ 0xFF ∷ []

-- The reader behind the mark.
abbrev pub past_mark : Encoding → Bytes → Reader → Reader
past_mark e rest r = record r {
  encoding = e;
  raw = rest;
  offset = r.offset + length (byte_order_mark e);
}

-- Whether no mark of the three stands at the start.
unfoldable is_unmarked : Bytes → Bool
is_unmarked raw = not (
    (at raw 0 == 0xFF && at raw 1 == 0xFE)
    || (at raw 0 == 0xFE && at raw 1 == 0xFF)
    || (at raw 0 == 0xEF && at raw 1 == 0xBB && at raw 2 == 0xBF))

determine-byte_order_mark :
    (e : Encoding) (rest : Bytes) (r : Reader)
    → IsDetermined e
    → r.raw ≡ byte_order_mark e ++ rest
    → determine_encoding r ≡ past_mark e rest r
unfolding determine_encoding
determine-byte_order_mark any_encoding rest r d h = absurd d
determine-byte_order_mark utf8_encoding rest r d h = ground (arith, h)
determine-byte_order_mark utf16le_encoding rest r d h = ground (arith, h)
determine-byte_order_mark utf16be_encoding rest r d h = ground (arith, h)

-- An input that begins with the byte order mark of one of the three encodings, and goes on with the
-- encoding of allowed characters: the encoding is determined, and the loop then reads the characters.
pub fill-byte_order_mark :
    (n : ℕ) (e : Encoding) (vs : List ℕ) (r : Reader)
    → IsDetermined e
    → AreAllowed vs
    → r.raw ≡ byte_order_mark e ++ text e vs
    → length vs ≤ n
    → fill n (determine_encoding r) ≡ filled (having_read vs (past_mark e (text e vs) r))
fill-byte_order_mark n e vs r d a h k =
    ap (fill n) (determine-byte_order_mark e (text e vs) r d h)
    ∙ fill-text n vs (past_mark e (text e vs) r) d a refl k

-- At a UTF-8 text that does not begin with the mark, nothing is skipped.
begins_unmarked :
    (v : ℕ) (rest : Bytes) → Length v → v ≢ 0xFEFF → is_unmarked (encode_utf8 v ++ rest) ≡ true
unfolding is_unmarked
begins_unmarked v rest (one a) n = rw (encode_1 v a) (ground arith)
begins_unmarked v rest (two a b) n = rw (encode_2 v a b) (ground arith)
begins_unmarked v rest (three a b c) n = rw (encode_3 v a b) (ground arith)
begins_unmarked v rest (four a b) n = rw (encode_4 v a b) (ground arith)

determine-unmarked :
    (r : Reader)
    → is_unmarked r.raw ≡ true
    → determine_encoding r ≡ record r { encoding = utf8_encoding }
unfolding determine_encoding is_unmarked
determine-unmarked r h = ground (arith, h)

-- An input that is the UTF-8 encoding of allowed characters, of which the first is not the byte order
-- mark, is read as UTF-8 from its first octet on.
pub fill-unmarked :
    (n v : ℕ) (vs : List ℕ) (r : Reader)
    → AreAllowed (v ∷ vs)
    → v ≢ 0xFEFF
    → r.raw ≡ text utf8_encoding (v ∷ vs)
    → length (v ∷ vs) ≤ n
    → fill n (determine_encoding r)
      ≡ filled (having_read (v ∷ vs) (record r { encoding = utf8_encoding }))
fill-unmarked n v vs r (a, as') m h k =
    let u : is_unmarked r.raw ≡ true =
      rw h (begins_unmarked v (text utf8_encoding vs) (allowed-Length v a) m) in
    ap (fill n) (determine-unmarked r u)
    ∙ fill-text n (v ∷ vs) (record r { encoding = utf8_encoding }) tt (a, as') h k
