-- ===== src/Reader/Text.antt =====
-- Whole texts: what the loop makes of the encodings of a list of allowed characters.
use mathlib.Core.List.{append_assoc, append-nil}
use yaml.Base.{
  ℕ, zero, suc, ◌+◌, ◌≤◌, Bool, true, false, List, [], ◌∷◌, ◌++◌, Bytes, length, ◌≡◌, refl, arith,
  drop, is_empty, ◌*◌, ◌∙◌, ap, sym, length-append,
}
use yaml.Types.{Encoding, utf8_encoding, utf16le_encoding, utf16be_encoding, any_encoding}
use yaml.Reader.Decode.{is_allowed, encode_utf8, char}
use yaml.Reader.Utf16.{unit_bytes, utf16_units, decode-utf16_units}
use yaml.Reader.Fill.{decode_char, Reader, fill, filled, put_char}
use yaml.Reader.Utf8.{decode-encode}

abbrev pub AreAllowed : List ℕ → Type 0
AreAllowed [] = Unit
AreAllowed (v ∷ vs) = (is_allowed v ≡ true) × AreAllowed vs

-- The three encodings, with that of a character in each.
abbrev pub IsDetermined : Encoding → Type 0
IsDetermined any_encoding = ⊥
IsDetermined _ = Unit

abbrev pub char_bytes : Encoding → ℕ → Bytes
char_bytes any_encoding v = []
char_bytes utf8_encoding v = encode_utf8 v
char_bytes utf16le_encoding v = unit_bytes false (utf16_units v)
char_bytes utf16be_encoding v = unit_bytes true (utf16_units v)

abbrev pub text : Encoding → List ℕ → Bytes
text e [] = []
text e (v ∷ vs) = char_bytes e v ++ text e vs

drop-append : (xs ys : Bytes) → drop (length xs) (xs ++ ys) ≡ ys
drop-append [] ys = refl
drop-append (x ∷ xs) ys = drop-append xs ys

length-unit_bytes : (big : Bool) (us : List ℕ) → length (unit_bytes big us) ≡ 2 * length us
length-unit_bytes big [] = refl
length-unit_bytes true (u ∷ us) = omega (arith, length-unit_bytes true us)
length-unit_bytes false (u ∷ us) = omega (arith, length-unit_bytes false us)

-- Every encoding of an allowed character is read as that character.
decode-char_bytes :
    (e : Encoding) (eof : Bool) (v : ℕ) (rest : Bytes)
    → IsDetermined e
    → is_allowed v ≡ true
    → decode_char e eof (char_bytes e v ++ rest) ≡ char v (length (char_bytes e v))
unfolding decode_char
decode-char_bytes any_encoding eof v rest d a = absurd d
decode-char_bytes utf8_encoding eof v rest d a = decode-encode v eof rest a
decode-char_bytes utf16le_encoding eof v rest d a =
    decode-utf16_units false eof v rest a
    ∙ ap (char v) (sym (length-unit_bytes false (utf16_units v)))
decode-char_bytes utf16be_encoding eof v rest d a =
    decode-utf16_units true eof v rest a
    ∙ ap (char v) (sym (length-unit_bytes true (utf16_units v)))

pub encode_utf8-pos : (v : ℕ) → 1 ≤ length (encode_utf8 v)
unfolding encode_utf8
encode_utf8-pos v = ground arith

units-pos : (v : ℕ) → 1 ≤ length (utf16_units v)
units-pos v = ground arith

char_bytes-pos : (e : Encoding) (v : ℕ) → IsDetermined e → 1 ≤ length (char_bytes e v)
char_bytes-pos any_encoding v d = absurd d
char_bytes-pos utf8_encoding v d = encode_utf8-pos v
char_bytes-pos utf16le_encoding v d =
    omega (arith, length-unit_bytes false (utf16_units v), units-pos v)
char_bytes-pos utf16be_encoding v d =
    omega (arith, length-unit_bytes true (utf16_units v), units-pos v)

append_not_empty : (xs ys : Bytes) → 1 ≤ length xs → is_empty (xs ++ ys) ≡ false
append_not_empty [] ys h = absurd (omega arith)
append_not_empty (x ∷ xs) ys h = refl

-- The reader that has read all of the text.
abbrev pub having_read : List ℕ → Reader → Reader
having_read vs r = record r {
  raw = [];
  offset = r.offset + length r.raw;
  buffer = r.buffer ++ text utf8_encoding vs;
  unread = r.unread + length vs;
}

dropped :
    (v : ℕ) (vs : List ℕ) (r : Reader)
    → r.raw ≡ text r.encoding (v ∷ vs)
    → drop (length (char_bytes r.encoding v)) r.raw ≡ text r.encoding vs
dropped v vs r e = rw e (drop-append (char_bytes r.encoding v) (text r.encoding vs))

fill_step :
    (n : ℕ) (r : Reader) (v w : ℕ)
    → is_empty r.raw ≡ false
    → decode_char r.encoding r.eof r.raw ≡ char v w
    → is_allowed v ≡ true
    → fill (suc n) r ≡ fill n (put_char v w r)
unfolding fill
fill_step n r v w h d a = rw (h, fill) (rw (d, fill) (rw (a, fill) refl))

fill_end : (n : ℕ) (r : Reader) → r.raw ≡ [] → fill n r ≡ filled (having_read [] r)
unfolding fill
fill_end zero r e = ground (arith, append-nil r.buffer, e)
fill_end (suc n) r e = ground (arith, append-nil r.buffer, e)

having_read_more :
    (v : ℕ) (vs : List ℕ) (r : Reader)
    → r.raw ≡ text r.encoding (v ∷ vs)
    → having_read vs (put_char v (length (char_bytes r.encoding v)) r) ≡ having_read (v ∷ vs) r
having_read_more v vs r e = ground (
  arith,
  append_assoc r.buffer (encode_utf8 v) (text utf8_encoding vs),
  length-append (char_bytes r.encoding v) (text r.encoding vs),
  ap length e,
  dropped v vs r e,
)

-- The loop over a raw buffer that holds the encoding of allowed characters, in any of the three
-- encodings and with a round for each character, consumes it, moves the offset by its length, counts
-- the characters, and appends their UTF-8 encoding to the buffer.
pub fill-text :
    (n : ℕ) (vs : List ℕ) (r : Reader)
    → IsDetermined r.encoding
    → AreAllowed vs
    → r.raw ≡ text r.encoding vs
    → length vs ≤ n
    → fill n r ≡ filled (having_read vs r)
fill-text zero [] r d a e h = fill_end zero r e
fill-text (suc n) [] r d a e h = fill_end (suc n) r e
fill-text zero (v ∷ vs) r d a e h = absurd (omega arith)
fill-text (suc n) (v ∷ vs) r d (a, as') e h =
    let w = length (char_bytes r.encoding v) in
    let rest = text r.encoding vs in
    let some_left =
      append_not_empty (char_bytes r.encoding v) rest (char_bytes-pos r.encoding v d) in
    fill_step n r v w (rw e some_left) (rw e (decode-char_bytes r.encoding r.eof v rest d a)) a
    ∙ fill-text n vs (put_char v w r) d as' (dropped v vs r e) (omega arith)
    ∙ ap filled (having_read_more v vs r e)
