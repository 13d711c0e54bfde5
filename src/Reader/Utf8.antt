-- ===== src/Reader/Utf8.antt =====
-- What the reader writes for a character, and reads for it.
use native.Mathlib.Decide.{dec_lt}
use yaml.Chars.{width}
use yaml.Base.{
  ℕ, ◌+◌, ◌*◌, ◌%◌, ◌<◌, ◌≤◌, Bool, true, ◌∷◌, ◌≡◌, arith, Bytes, ◌∙◌, ◌⊎◌, [], ◌/◌, ◌++◌, length,
  inl, inr, ap,
}
use yaml.Reader.Decode.{decode_utf8, is_allowed, char, is_trailing, encode_utf8}
use yaml.Reader.Octets.{width_lem, is_trailing_lem}

decode_at_1 : (eof : Bool) (a : ℕ) (rest : Bytes) → a < 128 → decode_utf8 eof (a ∷ rest) ≡ char a 1
unfolding decode_utf8 is_allowed
decode_at_1 eof a rest h =
    let e : width a ≡ 1 = width_lem a (omega arith) ∙ ground arith in rw e (ground arith)

-- A leading octet of two, with the values of its octets given.
decode_at_2 :
    (eof : Bool) (a b : ℕ) (rest : Bytes)
    → 192 ≤ a
    → a < 224
    → 128 ≤ b
    → b < 192
    → 128 ≤ a % 32 * 64 + b % 64
    → decode_utf8 eof (a ∷ b ∷ rest) ≡ char (a % 32 * 64 + b % 64) 2
unfolding decode_utf8
decode_at_2 eof a b rest h1 h2 h3 h4 h =
    let e : width a ≡ 2 = width_lem a (omega arith) ∙ ground arith in
    let t : is_trailing b ≡ true = is_trailing_lem b (omega arith) ∙ ground arith in
    rw (e, t) (ground arith)

decode_at_3 :
    (eof : Bool) (a b c : ℕ) (rest : Bytes)
    → 224 ≤ a
    → a < 240
    → 128 ≤ b
    → b < 192
    → 128 ≤ c
    → c < 192
    → 0x800 ≤ (a % 16 * 64 + b % 64) * 64 + c % 64
    → ((a % 16 * 64 + b % 64) * 64 + c % 64 < 0xD800)
      ⊎ (0xDFFF < (a % 16 * 64 + b % 64) * 64 + c % 64)
    → decode_utf8 eof (a ∷ b ∷ c ∷ rest) ≡ char ((a % 16 * 64 + b % 64) * 64 + c % 64) 3
unfolding decode_utf8
decode_at_3 eof a b c rest h1 h2 h3 h4 h5 h6 h r =
    let e : width a ≡ 3 = width_lem a (omega arith) ∙ ground arith in
    let t : is_trailing b ≡ true = is_trailing_lem b (omega arith) ∙ ground arith in
    let u : is_trailing c ≡ true = is_trailing_lem c (omega arith) ∙ ground arith in
    rw (e, t, u) (ground arith)

decode_at_4 :
    (eof : Bool) (a b c d : ℕ) (rest : Bytes)
    → 240 ≤ a
    → a < 248
    → 128 ≤ b
    → b < 192
    → 128 ≤ c
    → c < 192
    → 128 ≤ d
    → d < 192
    → 0x10000 ≤ ((a % 8 * 64 + b % 64) * 64 + c % 64) * 64 + d % 64
    → ((a % 8 * 64 + b % 64) * 64 + c % 64) * 64 + d % 64 ≤ 0x10FFFF
    → decode_utf8 eof (a ∷ b ∷ c ∷ d ∷ rest)
      ≡ char (((a % 8 * 64 + b % 64) * 64 + c % 64) * 64 + d % 64) 4
unfolding decode_utf8
decode_at_4 eof a b c d rest h1 h2 h3 h4 h5 h6 h7 h8 h r =
    let e : width a ≡ 4 = width_lem a (omega arith) ∙ ground arith in
    let t : is_trailing b ≡ true = is_trailing_lem b (omega arith) ∙ ground arith in
    let u : is_trailing c ≡ true = is_trailing_lem c (omega arith) ∙ ground arith in
    let v : is_trailing d ≡ true = is_trailing_lem d (omega arith) ∙ ground arith in
    rw (e, t, u, v) (ground arith)

-- The ranges of the four lengths.
pub data Length (v : ℕ) : Type 0 where
  one : v ≤ 0x7F → Length v
  two : 0x80 ≤ v → v ≤ 0x7FF → Length v
  three : 0x800 ≤ v → v ≤ 0xFFFF → (v < 0xD800) ⊎ (0xDFFF < v) → Length v
  four : 0x10000 ≤ v → v ≤ 0x10FFFF → Length v

pub allowed-Length : (v : ℕ) → is_allowed v ≡ true → Length v
unfolding is_allowed
allowed-Length v h = elim (dec_lt v 0x80) [
  | yes a ↦ one (omega arith)
  | no a ↦ elim (dec_lt v 0x800) [
    | yes b ↦ two (omega arith) (omega arith)
    | no b ↦ elim (dec_lt v 0x10000) [
      | yes c ↦ three (omega arith) (omega arith) (ground arith)
      | no c ↦ four (omega arith) (ground arith)
    ]
  ]
]

pub encode_1 : (v : ℕ) → v ≤ 0x7F → encode_utf8 v ≡ v ∷ []
unfolding encode_utf8
encode_1 v h = ground arith

pub encode_2 : (v : ℕ) → 0x80 ≤ v → v ≤ 0x7FF → encode_utf8 v ≡ (192 + v / 64) ∷ (128 + v % 64) ∷ []
unfolding encode_utf8
encode_2 v h k = ground arith

pub encode_3 :
    (v : ℕ)
    → 0x800 ≤ v
    → v ≤ 0xFFFF
    → encode_utf8 v ≡ (224 + v / 4096) ∷ (128 + v / 64 % 64) ∷ (128 + v % 64) ∷ []
unfolding encode_utf8
encode_3 v h k = ground arith

pub encode_4 :
    (v : ℕ)
    → 0x10000 ≤ v
    → v ≤ 0x10FFFF
    → encode_utf8 v
      ≡ (240 + v / 262144) ∷ (128 + v / 4096 % 64) ∷ (128 + v / 64 % 64) ∷ (128 + v % 64) ∷ []
unfolding encode_utf8
encode_4 v h k = ground arith

-- An allowed character, written to the buffer, is read back as that character, with the width that was
-- written, whatever follows it.
pub decode-encode :
    (v : ℕ) (eof : Bool) (rest : Bytes)
    → is_allowed v ≡ true
    → decode_utf8 eof (encode_utf8 v ++ rest) ≡ char v (length (encode_utf8 v))
decode-encode v eof rest h = elim (allowed-Length v h) [
  | one a ↦ rw (encode_1 v a) (decode_at_1 eof v rest (omega arith))
  | two a b ↦ rw (encode_2 v a b) (
      decode_at_2 eof (192 + v / 64) (128 + v % 64) rest (omega arith) (omega arith) (omega arith)
        (omega arith) (omega arith)
      ∙ ap (λ x. char x 2) (omega arith))
  | three a b c ↦ rw (encode_3 v a b) (
      decode_at_3 eof (224 + v / 4096) (128 + v / 64 % 64) (128 + v % 64) rest (omega arith)
        (omega arith) (omega arith) (omega arith) (omega arith) (omega arith) (omega arith)
        (three_octets v a b c)
      ∙ ap (λ x. char x 3) (omega arith))
  | four a b ↦ rw (encode_4 v a b) (
      decode_at_4 eof (240 + v / 262144) (128 + v / 4096 % 64) (128 + v / 64 % 64) (128 + v % 64)
        rest (omega arith) (omega arith) (omega arith) (omega arith) (omega arith) (omega arith)
        (omega arith) (omega arith) (omega arith) (omega arith)
      ∙ ap (λ x. char x 4) (omega arith))
]
  where
    three_octets :
        (w : ℕ)
        → 0x800 ≤ w
        → w ≤ 0xFFFF
        → (w < 0xD800) ⊎ (0xDFFF < w)
        → (((224 + w / 4096) % 16 * 64 + (128 + w / 64 % 64) % 64) * 64 + (128 + w % 64) % 64
            < 0xD800)
          ⊎ (0xDFFF
              < ((224 + w / 4096) % 16 * 64 + (128 + w / 64 % 64) % 64) * 64 + (128 + w % 64) % 64)
    three_octets w a b (inl c) = inl (omega arith)
    three_octets w a b (inr c) = inr (omega arith)
