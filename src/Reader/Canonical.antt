-- ===== src/Reader/Canonical.antt =====
-- The sequences that the reader accepts, and what it writes for them.
use yaml.Chars.{width}
use yaml.Base.{
  ℕ, ◌+◌, ◌*◌, ◌%◌, ◌<◌, ◌≤◌, Bool, [], ◌∷◌, ◌≡◌, arith, Bytes, ◌∙◌, suc, ◌≢◌, length, take,
}
use yaml.Reader.Decode.{decode_utf8, char, encode_utf8}
use yaml.Reader.Octets.{width_lem, is_trailing_lem}
use yaml.Reader.Utf8.{encode_2, encode_3, encode_4, encode_1}
use native.Mathlib.Decide.{dec_lt}

-- The bytes of a raw buffer.
abbrev pub AreOctets : Bytes → Type 0
AreOctets [] = Unit
AreOctets (b ∷ bs) = (b < 256) × AreOctets bs

invert_1 :
    (eof : Bool) (a : ℕ) (rest : Bytes) (v w : ℕ)
    → a < 128
    → decode_utf8 eof (a ∷ rest) ≡ char v w
    → (w ≡ 1) × (v ≡ a)
unfolding decode_utf8
invert_1 eof a rest v w h d =
    let e : width a ≡ 1 = width_lem a (omega arith) ∙ ground arith in ground (arith, rw e at d)

invert_2 :
    (eof : Bool) (a b : ℕ) (rest : Bytes) (v w : ℕ)
    → 192 ≤ a
    → a < 224
    → b < 256
    → decode_utf8 eof (a ∷ b ∷ rest) ≡ char v w
    → (w ≡ 2) × (v ≡ a % 32 * 64 + b % 64) × (128 ≤ b) × (b < 192) × (128 ≤ v)
unfolding decode_utf8
invert_2 eof a b rest v w h1 h2 h3 d =
    let e : width a ≡ 2 = width_lem a (omega arith) ∙ ground arith in
    ground (arith, rw e at d, is_trailing_lem b h3)

invert_3 :
    (eof : Bool) (a b c : ℕ) (rest : Bytes) (v w : ℕ)
    → 224 ≤ a
    → a < 240
    → b < 256
    → c < 256
    → decode_utf8 eof (a ∷ b ∷ c ∷ rest) ≡ char v w
    → (w ≡ 3)
      × (v ≡ (a % 16 * 64 + b % 64) * 64 + c % 64)
      × (128 ≤ b)
      × (b < 192)
      × (128 ≤ c)
      × (c < 192)
      × (0x800 ≤ v)
unfolding decode_utf8
invert_3 eof a b c rest v w h1 h2 h3 h4 d =
    let e : width a ≡ 3 = width_lem a (omega arith) ∙ ground arith in
    ground (arith, rw e at d, is_trailing_lem b h3, is_trailing_lem c h4)

invert_4 :
    (eof : Bool) (a b c f : ℕ) (rest : Bytes) (v w : ℕ)
    → 240 ≤ a
    → a < 248
    → b < 256
    → c < 256
    → f < 256
    → decode_utf8 eof (a ∷ b ∷ c ∷ f ∷ rest) ≡ char v w
    → (w ≡ 4)
      × (v ≡ ((a % 8 * 64 + b % 64) * 64 + c % 64) * 64 + f % 64)
      × (128 ≤ b)
      × (b < 192)
      × (128 ≤ c)
      × (c < 192)
      × (128 ≤ f)
      × (f < 192)
      × (0x10000 ≤ v)
      × (v ≤ 0x10FFFF)
unfolding decode_utf8
invert_4 eof a b c f rest v w h1 h2 h3 h4 h5 d =
    let e : width a ≡ 4 = width_lem a (omega arith) ∙ ground arith in
    ground (arith, rw e at d, is_trailing_lem b h3, is_trailing_lem c h4, is_trailing_lem f h5)

-- A sequence that is cut off is no character.
short :
    (eof : Bool) (a : ℕ) (rest : Bytes) (v w : ℕ)
    → suc (length rest) < width a
    → decode_utf8 eof (a ∷ rest) ≢ char v w
unfolding decode_utf8
short eof a rest v w h d = ground arith

no_lead :
    (eof : Bool) (a : ℕ) (rest : Bytes) (v w : ℕ)
    → width a ≡ 0
    → decode_utf8 eof (a ∷ rest) ≢ char v w
unfolding decode_utf8
no_lead eof a rest v w h d = ground arith

abbrev Canonical : Bytes → ℕ → ℕ → Type 0
Canonical raw v w = encode_utf8 v ≡ take w raw

two_lem : (a : ℕ) → 192 ≤ a → a < 224 → width a ≡ 2
two_lem a h k = width_lem a (omega arith) ∙ ground arith

three_lem : (a : ℕ) → 224 ≤ a → a < 240 → width a ≡ 3
three_lem a h k = width_lem a (omega arith) ∙ ground arith

four_lem : (a : ℕ) → 240 ≤ a → a < 248 → width a ≡ 4
four_lem a h k = width_lem a (omega arith) ∙ ground arith

take_2 :
    (eof : Bool) (a : ℕ) (rest : Bytes) (v w : ℕ)
    → 192 ≤ a
    → a < 224
    → AreOctets rest
    → decode_utf8 eof (a ∷ rest) ≡ char v w
    → Canonical (a ∷ rest) v w
take_2 eof a [] v w h1 h2 o d = absurd (short eof a [] v w (omega (arith, two_lem a h1 h2)) d)
take_2 eof a (b ∷ rest) v w h1 h2 (o, os) d =
    let (i, j, k1, k2, k3) = invert_2 eof a b rest v w h1 h2 o d in
    rw i (encode_2 v k3 (omega arith) ∙ ground arith)

take_3 :
    (eof : Bool) (a : ℕ) (rest : Bytes) (v w : ℕ)
    → 224 ≤ a
    → a < 240
    → AreOctets rest
    → decode_utf8 eof (a ∷ rest) ≡ char v w
    → Canonical (a ∷ rest) v w
take_3 eof a [] v w h1 h2 o d = absurd (short eof a [] v w (omega (arith, three_lem a h1 h2)) d)
take_3 eof a (b ∷ []) v w h1 h2 o d =
    absurd (short eof a (b ∷ []) v w (omega (arith, three_lem a h1 h2)) d)
take_3 eof a (b ∷ c ∷ rest) v w h1 h2 (o, (p, os)) d =
    let (i, j, k1, k2, l1, l2, k3) = invert_3 eof a b c rest v w h1 h2 o p d in
    rw i (encode_3 v k3 (omega arith) ∙ ground arith)

take_4 :
    (eof : Bool) (a : ℕ) (rest : Bytes) (v w : ℕ)
    → 240 ≤ a
    → a < 248
    → AreOctets rest
    → decode_utf8 eof (a ∷ rest) ≡ char v w
    → Canonical (a ∷ rest) v w
take_4 eof a [] v w h1 h2 o d = absurd (short eof a [] v w (omega (arith, four_lem a h1 h2)) d)
take_4 eof a (b ∷ []) v w h1 h2 o d =
    absurd (short eof a (b ∷ []) v w (omega (arith, four_lem a h1 h2)) d)
take_4 eof a (b ∷ c ∷ []) v w h1 h2 o d =
    absurd (short eof a (b ∷ c ∷ []) v w (omega (arith, four_lem a h1 h2)) d)
take_4 eof a (b ∷ c ∷ f ∷ rest) v w h1 h2 (o, (p, (q, os))) d =
    let (i, j, k1, k2, l1, l2, m1, m2, k3, k4) = invert_4 eof a b c f rest v w h1 h2 o p q d in
    rw i (encode_4 v k3 k4 ∙ ground arith)

-- What the reader accepts is written back as it stood: if a raw buffer of bytes begins with a sequence
-- that decodes to a character, the buffer gets the very octets of the sequence. So no character is
-- read from two different sequences.
pub encode-decode :
    (eof : Bool) (raw : Bytes) (v w : ℕ)
    → AreOctets raw
    → decode_utf8 eof raw ≡ char v w
    → encode_utf8 v ≡ take w raw
encode-decode eof [] v w o d = absurd (none_at_end d)
  where
    none_at_end : decode_utf8 eof [] ≢ char v w
    none_at_end e = unfold decode_utf8 in cc e
encode-decode eof (a ∷ rest) v w (o, os) d = elim (dec_lt a 128) [
  | yes h ↦ let (i, j) = invert_1 eof a rest v w h d in rw (i, j) (encode_1 a (omega arith))
  | no h ↦ elim (dec_lt a 192) [
    | yes k ↦ absurd (no_lead eof a rest v w (width_lem a o ∙ ground arith) d)
    | no k ↦ elim (dec_lt a 224) [
      | yes l ↦ take_2 eof a rest v w (omega arith) l os d
      | no l ↦ elim (dec_lt a 240) [
        | yes m ↦ take_3 eof a rest v w (omega arith) m os d
        | no m ↦ elim (dec_lt a 248) [
          | yes n ↦ take_4 eof a rest v w (omega arith) n os d
          | no n ↦ absurd (no_lead eof a rest v w (width_lem a o ∙ ground arith) d)
        ]
      ]
    ]
  ]
]
