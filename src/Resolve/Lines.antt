-- ===== src/Resolve/Lines.antt =====
-- What `encodeBase64` writes is read back.
use yaml.Base.{
  ℕ, zero, suc, ◌+◌, ◌*◌, ◌/◌, ◌%◌, ◌<◌, ◌≤◌, ◌==◌, [], ◌∷◌, ◌++◌, Bytes, Bool, true, false,
  if◌then◌else◌, length, take, drop, ◌≡◌, refl, ap, ◌∙◌, arith,
}
use yaml.Resolve.Base64.{
  first_octet, second_octet, third_octet, decode, encode, letter, value_of_letter, without_newlines,
  break_lines, encode_base64,
}

-- Numbers that are bytes.
abbrev pub AreOctets : Bytes → Type 0
AreOctets [] = Unit
AreOctets (c ∷ cs) = (c < 256) × AreOctets cs

value-letter : (n : ℕ) → n < 64 → value_of_letter (letter n) ≡ n
value-letter n h = ground (arith, h)

letter-ne-padding : (n : ℕ) → n < 64 → (letter n == b'=') ≡ false
letter-ne-padding n h = ground (arith, h)

letter-ne-newline : (n : ℕ) → n < 64 → (letter n == b'\n') ≡ false
letter-ne-newline n h = ground (arith, h)

first-letters :
    (x b : ℕ) → x < 256 → b < 16 → first_octet (letter (x / 4)) (letter (x % 4 * 16 + b)) ≡ x
first-letters x b h k =
    rw (value-letter (x / 4) (omega arith), value-letter (x % 4 * 16 + b) (omega arith))
      (omega arith)

first-lone : (x : ℕ) → x < 256 → first_octet (letter (x / 4)) (letter (x % 4 * 16)) ≡ x
first-lone x h =
    rw (value-letter (x / 4) (omega arith), value-letter (x % 4 * 16) (omega arith)) (omega arith)

second-letters :
    (a y c : ℕ)
    → a < 4
    → y < 256
    → c < 4
    → second_octet (letter (a * 16 + y / 16)) (letter (y % 16 * 4 + c)) ≡ y
second-letters a y c h k l =
    rw (value-letter (a * 16 + y / 16) (omega arith), value-letter (y % 16 * 4 + c) (omega arith))
      (omega arith)

second-lone :
    (a y : ℕ) → a < 4 → y < 256 → second_octet (letter (a * 16 + y / 16)) (letter (y % 16 * 4)) ≡ y
second-lone a y h k =
    rw (value-letter (a * 16 + y / 16) (omega arith), value-letter (y % 16 * 4) (omega arith))
      (omega arith)

third-letters :
    (b z : ℕ) → b < 16 → z < 256 → third_octet (letter (b * 4 + z / 64)) (letter (z % 64)) ≡ z
third-letters b z h k =
    rw (value-letter (b * 4 + z / 64) (omega arith), value-letter (z % 64) (omega arith))
      (omega arith)

decode-encode_octets : (s : Bytes) → AreOctets s → decode (encode s) ≡ s
unfolding encode decode
decode-encode_octets [] h = refl
decode-encode_octets (x ∷ []) (a, h) = ap (λ u. u ∷ []) (first-lone x a)
decode-encode_octets (x ∷ y ∷ []) (a, (b, h)) =
    rw
      (
        letter-ne-padding (y % 16 * 4) (omega arith),
        first-letters x (y / 16) a (omega arith),
        second-lone (x % 4) y (omega arith) b,
      )
      refl
decode-encode_octets (x ∷ y ∷ z ∷ rest) (a, (b, (c, h))) =
    rw
      (
        letter-ne-padding (y % 16 * 4 + z / 64) (omega arith),
        letter-ne-padding (z % 64) (omega arith),
        first-letters x (y / 16) a (omega arith),
        second-letters (x % 4) y (z / 64) (omega arith) b (omega arith),
        third-letters (y % 16) z (omega arith) c,
        decode-encode_octets rest h,
      )
      refl

abbrev AreOneLine : Bytes → Type 0
AreOneLine [] = Unit
AreOneLine (c ∷ cs) = ((c == b'\n') ≡ false) × AreOneLine cs

encode-AreOneLine : (s : Bytes) → AreOctets s → AreOneLine (encode s)
unfolding encode
encode-AreOneLine [] h = tt
encode-AreOneLine (x ∷ []) (a, h) = (
  letter-ne-newline (x / 4) (omega arith),
  (letter-ne-newline (x % 4 * 16) (omega arith), (refl, (refl, tt))),
)
encode-AreOneLine (x ∷ y ∷ []) (a, (b, h)) = (
  letter-ne-newline (x / 4) (omega arith),
  (
    letter-ne-newline (x % 4 * 16 + y / 16) (omega arith),
    (letter-ne-newline (y % 16 * 4) (omega arith), (refl, tt)),
  ),
)
encode-AreOneLine (x ∷ y ∷ z ∷ rest) (a, (b, (c, h))) = (
  letter-ne-newline (x / 4) (omega arith),
  (
    letter-ne-newline (x % 4 * 16 + y / 16) (omega arith),
    (
      letter-ne-newline (y % 16 * 4 + z / 64) (omega arith),
      (letter-ne-newline (z % 64) (omega arith), encode-AreOneLine rest h),
    ),
  ),
)

-- A piece of a line, before other text.
without_newlines-take :
    (n : ℕ) (s more : Bytes)
    → AreOneLine s
    → without_newlines more ≡ drop n s
    → without_newlines (take n s ++ more) ≡ s
unfolding without_newlines
without_newlines-take zero s more h e = e
without_newlines-take (suc n) [] more h e = e
without_newlines-take (suc n) (c ∷ cs) more (k, h) e =
    rw (k, without_newlines-take n cs more h e) refl

drop-AreOneLine : (n : ℕ) (s : Bytes) → AreOneLine s → AreOneLine (drop n s)
drop-AreOneLine zero s h = h
drop-AreOneLine (suc n) [] h = tt
drop-AreOneLine (suc n) (c ∷ cs) (k, h) = drop-AreOneLine n cs h

length-drop_more : (n : ℕ) (s : Bytes) → length (drop n s) ≤ length s
length-drop_more zero s = omega arith
length-drop_more (suc n) [] = omega arith
length-drop_more (suc n) (c ∷ cs) = omega (arith, length-drop_more n cs)

ended :
    (many : Bool) (rest s : Bytes)
    → without_newlines rest ≡ s
    → without_newlines ((if many then b'\n' ∷ [] else []) ++ rest) ≡ s
unfolding without_newlines
ended true rest s e = e
ended false rest s e = e

without_newlines-break_lines :
    (n : ℕ) (many : Bool) (s : Bytes)
    → AreOneLine s
    → length s ≤ n
    → without_newlines (break_lines n many s) ≡ s
unfolding break_lines without_newlines
without_newlines-break_lines zero many [] h l = refl
without_newlines-break_lines zero many (c ∷ cs) h l = absurd (omega arith)
without_newlines-break_lines (suc n) many [] h l = refl
without_newlines-break_lines (suc n) many (c ∷ cs) h l = without_newlines-take 70 (c ∷ cs) _ h (
    ended many _ _ (
      without_newlines-break_lines n many (drop 70 (c ∷ cs)) (drop-AreOneLine 70 (c ∷ cs) h)
        (omega (arith, length-drop_more 69 cs))))

-- The octets are recovered from what `encodeBase64` makes of them, with newlines ignored, whatever their
-- number.
pub decode-encode_base64 :
    (s : Bytes) → AreOctets s → decode (without_newlines (encode_base64 s)) ≡ s
unfolding encode_base64
decode-encode_base64 s h =
    ap decode (
      without_newlines-break_lines (length (encode s)) _ (encode s) (encode-AreOneLine s h)
        (omega arith))
    ∙ decode-encode_octets s h
