-- ===== src/Lexer/EscapesEnd.antt =====
-- The scan of an escape sequence ends and does not panic.
use yaml.Lexer.Cursor.{◌>>◌, Lex, Cursor, skip, Lexed, return, proceed, cache}
use yaml.Base.{
  ◌∷◌, none, refl, inl, inr, List, Bool, ℕ, Bytes, ◌&&◌, true, suc, ◌≡◌, ◌==◌, false, some, [],
  ◌||◌, ◌+◌, arith, Bool-cases, Option, ◌*◌, ◌∙◌, ◌^◌, ◌⊎◌, ap, if◌then◌else◌, leb, zero, ltb,
}
use yaml.Chars.{is_blankz, is_hex, at, as_hex}
use yaml.Lexer.Quoted.{
  escape_of, hex_value, escape_code, escape, escape_in, unknown, code_of, escapes, skips, Escape,
  quoted_error, octets, with_text, code,
}
use yaml.Lexer.Safe.{is_octet, IsSafe, octet-Goes, cache-IsSafe, choice-IsSafe, proceed-IsSafe}
use yaml.Types.{Mark}
use yaml.Lexer.Folding.{Folding}
use yaml.Lexer.Outcome.{Leaves, has_first}
use yaml.Lexer.NamesEnd.{hex-octet}
use yaml.Reader.Decode.{encode_utf8}

pub not_blankz-first : (b : Bytes) → is_blankz b 0 ≡ false → has_first b ≡ true
unfolding is_blankz
not_blankz-first b h = ground (arith, h)

abbrev all_octets : List (ℕ × Bytes) → Bool
all_octets [] = true
all_octets ((y, bs) ∷ es) = is_octet y && all_octets es

escape_in-unknown :
    (es : List (ℕ × Bytes)) (x : ℕ)
    → all_octets es ≡ true
    → is_octet x ≡ false
    → escape_in es x ≡ code_of x
escape_in-unknown [] x h o = refl
escape_in-unknown ((y, bs) ∷ es) x h o =
    let n : (x == y) ≡ false = ground (arith, h, o) in
    rw n (escape_in-unknown es x (ground (arith, h)) o)

escape_of-unknown : (x : ℕ) → is_octet x ≡ false → escape_of x ≡ unknown
unfolding escape_of
escape_of-unknown x o = escape_in-unknown escapes x refl o ∙ ground (arith, o)

hex_value-first : (n k v w : ℕ) (b : Bytes) → hex_value (suc n) k b v ≡ some w → is_hex b k ≡ true
unfolding hex_value
hex_value-first n k v w b h = elim (Bool-cases (is_hex b k)) [
  | inl e ↦ e
  | inr e ↦ absurd (ground (arith, rw e at h))
]

hex_value-later :
    (n k v w : ℕ) (b : Bytes)
    → hex_value (suc n) k b v ≡ some w
    → hex_value n (k + 1) b (v * 2 ^ 4 + as_hex b k) ≡ some w
unfolding hex_value
hex_value-later n k v w b h = ground (arith, h, hex_value-first n k v w b h)

-- The digits of a code are skipped.
skips-IsSafe :
    (n m k v w : ℕ) (b : Bytes) (c : Cursor)
    → Leaves m c
    → ((i : ℕ) → at c.buffer i ≡ at b (k + i))
    → hex_value n k b v ≡ some w
    → IsSafe m (skips n c)
skips-IsSafe zero m k v w b c h p e = h
skips-IsSafe (suc n) m k v w b c (x, l) p e =
    let q : at c.buffer 0 ≡ at b k = p 0 ∙ ap (at b) (omega arith) in
    octet-Goes _ _ c x (rw q (hex-octet k b (hex_value-first n k v w b e))) (λ d (y, o) r.
      skips-IsSafe n m (k + 1) (v * 2 ^ 4 + as_hex b k) w b d (y, omega (arith, l, o))
        (λ i. r i ∙ p (suc i) ∙ ap (at b) (omega arith)) (hex_value-later n k v w b e))

escape_code-IsSafe :
    (start : Mark) (n m : ℕ) (f : Folding) (c : Cursor)
    → Leaves m c
    → IsSafe m (escape_code start n f c)
unfolding escape_code
escape_code-IsSafe start n m f c h = by_value (hex_value n 0 c.buffer 0) refl
  where
    by_value :
        (r : Option ℕ)
        → hex_value n 0 c.buffer 0 ≡ r
        → IsSafe m (elim r as (λ _. Lexed Folding) [
          | none ↦ quoted_error start "did not find expected hexdecimal number" c
          | some v ↦
              if (leb 0xD800 v && leb v 0xDFFF) || ltb 0x10FFFF v
              then quoted_error start "found invalid Unicode character escape code" c
              else proceed (skips n c) (λ u. return (with_text f (encode_utf8 v)))
        ])
    by_value none e = tt
    by_value (some v) e =
        choice-IsSafe m ((leb 0xD800 v && leb v 0xDFFF) || ltb 0x10FFFF v) _ _ (λ x. tt)
          (λ x.
            proceed-IsSafe m m (skips n c) _
              (skips-IsSafe n m 0 0 v c.buffer c h (λ i. ap (at c.buffer) (omega arith)) e)
              (λ u d g. g))

-- Two characters of one byte are skipped.
pub two-IsSafe :
    (m : ℕ) (k : Lex Folding) (c : Cursor)
    → Leaves (suc m) c
    → is_octet (at c.buffer 0) ≡ true
    → is_octet (at c.buffer 1) ≡ true
    → ((d : Cursor) → Leaves m d → IsSafe m (k d))
    → IsSafe m ((skip >> skip >> k) c)
two-IsSafe m k c (w, l) o p f =
    octet-Goes _ _ c w o (λ d (x, y) q.
      octet-Goes _ _ d x (rw (q 0) p) (λ e (z, a) r. f e (z, omega (arith, l, y, a))))

pub escape-IsSafe :
    (start : Mark) (m : ℕ) (f : Folding) (c : Cursor)
    → Leaves (suc m) c
    → at c.buffer 0 ≡ 92
    → IsSafe m (escape start f c)
unfolding escape
escape-IsSafe start m f c h e =
    by_escape (escape_of (at c.buffer 1)) (elim (Bool-cases (is_octet (at c.buffer 1))) [
      | inl o ↦ inl o
      | inr o ↦ inr (escape_of-unknown (at c.buffer 1) o)
    ])
  where
    by_escape :
        (x : Escape)
        → (is_octet (at c.buffer 1) ≡ true) ⊎ (x ≡ unknown)
        → IsSafe m (elim x as (λ _. Lexed Folding) [
          | octets bs ↦ (skip >> skip >> return (with_text f bs)) c
          | code n ↦ (skip >> skip >> cache n >> escape_code start n f) c
          | unknown ↦ quoted_error start "found unknown escape character" c
        ])
    by_escape (octets bs) (inl o) = two-IsSafe m _ c h (ground (arith, e)) o (λ d g. g)
    by_escape (octets bs) (inr q) = absurd (cc q)
    by_escape (code n) (inl o) =
        two-IsSafe m _ c h (ground (arith, e)) o
          (λ d g. cache-IsSafe m n (escape_code start n f) d (escape_code-IsSafe start n m f d g))
    by_escape (code n) (inr q) = absurd (cc q)
    by_escape unknown q = tt
