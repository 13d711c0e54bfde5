-- ===== src/Lexer/Characters.antt =====
-- The scans at a character of a UTF-8 buffer.
use yaml.Base.{
  ℕ, Bytes, Bool, take, drop, length, ◌==◌, ◌≡◌, true, ◌||◌, ◌<◌, ◌++◌, ◌∷◌, ap, [], arith, refl,
  ◌∙◌, ◌&&◌, not,
}
use yaml.Chars.{is_blank, is_z, at, width, is_break, is_blankz, is_breakz}
use yaml.Lexer.Cursor.{skip, read, Cursor, advanced}
use yaml.Reader.Decode.{is_allowed, encode_utf8}
use yaml.Reader.Utf8.{
  Length, one, encode_1, allowed-Length, two, encode_2, three, encode_3, four, encode_4,
}
use yaml.Lexer.Outcome.{IsWhole, has_first, Meets}
use yaml.Lexer.Safe.{is_octet, width-octet}
use yaml.Lexer.Moving.{drop_first, skip_first_lem, read_first_lem}
use yaml.Reader.Scalars.{width-encode_utf8, is_line_break, is_break-encode_utf8}

-- The blanks of YAML.
abbrev pub is_blank_character : ℕ → Bool
is_blank_character v = v == 0x20 || v == 0x09

-- The classes of the characters that have a sequence of octets.
pub class_from :
    (v : ℕ) (rest : Bytes)
    → Length v
    → (is_blank (encode_utf8 v ++ rest) 0 ≡ is_blank_character v)
      × ((at (encode_utf8 v ++ rest) 0 == 0) ≡ (v == 0))
      × ((at (encode_utf8 v ++ rest) 0 == 39) ≡ (v == 39))
unfolding is_blank
class_from v rest (one a) = rw (encode_1 v a) (ground arith, ground arith, ground arith)
class_from v rest (two a b) = rw (encode_2 v a b) (ground arith, ground arith, ground arith)
class_from v rest (three a b c) = rw (encode_3 v a b) (ground arith, ground arith, ground arith)
class_from v rest (four a b) = rw (encode_4 v a b) (ground arith, ground arith, ground arith)

-- What follows a character, one further.
abbrev pub Taken : Bytes → Cursor → Cursor → Type 0
Taken r c d =
    (d.buffer ≡ r) × IsWhole d × (d.unread < c.unread) × (0 < d.mark.column) × (d.at_end ≡ c.at_end)

pub take-length : (xs ys : Bytes) → take (length xs) (xs ++ ys) ≡ xs
take-length [] ys = refl
take-length (x ∷ xs) ys = ap (λ zs. x ∷ zs) (take-length xs ys)

pub drop-length : (xs ys : Bytes) → drop (length xs) (xs ++ ys) ≡ ys
drop-length [] ys = refl
drop-length (x ∷ xs) ys = drop-length xs ys

-- The cursor behind so many bytes.
advanced-Taken :
    (r : Bytes) (c : Cursor)
    → IsWhole c
    → has_first c.buffer ≡ true
    → drop (width (at c.buffer 0)) c.buffer ≡ r
    → Taken r c (advanced (width (at c.buffer 0)) c)
advanced-Taken r c w h e =
    let (x, l, p) = drop_first c.unread c.buffer w h in (e, x, l, omega arith, refl)

pub skip-Taken :
    (x : ℕ) (r : Bytes) (c : Cursor)
    → IsWhole c
    → c.buffer ≡ x ∷ r
    → is_octet x ≡ true
    → Meets ⊥ (λ u d. Taken r c d) (skip c)
unfolding skip
skip-Taken x r c w e o =
    let q : at c.buffer 0 ≡ x = ap (λ b. at b 0) e in
    let h : has_first c.buffer ≡ true = ground (arith, q, o) in
    let z : width (at c.buffer 0) ≡ 1 = ap width q ∙ width-octet x o in
    rw (skip_first_lem c.buffer c h) (advanced-Taken r c w h (rw z (ap (drop 1) e)))

pub read-Taken :
    (s : Bytes) (v : ℕ) (r : Bytes) (c : Cursor)
    → IsWhole c
    → is_allowed v ≡ true
    → c.buffer ≡ encode_utf8 v ++ r
    → Meets ⊥ (λ t d. (t ≡ s ++ encode_utf8 v) × Taken r c d) (read s c)
unfolding read is_allowed
read-Taken s v r c w a e =
    let z : width (at c.buffer 0) ≡ length (encode_utf8 v) =
      ap (λ b. width (at b 0)) e ∙ width-encode_utf8 v r a in
    let q = class_from v r (allowed-Length v a) in
    let h : has_first c.buffer ≡ true =
      (let n : (at c.buffer 0 == 0) ≡ (v == 0) = ap (λ b. at b 0 == 0) e ∙ q.1 in
        ground (arith, n, a)) in
    let (x, l, p) = drop_first c.unread c.buffer w h in
    let t : take (width (at c.buffer 0)) c.buffer ≡ encode_utf8 v =
      rw (z, e) (take-length (encode_utf8 v) r) in
    rw (read_first_lem s c.buffer c h p)
      (ap (λ y. s ++ y) t, advanced-Taken r c w h (rw (z, e) (drop-length (encode_utf8 v) r)))

-- At an allowed character that is no line break, the blanks end the loops over the others.
pub is_blankz-inline :
    (v : ℕ) (r : Bytes)
    → (is_allowed v && not (is_line_break v)) ≡ true
    → is_blankz (encode_utf8 v ++ r) 0 ≡ is_blank_character v
unfolding is_allowed is_z is_break is_blankz is_blank is_breakz
is_blankz-inline v r a =
    let (b, z, q) = class_from v r (allowed-Length v (ground (arith, a))) in
    let l = is_break-encode_utf8 v r (ground (arith, a)) in ground (arith, b, z, l, a)
