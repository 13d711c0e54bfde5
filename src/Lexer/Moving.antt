-- ===== src/Lexer/Moving.antt =====
-- How the functions that move the cursor keep its characters.
use yaml.Lexer.Cursor.{
  Cursor, skip, read, Lexed, lexed, skip_first, read_first, next_line, advanced, skip_line,
  read_line,
}
use yaml.Base.{
  ℕ, Bytes, suc, ◌≡◌, ◌<◌, [], Bool-cases, arith, true, ◌∷◌, drop, false, zero, ◌||◌, ◌==◌, inl,
  inr, ◌⊎◌, ◌-◌, if◌then◌else◌, ◌++◌, take, refl, ap, ◌∙◌, is_empty, ◌&&◌,
}
use yaml.Chars.{is_break, width, at, is_crlf}
use yaml.Lexer.Outcome.{AreChars, has_first, IsWhole, Goes, Steps}

-- The first character is taken off.
pub drop_first :
    (n : ℕ) (b : Bytes)
    → AreChars n b
    → has_first b ≡ true
    → AreChars (n - 1) (drop (width (at b 0)) b) × (n - 1 < n) × (0 < width (at b 0))
drop_first zero b w h = absurd (ground (arith, rw w at h))
drop_first (suc n) [] w h = absurd w
drop_first (suc n) (b ∷ bs) (p, w) h =
    let e : suc n - 1 ≡ n = omega arith in rw e (w, omega arith, p)

pub skip_first_lem :
    (b : Bytes) (c : Cursor)
    → has_first b ≡ true
    → skip_first b c ≡ lexed tt (advanced (width (at b 0)) c)
skip_first_lem [] c h = absurd (ground (arith, h))
skip_first_lem (b ∷ bs) c h = refl

pub read_first_lem :
    (s b : Bytes) (c : Cursor)
    → has_first b ≡ true
    → 0 < width (at b 0)
    → read_first s b c ≡ lexed (s ++ take (width (at b 0)) b) (advanced (width (at b 0)) c)
read_first_lem s [] c h p = absurd (ground (arith, h))
read_first_lem s (b ∷ bs) c h p = let z : (width b == 0) ≡ false = ground (arith, p) in rw z refl

-- `skip`, and what is behind it.
pub Goes-skip :
    (c : Cursor)
    → IsWhole c
    → has_first c.buffer ≡ true
    → Goes (λ u d. Steps c u d × (d.buffer ≡ drop (width (at c.buffer 0)) c.buffer)) (skip c)
unfolding skip
Goes-skip c w h =
    let (d, l, p) = drop_first c.unread c.buffer w h in
    rw (skip_first_lem c.buffer c h) ((d, l), refl)

pub Goes-read :
    (s : Bytes) (c : Cursor) → IsWhole c → has_first c.buffer ≡ true → Goes (Steps c) (read s c)
unfolding read
Goes-read s c w h =
    let (d, l, p) = drop_first c.unread c.buffer w h in rw (read_first_lem s c.buffer c h p) (d, l)

pub at-drop : (b : Bytes) (i : ℕ) → at (drop 1 b) i ≡ at b (suc i)
at-drop [] i = refl
at-drop (x ∷ bs) i = refl

drop-drop : (b : Bytes) → drop 1 (drop 1 b) ≡ drop 2 b
drop-drop [] = refl
drop-drop (x ∷ bs) = refl

-- A character of one byte is taken off.
pub drop_octet :
    (n x : ℕ) (b : Bytes)
    → AreChars n b
    → at b 0 ≡ x
    → 0 < x
    → width x ≡ 1
    → AreChars (n - 1) (drop 1 b) × (n - 1 < n)
drop_octet n x b w e p o =
    let (d, l, q) = drop_first n b w (ground (arith, e, p)) in
    let k : width (at b 0) ≡ 1 = ap width e ∙ o in (rw k at d, l)

drop_crlf :
    (n : ℕ) (b : Bytes)
    → AreChars n b
    → at b 0 ≡ b'\r'
    → at b 1 ≡ b'\n'
    → AreChars (n - 2) (drop 2 b) × (n - 2 < n)
unfolding width
drop_crlf n b w e f =
    let (d, l) = drop_octet n 13 b w e (omega arith) refl in
    let (x, m) = drop_octet (n - 1) 10 (drop 1 b) d (at-drop b 0 ∙ f) (omega arith) refl in
    let k : n - 1 - 1 ≡ n - 2 = omega arith in (rw (k, drop-drop b) at x, omega (arith, l, m))

-- The characters and the bytes of a line break.
abbrev break_length : Bytes → ℕ
break_length b = if is_crlf b 0 then 2 else 1

abbrev break_width : Bytes → ℕ
break_width b = if is_crlf b 0 then 2 else width (at b 0)

abbrev behind_break : Cursor → Cursor
behind_break c = next_line (break_length c.buffer) (break_width c.buffer) c

behind_break-Steps :
    (c : Cursor) → IsWhole c → is_break c.buffer 0 ≡ true → Steps {0} c tt (behind_break c)
unfolding is_crlf is_break
behind_break-Steps c w h = elim (Bool-cases (is_crlf c.buffer 0)) [
  | inl e ↦ rw e (drop_crlf c.unread c.buffer w (ground (arith, e)) (ground (arith, e)))
  | inr e ↦ let (d, l, p) = drop_first c.unread c.buffer w (ground (arith, h)) in rw e (d, l)
]

skip_line_lem : (c : Cursor) → is_break c.buffer 0 ≡ true → skip_line c ≡ lexed tt (behind_break c)
unfolding skip_line
skip_line_lem c h = elim (Bool-cases (is_crlf c.buffer 0)) [
  | inl e ↦ rw e refl
  | inr e ↦ rw (e, h) refl
]

pub Goes-skip_line :
    (c : Cursor) → IsWhole c → is_break c.buffer 0 ≡ true → Goes (Steps c) (skip_line c)
Goes-skip_line c w h = rw (skip_line_lem c h) (behind_break-Steps c w h)

append-is_empty : (s : Bytes) (x : ℕ) (t : Bytes) → is_empty (s ++ x ∷ t) ≡ false
append-is_empty [] x t = refl
append-is_empty (y ∷ s) x t = refl

width_cr_lf : (x : ℕ) → (x == b'\r' || x == b'\n') ≡ true → width x ≡ 1
unfolding width
width_cr_lf x h = by_cases (ground (arith, h))
  where
    by_cases : (x ≡ 13) ⊎ (x ≡ 10) → width x ≡ 1
    by_cases (inl e) = rw e refl
    by_cases (inr e) = rw e refl

width_nel : (x : ℕ) → x ≡ 0xC2 → width x ≡ 2
unfolding width
width_nel x e = rw e refl

width_separator : (x : ℕ) → x ≡ 0xE2 → width x ≡ 3
unfolding width
width_separator x e = rw e refl

three_bytes : (s b : Bytes) → at b 0 ≡ 0xE2 → is_empty (s ++ take 3 b) ≡ false
three_bytes s [] h = absurd (omega (arith, h))
three_bytes s (x ∷ b) h = append-is_empty s x (take 2 b)

-- A break is read, and it is not empty.
abbrev Breaks : Cursor → Lexed Bytes → Type 0
Breaks c r = (t : Bytes) × (r ≡ lexed t (behind_break c)) × (is_empty t ≡ false)

read_line_lem : (s : Bytes) (c : Cursor) → is_break c.buffer 0 ≡ true → Breaks c (read_line s c)
unfolding read_line is_crlf is_break
read_line_lem s c h =
    let b = c.buffer in
    elim (Bool-cases (at b 0 == b'\r' && at b 1 == b'\n')) [
      | inl e ↦ (s ++ b'\n' ∷ [], rw e refl, append-is_empty s _ [])
      | inr e ↦ elim (Bool-cases (at b 0 == b'\r' || at b 0 == b'\n')) [
        | inl f ↦ (s ++ b'\n' ∷ [], rw (e, f, width_cr_lf (at b 0) f) refl, append-is_empty s _ [])
        | inr f ↦ elim (Bool-cases (at b 0 == 0xC2 && at b 1 == 0x85)) [
          | inl g ↦ (
            s ++ b'\n' ∷ [],
            rw (e, f, g, width_nel (at b 0) (ground (arith, g))) refl,
            append-is_empty s _ [],
          )
          | inr g ↦
              let k : (at b 0 == 0xE2 && at b 1 == 0x80 && (at b 2 == 0xA8 || at b 2 == 0xA9))
                  ≡ true =
                ground (arith, e, f, g, h) in
              let j : at b 0 ≡ 0xE2 = ground (arith, k) in
              (s ++ take 3 b, rw (e, f, g, k, width_separator (at b 0) j) refl, three_bytes s b j)
        ]
      ]
    ]

pub Goes-read_line :
    (s : Bytes) (c : Cursor)
    → IsWhole c
    → is_break c.buffer 0 ≡ true
    → Goes (λ t d. Steps c t d × (is_empty t ≡ false)) (read_line s c)
Goes-read_line s c w h = let (t, e, f) = read_line_lem s c h in rw e (behind_break-Steps c w h, f)
