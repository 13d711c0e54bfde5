-- ===== src/Lexer/NamesEnd.antt =====
-- The scans of anchors, aliases and tags end and do not panic.
use yaml.Lexer.Cursor.{◌>>◌, Cursor, skip, read, Lex, loop, Lexed, cache, while, return}
use yaml.Chars.{is_alpha, is_blank, is_break, is_hex, at, as_hex, is_blankz}
use yaml.Base.{
  ℕ, Bytes, Bool, not, ◌≡◌, true, suc, arith, [], ◌==◌, is_empty, ◌||◌, Bool-cases, inl, ◌&&◌, inr,
  ap, Option, ◌<◌, equal, codes, String, false, if◌then◌else◌, ◌*◌, none, ltb, some, ◌+◌, length,
  ◌%◌, drop, ◌^◌,
}
use yaml.Lexer.Names.{
  scan_anchor, scan_tag_handle, is_uri, read_alpha, ends_anchor, end_handle, scan_uri_escapes,
  escaped_octet, uri_part, scan_tag_uri, shorthand_tag, verbatim_tag, scan_tag, refuse_tag, last_of,
  octet_error, left_behind,
}
use yaml.Types.{TokenType, Mark}
use yaml.Lexer.Outcome.{Leaves, has_first, IsWhole, Goes, Turned, Goes-loop, Goes-cache, Turned-if}
use yaml.Lexer.Safe.{
  IsSafe, proceed-IsSafe, cache-IsSafe, read_while-IsSafe, if-IsSafe, skip-IsSafe, read_on-IsSafe,
  is_octet, choice-IsSafe, octet-Goes, Goes-choice, read-IsSafe, skip_on-IsSafe, while-IsSafe,
}

is_alpha-first : (b : Bytes) → is_alpha b 0 ≡ true → has_first b ≡ true
unfolding is_alpha
is_alpha-first b h = ground (arith, h)

pub is_blank-first : (b : Bytes) → is_blank b 0 ≡ true → has_first b ≡ true
unfolding is_blank
is_blank-first b h = ground (arith, h)

pub is_break-first : (b : Bytes) → is_break b 0 ≡ true → has_first b ≡ true
unfolding is_break
is_break-first b h = ground (arith, h)

is_uri-first : (b : Bytes) → is_uri b ≡ true → has_first b ≡ true
unfolding is_alpha
is_uri-first b h = elim (Bool-cases (at b 0 == 0)) [
  | inl e ↦ let z : at b 0 ≡ 0 = ground (arith, e) in absurd (ground (arith, rw z at h))
  | inr e ↦ ap not e
]

pub read_alpha-IsSafe : (n : ℕ) (s : Bytes) (c : Cursor) → Leaves n c → IsSafe n (read_alpha s c)
read_alpha-IsSafe n s c h = read_while-IsSafe _ is_alpha-first n s c h

pub scan_anchor-IsSafe :
    (typ : TokenType) (n : ℕ) (c : Cursor)
    → Leaves (suc n) c
    → has_first c.buffer ≡ true
    → IsSafe n (scan_anchor typ c)
unfolding scan_anchor
scan_anchor-IsSafe typ n c h f = proceed-IsSafe n n (skip c) _ (skip-IsSafe n c h f) (λ u d g.
    cache-IsSafe n 1 _ d (
      proceed-IsSafe n n (read_alpha [] d) _ (read_alpha-IsSafe n [] d g)
        (λ s e k. if-IsSafe n (is_empty s || not (ends_anchor e.buffer)) _ _ e (λ x. tt) (λ x. k))))

end_handle-IsSafe :
    (directive : Bool) (mark : Mark) (n : ℕ) (s : Bytes) (c : Cursor)
    → Leaves n c
    → IsSafe n (end_handle directive mark s c)
end_handle-IsSafe directive mark n s c h =
    choice-IsSafe n (at c.buffer 0 == b'!') _ _ (λ x. read_on-IsSafe n s c h (ground (arith, x)))
      (λ x. choice-IsSafe n (directive && not (equal s (codes "!"))) _ _ (λ y. tt) (λ y. h))

pub scan_tag_handle-IsSafe :
    (directive : Bool) (mark : Mark) (n : ℕ) (c : Cursor)
    → Leaves n c
    → IsSafe n (scan_tag_handle directive mark c)
unfolding scan_tag_handle
scan_tag_handle-IsSafe directive mark n c h = cache-IsSafe n 1 _ c (
    if-IsSafe n (not (at c.buffer 0 == b'!')) _ _ c (λ x. tt)
      (λ x. proceed-IsSafe n n (read [] c) _ (read_on-IsSafe n [] c h (ground (arith, x))) (λ s d g.
        cache-IsSafe n 1 _ d (
          proceed-IsSafe n n (read_alpha s d) _ (read_alpha-IsSafe n s d g)
            (λ t e k. end_handle-IsSafe directive mark n t e k)))))

pub hex-octet : (x : ℕ) (b : Bytes) → is_hex b x ≡ true → is_octet (at b x) ≡ true
unfolding is_hex
hex-octet x b h = ground (arith, h)

-- An escaped octet is three characters.
escaped-Goes {ℓ} :
    {A : Type ℓ} (good : A → Cursor → Type 0) (k : Lex A) (c : Cursor)
    → IsWhole c
    → (at c.buffer 0 == b'%' && is_hex c.buffer 1 && is_hex c.buffer 2) ≡ true
    → ((d : Cursor) → IsWhole d → d.unread < c.unread → Goes good (k d))
    → Goes good ((skip >> skip >> skip >> k) c)
unfolding is_hex
escaped-Goes good k c w e f = octet-Goes good _ c w (ground (arith, e)) (λ d (v, l) p.
    octet-Goes good _ d v (rw (p 0) (ground (arith, e))) (λ x (y, m) q.
      octet-Goes good _ x y (rw (q 0, p 1) (ground (arith, e)))
        (λ z (a, o) r. f z a (omega (arith, l, m, o)))))

Goes-problem {ℓ} :
    {A : Type ℓ} (good : A → Cursor → Type 0) (directive : Bool) (mark : Mark) (r : Option String)
    (x : Lexed A) (c : Cursor)
    → Goes good x
    → Goes good
        (elim r as (λ _. Lexed A) [ some problem ↦ refuse_tag directive mark problem c | none ↦ x ])
Goes-problem good directive mark none x c h = h
Goes-problem good directive mark (some problem) x c h = tt

escaped_octet-Goes :
    (directive : Bool) (mark : Mark) (n : ℕ) (w : Option ℕ) (s : Bytes) (c : Cursor)
    → Leaves (suc n) c
    → Goes
        (Turned (λ a d. Leaves (suc n) d) (λ a d. Leaves n d) c.unread)
        (escaped_octet directive mark w s c)
escaped_octet-Goes directive mark n w s c (v, l) =
    let octet : ℕ = (as_hex c.buffer 1 * 16 + as_hex c.buffer 2) % 2 ^ 8 in
    Goes-choice _ (not (at c.buffer 0 == b'%' && is_hex c.buffer 1 && is_hex c.buffer 2)) _ _
      (λ x. tt)
      (λ x. Goes-problem _ directive mark (octet_error w octet) _ c (
        escaped-Goes _ _ c v (ground (arith, x)) (λ d y m.
          Turned-if _ _ c.unread (left_behind w octet == 0) _ _ d (y, omega (arith, l, m))
            ((y, omega (arith, l, m)), m))))

scan_uri_escapes-IsSafe :
    (directive : Bool) (mark : Mark) (n : ℕ) (s : Bytes) (c : Cursor)
    → Leaves (suc n) c
    → IsSafe n (scan_uri_escapes directive mark s c)
unfolding scan_uri_escapes
scan_uri_escapes-IsSafe directive mark n s c h =
    proceed-IsSafe n n (loop (λ (w, t). cache 3 >> escaped_octet directive mark w t) (none, s) c) _
      (Goes-loop (λ a d. Leaves (suc n) d) (λ a d. Leaves n d) _
        (λ (w, t) d g. Goes-cache _ 3 _ d (escaped_octet-Goes directive mark n w t d g)) (none, s) c
        h)
      (λ a d g. g)

uri_part-IsSafe :
    (directive : Bool) (mark : Mark) (n : ℕ) (s : Bytes) (c : Cursor)
    → Leaves (suc n) c
    → has_first c.buffer ≡ true
    → IsSafe n (uri_part directive mark s c)
uri_part-IsSafe directive mark n s c h f =
    choice-IsSafe n (at c.buffer 0 == b'%') _ _
      (λ x. scan_uri_escapes-IsSafe directive mark n s c h) (λ x. read-IsSafe n s c h f)

pub scan_tag_uri-IsSafe :
    (directive : Bool) (head : Bytes) (mark : Mark) (n : ℕ) (c : Cursor)
    → Leaves n c
    → IsSafe n (scan_tag_uri directive head mark c)
unfolding scan_tag_uri
scan_tag_uri-IsSafe directive head mark n c h = cache-IsSafe n 1 _ c (
    proceed-IsSafe n n (while is_uri _ (ltb 0 (length head), drop 1 head) c) _
      (while-IsSafe is_uri _ n
        (λ m (b, s) d g e f.
          proceed-IsSafe m m (uri_part directive mark s d) _
            (uri_part-IsSafe directive mark m s d g f)
            (λ t x y. cache-IsSafe m 1 (return (true, t)) x y))
        is_uri-first (ltb 0 (length head), drop 1 head) c h)
      (λ (b, s) d g. if-IsSafe n b _ _ d (λ x. g) (λ x. tt)))

shorthand_tag-IsSafe :
    (mark : Mark) (n : ℕ) (c : Cursor) → Leaves n c → IsSafe n (shorthand_tag mark c)
shorthand_tag-IsSafe mark n c h =
    proceed-IsSafe n n (scan_tag_handle false mark c) _ (scan_tag_handle-IsSafe false mark n c h)
      (λ s d g.
        if-IsSafe n (at s 0 == b'!' && ltb 1 (length s) && last_of s == b'!') _ _ d
          (λ x.
            proceed-IsSafe n n (scan_tag_uri false [] mark d) _
              (scan_tag_uri-IsSafe false [] mark n d g) (λ t e k. k))
          (λ x.
            proceed-IsSafe n n (scan_tag_uri false s mark d) _
              (scan_tag_uri-IsSafe false s mark n d g) (λ t e k. k)))

verbatim_tag-IsSafe :
    (mark : Mark) (n : ℕ) (c : Cursor)
    → Leaves n c
    → (at c.buffer 0 == b'!' && at c.buffer 1 == b'<') ≡ true
    → IsSafe n (verbatim_tag mark c)
verbatim_tag-IsSafe mark n c (w, l) e = octet-Goes _ _ c w (ground (arith, e)) (λ d (v, m) p.
    octet-Goes _ _ d v (rw (p 0) (ground (arith, e))) (λ x (y, o) q.
      proceed-IsSafe n n (scan_tag_uri false [] mark x) _
        (scan_tag_uri-IsSafe false [] mark n x (y, omega (arith, l, m, o)))
        (λ s z g.
          if-IsSafe n (not (at z.buffer 0 == b'>')) _ _ z (λ a. tt)
            (λ a.
              proceed-IsSafe n n (skip z) _ (skip_on-IsSafe n z g (ground (arith, a)))
                (λ u b k. k)))))

pub scan_tag-IsSafe :
    (n : ℕ) (c : Cursor) → Leaves n c → at c.buffer 0 ≡ b'!' → IsSafe n (scan_tag c)
unfolding scan_tag
scan_tag-IsSafe n c h f = cache-IsSafe n 2 _ c (
    proceed-IsSafe n n
      ((if at c.buffer 1 == b'<' then verbatim_tag c.mark else shorthand_tag c.mark) c) _
      (if-IsSafe n (at c.buffer 1 == b'<') _ _ c
        (λ x. verbatim_tag-IsSafe c.mark n c h (ground (arith, f, x)))
        (λ x. shorthand_tag-IsSafe c.mark n c h))
      (λ (s, t) d g.
        cache-IsSafe n 1 _ d (if-IsSafe n (not (is_blankz d.buffer 0)) _ _ d (λ x. tt) (λ x. g))))
