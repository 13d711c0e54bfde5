-- ===== src/Lexer/DirectivesEnd.antt =====
-- The scans of directives end and do not panic.
use yaml.Lexer.Cursor.{Cursor, while, skip}
use yaml.Chars.{is_digit, is_breakz, at, is_break, is_blank, is_blankz}
use yaml.Base.{ℕ, Bytes, not, ◌≡◌, true, suc, arith, [], ltb, equal, codes, ◌==◌, is_empty, ◌+◌}
use yaml.Lexer.Directives.{
  scan_directive_name, scan_version_directive_number, scan_version_directive_value,
  scan_tag_directive_value, scan_directive, eat_blanks, number_digit, directive_value, eat_comment,
  eat_line_end, max_number_length,
}
use yaml.Types.{Mark}
use yaml.Lexer.Outcome.{Leaves, has_first}
use yaml.Lexer.Safe.{
  IsSafe, cache-IsSafe, proceed-IsSafe, skip_while-IsSafe, choice-IsSafe, if-IsSafe, while-IsSafe,
  skip-IsSafe, skip_line-IsSafe, skip_on-IsSafe,
}
use yaml.Lexer.Names.{read_alpha, scan_tag_handle, scan_tag_uri}
use yaml.Lexer.NamesEnd.{
  is_blank-first, scan_tag_handle-IsSafe, read_alpha-IsSafe, scan_tag_uri-IsSafe,
}

is_digit-first : (b : Bytes) → is_digit b 0 ≡ true → has_first b ≡ true
unfolding is_digit
is_digit-first b h = ground (arith, h)

not_breakz-first : (b : Bytes) → not (is_breakz b 0) ≡ true → has_first b ≡ true
unfolding is_breakz
not_breakz-first b h = ground (arith, h)

eat_blanks-IsSafe : (n : ℕ) (c : Cursor) → Leaves n c → IsSafe n (eat_blanks c)
eat_blanks-IsSafe n c h = skip_while-IsSafe _ is_blank-first n c h

scan_directive_name-IsSafe :
    (mark : Mark) (n : ℕ) (c : Cursor) → Leaves n c → IsSafe n (scan_directive_name mark c)
unfolding scan_directive_name
scan_directive_name-IsSafe mark n c h = cache-IsSafe n 1 _ c (
    proceed-IsSafe n n (read_alpha [] c) _ (read_alpha-IsSafe n [] c h) (λ s d g.
      if-IsSafe n (is_empty s) _ _ d (λ x. tt)
        (λ x. if-IsSafe n (not (is_blankz d.buffer 0)) _ _ d (λ y. tt) (λ y. g))))

number_digit-IsSafe :
    (mark : Mark) (v k : ℕ) (n : ℕ) (c : Cursor)
    → Leaves (suc n) c
    → has_first c.buffer ≡ true
    → IsSafe n (number_digit mark v k c)
number_digit-IsSafe mark v k n c h f =
    choice-IsSafe n (ltb max_number_length (k + 1)) _ _ (λ x. tt)
      (λ x. proceed-IsSafe n n (skip c) _ (skip-IsSafe n c h f) (λ u d g. cache-IsSafe n 1 _ d g))

scan_version_directive_number-IsSafe :
    (mark : Mark) (n : ℕ) (c : Cursor)
    → Leaves n c
    → IsSafe n (scan_version_directive_number mark c)
unfolding scan_version_directive_number
scan_version_directive_number-IsSafe mark n c h = cache-IsSafe n 1 _ c (
    proceed-IsSafe n n (while (λ b. is_digit b 0) _ (0, 0) c) _
      (while-IsSafe (λ b. is_digit b 0) _ n
        (λ m (v, k) d g e f. number_digit-IsSafe mark v k m d g f) is_digit-first (0, 0) c h)
      (λ (v, k) d g. if-IsSafe n (k == 0) _ _ d (λ x. tt) (λ x. g)))

scan_version_directive_value-IsSafe :
    (mark : Mark) (n : ℕ) (c : Cursor) → Leaves n c → IsSafe n (scan_version_directive_value mark c)
unfolding scan_version_directive_value
scan_version_directive_value-IsSafe mark n c h = cache-IsSafe n 1 _ c (
    proceed-IsSafe n n (eat_blanks c) _ (eat_blanks-IsSafe n c h) (λ u d g.
      proceed-IsSafe n n (scan_version_directive_number mark d) _
        (scan_version_directive_number-IsSafe mark n d g)
        (λ v e k.
          if-IsSafe n (not (at e.buffer 0 == b'.')) _ _ e (λ x. tt)
            (λ x. proceed-IsSafe n n (skip e) _ (skip_on-IsSafe n e k (ground (arith, x))) (λ w z l.
              proceed-IsSafe n n (scan_version_directive_number mark z) _
                (scan_version_directive_number-IsSafe mark n z l) (λ y a m. m))))))

scan_tag_directive_value-IsSafe :
    (mark : Mark) (n : ℕ) (c : Cursor) → Leaves n c → IsSafe n (scan_tag_directive_value mark c)
unfolding scan_tag_directive_value
scan_tag_directive_value-IsSafe mark n c h = cache-IsSafe n 1 _ c (
    proceed-IsSafe n n (eat_blanks c) _ (eat_blanks-IsSafe n c h) (λ u d g.
      proceed-IsSafe n n (scan_tag_handle true mark d) _ (scan_tag_handle-IsSafe true mark n d g)
        (λ s e k. cache-IsSafe n 1 _ e (
          if-IsSafe n (not (is_blank e.buffer 0)) _ _ e (λ x. tt)
            (λ x. proceed-IsSafe n n (eat_blanks e) _ (eat_blanks-IsSafe n e k) (λ v z l.
              proceed-IsSafe n n (scan_tag_uri true [] mark z) _
                (scan_tag_uri-IsSafe true [] mark n z l)
                (λ t a m.
                  cache-IsSafe n 1 _ a
                    (if-IsSafe n (not (is_blankz a.buffer 0)) _ _ a (λ y. tt) (λ y. m)))))))))

directive_value-IsSafe :
    (name : Bytes) (mark : Mark) (n : ℕ) (c : Cursor)
    → Leaves n c
    → IsSafe n (directive_value name mark c)
directive_value-IsSafe name mark n c h =
    if-IsSafe n (equal name (codes "YAML")) _ _ c
      (λ x.
        proceed-IsSafe n n (scan_version_directive_value mark c) _
          (scan_version_directive_value-IsSafe mark n c h) (λ v d g. g))
      (λ x.
        if-IsSafe n (equal name (codes "TAG")) _ _ c
          (λ y.
            proceed-IsSafe n n (scan_tag_directive_value mark c) _
              (scan_tag_directive_value-IsSafe mark n c h) (λ v d g. g))
          (λ y. tt))

eat_comment-IsSafe : (n : ℕ) (c : Cursor) → Leaves n c → IsSafe n (eat_comment c)
eat_comment-IsSafe n c h =
    choice-IsSafe n (at c.buffer 0 == b'#') _ _
      (λ x. skip_while-IsSafe (λ b. not (is_breakz b 0)) not_breakz-first n c h) (λ x. h)

eat_line_end-IsSafe : (n : ℕ) (c : Cursor) → Leaves n c → IsSafe n (eat_line_end c)
eat_line_end-IsSafe n c h =
    choice-IsSafe n (is_break c.buffer 0) _ _ (λ x. cache-IsSafe n 2 _ c (skip_line-IsSafe n c h x))
      (λ x. h)

pub scan_directive-IsSafe :
    (n : ℕ) (c : Cursor)
    → Leaves (suc n) c
    → has_first c.buffer ≡ true
    → IsSafe n (scan_directive c)
unfolding scan_directive
scan_directive-IsSafe n c h f = proceed-IsSafe n n (skip c) _ (skip-IsSafe n c h f) (λ u d g.
    proceed-IsSafe n n (scan_directive_name c.mark d) _ (scan_directive_name-IsSafe c.mark n d g)
      (λ s e k.
        proceed-IsSafe n n (directive_value s c.mark e) _ (directive_value-IsSafe s c.mark n e k)
          (λ t z l. cache-IsSafe n 1 _ z (
            proceed-IsSafe n n (eat_blanks z) _ (eat_blanks-IsSafe n z l) (λ v a m.
              proceed-IsSafe n n (eat_comment a) _ (eat_comment-IsSafe n a m) (λ w b o.
                if-IsSafe n (not (is_breakz b.buffer 0)) _ _ b (λ x. tt)
                  (λ x.
                    proceed-IsSafe n n (eat_line_end b) _ (eat_line_end-IsSafe n b o)
                      (λ y i p. p))))))))
