-- ===== src/Lexer/QuotedEnds.antt =====
-- The scan of a quoted scalar ends and does not panic.
use yaml.Lexer.Cursor.{
  ◌>>=◌, ◌>>◌, Cursor, Lex, skip, return, cache, skip_line, stop, read, loop, here, again,
}
use yaml.Base.{
  ◌⊎◌, inl, inr, subst, ◌∷◌, List, ℕ, Bytes, Bool, suc, ◌≡◌, true, false, inl, arith, ap, inr, refl,
  ◌&&◌, ◌==◌, [], ◌<◌, ◌⊎◌, ◌||◌, not, if◌then◌else◌, ◌-◌, ◌≤◌,
}
use yaml.Lexer.Quoted.{
  escape, quoted_character, with_text, further, quote_of, join_quoted, quoted_round,
  scan_flow_scalar,
}
use yaml.Lexer.Safe.{
  is_octet, IsSafe, octet-Goes, Goes-choice, proceed-IsSafe, some_left, read-IsSafe, Goes-if,
  skip-IsSafe, skip_on-IsSafe,
}
use yaml.Types.{Mark}
use yaml.Lexer.Folding.{Folding, eat_gaps, is_gap, is_document_indicator, no_folding}
use yaml.Lexer.Outcome.{
  Leaves, IsWhole, Goes, Turned, Goes-proceed, Goes-cache, has_first, Steps, Goes-loop,
}
use yaml.Lexer.Moving.{Goes-skip_line}
use yaml.Chars.{at, is_blankz, is_break, is_z, is_blank}
use yaml.Lexer.GapsEnd.{IsFrom, IsFrom-le, IsCheck, IsKept, eat_gaps-Goes, eat_gaps-Steps}
use yaml.Lexer.EscapesEnd.{not_blankz-first, two-IsSafe, escape-IsSafe}

abbrev all_octets : List (ℕ × Bytes) → Bool
all_octets [] = true
all_octets ((y, bs) ∷ es) = is_octet y && all_octets es

at_quote :
    (single : Bool) (x : ℕ) (b : Bool)
    → ((single && x == 39) || (not single && x == b'"')) ≡ true
    → (b || x == quote_of single) ≡ true
at_quote true x b h = ground (arith, h)
at_quote false x b h = ground (arith, h)

-- Where the loop over the characters that are not blank ends: it has consumed one, or it is where it
-- began, at a blank or at the quote.
abbrev Halts : Bool → Cursor → Folding → Cursor → Type 0
Halts single c f d =
    IsWhole d
    × ((d.unread < c.unread)
        ⊎ ((d ≡ c) × ((is_blankz c.buffer 0 || at c.buffer 0 == quote_of single) ≡ true)))

halted :
    (single : Bool) (f : Folding) (c d : Cursor)
    → IsFrom c d
    → (is_blankz d.buffer 0 || at d.buffer 0 == quote_of single) ≡ true
    → Halts single c f d
halted single f c d (w, inl l) h = (w, inl l)
halted single f c d (w, inr e) h =
    (w, inr (e, subst (λ x. (is_blankz x.buffer 0 || at x.buffer 0 == quote_of single) ≡ true) e h))

-- A round leads on, and it has consumed a character.
further-Goes :
    (fine : Folding → Cursor → Type 0) (r : Lex Folding) (c d : Cursor)
    → IsFrom c d
    → has_first d.buffer ≡ true
    → ((m : ℕ) → Leaves (suc m) d → IsSafe m (r d))
    → Goes (Turned (λ f e. IsFrom c e) fine d.unread) (further r d)
further-Goes fine r c d h t f =
    let l = IsFrom-le c d h in
    let p = some_left d.unread d.buffer h.0 t in
    Goes-proceed (λ g e. Leaves (d.unread - 1) e) _ (r d) _
      (f (d.unread - 1) (h.0, omega (arith, p)))
      (λ g e (w, k). Goes-cache _ 2 _ e ((w, inl (omega (arith, l, k, p))), omega (arith, k, p)))

-- An escaped line break.
escaped_break-Goes :
    (single : Bool) (f : Folding) (c d : Cursor)
    → IsFrom c d
    → at d.buffer 0 ≡ 92
    → is_break d.buffer 1 ≡ true
    → Goes
        (Turned (λ g e. IsFrom c e) (Halts single c) d.unread)
        ((skip >> skip_line >> return (stop f)) d)
unfolding is_break
escaped_break-Goes single f c d h e b =
    let l = IsFrom-le c d h in
    octet-Goes _ _ d h.0 (ground (arith, e)) (λ x (w, m) q.
      Goes-proceed (Steps x) _ (skip_line x) _ (Goes-skip_line x w (rw (q 0, q 1, q 2) b))
        (λ u y (v, n). (v, inl (omega (arith, l, m, n)))))

quoted_character-Goes :
    (single : Bool) (start : Mark) (c : Cursor) (f : Folding) (d : Cursor)
    → IsFrom c d
    → Goes
        (Turned (λ g e. IsFrom c e) (Halts single c) d.unread)
        (quoted_character single start f d)
unfolding quoted_character
quoted_character-Goes single start c f d h =
    let b = d.buffer in
    Goes-choice _ (is_blankz b 0) _ _ (λ x. halted single f c d h (ground (arith, x)))
      (λ x.
        let o = not_blankz-first b x in
        Goes-choice _ (single && at b 0 == 39 && at b 1 == 39) _ _
          (λ y.
            further-Goes (Halts single c) (skip >> skip >> return (with_text f (39 ∷ []))) c d h o
              (λ m g.
                two-IsSafe m (return (with_text f (39 ∷ []))) d g (ground (arith, y))
                  (ground (arith, y)) (λ e k. k)))
          (λ y.
            Goes-choice _ ((single && at b 0 == 39) || (not single && at b 0 == b'"')) _ _
              (λ z. halted single f c d h (at_quote single (at b 0) (is_blankz b 0) z))
              (λ z.
                Goes-choice _ (not single && at b 0 == 92 && is_break b 1) _ _
                  (λ u.
                    Goes-cache _ 3 _ d
                      (escaped_break-Goes single _ c d h (ground (arith, u)) (ground (arith, u))))
                  (λ u.
                    Goes-choice _ (not single && at b 0 == 92) _ _
                      (λ v.
                        further-Goes (Halts single c) (escape start f) c d h o
                          (λ m g. escape-IsSafe start m f d g (ground (arith, v))))
                      (λ v.
                        further-Goes (Halts single c)
                          (read f.text >>= λ s. return (record f { text = s })) c d h o
                          (λ m g.
                            proceed-IsSafe m m (read f.text d) _ (read-IsSafe m f.text d g o)
                              (λ s e k. k)))))))

no_test : IsCheck (λ _. return tt)
no_test f c = refl

any_text : IsKept (λ _. Unit {0})
any_text = (λ f w g. tt, λ f b e. tt, λ f b g. tt)

Halts-IsFrom :
    (single : Bool) (c : Cursor) (f : Folding) (d : Cursor) → Halts single c f d → IsFrom c d
Halts-IsFrom single c f d (w, inl l) = (w, inl l)
Halts-IsFrom single c f d (w, inr (e, q)) = (w, inr e)

blankz_gap :
    (single : Bool) (b : Bytes)
    → (is_blankz b 0 || at b 0 == quote_of single) ≡ true
    → (at b 0 == quote_of single) ≡ false
    → is_z b 0 ≡ false
    → is_gap b ≡ true
unfolding is_z is_blankz is_blank is_break
blankz_gap single b h q z = ground (arith, h, q, z)

-- The white space behind the characters of a round.
gaps-Goes :
    (single : Bool) (f : Folding) (n : ℕ) (c d : Cursor)
    → c.unread ≤ n
    → is_z c.buffer 0 ≡ false
    → Halts single c f d
    → (at d.buffer 0 == quote_of single) ≡ false
    → Goes
        (Turned
          (λ g e. Leaves n e)
          (λ g e. Leaves n e × (at e.buffer 0 ≡ quote_of single))
          c.unread)
        ((eat_gaps (λ _. return tt) f >>= λ h. return (again (join_quoted h))) d)
gaps-Goes single f n c d l z (w, inl m) q =
    Goes-proceed (λ g e. Unit {0} × IsFrom d e × (is_gap e.buffer ≡ false)) _
      (eat_gaps (λ _. return tt) f d) _
      (eat_gaps-Goes (λ _. Unit {0}) (λ _. return tt) any_text no_test f d tt w)
      (λ g e (u, k, r).
        let j = IsFrom-le d e k in ((k.0, omega (arith, j, l, m)), omega (arith, j, m)))
gaps-Goes single f n c d l z (w, inr (e, b)) q =
    let k : is_gap c.buffer ≡ true =
      blankz_gap single c.buffer b (subst (λ x. (at x.buffer 0 == quote_of single) ≡ false) e q)
        z in
    let o : d.unread ≡ c.unread = ap (λ x. x.unread) e in
    Goes-proceed (λ g y. Unit {0} × Steps d g y) _ (eat_gaps (λ _. return tt) f d) _
      (eat_gaps-Steps (λ _. Unit {0}) (λ _. return tt) any_text no_test f d tt w (rw e k))
      (λ g y (u, (v, m)). ((v, omega (arith, l, m, o)), omega (arith, m, o)))

-- A round begins with a character, and it consumes one if it is not the last.
round_body-Goes :
    (single : Bool) (start : Mark) (f : Folding) (n : ℕ) (c : Cursor)
    → Leaves n c
    → is_z c.buffer 0 ≡ false
    → Goes
        (Turned
          (λ g d. Leaves n d)
          (λ g d. Leaves n d × (at d.buffer 0 ≡ quote_of single))
          c.unread)
        ((do
          g ← loop (quoted_character single start) f
          cache 1
          d ← here
          if at d.buffer 0 == quote_of single
              then return (stop g)
              else (do h ← eat_gaps (λ _. return tt) g; return (again (join_quoted h))))
          c)
round_body-Goes single start f n c (w, l) z =
    Goes-proceed (Halts single c) _ (loop (quoted_character single start) f c) _
      (Goes-loop (λ g d. IsFrom c d) (Halts single c) (quoted_character single start)
        (λ g d h. quoted_character-Goes single start c g d h) f c (w, inr refl))
      (λ g d h. Goes-cache _ 1 _ d (
        Goes-if _ (at d.buffer 0 == quote_of single) _ _ d
          (λ x. (
            (h.0, let k = IsFrom-le c d (Halts-IsFrom single c g d h) in omega (arith, k, l)),
            ground (arith, x),
          ))
          (λ x. gaps-Goes single g n c d l z h x)))

pub quoted_round-Goes :
    (single : Bool) (start : Mark) (f : Folding) (n : ℕ) (c : Cursor)
    → Leaves n c
    → Goes
        (Turned
          (λ g d. Leaves n d)
          (λ g d. Leaves n d × (at d.buffer 0 ≡ quote_of single))
          c.unread)
        (quoted_round single start f c)
unfolding quoted_round
quoted_round-Goes single start f n c h = Goes-cache _ 4 _ c (
    Goes-if _ (is_document_indicator c) _ _ c (λ x. tt)
      (λ x.
        Goes-if _ (is_z c.buffer 0) _ _ c (λ y. tt)
          (λ y. round_body-Goes single start (record f { leading_blanks = false }) n c h y)))

quote-first : (single : Bool) (b : Bytes) → at b 0 ≡ quote_of single → has_first b ≡ true
quote-first single b e = ground (arith, e)

pub scan_flow_scalar-IsSafe :
    (single : Bool) (n : ℕ) (c : Cursor)
    → Leaves (suc n) c
    → has_first c.buffer ≡ true
    → IsSafe n (scan_flow_scalar single c)
unfolding scan_flow_scalar
scan_flow_scalar-IsSafe single n c h t =
    proceed-IsSafe n n (skip c) _ (skip-IsSafe n c h t) (λ u d g.
      Goes-proceed (λ f e. Leaves n e × (at e.buffer 0 ≡ quote_of single)) _
        (loop (quoted_round single c.mark) no_folding d) _
        (Goes-loop (λ f e. Leaves n e) (λ f e. Leaves n e × (at e.buffer 0 ≡ quote_of single))
          (quoted_round single c.mark) (λ f e k. quoted_round-Goes single c.mark f n e k) no_folding
          d g)
        (λ f e (k, q).
          proceed-IsSafe n n (skip e) _ (skip_on-IsSafe n e k (quote-first single e.buffer q))
            (λ v x m. m)))
