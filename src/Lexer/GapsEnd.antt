-- ===== src/Lexer/GapsEnd.antt =====
-- The loop over the white space inside a flow scalar ends, and it consumes the white space that is there.
use yaml.Lexer.Cursor.{Cursor, Lex, read, read_line, return, skip}
use yaml.Lexer.Folding.{Folding, eat_gaps, is_gap, eat_blank, eat_break, eat_gap}
use yaml.Lexer.Outcome.{
  IsWhole, Steps, Goes, has_first, Goes-more, Goes-while, Goes-proceed, Goes-cache,
}
use yaml.Lexer.Moving.{Goes-read, Goes-read_line, Goes-skip}
use yaml.Base.{
  refl, Bytes, ◌≤◌, is_empty, ◌<◌, inl, arith, ◌⊎◌, ◌≡◌, false, true, inr, [], not, drop,
}
use yaml.Chars.{is_break, is_blank, width, at}
use yaml.Lexer.Safe.{Goes-choice}
use yaml.Lexer.NamesEnd.{is_blank-first}

-- The cursor has moved from there, or it has not.
abbrev pub IsFrom : Cursor → Cursor → Type 0
IsFrom c d = IsWhole d × ((d.unread < c.unread) ⊎ (d ≡ c))

pub IsFrom-le : (c d : Cursor) → IsFrom c d → d.unread ≤ c.unread
IsFrom-le c d (w, inl l) = omega (arith, l)
IsFrom-le c d (w, inr e) = rw e (omega arith)

-- A check before a blank fails, or it does nothing.
abbrev pub IsCheck : (Folding → Lex (Unit {0})) → Type 0
IsCheck check = (f : Folding) (c : Cursor) → Goes (λ u d. d ≡ c) (check f c)

-- What a predicate must be to be kept by the white space that is read.
abbrev pub IsKept : (Folding → Type 0) → Type 0
IsKept good =
    ((f : Folding) (w : Bytes) → good f → good (record f { whitespaces = w }))
    × ((f : Folding) (b : Bytes)
        → is_empty b ≡ false
        → good (record f { whitespaces = []; leading_break = b; leading_blanks = true }))
    × ((f : Folding) (b : Bytes) → good f → good (record f { trailing_breaks = b }))

abbrev Gapped : (Folding → Type 0) → Cursor → Folding → Cursor → Type 0
Gapped good c g d = good g × Steps {0} c tt d

eat_blank-Goes :
    (good : Folding → Type 0)
    → IsKept good
    → (f : Folding) (c : Cursor) → good f
    → IsWhole c
    → has_first c.buffer ≡ true
    → Goes (Gapped good c) (eat_blank f c)
eat_blank-Goes good (k, b, t) f c g w h =
    Goes-choice (Gapped good c) (not f.leading_blanks) _ _
      (λ x.
        Goes-proceed (Steps c) _ (read f.whitespaces c) _ (Goes-read f.whitespaces c w h)
          (λ s d y. (k f s g, y)))
      (λ x.
        Goes-proceed (λ u d. Steps c u d × (d.buffer ≡ drop (width (at c.buffer 0)) c.buffer)) _
          (skip c) _ (Goes-skip c w h) (λ u d (y, e). (g, y)))

eat_break-Goes :
    (good : Folding → Type 0)
    → IsKept good
    → (f : Folding) (c : Cursor) → good f
    → IsWhole c
    → is_break c.buffer 0 ≡ true
    → Goes (Gapped good c) (eat_break f c)
eat_break-Goes good (k, b, t) f c g w h =
    Goes-choice (Gapped good c) (not f.leading_blanks) _ _
      (λ x.
        Goes-proceed (λ s d. Steps c s d × (is_empty s ≡ false)) _ (read_line f.leading_break c) _
          (Goes-read_line f.leading_break c w h) (λ s d (y, e). (b f s e, y)))
      (λ x.
        Goes-proceed (λ s d. Steps c s d × (is_empty s ≡ false)) _ (read_line f.trailing_breaks c) _
          (Goes-read_line f.trailing_breaks c w h) (λ s d (y, e). (t f s g, y)))

eat_gap-Goes :
    (good : Folding → Type 0) (check : Folding → Lex (Unit {0}))
    → IsKept good
    → IsCheck check
    → (f : Folding) (c : Cursor) → good f
    → IsWhole c
    → is_gap c.buffer ≡ true
    → Goes (Gapped good c) (eat_gap check f c)
eat_gap-Goes good check k s f c g w h =
    Goes-choice (Gapped good c) (is_blank c.buffer 0) _ _
      (λ x.
        Goes-proceed (λ u d. d ≡ c) (Gapped good c) (check f c) _ (s f c)
          (λ u d e. rw e (eat_blank-Goes good k f c g w (is_blank-first c.buffer x))))
      (λ x.
        Goes-cache (Gapped good c) 2 (eat_break f) c
          (eat_break-Goes good k f c g w (ground (arith, h, x))))

-- The white space that is there is consumed.
pub eat_gaps-Goes :
    (good : Folding → Type 0) (check : Folding → Lex (Unit {0}))
    → IsKept good
    → IsCheck check
    → (f : Folding) (c : Cursor) → good f
    → IsWhole c
    → Goes (λ g d. good g × IsFrom c d × (is_gap d.buffer ≡ false)) (eat_gaps check f c)
unfolding eat_gaps
eat_gaps-Goes good check k s f c g w =
    Goes-more (λ g d. (good g × IsFrom c d) × (is_gap d.buffer ≡ false)) _ _
      (Goes-while (λ g d. good g × IsFrom c d) is_gap _
        (λ g d (x, (v, m)) t.
          Goes-proceed (Gapped good d) _ (eat_gap check g d) _
            (eat_gap-Goes good check k s g d x v t)
            (λ h e (y, (z, l)).
              Goes-cache _ 1 (return h) e ((y, (z, inl (later c d e (v, m) l))), l)))
        f c (g, (w, inr refl)))
      (λ g d ((x, y), e). (x, y, e))
  where
    later : (c d e : Cursor) → IsFrom c d → e.unread < d.unread → e.unread < c.unread
    later c d e h l = let m = IsFrom-le c d h in omega (arith, l, m)

pub eat_gaps-Steps :
    (good : Folding → Type 0) (check : Folding → Lex (Unit {0}))
    → IsKept good
    → IsCheck check
    → (f : Folding) (c : Cursor) → good f
    → IsWhole c
    → is_gap c.buffer ≡ true
    → Goes (λ g d. good g × Steps c g d) (eat_gaps check f c)
eat_gaps-Steps good check k s f c g w h =
    Goes-more (λ g d. good g × IsFrom c d × (is_gap d.buffer ≡ false)) _ (eat_gaps check f c)
      (eat_gaps-Goes good check k s f c g w) (λ x d (y, z, e). (y, moved d z e))
  where
    moved : (d : Cursor) → IsFrom c d → is_gap d.buffer ≡ false → Steps {0} c tt d
    moved d (v, inl l) e = (v, l)
    moved d (v, inr q) e = absurd (ground (arith, h, rw q at e))
