-- ===== src/Lexer/PlainEnds.antt =====
-- The scan of a plain scalar ends and does not panic: where it looks at the first byte of the leading
-- break, there is one.
use yaml.Lexer.Cursor.{Cursor, loop, read}
use yaml.Base.{
  refl, inl, inr, ℕ, ◌≡◌, true, ◌≤◌, is_empty, ◌||◌, ◌&&◌, false, ltb, not, length, arith, ◌==◌,
}
use yaml.Lexer.Folding.{Folding, is_document_indicator, is_gap, no_folding, eat_gaps}
use yaml.Lexer.GapsEnd.{IsKept, IsFrom, IsCheck, eat_gaps-Steps, IsFrom-le}
use yaml.Lexer.Plain.{
  join_plain, plain_character, check_tab, plain_gaps, plain_round, scan_plain_scalar, ends_plain,
}
use yaml.Lexer.Outcome.{Goes, Leaves, Turned, Goes-cache, Goes-proceed, Steps, Goes-loop, Turned-if}
use yaml.Lexer.Moving.{Goes-read}
use yaml.Types.{Mark}
use yaml.Lexer.Safe.{Goes-choice, IsSafe, Goes-if}
use yaml.Chars.{is_blankz, is_tab, at}
use yaml.Lexer.EscapesEnd.{not_blankz-first}

-- Behind leading blanks there is a leading break.
abbrev IsFit : Folding → Type 0
IsFit f = f.leading_blanks ≡ true → is_empty f.leading_break ≡ false

IsFit-IsKept : IsKept IsFit
IsFit-IsKept = (λ f w g. g, λ f b e l. e, λ f b g. g)

join_plain-Goes :
    (f : Folding) (c : Cursor) → IsFit f → Goes (λ g d. IsFit g × (d ≡ c)) (join_plain f c)
unfolding join_plain
join_plain-Goes f c h =
    Goes-choice _ (f.leading_blanks || ltb 0 (length f.whitespaces)) _ _
      (λ x.
        Goes-choice _ f.leading_blanks _ _
          (λ y.
            Goes-choice _ (is_empty f.leading_break) _ _ (λ z. absurd (ground (arith, z, h y)))
              (λ z. (λ e. absurd (ground (arith, e)), refl)))
          (λ y. (h, refl)))
      (λ x. (h, refl))

abbrev IsPlain : Cursor → Folding × Mark → Cursor → Type 0
IsPlain c (f, end) d = IsFit f × IsFrom c d

plain_character-Goes :
    (flow_level : ℕ) (c : Cursor) (f : Folding × Mark) (d : Cursor)
    → IsPlain c f d
    → Goes (Turned (IsPlain c) (IsPlain c) d.unread) (plain_character flow_level f d)
unfolding plain_character
plain_character-Goes flow_level c (f, end) d (t, h) =
    Goes-choice _ (is_blankz d.buffer 0 || ends_plain flow_level d.buffer) _ _ (λ x. (t, h))
      (λ x.
        Goes-proceed (λ g e. IsFit g × (e ≡ d)) _ (join_plain f d) _ (join_plain-Goes f d t)
          (λ g e (k, q). rw q (
            Goes-proceed (Steps d) _ (read g.text d) _
              (Goes-read g.text d h.0 (not_blankz-first d.buffer (ground (arith, x))))
              (λ s z (v, m).
                let l = IsFrom-le c d h in
                Goes-cache _ 2 _ z ((k, (v, inl (omega (arith, l, m)))), m)))))

check_tab-IsCheck : (indent : ℕ) (start : Mark) → IsCheck (check_tab indent start)
unfolding check_tab
check_tab-IsCheck indent start f c =
    Goes-choice _ (f.leading_blanks && ltb c.mark.column indent && is_tab c.buffer 0) _ _ (λ x. tt)
      (λ x. refl)

abbrev IsFitting : ℕ → Folding × Mark → Cursor → Type 0
IsFitting n (f, end) d = IsFit f × Leaves n d

plain_gaps-Goes :
    (flow_level indent : ℕ) (start : Mark) (n k : ℕ) (f : Folding × Mark) (c : Cursor)
    → IsFitting n f c
    → c.unread ≤ k
    → Goes (Turned (IsFitting n) (IsFitting n) k) (plain_gaps flow_level indent start f c)
unfolding plain_gaps
plain_gaps-Goes flow_level indent start n k (f, end) c (t, (w, l)) m =
    Goes-if _ (not (is_gap c.buffer)) _ _ c (λ x. (t, (w, l)))
      (λ x. Goes-cache _ 1 _ c (
        Goes-proceed (λ g d. IsFit g × Steps c g d) _ (eat_gaps (check_tab indent start) f c) _
          (eat_gaps-Steps IsFit (check_tab indent start) IsFit-IsKept
            (check_tab-IsCheck indent start) f c t w (ground (arith, x)))
          (λ g d (y, (v, o)).
            Turned-if _ _ k (flow_level == 0 && ltb d.mark.column indent) _ _ d
              (y, (v, omega (arith, l, o))) ((y, (v, omega (arith, l, o))), omega (arith, m, o)))))

plain_round-Goes :
    (flow_level indent : ℕ) (start : Mark) (n : ℕ) (f : Folding × Mark) (c : Cursor)
    → IsFitting n f c
    → Goes (Turned (IsFitting n) (IsFitting n) c.unread) (plain_round flow_level indent start f c)
unfolding plain_round
plain_round-Goes flow_level indent start n (f, end) c (t, (w, l)) = Goes-cache _ 4 _ c (
    Goes-if _ (is_document_indicator c || at c.buffer 0 == b'#') _ _ c (λ x. (t, (w, l)))
      (λ x.
        Goes-proceed (IsPlain c) _ (loop (plain_character flow_level) (f, end) c) _
          (Goes-loop (IsPlain c) (IsPlain c) (plain_character flow_level)
            (λ g d h. plain_character-Goes flow_level c g d h) (f, end) c (t, (w, inr refl)))
          (λ (g, e) d (y, h).
            let m = IsFrom-le c d h in
            plain_gaps-Goes flow_level indent start n c.unread (g, e) d
              (y, (h.0, omega (arith, l, m))) m)))

pub scan_plain_scalar-IsSafe :
    (flow_level indent n : ℕ) (c : Cursor)
    → Leaves n c
    → IsSafe n (scan_plain_scalar flow_level indent c)
unfolding scan_plain_scalar
scan_plain_scalar-IsSafe flow_level indent n c h =
    Goes-proceed (IsFitting n) _
      (loop (plain_round flow_level indent c.mark) (no_folding, c.mark) c) _
      (Goes-loop (IsFitting n) (IsFitting n) (plain_round flow_level indent c.mark)
        (λ f d k. plain_round-Goes flow_level indent c.mark n f d k) (no_folding, c.mark) c
        (λ e. absurd (ground (arith, e)), h))
      (λ (f, end) d (t, k). k)
