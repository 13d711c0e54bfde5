-- ===== src/Lexer/ReadingBack.antt =====
-- The scan of a single quoted scalar reads the text that is spelled, and all of it.
use yaml.Lexer.Cursor.{
  ◌>>=◌, ◌>>◌, Cursor, return, cache, read, lexed, Lexed, refused, loop, unreadable, broken,
  endless, skip,
}
use yaml.Base.{
  Bytes, ℕ, List, ◌≡◌, false, true, ◌&&◌, not, ◌++◌, ◌<◌, ◌∷◌, ◌∙◌, sym, Bool-cases, [], ◌==◌, inl,
  arith, inr, ap, refl, subst,
}
use yaml.Chars.{is_blank, is_break, at, is_z}
use yaml.Lexer.Folding.{Folding, is_gap, eat_gap, eat_gaps, is_document_indicator, no_folding}
use yaml.Reader.Decode.{is_allowed, encode_utf8}
use yaml.Lexer.SingleQuoted.{
  Ahead, spell_single, Halted, Inside, Ahead-Taken, AreInline, quoted_character-Inside,
}
use yaml.Lexer.Outcome.{
  Meets, Meets-proceed, IsWhole, Meets-more, Meets-while, TurnsTo, cached, Meets-cached, Meets-loop,
  Meets-Turned_to,
}
use yaml.Reader.Scalars.{is_line_break, is_break-encode_utf8}
use yaml.Lexer.Characters.{is_blank_character, class_from, Taken, read-Taken, skip-Taken}
use mathlib.Core.List.{append_assoc, append-nil}
use yaml.Reader.Utf8.{allowed-Length}
use yaml.Lexer.Quoted.{join_quoted, quoted_round, scan_flow_scalar, quoted_character}
use yaml.Types.{Mark, Token, utf8_encoding}
use yaml.Lexer.Safe.{Meets-if}
use yaml.Reader.Text.{text}
use yaml.Lexer.QuotedEnds.{quoted_round-Goes}

-- In the white space between the characters.
abbrev Between : Bytes → Bytes → Folding → Cursor → Type 0
Between whole r f d =
    (f.leading_blanks ≡ false) × ((vs : List ℕ) × Ahead whole r (f.text ++ f.whitespaces) vs d)

-- Only at a blank there is white space ahead.
gap_ahead :
    (v : ℕ) (vs : List ℕ) (r b : Bytes)
    → (is_allowed v && not (is_line_break v)) ≡ true
    → b ≡ spell_single (v ∷ vs) ++ 39 ∷ r
    → (is_gap b ≡ is_blank_character v)
      × (is_blank b 0 ≡ is_blank_character v)
      × (is_blank_character v ≡ true → b ≡ encode_utf8 v ++ (spell_single vs ++ 39 ∷ r))
unfolding is_blank is_break
gap_ahead v vs r b i e = elim (Bool-cases (v == 39)) [
  | inl q ↦
      let c : b ≡ 39 ∷ 39 ∷ (spell_single vs ++ 39 ∷ r) = rw q at e in
      let z : v ≡ 39 = ground (arith, q) in
      (rw (c, z) refl, rw (c, z) refl, λ h. absurd (ground (arith, h, z)))
  | inr q ↦
      let c : b ≡ encode_utf8 v ++ (spell_single vs ++ 39 ∷ r) =
        (rw q at e) ∙ append_assoc (encode_utf8 v) (spell_single vs) (39 ∷ r) in
      let a : is_allowed v ≡ true = ground (arith, i) in
      let (x, y, z) = class_from v (spell_single vs ++ 39 ∷ r) (allowed-Length v a) in
      let l = is_break-encode_utf8 v (spell_single vs ++ 39 ∷ r) a in
      let p : is_blank b 0 ≡ is_blank_character v = ap (λ t. is_blank t 0) c ∙ x in
      let m : is_break b 0 ≡ is_line_break v = ap (λ t. is_break t 0) c ∙ l in
      (ground (arith, p, m, i), p, λ h. c)
]

blank_quote : (b : Bytes) → is_blank b 0 ≡ true → at b 0 ≡ 39 → ⊥
unfolding is_blank
blank_quote b h q = ground (arith, h, q)

no_gap : (b r : Bytes) → b ≡ 39 ∷ r → is_gap b ≡ false
unfolding is_blank is_break
no_gap b r e = rw e refl

eat_gap-Between :
    (whole r : Bytes) (f : Folding) (d : Cursor)
    → Between whole r f d
    → is_gap d.buffer ≡ true
    → Meets ⊥
        (λ g e. Between whole r g e × (e.unread < d.unread))
        ((eat_gap (λ _. return tt) f >>= λ g. cache 1 >> return g) d)
eat_gap-Between whole r f d (j, ([], h)) g = absurd (ground (arith, g, no_gap d.buffer r h.2))
eat_gap-Between whole r f d (j, (v ∷ vs, h)) g =
    let (t, (i, is), b, w, k, o) = h in
    let (p, q, c) = gap_ahead v vs r d.buffer i b in
    let z : is_blank d.buffer 0 ≡ true = q ∙ sym p ∙ g in
    rw (z, j)
      (Meets-proceed ⊥ (λ g e. Between whole r g e × (e.unread < d.unread)) _ _ _
        (Meets-proceed ⊥
          (λ s e. (s ≡ f.whitespaces ++ encode_utf8 v) × Taken (spell_single vs ++ 39 ∷ r) d e) _
          (read f.whitespaces d) _
          (read-Taken f.whitespaces v (spell_single vs ++ 39 ∷ r) d w (ground (arith, i))
            (c (sym p ∙ g)))
          (λ s e (l, y).
            let (a, a', n, m', o'') = y in
            (
              (
                refl,
                (
                  vs,
                  subst (λ x. Ahead whole r x vs e)
                      (append_assoc f.text f.whitespaces (encode_utf8 v)
                        ∙ ap (λ x. f.text ++ x) (sym l))
                      (Ahead-Taken whole r (f.text ++ f.whitespaces) v vs d e h y),
                ),
              ),
              n,
            )))
        (λ g e ((l, (us, a)), m).
          let x : (cache 1 >> return g) e ≡ lexed g e = cached 1 (return g) e a.5 in
          rw x ((l, (us, a)), m)))

-- The white space that is there is kept, up to a character or the end.
eat_gaps-Between :
    (whole r : Bytes) (f : Folding) (d : Cursor)
    → Between whole r f d
    → Meets ⊥ (Between whole r) (eat_gaps (λ _. return tt) f d)
unfolding eat_gaps
eat_gaps-Between whole r f d h =
    Meets-more ⊥ (λ g e. Between whole r g e × (is_gap e.buffer ≡ false)) (Between whole r) _
      (Meets-while ⊥ (Between whole r) is_gap _ (λ g e b t. eat_gap-Between whole r g e b t) f d h)
      (λ g e (b, t). b)

join_quoted-Inside :
    (whole r : Bytes) (f : Folding) (d : Cursor)
    → Between whole r f d
    → Inside whole r (join_quoted f) d
unfolding join_quoted
join_quoted-Inside whole r f d (j, h) = rw j ((refl, refl), h)

-- All is read.
abbrev Done : Bytes → Bytes → Folding → Cursor → Type 0
Done whole r f d = (f.text ≡ whole) × (d.buffer ≡ 39 ∷ r) × IsWhole d

-- At the quote, nothing is ahead.
Halted-Done :
    (whole r : Bytes) (f : Folding) (d : Cursor)
    → Halted whole r f d
    → at d.buffer 0 ≡ 39
    → Done whole r f d
Halted-Done whole r f d (j, ([], s, (t, i, b, w, k, o))) q = (sym (append-nil f.text) ∙ t, b, w)
Halted-Done whole r f d (j, (v ∷ vs, s, (t, (i, is), b, w, k, o))) q =
    let (p, x, c) = gap_ahead v vs r d.buffer i b in absurd (blank_quote d.buffer (x ∙ s) q)

Halted-Between :
    (whole r : Bytes) (f : Folding) (d : Cursor) → Halted whole r f d → Between whole r f d
Halted-Between whole r f d ((w, l), (vs, s, h)) = (
  l,
  (vs, subst (λ x. Ahead whole r x vs d) (sym (ap (λ x. f.text ++ x) w ∙ append-nil f.text)) h),
)

first-Ahead :
    (whole r s : Bytes) (vs : List ℕ) (d : Cursor) → Ahead whole r s vs d → is_z d.buffer 0 ≡ false
unfolding is_z is_allowed
first-Ahead whole r s [] d h = rw h.2 refl
first-Ahead whole r s (v ∷ vs) d h =
    let i : (is_allowed v && not (is_line_break v)) ≡ true = h.1.0 in
    elim (Bool-cases (v == 39)) [
      | inl q ↦ let c : d.buffer ≡ 39 ∷ 39 ∷ (spell_single vs ++ 39 ∷ r) = rw q at h.2 in rw c refl
      | inr q ↦
          let c : d.buffer ≡ encode_utf8 v ++ (spell_single vs ++ 39 ∷ r) =
            (rw q at h.2) ∙ append_assoc (encode_utf8 v) (spell_single vs) (39 ∷ r) in
          let (x, y, z) =
            class_from v (spell_single vs ++ 39 ∷ r) (allowed-Length v (ground (arith, i))) in
          let l : (at d.buffer 0 == 0) ≡ (v == 0) = ap (λ b. at b 0 == 0) c ∙ y in
          ground (arith, l, i)
    ]

no_indicator : (d : Cursor) → 0 < d.mark.column → is_document_indicator d ≡ false
unfolding is_document_indicator
no_indicator d k = let z : (d.mark.column == 0) ≡ false = ground (arith, k) in rw z refl

quoted_round-Inside :
    (whole r : Bytes) (start : Mark)
    → (at r 0 == 39) ≡ false
    → (f : Folding) (d : Cursor) → Inside whole r f d
    → Meets ⊥ (TurnsTo (Inside whole r) (Done whole r)) (quoted_round true start f d)
unfolding quoted_round
quoted_round-Inside whole r start n f d (j, (vs, h)) =
    let (t, i, b, w, k, o) = h in
    let not_z = first-Ahead whole r f.text vs d h in
    let not_i = no_indicator d k in
    Meets-cached ⊥ _ 4 _ d o (
      Meets-if ⊥ _ (is_document_indicator d) _ _ d (λ x. absurd (ground (arith, x, not_i)))
        (λ x.
          Meets-if ⊥ _ (is_z d.buffer 0) _ _ d (λ y. absurd (ground (arith, y, not_z)))
            (λ y.
              Meets-proceed ⊥ (Halted whole r) _
                (loop (quoted_character true start) (record f { leading_blanks = false }) d) _
                (Meets-loop ⊥ (Inside whole r) (Halted whole r) (quoted_character true start)
                  (λ g e q. quoted_character-Inside whole r start n g e q)
                  (record f { leading_blanks = false }) d ((j.0, refl), (vs, h)))
                (λ g e (l, (us, s, a)). Meets-cached ⊥ _ 1 _ e a.5 (
                  Meets-if ⊥ _ (at e.buffer 0 == 39) _ _ e
                    (λ z. Halted-Done whole r g e (l, (us, s, a)) (ground (arith, z)))
                    (λ z.
                      Meets-proceed ⊥ (Between whole r) _ (eat_gaps (λ _. return tt) g e) _
                        (eat_gaps-Between whole r g e (Halted-Between whole r g e (l, (us, s, a))))
                        (λ g' x y. join_quoted-Inside whole r g' x y)))))))

is_whole : (whole r : Bytes) (f : Folding) (d : Cursor) → Inside whole r f d → IsWhole d
is_whole whole r f d (j, (vs, h)) = h.3

returned {ℓ} :
    {A : Type ℓ} (good : A → Cursor → Type 0) (r : Lexed A)
    → Meets ⊥ good r
    → (a : A) × ((d : Cursor) × (r ≡ lexed a d) × good a d)
returned good (lexed a d) h = (a, (d, refl, h))
returned good (refused context mark problem d) h = absurd h
returned good (unreadable d) h = absurd h
returned good broken h = absurd h
returned good endless h = absurd h

-- From a buffer with all the rest of the input, which begins with a text of allowed characters without
-- line breaks between single quotes, its quotes doubled, and no quote behind it, the scan returns a
-- token with that text, and the rest of the buffer is left.
pub scan_flow_scalar-spell_single :
    (vs : List ℕ) (r : Bytes) (c : Cursor)
    → AreInline vs
    → (at r 0 == 39) ≡ false
    → c.buffer ≡ 39 ∷ (spell_single vs ++ 39 ∷ r)
    → IsWhole c
    → c.at_end ≡ true
    → (t : Token) × ((d : Cursor) × (scan_flow_scalar true c ≡ lexed t d)
        × ((t.value ≡ text utf8_encoding vs) × (d.buffer ≡ r)))
unfolding scan_flow_scalar
scan_flow_scalar-spell_single vs r c i n b w o =
    let whole = text utf8_encoding vs in
    returned (λ t d. (t.value ≡ whole) × (d.buffer ≡ r)) (scan_flow_scalar true c)
      (Meets-proceed ⊥ (λ u d. Taken (spell_single vs ++ 39 ∷ r) c d) _ (skip c) _
        (skip-Taken 39 _ c w b refl)
        (λ u d (q, v, l, k, e).
          Meets-proceed ⊥ (Done whole r) _ (loop (quoted_round true c.mark) no_folding d) _
            (Meets-loop ⊥ (Inside whole r) (Done whole r) (quoted_round true c.mark)
              (λ f x h.
                Meets-Turned_to ⊥ (Inside whole r) (Done whole r) _ _ x.unread
                  (quoted_round true c.mark f x) (quoted_round-Inside whole r c.mark n f x h)
                  (quoted_round-Goes true c.mark f x.unread x
                    ((is_whole whole r f x h), omega arith)))
              no_folding d ((refl, refl), (vs, (refl, i, q, v, k, e ∙ o))))
            (λ f x (y, z, a).
              Meets-proceed ⊥ (λ u m. Taken r x m) _ (skip x) _ (skip-Taken 39 r x a z refl)
                (λ u m p. (y, p.0)))))
