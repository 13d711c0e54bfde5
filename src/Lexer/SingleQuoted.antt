-- ===== src/Lexer/SingleQuoted.antt =====
-- A single quoted scalar is read back from the text that spells it.
use yaml.Lexer.Cursor.{◌>>=◌, ◌>>◌, Cursor, Lex, skip, read, return, cache, again, lexed}
use yaml.Base.{
  List, Bytes, ℕ, Bool, ◌∷◌, ◌≡◌, ◌++◌, if◌then◌else◌, [], true, false, arith, ◌==◌, ◌&&◌, ◌<◌, not,
  ◌∙◌, ap, ◌||◌, subst, Bool-cases, sym, refl, inl, inr,
}
use yaml.Lexer.Folding.{Folding}
use yaml.Lexer.Quoted.{quoted_character, further, with_text}
use yaml.Chars.{is_blankz, at}
use yaml.Reader.Decode.{is_allowed, encode_utf8}
use yaml.Reader.Text.{text}
use yaml.Lexer.Characters.{
  Taken, is_blank_character, read-Taken, skip-Taken, class_from, is_blankz-inline,
}
use yaml.Lexer.Outcome.{Meets, IsWhole, Turned, Meets-proceed, cached}
use mathlib.Core.List.{append_assoc}
use yaml.Types.{Mark, utf8_encoding}
use yaml.Reader.Scalars.{is_line_break}
use yaml.Lexer.Safe.{Meets-choice}
use yaml.Reader.Utf8.{encode_1, allowed-Length}

-- How a text without line breaks stands between single quotes.
abbrev pub spell_single : List ℕ → Bytes
spell_single [] = []
spell_single (v ∷ vs) =
    let rest = spell_single vs in if v == 39 then 39 ∷ 39 ∷ rest else encode_utf8 v ++ rest

-- The characters are allowed, and none is a line break.
abbrev pub AreInline : List ℕ → Type 0
AreInline [] = Unit
AreInline (v ∷ vs) = ((is_allowed v && not (is_line_break v)) ≡ true) × AreInline vs

-- The rest of the scalar is ahead, in a line, and what is read makes the whole with it.
abbrev pub Ahead : Bytes → Bytes → Bytes → List ℕ → Cursor → Type 0
Ahead whole r s vs d =
    (s ++ text utf8_encoding vs ≡ whole)
    × AreInline vs
    × (d.buffer ≡ spell_single vs ++ 39 ∷ r)
    × IsWhole d
    × (0 < d.mark.column)
    × (d.at_end ≡ true)

-- A character is taken from what is ahead.
pub Ahead-Taken :
    (whole r s : Bytes) (v : ℕ) (vs : List ℕ) (c d : Cursor)
    → Ahead whole r s (v ∷ vs) c
    → Taken (spell_single vs ++ 39 ∷ r) c d
    → Ahead whole r (s ++ encode_utf8 v) vs d
Ahead-Taken whole r s v vs c d (e, (a, i), b, w, k, n) (q, x, l, m, o) =
    (append_assoc s (encode_utf8 v) (text utf8_encoding vs) ∙ e, i, q, x, m, o ∙ n)

-- Between the rounds there is no white space that is not joined.
abbrev pub IsJoined : Folding → Type 0
IsJoined f = (f.whitespaces ≡ []) × (f.leading_blanks ≡ false)

abbrev pub Inside : Bytes → Bytes → Folding → Cursor → Type 0
Inside whole r f d = IsJoined f × ((vs : List ℕ) × Ahead whole r f.text vs d)

-- The loop over the characters that are not blank ends at a blank, or behind all.
abbrev pub stops_at : List ℕ → Bool
stops_at [] = true
stops_at (v ∷ vs) = is_blank_character v

abbrev pub Halted : Bytes → Bytes → Folding → Cursor → Type 0
Halted whole r f d = IsJoined f × ((vs : List ℕ) × (stops_at vs ≡ true) × Ahead whole r f.text vs d)

further-Meets :
    (whole r : Bytes) (fine : Folding → Cursor → Type 0) (m : Lex Folding) (d : Cursor)
    → Meets ⊥ (λ f e. Inside whole r f e × (e.unread < d.unread)) (m d)
    → Meets ⊥ (Turned (Inside whole r) fine d.unread) (further m d)
further-Meets whole r fine m d h =
    Meets-proceed ⊥ (λ f e. Inside whole r f e × (e.unread < d.unread)) _ (m d) _ h
      (λ f e ((j, (vs, (t, i, q, w, c, o))), l).
        let k : (cache 2 >> return (again f)) e ≡ lexed (again f) e = cached 2 _ e o in
        rw k ((j, (vs, (t, i, q, w, c, o))), l))

Taken-Taken : (x : ℕ) (r : Bytes) (c d e : Cursor) → Taken (x ∷ r) c d → Taken r d e → Taken r c e
Taken-Taken x r c d e (q, w, l, k, o) (p, v, m, j, n) = (p, v, omega (arith, l, m), j, n ∙ o)

-- Two quotes stand for one.
two_quotes-Inside :
    (whole r : Bytes) (f : Folding) (v : ℕ) (vs : List ℕ) (d : Cursor)
    → IsJoined f
    → v ≡ 39
    → d.buffer ≡ 39 ∷ 39 ∷ (spell_single vs ++ 39 ∷ r)
    → Ahead whole r f.text (v ∷ vs) d
    → Meets ⊥
        (λ g e. Inside whole r g e × (e.unread < d.unread))
        ((skip >> skip >> return (with_text f (39 ∷ []))) d)
two_quotes-Inside whole r f v vs d j q b h =
    let (t, i, a, w, c, o) = h in
    let k : encode_utf8 v ≡ 39 ∷ [] = encode_1 v (omega (arith, q)) ∙ ap (λ x. x ∷ []) q in
    Meets-proceed ⊥ (λ u e. Taken (39 ∷ (spell_single vs ++ 39 ∷ r)) d e) _ (skip d) _
      (skip-Taken 39 _ d w b refl)
      (λ u e y.
        let (b', w', m, c', o') = y in
        Meets-proceed ⊥ (λ u x. Taken (spell_single vs ++ 39 ∷ r) e x) _ (skip e) _
          (skip-Taken 39 _ e w' b' refl)
          (λ u x z.
            let g = Taken-Taken 39 (spell_single vs ++ 39 ∷ r) d e x y z in
            let (p, l, n, m', o'') = g in
            (
              (
                j,
                (
                  vs,
                  subst (λ y. Ahead whole r (f.text ++ y) vs x) k
                      (Ahead-Taken whole r f.text v vs d x h g),
                ),
              ),
              n,
            )))

-- Any other character stands for itself.
character-Inside :
    (whole r : Bytes) (f : Folding) (v : ℕ) (vs : List ℕ) (d : Cursor)
    → IsJoined f
    → d.buffer ≡ encode_utf8 v ++ (spell_single vs ++ 39 ∷ r)
    → Ahead whole r f.text (v ∷ vs) d
    → Meets ⊥
        (λ g e. Inside whole r g e × (e.unread < d.unread))
        ((read f.text >>= λ s. return (record f { text = s })) d)
character-Inside whole r f v vs d j b h =
    let (t, (i, is), a, w, c, o) = h in
    Meets-proceed ⊥ (λ s e. (s ≡ f.text ++ encode_utf8 v) × Taken (spell_single vs ++ 39 ∷ r) d e) _
      (read f.text d) _ (read-Taken f.text v (spell_single vs ++ 39 ∷ r) d w (ground (arith, i)) b)
      (λ s e (q, y).
        let (p, l, n, m', o'') = y in
        (
          (
            j,
            (
              vs,
              subst (λ y. Ahead whole r y vs e) (sym q) (Ahead-Taken whole r f.text v vs d e h y),
            ),
          ),
          n,
        ))

other_character-Inside :
    (whole r : Bytes) (start : Mark) (f : Folding) (v : ℕ) (vs : List ℕ) (d : Cursor)
    → IsJoined f
    → (v == 39) ≡ false
    → d.buffer ≡ encode_utf8 v ++ (spell_single vs ++ 39 ∷ r)
    → Ahead whole r f.text (v ∷ vs) d
    → Meets ⊥ (Turned (Inside whole r) (Halted whole r) d.unread) (quoted_character true start f d)
unfolding quoted_character
other_character-Inside whole r start f v vs d j e b h =
    let i : (is_allowed v && not (is_line_break v)) ≡ true = h.1.0 in
    let (x, y, q) =
      class_from v (spell_single vs ++ 39 ∷ r) (allowed-Length v (ground (arith, i))) in
    let n : (at d.buffer 0 == 39) ≡ false = ap (λ x. at x 0 == 39) b ∙ q ∙ e in
    let z : is_blankz d.buffer 0 ≡ is_blank_character v =
      ap (λ x. is_blankz x 0) b ∙ is_blankz-inline v (spell_single vs ++ 39 ∷ r) i in
    Meets-choice ⊥ _ (is_blankz d.buffer 0) _ _ (λ u. (j, (v ∷ vs, sym z ∙ u, h)))
      (λ u.
        Meets-choice ⊥ _ (at d.buffer 0 == 39 && at d.buffer 1 == 39) _ _
          (λ w. absurd (ground (arith, w, n)))
          (λ w.
            Meets-choice ⊥ _ (at d.buffer 0 == 39 || false) _ _ (λ o. absurd (ground (arith, o, n)))
              (λ o.
                further-Meets whole r (Halted whole r)
                  (read f.text >>= λ s. return (record f { text = s })) d
                  (character-Inside whole r f v vs d j b h))))

pub quoted_character-Inside :
    (whole r : Bytes) (start : Mark)
    → (at r 0 == 39) ≡ false
    → (f : Folding) (d : Cursor) → Inside whole r f d
    → Meets ⊥ (Turned (Inside whole r) (Halted whole r) d.unread) (quoted_character true start f d)
unfolding quoted_character is_blankz
quoted_character-Inside whole r start n f d (j, ([], h)) =
    let (e, i, b, w, k, o) = h in
    let z : is_blankz d.buffer 0 ≡ false = rw b refl in
    let q : at d.buffer 0 ≡ 39 = ap (λ x. at x 0) b in
    let p : at d.buffer 1 ≡ at r 0 = ap (λ x. at x 1) b in
    Meets-choice ⊥ _ (is_blankz d.buffer 0) _ _ (λ x. absurd (ground (arith, x, z)))
      (λ x.
        Meets-choice ⊥ _ (at d.buffer 0 == 39 && at d.buffer 1 == 39) _ _
          (λ y. absurd (ground (arith, y, p, n)))
          (λ y.
            Meets-choice ⊥ _ (at d.buffer 0 == 39 || false) _ _ (λ u. (j, ([], refl, h)))
              (λ u. absurd (ground (arith, u, q)))))
quoted_character-Inside whole r start n f d (j, (v ∷ vs, h)) =
    let (t, (i, is), b, w, k, o) = h in
    elim (Bool-cases (v == 39)) [
      | inl e ↦
          let q : v ≡ 39 = ground (arith, e) in
          let c : d.buffer ≡ 39 ∷ 39 ∷ (spell_single vs ++ 39 ∷ r) = rw e at b in
          let z : is_blankz d.buffer 0 ≡ false = rw c refl in
          let x : (at d.buffer 0 == 39 && at d.buffer 1 == 39) ≡ true = rw c refl in
          rw (z, x)
            (further-Meets whole r (Halted whole r) (skip >> skip >> return (with_text f (39 ∷ [])))
              d (two_quotes-Inside whole r f v vs d j q c h))
      | inr e ↦
          let c : d.buffer ≡ encode_utf8 v ++ (spell_single vs ++ 39 ∷ r) =
            (rw e at b) ∙ append_assoc (encode_utf8 v) (spell_single vs) (39 ∷ r) in
          other_character-Inside whole r start f v vs d j e c h
    ]
