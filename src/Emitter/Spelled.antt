-- ===== src/Emitter/Spelled.antt =====
-- A text without line breaks, in single quotes.
use yaml.Base.{
  ℕ, Bytes, List, Bool, length, ◌≡◌, ◌&&◌, true, not, false, ◌≤◌, ◌∷◌, [], ◌++◌, suc, take, zero,
  subst, arith, if◌then◌else◌, sym, Bool-cases, refl, inl, length-append, inr, ◌==◌, is_empty, ◌∙◌,
  ap,
}
use yaml.Emitter.Output.{write_indicator, write_all, Emitter, onward, write, emitted, put, behind}
use yaml.Emitter.Quoted.{
  Position, single_loop, single_character, write_single_quoted_scalar, at_first,
}
use yaml.Reader.Decode.{is_allowed, encode_utf8}
use yaml.Emitter.Adding.{
  TakesAll, Adds, write-Adds, Adds-set, output, Adds-next, put-Adds, is_empty-false,
}
use yaml.Reader.Text.{text, encode_utf8-pos}
use yaml.Types.{utf8_encoding}
use yaml.Lexer.SingleQuoted.{AreInline, spell_single}
use yaml.Reader.Scalars.{width-encode_utf8, is_break-encode_utf8}
use yaml.Chars.{width, at, is_space, is_break}
use yaml.Lexer.Characters.{take-length, class_from, drop-length}
use mathlib.Core.List.{append-nil, append_assoc}
use yaml.Reader.Utf8.{allowed-Length, encode_1}

-- One character is written.
character-Adds :
    (v : ℕ) (r : Bytes) (e : Emitter)
    → is_allowed v ≡ true
    → TakesAll e.write_handler
    → Adds (encode_utf8 v) e (write (encode_utf8 v ++ r) e)
character-Adds v r e a t =
    let z = width-encode_utf8 v r a in
    let k : take (width (at (encode_utf8 v ++ r) 0)) (encode_utf8 v ++ r) ≡ encode_utf8 v =
      rw z (take-length (encode_utf8 v) r) in
    subst (λ bs. Adds bs e (write (encode_utf8 v ++ r) e)) k
      (write-Adds (encode_utf8 v ++ r) e t (omega (arith, z, encode_utf8-pos v))
        (omega (arith, z, length-append (encode_utf8 v) r)))

-- The quote, behind a space if there must be white space and there is none.
abbrev pub before_quote : Bool → Bytes
before_quote whitespace = if whitespace then [] else b' ' ∷ []

quote-Adds : (e : Emitter) → TakesAll e.write_handler → Adds (39 ∷ []) e (write_all (39 ∷ []) e)
unfolding write_all width
quote-Adds e t =
    Adds-set (39 ∷ []) e (write (39 ∷ []) e) (λ f. f) (λ f. (refl, refl))
      (write-Adds (39 ∷ []) e t (omega arith) (omega arith))

indicator-Adds :
    (e : Emitter)
    → TakesAll e.write_handler
    → Adds (39 ∷ []) e (
        onward (write_all (39 ∷ []) e) (λ g.
          emitted (record g {
            whitespace = false;
            indention = g.indention && false;
            open_ended = false;
          })))
indicator-Adds e t =
    Adds-set (39 ∷ []) e (write_all (39 ∷ []) e) _ (λ f. (refl, refl)) (quote-Adds e t)

takes :
    (e f : Emitter)
    → TakesAll e.write_handler
    → f.write_handler ≡ e.write_handler
    → TakesAll f.write_handler
takes e f t h = subst TakesAll (sym h) t

space-Adds :
    (w : Bool) (e : Emitter)
    → TakesAll e.write_handler
    → Adds (before_quote w) e (if not w then put b' ' e else emitted e)
space-Adds true e t = (sym (append-nil (output e)), refl)
space-Adds false e t = put-Adds b' ' e t

opening-Adds :
    (e : Emitter)
    → TakesAll e.write_handler
    → Adds (before_quote e.whitespace ++ 39 ∷ []) e (write_indicator (39 ∷ []) true false false e)
unfolding write_indicator
opening-Adds e t =
    Adds-next (before_quote e.whitespace) (39 ∷ []) e
      (if not e.whitespace then put b' ' e else emitted e) _ (space-Adds e.whitespace e t)
      (λ f h. indicator-Adds f (takes e f t h))

closing-Adds :
    (e : Emitter)
    → TakesAll e.write_handler
    → Adds (39 ∷ []) e (write_indicator (39 ∷ []) false false false e)
unfolding write_indicator
closing-Adds e t = indicator-Adds e t

-- A quote is doubled.
abbrev doubled : Bool → Bytes
doubled b = if b then 39 ∷ [] else []

doubled-Adds :
    (b : Bool) (e : Emitter)
    → TakesAll e.write_handler
    → Adds (doubled b) e (if b then put 39 e else emitted e)
doubled-Adds true e t = put-Adds 39 e t
doubled-Adds false e t = (sym (append-nil (output e)), refl)

-- The character itself.
plain_character-Adds :
    (v : ℕ) (r : Bytes) (e : Emitter)
    → is_allowed v ≡ true
    → TakesAll e.write_handler
    → Adds
        (encode_utf8 v)
        e
        (onward (write (encode_utf8 v ++ r) e) (λ f. emitted (record f { indention = false })))
plain_character-Adds v r e a t =
    Adds-set (encode_utf8 v) e (write (encode_utf8 v ++ r) e) (λ f. record f { indention = false })
      (λ f. (refl, refl)) (character-Adds v r e a t)

single_character-Adds :
    (v : ℕ) (r : Bytes) (p : Position) (e : Emitter)
    → is_allowed v ≡ true
    → TakesAll e.write_handler
    → p.breaks ≡ false
    → Adds (doubled (v == 39) ++ encode_utf8 v) e (single_character p (encode_utf8 v ++ r) e)
single_character-Adds v r p e a t b =
    let (x, y, q) = class_from v r (allowed-Length v a) in
    rw (b, sym q)
      (Adds-next (doubled (at (encode_utf8 v ++ r) 0 == 39)) (encode_utf8 v) e
        (if at (encode_utf8 v ++ r) 0 == 39 then put 39 e else emitted e)
        (λ f. onward (write (encode_utf8 v ++ r) f) (λ g. emitted (record g { indention = false })))
        (doubled-Adds (at (encode_utf8 v ++ r) 0 == 39) e t)
        (λ f h. plain_character-Adds v r f a (takes e f t h)))

-- How a character is spelled, by the two ways of writing it.
spelled_by :
    (v : ℕ) (vs : List ℕ)
    → spell_single (v ∷ vs) ≡ (doubled (v == 39) ++ encode_utf8 v) ++ spell_single vs
spelled_by v vs = elim (Bool-cases (v == 39)) [
  | inl z ↦
      let q : v ≡ 39 = ground (arith, z) in
      let k : encode_utf8 v ≡ 39 ∷ [] = encode_1 v (omega (arith, q)) ∙ ap (λ x. x ∷ []) q in
      rw (z, k) refl
  | inr z ↦ rw z refl
]

spelled_space :
    (v : ℕ) (vs : List ℕ) (r : Bytes)
    → is_allowed v ≡ true
    → is_space (encode_utf8 v ++ r) 0 ≡ true
    → spell_single (v ∷ vs) ≡ encode_utf8 v ++ spell_single vs
unfolding is_space
spelled_space v vs r a s =
    let (x, y, q) = class_from v r (allowed-Length v a) in
    let z : (v == 39) ≡ false = ground (arith, q, s) in rw z refl

behind_character : (v : ℕ) (r : Bytes) → is_allowed v ≡ true → behind (encode_utf8 v ++ r) ≡ r
behind_character v r a = rw (width-encode_utf8 v r a) (drop-length (encode_utf8 v) r)

single_loop-Adds :
    (n : ℕ) (vs : List ℕ) (p : Position) (e : Emitter)
    → length (text utf8_encoding vs) ≤ n
    → AreInline vs
    → TakesAll e.write_handler
    → p.breaks ≡ false
    → Adds (spell_single vs) e (single_loop n false p (text utf8_encoding vs) e)
single_loop-Adds zero [] p e l i t b = (sym (append-nil (output e)), refl)
single_loop-Adds (suc n) [] p e l i t b = (sym (append-nil (output e)), refl)
single_loop-Adds zero (v ∷ vs) p e l i t b =
    absurd
      (omega (arith, l, encode_utf8-pos v, length-append (encode_utf8 v) (text utf8_encoding vs)))
single_loop-Adds (suc n) (v ∷ vs) p e l (i, is) t b =
    let s : Bytes = encode_utf8 v ++ text utf8_encoding vs in
    let a : is_allowed v ≡ true = ground (arith, i) in
    let k = length-append (encode_utf8 v) (text utf8_encoding vs) in
    let m = encode_utf8-pos v in
    let z : is_empty s ≡ false = is_empty-false s (omega (arith, k, m)) in
    let q : is_break s 0 ≡ false =
      is_break-encode_utf8 v (text utf8_encoding vs) a ∙ ground (arith, i) in
    let h = behind_character v (text utf8_encoding vs) a in
    elim (Bool-cases (is_space s 0)) [
      | inl y ↦
          rw (z, y, h, spelled_space v vs (text utf8_encoding vs) a y)
            (Adds-next (encode_utf8 v) (spell_single vs) e (write s e) _
              (character-Adds v (text utf8_encoding vs) e a t)
              (λ f x.
                single_loop-Adds n vs (record p { first = false; spaces = true }) f
                  (omega (arith, l, k, m)) is (takes e f t x) b))
      | inr y ↦
          rw (z, y, q, h, spelled_by v vs)
            (Adds-next (doubled (v == 39) ++ encode_utf8 v) (spell_single vs) e
              (single_character p s e) _ (single_character-Adds v (text utf8_encoding vs) p e a t b)
              (λ f x.
                single_loop-Adds n vs (record { first = false; spaces = false; breaks = false }) f
                  (omega (arith, l, k, m)) is (takes e f t x) refl))
    ]

-- With a write handler that takes all, a text of allowed characters without line breaks, written in
-- single quotes with no breaks allowed, is added to the output with its quotes doubled, between quotes,
-- behind a space if there is no white space; the buffer does not overflow.
pub write_single_quoted_scalar-Adds :
    (vs : List ℕ) (e : Emitter)
    → AreInline vs
    → TakesAll e.write_handler
    → Adds
        (before_quote e.whitespace ++ 39 ∷ (spell_single vs ++ 39 ∷ []))
        e
        (write_single_quoted_scalar (text utf8_encoding vs) false e)
unfolding write_single_quoted_scalar
write_single_quoted_scalar-Adds vs e i t =
    subst (λ bs. Adds bs e (write_single_quoted_scalar (text utf8_encoding vs) false e))
      (append_assoc (before_quote e.whitespace) (39 ∷ []) (spell_single vs ++ 39 ∷ []))
      (Adds-next (before_quote e.whitespace ++ 39 ∷ []) (spell_single vs ++ 39 ∷ []) e
        (write_indicator (39 ∷ []) true false false e) _ (opening-Adds e t)
        (λ f h.
          Adds-next (spell_single vs) (39 ∷ []) f
            (single_loop (length (text utf8_encoding vs)) false at_first (text utf8_encoding vs) f)
            _ (single_loop-Adds _ vs at_first f (omega arith) i (takes e f t h) refl)
            (λ g k.
              Adds-set (39 ∷ []) g (write_indicator (39 ∷ []) false false false g) _
                (λ x. (refl, refl)) (closing-Adds g (takes f g (takes e f t h) k)))))
