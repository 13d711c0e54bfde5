-- ===== src/Parser/Steps/Keeping.antt =====
-- The loops before a document, which read tokens: the stacks and the tokens left behind them.
use yaml.Base.{
  List, [], ◌∷◌, ℕ, refl, arith, Bool, true, false, Option, ◌≤◌, length, suc, some, Bool-cases,
  none, ◌≡◌, inl, inr, zero, ◌++◌, ◌||◌,
}
use yaml.Parser.State.{Parser, Fetched, Outcome, Action, ok, ◌>>=◌, fail, panic, ◌>>◌, return}
use yaml.Types.{
  Mark, Token, Event, TagDirective, VersionDirective, ◌is◌, document_end, version_directive,
  tag_directive,
}
use yaml.Parser.Steps.NodeStep.{Kept, Keeps, peek-Kept}
use yaml.Parser.Directives.{
  append_tag_directive, one_directive, append_default_directives, directives_loop,
  process_directives, default_tag_directives,
}
use yaml.Parser.Document.{skip_document_ends}
use yaml.Parser.Steps.HandlerStep.{Step, peeked, skipped}
use yaml.Parser.Queue.{skip, peek}

Kept-trans : (p q r : Parser) → Kept p q → Kept q r → Kept p r
Kept-trans p q r k l = ground arith

Keeps-Kept {ℓ} : {A : Type ℓ} (p q : Parser) (o : Outcome A) → Kept p q → Keeps q o → Keeps p o
Keeps-Kept p q (ok a r) k l = Kept-trans p q r k l
Keeps-Kept p q (fail r) k l = tt
Keeps-Kept p q panic k l = l

pub unchanged-Kept : (p : Parser) → 1 ≤ length p.tokens → Kept p p
unchanged-Kept p h = ground arith

bind-Keeps {ℓ κ} :
    {A : Type ℓ} {B : Type κ} (p : Parser) (o : Outcome A) (k : A → Action B)
    → Keeps p o
    → ((a : A) (q : Parser) → Kept p q → Keeps q (k a q))
    → Keeps p (((λ _. o) >>= k) p)
bind-Keeps p (ok a q) k h next = Keeps-Kept p q (k a q) h (next a q h)
bind-Keeps p (fail q) k h next = tt
bind-Keeps p panic k h next = h

pub Step-Kept : (p q : Parser) (o : Outcome Event) → Kept p q → Step q o → Step p o
Step-Kept p q (ok e r) k (a, n, v, h) = (ground (arith, a), n, v, ground arith)
Step-Kept p q (fail r) k h = tt
Step-Kept p q panic k h = h

pub bind-Step {ℓ} :
    {A : Type ℓ} (p : Parser) (o : Outcome A) (k : A → Action Event)
    → Keeps p o
    → ((a : A) (q : Parser) → Kept p q → Step q (k a q))
    → Step p (((λ _. o) >>= k) p)
bind-Step p (ok a q) k h next = Step-Kept p q (k a q) h (next a q h)
bind-Step p (fail q) k h next = tt
bind-Step p panic k h next = h

append_tag_directive-Keeps :
    (d : TagDirective) (allow : Bool) (mark : Mark) (p : Parser)
    → 1 ≤ length p.tokens
    → Keeps p (append_tag_directive d allow mark p)
unfolding append_tag_directive
append_tag_directive-Keeps d allow mark p h = ground arith

abbrev directive_of : Token → TagDirective
directive_of t = record { handle = t.value; prefix = t.prefix }

append_then-Keeps {ℓ} :
    {A : Type ℓ} (a : A) (t : Token) (p : Parser)
    → 1 ≤ length p.tokens
    → Keeps p ((append_tag_directive (directive_of t) false t.start_mark >> return a) p)
append_then-Keeps a t p h =
    bind-Keeps p (append_tag_directive (directive_of t) false t.start_mark p) (λ _. return a)
      (append_tag_directive-Keeps (directive_of t) false t.start_mark p h)
      (λ _ q k. unchanged-Kept q k.one_left)

one_directive-Keeps :
    (t : Token) (v : Option VersionDirective) (tags : List TagDirective) (p : Parser)
    → 1 ≤ length p.tokens
    → Keeps p (one_directive t v tags p)
unfolding one_directive
one_directive-Keeps t none tags p h = elim (Bool-cases (t.typ is version_directive)) [
  | inl e ↦ rw e (ground arith)
  | inr e ↦ rw e (append_then-Keeps (none, tags ++ directive_of t ∷ []) t p h)
]
one_directive-Keeps t (some d) tags p h = elim (Bool-cases (t.typ is version_directive)) [
  | inl e ↦ rw e tt
  | inr e ↦ rw e (append_then-Keeps (some d, tags ++ directive_of t ∷ []) t p h)
]

append_default_directives-Keeps :
    (ds : List TagDirective) (mark : Mark) (p : Parser)
    → 1 ≤ length p.tokens
    → Keeps p (append_default_directives ds mark p)
unfolding append_default_directives
append_default_directives-Keeps [] mark p h = ground arith
append_default_directives-Keeps (d ∷ ds) mark p h =
    bind-Keeps p (append_tag_directive d true mark p) (λ _. append_default_directives ds mark)
      (append_tag_directive-Keeps d true mark p h)
      (λ _ q k. append_default_directives-Keeps ds mark q k.one_left)

-- `skip_token` and `peek_token` before an action that needs a token.
next_at {ℓ} :
    {A : Type ℓ} (k : Token → Action A) (p : Parser) (fs : List Fetched)
    → 1 ≤ length fs
    → ((t : Token) (q : Parser)
        → suc (length q.tokens) ≡ length fs
        → 1 ≤ length q.tokens
        → Keeps q (k t q))
    → Keeps (record p { tokens = fs }) ((skip >> (peek >>= k)) (record p { tokens = fs }))
next_at k p [] h next = absurd (omega arith)
next_at k p (f ∷ []) h next = tt
next_at k p (f ∷ g ∷ fs) h next =
    let before = record p { tokens = f ∷ g ∷ fs } in
    let w = peeked g (skipped f (g ∷ fs) before) in
    Keeps-Kept before w (k g.token w)
      (record {
        same_state = refl;
        same_states = refl;
        same_marks = refl;
        same_tail = refl;
        fewer = omega arith;
        one_left = omega arith;
      })
      (next g.token w refl (omega arith))

pub skip_document_ends-Keeps :
    (n : ℕ) (t : Token) (p : Parser)
    → 1 ≤ length p.tokens
    → length p.tokens ≤ n
    → Keeps p (skip_document_ends n t p)
unfolding skip_document_ends
skip_document_ends-Keeps zero t p h l = absurd (omega arith)
skip_document_ends-Keeps (suc n) t p h l = elim (Bool-cases (t.typ is document_end)) [
  | inl e ↦ rw e (
      next_at (skip_document_ends n) p p.tokens h
        (λ u q d o. skip_document_ends-Keeps n u q o (omega arith)))
  | inr e ↦ rw e (ground arith)
]

directives_loop-Keeps :
    (n : ℕ) (t : Token) (v : Option VersionDirective) (tags : List TagDirective) (p : Parser)
    → 1 ≤ length p.tokens
    → length p.tokens ≤ n
    → Keeps p (directives_loop n t v tags p)
unfolding directives_loop
directives_loop-Keeps zero t v tags p h l = absurd (omega arith)
directives_loop-Keeps (suc n) t v tags p h l =
    elim (Bool-cases (t.typ is version_directive || t.typ is tag_directive)) [
      | inl e ↦ rw e (
          bind-Keeps p (one_directive t v tags p)
            (λ a. skip >> (peek >>= λ u. directives_loop n u a.0 a.1))
            (one_directive-Keeps t v tags p h)
            (λ a q k.
              next_at (λ u. directives_loop n u a.0 a.1) q q.tokens k.one_left
                (λ u r d o. directives_loop-Keeps n u a.0 a.1 r o (omega (arith, k.fewer)))))
      | inr e ↦ rw e (ground arith)
    ]

pub peek-Keeps : (p : Parser) → 1 ≤ length p.tokens → Keeps p (peek p)
peek-Keeps p = at_tokens p p.tokens
  where
    at_tokens :
        (q : Parser) (fs : List Fetched)
        → 1 ≤ length fs
        → Keeps (record q { tokens = fs }) (peek (record q { tokens = fs }))
    at_tokens q [] h = absurd (omega arith)
    at_tokens q (f ∷ fs) h = peek-Kept q f fs

pub process_directives-Keeps : (p : Parser) → 1 ≤ length p.tokens → Keeps p (process_directives p)
unfolding process_directives
process_directives-Keeps p h = bind-Keeps p (peek p) _ (peek-Keeps p h) (λ t q k.
    bind-Keeps q (directives_loop (length q.tokens) t none [] q)
      (λ a. append_default_directives default_tag_directives a.2.start_mark >> return (a.0, a.1))
      (directives_loop-Keeps (length q.tokens) t none [] q k.one_left (omega arith))
      (λ a r l.
        bind-Keeps r (append_default_directives default_tag_directives a.2.start_mark r)
          (λ _. return (a.0, a.1))
          (append_default_directives-Keeps default_tag_directives a.2.start_mark r l.one_left)
          (λ _ w m. unchanged-Kept w m.one_left)))
