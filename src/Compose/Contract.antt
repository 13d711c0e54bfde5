-- ===== src/Compose/Contract.antt =====
-- The composition of whole event streams.
use yaml.Base.{
  List, [], ◌∷◌, true, false, ◌≡◌, refl, ap, ◌∙◌, sym, arith, inl, inr, length, ℕ, ◌≤◌, zero, suc,
  subst,
}
use yaml.Compose.Composer.{parse, parse_event, scalar, alias, sequence, mapping}
use yaml.Compose.Loops.{Tail, Reads, IsChild}
use yaml.Compose.Wholes.{sequence-Tail, mapping-Tail}
use yaml.Parser.Expect.{Stack, Begins}
use yaml.Types.{
  Event, EventType, no_event, scalar_event, alias_event, sequence_start_event, mapping_start_event,
}
use yaml.Resolve.Scalar.{Library}
use yaml.Compose.State.{Composer, ◌is_event◌, Tree, init, composed, peek, continue}
use yaml.Compose.Feeding.{init-done, Before, At, Succeeds-continue, IsFresh, Succeeds, peek-Before}
use yaml.Compose.Completion.{Completes}
use yaml.Compose.Spelling.{spelled, brief}
use yaml.Compose.Leaves.{scalar-At, alias-At}

pub done-Before :
    (whole : List Event)
    → (e : Event) (es : List Event) (c : Composer) → Before whole e es c
    → c.done_init ≡ true
done-Before whole e es c (inl (i, z, w, m)) = i
done-Before whole e es c (inr (i, z, w, m)) = i

Tail-leaf :
    (whole : List Event)
    → (e : Event) (es : List Event) (s r : Stack) (u : Tree) (d : Composer) → r ≡ s
    → Completes es r
    → IsFresh whole es d × (spelled u ≡ brief e ∷ [])
    → Tail whole (e ∷ es) s (spelled u) d
Tail-leaf whole e es s r u d q h (f, text) =
    (e ∷ [], es, refl, omega arith, subst (Completes es) q h, sym text, f)

module _ (lib : Library) where
  pub parse_by_init :
      (n : ℕ) (c d : Composer)
      → init c ≡ composed tt d
      → parse lib (suc n) c ≡ continue (peek d) (λ t. parse_event lib n (parse lib n) t)
  unfolding parse
  parse_by_init n c d h = rw h refl

module _ (whole : List Event) (lib : Library) where
  -- The switch of `parse`, by what the event begins.
  pub by_event :
      (n : ℕ)
      → IsChild whole n (parse lib n)
      → (t : EventType) (es : List Event) (s r : Stack) (c : Composer) → At whole c.event es c
      → c.event.typ ≡ t
      → length es ≤ n
      → Begins t s r
      → Completes es r
      → Succeeds whole (parse_event lib n (parse lib n) t c) (Reads whole (c.event ∷ es) s)
  by_event n child scalar_event es s r c h k b q comp =
      Succeeds-continue whole _ (scalar lib c) _ (scalar-At whole lib es c h k)
        (λ u d w. Tail-leaf whole c.event es s r u d q comp w)
  by_event n child alias_event es s r c h k b q comp =
      Succeeds-continue whole _ (alias lib c) _ (alias-At whole lib es c h k)
        (λ u d w. Tail-leaf whole c.event es s r u d q comp w)
  by_event n child sequence_start_event es s r c h k b q comp =
      Succeeds-continue whole _ (sequence lib n (parse lib n) c) _
        (sequence-Tail whole lib n (parse lib n) child es s c h k b (subst (Completes es) q comp))
        (λ u d w. w)
  by_event n child mapping_start_event es s r c h k b q comp =
      Succeeds-continue whole _ (mapping lib n (parse lib n) c) _
        (mapping-Tail whole lib n (parse lib n) child es s c h k b (subst (Completes es) q comp))
        (λ u d w. w)
  by_event n child _ es s r c h k b q comp = absurd q

  begun_code : (t : EventType) (s r : Stack) → Begins t s r → (t is_event no_event) ≡ false
  unfolding ◌is_event◌
  begun_code no_event s r b = absurd b
  begun_code _ s r b = refl

  pub parse-IsChild : (n : ℕ) → IsChild whole n (parse lib n)
  parse-IsChild zero e es s r c b q comp x = absurd (omega arith)
  parse-IsChild (suc n) e es s r c b q comp x =
      rw (parse_by_init lib n c c (init-done c (done-Before whole e es c x))) (
        Succeeds-continue whole _ (peek c) _ (peek-Before whole e es c (begun_code e.typ s r q) x)
          (λ t d (k, (i, a, f, m)).
            subst
              (λ y. Succeeds whole (parse_event lib n (parse lib n) t d) (Reads whole (y ∷ es) s)) a
              (by_event n (parse-IsChild n) t es s r d (i, refl, f, m) (ap (λ y. y.typ) a ∙ sym k)
                (omega arith) (subst (λ y. Begins y s r) (sym k) q) comp)))
