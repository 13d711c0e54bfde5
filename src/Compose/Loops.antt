-- ===== src/Compose/Loops.antt =====
-- The loops of `sequence` and `mapping`, with a child method that reads one node.
use mathlib.Core.List.{append_assoc, map-append, append-nil}
use yaml.Base.{
  List, [], ◌∷◌, ◌++◌, true, false, ◌≡◌, refl, map, ap, ◌∙◌, sym, arith, Option, some, none, inl,
  inr, length, ◌<◌, ℕ, ◌≤◌, zero, suc, Bool-cases, subst,
}
use yaml.Compose.Feeding.{At, Before, IsFresh, Succeeds, Succeeds-continue, peek-Before}
use yaml.Compose.Completion.{
  Completes, Ahead, Completes-first, accepted_event, ends_sequence, items-Begins, IsFresh-Ahead,
}
use yaml.Compose.State.{
  Composer, Composing, Composed, Tree, composed, thrown, nil_child, unknown_anchor, parse_error,
  peek, undecodable, panics, past_end, out_of_fuel, ◌is_event◌,
}
use yaml.Types.{Event, EventType, sequence_end_event}
use yaml.Resolve.Scalar.{Library}
use yaml.Parser.Expect.{Stack, Begins, items}
use yaml.Compose.Composer.{sequence_items, parse_child, added}
use yaml.Compose.Spelling.{Brief, spelled, spelled_reverse, brief}

pub Succeeds-map {ℓ} :
    (whole : List Event)
    → {A : Type ℓ} {good : A → Composer → Type 0} (fine : A → Composer → Type 0) (r : Composed A)
    → Succeeds whole r good
    → ((a : A) (d : Composer) → good a d → fine a d)
    → Succeeds whole r fine
Succeeds-map whole fine (composed a d) h k = k a d h
Succeeds-map whole fine (thrown (unknown_anchor b)) h k = h
Succeeds-map whole fine (thrown (parse_error b)) h k = h
Succeeds-map whole fine (thrown past_end) h k = h
Succeeds-map whole fine (thrown (undecodable a b c)) h k = h
Succeeds-map whole fine panics h k = h
Succeeds-map whole fine nil_child h k = h
Succeeds-map whole fine out_of_fuel h k = h

-- Of the events some are read, of which this is the text; the others complete the stack, and are ahead.
abbrev pub Tail : (whole : List Event) → List Event → Stack → List Brief → Composer → Type 0
Tail whole es s bs d =
    (taken : List Event) × (rest : List Event) × (es ≡ taken ++ rest)
    × (length rest < length es)
    × Completes rest s
    × (map brief taken ≡ bs)
    × IsFresh whole rest d

abbrev pub Reads : (whole : List Event) → List Event → Stack → Option Tree → Composer → Type 0
Reads whole es s none d = ⊥
Reads whole es s (some t) d = Tail whole es s (spelled t) d

-- A method reads one node, in a node's place, of fewer than so many events behind the first.
abbrev pub IsChild : (whole : List Event) → ℕ → Composing (Option Tree) → Type 0
IsChild whole n parse =
    (e : Event) (es : List Event) (s r : Stack) (c : Composer)
    → length es < n
    → Begins e.typ s r
    → Completes es r
    → Before whole e es c
    → Succeeds whole (parse c) (Reads whole (e ∷ es) s)

-- The loop has read the text between these children, up to the end event, which is read but not consumed.
abbrev pub Items :
    (whole : List Event)
    → EventType
    → List Event
    → Stack
    → List Tree
    → List Tree
    → Composer
    → Type 0
Items whole t es s before done d =
    (taken : List Event) × (e : Event) × (rest : List Event) × (es ≡ taken ++ (e ∷ rest))
    × (e.typ ≡ t)
    × Completes rest s
    × (spelled_reverse done ≡ spelled_reverse before ++ map brief taken)
    × At whole e rest d

-- No child, and the end.
pub Items-end :
    (whole : List Event)
    → (t : EventType) (e : Event) (es : List Event) (s : Stack) (before : List Tree) (d : Composer)
    → e.typ ≡ t
    → Completes es s
    → At whole e es d
    → Items whole t (e ∷ es) s before before d
Items-end whole t e es s before d k h a =
    ([], e, es, refl, k, h, sym (append-nil (spelled_reverse before)), a)

-- What was read of some events and then of the rest.
pub Items-join :
    (whole : List Event)
    → (t : EventType) (es taken rest : List Event) (s : Stack) (before more done : List Tree)
      (d : Composer)
    → es ≡ taken ++ rest
    → spelled_reverse more ≡ spelled_reverse before ++ map brief taken
    → Items whole t rest s more done d
    → Items whole t es s before done d
Items-join whole t es taken rest s before more done d q b (taken', e, rest', q', k, h, b', a) = (
  taken ++ taken',
  e,
  rest',
  q ∙ ap (λ x. taken ++ x) q' ∙ sym (append_assoc taken taken' (e ∷ rest')),
  k,
  h,
  b'
      ∙ ap (λ x. x ++ map brief taken') b
      ∙ append_assoc (spelled_reverse before) (map brief taken) (map brief taken')
      ∙ ap (λ x. spelled_reverse before ++ x) (sym (map-append brief taken taken')),
  a,
)

module _ (whole : List Event) (lib : Library) where
  pub parse_child-Reads :
      (parse : Composing (Option Tree)) (es : List Event) (s : Stack) (c : Composer)
      → Succeeds whole (parse c) (Reads whole es s)
      → Succeeds whole (parse_child lib parse c) (λ u d. Tail whole es s (spelled u) d)
  parse_child-Reads parse es s c h = Succeeds-continue whole _ (parse c) _ h by_child
    where
      by_child :
          (t : Option Tree) (d : Composer)
          → Reads whole es s t d
          → Succeeds whole (added lib t d) (λ u d. Tail whole es s (spelled u) d)
      by_child (some t) d r = r
      by_child none d r = absurd r

  pub sequence_items-Items :
      (n : ℕ) (parse : Composing (Option Tree))
      → IsChild whole n parse
      → (k : ℕ) (es : List Event) (done : List Tree) (s : Stack) (c : Composer) → length es ≤ k
      → length es ≤ n
      → Completes es (items ∷ s)
      → Ahead whole es c
      → Succeeds whole
          (sequence_items lib k parse done c)
          (Items whole sequence_end_event es s done)
  unfolding sequence_items spelled_reverse
  sequence_items-Items n parse child k [] done s c a b h x = absurd x
  sequence_items-Items n parse child zero (e ∷ es) done s c a b h x = absurd (omega arith)
  sequence_items-Items n parse child (suc k) (e ∷ es) done s c a b h x =
      let (r, acc, comp, tail) = Completes-first e es (items ∷ s) h in
      Succeeds-continue whole _ (peek c) _
        (peek-Before whole e es c (accepted_event e.typ (items ∷ s) r acc) x)
        (λ t d (q, at). elim (Bool-cases (t is_event sequence_end_event)) [
          | inl y ↦
              let z : (e.typ is_event sequence_end_event) ≡ true =
                ap (λ u. u is_event sequence_end_event) (sym q) ∙ y in
              let (typ, same) = ends_sequence e.typ s r acc z in
              rw (y, Succeeds)
                (Items-end whole sequence_end_event e es s done d typ
                  (subst (Completes es) same comp) at)
          | inr y ↦
              let z : (e.typ is_event sequence_end_event) ≡ false =
                ap (λ u. u is_event sequence_end_event) (sym q) ∙ y in
              rw y (
                Succeeds-continue whole _ (parse_child lib parse d) _
                  (parse_child-Reads parse (e ∷ es) (items ∷ s) d (
                    child e es (items ∷ s) r d (omega arith) (items-Begins e.typ s r acc z) comp
                      (inr at)))
                  (λ u d' (taken, rest, eq, less, comp', text, fresh).
                    Succeeds-map whole _ (sequence_items lib k parse (u ∷ done) d')
                      (sequence_items-Items n parse child k rest (u ∷ done) s d' (omega arith)
                        (omega arith) comp' (IsFresh-Ahead whole rest items s d' comp' fresh))
                      (λ all d''.
                        Items-join whole sequence_end_event (e ∷ es) taken rest s done (u ∷ done)
                          all d'' eq (ap (λ x. spelled_reverse done ++ x) (sym text)))))
        ])
