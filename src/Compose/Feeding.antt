-- ===== src/Compose/Feeding.antt =====
-- The composer over the events that its parser will give.
use yaml.Base.{
  List, [], ◌∷◌, Bool, true, false, ◌≡◌, refl, ◌⊎◌, inl, inr, ==_iff, ap, ◌∙◌, subst, sym,
}
use yaml.Parser.Machine.{parse, is_no_error}
use yaml.Compose.State.{
  continue, past_end, parse_error, undecodable, Composer, Composed, composed, thrown, panics,
  nil_child, out_of_fuel, unknown_anchor, Composing, peek, expect, init, ◌is_event◌, event_code,
  take_event, no_fail, ◌>>◌, gets,
}
use yaml.Types.{Event, no_event, EventType, stream_end_event, empty_event}
use yaml.Parser.State.{Parser, ok}
use yaml.Compose.Anchors.{IsUnknown, Knows}

-- Over these events a computation returns what it should, or fails at an alias with an anchor that
-- no node before it has.
abbrev pub Succeeds {ℓ} :
    (whole : List Event) → {A : Type ℓ} → Composed A → (A → Composer → Type 0) → Type 0
Succeeds whole (composed a c) good = good a c
Succeeds whole (thrown (unknown_anchor b)) good = IsUnknown whole b
Succeeds whole _ good = ⊥

pub Succeeds-continue {ℓ κ} :
    (whole : List Event)
    → {A : Type ℓ} {B : Type κ} {good : A → Composer → Type 0} (fine : B → Composer → Type 0)
      (r : Composed A) (f : A → Composing B)
    → Succeeds whole r good
    → ((a : A) (d : Composer) → good a d → Succeeds whole (f a d) fine)
    → Succeeds whole (continue r f) fine
Succeeds-continue whole fine (composed a d) f h k = k a d h
Succeeds-continue whole fine (thrown (unknown_anchor b)) f h k = h
Succeeds-continue whole fine (thrown (parse_error b)) f h k = h
Succeeds-continue whole fine (thrown past_end) f h k = h
Succeeds-continue whole fine (thrown (undecodable a b c)) f h k = h
Succeeds-continue whole fine panics f h k = h
Succeeds-continue whole fine nil_child f h k = h
Succeeds-continue whole fine out_of_fuel f h k = h

-- The calls of `yaml_parser_parse` that give these events.
abbrev pub Feeds : List Event → Parser → Type 0
Feeds [] p = Unit
Feeds (e ∷ es) p = (q : Parser) × (parse p ≡ ok e q) × (is_no_error q.error ≡ true) × Feeds es q

-- The composer has read an event, and the others follow.
abbrev pub At : List Event → Event → List Event → Composer → Type 0
At whole e es c =
    (c.done_init ≡ true) × (c.event ≡ e) × Feeds es c.parser × Knows whole (c.event ∷ es) c.anchors

-- The events are still to be read, but maybe for the first.
abbrev pub IsFresh : List Event → List Event → Composer → Type 0
IsFresh whole es c =
    (c.done_init ≡ true)
    × ((c.event.typ is_event no_event) ≡ true)
    × Feeds es c.parser
    × Knows whole es c.anchors

abbrev pub Before : (whole : List Event) → Event → List Event → Composer → Type 0
Before whole e es c = IsFresh whole (e ∷ es) c ⊎ At whole e es c

-- What `expect` may be asked for.
abbrev pub is_expectable : EventType → Bool
is_expectable no_event = false
is_expectable stream_end_event = false
is_expectable _ = true

unique_code : (t : EventType) → (t is_event t) ≡ true
unfolding ◌is_event◌
unique_code t = (==_iff (event_code t) (event_code t)).1 refl

expectable_code :
    (t : EventType)
    → is_expectable t ≡ true
    → ((t is_event no_event) ≡ false) × ((t is_event stream_end_event) ≡ false)
unfolding ◌is_event◌
expectable_code no_event h = cc h
expectable_code stream_end_event h = cc h
expectable_code _ h = (refl, refl)

pub expect-At :
    (whole : List Event)
    → (t : EventType) (e : Event) (es : List Event) (c : Composer) → e.typ ≡ t
    → is_expectable t ≡ true
    → At whole e es c
    → expect t c ≡ composed tt (record c { event = empty_event })
unfolding expect
expect-At whole t e es c k x (i, a, f, m) =
    let (n, s) = expectable_code t x in
    let q : c.event.typ ≡ t = ap (λ y. y.typ) a ∙ k in rw (q, n, s, unique_code t) refl

pub peek-At :
    (whole : List Event)
    → (e : Event) (es : List Event) (c : Composer) → (e.typ is_event no_event) ≡ false
    → At whole e es c
    → peek c ≡ composed e.typ c
unfolding peek
peek-At whole e es c n (i, a, f, m) = rw (a, n) refl

take_event-Feeds :
    (whole : List Event)
    → (e : Event) (es : List Event) (c : Composer) → Feeds (e ∷ es) c.parser
    → Succeeds whole (take_event c) (λ t d.
      (d.done_init ≡ c.done_init)
      × (d.event ≡ e)
      × (d.anchors ≡ c.anchors)
      × (is_no_error d.parser.error ≡ true)
      × Feeds es d.parser)
take_event-Feeds whole e es c (q, r, x, f) = rw (r, Succeeds) (refl, refl, refl, x, f)

no_fail_lem : (c : Composer) → is_no_error c.parser.error ≡ true → no_fail c ≡ composed tt c
no_fail_lem c h = rw h refl

peek_fresh :
    (c : Composer)
    → (c.event.typ is_event no_event) ≡ true
    → peek c ≡ continue (take_event c) (λ t. no_fail >> gets (λ d. d.event.typ))
unfolding peek
peek_fresh c h = rw h refl

pub peek-Before :
    (whole : List Event)
    → (e : Event) (es : List Event) (c : Composer) → (e.typ is_event no_event) ≡ false
    → Before whole e es c
    → Succeeds whole (peek c) (λ t d. (t ≡ e.typ) × At whole e es d)
peek-Before whole e es c n (inr h) = rw (peek-At whole e es c n h) (refl, h)
peek-Before whole e es c n (inl (i, z, f, k)) = rw (peek_fresh c z) (
    Succeeds-continue whole _ (take_event c) _ (take_event-Feeds whole e es c f)
      (λ t d (j, a, m, x, g). rw (no_fail_lem d x) (
        ap (λ y. y.typ) a,
        (
          j ∙ i,
          a,
          g,
          subst (λ y. Knows whole (y ∷ es) d.anchors) (sym a)
              (subst (λ y. Knows whole (e ∷ es) y) (sym m) k),
        ),
      )))

pub init-done : (c : Composer) → c.done_init ≡ true → init c ≡ composed tt c
unfolding init
init-done c h = rw h refl
