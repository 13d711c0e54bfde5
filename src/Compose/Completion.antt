-- ===== src/Compose/Completion.antt =====
-- Events that complete what is expected, and a composer before them.
use yaml.Base.{List, [], ◌∷◌, true, false, ◌≡◌, refl, Option, some, none, inl}
use yaml.Parser.Expect.{node, value}
use yaml.Compose.Feeding.{Before, IsFresh}
use yaml.Types.{
  Event, EventType, no_event, sequence_end_event, mapping_end_event, alias_event, scalar_event,
  sequence_start_event, mapping_start_event, tail_comment_event,
}
use yaml.Parser.Expect.{accept_all, accept, is_tail_comment, Stack, Expected, items, keys, Begins}
use yaml.Compose.State.{◌is_event◌, Composer}

abbrev pub AreNoTails : List Event → Type 0
AreNoTails [] = Unit
AreNoTails (e ∷ es) = (is_tail_comment e.typ ≡ false) × AreNoTails es

-- The events, without a tail comment, are what is expected, up to the end of the stream.
abbrev pub Completes : List Event → Stack → Type 0
Completes es s = (accept_all es s ≡ some []) × AreNoTails es

pub Completes-first :
    (e : Event) (es : List Event) (s : Stack)
    → Completes (e ∷ es) s
    → (t : Stack) × (accept e.typ s ≡ some t) × Completes es t × (is_tail_comment e.typ ≡ false)
unfolding accept_all
Completes-first e es s (a, (n, m)) = by_accepted (accept e.typ s) refl a
  where
    by_accepted :
        (o : Option Stack)
        → accept e.typ s ≡ o
        → (elim o [ none ↦ none | some s' ↦ accept_all es s' ]) ≡ some []
        → (t : Stack) × (accept e.typ s ≡ some t) × Completes es t × (is_tail_comment e.typ ≡ false)
    by_accepted none q h = cc h
    by_accepted (some t) q h = (t, q, (h, m), n)

pub accepted_event :
    (t : EventType) (r s : Stack) → accept t r ≡ some s → (t is_event no_event) ≡ false
unfolding accept ◌is_event◌
accepted_event no_event r s h = cc h
accepted_event _ r s h = refl

-- The events that may come in a node's place.
pub node-Begins : (t : EventType) (s r : Stack) → accept t (node ∷ s) ≡ some r → Begins t s r
unfolding accept
node-Begins alias_event s r h = cc
node-Begins scalar_event s r h = cc
node-Begins sequence_start_event s r h = cc
node-Begins mapping_start_event s r h = cc
node-Begins _ s r h = cc h

pub value-Begins :
    (t : EventType) (s r : Stack) → accept t (value ∷ s) ≡ some r → Begins t (keys ∷ s) r
unfolding accept
value-Begins alias_event s r h = cc
value-Begins scalar_event s r h = cc
value-Begins sequence_start_event s r h = cc
value-Begins mapping_start_event s r h = cc
value-Begins _ s r h = cc h

pub items-Begins :
    (t : EventType) (s r : Stack)
    → accept t (items ∷ s) ≡ some r
    → (t is_event sequence_end_event) ≡ false
    → Begins t (items ∷ s) r
unfolding accept ◌is_event◌
items-Begins alias_event s r h n = cc
items-Begins scalar_event s r h n = cc
items-Begins sequence_start_event s r h n = cc
items-Begins mapping_start_event s r h n = cc
items-Begins sequence_end_event s r h n = cc n
items-Begins _ s r h n = cc h

pub keys-Begins :
    (t : EventType) (s r : Stack)
    → accept t (keys ∷ s) ≡ some r
    → is_tail_comment t ≡ false
    → (t is_event mapping_end_event) ≡ false
    → Begins t (value ∷ s) r
unfolding accept ◌is_event◌
keys-Begins alias_event s r h m n = cc
keys-Begins scalar_event s r h m n = cc
keys-Begins sequence_start_event s r h m n = cc
keys-Begins mapping_start_event s r h m n = cc
keys-Begins mapping_end_event s r h m n = cc n
keys-Begins tail_comment_event s r h m n = cc m
keys-Begins _ s r h m n = cc h

pub ends_sequence :
    (t : EventType) (s r : Stack)
    → accept t (items ∷ s) ≡ some r
    → (t is_event sequence_end_event) ≡ true
    → (t ≡ sequence_end_event) × (r ≡ s)
unfolding accept ◌is_event◌
ends_sequence sequence_end_event s r h n = (refl, cc)
ends_sequence _ s r h n = cc n

pub ends_mapping :
    (t : EventType) (s r : Stack)
    → accept t (keys ∷ s) ≡ some r
    → (t is_event mapping_end_event) ≡ true
    → (t ≡ mapping_end_event) × (r ≡ s)
unfolding accept ◌is_event◌
ends_mapping mapping_end_event s r h n = (refl, cc)
ends_mapping _ s r h n = cc n

-- Some event is ahead.
abbrev pub Ahead : (whole : List Event) → List Event → Composer → Type 0
Ahead whole [] c = ⊥
Ahead whole (e ∷ es) c = Before whole e es c

pub IsFresh-Ahead :
    (whole : List Event)
    → (es : List Event) (x : Expected) (s : Stack) (c : Composer) → Completes es (x ∷ s)
    → IsFresh whole es c
    → Ahead whole es c
unfolding accept_all
IsFresh-Ahead whole [] x s c (a, n) f = cc a
IsFresh-Ahead whole (e ∷ es) x s c (a, n) f = inl f
