-- ===== src/Parser/Expect.antt =====
-- The contract of the parser with its callers: which event may come next. It is the grammar of event
-- streams as a machine of its own, with a stack of what is still expected; it knows no tokens.
use mathlib.Core.Option
use yaml.Base.{List, [], ◌∷◌, Option, none, some, ◌≡◌, arith, Bool, false, true, refl}
use yaml.Types.{
  EventType, no_event, stream_start_event, stream_end_event, document_start_event,
  document_end_event, alias_event, scalar_event, sequence_start_event, sequence_end_event,
  mapping_start_event, mapping_end_event, tail_comment_event, Event,
}

-- `documents`: a document or the end of the stream; `items`: a node or the end of the sequence;
-- `keys`: a key, a tail comment or the end of the mapping; `value`: the value of a key.
pub data Expected : Type 0 where
  stream documents node document_end items keys value : Expected

abbrev pub Stack : Type 0
Stack = List Expected

-- What is expected behind a whole node.
abbrev pub node_done : Stack → Option Stack
node_done [] = none
node_done (stream ∷ s) = none
node_done (documents ∷ s) = none
node_done (node ∷ s) = some s
node_done (document_end ∷ s) = none
node_done (items ∷ s) = some (items ∷ s)
node_done (keys ∷ s) = some (value ∷ s)
node_done (value ∷ s) = some (keys ∷ s)

abbrev pub on_stream_start : Stack → Option Stack
on_stream_start (stream ∷ s) = some (documents ∷ s)
on_stream_start _ = none

abbrev pub on_stream_end : Stack → Option Stack
on_stream_end (documents ∷ []) = some []
on_stream_end _ = none

abbrev pub on_document_start : Stack → Option Stack
on_document_start (documents ∷ s) = some (node ∷ document_end ∷ s)
on_document_start _ = none

abbrev pub on_document_end : Stack → Option Stack
on_document_end (document_end ∷ s) = some (documents ∷ s)
on_document_end _ = none

abbrev pub on_sequence_end : Stack → Option Stack
on_sequence_end (items ∷ s) = some s
on_sequence_end _ = none

abbrev pub on_mapping_end : Stack → Option Stack
on_mapping_end (keys ∷ s) = some s
on_mapping_end _ = none

abbrev pub on_tail_comment : Stack → Option Stack
on_tail_comment (keys ∷ s) = some (keys ∷ s)
on_tail_comment _ = none

-- One event; `none` is a refusal.
unfoldable pub accept : EventType → Stack → Option Stack
accept no_event s = none
accept stream_start_event s = on_stream_start s
accept stream_end_event s = on_stream_end s
accept document_start_event s = on_document_start s
accept document_end_event s = on_document_end s
accept alias_event s = node_done s
accept scalar_event s = node_done s
accept sequence_start_event s = Option.map (◌∷◌ items) (node_done s)
accept sequence_end_event s = on_sequence_end s
accept mapping_start_event s = Option.map (◌∷◌ keys) (node_done s)
accept mapping_end_event s = on_mapping_end s
accept tail_comment_event s = on_tail_comment s

-- The events from one stack to another.
unfoldable pub accept_all : List Event → Stack → Option Stack
accept_all [] s = some s
accept_all (e ∷ es) s = elim (accept e.typ s) [ none ↦ none | some s' ↦ accept_all es s' ]

-- How an event that begins a node changes the stack that is expected behind the node.
abbrev pub Begins : EventType → Stack → Stack → Type 0
Begins alias_event s t = t ≡ s
Begins scalar_event s t = t ≡ s
Begins sequence_start_event s t = t ≡ items ∷ s
Begins mapping_start_event s t = t ≡ keys ∷ s
Begins _ s t = ⊥

abbrev pub is_tail_comment : EventType → Bool
is_tail_comment tail_comment_event = true
is_tail_comment _ = false

pub Begins-not_tail : (e : EventType) (s t : Stack) → Begins e s t → is_tail_comment e ≡ false
Begins-not_tail tail_comment_event s t b = absurd b
Begins-not_tail _ s t b = refl

pub accept-Begins :
    (e : EventType) (r s t : Stack) → node_done r ≡ some s → Begins e s t → accept e r ≡ some t
unfolding accept
accept-Begins alias_event r s t h b = cc
accept-Begins scalar_event r s t h b = cc
accept-Begins sequence_start_event r s t h b = ground (arith, h, b)
accept-Begins mapping_start_event r s t h b = ground (arith, h, b)
accept-Begins _ r s t h b = absurd b
