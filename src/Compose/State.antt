-- ===== src/Compose/State.antt =====
-- The nodes of yaml.go with all their fields, and the state of decode.go's `parser` with the functions
-- that read its events.
use yaml.Base.{
  ℕ, ◌+◌, ◌==◌, Bool, true, false, List, [], ◌++◌, Bytes, Option, none, codes, if◌then◌else◌, not,
  is_empty,
}
use yaml.Origin.Nodes.{Kind, Place}
use yaml.Parser.State.{Parser, ok, fail}
use yaml.Types.{
  EventType, ErrorType, no_event, stream_start_event, Event, empty_event, stream_end_event,
  document_start_event, document_end_event, alias_event, scalar_event, sequence_start_event,
  sequence_end_event, mapping_start_event, mapping_end_event, tail_comment_event,
}
use yaml.Parser.Machine.{parse, is_no_error}
use yaml.Origin.Decimal.{print_int, pos}
use yaml.Parser.State.{panic}

-- `Style`, one field for each flag; `quoting` has the four of scalars, of which a parser sets one.
pub data Quoting : Type 0 where
  unquoted double_quoted single_quoted literal folded : Quoting

pub record Style : Type 0 where
  pub tagged : Bool
  pub quoting : Quoting
  pub flow : Bool

-- The fields of `Node` but `Content`. A node is known by its address, the count of the nodes made
-- before it; `alias` is the address of the node that an alias points to.
pub record Fields : Type 0 where
  pub kind : Kind
  pub style : Style
  pub tag : Bytes
  pub value : Bytes
  pub anchor : Bytes
  pub alias : Option ℕ
  pub head_comment : Bytes
  pub line_comment : Bytes
  pub foot_comment : Bytes
  pub place : Place
  pub address : ℕ

mutual
  pub data Tree : Type 0 where
    tree : Fields → Trees → Tree

  pub data Trees : Type 0 where
    no_trees : Trees
    and_tree : Tree → Trees → Trees

-- `parser`; the event is `empty_event` when there is none.
pub record Composer : Type 0 where
  pub parser : Parser
  pub event : Event
  pub doc : Option ℕ
  pub anchors : List (Bytes × ℕ)
  pub made : ℕ
  pub done_init : Bool
  pub textless : Bool
  pub disable_timestamps : Bool

-- `newParser`, around a parser that is set to its input.
abbrev pub new_composer : Parser → Composer
new_composer p = record {
  parser = p;
  event = empty_event;
  doc = none;
  anchors = [];
  made = 0;
  done_init = false;
  textless = false;
  disable_timestamps = false;
}

-- What `failf` is called with.
pub data Failure : Type 0 where
  parse_error : Bytes → Failure
  past_end : Failure
  unknown_anchor : Bytes → Failure
  undecodable : Bytes → Bytes → Bytes → Failure

-- A function returns, fails, panics, or has run out of fuel. A nil node as a child, which the source
-- appends to the content, is a case of its own.
pub data Composed {ℓ} (A : Type ℓ) : Type ℓ where
  composed : A → Composer → Composed A
  thrown : Failure → Composed A
  panics : Composed A
  nil_child : Composed A
  out_of_fuel : Composed A

abbrev pub Composing {ℓ} : Type ℓ → Type ℓ
Composing A = Composer → Composed A

abbrev pub continue {ℓ κ} : {A : Type ℓ} {B : Type κ} → Composed A → (A → Composing B) → Composed B
continue (composed a d) f = f a d
continue (thrown e) f = thrown e
continue panics f = panics
continue nil_child f = nil_child
continue out_of_fuel f = out_of_fuel

infixl 5 ◌>>=◌ ◌>>◌
abbrev pub ◌>>=◌ {ℓ κ} : {A : Type ℓ} {B : Type κ} → Composing A → (A → Composing B) → Composing B
◌>>=◌ m f c = continue (m c) f

abbrev pub ◌>>◌ {κ} : {B : Type κ} → Composing (Unit {0}) → Composing B → Composing B
m >> k = m >>= λ _. k

abbrev pub return {ℓ} : {A : Type ℓ} → A → Composing A
return a c = composed a c

abbrev pub modify : (Composer → Composer) → Composing (Unit {0})
modify f c = composed tt (f c)

abbrev pub gets {ℓ} : {A : Type ℓ} → (Composer → A) → Composing A
gets f c = composed (f c) c

-- The number that `iota` gives an event type.
unfoldable pub event_code : EventType → ℕ
event_code no_event = 0
event_code stream_start_event = 1
event_code stream_end_event = 2
event_code document_start_event = 3
event_code document_end_event = 4
event_code alias_event = 5
event_code scalar_event = 6
event_code sequence_start_event = 7
event_code sequence_end_event = 8
event_code mapping_start_event = 9
event_code mapping_end_event = 10
event_code tail_comment_event = 11

-- `==` on event types.
infix 50 ◌is_event◌
unfoldable pub ◌is_event◌ : EventType → EventType → Bool
unfolding event_code
a is_event b = event_code a == event_code b

-- `eventStrings`
abbrev pub event_string : EventType → Bytes
event_string no_event = codes "none"
event_string stream_start_event = codes "stream start"
event_string stream_end_event = codes "stream end"
event_string document_start_event = codes "document start"
event_string document_end_event = codes "document end"
event_string alias_event = codes "alias"
event_string scalar_event = codes "scalar"
event_string sequence_start_event = codes "sequence start"
event_string sequence_end_event = codes "sequence end"
event_string mapping_start_event = codes "mapping start"
event_string mapping_end_event = codes "mapping end"
event_string tail_comment_event = codes "tail comment"

abbrev pub is_scanner_error : ErrorType → Bool
is_scanner_error ErrorType.scanner_error = true
is_scanner_error _ = false

-- The line of an error; 0 if there is none.
abbrev pub error_line : Parser → ℕ
error_line p =
    let more : ℕ = if is_scanner_error p.error then 1 else 0 in
    if not (p.context_mark.line == 0)
    then p.context_mark.line + more
    else if not (p.problem_mark.line == 0)
    then p.problem_mark.line + more
    else 0

-- The message of `fail`, for the problem that the parser has or is given.
abbrev pub failure : Parser → Bytes → Failure
failure p problem =
    let where_text : Bytes =
      if error_line p == 0
      then []
      else codes "line " ++ print_int (pos (error_line p)) ++ codes ": " in
    parse_error (
      where_text
      ++ (if is_empty problem then codes "unknown problem parsing YAML content" else problem))

-- `yaml_parser_parse` into the event.
abbrev pub take_event : Composing (Unit {0})
take_event c = elim (parse c.parser) [
  | ok e q ↦ composed tt (record c { parser = q; event = e })
  | fail q ↦ thrown (failure q (codes q.problem))
  | panic ↦ panics
]

abbrev pub no_fail : Composing (Unit {0})
no_fail c =
    if is_no_error c.parser.error
    then composed tt c
    else thrown (failure c.parser (codes c.parser.problem))

-- `peek`
unfoldable pub peek : Composing EventType
unfolding ◌is_event◌
peek c =
    if c.event.typ is_event no_event
    then (do take_event; no_fail; gets (λ d. d.event.typ)) c
    else composed c.event.typ c

abbrev pub need_event : Composing (Unit {0})
need_event c = if c.event.typ is_event no_event then take_event c else composed tt c

abbrev pub consume : EventType → Composing (Unit {0})
consume t c =
    if c.event.typ is_event stream_end_event
    then thrown past_end
    else if c.event.typ is_event t
    then composed tt (record c { event = empty_event })
    else thrown (
        failure c.parser (
          codes "expected "
          ++ event_string t
          ++ codes " event but got "
          ++ event_string c.event.typ))

-- `expect`
unfoldable pub expect : EventType → Composing (Unit {0})
unfolding ◌is_event◌
expect t = do need_event; consume t

-- `init`
unfoldable pub init : Composing (Unit {0})
unfolding expect
init c =
    if c.done_init
    then composed tt c
    else (do
      modify (λ d. record d { anchors = [] })
      expect stream_start_event
      modify (λ d. record d { done_init = true }))
        c
