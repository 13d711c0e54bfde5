-- ===== src/Parser/Node.antt =====
-- `yaml_parser_parse_node`: aliases, properties, scalars and the starts of collections.
use yaml.Base.{
  ℕ, Bool, true, false, not, ◌&&◌, ◌||◌, List, [], ◌∷◌, ◌++◌, String, Option, none, some, Bytes,
  equal, is_empty, ◌==◌, if◌then◌else◌,
}
use yaml.Types.{
  Mark, no_mark, Token, ◌is◌, alias, anchor, tag, block_entry, scalar, flow_sequence_start,
  flow_mapping_start, block_sequence_start, block_mapping_start, TagDirective, Event, EventType,
  event, alias_event, scalar_event, sequence_start_event, mapping_start_event,
  indentless_sequence_entry_state, flow_sequence_first_entry_state, flow_mapping_first_key_state,
  block_sequence_first_entry_state, block_mapping_first_key_state, plain_scalar_style, block_style,
  flow_style,
}
use yaml.Parser.State.{
  ok, Action, ◌>>=◌, ◌>>◌, return, set_state, pop_state, set_parser_error_context,
}
use yaml.Parser.Comments.{set_event_comments, take_stem_comment}
use yaml.Parser.Queue.{peek, skip}

-- The local variables of the function that the properties set.
pub record Properties : Type 0 where
  pub tag_token : Bool
  pub tag_handle : Bytes
  pub tag_suffix : Bytes
  pub anchor : Bytes
  pub tag_mark : Mark
  pub start_mark : Mark
  pub end_mark : Mark

abbrev pub no_properties : Token → Properties
no_properties t = record {
  tag_token = false;
  tag_handle = [];
  tag_suffix = [];
  anchor = [];
  tag_mark = no_mark;
  start_mark = t.start_mark;
  end_mark = t.start_mark;
}

abbrev with_anchor : Token → Properties → Properties
with_anchor t props = record props { anchor = t.value; end_mark = t.end_mark }

abbrev with_tag : Token → Properties → Properties
with_tag t props = record props {
  tag_token = true;
  tag_handle = t.value;
  tag_suffix = t.suffix;
  tag_mark = t.start_mark;
  end_mark = t.end_mark;
}

-- properties ::= TAG ANCHOR? | ANCHOR TAG?, and the token behind them
unfoldable pub parse_properties : Token → Action (Properties × Token)
parse_properties t p =
    if t.typ is anchor
    then (do
      let props = with_anchor t (no_properties t)
      skip
      u ← peek
      let last : Action (Properties × Token) = do skip; v ← peek; return (with_tag u props, v)
      if u.typ is tag then last else return (props, u))
        p
    else if t.typ is tag
    then (do
      let props = with_tag t (no_properties t)
      skip
      u ← peek
      let last : Action (Properties × Token) = do skip; v ← peek; return (with_anchor u props, v)
      if u.typ is anchor then last else return (props, u))
        p
    else ok (no_properties t, t) p

-- The prefix of the first directive with the handle.
unfoldable pub prefix_of : Bytes → List TagDirective → Option Bytes
prefix_of h [] = none
prefix_of h (d ∷ ds) = if equal d.handle h then some d.prefix else prefix_of h ds

unfoldable pub expand_tag : List TagDirective → Bytes → Bytes → Bytes
unfolding prefix_of
expand_tag ds handle suffix = elim (prefix_of handle ds) [ none ↦ [] | some x ↦ x ++ suffix ]

-- The tag of the node, from the handle and the suffix.
unfoldable pub resolve_tag : Properties → Action Bytes
resolve_tag props p =
    if props.tag_token
    then if is_empty props.tag_handle
      then ok props.tag_suffix p
      else if is_empty (expand_tag p.tag_directives props.tag_handle props.tag_suffix)
      then set_parser_error_context "while parsing a node" props.start_mark
          "found undefined tag handle" props.tag_mark p
      else ok (expand_tag p.tag_directives props.tag_handle props.tag_suffix) p
    else ok [] p

-- The event of a collection that starts at a token.
abbrev start_event : EventType → ℕ → Properties → Bytes → Mark → Event
start_event typ style props tag_name end_mark = record (event typ props.start_mark end_mark) {
  anchor = props.anchor;
  tag = tag_name;
  implicit = is_empty tag_name;
  style = style;
}

-- `(len(tag) == 0 && token.style == yaml_PLAIN_SCALAR_STYLE) || (len(tag) == 1 && tag[0] == '!')`
unfoldable pub plain_implicit : Bytes → ℕ → Bool
plain_implicit tag_name style =
    is_empty tag_name && style == plain_scalar_style || equal tag_name (b'!' ∷ [])

abbrev scalar_of : Properties → Bytes → Token → Event
scalar_of props tag_name t = record (event scalar_event props.start_mark t.end_mark) {
  anchor = props.anchor;
  tag = tag_name;
  value = t.value;
  implicit = plain_implicit tag_name t.style;
  quoted_implicit = not (plain_implicit tag_name t.style) && is_empty tag_name;
  style = t.style;
}

-- A scalar with properties and no content.
abbrev empty_of : Properties → Bytes → Event
empty_of props tag_name = record (event scalar_event props.start_mark props.end_mark) {
  anchor = props.anchor;
  tag = tag_name;
  implicit = is_empty tag_name;
  style = plain_scalar_style;
}

abbrev node_context : Bool → String
node_context block = if block then "while parsing a block node" else "while parsing a flow node"

-- The function from `implicit := len(tag) == 0` on.
unfoldable pub parse_content : Bool → Bool → Properties → Bytes → Token → Action Event
parse_content block indentless props tag_name t p =
    if indentless && t.typ is block_entry
    then (do
      set_state indentless_sequence_entry_state
      return (start_event sequence_start_event block_style props tag_name t.end_mark))
        p
    else if t.typ is scalar
    then (do pop_state; e ← set_event_comments (scalar_of props tag_name t); skip; return e) p
    else if t.typ is flow_sequence_start
    then (do
      set_state flow_sequence_first_entry_state
      set_event_comments (start_event sequence_start_event flow_style props tag_name t.end_mark))
        p
    else if t.typ is flow_mapping_start
    then (do
      set_state flow_mapping_first_key_state
      set_event_comments (start_event mapping_start_event flow_style props tag_name t.end_mark))
        p
    else if block && t.typ is block_sequence_start
    then (do
      set_state block_sequence_first_entry_state
      take_stem_comment (start_event sequence_start_event block_style props tag_name t.end_mark))
        p
    else if block && t.typ is block_mapping_start
    then (do
      set_state block_mapping_first_key_state
      take_stem_comment (start_event mapping_start_event block_style props tag_name t.end_mark))
        p
    else if not (is_empty props.anchor) || not (is_empty tag_name)
    then (do pop_state; return (empty_of props tag_name)) p
    else set_parser_error_context (node_context block) props.start_mark
        "did not find expected node content" t.start_mark p

-- `yaml_parser_parse_node`
unfoldable pub parse_node : Bool → Bool → Action Event
unfolding parse_properties resolve_tag parse_content
parse_node block indentless p =
    (do
      t ← peek
      let an_alias : Action Event = do
        pop_state
        let e = event alias_event t.start_mark t.end_mark
        e' ← set_event_comments (record e { anchor = t.value })
        skip
        return e'
      let a_node : Action Event = do
        (props, u) ← parse_properties t
        tag_name ← resolve_tag props
        parse_content block indentless props tag_name u
      if t.typ is alias then an_alias else a_node)
      p
