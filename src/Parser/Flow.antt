-- ===== src/Parser/Flow.antt =====
-- The handlers of flow sequences and flow mappings.
use yaml.Base.{Bool, true, false, not, ◌&&◌, if◌then◌else◌}
use yaml.Types.{
  Token, ◌is◌, flow_sequence_end, flow_mapping_end, flow_entry, key, value, Event, event,
  mapping_start_event, sequence_end_event, mapping_end_event, flow_style, flow_sequence_entry_state,
  flow_sequence_entry_mapping_key_state, flow_sequence_entry_mapping_value_state,
  flow_sequence_entry_mapping_end_state, flow_mapping_key_state, flow_mapping_value_state,
  flow_mapping_empty_value_state,
}
use yaml.Parser.State.{
  ok, fail, panic, Action, ◌>>=◌, ◌>>◌, return, set_state, push_state, pop_state, push_mark,
  pop_mark, set_parser_error_context,
}
use yaml.Parser.Comments.{set_event_comments}
use yaml.Parser.Queue.{peek, skip}
use yaml.Parser.Node.{parse_node}
use yaml.Parser.Block.{process_empty_scalar, open_collection}

-- The tail of `yaml_parser_parse_flow_sequence_entry`: the end of the sequence.
abbrev pub flow_sequence_ends : Token → Action Event
flow_sequence_ends t = do
  pop_state
  _ ← pop_mark
  e ← set_event_comments (event sequence_end_event t.start_mark t.end_mark)
  skip
  return e

abbrev pub flow_sequence_item : Token → Action Event
flow_sequence_item t p =
    if t.typ is key
    then (do
      set_state flow_sequence_entry_mapping_key_state
      let e = event mapping_start_event t.start_mark t.end_mark
      skip
      return (record e { implicit = true; style = flow_style }))
        p
    else if not (t.typ is flow_sequence_end)
    then (do push_state flow_sequence_entry_state; parse_node false false) p
    else flow_sequence_ends t p

-- `yaml_parser_parse_flow_sequence_entry` from the token that is no opening one on.
abbrev pub flow_sequence_entry_at : Bool → Token → Action Event
flow_sequence_entry_at first t =
    let after_entry : Action Event = do skip; u ← peek; flow_sequence_item u
    in let an_error : Action Event = do
      context_mark ← pop_mark
      set_parser_error_context "while parsing a flow sequence" context_mark
          "did not find expected ',' or ']'" t.start_mark
      in if not (t.typ is flow_sequence_end)
        then if not first
          then if t.typ is flow_entry then after_entry else an_error
          else flow_sequence_item t
        else flow_sequence_ends t

-- `yaml_parser_parse_flow_sequence_entry`
unfoldable pub parse_flow_sequence_entry : Bool → Action Event
parse_flow_sequence_entry first = open_collection first >>= flow_sequence_entry_at first

-- `yaml_parser_parse_flow_sequence_entry_mapping_key`
unfoldable pub parse_flow_sequence_entry_mapping_key : Action Event
parse_flow_sequence_entry_mapping_key p =
    (do
      t ← peek
      let a_node : Action Event = do
        push_state flow_sequence_entry_mapping_value_state
        parse_node false false
      let no_node : Action Event = do
        let mark = t.end_mark
        skip
        set_state flow_sequence_entry_mapping_value_state
        process_empty_scalar mark
      if not (t.typ is value) && not (t.typ is flow_entry) && not (t.typ is flow_sequence_end)
          then a_node
          else no_node)
      p

-- `yaml_parser_parse_flow_sequence_entry_mapping_value`; the token peeked under the test shadows the
-- other, whose mark the empty scalar takes
unfoldable pub parse_flow_sequence_entry_mapping_value : Action Event
parse_flow_sequence_entry_mapping_value p =
    (do
      t ← peek
      let no_value : Action Event = do
        set_state flow_sequence_entry_mapping_end_state
        process_empty_scalar t.start_mark
      let a_value : Action Event = do
        skip
        u ← peek
        let a_node : Action Event = do
          push_state flow_sequence_entry_mapping_end_state
          parse_node false false
        if not (u.typ is flow_entry) && not (u.typ is flow_sequence_end) then a_node else no_value
      if t.typ is value then a_value else no_value)
      p

-- `yaml_parser_parse_flow_sequence_entry_mapping_end`
unfoldable pub parse_flow_sequence_entry_mapping_end : Action Event
parse_flow_sequence_entry_mapping_end p =
    (do
      t ← peek
      set_state flow_sequence_entry_state
      return (event mapping_end_event t.start_mark t.start_mark))
      p

-- `if first { … }` of `yaml_parser_parse_flow_mapping_key`, which does not test the token for nil
abbrev pub open_flow_mapping : Bool → Action Token
open_flow_mapping first p =
    if first
    then elim (peek p) [
      | ok t q ↦ (do push_mark t.start_mark; skip; peek) q
      | fail q ↦ panic
      | panic ↦ panic
    ]
    else peek p

-- The tail of `yaml_parser_parse_flow_mapping_key`: the end of the mapping.
abbrev pub flow_mapping_ends : Token → Action Event
flow_mapping_ends t = do
  pop_state
  _ ← pop_mark
  e ← set_event_comments (event mapping_end_event t.start_mark t.end_mark)
  skip
  return e

abbrev pub flow_mapping_item : Token → Action Event
flow_mapping_item t p =
    if t.typ is key
    then (do
      skip
      u ← peek
      let a_node : Action Event = do push_state flow_mapping_value_state; parse_node false false
      let no_node : Action Event = do
        set_state flow_mapping_value_state
        process_empty_scalar u.start_mark
      if not (u.typ is value) && not (u.typ is flow_entry) && not (u.typ is flow_mapping_end)
          then a_node
          else no_node)
        p
    else if not (t.typ is flow_mapping_end)
    then (do push_state flow_mapping_empty_value_state; parse_node false false) p
    else flow_mapping_ends t p

-- `yaml_parser_parse_flow_mapping_key` from the token that is no opening one on.
abbrev pub flow_mapping_key_at : Bool → Token → Action Event
flow_mapping_key_at first t =
    let after_entry : Action Event = do skip; u ← peek; flow_mapping_item u
    in let an_error : Action Event = do
      context_mark ← pop_mark
      set_parser_error_context "while parsing a flow mapping" context_mark
          "did not find expected ',' or '}'" t.start_mark
      in if not (t.typ is flow_mapping_end)
        then if not first
          then if t.typ is flow_entry then after_entry else an_error
          else flow_mapping_item t
        else flow_mapping_ends t

-- `yaml_parser_parse_flow_mapping_key`
unfoldable pub parse_flow_mapping_key : Bool → Action Event
parse_flow_mapping_key first = open_flow_mapping first >>= flow_mapping_key_at first

-- `yaml_parser_parse_flow_mapping_value`
unfoldable pub parse_flow_mapping_value : Bool → Action Event
parse_flow_mapping_value empty p =
    (do
      t ← peek
      let a_value : Action Event = do
        skip
        u ← peek
        let a_node : Action Event = do push_state flow_mapping_key_state; parse_node false false
        let no_node : Action Event = do
          set_state flow_mapping_key_state
          process_empty_scalar u.start_mark
        if not (u.typ is flow_entry) && not (u.typ is flow_mapping_end) then a_node else no_node
      let no_value : Action Event = do
        set_state flow_mapping_key_state
        process_empty_scalar t.start_mark
      if empty then no_value else if t.typ is value then a_value else no_value)
      p
