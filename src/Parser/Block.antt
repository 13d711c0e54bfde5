-- ===== src/Parser/Block.antt =====
-- The handlers of block sequences, indentless sequences and block mappings.
use yaml.Base.{Bool, true, false, not, ◌&&◌, [], length, is_empty, if◌then◌else◌}
use yaml.Types.{
  Mark, Token, ◌is◌, block_entry, block_end, key, value, Event, event, scalar_event,
  sequence_end_event, mapping_end_event, tail_comment_event, plain_scalar_style,
  block_sequence_entry_state, indentless_sequence_entry_state, block_mapping_key_state,
  block_mapping_value_state,
}
use yaml.Parser.State.{
  Action, ◌>>=◌, ◌>>◌, return, modify, gets, set_state, push_state, pop_state, push_mark, pop_mark,
  set_parser_error_context,
}
use yaml.Parser.Comments.{set_event_comments}
use yaml.Parser.Queue.{peek, skip, split_stem_comment}
use yaml.Parser.Node.{parse_node}

-- `yaml_parser_process_empty_scalar`
abbrev pub process_empty_scalar : Mark → Action Event
process_empty_scalar mark =
    return (record (event scalar_event mark mark) { implicit = true; style = plain_scalar_style })

-- `if first { … }`: the mark of the token that opens the collection, and the token after it
abbrev pub open_collection : Bool → Action Token
open_collection first p =
    if first then (do t ← peek; push_mark t.start_mark; skip; peek) p else peek p

-- `yaml_parser_parse_block_sequence_entry` behind a dash: the `peek_token` and what follows.
abbrev pub block_sequence_item : Mark → Action Event
block_sequence_item mark = do
  u ← peek
  let a_node : Action Event = do push_state block_sequence_entry_state; parse_node true false
  let no_node : Action Event = do set_state block_sequence_entry_state; process_empty_scalar mark
  if not (u.typ is block_entry) && not (u.typ is block_end) then a_node else no_node

-- `yaml_parser_parse_block_sequence_entry` from the token that is no opening one on.
abbrev pub block_sequence_entry_at : Token → Action Event
block_sequence_entry_at t =
    let an_entry : Action Event = do
      stem_len ← gets (λ q. length q.head_comment)
      skip
      split_stem_comment stem_len
      block_sequence_item t.end_mark
    in let the_end : Action Event = do
      pop_state
      _ ← pop_mark
      skip
      return (event sequence_end_event t.start_mark t.end_mark)
      in let an_error : Action Event = do
        context_mark ← pop_mark
        set_parser_error_context "while parsing a block collection" context_mark
            "did not find expected '-' indicator" t.start_mark
        in if t.typ is block_entry
          then an_entry
          else if t.typ is block_end
          then the_end
          else an_error

-- `yaml_parser_parse_block_sequence_entry`
unfoldable pub parse_block_sequence_entry : Bool → Action Event
parse_block_sequence_entry first = open_collection first >>= block_sequence_entry_at

-- `yaml_parser_parse_indentless_sequence_entry` behind a dash.
abbrev pub indentless_sequence_item : Mark → Action Event
indentless_sequence_item mark = do
  u ← peek
  let a_node : Action Event = do push_state indentless_sequence_entry_state; parse_node true false
  let no_node : Action Event = do
    set_state indentless_sequence_entry_state
    process_empty_scalar mark
  if not (u.typ is block_entry)
        && not (u.typ is key)
        && not (u.typ is value)
        && not (u.typ is block_end)
      then a_node
      else no_node

-- `yaml_parser_parse_indentless_sequence_entry`
unfoldable pub parse_indentless_sequence_entry : Action Event
parse_indentless_sequence_entry p =
    (do
      t ← peek
      let an_entry : Action Event = do
        stem_len ← gets (λ q. length q.head_comment)
        skip
        split_stem_comment stem_len
        indentless_sequence_item t.end_mark
      let the_end : Action Event = do
        pop_state
        return (event sequence_end_event t.start_mark t.start_mark)
      if t.typ is block_entry then an_entry else the_end)
      p

-- `yaml_parser_parse_block_mapping_key` from the token that is no opening one on.
abbrev pub block_mapping_key_at : Token → Action Event
block_mapping_key_at t = do
  tail ← gets (λ q. q.tail_comment)
  let a_comment : Action Event = do
    modify (λ q. record q { tail_comment = [] })
    return (record (event tail_comment_event t.start_mark t.end_mark) { foot_comment = tail })
  let a_key : Action Event = do
    skip
    u ← peek
    let a_node : Action Event = do push_state block_mapping_value_state; parse_node true true
    let no_node : Action Event = do
      set_state block_mapping_value_state
      process_empty_scalar t.end_mark
    if not (u.typ is key) && not (u.typ is value) && not (u.typ is block_end)
        then a_node
        else no_node
  let the_end : Action Event = do
    pop_state
    _ ← pop_mark
    e ← set_event_comments (event mapping_end_event t.start_mark t.end_mark)
    skip
    return e
  let an_error : Action Event = do
    context_mark ← pop_mark
    set_parser_error_context "while parsing a block mapping" context_mark
        "did not find expected key" t.start_mark
  if not (is_empty tail)
      then a_comment
      else if t.typ is key
      then a_key
      else if t.typ is block_end
      then the_end
      else an_error

-- `yaml_parser_parse_block_mapping_key`
unfoldable pub parse_block_mapping_key : Bool → Action Event
parse_block_mapping_key first = open_collection first >>= block_mapping_key_at

-- `yaml_parser_parse_block_mapping_value`
unfoldable pub parse_block_mapping_value : Action Event
parse_block_mapping_value p =
    (do
      t ← peek
      let a_value : Action Event = do
        skip
        u ← peek
        let a_node : Action Event = do push_state block_mapping_key_state; parse_node true true
        let no_node : Action Event = do
          set_state block_mapping_key_state
          process_empty_scalar t.end_mark
        if not (u.typ is key) && not (u.typ is value) && not (u.typ is block_end)
            then a_node
            else no_node
      let no_value : Action Event = do
        set_state block_mapping_key_state
        process_empty_scalar t.start_mark
      if t.typ is value then a_value else no_value)
      p
