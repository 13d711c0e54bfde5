-- ===== src/Parser/Machine.antt =====
-- `yaml_parser_state_machine` and `yaml_parser_parse`, and the loop of a caller that reads events.
use yaml.Base.{ℕ, zero, suc, Bool, true, false, ◌||◌, List, [], ◌∷◌, if◌then◌else◌}
use yaml.Types.{ErrorType, Event, ParserState, empty_event}
use yaml.Parser.State.{Parser, ok, fail, panic, Action}
use yaml.Parser.Block.{
  parse_block_sequence_entry, parse_indentless_sequence_entry, parse_block_mapping_key,
  parse_block_mapping_value,
}
use yaml.Parser.Flow.{
  parse_flow_sequence_entry, parse_flow_sequence_entry_mapping_key,
  parse_flow_sequence_entry_mapping_value, parse_flow_sequence_entry_mapping_end,
  parse_flow_mapping_key, parse_flow_mapping_value,
}
use yaml.Parser.Document.{
  parse_stream_start, parse_document_start, parse_document_content, parse_document_end,
}
use yaml.Parser.Node.{parse_node}

-- The switch; the state that has no case panics.
unfoldable pub dispatch : ParserState → Action Event
dispatch ParserState.stream_start_state = parse_stream_start
dispatch ParserState.implicit_document_start_state = parse_document_start true
dispatch ParserState.document_start_state = parse_document_start false
dispatch ParserState.document_content_state = parse_document_content
dispatch ParserState.document_end_state = parse_document_end
dispatch ParserState.block_node_state = parse_node true false
dispatch ParserState.block_node_or_indentless_sequence_state = parse_node true true
dispatch ParserState.flow_node_state = parse_node false false
dispatch ParserState.block_sequence_first_entry_state = parse_block_sequence_entry true
dispatch ParserState.block_sequence_entry_state = parse_block_sequence_entry false
dispatch ParserState.indentless_sequence_entry_state = parse_indentless_sequence_entry
dispatch ParserState.block_mapping_first_key_state = parse_block_mapping_key true
dispatch ParserState.block_mapping_key_state = parse_block_mapping_key false
dispatch ParserState.block_mapping_value_state = parse_block_mapping_value
dispatch ParserState.flow_sequence_first_entry_state = parse_flow_sequence_entry true
dispatch ParserState.flow_sequence_entry_state = parse_flow_sequence_entry false
dispatch ParserState.flow_sequence_entry_mapping_key_state = parse_flow_sequence_entry_mapping_key
dispatch ParserState.flow_sequence_entry_mapping_value_state =
    parse_flow_sequence_entry_mapping_value
dispatch ParserState.flow_sequence_entry_mapping_end_state = parse_flow_sequence_entry_mapping_end
dispatch ParserState.flow_mapping_first_key_state = parse_flow_mapping_key true
dispatch ParserState.flow_mapping_key_state = parse_flow_mapping_key false
dispatch ParserState.flow_mapping_value_state = parse_flow_mapping_value false
dispatch ParserState.flow_mapping_empty_value_state = parse_flow_mapping_value true
dispatch ParserState.end_state = λ _. panic

-- `yaml_parser_state_machine`
unfoldable pub state_machine : Action Event
unfolding dispatch
state_machine p = dispatch p.state p

abbrev pub is_no_error : ErrorType → Bool
is_no_error ErrorType.no_error = true
is_no_error _ = false

abbrev pub is_end_state : ParserState → Bool
is_end_state ParserState.end_state = true
is_end_state _ = false

-- The test with which `yaml_parser_parse` returns the empty event.
abbrev pub is_over : Parser → Bool
is_over p =
    p.stream_end_produced || (if is_no_error p.error then false else true) || is_end_state p.state

-- `yaml_parser_parse`
unfoldable pub parse : Action Event
unfolding state_machine
parse p = if is_over p then ok empty_event p else state_machine p

-- What a caller sees that reads events until there are none: the events, and the last parser.
pub data Run : Type 0 where
  done : List Event → Parser → Run
  failed : List Event → Parser → Run
  panicked : List Event → Run
  out_of_fuel : Run

abbrev pub after : Event → Run → Run
after e (done es p) = done (e ∷ es) p
after e (failed es p) = failed (e ∷ es) p
after e (panicked es) = panicked (e ∷ es)
after e out_of_fuel = out_of_fuel

-- `yaml_parser_parse` until the stream is over.
unfoldable pub run : ℕ → Parser → Run
unfolding parse
run zero p = out_of_fuel
run (suc n) p = elim (is_over p) [
  | true ↦ done [] p
  | false ↦ elim (parse p) [
    | ok e q ↦ after e (run n q)
    | fail q ↦ failed [] q
    | panic ↦ panicked []
  ]
]
