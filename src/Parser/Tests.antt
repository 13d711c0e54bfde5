-- ===== src/Parser/Tests.antt =====
-- Runs of the parser on small token streams, and the witnesses of its contract.
use yaml.Base.{
  ℕ, Bool, true, false, List, [], ◌∷◌, some, Bytes, codes, refl, arith, ◌≡◌, ◌≢◌, String, ◌+◌, drop,
  equal,
}
use yaml.Parser.Machine.{Run, done, failed, panicked, out_of_fuel, run, parse}
use yaml.Parser.Contract.{parse-accept, parse-ne-panic, run-IsAccepted, initial-IsValid, IsAccepted}
use yaml.Types.{
  TokenType, Event, EventType, stream_start_event, Token, stream_start, no_error,
  document_start_event, block_mapping_start, flow_sequence_start, mapping_start_event, any_encoding,
  key, scalar_event, plain_scalar_style, scalar, sequence_start_event, flow_entry,
  flow_sequence_end, sequence_end_event, block_end, stream_end, mapping_end_event,
  document_end_event, stream_end_event, event, ◌is◌, implicit_document_start_state,
}
use yaml.Parser.State.{Fetched, initial, Parser, ok}
use yaml.Parser.Document.{
  parse_stream_start, parse_document_start, parse_document_end, skip_document_ends,
}
use yaml.Parser.Expect.{accept, stream, documents}
use yaml.Parser.State.{panic}
use yaml.Parser.Valid.{IsValid}
use yaml.Parser.Directives.{
  process_directives, directives_loop, append_default_directives, append_tag_directive, has_handle,
}
use yaml.Parser.Node.{parse_node, parse_content, resolve_tag, parse_properties, plain_implicit}
use yaml.Parser.Block.{parse_block_mapping_key, parse_block_mapping_value}
use yaml.Parser.Flow.{
  parse_flow_sequence_entry, parse_flow_sequence_entry_mapping_key,
  parse_flow_sequence_entry_mapping_value, parse_flow_sequence_entry_mapping_end,
}
use yaml.Parser.Comments.{split_header, unfold_from}
use yaml.Parser.Header.{IsSplit, split_header-IsSplit}

abbrev token : TokenType → ℕ → Bytes → Token
token t i text = record {
  typ = t;
  start_mark = record { index = i; line = 0; column = i };
  end_mark = record { index = i + 1; line = 0; column = i + 1 };
  encoding = any_encoding;
  value = text;
  suffix = [];
  prefix = [];
  style = plain_scalar_style;
  major = 0;
  minor = 0;
}

abbrev fetched : TokenType → ℕ → Bytes → Fetched
fetched t i text = record { token = token t i text; comments = [] }

-- `a: [b, c]`
abbrev mapping_tokens : List Fetched
mapping_tokens =
    fetched stream_start 0 []
    ∷ fetched block_mapping_start 0 []
    ∷ fetched key 0 []
    ∷ fetched scalar 0 (codes "a")
    ∷ fetched TokenType.value 1 []
    ∷ fetched flow_sequence_start 3 []
    ∷ fetched scalar 4 (codes "b")
    ∷ fetched flow_entry 5 []
    ∷ fetched scalar 7 (codes "c")
    ∷ fetched flow_sequence_end 8 []
    ∷ fetched block_end 9 []
    ∷ fetched stream_end 9 []
    ∷ []

-- `[? : x]`
abbrev empty_key_tokens : List Fetched
empty_key_tokens =
    fetched stream_start 0 []
    ∷ fetched flow_sequence_start 0 []
    ∷ fetched key 1 []
    ∷ fetched TokenType.value 3 []
    ∷ fetched scalar 5 (codes "x")
    ∷ fetched flow_sequence_end 6 []
    ∷ fetched stream_end 7 []
    ∷ []

abbrev types : List Event → List EventType
types [] = []
types (e ∷ es) = e.typ ∷ types es

abbrev types_of : Run → Bool × List EventType
types_of (done es p) = (true, types es)
types_of (failed es p) = (false, types es)
types_of (panicked es) = (false, types es)
types_of out_of_fuel = (false, [])

abbrev problem_of : Run → String
problem_of (failed es p) = p.problem
problem_of _ = ""

abbrev mapping_run : Run
mapping_run = run 200 (initial mapping_tokens no_error)

abbrev empty_key_run : Run
empty_key_run = run 200 (initial empty_key_tokens no_error)

run_mapping : types_of mapping_run ≡ (
  true,
  stream_start_event ∷ document_start_event ∷ mapping_start_event ∷ scalar_event
      ∷ sequence_start_event ∷ scalar_event ∷ scalar_event ∷ sequence_end_event ∷ mapping_end_event
      ∷ document_end_event ∷ stream_end_event ∷ [],
)
unfolding run parse_stream_start ◌is◌ parse_document_start process_directives directives_loop
    append_default_directives append_tag_directive has_handle equal parse_node parse_content
    resolve_tag parse_properties plain_implicit parse_block_mapping_key parse_block_mapping_value
    parse_flow_sequence_entry parse_flow_sequence_entry_mapping_key
    parse_flow_sequence_entry_mapping_value parse_flow_sequence_entry_mapping_end parse_document_end
    skip_document_ends split_header
run_mapping = refl

-- An explicit key that is empty, in a flow sequence: the parser skips the value indicator.
run_empty_key : problem_of empty_key_run ≡ "did not find expected ',' or ']'"
unfolding run parse_stream_start ◌is◌ parse_document_start process_directives directives_loop
    append_default_directives append_tag_directive has_handle equal parse_node parse_content
    resolve_tag parse_properties plain_implicit parse_block_mapping_key parse_block_mapping_value
    parse_flow_sequence_entry parse_flow_sequence_entry_mapping_key
    parse_flow_sequence_entry_mapping_value parse_flow_sequence_entry_mapping_end parse_document_end
    skip_document_ends split_header
run_empty_key = refl

abbrev start_parser : Parser
start_parser = initial mapping_tokens no_error

abbrev started_parser : Parser
started_parser = record start_parser {
  tokens = drop 1 mapping_tokens;
  token_available = false;
  tokens_parsed = 1;
  state = implicit_document_start_state;
}

abbrev start_of_stream : Event
start_of_stream =
    event stream_start_event (record { index = 0; line = 0; column = 0 })
      (record { index = 1; line = 0; column = 1 })

start_parse : parse start_parser ≡ ok start_of_stream started_parser
unfolding parse parse_stream_start ◌is◌ unfold_from
start_parse = refl

parse-accept_example :
    (accept stream_start_event (stream ∷ []) ≡ some (documents ∷ [])) × IsValid started_parser
parse-accept_example =
    parse-accept start_parser started_parser start_of_stream
      (initial-IsValid mapping_tokens no_error) refl start_parse

parse-ne-panic_example : parse start_parser ≢ panic
parse-ne-panic_example = parse-ne-panic start_parser (initial-IsValid mapping_tokens no_error)

run-IsAccepted_example : IsAccepted (stream ∷ []) (run 200 (initial mapping_tokens no_error))
run-IsAccepted_example = run-IsAccepted mapping_tokens no_error 200 (omega arith)

split_header-IsSplit_example :
    IsSplit (codes "# header\n\n# head") (split_header (codes "# header\n\n# head"))
split_header-IsSplit_example = split_header-IsSplit (codes "# header\n\n# head")
