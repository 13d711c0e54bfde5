-- ===== src/Parser/Valid.antt =====
-- The invariant of the parser between two events, and the stack that its states stand for.
use yaml.Base.{ℕ, ◌+◌, ◌*◌, ◌≤◌, List, [], ◌∷◌, ◌++◌, ◌≡◌, length}
use yaml.Types.{ParserState}
use yaml.Parser.State.{Parser}
use yaml.Parser.Expect.{Stack, stream, documents, node, document_end, items, keys, value}

-- What a parser in this state expects; the states of a pair in a flow sequence stand for the
-- mapping and the sequence around it.
abbrev pub expects : ParserState → Stack
expects ParserState.stream_start_state = stream ∷ []
expects ParserState.implicit_document_start_state = documents ∷ []
expects ParserState.document_start_state = documents ∷ []
expects ParserState.document_content_state = node ∷ []
expects ParserState.document_end_state = document_end ∷ []
expects ParserState.block_node_state = node ∷ []
expects ParserState.block_node_or_indentless_sequence_state = node ∷ []
expects ParserState.flow_node_state = node ∷ []
expects ParserState.block_sequence_first_entry_state = items ∷ []
expects ParserState.block_sequence_entry_state = items ∷ []
expects ParserState.indentless_sequence_entry_state = items ∷ []
expects ParserState.block_mapping_first_key_state = keys ∷ []
expects ParserState.block_mapping_key_state = keys ∷ []
expects ParserState.block_mapping_value_state = value ∷ []
expects ParserState.flow_sequence_first_entry_state = items ∷ []
expects ParserState.flow_sequence_entry_state = items ∷ []
expects ParserState.flow_sequence_entry_mapping_key_state = keys ∷ items ∷ []
expects ParserState.flow_sequence_entry_mapping_value_state = value ∷ items ∷ []
expects ParserState.flow_sequence_entry_mapping_end_state = keys ∷ items ∷ []
expects ParserState.flow_mapping_first_key_state = keys ∷ []
expects ParserState.flow_mapping_key_state = keys ∷ []
expects ParserState.flow_mapping_value_state = value ∷ []
expects ParserState.flow_mapping_empty_value_state = value ∷ []
expects ParserState.end_state = []

abbrev pub stack_of : List ParserState → Stack
stack_of [] = []
stack_of (s ∷ r) = expects s ++ stack_of r

-- The marks that the collection of a state has on the marks stack.
abbrev pub marks_of : ParserState → ℕ
marks_of ParserState.block_sequence_entry_state = 1
marks_of ParserState.block_mapping_key_state = 1
marks_of ParserState.block_mapping_value_state = 1
marks_of ParserState.flow_sequence_entry_state = 1
marks_of ParserState.flow_sequence_entry_mapping_key_state = 1
marks_of ParserState.flow_sequence_entry_mapping_value_state = 1
marks_of ParserState.flow_sequence_entry_mapping_end_state = 1
marks_of ParserState.flow_mapping_key_state = 1
marks_of ParserState.flow_mapping_value_state = 1
marks_of ParserState.flow_mapping_empty_value_state = 1
marks_of _ = 0

abbrev pub all_marks : List ParserState → ℕ
all_marks [] = 0
all_marks (s ∷ r) = marks_of s + all_marks r

-- A bound on the events that come before the next token is consumed.
abbrev pub weight : ParserState → ℕ
weight ParserState.stream_start_state = 1
weight ParserState.implicit_document_start_state = 5
weight ParserState.document_start_state = 1
weight ParserState.document_content_state = 2
weight ParserState.document_end_state = 2
weight ParserState.block_node_state = 2
weight ParserState.block_node_or_indentless_sequence_state = 2
weight ParserState.flow_node_state = 2
weight ParserState.block_mapping_value_state = 2
weight ParserState.flow_sequence_entry_mapping_key_state = 5
weight ParserState.flow_sequence_entry_mapping_value_state = 3
weight ParserState.flow_sequence_entry_mapping_end_state = 2
weight ParserState.flow_mapping_value_state = 2
weight ParserState.flow_mapping_empty_value_state = 2
weight ParserState.end_state = 0
weight _ = 1

abbrev pub all_weights : List ParserState → ℕ
all_weights [] = 0
all_weights (s ∷ r) = weight s + all_weights r

-- The measure that each event makes smaller.
abbrev pub potential : Parser → ℕ
potential p = 8 * length p.tokens + weight p.state + all_weights p.states

-- Whether a state needs the states stack: it ends a collection or a node.
pub data Level : Type 0 where
  outer inner : Level

abbrev pub level : ParserState → Level
level ParserState.stream_start_state = outer
level ParserState.implicit_document_start_state = outer
level ParserState.document_start_state = outer
level ParserState.document_end_state = outer
level ParserState.end_state = outer
level _ = inner

-- The tokens that are there for certain: this state is entered at a token that is not skipped.
abbrev pub needs_token : ParserState → ℕ
needs_token ParserState.flow_mapping_first_key_state = 1
needs_token _ = 0

-- All states but the one at the bottom are inner, and none on the stack waits at a token.
abbrev pub IsNested : ParserState → List ParserState → Type 0
IsNested s [] = level s ≡ outer
IsNested s (t ∷ r) = (level s ≡ inner) × (needs_token t ≡ 0) × IsNested t r

pub record IsValid (p : Parser) : Type 0 where
  pub nested : IsNested p.state p.states
  pub marked : length p.marks ≡ marks_of p.state + all_marks p.states
  pub stocked : needs_token p.state ≤ length p.tokens
  pub no_tail : p.tail_comment ≡ []

abbrev pub expectation : Parser → Stack
expectation p = stack_of (p.state ∷ p.states)
