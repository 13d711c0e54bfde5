-- ===== src/Types.antt =====
-- The tokens, the events and the other data of yamlh.go that the parser works on.
use yaml.Base.{ℕ, Bool, false, List, [], Option, none, Bytes, ◌==◌}

-- `yaml_version_directive_t`
pub record VersionDirective : Type 0 where
  pub major : ℕ
  pub minor : ℕ

-- `yaml_tag_directive_t`
pub record TagDirective : Type 0 where
  pub handle : Bytes
  pub prefix : Bytes

-- `yaml_encoding_t`
pub data Encoding : Type 0 where
  any_encoding utf8_encoding utf16le_encoding utf16be_encoding : Encoding

-- `yaml_error_type_t`
pub data ErrorType : Type 0 where
  no_error memory_error reader_error scanner_error : ErrorType
  parser_error composer_error writer_error emitter_error : ErrorType

-- `yaml_mark_t`
pub record Mark : Type 0 where
  pub index : ℕ
  pub line : ℕ
  pub column : ℕ

-- The zero value of `yaml_mark_t`.
abbrev pub no_mark : Mark
no_mark = record { index = 0; line = 0; column = 0 }

-- `yaml_token_type_t`
pub data TokenType : Type 0 where
  no_token stream_start stream_end : TokenType
  version_directive tag_directive document_start document_end : TokenType
  block_sequence_start block_mapping_start block_end : TokenType
  flow_sequence_start flow_sequence_end flow_mapping_start flow_mapping_end : TokenType
  block_entry flow_entry key value : TokenType
  alias anchor tag scalar : TokenType

-- The number that `iota` gives a token type.
unfoldable pub token_code : TokenType → ℕ
token_code no_token = 0
token_code stream_start = 1
token_code stream_end = 2
token_code version_directive = 3
token_code tag_directive = 4
token_code document_start = 5
token_code document_end = 6
token_code block_sequence_start = 7
token_code block_mapping_start = 8
token_code block_end = 9
token_code flow_sequence_start = 10
token_code flow_sequence_end = 11
token_code flow_mapping_start = 12
token_code flow_mapping_end = 13
token_code block_entry = 14
token_code flow_entry = 15
token_code key = 16
token_code value = 17
token_code alias = 18
token_code anchor = 19
token_code tag = 20
token_code scalar = 21

-- `==` on token types.
infix 50 ◌is◌
unfoldable pub ◌is◌ : TokenType → TokenType → Bool
unfolding token_code
a is b = token_code a == token_code b

-- The scalar, sequence and mapping styles share `yaml_style_t`.
abbrev pub plain_scalar_style : ℕ
plain_scalar_style = 2

abbrev pub single_quoted_scalar_style : ℕ
single_quoted_scalar_style = 4

abbrev pub double_quoted_scalar_style : ℕ
double_quoted_scalar_style = 8

abbrev pub block_style : ℕ
block_style = 1

abbrev pub flow_style : ℕ
flow_style = 2

-- `yaml_token_t`
pub record Token : Type 0 where
  pub typ : TokenType
  pub start_mark : Mark
  pub end_mark : Mark
  pub encoding : Encoding
  pub value : Bytes
  pub suffix : Bytes
  pub prefix : Bytes
  pub style : ℕ
  pub major : ℕ
  pub minor : ℕ

-- `yaml_event_type_t`
pub data EventType : Type 0 where
  no_event stream_start_event stream_end_event : EventType
  document_start_event document_end_event alias_event scalar_event : EventType
  sequence_start_event sequence_end_event : EventType
  mapping_start_event mapping_end_event tail_comment_event : EventType

-- `yaml_event_t`
pub record Event : Type 0 where
  pub typ : EventType
  pub start_mark : Mark
  pub end_mark : Mark
  pub encoding : Encoding
  pub version_directive : Option VersionDirective
  pub tag_directives : List TagDirective
  pub head_comment : Bytes
  pub line_comment : Bytes
  pub foot_comment : Bytes
  pub tail_comment : Bytes
  pub anchor : Bytes
  pub tag : Bytes
  pub value : Bytes
  pub implicit : Bool
  pub quoted_implicit : Bool
  pub style : ℕ

-- `yaml_event_t{typ: t, start_mark: s, end_mark: e}`: the other fields are zero.
abbrev pub event : EventType → Mark → Mark → Event
event t s e = record {
  typ = t;
  start_mark = s;
  end_mark = e;
  encoding = any_encoding;
  version_directive = none;
  tag_directives = [];
  head_comment = [];
  line_comment = [];
  foot_comment = [];
  tail_comment = [];
  anchor = [];
  tag = [];
  value = [];
  implicit = false;
  quoted_implicit = false;
  style = 0;
}

-- `yaml_event_t{}`
abbrev pub empty_event : Event
empty_event = event no_event no_mark no_mark

-- `yaml_parser_state_t`
pub data ParserState : Type 0 where
  stream_start_state implicit_document_start_state document_start_state : ParserState
  document_content_state document_end_state : ParserState
  block_node_state block_node_or_indentless_sequence_state flow_node_state : ParserState
  block_sequence_first_entry_state block_sequence_entry_state : ParserState
  indentless_sequence_entry_state : ParserState
  block_mapping_first_key_state block_mapping_key_state block_mapping_value_state : ParserState
  flow_sequence_first_entry_state flow_sequence_entry_state : ParserState
  flow_sequence_entry_mapping_key_state : ParserState
  flow_sequence_entry_mapping_value_state : ParserState
  flow_sequence_entry_mapping_end_state : ParserState
  flow_mapping_first_key_state flow_mapping_key_state : ParserState
  flow_mapping_value_state flow_mapping_empty_value_state : ParserState
  end_state : ParserState
