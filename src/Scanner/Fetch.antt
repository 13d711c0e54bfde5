-- ===== src/Scanner/Fetch.antt =====
-- The functions that produce the tokens of the stream, of the document markers, and of the indicators.
use yaml.Base.{
  ℕ, zero, suc, ◌+◌, ◌==◌, Bool, true, false, List, [], ◌∷◌, none, some, if◌then◌else◌, String,
}
use yaml.Scanner.State.{
  skip, scanned, panics, next, Scan, Scanner, SimpleKey, append_token, insert_token, token_at,
  set_scanner_error,
}
use yaml.Types.{
  key, value, TokenType, block_sequence_start, block_mapping_start, stream_end, flow_entry,
  block_entry, stream_start, no_mark,
}
use yaml.Scanner.Levels.{valid, invalid, refused}
use yaml.Scanner.Levels.{
  position, unroll_indent, save_simple_key, remove_simple_key, simple_key_is_valid,
  increase_flow_level, decrease_flow_level, roll_indent, delete,
}

abbrev pub allow_key : Bool → Scan
allow_key b s = scanned (record s { simple_key_allowed = b })

-- So many characters are consumed.
abbrev pub skip_times : ℕ → Scan
skip_times zero s = scanned s
skip_times (suc n) s = next (skip s) (skip_times n)

-- The characters of a token are consumed, and it is appended to the queue.
unfoldable pub produce : ℕ → TokenType → Scan
produce n typ s = next (skip_times n s) (λ t. append_token typ s.mark t.mark t)

-- `yaml_parser_fetch_stream_start`
unfoldable pub fetch_stream_start : Scan
fetch_stream_start s =
    insert_token none (record (token_at stream_start s.mark) { encoding = s.encoding })
      (record s {
        indent = 0;
        simple_keys =
            record { possible = false; required = false; token_number = 0; mark = no_mark }
            ∷ s.simple_keys;
        simple_keys_by_tok = [];
        simple_key_allowed = true;
        stream_start_produced = true;
      })

-- The start of a new line, at the end of the stream.
abbrev pub force_line : Scanner → Scanner
force_line s =
    if s.mark.column == 0
    then s
    else record s { mark = record s.mark { column = 0; line = s.mark.line + 1 } }

-- All indentations and the simple key are reset.
abbrev pub reset_levels : Scan
reset_levels s = next (unroll_indent 0 s.mark s) (λ t. next (remove_simple_key t) (allow_key false))

-- `yaml_parser_fetch_stream_end`
unfoldable pub fetch_stream_end : Scan
fetch_stream_end s =
    next (reset_levels (force_line s)) (λ t. append_token stream_end t.mark t.mark t)

-- `yaml_parser_fetch_document_indicator`
unfoldable pub fetch_document_indicator : TokenType → Scan
fetch_document_indicator typ s = next (reset_levels s) (produce 3 typ)

-- `yaml_parser_fetch_flow_collection_start`
unfoldable pub fetch_flow_collection_start : TokenType → Scan
fetch_flow_collection_start typ s =
    next (save_simple_key s)
      (λ t. next (increase_flow_level t) (λ u. next (allow_key true u) (produce 1 typ)))

-- `yaml_parser_fetch_flow_collection_end`
unfoldable pub fetch_flow_collection_end : TokenType → Scan
fetch_flow_collection_end typ s =
    next (remove_simple_key s)
      (λ t. next (decrease_flow_level t) (λ u. next (allow_key false u) (produce 1 typ)))

-- `yaml_parser_fetch_flow_entry`
unfoldable pub fetch_flow_entry : Scan
fetch_flow_entry s =
    next (remove_simple_key s) (λ t. next (allow_key true t) (produce 1 flow_entry))

-- The start of a block collection at the current column, in the block context only.
abbrev pub open_block : TokenType → String → Scan
open_block typ problem s =
    if s.flow_level == 0
    then if s.simple_key_allowed
      then roll_indent (s.mark.column + 1) none typ s.mark s
      else set_scanner_error "" s.mark problem s
    else scanned s

-- `yaml_parser_fetch_block_entry`
unfoldable pub fetch_block_entry : Scan
fetch_block_entry s =
    next
      (open_block block_sequence_start "block sequence entries are not allowed in this context" s)
      (λ t. next (remove_simple_key t) (λ u. next (allow_key true u) (produce 1 block_entry)))

-- `yaml_parser_fetch_key`
unfoldable pub fetch_key : Scan
fetch_key s =
    next (open_block block_mapping_start "mapping keys are not allowed in this context" s) (λ t.
      next (remove_simple_key t) (λ u. next (allow_key (u.flow_level == 0) u) (produce 1 key)))

-- The key that a value follows, if it is simple: a KEY token goes before it, and the start of a block
-- mapping, and the key is no longer possible.
abbrev pub take_simple_key : SimpleKey → List SimpleKey → Scan
take_simple_key k ks s =
    next (insert_token (position (some k.token_number) s.tokens_parsed) (token_at key k.mark) s)
      (λ t.
        next (roll_indent (k.mark.column + 1) (some k.token_number) block_mapping_start k.mark t)
          (λ u. scanned (record u {
            simple_keys = record k { possible = false } ∷ ks;
            simple_keys_by_tok = delete k.token_number u.simple_keys_by_tok;
            simple_key_allowed = false;
          })))

-- The value of a complex key.
abbrev pub take_complex_key : SimpleKey → List SimpleKey → Scan
take_complex_key k ks s =
    next
      (open_block block_mapping_start "mapping values are not allowed in this context"
        (record s { simple_keys = k ∷ ks }))
      (λ t. allow_key (t.flow_level == 0) t)

abbrev pub value_key : List SimpleKey → Scan
value_key [] s = panics
value_key (k ∷ ks) s = elim (simple_key_is_valid s k) [
  | valid ↦ take_simple_key k ks s
  | invalid k' ↦ take_complex_key k' ks s
  | refused r ↦ r
]

-- `yaml_parser_fetch_value`
unfoldable pub fetch_value : Scan
fetch_value s = next (value_key s.simple_keys s) (produce 1 value)
