-- ===== src/Scanner/Tests.antt =====
-- Scanners in the middle of their work, and the witnesses of what is shown of the levels.
use yaml.Base.{true, false, List, [], ◌∷◌, some, codes, refl, arith, ◌≡◌, map}
use yaml.Types.{no_error, no_mark, utf8_encoding, block_mapping_start, scalar, TokenType}
use yaml.Scanner.State.{Scanner, scanned, token_at, Scanned, insert_token}
use yaml.Scanner.Indents.{levels, Closes, unroll_indent-Closes, unroll_indent-roll_indent}
use yaml.Scanner.Producing.{fetch-Holds, fetch_stream_start-Holds, a_value, fetch}
use yaml.Scanner.Fetch.{fetch_value, fetch_stream_start, produce}
use yaml.Scanner.Levels.{unroll_indent, roll_indent, simple_key_is_valid}
use yaml.Scanner.Fetching.{Holds}
use yaml.Scanner.State.{skip}
use yaml.Chars.{width}
use yaml.Scanner.Scanning.{Scans, fetch_content, a_flow_scalar, fetch_content-Scans}

-- Before a colon at column 4 of a line, behind a text that started at column 2 and may be a key, in a
-- block of indentation 0.
abbrev before_value : Scanner
before_value = record {
  error = no_error;
  problem = "";
  problem_mark = no_mark;
  context = "";
  context_mark = no_mark;
  mark = record { index = 24; line = 3; column = 4 };
  tokens = token_at scalar (record { index = 22; line = 3; column = 2 }) ∷ [];
  tokens_parsed = 6;
  indent = 1;
  indents = 0 ∷ [];
  flow_level = 0;
  simple_key_allowed = false;
  simple_keys =
      record {
        possible = true;
        required = false;
        token_number = 6;
        mark = record { index = 22; line = 3; column = 2 };
      }
      ∷ [];
  simple_keys_by_tok = (6, 0) ∷ [];
  comments = [];
  buffer = codes ": x";
  unread = 3;
  newlines = 0;
  encoding = utf8_encoding;
  at_end = true;
  stream_start_produced = true;
}

-- One level deeper.
abbrev in_mapping : Scanner
in_mapping = record before_value { indent = 3; indents = 1 ∷ 0 ∷ [] }

abbrev types : Scanned → List TokenType
types (scanned t) = map (λ u. u.typ) t.tokens
types _ = []

-- A block mapping starts before the key, and the value indicator follows it.
value_types :
    types (fetch a_value before_value)
    ≡ block_mapping_start ∷ TokenType.key ∷ scalar ∷ TokenType.value ∷ []
unfolding fetch_value simple_key_is_valid insert_token roll_indent produce skip
value_types = refl

unroll_indent-Closes_example :
    (t : Scanner) × (unroll_indent 1 no_mark in_mapping ≡ scanned t) × Closes 1 in_mapping t
unroll_indent-Closes_example =
    unroll_indent-Closes 1 no_mark in_mapping refl (omega arith, (omega arith, refl))

abbrev rolled_to : Scanner
rolled_to = record before_value {
  indent = 3;
  indents = 1 ∷ 0 ∷ [];
  tokens =
      token_at block_mapping_start no_mark
      ∷ token_at scalar (record { index = 22; line = 3; column = 2 })
      ∷ [];
}

unroll_indent-roll_indent_example :
    (u : Scanner) × (unroll_indent 1 no_mark rolled_to ≡ scanned u)
    × (levels u ≡ levels before_value)
unfolding roll_indent insert_token
unroll_indent-roll_indent_example =
    unroll_indent-roll_indent 3 (some 6) block_mapping_start no_mark no_mark before_value rolled_to
      refl (omega arith) (omega arith, refl) refl

fetch-Holds_example : Holds (fetch a_value before_value)
fetch-Holds_example =
    fetch-Holds a_value before_value
      ((omega arith, refl), omega arith, omega arith, refl, (omega arith, tt)) tt

-- A scanner that has not started.
abbrev new_scanner : Scanner
new_scanner = record before_value {
  tokens = [];
  tokens_parsed = 0;
  indent = 0;
  indents = [];
  simple_keys = [];
  simple_keys_by_tok = [];
  stream_start_produced = false;
}

fetch_stream_start-Holds_example : Holds (fetch_stream_start new_scanner)
fetch_stream_start-Holds_example = fetch_stream_start-Holds new_scanner refl refl refl

-- A quoted scalar that may be a simple key.
abbrev before_quoted : Scanner
before_quoted = record before_value {
  simple_key_allowed = true;
  buffer = codes "\"a\"";
  unread = 3;
}

fetch_content-Scans_example : Scans 3 (fetch_content (a_flow_scalar false) before_quoted)
unfolding width
fetch_content-Scans_example =
    fetch_content-Scans (a_flow_scalar false) before_quoted
      ((omega arith, refl), omega arith, omega arith, refl, (omega arith, tt))
      (omega arith, (omega arith, (omega arith, refl))) refl
