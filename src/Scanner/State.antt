-- ===== src/Scanner/State.antt =====
-- `yaml_parser_t` (yamlh.go), the part that the scanner keeps of levels, and the token queue of apic.go.
use yaml.Base.{
  ℕ, Bool, List, [], ◌∷◌, ◌++◌, String, Option, none, some, if◌then◌else◌, leb, length, take, drop,
  Bytes, ◌+◌, ◌-◌,
}
use yaml.Types.{Mark, ErrorType, TokenType, Token, scanner_error, any_encoding, Encoding}
use yaml.Chars.{is_blank, width}

-- `yaml_simple_key_t`
pub record SimpleKey : Type 0 where
  pub possible : Bool
  pub required : Bool
  pub token_number : ℕ
  pub mark : Mark

-- `yaml_comment_t`, the marks that the indentation looks at.
pub record FoundComment : Type 0 where
  pub scan_mark : Mark
  pub start_mark : Mark
  pub end_mark : Mark

-- The fields of levels, and the working buffer from `buffer_pos` on. An indentation is one more than in the source, where the first is
-- -1, and so is a column that is compared with it; `tokens`
-- is the queue from its head on; the stacks, and the comments, have their last entry first.
pub record Scanner : Type 0 where
  pub error : ErrorType
  pub problem : String
  pub problem_mark : Mark
  pub context : String
  pub context_mark : Mark
  pub mark : Mark
  pub tokens : List Token
  pub tokens_parsed : ℕ
  pub indent : ℕ
  pub indents : List ℕ
  pub flow_level : ℕ
  pub simple_key_allowed : Bool
  pub simple_keys : List SimpleKey
  pub simple_keys_by_tok : List (ℕ × ℕ)
  pub comments : List FoundComment
  pub buffer : Bytes
  pub unread : ℕ
  pub newlines : ℕ
  pub at_end : Bool
  pub encoding : Encoding
  pub stream_start_produced : Bool

-- A function returns true, returns false with `error` set, or panics.
pub data Scanned : Type 0 where
  scanned : Scanner → Scanned
  failed : Scanner → Scanned
  panics : Scanned

abbrev pub Scan : Type 0
Scan = Scanner → Scanned

abbrev pub next : Scanned → Scan → Scanned
next (scanned s) k = k s
next (failed s) k = failed s
next panics k = panics

-- `yaml_parser_set_scanner_error`
abbrev pub set_scanner_error : String → Mark → String → Scan
set_scanner_error context context_mark problem s = failed (record s {
  error = scanner_error;
  context = context;
  context_mark = context_mark;
  problem = problem;
  problem_mark = s.mark;
})

-- The zero value of a token, with a type and one mark.
abbrev pub token_at : TokenType → Mark → Token
token_at t m = record {
  typ = t;
  start_mark = m;
  end_mark = m;
  encoding = any_encoding;
  value = [];
  suffix = [];
  prefix = [];
  style = 0;
  major = 0;
  minor = 0;
}

-- `yaml_insert_token`; the position is `none` if it is negative.
unfoldable pub insert_token : Option ℕ → Token → Scan
insert_token none t s = scanned (record s { tokens = s.tokens ++ t ∷ [] })
insert_token (some pos) t s =
    if leb pos (length s.tokens)
    then scanned (record s { tokens = take pos s.tokens ++ t ∷ drop pos s.tokens })
    else panics

-- A token with two marks, at the end of the queue.
abbrev pub append_token : TokenType → Mark → Mark → Scan
append_token t start end = insert_token none (record (token_at t start) { end_mark = end })

-- `skip` with the buffer as an argument.
abbrev pub skip_from : Bytes → Scan
skip_from [] s = panics
skip_from (b ∷ bs) s = scanned (record s {
  newlines = if is_blank (b ∷ bs) 0 then s.newlines else 0;
  mark = record s.mark { index = s.mark.index + 1; column = s.mark.column + 1 };
  unread = s.unread - 1;
  buffer = drop (width b) (b ∷ bs);
})

-- `skip`; its callers have made sure of a character, so that `unread` is not 0.
unfoldable pub skip : Scan
skip s = skip_from s.buffer s
