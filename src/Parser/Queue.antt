-- ===== src/Parser/Queue.antt =====
-- The token queue of parserc.go: `peek_token`, `skip_token` and the stem comment.
use yaml.Base.{
  ℕ, ◌+◌, Bool, true, false, not, ◌||◌, List, [], ◌∷◌, ◌++◌, Bytes, length, take, drop, ◌==◌,
  if◌then◌else◌,
}
use yaml.Types.{Token, ◌is◌, stream_end, block_sequence_start, block_mapping_start}
use yaml.Parser.State.{Fetched, Parser, ok, fail, panic, Action}
use yaml.Parser.Comments.{unfold_comments}

-- `parser.token_available || yaml_parser_fetch_more_tokens(parser)`
abbrev pub receive : Fetched → Parser → Parser
receive f p = record p {
  token_available = true;
  comments = if p.token_available then p.comments else p.comments ++ f.comments;
}

abbrev peek_at : List Fetched → Action Token
peek_at [] p = fail (record p { error = p.fetch_error })
peek_at (f ∷ _) p = ok f.token (unfold_comments f.token (receive f p))

-- `peek_token`; a nil result is a failure of the scanner, which each caller passes on
abbrev pub peek : Action Token
peek p = peek_at p.tokens p

-- `skip_token`
abbrev pub skip : Action (Unit {0})
skip p = elim p.tokens [
  | [] ↦ panic
  | f ∷ r ↦ ok tt (record p {
    tokens = r;
    token_available = false;
    tokens_parsed = p.tokens_parsed + 1;
    stream_end_produced = f.token.typ is stream_end;
  })
]

-- The head comment of `parser.head_comment[:stem_len]`, if a block collection follows.
unfoldable pub stem_of : Bool → ℕ → Parser → Bytes
stem_of opens stem_len p = if opens then take stem_len p.head_comment else p.stem_comment

-- What stays in `head_comment`.
unfoldable pub head_after_stem : Bool → ℕ → Parser → Bytes
head_after_stem opens stem_len p =
    if not opens
    then p.head_comment
    else if length p.head_comment == stem_len
    then []
    else drop (stem_len + 1) p.head_comment

abbrev pub split_at : ℕ → Token → Parser → Parser
split_at stem_len t p =
    let opens = t.typ is block_sequence_start || t.typ is block_mapping_start in
    record p {
      stem_comment = stem_of opens stem_len p;
      head_comment = head_after_stem opens stem_len p;
    }

-- `yaml_parser_split_stem_comment` behind its first test: a nil token is ignored here, and met again
-- by the caller.
abbrev pub split_stem : Bool → ℕ → Action (Unit {0})
split_stem true stem_len p = ok tt p
split_stem false stem_len p = elim (peek p) [
  | ok t q ↦ ok tt (split_at stem_len t q)
  | fail q ↦ ok tt q
  | panic ↦ panic
]

-- `yaml_parser_split_stem_comment`
abbrev pub split_stem_comment : ℕ → Action (Unit {0})
split_stem_comment stem_len = split_stem (stem_len == 0) stem_len
