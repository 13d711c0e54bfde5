-- ===== src/Lexer/Directives.antt =====
-- Directives: `yaml_parser_scan_directive` to `yaml_parser_scan_tag_directive_value`.
use yaml.Base.{
  ℕ, ◌+◌, ◌*◌, ◌==◌, ltb, Bool, true, not, [], Bytes, if◌then◌else◌, is_empty, codes, equal,
}
use yaml.Lexer.Cursor.{
  ◌>>=◌, ◌>>◌, return, here, Lex, lexed, skip_while, cache, refuse, skip, while, skip_line,
}
use yaml.Chars.{is_blank, at, is_break, is_breakz, as_digit, is_blankz, is_digit}
use yaml.Types.{Mark, Token, TokenType}
use yaml.Scanner.State.{token_at}
use yaml.Lexer.Names.{read_alpha, scan_tag_handle, scan_tag_uri, valued}

abbrev pub is_blank_first : Bytes → Bool
is_blank_first b = is_blank b 0

-- The blanks here are eaten.
abbrev pub eat_blanks : Lex (Unit {0})
eat_blanks = skip_while is_blank_first

-- `yaml_parser_scan_directive_name`
unfoldable pub scan_directive_name : Mark → Lex Bytes
scan_directive_name mark = do
  cache 1
  s ← read_alpha []
  end ← here
  if is_empty s
      then refuse "while scanning a directive" mark "could not find expected directive name"
      else if not (is_blankz end.buffer 0)
      then refuse "while scanning a directive" mark "found unexpected non-alphabetical character"
      else return s

abbrev pub max_number_length : ℕ
max_number_length = 2

-- A digit, with the value and the length so far.
abbrev pub number_digit : Mark → ℕ → ℕ → Lex (ℕ × ℕ)
number_digit mark value length c =
    if ltb max_number_length (length + 1)
    then refuse "while scanning a %YAML directive" mark "found extremely long version number" c
    else (do skip; cache 1; return (value * 10 + as_digit c.buffer 0, length + 1)) c

-- `yaml_parser_scan_version_directive_number`
unfoldable pub scan_version_directive_number : Mark → Lex ℕ
scan_version_directive_number mark = do
  cache 1
  (value, length) ←
      while (λ b. is_digit b 0) (λ (value, length). number_digit mark value length) (0, 0)
  if length == 0
      then refuse "while scanning a %YAML directive" mark "did not find expected version number"
      else return value

-- `yaml_parser_scan_version_directive_value`
unfoldable pub scan_version_directive_value : Mark → Lex (ℕ × ℕ)
scan_version_directive_value mark = do
  cache 1
  eat_blanks
  major ← scan_version_directive_number mark
  dot ← here
  if not (at dot.buffer 0 == b'.')
      then refuse "while scanning a %YAML directive" mark
          "did not find expected digit or '.' character"
      else (do skip; minor ← scan_version_directive_number mark; return (major, minor))

-- `yaml_parser_scan_tag_directive_value`
unfoldable pub scan_tag_directive_value : Mark → Lex (Bytes × Bytes)
scan_tag_directive_value mark = do
  cache 1
  eat_blanks
  handle ← scan_tag_handle true mark
  cache 1
  behind ← here
  if not (is_blank behind.buffer 0)
      then refuse "while scanning a %TAG directive" mark "did not find expected whitespace"
      else (do
        eat_blanks
        prefix ← scan_tag_uri true [] mark
        cache 1
        end ← here
        if not (is_blankz end.buffer 0)
            then refuse "while scanning a %TAG directive" mark
                "did not find expected whitespace or line break"
            else return (handle, prefix))

-- The token of a directive, by its name.
abbrev pub directive_value : Bytes → Mark → Lex Token
directive_value name mark =
    if equal name (codes "YAML")
    then (do
      (major, minor) ← scan_version_directive_value mark
      end ← here
      return (record (token_at TokenType.version_directive mark) {
        end_mark = end.mark;
        major = major;
        minor = minor;
      }))
    else if equal name (codes "TAG")
    then (do
      (handle, prefix) ← scan_tag_directive_value mark
      end ← here
      return (record (valued TokenType.tag_directive mark end.mark handle) { prefix = prefix }))
    else refuse "while scanning a directive" mark "found unknown directive name"

-- The comment behind a directive is skipped.
abbrev pub eat_comment : Lex (Unit {0})
eat_comment c =
    if at c.buffer 0 == b'#' then skip_while (λ b. not (is_breakz b 0)) c else lexed tt c

-- The end of the line is eaten.
abbrev pub eat_line_end : Lex (Unit {0})
eat_line_end c = if is_break c.buffer 0 then (do cache 2; skip_line) c else lexed tt c

-- `yaml_parser_scan_directive`
unfoldable pub scan_directive : Lex Token
scan_directive = do
  start ← here
  skip
  name ← scan_directive_name start.mark
  token ← directive_value name start.mark
  cache 1
  eat_blanks
  eat_comment
  end ← here
  if not (is_breakz end.buffer 0)
      then refuse "while scanning a directive" start.mark
          "did not find expected comment or line break"
      else (do eat_line_end; return token)
