-- ===== src/Scanner/Content.antt =====
-- The functions that produce the tokens of directives, anchors, aliases, tags and flow scalars.
use yaml.Scanner.State.{Scanner, Scan, next, insert_token, set_scanner_error}
use yaml.Lexer.Cursor.{Cursor, Lexed, Lex, lexed, refused, unreadable, broken, endless}
use yaml.Types.{TokenType, Token, reader_error}
use yaml.Base.{Bool, none, false, ◌||◌}
use yaml.Lexer.Names.{scan_anchor, scan_tag}
use yaml.Lexer.Quoted.{scan_flow_scalar}
use yaml.Lexer.Plain.{scan_plain_scalar}
use yaml.Scanner.Levels.{save_simple_key}
use yaml.Scanner.Fetch.{reset_levels, allow_key}
use yaml.Lexer.Directives.{scan_directive}
use yaml.Scanner.State.{failed, panics}

-- The position of the scanner in its buffer.
abbrev pub cursor_of : Scanner → Cursor
cursor_of s = record {
  mark = s.mark;
  buffer = s.buffer;
  unread = s.unread;
  newlines = s.newlines;
  at_end = s.at_end;
}

abbrev pub moved : Cursor → Scanner → Scanner
moved d s = record s {
  mark = d.mark;
  buffer = d.buffer;
  unread = d.unread;
  newlines = d.newlines;
  at_end = d.at_end;
}

-- A scan of the buffer, and what is done with its result.
abbrev pub scanning {ℓ} : {A : Type ℓ} → Lexed A → (A → Scan) → Scan
scanning (lexed a d) k s = k a (moved d s)
scanning (refused context mark problem d) k s = set_scanner_error context mark problem (moved d s)
scanning (unreadable d) k s = failed (record (moved d s) { error = reader_error })
scanning broken k s = panics
scanning endless k s = panics

abbrev pub append_scanned : Lex Token → Scan
append_scanned m s = scanning (m (cursor_of s)) (insert_token none) s

-- The token may be a simple key, and none can follow it.
abbrev pub key_before : Scan → Scan
key_before k s = next (save_simple_key s) (λ t. next (allow_key false t) k)

-- `yaml_parser_fetch_directive`
unfoldable pub fetch_directive : Scan
fetch_directive s = next (reset_levels s) (append_scanned scan_directive)

-- `yaml_parser_fetch_anchor`
unfoldable pub fetch_anchor : TokenType → Scan
fetch_anchor typ = key_before (append_scanned (scan_anchor typ))

-- `yaml_parser_fetch_tag`
unfoldable pub fetch_tag : Scan
fetch_tag = key_before (append_scanned scan_tag)

-- `yaml_parser_fetch_flow_scalar`
unfoldable pub fetch_flow_scalar : Bool → Scan
fetch_flow_scalar single = key_before (append_scanned (scan_flow_scalar single))

-- The token of a plain scalar; the flag allows a simple key behind it.
abbrev pub append_plain : Scan
append_plain s =
    scanning (scan_plain_scalar s.flow_level s.indent (cursor_of s))
      (λ (token, allowed) t.
        insert_token none token (record t { simple_key_allowed = allowed || t.simple_key_allowed }))
      s

-- `yaml_parser_fetch_plain_scalar`
unfoldable pub fetch_plain_scalar : Scan
fetch_plain_scalar = key_before append_plain
