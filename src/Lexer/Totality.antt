-- ===== src/Lexer/Totality.antt =====
-- The scans that make the content of a token, together.
use yaml.Lexer.Cursor.{◌>>=◌, Lex, Cursor, return}
use yaml.Types.{TokenType, Token}
use yaml.Base.{Bytes, Bool, ◌≡◌, ℕ, true, ◌==◌, arith, ◌≤◌}
use yaml.Lexer.Outcome.{IsWhole, has_first, Goes}
use yaml.Lexer.Names.{scan_anchor, scan_tag}
use yaml.Chars.{at}
use yaml.Lexer.Directives.{scan_directive}
use yaml.Lexer.Quoted.{quote_of, scan_flow_scalar}
use yaml.Lexer.NamesEnd.{scan_anchor-IsSafe, scan_tag-IsSafe}
use yaml.Lexer.Plain.{scan_plain_scalar}
use yaml.Lexer.DirectivesEnd.{scan_directive-IsSafe}
use yaml.Lexer.QuotedEnds.{scan_flow_scalar-IsSafe}
use yaml.Lexer.Safe.{proceed-IsSafe}
use yaml.Lexer.PlainEnds.{scan_plain_scalar-IsSafe}

-- What a token may be scanned for.
pub data Content : Type 0 where
  name : TokenType → Content
  tag_name : Content
  directive : Content
  quoted : Bool → Content
  plain : ℕ → ℕ → Content

abbrev pub scan : Content → Lex Token
scan (name typ) = scan_anchor typ
scan tag_name = scan_tag
scan directive = scan_directive
scan (quoted single) = scan_flow_scalar single
scan (plain flow_level indent) =
    scan_plain_scalar flow_level indent >>= λ (token, allowed). return token

-- The character that it begins with; a plain scalar has none of its own.
abbrev pub opens : Content → Bytes → Bool
opens (name TokenType.anchor) b = at b 0 == b'&'
opens (name typ) b = at b 0 == b'*'
opens tag_name b = at b 0 == b'!'
opens directive b = at b 0 == b'%'
opens (quoted single) b = at b 0 == quote_of single
opens (plain flow_level indent) b = true

name-first : (typ : TokenType) (b : Bytes) → opens (name typ) b ≡ true → has_first b ≡ true
name-first TokenType.anchor b h = ground (arith, h)
name-first _ b h = ground (arith, h)

-- On whole characters, which begin as the content does, a scan of an anchor, an alias, a tag, a
-- directive, a quoted or a plain scalar ends: it returns a token and leaves whole characters, not more
-- than before, or it fails with an error of the scanner or of the reader. It does not panic.
pub scan-IsSafe :
    (x : Content) (c : Cursor)
    → IsWhole c
    → opens x c.buffer ≡ true
    → Goes (λ t d. IsWhole d × (d.unread ≤ c.unread)) (scan x c)
scan-IsSafe (name typ) c w o =
    scan_anchor-IsSafe typ c.unread c (w, omega arith) (name-first typ c.buffer o)
scan-IsSafe tag_name c w o = scan_tag-IsSafe c.unread c (w, omega arith) (ground (arith, o))
scan-IsSafe directive c w o = scan_directive-IsSafe c.unread c (w, omega arith) (ground (arith, o))
scan-IsSafe (quoted single) c w o =
    scan_flow_scalar-IsSafe single c.unread c (w, omega arith) (ground (arith, o))
scan-IsSafe (plain flow_level indent) c w o =
    proceed-IsSafe c.unread c.unread (scan_plain_scalar flow_level indent c) _
      (scan_plain_scalar-IsSafe flow_level indent c.unread c (w, omega arith)) (λ x d g. g)
