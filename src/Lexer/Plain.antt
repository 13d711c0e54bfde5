-- ===== src/Lexer/Plain.antt =====
-- Plain scalars: `yaml_parser_scan_plain_scalar`.
use yaml.Lexer.Cursor.{
  ◌>>=◌, ◌>>◌, Lex, Turn, here, cache, lexed, loop, stop, return, read, refuse, broken, again,
}
use yaml.Base.{
  ℕ, Bytes, Bool, if◌then◌else◌, ◌||◌, ◌&&◌, ltb, not, ◌==◌, length, is_empty, [], false, ◌++◌,
}
use yaml.Lexer.Folding.{Folding, is_document_indicator, is_gap, no_folding, eat_gaps, folded}
use yaml.Types.{Mark, Token, TokenType, plain_scalar_style}
use yaml.Chars.{at, is_blankz, is_tab}
use yaml.Lexer.Names.{valued}

-- The indicators that may end a plain scalar.
unfoldable pub ends_plain : ℕ → Bytes → Bool
ends_plain flow_level b =
    (at b 0 == b':' && is_blankz b 1)
    || (ltb 0 flow_level
        && (at b 0 == b','
            || at b 0 == b'?'
            || at b 0 == b'['
            || at b 0 == b']'
            || at b 0 == b'{'
            || at b 0 == b'}'))

-- The white spaces and breaks before a character are joined to the text; `leading_break[0]` panics on
-- an empty slice.
unfoldable pub join_plain : Folding → Lex Folding
join_plain f c =
    if f.leading_blanks || ltb 0 (length f.whitespaces)
    then if f.leading_blanks
      then if is_empty f.leading_break
        then broken
        else lexed
            (record f {
              text = folded f;
              trailing_breaks = [];
              leading_break = [];
              leading_blanks = false;
            })
            c
      else lexed (record f { text = f.text ++ f.whitespaces; whitespaces = [] }) c
    else lexed f c

-- A round of the loop over the characters that are not blank, with `end_mark`.
unfoldable pub plain_character : ℕ → Folding × Mark → Lex (Turn (Folding × Mark))
plain_character flow_level (f, end) c =
    if is_blankz c.buffer 0 || ends_plain flow_level c.buffer
    then lexed (stop (f, end)) c
    else (do
      g ← join_plain f
      s ← read g.text
      d ← here
      cache 2
      return (again (record g { text = s }, d.mark)))
        c

-- The check for tab characters that abuse indentation.
unfoldable pub check_tab : ℕ → Mark → Folding → Lex (Unit {0})
check_tab indent start f c =
    if f.leading_blanks && ltb c.mark.column indent && is_tab c.buffer 0
    then refuse "while scanning a plain scalar" start
        "found a tab character that violates indentation" c
    else lexed tt c

-- The blank characters behind the others, if it is not the end.
unfoldable pub plain_gaps : ℕ → ℕ → Mark → Folding × Mark → Lex (Turn (Folding × Mark))
plain_gaps flow_level indent start (f, end) = do
  c ← here
  if not (is_gap c.buffer) then return (stop (f, end)) else (do
    cache 1
    g ← eat_gaps (check_tab indent start) f
    d ← here
    return (if flow_level == 0 && ltb d.mark.column indent then stop (g, end) else again (g, end)))

-- A round of the loop over the content.
unfoldable pub plain_round : ℕ → ℕ → Mark → Folding × Mark → Lex (Turn (Folding × Mark))
plain_round flow_level indent start f = do
  cache 4
  c ← here
  if is_document_indicator c || at c.buffer 0 == b'#'
      then return (stop f)
      else (loop (plain_character flow_level) f >>= plain_gaps flow_level indent start)

-- `yaml_parser_scan_plain_scalar`, given `flow_level` and `indent + 1` of the parser; the flag tells
-- whether a simple key is allowed from now on.
unfoldable pub scan_plain_scalar : ℕ → ℕ → Lex (Token × Bool)
scan_plain_scalar flow_level indent = do
  start ← here
  (f, end) ← loop (plain_round flow_level indent start.mark) (no_folding, start.mark)
  return (
    record (valued TokenType.scalar start.mark end f.text) { style = plain_scalar_style },
    f.leading_blanks,
  )
