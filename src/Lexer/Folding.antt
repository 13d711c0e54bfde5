-- ===== src/Lexer/Folding.antt =====
-- The white space inside a flow scalar: the parts that `yaml_parser_scan_flow_scalar` and
-- `yaml_parser_scan_plain_scalar` share.
use yaml.Lexer.Cursor.{
  ◌>>=◌, ◌>>◌, Cursor, Lex, while, cache, proceed, return, read, read_line, skip,
}
use yaml.Base.{
  Bytes, [], Bool, false, if◌then◌else◌, not, ltb, ◌==◌, length, ◌&&◌, ◌||◌, true, is_empty, ◌++◌,
  ◌∷◌,
}
use yaml.Chars.{is_blank, at, is_break, is_blankz}

-- The text with the white space that is read behind it, not yet joined to it.
pub record Folding : Type 0 where
  pub text : Bytes
  pub leading_break : Bytes
  pub trailing_breaks : Bytes
  pub whitespaces : Bytes
  pub leading_blanks : Bool

abbrev pub no_folding : Folding
no_folding = record {
  text = [];
  leading_break = [];
  trailing_breaks = [];
  whitespaces = [];
  leading_blanks = false;
}

-- The check for a document indicator at the beginning of a line.
unfoldable pub is_document_indicator : Cursor → Bool
is_document_indicator c =
    let b = c.buffer in
    c.mark.column == 0
    && ((at b 0 == b'-' && at b 1 == b'-' && at b 2 == b'-')
        || (at b 0 == b'.' && at b 1 == b'.' && at b 2 == b'.'))
    && is_blankz b 3

abbrev pub is_gap : Bytes → Bool
is_gap b = is_blank b 0 || is_break b 0

-- A space or a tab character.
abbrev pub eat_blank : Folding → Lex Folding
eat_blank f c =
    if not f.leading_blanks
    then proceed (read f.whitespaces c) (λ w. return (record f { whitespaces = w }))
    else proceed (skip c) (λ u. return f)

-- A line break, the first or one behind it.
abbrev pub eat_break : Folding → Lex Folding
eat_break f c =
    if not f.leading_blanks
    then proceed (read_line f.leading_break c)
        (λ b. return (record f { whitespaces = []; leading_break = b; leading_blanks = true }))
    else proceed (read_line f.trailing_breaks c) (λ b. return (record f { trailing_breaks = b }))

-- `check` is done before a blank.
abbrev pub eat_gap : (Folding → Lex (Unit {0})) → Folding → Lex Folding
eat_gap check f c =
    if is_blank c.buffer 0 then (check f >> eat_blank f) c else (cache 2 >> eat_break f) c

-- The blank characters and the breaks here.
unfoldable pub eat_gaps : (Folding → Lex (Unit {0})) → Folding → Lex Folding
eat_gaps check = while is_gap (λ f. eat_gap check f >>= λ g. cache 1 >> return g)

-- The text with its line breaks folded.
unfoldable pub folded : Folding → Bytes
folded f =
    if ltb 0 (length f.leading_break) && at f.leading_break 0 == b'\n'
    then if is_empty f.trailing_breaks then f.text ++ b' ' ∷ [] else f.text ++ f.trailing_breaks
    else (f.text ++ f.leading_break) ++ f.trailing_breaks
