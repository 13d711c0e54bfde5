-- ===== src/Lexer/Quoted.antt =====
-- Quoted scalars: `yaml_parser_scan_flow_scalar`.
use yaml.Lexer.Cursor.{
  ◌>>=◌, ◌>>◌, Lex, return, Turn, refuse, skip, cache, here, again, lexed, loop, stop, proceed,
  skip_line, read,
}
use yaml.Base.{
  Bytes, List, ℕ, Bool, if◌then◌else◌, Option, String, ◌∷◌, ◌++◌, [], some, ◌==◌, suc, not, zero,
  none, false, ◌&&◌, leb, ◌+◌, ◌||◌, ltb, ◌*◌, ◌^◌, true,
}
use yaml.Types.{Mark, Token, TokenType, single_quoted_scalar_style, double_quoted_scalar_style}
use yaml.Lexer.Folding.{Folding, folded, is_document_indicator, no_folding, eat_gaps}
use yaml.Chars.{at, is_blankz, is_hex, is_z, is_break, as_hex}
use yaml.Lexer.Names.{valued}
use yaml.Reader.Decode.{encode_utf8}

-- What is behind a backslash: the character that it stands for, or the length of its code.
pub data Escape : Type 0 where
  octets : Bytes → Escape
  code : ℕ → Escape
  unknown : Escape

abbrev pub escapes : List (ℕ × Bytes)
escapes =
    (b'0', 0 ∷ [])
    ∷ (b'a', 0x07 ∷ [])
    ∷ (b'b', 0x08 ∷ [])
    ∷ (b't', 0x09 ∷ [])
    ∷ (b'\t', 0x09 ∷ [])
    ∷ (b'n', 0x0A ∷ [])
    ∷ (b'v', 0x0B ∷ [])
    ∷ (b'f', 0x0C ∷ [])
    ∷ (b'r', 0x0D ∷ [])
    ∷ (b'e', 0x1B ∷ [])
    ∷ (b' ', 0x20 ∷ [])
    ∷ (b'"', b'"' ∷ [])
    ∷ (39, 39 ∷ [])
    ∷ (92, 92 ∷ [])
    ∷ (b'N', 0xC2 ∷ 0x85 ∷ [])
    ∷ (b'_', 0xC2 ∷ 0xA0 ∷ [])
    ∷ (b'L', 0xE2 ∷ 0x80 ∷ 0xA8 ∷ [])
    ∷ (b'P', 0xE2 ∷ 0x80 ∷ 0xA9 ∷ [])
    ∷ []

abbrev pub code_of : ℕ → Escape
code_of x =
    if x == b'x'
    then code 2
    else if x == b'u'
    then code 4
    else if x == b'U'
    then code 8
    else unknown

abbrev pub escape_in : List (ℕ × Bytes) → ℕ → Escape
escape_in [] x = code_of x
escape_in ((y, bs) ∷ es) x = if x == y then octets bs else escape_in es x

-- The switch on the escape character.
unfoldable pub escape_of : ℕ → Escape
escape_of = escape_in escapes

-- The value of so many digits from here on, if they are digits.
unfoldable pub hex_value : ℕ → ℕ → Bytes → ℕ → Option ℕ
hex_value zero k b v = some v
hex_value (suc n) k b v =
    if not (is_hex b k) then none else hex_value n (k + 1) b (v * 2 ^ 4 + as_hex b k)

-- `for k := 0; k < n; k++ { skip(parser) }`
abbrev pub skips : ℕ → Lex (Unit {0})
skips zero = return tt
skips (suc n) = skip >> skips n

abbrev pub quoted_error {ℓ} : {A : Type ℓ} → Mark → String → Lex A
quoted_error = refuse "while parsing a quoted scalar"

abbrev pub with_text : Folding → Bytes → Folding
with_text f bs = record f { text = f.text ++ bs }

-- An arbitrary escape code of this length.
unfoldable pub escape_code : Mark → ℕ → Folding → Lex Folding
escape_code start n f c = elim (hex_value n 0 c.buffer 0) [
  | none ↦ quoted_error start "did not find expected hexdecimal number" c
  | some v ↦
      if (leb 0xD800 v && leb v 0xDFFF) || ltb 0x10FFFF v
      then quoted_error start "found invalid Unicode character escape code" c
      else proceed (skips n c) (λ u. return (with_text f (encode_utf8 v)))
]

-- An escape sequence.
unfoldable pub escape : Mark → Folding → Lex Folding
escape start f c = elim (escape_of (at c.buffer 1)) [
  | octets bs ↦ (skip >> skip >> return (with_text f bs)) c
  | code n ↦ (skip >> skip >> cache n >> escape_code start n f) c
  | unknown ↦ quoted_error start "found unknown escape character" c
]

-- A character of the scalar, which goes on behind it.
abbrev pub further : Lex Folding → Lex (Turn Folding)
further m = m >>= λ f. cache 2 >> return (again f)

-- The quote of the scalar.
abbrev pub quote_of : Bool → ℕ
quote_of single = if single then 39 else b'"'

-- A round of the loop over the characters that are not blank.
unfoldable pub quoted_character : Bool → Mark → Folding → Lex (Turn Folding)
quoted_character single start f c =
    let b = c.buffer in
    if is_blankz b 0
    then lexed (stop f) c
    else if single && at b 0 == 39 && at b 1 == 39
    then further (skip >> skip >> return (with_text f (39 ∷ []))) c
    else if (single && at b 0 == 39) || (not single && at b 0 == b'"')
    then lexed (stop f) c
    else if not single && at b 0 == 92 && is_break b 1
    then (cache 3 >> skip >> skip_line >> return (stop (record f { leading_blanks = true }))) c
    else if not single && at b 0 == 92
    then further (escape start f) c
    else further (read f.text >>= λ s. return (record f { text = s })) c

-- The white spaces are joined, or the line breaks folded.
unfoldable pub join_quoted : Folding → Folding
join_quoted f =
    if f.leading_blanks
    then record f { text = folded f; trailing_breaks = []; leading_break = [] }
    else record f { text = f.text ++ f.whitespaces; whitespaces = [] }

-- A round of the loop over the content.
unfoldable pub quoted_round : Bool → Mark → Folding → Lex (Turn Folding)
quoted_round single start f = do
  cache 4
  c ← here
  if is_document_indicator c
      then refuse "while scanning a quoted scalar" start "found unexpected document indicator"
      else if is_z c.buffer 0
      then refuse "while scanning a quoted scalar" start "found unexpected end of stream"
      else (do
        g ← loop (quoted_character single start) (record f { leading_blanks = false })
        cache 1
        d ← here
        if at d.buffer 0 == quote_of single
            then return (stop g)
            else (do h ← eat_gaps (λ _. return tt) g; return (again (join_quoted h))))

-- `yaml_parser_scan_flow_scalar`
unfoldable pub scan_flow_scalar : Bool → Lex Token
scan_flow_scalar single = do
  start ← here
  skip
  f ← loop (quoted_round single start.mark) no_folding
  skip
  end ← here
  return (record (valued TokenType.scalar start.mark end.mark f.text) {
    style = if single then single_quoted_scalar_style else double_quoted_scalar_style;
  })
