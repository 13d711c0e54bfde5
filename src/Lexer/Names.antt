-- ===== src/Lexer/Names.antt =====
-- Anchors, aliases and tags: `yaml_parser_scan_anchor` to `yaml_parser_scan_uri_escapes`.
use Prim.Native.Nat.{bit_and}
use yaml.Base.{
  ℕ, ◌+◌, ◌-◌, ◌*◌, ◌%◌, ◌^◌, ◌==◌, ltb, Bool, true, false, not, ◌&&◌, ◌||◌, [], ◌∷◌, ◌++◌, String,
  Bytes, Option, none, some, if◌then◌else◌, drop, length, is_empty, codes, equal,
}
use yaml.Lexer.Cursor.{
  ◌>>=◌, ◌>>◌, return, here, Lex, lexed, read_while, skip, refuse, read, cache, Turn, loop, while,
  stop, again,
}
use yaml.Types.{TokenType, Mark, Token}
use yaml.Chars.{is_blankz, is_alpha, width, at, as_hex, is_hex}
use yaml.Scanner.State.{token_at}

-- The token with its two marks and a value.
abbrev pub valued : TokenType → Mark → Mark → Bytes → Token
valued t start end value = record (token_at t start) { end_mark = end; value = value }

abbrev pub has_octet : Bytes → ℕ → Bool
has_octet [] c = false
has_octet (x ∷ xs) c = x == c || has_octet xs c

-- What may follow an anchor.
abbrev pub ends_anchor : Bytes → Bool
ends_anchor b = is_blankz b 0 || has_octet (codes "?:,]}%@`") (at b 0)

abbrev pub is_alpha_first : Bytes → Bool
is_alpha_first b = is_alpha b 0

-- The letters, digits, underscores and dashes here, with those before.
abbrev pub read_alpha : Bytes → Lex Bytes
read_alpha = read_while is_alpha_first

abbrev pub anchor_context : TokenType → String
anchor_context TokenType.anchor = "while scanning an anchor"
anchor_context _ = "while scanning an alias"

-- `yaml_parser_scan_anchor`
unfoldable pub scan_anchor : TokenType → Lex Token
scan_anchor typ = do
  start ← here
  skip
  cache 1
  s ← read_alpha []
  end ← here
  if is_empty s || not (ends_anchor end.buffer)
      then refuse (anchor_context typ) start.mark
          "did not find expected alphabetic or numeric character"
      else return (valued typ start.mark end.mark s)

-- `yaml_parser_set_scanner_tag_error`
abbrev pub refuse_tag {ℓ} : {A : Type ℓ} → Bool → Mark → String → Lex A
refuse_tag directive =
    refuse (if directive then "while parsing a %TAG directive" else "while parsing a tag")

-- The end of a handle: its exclamation mark.
abbrev pub end_handle : Bool → Mark → Bytes → Lex Bytes
end_handle directive mark s c =
    if at c.buffer 0 == b'!'
    then read s c
    else if directive && not (equal s (codes "!"))
    then refuse_tag directive mark "did not find expected '!'" c
    else lexed s c

-- `yaml_parser_scan_tag_handle`
unfoldable pub scan_tag_handle : Bool → Mark → Lex Bytes
scan_tag_handle directive mark = do
  cache 1
  first ← here
  if not (at first.buffer 0 == b'!')
      then refuse_tag directive mark "did not find expected '!'"
      else (do s ← read []; cache 1; t ← read_alpha s; end_handle directive mark t)

-- The octets that are left to decode, which is not known before the first.
abbrev pub left_behind : Option ℕ → ℕ → ℕ
left_behind none octet = width octet - 1
left_behind (some w) octet = w - 1

abbrev pub octet_error : Option ℕ → ℕ → Option String
octet_error none octet =
    if width octet == 0 then some "found an incorrect leading UTF-8 octet" else none
octet_error (some w) octet =
    if not (bit_and octet 0xC0 == 0x80)
    then some "found an incorrect trailing UTF-8 octet"
    else none

-- One escaped octet.
abbrev pub escaped_octet : Bool → Mark → Option ℕ → Bytes → Lex (Turn (Option ℕ × Bytes))
escaped_octet directive mark w s c =
    let b = c.buffer in
    let octet : ℕ = (as_hex b 1 * 16 + as_hex b 2) % 2 ^ 8 in
    if not (at b 0 == b'%' && is_hex b 1 && is_hex b 2)
    then refuse_tag directive mark "did not find URI escaped octet" c
    else elim (octet_error w octet) [
      | some problem ↦ refuse_tag directive mark problem c
      | none ↦
          (do
            skip
            skip
            skip
            return (
                if left_behind w octet == 0
                then stop (some 0, s ++ octet ∷ [])
                else again (some (left_behind w octet), s ++ octet ∷ [])))
            c
    ]

-- `yaml_parser_scan_uri_escapes`
unfoldable pub scan_uri_escapes : Bool → Mark → Bytes → Lex Bytes
scan_uri_escapes directive mark s = do
  (w, t) ← loop (λ (w, t). cache 3 >> escaped_octet directive mark w t) (none, s)
  return t

-- The characters of a URI.
abbrev pub is_uri : Bytes → Bool
is_uri b = is_alpha b 0 || has_octet (codes ";/?:@&=+$,.!~*'()[]%") (at b 0)

abbrev pub uri_part : Bool → Mark → Bytes → Lex Bytes
uri_part directive mark s c =
    if at c.buffer 0 == b'%' then scan_uri_escapes directive mark s c else read s c

-- `yaml_parser_scan_tag_uri`; the flag is `hasTag`.
unfoldable pub scan_tag_uri : Bool → Bytes → Mark → Lex Bytes
scan_tag_uri directive head mark = do
  cache 1
  (has_tag, s) ←
      while is_uri (λ (has_tag, s). uri_part directive mark s >>= λ t. cache 1 >> return (true, t))
        (ltb 0 (length head), drop 1 head)
  if has_tag then return s else refuse_tag directive mark "did not find expected tag URI"

abbrev pub last_of : Bytes → ℕ
last_of s = at s (length s - 1)

-- `!<…>`
abbrev pub verbatim_tag : Mark → Lex (Bytes × Bytes)
verbatim_tag mark = do
  skip
  skip
  suffix ← scan_tag_uri false [] mark
  end ← here
  if not (at end.buffer 0 == b'>')
      then refuse "while scanning a tag" mark "did not find the expected '>'"
      else (do skip; return ([], suffix))

-- `!suffix`, `!handle!suffix` or `!`
abbrev pub shorthand_tag : Mark → Lex (Bytes × Bytes)
shorthand_tag mark = do
  handle ← scan_tag_handle false mark
  if at handle 0 == b'!' && ltb 1 (length handle) && last_of handle == b'!'
      then (do suffix ← scan_tag_uri false [] mark; return (handle, suffix))
      else (do
        suffix ← scan_tag_uri false handle mark
        return (if is_empty suffix then ([], codes "!") else (codes "!", suffix)))

-- `yaml_parser_scan_tag`
unfoldable pub scan_tag : Lex Token
scan_tag = do
  start ← here
  cache 2
  (handle, suffix) ←
      if at start.buffer 1 == b'<' then verbatim_tag start.mark else shorthand_tag start.mark
  cache 1
  end ← here
  if not (is_blankz end.buffer 0)
      then refuse "while scanning a tag" start.mark "did not find expected whitespace or line break"
      else return (record (valued TokenType.tag start.mark end.mark handle) { suffix = suffix })
