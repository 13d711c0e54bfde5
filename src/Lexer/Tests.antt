-- ===== src/Lexer/Tests.antt =====
-- Runs of the scans, and the theorems at concrete buffers.
use yaml.Base.{ℕ, Bytes, codes, Option, true, ◌≤◌, some, none, arith, ◌≡◌, refl, false, ◌∷◌, []}
use yaml.Lexer.Cursor.{Lexed, Cursor, lexed, loop, cache, skip, read, read_line, ◌>>=◌, return}
use yaml.Lexer.Quoted.{
  scan_flow_scalar, quoted_round, quoted_character, join_quoted, escape, escape_of, escape_code,
  hex_value,
}
use yaml.Lexer.Plain.{
  scan_plain_scalar, plain_round, plain_character, plain_gaps, join_plain, ends_plain, check_tab,
}
use yaml.Chars.{width, is_z, is_blankz, is_blank, is_break, is_tab, is_hex, as_hex}
use yaml.Types.{Token, no_mark}
use yaml.Lexer.Outcome.{Goes, AreChars}
use yaml.Lexer.Folding.{is_document_indicator, folded, eat_gaps}
use yaml.Lexer.Totality.{scan, quoted, scan-IsSafe}
use yaml.Reader.Decode.{encode_utf8, is_allowed}
use yaml.Lexer.ReadingBack.{scan_flow_scalar-spell_single}

-- A buffer of so many characters, at the start of the input.
abbrev at_start : ℕ → Bytes → Cursor
at_start n b = record { mark = no_mark; buffer = b; unread = n; newlines = 0; at_end = true }

abbrev value_of : Lexed Token → Option Bytes
value_of (lexed t d) = some t.value
value_of _ = none

abbrev single_quoted : Bytes
single_quoted = codes "'it''s'"

-- The value of a single quoted scalar.
scan_single_quoted :
    value_of (scan_flow_scalar true (at_start 7 single_quoted)) ≡ some (codes "it's")
unfolding scan_flow_scalar quoted_round quoted_character join_quoted is_document_indicator folded
    eat_gaps loop cache skip read width is_z is_blankz is_blank is_break
scan_single_quoted = refl

-- The escapes and the folding of a double quoted scalar.
scan_double_quoted :
    value_of (scan_flow_scalar false (at_start 15 (codes "\"\\x41\\u00e9\n b\"")))
    ≡ some (b'A' ∷ 0xC3 ∷ 0xA9 ∷ b' ' ∷ b'b' ∷ [])
unfolding scan_flow_scalar quoted_round quoted_character join_quoted is_document_indicator folded
    eat_gaps loop cache skip read read_line width is_z is_blankz is_blank is_break escape escape_of
    escape_code hex_value encode_utf8 is_hex as_hex
scan_double_quoted = refl

-- A plain scalar ends before the indicator of a value.
scan_plain :
    value_of ((scan_plain_scalar 0 0 >>= λ (t, b). return t) (at_start 6 (codes "a b: c")))
    ≡ some (codes "a b")
unfolding scan_plain_scalar plain_round plain_character plain_gaps join_plain ends_plain check_tab
    is_document_indicator folded eat_gaps loop cache skip read width is_blankz is_blank is_break
    is_tab
scan_plain = refl

scan-IsSafe_example :
    Goes
      (λ t d. AreChars d.unread d.buffer × (d.unread ≤ 3))
      (scan (quoted true) (at_start 3 (codes "'a'")))
unfolding width
scan-IsSafe_example =
    scan-IsSafe (quoted true) (at_start 3 (codes "'a'"))
      (omega arith, (omega arith, (omega arith, refl))) refl

scan_flow_scalar-spell_single_example :
    (t : Token) × ((d : Cursor) × (scan_flow_scalar true (at_start 7 single_quoted) ≡ lexed t d)
      × ((t.value ≡ codes "it's") × (d.buffer ≡ [])))
unfolding is_allowed encode_utf8 width
scan_flow_scalar-spell_single_example =
    scan_flow_scalar-spell_single (b'i' ∷ b't' ∷ 39 ∷ b's' ∷ []) [] (at_start 7 single_quoted)
      (refl, (refl, (refl, (refl, tt)))) refl refl
      (
        omega arith,
        (
          omega arith,
          (omega arith, (omega arith, (omega arith, (omega arith, (omega arith, refl))))),
        ),
      )
      refl
