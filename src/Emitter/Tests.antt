-- ===== src/Emitter/Tests.antt =====
-- Runs of the functions that write, and the theorems at concrete texts.
use yaml.Emitter.Output.{
  Emitter, Emitted, write_indicator, write_all, write, emitted, ln_break, put, make_room,
  write_break, put_break, write_indent,
}
use yaml.Base.{List, Option, ℕ, codes, some, Bytes, true, ◌∷◌, [], false, none, refl, ◌≡◌, arith}
use yaml.Emitter.Quoted.{write_single_quoted_scalar}
use yaml.Reader.Decode.{is_allowed, encode_utf8}
use yaml.Lexer.Cursor.{Cursor, lexed}
use yaml.Types.{no_error, Token}
use yaml.Emitter.Adding.{Adds, output}
use yaml.Emitter.Spelled.{write_single_quoted_scalar-Adds}
use yaml.Chars.{is_space, is_break, width}
use yaml.Lexer.Quoted.{scan_flow_scalar}
use yaml.Emitter.ReadBack.{scan_flow_scalar-write_single_quoted_scalar}

-- At the start of a line, with a write handler that takes all.
abbrev new_emitter : Emitter
new_emitter = record {
  error = no_error;
  write_handler = some (λ written bs. true);
  written = [];
  buffer = codes "a:";
  line_break = ln_break;
  best_width = 80;
  unicode = false;
  indent = some 2;
  line = 0;
  column = 2;
  whitespace = false;
  indention = false;
  open_ended = false;
  space_above = false;
  foot_indent = none;
}

abbrev output_of : Emitted → Option Bytes
output_of (emitted e) = some (output e)
output_of _ = none

abbrev its : List ℕ
its = b'i' ∷ b't' ∷ 39 ∷ b's' ∷ []

-- A quote is doubled.
write_its :
    output_of (write_single_quoted_scalar (codes "it's") false new_emitter)
    ≡ some (codes "a: 'it''s'")
unfolding write_single_quoted_scalar write_indicator write_all write put make_room is_space is_break
    width
write_its = refl

-- A break is written twice, with the indentation behind it.
write_break_twice :
    output_of (write_single_quoted_scalar (codes "a\nb") true new_emitter)
    ≡ some (codes "a: 'a\n\n  b'")
unfolding write_single_quoted_scalar write_indicator write_all write put make_room is_space is_break
    width write_break put_break write_indent
write_break_twice = refl

write_single_quoted_scalar-Adds_example :
    Adds
      (codes " 'it''s'")
      new_emitter
      (write_single_quoted_scalar (codes "it's") false new_emitter)
unfolding is_allowed encode_utf8
write_single_quoted_scalar-Adds_example =
    write_single_quoted_scalar-Adds its new_emitter (refl, (refl, (refl, (refl, tt)))) (λ w b. refl)

-- What is written, in the buffer of the scanner.
abbrev at_value : Cursor
at_value = record {
  mark = record { index = 3; line = 0; column = 3 };
  buffer = codes "'i'\n";
  unread = 4;
  newlines = 0;
  at_end = true;
}

abbrev behind_value : Emitter
behind_value = record new_emitter { buffer = codes "a: 'i'"; column = 6 }

scan_flow_scalar-write_single_quoted_scalar_example :
    (t : Token) × ((d : Cursor) × (scan_flow_scalar true at_value ≡ lexed t d)
      × ((t.value ≡ codes "i") × (d.buffer ≡ codes "\n")))
unfolding is_allowed encode_utf8 write_single_quoted_scalar write_indicator write_all write put
    make_room is_space is_break width
scan_flow_scalar-write_single_quoted_scalar_example =
    scan_flow_scalar-write_single_quoted_scalar (b'i' ∷ []) new_emitter behind_value (codes "\n")
      at_value (refl, tt) (λ w b. refl) refl refl refl
      (omega arith, (omega arith, (omega arith, (omega arith, refl)))) refl
