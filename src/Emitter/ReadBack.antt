-- ===== src/Emitter/ReadBack.antt =====
-- The scanner reads a scalar back that the emitter has written in single quotes.
use yaml.Base.{
  Bytes, List, ℕ, ◌++◌, ◌≡◌, sym, ◌∙◌, ap, drop, length, false, ◌==◌, true, ◌∷◌, [], subst,
}
use yaml.Emitter.Output.{Emitter, emitted}
use yaml.Emitter.Adding.{Adds, output, TakesAll}
use yaml.Lexer.Cursor.{Cursor, lexed}
use yaml.Lexer.SingleQuoted.{AreInline, spell_single}
use yaml.Lexer.Characters.{drop-length}
use yaml.Emitter.Quoted.{write_single_quoted_scalar}
use yaml.Reader.Text.{text}
use mathlib.Core.List.{append_assoc}
use yaml.Types.{utf8_encoding, Token}
use yaml.Chars.{at}
use yaml.Emitter.Spelled.{before_quote, write_single_quoted_scalar-Adds}
use yaml.Lexer.Outcome.{IsWhole}
use yaml.Lexer.Quoted.{scan_flow_scalar}
use yaml.Lexer.ReadingBack.{scan_flow_scalar-spell_single}

cancel : (xs ys zs : Bytes) → xs ++ ys ≡ xs ++ zs → ys ≡ zs
cancel xs ys zs e = sym (drop-length xs ys) ∙ ap (drop (length xs)) e ∙ drop-length xs zs

-- What is behind the old output is what was added.
buffer_of_added :
    (b q r x : Bytes) (e f : Emitter)
    → Adds (b ++ q) e (emitted f)
    → output f ++ r ≡ (output e ++ b) ++ x
    → x ≡ q ++ r
buffer_of_added b q r x e f (o, h) k = cancel (output e ++ b) x (q ++ r) (
    sym k
    ∙ ap (λ y. y ++ r) (o ∙ sym (append_assoc (output e) b q))
    ∙ append_assoc (output e ++ b) q r)

-- A text of allowed characters without line breaks is written in single quotes, with a write handler
-- that takes all and no breaks allowed. From a buffer that begins with what this adds to the output,
-- but for the space that may go before, that holds all the rest of the input, and in which no quote
-- follows, the scan of a single quoted scalar returns a token with that text and leaves what follows.
pub scan_flow_scalar-write_single_quoted_scalar :
    (vs : List ℕ) (e f : Emitter) (r : Bytes) (c : Cursor)
    → AreInline vs
    → TakesAll e.write_handler
    → write_single_quoted_scalar (text utf8_encoding vs) false e ≡ emitted f
    → (at r 0 == 39) ≡ false
    → output f ++ r ≡ (output e ++ before_quote e.whitespace) ++ c.buffer
    → IsWhole c
    → c.at_end ≡ true
    → (t : Token) × ((d : Cursor) × (scan_flow_scalar true c ≡ lexed t d)
        × ((t.value ≡ text utf8_encoding vs) × (d.buffer ≡ r)))
scan_flow_scalar-write_single_quoted_scalar vs e f r c i t w n o h a =
    let q : Bytes = 39 ∷ (spell_single vs ++ 39 ∷ []) in
    let k : Adds (before_quote e.whitespace ++ q) e (emitted f) =
      subst (λ x. Adds (before_quote e.whitespace ++ q) e x) w
        (write_single_quoted_scalar-Adds vs e i t) in
    let b = buffer_of_added (before_quote e.whitespace) q r c.buffer e f k o in
    scan_flow_scalar-spell_single vs r c i n
      (b ∙ ap (λ x. 39 ∷ x) (append_assoc (spell_single vs) (39 ∷ []) r)) h a
