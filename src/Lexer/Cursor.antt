-- ===== src/Lexer/Cursor.antt =====
-- The position of the scanner in its buffer (yamlh.go), and the functions that move it: `cache`, `skip`,
-- `skip_line`, `read` and `read_line`.
use yaml.Base.{
  ℕ, zero, suc, ◌+◌, ◌-◌, ◌==◌, leb, Bool, ◌&&◌, ◌||◌, [], ◌∷◌, ◌++◌, String, Bytes, if◌then◌else◌,
  take, drop,
}
use yaml.Types.{Mark}
use yaml.Chars.{is_blank, width, is_crlf, at, is_break}

-- `buffer` holds the characters to come, up to the end of the input or to the place where the reader
-- fails, and `unread` counts them; behind them the buffer reads as NUL.
pub record Cursor : Type 0 where
  pub mark : Mark
  pub buffer : Bytes
  pub unread : ℕ
  pub newlines : ℕ
  pub at_end : Bool

-- A function returns, sets the error of the scanner or that of the reader, or panics; `broken` is also
-- for a character that is skipped behind the last. `endless` is a loop that is out of fuel.
pub data Lexed {ℓ} (A : Type ℓ) : Type ℓ where
  lexed : A → Cursor → Lexed A
  refused : String → Mark → String → Cursor → Lexed A
  unreadable : Cursor → Lexed A
  broken : Lexed A
  endless : Lexed A

abbrev pub Lex {ℓ} : Type ℓ → Type ℓ
Lex A = Cursor → Lexed A

abbrev pub proceed {ℓ κ} : {A : Type ℓ} {B : Type κ} → Lexed A → (A → Lex B) → Lexed B
proceed (lexed a d) f = f a d
proceed (refused context mark problem d) f = refused context mark problem d
proceed (unreadable d) f = unreadable d
proceed broken f = broken
proceed endless f = endless

infixr 5 ◌>>=◌ ◌>>◌
abbrev pub ◌>>=◌ {ℓ κ} : {A : Type ℓ} {B : Type κ} → Lex A → (A → Lex B) → Lex B
◌>>=◌ m f c = proceed (m c) f

abbrev pub ◌>>◌ {κ} : {B : Type κ} → Lex (Unit {0}) → Lex B → Lex B
m >> k = m >>= λ _. k

abbrev pub return {ℓ} : {A : Type ℓ} → A → Lex A
return a c = lexed a c

abbrev pub here : Lex Cursor
here c = lexed c c

-- `yaml_parser_set_scanner_error`
abbrev pub refuse {ℓ} : {A : Type ℓ} → String → Mark → String → Lex A
refuse context mark problem c = refused context mark problem c

-- `parser.unread < n && !yaml_parser_update_buffer(parser, n)`; the reader decodes what it has of the
-- raw input, and may fail some calls before this, which fails when the bad octet is reached.
unfoldable pub cache : ℕ → Lex (Unit {0})
cache n c = if leb n c.unread || c.at_end then lexed tt c else unreadable c

-- One character further, of this width.
abbrev pub advanced : ℕ → Cursor → Cursor
advanced w c = record c {
  newlines = if is_blank c.buffer 0 then c.newlines else 0;
  mark = record c.mark { index = c.mark.index + 1; column = c.mark.column + 1 };
  unread = c.unread - 1;
  buffer = drop w c.buffer;
}

-- A line further, by so many characters and bytes.
abbrev pub next_line : ℕ → ℕ → Cursor → Cursor
next_line n w c = record c {
  newlines = c.newlines + 1;
  mark = record { index = c.mark.index + n; column = 0; line = c.mark.line + 1 };
  unread = c.unread - n;
  buffer = drop w c.buffer;
}

abbrev pub skip_first : Bytes → Lex (Unit {0})
skip_first [] c = broken
skip_first (b ∷ bs) c = lexed tt (advanced (width b) c)

-- `skip`
unfoldable pub skip : Lex (Unit {0})
skip c = skip_first c.buffer c

-- `skip_line`
unfoldable pub skip_line : Lex (Unit {0})
skip_line c =
    if is_crlf c.buffer 0
    then lexed tt (next_line 2 2 c)
    else if is_break c.buffer 0
    then lexed tt (next_line 1 (width (at c.buffer 0)) c)
    else lexed tt c

abbrev pub read_first : Bytes → Bytes → Lex Bytes
read_first s [] c = broken
read_first s (b ∷ bs) c =
    if width b == 0 then broken else lexed (s ++ take (width b) (b ∷ bs)) (advanced (width b) c)

-- `read`
unfoldable pub read : Bytes → Lex Bytes
read s c = read_first s c.buffer c

-- `read_line`
unfoldable pub read_line : Bytes → Lex Bytes
read_line s c =
    let b = c.buffer in
    if at b 0 == b'\r' && at b 1 == b'\n'
    then lexed (s ++ b'\n' ∷ []) (next_line 2 2 c)
    else if at b 0 == b'\r' || at b 0 == b'\n'
    then lexed (s ++ b'\n' ∷ []) (next_line 1 1 c)
    else if at b 0 == 0xC2 && at b 1 == 0x85
    then lexed (s ++ b'\n' ∷ []) (next_line 1 2 c)
    else if at b 0 == 0xE2 && at b 1 == 0x80 && (at b 2 == 0xA8 || at b 2 == 0xA9)
    then lexed (s ++ take 3 b) (next_line 1 3 c)
    else lexed s c

-- A round of a loop goes on, or it is the last.
pub data Turn {ℓ} (A : Type ℓ) : Type ℓ where
  again : A → Turn A
  stop : A → Turn A

abbrev pub repeat {ℓ} : {A : Type ℓ} → ℕ → (A → Lex (Turn A)) → A → Lex A
repeat zero body a c = endless
repeat (suc n) body a c =
    proceed (body a c) (λ t. elim t [ again b ↦ repeat n body b | stop b ↦ return b ])

-- `for { … }`: a round for each character at most, and a last one.
unfoldable pub loop {ℓ} : {A : Type ℓ} → (A → Lex (Turn A)) → A → Lex A
loop body a c = repeat (suc c.unread) body a c

-- `for test { … }`
abbrev pub while {ℓ} : {A : Type ℓ} → (Bytes → Bool) → (A → Lex A) → A → Lex A
while test body =
    loop (λ a c.
      if test c.buffer then proceed (body a c) (λ b. return (again b)) else lexed (stop a) c)

-- `for test { s = read(parser, s); … }`, with the character behind it.
abbrev pub read_while : (Bytes → Bool) → Bytes → Lex Bytes
read_while test = while test (λ s. read s >>= λ t. cache 1 >> return t)

-- `for test { skip(parser); … }`
abbrev pub skip_while : (Bytes → Bool) → Lex (Unit {0})
skip_while test = while test (λ u. skip >> cache 1) tt
