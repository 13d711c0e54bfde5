-- ===== src/Scanner/Levels.antt =====
-- `yaml_simple_key_is_valid` to `yaml_parser_unroll_indent`.
use yaml.Base.{
  ℕ, ◌+◌, ◌-◌, ◌==◌, Bool, true, false, ◌&&◌, List, [], ◌∷◌, ◌++◌, Option, none, some,
  if◌then◌else◌, ltb, length, not, ◌||◌,
}
use yaml.Scanner.State.{
  panics, scanned, SimpleKey, Scan, Scanner, FoundComment, set_scanner_error, next, insert_token,
  token_at, Scanned,
}
use yaml.Types.{TokenType, Mark, block_end}

abbrev pub max_flow_level : ℕ
max_flow_level = 10000

abbrev pub max_indents : ℕ
max_indents = 10000

-- Whether a simple key is valid; if it is not, it is no longer possible, or there is an error.
pub data Validity : Type 0 where
  valid : Validity
  invalid : SimpleKey → Validity
  refused : Scanned → Validity

-- `yaml_simple_key_is_valid`
unfoldable pub simple_key_is_valid : Scanner → SimpleKey → Validity
simple_key_is_valid s k =
    if not k.possible
    then invalid k
    else if ltb k.mark.line s.mark.line || ltb (k.mark.index + 1024) s.mark.index
    then if k.required
      then refused
          (set_scanner_error "while scanning a simple key" k.mark "could not find expected ':'" s)
      else invalid (record k { possible = false })
    else valid

-- `delete(m, n)`
abbrev pub delete : ℕ → List (ℕ × ℕ) → List (ℕ × ℕ)
delete n [] = []
delete n ((m, i) ∷ rest) = let others = delete n rest in if m == n then others else (m, i) ∷ others

-- `yaml_parser_remove_simple_key`, on the top of the stack.
abbrev pub remove_top : List SimpleKey → Scan
remove_top [] s = panics
remove_top (k ∷ ks) s =
    if k.possible
    then if k.required
      then set_scanner_error "while scanning a simple key" k.mark "could not find expected ':'" s
      else scanned (record s {
        simple_keys = record k { possible = false } ∷ ks;
        simple_keys_by_tok = delete k.token_number s.simple_keys_by_tok;
      })
    else scanned s

-- `yaml_parser_remove_simple_key`
unfoldable pub remove_simple_key : Scan
remove_simple_key s = remove_top s.simple_keys s

-- The key at the current position.
abbrev pub key_here : Bool → Bool → Scanner → SimpleKey
key_here possible required s = record {
  possible = possible;
  required = required;
  token_number = s.tokens_parsed + length s.tokens;
  mark = s.mark;
}

-- The assignments to the top of the stack and to the map, behind the removal.
abbrev pub put_key : SimpleKey → List SimpleKey → Scan
put_key k [] s = panics
put_key k (_ ∷ ks) s = scanned (record s {
  simple_keys = k ∷ ks;
  simple_keys_by_tok = (k.token_number, length ks) ∷ delete k.token_number s.simple_keys_by_tok;
})

-- `yaml_parser_save_simple_key`
unfoldable pub save_simple_key : Scan
save_simple_key s =
    let required : Bool = s.flow_level == 0 && s.indent == s.mark.column + 1 in
    if s.simple_key_allowed
    then next (remove_simple_key s) (λ t. put_key (key_here true required s) t.simple_keys t)
    else scanned s

-- `yaml_parser_increase_flow_level`
unfoldable pub increase_flow_level : Scan
increase_flow_level s =
    let t : Scanner = record s {
      simple_keys = key_here false false s ∷ s.simple_keys;
      flow_level = s.flow_level + 1;
    } in
    if ltb max_flow_level t.flow_level
    then set_scanner_error "while increasing flow level" s.mark "exceeded max depth of 10000" t
    else scanned t

abbrev pub drop_key : List SimpleKey → Scan
drop_key [] s = panics
drop_key (k ∷ ks) s = scanned (record s {
  flow_level = s.flow_level - 1;
  simple_keys = ks;
  simple_keys_by_tok = delete k.token_number s.simple_keys_by_tok;
})

-- `yaml_parser_decrease_flow_level`
unfoldable pub decrease_flow_level : Scan
decrease_flow_level s = if ltb 0 s.flow_level then drop_key s.simple_keys s else scanned s

-- The mark of the key on top, for an error.
abbrev pub fail_at_key : List SimpleKey → Scan
fail_at_key [] s = panics
fail_at_key (k ∷ ks) s =
    set_scanner_error "while increasing indent level" k.mark "exceeded max depth of 10000" s

-- The position in the queue of a token by its number; `none` stands for what is negative.
abbrev pub position : Option ℕ → ℕ → Option ℕ
position none parsed = none
position (some n) parsed = if ltb n parsed then none else some (n - parsed)

-- `yaml_parser_roll_indent`; the number is `none` for -1.
unfoldable pub roll_indent : ℕ → Option ℕ → TokenType → Mark → Scan
roll_indent column number typ mark s =
    let t : Scanner = record s { indents = s.indent ∷ s.indents; indent = column } in
    if ltb 0 s.flow_level
    then scanned s
    else if ltb s.indent column
    then if ltb max_indents (length t.indents)
      then fail_at_key t.simple_keys t
      else insert_token (position number t.tokens_parsed) (token_at typ mark) t
    else scanned s

-- The inner loop of `yaml_parser_unroll_indent`: where the block of this indentation ends.
abbrev pub end_of_block : ℕ → List FoundComment → ℕ → Mark → Mark
end_of_block indent [] stop mark = mark
end_of_block indent (c ∷ cs) stop mark =
    let rest =
      end_of_block indent cs c.scan_mark.index
        (if c.start_mark.column == indent then c.start_mark else mark) in
    if ltb c.end_mark.index stop then mark else rest

-- The outer loop, over the stack of indentations.
unfoldable pub unroll : List ℕ → ℕ → Mark → Scan
unroll [] column mark s = if ltb column s.indent then panics else scanned s
unroll (i ∷ is) column mark s =
    let block_mark = end_of_block s.indent s.comments mark.index mark in
    let rest = unroll is column block_mark (record s {
      tokens = s.tokens ++ token_at block_end block_mark ∷ [];
      indent = i;
      indents = is;
    }) in
    if ltb column s.indent then rest else scanned s

-- `yaml_parser_unroll_indent`. At the first character of the input the index before the mark is -1 in
-- the source and 0 here: no comment ends below either, and no token is made there.
unfoldable pub unroll_indent : ℕ → Mark → Scan
unroll_indent column scan_mark s =
    if ltb 0 s.flow_level
    then scanned s
    else unroll s.indents column (record scan_mark { index = scan_mark.index - 1 }) s
