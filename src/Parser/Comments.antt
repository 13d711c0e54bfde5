-- ===== src/Parser/Comments.antt =====
-- The comments that the parser carries from the scanner to the events.
use yaml.Base.{
  ℕ, zero, suc, ◌+◌, ◌-◌, not, ◌&&◌, List, [], ◌∷◌, ◌++◌, Bytes, length, take, drop, is_empty, leb,
  ◌==◌, if◌then◌else◌,
}
use yaml.Types.{Token, block_end, ◌is◌, Event}
use yaml.Parser.State.{Comment, Parser, Action, ok}

-- `append` of a comment behind what is there, on a line of its own
abbrev pub add_comment : Bytes → Bytes → Bytes
add_comment old new =
    if is_empty new then old else if is_empty old then new else old ++ (b'\n' ∷ new)

-- What `yaml_parser_unfold_comments` changes.
pub record Unfolded : Type 0 where
  pub comments : List Comment
  pub head_comment : Bytes
  pub line_comment : Bytes
  pub foot_comment : Bytes

-- The loop of `yaml_parser_unfold_comments`.
unfoldable pub unfold_from : Token → List Comment → Bytes → Bytes → Bytes → Unfolded
unfold_from t [] head line foot = record {
  comments = [];
  head_comment = head;
  line_comment = line;
  foot_comment = foot;
}
unfold_from t (c ∷ cs) head line foot =
    let rest =
      unfold_from t cs (add_comment head c.head) (add_comment line c.line)
        (add_comment foot c.foot) in
    if leb c.token_mark.index t.start_mark.index
      && not (not (is_empty c.head) && t.typ is block_end)
    then rest
    else record { comments = c ∷ cs; head_comment = head; line_comment = line; foot_comment = foot }

-- `yaml_parser_unfold_comments`
abbrev pub unfold_comments : Token → Parser → Parser
unfold_comments t p =
    let u = unfold_from t p.comments p.head_comment p.line_comment p.foot_comment in
    record p {
      comments = u.comments;
      head_comment = u.head_comment;
      line_comment = u.line_comment;
      foot_comment = u.foot_comment;
    }

-- `yaml_parser_set_event_comments`
abbrev pub set_event_comments : Event → Action Event
set_event_comments e p =
    ok
      (record e {
        head_comment = p.head_comment;
        line_comment = p.line_comment;
        foot_comment = p.foot_comment;
      })
      (record p {
        head_comment = [];
        line_comment = [];
        foot_comment = [];
        tail_comment = [];
        stem_comment = [];
      })

-- `if parser.stem_comment != nil { … }` at a block collection; the slice is nil or not empty
abbrev pub take_stem_comment : Event → Action Event
take_stem_comment e p =
    ok (record e { head_comment = p.stem_comment }) (record p { stem_comment = [] })

abbrev pub byte_at : Bytes → ℕ → ℕ
byte_at [] i = 0
byte_at (x ∷ xs) zero = x
byte_at (x ∷ xs) (suc i) = byte_at xs i

-- The loop in `yaml_parser_parse_document_start` that runs backwards over the head comment, from
-- index `i`: what goes to the document's header, and what stays.
unfoldable pub split_header_from : Bytes → ℕ → Bytes × Bytes
split_header_from h zero = ([], h)
split_header_from h (suc j) =
    let rest = split_header_from h j in
    if byte_at h (suc j) == b'\n'
    then if suc j == length h - 1
      then (take (suc j) h, drop (suc j + 1) h)
      else if byte_at h j == b'\n'
      then (take j h, drop (suc j + 1) h)
      else rest
    else rest

unfoldable pub split_header : Bytes → Bytes × Bytes
unfolding split_header_from
split_header h = if is_empty h then ([], h) else split_header_from h (length h - 1)
