-- ===== src/Parser/Document.antt =====
-- The handlers of the stream and of its documents.
use yaml.Base.{
  ℕ, zero, suc, Bool, true, false, not, ◌&&◌, ◌||◌, [], Bytes, length, is_empty, if◌then◌else◌,
  Option, List,
}
use yaml.Types.{
  Token, ◌is◌, stream_start, stream_end, version_directive, tag_directive, document_start,
  document_end, Event, event, stream_start_event, stream_end_event, document_start_event,
  document_end_event, implicit_document_start_state, document_start_state, document_content_state,
  document_end_state, block_node_state, end_state, Mark, VersionDirective, TagDirective,
}
use yaml.Parser.State.{
  ok, panic, Action, ◌>>=◌, ◌>>◌, return, modify, set_state, push_state, pop_state,
  set_parser_error,
}
use yaml.Parser.Comments.{set_event_comments, split_header}
use yaml.Parser.Queue.{peek, skip}
use yaml.Parser.Directives.{process_directives}
use yaml.Parser.Node.{parse_node}
use yaml.Parser.Block.{process_empty_scalar}

-- `yaml_parser_parse_stream_start`
unfoldable pub parse_stream_start : Action Event
parse_stream_start p =
    (do
      t ← peek
      let a_start : Action Event = do
        set_state implicit_document_start_state
        let e = event stream_start_event t.start_mark t.end_mark
        skip
        return (record e { encoding = t.encoding })
      if not (t.typ is stream_start)
          then set_parser_error "did not find expected <stream-start>" t.start_mark
          else a_start)
      p

-- `for token.typ == yaml_DOCUMENT_END_TOKEN`, with the tokens left as fuel
unfoldable pub skip_document_ends : ℕ → Token → Action Token
skip_document_ends zero t p = panic
skip_document_ends (suc n) t p =
    let round : Action Token = do skip; u ← peek; skip_document_ends n u
    in if t.typ is document_end then round p else ok t p

abbrev split_head_comment : Action Bytes
split_head_comment p =
    let (header, rest) = split_header p.head_comment in ok header (record p { head_comment = rest })

-- Behind the directives of an implicit document.
abbrev pub start_implicit : Token → Action Event
start_implicit t = do
  push_state document_end_state
  set_state block_node_state
  header ← split_head_comment
  return (record (event document_start_event t.start_mark t.end_mark) { head_comment = header })

abbrev pub implicit_document : Token → Action Event
implicit_document t = do _ ← process_directives; start_implicit t

-- Behind the directives of an explicit document, at the token `u`.
abbrev pub start_explicit :
    Mark → Option VersionDirective → List TagDirective → Token → Action Event
start_explicit start_mark version tags u =
    let a_start : Action Event = do
      push_state document_end_state
      set_state document_content_state
      let e = event document_start_event start_mark u.end_mark
      skip
      return (record e { version_directive = version; tag_directives = tags; implicit = false })
    in if not (u.typ is document_start)
      then set_parser_error "did not find expected <document start>" u.start_mark
      else a_start

abbrev pub explicit_document : Token → Action Event
explicit_document t = do
  let start_mark = t.start_mark
  (version, tags) ← process_directives
  u ← peek
  start_explicit start_mark version tags u

abbrev pub the_stream_end : Token → Action Event
the_stream_end t = do
  set_state end_state
  let e = event stream_end_event t.start_mark t.end_mark
  skip
  return e

-- The first test behind the document ends.
abbrev pub begins_implicit : Bool → Token → Bool
begins_implicit implicit t =
    implicit
    && not (t.typ is version_directive)
    && not (t.typ is tag_directive)
    && not (t.typ is document_start)
    && not (t.typ is stream_end)

-- The `if` of `yaml_parser_parse_document_start`, at the token behind the document ends.
abbrev pub choose_document : Bool → Token → Action Event
choose_document implicit t =
    if begins_implicit implicit t
    then implicit_document t
    else if not (t.typ is stream_end)
    then explicit_document t
    else the_stream_end t

-- `if !implicit { … }`: past the document end indicators
abbrev pub past_document_ends : Bool → Token → Action Token
past_document_ends true t p = ok t p
past_document_ends false t p = skip_document_ends (length p.tokens) t p

-- `yaml_parser_parse_document_start`
unfoldable pub parse_document_start : Bool → Action Event
parse_document_start implicit = do
  u ← peek
  t ← past_document_ends implicit u
  choose_document implicit t

-- `yaml_parser_parse_document_content`
unfoldable pub parse_document_content : Action Event
parse_document_content p =
    (do
      t ← peek
      let no_content : Action Event = do pop_state; process_empty_scalar t.start_mark
      if t.typ is version_directive
            || t.typ is tag_directive
            || t.typ is document_start
            || t.typ is document_end
            || t.typ is stream_end
          then no_content
          else parse_node true false)
      p

-- The last `if` of `yaml_parser_parse_document_end`
abbrev pub move_head_to_foot : Event → Event
move_head_to_foot e =
    let moves = not (is_empty e.head_comment) && is_empty e.foot_comment in
    record e {
      foot_comment = if moves then e.head_comment else e.foot_comment;
      head_comment = if moves then [] else e.head_comment;
    }

-- `yaml_parser_parse_document_end`
unfoldable pub parse_document_end : Action Event
parse_document_end p =
    (do
      t ← peek
      let finish : Bool → Action Event = λ explicit. do
        modify (λ q. record q { tag_directives = [] })
        set_state document_start_state
        let end_mark = if explicit then t.end_mark else t.start_mark
        let e = event document_end_event t.start_mark end_mark
        e' ← set_event_comments (record e { implicit = not explicit })
        return (move_head_to_foot e')
      let an_end : Action Event = do skip; finish true
      if t.typ is document_end then an_end else finish false)
      p
