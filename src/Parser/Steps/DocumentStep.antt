-- ===== src/Parser/Steps/DocumentStep.antt =====
-- The handlers of the stream and its documents, against the contract.
use yaml.Base.{
  List, [], ◌∷◌, ℕ, arith, Bool, true, false, ◌≡◌, ◌≤◌, length, ◌*◌, ◌+◌, Option, if◌then◌else◌,
  not,
}
use yaml.Parser.State.{Parser, Fetched, ◌>>=◌}
use yaml.Types.{
  ParserState, Mark, Token, stream_start_state, document_end_state, document_content_state,
  VersionDirective, TagDirective, ◌is◌, stream_end,
}
use yaml.Parser.Document.{
  parse_stream_start, parse_document_end, parse_document_content, the_stream_end, implicit_document,
  explicit_document, start_implicit, start_explicit, choose_document, begins_implicit,
  parse_document_start, past_document_ends,
}
use yaml.Parser.Valid.{expectation, IsValid, potential}
use yaml.Parser.Expect.{accept, documents}
use yaml.Parser.Steps.HandlerStep.{in_state, Step, node-Step, peeked, if-Step}
use yaml.Parser.Steps.NodeStep.{Kept, Keeps, peek-Kept}
use yaml.Parser.Steps.Keeping.{
  bind-Step, process_directives-Keeps, peek-Keeps, unchanged-Kept, skip_document_ends-Keeps,
}
use yaml.Parser.Directives.{process_directives}
use yaml.Parser.Queue.{peek}

pub stream_start_at :
    (p : Parser) (fs : List Fetched) (ss : List ParserState) (ms : List Mark)
    → IsValid (in_state stream_start_state p fs ss ms)
    → Step
        (in_state stream_start_state p fs ss ms)
        (parse_stream_start (in_state stream_start_state p fs ss ms))
unfolding parse_stream_start accept
stream_start_at p [] ss ms v = tt
stream_start_at p (f ∷ fs) [] ms v = ground arith
stream_start_at p (f ∷ fs) (s ∷ r) ms v = ground arith

pub document_end_at :
    (p : Parser) (fs : List Fetched) (ss : List ParserState) (ms : List Mark)
    → IsValid (in_state document_end_state p fs ss ms)
    → Step
        (in_state document_end_state p fs ss ms)
        (parse_document_end (in_state document_end_state p fs ss ms))
unfolding parse_document_end accept
document_end_at p [] ss ms v = tt
document_end_at p (f ∷ fs) [] ms v = ground arith
document_end_at p (f ∷ fs) (s ∷ r) ms v = ground arith

pub document_content_at :
    (p : Parser) (fs : List Fetched) (ss : List ParserState) (ms : List Mark)
    → IsValid (in_state document_content_state p fs ss ms)
    → Step
        (in_state document_content_state p fs ss ms)
        (parse_document_content (in_state document_content_state p fs ss ms))
unfolding parse_document_content accept
document_content_at p [] ss ms v = tt
document_content_at p (f ∷ fs) [] ms v = ground arith
document_content_at p (f ∷ fs) (s ∷ r) ms v =
    let q = in_state document_content_state p (f ∷ fs) (s ∷ r) ms in
    ground (arith, node-Step true false q (peeked f q))

-- The parser stands between two documents.
pub record IsBetween (p : Parser) (least : ℕ) : Type 0 where
  pub expected : expectation p ≡ documents ∷ []
  pub empty : p.states ≡ []
  pub no_marks : length p.marks ≡ 0
  pub no_tail : p.tail_comment ≡ []
  pub paid : 8 * length p.tokens + least ≤ potential p

the_stream_end-Step :
    (t : Token) (p : Parser) (fs : List Fetched)
    → IsBetween (record p { tokens = fs }) 1
    → 1 ≤ length fs
    → Step (record p { tokens = fs }) (the_stream_end t (record p { tokens = fs }))
unfolding accept
the_stream_end-Step t p [] v h = absurd (omega arith)
the_stream_end-Step t p (f ∷ fs) v h = ground arith

Kept-IsBetween :
    {n : ℕ} (p q : Parser)
    → Kept p q
    → 8 * length q.tokens + n ≤ potential q
    → IsBetween p n
    → IsBetween q n
Kept-IsBetween p q k h v = ground arith

start_implicit-Step : (t : Token) (p : Parser) → IsBetween p 5 → Step p (start_implicit t p)
unfolding accept
start_implicit-Step t p v = ground arith

start_explicit-Step :
    (m : Mark) (version : Option VersionDirective) (tags : List TagDirective) (u : Token)
    (p : Parser) (fs : List Fetched)
    → IsBetween (record p { tokens = fs }) 1
    → 1 ≤ length fs
    → Step (record p { tokens = fs }) (start_explicit m version tags u (record p { tokens = fs }))
unfolding accept
start_explicit-Step m version tags u p [] v h = absurd (omega arith)
start_explicit-Step m version tags u p (f ∷ fs) v h = ground arith

implicit_document-Step :
    (t : Token) (p : Parser) → IsBetween p 5 → 1 ≤ length p.tokens → Step p (implicit_document t p)
implicit_document-Step t p v h =
    bind-Step p (process_directives p) (λ _. start_implicit t) (process_directives-Keeps p h)
      (λ a q k. start_implicit-Step t q (Kept-IsBetween p q k (ground arith) v))

explicit_document-Step :
    (t : Token) (p : Parser) → IsBetween p 1 → 1 ≤ length p.tokens → Step p (explicit_document t p)
explicit_document-Step t p v h =
    bind-Step p (process_directives p) (λ a. peek >>= start_explicit t.start_mark a.0 a.1)
      (process_directives-Keeps p h)
      (λ a q k.
        bind-Step q (peek q) (start_explicit t.start_mark a.0 a.1) (peek-Keeps q k.one_left)
          (λ u w l.
            let v' = Kept-IsBetween p q k (ground arith) v in
            start_explicit-Step t.start_mark a.0 a.1 u w w.tokens
              (Kept-IsBetween q w l (ground arith) v') l.one_left))

-- The choice between the three, at the token behind the document ends.
choose-Step :
    (implicit : Bool) (t : Token) (p : Parser)
    → IsBetween p (if implicit then 5 else 1)
    → 1 ≤ length p.tokens
    → Step p (choose_document implicit t p)
choose-Step true t p v h =
    if-Step (begins_implicit true t) (implicit_document t)
      (if not (t.typ is stream_end) then explicit_document t else the_stream_end t) p p
      (implicit_document-Step t p v h)
      (if-Step (not (t.typ is stream_end)) (explicit_document t) (the_stream_end t) p p
        (explicit_document-Step t p (weaken p v) h)
        (the_stream_end-Step t p p.tokens (weaken p v) h))
  where
    weaken : (q : Parser) → IsBetween q 5 → IsBetween q 1
    weaken q w = ground arith
choose-Step false t p v h =
    if-Step (not (t.typ is stream_end)) (explicit_document t) (the_stream_end t) p p
      (explicit_document-Step t p v h) (the_stream_end-Step t p p.tokens v h)

past_document_ends-Keeps :
    (implicit : Bool) (t : Token) (p : Parser)
    → 1 ≤ length p.tokens
    → Keeps p (past_document_ends implicit t p)
past_document_ends-Keeps true t p h = unchanged-Kept p h
past_document_ends-Keeps false t p h =
    skip_document_ends-Keeps (length p.tokens) t p h (omega arith)

document_start_at :
    (implicit : Bool) (p : Parser) (fs : List Fetched)
    → IsBetween (record p { tokens = fs }) (if implicit then 5 else 1)
    → Step (record p { tokens = fs }) (parse_document_start implicit (record p { tokens = fs }))
unfolding parse_document_start
document_start_at implicit p [] v = tt
document_start_at implicit p (f ∷ fs) v =
    let q = record p { tokens = f ∷ fs } in
    bind-Step q (peek q) _ (peek-Kept p f fs) (λ u w k.
      bind-Step w (past_document_ends implicit u w) (choose_document implicit)
        (past_document_ends-Keeps implicit u w k.one_left)
        (λ t x l.
          let v' = Kept-IsBetween q w k (ground arith) v in
          choose-Step implicit t x (Kept-IsBetween w x l (ground arith) v') l.one_left))

pub document_start-Step :
    (implicit : Bool) (p : Parser)
    → IsBetween p (if implicit then 5 else 1)
    → Step p (parse_document_start implicit p)
document_start-Step implicit p v = document_start_at implicit p p.tokens v
