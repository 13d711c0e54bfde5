-- ===== src/Parser/Steps/HandlerStep.antt =====
-- What each handler has to do, and the rules by which the proofs about the handlers go.
use yaml.Base.{
  ◌+◌, ◌*◌, ◌<◌, Bool, true, false, some, ◌≡◌, arith, length, if◌then◌else◌, List, ℕ, Bytes, ◌==◌,
  ◌∷◌, [], ◌≤◌,
}
use yaml.Types.{Event, ErrorType, ParserState, ◌is◌, Mark, stream_end, Token}
use yaml.Parser.State.{Parser, Outcome, ok, fail, panic, Action, Comment, Fetched, ◌>>◌, ◌>>=◌}
use yaml.Parser.Expect.{
  node_done, accept, accept-Begins, Expected, Begins-not_tail, is_tail_comment,
}
use yaml.Parser.Valid.{stack_of, all_weights, potential, IsValid, expectation, all_marks}
use yaml.Parser.Steps.NodeStep.{NodeStep, IsReady, HasBottom, parse_node-NodeStep}
use yaml.Parser.Queue.{split_stem_comment, split_stem, receive, peek}
use yaml.Parser.Comments.{unfold_comments}
use yaml.Parser.Node.{parse_node}
use yaml.Parser.Block.{open_collection}

-- The event is one of those expected and no tail comment, the invariant is kept, and the measure
-- falls; no panic.
abbrev pub Step : Parser → Outcome Event → Type 0
Step p (ok e q) =
    (accept e.typ (expectation p) ≡ some (expectation q))
    × (is_tail_comment e.typ ≡ false)
    × IsValid q
    × (potential q < potential p)
Step p (fail q) = Unit
Step p panic = ⊥

-- A handler that goes on with a node, from a parser `q` with `q.states` expected behind the node.
pub NodeStep-Step :
    (p q : Parser) (o : Outcome Event)
    → node_done (expectation p) ≡ some (stack_of q.states)
    → 8 * length q.tokens + all_weights q.states + 1 < potential p
    → NodeStep q o
    → Step p o
NodeStep-Step p q (ok e r) d m (b, v, h) = (
  accept-Begins e.typ (expectation p) (stack_of q.states) (expectation r) d b,
  Begins-not_tail e.typ (stack_of q.states) (expectation r) b,
  v,
  omega arith,
)
NodeStep-Step p q (fail r) d m h = tt
NodeStep-Step p q panic d m h = h

pub if-Step :
    (b : Bool) (x y : Action Event) (p q : Parser)
    → Step p (x q)
    → Step p (y q)
    → Step p ((if b then x else y) q)
if-Step true x y p q hx hy = hx
if-Step false x y p q hx hy = hy

-- The comments of the parser, and what `peek_token` sets besides.
abbrev pub commented :
    Parser → List Comment → Bytes → Bytes → Bytes → Bytes → Bool → ErrorType → Parser
commented p comments head line foot stem available e = record p {
  comments = comments;
  head_comment = head;
  line_comment = line;
  foot_comment = foot;
  stem_comment = stem;
  token_available = available;
  error = e;
}

-- Behind `yaml_parser_split_stem_comment` the parser differs in its comments at most.
stem_at :
    (b : Bool) (n : ℕ) (k : Action Event) (p q : Parser) (fs : List Fetched)
    → ((cs : List Comment) (h l f s : Bytes) (a : Bool) (e : ErrorType)
        → Step p (k (commented (record q { tokens = fs }) cs h l f s a e)))
    → Step p ((split_stem b n >> k) (record q { tokens = fs }))
stem_at true n k p q fs next = next _ _ _ _ _ _ _
stem_at false n k p q [] next = next _ _ _ _ _ _ _
stem_at false n k p q (f ∷ fs) next = next _ _ _ _ _ _ _

pub stem-Step :
    (n : ℕ) (k : Action Event) (p q : Parser)
    → ((cs : List Comment) (h l f s : Bytes) (a : Bool) (e : ErrorType)
        → Step p (k (commented q cs h l f s a e)))
    → Step p ((split_stem_comment n >> k) q)
stem-Step n k p q = stem_at (n == 0) n k p q q.tokens

-- A handler that parses a node next: the parser that it calls `parse_node` with says enough.
pub node-Step :
    (block indentless : Bool) (p q : Parser)
    → node_done (expectation p) ≡ some (stack_of q.states)
    → 8 * length q.tokens + all_weights q.states + 1 < potential p
    → IsReady q
    → Step p (parse_node block indentless q)
node-Step block indentless p q d m v =
    NodeStep-Step p q (parse_node block indentless q) d m (parse_node-NodeStep block indentless q v)

-- The parser with its tokens and stacks written out.
abbrev pub put : Parser → List Fetched → List ParserState → List Mark → Parser
put p fs ss ms = record p { tokens = fs; states = ss; marks = ms }

-- The parser behind `peek_token`, `skip_token` and a push, at tokens that are known.
abbrev pub peeked : Fetched → Parser → Parser
peeked f p = unfold_comments f.token (receive f p)

abbrev pub skipped : Fetched → List Fetched → Parser → Parser
skipped f fs p = record p {
  tokens = fs;
  token_available = false;
  tokens_parsed = p.tokens_parsed + 1;
  stream_end_produced = f.token.typ is stream_end;
}

abbrev pub pushed : ParserState → Parser → Parser
pushed s p = record p { states = s ∷ p.states }

abbrev pub in_state : ParserState → Parser → List Fetched → List ParserState → List Mark → Parser
in_state s p fs ss ms = record p { state = s; tokens = fs; states = ss; marks = ms }

-- A handler meets `q`, whose own marks are on the stack; `p` is the parser before, with as much of
-- the measure as the tokens and the stack of `q` and one event ask for.
pub record IsOpen (p : Parser) (top : Expected) (own_marks : ℕ) (q : Parser) : Type 0 where
  pub expected : expectation p ≡ top ∷ stack_of q.states
  pub bottom : HasBottom q.states
  pub marked : length q.marks ≡ own_marks + all_marks q.states
  pub no_tail : q.tail_comment ≡ []
  pub paid : 8 * length q.tokens + 1 + all_weights q.states ≤ potential p

-- What stands behind a token that was skipped.
abbrev pub IsPaid : Parser → Parser → Type 0
IsPaid p q = 8 * length q.tokens + 9 + all_weights q.states ≤ potential p

-- What `first` leaves of the marks: the mark of the collection is pushed with its first token.
abbrev pub own_marks_if : Bool → ℕ
own_marks_if true = 0
own_marks_if false = 1

module _ (k : Token → Action Event) (top : Expected)
    (body : (p q : Parser) (fs : List Fetched) (ss : List ParserState) (ms : List Mark)
      → IsOpen p top 1 (put q fs ss ms)
      → Step p ((peek >>= k) (put q fs ss ms))) where
  open_at :
      (first : Bool) (p q : Parser) (fs : List Fetched)
      → IsOpen p top (own_marks_if first) (record q { tokens = fs })
      → Step p ((open_collection first >>= k) (record q { tokens = fs }))
  open_at false p q fs v = body p q fs q.states q.marks v
  open_at true p q [] v = tt
  open_at true p q (f ∷ fs) v =
      let w = skipped f fs (peeked f (record q { tokens = f ∷ fs })) in
      body p w fs q.states (f.token.start_mark ∷ q.marks) (record {
        expected = v.expected;
        bottom = v.bottom;
        marked = omega (arith, v.marked);
        no_tail = v.no_tail;
        paid = omega (arith, v.paid);
      })

  pub open-Step :
      (first : Bool) (p : Parser)
      → IsOpen p top (own_marks_if first) p
      → Step p ((open_collection first >>= k) p)
  open-Step first p v = open_at first p p p.tokens v
