-- ===== src/Parser/Steps/NodeStep.antt =====
-- `yaml_parser_parse_node` against the contract: how it begins a node.
use yaml.Base.{
  ◌+◌, ◌*◌, ◌≤◌, Bool, List, [], ◌∷◌, ◌≡◌, arith, length, Bytes, subst, sym, Bool-cases, true,
  false, inl, inr, refl,
}
use yaml.Types.{Token, Event, ParserState, ◌is◌, alias}
use yaml.Parser.State.{Fetched, Parser, Outcome, ok, fail, panic, Action, ◌>>=◌}
use yaml.Parser.Expect.{Begins}
use yaml.Parser.Valid.{
  stack_of, all_marks, all_weights, potential, needs_token, IsNested, IsValid, expectation,
}
use yaml.Parser.Node.{Properties, parse_content, parse_properties, resolve_tag, parse_node}
use yaml.Parser.Comments.{unfold_comments}
use yaml.Parser.Queue.{receive}

abbrev pub HasBottom : List ParserState → Type 0
HasBottom [] = ⊥
HasBottom (s ∷ r) = (needs_token s ≡ 0) × IsNested s r

-- The parser stands before a node; `states` says what comes behind it.
pub record IsReady (p : Parser) : Type 0 where
  pub bottom : HasBottom p.states
  pub marked : length p.marks ≡ all_marks p.states
  pub no_tail : p.tail_comment ≡ []

abbrev pub NodeStep : Parser → Outcome Event → Type 0
NodeStep p (ok e q) =
    Begins e.typ (stack_of p.states) (expectation q)
    × IsValid q
    × (potential q ≤ 8 * length p.tokens + all_weights p.states + 1)
NodeStep p (fail q) = Unit
NodeStep p panic = ⊥

-- The parser with its two lists written out; at `p.tokens` and `p.states` it is `p`.
abbrev pub at : Parser → List Fetched → List ParserState → Parser
at p fs ss = record p { tokens = fs; states = ss }

parse_content-at :
    (block indentless : Bool) (props : Properties) (tag : Bytes) (t : Token) (p : Parser)
    (fs : List Fetched) (ss : List ParserState)
    → 1 ≤ length fs
    → IsReady (at p fs ss)
    → NodeStep (at p fs ss) (parse_content block indentless props tag t (at p fs ss))
unfolding parse_content
parse_content-at block indentless props tag t p [] ss h v = absurd (omega arith)
parse_content-at block indentless props tag t p (f ∷ fs) [] h v = absurd v.bottom
parse_content-at block indentless props tag t p (f ∷ fs) (s ∷ r) h v = ground arith

-- What a step does not touch that only reads tokens, and leaves one.
pub record Kept (p q : Parser) : Type 0 where
  pub same_state : q.state ≡ p.state
  pub same_states : q.states ≡ p.states
  pub same_marks : q.marks ≡ p.marks
  pub same_tail : q.tail_comment ≡ p.tail_comment
  pub fewer : length q.tokens ≤ length p.tokens
  pub one_left : 1 ≤ length q.tokens

abbrev pub Keeps {ℓ} : {A : Type ℓ} → Parser → Outcome A → Type 0
Keeps p (ok a q) = Kept p q
Keeps p (fail q) = Unit
Keeps p panic = ⊥

Kept-IsReady : (p q : Parser) → Kept p q → IsReady p → IsReady q
Kept-IsReady p q k v = record {
  bottom = subst HasBottom (sym k.same_states) v.bottom;
  marked = ground arith;
  no_tail = ground arith;
}

NodeStep-Kept : (p q : Parser) (o : Outcome Event) → Kept p q → NodeStep q o → NodeStep p o
NodeStep-Kept p q (ok e r) k (b, v, h) =
    (subst (λ s. Begins e.typ (stack_of s) (expectation r)) k.same_states b, v, ground arith)
NodeStep-Kept p q (fail r) k h = tt
NodeStep-Kept p q panic k h = h

-- The rule for `>>=` behind an action that keeps the stacks.
bind-NodeStep {ℓ} :
    {A : Type ℓ} (p : Parser) (o : Outcome A) (k : A → Action Event)
    → Keeps p o
    → ((a : A) (q : Parser) → Kept p q → NodeStep q (k a q))
    → NodeStep p (((λ _. o) >>= k) p)
bind-NodeStep p (ok a q) k h next = NodeStep-Kept p q (k a q) h (next a q h)
bind-NodeStep p (fail q) k h next = tt
bind-NodeStep p panic k h next = h

parse_properties-at :
    (t : Token) (p : Parser) (fs : List Fetched)
    → 1 ≤ length fs
    → Keeps (record p { tokens = fs }) (parse_properties t (record p { tokens = fs }))
unfolding parse_properties
parse_properties-at t p [] h = absurd (omega arith)
parse_properties-at t p (f ∷ []) h = ground arith
parse_properties-at t p (f ∷ g ∷ []) h = ground arith
parse_properties-at t p (f ∷ g ∷ i ∷ fs) h = ground arith

resolve_tag-Keeps :
    (props : Properties) (p : Parser) → 1 ≤ length p.tokens → Keeps p (resolve_tag props p)
unfolding resolve_tag
resolve_tag-Keeps props p h = ground arith

-- An alias.
alias-at :
    (p : Parser) (f : Fetched) (fs : List Fetched) (ss : List ParserState)
    → IsReady (at p (f ∷ fs) ss)
    → f.token.typ is alias ≡ true
    → (block indentless : Bool)
    → NodeStep (at p (f ∷ fs) ss) (parse_node block indentless (at p (f ∷ fs) ss))
unfolding parse_node
alias-at p f fs [] v h block indentless = absurd v.bottom
alias-at p f fs (s ∷ r) v h block indentless = rw h (ground arith)

content-at :
    (block indentless : Bool) (props : Properties) (tag : Bytes) (t : Token) (p q : Parser)
    → IsReady p
    → Kept p q
    → NodeStep q (parse_content block indentless props tag t q)
content-at block indentless props tag t p q v k =
    parse_content-at block indentless props tag t q q.tokens q.states k.one_left
      (Kept-IsReady p q k v)

-- `peek_token` keeps the stacks too.
pub peek-Kept :
    (p : Parser) (f : Fetched) (fs : List Fetched)
    → Kept
        (record p { tokens = f ∷ fs })
        (unfold_comments f.token (receive f (record p { tokens = f ∷ fs })))
peek-Kept p f fs = record {
  same_state = refl;
  same_states = refl;
  same_marks = refl;
  same_tail = refl;
  fewer = omega arith;
  one_left = omega arith;
}

after_properties :
    (block indentless : Bool) (p q : Parser) (a : Properties × Token)
    → IsReady p
    → Kept p q
    → NodeStep q ((resolve_tag a.0 >>= λ x. parse_content block indentless a.0 x a.1) q)
after_properties block indentless p q (props, u) v k =
    bind-NodeStep q (resolve_tag props q) (λ x. parse_content block indentless props x u)
      (resolve_tag-Keeps props q k.one_left)
      (λ x r k'. content-at block indentless props x u q r (Kept-IsReady p q k v) k')

node-at :
    (p : Parser) (f : Fetched) (fs : List Fetched)
    → IsReady (record p { tokens = f ∷ fs })
    → f.token.typ is alias ≡ false
    → (block indentless : Bool)
    → NodeStep
        (record p { tokens = f ∷ fs })
        (parse_node block indentless (record p { tokens = f ∷ fs }))
unfolding parse_node
node-at p f fs v h block indentless =
    let before = record p { tokens = f ∷ fs } in
    let q = unfold_comments f.token (receive f before) in
    let ready = Kept-IsReady before q (peek-Kept p f fs) v in
    rw h (
      NodeStep-Kept before q _ (peek-Kept p f fs) (
        bind-NodeStep q (parse_properties f.token q)
          (λ a. resolve_tag a.0 >>= λ x. parse_content block indentless a.0 x a.1)
          (parse_properties-at f.token q (f ∷ fs) (omega arith))
          (λ a r k. after_properties block indentless q r a ready k)))

node_at_tokens :
    (block indentless : Bool) (p : Parser) (fs : List Fetched)
    → IsReady (record p { tokens = fs })
    → NodeStep (record p { tokens = fs }) (parse_node block indentless (record p { tokens = fs }))
unfolding parse_node
node_at_tokens block indentless p [] w = tt
node_at_tokens block indentless p (f ∷ fs) w = elim (Bool-cases (f.token.typ is alias)) [
  | inl h ↦ alias-at p f fs p.states w h block indentless
  | inr h ↦ node-at p f fs w h block indentless
]

-- A call at a node position yields an event that begins a node, keeps the invariant, and bounds what
-- it adds to the measure; it does not panic.
pub parse_node-NodeStep :
    (block indentless : Bool) (p : Parser) → IsReady p → NodeStep p (parse_node block indentless p)
parse_node-NodeStep block indentless p = node_at_tokens block indentless p p.tokens
