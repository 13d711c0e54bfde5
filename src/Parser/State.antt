-- ===== src/Parser/State.antt =====
-- `yaml_parser_t` (yamlh.go), the part that parserc.go uses, and the actions on it.
use yaml.Base.{ℕ, Bool, false, List, [], ◌∷◌, String, Bytes}
use yaml.Types.{
  ErrorType, no_error, parser_error, Mark, no_mark, Token, TagDirective, ParserState,
  stream_start_state,
}

-- `yaml_comment_t`: the fields that the parser reads
pub record Comment : Type 0 where
  pub token_mark : Mark
  pub head : Bytes
  pub line : Bytes
  pub foot : Bytes

-- What one successful call of `yaml_parser_fetch_more_tokens` makes available: the token at the
-- head of the queue, and the comments that the scanner has added to its queue meanwhile.
pub record Fetched : Type 0 where
  pub token : Token
  pub comments : List Comment

pub record Parser : Type 0 where
  pub error : ErrorType
  pub problem : String
  pub problem_mark : Mark
  pub context : String
  pub context_mark : Mark
  -- the tokens that are not skipped yet, up to the place where the scanner fails
  pub tokens : List Fetched
  -- the error that the scanner sets there
  pub fetch_error : ErrorType
  pub token_available : Bool
  pub tokens_parsed : ℕ
  pub stream_end_produced : Bool
  pub comments : List Comment
  pub head_comment : Bytes
  pub line_comment : Bytes
  pub foot_comment : Bytes
  pub tail_comment : Bytes
  pub stem_comment : Bytes
  pub state : ParserState
  -- the stacks, their top first
  pub states : List ParserState
  pub marks : List Mark
  pub tag_directives : List TagDirective

-- A parser after `yaml_parser_initialize`, before a scanner that will give `fs`.
abbrev pub initial : List Fetched → ErrorType → Parser
initial fs e = record {
  error = no_error;
  problem = "";
  problem_mark = no_mark;
  context = "";
  context_mark = no_mark;
  tokens = fs;
  fetch_error = e;
  token_available = false;
  tokens_parsed = 0;
  stream_end_produced = false;
  comments = [];
  head_comment = [];
  line_comment = [];
  foot_comment = [];
  tail_comment = [];
  stem_comment = [];
  state = stream_start_state;
  states = [];
  marks = [];
  tag_directives = [];
}

-- A function of parserc.go returns true, returns false with `error` set, or panics (an index out of
-- range on an empty stack, a nil token, a state with no handler).
pub data Outcome {ℓ} (A : Type ℓ) : Type ℓ where
  ok : A → Parser → Outcome A
  fail : Parser → Outcome A
  panic : Outcome A

abbrev pub Action {ℓ} : Type ℓ → Type ℓ
Action A = Parser → Outcome A

infixl 5 ◌>>=◌ ◌>>◌
abbrev pub ◌>>=◌ {ℓ κ} : {A : Type ℓ} {B : Type κ} → Action A → (A → Action B) → Action B
◌>>=◌ m f p = elim (m p) [ ok a q ↦ f a q | fail q ↦ fail q | panic ↦ panic ]

abbrev pub ◌>>◌ {κ} : {B : Type κ} → Action (Unit {0}) → Action B → Action B
m >> k = m >>= λ _. k

abbrev pub return {ℓ} : {A : Type ℓ} → A → Action A
return a p = ok a p

abbrev pub modify : (Parser → Parser) → Action (Unit {0})
modify f p = ok tt (f p)

abbrev pub gets {ℓ} : {A : Type ℓ} → (Parser → A) → Action A
gets f p = ok (f p) p

abbrev pub set_state : ParserState → Action (Unit {0})
set_state s = modify (λ p. record p { state = s })

-- `parser.states = append(parser.states, s)`
abbrev pub push_state : ParserState → Action (Unit {0})
push_state s = modify (λ p. record p { states = s ∷ p.states })

-- The top of the states stack becomes the state.
abbrev pub pop_state : Action (Unit {0})
pop_state p = elim p.states [ [] ↦ panic | s ∷ r ↦ ok tt (record p { state = s; states = r }) ]

abbrev pub push_mark : Mark → Action (Unit {0})
push_mark m = modify (λ p. record p { marks = m ∷ p.marks })

abbrev pub pop_mark : Action Mark
pop_mark p = elim p.marks [ [] ↦ panic | m ∷ r ↦ ok m (record p { marks = r }) ]

-- `yaml_parser_set_parser_error`
abbrev pub set_parser_error {ℓ} : {A : Type ℓ} → String → Mark → Action A
set_parser_error problem mark p =
    fail (record p { error = parser_error; problem = problem; problem_mark = mark })

-- `yaml_parser_set_parser_error_context`
abbrev pub set_parser_error_context {ℓ} : {A : Type ℓ} → String → Mark → String → Mark → Action A
set_parser_error_context context context_mark problem mark p = fail (record p {
  error = parser_error;
  context = context;
  context_mark = context_mark;
  problem = problem;
  problem_mark = mark;
})
