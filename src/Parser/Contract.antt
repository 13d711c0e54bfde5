-- ===== src/Parser/Contract.antt =====
-- The contract of `yaml_parser_parse` with its callers.
use yaml.Base.{
  List, [], ◌∷◌, ℕ, refl, arith, true, false, ◌≡◌, ◌≢◌, ◌*◌, Bool-cases, some, length, ◌<◌, inl,
  suc, ◌+◌, inr, zero, ◌⊎◌,
}
use yaml.Parser.State.{Parser, Fetched, Outcome, ok, fail, panic, initial}
use yaml.Parser.Machine.{
  Run, done, failed, panicked, out_of_fuel, is_over, parse, run, after, is_no_error, is_end_state,
}
use yaml.Types.{ErrorType, Event, ParserState, empty_event}
use yaml.Parser.Valid.{IsValid, potential, expectation, IsNested, stack_of}
use yaml.Parser.Expect.{Stack, accept_all, accept, is_tail_comment, stream}
use yaml.Parser.Steps.HandlerStep.{Step}
use yaml.Parser.Steps.MachineStep.{in_state-Step}

pub initial-IsValid : (fs : List Fetched) (e : ErrorType) → IsValid (initial fs e)
initial-IsValid fs e = ground arith

not_over-not_end : (p : Parser) → is_over p ≡ false → p.state ≡ ParserState.end_state → ⊥
not_over-not_end p h e = ground (arith, h, e)

parse-Step : (p : Parser) → IsValid p → is_over p ≡ false → Step p (parse p)
unfolding parse
parse-Step p v h = rw h (in_state-Step p.state p (not_over-not_end p h) v)

-- Over, `yaml_parser_parse` gives the empty event and changes nothing.
parse_over : (p : Parser) → is_over p ≡ true → parse p ≡ ok empty_event p
unfolding parse
parse_over p h = rw h refl

-- A call of `yaml_parser_parse` on a parser in a valid state that is not over yields, if it succeeds,
-- an event that is expected there; the new state expects what the grammar of events says, and is
-- valid again.
pub parse-accept :
    (p q : Parser) (e : Event)
    → IsValid p
    → is_over p ≡ false
    → parse p ≡ ok e q
    → (accept e.typ (expectation p) ≡ some (expectation q)) × IsValid q
parse-accept p q e v h r = let (a, n, w, m) = rw r at (parse-Step p v h) in (a, w)

-- A call of `yaml_parser_parse` on a parser in a valid state never panics: no stack is popped when
-- it is empty, and no nil token is read.
pub parse-ne-panic : (p : Parser) → IsValid p → parse p ≢ panic
parse-ne-panic p v r = elim (Bool-cases (is_over p)) [
  | inl h ↦ cc (parse_over p h)
  | inr h ↦ rw r at (parse-Step p v h)
]

-- A parser in a valid state holds no tail comment, so that no event of a step is a TAIL-COMMENT.
pub parse-not_tail_comment :
    (p q : Parser) (e : Event)
    → IsValid p
    → is_over p ≡ false
    → parse p ≡ ok e q
    → is_tail_comment e.typ ≡ false
parse-not_tail_comment p q e v h r = let (a, n, w, m) = rw r at (parse-Step p v h) in n

-- Why the loop of a caller ends: an error is set, the STREAM-END token is consumed, or nothing more
-- is expected.
abbrev pub IsEnded : Parser → Type 0
IsEnded p = (is_no_error p.error ≡ false) ⊎ (p.stream_end_produced ≡ true) ⊎ (expectation p ≡ [])

-- A parser in the last state has no states on its stack.
end-expectation :
    (s : ParserState) (ss : List ParserState)
    → s ≡ ParserState.end_state
    → IsNested s ss
    → stack_of (s ∷ ss) ≡ []
end-expectation s [] e n = rw e refl
end-expectation s (t ∷ r) e n = absurd (ground (arith, e, n.0))

end_state_lem : (s : ParserState) → is_end_state s ≡ true → s ≡ ParserState.end_state
end_state_lem ParserState.end_state h = refl
end_state_lem _ h = cc h

over-IsEnded : (p : Parser) → IsValid p → is_over p ≡ true → IsEnded p
over-IsEnded p v h = elim (Bool-cases p.stream_end_produced) [
  | inl a ↦ inr (inl a)
  | inr a ↦ elim (Bool-cases (is_no_error p.error)) [
    | inr b ↦ inl b
    | inl b ↦
        let c : is_end_state p.state ≡ true = rw (a, b) at h in
        inr (inr (end-expectation p.state p.states (end_state_lem p.state c) v.nested))
  ]
]

-- What a caller's loop may come to: all the events are expected, one after the other, up to what the
-- last parser expects, and that parser is at an end; or those before an error are expected.
abbrev pub IsAccepted : Stack → Run → Type 0
IsAccepted s (done es q) = (accept_all es s ≡ some (expectation q)) × IsEnded q
IsAccepted s (failed es q) = (t : Stack) × (accept_all es s ≡ some t)
IsAccepted s (panicked es) = ⊥
IsAccepted s out_of_fuel = ⊥

after-IsAccepted :
    (e : Event) (s t : Stack) (r : Run)
    → accept e.typ s ≡ some t
    → IsAccepted t r
    → IsAccepted s (after e r)
unfolding accept_all
after-IsAccepted e s t (done es q) a (h, x) = (rw (a, accept_all) h, x)
after-IsAccepted e s t (failed es q) a (u, h) = (u, rw (a, accept_all) h)
after-IsAccepted e s t (panicked es) a h = h
after-IsAccepted e s t out_of_fuel a h = h

run_from-IsAccepted :
    (n : ℕ) (p : Parser) → IsValid p → potential p < n → IsAccepted (expectation p) (run n p)
unfolding run accept_all
run_from-IsAccepted zero p v h = absurd (omega arith)
run_from-IsAccepted (suc n) p v h = elim (Bool-cases (is_over p)) [
  | inl o ↦ rw (o, run) (refl, over-IsEnded p v o)
  | inr o ↦ rw (o, run) (by_outcome (run_from-IsAccepted n) (parse p) (parse-Step p v o))
]
  where
    by_outcome :
        ((q : Parser) → IsValid q → potential q < n → IsAccepted (expectation q) (run n q))
        → (o : Outcome Event) → Step p o
        → IsAccepted
            (expectation p)
            (elim o [ ok e q ↦ after e (run n q) | fail q ↦ failed [] q | panic ↦ panicked [] ])
    by_outcome next (ok e q) (a, t, w, m) =
        after-IsAccepted e (expectation p) (expectation q) (run n q) a (next q w (omega arith))
    by_outcome next (fail q) s = (expectation p, refl)
    by_outcome next panic s = s

-- Reading events from a new parser, over any tokens and with more than `8 * tokens + 1` calls, ends,
-- and never with a panic. Either a call fails, and every event before it is one that the grammar of
-- event streams expects at its place; or the loop is over, every event is expected at its place, and
-- the last parser has an error, has consumed the STREAM-END token, or expects nothing more.
pub run-IsAccepted :
    (fs : List Fetched) (e : ErrorType) (n : ℕ)
    → 8 * length fs + 1 < n
    → IsAccepted (stream ∷ []) (run n (initial fs e))
run-IsAccepted fs e n h = run_from-IsAccepted n (initial fs e) (initial-IsValid fs e) (omega arith)
