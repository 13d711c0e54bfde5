-- ===== src/Parser/Steps/PairStep.antt =====
-- The handlers of a pair in a flow sequence and of a value in a flow mapping, against the contract.
use yaml.Base.{List, [], ◌∷◌, arith, true, false}
use yaml.Parser.State.{Parser, Fetched}
use yaml.Types.{
  ParserState, Mark, flow_sequence_entry_mapping_key_state, flow_sequence_entry_mapping_value_state,
  flow_sequence_entry_mapping_end_state, flow_mapping_value_state, flow_mapping_empty_value_state,
  flow_mapping_key_state,
}
use yaml.Parser.Flow.{
  parse_flow_sequence_entry_mapping_key, parse_flow_sequence_entry_mapping_value,
  parse_flow_sequence_entry_mapping_end, parse_flow_mapping_value,
}
use yaml.Parser.Expect.{accept}
use yaml.Parser.Valid.{IsValid}
use yaml.Parser.Steps.HandlerStep.{in_state, Step, node-Step, peeked, pushed, skipped}

pub mapping_key_at :
    (p : Parser) (fs : List Fetched) (ss : List ParserState) (ms : List Mark)
    → IsValid (in_state flow_sequence_entry_mapping_key_state p fs ss ms)
    → Step (in_state flow_sequence_entry_mapping_key_state p fs ss ms) (
        parse_flow_sequence_entry_mapping_key
          (in_state flow_sequence_entry_mapping_key_state p fs ss ms))
unfolding parse_flow_sequence_entry_mapping_key accept
mapping_key_at p [] ss ms v = tt
mapping_key_at p (f ∷ fs) [] ms v = ground arith
mapping_key_at p (f ∷ fs) (s ∷ r) ms v =
    let q = in_state flow_sequence_entry_mapping_key_state p (f ∷ fs) (s ∷ r) ms in
    ground
      (arith, node-Step false false q (pushed flow_sequence_entry_mapping_value_state (peeked f q)))

pub mapping_value_at :
    (p : Parser) (fs : List Fetched) (ss : List ParserState) (ms : List Mark)
    → IsValid (in_state flow_sequence_entry_mapping_value_state p fs ss ms)
    → Step (in_state flow_sequence_entry_mapping_value_state p fs ss ms) (
        parse_flow_sequence_entry_mapping_value
          (in_state flow_sequence_entry_mapping_value_state p fs ss ms))
unfolding parse_flow_sequence_entry_mapping_value accept
mapping_value_at p [] ss ms v = tt
mapping_value_at p (f ∷ fs) [] ms v = ground arith
mapping_value_at p (f ∷ []) (s ∷ r) ms v = ground arith
mapping_value_at p (f ∷ g ∷ fs) (s ∷ r) ms v =
    let q = in_state flow_sequence_entry_mapping_value_state p (f ∷ g ∷ fs) (s ∷ r) ms in
    let w = peeked g (skipped f (g ∷ fs) (peeked f q)) in
    ground (arith, node-Step false false q (pushed flow_sequence_entry_mapping_end_state w))

pub mapping_end_at :
    (p : Parser) (fs : List Fetched) (ss : List ParserState) (ms : List Mark)
    → IsValid (in_state flow_sequence_entry_mapping_end_state p fs ss ms)
    → Step (in_state flow_sequence_entry_mapping_end_state p fs ss ms) (
        parse_flow_sequence_entry_mapping_end
          (in_state flow_sequence_entry_mapping_end_state p fs ss ms))
unfolding parse_flow_sequence_entry_mapping_end accept
mapping_end_at p [] ss ms v = tt
mapping_end_at p (f ∷ fs) [] ms v = ground arith
mapping_end_at p (f ∷ fs) (s ∷ r) ms v = ground arith

pub value_at :
    (p : Parser) (fs : List Fetched) (ss : List ParserState) (ms : List Mark)
    → IsValid (in_state flow_mapping_value_state p fs ss ms)
    → Step
        (in_state flow_mapping_value_state p fs ss ms)
        (parse_flow_mapping_value false (in_state flow_mapping_value_state p fs ss ms))
unfolding parse_flow_mapping_value accept
value_at p [] ss ms v = tt
value_at p (f ∷ fs) [] ms v = ground arith
value_at p (f ∷ []) (s ∷ r) ms v = ground arith
value_at p (f ∷ g ∷ fs) (s ∷ r) ms v =
    let q = in_state flow_mapping_value_state p (f ∷ g ∷ fs) (s ∷ r) ms in
    let w = peeked g (skipped f (g ∷ fs) (peeked f q)) in
    ground (arith, node-Step false false q (pushed flow_mapping_key_state w))

pub empty_value_at :
    (p : Parser) (fs : List Fetched) (ss : List ParserState) (ms : List Mark)
    → IsValid (in_state flow_mapping_empty_value_state p fs ss ms)
    → Step
        (in_state flow_mapping_empty_value_state p fs ss ms)
        (parse_flow_mapping_value true (in_state flow_mapping_empty_value_state p fs ss ms))
unfolding parse_flow_mapping_value accept
empty_value_at p [] ss ms v = tt
empty_value_at p (f ∷ fs) [] ms v = ground arith
empty_value_at p (f ∷ fs) (s ∷ r) ms v = ground arith
