-- ===== src/Parser/Steps/FlowStep.antt =====
-- The handlers of flow collections, against the contract.
use yaml.Base.{List, [], ◌∷◌, refl, arith, Bool, true, false, not, ◌≡◌, ◌≤◌, length}
use yaml.Parser.State.{Parser, Fetched, ◌>>=◌}
use yaml.Types.{
  ParserState, Mark, flow_sequence_entry_state, flow_mapping_empty_value_state,
  flow_mapping_value_state, ◌is◌, flow_mapping_end, flow_entry,
}
use yaml.Parser.Expect.{accept, items, keys}
use yaml.Parser.Steps.HandlerStep.{
  IsOpen, put, IsPaid, Step, peeked, skipped, node-Step, pushed, if-Step, own_marks_if,
}
use yaml.Parser.Queue.{peek}
use yaml.Parser.Flow.{
  flow_sequence_entry_at, flow_mapping_key_at, flow_mapping_item, parse_flow_sequence_entry,
  parse_flow_mapping_key, flow_mapping_ends,
}

-- At the first entry the opening token is paid for.
flow_sequence_first :
    (p q : Parser) (fs : List Fetched) (ss : List ParserState) (ms : List Mark)
    → IsOpen p items 1 (put q fs ss ms)
    → IsPaid p (put q fs ss ms)
    → Step p ((peek >>= flow_sequence_entry_at true) (put q fs ss ms))
unfolding accept
flow_sequence_first p q [] ss ms v u = tt
flow_sequence_first p q (f ∷ fs) [] ms v u = absurd v.bottom
flow_sequence_first p q (f ∷ fs) (s ∷ r) [] v u = absurd (omega (arith, v.marked))
flow_sequence_first p q (f ∷ fs) (s ∷ r) (m ∷ ms) v u =
    let w = peeked f (put q (f ∷ fs) (s ∷ r) (m ∷ ms)) in
    ground (arith, node-Step false false p (pushed flow_sequence_entry_state w))

flow_sequence_next :
    (p q : Parser) (fs : List Fetched) (ss : List ParserState) (ms : List Mark)
    → IsOpen p items 1 (put q fs ss ms)
    → Step p ((peek >>= flow_sequence_entry_at false) (put q fs ss ms))
unfolding accept
flow_sequence_next p q [] ss ms v = tt
flow_sequence_next p q (f ∷ fs) [] ms v = absurd v.bottom
flow_sequence_next p q (f ∷ fs) (s ∷ r) [] v = absurd (omega (arith, v.marked))
flow_sequence_next p q (f ∷ []) (s ∷ r) (m ∷ ms) v = ground arith
flow_sequence_next p q (f ∷ g ∷ fs) (s ∷ r) (m ∷ ms) v =
    let w = skipped f (g ∷ fs) (peeked f (put q (f ∷ g ∷ fs) (s ∷ r) (m ∷ ms))) in
    ground (arith, node-Step false false p (pushed flow_sequence_entry_state (peeked g w)))

-- An entry of a mapping, at a token that is behind one that was skipped.
flow_mapping_item-Step :
    (p q : Parser) (f : Fetched) (fs : List Fetched) (s : ParserState) (r : List ParserState)
    (m : Mark) (ms : List Mark)
    → IsOpen p keys 1 (put q (f ∷ fs) (s ∷ r) (m ∷ ms))
    → IsPaid p (put q (f ∷ fs) (s ∷ r) (m ∷ ms))
    → Step p (flow_mapping_item f.token (peeked f (put q (f ∷ fs) (s ∷ r) (m ∷ ms))))
unfolding accept
flow_mapping_item-Step p q f [] s r m ms v u =
    let w = peeked f (put q (f ∷ []) (s ∷ r) (m ∷ ms)) in
    ground (arith, node-Step false false p (pushed flow_mapping_empty_value_state w))
flow_mapping_item-Step p q f (g ∷ fs) s r m ms v u =
    let w = peeked f (put q (f ∷ g ∷ fs) (s ∷ r) (m ∷ ms)) in
    ground (
      arith,
      node-Step false false p (pushed flow_mapping_empty_value_state w),
      node-Step false false p (pushed flow_mapping_value_state (peeked g (skipped f (g ∷ fs) w))),
    )

flow_mapping_first :
    (p q : Parser) (fs : List Fetched) (ss : List ParserState) (ms : List Mark)
    → IsOpen p keys 1 (put q fs ss ms)
    → IsPaid p (put q fs ss ms)
    → Step p ((peek >>= flow_mapping_key_at true) (put q fs ss ms))
unfolding accept
flow_mapping_first p q [] ss ms v u = tt
flow_mapping_first p q (f ∷ fs) [] ms v u = absurd v.bottom
flow_mapping_first p q (f ∷ fs) (s ∷ r) [] v u = absurd (omega (arith, v.marked))
flow_mapping_first p q (f ∷ fs) (s ∷ r) (m ∷ ms) v u =
    if-Step (not (f.token.typ is flow_mapping_end)) (flow_mapping_item f.token)
      (flow_mapping_ends f.token) p (peeked f (put q (f ∷ fs) (s ∷ r) (m ∷ ms)))
      (flow_mapping_item-Step p q f fs s r m ms v u) (ground arith)

flow_mapping_next :
    (p q : Parser) (fs : List Fetched) (ss : List ParserState) (ms : List Mark)
    → IsOpen p keys 1 (put q fs ss ms)
    → Step p ((peek >>= flow_mapping_key_at false) (put q fs ss ms))
unfolding accept
flow_mapping_next p q [] ss ms v = tt
flow_mapping_next p q (f ∷ fs) [] ms v = absurd v.bottom
flow_mapping_next p q (f ∷ fs) (s ∷ r) [] v = absurd (omega (arith, v.marked))
flow_mapping_next p q (f ∷ []) (s ∷ r) (m ∷ ms) v = ground arith
flow_mapping_next p q (f ∷ g ∷ fs) (s ∷ r) (m ∷ ms) v =
    let w = peeked f (put q (f ∷ g ∷ fs) (s ∷ r) (m ∷ ms)) in
    if-Step (not (f.token.typ is flow_mapping_end)) _ (flow_mapping_ends f.token) p w
      (if-Step (f.token.typ is flow_entry) _ _ p w
        (flow_mapping_item-Step p (skipped f (g ∷ fs) w) g fs s r m ms
          (record {
            expected = v.expected;
            bottom = v.bottom;
            marked = v.marked;
            no_tail = v.no_tail;
            paid = omega (arith, v.paid);
          })
          (omega (arith, v.paid)))
        tt)
      (ground arith)

flow_sequence_entry_at_tokens :
    (first : Bool) (p : Parser) (fs : List Fetched)
    → IsOpen p items (own_marks_if first) (record p { tokens = fs })
    → Step p (parse_flow_sequence_entry first (record p { tokens = fs }))
unfolding parse_flow_sequence_entry
flow_sequence_entry_at_tokens false p fs v = flow_sequence_next p p fs p.states p.marks v
flow_sequence_entry_at_tokens true p [] v = tt
flow_sequence_entry_at_tokens true p (f ∷ fs) v =
    let w = skipped f fs (peeked f (record p { tokens = f ∷ fs })) in
    flow_sequence_first p w fs p.states (f.token.start_mark ∷ p.marks)
      (record {
        expected = v.expected;
        bottom = v.bottom;
        marked = omega (arith, v.marked);
        no_tail = v.no_tail;
        paid = omega (arith, v.paid);
      })
      (omega (arith, v.paid))

pub flow_sequence_entry-Step :
    (first : Bool) (p : Parser)
    → IsOpen p items (own_marks_if first) p
    → Step p (parse_flow_sequence_entry first p)
flow_sequence_entry-Step first p v = flow_sequence_entry_at_tokens first p p.tokens v

flow_mapping_key_at_tokens :
    (first : Bool) (p : Parser) (fs : List Fetched)
    → IsOpen p keys (own_marks_if first) (record p { tokens = fs })
    → (first ≡ true → 1 ≤ length fs)
    → Step p (parse_flow_mapping_key first (record p { tokens = fs }))
unfolding parse_flow_mapping_key
flow_mapping_key_at_tokens false p fs v h = flow_mapping_next p p fs p.states p.marks v
flow_mapping_key_at_tokens true p [] v h = absurd (omega (arith, h refl))
flow_mapping_key_at_tokens true p (f ∷ fs) v h =
    let w = skipped f fs (peeked f (record p { tokens = f ∷ fs })) in
    flow_mapping_first p w fs p.states (f.token.start_mark ∷ p.marks)
      (record {
        expected = v.expected;
        bottom = v.bottom;
        marked = omega (arith, v.marked);
        no_tail = v.no_tail;
        paid = omega (arith, v.paid);
      })
      (omega (arith, v.paid))

-- The token that opens the mapping is still there at the first key.
pub flow_mapping_key-Step :
    (first : Bool) (p : Parser)
    → IsOpen p keys (own_marks_if first) p
    → (first ≡ true → 1 ≤ length p.tokens)
    → Step p (parse_flow_mapping_key first p)
flow_mapping_key-Step first p v h = flow_mapping_key_at_tokens first p p.tokens v h
