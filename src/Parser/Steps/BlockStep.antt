-- ===== src/Parser/Steps/BlockStep.antt =====
-- The handlers of block collections, against the contract.
use yaml.Base.{List, [], ◌∷◌, arith, true, false, Bool}
use yaml.Parser.State.{Parser, Fetched, ◌>>=◌}
use yaml.Types.{
  ParserState, Mark, block_sequence_entry_state, ◌is◌, block_entry, indentless_sequence_entry_state,
  block_mapping_value_state, block_mapping_key_state,
}
use yaml.Parser.Expect.{accept, items, keys}
use yaml.Parser.Steps.HandlerStep.{
  IsOpen, put, Step, pushed, peeked, if-Step, node-Step, stem-Step, skipped, commented, IsPaid,
  own_marks_if, in_state, open-Step,
}
use yaml.Parser.Valid.{IsValid}
use yaml.Parser.Queue.{peek}
use yaml.Parser.Block.{
  block_sequence_entry_at, block_sequence_item, parse_block_sequence_entry,
  indentless_sequence_item, parse_indentless_sequence_entry, parse_block_mapping_key,
  parse_block_mapping_value, block_mapping_key_at,
}

block_sequence_item-Step :
    (p q : Parser) (fs : List Fetched) (ss : List ParserState) (ms : List Mark) (mark : Mark)
    → IsOpen p items 1 (put q fs ss ms)
    → IsPaid p (put q fs ss ms)
    → Step p (block_sequence_item mark (put q fs ss ms))
unfolding accept
block_sequence_item-Step p q [] ss ms mark v u = tt
block_sequence_item-Step p q (g ∷ fs) ss ms mark v u =
    let q' = pushed block_sequence_entry_state (peeked g (put q (g ∷ fs) ss ms)) in
    ground (arith, node-Step true false p q')

block_sequence_entry_at-Step :
    (p q : Parser) (fs : List Fetched) (ss : List ParserState) (ms : List Mark)
    → IsOpen p items 1 (put q fs ss ms)
    → Step p ((peek >>= block_sequence_entry_at) (put q fs ss ms))
unfolding accept
block_sequence_entry_at-Step p q [] ss ms v = tt
block_sequence_entry_at-Step p q (f ∷ fs) [] ms v = absurd v.bottom
block_sequence_entry_at-Step p q (f ∷ fs) (s ∷ r) [] v = absurd (omega (arith, v.marked))
block_sequence_entry_at-Step p q (f ∷ fs) (s ∷ r) (m ∷ ms) v =
    let w = peeked f (put q (f ∷ fs) (s ∷ r) (m ∷ ms)) in
    if-Step (f.token.typ is block_entry) _ _ p w
      (stem-Step _ (block_sequence_item f.token.end_mark) p (skipped f fs w) (λ cs h l ft st a e.
        block_sequence_item-Step p (commented (skipped f fs w) cs h l ft st a e) fs (s ∷ r) (m ∷ ms)
          f.token.end_mark
          (record {
            expected = v.expected;
            bottom = v.bottom;
            marked = v.marked;
            no_tail = v.no_tail;
            paid = omega arith;
          })
          (omega arith)))
      (ground arith)

pub block_sequence_entry-Step :
    (first : Bool) (p : Parser)
    → IsOpen p items (own_marks_if first) p
    → Step p (parse_block_sequence_entry first p)
unfolding parse_block_sequence_entry
block_sequence_entry-Step = open-Step block_sequence_entry_at items block_sequence_entry_at-Step

indentless_sequence_item-Step :
    (p q : Parser) (fs : List Fetched) (ss : List ParserState) (ms : List Mark) (mark : Mark)
    → IsOpen p items 0 (put q fs ss ms)
    → IsPaid p (put q fs ss ms)
    → Step p (indentless_sequence_item mark (put q fs ss ms))
unfolding accept
indentless_sequence_item-Step p q [] ss ms mark v u = tt
indentless_sequence_item-Step p q (g ∷ fs) ss ms mark v u =
    let q' = pushed indentless_sequence_entry_state (peeked g (put q (g ∷ fs) ss ms)) in
    ground (arith, node-Step true false p q')

indentless_sequence_entry_at-Step :
    (p q : Parser) (fs : List Fetched) (ss : List ParserState) (ms : List Mark)
    → IsOpen p items 0 (put q fs ss ms)
    → Step p (parse_indentless_sequence_entry (put q fs ss ms))
unfolding parse_indentless_sequence_entry accept
indentless_sequence_entry_at-Step p q [] ss ms v = tt
indentless_sequence_entry_at-Step p q (f ∷ fs) [] ms v = absurd v.bottom
indentless_sequence_entry_at-Step p q (f ∷ fs) (s ∷ r) ms v =
    let w = peeked f (put q (f ∷ fs) (s ∷ r) ms) in
    if-Step (f.token.typ is block_entry) _ _ p w
      (stem-Step _ (indentless_sequence_item f.token.end_mark) p (skipped f fs w)
        (λ cs h l ft st a e.
          indentless_sequence_item-Step p (commented (skipped f fs w) cs h l ft st a e) fs (s ∷ r)
            ms f.token.end_mark
            (record {
              expected = v.expected;
              bottom = v.bottom;
              marked = v.marked;
              no_tail = v.no_tail;
              paid = omega arith;
            })
            (omega arith)))
      (ground arith)

pub indentless_sequence_entry-Step :
    (p : Parser) → IsOpen p items 0 p → Step p (parse_indentless_sequence_entry p)
indentless_sequence_entry-Step p = indentless_sequence_entry_at-Step p p p.tokens p.states p.marks

block_mapping_key_at-Step :
    (p q : Parser) (fs : List Fetched) (ss : List ParserState) (ms : List Mark)
    → IsOpen p keys 1 (put q fs ss ms)
    → Step p ((peek >>= block_mapping_key_at) (put q fs ss ms))
unfolding accept
block_mapping_key_at-Step p q [] ss ms v = tt
block_mapping_key_at-Step p q (f ∷ fs) [] ms v = absurd v.bottom
block_mapping_key_at-Step p q (f ∷ fs) (s ∷ r) [] v = absurd (omega (arith, v.marked))
block_mapping_key_at-Step p q (f ∷ []) (s ∷ r) (m ∷ ms) v = rw (v.no_tail) (ground arith)
block_mapping_key_at-Step p q (f ∷ g ∷ fs) (s ∷ r) (m ∷ ms) v =
    let w = skipped f (g ∷ fs) (peeked f (put q (f ∷ g ∷ fs) (s ∷ r) (m ∷ ms))) in
    ground (arith, node-Step true true p (pushed block_mapping_value_state (peeked g w)))

pub block_mapping_key-Step :
    (first : Bool) (p : Parser)
    → IsOpen p keys (own_marks_if first) p
    → Step p (parse_block_mapping_key first p)
unfolding parse_block_mapping_key
block_mapping_key-Step = open-Step block_mapping_key_at keys block_mapping_key_at-Step

pub block_mapping_value_at :
    (p : Parser) (fs : List Fetched) (ss : List ParserState) (ms : List Mark)
    → IsValid (in_state block_mapping_value_state p fs ss ms)
    → Step
        (in_state block_mapping_value_state p fs ss ms)
        (parse_block_mapping_value (in_state block_mapping_value_state p fs ss ms))
unfolding parse_block_mapping_value accept
block_mapping_value_at p [] ss ms v = tt
block_mapping_value_at p (f ∷ fs) [] ms v = ground arith
block_mapping_value_at p (f ∷ []) (s ∷ r) ms v = ground arith
block_mapping_value_at p (f ∷ g ∷ fs) (s ∷ r) ms v =
    let q = in_state block_mapping_value_state p (f ∷ g ∷ fs) (s ∷ r) ms in
    let w = skipped f (g ∷ fs) (peeked f q) in
    ground (arith, node-Step true true q (pushed block_mapping_key_state (peeked g w)))
