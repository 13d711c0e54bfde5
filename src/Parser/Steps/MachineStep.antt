-- ===== src/Parser/Steps/MachineStep.antt =====
-- The calls of the state machine, state by state, against the contract.
use yaml.Base.{List, [], ◌∷◌, ℕ, refl, arith, Bool, true, false, ◌≡◌, ◌≤◌}
use yaml.Parser.State.{Parser}
use yaml.Types.{ParserState}
use yaml.Parser.Valid.{expects, IsValid, weight, marks_of, level, inner, IsNested, outer}
use yaml.Parser.Machine.{dispatch}
use yaml.Parser.Expect.{node, Expected, documents, items, keys}
use yaml.Parser.Steps.HandlerStep.{Step, node-Step, IsOpen}
use yaml.Parser.Steps.DocumentStep.{
  stream_start_at, document_start-Step, document_content_at, document_end_at, IsBetween,
}
use yaml.Parser.Node.{parse_node}
use yaml.Parser.Steps.BlockStep.{
  block_sequence_entry-Step, indentless_sequence_entry-Step, block_mapping_key-Step,
  block_mapping_value_at,
}
use yaml.Parser.Steps.FlowStep.{flow_sequence_entry-Step, flow_mapping_key-Step}
use yaml.Parser.Steps.PairStep.{
  mapping_key_at, mapping_value_at, mapping_end_at, value_at, empty_value_at,
}
use yaml.Parser.Steps.NodeStep.{HasBottom}

inner-HasBottom :
    (s : ParserState) (ss : List ParserState) → level s ≡ inner → IsNested s ss → HasBottom ss
inner-HasBottom s [] h n = absurd (ground (arith, h, n))
inner-HasBottom s (t ∷ r) h n = (n.1, n.2)

outer-empty : (s : ParserState) (ss : List ParserState) → level s ≡ outer → IsNested s ss → ss ≡ []
outer-empty s [] h n = refl
outer-empty s (t ∷ r) h n = absurd (ground (arith, h, n.0))

valid-IsOpen :
    (s : ParserState) (top : Expected) (n : ℕ) (p : Parser)
    → expects s ≡ top ∷ []
    → level s ≡ inner
    → marks_of s ≡ n
    → 1 ≤ weight s
    → IsValid (record p { state = s })
    → IsOpen (record p { state = s }) top n (record p { state = s })
valid-IsOpen s top n p e l m w v = record {
  expected = rw e refl;
  bottom = inner-HasBottom s p.states l v.nested;
  marked = ground arith;
  no_tail = v.no_tail;
  paid = omega arith;
}

valid-IsBetween :
    (s : ParserState) (p : Parser)
    → expects s ≡ documents ∷ []
    → level s ≡ outer
    → marks_of s ≡ 0
    → IsValid (record p { state = s })
    → IsBetween (record p { state = s }) (weight s)
valid-IsBetween s p e l m v =
    let none_below = outer-empty s p.states l v.nested in
    record {
      expected = rw (e, none_below) refl;
      empty = none_below;
      no_marks = ground arith;
      no_tail = v.no_tail;
      paid = omega arith;
    }

-- The node states that parserc.go never enters have handlers too.
node_state-Step :
    (b i : Bool) (s : ParserState) (p : Parser)
    → expects s ≡ node ∷ []
    → weight s ≡ 2
    → marks_of s ≡ 0
    → level s ≡ inner
    → IsValid (record p { state = s })
    → Step (record p { state = s }) (parse_node b i (record p { state = s }))
node_state-Step b i s p e w m l v =
    node-Step b i (record p { state = s }) (record p { state = s }) (rw e refl) (omega arith)
      (record {
        bottom = inner-HasBottom s p.states l v.nested;
        marked = ground arith;
        no_tail = v.no_tail;
      })

pub in_state-Step :
    (s : ParserState) (p : Parser)
    → (s ≡ ParserState.end_state → ⊥)
    → IsValid (record p { state = s })
    → Step (record p { state = s }) (dispatch s (record p { state = s }))
unfolding dispatch
in_state-Step ParserState.stream_start_state p h v = stream_start_at p p.tokens p.states p.marks v
in_state-Step ParserState.implicit_document_start_state p h v =
    document_start-Step true (record p { state = ParserState.implicit_document_start_state })
      (valid-IsBetween ParserState.implicit_document_start_state p refl refl refl v)
in_state-Step ParserState.document_start_state p h v =
    document_start-Step false (record p { state = ParserState.document_start_state })
      (valid-IsBetween ParserState.document_start_state p refl refl refl v)
in_state-Step ParserState.document_content_state p h v =
    document_content_at p p.tokens p.states p.marks v
in_state-Step ParserState.document_end_state p h v = document_end_at p p.tokens p.states p.marks v
in_state-Step ParserState.block_node_state p h v =
    node_state-Step true false ParserState.block_node_state p refl refl refl refl v
in_state-Step ParserState.block_node_or_indentless_sequence_state p h v =
    node_state-Step true true ParserState.block_node_or_indentless_sequence_state p refl refl refl
      refl v
in_state-Step ParserState.flow_node_state p h v =
    node_state-Step false false ParserState.flow_node_state p refl refl refl refl v
in_state-Step ParserState.block_sequence_first_entry_state p h v =
    block_sequence_entry-Step true
      (record p { state = ParserState.block_sequence_first_entry_state })
      (valid-IsOpen ParserState.block_sequence_first_entry_state items 0 p refl refl refl
        (omega arith) v)
in_state-Step ParserState.block_sequence_entry_state p h v =
    block_sequence_entry-Step false (record p { state = ParserState.block_sequence_entry_state })
      (valid-IsOpen ParserState.block_sequence_entry_state items 1 p refl refl refl (omega arith) v)
in_state-Step ParserState.indentless_sequence_entry_state p h v =
    indentless_sequence_entry-Step
      (record p { state = ParserState.indentless_sequence_entry_state })
      (valid-IsOpen ParserState.indentless_sequence_entry_state items 0 p refl refl refl
        (omega arith) v)
in_state-Step ParserState.block_mapping_first_key_state p h v =
    block_mapping_key-Step true (record p { state = ParserState.block_mapping_first_key_state })
      (valid-IsOpen ParserState.block_mapping_first_key_state keys 0 p refl refl refl (omega arith)
        v)
in_state-Step ParserState.block_mapping_key_state p h v =
    block_mapping_key-Step false (record p { state = ParserState.block_mapping_key_state })
      (valid-IsOpen ParserState.block_mapping_key_state keys 1 p refl refl refl (omega arith) v)
in_state-Step ParserState.block_mapping_value_state p h v =
    block_mapping_value_at p p.tokens p.states p.marks v
in_state-Step ParserState.flow_sequence_first_entry_state p h v =
    flow_sequence_entry-Step true (record p { state = ParserState.flow_sequence_first_entry_state })
      (valid-IsOpen ParserState.flow_sequence_first_entry_state items 0 p refl refl refl
        (omega arith) v)
in_state-Step ParserState.flow_sequence_entry_state p h v =
    flow_sequence_entry-Step false (record p { state = ParserState.flow_sequence_entry_state })
      (valid-IsOpen ParserState.flow_sequence_entry_state items 1 p refl refl refl (omega arith) v)
in_state-Step ParserState.flow_sequence_entry_mapping_key_state p h v =
    mapping_key_at p p.tokens p.states p.marks v
in_state-Step ParserState.flow_sequence_entry_mapping_value_state p h v =
    mapping_value_at p p.tokens p.states p.marks v
in_state-Step ParserState.flow_sequence_entry_mapping_end_state p h v =
    mapping_end_at p p.tokens p.states p.marks v
in_state-Step ParserState.flow_mapping_first_key_state p h v =
    flow_mapping_key-Step true (record p { state = ParserState.flow_mapping_first_key_state })
      (valid-IsOpen ParserState.flow_mapping_first_key_state keys 0 p refl refl refl (omega arith)
        v)
      (λ _. v.stocked)
in_state-Step ParserState.flow_mapping_key_state p h v =
    flow_mapping_key-Step false (record p { state = ParserState.flow_mapping_key_state })
      (valid-IsOpen ParserState.flow_mapping_key_state keys 1 p refl refl refl (omega arith) v)
      (λ e. cc)
in_state-Step ParserState.flow_mapping_value_state p h v = value_at p p.tokens p.states p.marks v
in_state-Step ParserState.flow_mapping_empty_value_state p h v =
    empty_value_at p p.tokens p.states p.marks v
in_state-Step ParserState.end_state p h v = absurd (h refl)
