-- ===== src/Compose/Composer.antt =====
-- decode.go's `parser`: from `anchor` to `mapping` and `unwritten`. The methods that recur take the
-- fuel of their loop and the method `parse` with less fuel.
use yaml.Base.{
  ℕ, zero, suc, ◌+◌, Bool, true, false, List, [], ◌∷◌, Bytes, Option, none, some, codes,
  if◌then◌else◌, not, is_empty, equal,
}
use yaml.Compose.State.{
  tree, no_trees, and_tree, ◌>>=◌, ◌>>◌, return, modify, gets, nil_child, ◌is_event◌,
  unknown_anchor,
}
use yaml.Origin.Nodes.{is_scalar_kind, alias_node, sequence_node, mapping_node, document_node}
use yaml.Resolve.Scalar.{Library, resolve, resolved, cannot_decode, no_handler}
use yaml.Compose.State.{
  Quoting, Tree, Fields, expect, Composing, peek, init, composed, Style, unquoted, out_of_fuel,
  thrown, undecodable, panics,
}
use yaml.Origin.Nodes.{Kind, scalar_node, no_place}
use yaml.Types.{
  EventType, scalar_event, sequence_end_event, tail_comment_event, mapping_end_event,
  document_start_event, alias_event, flow_style, document_end_event, mapping_start_event,
  sequence_start_event, stream_end_event,
}
use yaml.Resolve.Tags.{merge_tag, short_tag, str_tag, map_entry, seq_tag, map_tag}
use yaml.Compose.Fields.{
  is_given, is_unquoted, quoting_of, set_anchor, give_foot, move_foot_back, has_flag, move_foot_up,
  sequence_end, move_foot_in, onto, mapping_end,
}

module _ (lib : Library) where
  -- The tag of a node without one: the default, or for a scalar the one that is resolved.
  abbrev pub implied_tag : Kind → Bytes → Bytes → Bytes → Composing Bytes
  implied_tag kind default tag value c =
      if not (is_empty default)
      then composed default c
      else if is_scalar_kind kind
      then elim (resolve lib [] value c.disable_timestamps) [
        | resolved t v ↦ composed t c
        | cannot_decode t s u ↦ thrown (undecodable t s u)
        | no_handler ↦ panics
      ]
      else composed tag c

  -- The `Node` literal, and what is set of it with text.
  abbrev pub new_node : Kind → Style → Bytes → Bytes → Composing Fields
  new_node kind style tag value c =
      let e = c.event in
      let bare : Fields = record {
        kind = kind;
        style = style;
        tag = tag;
        value = value;
        anchor = [];
        alias = none;
        head_comment = [];
        line_comment = [];
        foot_comment = [];
        place = no_place;
        address = c.made;
      } in
      let full : Fields = record bare {
        head_comment = e.head_comment;
        line_comment = e.line_comment;
        foot_comment = e.foot_comment;
        place = record {
          line = e.start_mark.line + 1;
          column = e.start_mark.column + 1;
          end_line = e.end_mark.line + 1;
          end_column = e.end_mark.column + 1;
        };
      } in
      composed (if c.textless then bare else full) (record c { made = c.made + 1 })

  -- `node`
  unfoldable pub node : Kind → Bytes → Bytes → Bytes → Composing Fields
  node kind default tag value =
      if is_given tag
      then new_node kind (record { tagged = true; quoting = unquoted; flow = false })
          (short_tag tag) value
      else (do
        t ← implied_tag kind default tag value
        new_node kind (record { tagged = false; quoting = unquoted; flow = false }) t value)

  -- The node that an anchor names, by its address.
  abbrev pub anchor_address : Bytes → Composing ℕ
  anchor_address name c = elim (map_entry name c.anchors) [
    | some a ↦ composed a c
    | none ↦ thrown (unknown_anchor name)
  ]

  -- `alias`
  unfoldable pub alias : Composing Tree
  alias = do
    name ← gets (λ c. c.event.anchor)
    f ← node alias_node [] [] name
    a ← anchor_address name
    expect alias_event
    return (tree (record f { alias = some a }) no_trees)

  -- The default tag of a scalar.
  abbrev pub default_tag : Quoting → Bytes → Bytes
  default_tag q value =
      if is_unquoted q then if equal value (codes "<<") then merge_tag else [] else str_tag

  -- `scalar`
  unfoldable pub scalar : Composing Tree
  scalar = do
    e ← gets (λ c. c.event)
    let quoting : Quoting = quoting_of e.style
    f ← node scalar_node (default_tag quoting e.value) e.tag e.value
    g ← set_anchor (record f { style = record f.style { quoting = quoting } }) e.anchor
    expect scalar_event
    return (tree g no_trees)

  -- A child that is nil has no node to add.
  abbrev pub added : Option Tree → Composing Tree
  added (some t) c = composed t c
  added none c = nil_child

  -- `parseChild`
  abbrev pub parse_child : Composing (Option Tree) → Composing Tree
  parse_child parse = do t ← parse; added t

  -- The loop of `sequence`, from the children in reverse order to all of them.
  unfoldable pub sequence_items : ℕ → Composing (Option Tree) → List Tree → Composing (List Tree)
  sequence_items zero parse done c = out_of_fuel
  sequence_items (suc n) parse done c =
      (do
        t ← peek
        if t is_event sequence_end_event
            then return done
            else (do child ← parse_child parse; sequence_items n parse (child ∷ done)))
        c

  -- How `sequence` and `mapping` begin: the node, its flow style and its anchor.
  abbrev pub collection_fields : Kind → Bytes → Composing Fields
  collection_fields kind default = do
    e ← gets (λ c. c.event)
    f ← node kind default e.tag []
    set_anchor (record f { style = record f.style { flow = has_flag e.style flow_style } }) e.anchor

  -- `sequence`
  unfoldable pub sequence : ℕ → Composing (Option Tree) → Composing Tree
  sequence n parse = do
    g ← collection_fields sequence_node seq_tag
    expect sequence_start_event
    done ← sequence_items n parse []
    last ← gets (λ c. c.event)
    textless ← gets (λ c. c.textless)
    expect sequence_end_event
    return (
        tree
          (record g {
            line_comment = last.line_comment;
            foot_comment = last.foot_comment;
            place = sequence_end textless g.style.flow last done g.place;
          })
          (onto done no_trees))

  -- What the loop of `mapping` does behind a value.
  unfoldable pub tail_comment : Tree → Composing Tree
  tail_comment k = do
    t ← peek
    foot ← gets (λ c. c.event.foot_comment)
    if t is_event tail_comment_event
        then (do expect tail_comment_event; return (give_foot foot k))
        else return k

  -- The loop of `mapping`.
  unfoldable pub mapping_items :
      ℕ → Bool → Composing (Option Tree) → List Tree → Composing (List Tree)
  mapping_items zero block parse done c = out_of_fuel
  mapping_items (suc n) block parse done c =
      (do
        t ← peek
        if t is_event mapping_end_event then return done else (do
          k ← parse_child parse
          let (k, done) = move_foot_back block k done
          v ← parse_child parse
          let (k, v) = move_foot_up k v
          k ← tail_comment k
          mapping_items n block parse (v ∷ k ∷ done)))
        c

  -- `mapping`
  unfoldable pub mapping : ℕ → Composing (Option Tree) → Composing Tree
  mapping n parse = do
    g ← collection_fields mapping_node map_tag
    expect mapping_start_event
    done ← mapping_items n (not g.style.flow) parse []
    last ← gets (λ c. c.event)
    textless ← gets (λ c. c.textless)
    expect mapping_end_event
    let (foot, done) = move_foot_in g.style.flow last.foot_comment done
    return (
        tree
          (record g {
            line_comment = last.line_comment;
            foot_comment = foot;
            place = mapping_end textless g.style.flow last done g.place;
          })
          (onto done no_trees))

  -- `document`
  unfoldable pub document : Composing (Option Tree) → Composing Tree
  document parse = do
    f ← node document_node [] [] []
    modify (λ c. record c { doc = some f.address })
    expect document_start_event
    child ← parse_child parse
    t ← peek
    foot ← gets (λ c. c.event.foot_comment)
    expect document_end_event
    return (
        tree (if t is_event document_end_event then record f { foot_comment = foot } else f)
          (and_tree child no_trees))

  -- The switch of `parse`
  abbrev pub parse_event : ℕ → Composing (Option Tree) → EventType → Composing (Option Tree)
  parse_event n parse scalar_event = do t ← scalar; return (some t)
  parse_event n parse alias_event = do t ← alias; return (some t)
  parse_event n parse mapping_start_event = do t ← mapping n parse; return (some t)
  parse_event n parse sequence_start_event = do t ← sequence n parse; return (some t)
  parse_event n parse document_start_event = do t ← document parse; return (some t)
  parse_event n parse stream_end_event = return none
  parse_event n parse _ = λ c. panics

  -- `parse`
  unfoldable pub parse : ℕ → Composing (Option Tree)
  parse zero = λ c. out_of_fuel
  parse (suc n) = do init; t ← peek; parse_event n (parse n) t

  -- The documents that a caller reads until there are none, in reverse order.
  unfoldable pub read_documents : ℕ → ℕ → List Tree → Composing (List Tree)
  read_documents zero n done c = out_of_fuel
  read_documents (suc k) n done c =
      (do t ← parse n; elim t [ some t ↦ read_documents k n (t ∷ done) | none ↦ return done ]) c
