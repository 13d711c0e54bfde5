-- ===== src/Compose/Fields.antt =====
-- decode.go's `parser`: what it does to the fields of nodes, with `anchor` and `unwritten`.
use yaml.Base.{
  ℕ, ◌+◌, ◌==◌, ◌/◌, ◌%◌, Bool, true, false, List, [], ◌∷◌, Bytes, codes, if◌then◌else◌, not,
  is_empty, ◌&&◌, ltb, equal,
}
use yaml.Compose.State.{tree, and_tree}
use yaml.Origin.Nodes.{is_scalar_kind}
use yaml.Compose.State.{
  Quoting, Tree, Fields, Composing, double_quoted, Trees, composed, unquoted, single_quoted,
  literal, folded,
}
use yaml.Origin.Nodes.{Place}
use yaml.Types.{Event}
use yaml.Resolve.Tags.{null_tag}

-- A style bit, by its value.
abbrev pub has_flag : ℕ → ℕ → Bool
has_flag style flag = not (style / flag % 2 == 0)

-- The switch on `scalar_style`.
abbrev pub quoting_of : ℕ → Quoting
quoting_of style =
    if has_flag style 8
    then double_quoted
    else if has_flag style 4
    then single_quoted
    else if has_flag style 16
    then literal
    else if has_flag style 32
    then folded
    else unquoted

abbrev pub is_unquoted : Quoting → Bool
is_unquoted unquoted = true
is_unquoted _ = false

abbrev pub fields_of : Tree → Fields
fields_of (tree f c) = f

abbrev pub place_at : Tree → Place
place_at t = (fields_of t).place

abbrev pub foot_of : Tree → Bytes
foot_of t = (fields_of t).foot_comment

-- `n.FootComment = text`
abbrev pub set_foot : Bytes → Tree → Tree
set_foot text (tree f c) = tree (record f { foot_comment = text }) c

-- The content in order, of the children in reverse order.
abbrev pub onto : List Tree → Trees → Trees
onto [] ts = ts
onto (t ∷ done) ts = onto done (and_tree t ts)

-- `unwritten`
abbrev pub is_unwritten : Tree → Bool
is_unwritten t =
    let f = fields_of t in
    is_scalar_kind f.kind
    && equal f.tag null_tag
    && is_empty f.value
    && f.place.line == f.place.end_line
    && f.place.column == f.place.end_column

-- `n.EndLine, n.EndColumn` from those of a place.
abbrev pub end_at : Place → Place → Place
end_at q p = record p { end_line = q.end_line; end_column = q.end_column }

abbrev pub end_at_mark : Event → Place → Place
end_at_mark e p = record p { end_line = e.end_mark.line + 1; end_column = e.end_mark.column + 1 }

-- The end of a sequence, from its children in reverse order.
abbrev pub sequence_end : Bool → Bool → Event → List Tree → Place → Place
sequence_end textless flow e [] p = if textless then p else end_at_mark e p
sequence_end textless flow e (last ∷ done) p =
    if textless then p else if flow then end_at_mark e p else end_at (place_at last) p

-- The last node of a mapping with text of its own.
abbrev pub last_written : Tree → List Tree → Tree
last_written last [] = last
last_written last (prev ∷ done) =
    if is_unwritten last && ltb (place_at prev).end_line (place_at last).line then prev else last

abbrev pub mapping_end : Bool → Bool → Event → List Tree → Place → Place
mapping_end textless flow e [] p = if textless then p else end_at_mark e p
mapping_end textless flow e (last ∷ done) p =
    if textless
    then p
    else if flow
    then end_at_mark e p
    else end_at (place_at (last_written last done)) p

-- A key's foot comment goes to the key before it, if the key is indented less.
abbrev pub move_foot_back : Bool → Tree → List Tree → Tree × List Tree
move_foot_back block k (v ∷ prior ∷ done) =
    if block && not (is_empty (foot_of k))
    then (set_foot [] k, v ∷ set_foot (foot_of k) prior ∷ done)
    else (k, v ∷ prior ∷ done)
move_foot_back block k done = (k, done)

-- A value's foot comment goes to its key.
abbrev pub move_foot_up : Tree → Tree → Tree × Tree
move_foot_up k v =
    if is_empty (foot_of k) && not (is_empty (foot_of v))
    then (set_foot (foot_of v) k, set_foot [] v)
    else (k, v)

-- The comment of a tail comment event goes to the key.
abbrev pub give_foot : Bytes → Tree → Tree
give_foot text k = if is_empty (foot_of k) then set_foot text k else k

-- The foot comment of a block mapping goes to its last key.
abbrev pub move_foot_in : Bool → Bytes → List Tree → Bytes × List Tree
move_foot_in flow foot (v ∷ k ∷ done) =
    if not flow && not (is_empty foot)
    then ([], v ∷ set_foot foot k ∷ done)
    else (foot, v ∷ k ∷ done)
move_foot_in flow foot done = (foot, done)

-- `anchor`, on the fields of the node
abbrev pub set_anchor : Fields → Bytes → Composing Fields
set_anchor f anchor c =
    if is_empty anchor
    then composed f c
    else composed (record f { anchor = anchor })
        (record c { anchors = (anchor, f.address) ∷ c.anchors })

-- A tag that is neither absent nor `!`.
abbrev pub is_given : Bytes → Bool
is_given tag = not (is_empty tag) && not (equal tag (codes "!"))
