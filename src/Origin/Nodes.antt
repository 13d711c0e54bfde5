-- ===== src/Origin/Nodes.antt =====
-- The nodes of yaml.go, as far as origin.go reads them, and the functions of origin.go.
use yaml.Base.{
  List, [], ◌∷◌, ◌++◌, Bool, true, false, ◌+◌, ◌/◌, ℕ, Bytes, Option, some, none, codes,
  if◌then◌else◌, ◌==◌, leb, is_empty, ltb, length, ◌-◌,
}
use mathlib.Core.Option
use yaml.Origin.Decimal.{ℤ, pos, negsuc, print_int}

-- `Kind`; a node that is not made by a parser may have none of the five.
pub data Kind : Type 0 where
  document_node sequence_node mapping_node scalar_node alias_node no_kind : Kind

-- `Line`, `Column`, `EndLine` and `EndColumn`
pub record Place : Type 0 where
  pub line : ℕ
  pub column : ℕ
  pub end_line : ℕ
  pub end_column : ℕ

abbrev pub no_place : Place
no_place = record { line = 0; column = 0; end_line = 0; end_column = 0 }

-- `Node`: its kind, tag, value, place and content.
mutual
  pub data Node : Type 0 where
    node : Kind → Bytes → Bytes → Place → Nodes → Node

  pub data Nodes : Type 0 where
    no_nodes : Nodes
    and_node : Node → Nodes → Nodes

abbrev pub kind_of : Node → Kind
kind_of (node k t v p c) = k

abbrev pub value_of : Node → Bytes
value_of (node k t v p c) = v

abbrev pub place_of : Node → Place
place_of (node k t v p c) = p

abbrev pub content_of : Node → Nodes
content_of (node k t v p c) = c

abbrev pub is_scalar_kind : Kind → Bool
is_scalar_kind scalar_node = true
is_scalar_kind _ = false

abbrev pub is_sequence_kind : Kind → Bool
is_sequence_kind sequence_node = true
is_sequence_kind _ = false

abbrev pub is_mapping_kind : Kind → Bool
is_mapping_kind mapping_node = true
is_mapping_kind _ = false

-- `isScalar`, `isSequence`, `isMapping`
abbrev pub is_scalar : Node → Bool
is_scalar n = is_scalar_kind (kind_of n)

abbrev pub is_sequence : Node → Bool
is_sequence n = is_sequence_kind (kind_of n)

abbrev pub is_mapping : Node → Bool
is_mapping n = is_mapping_kind (kind_of n)

-- `isOrigin`
abbrev pub is_origin : Node → Bool
is_origin key = (place_of key).line == 0

-- `strNode`, `intNode`
abbrev pub str_node : Bytes → Node
str_node v = node scalar_node (codes "!!str") v no_place no_nodes

abbrev pub int_node : ℤ → Node
int_node v = node scalar_node (codes "!!int") (print_int v) no_place no_nodes

-- The difference of two natural numbers.
unfoldable pub difference : ℕ → ℕ → ℤ
difference a b = if leb b a then pos (a - b) else negsuc (b - a - 1)

-- The three nodes of a location: its name, its line from that of the key, its column.
abbrev pub location_nodes : Node → Node → List Node → List Node
location_nodes key n more =
    str_node (value_of n)
    ∷ int_node (difference (place_of n).line (place_of key).line)
    ∷ int_node (pos (place_of n).column)
    ∷ more

-- `itemNodes`: the loop over the content of a sequence.
abbrev pub item_nodes : Node → Nodes → List Node
item_nodes key no_nodes = []
item_nodes key (and_node item rest) =
    let more = item_nodes key rest in if is_scalar item then location_nodes key item more else more

-- The local variables of the loop of `buildOriginSeq`.
pub record Collected : Type 0 where
  pub nf : ℕ
  pub ns : ℕ
  pub field_nodes : List Node
  pub seq_nodes : List Node

-- `if len(itemNodes) > 0 { … }`
abbrev pub collect_items : Node → List Node → Collected → Collected
collect_items k items c = if is_empty items then c else record c {
  ns = c.ns + 1;
  seq_nodes =
      c.seq_nodes ++ (str_node (value_of k) ∷ int_node (pos (length items / 3)) ∷ []) ++ items;
}

abbrev pub collect_field : Node → Node → Collected → Collected
collect_field key k c = record c {
  nf = c.nf + 1;
  field_nodes = c.field_nodes ++ location_nodes key k [];
}

-- The body of the loop.
abbrev pub collect_pair : Node → Node → Node → Collected → Collected
collect_pair key k v c =
    if is_origin k
    then c
    else if is_sequence v
    then collect_items k (item_nodes key (content_of v)) (collect_field key k c)
    else collect_field key k c

-- `for i := 0; i < l; i += 2`; a key that has no value is an index out of range.
abbrev pub collect : Node → Nodes → Collected → Option Collected
collect key no_nodes c = some c
collect key (and_node k no_nodes) c = none
collect key (and_node k (and_node v rest)) c = collect key rest (collect_pair key k v c)

-- The nodes for the end of the block.
abbrev pub end_nodes : Node → Node → List Node
end_nodes key n =
    if ltb 0 (place_of n).end_line
    then int_node (difference (place_of n).end_line (place_of key).line)
      ∷ int_node (pos (place_of n).end_column)
      ∷ []
    else int_node (pos 0) ∷ int_node (pos 0) ∷ []

abbrev pub joined : Node → Node → Bytes → Collected → List Node
joined key n file c =
    str_node file
      ∷ str_node (value_of key)
      ∷ int_node (pos (place_of key).line)
      ∷ int_node (pos (place_of key).column)
      ∷ int_node (pos c.nf)
      ∷ c.field_nodes
    ++ (int_node (pos c.ns) ∷ c.seq_nodes ++ end_nodes key n)

-- `buildOriginSeq`
unfoldable pub build_origin_seq : Node → Node → Bytes → Option (List Node)
build_origin_seq key n file =
    Option.map (joined key n file)
      (collect key (content_of n) (record { nf = 0; ns = 0; field_nodes = []; seq_nodes = [] }))

abbrev pub to_nodes : List Node → Nodes
to_nodes [] = no_nodes
to_nodes (n ∷ ns) = and_node n (to_nodes ns)

abbrev pub append_nodes : Nodes → Nodes → Nodes
append_nodes no_nodes b = b
append_nodes (and_node n a) b = and_node n (append_nodes a b)

-- `n.Content = append(n.Content, …)`
abbrev pub with_origin : Node → List Node → Node
with_origin (node k t v p c) seq =
    let origin_key = node scalar_node (codes "!!str") (codes "__origin__") no_place no_nodes in
    let origin_value = node sequence_node (codes "!!seq") [] no_place (to_nodes seq) in
    node k t v p (append_nodes c (and_node origin_key (and_node origin_value no_nodes)))

-- `addOrigin`; `none` is an index out of range.
unfoldable pub add_origin : Node → Node → Bytes → Option Node
unfolding build_origin_seq
add_origin key n file =
    if is_origin key then some n else Option.map (with_origin n) (build_origin_seq key n file)

-- `addOriginInMap`
unfoldable pub add_origin_in_map : Node → Node → Bytes → Option Node
unfolding add_origin
add_origin_in_map key n file = if is_mapping n then add_origin key n file else some n

abbrev pub add_origin_at : Nodes → Node → Bytes → Option Node
add_origin_at no_nodes n file = some n
add_origin_at (and_node first rest) n file = add_origin first n file

-- `addOriginInSeq`
unfoldable pub add_origin_in_seq : Node → Bytes → Option Node
unfolding add_origin
add_origin_in_seq n file = if is_mapping n then add_origin_at (content_of n) n file else some n
