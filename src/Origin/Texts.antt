-- ===== src/Origin/Texts.antt =====
-- The locations of the nodes, as a consumer is to see them, and the texts that stand for them in the
-- origin sequence.
use yaml.Base.{
  List, [], ◌∷◌, ◌++◌, ℕ, Bytes, some, refl, arith, ◌≡◌, ap, length, is_empty, Bool-cases, inl, inr,
  if◌then◌else◌, not, ltb, ◌&&◌,
}
use yaml.Origin.Decimal.{pos, print_int, read-print_int}
use yaml.Origin.Nodes.{
  Node, Nodes, no_nodes, and_node, difference, value_of, item_nodes, place_of, content_of,
  is_scalar, is_origin, is_sequence,
}
use yaml.Origin.Reading.{
  read_natural, add_delta, Location, Items, Origin, read_locations, read_sequences,
}
use mathlib.Core.List.{append_assoc}

pub read_natural_lem : (n : ℕ) → read_natural (print_int (pos n)) ≡ some n
unfolding read_natural
read_natural_lem n = rw (read_natural, read-print_int (pos n)) refl

pub add_delta-difference : (a b : ℕ) → add_delta b (difference a b) ≡ a
unfolding add_delta difference
add_delta-difference a b = ground arith

abbrev pub location_of : Node → Location
location_of n = record { name = value_of n; line = (place_of n).line; column = (place_of n).column }

-- The locations of the scalars among nodes.
abbrev pub scalars_of : Nodes → List Location
scalars_of no_nodes = []
scalars_of (and_node n ns) =
    let rest = scalars_of ns in if is_scalar n then location_of n ∷ rest else rest

-- The locations of the keys of a mapping, but not of an origin's.
abbrev pub fields_of : Nodes → List Location
fields_of no_nodes = []
fields_of (and_node k no_nodes) = []
fields_of (and_node k (and_node v ns)) =
    let rest = fields_of ns in if is_origin k then rest else location_of k ∷ rest

-- The keys of sequences that have scalars, with the scalars' locations.
abbrev pub sequences_of : Nodes → List Items
sequences_of no_nodes = []
sequences_of (and_node k no_nodes) = []
sequences_of (and_node k (and_node v ns)) =
    let rest = sequences_of ns in
    if not (is_origin k) && is_sequence v && not (is_empty (scalars_of (content_of v)))
    then record { name = value_of k; items = scalars_of (content_of v) } ∷ rest
    else rest

-- What a consumer is to know of a mapping.
abbrev pub origin_of : Node → Node → Bytes → Origin
origin_of key n file = record {
  file = file;
  key = location_of key;
  fields = fields_of (content_of n);
  sequences = sequences_of (content_of n);
  end_line = if ltb 0 (place_of n).end_line then (place_of n).end_line else (place_of key).line;
  end_column = if ltb 0 (place_of n).end_line then (place_of n).end_column else 0;
}

-- The texts of locations and of sequences.
abbrev pub location_texts : ℕ → List Location → List Bytes
location_texts l [] = []
location_texts l (x ∷ xs) =
    x.name ∷ print_int (difference x.line l) ∷ print_int (pos x.column) ∷ location_texts l xs

abbrev pub sequence_texts : ℕ → List Items → List Bytes
sequence_texts l [] = []
sequence_texts l (x ∷ xs) =
    x.name ∷ print_int (pos (length x.items)) ∷ location_texts l x.items ++ sequence_texts l xs

pub read_locations_lem :
    (l : ℕ) (xs : List Location) (rest : List Bytes)
    → read_locations (length xs) l (location_texts l xs ++ rest) ≡ some (xs, rest)
unfolding read_locations
read_locations_lem l [] rest = refl
read_locations_lem l (x ∷ xs) rest =
    rw
      (
        read-print_int (difference x.line l),
        read_natural_lem x.column,
        read_locations_lem l xs rest,
        add_delta-difference x.line l,
      )
      refl

pub read_sequences_lem :
    (l : ℕ) (xs : List Items) (rest : List Bytes)
    → read_sequences (length xs) l (sequence_texts l xs ++ rest) ≡ some (xs, rest)
unfolding read_sequences
read_sequences_lem l [] rest = refl
read_sequences_lem l (x ∷ xs) rest =
    rw (append_assoc (location_texts l x.items) (sequence_texts l xs) rest) (
      rw
        (
          read_natural_lem (length x.items),
          read_locations_lem l x.items (sequence_texts l xs ++ rest),
          read_sequences_lem l xs rest,
        )
        refl)

-- The texts of nodes.
abbrev pub texts : List Node → List Bytes
texts [] = []
texts (n ∷ ns) = value_of n ∷ texts ns

pub texts-append : (a b : List Node) → texts (a ++ b) ≡ texts a ++ texts b
texts-append [] b = refl
texts-append (n ∷ a) b = ap (◌∷◌ (value_of n)) (texts-append a b)

pub texts-item_nodes :
    (key : Node) (ns : Nodes)
    → texts (item_nodes key ns) ≡ location_texts (place_of key).line (scalars_of ns)
texts-item_nodes key no_nodes = refl
texts-item_nodes key (and_node n ns) = elim (Bool-cases (is_scalar n)) [
  | inl h ↦ rw (h, texts-item_nodes key ns) refl
  | inr h ↦ rw h (texts-item_nodes key ns)
]
