-- ===== src/Origin/Recovery.antt =====
-- What the consumer of the origin sequence makes of the nodes that `buildOriginSeq` builds.
use yaml.Base.{
  List, [], ◌∷◌, ◌++◌, ℕ, Bytes, Option, some, none, refl, arith, ◌≡◌, ◌∙◌, ap, length, Bool-cases,
  inl, inr, ltb,
}
use yaml.Origin.Nodes.{
  Node, Collected, build_origin_seq, place_of, joined, end_nodes, value_of, difference, int_node,
  content_of,
}
use yaml.Origin.Reading.{read_origin, Origin, Location, Items, read_end, add_delta}
use yaml.Origin.Decimal.{pos, print_int, read-print_int}
use yaml.Origin.Texts.{
  texts, location_of, location_texts, sequence_texts, read_natural_lem, add_delta-difference,
  texts-append, origin_of, fields_of, sequences_of, read_locations_lem, read_sequences_lem,
}
use yaml.Origin.Collecting.{Gains, IsPaired, collect_lem}

-- The sequence is built, and read by the consumer.
abbrev pub recovered : Option (List Node) → Option Origin
recovered none = none
recovered (some ns) = read_origin (texts ns)

abbrev nothing_collected : Collected
nothing_collected = record { nf = 0; ns = 0; field_nodes = []; seq_nodes = [] }

-- The texts of the whole sequence.
texts-joined :
    (key n : Node) (file : Bytes) (fs : List Location) (ss : List Items) (d : Collected)
    → Gains (place_of key).line fs ss nothing_collected d
    → texts (joined key n file d)
      ≡ file
          ∷ value_of key
          ∷ print_int (pos (place_of key).line)
          ∷ print_int (pos (place_of key).column)
          ∷ print_int (pos (length fs))
          ∷ location_texts (place_of key).line fs
        ++ (print_int (pos (length ss)) ∷ sequence_texts (place_of key).line ss
            ++ texts (end_nodes key n))
texts-joined key n file fs ss d g =
    let nf : d.nf ≡ length fs = omega (arith, g.nf) in
    let ns : d.ns ≡ length ss = omega (arith, g.ns) in
    let f : texts d.field_nodes ≡ location_texts (place_of key).line fs =
      g.fields ∙ nil-append (location_texts (place_of key).line fs) in
    let q : texts d.seq_nodes ≡ sequence_texts (place_of key).line ss =
      g.sequences ∙ nil-append (sequence_texts (place_of key).line ss) in
    rw
      (
        nf,
        texts-append d.field_nodes (int_node (pos d.ns) ∷ d.seq_nodes ++ end_nodes key n),
        f,
        ns,
        texts-append d.seq_nodes (end_nodes key n),
        q,
      )
      refl
  where
    nil-append : (xs : List Bytes) → [] ++ xs ≡ xs
    nil-append [] = refl
    nil-append (x ∷ xs) = refl

abbrev origin_with : Node → Node → Bytes → List Location → List Items → Origin
origin_with key n file fs ss = record (origin_of key n file) { fields = fs; sequences = ss }

add_zero : (l : ℕ) → add_delta l (pos 0) ≡ l
unfolding add_delta
add_zero l = omega arith

read_end_lem :
    (key n : Node) (file : Bytes) (fs : List Location) (ss : List Items)
    → read_end file (location_of key) fs ss (texts (end_nodes key n))
      ≡ some (origin_with key n file fs ss)
read_end_lem key n file fs ss = elim (Bool-cases (ltb 0 (place_of n).end_line)) [
  | inl h ↦ rw h (
      rw
        (
          read-print_int (difference (place_of n).end_line (place_of key).line),
          read_natural_lem (place_of n).end_column,
          add_delta-difference (place_of n).end_line (place_of key).line,
        )
        refl)
  | inr h ↦
      rw h
        (rw (read-print_int (pos 0), read_natural_lem 0) (rw (add_zero (place_of key).line) refl))
]

read_texts :
    (key n : Node) (file : Bytes) (fs : List Location) (ss : List Items)
    → read_origin (
        file
          ∷ value_of key
          ∷ print_int (pos (place_of key).line)
          ∷ print_int (pos (place_of key).column)
          ∷ print_int (pos (length fs))
          ∷ location_texts (place_of key).line fs
        ++ (print_int (pos (length ss)) ∷ sequence_texts (place_of key).line ss
            ++ texts (end_nodes key n)))
      ≡ some (origin_with key n file fs ss)
read_texts key n file fs ss =
    let l = (place_of key).line in
    rw
      (
        read_natural_lem l,
        read_natural_lem (place_of key).column,
        read_natural_lem (length fs),
        read_locations_lem l fs
            (print_int (pos (length ss)) ∷ sequence_texts l ss ++ texts (end_nodes key n)),
        read_natural_lem (length ss),
        read_sequences_lem l ss (texts (end_nodes key n)),
      )
      (read_end_lem key n file fs ss)

-- The sequence that is built for a mapping whose keys all have values is read as: the file, the key
-- and its place, the places of all the mapping's keys but those of origins, those of the scalars in
-- the sequences under them, and the end of the block. The reader takes the three nodes for an item
-- that `buildOriginSeq` writes, its value, line delta and column.
pub read-build_origin_seq :
    (key n : Node) (file : Bytes)
    → IsPaired (content_of n)
    → recovered (build_origin_seq key n file) ≡ some (origin_of key n file)
unfolding build_origin_seq
read-build_origin_seq key n file p =
    let (d, e, g) = collect_lem key (content_of n) nothing_collected p in
    let fs = fields_of (content_of n) in
    let ss = sequences_of (content_of n) in
    rw (build_origin_seq, e)
      (ap read_origin (texts-joined key n file fs ss d g) ∙ read_texts key n file fs ss)
