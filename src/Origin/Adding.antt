-- ===== src/Origin/Adding.antt =====
-- What `addOriginInMap` and `addOriginInSeq` do to a node.
use yaml.Base.{List, [], true, Bytes, some, codes, refl, ◌≡◌, Bool-cases, inl, inr}
use yaml.Origin.Nodes.{
  Node, Nodes, no_nodes, and_node, node, build_origin_seq, add_origin, add_origin_in_map,
  add_origin_in_seq, content_of, is_origin, append_nodes, with_origin, is_mapping, is_mapping_kind,
  scalar_node, joined, no_place, sequence_node, to_nodes,
}
use yaml.Origin.Collecting.{IsPaired, collect_lem}
use yaml.Origin.Texts.{fields_of, sequences_of}

-- A node with the same locations, in a mapping that is well-formed: what the next call sees.
abbrev pub IsSame : Node → Node → Type 0
IsSame n m =
    IsPaired (content_of m)
    × (fields_of (content_of m) ≡ fields_of (content_of n))
    × (sequences_of (content_of m) ≡ sequences_of (content_of n))

append_origin :
    (ns : Nodes) (k v : Node)
    → IsPaired ns
    → is_origin k ≡ true
    → IsPaired (append_nodes ns (and_node k (and_node v no_nodes)))
      × (fields_of (append_nodes ns (and_node k (and_node v no_nodes))) ≡ fields_of ns)
      × (sequences_of (append_nodes ns (and_node k (and_node v no_nodes))) ≡ sequences_of ns)
append_origin no_nodes k v p o = (tt, rw o refl, rw o refl)
append_origin (and_node a no_nodes) k v p o = absurd p
append_origin (and_node a (and_node b ns)) k v p o =
    let (q, f, s) = append_origin ns k v p o in (q, rw f refl, rw s refl)

with_origin-IsSame :
    (n : Node) (seq : List Node) → IsPaired (content_of n) → IsSame n (with_origin n seq)
with_origin-IsSame (node kind t v place c) seq p =
    append_origin c (node scalar_node (codes "!!str") (codes "__origin__") no_place no_nodes)
      (node sequence_node (codes "!!seq") [] no_place (to_nodes seq)) p refl

add_origin-IsSame :
    (key n : Node) (file : Bytes)
    → IsPaired (content_of n)
    → (m : Node) × (add_origin key n file ≡ some m) × IsSame n m
unfolding add_origin build_origin_seq
add_origin-IsSame key n file p = elim (Bool-cases (is_origin key)) [
  | inl o ↦ (n, rw (add_origin, o) refl, (p, refl, refl))
  | inr o ↦
      let (d, e, g) =
        collect_lem key (content_of n) (record { nf = 0; ns = 0; field_nodes = []; seq_nodes = [] })
          p in
      (
        with_origin n (joined key n file d),
        rw (add_origin, o) (rw (build_origin_seq, e) refl),
        with_origin-IsSame n (joined key n file d) p,
      )
]

-- A call of `addOriginInMap` on a node whose keys all have values comes to an end without an index out
-- of range; the keys of the node it gives have values too, and what it adds is no field and no sequence
-- for a later call on the same node.
pub add_origin_in_map-IsSame :
    (key n : Node) (file : Bytes)
    → IsPaired (content_of n)
    → (m : Node) × (add_origin_in_map key n file ≡ some m) × IsSame n m
unfolding add_origin_in_map
add_origin_in_map-IsSame key n file p = elim (Bool-cases (is_mapping n)) [
  | inl h ↦ rw h (add_origin-IsSame key n file p)
  | inr h ↦ (n, rw (add_origin_in_map, h) refl, (p, refl, refl))
]

-- So does a call of `addOriginInSeq`, also on an empty mapping.
pub add_origin_in_seq-IsSame :
    (n : Node) (file : Bytes)
    → IsPaired (content_of n)
    → (m : Node) × (add_origin_in_seq n file ≡ some m) × IsSame n m
unfolding add_origin_in_seq
add_origin_in_seq-IsSame (node k t v place no_nodes) file p =
    elim (Bool-cases (is_mapping_kind k)) [
      | inl h ↦ (node k t v place no_nodes, rw (add_origin_in_seq, h) refl, (p, refl, refl))
      | inr h ↦ (node k t v place no_nodes, rw (add_origin_in_seq, h) refl, (p, refl, refl))
    ]
add_origin_in_seq-IsSame (node k t v place (and_node a ns)) file p =
    elim (Bool-cases (is_mapping_kind k)) [
      | inl h ↦ rw h (add_origin-IsSame a (node k t v place (and_node a ns)) file p)
      | inr h ↦ (node k t v place (and_node a ns), rw (add_origin_in_seq, h) refl, (p, refl, refl))
    ]
