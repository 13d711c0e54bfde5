-- ===== src/Origin/Tests.antt =====
-- A mapping with a sequence, and the witnesses of what is shown of its origin.
use yaml.Base.{[], ℕ, Bytes, some, codes, refl, ◌≡◌}
use yaml.Origin.Nodes.{
  Node, no_nodes, and_node, node, scalar_node, mapping_node, sequence_node, add_origin_in_map,
  add_origin_in_seq, build_origin_seq,
}
use yaml.Origin.Decimal.{negsuc, print_int}
use yaml.Origin.Recovery.{recovered, read-build_origin_seq}
use yaml.Origin.Adding.{IsSame, add_origin_in_map-IsSame, add_origin_in_seq-IsSame}
use yaml.Origin.Texts.{origin_of}

abbrev scalar_at : Bytes → ℕ → ℕ → Node
scalar_at v line column =
    node scalar_node (codes "!!str") v
      (record { line = line; column = column; end_line = 0; end_column = 0 }) no_nodes

abbrev key_node : Node
key_node = scalar_at (codes "info") 3 1

-- Two fields, of which the second is a sequence of a scalar.
abbrev mapping : Node
mapping =
    node mapping_node (codes "!!map") []
      (record { line = 4; column = 3; end_line = 6; end_column = 9 })
      (and_node (scalar_at (codes "title") 4 3) (
        and_node (scalar_at (codes "x") 4 10) (
          and_node (scalar_at (codes "tags") 5 3) (
            and_node
              (node sequence_node (codes "!!seq") []
                (record { line = 6; column = 5; end_line = 6; end_column = 9 })
                (and_node (scalar_at (codes "a") 6 7) no_nodes))
              no_nodes))))

printed_negative : print_int (negsuc 11) ≡ codes "-12"
unfolding print_int
printed_negative = refl

read-build_origin_seq_example :
    recovered (build_origin_seq key_node mapping (codes "api.yaml"))
    ≡ some (origin_of key_node mapping (codes "api.yaml"))
read-build_origin_seq_example = read-build_origin_seq key_node mapping (codes "api.yaml") tt

add_origin_in_map-IsSame_example :
    (m : Node) × (add_origin_in_map key_node mapping (codes "api.yaml") ≡ some m) × IsSame mapping m
add_origin_in_map-IsSame_example = add_origin_in_map-IsSame key_node mapping (codes "api.yaml") tt

add_origin_in_seq-IsSame_example :
    (m : Node) × (add_origin_in_seq mapping (codes "api.yaml") ≡ some m) × IsSame mapping m
add_origin_in_seq-IsSame_example = add_origin_in_seq-IsSame mapping (codes "api.yaml") tt
