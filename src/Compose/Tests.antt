-- ===== src/Compose/Tests.antt =====
-- A document that is read from its tokens, and the witness of what is shown of the composition.
use yaml.Base.{
  ℕ, List, [], ◌∷◌, ◌++◌, some, none, Bytes, codes, refl, arith, ◌≡◌, ◌+◌, map, Option, equal,
}
use yaml.Compose.State.{
  composed, new_composer, Tree, Composed, Trees, init, peek, expect, ◌is_event◌,
}
use yaml.Compose.Composer.{read_documents, parse}
use yaml.Compose.State.{tree, and_tree, no_trees, Composed}
use yaml.Compose.Composer
use yaml.Compose.Composer.{document, sequence, sequence_items, scalar, alias, node}
use yaml.Types.{stream_end_event}
use yaml.Compose.Runs.{read_documents-spelled}
use yaml.Parser.Machine.{Run, run, done}
use yaml.Parser.Expect.{accept_all, accept}
use yaml.Resolve.Scalar.{
  Library, resolve, infer, resolve_short, hint_of, resolve_table, check_tag, switch_hint,
  resolve_plain, parse_timestamp,
}
use yaml.Types.{
  TokenType, Event, any_encoding, stream_start, no_error, ◌is◌, plain_scalar_style,
  flow_sequence_start, flow_entry, flow_sequence_end, stream_end, stream_start_event,
  stream_end_event,
}
use yaml.Parser.State.{Fetched, initial, Parser}
use yaml.Parser.Document.{
  parse_stream_start, parse_document_start, parse_document_end, skip_document_ends,
}
use yaml.Parser.Directives.{
  process_directives, directives_loop, append_default_directives, append_tag_directive, has_handle,
}
use yaml.Parser.Node.{parse_node, parse_content, resolve_tag, parse_properties, plain_implicit}
use yaml.Parser.Block.{parse_block_mapping_key, parse_block_mapping_value}
use yaml.Parser.Flow.{
  parse_flow_sequence_entry, parse_flow_sequence_entry_mapping_key,
  parse_flow_sequence_entry_mapping_value, parse_flow_sequence_entry_mapping_end,
}
use yaml.Parser.Comments.{split_header}
use yaml.Compose.Feeding.{Succeeds}
use yaml.Compose.Spelling.{brief, bare, spelled_reverse}
use yaml.Resolve.Tags.{short_tag, has_prefix, map_entry, is_resolvable_tag}
use yaml.Resolve.Numbers.{parse_int}

abbrev library : Library
library = record {
  Float = ℕ;
  Time = ℕ;
  parse_float = λ s. none;
  float_of = λ v. 0;
  nan = 1;
  plus_inf = 2;
  minus_inf = 3;
  parse_time = λ f s. none;
}

abbrev fetched : TokenType → ℕ → Bytes → Fetched
fetched t i text = record {
  token = record {
    typ = t;
    start_mark = record { index = i; line = 0; column = i };
    end_mark = record { index = i + 1; line = 0; column = i + 1 };
    encoding = any_encoding;
    value = text;
    suffix = [];
    prefix = [];
    style = plain_scalar_style;
    major = 0;
    minor = 0;
  };
  comments = [];
}

-- `[&x 1, *x]`
abbrev flow_tokens : List Fetched
flow_tokens =
    fetched stream_start 0 []
    ∷ fetched flow_sequence_start 0 []
    ∷ fetched TokenType.anchor 1 (codes "x")
    ∷ fetched TokenType.scalar 4 (codes "1")
    ∷ fetched flow_entry 5 []
    ∷ fetched TokenType.alias 7 (codes "x")
    ∷ fetched flow_sequence_end 9 []
    ∷ fetched stream_end 10 []
    ∷ []

abbrev flow_run : Run
flow_run = run 100 (initial flow_tokens no_error)

abbrev events_of : Run → List Event
events_of (done es p) = es
events_of _ = []

abbrev parser_of : Run → Parser
parser_of (done es p) = p
parser_of _ = initial [] no_error

-- What the trees of a result have of kinds, tags, values and aliases.
unfoldable mutual
  outline : Tree → List (Bytes × Option ℕ)
  outline (tree f c) = (f.tag ++ f.value, f.alias) ∷ outlines c

  outlines : Trees → List (Bytes × Option ℕ)
  outlines no_trees = []
  outlines (and_tree t c) = outline t ++ outlines c

abbrev outlines_of : Composed (List Tree) → List (List (Bytes × Option ℕ))
outlines_of (composed ts c) = map outline ts
outlines_of _ = []

-- The document, the sequence, the integer at address 2, and the alias of it.
read_flow :
    outlines_of (read_documents library 20 20 [] (new_composer (initial flow_tokens no_error)))
    ≡ ((codes "", none) ∷ (codes "!!seq", none) ∷ (codes "!!int1", none) ∷ (codes "x", some 2) ∷ [])
      ∷ []
unfolding run parse_stream_start ◌is◌ parse_document_start process_directives directives_loop
    append_default_directives append_tag_directive has_handle equal parse_node parse_content
    resolve_tag parse_properties plain_implicit parse_block_mapping_key parse_block_mapping_value
    parse_flow_sequence_entry parse_flow_sequence_entry_mapping_key
    parse_flow_sequence_entry_mapping_value parse_flow_sequence_entry_mapping_end parse_document_end
    skip_document_ends split_header outline read_documents Composer.parse init peek expect document
    sequence sequence_items scalar alias node ◌is_event◌ resolve infer resolve_short short_tag
    has_prefix map_entry is_resolvable_tag hint_of resolve_table check_tag switch_hint resolve_plain
    parse_int parse_timestamp
read_flow = refl

read_documents-spelled_example :
    Succeeds
      (events_of flow_run)
      (read_documents library 20 20 [] (new_composer (initial flow_tokens no_error)))
      (λ all d.
        map brief (events_of flow_run)
        ≡ bare stream_start_event ∷ (spelled_reverse all ++ bare stream_end_event ∷ []))
unfolding run parse_stream_start ◌is◌ parse_document_start process_directives directives_loop
    append_default_directives append_tag_directive has_handle equal parse_node parse_content
    resolve_tag parse_properties plain_implicit parse_block_mapping_key parse_block_mapping_value
    parse_flow_sequence_entry parse_flow_sequence_entry_mapping_key
    parse_flow_sequence_entry_mapping_value parse_flow_sequence_entry_mapping_end parse_document_end
    skip_document_ends split_header accept_all accept
read_documents-spelled_example =
    read_documents-spelled library flow_tokens no_error 100 20 (events_of flow_run)
      (parser_of flow_run) refl refl refl (omega arith)
