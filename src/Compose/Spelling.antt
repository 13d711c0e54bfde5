-- ===== src/Compose/Spelling.antt =====
-- The events that a tree stands for, by what events and nodes have in common: the specification of the
-- composition.
use yaml.Base.{List, [], ◌∷◌, ◌++◌, Bool, false, Bytes, if◌then◌else◌, ◌≡◌, refl, ◌∙◌, sym}
use mathlib.Core.List.{append_assoc}
use yaml.Compose.State.{Tree, tree, Trees, no_trees, and_tree, Quoting, unquoted, Fields}
use yaml.Types.{
  EventType, Event, document_start_event, document_end_event, flow_style, sequence_start_event,
  sequence_end_event, scalar_event, mapping_start_event, alias_event, mapping_end_event,
}
use yaml.Compose.Fields.{is_given, onto, set_foot, quoting_of, has_flag}
use yaml.Origin.Nodes.{
  Kind, document_node, sequence_node, mapping_node, scalar_node, alias_node, no_kind,
}
use yaml.Resolve.Tags.{short_tag}

-- Of an event: its type, its anchor, its tag in the short form, its value and the style.
pub record Brief : Type 0 where
  pub typ : EventType
  pub anchor : Bytes
  pub tag : Bytes
  pub value : Bytes
  pub quoting : Quoting
  pub flow : Bool

abbrev pub bare : EventType → Brief
bare t = record { typ = t; anchor = []; tag = []; value = []; quoting = unquoted; flow = false }

abbrev pub given_tag : Bytes → Bytes
given_tag tag = if is_given tag then short_tag tag else []

abbrev pub brief_as : EventType → Event → Brief
brief_as scalar_event e = record {
  typ = scalar_event;
  anchor = e.anchor;
  tag = given_tag e.tag;
  value = e.value;
  quoting = quoting_of e.style;
  flow = false;
}
brief_as alias_event e = record (bare alias_event) { anchor = e.anchor }
brief_as sequence_start_event e = record (bare sequence_start_event) {
  anchor = e.anchor;
  tag = given_tag e.tag;
  flow = has_flag e.style flow_style;
}
brief_as mapping_start_event e = record (bare mapping_start_event) {
  anchor = e.anchor;
  tag = given_tag e.tag;
  flow = has_flag e.style flow_style;
}
brief_as t e = bare t

abbrev pub brief : Event → Brief
brief e = brief_as e.typ e

-- The tag of a node, if it was given.
abbrev pub own_tag : Fields → Bytes
own_tag f = if f.style.tagged then f.tag else []

abbrev pub opening : EventType → Fields → Brief
opening t f = record (bare t) { anchor = f.anchor; tag = own_tag f; flow = f.style.flow }

-- The events of a node whose content has these events.
abbrev pub spelled_as : Kind → Fields → List Brief → List Brief
spelled_as document_node f inner =
    bare document_start_event ∷ (inner ++ bare document_end_event ∷ [])
spelled_as sequence_node f inner =
    opening sequence_start_event f ∷ (inner ++ bare sequence_end_event ∷ [])
spelled_as mapping_node f inner =
    opening mapping_start_event f ∷ (inner ++ bare mapping_end_event ∷ [])
spelled_as scalar_node f inner =
    record {
      typ = scalar_event;
      anchor = f.anchor;
      tag = own_tag f;
      value = f.value;
      quoting = f.style.quoting;
      flow = false;
    }
    ∷ []
spelled_as alias_node f inner = record (bare alias_event) { anchor = f.value } ∷ []
spelled_as no_kind f inner = []

unfoldable mutual
  pub spelled : Tree → List Brief
  spelled (tree f c) = spelled_as f.kind f (spelled_all c)

  pub spelled_all : Trees → List Brief
  spelled_all no_trees = []
  spelled_all (and_tree t c) = spelled t ++ spelled_all c

-- The events of the nodes of a list in reverse order.
unfoldable pub spelled_reverse : List Tree → List Brief
spelled_reverse [] = []
spelled_reverse (t ∷ done) = spelled_reverse done ++ spelled t

pub spelled_all-onto :
    (done : List Tree) (c : Trees)
    → spelled_all (onto done c) ≡ spelled_reverse done ++ spelled_all c
unfolding spelled spelled_reverse
spelled_all-onto [] c = refl
spelled_all-onto (t ∷ done) c =
    spelled_all-onto done (and_tree t c)
    ∙ sym (append_assoc (spelled_reverse done) (spelled t) (spelled_all c))

pub spelled-set_foot : (b : Bytes) (t : Tree) → spelled (set_foot b t) ≡ spelled t
unfolding spelled
spelled-set_foot b (tree f c) = by_kind f.kind
  where
    by_kind :
        (k : Kind)
        → spelled_as k (record f { foot_comment = b }) (spelled_all c)
          ≡ spelled_as k f (spelled_all c)
    by_kind no_kind = refl
    by_kind document_node = refl
    by_kind sequence_node = refl
    by_kind mapping_node = refl
    by_kind scalar_node = refl
    by_kind alias_node = refl
