-- ===== src/Origin/Collecting.antt =====
-- The loop of `buildOriginSeq`: what it has collected, in terms of the locations of the nodes.
use yaml.Base.{
  List, [], ◌∷◌, ◌++◌, true, false, ◌+◌, ◌/◌, ◌*◌, ℕ, some, refl, arith, ◌≡◌, ◌∙◌, ap, length,
  is_empty, Bool-cases, inl, inr, length-append, sym,
}
use yaml.Origin.Nodes.{
  Node, Nodes, no_nodes, and_node, Collected, place_of, item_nodes, is_scalar, value_of,
  collect_field, collect_items, location_nodes, str_node, int_node, collect, is_origin, is_sequence,
  content_of,
}
use mathlib.Core.List.{append_assoc, append-nil}
use yaml.Origin.Reading.{Location, Items}
use yaml.Origin.Texts.{
  texts, scalars_of, location_texts, sequence_texts, location_of, texts-append, texts-item_nodes,
  fields_of, sequences_of,
}
use yaml.Origin.Decimal.{print_int, pos}

-- From `c` to `d`, these fields and these sequences are added.
pub record Gains (l : ℕ) (fs : List Location) (ss : List Items) (c d : Collected) : Type 0 where
  pub nf : d.nf ≡ c.nf + length fs
  pub fields : texts d.field_nodes ≡ texts c.field_nodes ++ location_texts l fs
  pub ns : d.ns ≡ c.ns + length ss
  pub sequences : texts d.seq_nodes ≡ texts c.seq_nodes ++ sequence_texts l ss

extend_none : (l : ℕ) (c : Collected) → Gains l [] [] c c
extend_none l c = record {
  nf = omega arith;
  fields = sym (append-nil (texts c.field_nodes));
  ns = omega arith;
  sequences = sym (append-nil (texts c.seq_nodes));
}

location_texts-append :
    (l : ℕ) (a b : List Location)
    → location_texts l (a ++ b) ≡ location_texts l a ++ location_texts l b
location_texts-append l [] b = refl
location_texts-append l (x ∷ a) b = rw (location_texts-append l a b) refl

sequence_texts-append :
    (l : ℕ) (a b : List Items)
    → sequence_texts l (a ++ b) ≡ sequence_texts l a ++ sequence_texts l b
sequence_texts-append l [] b = refl
sequence_texts-append l (x ∷ a) b = rw (sequence_texts-append l a b) (
    ap (λ t. x.name ∷ print_int (pos (length x.items)) ∷ t)
      (sym (append_assoc (location_texts l x.items) (sequence_texts l a) (sequence_texts l b))))

extend_more :
    (l : ℕ) (fs gs : List Location) (ss ts : List Items) (c d e : Collected)
    → Gains l fs ss c d
    → Gains l gs ts d e
    → Gains l (fs ++ gs) (ss ++ ts) c e
extend_more l fs gs ss ts c d e g h = record {
  nf = omega (arith, g.nf, h.nf, length-append fs gs);
  fields =
      h.fields
      ∙ ap (λ t. t ++ location_texts l gs) g.fields
      ∙ append_assoc (texts c.field_nodes) (location_texts l fs) (location_texts l gs)
      ∙ ap (◌++◌ (texts c.field_nodes)) (sym (location_texts-append l fs gs));
  ns = omega (arith, g.ns, h.ns, length-append ss ts);
  sequences =
      h.sequences
      ∙ ap (λ t. t ++ sequence_texts l ts) g.sequences
      ∙ append_assoc (texts c.seq_nodes) (sequence_texts l ss) (sequence_texts l ts)
      ∙ ap (◌++◌ (texts c.seq_nodes)) (sym (sequence_texts-append l ss ts));
}

extend_field :
    (key k : Node) (c : Collected)
    → Gains (place_of key).line (location_of k ∷ []) [] c (collect_field key k c)
extend_field key k c = record {
  nf = refl;
  fields = texts-append c.field_nodes (location_nodes key k []);
  ns = omega arith;
  sequences = sym (append-nil (texts c.seq_nodes));
}

length-item_nodes :
    (key : Node) (ns : Nodes) → length (item_nodes key ns) ≡ 3 * length (scalars_of ns)
length-item_nodes key no_nodes = refl
length-item_nodes key (and_node n ns) = elim (Bool-cases (is_scalar n)) [
  | inl h ↦ rw h (omega (arith, length-item_nodes key ns))
  | inr h ↦ rw h (length-item_nodes key ns)
]

empty-item_nodes :
    (key : Node) (ns : Nodes) → is_empty (item_nodes key ns) ≡ is_empty (scalars_of ns)
empty-item_nodes key no_nodes = refl
empty-item_nodes key (and_node n ns) = elim (Bool-cases (is_scalar n)) [
  | inl h ↦ rw h refl
  | inr h ↦ rw h (empty-item_nodes key ns)
]

extend_items :
    (key k : Node) (ns : Nodes) (c : Collected)
    → is_empty (scalars_of ns) ≡ false
    → Gains
        (place_of key).line
        []
        (record { name = value_of k; items = scalars_of ns } ∷ [])
        c
        (collect_items k (item_nodes key ns) c)
extend_items key k ns c h =
    let e : is_empty (item_nodes key ns) ≡ false = empty-item_nodes key ns ∙ h in
    rw e (record {
      nf = omega arith;
      fields = sym (append-nil (texts c.field_nodes));
      ns = refl;
      sequences = added c.seq_nodes;
    })
  where
    added :
        (old : List Node)
        → texts (
            old
            ++ (str_node (value_of k) ∷ int_node (pos (length (item_nodes key ns) / 3)) ∷ [])
            ++ item_nodes key ns)
          ≡ texts old
            ++ sequence_texts
                (place_of key).line
                (record { name = value_of k; items = scalars_of ns } ∷ [])
    added old =
        let third : length (item_nodes key ns) / 3 ≡ length (scalars_of ns) =
          omega (arith, length-item_nodes key ns) in
        let head : List Node =
          str_node (value_of k) ∷ int_node (pos (length (scalars_of ns))) ∷ [] in
        rw third (
          ap texts (append_assoc old head (item_nodes key ns))
          ∙ texts-append old (head ++ item_nodes key ns)
          ∙ ap (λ t. texts old ++ (value_of k ∷ print_int (pos (length (scalars_of ns))) ∷ t))
              (texts-item_nodes key ns
                ∙ sym (append-nil (location_texts (place_of key).line (scalars_of ns)))))

-- The keys of a mapping have values.
abbrev pub IsPaired : Nodes → Type 0
IsPaired no_nodes = Unit
IsPaired (and_node k no_nodes) = ⊥
IsPaired (and_node k (and_node v ns)) = IsPaired ns

abbrev pub Collects : Node → Nodes → Collected → Type 0
Collects key ns c =
    (d : Collected) × (collect key ns c ≡ some d)
    × Gains (place_of key).line (fields_of ns) (sequences_of ns) c d

-- A pair whose key is no origin, in front of others.
collect_step :
    (key k v : Node) (ns : Nodes) (c : Collected)
    → is_origin k ≡ false
    → ((c' : Collected) → Collects key ns c')
    → Collects key (and_node k (and_node v ns)) c
collect_step key k v ns c o next = elim (Bool-cases (is_sequence v)) [
  | inr s ↦ rw (o, s) (behind_field (next (collect_field key k c)))
  | inl s ↦ elim (Bool-cases (is_empty (scalars_of (content_of v)))) [
    | inl h ↦
        let e : is_empty (item_nodes key (content_of v)) ≡ true =
          empty-item_nodes key (content_of v) ∙ h in
        rw (o, s, h, e) (behind_field (next (collect_field key k c)))
    | inr h ↦
        rw (o, s, h)
          (behind_items h
            (next (collect_items k (item_nodes key (content_of v)) (collect_field key k c))))
  ]
]
  where
    l : ℕ
    l = (place_of key).line

    field : Collected
    field = collect_field key k c

    item : Items
    item = record { name = value_of k; items = scalars_of (content_of v) }

    items : Collected
    items = collect_items k (item_nodes key (content_of v)) field

    behind_field :
        Collects key ns field
        → (d : Collected) × (collect key ns field ≡ some d)
          × Gains l (location_of k ∷ fields_of ns) (sequences_of ns) c d
    behind_field (d, e, g) = (
      d,
      e,
      extend_more l (location_of k ∷ []) (fields_of ns) [] (sequences_of ns) c field d
          (extend_field key k c) g,
    )

    behind_items :
        is_empty (scalars_of (content_of v)) ≡ false
        → Collects key ns items
        → (d : Collected) × (collect key ns items ≡ some d)
          × Gains l (location_of k ∷ fields_of ns) (item ∷ sequences_of ns) c d
    behind_items h (d, e, g) = (
      d,
      e,
      extend_more l (location_of k ∷ []) (fields_of ns) (item ∷ []) (sequences_of ns) c items d
          (extend_more l (location_of k ∷ []) [] [] (item ∷ []) c field items (extend_field key k c)
            (extend_items key k (content_of v) field h))
          g,
    )

pub collect_lem : (key : Node) (ns : Nodes) (c : Collected) → IsPaired ns → Collects key ns c
collect_lem key no_nodes c p = (c, refl, extend_none (place_of key).line c)
collect_lem key (and_node k no_nodes) c p = absurd p
collect_lem key (and_node k (and_node v ns)) c p = elim (Bool-cases (is_origin k)) [
  | inl o ↦ rw o (collect_lem key ns c p)
  | inr o ↦ collect_step key k v ns c o (λ c'. collect_lem key ns c' p)
]
