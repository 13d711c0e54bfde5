-- ===== src/Compose/Wholes.antt =====
-- `sequence`, `mapping` and `document`, with a child method that reads one node.
use mathlib.Core.List.{append_assoc, append-nil, map-append}
use yaml.Parser.Expect.{document_end, keys, accept_all}
use yaml.Compose.Composer.{collection_fields, sequence_items, parse_child, mapping_items}
use yaml.Base.{
  List, [], ◌∷◌, ◌++◌, Bool, true, false, ◌≡◌, refl, map, ap, ◌∙◌, sym, arith, Option, some, inl,
  length, ℕ, ◌≤◌, length-append, subst, Bytes, not, if◌then◌else◌,
}
use yaml.Compose.State.{
  tree, and_tree, no_trees, Tree, Fields, Composing, Composer, Trees, unquoted, expect, peek,
}
use yaml.Compose.Composer.{sequence, mapping, document, node}
use yaml.Compose.Leaves.{consumed, Shows, node-At, set_anchor-At, consumed_plain}
use yaml.Compose.Loops.{Tail, IsChild, parse_child-Reads, sequence_items-Items, Succeeds-map}
use yaml.Types.{
  Event, EventType, document_end, sequence_start_event, mapping_start_event, document_start_event,
  document_end_event, sequence_end_event, mapping_end_event, flow_style,
}
use yaml.Compose.Spelling.{
  spelled_reverse, spelled, Brief, spelled_all, brief, spelled_all-onto, given_tag,
}
use yaml.Parser.Expect.{accept, Stack, documents, items, Expected}
use yaml.Resolve.Scalar.{Library}
use yaml.Origin.Nodes.{Kind, document_node, sequence_node, mapping_node}
use yaml.Compose.Completion.{Completes, IsFresh-Ahead, Completes-first, node-Begins, accepted_event}
use yaml.Compose.Feeding.{At, IsFresh, Succeeds, Succeeds-continue, peek-Before}
use yaml.Compose.Fields.{onto, has_flag, move_foot_in}
use yaml.Resolve.Tags.{seq_tag, map_tag}
use yaml.Compose.Pairs.{mapping_items-Items, move_foot_in-spelled}
use yaml.Compose.Anchors.{IsEntered}

Tail-whole :
    (whole : List Event)
    → (e : Event) (es taken rest : List Event) (last : Event) (s : Stack) (u : Tree) (d : Composer)
    → es ≡ taken ++ (last ∷ rest)
    → Completes rest s
    → IsFresh whole rest d
    → spelled u ≡ brief e ∷ (map brief taken ++ brief last ∷ [])
    → Tail whole (e ∷ es) s (spelled u) d
Tail-whole whole e es taken rest last s u d q h f text = (
  e ∷ (taken ++ last ∷ []),
  rest,
  ap (λ x. e ∷ x) (q ∙ sym (append_assoc taken (last ∷ []) rest)),
  omega (arith, ap length q, length-append taken (last ∷ rest)),
  h,
  ap (λ x. brief e ∷ x) (map-append brief taken (last ∷ [])) ∙ sym text,
  f,
)

spelled_onto :
    (all : List Tree) (bs : List Brief)
    → spelled_reverse all ≡ spelled_reverse [] ++ bs
    → spelled_all (onto all no_trees) ≡ bs
unfolding spelled_reverse spelled
spelled_onto all bs h = spelled_all-onto all no_trees ∙ append-nil (spelled_reverse all) ∙ h

spelled-sequence :
    (first last : Event) (f : Fields) (c : Trees) (inner : List Brief)
    → first.typ ≡ sequence_start_event
    → last.typ ≡ sequence_end_event
    → Shows sequence_node []
        (given_tag first.tag)
        first.anchor
        unquoted
        (has_flag first.style flow_style)
        f
    → spelled_all c ≡ inner
    → spelled (tree f c) ≡ brief first ∷ (inner ++ brief last ∷ [])
unfolding spelled
spelled-sequence first last f c inner k l (p, q, r, s, t, u) x = rw (p, r, s, u, x, k, l) refl

spelled-mapping :
    (first last : Event) (f : Fields) (c : Trees) (inner : List Brief)
    → first.typ ≡ mapping_start_event
    → last.typ ≡ mapping_end_event
    → Shows mapping_node []
        (given_tag first.tag)
        first.anchor
        unquoted
        (has_flag first.style flow_style)
        f
    → spelled_all c ≡ inner
    → spelled (tree f c) ≡ brief first ∷ (inner ++ brief last ∷ [])
unfolding spelled
spelled-mapping first last f c inner k l (p, q, r, s, t, u) x = rw (p, r, s, u, x, k, l) refl

spelled-document :
    (first last : Event) (f : Fields) (t : Tree) (inner : List Brief)
    → first.typ ≡ document_start_event
    → last.typ ≡ document_end_event
    → f.kind ≡ document_node
    → inner ≡ spelled t
    → spelled (tree f (and_tree t no_trees)) ≡ brief first ∷ (inner ++ brief last ∷ [])
unfolding spelled
spelled-document first last f t inner k l p x = rw (p, x, k, l, append-nil (spelled t)) refl

either_kind :
    (b : Bool) (f g : Fields) (k : Kind) → f.kind ≡ k → g.kind ≡ k → (if b then f else g).kind ≡ k
either_kind true f g k p q = p
either_kind false f g k p q = q

document_ends :
    (t : EventType) (s r : Stack)
    → accept t (document_end ∷ s) ≡ some r
    → (t ≡ document_end_event) × (documents ∷ s ≡ r)
unfolding accept
document_ends document_end_event s r h = (refl, cc)
document_ends _ s r h = cc h

module _ (whole : List Event) (lib : Library) (n : ℕ) (parse : Composing (Option Tree))
    (child : IsChild whole n parse) where
  collection_fields-At :
      (kind : Kind) (default : Bytes) (es : List Event) (c : Composer)
      → At whole c.event es c
      → Succeeds whole (collection_fields lib kind default c) (λ g d.
        At whole c.event es d
        × IsEntered c.event d.anchors
        × Shows kind []
            (given_tag c.event.tag)
            c.event.anchor
            unquoted
            (has_flag c.event.style flow_style)
            g)
  collection_fields-At kind default es c h =
      let e = c.event in
      Succeeds-continue whole _ (node lib kind default e.tag [] c) _
        (node-At whole lib kind default e.tag [] e es c h)
        (λ f d (i, (s1, s2, s3, s4, s5, s6)).
          set_anchor-At whole
            (record f { style = record f.style { flow = has_flag e.style flow_style } }) e.anchor e
            es d kind [] (given_tag e.tag) unquoted (has_flag e.style flow_style) refl i
            (s1, s2, s3, s4, s5, refl))

  pub sequence-Tail :
      (es : List Event) (s : Stack) (c : Composer)
      → At whole c.event es c
      → c.event.typ ≡ sequence_start_event
      → length es ≤ n
      → Completes es (items ∷ s)
      → Succeeds whole (sequence lib n parse c) (λ t d. Tail whole (c.event ∷ es) s (spelled t) d)
  unfolding sequence
  sequence-Tail es s c h k b comp =
      Succeeds-continue whole _ (collection_fields lib sequence_node seq_tag c) _
        (collection_fields-At sequence_node seq_tag es c h)
        (λ g d1 (at1, w, shows).
          Succeeds-continue whole _ (expect sequence_start_event d1) _
            (consumed whole sequence_start_event c.event es d1 k refl w at1)
            (λ u d2 fresh.
              Succeeds-continue whole _ (sequence_items lib n parse [] d2) _
                (sequence_items-Items whole lib n parse child n es [] s d2 b b comp
                  (IsFresh-Ahead whole es items s d2 comp fresh))
                (λ all d3 (taken, last, rest, eq, typ, comp3, text, at3).
                  Succeeds-continue whole _ (expect sequence_end_event d3) _
                    (consumed_plain whole sequence_end_event last rest d3 typ refl refl at3)
                    (λ v d4 fresh4.
                      Tail-whole whole c.event es taken rest last s _ d4 eq comp3 fresh4 (
                        spelled-sequence c.event last _ (onto all no_trees) (map brief taken) k typ
                          shows (spelled_onto all (map brief taken) text))))))

  pub mapping-Tail :
      (es : List Event) (s : Stack) (c : Composer)
      → At whole c.event es c
      → c.event.typ ≡ mapping_start_event
      → length es ≤ n
      → Completes es (keys ∷ s)
      → Succeeds whole (mapping lib n parse c) (λ t d. Tail whole (c.event ∷ es) s (spelled t) d)
  unfolding mapping
  mapping-Tail es s c h k b comp =
      Succeeds-continue whole _ (collection_fields lib mapping_node map_tag c) _
        (collection_fields-At mapping_node map_tag es c h)
        (λ g d1 (at1, w, shows).
          Succeeds-continue whole _ (expect mapping_start_event d1) _
            (consumed whole mapping_start_event c.event es d1 k refl w at1)
            (λ u d2 fresh.
              Succeeds-continue whole _ (mapping_items lib n (not g.style.flow) parse [] d2) _
                (mapping_items-Items whole lib n (not g.style.flow) parse child n es [] s d2 b b
                  comp (IsFresh-Ahead whole es keys s d2 comp fresh))
                (λ all d3 (taken, last, rest, eq, typ, comp3, text, at3).
                  Succeeds-continue whole _ (expect mapping_end_event d3) _
                    (consumed_plain whole mapping_end_event last rest d3 typ refl refl at3)
                    (λ v d4 fresh4.
                      Tail-whole whole c.event es taken rest last s _ d4 eq comp3 fresh4 (
                        spelled-mapping c.event last _
                          (onto (move_foot_in g.style.flow d3.event.foot_comment all).1 no_trees)
                          (map brief taken) k typ shows
                          (spelled_onto (move_foot_in g.style.flow d3.event.foot_comment all).1
                            (map brief taken)
                            (move_foot_in-spelled g.style.flow d3.event.foot_comment all
                              ∙ text)))))))

  node-Reads :
      (es : List Event) (s : Stack) (c : Composer)
      → length es ≤ n
      → Completes es (Expected.node ∷ s)
      → IsFresh whole es c
      → Succeeds whole (parse_child lib parse c) (λ v d. Tail whole es s (spelled v) d)
  unfolding accept_all
  node-Reads [] s c b (a, m) f = cc a
  node-Reads (e ∷ es) s c b h f =
      let (r, acc, comp, tail) = Completes-first e es (Expected.node ∷ s) h in
      parse_child-Reads whole lib parse (e ∷ es) s c
        (child e es s r c (omega arith) (node-Begins e.typ s r acc) comp (inl f))

  -- The end of a document: the event is the first of the rest.
  abbrev DocumentEnd : List Event → Stack → Composer → Type 0
  DocumentEnd es s d =
      (e : Event) × (rest : List Event) × (es ≡ e ∷ rest)
      × (e.typ ≡ document_end_event)
      × Completes rest (documents ∷ s)
      × At whole e rest d

  peek_document_end :
      (es : List Event) (s : Stack) (c : Composer)
      → Completes es (document_end ∷ s)
      → IsFresh whole es c
      → Succeeds whole (peek c) (λ t d. (t ≡ document_end_event) × DocumentEnd es s d)
  unfolding accept_all
  peek_document_end [] s c (a, m) f = cc a
  peek_document_end (e ∷ es) s c h f =
      let (r, acc, comp, tail) = Completes-first e es (document_end ∷ s) h in
      let (typ, same) = document_ends e.typ s r acc in
      Succeeds-map whole _ (peek c)
        (peek-Before whole e es c (accepted_event e.typ (document_end ∷ s) r acc) (inl f))
        (λ t d (q, at). (q ∙ typ, (e, es, refl, typ, subst (Completes es) (sym same) comp, at)))

  pub document-Tail :
      (es : List Event) (s : Stack) (c : Composer)
      → At whole c.event es c
      → c.event.typ ≡ document_start_event
      → length es ≤ n
      → Completes es (Expected.node ∷ document_end ∷ s)
      → Succeeds whole
          (document lib parse c)
          (λ t d. Tail whole (c.event ∷ es) (documents ∷ s) (spelled t) d)
  unfolding document
  document-Tail es s c h k b comp =
      Succeeds-continue whole _ (node lib document_node [] [] [] c) _
        (node-At whole lib document_node [] [] [] c.event es c h)
        (λ f d1 (at1, (s1, s2, s3, s4, s5, s6)).
          Succeeds-continue whole _
            (expect document_start_event (record d1 { doc = some f.address })) _
            (consumed_plain whole document_start_event c.event es
              (record d1 { doc = some f.address }) k refl refl at1)
            (λ u d2 fresh.
              Succeeds-continue whole _ (parse_child lib parse d2) _
                (node-Reads es (document_end ∷ s) d2 b comp fresh)
                (λ t d3 (taken, rest, eq, less, comp3, text, fresh3).
                  Succeeds-continue whole _ (peek d3) _ (peek_document_end rest s d3 comp3 fresh3)
                    (λ ty d4 (tyq, (last, rest4, eq4, typ, comp4, at4)).
                      Succeeds-continue whole _ (expect document_end_event d4) _
                        (consumed_plain whole document_end_event last rest4 d4 typ refl refl at4)
                        (λ v d5 fresh5.
                          Tail-whole whole c.event es taken rest4 last (documents ∷ s) _ d5
                            (eq ∙ ap (λ x. taken ++ x) eq4) comp4 fresh5
                            (spelled-document c.event last _ t (map brief taken) k typ
                              (either_kind _ _ f document_node s1 s1) text))))))
