-- ===== src/Compose/Leaves.antt =====
-- What `node` and `anchor` make of the event that was read, and the nodes without content.
use yaml.Base.{
  List, [], ◌∷◌, Bool, true, false, Bytes, if◌then◌else◌, ◌≡◌, refl, inl, inr, Bool-cases, is_empty,
  Option, ℕ, some, none, ap, ◌∙◌, subst,
}
use yaml.Compose.State.{continue, ◌is_event◌, expect, composed, thrown, unknown_anchor}
use yaml.Compose.Composer.{scalar, alias, anchor_address, default_tag}
use yaml.Compose.State.{tree, no_trees}
use yaml.Compose.Feeding.{At, Succeeds, Succeeds-continue, is_expectable, IsFresh, expect-At}
use yaml.Origin.Nodes.{Kind, is_scalar_kind, scalar_node, alias_node}
use yaml.Resolve.Scalar.{Library}
use yaml.Compose.State.{Quoting, Fields, Composer, unquoted}
use yaml.Types.{Event, EventType, scalar_event, alias_event}
use yaml.Compose.Composer.{node, implied_tag, new_node}
use yaml.Compose.Spelling.{own_tag, given_tag, spelled, brief}
use yaml.Compose.Fields.{is_given, set_anchor, quoting_of}
use yaml.Resolve.Tags.{short_tag, map_entry}
use yaml.Resolve.Inference.{resolve-untagged}
use yaml.Compose.Anchors.{
  IsEntered, IsEntered-unanchored, Knows-next, Knows-entry, IsEntered-entry, Knows, begins_node,
  IsEntered-plain,
}

-- The fields of a node that its events tell.
abbrev pub Shows : Kind → Bytes → Bytes → Bytes → Quoting → Bool → Fields → Type 0
Shows kind value tag anchor quoting flow f =
    (f.kind ≡ kind)
    × (f.value ≡ value)
    × (own_tag f ≡ tag)
    × (f.anchor ≡ anchor)
    × (f.style.quoting ≡ quoting)
    × (f.style.flow ≡ flow)

module _ (whole : List Event) (lib : Library) where
  implied_tag-At :
      (kind : Kind) (default tag value : Bytes) (e : Event) (es : List Event) (c : Composer)
      → At whole e es c
      → Succeeds whole (implied_tag lib kind default tag value c) (λ t d. At whole e es d)
  implied_tag-At kind default tag value e es c h = elim (Bool-cases (is_empty default)) [
    | inr x ↦ rw (x, Succeeds) h
    | inl x ↦ elim (Bool-cases (is_scalar_kind kind)) [
      | inr y ↦ rw (x, y, Succeeds) h
      | inl y ↦
          let (t, v, q) = resolve-untagged lib value c.disable_timestamps in
          rw (x, y, q, Succeeds) h
    ]
  ]

  new_node-Shows :
      (kind : Kind) (given : Bool) (t u value : Bytes) (e : Event) (es : List Event) (c : Composer)
      → At whole e es c
      → (if given then t else []) ≡ given_tag u
      → Succeeds whole
          (new_node lib kind
            (record { tagged = given; quoting = unquoted; flow = false })
            t
            value
            c)
          (λ f d. At whole e es d × Shows kind value (given_tag u) [] unquoted false f)
  new_node-Shows kind given t u value e es c k q = elim (Bool-cases c.textless) [
    | inl x ↦ rw x (k, (refl, refl, q, refl, refl, refl))
    | inr x ↦ rw x (k, (refl, refl, q, refl, refl, refl))
  ]

  node_given :
      (kind : Kind) (default tag value : Bytes) (c : Composer)
      → is_given tag ≡ true
      → node lib kind default tag value c
        ≡ new_node lib kind
            (record { tagged = true; quoting = unquoted; flow = false })
            (short_tag tag)
            value
            c
  unfolding node
  node_given kind default tag value c x = rw x refl

  node_implied :
      (kind : Kind) (default tag value : Bytes) (c : Composer)
      → is_given tag ≡ false
      → node lib kind default tag value c
        ≡ continue (implied_tag lib kind default tag value c) (λ t.
          new_node lib kind (record { tagged = false; quoting = unquoted; flow = false }) t value)
  unfolding node
  node_implied kind default tag value c x = rw x refl

  pub node-At :
      (kind : Kind) (default tag value : Bytes) (e : Event) (es : List Event) (c : Composer)
      → At whole e es c
      → Succeeds whole
          (node lib kind default tag value c)
          (λ f d. At whole e es d × Shows kind value (given_tag tag) [] unquoted false f)
  node-At kind default tag value e es c h = elim (Bool-cases (is_given tag)) [
    | inl x ↦
        rw (node_given kind default tag value c x)
          (new_node-Shows kind true (short_tag tag) tag value e es c h (rw x refl))
    | inr x ↦ rw (node_implied kind default tag value c x) (
        Succeeds-continue whole _ (implied_tag lib kind default tag value c) _
          (implied_tag-At kind default tag value e es c h)
          (λ t d k. new_node-Shows kind false t tag value e es d k (rw x refl)))
  ]

-- `anchor` sets the anchor, and nothing that is shown else; the anchor has an entry then.
pub set_anchor-At :
    (whole : List Event) (f : Fields) (a : Bytes) (e : Event) (es : List Event) (c : Composer)
    (kind : Kind) (value tag : Bytes) (quoting : Quoting) (flow : Bool)
    → e.anchor ≡ a
    → At whole e es c
    → Shows kind value tag [] quoting flow f
    → Succeeds whole
        (set_anchor f a c)
        (λ g d. At whole e es d × IsEntered e d.anchors × Shows kind value tag a quoting flow g)
set_anchor-At whole f [] e es c kind value tag quoting flow x h k =
    (h, IsEntered-unanchored e c.anchors x, k)
set_anchor-At whole f (b ∷ a) e es c kind value tag quoting flow x (i, j, g, n) (p, q, r, s, t, u) =
    (
      (i, j, g, Knows-entry whole (c.event ∷ es) (b ∷ a) f.address c.anchors n),
      subst (λ y. IsEntered e ((y, f.address) ∷ c.anchors)) x
          (IsEntered-entry e f.address c.anchors),
      (p, q, r, refl, t, u),
    )

-- What `expect` leaves, of the event that it was asked for.
pub consumed :
    (whole : List Event) (t : EventType) (e : Event) (es : List Event) (c : Composer)
    → e.typ ≡ t
    → is_expectable t ≡ true
    → IsEntered e c.anchors
    → At whole e es c
    → Succeeds whole (expect t c) (λ u d. IsFresh whole es d)
unfolding ◌is_event◌
consumed whole t e es c k x w (i, a, f, n) = rw (expect-At whole t e es c k x (i, a, f, n)) (
  i,
  refl,
  f,
  Knows-next whole e es c.anchors w (subst (λ y. Knows whole (y ∷ es) c.anchors) a n),
)

-- The same for an event that gives no anchor.
pub consumed_plain :
    (whole : List Event) (t : EventType) (e : Event) (es : List Event) (c : Composer)
    → e.typ ≡ t
    → is_expectable t ≡ true
    → begins_node t ≡ false
    → At whole e es c
    → Succeeds whole (expect t c) (λ u d. IsFresh whole es d)
consumed_plain whole t e es c k x w =
    consumed whole t e es c k x (IsEntered-plain t e c.anchors k w)

spelled-scalar :
    (e : Event) (f : Fields)
    → e.typ ≡ scalar_event
    → Shows scalar_node e.value (given_tag e.tag) e.anchor (quoting_of e.style) false f
    → spelled (tree f no_trees) ≡ brief e ∷ []
unfolding spelled
spelled-scalar e f k (p, q, r, s, t, u) = rw (p, q, r, s, t, k) refl

spelled-alias :
    (e : Event) (f : Fields)
    → e.typ ≡ alias_event
    → f.kind ≡ alias_node
    → f.value ≡ e.anchor
    → spelled (tree f no_trees) ≡ brief e ∷ []
unfolding spelled
spelled-alias e f k p q = rw (p, q, k) refl

module _ (whole : List Event) (lib : Library) where
  pub scalar-At :
      (es : List Event) (c : Composer)
      → At whole c.event es c
      → c.event.typ ≡ scalar_event
      → Succeeds whole (scalar lib c) (λ t d. IsFresh whole es d × (spelled t ≡ brief c.event ∷ []))
  unfolding scalar
  scalar-At es c h k =
      let e = c.event in
      let q = quoting_of e.style in
      Succeeds-continue whole _ (node lib scalar_node (default_tag lib q e.value) e.tag e.value c) _
        (node-At whole lib scalar_node (default_tag lib q e.value) e.tag e.value e es c h)
        (λ f d (i, (s1, s2, s3, s4, s5, s6)).
          Succeeds-continue whole _
            (set_anchor (record f { style = record f.style { quoting = q } }) e.anchor d) _
            (set_anchor-At whole (record f { style = record f.style { quoting = q } }) e.anchor e es
              d scalar_node e.value (given_tag e.tag) q false refl i (s1, s2, s3, s4, refl, s6))
            (λ g d (j, w, s).
              Succeeds-continue whole _ (expect scalar_event d) _
                (consumed whole scalar_event e es d k refl w j)
                (λ u d r. (r, spelled-scalar e g k s))))

  anchor_address-At :
      (name : Bytes) (e : Event) (es : List Event) (c : Composer)
      → e.typ ≡ alias_event
      → e.anchor ≡ name
      → At whole e es c
      → Succeeds whole (anchor_address lib name c) (λ a d. At whole e es d)
  anchor_address-At name e es c k q (i, x, f, (before, eq, new)) =
      by_entry (map_entry name c.anchors) refl
    where
      by_entry :
          (a : Option ℕ)
          → map_entry name c.anchors ≡ a
          → Succeeds whole
              (elim a [ some a ↦ composed a c | none ↦ thrown (unknown_anchor name) ])
              (λ a d. At whole e es d)
      by_entry (some a) n = (i, x, f, (before, eq, new))
      by_entry none n =
          (before, c.event, es, eq, ap (λ y. y.typ) x ∙ k, ap (λ y. y.anchor) x ∙ q, new name n)

  pub alias-At :
      (es : List Event) (c : Composer)
      → At whole c.event es c
      → c.event.typ ≡ alias_event
      → Succeeds whole (alias lib c) (λ t d. IsFresh whole es d × (spelled t ≡ brief c.event ∷ []))
  unfolding alias
  alias-At es c h k =
      let e = c.event in
      Succeeds-continue whole
        {good = λ f d.
          At whole e es d × Shows alias_node e.anchor (given_tag []) [] unquoted false f}
        (λ t d. IsFresh whole es d × (spelled t ≡ brief c.event ∷ []))
        (node lib alias_node [] [] e.anchor c) _
        (node-At whole lib alias_node [] [] e.anchor e es c h)
        (λ f d (i, (s1, s2, s3, s4, s5, s6)).
          Succeeds-continue whole (λ t d. IsFresh whole es d × (spelled t ≡ brief c.event ∷ []))
            (anchor_address lib e.anchor d) _ (anchor_address-At e.anchor e es d k refl i)
            (λ a d j.
              Succeeds-continue whole (λ t d. IsFresh whole es d × (spelled t ≡ brief c.event ∷ []))
                (expect alias_event d) _ (consumed_plain whole alias_event e es d k refl refl j)
                (λ u d r. (r, spelled-alias e (record f { alias = some a }) k s1 s2))))
