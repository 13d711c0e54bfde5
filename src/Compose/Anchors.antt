-- ===== src/Compose/Anchors.antt =====
-- The anchors that `anchor` in decode.go enters in `p.anchors`, against the events that give them.
use mathlib.Core.List.{append_assoc}
use yaml.Base.{
  List, [], ◌∷◌, ◌++◌, Bool, true, false, not, ◌&&◌, ◌≡◌, refl, ◌∙◌, sym, some, none, inl, inr,
  Bool-cases, Bytes, equal, is_empty, ℕ,
}
use yaml.Types.{
  Event, EventType, alias_event, scalar_event, sequence_start_event, mapping_start_event,
}
use yaml.Resolve.Tags.{map_entry}

abbrev pub begins_node : EventType → Bool
begins_node scalar_event = true
begins_node sequence_start_event = true
begins_node mapping_start_event = true
begins_node _ = false

-- The event begins a node with this anchor.
abbrev pub gives : Event → Bytes → Bool
gives e b = not (is_empty e.anchor) && equal e.anchor b && begins_node e.typ

-- No node that begins in these events has the anchor.
abbrev pub IsNew : Bytes → List Event → Type 0
IsNew b [] = Unit
IsNew b (e ∷ es) = (gives e b ≡ false) × IsNew b es

-- Among the events is an alias with this anchor, and no node that begins before it has the anchor.
abbrev pub IsUnknown : List Event → Bytes → Type 0
IsUnknown whole b =
    (before : List Event) × (e : Event) × (after : List Event) × (whole ≡ before ++ (e ∷ after))
    × (e.typ ≡ alias_event)
    × (e.anchor ≡ b)
    × IsNew b before

-- Behind the events that are read, the anchors without an entry are those that no node has had.
abbrev pub Knows : List Event → List Event → List (Bytes × ℕ) → Type 0
Knows whole es anchors =
    (before : List Event) × (whole ≡ before ++ es)
    × ((b : Bytes) → map_entry b anchors ≡ none → IsNew b before)

-- The anchor that the event gives, if it gives one, has an entry.
abbrev pub IsEntered : Event → List (Bytes × ℕ) → Type 0
IsEntered e anchors = (b : Bytes) → map_entry b anchors ≡ none → gives e b ≡ false

IsNew-append :
    (b : Bytes) (es : List Event) (e : Event)
    → IsNew b es
    → gives e b ≡ false
    → IsNew b (es ++ (e ∷ []))
IsNew-append b [] e h k = (k, tt)
IsNew-append b (x ∷ es) e (g, h) k = (g, IsNew-append b es e h k)

-- An event is consumed.
pub Knows-next :
    (whole : List Event) (e : Event) (es : List Event) (m : List (Bytes × ℕ))
    → IsEntered e m
    → Knows whole (e ∷ es) m
    → Knows whole es m
Knows-next whole e es m w (before, q, new) = (
  before ++ (e ∷ []),
  q ∙ sym (append_assoc before (e ∷ []) es),
  λ b n. IsNew-append b before e (new b n) (w b n),
)

absent_below :
    (key : Bytes) (v : ℕ) (m : List (Bytes × ℕ)) (b : Bytes)
    → map_entry b ((key, v) ∷ m) ≡ none
    → (equal key b ≡ false) × (map_entry b m ≡ none)
unfolding map_entry
absent_below key v m b h = elim (Bool-cases (equal key b)) [
  | inl k ↦ let x : some v ≡ none = rw k at h in cc x
  | inr k ↦ let x : map_entry b m ≡ none = rw k at h in (k, x)
]

-- An entry is added.
pub Knows-entry :
    (whole es : List Event) (key : Bytes) (v : ℕ) (m : List (Bytes × ℕ))
    → Knows whole es m
    → Knows whole es ((key, v) ∷ m)
Knows-entry whole es key v m (before, q, new) =
    (before, q, λ b n. let (x, y) = absent_below key v m b n in new b y)

pub IsEntered-entry : (e : Event) (v : ℕ) (m : List (Bytes × ℕ)) → IsEntered e ((e.anchor, v) ∷ m)
IsEntered-entry e v m b n =
    let (x, y) = absent_below e.anchor v m b n in
    rw x (never (not (is_empty e.anchor)) (begins_node e.typ))
  where
    never : (x y : Bool) → (x && false && y) ≡ false
    never true true = refl
    never true false = refl
    never false true = refl
    never false false = refl

pub IsEntered-unanchored : (e : Event) (m : List (Bytes × ℕ)) → e.anchor ≡ [] → IsEntered e m
IsEntered-unanchored e m q b n = rw q refl

-- An event that begins no node of its own gives no anchor.
pub IsEntered-plain :
    (t : EventType) (e : Event) (m : List (Bytes × ℕ))
    → e.typ ≡ t
    → begins_node t ≡ false
    → IsEntered e m
IsEntered-plain t e m q k b n = rw (q, k) (never (not (is_empty e.anchor)) (equal e.anchor b))
  where
    never : (x y : Bool) → (x && y && false) ≡ false
    never true true = refl
    never true false = refl
    never false true = refl
    never false false = refl
