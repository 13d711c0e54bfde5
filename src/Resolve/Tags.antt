-- ===== src/Resolve/Tags.antt =====
-- `shortTag`, `longTag` and `resolvableTag`.
use yaml.Base.{
  List, [], ◌∷◌, ◌++◌, Bool, true, false, ◌||◌, ◌&&◌, ◌==◌, Bytes, Option, none, some, codes, equal,
  if◌then◌else◌, length, drop,
}

abbrev pub null_tag : Bytes
null_tag = codes "!!null"

abbrev pub bool_tag : Bytes
bool_tag = codes "!!bool"

abbrev pub str_tag : Bytes
str_tag = codes "!!str"

abbrev pub int_tag : Bytes
int_tag = codes "!!int"

abbrev pub float_tag : Bytes
float_tag = codes "!!float"

abbrev pub timestamp_tag : Bytes
timestamp_tag = codes "!!timestamp"

abbrev pub seq_tag : Bytes
seq_tag = codes "!!seq"

abbrev pub map_tag : Bytes
map_tag = codes "!!map"

abbrev pub binary_tag : Bytes
binary_tag = codes "!!binary"

abbrev pub merge_tag : Bytes
merge_tag = codes "!!merge"

abbrev pub long_tag_prefix : Bytes
long_tag_prefix = codes "tag:yaml.org,2002:"

-- `strings.HasPrefix(s, prefix)`
unfoldable pub has_prefix : Bytes → Bytes → Bool
has_prefix s [] = true
has_prefix [] (p ∷ ps) = false
has_prefix (c ∷ cs) (p ∷ ps) = c == p && has_prefix cs ps

-- `m[key]` with its second result; a map is a list of its entries.
unfoldable pub map_entry {ℓ} : {V : Type ℓ} → Bytes → List (Bytes × V) → Option V
map_entry key [] = none
map_entry key ((k, v) ∷ m) = if equal k key then some v else map_entry key m

-- The list in `init`.
abbrev pub known_tags : List Bytes
known_tags =
    null_tag ∷ bool_tag ∷ str_tag ∷ int_tag ∷ float_tag ∷ timestamp_tag ∷ seq_tag ∷ map_tag
    ∷ binary_tag ∷ merge_tag ∷ []

-- `longTag` with the map `longTags` as an argument: `init` calls it while it fills the map.
unfoldable pub long_tag_by : List (Bytes × Bytes) → Bytes → Bytes
unfolding has_prefix map_entry
long_tag_by long_tags tag =
    if has_prefix tag (codes "!!")
    then (elim (map_entry tag long_tags) [
      | some ltag ↦ ltag
      | none ↦ long_tag_prefix ++ drop 2 tag
    ])
    else tag

-- The loop of `init` over the tags: it adds to `longTags`.
abbrev pub fill_long_tags : List Bytes → List (Bytes × Bytes) → List (Bytes × Bytes)
fill_long_tags [] m = m
fill_long_tags (stag ∷ rest) m = fill_long_tags rest ((stag, long_tag_by m stag) ∷ m)

-- And to `shortTags`.
abbrev pub fill_short_tags : List (Bytes × Bytes) → List (Bytes × Bytes)
fill_short_tags [] = []
fill_short_tags ((stag, ltag) ∷ rest) = (ltag, stag) ∷ fill_short_tags rest

abbrev pub long_tags : List (Bytes × Bytes)
long_tags = fill_long_tags known_tags []

abbrev pub short_tags : List (Bytes × Bytes)
short_tags = fill_short_tags long_tags

-- `longTag`
unfoldable pub long_tag : Bytes → Bytes
unfolding long_tag_by
long_tag tag = long_tag_by long_tags tag

-- `shortTag`
unfoldable pub short_tag : Bytes → Bytes
unfolding has_prefix map_entry long_tag_by
short_tag tag =
    if has_prefix tag long_tag_prefix
    then (elim (map_entry tag short_tags) [
      | some stag ↦ stag
      | none ↦ codes "!!" ++ drop (length long_tag_prefix) tag
    ])
    else tag

-- `resolvableTag`
unfoldable pub is_resolvable_tag : Bytes → Bool
is_resolvable_tag tag =
    equal tag []
    || equal tag str_tag
    || equal tag bool_tag
    || equal tag int_tag
    || equal tag float_tag
    || equal tag null_tag
    || equal tag timestamp_tag
