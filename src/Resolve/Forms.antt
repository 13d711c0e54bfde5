-- ===== src/Resolve/Forms.antt =====
-- The short and the long form of a tag.
use yaml.Base.{
  List, [], ◌∷◌, ◌++◌, true, Bytes, Option, none, some, codes, equal, refl, arith, ◌≡◌, inl, inr,
  Bool-cases, ◌∙◌, ap, eq_of_equal, drop, length,
}
use yaml.Resolve.Tags.{
  has_prefix, map_entry, short_tag, long_tag, long_tag_by, long_tag_prefix, long_tags, short_tags,
}

has_prefix-append : (p s : Bytes) → has_prefix (p ++ s) p ≡ true
unfolding has_prefix
has_prefix-append [] s = unfold has_prefix in refl
has_prefix-append (c ∷ p) s = ground (arith, has_prefix-append p s)

-- The prefix with what follows it is the text.
append-drop : (s p : Bytes) → has_prefix s p ≡ true → p ++ drop (length p) s ≡ s
unfolding has_prefix
append-drop s [] h = refl
append-drop [] (c ∷ p) h = cc h
append-drop (a ∷ s) (c ∷ p) h = ground (arith, append-drop s p)

-- Each entry of a map is what a function gives.
abbrev MapsBy : (Bytes → Bytes) → List (Bytes × Bytes) → Type 0
MapsBy f [] = Unit
MapsBy f ((k, v) ∷ m) = (v ≡ f k) × MapsBy f m

map_entry-MapsBy :
    (f : Bytes → Bytes) (key v : Bytes) (m : List (Bytes × Bytes))
    → MapsBy f m
    → map_entry key m ≡ some v
    → v ≡ f key
unfolding map_entry
map_entry-MapsBy f key v [] r e = cc e
map_entry-MapsBy f key v ((k, l) ∷ m) (q, r) e = elim (Bool-cases (equal k key)) [
  | inl h ↦ let t : some l ≡ some v = rw h at e in let u : k ≡ key = eq_of_equal k key h in cc
  | inr h ↦ let t : map_entry key m ≡ some v = rw h at e in map_entry-MapsBy f key v m r t
]

abbrev lengthened : Bytes → Bytes
lengthened s = long_tag_prefix ++ drop 2 s

abbrev shortened : Bytes → Bytes
shortened t = codes "!!" ++ drop 18 t

long_tags-MapsBy : MapsBy lengthened long_tags
unfolding long_tag_by has_prefix map_entry equal
long_tags-MapsBy =
    (refl, (refl, (refl, (refl, (refl, (refl, (refl, (refl, (refl, (refl, tt))))))))))

short_tags-MapsBy : MapsBy shortened short_tags
unfolding long_tag_by has_prefix map_entry equal
short_tags-MapsBy =
    (refl, (refl, (refl, (refl, (refl, (refl, (refl, (refl, (refl, (refl, tt))))))))))

long_tag_lem : (s : Bytes) → has_prefix s (codes "!!") ≡ true → long_tag s ≡ lengthened s
unfolding long_tag long_tag_by
long_tag_lem s h = rw h (
    by_entry (map_entry s long_tags)
      (λ v. map_entry-MapsBy lengthened s v long_tags long_tags-MapsBy))
  where
    by_entry :
        (r : Option Bytes)
        → ((v : Bytes) → r ≡ some v → v ≡ lengthened s)
        → (elim r [ some ltag ↦ ltag | none ↦ lengthened s ]) ≡ lengthened s
    by_entry (some v) f = f v refl
    by_entry none f = refl

short_tag_lem : (t : Bytes) → has_prefix t long_tag_prefix ≡ true → short_tag t ≡ shortened t
unfolding short_tag
short_tag_lem t h = rw h (
    by_entry (map_entry t short_tags)
      (λ v. map_entry-MapsBy shortened t v short_tags short_tags-MapsBy))
  where
    by_entry :
        (r : Option Bytes)
        → ((v : Bytes) → r ≡ some v → v ≡ shortened t)
        → (elim r [ some stag ↦ stag | none ↦ shortened t ]) ≡ shortened t
    by_entry (some v) f = f v refl
    by_entry none f = refl

-- The short form of a tag has the tag as its long form, if the tag has the prefix of YAML's tags.
pub long_tag-short_tag :
    (t : Bytes) → has_prefix t long_tag_prefix ≡ true → long_tag (short_tag t) ≡ t
long_tag-short_tag t h =
    ap long_tag (short_tag_lem t h)
    ∙ long_tag_lem (shortened t) (has_prefix-append (codes "!!") (drop 18 t))
    ∙ append-drop t long_tag_prefix h

-- The long form of a tag has the tag as its short form, if the tag starts with two exclamation marks.
pub short_tag-long_tag : (s : Bytes) → has_prefix s (codes "!!") ≡ true → short_tag (long_tag s) ≡ s
short_tag-long_tag s h =
    ap short_tag (long_tag_lem s h)
    ∙ short_tag_lem (lengthened s) (has_prefix-append long_tag_prefix (drop 2 s))
    ∙ append-drop s (codes "!!") h
