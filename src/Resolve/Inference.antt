-- ===== src/Resolve/Inference.antt =====
-- What `resolve` may return.
use yaml.Base.{
  [], ◌∷◌, ℕ, Bool, true, false, Bytes, Option, none, some, equal, refl, arith, ◌≡◌, ◌≢◌, inl, inr,
  Bool-cases, ◌∙◌, sym, eq_of_equal,
}
use yaml.Resolve.Scalar.{
  Library, Hint, no_hint, sign_hint, digit_hint, map_hint, dot_hint, empty_hint, check_tag, infer,
  Value, hint_of, no_handler, is_no_hint,
}
use mathlib.Core.Path.{subst}
use yaml.Resolve.Tags.{
  map_entry, str_tag, is_resolvable_tag, short_tag, binary_tag, float_tag, has_prefix,
}
use yaml.Resolve.Scalar.{
  Value, Switched, panics, returns, leaves, check_tag, infer, switch_hint, resolve_short, resolve,
  Resolved, resolved, no_handler, switched, text, hint_of, resolve_table,
}

module _ (lib : Library) where
  check_tag-ne-no_handler : (tag s t : Bytes) (v : Value lib) → check_tag lib tag s t v ≢ no_handler
  unfolding check_tag
  check_tag-ne-no_handler tag s t v = ground arith

  switched-ne-panics : (r : Option (Bytes × Value lib)) → switched lib r ≢ panics
  switched-ne-panics none e = cc e
  switched-ne-panics (some (t, v)) e = cc e

  switch_hint-ne-panics :
      (h : Hint) (tag : Bytes) (d : Bool) (s : Bytes)
      → is_no_hint lib h ≡ false
      → h ≢ empty_hint
      → switch_hint lib h tag d s ≢ panics
  unfolding switch_hint
  switch_hint-ne-panics no_hint tag d s n m e = cc n
  switch_hint-ne-panics empty_hint tag d s n m e = m refl
  switch_hint-ne-panics map_hint tag d s n m e = cc e
  switch_hint-ne-panics dot_hint tag d s n m e = switched-ne-panics _ e
  switch_hint-ne-panics digit_hint tag d s n m e = switched-ne-panics _ e
  switch_hint-ne-panics sign_hint tag d s n m e = switched-ne-panics _ e

  hint_of-more : (c : ℕ) (cs : Bytes) → hint_of (c ∷ cs) ≢ empty_hint
  unfolding hint_of resolve_table
  hint_of-more c cs = ground arith

  infer-ne-panics : (tag s : Bytes) (d : Bool) → infer lib tag s d ≢ panics
  unfolding infer
  infer-ne-panics tag [] d = unfold hint_of map_entry equal in ground arith
  infer-ne-panics tag (c ∷ cs) d =
      ground (arith, switch_hint-ne-panics (hint_of (c ∷ cs)) tag d (c ∷ cs), hint_of-more c cs)

  -- What is left to do behind the inference.
  abbrev pub finish : Bytes → Bytes → Switched lib → Resolved (Value lib)
  finish tag s (returns t v) = check_tag lib tag s t v
  finish tag s leaves = check_tag lib tag s str_tag (text s)
  finish tag s panics = no_handler

  resolve_short_untouched :
      (tag s : Bytes) (d : Bool)
      → is_resolvable_tag tag ≡ false
      → resolve_short lib tag s d ≡ resolved tag (text s)
  unfolding resolve_short
  resolve_short_untouched tag s d h = rw h refl

  pub resolve_short_inferred :
      (tag s : Bytes) (d : Bool)
      → is_resolvable_tag tag ≡ true
      → resolve_short lib tag s d ≡ finish tag s (infer lib tag s d)
  unfolding resolve_short
  resolve_short_inferred tag s d h = rw h (by_switch (infer lib tag s d))
    where
      by_switch :
          (w : Switched lib)
          → (elim w [
            | returns t v ↦ check_tag lib tag s t v
            | leaves ↦ check_tag lib tag s str_tag (text s)
            | panics ↦ no_handler
          ])
            ≡ finish tag s w
      by_switch (returns t v) = refl
      by_switch leaves = refl
      by_switch panics = refl

  finish-ne-no_handler :
      (tag s : Bytes) (w : Switched lib) → w ≢ panics → finish tag s w ≢ no_handler
  finish-ne-no_handler tag s (returns t v) n e = check_tag-ne-no_handler tag s t v e
  finish-ne-no_handler tag s leaves n e = check_tag-ne-no_handler tag s str_tag (text s) e
  finish-ne-no_handler tag s panics n e = n refl

  -- `resolve` never meets a hint that its switch has no case for.
  pub resolve-ne-no_handler : (tag s : Bytes) (d : Bool) → resolve lib tag s d ≢ no_handler
  unfolding resolve
  resolve-ne-no_handler tag s d e = elim (Bool-cases (is_resolvable_tag (short_tag tag))) [
    | inl h ↦
        finish-ne-no_handler (short_tag tag) s (infer lib (short_tag tag) s d)
          (infer-ne-panics (short_tag tag) s d)
          (sym (resolve_short_inferred (short_tag tag) s d h) ∙ e)
    | inr h ↦ cc (resolve_short_untouched (short_tag tag) s d h)
  ]

  infer_str : (s : Bytes) (d : Bool) → infer lib str_tag s d ≡ leaves
  unfolding infer
  infer_str s d = unfold equal in ground arith

  check_tag_given :
      (tag s t r : Bytes) (v w : Value lib)
      → tag ≢ []
      → equal tag str_tag ≡ false
      → equal tag binary_tag ≡ false
      → check_tag lib tag s t v ≡ resolved r w
      → r ≡ tag
  unfolding check_tag
  check_tag_given [] s t r v w n a b e = absurd (n refl)
  check_tag_given (c ∷ cs) s t r v w n a b e =
      ground (arith, eq_of_equal (c ∷ cs) t, eq_of_equal (c ∷ cs) float_tag)

  finish_str :
      (s r : Bytes) (d : Bool) (w : Value lib)
      → finish str_tag s (infer lib str_tag s d) ≡ resolved r w
      → r ≡ str_tag
  finish_str s r d w e =
      let q : check_tag lib str_tag s str_tag (text s) ≡ resolved r w = rw (infer_str s d) at e in
      unfold check_tag equal in ground (arith, q)

  not_binary : (tag : Bytes) → is_resolvable_tag tag ≡ true → equal tag binary_tag ≡ false
  not_binary tag h = elim (Bool-cases (equal tag binary_tag)) [
    | inr q ↦ q
    | inl q ↦
        let t : is_resolvable_tag binary_tag ≡ true =
          subst (λ x. is_resolvable_tag x ≡ true) (eq_of_equal tag binary_tag q) h in
        unfold is_resolvable_tag equal in cc t
  ]

  finish_given_other :
      (tag s r : Bytes) (u : Switched lib) (w : Value lib)
      → tag ≢ []
      → equal tag str_tag ≡ false
      → equal tag binary_tag ≡ false
      → finish tag s u ≡ resolved r w
      → r ≡ tag
  finish_given_other tag s r (returns t v) w n a b e = check_tag_given tag s t r v w n a b e
  finish_given_other tag s r leaves w n a b e = check_tag_given tag s str_tag r (text s) w n a b e
  finish_given_other tag s r panics w n a b e = cc e

  -- `resolve` honours a tag: if the tag that it is given is not empty, in its short form, the tag that
  -- it returns is that one.
  pub resolve-keeps_tag :
      (tag s r : Bytes) (d : Bool) (w : Value lib)
      → short_tag tag ≢ []
      → resolve lib tag s d ≡ resolved r w
      → r ≡ short_tag tag
  unfolding resolve
  resolve-keeps_tag tag s r d w n e = elim (Bool-cases (is_resolvable_tag (short_tag tag))) [
    | inr h ↦ cc (resolve_short_untouched (short_tag tag) s d h)
    | inl h ↦
        let q : finish (short_tag tag) s (infer lib (short_tag tag) s d) ≡ resolved r w =
          sym (resolve_short_inferred (short_tag tag) s d h) ∙ e in
        elim (Bool-cases (equal (short_tag tag) str_tag)) [
          | inl t ↦
              subst (λ x. finish x s (infer lib x s d) ≡ resolved r w → r ≡ x)
                (sym (eq_of_equal (short_tag tag) str_tag t)) (finish_str s r d w) q
          | inr t ↦
              finish_given_other (short_tag tag) s r (infer lib (short_tag tag) s d) w n t
                (not_binary (short_tag tag) h) q
        ]
  ]

  finish_untagged :
      (s : Bytes) (w : Switched lib)
      → w ≢ panics
      → (t : Bytes) × (v : Value lib) × (finish [] s w ≡ resolved t v)
  unfolding check_tag
  finish_untagged s (returns t v) n = (t, v, refl)
  finish_untagged s leaves n = (str_tag, text s, refl)
  finish_untagged s panics n = absurd (n refl)

  -- `resolve` finds a tag and a value for every text without a tag.
  pub resolve-untagged :
      (s : Bytes) (d : Bool) → (t : Bytes) × (v : Value lib) × (resolve lib [] s d ≡ resolved t v)
  unfolding resolve short_tag has_prefix is_resolvable_tag equal
  resolve-untagged s d =
      let (t, v, q) = finish_untagged s (infer lib [] s d) (infer-ne-panics [] s d) in
      (t, v, resolve_short_inferred [] s d refl ∙ q)
