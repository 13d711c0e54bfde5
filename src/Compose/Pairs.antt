-- ===== src/Compose/Pairs.antt =====
-- The loop of `mapping`, with a child method that reads one node.
use mathlib.Core.List.{append_assoc, map-append}
use yaml.Base.{
  List, [], ◌∷◌, ◌++◌, Bool, true, false, ◌≡◌, refl, map, ap, ◌∙◌, sym, arith, Option, inl, inr,
  length, ℕ, ◌≤◌, zero, suc, Bool-cases, is_empty, ◌&&◌, not, subst, Bytes,
}
use yaml.Compose.Loops.{Items-end, Items-join, Succeeds-map, IsChild, Tail, parse_child-Reads}
use yaml.Parser.Expect.{value, accept_all, is_tail_comment, Stack, keys}
use yaml.Compose.Composer.{tail_comment, mapping_items, parse_child}
use yaml.Compose.Spelling.{spelled_reverse, spelled, Brief, spelled-set_foot, brief}
use yaml.Compose.State.{Tree, ◌is_event◌, Composing, Composer, peek}
use yaml.Resolve.Scalar.{Library}
use yaml.Types.{EventType, Event, tail_comment_event, mapping_end_event}
use yaml.Compose.Fields.{move_foot_back, move_foot_up, move_foot_in, foot_of}
use yaml.Compose.Completion.{
  Completes, Ahead, Completes-first, value-Begins, accepted_event, ends_mapping, keys-Begins,
}
use yaml.Compose.Feeding.{IsFresh, Succeeds, Succeeds-continue, peek-Before}
use yaml.Compose.Loops.{Items}

-- Moving foot comments changes no text.
move_foot_back-spelled :
    (block : Bool) (k : Tree) (done : List Tree)
    → (spelled (move_foot_back block k done).0 ≡ spelled k)
      × (spelled_reverse (move_foot_back block k done).1 ≡ spelled_reverse done)
unfolding spelled_reverse
move_foot_back-spelled block k [] = (refl, refl)
move_foot_back-spelled block k (v ∷ []) = (refl, refl)
move_foot_back-spelled block k (v ∷ prior ∷ done) =
    elim (Bool-cases (block && not (is_empty (foot_of k)))) [
      | inl x ↦ rw x (
        spelled-set_foot [] k,
        ap (λ y. (spelled_reverse done ++ y) ++ spelled v) (spelled-set_foot (foot_of k) prior),
      )
      | inr x ↦ rw x (refl, refl)
    ]

move_foot_up-spelled :
    (k v : Tree)
    → (spelled (move_foot_up k v).0 ≡ spelled k) × (spelled (move_foot_up k v).1 ≡ spelled v)
move_foot_up-spelled k v = elim (Bool-cases (is_empty (foot_of k) && not (is_empty (foot_of v)))) [
  | inl x ↦ rw x (spelled-set_foot (foot_of v) k, spelled-set_foot [] v)
  | inr x ↦ rw x (refl, refl)
]

pub move_foot_in-spelled :
    (flow : Bool) (foot : Bytes) (done : List Tree)
    → spelled_reverse (move_foot_in flow foot done).1 ≡ spelled_reverse done
unfolding spelled_reverse
move_foot_in-spelled flow foot [] = refl
move_foot_in-spelled flow foot (v ∷ []) = refl
move_foot_in-spelled flow foot (v ∷ k ∷ done) =
    elim (Bool-cases (not flow && not (is_empty foot))) [
      | inl x ↦ rw x (ap (λ y. (spelled_reverse done ++ y) ++ spelled v) (spelled-set_foot foot k))
      | inr x ↦ rw x refl
    ]

tail_comment_code :
    (t : EventType) → is_tail_comment t ≡ false → (t is_event tail_comment_event) ≡ false
unfolding ◌is_event◌
tail_comment_code tail_comment_event h = cc h
tail_comment_code _ h = refl

-- The text of a pair behind that of the pairs before it.
pair_text :
    (before done : List Tree) (k v k' v' : Tree) (bs cs : List Brief)
    → spelled_reverse done ≡ spelled_reverse before
    → spelled k' ≡ spelled k
    → spelled v' ≡ spelled v
    → bs ≡ spelled k
    → cs ≡ spelled v
    → spelled_reverse (v' ∷ k' ∷ done) ≡ spelled_reverse before ++ (bs ++ cs)
unfolding spelled_reverse
pair_text before done k v k' v' bs cs p q r s t =
    rw (p, q, r, s, t) (append_assoc (spelled_reverse before) (spelled k) (spelled v))

module _ (whole : List Event) (lib : Library) where
  tail_comment-Ahead :
      (k : Tree) (es : List Event) (s : Stack) (c : Composer)
      → Completes es (keys ∷ s)
      → IsFresh whole es c
      → Succeeds whole (tail_comment lib k c) (λ k' d. (spelled k' ≡ spelled k) × Ahead whole es d)
  unfolding tail_comment accept_all
  tail_comment-Ahead k [] s c (a, n) f = cc a
  tail_comment-Ahead k (e ∷ es) s c h f =
      let (r, acc, comp, tail) = Completes-first e es (keys ∷ s) h in
      Succeeds-continue whole _ (peek c) _
        (peek-Before whole e es c (accepted_event e.typ (keys ∷ s) r acc) (inl f))
        (λ t d (q, at).
          let z : (t is_event tail_comment_event) ≡ false =
            ap (λ u. u is_event tail_comment_event) q ∙ tail_comment_code e.typ tail in
          rw (z, Succeeds) (refl, inr at))

  value-Reads :
      (n : ℕ) (parse : Composing (Option Tree))
      → IsChild whole n parse
      → (es : List Event) (s : Stack) (c : Composer) → length es ≤ n
      → Completes es (value ∷ s)
      → IsFresh whole es c
      → Succeeds whole (parse_child lib parse c) (λ v d. Tail whole es (keys ∷ s) (spelled v) d)
  unfolding accept_all
  value-Reads n parse child [] s c b (a, m) f = cc a
  value-Reads n parse child (e ∷ es) s c b h f =
      let (r, acc, comp, tail) = Completes-first e es (value ∷ s) h in
      parse_child-Reads whole lib parse (e ∷ es) (keys ∷ s) c
        (child e es (keys ∷ s) r c (omega arith) (value-Begins e.typ s r acc) comp (inl f))

  pub mapping_items-Items :
      (n : ℕ) (block : Bool) (parse : Composing (Option Tree))
      → IsChild whole n parse
      → (i : ℕ) (es : List Event) (done : List Tree) (s : Stack) (c : Composer) → length es ≤ i
      → length es ≤ n
      → Completes es (keys ∷ s)
      → Ahead whole es c
      → Succeeds whole
          (mapping_items lib i block parse done c)
          (Items whole mapping_end_event es s done)
  unfolding mapping_items
  mapping_items-Items n block parse child i [] done s c a b h x = absurd x
  mapping_items-Items n block parse child zero (e ∷ es) done s c a b h x = absurd (omega arith)
  mapping_items-Items n block parse child (suc i) (e ∷ es) done s c a b h x =
      let (r, acc, comp, tail) = Completes-first e es (keys ∷ s) h in
      Succeeds-continue whole _ (peek c) _
        (peek-Before whole e es c (accepted_event e.typ (keys ∷ s) r acc) x)
        (λ t d (q, at). elim (Bool-cases (t is_event mapping_end_event)) [
          | inl y ↦
              let z : (e.typ is_event mapping_end_event) ≡ true =
                ap (λ u. u is_event mapping_end_event) (sym q) ∙ y in
              let (typ, same) = ends_mapping e.typ s r acc z in
              rw (y, Succeeds)
                (Items-end whole mapping_end_event e es s done d typ
                  (subst (Completes es) same comp) at)
          | inr y ↦
              let z : (e.typ is_event mapping_end_event) ≡ false =
                ap (λ u. u is_event mapping_end_event) (sym q) ∙ y in
              rw y (
                Succeeds-continue whole _ (parse_child lib parse d) _
                  (parse_child-Reads whole lib parse (e ∷ es) (value ∷ s) d (
                    child e es (value ∷ s) r d (omega arith) (keys-Begins e.typ s r acc tail z) comp
                      (inr at)))
                  (λ k d1 (taken1, rest1, eq1, less1, comp1, text1, fresh1).
                    let (k', done') = move_foot_back block k done in
                    let (bk, bd) = move_foot_back-spelled block k done in
                    Succeeds-continue whole _ (parse_child lib parse d1) _
                      (value-Reads n parse child rest1 s d1 (omega arith) comp1 fresh1)
                      (λ v d2 (taken2, rest2, eq2, less2, comp2, text2, fresh2).
                        let (k'', v') = move_foot_up k' v in
                        let (uk, uv) = move_foot_up-spelled k' v in
                        Succeeds-continue whole _ (tail_comment lib k'' d2) _
                          (tail_comment-Ahead k'' rest2 s d2 comp2 fresh2)
                          (λ k3 d3 (tk, ahead).
                            Succeeds-map whole _
                              (mapping_items lib i block parse (v' ∷ k3 ∷ done') d3)
                              (mapping_items-Items n block parse child i rest2 (v' ∷ k3 ∷ done') s
                                d3 (omega arith) (omega arith) comp2 ahead)
                              (λ all d4.
                                Items-join whole mapping_end_event (e ∷ es) (taken1 ++ taken2) rest2
                                  s done (v' ∷ k3 ∷ done') all d4
                                  (eq1
                                    ∙ ap (λ w. taken1 ++ w) eq2
                                    ∙ sym (append_assoc taken1 taken2 rest2))
                                  (pair_text done done' k v k3 v' (map brief taken1)
                                      (map brief taken2) bd (tk ∙ uk ∙ bk) uv text1 text2
                                    ∙ ap (λ w. spelled_reverse done ++ w)
                                        (sym (map-append brief taken1 taken2))))))))
        ])
