-- ===== src/Compose/Streams.antt =====
-- The documents of a whole stream of events, and the events that a parser gives.
use yaml.Base.{
  List, [], ◌∷◌, ◌++◌, ◌≡◌, refl, ap, ◌∙◌, sym, arith, Option, some, none, inl, inr, ◌⊎◌, length, ℕ,
  ◌≤◌, zero, suc, subst,
}
use yaml.Compose.State.{Tree, Composer, peek}
use yaml.Compose.Composer.{parse, parse_event, read_documents, document}
use yaml.Compose.Loops.{Tail, Items, Items-end, Items-join, Succeeds-map, Reads}
use yaml.Compose.Wholes.{document-Tail}
use yaml.Compose.Contract.{parse-IsChild, parse_by_init, done-Before}
use yaml.Parser.Expect.{documents, node, document_end, accept, Stack}
use yaml.Types.{Event, EventType, stream_end_event, no_event, document_start_event}
use yaml.Resolve.Scalar.{Library}
use yaml.Compose.Completion.{Completes, Completes-first, Ahead, accepted_event, IsFresh-Ahead}
use yaml.Compose.Feeding.{At, Before, Succeeds, Succeeds-continue, init-done, peek-Before}
use yaml.Compose.Spelling.{spelled, spelled_reverse}

documents_first :
    (t : EventType) (r : Stack)
    → accept t (documents ∷ []) ≡ some r
    → ((t ≡ stream_end_event) × ([] ≡ r))
      ⊎ ((t ≡ document_start_event) × (node ∷ document_end ∷ [] ≡ r))
unfolding accept
documents_first stream_end_event r h = inl (refl, cc)
documents_first document_start_event r h = inr (refl, cc)
documents_first _ r h = cc h

refused_end : (t : EventType) (r : Stack) → accept t [] ≡ some r → ⊥
unfolding accept
refused_end no_event r h = cc h
refused_end _ r h = cc h

pub nothing_left : (es : List Event) → Completes es [] → es ≡ []
nothing_left [] h = refl
nothing_left (e ∷ es) h =
    let (r, acc, comp, tail) = Completes-first e es [] h in absurd (refused_end e.typ r acc)

module _ (whole : List Event) (lib : Library) where
  document_parsed :
      (n : ℕ) (t : EventType) (es : List Event) (s : Stack) (c : Composer)
      → At whole c.event es c
      → c.event.typ ≡ document_start_event
      → t ≡ document_start_event
      → length es ≤ n
      → Completes es (node ∷ document_end ∷ s)
      → Succeeds whole
          (parse_event lib n (parse lib n) t c)
          (Reads whole (c.event ∷ es) (documents ∷ s))
  document_parsed n t es s c h k q b comp = rw q (
      Succeeds-continue whole _ (document lib (parse lib n) c) _
        (document-Tail whole lib n (parse lib n) (parse-IsChild whole lib n) es s c h k b comp)
        (λ u d w. w))

  parsed :
      (n : ℕ) (e : Event) (es : List Event) (r : Stack) (c : Composer)
      → accept e.typ (documents ∷ []) ≡ some r
      → Completes es r
      → length es ≤ n
      → Before whole e es c
      → Succeeds whole (parse lib (suc n) c) (λ o d.
        ((o ≡ none) × (e.typ ≡ stream_end_event) × Completes es [] × At whole e es d)
        ⊎ ((u : Tree) × (o ≡ some u) × Tail whole (e ∷ es) (documents ∷ []) (spelled u) d))
  parsed n e es r c acc comp b x =
      rw (parse_by_init lib n c c (init-done c (done-Before whole e es c x))) (
        Succeeds-continue whole _ (peek c) _
          (peek-Before whole e es c (accepted_event e.typ (documents ∷ []) r acc) x)
          (λ t d (k, (i, a, f, m)). elim (documents_first e.typ r acc) [
            | inl (ty, q) ↦
                rw (k ∙ ty, Succeeds)
                  (inl (refl, ty, subst (Completes es) (sym q) comp, (i, a, f, m)))
            | inr (ty, q) ↦
                let w =
                  document_parsed n t es [] d (i, refl, f, m) (ap (λ y. y.typ) a ∙ ty) (k ∙ ty) b
                    (subst (Completes es) (sym q) comp) in
                Succeeds-map whole _ (parse_event lib n (parse lib n) t d)
                  (subst
                    (λ y.
                      Succeeds whole (parse_event lib n (parse lib n) t d)
                        (Reads whole (y ∷ es) (documents ∷ [])))
                    a w)
                  (λ o d'. read_some o d')
          ]))
    where
      read_some :
          (o : Option Tree) (d : Composer)
          → Reads whole (e ∷ es) (documents ∷ []) o d
          → ((o ≡ none) × (e.typ ≡ stream_end_event) × Completes es [] × At whole e es d)
            ⊎ ((u : Tree) × (o ≡ some u) × Tail whole (e ∷ es) (documents ∷ []) (spelled u) d)
      read_some (some u) d h = inr (u, refl, h)
      read_some none d h = absurd h

  pub read_documents-Items :
      (n k : ℕ) (es : List Event) (before : List Tree) (c : Composer)
      → length es ≤ k
      → length es ≤ n
      → Completes es (documents ∷ [])
      → Ahead whole es c
      → Succeeds whole
          (read_documents lib k (suc n) before c)
          (Items whole stream_end_event es [] before)
  unfolding read_documents spelled_reverse
  read_documents-Items n k [] before c a b h x = absurd x
  read_documents-Items n zero (e ∷ es) before c a b h x = absurd (omega arith)
  read_documents-Items n (suc k) (e ∷ es) before c a b h x =
      let (r, acc, comp, tail) = Completes-first e es (documents ∷ []) h in
      Succeeds-continue whole _ (parse lib (suc n) c) _ (parsed n e es r c acc comp (omega arith) x)
        (λ o d w. elim w [
          | inl (q, ty, fin, at) ↦
              rw (q, Succeeds) (Items-end whole stream_end_event e es [] before d ty fin at)
          | inr (u, q, (taken, rest, eq, less, comp', text, fresh)) ↦ rw q (
              Succeeds-map whole _ (read_documents lib k (suc n) (u ∷ before) d)
                (read_documents-Items n k rest (u ∷ before) d (omega arith) (omega arith) comp'
                  (IsFresh-Ahead whole rest documents [] d comp' fresh))
                (λ all d'.
                  Items-join whole stream_end_event (e ∷ es) taken rest [] before (u ∷ before) all
                    d' eq (ap (λ y. spelled_reverse before ++ y) (sym text))))
        ])
