-- ===== src/Compose/Runs.antt =====
-- The composer on top of the parser: what it makes of the events of a run.
use mathlib.Core.List.{map-append}
use yaml.Base.{
  List, [], ◌∷◌, ◌++◌, true, false, ◌≡◌, refl, map, ap, ◌∙◌, sym, arith, some, inl, inr, length, ℕ,
  ◌≤◌, zero, suc, subst, Bool-cases,
}
use yaml.Compose.State.{
  init, new_composer, expect, ◌is_event◌, Composer, composed, need_event, Tree, take_event,
}
use yaml.Compose.Composer.{read_documents}
use yaml.Compose.Streams.{read_documents-Items, nothing_left}
use yaml.Parser.Expect.{stream, documents, accept, Stack, accept_all}
use yaml.Parser.State.{initial, Fetched, Outcome, ok, fail, panic, Parser}
use yaml.Parser.Machine.{run, done, failed, panicked, is_over, after, is_no_error, Run}
use yaml.Parser.Contract.{parse-not_tail_comment, parse-accept, initial-IsValid}
use yaml.Compose.Contract.{parse_by_init}
use yaml.Parser.Machine
use yaml.Types.{Event, EventType, stream_start_event, no_event, stream_end_event, ErrorType}
use yaml.Compose.Feeding.{Feeds, IsFresh, init-done, Succeeds}
use yaml.Parser.Valid.{IsValid}
use yaml.Compose.Completion.{AreNoTails, Completes-first, Completes, IsFresh-Ahead}
use yaml.Resolve.Scalar.{Library}
use yaml.Compose.Spelling.{spelled_reverse, brief, bare}
use yaml.Compose.Loops.{Succeeds-map}
use yaml.Compose.Anchors.{Knows-next, IsEntered-plain}

alive_error : (p : Parser) → is_over p ≡ false → is_no_error p.error ≡ true
alive_error p h = ground (arith, h)

run_over : (n : ℕ) (p : Parser) → is_over p ≡ true → run (suc n) p ≡ done [] p
unfolding run
run_over n p h = rw (run, h) refl

abbrev stepped : ℕ → Outcome Event → Run
stepped n (ok e q) = after e (run n q)
stepped n (fail q) = failed [] q
stepped n panic = panicked []

run_alive : (n : ℕ) (p : Parser) → is_over p ≡ false → run (suc n) p ≡ stepped n (Machine.parse p)
unfolding run
run_alive n p h =
    subst
      (λ b.
        (elim b as (λ x. Run) [ true ↦ done [] p | false ↦ stepped n (Machine.parse p) ])
        ≡ stepped n (Machine.parse p))
      (sym h) refl

-- What a run has done behind its first event.
after_done :
    (e : Event) (r : Run) (es : List Event) (q : Parser)
    → after e r ≡ done es q
    → (es' : List Event) × (es ≡ e ∷ es') × (r ≡ done es' q)
after_done e (done es' q') es q h = (es', cc, cc)
after_done e (failed es' q') es q h = cc h
after_done e (panicked es') es q h = cc h
after_done e Run.out_of_fuel es q h = cc h

-- The events of a run are fed, without an error, and there is no tail comment among them.
Fed : List Event → Parser → Type 0
Fed es p = (is_no_error p.error ≡ true) × Feeds es p × AreNoTails es

run-Fed :
    (n : ℕ) (p q : Parser) (es : List Event)
    → IsValid p
    → run n p ≡ done es q
    → is_no_error q.error ≡ true
    → Fed es p
unfolding Fed run
run-Fed zero p q es v h x = cc h
run-Fed (suc n) p q es v h x = elim (Bool-cases (is_over p)) [
  | inl o ↦
      let k : done [] p ≡ done es q = sym (run_over n p o) ∙ h in
      let k1 : es ≡ [] = cc k in
      let k2 : p ≡ q = cc k in rw k1 (ap (λ y. is_no_error y.error) k2 ∙ x, tt, tt)
  | inr o ↦ by_outcome (run-Fed n) o (Machine.parse p) refl (sym (run_alive n p o) ∙ h)
]
  where
    by_outcome :
        ((p' q : Parser) (es : List Event)
          → IsValid p'
          → run n p' ≡ done es q
          → is_no_error q.error ≡ true
          → Fed es p')
        → is_over p ≡ false
        → (r : Outcome Event) → Machine.parse p ≡ r
        → stepped n r ≡ done es q
        → Fed es p
    by_outcome later o (ok e p') r k =
        let (es', e1, e2) = after_done e (run n p') es q k in
        let (acc, w) = parse-accept p p' e v o r in
        let (a, f, m) = later p' q es' w e2 x in
        rw e1 (alive_error p o, (p', r, a, f), (parse-not_tail_comment p p' e v o r, m))
    by_outcome later o (fail q') r k = cc k
    by_outcome later o panic r k = cc k

first_event :
    (t : EventType) (r : Stack)
    → accept t (stream ∷ []) ≡ some r
    → (t ≡ stream_start_event) × (documents ∷ [] ≡ r)
unfolding accept
first_event stream_start_event r h = (refl, cc)
first_event _ r h = cc h

take_first :
    (e : Event) (c : Composer) (q : Parser)
    → Machine.parse c.parser ≡ ok e q
    → take_event c ≡ composed tt (record c { parser = q; event = e })
take_first e c q r = rw (take_event, r) refl

taken_event :
    (e : Event) (es : List Event) (c : Composer)
    → Feeds (e ∷ es) c.parser
    → (c.event.typ is_event no_event) ≡ true
    → (q : Parser) × (need_event c ≡ composed tt (record c { parser = q; event = e })) × Feeds es q
taken_event e es c (q, r, x, f) z = (q, rw (z, take_first e c q r) refl, f)

-- The start of the stream is read and consumed by `init`.
init_new :
    (e : Event) (es : List Event) (p : Parser)
    → e.typ ≡ stream_start_event
    → Feeds (e ∷ es) p
    → (d : Composer) × (init (new_composer p) ≡ composed tt d) × IsFresh (e ∷ es) es d
unfolding init expect ◌is_event◌
init_new e es p k h =
    let (q, t, f) = taken_event e es (new_composer p) h refl in
    (
      record (new_composer p) { parser = q; done_init = true },
      rw (t, k) refl,
      (
        refl,
        refl,
        f,
        Knows-next (e ∷ es) e es [] (IsEntered-plain stream_start_event e [] k refl)
            ([], refl, λ b n. tt),
      ),
    )

module _ (lib : Library) where
  read_after_init :
      (n k : ℕ) (before : List Tree) (c d : Composer)
      → init c ≡ composed tt d
      → d.done_init ≡ true
      → read_documents lib (suc k) (suc n) before c ≡ read_documents lib (suc k) (suc n) before d
  unfolding read_documents
  read_after_init n k before c d h i =
      rw (parse_by_init lib n c d h, parse_by_init lib n d d (init-done d i)) refl

  whole_text :
      (first : Event) (es taken rest : List Event) (last : Event) (all : List Tree)
      → first.typ ≡ stream_start_event
      → last.typ ≡ stream_end_event
      → es ≡ taken ++ (last ∷ rest)
      → rest ≡ []
      → spelled_reverse all ≡ spelled_reverse [] ++ map brief taken
      → map brief (first ∷ es)
        ≡ bare stream_start_event ∷ (spelled_reverse all ++ bare stream_end_event ∷ [])
  unfolding spelled_reverse
  whole_text first es taken rest last all k l q z t =
      rw (q, z, t, map-append brief taken (last ∷ []), k, l) refl

  -- If a parser gives events from its start to the end of the stream, and has no error then, the
  -- documents are read without a panic, with fuel for as many calls as there are events. Then the
  -- events of the trees are those of the parser: the same nodes, with their anchors, tags, values and
  -- styles, in the same order. The only failure is at an alias, among the events, with an anchor that
  -- no node beginning before it has.
  pub read_documents-spelled :
      (fs : List Fetched) (err : ErrorType) (i n : ℕ) (es : List Event) (q : Parser)
      → run i (initial fs err) ≡ done es q
      → is_no_error q.error ≡ true
      → accept_all es (stream ∷ []) ≡ some []
      → length es ≤ n
      → Succeeds es (read_documents lib n n [] (new_composer (initial fs err))) (λ all d.
        map brief es
        ≡ bare stream_start_event ∷ (spelled_reverse all ++ bare stream_end_event ∷ []))
  unfolding Fed accept_all
  read_documents-spelled fs err i n es q h x a b =
      by_events es n a b (run-Fed i (initial fs err) q es (initial-IsValid fs err) h x)
    where
      by_events :
          (es : List Event) (n : ℕ)
          → accept_all es (stream ∷ []) ≡ some []
          → length es ≤ n
          → Fed es (initial fs err)
          → Succeeds es (read_documents lib n n [] (new_composer (initial fs err))) (λ all d.
            map brief es
            ≡ bare stream_start_event ∷ (spelled_reverse all ++ bare stream_end_event ∷ []))
      by_events [] n a b f = cc a
      by_events (e ∷ es) zero a b f = absurd (omega arith)
      by_events (e ∷ es) (suc n) a b (ok_error, f, m) =
          let (r, acc, comp, tail) = Completes-first e es (stream ∷ []) (a, m) in
          let (typ, same) = first_event e.typ r acc in
          let (d, made, fresh) = init_new e es (initial fs err) typ f in
          let comp' = subst (Completes es) (sym same) comp in
          rw (read_after_init n n [] (new_composer (initial fs err)) d made fresh.0) (
            Succeeds-map (e ∷ es) _ (read_documents lib (suc n) (suc n) [] d)
              (read_documents-Items (e ∷ es) lib n (suc n) es [] d (omega arith) (omega arith) comp'
                (IsFresh-Ahead (e ∷ es) es documents [] d comp' fresh))
              (λ all d' (taken, last, rest, eq, ends, fin, text, at).
                whole_text e es taken rest last all typ ends eq (nothing_left rest fin) text))
