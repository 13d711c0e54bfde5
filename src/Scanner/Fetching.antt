-- ===== src/Scanner/Fetching.antt =====
-- The functions that produce tokens keep the invariant of the levels.
use yaml.Base.{
  ℕ, zero, suc, ◌+◌, ◌==◌, Bool, true, false, List, [], ◌∷◌, ltb, length, drop, Bytes, Bool-cases,
  inl, inr, ◌≡◌, refl, sym, ap, ◌∙◌, arith, none, subst, length-append, String, ◌-◌,
}
use yaml.Scanner.State.{
  Scanner, Scanned, scanned, failed, panics, next, skip, Scan, token_at, skip_from, insert_token,
  append_token, SimpleKey,
}
use yaml.Scanner.Levels.{
  unroll, unroll_indent, end_of_block, remove_simple_key, save_simple_key, decrease_flow_level,
  increase_flow_level,
}
use yaml.Scanner.Levelled.{
  IsLevelled, Keeps, Keeps-if, Keeps-next, AreWithin-more, append_token-Keeps,
  remove_simple_key-Keeps, roll_indent-Keeps, AreWithin, save_simple_key-Keeps,
  decrease_flow_level-Keeps, increase_flow_level-Keeps,
}
use yaml.Chars.{width}
use yaml.Types.{
  Mark, block_end, Token, TokenType, block_mapping_start, block_sequence_start, flow_entry, key,
  block_entry, stream_end,
}
use yaml.Scanner.Fetch.{
  skip_times, reset_levels, open_block, allow_key, produce, fetch_key, fetch_block_entry,
  fetch_flow_entry, fetch_flow_collection_start, fetch_flow_collection_end,
  fetch_document_indicator, fetch_stream_end, take_complex_key, force_line,
}
use yaml.Scanner.Indents.{IsChain}

-- A function keeps the invariant, or fails; it does not panic.
abbrev pub Holds : Scanned → Type 0
Holds (scanned t) = IsLevelled t
Holds (failed t) = Unit
Holds panics = ⊥

-- There are so many characters.
abbrev pub HasChars : ℕ → Bytes → Type 0
HasChars zero b = Unit
HasChars (suc n) [] = ⊥
HasChars (suc n) (c ∷ cs) = HasChars n (drop (width c) (c ∷ cs))

pub Holds-next :
    (b : Bytes) (r : Scanned) (k : Scan)
    → Keeps b r
    → ((t : Scanner) → IsLevelled t → t.buffer ≡ b → Holds (k t))
    → Holds (next r k)
Holds-next b (scanned t) k (h, q) f = f t h q
Holds-next b (failed t) k h f = tt
Holds-next b panics k h f = h

unroll-Keeps :
    (b : Bytes) (is : List ℕ) (column : ℕ) (mark : Mark) (s : Scanner)
    → IsLevelled s
    → s.indents ≡ is
    → s.buffer ≡ b
    → Keeps b (unroll is column mark s)
unfolding unroll
unroll-Keeps b [] column mark s h e q =
    let (c, i, f, l, w) = h in
    let z : s.indent ≡ 0 = subst (IsChain s.indent) e c in
    Keeps-if b (ltb column s.indent) _ _ (λ x. ground (arith, x, z)) (λ x. (h, q))
unroll-Keeps b (j ∷ is) column mark s h e q =
    let (c, i, f, l, w) = h in
    let (k, chain) = subst (IsChain s.indent) e c in
    Keeps-if b (ltb column s.indent) _ _
      (λ x.
        unroll-Keeps b is column (end_of_block s.indent s.comments mark.index mark) _
          (
            chain,
            omega (arith, ap length e),
            f,
            l,
            AreWithin-more s.simple_keys _ _
                (omega (
                  arith,
                  length-append s.tokens
                      (token_at block_end (end_of_block s.indent s.comments mark.index mark) ∷ []),
                ))
                w,
          )
          refl q)
      (λ x. (h, q))

pub unroll_indent-Keeps :
    (column : ℕ) (mark : Mark) (s : Scanner)
    → IsLevelled s
    → Keeps s.buffer (unroll_indent column mark s)
unfolding unroll_indent
unroll_indent-Keeps column mark s h =
    Keeps-if s.buffer (ltb 0 s.flow_level) _ _ (λ x. (h, refl))
      (λ x.
        unroll-Keeps s.buffer s.indents column (record mark { index = mark.index - 1 }) s h refl
          refl)

-- A character is consumed.
abbrev Lands : ℕ → Scanned → Type 0
Lands n (scanned t) = IsLevelled t × HasChars n t.buffer
Lands n (failed t) = ⊥
Lands n panics = ⊥

skip-Lands : (n : ℕ) (s : Scanner) → IsLevelled s → HasChars (suc n) s.buffer → Lands n (skip s)
unfolding skip
skip-Lands n s h b = by_buffer s.buffer b
  where
    by_buffer : (c : Bytes) → HasChars (suc n) c → Lands n (skip_from c s)
    by_buffer [] b = absurd b
    by_buffer (c ∷ cs) b = (h, b)

skip_times-Lands :
    (n : ℕ) (s : Scanner) → IsLevelled s → HasChars n s.buffer → Lands 0 (skip_times n s)
skip_times-Lands zero s h b = (h, tt)
skip_times-Lands (suc n) s h b = by_first (skip_times-Lands n) (skip s) (skip-Lands n s h b)
  where
    by_first :
        ((t : Scanner) → IsLevelled t → HasChars n t.buffer → Lands 0 (skip_times n t))
        → (r : Scanned) → Lands n r
        → Lands 0 (next r (skip_times n))
    by_first later (scanned t) (k, c) = later t k c
    by_first later (failed t) k = absurd k
    by_first later panics k = absurd k

pub append_token-Holds : (t : Token) (s : Scanner) → IsLevelled s → Holds (insert_token none t s)
append_token-Holds t s h = of-Holds (insert_token none t s) (append_token-Keeps t s h)
  where
    of-Holds : (r : Scanned) → Keeps s.buffer r → Holds r
    of-Holds (scanned t) (h, q) = h
    of-Holds (failed t) h = tt
    of-Holds panics h = h

pub produce-Holds :
    (n : ℕ) (typ : TokenType) (b : Bytes) (s : Scanner)
    → HasChars n b
    → IsLevelled s
    → s.buffer ≡ b
    → Holds (produce n typ s)
unfolding produce
produce-Holds n typ b s c h q =
    by_landed (skip_times n s) (skip_times-Lands n s h (subst (HasChars n) (sym q) c))
  where
    by_landed : (r : Scanned) → Lands 0 r → Holds (next r (λ t. append_token typ s.mark t.mark t))
    by_landed (scanned t) (h, c) =
        append_token-Holds (record (token_at typ s.mark) { end_mark = t.mark }) t h
    by_landed (failed t) k = absurd k
    by_landed panics k = absurd k

pub reset_levels-Keeps : (s : Scanner) → IsLevelled s → Keeps s.buffer (reset_levels s)
reset_levels-Keeps s h =
    Keeps-next s.buffer (unroll_indent 0 s.mark s) _ (unroll_indent-Keeps 0 s.mark s h) (λ t k q.
      Keeps-next s.buffer (remove_simple_key t) _
        (subst (λ b. Keeps b (remove_simple_key t)) q (remove_simple_key-Keeps t k))
        (λ u l r. (l, r)))

open_block-Keeps :
    (typ : TokenType) (problem : String) (s : Scanner)
    → IsLevelled s
    → Keeps s.buffer (open_block typ problem s)
open_block-Keeps typ problem s h =
    Keeps-if s.buffer (s.flow_level == 0) _ _
      (λ x.
        Keeps-if s.buffer s.simple_key_allowed _ _
          (λ y. roll_indent-Keeps (s.mark.column + 1) none typ s.mark s h tt) (λ y. tt))
      (λ x. (h, refl))

-- What a function produces after the simple key has been removed.
removed_then :
    (allowed : Scanner → Bool) (typ : TokenType) (b : Bytes) (s : Scanner)
    → HasChars 1 b
    → IsLevelled s
    → s.buffer ≡ b
    → Holds (next (remove_simple_key s) (λ u. next (allow_key (allowed u) u) (produce 1 typ)))
removed_then allowed typ b s c h q =
    Holds-next b (remove_simple_key s) _
      (subst (λ x. Keeps x (remove_simple_key s)) q (remove_simple_key-Keeps s h))
      (λ t k r. produce-Holds 1 typ b (record t { simple_key_allowed = allowed t }) c k r)

-- The key on top has changed, but not its number.
pub retopped :
    (k k' : SimpleKey) (ks : List SimpleKey) (s : Scanner)
    → IsLevelled s
    → s.simple_keys ≡ k ∷ ks
    → k'.token_number ≡ k.token_number
    → IsLevelled (record s { simple_keys = k' ∷ ks })
retopped k k' ks s (c, i, f, l, w) e n =
    let (x, rest) = subst (λ y. AreWithin y (s.tokens_parsed + length s.tokens)) e w in
    (c, i, f, sym (ap length e) ∙ l, (omega (arith, n), rest))

pub take_complex_key-Keeps :
    (k : SimpleKey) (ks : List SimpleKey) (s : Scanner)
    → IsLevelled (record s { simple_keys = k ∷ ks })
    → Keeps s.buffer (take_complex_key k ks s)
take_complex_key-Keeps k ks s h =
    let t : Scanner = record s { simple_keys = k ∷ ks } in
    Keeps-next s.buffer
      (open_block block_mapping_start "mapping values are not allowed in this context" t) _
      (open_block-Keeps block_mapping_start "mapping values are not allowed in this context" t h)
      (λ u l r. (l, r))

pub fetch_key-Holds : (s : Scanner) → IsLevelled s → HasChars 1 s.buffer → Holds (fetch_key s)
unfolding fetch_key
fetch_key-Holds s h b =
    Holds-next s.buffer
      (open_block block_mapping_start "mapping keys are not allowed in this context" s) _
      (open_block-Keeps block_mapping_start "mapping keys are not allowed in this context" s h)
      (λ t k r. removed_then (λ u. u.flow_level == 0) key s.buffer t b k r)

pub fetch_block_entry-Holds :
    (s : Scanner) → IsLevelled s → HasChars 1 s.buffer → Holds (fetch_block_entry s)
unfolding fetch_block_entry
fetch_block_entry-Holds s h b =
    Holds-next s.buffer
      (open_block block_sequence_start "block sequence entries are not allowed in this context" s) _
      (open_block-Keeps block_sequence_start
        "block sequence entries are not allowed in this context" s h)
      (λ t k r. removed_then (λ u. true) block_entry s.buffer t b k r)

pub fetch_flow_entry-Holds :
    (s : Scanner) → IsLevelled s → HasChars 1 s.buffer → Holds (fetch_flow_entry s)
unfolding fetch_flow_entry
fetch_flow_entry-Holds s h b = removed_then (λ u. true) flow_entry s.buffer s b h refl

pub fetch_flow_collection_start-Holds :
    (typ : TokenType) (s : Scanner)
    → IsLevelled s
    → HasChars 1 s.buffer
    → Holds (fetch_flow_collection_start typ s)
unfolding fetch_flow_collection_start
fetch_flow_collection_start-Holds typ s h b =
    Holds-next s.buffer (save_simple_key s) _ (save_simple_key-Keeps s h) (λ t k q.
      Holds-next s.buffer (increase_flow_level t) _
        (subst (λ x. Keeps x (increase_flow_level t)) q (increase_flow_level-Keeps t k))
        (λ u l r. produce-Holds 1 typ s.buffer (record u { simple_key_allowed = true }) b l r))

pub fetch_flow_collection_end-Holds :
    (typ : TokenType) (s : Scanner)
    → IsLevelled s
    → HasChars 1 s.buffer
    → Holds (fetch_flow_collection_end typ s)
unfolding fetch_flow_collection_end
fetch_flow_collection_end-Holds typ s h b =
    Holds-next s.buffer (remove_simple_key s) _ (remove_simple_key-Keeps s h) (λ t k q.
      Holds-next s.buffer (decrease_flow_level t) _
        (subst (λ x. Keeps x (decrease_flow_level t)) q (decrease_flow_level-Keeps t k))
        (λ u l r. produce-Holds 1 typ s.buffer (record u { simple_key_allowed = false }) b l r))

pub fetch_document_indicator-Holds :
    (typ : TokenType) (s : Scanner)
    → IsLevelled s
    → HasChars 3 s.buffer
    → Holds (fetch_document_indicator typ s)
unfolding fetch_document_indicator
fetch_document_indicator-Holds typ s h b =
    Holds-next s.buffer (reset_levels s) _ (reset_levels-Keeps s h)
      (λ t k q. produce-Holds 3 typ s.buffer t b k q)

pub fetch_stream_end-Holds : (s : Scanner) → IsLevelled s → Holds (fetch_stream_end s)
unfolding fetch_stream_end
fetch_stream_end-Holds s h =
    Holds-next (force_line s).buffer (reset_levels (force_line s)) _
      (reset_levels-Keeps (force_line s) (forced h))
      (λ t k q. append_token-Holds (token_at stream_end t.mark) t k)
  where
    forced : IsLevelled s → IsLevelled (force_line s)
    forced h = elim (Bool-cases (s.mark.column == 0)) [ inl x ↦ rw x h | inr x ↦ rw x h ]
