-- ===== src/Scanner/Indents.antt =====
-- The stack of indentations: what rolling and unrolling do to it and to the queue.
use mathlib.Core.List.{append_assoc, append-nil}
use yaml.Base.{
  ℕ, suc, ◌+◌, ◌<◌, ◌≤◌, true, false, List, [], ◌∷◌, ◌++◌, if◌then◌else◌, ltb, leb, length,
  Bool-cases, inl, inr, ◌≡◌, refl, sym, ap, ◌∙◌, arith, Option, subst, ◌-◌, some, none,
}
use yaml.Scanner.State.{Scanner, scanned, token_at, insert_token, SimpleKey}
use yaml.Scanner.Levels.{
  unroll, unroll_indent, roll_indent, end_of_block, max_indents, fail_at_key, position,
}
use yaml.Types.{Token, Mark, block_end, TokenType}

-- Each indentation is above the one below it, down to that of the stream.
abbrev pub IsChain : ℕ → List ℕ → Type 0
IsChain i [] = i ≡ 0
IsChain i (j ∷ js) = (j < i) × IsChain j js

-- The indentation and those below it.
abbrev pub levels : Scanner → List ℕ
levels s = s.indent ∷ s.indents

-- Those that are not above a column.
abbrev pub up_to : ℕ → List ℕ → List ℕ
up_to column [] = []
up_to column (i ∷ is) = let rest = up_to column is in if leb i column then i ∷ rest else rest

abbrev pub AreEnds : List Token → Type 0
AreEnds [] = Unit
AreEnds (t ∷ ts) = (t.typ ≡ block_end) × AreEnds ts

chain_up_to :
    (column i : ℕ) (is : List ℕ) → IsChain i is → i ≤ column → up_to column (i ∷ is) ≡ i ∷ is
chain_up_to column i [] c h = ground (arith, h)
chain_up_to column i (j ∷ js) (k, c) h =
    let rest = chain_up_to column j js c (omega arith) in ground (arith, h, rest)

-- What is closed, and what is left.
abbrev pub Closes : ℕ → Scanner → Scanner → Type 0
Closes column s t =
    (ends : List Token) × (levels t ≡ up_to column (levels s))
    × (t.tokens ≡ s.tokens ++ ends)
    × AreEnds ends
    × (length ends + length t.indents ≡ length s.indents)
    × (t.flow_level ≡ s.flow_level)
    × (t.simple_keys ≡ s.simple_keys)

unroll_stop :
    (is : List ℕ) (column : ℕ) (mark : Mark) (s : Scanner)
    → ltb column s.indent ≡ false
    → unroll is column mark s ≡ scanned s
unfolding unroll
unroll_stop [] column mark s h = rw h refl
unroll_stop (i ∷ is) column mark s h = rw h refl

Closes-none :
    (column : ℕ) (s : Scanner) → IsChain s.indent s.indents → s.indent ≤ column → Closes column s s
Closes-none column s c h = (
  [],
  sym (chain_up_to column s.indent s.indents c h),
  sym (append-nil s.tokens),
  tt,
  omega arith,
  refl,
  refl,
)

not_above : (column i : ℕ) → i ≤ column → ltb column i ≡ false
not_above column i h = ground (arith, h)

above : (column i : ℕ) → ltb column i ≡ true → column < i
above column i h = ground (arith, h)

below : (column i : ℕ) → ltb column i ≡ false → i ≤ column
below column i h = ground (arith, h)

-- One level is closed, and then others.
Closes-more :
    (column i : ℕ) (is : List ℕ) (mark : Mark) (s t : Scanner)
    → s.indents ≡ i ∷ is
    → column < s.indent
    → Closes column
        (record s { tokens = s.tokens ++ token_at block_end mark ∷ []; indent = i; indents = is })
        t
    → Closes column s t
Closes-more column i is mark s t q h (ends, l, tok, e, n, f, k) = (
  token_at block_end mark ∷ ends,
  l ∙ dropped,
  tok ∙ append_assoc s.tokens (token_at block_end mark ∷ []) ends,
  (refl, e),
  omega (arith, n, ap length q),
  f,
  k,
)
  where
    dropped : up_to column (i ∷ is) ≡ up_to column (levels s)
    dropped = rw q (ground (arith, h))

unroll-Closes :
    (is : List ℕ) (column : ℕ) (mark : Mark) (s : Scanner)
    → s.indents ≡ is
    → IsChain s.indent is
    → (t : Scanner) × (unroll is column mark s ≡ scanned t) × Closes column s t
unfolding unroll
unroll-Closes [] column mark s q c = (
  s,
  unroll_stop [] column mark s (not_above column s.indent (omega (arith, c))),
  Closes-none column s (subst (IsChain s.indent) (sym q) c) (omega (arith, c)),
)
unroll-Closes (i ∷ is) column mark s q (k, c) =
    let block_mark : Mark = end_of_block s.indent s.comments mark.index mark in
    let next_scanner : Scanner = record s {
      tokens = s.tokens ++ token_at block_end block_mark ∷ [];
      indent = i;
      indents = is;
    } in
    let (t, e, w) = unroll-Closes is column block_mark next_scanner refl c in
    elim (Bool-cases (ltb column s.indent)) [
      | inr x ↦ (
        s,
        unroll_stop (i ∷ is) column mark s x,
        Closes-none column s (subst (IsChain s.indent) (sym q) (k, c)) (below column s.indent x),
      )
      | inl x ↦ (t, rw x e, Closes-more column i is block_mark s t q (above column s.indent x) w)
    ]

-- From a stack in which each indentation is above the one below it, unrolling to a column in the block
-- context comes to an end with no empty stack popped: it leaves just the levels that are not above the
-- column, and appends a BLOCK-END token for each that it takes away and no other token.
pub unroll_indent-Closes :
    (column : ℕ) (mark : Mark) (s : Scanner)
    → s.flow_level ≡ 0
    → IsChain s.indent s.indents
    → (t : Scanner) × (unroll_indent column mark s ≡ scanned t) × Closes column s t
unfolding unroll_indent
unroll_indent-Closes column mark s z c =
    let (t, e, w) =
      unroll-Closes s.indents column (record mark { index = mark.index - 1 }) s refl c in
    (t, rw (not_above 0 s.flow_level (omega (arith, z))) e, w)

inserted :
    (number : Option ℕ) (token : Token) (s t : Scanner)
    → insert_token number token s ≡ scanned t
    → (t.indent ≡ s.indent)
      × (t.indents ≡ s.indents)
      × (t.flow_level ≡ s.flow_level)
      × (t.simple_keys ≡ s.simple_keys)
unfolding insert_token
inserted none token s t r = (cc r, cc r, cc r, cc r)
inserted (some n) token s t r = ground (arith, r)

-- A level deeper.
abbrev pub deeper : ℕ → Scanner → Scanner
deeper column s = record s { indents = s.indent ∷ s.indents; indent = column }

is_below : (i column : ℕ) → i < column → ltb i column ≡ true
is_below i column h = ground (arith, h)

pub roll_full :
    (column : ℕ) (number : Option ℕ) (typ : TokenType) (mark : Mark) (s : Scanner)
    → ltb 0 s.flow_level ≡ false
    → ltb s.indent column ≡ true
    → ltb max_indents (suc (length s.indents)) ≡ true
    → roll_indent column number typ mark s ≡ fail_at_key s.simple_keys (deeper column s)
unfolding roll_indent
roll_full column number typ mark s a b c = rw (a, b, c) refl

pub roll_deeper :
    (column : ℕ) (number : Option ℕ) (typ : TokenType) (mark : Mark) (s : Scanner)
    → ltb 0 s.flow_level ≡ false
    → ltb s.indent column ≡ true
    → ltb max_indents (suc (length s.indents)) ≡ false
    → roll_indent column number typ mark s
      ≡ insert_token (position number s.tokens_parsed) (token_at typ mark) (deeper column s)
unfolding roll_indent
roll_deeper column number typ mark s a b c = rw (a, b, c) refl

fail_at_key-ne-scanned : (ks : List SimpleKey) (s t : Scanner) → fail_at_key ks s ≡ scanned t → ⊥
fail_at_key-ne-scanned [] s t r = cc r
fail_at_key-ne-scanned (k ∷ ks) s t r = cc r

rolled :
    (column : ℕ) (number : Option ℕ) (typ : TokenType) (mark : Mark) (s t : Scanner)
    → s.flow_level ≡ 0
    → s.indent < column
    → roll_indent column number typ mark s ≡ scanned t
    → (t.indent ≡ column) × (t.indents ≡ levels s) × (t.flow_level ≡ 0)
rolled column number typ mark s t z h r =
    let a = not_above 0 s.flow_level (omega (arith, z)) in
    let b = is_below s.indent column h in
    elim (Bool-cases (ltb max_indents (suc (length s.indents)))) [
      | inl c ↦ absurd (
          fail_at_key-ne-scanned s.simple_keys (deeper column s) t
            (sym (roll_full column number typ mark s a b c) ∙ r))
      | inr c ↦
          let (p, q, f, k) =
            inserted (position number s.tokens_parsed) (token_at typ mark) (deeper column s) t
              (sym (roll_deeper column number typ mark s a b c) ∙ r) in
          (p, q, f ∙ z)
    ]

reopened :
    (i column : ℕ) (is : List ℕ) → IsChain i is → i < column → up_to i (column ∷ i ∷ is) ≡ i ∷ is
reopened i column is c h = let rest = chain_up_to i i is c (omega arith) in ground (arith, h, rest)

-- In the block context, rolling to a column above the indentation and unrolling to that indentation
-- again restores the levels, if the former succeeds.
pub unroll_indent-roll_indent :
    (column : ℕ) (number : Option ℕ) (typ : TokenType) (mark scan_mark : Mark) (s t : Scanner)
    → s.flow_level ≡ 0
    → s.indent < column
    → IsChain s.indent s.indents
    → roll_indent column number typ mark s ≡ scanned t
    → (u : Scanner) × (unroll_indent s.indent scan_mark t ≡ scanned u) × (levels u ≡ levels s)
unroll_indent-roll_indent column number typ mark scan_mark s t z h c r =
    let (a, b, f) = rolled column number typ mark s t z h r in
    let chain : IsChain t.indent t.indents = rw (a, b) (h, c) in
    let (u, e, closed) = unroll_indent-Closes s.indent scan_mark t f chain in
    let at_levels : up_to s.indent (levels t) ≡ levels s =
      rw (a, b) (reopened s.indent column s.indents c h) in
    (u, e, closed.1 ∙ at_levels)
