-- ===== src/Scanner/Levelled.antt =====
-- The invariant of the levels, and the functions on them.
use yaml.Base.{
  ℕ, suc, ◌+◌, ◌≤◌, List, [], ◌∷◌, length, Bool-cases, inl, inr, ◌≡◌, refl, sym, ap, ◌∙◌, arith,
  subst, Bytes, true, Bool, ltb, ◌<◌, false, none, ◌==◌, length-append, ◌&&◌, if◌then◌else◌, take,
  some, Option, leb, ◌++◌, drop, ◌-◌, zero,
}
use yaml.Scanner.State.{
  Scanner, Scanned, scanned, failed, panics, next, SimpleKey, Scan, insert_token, token_at,
}
use yaml.Scanner.Indents.{IsChain, deeper}
use yaml.Scanner.Levels.{
  max_indents, remove_simple_key, max_flow_level, remove_top, key_here, put_key, save_simple_key,
  increase_flow_level, decrease_flow_level, drop_key, fail_at_key, roll_indent, position,
}
use yaml.Types.{Token, TokenType, Mark}

-- The numbers of the keys are those of tokens that are in the queue, or of the next.
abbrev pub AreWithin : List SimpleKey → ℕ → Type 0
AreWithin [] n = Unit
AreWithin (k ∷ ks) n = (k.token_number ≤ n) × AreWithin ks n

-- The indentations are a chain of bounded length; the flow level is bounded; there is a simple key for
-- each flow level and one for the block context, with their numbers.
abbrev pub IsLevelled : Scanner → Type 0
IsLevelled s =
    IsChain s.indent s.indents
    × (length s.indents ≤ max_indents)
    × (s.flow_level ≤ max_flow_level)
    × (length s.simple_keys ≡ suc s.flow_level)
    × AreWithin s.simple_keys (s.tokens_parsed + length s.tokens)

-- Without a panic, a function keeps the invariant, or fails; the buffer stays.
abbrev pub Keeps : Bytes → Scanned → Type 0
Keeps b (scanned t) = IsLevelled t × (t.buffer ≡ b)
Keeps b (failed t) = Unit
Keeps b panics = ⊥

pub Keeps-next :
    (b : Bytes) (r : Scanned) (k : Scan)
    → Keeps b r
    → ((t : Scanner) → IsLevelled t → t.buffer ≡ b → Keeps b (k t))
    → Keeps b (next r k)
Keeps-next b (scanned t) k (h, q) f = f t h q
Keeps-next b (failed t) k h f = tt
Keeps-next b panics k h f = h

pub AreWithin-more : (ks : List SimpleKey) (m n : ℕ) → m ≤ n → AreWithin ks m → AreWithin ks n
AreWithin-more [] m n h a = tt
AreWithin-more (k ∷ ks) m n h (x, a) = (omega arith, AreWithin-more ks m n h a)

pub remove_simple_key-Keeps : (s : Scanner) → IsLevelled s → Keeps s.buffer (remove_simple_key s)
unfolding remove_simple_key
remove_simple_key-Keeps s h = by_keys s.simple_keys refl
  where
    by_keys : (ks : List SimpleKey) → s.simple_keys ≡ ks → Keeps s.buffer (remove_top ks s)
    by_keys [] q = let (c, i, f, l, w) = h in absurd (omega (arith, l, ap length q))
    by_keys (k ∷ ks) q =
        let (c, i, f, l, w) = h in
        let (x, rest) = subst (λ y. AreWithin y (s.tokens_parsed + length s.tokens)) q w in
        elim (Bool-cases k.possible) [
          | inr p ↦ rw (p, Keeps) (h, refl)
          | inl p ↦ elim (Bool-cases k.required) [
            | inl r ↦ rw (p, r, Keeps) tt
            | inr r ↦ rw (p, r, Keeps) ((c, i, f, sym (ap length q) ∙ l, (x, rest)), refl)
          ]
        ]

pub Keeps-if :
    (b : Bytes) (c : Bool) (x y : Scanned)
    → (c ≡ true → Keeps b x)
    → (c ≡ false → Keeps b y)
    → Keeps b (if c then x else y)
Keeps-if b true x y f g = f refl
Keeps-if b false x y f g = g refl

-- The saved key takes the place of the top.
put_key-Keeps :
    (b : Bytes) (k : SimpleKey) (t : Scanner)
    → IsLevelled t
    → t.buffer ≡ b
    → k.token_number ≤ t.tokens_parsed + length t.tokens
    → Keeps b (put_key k t.simple_keys t)
put_key-Keeps b k t h q x = by_keys t.simple_keys refl
  where
    by_keys : (ks : List SimpleKey) → t.simple_keys ≡ ks → Keeps b (put_key k ks t)
    by_keys [] e = let (c, i, f, l, w) = h in absurd (omega (arith, l, ap length e))
    by_keys (j ∷ ks) e =
        let (c, i, f, l, w) = h in
        let (y, rest) = subst (λ z. AreWithin z (t.tokens_parsed + length t.tokens)) e w in
        ((c, i, f, sym (ap length e) ∙ l, (x, rest)), q)

-- What the removal of a key leaves as it is.
remove_simple_key-same :
    (s t : Scanner)
    → remove_simple_key s ≡ scanned t
    → (t.tokens_parsed ≡ s.tokens_parsed) × (t.tokens ≡ s.tokens)
unfolding remove_simple_key
remove_simple_key-same s t r = by_keys s.simple_keys r
  where
    by_keys :
        (ks : List SimpleKey)
        → remove_top ks s ≡ scanned t
        → (t.tokens_parsed ≡ s.tokens_parsed) × (t.tokens ≡ s.tokens)
    by_keys [] r = cc r
    by_keys (k ∷ ks) r = ground (arith, r)

pub save_simple_key-Keeps : (s : Scanner) → IsLevelled s → Keeps s.buffer (save_simple_key s)
unfolding save_simple_key
save_simple_key-Keeps s h =
    Keeps-if s.buffer s.simple_key_allowed _ _
      (λ a. by_removed (remove_simple_key s) refl (remove_simple_key-Keeps s h)) (λ a. (h, refl))
  where
    required : Bool
    required = s.flow_level == 0 && s.indent == s.mark.column + 1

    by_removed :
        (r : Scanned)
        → remove_simple_key s ≡ r
        → Keeps s.buffer r
        → Keeps s.buffer (next r (λ t. put_key (key_here true required s) t.simple_keys t))
    by_removed (scanned t) e (k, q) =
        let (p, u) = remove_simple_key-same s t e in
        put_key-Keeps s.buffer (key_here true required s) t k q (omega (arith, p, ap length u))
    by_removed (failed t) e k = tt
    by_removed panics e k = k

pub increase_flow_level-Keeps :
    (s : Scanner) → IsLevelled s → Keeps s.buffer (increase_flow_level s)
unfolding increase_flow_level
increase_flow_level-Keeps s (c, i, f, l, w) =
    Keeps-if s.buffer (ltb max_flow_level (s.flow_level + 1)) _ _ (λ x. tt)
      (λ x. ((c, i, ground (arith, x), omega (arith, l), (omega arith, w)), refl))

pub decrease_flow_level-Keeps :
    (s : Scanner) → IsLevelled s → Keeps s.buffer (decrease_flow_level s)
unfolding decrease_flow_level
decrease_flow_level-Keeps s h =
    Keeps-if s.buffer (ltb 0 s.flow_level) _ _ (λ x. by_keys s.simple_keys refl (ground (arith, x)))
      (λ x. (h, refl))
  where
    by_keys :
        (ks : List SimpleKey)
        → s.simple_keys ≡ ks
        → 0 < s.flow_level
        → Keeps s.buffer (drop_key ks s)
    by_keys [] e p = let (c, i, f, l, w) = h in absurd (omega (arith, l, ap length e))
    by_keys (k ∷ ks) e p =
        let (c, i, f, l, w) = h in
        let (x, rest) = subst (λ y. AreWithin y (s.tokens_parsed + length s.tokens)) e w in
        ((c, i, omega arith, omega (arith, l, ap length e), rest), refl)

-- A token more in the queue.
pub append_token-Keeps :
    (t : Token) (s : Scanner) → IsLevelled s → Keeps s.buffer (insert_token none t s)
unfolding insert_token
append_token-Keeps t s (c, i, f, l, w) = (
  (c, i, f, l, AreWithin-more s.simple_keys _ _ (omega (arith, length-append s.tokens (t ∷ []))) w),
  refl,
)

length-inserted :
    (n : ℕ) (t : Token) (ts : List Token) → length (take n ts ++ t ∷ drop n ts) ≡ suc (length ts)
length-inserted zero t ts = refl
length-inserted (suc n) t [] = refl
length-inserted (suc n) t (u ∷ ts) = ap suc (length-inserted n t ts)

put-Keeps :
    (t : Token) (s : Scanner) (m : ℕ)
    → IsLevelled s
    → m ≤ length s.tokens
    → Keeps s.buffer (insert_token (some m) t s)
unfolding insert_token
put-Keeps t s m h k =
    let (c, i, f, l, w) = h in
    Keeps-if s.buffer (leb m (length s.tokens)) _ _
      (λ x. (
        (
          c,
          i,
          f,
          l,
          AreWithin-more s.simple_keys _ _ (omega (arith, length-inserted m t s.tokens)) w,
        ),
        refl,
      ))
      (λ x. ground (arith, x, k))

-- The number is none, or that of a token in the queue, or of the next, or of one that is gone.
abbrev pub IsPlaced : Option ℕ → Scanner → Type 0
IsPlaced none s = Unit
IsPlaced (some n) s = n ≤ s.tokens_parsed + length s.tokens

pub insert_token-Keeps :
    (number : Option ℕ) (t : Token) (s : Scanner)
    → IsLevelled s
    → IsPlaced number s
    → Keeps s.buffer (insert_token (position number s.tokens_parsed) t s)
insert_token-Keeps none t s h p = append_token-Keeps t s h
insert_token-Keeps (some n) t s h p = elim (Bool-cases (ltb n s.tokens_parsed)) [
  | inl x ↦
      subst (λ y. Keeps s.buffer (insert_token y t s))
        (ap (λ y. if y then none else some (n - s.tokens_parsed)) (sym x))
        (append_token-Keeps t s h)
  | inr x ↦
      subst (λ y. Keeps s.buffer (insert_token y t s))
        (ap (λ y. if y then none else some (n - s.tokens_parsed)) (sym x))
        (put-Keeps t s (n - s.tokens_parsed) h (omega arith))
]

fail_at_key-Keeps :
    (b : Bytes) (ks : List SimpleKey) (s : Scanner) → 0 < length ks → Keeps b (fail_at_key ks s)
fail_at_key-Keeps b [] s h = absurd (omega arith)
fail_at_key-Keeps b (k ∷ ks) s h = tt

pub roll_indent-Keeps :
    (column : ℕ) (number : Option ℕ) (typ : TokenType) (mark : Mark) (s : Scanner)
    → IsLevelled s
    → IsPlaced number s
    → Keeps s.buffer (roll_indent column number typ mark s)
unfolding roll_indent
roll_indent-Keeps column number typ mark s h p =
    let (c, i, f, l, w) = h in
    Keeps-if s.buffer (ltb 0 s.flow_level) _ _ (λ x. (h, refl))
      (λ x.
        Keeps-if s.buffer (ltb s.indent column) _ _
          (λ y.
            Keeps-if s.buffer (ltb max_indents (suc (length s.indents))) _ _
              (λ z. fail_at_key-Keeps s.buffer s.simple_keys (deeper column s) (omega (arith, l)))
              (λ z.
                insert_token-Keeps number (token_at typ mark) (deeper column s)
                  (((ground (arith, y)), c), ground (arith, z), f, l, w) (placed number p)))
          (λ y. (h, refl)))
  where
    placed : (number : Option ℕ) → IsPlaced number s → IsPlaced number (deeper column s)
    placed none p = p
    placed (some n) p = p
