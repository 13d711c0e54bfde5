-- ===== src/Resolve/Integers.antt =====
-- The decimal text of an integer of 64 bits, as `resolve` reads it.
use yaml.Base.{
  List, [], ◌∷◌, ℕ, zero, suc, Bool, true, false, Bytes, none, some, refl, arith, ◌≡◌, ◌⊎◌, inl,
  inr, Bool-cases, ◌∙◌, ap, ◌^◌, ◌<◌, ◌≤◌, ◌||◌, ◌&&◌, ltb, equal,
}
use yaml.Origin.Decimal.{digits, ℤ, pos, negsuc, print_int}
use yaml.Resolve.Numbers.{parse_digits, parse_int, parse_uint, in_range, parse_uint_any}
use yaml.Resolve.Digits.{
  AreDecimal, LeadsNonzero, digits-AreDecimal, digits-LeadsNonzero, parsed_digits,
}
use yaml.Resolve.Scalar.{
  Hint, ◌or_else◌, resolve_time, switched, Library, int, returns, hint_of, digit_hint, sign_hint,
  resolve_map, parse_timestamp, resolve_table, resolve_plain, switch_hint, infer, resolve, resolved,
  without_underscores, leading_digits, signed_or_unsigned, is_no_hint, check_tag,
}
use yaml.Resolve.Tags.{map_entry, has_prefix, int_tag, short_tag, is_resolvable_tag}
use yaml.Resolve.Inference.{resolve_short_inferred, finish}

-- The decimal texts of natural numbers: no leading zero but in "0".
abbrev IsNatural : Bytes → Type 0
IsNatural s = AreDecimal s × (LeadsNonzero s ⊎ (s ≡ b'0' ∷ []))

nonempty : ¬ IsNatural []
nonempty (a, inl h) = h
nonempty (a, inr h) = cc h

digits-IsNatural : (n : ℕ) → IsNatural (digits (suc n) n [])
digits-IsNatural zero = unfold digits in ((omega arith, omega arith, tt), inr refl)
digits-IsNatural (suc n) = (
  digits-AreDecimal (suc (suc n)) (suc n) [] tt,
  inl (digits-LeadsNonzero (suc (suc n)) (suc n) [] (omega arith) (omega arith)),
)

without_underscores_lem : (s : Bytes) → AreDecimal s → without_underscores s ≡ s
without_underscores_lem [] h = refl
without_underscores_lem (c ∷ cs) (a, b, h) = ground (arith, without_underscores_lem cs h)

leading_digits_lem : (s : Bytes) → AreDecimal s → (leading_digits s).1 ≡ []
leading_digits_lem [] h = refl
leading_digits_lem (c ∷ cs) (a, b, h) = ground (arith, leading_digits_lem cs h)

nonzero_any : (c : ℕ) (cs : Bytes) → b'0' < c → parse_uint_any (c ∷ cs) ≡ parse_digits 10 0 (c ∷ cs)
unfolding parse_uint_any
nonzero_any c [] h = ground arith
nonzero_any c (d ∷ []) h = ground arith
nonzero_any c (d ∷ e ∷ cs) h = ground arith

parse_uint_natural :
    (s : Bytes) (n : ℕ) → IsNatural s → parse_digits 10 0 s ≡ some n → parse_uint s 0 ≡ some n
unfolding parse_uint
parse_uint_natural [] n (a, inl h) e = absurd h
parse_uint_natural [] n (a, inr h) e = cc
parse_uint_natural (c ∷ cs) n (a, inl (h, k)) e = nonzero_any c cs h ∙ e
parse_uint_natural (c ∷ cs) n (a, inr h) e =
    rw (ap parse_uint_any h) (rw (ap (parse_digits 10 0) h) at e)

-- What `resolve` does with a text that starts with a digit.
digit_first : (c : ℕ) (cs : Bytes) → b'0' ≤ c → c ≤ b'9' → hint_of (c ∷ cs) ≡ digit_hint
unfolding hint_of resolve_table
digit_first c cs a b = ground arith

sign_first : (cs : Bytes) → hint_of (b'-' ∷ cs) ≡ sign_hint
unfolding hint_of resolve_table
sign_first cs = refl

parse_int_natural :
    (s : Bytes) (n : ℕ)
    → IsNatural s
    → parse_digits 10 0 s ≡ some n
    → n < 2 ^ 63
    → parse_int s 0 ≡ some (pos n)
unfolding parse_int in_range
parse_int_natural [] n h e k = cc (parse_uint_natural [] n h e)
parse_int_natural (c ∷ cs) n ((a, b, h), t) e k =
    ground (arith, parse_uint_natural (c ∷ cs) n ((a, b, h), t) e)

parse_int_negative :
    (s : Bytes) (n : ℕ)
    → IsNatural s
    → parse_digits 10 0 s ≡ some (suc n)
    → n < 2 ^ 63
    → parse_int (b'-' ∷ s) 0 ≡ some (negsuc n)
unfolding parse_int in_range
parse_int_negative s n h e k = ground (arith, parse_uint_natural s (suc n) h e)

abbrev is_no_digit_first : Bytes → Bool
is_no_digit_first [] = true
is_no_digit_first (k ∷ ks) = ltb k b'0' || ltb b'9' k

abbrev is_no_digit_map {ℓ} : {V : Type ℓ} → List (Bytes × V) → Bool
is_no_digit_map [] = true
is_no_digit_map ((k, v) ∷ m) = is_no_digit_first k && is_no_digit_map m

equal_other :
    (k cs : Bytes) (c : ℕ)
    → b'0' ≤ c
    → c ≤ b'9'
    → is_no_digit_first k ≡ true
    → equal k (c ∷ cs) ≡ false
unfolding equal
equal_other [] cs c a b h = refl
equal_other (x ∷ k) cs c a b h = ground arith

map_entry_other {ℓ} :
    {V : Type ℓ} (c : ℕ) (cs : Bytes) (m : List (Bytes × V))
    → b'0' ≤ c
    → c ≤ b'9'
    → is_no_digit_map m ≡ true
    → map_entry (c ∷ cs) m ≡ none
unfolding map_entry
map_entry_other c cs [] a b h = refl
map_entry_other c cs ((k, v) ∷ m) a b h = elim (Bool-cases (is_no_digit_first k)) [
  | inl f ↦
      let q : equal k (c ∷ cs) ≡ false = equal_other k cs c a b f in
      rw q (map_entry_other c cs m a b (rw f at h))
  | inr f ↦ cc (rw f at h)
]

module _ (lib : Library) where
  not_in_map :
      (c : ℕ) (cs : Bytes) → b'0' ≤ c → c ≤ b'9' → map_entry (c ∷ cs) (resolve_map lib) ≡ none
  not_in_map c cs a b = map_entry_other c cs (resolve_map lib) a b refl

  not_in_map_negative :
      (c : ℕ) (cs : Bytes)
      → b'0' ≤ c
      → c ≤ b'9'
      → map_entry (b'-' ∷ c ∷ cs) (resolve_map lib) ≡ none
  unfolding map_entry equal
  not_in_map_negative c cs a b = ground arith

  no_timestamp : (s : Bytes) → AreDecimal s → parse_timestamp lib s ≡ none
  unfolding parse_timestamp has_prefix
  no_timestamp s h = ground (arith, leading_digits_lem s h)

  no_timestamp_negative : (s : Bytes) → parse_timestamp lib (b'-' ∷ s) ≡ none
  unfolding parse_timestamp
  no_timestamp_negative s = refl

  resolve_plain_int :
      (s : Bytes) (v : ℤ) → parse_int s 0 ≡ some v → resolve_plain lib s ≡ some (int_tag, int v)
  unfolding resolve_plain
  resolve_plain_int s v e = rw (e, resolve_plain, signed_or_unsigned) refl

  infer_unmapped :
      (s : Bytes) (d : Bool) (h : Hint)
      → hint_of s ≡ h
      → is_no_hint lib h ≡ false
      → map_entry s (resolve_map lib) ≡ none
      → infer lib [] s d ≡ switch_hint lib h [] d s
  unfolding infer equal
  infer_unmapped s d h e f g = rw (e, f) (rw (g, infer) (ap (λ x. switch_hint lib x [] d s) e))

  timestamp_or_plain :
      (s : Bytes) (d : Bool) (v : ℤ)
      → parse_timestamp lib s ≡ none
      → resolve_plain lib (without_underscores s) ≡ some (int_tag, int v)
      → switched lib
          (◌or_else◌ lib (resolve_time lib [] d s) (resolve_plain lib (without_underscores s)))
        ≡ returns int_tag (int v)
  unfolding equal
  timestamp_or_plain s true v t e = rw e refl
  timestamp_or_plain s false v t e = rw (t, e) refl

  infer_natural :
      (s : Bytes) (n : ℕ) (d : Bool)
      → IsNatural s
      → parse_digits 10 0 s ≡ some n
      → n < 2 ^ 63
      → infer lib [] s d ≡ returns int_tag (int (pos n))
  unfolding switch_hint
  infer_natural [] n d h e k = absurd (nonempty h)
  infer_natural (c ∷ cs) n d ((a, b, h), t) e k =
      let s : Bytes = c ∷ cs in
      let p = resolve_plain_int s (pos n) (parse_int_natural s n ((a, b, h), t) e k) in
      infer_unmapped s d digit_hint (digit_first c cs a b) refl (not_in_map c cs a b)
      ∙ timestamp_or_plain s d (pos n) (no_timestamp s (a, b, h))
          (ap (resolve_plain lib) (without_underscores_lem s (a, b, h)) ∙ p)

  infer_negative :
      (s : Bytes) (n : ℕ) (d : Bool)
      → IsNatural s
      → parse_digits 10 0 s ≡ some (suc n)
      → n < 2 ^ 63
      → infer lib [] (b'-' ∷ s) d ≡ returns int_tag (int (negsuc n))
  unfolding switch_hint
  infer_negative [] n d h e k = absurd (nonempty h)
  infer_negative (c ∷ cs) n d ((a, b, h), t) e k =
      let s : Bytes = c ∷ cs in
      let p = resolve_plain_int (b'-' ∷ s) (negsuc n) (parse_int_negative s n ((a, b, h), t) e k) in
      infer_unmapped (b'-' ∷ s) d sign_hint (sign_first s) refl (not_in_map_negative c cs a b)
      ∙ timestamp_or_plain (b'-' ∷ s) d (negsuc n) (no_timestamp_negative s)
          (ap (λ x. resolve_plain lib (b'-' ∷ x)) (without_underscores_lem s (a, b, h)) ∙ p)

  -- The integers of 64 bits.
  abbrev pub IsInt64 : ℤ → Type 0
  IsInt64 (pos n) = n < 2 ^ 63
  IsInt64 (negsuc n) = n < 2 ^ 63

  resolve_inferred :
      (s : Bytes) (d : Bool) (v : ℤ)
      → infer lib [] s d ≡ returns int_tag (int v)
      → resolve lib [] s d ≡ resolved int_tag (int v)
  unfolding resolve short_tag has_prefix is_resolvable_tag equal check_tag
  resolve_inferred s d v e = resolve_short_inferred lib [] s d refl ∙ ap (finish lib [] s) e

  -- The decimal text of an integer of 64 bits, with no tag, is resolved to that integer, with the tag of
  -- integers, whether timestamps are disabled or not.
  pub resolve-print_int :
      (v : ℤ) (d : Bool) → IsInt64 v → resolve lib [] (print_int v) d ≡ resolved int_tag (int v)
  unfolding print_int
  resolve-print_int (pos n) d k = resolve_inferred (digits (suc n) n []) d (pos n) (
      infer_natural (digits (suc n) n []) n d (digits-IsNatural n) (parsed_digits n (omega arith))
        k)
  resolve-print_int (negsuc n) d k =
      resolve_inferred (b'-' ∷ digits (suc (suc n)) (suc n) []) d (negsuc n) (
        infer_negative (digits (suc (suc n)) (suc n) []) n d (digits-IsNatural (suc n))
          (parsed_digits (suc n) (omega arith)) k)
