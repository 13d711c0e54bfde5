-- ===== src/Origin/Decimal.antt =====
-- `fmt.Sprintf("%d", v)`, and the reading of what it writes.
use yaml.Base.{
  [], ◌∷◌, false, refl, arith, ◌≡◌, ◌<◌, ◌-◌, ◌+◌, ◌*◌, ◌/◌, ◌%◌, ℕ, zero, suc, Bytes, Option, some,
  none, ◌∙◌, ap, if◌then◌else◌, Bool-cases, ltb, leb, ◌==◌, ◌&&◌, inl, inr, is_empty, ◌≤◌,
}

-- Integers; `negsuc n` is -(n + 1).
pub data ℤ : Type 0 where
  pos negsuc : ℕ → ℤ

-- The digits of a number in front of others, with fuel.
unfoldable pub digits : ℕ → ℕ → Bytes → Bytes
digits zero n more = more
digits (suc fuel) n more =
    let rest = digits fuel (n / 10) ((b'0' + n % 10) ∷ more) in
    if ltb n 10 then (b'0' + n % 10) ∷ more else rest

-- `fmt.Sprintf("%d", v)`
unfoldable pub print_int : ℤ → Bytes
unfolding digits
print_int (pos n) = digits (suc n) n []
print_int (negsuc n) = b'-' ∷ digits (suc (suc n)) (suc n) []

-- The value of digits behind a number.
unfoldable pub read_digits : ℕ → Bytes → Option ℕ
read_digits n [] = some n
read_digits n (c ∷ cs) =
    let rest = read_digits (10 * n + (c - b'0')) cs in
    if leb b'0' c && leb c b'9' then rest else none

unfoldable pub negate : ℕ → ℤ
negate zero = pos 0
negate (suc n) = negsuc n

unfoldable pub read_int : Bytes → Option ℤ
unfolding read_digits negate
read_int [] = none
read_int (c ∷ cs) =
    if c == b'-'
    then (elim (read_digits 0 cs) [ none ↦ none | some n ↦ some (negate n) ])
    else (elim (read_digits 0 (c ∷ cs)) [ none ↦ none | some n ↦ some (pos n) ])

read-digit :
    (n d : ℕ) (more : Bytes)
    → d < 10
    → read_digits n ((b'0' + d) ∷ more) ≡ read_digits (10 * n + d) more
unfolding read_digits
read-digit n d more h = let f : b'0' + d - b'0' ≡ d = omega arith in rw f (ground arith)

read-digits :
    (fuel n : ℕ) (more : Bytes) → n < fuel → read_digits 0 (digits fuel n more) ≡ read_digits n more
unfolding digits
read-digits zero n more h = absurd (omega arith)
read-digits (suc fuel) n more h = elim (Bool-cases (ltb n 10)) [
  | inl l ↦ rw l (
      read-digit 0 (n % 10) more (omega arith)
      ∙ ap (λ x. read_digits x more) (small n (ground (arith, l))))
  | inr l ↦ rw l (
      read-digits fuel (n / 10) ((b'0' + n % 10) ∷ more) (smaller n (ground (arith, l)) h)
      ∙ read-digit (n / 10) (n % 10) more (omega arith)
      ∙ ap (λ x. read_digits x more) (omega arith))
]
  where
    small : (m : ℕ) → m < 10 → 10 * 0 + m % 10 ≡ m
    small m l = omega arith

    smaller : (m : ℕ) → 10 ≤ m → m < suc fuel → m / 10 < fuel
    smaller m l k = omega arith

digits-not_empty : (fuel n : ℕ) (more : Bytes) → n < fuel → is_empty (digits fuel n more) ≡ false
unfolding digits
digits-not_empty zero n more h = absurd (omega arith)
digits-not_empty (suc fuel) n more h = elim (Bool-cases (ltb n 10)) [
  | inl l ↦ rw l refl
  | inr l ↦
      rw l
        (digits-not_empty fuel (n / 10) ((b'0' + n % 10) ∷ more) (smaller n (ground (arith, l)) h))
]
  where
    smaller : (m : ℕ) → 10 ≤ m → m < suc fuel → m / 10 < fuel
    smaller m l k = omega arith

read_natural :
    (n : ℕ) (xs : Bytes)
    → is_empty xs ≡ false
    → read_digits 0 xs ≡ some n
    → read_int xs ≡ some (pos n)
unfolding read_int read_digits
read_natural n [] e r = absurd (ground (arith, e))
read_natural n (x ∷ xs) e r = ground (arith, r)

-- The model of the two formats is consistent: the consumer reads what is written for an integer.
pub read-print_int : (v : ℤ) → read_int (print_int v) ≡ some v
unfolding print_int read_int negate
read-print_int (pos n) =
    read_natural n (digits (suc n) n []) (digits-not_empty (suc n) n [] (omega arith))
      (read-digits (suc n) n [] (omega arith) ∙ nothing_left n)
  where
    nothing_left : (m : ℕ) → read_digits m [] ≡ some m
    nothing_left m = unfold read_digits in refl
read-print_int (negsuc n) =
    rw (read-digits (suc (suc n)) (suc n) [] (omega arith)) (unfold read_digits in refl)
