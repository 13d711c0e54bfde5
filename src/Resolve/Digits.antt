-- ===== src/Resolve/Digits.antt =====
-- The decimal text of a number, as `resolve` looks at it.
use yaml.Base.{
  [], ◌∷◌, ℕ, zero, suc, Bytes, some, refl, arith, ◌≡◌, inl, inr, Bool-cases, ◌∙◌, ap, ◌+◌, ◌*◌,
  ◌^◌, ◌/◌, ◌%◌, ◌<◌, ◌≤◌, ltb,
}
use yaml.Origin.Decimal.{digits}
use yaml.Resolve.Numbers.{parse_digits, digit_value}

abbrev pub AreDecimal : Bytes → Type 0
AreDecimal [] = Unit
AreDecimal (c ∷ cs) = (b'0' ≤ c) × (c ≤ b'9') × AreDecimal cs

-- A first digit that is not a zero.
abbrev pub LeadsNonzero : Bytes → Type 0
LeadsNonzero [] = ⊥
LeadsNonzero (c ∷ cs) = (b'0' < c) × (c ≤ b'9')

pub digits-AreDecimal :
    (fuel n : ℕ) (more : Bytes) → AreDecimal more → AreDecimal (digits fuel n more)
unfolding digits
digits-AreDecimal zero n more h = h
digits-AreDecimal (suc fuel) n more h =
    let a : AreDecimal ((b'0' + n % 10) ∷ more) = (omega arith, omega arith, h) in
    elim (Bool-cases (ltb n 10)) [
      | inl l ↦ rw l a
      | inr l ↦ rw l (digits-AreDecimal fuel (n / 10) ((b'0' + n % 10) ∷ more) a)
    ]

pub digits-LeadsNonzero :
    (fuel n : ℕ) (more : Bytes) → 0 < n → n < fuel → LeadsNonzero (digits fuel n more)
unfolding digits
digits-LeadsNonzero zero n more p h = absurd (omega arith)
digits-LeadsNonzero (suc fuel) n more p h = elim (Bool-cases (ltb n 10)) [
  | inl l ↦ rw l (small n p (ground (arith, l)))
  | inr l ↦ rw l (
      digits-LeadsNonzero fuel (n / 10) ((b'0' + n % 10) ∷ more) (large n (ground (arith, l)))
        (smaller n (ground (arith, l)) h))
]
  where
    small : (m : ℕ) → 0 < m → m < 10 → (b'0' < b'0' + m % 10) × (b'0' + m % 10 ≤ b'9')
    small m p l = (omega arith, omega arith)

    large : (m : ℕ) → 10 ≤ m → 0 < m / 10
    large m l = omega arith

    smaller : (m : ℕ) → 10 ≤ m → m < suc fuel → m / 10 < fuel
    smaller m l k = omega arith

parse_digit :
    (m d : ℕ) (more : Bytes)
    → d < 10
    → m * 10 + d < 2 ^ 64
    → parse_digits 10 m ((b'0' + d) ∷ more) ≡ parse_digits 10 (m * 10 + d) more
unfolding parse_digits
parse_digit m d more h k =
    let f : digit_value (b'0' + d) ≡ d = unfold digit_value in ground arith in rw f (ground arith)

pub parse-digits :
    (fuel n : ℕ) (more : Bytes)
    → n < fuel
    → n < 2 ^ 64
    → parse_digits 10 0 (digits fuel n more) ≡ parse_digits 10 n more
unfolding digits
parse-digits zero n more h k = absurd (omega arith)
parse-digits (suc fuel) n more h k = elim (Bool-cases (ltb n 10)) [
  | inl l ↦ rw l (
      parse_digit 0 (n % 10) more (omega arith) (omega arith)
      ∙ ap (λ x. parse_digits 10 x more) (small n (ground (arith, l))))
  | inr l ↦ rw l (
      parse-digits fuel (n / 10) ((b'0' + n % 10) ∷ more) (smaller n (ground (arith, l)) h)
        (omega arith)
      ∙ parse_digit (n / 10) (n % 10) more (omega arith) (omega arith)
      ∙ ap (λ x. parse_digits 10 x more) (omega arith))
]
  where
    small : (m : ℕ) → m < 10 → 0 * 10 + m % 10 ≡ m
    small m l = omega arith

    smaller : (m : ℕ) → 10 ≤ m → m < suc fuel → m / 10 < fuel
    smaller m l k = omega arith

pub parsed_digits : (n : ℕ) → n < 2 ^ 64 → parse_digits 10 0 (digits (suc n) n []) ≡ some n
parsed_digits n k = parse-digits (suc n) n [] (omega arith) k ∙ end n
  where
    end : (m : ℕ) → parse_digits 10 m [] ≡ some m
    end m = unfold parse_digits in refl
