-- ===== src/Parser/Header.antt =====
-- The head comment of an implicit document: what `yaml_parser_parse_document_start` splits off.
use yaml.Base.{
  [], ◌∷◌, ◌++◌, refl, arith, ◌≡◌, ◌⊎◌, inl, inr, ◌<◌, ◌-◌, ◌+◌, ℕ, zero, suc, Bytes, length, take,
  drop, Bool-cases, ap, ◌==◌, Bool, false, ◌&&◌, ◌≤◌, sym, ◌||◌, true,
}
use yaml.Parser.Comments.{byte_at, split_header_from, split_header}

at_newline :
    (h : Bytes) (i : ℕ)
    → i < length h
    → byte_at h i ≡ b'\n'
    → h ≡ take i h ++ (b'\n' ∷ drop (suc i) h)
at_newline [] i k e = absurd (omega arith)
at_newline (x ∷ xs) zero k e = ap (λ y. y ∷ xs) e
at_newline (x ∷ xs) (suc i) k e = ap (◌∷◌ x) (at_newline xs i (omega arith) e)

at_newlines :
    (h : Bytes) (i : ℕ)
    → suc i < length h
    → byte_at h i ≡ b'\n'
    → byte_at h (suc i) ≡ b'\n'
    → h ≡ take i h ++ (b'\n' ∷ b'\n' ∷ drop (suc (suc i)) h)
at_newlines [] i k d e = absurd (omega arith)
at_newlines (x ∷ []) i k d e = absurd (omega arith)
at_newlines (x ∷ y ∷ xs) zero k d e = λ t. d t ∷ e t ∷ xs
at_newlines (x ∷ y ∷ xs) (suc i) k d e = ap (◌∷◌ x) (at_newlines (y ∷ xs) i (omega arith) d e)

drop_all : (h : Bytes) (n : ℕ) → n ≡ length h → drop n h ≡ []
drop_all [] zero e = refl
drop_all [] (suc n) e = absurd (omega arith)
drop_all (x ∷ xs) zero e = absurd (omega arith)
drop_all (x ∷ xs) (suc n) e = drop_all xs n (omega arith)

drop_at : (h : Bytes) (i : ℕ) → i < length h → drop i h ≡ byte_at h i ∷ drop (suc i) h
drop_at [] i k = absurd (omega arith)
drop_at (x ∷ xs) zero k = refl
drop_at (x ∷ xs) (suc i) k = drop_at xs i (omega arith)

-- The text has an empty line in it, or a newline at its end.
unfoldable pub has_break : Bytes → Bool
has_break [] = false
has_break (x ∷ []) = x == b'\n'
has_break (x ∷ y ∷ xs) = (x == b'\n' && y == b'\n') || has_break (y ∷ xs)

break_last : (h : Bytes) (i : ℕ) → suc i ≡ length h → has_break (drop i h) ≡ (byte_at h i == b'\n')
unfolding has_break
break_last h i e =
    let d : drop (suc i) h ≡ [] = drop_all h (suc i) e in rw (drop_at h i (omega arith), d) refl

break_before :
    (h : Bytes) (j : ℕ)
    → suc j < length h
    → has_break (drop j h)
      ≡ ((byte_at h j == b'\n' && byte_at h (suc j) == b'\n') || has_break (drop (suc j) h))
unfolding has_break
break_before h j k = rw (drop_at h j (omega arith), drop_at h (suc j) k) refl

-- The parts are nothing and the whole comment, if it has no empty line and does not end with a
-- newline, or has one byte at most; or what stands before the last empty line and what stands behind
-- it, where no newline is at the end; or all but the newline at the end.
abbrev pub IsSplit : Bytes → Bytes × Bytes → Type 0
IsSplit h (header, rest) =
    ((header ≡ []) × (rest ≡ h) × ((has_break h ≡ false) ⊎ (length h ≤ 1)))
    ⊎ ((h ≡ header ++ (b'\n' ∷ b'\n' ∷ rest)) × (has_break (b'\n' ∷ rest) ≡ false))
    ⊎ ((h ≡ header ++ (b'\n' ∷ [])) × (rest ≡ []) × (2 ≤ length h))

-- Nothing from this index on would have ended the loop before it came here.
abbrev IsUnbroken : Bytes → ℕ → Type 0
IsUnbroken h i = (suc i ≡ length h) ⊎ (has_break (drop i h) ≡ false)

and_false : (b : Bool) → (b && false) ≡ false
and_false true = refl
and_false false = refl

plain-IsUnbroken :
    (h : Bytes) (j : ℕ)
    → suc j < length h
    → (byte_at h (suc j) == b'\n') ≡ false
    → IsUnbroken h (suc j)
    → has_break (drop j h) ≡ false
plain-IsUnbroken h j k e (inl l) =
    rw (break_before h j k, break_last h (suc j) l, e, and_false (byte_at h j == b'\n')) refl
plain-IsUnbroken h j k e (inr l) =
    rw (break_before h j k, l, e, and_false (byte_at h j == b'\n')) refl

split_header_from-IsSplit :
    (h : Bytes) (i : ℕ) → i < length h → IsUnbroken h i → IsSplit h (split_header_from h i)
unfolding split_header_from
split_header_from-IsSplit h zero k (inl l) = inl (refl, refl, inr (omega arith))
split_header_from-IsSplit h zero k (inr l) = inl (refl, refl, inl l)
split_header_from-IsSplit h (suc j) k u = elim (Bool-cases (byte_at h (suc j) == b'\n')) [
  | inr e ↦ rw e (split_header_from-IsSplit h j (omega arith) (inr (plain-IsUnbroken h j k e u)))
  | inl e ↦ elim (Bool-cases (suc j == length h - 1)) [
    | inl f ↦ rw (e, f) (inr (inr (at_end j k (ground (arith, e)) (ground (arith, f)))))
    | inr f ↦ elim (Bool-cases (byte_at h j == b'\n')) [
      | inl g ↦
          rw (e, f, g)
            (inr (inl (between j k (ground (arith, g)) (ground (arith, e)) (inside u f))))
      | inr g ↦
          rw (e, f, g)
            (split_header_from-IsSplit h j (omega arith)
              (inr (rw (break_before h j k, g, inside u f) refl)))
    ]
  ]
]
  where
    at_end :
        (m : ℕ)
        → suc m < length h
        → byte_at h (suc m) ≡ b'\n'
        → suc m ≡ length h - 1
        → (h ≡ take (suc m) h ++ (b'\n' ∷ [])) × (drop (suc m + 1) h ≡ []) × (2 ≤ length h)
    at_end m l e f =
        let d : drop (suc (suc m)) h ≡ [] = drop_all h (suc (suc m)) (omega arith) in
        let g : suc m + 1 ≡ suc (suc m) = omega arith in
        (rw d at (at_newline h (suc m) l e), rw g d, omega arith)

    between :
        (m : ℕ)
        → suc m < length h
        → byte_at h m ≡ b'\n'
        → byte_at h (suc m) ≡ b'\n'
        → has_break (drop (suc m) h) ≡ false
        → (h ≡ take m h ++ (b'\n' ∷ b'\n' ∷ drop (suc m + 1) h))
          × (has_break (b'\n' ∷ drop (suc m + 1) h) ≡ false)
    between m l d e n =
        let g : suc m + 1 ≡ suc (suc m) = omega arith in
        (rw g (at_newlines h m l d e), rw (g, sym e, sym (drop_at h (suc m) l)) n)

    inside :
        {m : ℕ}
        → IsUnbroken h (suc m)
        → (suc m == length h - 1) ≡ false
        → has_break (drop (suc m) h) ≡ false
    inside (inl l) f = absurd (ground (arith, l, f))
    inside (inr l) f = l

-- What `yaml_parser_parse_document_start` makes of the head comment of an implicit document. If the
-- comment ends with a newline and has more than that, all before it is the header, and nothing
-- stays. Else, if it has an empty line, the text before the last one is the header, and the text behind
-- it stays. Else there is no header, and all stays. No other byte is lost than those newlines.
pub split_header-IsSplit : (h : Bytes) → IsSplit h (split_header h)
unfolding split_header has_break
split_header-IsSplit [] = inl (refl, refl, inl refl)
split_header-IsSplit (x ∷ xs) =
    split_header_from-IsSplit (x ∷ xs) (length (x ∷ xs) - 1) (omega arith) (inl (omega arith))
