-- ===== src/Lexer/Safe.antt =====
-- The steps of a scan, on whole characters: they do not panic, and leave whole characters.
use yaml.Lexer.Cursor.{
  ◌>>◌, Cursor, Lexed, Lex, proceed, cache, skip, read_while, skip_while, read, while, return,
  skip_line,
}
use yaml.Base.{
  ℕ, Bytes, Bool, suc, ◌≡◌, true, false, if◌then◌else◌, drop, refl, arith, ◌<◌, ◌-◌, Bool-cases,
  leb, ◌||◌, inl, inr, ltb, ap, ◌&&◌, ◌∙◌,
}
use yaml.Lexer.Outcome.{
  Leaves, Goes, Goes-proceed, Goes-cache, has_first, Steps, Goes-more, AreChars, Goes-while,
  IsWhole, Meets,
}
use yaml.Lexer.Moving.{Goes-skip, Goes-read, drop_first, at-drop, Goes-skip_line}
use yaml.Chars.{width, at, is_break}
use yaml.Reader.Octets.{width_lem}

-- A function returns and leaves at most so many characters, or fails with an error; it does not panic,
-- and its loops end.
abbrev pub IsSafe {ℓ} : {A : Type ℓ} → ℕ → Lexed A → Type 0
IsSafe n r = Goes (λ a d. Leaves n d) r

pub proceed-IsSafe {ℓ κ} :
    {A : Type ℓ} {B : Type κ} (n m : ℕ) (r : Lexed A) (f : A → Lex B)
    → IsSafe n r
    → ((a : A) (d : Cursor) → Leaves n d → IsSafe m (f a d))
    → IsSafe m (proceed r f)
proceed-IsSafe n m r f h k = Goes-proceed (λ a d. Leaves n d) (λ b d. Leaves m d) r f h k

pub cache-IsSafe {ℓ} :
    {A : Type ℓ} (n m : ℕ) (k : Lex A) (c : Cursor) → IsSafe n (k c) → IsSafe n ((cache m >> k) c)
cache-IsSafe n m k c h = Goes-cache (λ a d. Leaves n d) m k c h

pub only_cache-IsSafe : (n m : ℕ) (c : Cursor) → Leaves n c → IsSafe n (cache m c)
unfolding cache
only_cache-IsSafe n m c h = elim (Bool-cases (leb m c.unread || c.at_end)) [
  | inl e ↦ rw e h
  | inr e ↦ rw e tt
]

-- A test on the way.
pub Meets-if {ℓ} :
    {A : Type ℓ} (failing : Type 0) (good : A → Cursor → Type 0) (b : Bool) (f g : Lex A)
    (c : Cursor)
    → (b ≡ true → Meets failing good (f c))
    → (b ≡ false → Meets failing good (g c))
    → Meets failing good ((if b then f else g) c)
Meets-if failing good true f g c h k = h refl
Meets-if failing good false f g c h k = k refl

pub Goes-if {ℓ} :
    {A : Type ℓ} (good : A → Cursor → Type 0) (b : Bool) (f g : Lex A) (c : Cursor)
    → (b ≡ true → Goes good (f c))
    → (b ≡ false → Goes good (g c))
    → Goes good ((if b then f else g) c)
Goes-if good b f g c h k = Meets-if Unit good b f g c h k

pub Meets-choice {ℓ} :
    {A : Type ℓ} (failing : Type 0) (good : A → Cursor → Type 0) (b : Bool) (x y : Lexed A)
    → (b ≡ true → Meets failing good x)
    → (b ≡ false → Meets failing good y)
    → Meets failing good (if b then x else y)
Meets-choice failing good true x y h k = h refl
Meets-choice failing good false x y h k = k refl

pub Goes-choice {ℓ} :
    {A : Type ℓ} (good : A → Cursor → Type 0) (b : Bool) (x y : Lexed A)
    → (b ≡ true → Goes good x)
    → (b ≡ false → Goes good y)
    → Goes good (if b then x else y)
Goes-choice good b x y h k = Meets-choice Unit good b x y h k

pub if-IsSafe {ℓ} :
    {A : Type ℓ} (n : ℕ) (b : Bool) (f g : Lex A) (c : Cursor)
    → (b ≡ true → IsSafe n (f c))
    → (b ≡ false → IsSafe n (g c))
    → IsSafe n ((if b then f else g) c)
if-IsSafe n b f g c h k = Goes-if (λ a d. Leaves n d) b f g c h k

pub choice-IsSafe {ℓ} :
    {A : Type ℓ} (n : ℕ) (b : Bool) (x y : Lexed A)
    → (b ≡ true → IsSafe n x)
    → (b ≡ false → IsSafe n y)
    → IsSafe n (if b then x else y)
choice-IsSafe n b x y h k = Goes-choice (λ a d. Leaves n d) b x y h k

pub skip-IsSafe :
    (n : ℕ) (c : Cursor) → Leaves (suc n) c → has_first c.buffer ≡ true → IsSafe n (skip c)
skip-IsSafe n c (w, l) h =
    Goes-more (λ u d. Steps c u d × (d.buffer ≡ drop (width (at c.buffer 0)) c.buffer)) _ (skip c)
      (Goes-skip c w h) (λ u d ((v, m), e). (v, omega (arith, l, m)))

pub read-IsSafe :
    (n : ℕ) (s : Bytes) (c : Cursor)
    → Leaves (suc n) c
    → has_first c.buffer ≡ true
    → IsSafe n (read s c)
read-IsSafe n s c (w, l) h =
    Goes-more (Steps c) _ (read s c) (Goes-read s c w h) (λ t d (v, m). (v, omega (arith, l, m)))

-- The same, where the count is not needed.
pub skip_on-IsSafe :
    (n : ℕ) (c : Cursor) → Leaves n c → has_first c.buffer ≡ true → IsSafe n (skip c)
skip_on-IsSafe n c (w, l) h = skip-IsSafe n c (w, omega (arith, l)) h

pub read_on-IsSafe :
    (n : ℕ) (s : Bytes) (c : Cursor) → Leaves n c → has_first c.buffer ≡ true → IsSafe n (read s c)
read_on-IsSafe n s c (w, l) h = read-IsSafe n s c (w, omega (arith, l)) h

pub skip_line-IsSafe :
    (n : ℕ) (c : Cursor) → Leaves n c → is_break c.buffer 0 ≡ true → IsSafe n (skip_line c)
skip_line-IsSafe n c (w, l) h =
    Goes-more (Steps c) _ (skip_line c) (Goes-skip_line c w h)
      (λ u d (v, m). (v, omega (arith, l, m)))

-- An octet that is a character.
abbrev pub is_octet : ℕ → Bool
is_octet x = ltb 0 x && ltb x 128

pub width-octet : (x : ℕ) → is_octet x ≡ true → width x ≡ 1
width-octet x h = let e = width_lem x (ground (arith, h)) in e ∙ ground (arith, h)

-- Such a character is skipped, and the others are behind it.
pub octet-Goes {κ} :
    {B : Type κ} (good : B → Cursor → Type 0) (k : Unit {0} → Lex B) (c : Cursor)
    → IsWhole c
    → is_octet (at c.buffer 0) ≡ true
    → ((d : Cursor)
        → Steps {0} c tt d
        → ((i : ℕ) → at d.buffer i ≡ at c.buffer (suc i))
        → Goes good (k tt d))
    → Goes good (proceed (skip c) k)
octet-Goes good k c w o f =
    Goes-proceed (λ u d. Steps c u d × (d.buffer ≡ drop (width (at c.buffer 0)) c.buffer)) good
      (skip c) k (Goes-skip c w (ground (arith, o)))
      (λ u d (s, e).
        let q : d.buffer ≡ drop 1 c.buffer = rw (width-octet (at c.buffer 0) o) at e in
        f d s (λ i. ap (λ b. at b i) q ∙ at-drop c.buffer i))

pub some_left : (n : ℕ) (b : Bytes) → AreChars n b → has_first b ≡ true → 0 < n
some_left n b w f = let (d, l, p) = drop_first n b w f in omega (arith, l)

-- `for test { … }`, each round of which consumes a character.
pub while-IsSafe {ℓ} :
    {A : Type ℓ} (test : Bytes → Bool) (body : A → Lex A) (n : ℕ)
    → ((m : ℕ) (a : A) (c : Cursor)
        → Leaves (suc m) c
        → test c.buffer ≡ true
        → has_first c.buffer ≡ true
        → IsSafe m (body a c))
    → ((b : Bytes) → test b ≡ true → has_first b ≡ true)
    → (a : A) (c : Cursor) → Leaves n c
    → IsSafe n (while test body a c)
while-IsSafe test body n k first a c h =
    Goes-more (λ b d. Leaves n d × (test d.buffer ≡ false)) _ (while test body a c)
      (Goes-while (λ b d. Leaves n d) test body
        (λ b d (w, l) t.
          let f = first d.buffer t in
          let p : 0 < d.unread = some_left d.unread d.buffer w f in
          Goes-more _ _ (body b d) (k (d.unread - 1) b d (w, omega (arith, p)) t f)
            (λ x e (v, m). ((v, omega (arith, l, m, p)), omega (arith, m, p))))
        a c h)
      (λ b d (g, e). g)

-- A loop that reads the characters of a class.
pub read_while-IsSafe :
    (test : Bytes → Bool)
    → ((b : Bytes) → test b ≡ true → has_first b ≡ true)
    → (n : ℕ) (s : Bytes) (c : Cursor) → Leaves n c
    → IsSafe n (read_while test s c)
read_while-IsSafe test first n s c h =
    while-IsSafe test _ n
      (λ m t d g e f.
        proceed-IsSafe m m (read t d) _ (read-IsSafe m t d g f)
          (λ u x y. cache-IsSafe m 1 (return u) x y))
      first s c h

pub skip_while-IsSafe :
    (test : Bytes → Bool)
    → ((b : Bytes) → test b ≡ true → has_first b ≡ true)
    → (n : ℕ) (c : Cursor) → Leaves n c
    → IsSafe n (skip_while test c)
skip_while-IsSafe test first n c h =
    while-IsSafe test _ n
      (λ m t d g e f.
        proceed-IsSafe m m (skip d) _ (skip-IsSafe m d g f) (λ u x y. only_cache-IsSafe m 1 x y))
      first tt c h
