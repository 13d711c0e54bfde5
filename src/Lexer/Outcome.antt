-- ===== src/Lexer/Outcome.antt =====
-- What a scan returns: the characters that it leaves, and the rounds of a loop.
use yaml.Lexer.Cursor.{
  ◌>>◌, Cursor, cache, loop, Lexed, Lex, Turn, proceed, repeat, lexed, again, refused, stop, return,
  while, unreadable, broken, endless,
}
use yaml.Base.{
  ℕ, Bytes, Bool, suc, ◌≡◌, ◌≤◌, ◌<◌, [], Bool-cases, arith, true, not, ◌∷◌, drop, leb, false, zero,
  ◌||◌, ◌==◌, inl, inr, if◌then◌else◌, refl,
}
use yaml.Chars.{width, at}

-- The bytes are so many characters, none of them without a width.
abbrev pub AreChars : ℕ → Bytes → Type 0
AreChars zero b = b ≡ []
AreChars (suc n) [] = ⊥
AreChars (suc n) (b ∷ bs) = (0 < width b) × AreChars n (drop (width b) (b ∷ bs))

-- `unread` counts the characters of the buffer.
abbrev pub IsWhole : Cursor → Type 0
IsWhole c = AreChars c.unread c.buffer

-- The characters are whole, and at most so many are left.
abbrev pub Leaves : ℕ → Cursor → Type 0
Leaves n d = IsWhole d × (d.unread ≤ n)

-- A function returns what it should, and it fails with an error only if that is allowed; it does not
-- panic, and its loops end.
abbrev pub Meets {ℓ} : {A : Type ℓ} → Type 0 → (A → Cursor → Type 0) → Lexed A → Type 0
Meets failing good (lexed a d) = good a d
Meets failing good (refused context mark problem d) = failing
Meets failing good (unreadable d) = failing
Meets failing good broken = ⊥
Meets failing good endless = ⊥

-- An error is allowed.
abbrev pub Goes {ℓ} : {A : Type ℓ} → (A → Cursor → Type 0) → Lexed A → Type 0
Goes good r = Meets (Unit {0}) good r

pub Meets-proceed {ℓ κ} :
    {A : Type ℓ} {B : Type κ} (failing : Type 0) (good : A → Cursor → Type 0)
    (fine : B → Cursor → Type 0) (r : Lexed A) (f : A → Lex B)
    → Meets failing good r
    → ((a : A) (d : Cursor) → good a d → Meets failing fine (f a d))
    → Meets failing fine (proceed r f)
Meets-proceed failing good fine (lexed a d) f h k = k a d h
Meets-proceed failing good fine (refused context mark problem d) f h k = h
Meets-proceed failing good fine (unreadable d) f h k = h
Meets-proceed failing good fine broken f h k = h
Meets-proceed failing good fine endless f h k = h

pub Goes-proceed {ℓ κ} :
    {A : Type ℓ} {B : Type κ} (good : A → Cursor → Type 0) (fine : B → Cursor → Type 0)
    (r : Lexed A) (f : A → Lex B)
    → Goes good r
    → ((a : A) (d : Cursor) → good a d → Goes fine (f a d))
    → Goes fine (proceed r f)
Goes-proceed good fine r f h k = Meets-proceed Unit good fine r f h k

pub Meets-more {ℓ} :
    {A : Type ℓ} (failing : Type 0) (good fine : A → Cursor → Type 0) (r : Lexed A)
    → Meets failing good r
    → ((a : A) (d : Cursor) → good a d → fine a d)
    → Meets failing fine r
Meets-more failing good fine (lexed a d) h k = k a d h
Meets-more failing good fine (refused context mark problem d) h k = h
Meets-more failing good fine (unreadable d) h k = h
Meets-more failing good fine broken h k = h
Meets-more failing good fine endless h k = h

pub Goes-more {ℓ} :
    {A : Type ℓ} (good fine : A → Cursor → Type 0) (r : Lexed A)
    → Goes good r
    → ((a : A) (d : Cursor) → good a d → fine a d)
    → Goes fine r
Goes-more good fine r h k = Meets-more Unit good fine r h k

-- At the end of the input there is nothing to read.
pub cached {ℓ} :
    {A : Type ℓ} (n : ℕ) (k : Lex A) (c : Cursor) → c.at_end ≡ true → (cache n >> k) c ≡ k c
unfolding cache
cached n k c h = let e : (leb n c.unread || c.at_end) ≡ true = ground (arith, h) in rw e refl

pub Meets-cached {ℓ} :
    {A : Type ℓ} (failing : Type 0) (good : A → Cursor → Type 0) (n : ℕ) (k : Lex A) (c : Cursor)
    → c.at_end ≡ true
    → Meets failing good (k c)
    → Meets failing good ((cache n >> k) c)
Meets-cached failing good n k c e h = rw (cached n k c e) h

pub Goes-cache {ℓ} :
    {A : Type ℓ} (good : A → Cursor → Type 0) (n : ℕ) (k : Lex A) (c : Cursor)
    → Goes good (k c)
    → Goes good ((cache n >> k) c)
unfolding cache
Goes-cache good n k c h = elim (Bool-cases (leb n c.unread || c.at_end)) [
  | inl e ↦ rw e h
  | inr e ↦ rw e tt
]

-- Where a round of a loop leads, from so many characters.
abbrev pub Turned {ℓ} :
    {A : Type ℓ} → (A → Cursor → Type 0) → (A → Cursor → Type 0) → ℕ → Turn A → Cursor → Type 0
Turned good fine n (again a) d = good a d × (d.unread < n)
Turned good fine n (stop a) d = fine a d

-- The same, but for the count.
abbrev pub TurnsTo {ℓ} :
    {A : Type ℓ} → (A → Cursor → Type 0) → (A → Cursor → Type 0) → Turn A → Cursor → Type 0
TurnsTo good fine (again a) d = good a d
TurnsTo good fine (stop a) d = fine a d

-- What a round that does not fail leads to, and that it consumes a character.
pub Meets-Turned_to {ℓ} :
    {A : Type ℓ} (failing : Type 0) (good fine left end : A → Cursor → Type 0) (n : ℕ)
    (r : Lexed (Turn A))
    → Meets failing (TurnsTo good fine) r
    → Goes (Turned left end n) r
    → Meets failing (Turned good fine n) r
Meets-Turned_to failing good fine left end n (lexed (again a) d) h (k, l) = (h, l)
Meets-Turned_to failing good fine left end n (lexed (stop a) d) h k = h
Meets-Turned_to failing good fine left end n (refused context mark problem d) h k = h
Meets-Turned_to failing good fine left end n (unreadable d) h k = h
Meets-Turned_to failing good fine left end n broken h k = h
Meets-Turned_to failing good fine left end n endless h k = h

pub Turned-if {ℓ} :
    {A : Type ℓ} (good fine : A → Cursor → Type 0) (n : ℕ) (b : Bool) (s t : Turn A) (d : Cursor)
    → Turned good fine n s d
    → Turned good fine n t d
    → Turned good fine n (if b then s else t) d
Turned-if good fine n true s t d h k = h
Turned-if good fine n false s t d h k = k

Meets-Turned {ℓ} :
    {A : Type ℓ} (failing : Type 0) (good fine : A → Cursor → Type 0) (later : A → Lex A) (n : ℕ)
    (t : Turn A) (d : Cursor)
    → Turned good fine n t d
    → ((b : A) → good b d → d.unread < n → Meets failing fine (later b d))
    → Meets failing fine (elim t as (λ _. Lex A) [ again b ↦ later b | stop b ↦ return b ] d)
Meets-Turned failing good fine later n (again b) d (g, m) f = f b g m
Meets-Turned failing good fine later n (stop b) d g f = g

Meets-repeat {ℓ} :
    {A : Type ℓ} (failing : Type 0) (good fine : A → Cursor → Type 0) (body : A → Lex (Turn A))
    → ((a : A) (c : Cursor) → good a c → Meets failing (Turned good fine c.unread) (body a c))
    → (n : ℕ) (a : A) (c : Cursor) → good a c
    → c.unread < n
    → Meets failing fine (repeat n body a c)
Meets-repeat failing good fine body k zero a c h l = absurd (omega (arith, l))
Meets-repeat failing good fine body k (suc n) a c h l =
    Meets-proceed failing (Turned good fine c.unread) fine (body a c) _ (k a c h) (λ t d g.
      Meets-Turned failing good fine (repeat n body) c.unread t d g
        (λ b e m. Meets-repeat failing good fine body k n b d e (omega (arith, l, m))))

-- A loop ends if each round but the last consumes a character.
pub Meets-loop {ℓ} :
    {A : Type ℓ} (failing : Type 0) (good fine : A → Cursor → Type 0) (body : A → Lex (Turn A))
    → ((a : A) (c : Cursor) → good a c → Meets failing (Turned good fine c.unread) (body a c))
    → (a : A) (c : Cursor) → good a c
    → Meets failing fine (loop body a c)
unfolding loop
Meets-loop failing good fine body k a c h =
    Meets-repeat failing good fine body k (suc c.unread) a c h (omega arith)

pub Goes-loop {ℓ} :
    {A : Type ℓ} (good fine : A → Cursor → Type 0) (body : A → Lex (Turn A))
    → ((a : A) (c : Cursor) → good a c → Goes (Turned good fine c.unread) (body a c))
    → (a : A) (c : Cursor) → good a c
    → Goes fine (loop body a c)
Goes-loop good fine body k a c h = Meets-loop Unit good fine body k a c h

pub Meets-while {ℓ} :
    {A : Type ℓ} (failing : Type 0) (good : A → Cursor → Type 0) (test : Bytes → Bool)
    (body : A → Lex A)
    → ((a : A) (c : Cursor)
        → good a c
        → test c.buffer ≡ true
        → Meets failing (λ b d. good b d × (d.unread < c.unread)) (body a c))
    → (a : A) (c : Cursor) → good a c
    → Meets failing (λ b d. good b d × (test d.buffer ≡ false)) (while test body a c)
Meets-while failing good test body k a c h =
    Meets-loop failing good (λ b d. good b d × (test d.buffer ≡ false)) _
      (λ b d g. elim (Bool-cases (test d.buffer)) [
        | inl e ↦ rw e (Meets-proceed failing _ _ (body b d) _ (k b d g e) (λ x y z. z))
        | inr e ↦ rw e (g, e)
      ])
      a c h

pub Goes-while {ℓ} :
    {A : Type ℓ} (good : A → Cursor → Type 0) (test : Bytes → Bool) (body : A → Lex A)
    → ((a : A) (c : Cursor)
        → good a c
        → test c.buffer ≡ true
        → Goes (λ b d. good b d × (d.unread < c.unread)) (body a c))
    → (a : A) (c : Cursor) → good a c
    → Goes (λ b d. good b d × (test d.buffer ≡ false)) (while test body a c)
Goes-while good test body k a c h = Meets-while Unit good test body k a c h

-- There is a character.
abbrev pub has_first : Bytes → Bool
has_first b = not (at b 0 == 0)

-- One character less.
abbrev pub Steps {ℓ} : {A : Type ℓ} → Cursor → A → Cursor → Type 0
Steps c a d = IsWhole d × (d.unread < c.unread)
