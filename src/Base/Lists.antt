-- ===== src/Base/Lists.antt =====
-- Byte strings, and lists measured by the native numbers.
use Prim.Native.Char.{code}
use Prim.Native.Nat.{ℕ, zero, suc, ◌+◌}
use Prim.Native.String.{String}
use mathlib.Core.Bool.{Bool, true, false}
use mathlib.Core.List.{List, [], ◌∷◌, ◌++◌}
use mathlib.Core.Path.{◌≡◌, refl}
use native.Mathlib.Omega.{arith}
use yaml.Base.Tests.{if◌then◌else◌, ◌==◌}

abbrev pub Bytes : Type 0
Bytes = List ℕ

-- The code points of a text: its bytes, if it is ASCII.
abbrev pub codes : String → Bytes
codes String.[] = []
codes (String.◌∷◌ c s) = code c ∷ codes s

module _ {ℓ} {A : Type ℓ} where
  abbrev pub length : List A → ℕ
  length [] = 0
  length (x ∷ xs) = suc (length xs)

  abbrev pub take : ℕ → List A → List A
  take zero xs = []
  take (suc n) [] = []
  take (suc n) (x ∷ xs) = x ∷ take n xs

  abbrev pub drop : ℕ → List A → List A
  drop zero xs = xs
  drop (suc n) [] = []
  drop (suc n) (x ∷ xs) = drop n xs

  abbrev pub is_empty : List A → Bool
  is_empty [] = true
  is_empty (x ∷ xs) = false

  pub length-append : (xs ys : List A) → length (xs ++ ys) ≡ length xs + length ys
  length-append [] ys = omega arith
  length-append (x ∷ xs) ys = omega (arith, length-append xs ys)

-- `bytes.Equal`, and `==` on Go strings.
unfoldable pub equal : Bytes → Bytes → Bool
equal [] [] = true
equal [] (c ∷ cs) = false
equal (b ∷ bs) [] = false
equal (b ∷ bs) (c ∷ cs) = if b == c then equal bs cs else false

pub eq_of_equal : (bs cs : Bytes) → equal bs cs ≡ true → bs ≡ cs
unfolding equal
eq_of_equal [] [] h = refl
eq_of_equal [] (c ∷ cs) h = cc h
eq_of_equal (b ∷ bs) [] h = cc h
eq_of_equal (b ∷ bs) (c ∷ cs) h = ground (arith, eq_of_equal bs cs)

pub equal_self : (bs : Bytes) → equal bs bs ≡ true
unfolding equal
equal_self [] = refl
equal_self (b ∷ bs) = ground (arith, equal_self bs)
