-- ===== src/Scanner/Still.antt =====
-- The functions of levels do not read.
use yaml.Scanner.State.{scanned, failed, panics, Scanner, Scanned, SimpleKey, next}
use yaml.Base.{
  refl, ℕ, Bool, List, if◌then◌else◌, ltb, ◌≡◌, true, ◌∷◌, false, [], subst, ◌==◌, ◌&&◌, ◌+◌,
}
use yaml.Scanner.Levels.{
  remove_simple_key, save_simple_key, unroll, unroll_indent, remove_top, put_key, key_here,
}
use yaml.Types.{Mark}
use yaml.Scanner.Fetch.{reset_levels, allow_key}

-- A function does not read.
abbrev pub IsStill : ℕ → Scanned → Type 0
IsStill n (scanned t) = t.unread ≡ n
IsStill n (failed t) = Unit
IsStill n panics = Unit

IsStill-if :
    (n : ℕ) (b : Bool) (x y : Scanned) → IsStill n x → IsStill n y → IsStill n (if b then x else y)
IsStill-if n true x y h k = h
IsStill-if n false x y h k = k

pub remove_simple_key-IsStill : (s : Scanner) → IsStill s.unread (remove_simple_key s)
unfolding remove_simple_key
remove_simple_key-IsStill s = by_keys s.simple_keys
  where
    by_keys : (ks : List SimpleKey) → IsStill s.unread (remove_top ks s)
    by_keys [] = tt
    by_keys (k ∷ ks) =
        IsStill-if s.unread k.possible _ _ (IsStill-if s.unread k.required _ _ tt refl) refl

pub save_simple_key-IsStill : (s : Scanner) → IsStill s.unread (save_simple_key s)
unfolding save_simple_key
save_simple_key-IsStill s =
    IsStill-if s.unread s.simple_key_allowed _ _
      (by_removed (remove_simple_key s) (remove_simple_key-IsStill s)) refl
  where
    put :
        (k : SimpleKey) (ks : List SimpleKey) (t : Scanner)
        → t.unread ≡ s.unread
        → IsStill s.unread (put_key k ks t)
    put k [] t e = tt
    put k (j ∷ ks) t e = e

    by_removed :
        (r : Scanned)
        → IsStill s.unread r
        → IsStill s.unread (
            next r (λ t.
              put_key
                (key_here true (s.flow_level == 0 && s.indent == s.mark.column + 1) s)
                t.simple_keys
                t))
    by_removed (scanned t) e = put _ t.simple_keys t e
    by_removed (failed t) e = tt
    by_removed panics e = tt

unroll-IsStill :
    (is : List ℕ) (column : ℕ) (mark : Mark) (s : Scanner)
    → IsStill s.unread (unroll is column mark s)
unfolding unroll
unroll-IsStill [] column mark s = IsStill-if s.unread (ltb column s.indent) _ _ tt refl
unroll-IsStill (i ∷ is) column mark s =
    IsStill-if s.unread (ltb column s.indent) _ _ (unroll-IsStill is column _ _) refl

pub unroll_indent-IsStill :
    (column : ℕ) (mark : Mark) (s : Scanner) → IsStill s.unread (unroll_indent column mark s)
unfolding unroll_indent
unroll_indent-IsStill column mark s =
    IsStill-if s.unread (ltb 0 s.flow_level) _ _ refl (unroll-IsStill s.indents column _ s)

pub reset_levels-IsStill : (s : Scanner) → IsStill s.unread (reset_levels s)
reset_levels-IsStill s = by_unrolled (unroll_indent 0 s.mark s) (unroll_indent-IsStill 0 s.mark s)
  where
    by_removed : (r : Scanned) → IsStill s.unread r → IsStill s.unread (next r (allow_key false))
    by_removed (scanned t) e = e
    by_removed (failed t) e = tt
    by_removed panics e = tt

    by_unrolled :
        (r : Scanned)
        → IsStill s.unread r
        → IsStill s.unread (next r (λ t. next (remove_simple_key t) (allow_key false)))
    by_unrolled (scanned t) e =
        by_removed (remove_simple_key t)
          (subst (λ n. IsStill n (remove_simple_key t)) e (remove_simple_key-IsStill t))
    by_unrolled (failed t) e = tt
    by_unrolled panics e = tt
