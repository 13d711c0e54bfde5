-- ===== src/Emitter/Quoted.antt =====
-- `yaml_emitter_write_single_quoted_scalar`.
use yaml.Base.{
  Bool, Bytes, ℕ, true, false, if◌then◌else◌, not, ◌&&◌, suc, ltb, is_empty, ◌∷◌, length, [], ◌==◌,
  zero,
}
use yaml.Emitter.Output.{
  Emit, onward, emitted, write_indent, write_indicator, write, put_break, put, behind, write_break,
}
use yaml.Chars.{at, is_space, is_break}

-- Where in the value the loop is.
pub record Position : Type 0 where
  pub first : Bool
  pub spaces : Bool
  pub breaks : Bool

abbrev pub single_space : Bool → Position → Bytes → Emit
single_space allow_breaks p s e =
    if allow_breaks
      && not p.spaces
      && ltb e.best_width e.column
      && not p.first
      && ltb 1 (length s)
      && not (is_space s 1)
    then write_indent e
    else write s e

abbrev pub single_break : Position → Bytes → Emit
single_break p s e =
    onward (if not p.breaks && at s 0 == b'\n' then put_break e else emitted e) (write_break s)

abbrev pub single_character : Position → Bytes → Emit
single_character p s e = onward (if p.breaks then write_indent e else emitted e) (λ f.
    onward (if at s 0 == 39 then put 39 f else emitted f)
      (λ g. onward (write s g) (λ h. emitted (record h { indention = false }))))

-- The loop over the value: the rounds left, and what is left of the value.
abbrev pub single_loop : ℕ → Bool → Position → Bytes → Emit
single_loop zero allow_breaks p s e = emitted e
single_loop (suc n) allow_breaks p s e =
    if is_empty s
    then emitted e
    else if is_space s 0
    then onward (single_space allow_breaks p s e)
        (single_loop n allow_breaks (record p { first = false; spaces = true }) (behind s))
    else if is_break s 0
    then onward (single_break p s e)
        (single_loop n allow_breaks (record p { first = false; breaks = true }) (behind s))
    else onward (single_character p s e) (
        single_loop n allow_breaks (record { first = false; spaces = false; breaks = false })
          (behind s))

abbrev pub at_first : Position
at_first = record { first = true; spaces = false; breaks = false }

-- `yaml_emitter_write_single_quoted_scalar`; a round consumes a byte at least.
unfoldable pub write_single_quoted_scalar : Bytes → Bool → Emit
write_single_quoted_scalar s allow_breaks e =
    onward (write_indicator (39 ∷ []) true false false e) (λ f.
      onward (single_loop (length s) allow_breaks at_first s f) (λ g.
        onward (write_indicator (39 ∷ []) false false false g)
          (λ h. emitted (record h { whitespace = false; indention = false }))))
