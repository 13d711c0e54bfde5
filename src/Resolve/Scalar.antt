-- ===== src/Resolve/Scalar.antt =====
-- `resolve`: the tag and the value of a scalar, from its tag and its text. What it calls of the Go
-- library on floats and times is an argument.
use mathlib.Core.Option
use yaml.Base.{
  List, [], ◌∷◌, ℕ, ◌+◌, Bool, true, false, not, ◌||◌, ◌&&◌, ◌==◌, ltb, Bytes, Option, none, some,
  codes, equal, if◌then◌else◌, drop, is_empty,
}
use yaml.Origin.Decimal.{ℤ}
use yaml.Resolve.Numbers.{parse_int, parse_uint, is_style_float}
use yaml.Resolve.Tags.{
  short_tag, is_resolvable_tag, has_prefix, map_entry, bool_tag, int_tag, timestamp_tag, float_tag,
  str_tag, null_tag, binary_tag, merge_tag,
}

-- `float64` and `time.Time`, with `strconv.ParseFloat` for 64 bits, the conversion of an integer, the
-- constants of the table and `time.Parse`.
pub record Library : Type 1 where
  pub Float : Type 0
  pub Time : Type 0
  pub parse_float : Bytes → Option Float
  pub float_of : ℤ → Float
  pub nan : Float
  pub plus_inf : Float
  pub minus_inf : Float
  pub parse_time : Bytes → Bytes → Option Time

-- The characters of `resolveTable`; `no_hint` is its zero.
pub data Hint : Type 0 where
  no_hint sign_hint digit_hint map_hint dot_hint empty_hint : Hint

abbrev pub is_one_of : Bytes → ℕ → Bool
is_one_of [] c = false
is_one_of (x ∷ xs) c = x == c || is_one_of xs c

-- `resolveTable`
unfoldable pub resolve_table : ℕ → Hint
resolve_table c =
    if c == b'.'
    then dot_hint
    else if is_one_of (codes "yYnNtTfFoO~") c
    then map_hint
    else if is_one_of (codes "0123456789") c
    then digit_hint
    else if c == b'+' || c == b'-'
    then sign_hint
    else no_hint

unfoldable pub hint_of : Bytes → Hint
unfolding resolve_table
hint_of [] = empty_hint
hint_of (c ∷ cs) = resolve_table c

-- `strings.Replace(in, "_", "", -1)`
abbrev pub without_underscores : Bytes → Bytes
without_underscores [] = []
without_underscores (c ∷ cs) =
    let rest = without_underscores cs in if c == b'_' then rest else c ∷ rest

-- `allowedTimestampFormats`
abbrev pub allowed_timestamp_formats : List Bytes
allowed_timestamp_formats =
    codes "2006-1-2T15:4:5.999999999Z07:00"
    ∷ codes "2006-1-2t15:4:5.999999999Z07:00"
    ∷ codes "2006-1-2 15:4:5.999999999"
    ∷ codes "2006-1-2"
    ∷ []

-- The digits at the start of a text, and what follows them.
abbrev pub leading_digits : Bytes → ℕ × Bytes
leading_digits [] = (0, [])
leading_digits (c ∷ cs) =
    let (n, rest) = leading_digits cs in
    if ltb c b'0' || ltb b'9' c then (0, c ∷ cs) else (n + 1, rest)

-- The quick check of `parseTimestamp`, as what it lets pass.
abbrev pub starts_with_year : Bytes → Bool
starts_with_year s = let (n, rest) = leading_digits s in n == 4 && has_prefix rest (codes "-")

-- `resolve` returns a tag and a value, calls `failf`, or panics for a hint with no handler.
pub data Resolved (V : Type 0) : Type 0 where
  resolved : Bytes → V → Resolved V
  cannot_decode : Bytes → Bytes → Bytes → Resolved V
  no_handler : Resolved V

module _ (lib : Library) where
  open lib use {Float, Time, parse_float, float_of, nan, plus_inf, minus_inf, parse_time}

  -- The values that `resolve` returns; `int` stands for `int` and `int64`, `uint` for `uint64`.
  pub data Value : Type 0 where
    null : Value
    truth : Bool → Value
    text : Bytes → Value
    int : ℤ → Value
    uint : ℕ → Value
    float : Float → Value
    time : Time → Value

  -- `resolveMap`, in the order in which `init` fills it.
  abbrev pub resolve_map : List (Bytes × (Bytes × Value))
  resolve_map =
      (codes "true", (bool_tag, truth true))
      ∷ (codes "True", (bool_tag, truth true))
      ∷ (codes "TRUE", (bool_tag, truth true))
      ∷ (codes "false", (bool_tag, truth false))
      ∷ (codes "False", (bool_tag, truth false))
      ∷ (codes "FALSE", (bool_tag, truth false))
      ∷ (codes "", (null_tag, null))
      ∷ (codes "~", (null_tag, null))
      ∷ (codes "null", (null_tag, null))
      ∷ (codes "Null", (null_tag, null))
      ∷ (codes "NULL", (null_tag, null))
      ∷ (codes ".nan", (float_tag, float nan))
      ∷ (codes ".NaN", (float_tag, float nan))
      ∷ (codes ".NAN", (float_tag, float nan))
      ∷ (codes ".inf", (float_tag, float plus_inf))
      ∷ (codes ".Inf", (float_tag, float plus_inf))
      ∷ (codes ".INF", (float_tag, float plus_inf))
      ∷ (codes "+.inf", (float_tag, float plus_inf))
      ∷ (codes "+.Inf", (float_tag, float plus_inf))
      ∷ (codes "+.INF", (float_tag, float plus_inf))
      ∷ (codes "-.inf", (float_tag, float minus_inf))
      ∷ (codes "-.Inf", (float_tag, float minus_inf))
      ∷ (codes "-.INF", (float_tag, float minus_inf))
      ∷ (codes "<<", (merge_tag, text (codes "<<")))
      ∷ []

  abbrev first_time : List Bytes → Bytes → Option Time
  first_time [] s = none
  first_time (f ∷ fs) s =
      let rest = first_time fs s in elim (parse_time f s) [ some t ↦ some t | none ↦ rest ]

  -- `parseTimestamp`
  unfoldable pub parse_timestamp : Bytes → Option Time
  unfolding has_prefix
  parse_timestamp s = if starts_with_year s then first_time allowed_timestamp_formats s else none

  -- The integer that `ParseInt` or else `ParseUint` finds.
  abbrev pub signed_or_unsigned : Bytes → ℕ → Option Value
  signed_or_unsigned s base = elim (parse_int s base) [
    | some v ↦ some (int v)
    | none ↦ Option.map uint (parse_uint s base)
  ]

  -- The attempts one after the other: the first that succeeds.
  infixr 30 ◌or_else◌
  abbrev pub ◌or_else◌ : Option (Bytes × Value) → Option (Bytes × Value) → Option (Bytes × Value)
  (some x) or_else y = some x
  none or_else y = y

  abbrev pub tagged : Bytes → Option Value → Option (Bytes × Value)
  tagged tag v = Option.map (λ x. (tag, x)) v

  -- `0b`, `-0b`, or `0o`, `-0o`: a prefix letter and its base.
  abbrev pub prefixed : ℕ → ℕ → Bytes → Option (Bytes × Value)
  prefixed letter base plain =
      if has_prefix plain (b'0' ∷ letter ∷ [])
      then tagged int_tag (signed_or_unsigned (drop 2 plain) base)
      else if has_prefix plain (b'-' ∷ b'0' ∷ letter ∷ [])
      then tagged int_tag (Option.map int (parse_int (b'-' ∷ drop 3 plain) base))
      else none

  -- The cases 'D' and 'S' behind the timestamps.
  unfoldable pub resolve_plain : Bytes → Option (Bytes × Value)
  resolve_plain plain =
      tagged int_tag (signed_or_unsigned plain 0)
      or_else (if is_style_float plain
          then tagged float_tag (Option.map float (parse_float plain))
          else none)
      or_else prefixed b'b' 2 plain
      or_else prefixed b'o' 8 plain

  -- The case of a timestamp.
  abbrev pub resolve_time : Bytes → Bool → Bytes → Option (Bytes × Value)
  resolve_time tag disabled s =
      if is_empty tag && not disabled || equal tag timestamp_tag
      then tagged timestamp_tag (Option.map time (parse_timestamp s))
      else none

  -- What a `return` in the switch gives, none if the switch is left, or a panic.
  pub data Switched : Type 0 where
    returns : Bytes → Value → Switched
    leaves : Switched
    panics : Switched

  abbrev pub switched : Option (Bytes × Value) → Switched
  switched none = leaves
  switched (some (t, v)) = returns t v

  -- `switch hint`
  unfoldable pub switch_hint : Hint → Bytes → Bool → Bytes → Switched
  switch_hint map_hint tag disabled s = leaves
  switch_hint dot_hint tag disabled s =
      switched (tagged float_tag (Option.map float (parse_float s)))
  switch_hint digit_hint tag disabled s =
      switched (resolve_time tag disabled s or_else resolve_plain (without_underscores s))
  switch_hint sign_hint tag disabled s =
      switched (resolve_time tag disabled s or_else resolve_plain (without_underscores s))
  switch_hint no_hint tag disabled s = panics
  switch_hint empty_hint tag disabled s = panics

  abbrev pub is_no_hint : Hint → Bool
  is_no_hint no_hint = true
  is_no_hint _ = false

  -- The function up to its return, without what it has deferred.
  unfoldable pub infer : Bytes → Bytes → Bool → Switched
  infer tag s disabled =
      if not (is_no_hint (hint_of s)) && not (equal tag str_tag) && not (equal tag binary_tag)
      then elim (map_entry s resolve_map) [
        | some (t, v) ↦ returns t v
        | none ↦ switch_hint (hint_of s) tag disabled s
      ]
      else leaves

  -- The deferred check of the tag against the one that was found.
  unfoldable pub check_tag : Bytes → Bytes → Bytes → Value → Resolved Value
  check_tag tag s rtag v =
      let refused : Resolved Value = cannot_decode (short_tag rtag) s (short_tag tag) in
      if is_empty tag || equal tag rtag || equal tag str_tag || equal tag binary_tag
      then resolved rtag v
      else if equal tag float_tag && equal rtag int_tag
      then (elim v [ int i ↦ resolved float_tag (float (float_of i)) | _ ↦ refused ])
      else refused

  unfoldable pub resolve_short : Bytes → Bytes → Bool → Resolved Value
  resolve_short tag s disabled =
      if not (is_resolvable_tag tag) then resolved tag (text s) else elim (infer tag s disabled) [
        | returns t v ↦ check_tag tag s t v
        | leaves ↦ check_tag tag s str_tag (text s)
        | panics ↦ no_handler
      ]

  -- `resolve`
  unfoldable pub resolve : Bytes → Bytes → Bool → Resolved Value
  resolve tag s disabled = resolve_short (short_tag tag) s disabled
