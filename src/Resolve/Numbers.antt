-- ===== src/Resolve/Numbers.antt =====
-- `strconv.ParseInt` and `strconv.ParseUint` for 64 bits, and the regular expression of floats.
use yaml.Base.{
  [], ◌∷◌, ℕ, zero, suc, ◌+◌, ◌*◌, ◌-◌, ◌^◌, Bool, true, false, ◌||◌, ◌&&◌, ◌==◌, ltb, leb, Bytes,
  Option, none, some, if◌then◌else◌, is_empty,
}
use yaml.Origin.Decimal.{ℤ, pos, negsuc}

-- The value of a digit in the bases up to 36; 36 if it is none.
unfoldable pub digit_value : ℕ → ℕ
digit_value c =
    if leb b'0' c && leb c b'9'
    then c - b'0'
    else if leb b'a' c && leb c b'z'
    then c - b'a' + 10
    else if leb b'A' c && leb c b'Z'
    then c - b'A' + 10
    else 36

-- The loop of `ParseUint`; `none` is an error of syntax or of range.
unfoldable pub parse_digits : ℕ → ℕ → Bytes → Option ℕ
unfolding digit_value
parse_digits base n [] = some n
parse_digits base n (c ∷ cs) =
    let next = n * base + digit_value c in
    let rest = parse_digits base next cs in
    if ltb (digit_value c) base && ltb next (2 ^ 64) then rest else none

-- A letter that follows a leading zero.
abbrev pub base_of_letter : ℕ → ℕ
base_of_letter c =
    if c == b'b' || c == b'B'
    then 2
    else if c == b'o' || c == b'O'
    then 8
    else if c == b'x' || c == b'X'
    then 16
    else 0

-- `ParseUint(s, 0, 64)`: the base is that of the prefix.
unfoldable pub parse_uint_any : Bytes → Option ℕ
unfolding parse_digits
parse_uint_any [] = none
parse_uint_any (c ∷ []) = if c == b'0' then some 0 else parse_digits 10 0 (c ∷ [])
parse_uint_any (c ∷ d ∷ []) =
    if c == b'0' then parse_digits 8 0 (d ∷ []) else parse_digits 10 0 (c ∷ d ∷ [])
parse_uint_any (c ∷ d ∷ e ∷ cs) =
    if c == b'0'
    then if base_of_letter d == 0
      then parse_digits 8 0 (d ∷ e ∷ cs)
      else parse_digits (base_of_letter d) 0 (e ∷ cs)
    else parse_digits 10 0 (c ∷ d ∷ e ∷ cs)

-- `ParseUint(s, base, 64)`; the base 0 stands for any.
unfoldable pub parse_uint : Bytes → ℕ → Option ℕ
unfolding parse_uint_any
parse_uint s base =
    if is_empty s then none else if base == 0 then parse_uint_any s else parse_digits base 0 s

-- The range of `ParseInt`.
unfoldable pub in_range : Bool → Option ℕ → Option ℤ
in_range neg none = none
in_range false (some n) = if ltb n (2 ^ 63) then some (pos n) else none
in_range true (some zero) = some (pos 0)
in_range true (some (suc n)) = if ltb n (2 ^ 63) then some (negsuc n) else none

-- `ParseInt(s, base, 64)`
unfoldable pub parse_int : Bytes → ℕ → Option ℤ
unfolding parse_uint in_range
parse_int [] base = none
parse_int (c ∷ cs) base =
    if c == b'+'
    then in_range false (parse_uint cs base)
    else if c == b'-'
    then in_range true (parse_uint cs base)
    else in_range false (parse_uint (c ∷ cs) base)

abbrev is_decimal : ℕ → Bool
is_decimal c = leb b'0' c && leb c b'9'

abbrev is_sign : ℕ → Bool
is_sign c = c == b'-' || c == b'+'

-- `[-+]?`
abbrev skip_sign : Bytes → Bytes
skip_sign [] = []
skip_sign (c ∷ cs) = if is_sign c then cs else c ∷ cs

-- `[0-9]*`
abbrev skip_digits : Bytes → Bytes
skip_digits [] = []
skip_digits (c ∷ cs) = let rest = skip_digits cs in if is_decimal c then rest else c ∷ cs

abbrev starts_digit : Bytes → Bool
starts_digit [] = false
starts_digit (c ∷ cs) = is_decimal c

-- `([eE][-+]?[0-9]+)?$`
abbrev is_exponent_end : Bytes → Bool
is_exponent_end [] = true
is_exponent_end (c ∷ cs) =
    (c == b'e' || c == b'E') && starts_digit (skip_sign cs) && is_empty (skip_digits (skip_sign cs))

-- `(\.[0-9]*)?` and the exponent
abbrev is_fraction_end : Bytes → Bool
is_fraction_end [] = true
is_fraction_end (c ∷ cs) =
    if c == b'.' then is_exponent_end (skip_digits cs) else is_exponent_end (c ∷ cs)

-- `\.[0-9]+|[0-9]+(\.[0-9]*)?` and the exponent
abbrev is_unsigned_float : Bytes → Bool
is_unsigned_float [] = false
is_unsigned_float (c ∷ cs) =
    if c == b'.'
    then starts_digit cs && is_exponent_end (skip_digits cs)
    else is_decimal c && is_fraction_end (skip_digits cs)

-- `yamlStyleFloat.MatchString`
unfoldable pub is_style_float : Bytes → Bool
is_style_float s = is_unsigned_float (skip_sign s)
