-- ===== src/Reader/Utf16.antt =====
-- UTF-16 input, in both byte orders.
use Prim.Native.Nat.{bit_and}
use yaml.Base.{
  ℕ, ◌+◌, ◌*◌, ◌/◌, ◌%◌, ◌<◌, Bool, true, false, List, ltb, if◌then◌else◌, ◌≡◌, refl, arith, Bytes,
  ◌∷◌, [], ◌⊎◌, ◌-◌, ◌++◌, ◌≤◌, length, Bool-cases, inl, inr, ◌∙◌, ap,
}
use yaml.Reader.Octets.{agree_below, agree_below→eq}
use yaml.Reader.Decode.{decode_utf16, char, is_allowed}

-- The units of a character, by RFC 2781.
abbrev pub utf16_units : ℕ → List ℕ
utf16_units v =
    if ltb v 0x10000
    then v ∷ []
    else (0xD800 + (v - 0x10000) / 0x400) ∷ (0xDC00 + (v - 0x10000) % 0x400) ∷ []

-- The bytes of the units; `big` is the byte order with the high byte first.
abbrev pub unit_bytes : Bool → List ℕ → Bytes
unit_bytes big [] = []
unit_bytes big (u ∷ us) =
    if big then u / 256 ∷ u % 256 ∷ unit_bytes big us else u % 256 ∷ u / 256 ∷ unit_bytes big us

-- The mask 0xFC00 on a unit, by a table of all units.
surrogate_bits : (u : ℕ) → u < 65536 → bit_and u 0xFC00 ≡ u / 0x400 * 0x400
unfolding agree_below
surrogate_bits = agree_below→eq (λ u. bit_and u 0xFC00) (λ u. u / 0x400 * 0x400) 65536 refl

-- The places of the low and the high byte.
abbrev low_of : Bool → ℕ
low_of big = if big then 1 else 0

abbrev high_of : Bool → ℕ
high_of big = if big then 0 else 1

one_unit :
    (big eof : Bool) (u : ℕ) (rest : Bytes)
    → u < 65536
    → (u < 0xD800) ⊎ (0xDFFF < u)
    → decode_utf16 (low_of big) (high_of big) eof (unit_bytes big (u ∷ []) ++ rest) ≡ char u 2
unfolding decode_utf16
one_unit true eof u rest h r =
    let e : u % 256 + u / 256 * 256 ≡ u = omega arith in rw e (ground (arith, surrogate_bits u h))
one_unit false eof u rest h r =
    let e : u % 256 + u / 256 * 256 ≡ u = omega arith in rw e (ground (arith, surrogate_bits u h))

two_units :
    (big eof : Bool) (u t : ℕ) (rest : Bytes)
    → 0xD800 ≤ u
    → u < 0xDC00
    → 0xDC00 ≤ t
    → t < 0xE000
    → decode_utf16 (low_of big) (high_of big) eof (unit_bytes big (u ∷ t ∷ []) ++ rest)
      ≡ char (0x10000 + u % 0x400 * 0x400 + t % 0x400) 4
unfolding decode_utf16
two_units true eof u t rest h1 h2 h3 h4 =
    let e : u % 256 + u / 256 * 256 ≡ u = omega arith in
    let f : t % 256 + t / 256 * 256 ≡ t = omega arith in
    rw (e, f) (ground (arith, surrogate_bits u (omega arith), surrogate_bits t (omega arith)))
two_units false eof u t rest h1 h2 h3 h4 =
    let e : u % 256 + u / 256 * 256 ≡ u = omega arith in
    let f : t % 256 + t / 256 * 256 ≡ t = omega arith in
    rw (e, f) (ground (arith, surrogate_bits u (omega arith), surrogate_bits t (omega arith)))

allowed-le : (v : ℕ) → is_allowed v ≡ true → v ≤ 0x10FFFF
unfolding is_allowed
allowed-le v h = ground arith

not_ltb : (v : ℕ) → ltb v 0x10000 ≡ false → 0x10000 ≤ v
not_ltb v h = ground arith

-- The units of an allowed character, in either byte order, are read as that character, with two bytes
-- for each unit, whatever follows them.
pub decode-utf16_units :
    (big eof : Bool) (v : ℕ) (rest : Bytes)
    → is_allowed v ≡ true
    → decode_utf16 (low_of big) (high_of big) eof (unit_bytes big (utf16_units v) ++ rest)
      ≡ char v (2 * length (utf16_units v))
decode-utf16_units big eof v rest a = elim (Bool-cases (ltb v 0x10000)) [
  | inl h ↦ rw h (one_unit big eof v rest (ground arith) (no_surrogate v a))
  | inr h ↦ rw h (
      two_units big eof (0xD800 + (v - 0x10000) / 0x400) (0xDC00 + (v - 0x10000) % 0x400) rest
        (omega arith) (pair_high v a) (omega arith) (omega arith)
      ∙ ap (λ x. char x 4) (pair_value v a h))
]
  where
    no_surrogate : (x : ℕ) → is_allowed x ≡ true → (x < 0xD800) ⊎ (0xDFFF < x)
    no_surrogate x b = unfold is_allowed in ground arith

    pair_high : (x : ℕ) → is_allowed x ≡ true → 0xD800 + (x - 0x10000) / 0x400 < 0xDC00
    pair_high x b = omega (arith, allowed-le x b)

    pair_value :
        (x : ℕ)
        → is_allowed x ≡ true
        → ltb x 0x10000 ≡ false
        → 0x10000
            + (0xD800 + (x - 0x10000) / 0x400) % 0x400 * 0x400
            + (0xDC00 + (x - 0x10000) % 0x400) % 0x400
          ≡ x
    pair_value x b h = omega (arith, allowed-le x b, not_ltb x h)
