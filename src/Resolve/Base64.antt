-- ===== src/Resolve/Base64.antt =====
-- `encodeBase64`, with `base64.StdEncoding` of the Go library.
use yaml.Base.{
  ℕ, zero, suc, ◌+◌, ◌-◌, ◌*◌, ◌/◌, ◌%◌, ◌==◌, ltb, leb, ◌&&◌, [], ◌∷◌, ◌++◌, Bytes, if◌then◌else◌,
  is_empty, length, take, drop, Bool,
}

-- The alphabet.
abbrev pub letter : ℕ → ℕ
letter n =
    if ltb n 26
    then b'A' + n
    else if ltb n 52
    then b'a' + (n - 26)
    else if ltb n 62
    then b'0' + (n - 52)
    else if n == 62
    then b'+'
    else b'/'

-- `base64.StdEncoding.Encode`
unfoldable pub encode : Bytes → Bytes
encode [] = []
encode (x ∷ []) = letter (x / 4) ∷ letter (x % 4 * 16) ∷ b'=' ∷ b'=' ∷ []
encode (x ∷ y ∷ []) =
    letter (x / 4) ∷ letter (x % 4 * 16 + y / 16) ∷ letter (y % 16 * 4) ∷ b'=' ∷ []
encode (x ∷ y ∷ z ∷ rest) =
    letter (x / 4)
    ∷ letter (x % 4 * 16 + y / 16)
    ∷ letter (y % 16 * 4 + z / 64)
    ∷ letter (z % 64)
    ∷ encode rest

-- The loop over the lines, each of which ends with a newline if there are many.
unfoldable pub break_lines : ℕ → Bool → Bytes → Bytes
break_lines zero many s = []
break_lines (suc n) many s =
    let rest = break_lines n many (drop 70 s) in
    if is_empty s then [] else take 70 s ++ ((if many then b'\n' ∷ [] else []) ++ rest)

-- `encodeBase64`; the loop makes at most one round for each character.
unfoldable pub encode_base64 : Bytes → Bytes
encode_base64 s =
    let text : Bytes = encode s in
    let lines : ℕ = length text / 70 + 1 in break_lines (length text) (ltb 1 lines) text

-- The value of a letter, and the reverse of `Encode`, which the decoder calls: newlines are ignored.
abbrev pub value_of_letter : ℕ → ℕ
value_of_letter c =
    if leb b'A' c && leb c b'Z'
    then c - b'A'
    else if leb b'a' c && leb c b'z'
    then c - b'a' + 26
    else if leb b'0' c && leb c b'9'
    then c - b'0' + 52
    else if c == b'+'
    then 62
    else 63

unfoldable pub without_newlines : Bytes → Bytes
without_newlines [] = []
without_newlines (c ∷ cs) = let rest = without_newlines cs in if c == b'\n' then rest else c ∷ rest

abbrev pub first_octet : ℕ → ℕ → ℕ
first_octet p q = value_of_letter p * 4 + value_of_letter q / 16

abbrev pub second_octet : ℕ → ℕ → ℕ
second_octet q r = value_of_letter q % 16 * 16 + value_of_letter r / 4

abbrev pub third_octet : ℕ → ℕ → ℕ
third_octet r s = value_of_letter r % 4 * 64 + value_of_letter s

unfoldable pub decode : Bytes → Bytes
decode [] = []
decode (p ∷ []) = []
decode (p ∷ q ∷ []) = []
decode (p ∷ q ∷ r ∷ []) = []
decode (p ∷ q ∷ r ∷ s ∷ rest) =
    let more = decode rest in
    if r == b'='
    then first_octet p q ∷ []
    else if s == b'='
    then first_octet p q ∷ second_octet q r ∷ []
    else first_octet p q ∷ second_octet q r ∷ third_octet r s ∷ more
