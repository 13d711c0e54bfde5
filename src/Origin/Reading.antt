-- ===== src/Origin/Reading.antt =====
-- A consumer of the origin sequence, for the sections that `buildOriginSeq` writes: all the fields of
-- the mapping are counted, and an item of a sequence is its value, line delta and column, as the
-- comment in that function says; the format above `addOrigin` names no value of an item.
use yaml.Base.{List, [], ◌∷◌, ◌+◌, ℕ, zero, suc, Bytes, Option, some, none, ◌-◌}
use yaml.Origin.Decimal.{ℤ, pos, negsuc, read_int}

-- A name and where it stands.
pub record Location : Type 0 where
  pub name : Bytes
  pub line : ℕ
  pub column : ℕ

pub record Items : Type 0 where
  pub name : Bytes
  pub items : List Location

pub record Origin : Type 0 where
  pub file : Bytes
  pub key : Location
  pub fields : List Location
  pub sequences : List Items
  pub end_line : ℕ
  pub end_column : ℕ

-- A line from the line of the key.
unfoldable pub add_delta : ℕ → ℤ → ℕ
add_delta l (pos d) = l + d
add_delta l (negsuc d) = l - (d + 1)

abbrev pub natural : ℤ → Option ℕ
natural (pos n) = some n
natural (negsuc n) = none

unfoldable pub read_natural : Bytes → Option ℕ
read_natural xs = elim (read_int xs) [ none ↦ none | some v ↦ natural v ]

infixl 5 ◌>>=◌
abbrev pub ◌>>=◌ {ℓ κ} : {A : Type ℓ} {B : Type κ} → Option A → (A → Option B) → Option B
none >>= f = none
(some x) >>= f = f x

-- That many locations, and what is behind them.
unfoldable pub read_locations : ℕ → ℕ → List Bytes → Option (List Location × List Bytes)
read_locations zero l xs = some ([], xs)
read_locations (suc n) l (name ∷ delta ∷ column ∷ xs) = do
  d ← read_int delta
  c ← read_natural column
  (rest, ys) ← read_locations n l xs
  some (record { name = name; line = add_delta l d; column = c } ∷ rest, ys)
read_locations (suc n) l _ = none

-- That many sequences.
unfoldable pub read_sequences : ℕ → ℕ → List Bytes → Option (List Items × List Bytes)
read_sequences zero l xs = some ([], xs)
read_sequences (suc n) l (name ∷ count ∷ xs) = do
  c ← read_natural count
  (items, ys) ← read_locations c l xs
  (rest, zs) ← read_sequences n l ys
  some (record { name = name; items = items } ∷ rest, zs)
read_sequences (suc n) l _ = none

abbrev pub read_end : Bytes → Location → List Location → List Items → List Bytes → Option Origin
read_end file key fields sequences (delta ∷ column ∷ []) = do
  d ← read_int delta
  c ← read_natural column
  some (record {
    file = file;
    key = key;
    fields = fields;
    sequences = sequences;
    end_line = add_delta key.line d;
    end_column = c;
  })
read_end file key fields sequences _ = none

abbrev pub read_rest : Bytes → Location → List Location → List Bytes → Option Origin
read_rest file key fields (ns ∷ xs) = do
  n ← read_natural ns
  (sequences, ys) ← read_sequences n key.line xs
  read_end file key fields sequences ys
read_rest file key fields [] = none

abbrev pub read_origin : List Bytes → Option Origin
read_origin (file ∷ name ∷ line ∷ column ∷ nf ∷ xs) = do
  l ← read_natural line
  c ← read_natural column
  n ← read_natural nf
  (fields, ys) ← read_locations n l xs
  read_rest file (record { name = name; line = l; column = c }) fields ys
read_origin _ = none
