-- ===== src/Emitter/Adding.antt =====
-- What the writing functions add to the output, with a write handler that takes all.
use yaml.Base.{
  Option, Bytes, Bool, ◌++◌, ◌≡◌, length, [], some, true, ◌∙◌, ◌+◌, ap, none, ◌≤◌, ◌∷◌, refl,
  is_empty, Bool-cases, arith, ℕ, inl, ◌<◌, sym, leb, inr, take, ◌||◌, ◌==◌, ltb, false, suc, zero,
}
use yaml.Emitter.Output.{
  Emitter, Emitted, Emit, emitted, onward, failed, hand_over, panics, output_buffer_size, make_room,
  store, put, write, yaml_emitter_flush, next_column,
}
use mathlib.Core.List.{append_assoc, append-nil}
use yaml.Chars.{width, at}

-- The write handler is set, and takes whatever it is given.
abbrev pub TakesAll : Option (Bytes → Bytes → Bool) → Type 0
TakesAll none = ⊥
TakesAll (some handler) = (written bs : Bytes) → handler written bs ≡ true

abbrev pub output : Emitter → Bytes
output e = e.written ++ e.buffer

-- A function returns, and the output is longer by these bytes.
abbrev pub Adds : Bytes → Emitter → Emitted → Type 0
Adds bs e (emitted f) = (output f ≡ output e ++ bs) × (f.write_handler ≡ e.write_handler)
Adds bs e (failed f) = ⊥
Adds bs e panics = ⊥

Adds-after :
    (bs cs : Bytes) (e f : Emitter) (r : Emitted)
    → Adds bs e (emitted f)
    → Adds cs f r
    → Adds (bs ++ cs) e r
Adds-after bs cs e f (emitted g) (o, h) (p, i) =
    (p ∙ ap (λ x. x ++ cs) o ∙ append_assoc (output e) bs cs, i ∙ h)
Adds-after bs cs e f (failed g) a p = p
Adds-after bs cs e f panics a p = p

pub Adds-next :
    (bs cs : Bytes) (e : Emitter) (r : Emitted) (k : Emit)
    → Adds bs e r
    → ((f : Emitter) → f.write_handler ≡ e.write_handler → Adds cs f (k f))
    → Adds (bs ++ cs) e (onward r k)
Adds-next bs cs e (emitted f) k (o, h) g = Adds-after bs cs e f (k f) (o, h) (g f h)
Adds-next bs cs e (failed f) k h g = h
Adds-next bs cs e panics k h g = h

-- Behind a function, fields are set that the output does not depend on.
pub Adds-set :
    (bs : Bytes) (e : Emitter) (r : Emitted) (k : Emitter → Emitter)
    → ((f : Emitter) → (output (k f) ≡ output f) × ((k f).write_handler ≡ f.write_handler))
    → Adds bs e r
    → Adds bs e (onward r (λ f. emitted (k f)))
Adds-set bs e (emitted f) k s (o, h) = let (p, q) = s f in (p ∙ o, q ∙ h)
Adds-set bs e (failed f) k s h = h
Adds-set bs e panics k s h = h

-- There is room for four more bytes.
abbrev HasRoom : Emitted → Type 0
HasRoom (emitted f) = length f.buffer + 4 ≤ output_buffer_size
HasRoom _ = Unit

length_of_empty : (b : Bytes) → is_empty b ≡ true → length b ≡ 0
length_of_empty [] h = refl
length_of_empty (x ∷ b) h = absurd (ground (arith, h))

hand_over-Adds :
    (handler : Option (Bytes → Bytes → Bool)) (e : Emitter)
    → TakesAll handler
    → Adds [] e (hand_over handler e) × HasRoom (hand_over handler e)
hand_over-Adds none e t = absurd t
hand_over-Adds (some handler) e t = elim (Bool-cases (is_empty e.buffer)) [
  | inl z ↦
      let l = length_of_empty e.buffer z in
      rw z ((sym (append-nil (output e)), refl), omega (arith, l))
  | inr z ↦ rw (z, t e.written e.buffer) ((refl, refl), omega arith)
]

make_room-Adds :
    (e : Emitter) → TakesAll e.write_handler → Adds [] e (make_room e) × HasRoom (make_room e)
unfolding make_room yaml_emitter_flush
make_room-Adds e t = elim (Bool-cases (leb output_buffer_size (length e.buffer + 5))) [
  | inl z ↦ rw z (hand_over-Adds e.write_handler e t)
  | inr z ↦ rw z ((sym (append-nil (output e)), refl), ground (arith, z))
]

-- Up to four bytes are stored, and the column is the onward.
store_octets-Adds :
    (bs : Bytes) (e : Emitter)
    → length bs ≤ 4
    → length e.buffer + 4 ≤ output_buffer_size
    → Adds bs e (onward (store bs e) next_column)
store_octets-Adds bs e l h =
    let z : leb (length e.buffer + length bs) output_buffer_size ≡ true = ground (arith, l, h) in
    rw z (sym (append_assoc e.written e.buffer bs), refl)

-- Room is made before a function.
in_room :
    (bs : Bytes) (e : Emitter) (k : Emit)
    → TakesAll e.write_handler
    → ((f : Emitter) → length f.buffer + 4 ≤ output_buffer_size → Adds bs f (k f))
    → Adds bs e (onward (make_room e) k)
in_room bs e k t g = by_room (make_room e) (make_room-Adds e t)
  where
    by_room : (r : Emitted) → Adds [] e r × HasRoom r → Adds bs e (onward r k)
    by_room (emitted f) (a, h) = Adds-after [] bs e f (k f) a (g f h)
    by_room (failed f) (a, h) = absurd a
    by_room panics (a, h) = absurd a

pub put-Adds : (x : ℕ) (e : Emitter) → TakesAll e.write_handler → Adds (x ∷ []) e (put x e)
unfolding put
put-Adds x e t = in_room (x ∷ []) e _ t (λ f h. store_octets-Adds (x ∷ []) f (omega arith) h)

pub is_empty-false : (s : Bytes) → 0 < length s → is_empty s ≡ false
is_empty-false [] h = absurd (omega (arith, h))
is_empty-false (x ∷ s) h = refl

length-take_le : (n : ℕ) (s : Bytes) → length (take n s) ≤ n
length-take_le zero s = omega arith
length-take_le (suc n) [] = omega arith
length-take_le (suc n) (x ∷ s) = omega (arith, length-take_le n s)

width_le : (x : ℕ) → width x ≤ 4
unfolding width
width_le x = ground arith

pub write-Adds :
    (s : Bytes) (e : Emitter)
    → TakesAll e.write_handler
    → 0 < width (at s 0)
    → width (at s 0) ≤ length s
    → Adds (take (width (at s 0)) s) e (write s e)
unfolding write
write-Adds s e t p l = in_room (take (width (at s 0)) s) e _ t (λ f h.
    let z : (is_empty s || width (at s 0) == 0 || ltb (length s) (width (at s 0))) ≡ false =
      ground (arith, p, l, is_empty-false s (omega (arith, p, l))) in
    rw z (
      store_octets-Adds (take (width (at s 0)) s) f
        (omega (arith, length-take_le (width (at s 0)) s, width_le (at s 0))) h))
