-- ===== src/Scanner/Producing.antt =====
-- The value indicator, and all functions that produce tokens of the stream and of indicators.
use yaml.Base.{
  ℕ, suc, ◌+◌, Bool, true, false, List, [], ◌∷◌, if◌then◌else◌, ltb, leb, length, Bytes, ◌≡◌, refl,
  ap, ◌∙◌, arith, Option, some, none, subst, sym,
}
use yaml.Types.{key, value, block_mapping_start, Token, TokenType, Mark}
use yaml.Scanner.State.{
  Scanner, Scanned, scanned, failed, panics, next, insert_token, SimpleKey, Scan, token_at,
}
use yaml.Scanner.Levels.{
  Validity, valid, invalid, refused, simple_key_is_valid, roll_indent, fail_at_key, position,
  max_indents, delete,
}
use yaml.Scanner.Fetching.{
  HasChars, Holds, Holds-next, fetch_stream_end-Holds, fetch_document_indicator-Holds,
  produce-Holds, fetch_flow_collection_start-Holds, retopped, take_complex_key-Keeps,
  fetch_flow_collection_end-Holds, fetch_flow_entry-Holds, fetch_block_entry-Holds, fetch_key-Holds,
  append_token-Holds,
}
use yaml.Scanner.Levelled.{IsLevelled, AreWithin, roll_indent-Keeps, insert_token-Keeps}
use yaml.Scanner.Fetch.{
  fetch_value, fetch_stream_end, take_simple_key, value_key, fetch_document_indicator,
  take_complex_key, fetch_flow_collection_start, fetch_flow_collection_end, fetch_flow_entry,
  fetch_block_entry, fetch_key, fetch_stream_start,
}
use yaml.Scanner.Levelled.{Keeps}
use yaml.Scanner.Indents.{deeper, IsChain}

-- A function leaves these simple keys, if it succeeds.
abbrev KeysAre : List SimpleKey → Scanned → Type 0
KeysAre ks (scanned t) = t.simple_keys ≡ ks
KeysAre ks (failed t) = Unit
KeysAre ks panics = Unit

KeysAre-if :
    (ks : List SimpleKey) (c : Bool) (x y : Scanned)
    → KeysAre ks x
    → KeysAre ks y
    → KeysAre ks (if c then x else y)
KeysAre-if ks true x y f g = f
KeysAre-if ks false x y f g = g

insert_token-KeysAre :
    (number : Option ℕ) (t : Token) (s : Scanner) → KeysAre s.simple_keys (insert_token number t s)
unfolding insert_token
insert_token-KeysAre none t s = refl
insert_token-KeysAre (some m) t s = KeysAre-if s.simple_keys (leb m (length s.tokens)) _ _ refl tt

fail_at_key-KeysAre : (ks js : List SimpleKey) (s : Scanner) → KeysAre ks (fail_at_key js s)
fail_at_key-KeysAre ks [] s = tt
fail_at_key-KeysAre ks (j ∷ js) s = tt

roll_indent-KeysAre :
    (column : ℕ) (number : Option ℕ) (typ : TokenType) (mark : Mark) (s : Scanner)
    → KeysAre s.simple_keys (roll_indent column number typ mark s)
unfolding roll_indent
roll_indent-KeysAre column number typ mark s =
    KeysAre-if s.simple_keys (ltb 0 s.flow_level) _ _ refl (
      KeysAre-if s.simple_keys (ltb s.indent column) _ _
        (KeysAre-if s.simple_keys (ltb max_indents (suc (length s.indents))) _ _
          (fail_at_key-KeysAre s.simple_keys s.simple_keys (deeper column s))
          (insert_token-KeysAre (position number s.tokens_parsed) (token_at typ mark)
            (deeper column s)))
        refl)

take_simple_key-Keeps :
    (k : SimpleKey) (ks : List SimpleKey) (s : Scanner)
    → IsLevelled s
    → s.simple_keys ≡ k ∷ ks
    → Keeps s.buffer (take_simple_key k ks s)
take_simple_key-Keeps k ks s h e =
    let (c, i, f, l, w) = h in
    let (x, rest) = subst (λ y. AreWithin y (s.tokens_parsed + length s.tokens)) e w in
    by_inserted
      (insert_token (position (some k.token_number) s.tokens_parsed) (token_at key k.mark) s)
      (insert_token-Keeps (some k.token_number) (token_at key k.mark) s h x)
      (insert_token-KeysAre (position (some k.token_number) s.tokens_parsed) (token_at key k.mark)
        s)
  where
    finish : Scanner → Scanned
    finish u = scanned (record u {
      simple_keys = record k { possible = false } ∷ ks;
      simple_keys_by_tok = delete k.token_number u.simple_keys_by_tok;
      simple_key_allowed = false;
    })

    by_rolled :
        (r : Scanned) → Keeps s.buffer r → KeysAre (k ∷ ks) r → Keeps s.buffer (next r finish)
    by_rolled (scanned u) (h, q) e = (retopped k (record k { possible = false }) ks u h e refl, q)
    by_rolled (failed u) h e = tt
    by_rolled panics h e = h

    by_inserted :
        (r : Scanned)
        → Keeps s.buffer r
        → KeysAre s.simple_keys r
        → Keeps s.buffer (
            next r (λ t.
              next
                (roll_indent (k.mark.column + 1) (some k.token_number) block_mapping_start k.mark t)
                finish))
    by_inserted (scanned t) (h, q) a =
        let (c, i, f, l, w) = h in
        let (x, rest) = subst (λ y. AreWithin y (t.tokens_parsed + length t.tokens)) (a ∙ e) w in
        by_rolled
          (roll_indent (k.mark.column + 1) (some k.token_number) block_mapping_start k.mark t)
          (subst
            (λ b.
              Keeps b (
                roll_indent (k.mark.column + 1) (some k.token_number) block_mapping_start k.mark t))
            q
            (roll_indent-Keeps (k.mark.column + 1) (some k.token_number) block_mapping_start k.mark
              t h x))
          (subst
            (λ y.
              KeysAre y (
                roll_indent (k.mark.column + 1) (some k.token_number) block_mapping_start k.mark t))
            (a ∙ e)
            (roll_indent-KeysAre (k.mark.column + 1) (some k.token_number) block_mapping_start
              k.mark t))
    by_inserted (failed t) h a = tt
    by_inserted panics h a = h

-- What the validity of a key may be.
abbrev Judged : Bytes → SimpleKey → Validity → Type 0
Judged b k valid = Unit
Judged b k (invalid k') = k'.token_number ≡ k.token_number
Judged b k (refused r) = Keeps b r

simple_key_is_valid-Judged :
    (s : Scanner) (k : SimpleKey) → Judged s.buffer k (simple_key_is_valid s k)
unfolding simple_key_is_valid
simple_key_is_valid-Judged s k = ground arith

value_key-Keeps : (s : Scanner) → IsLevelled s → Keeps s.buffer (value_key s.simple_keys s)
value_key-Keeps s h = by_keys s.simple_keys refl
  where
    judged :
        (k : SimpleKey) (ks : List SimpleKey)
        → s.simple_keys ≡ k ∷ ks
        → (v : Validity) → Judged s.buffer k v
        → Keeps s.buffer (elim v [
          | valid ↦ take_simple_key k ks s
          | invalid k' ↦ take_complex_key k' ks s
          | refused r ↦ r
        ])
    judged k ks e valid j = take_simple_key-Keeps k ks s h e
    judged k ks e (invalid k') j = take_complex_key-Keeps k' ks s (retopped k k' ks s h e j)
    judged k ks e (refused r) j = j

    by_keys : (ks : List SimpleKey) → s.simple_keys ≡ ks → Keeps s.buffer (value_key ks s)
    by_keys [] e = let (c, i, f, l, w) = h in absurd (omega (arith, l, ap length e))
    by_keys (k ∷ ks) e = judged k ks e (simple_key_is_valid s k) (simple_key_is_valid-Judged s k)

fetch_value-Holds : (s : Scanner) → IsLevelled s → HasChars 1 s.buffer → Holds (fetch_value s)
unfolding fetch_value
fetch_value-Holds s h b =
    Holds-next s.buffer (value_key s.simple_keys s) _ (value_key-Keeps s h)
      (λ t k q. produce-Holds 1 value s.buffer t b k q)

-- The functions that produce tokens, behind that of the start of the stream.
pub data Production : Type 0 where
  the_stream_end : Production
  document_indicator : TokenType → Production
  flow_collection_start : TokenType → Production
  flow_collection_end : TokenType → Production
  a_flow_entry : Production
  a_block_entry : Production
  a_key : Production
  a_value : Production

abbrev pub fetch : Production → Scan
fetch the_stream_end = fetch_stream_end
fetch (document_indicator t) = fetch_document_indicator t
fetch (flow_collection_start t) = fetch_flow_collection_start t
fetch (flow_collection_end t) = fetch_flow_collection_end t
fetch a_flow_entry = fetch_flow_entry
fetch a_block_entry = fetch_block_entry
fetch a_key = fetch_key
fetch a_value = fetch_value

-- The characters of the token.
abbrev pub size : Production → ℕ
size the_stream_end = 0
size (document_indicator t) = 3
size _ = 1

-- In a state with the invariant of the levels, and with the characters of the token in the buffer, each
-- of the functions that produce the tokens of the stream's end, of the document markers and of the
-- indicators keeps the invariant or fails with an error: none pops an empty stack, or inserts a token
-- outside of the queue.
pub fetch-Holds :
    (f : Production) (s : Scanner) → IsLevelled s → HasChars (size f) s.buffer → Holds (fetch f s)
fetch-Holds the_stream_end s h b = fetch_stream_end-Holds s h
fetch-Holds (document_indicator t) s h b = fetch_document_indicator-Holds t s h b
fetch-Holds (flow_collection_start t) s h b = fetch_flow_collection_start-Holds t s h b
fetch-Holds (flow_collection_end t) s h b = fetch_flow_collection_end-Holds t s h b
fetch-Holds a_flow_entry s h b = fetch_flow_entry-Holds s h b
fetch-Holds a_block_entry s h b = fetch_block_entry-Holds s h b
fetch-Holds a_key s h b = fetch_key-Holds s h b
fetch-Holds a_value s h b = fetch_value-Holds s h b

-- The start of the stream makes the invariant, from a state with empty stacks, outside of any flow.
pub fetch_stream_start-Holds :
    (s : Scanner)
    → s.indents ≡ []
    → s.flow_level ≡ 0
    → s.simple_keys ≡ []
    → Holds (fetch_stream_start s)
unfolding fetch_stream_start
fetch_stream_start-Holds s e f k = append_token-Holds _ _ (
  subst (IsChain 0) (sym e) refl,
  omega (arith, ap length e),
  omega (arith, f),
  omega (arith, ap length k, f),
  (omega arith, subst (λ y. AreWithin y (s.tokens_parsed + length s.tokens)) (sym k) tt),
)
