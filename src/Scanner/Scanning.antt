-- ===== src/Scanner/Scanning.antt =====
-- The functions that produce tokens with a content keep the invariant of the levels.
use yaml.Scanner.State.{scanned, failed, panics}
use yaml.Scanner.Levelled.{Keeps, save_simple_key-Keeps}
use yaml.Scanner.Content.{
  fetch_directive, fetch_anchor, fetch_tag, fetch_flow_scalar, fetch_plain_scalar, append_plain,
  key_before, append_scanned,
}
use yaml.Base.{Bytes, ◌||◌, arith}
use yaml.Base.{ℕ, Bool, true, ◌≡◌, false, none}
use yaml.Scanner.Levels.{save_simple_key}
use yaml.Scanner.State.{insert_token, Scanned, Scanner, Scan, next}
use yaml.Types.{Token, TokenType}
use yaml.Lexer.Cursor.{Lexed, lexed, refused, unreadable, broken, endless}
use yaml.Scanner.Levelled.{IsLevelled}
use yaml.Lexer.Outcome.{Leaves, Goes, AreChars, Goes-more}
use yaml.Scanner.Content.{cursor_of, scanning, moved}
use yaml.Scanner.Fetching.{append_token-Holds, reset_levels-Keeps}
use yaml.Lexer.Totality.{Content, opens, scan, directive, name, scan-IsSafe, quoted, tag_name}
use yaml.Scanner.Fetch.{reset_levels}
use yaml.Lexer.PlainEnds.{scan_plain_scalar-IsSafe}
use yaml.Scanner.Still.{IsStill, save_simple_key-IsStill, reset_levels-IsStill}

-- A function keeps the invariant and leaves whole characters, at most so many, or it fails; it does
-- not panic.
abbrev pub Scans : ℕ → Scanned → Type 0
Scans n (scanned t) = IsLevelled t × Leaves n (cursor_of t)
Scans n (failed t) = Unit
Scans n panics = ⊥

-- A function that keeps the levels and the buffer and does not read, before another.
after_still :
    (n : ℕ) (s : Scanner) (r : Scanned) (k : Scan)
    → Keeps s.buffer r
    → IsStill s.unread r
    → ((t : Scanner) → IsLevelled t → t.buffer ≡ s.buffer → t.unread ≡ s.unread → Scans n (k t))
    → Scans n (next r k)
after_still n s (scanned t) k (h, q) e f = f t h q e
after_still n s (failed t) k h e f = tt
after_still n s panics k h e f = h

scanning-Scans :
    (n : ℕ) (s : Scanner) (r : Lexed Token)
    → IsLevelled s
    → Goes (λ t d. Leaves n d) r
    → Scans n (scanning r (insert_token none) s)
unfolding insert_token
scanning-Scans n s (lexed t d) h g = (append_token-Holds t (moved d s) h, g)
scanning-Scans n s (refused context mark problem d) h g = tt
scanning-Scans n s (unreadable d) h g = tt
scanning-Scans n s broken h g = g
scanning-Scans n s endless h g = g

append_scanned-Scans :
    (x : Content) (b : Bytes) (n : ℕ) (s : Scanner)
    → IsLevelled s
    → AreChars n b
    → opens x b ≡ true
    → s.buffer ≡ b
    → s.unread ≡ n
    → Scans n (append_scanned (scan x) s)
append_scanned-Scans x b n s h w o q e = scanning-Scans n s (scan x (cursor_of s)) h (
    Goes-more (λ t d. Leaves s.unread d) (λ t d. Leaves n d) (scan x (cursor_of s))
      (scan-IsSafe x (cursor_of s) (rw (q, e) w) (rw q o)) (λ t d (y, l). (y, omega (arith, l, e))))

plain-Scans :
    (n : ℕ) (s : Scanner) (r : Lexed (Token × Bool))
    → IsLevelled s
    → Goes (λ t d. Leaves n d) r
    → Scans n (
        scanning r
          (λ (token, allowed) t.
            insert_token none token
              (record t { simple_key_allowed = allowed || t.simple_key_allowed }))
          s)
unfolding insert_token
plain-Scans n s (lexed (t, b) d) h g = (
  append_token-Holds t (record (moved d s) { simple_key_allowed = b || s.simple_key_allowed }) h,
  g,
)
plain-Scans n s (refused context mark problem d) h g = tt
plain-Scans n s (unreadable d) h g = tt
plain-Scans n s broken h g = g
plain-Scans n s endless h g = g

-- The simple key is saved, and the buffer is as before.
key_before-Scans :
    (k : Scan) (n : ℕ) (s : Scanner)
    → IsLevelled s
    → ((t : Scanner) → IsLevelled t → t.buffer ≡ s.buffer → t.unread ≡ s.unread → Scans n (k t))
    → Scans n (key_before k s)
key_before-Scans k n s h f =
    after_still n s (save_simple_key s) _ (save_simple_key-Keeps s h) (save_simple_key-IsStill s)
      (λ t l q e. f (record t { simple_key_allowed = false }) l q e)

-- The functions that produce tokens with a content, but for the block scalars.
pub data Contents : Type 0 where
  a_directive : Contents
  an_anchor : TokenType → Contents
  a_tag : Contents
  a_flow_scalar : Bool → Contents
  a_plain_scalar : Contents

abbrev pub fetch_content : Contents → Scan
fetch_content a_directive = fetch_directive
fetch_content (an_anchor typ) = fetch_anchor typ
fetch_content a_tag = fetch_tag
fetch_content (a_flow_scalar single) = fetch_flow_scalar single
fetch_content a_plain_scalar = fetch_plain_scalar

-- The character before them in the buffer.
abbrev pub introduces : Contents → Bytes → Bool
introduces a_directive = opens directive
introduces (an_anchor typ) = opens (name typ)
introduces a_tag = opens tag_name
introduces (a_flow_scalar single) = opens (quoted single)
introduces a_plain_scalar = λ b. true

-- In a state with the invariant of the levels, on a buffer of whole characters that begins as the token
-- does, each of the functions that produce directives, anchors, aliases, tags, quoted and plain scalars
-- ends, and it does not panic: it fails with an error, or it keeps the invariant and leaves whole
-- characters, not more than before.
pub fetch_content-Scans :
    (f : Contents) (s : Scanner)
    → IsLevelled s
    → AreChars s.unread s.buffer
    → introduces f s.buffer ≡ true
    → Scans s.unread (fetch_content f s)
unfolding fetch_directive fetch_anchor fetch_tag fetch_flow_scalar fetch_plain_scalar
fetch_content-Scans a_directive s h w o =
    after_still s.unread s (reset_levels s) _ (reset_levels-Keeps s h) (reset_levels-IsStill s)
      (λ t l q e. append_scanned-Scans directive s.buffer s.unread t l w o q e)
fetch_content-Scans (an_anchor typ) s h w o =
    key_before-Scans _ s.unread s h
      (λ t l q e. append_scanned-Scans (name typ) s.buffer s.unread t l w o q e)
fetch_content-Scans a_tag s h w o =
    key_before-Scans _ s.unread s h
      (λ t l q e. append_scanned-Scans tag_name s.buffer s.unread t l w o q e)
fetch_content-Scans (a_flow_scalar single) s h w o =
    key_before-Scans _ s.unread s h
      (λ t l q e. append_scanned-Scans (quoted single) s.buffer s.unread t l w o q e)
fetch_content-Scans a_plain_scalar s h w o = key_before-Scans append_plain s.unread s h (λ t l q e.
    plain-Scans s.unread t _ l (
      scan_plain_scalar-IsSafe t.flow_level t.indent s.unread (cursor_of t)
        (rw (q, e) w, omega (arith, e))))
