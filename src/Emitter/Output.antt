-- ===== src/Emitter/Output.antt =====
-- The output of `yaml_emitter_t` (yamlh.go), `yaml_emitter_flush` of writerc.go, and the functions of
-- emitterc.go from `flush` to `write_break`, with `yaml_emitter_write_indent` and
-- `yaml_emitter_write_indicator`.
use yaml.Base.{
  ℕ, Option, if◌then◌else◌, Bytes, ◌+◌, Bool, leb, none, drop, length, not, ◌∷◌, ◌==◌, some, suc,
  is_empty, [], true, ltb, false, ◌++◌, ◌||◌, ◌&&◌, take, zero,
}
use yaml.Types.{ErrorType, writer_error}
use yaml.Chars.{width, at}

-- `yaml_break_t`
pub data Break : Type 0 where
  any_break cr_break ln_break crln_break : Break

abbrev pub output_buffer_size : ℕ
output_buffer_size = 128

-- The fields of the output. `written` is what the write handler has taken, which is to say whether it
-- takes some more; `buffer` is the working buffer up to `buffer_pos`; an indentation is `none` if it is
-- negative.
pub record Emitter : Type 0 where
  pub error : ErrorType
  pub write_handler : Option (Bytes → Bytes → Bool)
  pub written : Bytes
  pub buffer : Bytes
  pub line_break : Break
  pub best_width : ℕ
  pub unicode : Bool
  pub indent : Option ℕ
  pub line : ℕ
  pub column : ℕ
  pub whitespace : Bool
  pub indention : Bool
  pub open_ended : Bool
  pub space_above : Bool
  pub foot_indent : Option ℕ

-- A function returns true, returns false with `error` set, or panics.
pub data Emitted : Type 0 where
  emitted : Emitter → Emitted
  failed : Emitter → Emitted
  panics : Emitted

abbrev pub Emit : Type 0
Emit = Emitter → Emitted

abbrev pub onward : Emitted → Emit → Emitted
onward (emitted e) k = k e
onward (failed e) k = failed e
onward panics k = panics

-- The call of the write handler.
abbrev pub hand_over : Option (Bytes → Bytes → Bool) → Emit
hand_over none e = panics
hand_over (some handler) e =
    if is_empty e.buffer
    then emitted e
    else if handler e.written e.buffer
    then emitted (record e { written = e.written ++ e.buffer; buffer = [] })
    else failed (record e { error = writer_error })

-- `yaml_emitter_flush`
unfoldable pub yaml_emitter_flush : Emit
yaml_emitter_flush e = hand_over e.write_handler e

-- `emitter.buffer_pos+5 >= len(emitter.buffer) && !yaml_emitter_flush(emitter)`
unfoldable pub make_room : Emit
make_room e =
    if leb output_buffer_size (length e.buffer + 5) then yaml_emitter_flush e else emitted e

-- The assignments to the buffer, which panic behind its end.
abbrev pub store : Bytes → Emit
store bs e =
    if leb (length e.buffer + length bs) output_buffer_size
    then emitted (record e { buffer = e.buffer ++ bs })
    else panics

abbrev pub next_column : Emit
next_column e = emitted (record e { column = e.column + 1 })

-- `put`
unfoldable pub put : ℕ → Emit
put x e = onward (make_room e) (λ f. onward (store (x ∷ []) f) next_column)

-- The octets of a line break, if the setting is known.
abbrev pub break_octets : Break → Option Bytes
break_octets any_break = none
break_octets cr_break = some (b'\r' ∷ [])
break_octets ln_break = some (b'\n' ∷ [])
break_octets crln_break = some (b'\r' ∷ b'\n' ∷ [])

abbrev pub new_line : Emit
new_line e = emitted (record e {
  space_above = if e.column == 0 then true else e.space_above;
  column = 0;
  line = e.line + 1;
  indention = true;
})

abbrev pub store_break : Option Bytes → Emit
store_break none e = panics
store_break (some bs) e = onward (store bs e) new_line

-- `put_break`
unfoldable pub put_break : Emit
put_break e = onward (make_room e) (λ f. store_break (break_octets f.line_break) f)

-- `write`, of the first character of these bytes.
unfoldable pub write : Bytes → Emit
write s e =
    let w = width (at s 0) in
    onward (make_room e) (λ f.
      if is_empty s || w == 0 || ltb (length s) w
      then panics
      else onward (store (take w s) f) next_column)

-- What is behind the first character.
abbrev pub behind : Bytes → Bytes
behind s = drop (width (at s 0)) s

abbrev pub write_from : ℕ → Bytes → Emit
write_from zero s e = emitted e
write_from (suc n) s e =
    if is_empty s then emitted e else onward (write s e) (write_from n (behind s))

-- `write_all`; a character has a byte at least.
unfoldable pub write_all : Bytes → Emit
write_all s = write_from (length s) s

-- `write_break`
unfoldable pub write_break : Bytes → Emit
write_break s e = if at s 0 == b'\n' then put_break e else onward (write s e) new_line

abbrev pub pad : ℕ → ℕ → Emit
pad zero indent e = emitted e
pad (suc n) indent e = if ltb e.column indent then onward (put b' ' e) (pad n indent) else emitted e

abbrev pub is_indentation : Option ℕ → ℕ → Bool
is_indentation none indent = false
is_indentation (some foot) indent = foot == indent

-- `yaml_emitter_write_indent`, at this indentation.
abbrev pub indent_to : ℕ → Emit
indent_to indent e =
    onward
      (if not e.indention || ltb indent e.column || (e.column == indent && not e.whitespace)
        then put_break e
        else emitted e)
      (λ f. onward (if is_indentation f.foot_indent indent then put_break f else emitted f) (λ g.
        onward (pad indent indent g)
          (λ h. emitted (record h { whitespace = true; space_above = false; foot_indent = none }))))

abbrev pub indent_of : Option ℕ → ℕ
indent_of none = 0
indent_of (some n) = n

-- `yaml_emitter_write_indent`
unfoldable pub write_indent : Emit
write_indent e = indent_to (indent_of e.indent) e

-- `yaml_emitter_write_indicator`
unfoldable pub write_indicator : Bytes → Bool → Bool → Bool → Emit
write_indicator indicator need_whitespace is_whitespace is_indention e =
    onward (if need_whitespace && not e.whitespace then put b' ' e else emitted e) (λ f.
      onward (write_all indicator f) (λ g. emitted (record g {
        whitespace = is_whitespace;
        indention = g.indention && is_indention;
        open_ended = false;
      })))
