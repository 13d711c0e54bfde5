-- ===== src/Resolve/Tests.antt =====
-- Scalars with and without tags, and the witnesses of what is shown of `resolve`.
use yaml.Base.{[], ℕ, true, false, none, some, codes, refl, ◌≡◌, ◌≢◌, length, equal, arith, Bytes}
use yaml.Origin.Decimal.{pos, negsuc, print_int}
use yaml.Resolve.Scalar.{
  Library, resolve, infer, resolved, resolve_short, no_handler, hint_of, resolve_table, check_tag,
  switch_hint, resolve_plain, cannot_decode, Value,
}
use yaml.Resolve.Tags.{
  short_tag, has_prefix, int_tag, float_tag, long_tag, map_entry, is_resolvable_tag, bool_tag,
  str_tag,
}
use yaml.Resolve.Inference.{resolve-keeps_tag, resolve-ne-no_handler, resolve-untagged}
use yaml.Resolve.Forms.{long_tag-short_tag, short_tag-long_tag}
use yaml.Resolve.Scalar.{text, int, float, truth}
use yaml.Resolve.Integers.{resolve-print_int}
use yaml.Resolve.Numbers.{parse_int}
use yaml.Resolve.Base64.{encode_base64, decode, encode, without_newlines, break_lines}
use yaml.Resolve.Lines.{decode-encode_base64}

-- Floats as the numbers of their texts' lengths, and no times.
abbrev library : Library
library = record {
  Float = ℕ;
  Time = ℕ;
  parse_float = λ s. some (length s);
  float_of = λ v. 0;
  nan = 1;
  plus_inf = 2;
  minus_inf = 3;
  parse_time = λ f s. none;
}

resolved_bool : resolve library [] (codes "True") false ≡ resolved bool_tag (truth true)
unfolding resolve infer resolve_short short_tag has_prefix map_entry equal is_resolvable_tag hint_of
    resolve_table check_tag
resolved_bool = refl

resolved_word : resolve library [] (codes "yes") false ≡ resolved str_tag (text (codes "yes"))
unfolding resolve infer resolve_short short_tag has_prefix map_entry equal is_resolvable_tag hint_of
    resolve_table check_tag switch_hint
resolved_word = refl

resolved_binary : resolve library [] (codes "0b1_01") true ≡ resolved int_tag (int (pos 5))
unfolding resolve infer resolve_short short_tag has_prefix map_entry equal is_resolvable_tag hint_of
    resolve_table check_tag switch_hint resolve_plain parse_int
resolved_binary = refl

resolved_float : resolve library float_tag (codes "12") true ≡ resolved float_tag (float 0)
unfolding resolve infer resolve_short short_tag has_prefix map_entry equal is_resolvable_tag hint_of
    resolve_table check_tag switch_hint resolve_plain parse_int
resolved_float = refl

refused_word : resolve library int_tag (codes "x") true ≡ cannot_decode str_tag (codes "x") int_tag
unfolding resolve infer resolve_short short_tag has_prefix map_entry equal is_resolvable_tag hint_of
    resolve_table check_tag switch_hint resolve_plain parse_int
refused_word = refl

resolve-ne-no_handler_example : resolve library int_tag (codes "-x") true ≢ no_handler
resolve-ne-no_handler_example = resolve-ne-no_handler library int_tag (codes "-x") true

resolve-keeps_tag_example : float_tag ≡ short_tag float_tag
unfolding short_tag has_prefix
resolve-keeps_tag_example =
    resolve-keeps_tag library float_tag (codes "12") float_tag true (float 0) (λ e. cc e)
      resolved_float

long_tag-short_tag_example :
    long_tag (short_tag (codes "tag:yaml.org,2002:set")) ≡ codes "tag:yaml.org,2002:set"
unfolding has_prefix
long_tag-short_tag_example = long_tag-short_tag (codes "tag:yaml.org,2002:set") refl

short_tag-long_tag_example : short_tag (long_tag (codes "!!set")) ≡ codes "!!set"
unfolding has_prefix
short_tag-long_tag_example = short_tag-long_tag (codes "!!set") refl

resolve-print_int_example :
    resolve library [] (print_int (negsuc 11)) true ≡ resolved int_tag (int (negsuc 11))
resolve-print_int_example = resolve-print_int library (negsuc 11) true (omega arith)

resolve-untagged_example :
    (t : Bytes) × (v : Value library) × (resolve library [] (codes "0x_") false ≡ resolved t v)
resolve-untagged_example = resolve-untagged library (codes "0x_") false

-- Of 54 octets: two lines.
abbrev octets : Bytes
octets = codes "abcdefghijklmnopqrstuvwxyzabcdefghijklmnopqrstuvwxyz12"

many_lines : length (encode_base64 octets) ≡ 74
unfolding encode_base64 encode break_lines
many_lines = refl

decode-encode_base64_example :
    decode (without_newlines (encode_base64 (codes "sand"))) ≡ codes "sand"
decode-encode_base64_example =
    decode-encode_base64 (codes "sand")
      (omega arith, (omega arith, (omega arith, (omega arith, tt))))
