-- ===== src/Parser/Directives.antt =====
-- The %YAML and %TAG directives of a document.
use yaml.Base.{
  ℕ, zero, suc, Bool, true, false, not, ◌||◌, List, [], ◌∷◌, ◌++◌, Option, none, some, Bytes, codes,
  equal, length, ◌==◌, if◌then◌else◌,
}
use yaml.Types.{VersionDirective, TagDirective, Mark, Token, ◌is◌, version_directive, tag_directive}
use yaml.Parser.State.{ok, panic, Action, ◌>>=◌, ◌>>◌, return, gets, set_parser_error}
use yaml.Parser.Queue.{peek, skip}

abbrev pub default_tag_directives : List TagDirective
default_tag_directives =
    record { handle = codes "!"; prefix = codes "!" }
    ∷ record { handle = codes "!!"; prefix = codes "tag:yaml.org,2002:" }
    ∷ []

-- The test of the loops over `parser.tag_directives`.
unfoldable pub has_handle : Bytes → List TagDirective → Bool
has_handle h [] = false
has_handle h (d ∷ ds) = equal h d.handle || has_handle h ds

-- `yaml_parser_append_tag_directive`
unfoldable pub append_tag_directive : TagDirective → Bool → Mark → Action (Unit {0})
append_tag_directive value allow_duplicates mark p =
    if has_handle value.handle p.tag_directives
    then (if allow_duplicates
        then ok tt p
        else set_parser_error "found duplicate %TAG directive" mark p)
    else ok tt (record p { tag_directives = p.tag_directives ++ value ∷ [] })

-- The body of the loop of `yaml_parser_process_directives`, before its `skip_token`.
unfoldable pub one_directive :
    Token
    → Option VersionDirective
    → List TagDirective
    → Action (Option VersionDirective × List TagDirective)
one_directive t (some d) tags p =
    if t.typ is version_directive
    then set_parser_error "found duplicate %YAML directive" t.start_mark p
    else let value : TagDirective = record { handle = t.value; prefix = t.prefix } in
      (append_tag_directive value false t.start_mark >> return (some d, tags ++ value ∷ [])) p
one_directive t none tags p =
    if t.typ is version_directive
    then if not (t.major == 1) || not (t.minor == 1)
      then set_parser_error "found incompatible YAML document" t.start_mark p
      else ok (some (record { major = t.major; minor = t.minor }), tags) p
    else let value : TagDirective = record { handle = t.value; prefix = t.prefix } in
      (append_tag_directive value false t.start_mark >> return (none, tags ++ value ∷ [])) p

-- The loop, with the tokens left as fuel; each round skips one.
unfoldable pub directives_loop :
    ℕ
    → Token
    → Option VersionDirective
    → List TagDirective
    → Action (Option VersionDirective × List TagDirective × Token)
directives_loop zero t version tags p = panic
directives_loop (suc n) t version tags p =
    let round : Action (Option VersionDirective × List TagDirective × Token) = do
      (version', tags') ← one_directive t version tags
      skip
      t' ← peek
      directives_loop n t' version' tags'
    in if t.typ is version_directive || t.typ is tag_directive
      then round p
      else ok (version, tags, t) p

-- `for i := range default_tag_directives`
unfoldable pub append_default_directives : List TagDirective → Mark → Action (Unit {0})
append_default_directives [] mark p = ok tt p
append_default_directives (d ∷ ds) mark p =
    (append_tag_directive d true mark >> append_default_directives ds mark) p

-- `yaml_parser_process_directives`: the two results go where the source's references point.
unfoldable pub process_directives : Action (Option VersionDirective × List TagDirective)
process_directives = do
  t ← peek
  fuel ← gets (λ p. length p.tokens)
  (version, tags, last) ← directives_loop fuel t none []
  append_default_directives default_tag_directives last.start_mark
  return (version, tags)
