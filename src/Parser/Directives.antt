-- ===== src/Parser/Directives.antt =====
-- yaml_parser_process_directives, yaml_parser_append_tag_directive and
-- yaml_parser_process_empty_scalar (original/src/parser.c).
use port_libyaml.Base.{
  Bool, true, false, not, ◌&&◌, ◌||◌, List, [], ◌∷◌, ◌++◌, Option, none, some, Bytes, ◌==◌,
  if◌then◌else◌, strcmp_eq,
}
use port_libyaml.Types.Basics.{Mark, VersionDirective, TagDirective, ScalarStyle}
use port_libyaml.Types.Tokens.{Token, TokenType, is, version_of, tag_directive_of}
use port_libyaml.Types.Events.{Event, EventData}
use port_libyaml.Parser.State.{
  M, ◌>>=◌, ◌>>◌, pure, done, fault, allocate, require, memory_error, push_tag_directive,
  peek_token, skip_token, set_parser_error,
}

-- The for loop over the directives: is the handle among them?
unfoldable pub has_handle : Bytes → List TagDirective → Bool
unfolding strcmp_eq
has_handle handle [] = false
has_handle handle (d ∷ ds) = strcmp_eq handle d.handle || has_handle handle ds

-- `if (!copy.handle || !copy.prefix)`, after the two calls of yaml_strdup
unfoldable pub copy_directive : M (Unit {0})
unfolding allocate memory_error
copy_directive = do
  handle ← allocate
  prefix ← allocate
  if handle && prefix then pure tt else memory_error

unfoldable pub append_tag_directive : TagDirective → Bool → Mark → M (Unit {0})
unfolding has_handle copy_directive push_tag_directive set_parser_error
append_tag_directive value allow_duplicates mark p =
    if has_handle value.handle p.tag_directives
    then if allow_duplicates
      then done tt p
      else set_parser_error "found duplicate %TAG directive" mark p
    else (do copy_directive; push_tag_directive value) p

-- `major != 1 || (minor != 1 && minor != 2)`
unfoldable pub is_incompatible : VersionDirective → Bool
is_incompatible v = not (v.major == 1) || (not (v.minor == 1) && not (v.minor == 2))

-- The `version_directive` and `tag_directives` that the loop has collected.
pub record Directives : Type 0 where
  pub version_directive : Option VersionDirective
  pub tag_directives : List TagDirective

abbrev pub none_yet : Directives
none_yet = record { version_directive = none; tag_directives = [] }

-- The branch for %YAML: a second one is an error, and then an unknown version is.
unfoldable pub version_step : VersionDirective → Mark → Directives → M Directives
unfolding is_incompatible set_parser_error require
version_step v mark ds = elim ds.version_directive [
  | some _ ↦ set_parser_error "found duplicate %YAML directive" mark
  | none ↦
      if is_incompatible v
      then set_parser_error "found incompatible YAML document" mark
      else do require; pure (record ds { version_directive = some v })
]

-- The branch for %TAG.
unfoldable pub tag_step : TagDirective → Mark → Directives → M Directives
tag_step value mark ds = do
  append_tag_directive value false mark
  require
  pure (record ds { tag_directives = ds.tag_directives ++ (value ∷ []) })

-- The body of the loop, but for SKIP_TOKEN.
unfoldable pub directive_body : Token → Directives → M Directives
directive_body token ds = elim (version_of token) [
  | some v ↦ version_step v token.start_mark ds
  | none ↦ elim (tag_directive_of token) [
    | some d ↦ tag_step d token.start_mark ds
    | none ↦ pure ds
  ]
]

unfoldable pub is_directive : Token → Bool
is_directive token = is TokenType.version_directive token || is TokenType.tag_directive token

-- A round of the loop: peek, test, body, skip, and `next` for the rounds that follow.
unfoldable pub directives_round :
    (Directives → M (Directives × Token)) → Directives → M (Directives × Token)
directives_round next ds = do
  token ← peek_token
  if is_directive token
      then (do ds' ← directive_body token ds; skip_token; next ds')
      else pure (ds, token)

-- `while (token->type == VERSION_DIRECTIVE || token->type == TAG_DIRECTIVE)`, with a round for each
-- token of the queue, the first argument; one round more would be a `fault`.
unfoldable pub directives_loop : List Token → Directives → M (Directives × Token)
directives_loop [] = directives_round (λ _ _. fault)
directives_loop (t ∷ queue) = directives_round (directives_loop queue)

abbrev pub bang : Bytes
bang = b'!' ∷ []

-- "tag:yaml.org,2002:"
abbrev pub yaml_prefix : Bytes
yaml_prefix =
    b't' ∷ b'a' ∷ b'g' ∷ b':' ∷ b'y' ∷ b'a' ∷ b'm' ∷ b'l' ∷ b'.' ∷ b'o' ∷ b'r' ∷ b'g' ∷ b',' ∷ b'2'
    ∷ b'0' ∷ b'0' ∷ b'2' ∷ b':' ∷ []

abbrev pub default_tag_directives : List TagDirective
default_tag_directives =
    record { handle = bang; prefix = bang }
    ∷ record { handle = b'!' ∷ b'!' ∷ []; prefix = yaml_prefix }
    ∷ []

unfoldable pub append_defaults : List TagDirective → Mark → M (Unit {0})
append_defaults [] mark = pure tt
append_defaults (d ∷ ds) mark = do append_tag_directive d true mark; append_defaults ds mark

unfoldable pub process_directives : M Directives
process_directives = do
  require
  (ds, token) ← (λ p. directives_loop p.tokens none_yet p)
  append_defaults default_tag_directives token.start_mark
  pure ds

unfoldable pub empty_scalar : Mark → Event
empty_scalar mark = record {
  content = EventData.scalar (record {
    anchor = none;
    tag = none;
    value = [];
    plain_implicit = true;
    quoted_implicit = false;
    style = ScalarStyle.plain_scalar;
  });
  start_mark = mark;
  end_mark = mark;
}

unfoldable pub process_empty_scalar : Mark → M Event
unfolding require empty_scalar
process_empty_scalar mark = do require; pure (empty_scalar mark)
