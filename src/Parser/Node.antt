-- ===== src/Parser/Node.antt =====
-- yaml_parser_parse_node (original/src/parser.c), in three parts: the properties, the tag, the content.
use port_libyaml.Base.{
  Bool, true, false, ◌&&◌, ◌||◌, List, [], ◌∷◌, ◌++◌, Option, none, some, Bytes, if◌then◌else◌,
  strcmp_eq,
}
use port_libyaml.Types.Basics.{
  Mark, TagDirective, ScalarStyle, SequenceStyle, MappingStyle, is_plain,
}
use port_libyaml.Types.Tokens.{
  Token, TokenType, TagToken, ScalarToken, is, alias_of, anchor_of, tag_of, scalar_of,
}
use port_libyaml.Types.Events.{Event, EventData}
use port_libyaml.Parser.State.{
  ParserState, M, ◌>>=◌, ◌>>◌, pure, set_state, require, pop_state, peek_token, skip_token,
  set_parser_error_context,
}
use port_libyaml.Parser.Directives.{bang}

pub record Properties : Type 0 where
  pub anchor : Option Bytes
  pub tag : Option TagToken
  pub start_mark : Mark
  pub end_mark : Mark
  pub tag_mark : Mark
  pub token : Token

-- After an anchor: `if (token->type == YAML_TAG_TOKEN)`.
unfoldable pub tag_after_anchor : Properties → M Properties
unfolding tag_of skip_token peek_token
tag_after_anchor props = elim (tag_of props.token) [
  | none ↦ pure props
  | some tag ↦ (do
    skip_token
    token ← peek_token
    pure (record props {
      tag = some tag;
      tag_mark = props.token.start_mark;
      end_mark = props.token.end_mark;
      token = token;
    }))
]

-- After a tag: `if (token->type == YAML_ANCHOR_TOKEN)`.
unfoldable pub anchor_after_tag : Properties → M Properties
unfolding anchor_of skip_token peek_token
anchor_after_tag props = elim (anchor_of props.token) [
  | none ↦ pure props
  | some anchor ↦ (do
    skip_token
    token ← peek_token
    pure (record props { anchor = some anchor; end_mark = props.token.end_mark; token = token }))
]

-- ANCHOR TAG? | TAG ANCHOR? | nothing, from the token that stands first
unfoldable pub parse_properties : Token → M Properties
unfolding anchor_of tag_of skip_token peek_token tag_after_anchor anchor_after_tag
parse_properties first = elim (anchor_of first) [
  | some anchor ↦ (do
    skip_token
    token ← peek_token
    tag_after_anchor (record {
      anchor = some anchor;
      tag = none;
      start_mark = first.start_mark;
      end_mark = first.end_mark;
      tag_mark = first.start_mark;
      token = token;
    }))
  | none ↦ elim (tag_of first) [
    | some tag ↦ (do
      skip_token
      token ← peek_token
      anchor_after_tag (record {
        anchor = none;
        tag = some tag;
        start_mark = first.start_mark;
        end_mark = first.end_mark;
        tag_mark = first.start_mark;
        token = token;
      }))
    | none ↦ pure (record {
      anchor = none;
      tag = none;
      start_mark = first.start_mark;
      end_mark = first.start_mark;
      tag_mark = first.start_mark;
      token = first;
    })
  ]
]

-- The first directive with the handle, as the for loop finds it.
unfoldable pub find_prefix : Bytes → List TagDirective → Option Bytes
unfolding strcmp_eq
find_prefix handle [] = none
find_prefix handle (d ∷ ds) =
    if strcmp_eq d.handle handle then some d.prefix else find_prefix handle ds

unfoldable pub is_empty : Bytes → Bool
is_empty [] = true
is_empty (c ∷ cs) = false

-- `if (tag_handle)`: the whole tag, `none` for NULL.
unfoldable pub resolve_tag : Properties → M (Option Bytes)
unfolding is_empty find_prefix require set_parser_error_context
resolve_tag props = elim props.tag [
  | none ↦ pure none
  | some tag ↦ if is_empty tag.handle then pure (some tag.suffix) else λ p.
      elim (find_prefix tag.handle p.tag_directives) [
        | some prefix ↦ (do require; pure (some (prefix ++ tag.suffix))) p
        | none ↦
            set_parser_error_context "while parsing a node" props.start_mark
              "found undefined tag handle" props.tag_mark p
      ]
]

-- `!tag || !*tag`
unfoldable pub no_tag : Option Bytes → Bool
unfolding is_empty
no_tag none = true
no_tag (some tag) = is_empty tag

abbrev pub is_null : Option Bytes → Bool
is_null none = true
is_null (some _) = false

-- `tag && strcmp (tag, "!") == 0`
unfoldable pub is_bang : Option Bytes → Bool
unfolding strcmp_eq
is_bang none = false
is_bang (some tag) = strcmp_eq tag bang

unfoldable pub sequence_start : Properties → Option Bytes → SequenceStyle → Mark → Event
unfolding no_tag
sequence_start props tag style end_mark = record {
  content =
      EventData.sequence_start
        (record { anchor = props.anchor; tag = tag; implicit = no_tag tag; style = style });
  start_mark = props.start_mark;
  end_mark = end_mark;
}

unfoldable pub mapping_start : Properties → Option Bytes → MappingStyle → Mark → Event
unfolding no_tag
mapping_start props tag style end_mark = record {
  content =
      EventData.mapping_start
        (record { anchor = props.anchor; tag = tag; implicit = no_tag tag; style = style });
  start_mark = props.start_mark;
  end_mark = end_mark;
}

-- `plain_implicit`; `quoted_implicit` is set where this is not, and there is no tag.
unfoldable pub plain_implicit : Option Bytes → ScalarStyle → Bool
unfolding is_bang
plain_implicit tag style = is_plain style && is_null tag || is_bang tag

unfoldable pub scalar_event : Properties → Option Bytes → ScalarToken → Mark → Event
unfolding plain_implicit
scalar_event props tag scalar end_mark =
    let plain = plain_implicit tag scalar.style in
    record {
      content = EventData.scalar (record {
        anchor = props.anchor;
        tag = tag;
        value = scalar.value;
        plain_implicit = plain;
        quoted_implicit = if plain then false else is_null tag;
        style = scalar.style;
      });
      start_mark = props.start_mark;
      end_mark = end_mark;
    }

-- A node with properties and no content.
unfoldable pub bare_scalar : Properties → Option Bytes → Event
unfolding no_tag
bare_scalar props tag = record {
  content = EventData.scalar (record {
    anchor = props.anchor;
    tag = tag;
    value = [];
    plain_implicit = no_tag tag;
    quoted_implicit = false;
    style = ScalarStyle.plain_scalar;
  });
  start_mark = props.start_mark;
  end_mark = props.end_mark;
}

-- What follows the properties, from `implicit = ...` on.
-- What follows the properties where it is no scalar: a collection, or an empty scalar that the
-- properties stand for.
unfoldable pub parse_collection : Bool → Properties → Option Bytes → M Event
parse_collection block props tag =
    let token = props.token in
    if is TokenType.flow_sequence_start token
    then (do
      set_state ParserState.flow_sequence_first_entry
      pure (sequence_start props tag SequenceStyle.flow_sequence token.end_mark))
    else if is TokenType.flow_mapping_start token
    then (do
      set_state ParserState.flow_mapping_first_key
      pure (mapping_start props tag MappingStyle.flow_mapping token.end_mark))
    else if block && is TokenType.block_sequence_start token
    then (do
      set_state ParserState.block_sequence_first_entry
      pure (sequence_start props tag SequenceStyle.block_sequence token.end_mark))
    else if block && is TokenType.block_mapping_start token
    then (do
      set_state ParserState.block_mapping_first_key
      pure (mapping_start props tag MappingStyle.block_mapping token.end_mark))
    else if is_null props.anchor && is_null tag
    then set_parser_error_context
        (if block then "while parsing a block node" else "while parsing a flow node")
        props.start_mark "did not find expected node content" token.start_mark
    else (do require; pop_state; pure (bare_scalar props tag))

unfoldable pub parse_content : Bool → Bool → Properties → Option Bytes → M Event
parse_content block indentless_sequence props tag =
    let token = props.token in
    if indentless_sequence && is TokenType.block_entry token
    then (do
      set_state ParserState.indentless_sequence_entry
      pure (sequence_start props tag SequenceStyle.block_sequence token.end_mark))
    else elim (scalar_of token) [
      | some scalar ↦ (do
        pop_state
        skip_token
        pure (scalar_event props tag scalar token.end_mark))
      | none ↦ parse_collection block props tag
    ]

-- A node with its properties, from its first token on.
unfoldable pub parse_properties_node : Bool → Bool → Token → M Event
parse_properties_node block indentless_sequence token = do
  props ← parse_properties token
  tag ← resolve_tag props
  parse_content block indentless_sequence props tag

unfoldable pub parse_alias : Bytes → Token → M Event
unfolding pop_state skip_token
parse_alias anchor token = do
  pop_state
  skip_token
  pure (record {
    content = EventData.alias anchor;
    start_mark = token.start_mark;
    end_mark = token.end_mark;
  })

unfoldable pub parse_node : Bool → Bool → M Event
parse_node block indentless_sequence = do
  token ← peek_token
  elim (alias_of token) [
    | some anchor ↦ parse_alias anchor token
    | none ↦ parse_properties_node block indentless_sequence token
  ]
