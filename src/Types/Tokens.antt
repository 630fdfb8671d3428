-- ===== src/Types/Tokens.antt =====
-- Tokens (original/include/yaml.h). A C token is a type, a union and two marks: here the type and
-- its member of the union are one constructor.
use port_libyaml.Base.{ℕ, Bool, Option, none, some, Bytes, ◌==◌}
use port_libyaml.Types.Basics.{Encoding, Mark, VersionDirective, TagDirective, ScalarStyle}

pub data TokenType : Type 0 where
  no_token stream_start stream_end version_directive tag_directive : TokenType
  document_start document_end block_sequence_start block_mapping_start block_end : TokenType
  flow_sequence_start flow_sequence_end flow_mapping_start flow_mapping_end : TokenType
  block_entry flow_entry key value alias anchor tag scalar : TokenType

pub record ScalarToken : Type 0 where
  pub value : Bytes
  pub style : ScalarStyle

pub record TagToken : Type 0 where
  pub handle : Bytes
  pub suffix : Bytes

-- A token with a member of the union, or a bare type.
pub data TokenData : Type 0 where
  bare : TokenType → TokenData
  stream_start : Encoding → TokenData
  version_directive : VersionDirective → TokenData
  tag_directive : TagDirective → TokenData
  alias : Bytes → TokenData
  anchor : Bytes → TokenData
  tag : TagToken → TokenData
  scalar : ScalarToken → TokenData

pub record Token : Type 0 where
  pub content : TokenData
  pub start_mark : Mark
  pub end_mark : Mark

-- The number of an enumerator in the C enum.
unfoldable pub enum : TokenType → ℕ
enum TokenType.no_token = 0
enum TokenType.stream_start = 1
enum TokenType.stream_end = 2
enum TokenType.version_directive = 3
enum TokenType.tag_directive = 4
enum TokenType.document_start = 5
enum TokenType.document_end = 6
enum TokenType.block_sequence_start = 7
enum TokenType.block_mapping_start = 8
enum TokenType.block_end = 9
enum TokenType.flow_sequence_start = 10
enum TokenType.flow_sequence_end = 11
enum TokenType.flow_mapping_start = 12
enum TokenType.flow_mapping_end = 13
enum TokenType.block_entry = 14
enum TokenType.flow_entry = 15
enum TokenType.key = 16
enum TokenType.value = 17
enum TokenType.alias = 18
enum TokenType.anchor = 19
enum TokenType.tag = 20
enum TokenType.scalar = 21

unfoldable pub type_of : TokenData → TokenType
type_of (TokenData.bare t) = t
type_of (TokenData.stream_start _) = TokenType.stream_start
type_of (TokenData.version_directive _) = TokenType.version_directive
type_of (TokenData.tag_directive _) = TokenType.tag_directive
type_of (TokenData.alias _) = TokenType.alias
type_of (TokenData.anchor _) = TokenType.anchor
type_of (TokenData.tag _) = TokenType.tag
type_of (TokenData.scalar _) = TokenType.scalar

-- `token->type == t`
unfoldable pub is : TokenType → Token → Bool
unfolding enum type_of
is t token = enum (type_of token.content) == enum t

-- The member of the union that goes with the type, `none` for a token of another type.
unfoldable pub stream_start_of : Token → Option Encoding
stream_start_of token = elim token.content [ TokenData.stream_start e ↦ some e | _ ↦ none ]

unfoldable pub version_of : Token → Option VersionDirective
version_of token = elim token.content [ TokenData.version_directive v ↦ some v | _ ↦ none ]

unfoldable pub tag_directive_of : Token → Option TagDirective
tag_directive_of token = elim token.content [ TokenData.tag_directive d ↦ some d | _ ↦ none ]

unfoldable pub alias_of : Token → Option Bytes
alias_of token = elim token.content [ TokenData.alias a ↦ some a | _ ↦ none ]

unfoldable pub anchor_of : Token → Option Bytes
anchor_of token = elim token.content [ TokenData.anchor a ↦ some a | _ ↦ none ]

unfoldable pub tag_of : Token → Option TagToken
tag_of token = elim token.content [ TokenData.tag t ↦ some t | _ ↦ none ]

unfoldable pub scalar_of : Token → Option ScalarToken
scalar_of token = elim token.content [ TokenData.scalar s ↦ some s | _ ↦ none ]
