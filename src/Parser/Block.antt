-- ===== src/Parser/Block.antt =====
-- The state functions for block collections (original/src/parser.c).
use Prim.Native.String.{String}
use port_libyaml.Base.{Bool, true, false, not, ◌||◌, if◌then◌else◌}
use port_libyaml.Types.Basics.{Mark}
use port_libyaml.Types.Tokens.{Token, TokenType, is}
use port_libyaml.Types.Events.{Event, EventData}
use port_libyaml.Parser.State.{
  ParserState, M, ◌>>=◌, ◌>>◌, pure, set_state, push_state, push_mark, pop_state, pop_mark,
  peek_token, peek_token_unchecked, skip_token, set_parser_error_context,
}
use port_libyaml.Parser.Directives.{process_empty_scalar}
use port_libyaml.Parser.Node.{parse_node}

-- `if (first) { … }`: the opening token's mark is pushed, and the token skipped.
unfoldable pub open_collection : Bool → M (Unit {0})
unfolding peek_token_unchecked push_mark skip_token
open_collection first =
    if first
    then (do token ← peek_token_unchecked; push_mark token.start_mark; skip_token)
    else pure tt

abbrev pub end_event : EventData → Mark → Mark → Event
end_event content start_mark end_mark = record {
  content = content;
  start_mark = start_mark;
  end_mark = end_mark;
}

-- The branch on a collection's closing token.
unfoldable pub close_collection : EventData → Token → M Event
unfolding pop_state pop_mark skip_token
close_collection content token = do
  pop_state
  _ ← pop_mark
  skip_token
  pure (end_event content token.start_mark token.end_mark)

-- The error whose context is the mark on the stack.
unfoldable pub collection_error : String → String → Token → M Event
unfolding pop_mark set_parser_error_context
collection_error context problem token = do
  mark ← pop_mark
  set_parser_error_context context mark problem token.start_mark

-- The start of the state functions that take `first`: the current token, after the opening one.
unfoldable pub in_collection : Bool → (Token → M Event) → M Event
unfolding peek_token
in_collection first body = do open_collection first; token ← peek_token; body token

-- An empty node, with the state to go on with.
unfoldable pub empty_value : ParserState → Mark → M Event
empty_value next mark = do set_state next; process_empty_scalar mark

-- An indicator stands at the head of the queue and is skipped. On a token that begins no node the
-- node is empty, and the next state is `next`; any other begins a node, after which `next` is popped.
unfoldable pub entry_node : Bool → Bool → ParserState → (Token → Bool) → Mark → M Event
unfolding skip_token peek_token
entry_node block indentless_sequence next begins_no_node mark = do
  skip_token
  token ← peek_token
  if not (begins_no_node token)
      then (do push_state next; parse_node block indentless_sequence)
      else empty_value next mark

unfoldable pub block_sequence_entry : Token → M Event
block_sequence_entry token =
    if is TokenType.block_entry token
    then entry_node true false ParserState.block_sequence_entry
        (λ t. is TokenType.block_entry t || is TokenType.block_end t) token.end_mark
    else if is TokenType.block_end token
    then close_collection EventData.sequence_end token
    else collection_error "while parsing a block collection" "did not find expected '-' indicator"
        token

unfoldable pub parse_block_sequence_entry : Bool → M Event
parse_block_sequence_entry first = in_collection first block_sequence_entry

unfoldable pub indentless_sequence_entry : Token → M Event
unfolding pop_state
indentless_sequence_entry token =
    if is TokenType.block_entry token
    then entry_node true false ParserState.indentless_sequence_entry
        (λ t.
          is TokenType.block_entry t
          || is TokenType.key t
          || is TokenType.value t
          || is TokenType.block_end t)
        token.end_mark
    else (do pop_state; pure (end_event EventData.sequence_end token.start_mark token.start_mark))

unfoldable pub parse_indentless_sequence_entry : M Event
unfolding peek_token
parse_indentless_sequence_entry = do token ← peek_token; indentless_sequence_entry token

unfoldable pub ends_pair : Token → Bool
ends_pair t = is TokenType.key t || is TokenType.value t || is TokenType.block_end t

unfoldable pub block_mapping_key : Token → M Event
block_mapping_key token =
    if is TokenType.key token
    then entry_node true true ParserState.block_mapping_value ends_pair token.end_mark
    else if is TokenType.block_end token
    then close_collection EventData.mapping_end token
    else collection_error "while parsing a block mapping" "did not find expected key" token

unfoldable pub parse_block_mapping_key : Bool → M Event
parse_block_mapping_key first = in_collection first block_mapping_key

unfoldable pub block_mapping_value : Token → M Event
block_mapping_value token =
    if is TokenType.value token
    then entry_node true true ParserState.block_mapping_key ends_pair token.end_mark
    else empty_value ParserState.block_mapping_key token.start_mark

unfoldable pub parse_block_mapping_value : M Event
unfolding peek_token
parse_block_mapping_value = do token ← peek_token; block_mapping_value token
