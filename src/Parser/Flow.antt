-- ===== src/Parser/Flow.antt =====
-- The state functions for flow collections (original/src/parser.c).
use port_libyaml.Base.{Bool, true, false, not, ◌&&◌, ◌||◌, none, if◌then◌else◌}
use port_libyaml.Types.Basics.{MappingStyle}
use port_libyaml.Types.Tokens.{Token, TokenType, is}
use port_libyaml.Types.Events.{Event, EventData}
use port_libyaml.Parser.State.{
  ParserState, M, ◌>>=◌, ◌>>◌, pure, set_state, push_state, peek_token, skip_token,
}
use port_libyaml.Parser.Node.{parse_node}
use port_libyaml.Parser.Block.{
  in_collection, close_collection, collection_error, end_event, empty_value,
}

-- After a separator the next token is the current one.
unfoldable pub next_token : M Token
unfolding skip_token peek_token
next_token = do skip_token; peek_token

-- From the token behind the separator on.
unfoldable pub flow_sequence_item : Token → M Event
unfolding skip_token
flow_sequence_item token =
    if is TokenType.key token
    then (do
      set_state ParserState.flow_sequence_entry_mapping_key
      skip_token
      pure (record {
        content = EventData.mapping_start (record {
          anchor = none;
          tag = none;
          implicit = true;
          style = MappingStyle.flow_mapping;
        });
        start_mark = token.start_mark;
        end_mark = token.end_mark;
      }))
    else if not (is TokenType.flow_sequence_end token)
    then (do push_state ParserState.flow_sequence_entry; parse_node false false)
    else close_collection EventData.sequence_end token

-- After a ',' the next token is the current one.
unfoldable pub flow_sequence_separated : M Event
flow_sequence_separated = do token ← next_token; flow_sequence_item token

unfoldable pub flow_sequence_entry : Bool → Token → M Event
flow_sequence_entry first token =
    if not (is TokenType.flow_sequence_end token)
    then if first
      then flow_sequence_item token
      else if is TokenType.flow_entry token
      then flow_sequence_separated
      else collection_error "while parsing a flow sequence" "did not find expected ',' or ']'" token
    else close_collection EventData.sequence_end token

unfoldable pub parse_flow_sequence_entry : Bool → M Event
parse_flow_sequence_entry first = in_collection first (flow_sequence_entry first)

unfoldable pub flow_sequence_entry_mapping_key : Token → M Event
unfolding skip_token
flow_sequence_entry_mapping_key token =
    if not (is TokenType.value token)
      && not (is TokenType.flow_entry token)
      && not (is TokenType.flow_sequence_end token)
    then (do push_state ParserState.flow_sequence_entry_mapping_value; parse_node false false)
    else (do skip_token; empty_value ParserState.flow_sequence_entry_mapping_value token.end_mark)

unfoldable pub parse_flow_sequence_entry_mapping_key : M Event
unfolding peek_token
parse_flow_sequence_entry_mapping_key = do token ← peek_token; flow_sequence_entry_mapping_key token

-- An indicator stands at the head of the queue and is skipped. On a token that begins no node the
-- node is empty; any other begins a node, after which `next` is popped.
unfoldable pub flow_node_after : ParserState → (Token → Bool) → M Event
flow_node_after next begins_no_node = do
  token ← next_token
  if not (begins_no_node token)
      then (do push_state next; parse_node false false)
      else empty_value next token.start_mark

unfoldable pub flow_sequence_entry_mapping_value : Token → M Event
flow_sequence_entry_mapping_value token =
    if is TokenType.value token
    then flow_node_after ParserState.flow_sequence_entry_mapping_end
        (λ t. is TokenType.flow_entry t || is TokenType.flow_sequence_end t)
    else empty_value ParserState.flow_sequence_entry_mapping_end token.start_mark

unfoldable pub parse_flow_sequence_entry_mapping_value : M Event
unfolding peek_token
parse_flow_sequence_entry_mapping_value = do
  token ← peek_token
  flow_sequence_entry_mapping_value token

unfoldable pub parse_flow_sequence_entry_mapping_end : M Event
unfolding peek_token
parse_flow_sequence_entry_mapping_end = do
  token ← peek_token
  set_state ParserState.flow_sequence_entry
  pure (end_event EventData.mapping_end token.start_mark token.start_mark)

unfoldable pub flow_mapping_item : Token → M Event
flow_mapping_item token =
    if is TokenType.key token
    then flow_node_after ParserState.flow_mapping_value
        (λ t. is TokenType.value t || is TokenType.flow_entry t || is TokenType.flow_mapping_end t)
    else if not (is TokenType.flow_mapping_end token)
    then (do push_state ParserState.flow_mapping_empty_value; parse_node false false)
    else close_collection EventData.mapping_end token

unfoldable pub flow_mapping_separated : M Event
flow_mapping_separated = do token ← next_token; flow_mapping_item token

unfoldable pub flow_mapping_key : Bool → Token → M Event
flow_mapping_key first token =
    if not (is TokenType.flow_mapping_end token)
    then if first
      then flow_mapping_item token
      else if is TokenType.flow_entry token
      then flow_mapping_separated
      else collection_error "while parsing a flow mapping" "did not find expected ',' or '}'" token
    else close_collection EventData.mapping_end token

unfoldable pub parse_flow_mapping_key : Bool → M Event
parse_flow_mapping_key first = in_collection first (flow_mapping_key first)

unfoldable pub flow_mapping_value : Bool → Token → M Event
flow_mapping_value empty token =
    if empty
    then empty_value ParserState.flow_mapping_key token.start_mark
    else if is TokenType.value token
    then flow_node_after ParserState.flow_mapping_key
        (λ t. is TokenType.flow_entry t || is TokenType.flow_mapping_end t)
    else empty_value ParserState.flow_mapping_key token.start_mark

unfoldable pub parse_flow_mapping_value : Bool → M Event
unfolding peek_token
parse_flow_mapping_value empty = do token ← peek_token; flow_mapping_value empty token
