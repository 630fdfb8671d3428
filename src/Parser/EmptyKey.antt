-- ===== src/Parser/EmptyKey.antt =====
-- An entry `? : value` of a flow sequence (original/src/parser.c,
-- yaml_parser_parse_flow_sequence_entry_mapping_key).
use port_libyaml.Base.{true, false, List, [], ◌∷◌, some, ◌≡◌, arith}
use port_libyaml.Types.Basics.{Mark, ErrorType}
use port_libyaml.Types.Tokens.{Token, TokenType, is}
use port_libyaml.Types.Events.{EventData}
use port_libyaml.Parser.State.{Parser, ParserState, peek_token, require, skip_token}
use port_libyaml.Parser.Directives.{process_empty_scalar, empty_scalar}
use port_libyaml.Parser.Block.{open_collection, in_collection, empty_value, collection_error}
use port_libyaml.Parser.Flow.{
  parse_flow_sequence_entry, flow_sequence_entry, flow_sequence_entry_mapping_key,
  parse_flow_sequence_entry_mapping_key, flow_sequence_entry_mapping_value,
  parse_flow_sequence_entry_mapping_value, parse_flow_sequence_entry_mapping_end,
}
use port_libyaml.Parser.Machine.{Calls, parse, calls, state_machine}

-- The parser behind the KEY token of such an entry, all allocations succeeding.
abbrev pub behind_key : Token → List Token → Mark → List Mark → Parser → Parser
behind_key colon tokens mark marks p = record p {
  tokens = colon ∷ tokens;
  memory = [];
  error = ErrorType.no_error;
  stream_end_produced = false;
  state = ParserState.flow_sequence_entry_mapping_key;
  marks = mark ∷ marks;
}

-- The events that the four calls give, and what the last one fails with.
abbrev pub RefusesEntry : Token → Calls → Type 0
RefusesEntry colon (Calls.failed_after es p) =
    (es
      ≡ (empty_scalar colon.end_mark).content
        ∷ (empty_scalar colon.end_mark).content
        ∷ EventData.mapping_end
        ∷ [])
    × (p.error ≡ ErrorType.parser_error)
    × (p.problem ≡ some "did not find expected ',' or ']'")
RefusesEntry colon _ = ⊥

-- Behind `?` in a flow sequence, the state function for the key skips the token ':', so a value that
-- follows it is not read as one: an empty key, an empty value and the end of the mapping are
-- returned, and the fourth call fails at the value.
pub calls-empty_key :
    (colon value : Token) (tokens : List Token) (mark : Mark) (marks : List Mark) (p : Parser)
    → is TokenType.value colon ≡ true
    → is TokenType.value value ≡ false
    → is TokenType.flow_entry value ≡ false
    → is TokenType.flow_sequence_end value ≡ false
    → RefusesEntry colon (calls 4 (behind_key colon (value ∷ tokens) mark marks p))
unfolding calls parse state_machine parse_flow_sequence_entry_mapping_key
    flow_sequence_entry_mapping_key peek_token skip_token empty_value process_empty_scalar require
    parse_flow_sequence_entry_mapping_value flow_sequence_entry_mapping_value
    parse_flow_sequence_entry_mapping_end parse_flow_sequence_entry in_collection open_collection
    flow_sequence_entry collection_error
calls-empty_key colon value tokens mark marks p h₁ h₂ h₃ h₄ = ground arith
