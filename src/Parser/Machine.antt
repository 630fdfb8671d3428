-- ===== src/Parser/Machine.antt =====
-- yaml_parser_state_machine and yaml_parser_parse (original/src/parser.c).
use port_libyaml.Base.{ℕ, zero, suc, Bool, true, false, ◌||◌, List, [], ◌∷◌, none, if◌then◌else◌}
use port_libyaml.Types.Basics.{ErrorType, Mark, is_error}
use port_libyaml.Types.Tokens.{Token}
use port_libyaml.Types.Events.{Event, EventData}
use port_libyaml.Parser.State.{ParserState, Parser, M, done, failed, fault}
use port_libyaml.Parser.Node.{parse_node}
use port_libyaml.Parser.Document.{
  parse_stream_start, parse_document_start, parse_document_content, parse_document_end,
}
use port_libyaml.Parser.Block.{
  parse_block_sequence_entry, parse_indentless_sequence_entry, parse_block_mapping_key,
  parse_block_mapping_value,
}
use port_libyaml.Parser.Flow.{
  parse_flow_sequence_entry, parse_flow_sequence_entry_mapping_key,
  parse_flow_sequence_entry_mapping_value, parse_flow_sequence_entry_mapping_end,
  parse_flow_mapping_key, parse_flow_mapping_value,
}

-- The switch of the state machine, on the state. The last one is no case of it: `return 0`.
unfoldable pub state_machine : ParserState → M Event
state_machine ParserState.stream_start = parse_stream_start
state_machine ParserState.implicit_document_start = parse_document_start true
state_machine ParserState.document_start = parse_document_start false
state_machine ParserState.document_content = parse_document_content
state_machine ParserState.document_end = parse_document_end
state_machine ParserState.block_node = parse_node true false
state_machine ParserState.block_node_or_indentless_sequence = parse_node true true
state_machine ParserState.flow_node = parse_node false false
state_machine ParserState.block_sequence_first_entry = parse_block_sequence_entry true
state_machine ParserState.block_sequence_entry = parse_block_sequence_entry false
state_machine ParserState.indentless_sequence_entry = parse_indentless_sequence_entry
state_machine ParserState.block_mapping_first_key = parse_block_mapping_key true
state_machine ParserState.block_mapping_key = parse_block_mapping_key false
state_machine ParserState.block_mapping_value = parse_block_mapping_value
state_machine ParserState.flow_sequence_first_entry = parse_flow_sequence_entry true
state_machine ParserState.flow_sequence_entry = parse_flow_sequence_entry false
state_machine ParserState.flow_sequence_entry_mapping_key = parse_flow_sequence_entry_mapping_key
state_machine ParserState.flow_sequence_entry_mapping_value =
    parse_flow_sequence_entry_mapping_value
state_machine ParserState.flow_sequence_entry_mapping_end = parse_flow_sequence_entry_mapping_end
state_machine ParserState.flow_mapping_first_key = parse_flow_mapping_key true
state_machine ParserState.flow_mapping_key = parse_flow_mapping_key false
state_machine ParserState.flow_mapping_value = parse_flow_mapping_value false
state_machine ParserState.flow_mapping_empty_value = parse_flow_mapping_value true
state_machine ParserState.end = failed

abbrev pub is_end : ParserState → Bool
is_end ParserState.end = true
is_end _ = false

abbrev no_mark : Mark
no_mark = record { index = 0; line = 0; column = 0 }

-- The event that memset leaves.
abbrev pub no_event : Event
no_event = record { content = EventData.no_event; start_mark = no_mark; end_mark = no_mark }

unfoldable pub parse : M Event
parse p =
    if p.stream_end_produced || is_error p.error || is_end p.state
    then done no_event p
    else state_machine p.state p

-- The parser before its first call, on a stream of tokens.
abbrev pub initial : List Token → List Bool → Parser
initial tokens memory = record {
  tokens = tokens;
  memory = memory;
  error = ErrorType.no_error;
  problem = none;
  problem_mark = none;
  context = none;
  context_mark = none;
  token_available = false;
  tokens_parsed = 0;
  stream_end_produced = false;
  states = [];
  state = ParserState.stream_start;
  marks = [];
  tag_directives = [];
}

-- What a client has after some calls of yaml_parser_parse, up to the first that fails: the events
-- that the calls filled in, and the parser.
pub data Calls : Type 0 where
  returned : List EventData → Parser → Calls
  failed_after : List EventData → Parser → Calls
  crashed : Calls

unfoldable pub is_no_event : EventData → Bool
is_no_event EventData.no_event = true
is_no_event _ = false

unfoldable pub with_event : EventData → Calls → Calls
unfolding is_no_event
with_event e (Calls.returned es p) = Calls.returned (if is_no_event e then es else e ∷ es) p
with_event e (Calls.failed_after es p) = Calls.failed_after (if is_no_event e then es else e ∷ es) p
with_event e Calls.crashed = Calls.crashed

unfoldable pub calls : ℕ → Parser → Calls
unfolding with_event
calls zero p = Calls.returned [] p
calls (suc n) p = elim (parse p) [
  | done e p' ↦ with_event e.content (calls n p')
  | failed p' ↦ Calls.failed_after [] p'
  | fault ↦ Calls.crashed
]
