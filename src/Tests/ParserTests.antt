-- ===== src/Tests/ParserTests.antt =====
-- Runs of the parser on short token streams, each with the YAML text that it stands for.
use port_libyaml.Base.{ℕ, List, [], ◌∷◌, ◌≡◌, refl, strcmp_eq}
use port_libyaml.Types.Basics.{Mark, Encoding, ErrorType, ScalarStyle, is_plain}
use port_libyaml.Types.Tokens.{
  Token, TokenData, TokenType, is, stream_start_of, version_of, tag_directive_of, alias_of,
  anchor_of, tag_of, scalar_of,
}
use port_libyaml.Types.Events.{EventData}
use port_libyaml.Grammar.{Phase}
use port_libyaml.Parser.State.{
  done, failed, allocate, require, memory_error, push_state, push_mark, push_tag_directive,
  pop_state, pop_mark, peek_token, peek_token_unchecked, skip_token, set_parser_error,
  set_parser_error_context,
}
use port_libyaml.Parser.Directives.{
  has_handle, copy_directive, append_tag_directive, is_incompatible, version_step, tag_step,
  directive_body, is_directive, directives_round, directives_loop, append_defaults,
  process_directives, empty_scalar, process_empty_scalar,
}
use port_libyaml.Parser.Node.{
  tag_after_anchor, anchor_after_tag, parse_properties, find_prefix, is_empty, resolve_tag, no_tag,
  is_bang, sequence_start, mapping_start, plain_implicit, scalar_event, bare_scalar,
  parse_collection, parse_content, parse_properties_node, parse_alias, parse_node,
}
use port_libyaml.Parser.Document.{
  parse_stream_start, document_ends_round, skip_document_ends, document_start_event,
  start_implicit_document, start_explicit_document, end_stream, starts_explicitly, document_start,
  first_token, parse_document_start, ends_content, document_content, parse_document_content,
  parse_document_end,
}
use port_libyaml.Parser.Block.{
  open_collection, close_collection, collection_error, in_collection, empty_value, entry_node,
  block_sequence_entry, parse_block_sequence_entry, indentless_sequence_entry,
  parse_indentless_sequence_entry, ends_pair, block_mapping_key, parse_block_mapping_key,
  block_mapping_value, parse_block_mapping_value,
}
use port_libyaml.Parser.Flow.{
  next_token, flow_sequence_item, flow_sequence_separated, flow_sequence_entry,
  parse_flow_sequence_entry, flow_sequence_entry_mapping_key, parse_flow_sequence_entry_mapping_key,
  flow_node_after, flow_sequence_entry_mapping_value, parse_flow_sequence_entry_mapping_value,
  parse_flow_sequence_entry_mapping_end, flow_mapping_item, flow_mapping_separated,
  flow_mapping_key, parse_flow_mapping_key, flow_mapping_value, parse_flow_mapping_value,
}
use port_libyaml.Parser.Machine.{state_machine, parse, Calls, calls, initial, no_event}
use port_libyaml.Parser.Invariant.{well_formed, is_first, is_nil}
use port_libyaml.Parser.EmptyKey.{RefusesEntry, behind_key, calls-empty_key}
use port_libyaml.Parser.Safety.Machines.{Follows, calls-follow_grammar, parse-parse_failed}

-- `calls`, with all that it runs unfolded.
run : ℕ → List Token → Calls
unfolding strcmp_eq is_plain is stream_start_of version_of tag_directive_of alias_of anchor_of
    tag_of scalar_of allocate require memory_error push_state push_mark push_tag_directive pop_state
    pop_mark peek_token peek_token_unchecked skip_token set_parser_error set_parser_error_context
    has_handle copy_directive append_tag_directive is_incompatible version_step tag_step
    directive_body is_directive directives_round directives_loop append_defaults process_directives
    empty_scalar process_empty_scalar tag_after_anchor anchor_after_tag parse_properties find_prefix
    is_empty resolve_tag no_tag is_bang sequence_start mapping_start plain_implicit scalar_event
    bare_scalar parse_collection parse_content parse_properties_node parse_alias parse_node
    parse_stream_start document_ends_round skip_document_ends document_start_event
    start_implicit_document start_explicit_document end_stream starts_explicitly document_start
    first_token parse_document_start ends_content document_content parse_document_content
    parse_document_end open_collection close_collection collection_error in_collection empty_value
    entry_node block_sequence_entry parse_block_sequence_entry indentless_sequence_entry
    parse_indentless_sequence_entry ends_pair block_mapping_key parse_block_mapping_key
    block_mapping_value parse_block_mapping_value next_token flow_sequence_item
    flow_sequence_separated flow_sequence_entry parse_flow_sequence_entry
    flow_sequence_entry_mapping_key parse_flow_sequence_entry_mapping_key flow_node_after
    flow_sequence_entry_mapping_value parse_flow_sequence_entry_mapping_value
    parse_flow_sequence_entry_mapping_end flow_mapping_item flow_mapping_separated flow_mapping_key
    parse_flow_mapping_key flow_mapping_value parse_flow_mapping_value state_machine parse calls
run n tokens = calls n (initial tokens [])

abbrev mark : Mark
mark = record { index = 0; line = 0; column = 0 }

abbrev tok : TokenData → Token
tok t = record { content = t; start_mark = mark; end_mark = mark }

abbrev word : List ℕ → Token
word v = tok (TokenData.scalar (record { value = v; style = ScalarStyle.plain_scalar }))

abbrev sign : TokenType → Token
sign t = tok (TokenData.bare t)

abbrev start : Token
start = tok (TokenData.stream_start Encoding.utf8_encoding)

-- {a: [b, &x c], *x: }
abbrev flow_text : List Token
flow_text =
    start
    ∷ sign TokenType.flow_mapping_start
    ∷ sign TokenType.key
    ∷ word (b'a' ∷ [])
    ∷ sign TokenType.value
    ∷ sign TokenType.flow_sequence_start
    ∷ word (b'b' ∷ [])
    ∷ sign TokenType.flow_entry
    ∷ tok (TokenData.anchor (b'x' ∷ []))
    ∷ word (b'c' ∷ [])
    ∷ sign TokenType.flow_sequence_end
    ∷ sign TokenType.flow_entry
    ∷ sign TokenType.key
    ∷ tok (TokenData.alias (b'x' ∷ []))
    ∷ sign TokenType.value
    ∷ sign TokenType.flow_mapping_end
    ∷ sign TokenType.stream_end
    ∷ []

abbrev code : EventData → ℕ
code EventData.no_event = 0
code (EventData.stream_start _) = 1
code EventData.stream_end = 2
code (EventData.document_start _) = 3
code (EventData.document_end _) = 4
code (EventData.alias _) = 5
code (EventData.scalar _) = 6
code (EventData.sequence_start _) = 7
code EventData.sequence_end = 8
code (EventData.mapping_start _) = 9
code EventData.mapping_end = 10

-- The numbers of the events in the C enum.
abbrev codes : List EventData → List ℕ
codes [] = []
codes (e ∷ es) = code e ∷ codes es

abbrev returned_codes : Calls → List ℕ
returned_codes (Calls.returned es p) = codes es
returned_codes _ = []

flow_events :
    returned_codes (run 20 flow_text) ≡ 1 ∷ 3 ∷ 9 ∷ 6 ∷ 7 ∷ 6 ∷ 6 ∷ 8 ∷ 5 ∷ 6 ∷ 10 ∷ 4 ∷ 2 ∷ []
unfolding run
flow_events = refl

calls-follow_grammar_example : Follows Phase.before_stream (calls 20 (initial flow_text []))
calls-follow_grammar_example = calls-follow_grammar 20 flow_text []

-- The queue ends before the first token: the scanner has failed.
failed_start :
    parse (initial [] []) ≡ failed (record (initial [] []) { error = ErrorType.scanner_error })
unfolding parse state_machine parse_stream_start peek_token
failed_start = refl

parse-parse_failed_example :
    parse (record (initial [] []) { error = ErrorType.scanner_error })
    ≡ done no_event (record (initial [] []) { error = ErrorType.scanner_error })
unfolding well_formed is_first is_nil
parse-parse_failed_example =
    parse-parse_failed (initial [] []) (record (initial [] []) { error = ErrorType.scanner_error })
      (record { stacks = refl; ready = refl }) failed_start

-- `[? : x]`, behind the `?`.
calls-empty_key_example :
    RefusesEntry
      (sign TokenType.value)
      (calls 4 (behind_key (sign TokenType.value) (word (b'x' ∷ []) ∷ []) mark [] (initial [] [])))
unfolding is
calls-empty_key_example =
    calls-empty_key (sign TokenType.value) (word (b'x' ∷ [])) [] mark [] (initial [] []) refl refl
      refl refl
