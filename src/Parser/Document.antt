-- ===== src/Parser/Document.antt =====
-- The state functions for the stream and its documents (original/src/parser.c).
use port_libyaml.Base.{Bool, true, false, not, ◌&&◌, ◌||◌, List, [], ◌∷◌, none, some, if◌then◌else◌}
use port_libyaml.Types.Basics.{Mark}
use port_libyaml.Types.Tokens.{Token, TokenType, is, stream_start_of}
use port_libyaml.Types.Events.{Event, EventData}
use port_libyaml.Parser.State.{
  ParserState, M, ◌>>=◌, ◌>>◌, pure, done, fault, set_state, push_state, pop_state, peek_token,
  skip_token, set_parser_error,
}
use port_libyaml.Parser.Directives.{Directives, none_yet, process_directives, process_empty_scalar}
use port_libyaml.Parser.Node.{parse_node}

unfoldable pub parse_stream_start : M Event
unfolding peek_token skip_token set_parser_error
parse_stream_start = do
  token ← peek_token
  elim (stream_start_of token) [
    | none ↦ set_parser_error "did not find expected <stream-start>" token.start_mark
    | some encoding ↦ (do
      set_state ParserState.implicit_document_start
      skip_token
      pure (record {
        content = EventData.stream_start encoding;
        start_mark = token.start_mark;
        end_mark = token.start_mark;
      }))
  ]

-- A round of `while (token->type == YAML_DOCUMENT_END_TOKEN)`, and `next` for those that follow.
unfoldable pub document_ends_round : M Token → Token → M Token
unfolding peek_token skip_token
document_ends_round next token =
    if is TokenType.document_end token then (do skip_token; next) else pure token

-- The loop that skips extra document end indicators, with a round for each token of the queue, the
-- first argument, and the round that ends it.
unfoldable pub skip_document_ends : List Token → M Token
unfolding peek_token
skip_document_ends [] = do token ← peek_token; document_ends_round (λ _. fault) token
skip_document_ends (t ∷ queue) = do
  token ← peek_token
  document_ends_round (skip_document_ends queue) token

unfoldable pub document_start_event : Directives → Bool → Mark → Mark → Event
document_start_event ds implicit start_mark end_mark = record {
  content = EventData.document_start (record {
    version_directive = ds.version_directive;
    tag_directives = ds.tag_directives;
    implicit = implicit;
  });
  start_mark = start_mark;
  end_mark = end_mark;
}

unfoldable pub start_implicit_document : Token → M Event
unfolding push_state document_start_event
start_implicit_document token = do
  ds ← process_directives
  push_state ParserState.document_end
  set_state ParserState.block_node
  pure (document_start_event none_yet true token.start_mark token.start_mark)

unfoldable pub start_explicit_document : Token → M Event
unfolding push_state peek_token skip_token set_parser_error document_start_event
start_explicit_document first = do
  ds ← process_directives
  token ← peek_token
  if not (is TokenType.document_start token)
      then set_parser_error "did not find expected <document start>" token.start_mark
      else (do
        push_state ParserState.document_end
        set_state ParserState.document_content
        skip_token
        pure (document_start_event ds false first.start_mark token.end_mark))

unfoldable pub end_stream : Token → M Event
unfolding skip_token
end_stream token = do
  set_state ParserState.end
  skip_token
  pure (record {
    content = EventData.stream_end;
    start_mark = token.start_mark;
    end_mark = token.end_mark;
  })

-- The tokens that cannot begin an implicit document.
unfoldable pub starts_explicitly : Token → Bool
starts_explicitly token =
    is TokenType.version_directive token
    || is TokenType.tag_directive token
    || is TokenType.document_start token
    || is TokenType.stream_end token

-- From the first token that is no document end on.
unfoldable pub document_start : Bool → Token → M Event
document_start implicit token =
    if implicit && not (starts_explicitly token)
    then start_implicit_document token
    else if not (is TokenType.stream_end token)
    then start_explicit_document token
    else end_stream token

unfoldable pub first_token : Bool → M Token
unfolding peek_token
first_token implicit = if implicit then peek_token else (λ p. skip_document_ends p.tokens p)

unfoldable pub parse_document_start : Bool → M Event
parse_document_start implicit = do token ← first_token implicit; document_start implicit token

unfoldable pub ends_content : Token → Bool
ends_content token =
    is TokenType.version_directive token
    || is TokenType.tag_directive token
    || is TokenType.document_start token
    || is TokenType.document_end token
    || is TokenType.stream_end token

unfoldable pub document_content : Token → M Event
unfolding pop_state process_empty_scalar
document_content token =
    if ends_content token
    then (do pop_state; process_empty_scalar token.start_mark)
    else parse_node true false

unfoldable pub parse_document_content : M Event
unfolding peek_token
parse_document_content = do token ← peek_token; document_content token

-- The loop that pops and frees every tag directive.
abbrev clear_tag_directives : M (Unit {0})
clear_tag_directives p = done tt (record p { tag_directives = [] })

unfoldable pub parse_document_end : M Event
unfolding peek_token skip_token
parse_document_end = do
  token ← peek_token
  let explicit = is TokenType.document_end token
  (if explicit then skip_token else pure tt)
  clear_tag_directives
  set_state ParserState.document_start
  pure (record {
    content = EventData.document_end (not explicit);
    start_mark = token.start_mark;
    end_mark = if explicit then token.end_mark else token.start_mark;
  })
