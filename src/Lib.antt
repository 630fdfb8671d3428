-- ===== src/Lib.antt =====
-- A verification of libyaml's C library (original/src, original/include/yaml.h): the YAML parser and
-- emitter that this repository ports.
--
-- The program reads bytes (reader.c), scans tokens (scanner.c), parses them to events (parser.c) and
-- composes documents (loader.c); the other way round it turns documents to events (dumper.c), emits
-- text (emitter.c) and writes bytes (writer.c). api.c holds constructors and containers.
--
-- Types/: the enumerations, tokens and events of original/include/yaml.h. A C union with its type
-- tag is one data type; `is t token` is the test of a token's type, `scalar_of token` and its kin are
-- the members of the union. NULL-terminated strings are lists of bytes, pointers that may be NULL are
-- options.
--
-- Parser/: original/src/parser.c. State is the parser's part of yaml_parser_t, with a monad whose
-- outcomes are a result, `return 0`, and `fault` for what C leaves undefined. The functions carry
-- their C names without the prefix yaml_parser_: Directives, Node (yaml_parser_parse_node in parts),
-- Document, Block, Flow, and Machine with the dispatcher and yaml_parser_parse. The scanner's tokens
-- are a list in the state, and yaml_parser_fetch_more_tokens fails behind its last token. Which
-- allocations succeed is a list too, the oracle `memory`; the growth of the stacks is not modelled
-- apart from it, nor is freeing memory. Invariant says which states can stand on the stack, Grammar
-- has the grammar of events, and Safety/ goes through the state functions with both.
-- The loops over directives and document ends run on the queue of tokens, a round for each, which is
-- enough since each round skips one. EmptyKey is about one production.
--
-- Reader/: original/src/reader.c. Decode has the decoding of one character out of the loop of
-- yaml_parser_update_buffer, from the switch on the encoding to the check of the range, and the encoding
-- of it into the buffer. Utf8, Utf8RoundTrip, Utf8Checks and Utf8Sound relate the two, Ranges with the
-- check of the range.
--
-- Writer/: original/src/writer.c. Recode has the body and the loop of yaml_emitter_flush, with the
-- length of the buffer as fuel, which is enough since a character has an octet at least; Flush has
-- the function itself, with the application's write handler as a parameter. It is
-- `fault` where the raw buffer is run over. Bounds has the size of what is recoded, Utf16 what the
-- reader makes of it and which characters are encoded right, Texts the texts of those, and Delivery
-- what is handed over.
--
-- Loader/: original/src/loader.c. State has the document, the table of anchors, the stack of open
-- collections and the error setters; Compose has the composer functions, from yaml_parser_load_document
-- down, on the list of events that yaml_parser_parse returns; a failed assertion is `fault`. Stacks
-- hold fewer than INT_MAX elements by STACK_LIMIT, so an index never leaves int. Open,
-- Composing, Opening, Adding and Steps follow the stack of open collections through the grammar of
-- events.
--
-- Emitter/: original/src/emitter.c. State has the output: the writer with its buffer of 16384 bytes,
-- the column and its kin, and the macros that write to it; the application's write handler is a list
-- of answers, whatever they are. Outcomes are `done`, `failed` and `fault`, for what C leaves
-- undefined and for a loop that would not end. Characters has the tests of yaml_private.h on a
-- string from its pointer on, behind whose end stands a NUL. The loops over a string move on by a
-- character a round, with the string's length as fuel, which is enough since a character has an
-- octet at least. Write, Scalars and Blocks have the functions yaml_emitter_write_*, Control the rest
-- of yaml_emitter_t with the stacks and the queue, Analyze and AnalyzeScalar the analysis of events,
-- Process the choice of styles and yaml_emitter_process_*, Emit the states of collections and the
-- nodes, Documents the stream and its documents, Queue the dispatcher and yaml_emitter_emit. Columns, lines,
-- indentations and flow levels are natural numbers; that they leave int is not modelled. A width or
-- an indentation of -1 is `none`. Safety/ goes through all of it from the strings up to the queue,
-- for an emitter whose raw buffer is empty, as it is unless the write handler refused a flush,
-- Styles is about the choice of a scalar's style, Accumulation about the queue.
--
-- Dumper/: original/src/dumper.c. Anchors has the first walk over a document, which counts references
-- and numbers anchors, and their names; Dump the second, which serializes the nodes, with
-- yaml_emitter_open, yaml_emitter_close and yaml_emitter_dump. Both recursions have a unit of fuel for
-- each level, the number of nodes and one: a level deeper is a node that was not visited yet. The
-- document is an argument, since it does not change until it is deleted. Entries relates tables entry
-- by entry, Visits is about the first walk, Ready about the emitter's events, and Locks, Nodes, Walks,
-- Rooted and Safety take the second walk along the first.
--
-- Api/: of original/src/api.c yaml_check_utf8, in Utf8, a round for a character. Utf8Rounds and
-- Utf8Exact relate it to the encoding, Utf8Characters to the strings of the emitter. Events has the
-- functions yaml_*_event_initialize that copy strings, with an oracle of allocations as in Parser/, one
-- for each PUSH, and lengths as ints; EventStrings and EventsWhole take their events to the emitter's.
--
-- Not modelled: the scanner, yaml_parser_load itself, the buffers of the reader, the
-- other constructors of api.c, and the Rust port under safe/.
pub mod Base
pub mod Types
pub mod Grammar
pub mod Reader
pub mod Writer
pub mod Parser
pub mod Loader
pub mod Emitter
pub mod Dumper
pub mod Api
mod Tests
