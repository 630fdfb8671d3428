-- ===== src/Parser/Safety/Machines.antt =====
-- The calls of yaml_parser_parse against the invariant (original/src/parser.c).
use port_libyaml.Base.{
  ℕ, zero, suc, Bool, true, false, ◌&&◌, ◌||◌, List, [], ◌∷◌, some, ◌≡◌, refl, ap, ◌⊎◌, inl, inr,
  arith, Bool-cases,
}
use port_libyaml.Types.Basics.{is_error}
use port_libyaml.Types.Tokens.{Token}
use port_libyaml.Types.Events.{Event, EventData}
use port_libyaml.Grammar.{Phase, step, steps}
use port_libyaml.Parser.State.{Parser, ParserState, Outcome, done, failed, fault}
use port_libyaml.Parser.Document.{parse_document_end}
use port_libyaml.Parser.Machine.{
  Calls, calls, with_event, state_machine, parse, is_end, no_event, initial,
}
use port_libyaml.Parser.Invariant.{
  Invariant, Good, returns, frames, phase, phase_of, marked_over, well_formed, is_first, is_nil,
  openable,
}
use port_libyaml.Parser.Safety.Blocks.{
  parse_block_sequence_entry-Good, parse_indentless_sequence_entry-Good,
  parse_block_mapping_key-Good, parse_block_mapping_value-Good,
}
use port_libyaml.Parser.Safety.Flows.{
  parse_flow_sequence_entry-Good, parse_flow_sequence_entry_mapping_key-Good,
  parse_flow_sequence_entry_mapping_value-Good, parse_flow_sequence_entry_mapping_end-Good,
}
use port_libyaml.Parser.Safety.FlowMappings.{
  parse_flow_mapping_key-Good, parse_flow_mapping_value-Good,
}
use port_libyaml.Parser.Safety.Documents.{
  IsIdle, root_node-Good, parse_stream_start-Good, parse_document_start-Good,
  parse_document_content-Good, parse_document_end-Good,
}

idle : (p : Parser) → (is_nil p.states && is_nil p.marks) ≡ true → IsIdle p
idle p h = ground arith

opening :
    (p : Parser)
    → returns p.states p.marks ≡ true
    → is_nil p.tokens ≡ false
    → openable true p ≡ true
unfolding openable
opening p h f = ground arith

inside : (p : Parser) → marked_over (returns p.states) p.marks ≡ true → openable false p ≡ true
unfolding openable
inside p h = h

-- At a document's end both stacks are empty, as between documents.
document_end-Good :
    (p : Parser)
    → returns (ParserState.document_end ∷ p.states) p.marks ≡ true
    → Good (Phase.in_document (frames (ParserState.document_end ∷ p.states))) (parse_document_end p)
unfolding returns frames
document_end-Good p h =
    let e : p.states ≡ [] = ground arith in
    rw (ap frames e) (parse_document_end-Good p (ground arith))

state_machine-Good :
    (s : ParserState) (p : Parser)
    → is_end s ≡ false
    → well_formed s p.states p.marks ≡ true
    → (is_first s && is_nil p.tokens) ≡ false
    → Good (phase s p.states) (state_machine s p)
unfolding state_machine phase well_formed frames is_first
state_machine-Good ParserState.stream_start p l h f = parse_stream_start-Good p (idle p h)
state_machine-Good ParserState.implicit_document_start p l h f =
    parse_document_start-Good true p (idle p h)
state_machine-Good ParserState.document_start p l h f = parse_document_start-Good false p (idle p h)
state_machine-Good ParserState.document_content p l h f =
    parse_document_content-Good p (ground arith)
state_machine-Good ParserState.document_end p l h f = document_end-Good p h
state_machine-Good ParserState.block_node p l h f = root_node-Good p (ground arith)
state_machine-Good ParserState.block_node_or_indentless_sequence p l h f = cc
state_machine-Good ParserState.flow_node p l h f = cc
state_machine-Good ParserState.block_sequence_first_entry p l h f =
    parse_block_sequence_entry-Good true p (opening p h f)
state_machine-Good ParserState.block_sequence_entry p l h f =
    parse_block_sequence_entry-Good false p (inside p h)
state_machine-Good ParserState.indentless_sequence_entry p l h f =
    parse_indentless_sequence_entry-Good p h
state_machine-Good ParserState.block_mapping_first_key p l h f =
    parse_block_mapping_key-Good true p (opening p h f)
state_machine-Good ParserState.block_mapping_key p l h f =
    parse_block_mapping_key-Good false p (inside p h)
state_machine-Good ParserState.block_mapping_value p l h f = parse_block_mapping_value-Good p h
state_machine-Good ParserState.flow_sequence_first_entry p l h f =
    parse_flow_sequence_entry-Good true p (opening p h f)
state_machine-Good ParserState.flow_sequence_entry p l h f =
    parse_flow_sequence_entry-Good false p (inside p h)
state_machine-Good ParserState.flow_sequence_entry_mapping_key p l h f =
    parse_flow_sequence_entry_mapping_key-Good p h
state_machine-Good ParserState.flow_sequence_entry_mapping_value p l h f =
    parse_flow_sequence_entry_mapping_value-Good p h
state_machine-Good ParserState.flow_sequence_entry_mapping_end p l h f =
    parse_flow_sequence_entry_mapping_end-Good p h
state_machine-Good ParserState.flow_mapping_first_key p l h f =
    parse_flow_mapping_key-Good true p (opening p h f)
state_machine-Good ParserState.flow_mapping_key p l h f =
    parse_flow_mapping_key-Good false p (inside p h)
state_machine-Good ParserState.flow_mapping_value p l h f = parse_flow_mapping_value-Good false p h
state_machine-Good ParserState.flow_mapping_empty_value p l h f =
    parse_flow_mapping_value-Good true p h
state_machine-Good ParserState.end p l h f = cc

-- A call either gives no event and changes nothing, at the end of the stream or after an error, or
-- it is a step of the state machine.
parse_cases : (p : Parser) → Invariant p → (parse p ≡ done no_event p) ⊎ Good (phase_of p) (parse p)
unfolding parse
parse_cases p i = elim (Bool-cases (p.stream_end_produced || is_error p.error || is_end p.state)) [
  | inl e ↦ inl (rw e)
  | inr e ↦ inr (rw e (state_machine-Good p.state p (ground arith) i.stacks i.ready))
]

-- The events that were given are a way from `ph` through the grammar: to the phase of the parser,
-- or to some phase where a call has failed.
abbrev pub Follows : Phase → Calls → Type 0
Follows ph (Calls.returned es p) = steps es ph ≡ some (phase_of p)
Follows ph (Calls.failed_after es p) =
    ((ph' : Phase) × (steps es ph ≡ some ph')) × (is_error p.error ≡ true)
Follows ph Calls.crashed = ⊥

Follows-with_event :
    (ph ph' : Phase) (e : EventData) (r : Calls)
    → step e ph ≡ some ph'
    → Follows ph' r
    → Follows ph (with_event e r)
unfolding with_event steps
Follows-with_event ph ph' e (Calls.returned es p) st f = unfold step in ground arith
Follows-with_event ph ph' e (Calls.failed_after es p) st ((q, f), g) =
    ((q, unfold step in ground arith), g)
Follows-with_event ph ph' e Calls.crashed st f = f

Follows-no_event :
    (ph : Phase) (r : Calls) → Follows ph r → Follows ph (with_event EventData.no_event r)
unfolding with_event
Follows-no_event ph (Calls.returned es p) f = f
Follows-no_event ph (Calls.failed_after es p) f = f
Follows-no_event ph Calls.crashed f = f

after-Follows :
    (ph : Phase) (later : Parser → Calls) (r : Outcome Event)
    → ((p : Parser) → Invariant p → Follows (phase_of p) (later p))
    → Good ph r
    → Follows ph (elim r [
      | done e p ↦ with_event e.content (later p)
      | failed p ↦ Calls.failed_after [] p
      | fault ↦ Calls.crashed
    ])
unfolding steps
after-Follows ph later (done e p) ih (i, st) =
    Follows-with_event ph (phase_of p) e.content (later p) st (ih p i)
after-Follows ph later (failed p) ih h = ((ph, refl), h)
after-Follows ph later fault ih h = h

calls-Follows : (n : ℕ) (p : Parser) → Invariant p → Follows (phase_of p) (calls n p)
unfolding calls steps
calls-Follows zero p i = refl
calls-Follows (suc n) p i = elim (parse_cases p i) [
  | inl e ↦ rw (e, calls) (Follows-no_event (phase_of p) (calls n p) (calls-Follows n p i))
  | inr g ↦ after-Follows (phase_of p) (calls n) (parse p) (calls-Follows n) g
]

-- However often yaml_parser_parse is called on a new parser, whatever tokens the scanner hands over
-- and whichever allocations fail: no call pops an empty stack or reads a missing token; the events
-- given so far follow the grammar of events; and after a call that fails the error is set.
pub calls-follow_grammar :
    (n : ℕ) (tokens : List Token) (memory : List Bool)
    → Follows Phase.before_stream (calls n (initial tokens memory))
unfolding phase well_formed is_first is_nil
calls-follow_grammar n tokens memory =
    calls-Follows n (initial tokens memory) (record { stacks = refl; ready = refl })

-- Where a call of yaml_parser_parse fails, on a parser that keeps the invariant, the next call gives
-- no event and leaves the parser as it is.
pub parse-parse_failed :
    (p p' : Parser) → Invariant p → parse p ≡ failed p' → parse p' ≡ done no_event p'
parse-parse_failed p p' i e = elim (parse_cases p i) [
  | inl q ↦ absurd (ground arith)
  | inr g ↦ unfold parse in ground (arith, rw e at g)
]
