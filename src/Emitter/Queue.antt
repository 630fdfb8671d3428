-- ===== src/Emitter/Queue.antt =====
-- The dispatcher, the queue of events, and yaml_emitter_emit (original/src/emitter.c).
use port_libyaml.Base.{
  ℕ, zero, suc, ◌+◌, ◌-◌, Bool, true, false, List, [], ◌∷◌, ◌==◌, ltb, length, if◌then◌else◌,
}
use port_libyaml.Types.Events.{EventData}
use port_libyaml.Emitter.State.{Outcome, ◌>>◌}
use port_libyaml.Emitter.Control.{E, EmitterState, set_emitter_error, enqueue}
use port_libyaml.Emitter.AnalyzeScalar.{analyze_event}
use port_libyaml.Emitter.Emit.{
  emit_flow_sequence_item, emit_flow_mapping_key, emit_flow_mapping_value, emit_block_sequence_item,
  emit_block_mapping_key, emit_block_mapping_value,
}
use port_libyaml.Emitter.Documents.{
  emit_stream_start, emit_document_start, emit_document_content, emit_document_end,
}

unfoldable pub state_machine : EmitterState → EventData → E
unfolding emit_stream_start emit_document_start emit_document_content emit_document_end
    emit_flow_sequence_item emit_flow_mapping_key emit_flow_mapping_value emit_block_sequence_item
    emit_block_mapping_key emit_block_mapping_value set_emitter_error
state_machine EmitterState.stream_start event = emit_stream_start event
state_machine EmitterState.first_document_start event = emit_document_start event true
state_machine EmitterState.document_start event = emit_document_start event false
state_machine EmitterState.document_content event = emit_document_content event
state_machine EmitterState.document_end event = emit_document_end event
state_machine EmitterState.flow_sequence_first_item event = emit_flow_sequence_item event true
state_machine EmitterState.flow_sequence_item event = emit_flow_sequence_item event false
state_machine EmitterState.flow_mapping_first_key event = emit_flow_mapping_key event true
state_machine EmitterState.flow_mapping_key event = emit_flow_mapping_key event false
state_machine EmitterState.flow_mapping_simple_value event = emit_flow_mapping_value event true
state_machine EmitterState.flow_mapping_value event = emit_flow_mapping_value event false
state_machine EmitterState.block_sequence_first_item event = emit_block_sequence_item event true
state_machine EmitterState.block_sequence_item event = emit_block_sequence_item event false
state_machine EmitterState.block_mapping_first_key event = emit_block_mapping_key event true
state_machine EmitterState.block_mapping_key event = emit_block_mapping_key event false
state_machine EmitterState.block_mapping_simple_value event = emit_block_mapping_value event true
state_machine EmitterState.block_mapping_value event = emit_block_mapping_value event false
state_machine EmitterState.end event = set_emitter_error "expected nothing after STREAM-END"

-- The levels that an event opens and closes.
unfoldable pub next_level : ℕ → EventData → ℕ
next_level n (EventData.stream_start s) = n + 1
next_level n (EventData.document_start s) = n + 1
next_level n (EventData.sequence_start s) = n + 1
next_level n (EventData.mapping_start s) = n + 1
next_level n EventData.stream_end = n - 1
next_level n (EventData.document_end s) = n - 1
next_level n EventData.sequence_end = n - 1
next_level n EventData.mapping_end = n - 1
next_level n event = n

-- The loop over the queue: is no level closed again?
unfoldable pub stays_open : ℕ → List EventData → Bool
unfolding next_level
stays_open level [] = true
stays_open level (event ∷ events) =
    let rest = stays_open (next_level level event) events in
    if next_level level event == 0 then false else rest

unfoldable pub accumulates : ℕ → List EventData → Bool
unfolding stays_open
accumulates n events = if ltb n (length events) then false else stays_open 0 events

unfoldable pub need_more_events : List EventData → Bool
unfolding accumulates
need_more_events [] = true
need_more_events (EventData.document_start s ∷ events) =
    accumulates 1 (EventData.document_start s ∷ events)
need_more_events (EventData.sequence_start s ∷ events) =
    accumulates 2 (EventData.sequence_start s ∷ events)
need_more_events (EventData.mapping_start s ∷ events) =
    accumulates 3 (EventData.mapping_start s ∷ events)
need_more_events (event ∷ events) = false

unfoldable pub dequeue : List EventData → E
dequeue events e = Outcome.done (record e { events = events })

-- What the loop does with the event at the head, and the events behind it.
unfoldable pub emit_event : EventData → List EventData → E
unfolding analyze_event state_machine dequeue
emit_event event events = do analyze_event event; λ e. state_machine e.state event e; dequeue events

-- `while (!yaml_emitter_need_more_events(emitter))`, with a round for each unit of fuel
unfoldable pub emit_events : ℕ → List EventData → E
unfolding need_more_events emit_event
emit_events fuel [] e = Outcome.done e
emit_events zero (event ∷ events) e =
    if need_more_events (event ∷ events) then Outcome.done e else Outcome.fault
emit_events (suc n) (event ∷ events) e =
    let rest = (do emit_event event events; emit_events n events) e in
    if need_more_events (event ∷ events) then Outcome.done e else rest

unfoldable pub emit : EventData → E
unfolding enqueue emit_events
emit event = do enqueue event; λ e. emit_events (length e.events) e.events e
