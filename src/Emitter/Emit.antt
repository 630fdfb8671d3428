-- ===== src/Emitter/Emit.antt =====
-- The nodes, and the items of collections (original/src/emitter.c).
use port_libyaml.Base.{
  ◌+◌, ◌-◌, Bool, true, false, not, ◌&&◌, ◌||◌, [], ◌∷◌, Bytes, ◌==◌, if◌then◌else◌,
}
use port_libyaml.Types.Basics.{SequenceStyle, MappingStyle}
use port_libyaml.Types.Events.{EventData, ScalarEvent, SequenceStartEvent, MappingStartEvent}
use port_libyaml.Emitter.State.{Outcome, ◌>>◌, when, W, put}
use port_libyaml.Emitter.Write.{write_indent, write_indicator}
use port_libyaml.Emitter.Scalars.{is_over}
use port_libyaml.Emitter.Control.{
  E, EmitterState, writing, set_emitter_error, push_state, pop_state, set_state, pop_indent,
  increase_indent,
}
use port_libyaml.Emitter.Process.{
  check_empty_sequence, check_empty_mapping, check_simple_key, select_scalar_style, process_anchor,
  process_tag, process_scalar,
}

-- `if (emitter->simple_key_context) PUT(emitter, ' ')`
unfoldable pub end_alias : E
unfolding put
end_alias e = writing (when e.simple_key_context (put 0x20)) e

unfoldable pub emit_alias : E
unfolding process_anchor end_alias pop_state
emit_alias = do process_anchor; end_alias; pop_state

unfoldable pub emit_scalar : ScalarEvent → E
unfolding select_scalar_style process_anchor process_tag increase_indent process_scalar pop_indent
    pop_state
emit_scalar s = do
  select_scalar_style s
  process_anchor
  process_tag
  increase_indent true false
  process_scalar
  pop_indent
  pop_state

unfoldable pub is_flow_sequence : SequenceStyle → Bool
is_flow_sequence SequenceStyle.flow_sequence = true
is_flow_sequence style = false

unfoldable pub is_flow_mapping : MappingStyle → Bool
is_flow_mapping MappingStyle.flow_mapping = true
is_flow_mapping style = false

unfoldable pub sequence_state : SequenceStartEvent → E
unfolding is_flow_sequence check_empty_sequence set_state
sequence_state s e =
    set_state
      (if not (e.flow_level == 0)
          || e.output.canonical
          || is_flow_sequence s.style
          || check_empty_sequence e.events
        then EmitterState.flow_sequence_first_item
        else EmitterState.block_sequence_first_item)
      e

unfoldable pub emit_sequence_start : SequenceStartEvent → E
unfolding process_anchor process_tag sequence_state
emit_sequence_start s = do process_anchor; process_tag; sequence_state s

unfoldable pub mapping_state : MappingStartEvent → E
unfolding is_flow_mapping check_empty_mapping set_state
mapping_state s e =
    set_state
      (if not (e.flow_level == 0)
          || e.output.canonical
          || is_flow_mapping s.style
          || check_empty_mapping e.events
        then EmitterState.flow_mapping_first_key
        else EmitterState.block_mapping_first_key)
      e

unfoldable pub emit_mapping_start : MappingStartEvent → E
unfolding process_anchor process_tag mapping_state
emit_mapping_start s = do process_anchor; process_tag; mapping_state s

unfoldable pub set_context : Bool → Bool → Bool → Bool → E
set_context root sequence mapping simple_key e = Outcome.done (record e {
  root_context = root;
  sequence_context = sequence;
  mapping_context = mapping;
  simple_key_context = simple_key;
})

unfoldable pub emit_node_content : EventData → E
unfolding emit_alias emit_scalar emit_sequence_start emit_mapping_start set_emitter_error
emit_node_content (EventData.alias a) = emit_alias
emit_node_content (EventData.scalar s) = emit_scalar s
emit_node_content (EventData.sequence_start s) = emit_sequence_start s
emit_node_content (EventData.mapping_start s) = emit_mapping_start s
emit_node_content _ = set_emitter_error "expected SCALAR, SEQUENCE-START, MAPPING-START, or ALIAS"

unfoldable pub emit_node : EventData → Bool → Bool → Bool → Bool → E
unfolding set_context emit_node_content
emit_node event root sequence mapping simple_key = do
  set_context root sequence mapping simple_key
  emit_node_content event

unfoldable pub indicator : Bytes → Bool → Bool → Bool → E
unfolding write_indicator
indicator bytes need_whitespace is_whitespace is_indention =
    writing (write_indicator bytes need_whitespace is_whitespace is_indention)

unfoldable pub raise_flow : E
raise_flow e = Outcome.done (record e { flow_level = e.flow_level + 1 })

unfoldable pub lower_flow : E
lower_flow e = Outcome.done (record e { flow_level = e.flow_level - 1 })

-- What opens a flow collection
unfoldable pub open_flow : Bytes → E
unfolding indicator increase_indent raise_flow
open_flow bytes = do indicator bytes true true false; increase_indent true false; raise_flow

-- `if (emitter->canonical && !first)`
unfoldable pub end_comma : Bool → W
unfolding write_indicator write_indent
end_comma first o =
    when (o.canonical && not first) (do write_indicator (b',' ∷ []) false false false; write_indent)
      o

unfoldable pub close_flow : Bytes → Bool → E
unfolding lower_flow pop_indent end_comma indicator pop_state
close_flow bytes first = do
  lower_flow
  pop_indent
  writing (end_comma first)
  indicator bytes false false false
  pop_state

-- `if (emitter->canonical || emitter->column > emitter->best_width)`
unfoldable pub break_flow : W
unfolding is_over write_indent
break_flow o = when (o.canonical || is_over o) write_indent o

unfoldable pub is_sequence_end : EventData → Bool
is_sequence_end EventData.sequence_end = true
is_sequence_end event = false

unfoldable pub is_mapping_end : EventData → Bool
is_mapping_end EventData.mapping_end = true
is_mapping_end event = false

-- What comes before an item of a flow collection
unfoldable pub next_flow : Bool → E
unfolding indicator break_flow
next_flow first = do when (not first) (indicator (b',' ∷ []) false false false); writing break_flow

unfoldable pub emit_flow_sequence_item : EventData → Bool → E
unfolding open_flow close_flow next_flow is_sequence_end push_state emit_node
emit_flow_sequence_item event first = do
  when first (open_flow (b'[' ∷ []))
  if is_sequence_end event then close_flow (b']' ∷ []) first else (do
    next_flow first
    push_state EmitterState.flow_sequence_item
    emit_node event false true false false)

-- A key, simple or behind its indicator, whose flag is that for indention
unfoldable pub emit_simple_key : EmitterState → EventData → E
unfolding push_state emit_node
emit_simple_key s event = do push_state s; emit_node event false false true true

unfoldable pub emit_complex_key : EmitterState → Bool → EventData → E
unfolding indicator push_state emit_node
emit_complex_key s is_indention event = do
  indicator (b'?' ∷ []) true false is_indention
  push_state s
  emit_node event false false true false

unfoldable pub emit_flow_key : EventData → E
unfolding emit_simple_key emit_complex_key check_simple_key
emit_flow_key event e =
    if not e.output.canonical && check_simple_key e
    then emit_simple_key EmitterState.flow_mapping_simple_value event e
    else emit_complex_key EmitterState.flow_mapping_value false event e

unfoldable pub emit_flow_mapping_key : EventData → Bool → E
unfolding open_flow close_flow next_flow is_mapping_end emit_flow_key
emit_flow_mapping_key event first = do
  when first (open_flow (b'{' ∷ []))
  if is_mapping_end event
      then close_flow (b'}' ∷ []) first
      else (do next_flow first; emit_flow_key event)

unfoldable pub write_flow_colon : Bool → E
unfolding break_flow indicator
write_flow_colon simple =
    if simple
    then indicator (b':' ∷ []) false false false
    else (do writing break_flow; indicator (b':' ∷ []) true false false)

unfoldable pub emit_flow_mapping_value : EventData → Bool → E
unfolding write_flow_colon push_state emit_node
emit_flow_mapping_value event simple = do
  write_flow_colon simple
  push_state EmitterState.flow_mapping_key
  emit_node event false false true false

unfoldable pub close_block : E
unfolding pop_indent pop_state
close_block = do pop_indent; pop_state

unfoldable pub open_block_sequence : E
unfolding increase_indent
open_block_sequence e = increase_indent false (e.mapping_context && not e.output.indention) e

unfoldable pub emit_block_sequence_item : EventData → Bool → E
unfolding open_block_sequence close_block is_sequence_end write_indent indicator push_state
    emit_node
emit_block_sequence_item event first = do
  when first open_block_sequence
  if is_sequence_end event then close_block else (do
    writing write_indent
    indicator (b'-' ∷ []) true false true
    push_state EmitterState.block_sequence_item
    emit_node event false true false false)

unfoldable pub emit_block_key : EventData → E
unfolding emit_simple_key emit_complex_key check_simple_key
emit_block_key event e =
    if check_simple_key e
    then emit_simple_key EmitterState.block_mapping_simple_value event e
    else emit_complex_key EmitterState.block_mapping_value true event e

unfoldable pub emit_block_mapping_key : EventData → Bool → E
unfolding increase_indent close_block is_mapping_end write_indent emit_block_key
emit_block_mapping_key event first = do
  when first (increase_indent false false)
  if is_mapping_end event then close_block else (do writing write_indent; emit_block_key event)

unfoldable pub write_block_colon : Bool → E
unfolding write_indent indicator
write_block_colon simple =
    if simple
    then indicator (b':' ∷ []) false false false
    else (do writing write_indent; indicator (b':' ∷ []) true false true)

unfoldable pub emit_block_mapping_value : EventData → Bool → E
unfolding write_block_colon push_state emit_node
emit_block_mapping_value event simple = do
  write_block_colon simple
  push_state EmitterState.block_mapping_key
  emit_node event false false true false
