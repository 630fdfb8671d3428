-- ===== src/Emitter/Safety/NodePlaces.antt =====
-- Nodes, and their place in the grammar of events (original/src/emitter.c).
use port_libyaml.Base.{
  ℕ, Bool, true, false, not, ◌||◌, List, [], ◌∷◌, some, ◌≡◌, refl, Bytes, if◌then◌else◌, ◌==◌,
}
use port_libyaml.Grammar.{Frame, Phase, take_place, node, open_with, step}
use port_libyaml.Types.Events.{EventData, ScalarEvent, SequenceStartEvent, MappingStartEvent}
use port_libyaml.Emitter.Control.{EmitterState, set_state}
use port_libyaml.Emitter.Process.{check_empty_sequence, check_empty_mapping}
use port_libyaml.Emitter.Emit.{
  emit_alias, emit_scalar, sequence_state, emit_sequence_start, mapping_state, emit_mapping_start,
  emit_node_content, emit_node, is_flow_sequence, is_flow_mapping,
}
use port_libyaml.Emitter.Safety.Places.{Opens, Returns, At}
use port_libyaml.Emitter.Safety.Control.{
  Control, Triple, Triple->>, Triple-weaken, Triple-error, Triple-reading,
}
use port_libyaml.Emitter.Safety.Stacks.{
  popped, unindented, pop_state-Triple, pop_indent-Triple, increase_indent-Triple, set_state-Triple,
  set_context-Triple,
}
use port_libyaml.Emitter.Safety.Nodes.{
  process_anchor-Triple, process_tag-Triple, process_scalar-Triple, end_alias-Triple,
  select_scalar_style-Triple,
}

-- A place for a node, with the state to return to on the stack.
abbrev pub IsReady : Phase → Control
IsReady ph s ss n fl = (fs : List Frame) × (take_place ph ≡ some fs) × Returns ss fs n fl

-- The place that the grammar has for the event.
abbrev pub IsAfter : EventData → Phase → Control
IsAfter event ph s ss n fl = (ph' : Phase) × (step event ph ≡ some ph') × At s ss ph' n fl

-- A complete node: the state to return to is next.
leaf :
    (event : EventData) (ph : Phase)
    → ((fs : List Frame) → take_place ph ≡ some fs → step event ph ≡ some (Phase.in_document fs))
    → (s : EmitterState) (ss : List EmitterState) (n fl : ℕ) → IsReady ph s ss n fl
    → popped (IsAfter event ph) s ss n fl
leaf event ph h s [] n fl (fs, e, r) = absurd (elim r [ ])
leaf event ph h s (t ∷ ss) n fl (fs, e, r) = (Phase.in_document fs, h fs e, At.inside r)

module _ (ph : Phase) where
  alias_step :
      (a : Bytes) (fs : List Frame)
      → take_place ph ≡ some fs
      → step (EventData.alias a) ph ≡ some (Phase.in_document fs)
  unfolding step node
  alias_step a fs e = rw (e, step, node) refl

  scalar_step :
      (s : ScalarEvent) (fs : List Frame)
      → take_place ph ≡ some fs
      → step (EventData.scalar s) ph ≡ some (Phase.in_document fs)
  unfolding step node
  scalar_step s fs e = rw (e, step, node) refl

  sequence_step :
      (s : SequenceStartEvent) (fs : List Frame)
      → take_place ph ≡ some fs
      → step (EventData.sequence_start s) ph ≡ some (Phase.in_document (Frame.in_sequence ∷ fs))
  unfolding step open_with
  sequence_step s fs e = rw (e, step, open_with) refl

  mapping_step :
      (s : MappingStartEvent) (fs : List Frame)
      → take_place ph ≡ some fs
      → step (EventData.mapping_start s) ph ≡ some (Phase.in_document (Frame.before_key ∷ fs))
  unfolding step open_with
  mapping_step s fs e = rw (e, step, open_with) refl

  emit_alias-Triple : (a : Bytes) → Triple (IsReady ph) emit_alias (IsAfter (EventData.alias a) ph)
  unfolding emit_alias
  emit_alias-Triple a =
      let Q = IsAfter (EventData.alias a) ph in
      Triple-weaken (leaf (EventData.alias a) ph (alias_step a)) (
        Triple->> (process_anchor-Triple (popped Q))
          (Triple->> (end_alias-Triple (popped Q)) (pop_state-Triple Q)))

  emit_scalar-Triple :
      (s : ScalarEvent) → Triple (IsReady ph) (emit_scalar s) (IsAfter (EventData.scalar s) ph)
  unfolding emit_scalar
  emit_scalar-Triple s =
      let Q = IsAfter (EventData.scalar s) ph in
      let P = popped Q in
      Triple-weaken (leaf (EventData.scalar s) ph (scalar_step s)) (
        Triple->> (select_scalar_style-Triple P s) (
          Triple->> (process_anchor-Triple P) (
            Triple->> (process_tag-Triple P) (
              Triple->> (increase_indent-Triple (unindented P) true false) (
                Triple->> (process_scalar-Triple (unindented P))
                  (Triple->> (pop_indent-Triple P) (pop_state-Triple Q)))))))

  sequence-Opens :
      (s : SequenceStartEvent) (t : EmitterState) (style : Bool)
      → Opens t Frame.in_sequence style
      → Triple (IsReady ph) (set_state t) (IsAfter (EventData.sequence_start s) ph)
  sequence-Opens s t style o =
      Triple-weaken
        (λ u ss n fl (fs, e, r).
          (Phase.in_document (Frame.in_sequence ∷ fs), sequence_step s fs e, At.opening o r))
        (set_state-Triple (IsAfter (EventData.sequence_start s) ph) t)

  mapping-Opens :
      (s : MappingStartEvent) (t : EmitterState) (style : Bool)
      → Opens t Frame.before_key style
      → Triple (IsReady ph) (set_state t) (IsAfter (EventData.mapping_start s) ph)
  mapping-Opens s t style o =
      Triple-weaken
        (λ u ss n fl (fs, e, r).
          (Phase.in_document (Frame.before_key ∷ fs), mapping_step s fs e, At.opening o r))
        (set_state-Triple (IsAfter (EventData.mapping_start s) ph) t)

  choose_sequence :
      (s : SequenceStartEvent) (b : Bool)
      → Triple
          (IsReady ph)
          (set_state (
            if b
            then EmitterState.flow_sequence_first_item
            else EmitterState.block_sequence_first_item))
          (IsAfter (EventData.sequence_start s) ph)
  choose_sequence s true = sequence-Opens s _ true Opens.flow_sequence
  choose_sequence s false = sequence-Opens s _ false Opens.block_sequence

  choose_mapping :
      (s : MappingStartEvent) (b : Bool)
      → Triple
          (IsReady ph)
          (set_state (
            if b
            then EmitterState.flow_mapping_first_key
            else EmitterState.block_mapping_first_key))
          (IsAfter (EventData.mapping_start s) ph)
  choose_mapping s true = mapping-Opens s _ true Opens.flow_mapping
  choose_mapping s false = mapping-Opens s _ false Opens.block_mapping

  emit_sequence_start-Triple :
      (s : SequenceStartEvent)
      → Triple (IsReady ph) (emit_sequence_start s) (IsAfter (EventData.sequence_start s) ph)
  unfolding emit_sequence_start sequence_state
  emit_sequence_start-Triple s = Triple->> (process_anchor-Triple (IsReady ph)) (
      Triple->> (process_tag-Triple (IsReady ph)) (
        Triple-reading (λ e. choose_sequence s (
          not (e.flow_level == 0)
          || e.output.canonical
          || is_flow_sequence s.style
          || check_empty_sequence e.events))))

  emit_mapping_start-Triple :
      (s : MappingStartEvent)
      → Triple (IsReady ph) (emit_mapping_start s) (IsAfter (EventData.mapping_start s) ph)
  unfolding emit_mapping_start mapping_state
  emit_mapping_start-Triple s = Triple->> (process_anchor-Triple (IsReady ph)) (
      Triple->> (process_tag-Triple (IsReady ph)) (
        Triple-reading (λ e. choose_mapping s (
          not (e.flow_level == 0)
          || e.output.canonical
          || is_flow_mapping s.style
          || check_empty_mapping e.events))))

  emit_node_content-Triple :
      (event : EventData) → Triple (IsReady ph) (emit_node_content event) (IsAfter event ph)
  unfolding emit_node_content
  emit_node_content-Triple (EventData.alias a) = emit_alias-Triple a
  emit_node_content-Triple (EventData.scalar s) = emit_scalar-Triple s
  emit_node_content-Triple (EventData.sequence_start s) = emit_sequence_start-Triple s
  emit_node_content-Triple (EventData.mapping_start s) = emit_mapping_start-Triple s
  emit_node_content-Triple EventData.no_event = Triple-error _
  emit_node_content-Triple EventData.stream_end = Triple-error _
  emit_node_content-Triple EventData.sequence_end = Triple-error _
  emit_node_content-Triple EventData.mapping_end = Triple-error _
  emit_node_content-Triple (EventData.stream_start e) = Triple-error _
  emit_node_content-Triple (EventData.document_start d) = Triple-error _
  emit_node_content-Triple (EventData.document_end b) = Triple-error _

  pub emit_node-Triple :
      (event : EventData) (root sequence mapping key : Bool)
      → Triple (IsReady ph) (emit_node event root sequence mapping key) (IsAfter event ph)
  unfolding emit_node
  emit_node-Triple event root sequence mapping key =
      Triple->> (set_context-Triple (IsReady ph) root sequence mapping key)
        (emit_node_content-Triple event)
