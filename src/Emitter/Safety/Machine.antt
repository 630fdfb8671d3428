-- ===== src/Emitter/Safety/Machine.antt =====
-- yaml_emitter_emit, from the start of the stream to its end (original/src/emitter.c).
use port_libyaml.Base.{ℕ, suc, Bool, true, false, List, ◌∷◌, ◌≡◌}
use port_libyaml.Types.Events.{EventData}
use port_libyaml.Grammar.{Frame, Phase}
use port_libyaml.Emitter.Control.{EmitterState}
use port_libyaml.Emitter.Queue.{state_machine}
use port_libyaml.Emitter.Safety.Places.{Opens, Continues, Returns, At}
use port_libyaml.Emitter.Safety.Control.{Control, Triple, Triple-weaken, Triple-error}
use port_libyaml.Emitter.Safety.NodePlaces.{IsAfter}
use port_libyaml.Emitter.Safety.Items.{Within}
use port_libyaml.Emitter.Safety.Collections.{
  emit_flow_sequence_item-Triple, emit_flow_mapping_key-Triple, emit_flow_mapping_value-Triple,
  emit_block_sequence_item-Triple, emit_block_mapping_key-Triple, emit_block_mapping_value-Triple,
}
use port_libyaml.Emitter.Safety.Documents.{
  WholeDirectives, emit_document_start-Triple, emit_document_end-Triple,
  emit_document_content-Triple,
}
use port_libyaml.Emitter.Safety.Analysis.{WholeEvent}

-- The control is this.
abbrev pub Same : List EmitterState → ℕ → ℕ → Control
Same ss n fl s' ss' n' fl' = (ss' ≡ ss) × (n' ≡ n) × (fl' ≡ fl)

abbrev pub Started : Phase → Type 0
Started Phase.before_stream = ⊥
Started ph = Unit

directives_of : (event : EventData) → WholeEvent event → WholeDirectives event
directives_of EventData.no_event w = tt
directives_of EventData.stream_end w = tt
directives_of EventData.sequence_end w = tt
directives_of EventData.mapping_end w = tt
directives_of (EventData.stream_start k) w = tt
directives_of (EventData.document_start d) w = w
directives_of (EventData.document_end b) w = tt
directives_of (EventData.alias a) w = tt
directives_of (EventData.scalar s) w = tt
directives_of (EventData.sequence_start s) w = tt
directives_of (EventData.mapping_start s) w = tt

module _ (event : EventData) (w : WholeEvent event) where
  opening_machine :
      (s : EmitterState) (f : Frame) (style : Bool) (ss : List EmitterState) (fs : List Frame)
      (n fl : ℕ)
      → Opens s f style
      → Returns ss fs n fl
      → Triple (Same ss n fl) (state_machine s event) (IsAfter event (Phase.in_document (f ∷ fs)))
  unfolding state_machine
  opening_machine _ _ _ ss fs n fl Opens.flow_sequence r =
      Triple-weaken (λ s' ss' n' fl' (h, i, j). rw (h, i, j) r)
        (emit_flow_sequence_item-Triple event fs true)
  opening_machine _ _ _ ss fs n fl Opens.flow_mapping r =
      Triple-weaken (λ s' ss' n' fl' (h, i, j). rw (h, i, j) r)
        (emit_flow_mapping_key-Triple event fs true)
  opening_machine _ _ _ ss fs n fl Opens.block_sequence r =
      Triple-weaken (λ s' ss' n' fl' (h, i, j). rw (h, i, j) r)
        (emit_block_sequence_item-Triple event fs true)
  opening_machine _ _ _ ss fs n fl Opens.block_mapping r =
      Triple-weaken (λ s' ss' n' fl' (h, i, j). rw (h, i, j) r)
        (emit_block_mapping_key-Triple event fs true)

  within_flow :
      (fs : List Frame) (ss : List EmitterState) (n fl : ℕ)
      → Returns ss fs n fl
      → (s' : EmitterState) (ss' : List EmitterState) (n' fl' : ℕ)
      → Same ss (suc n) (suc fl) s' ss' n' fl'
      → Within true fs s' ss' n' fl'
  within_flow fs ss n fl r s' ss' n' fl' (h, i, j) = rw (h, i, j) r

  within_block :
      (fs : List Frame) (ss : List EmitterState) (n fl : ℕ)
      → Returns ss fs n fl
      → (s' : EmitterState) (ss' : List EmitterState) (n' fl' : ℕ)
      → Same ss (suc n) fl s' ss' n' fl'
      → Within false fs s' ss' n' fl'
  within_block fs ss n fl r s' ss' n' fl' (h, i, j) = rw (h, i, j) r

  flow_machine :
      (s : EmitterState) (f : Frame) (ss : List EmitterState) (fs : List Frame) (n fl : ℕ)
      → Continues s f true
      → Returns ss fs n fl
      → Triple
          (Same ss (suc n) (suc fl))
          (state_machine s event)
          (IsAfter event (Phase.in_document (f ∷ fs)))
  unfolding state_machine
  flow_machine _ _ ss fs n fl Continues.flow_item r =
      Triple-weaken (within_flow fs ss n fl r) (emit_flow_sequence_item-Triple event fs false)
  flow_machine _ _ ss fs n fl Continues.flow_key r =
      Triple-weaken (within_flow fs ss n fl r) (emit_flow_mapping_key-Triple event fs false)
  flow_machine _ _ ss fs n fl Continues.flow_simple_value r =
      Triple-weaken (within_flow fs ss n fl r) (emit_flow_mapping_value-Triple event fs true)
  flow_machine _ _ ss fs n fl Continues.flow_value r =
      Triple-weaken (within_flow fs ss n fl r) (emit_flow_mapping_value-Triple event fs false)

  block_machine :
      (s : EmitterState) (f : Frame) (ss : List EmitterState) (fs : List Frame) (n fl : ℕ)
      → Continues s f false
      → Returns ss fs n fl
      → Triple
          (Same ss (suc n) fl)
          (state_machine s event)
          (IsAfter event (Phase.in_document (f ∷ fs)))
  unfolding state_machine
  block_machine _ _ ss fs n fl Continues.block_item r =
      Triple-weaken (within_block fs ss n fl r) (emit_block_sequence_item-Triple event fs false)
  block_machine _ _ ss fs n fl Continues.block_key r =
      Triple-weaken (within_block fs ss n fl r) (emit_block_mapping_key-Triple event fs false)
  block_machine _ _ ss fs n fl Continues.block_simple_value r =
      Triple-weaken (within_block fs ss n fl r) (emit_block_mapping_value-Triple event fs true)
  block_machine _ _ ss fs n fl Continues.block_value r =
      Triple-weaken (within_block fs ss n fl r) (emit_block_mapping_value-Triple event fs false)

  pub state_machine-Triple :
      (s : EmitterState) (ss : List EmitterState) (ph : Phase) (n fl : ℕ)
      → At s ss ph n fl
      → Started ph
      → Triple (Same ss n fl) (state_machine s event) (IsAfter event ph)
  unfolding state_machine
  state_machine-Triple _ _ _ _ _ At.before_stream h = absurd h
  state_machine-Triple _ _ _ _ _ At.first_document h =
      emit_document_start-Triple event true (directives_of event w)
  state_machine-Triple _ _ _ _ _ At.next_document h =
      emit_document_start-Triple event false (directives_of event w)
  state_machine-Triple _ _ _ _ _ At.before_root h = emit_document_content-Triple event
  state_machine-Triple _ _ _ _ _ At.after_stream h =
      Triple-error "expected nothing after STREAM-END"
  state_machine-Triple s ss _ n fl (At.opening {f = f} {style = style} {fs = fs} o r) h =
      opening_machine s f style ss fs n fl o r
  state_machine-Triple _ _ _ _ _ (At.inside Returns.bottom) h = emit_document_end-Triple event
  state_machine-Triple s ss _ _ _ (At.inside (Returns.flow {f = f} {fs = fs} {n = n} {fl = fl} c r))
        h =
      flow_machine s f ss fs n fl c r
  state_machine-Triple s ss _ _ _
        (At.inside (Returns.block {f = f} {fs = fs} {n = n} {fl = fl} c r)) h =
      block_machine s f ss fs n fl c r
