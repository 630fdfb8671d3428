-- ===== src/Emitter/Safety/Collections.antt =====
-- The states of collections (original/src/emitter.c).
use port_libyaml.Base.{Bool, true, false, not, ◌&&◌, List, ◌∷◌, some, ◌≡◌, refl, arith}
use port_libyaml.Grammar.{Frame, Phase, take_place, end_sequence, end_mapping, step}
use port_libyaml.Types.Events.{EventData}
use port_libyaml.Emitter.State.{when}
use port_libyaml.Emitter.Control.{EmitterState, E, increase_indent}
use port_libyaml.Emitter.Process.{check_simple_key}
use port_libyaml.Emitter.Emit.{
  is_sequence_end, is_mapping_end, emit_flow_sequence_item, emit_simple_key, emit_complex_key,
  emit_flow_key, emit_flow_mapping_key, write_flow_colon, emit_flow_mapping_value,
  open_block_sequence, emit_block_sequence_item, emit_block_key, emit_block_mapping_key,
  write_block_colon, emit_block_mapping_value,
}
use port_libyaml.Emitter.Safety.Columns.{write_indent-Safe}
use port_libyaml.Emitter.Safety.Places.{Continues}
use port_libyaml.Emitter.Safety.Control.{
  Control, Triple, Triple->>, Triple-if, Triple-decide, Triple-test, Triple-reading, Triple-writing,
}
use port_libyaml.Emitter.Safety.Stacks.{increase_indent-Triple}
use port_libyaml.Emitter.Safety.NodePlaces.{IsAfter}
use port_libyaml.Emitter.Safety.Items.{
  Within, Before, indicator-Triple, Triple-skip, open_flow-Triple, next_flow-Triple,
  close_flow-Triple, close_block-Triple, item-Triple, break_flow-Safe,
}

-- Before the first item, or a later one.
abbrev pub Start : Bool → Bool → List Frame → Control
Start true style fs s ss n fl = Before fs s ss n fl
Start false style fs s ss n fl = Within style fs s ss n fl

begins :
    (first style : Bool) (fs : List Frame) {m : E}
    → Triple (Before fs) m (Within style fs)
    → Triple (Start first style fs) (when first m) (Within style fs)
begins true style fs t = t
begins false style fs t = Triple-skip (Within style fs)

sequence_ends :
    (event : EventData) (fs : List Frame)
    → is_sequence_end event ≡ true
    → step event (Phase.in_document (Frame.in_sequence ∷ fs)) ≡ some (Phase.in_document fs)
unfolding is_sequence_end step end_sequence
sequence_ends event fs e = ground arith

mapping_ends :
    (event : EventData) (fs : List Frame)
    → is_mapping_end event ≡ true
    → step event (Phase.in_document (Frame.before_key ∷ fs)) ≡ some (Phase.in_document fs)
unfolding is_mapping_end step end_mapping
mapping_ends event fs e = ground arith

module _ (event : EventData) (fs : List Frame) where
  pub emit_flow_sequence_item-Triple :
      (first : Bool)
      → Triple
          (Start first true fs)
          (emit_flow_sequence_item event first)
          (IsAfter event (Phase.in_document (Frame.in_sequence ∷ fs)))
  unfolding emit_flow_sequence_item take_place
  emit_flow_sequence_item-Triple first =
      let ph = Phase.in_document (Frame.in_sequence ∷ fs) in
      Triple->> (begins first true fs (open_flow-Triple fs b'[' (omega arith, tt))) (
        Triple-decide (is_sequence_end event)
          (λ e.
            close_flow-Triple event ph fs b']' first (omega arith, tt) (sequence_ends event fs e))
          (Triple->> (next_flow-Triple (Within true fs) first) (
            item-Triple true ph Frame.in_sequence fs _ event false true false false
              Continues.flow_item refl)))

  emit_simple_key-Triple :
      (style : Bool) (t : EmitterState)
      → Continues t Frame.before_value style
      → Triple
          (Within style fs)
          (emit_simple_key t event)
          (IsAfter event (Phase.in_document (Frame.before_key ∷ fs)))
  unfolding emit_simple_key take_place
  emit_simple_key-Triple style t c =
      item-Triple style (Phase.in_document (Frame.before_key ∷ fs)) Frame.before_value fs t event
        false false true true c refl

  emit_complex_key-Triple :
      (style : Bool) (t : EmitterState) (b : Bool)
      → Continues t Frame.before_value style
      → Triple
          (Within style fs)
          (emit_complex_key t b event)
          (IsAfter event (Phase.in_document (Frame.before_key ∷ fs)))
  unfolding emit_complex_key take_place
  emit_complex_key-Triple style t b c =
      Triple->> (indicator-Triple (Within style fs) b'?' true false b (omega arith, tt)) (
        item-Triple style (Phase.in_document (Frame.before_key ∷ fs)) Frame.before_value fs t event
          false false true false c refl)

  emit_flow_key-Triple :
      Triple
        (Within true fs)
        (emit_flow_key event)
        (IsAfter event (Phase.in_document (Frame.before_key ∷ fs)))
  unfolding emit_flow_key
  emit_flow_key-Triple =
      Triple-test (λ e. not e.output.canonical && check_simple_key e)
        (emit_simple_key-Triple true EmitterState.flow_mapping_simple_value
          Continues.flow_simple_value)
        (emit_complex_key-Triple true EmitterState.flow_mapping_value false Continues.flow_value)

  pub emit_flow_mapping_key-Triple :
      (first : Bool)
      → Triple
          (Start first true fs)
          (emit_flow_mapping_key event first)
          (IsAfter event (Phase.in_document (Frame.before_key ∷ fs)))
  unfolding emit_flow_mapping_key
  emit_flow_mapping_key-Triple first =
      let ph = Phase.in_document (Frame.before_key ∷ fs) in
      Triple->> (begins first true fs (open_flow-Triple fs b'{' (omega arith, tt))) (
        Triple-decide (is_mapping_end event)
          (λ e.
            close_flow-Triple event ph fs b'}' first (omega arith, tt) (mapping_ends event fs e))
          (Triple->> (next_flow-Triple (Within true fs) first) emit_flow_key-Triple))

  write_flow_colon-Triple : (P : Control) (simple : Bool) → Triple P (write_flow_colon simple) P
  unfolding write_flow_colon
  write_flow_colon-Triple P simple =
      Triple-if simple (indicator-Triple P b':' false false false (omega arith, tt)) (
        Triple->> (Triple-writing P break_flow-Safe)
          (indicator-Triple P b':' true false false (omega arith, tt)))

  pub emit_flow_mapping_value-Triple :
      (simple : Bool)
      → Triple
          (Within true fs)
          (emit_flow_mapping_value event simple)
          (IsAfter event (Phase.in_document (Frame.before_value ∷ fs)))
  unfolding emit_flow_mapping_value take_place
  emit_flow_mapping_value-Triple simple =
      Triple->> (write_flow_colon-Triple (Within true fs) simple) (
        item-Triple true (Phase.in_document (Frame.before_value ∷ fs)) Frame.before_key fs
          EmitterState.flow_mapping_key event false false true false Continues.flow_key refl)

  open_block-Triple :
      (indentless : Bool) → Triple (Before fs) (increase_indent false indentless) (Within false fs)
  open_block-Triple indentless = increase_indent-Triple (Within false fs) false indentless

  open_block_sequence-Triple : Triple (Before fs) open_block_sequence (Within false fs)
  unfolding open_block_sequence
  open_block_sequence-Triple =
      Triple-reading (λ e. open_block-Triple (e.mapping_context && not e.output.indention))

  pub emit_block_sequence_item-Triple :
      (first : Bool)
      → Triple
          (Start first false fs)
          (emit_block_sequence_item event first)
          (IsAfter event (Phase.in_document (Frame.in_sequence ∷ fs)))
  unfolding emit_block_sequence_item take_place
  emit_block_sequence_item-Triple first =
      let ph = Phase.in_document (Frame.in_sequence ∷ fs) in
      Triple->> (begins first false fs open_block_sequence-Triple) (
        Triple-decide (is_sequence_end event)
          (λ e. close_block-Triple event ph fs (sequence_ends event fs e))
          (Triple->> (Triple-writing (Within false fs) write_indent-Safe) (
            Triple->> (indicator-Triple (Within false fs) b'-' true false true (omega arith, tt)) (
              item-Triple false ph Frame.in_sequence fs _ event false true false false
                Continues.block_item refl))))

  emit_block_key-Triple :
      Triple
        (Within false fs)
        (emit_block_key event)
        (IsAfter event (Phase.in_document (Frame.before_key ∷ fs)))
  unfolding emit_block_key
  emit_block_key-Triple =
      Triple-test check_simple_key
        (emit_simple_key-Triple false EmitterState.block_mapping_simple_value
          Continues.block_simple_value)
        (emit_complex_key-Triple false EmitterState.block_mapping_value true Continues.block_value)

  pub emit_block_mapping_key-Triple :
      (first : Bool)
      → Triple
          (Start first false fs)
          (emit_block_mapping_key event first)
          (IsAfter event (Phase.in_document (Frame.before_key ∷ fs)))
  unfolding emit_block_mapping_key
  emit_block_mapping_key-Triple first =
      let ph = Phase.in_document (Frame.before_key ∷ fs) in
      Triple->> (begins first false fs (open_block-Triple false)) (
        Triple-decide (is_mapping_end event)
          (λ e. close_block-Triple event ph fs (mapping_ends event fs e))
          (Triple->> (Triple-writing (Within false fs) write_indent-Safe) emit_block_key-Triple))

  write_block_colon-Triple : (P : Control) (simple : Bool) → Triple P (write_block_colon simple) P
  unfolding write_block_colon
  write_block_colon-Triple P simple =
      Triple-if simple (indicator-Triple P b':' false false false (omega arith, tt)) (
        Triple->> (Triple-writing P write_indent-Safe)
          (indicator-Triple P b':' true false true (omega arith, tt)))

  pub emit_block_mapping_value-Triple :
      (simple : Bool)
      → Triple
          (Within false fs)
          (emit_block_mapping_value event simple)
          (IsAfter event (Phase.in_document (Frame.before_value ∷ fs)))
  unfolding emit_block_mapping_value take_place
  emit_block_mapping_value-Triple simple =
      Triple->> (write_block_colon-Triple (Within false fs) simple) (
        item-Triple false (Phase.in_document (Frame.before_value ∷ fs)) Frame.before_key fs
          EmitterState.block_mapping_key event false false true false Continues.block_key refl)
