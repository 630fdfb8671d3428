-- ===== src/Emitter/Safety/Items.antt =====
-- The items of collections, and their place in the grammar of events (original/src/emitter.c).
use port_libyaml.Base.{
  ℕ, zero, suc, Bool, true, false, not, ◌&&◌, ◌||◌, List, [], ◌∷◌, some, ◌≡◌, arith,
}
use port_libyaml.Grammar.{Frame, Phase, take_place, step}
use port_libyaml.Types.Events.{EventData}
use port_libyaml.Emitter.State.{◌>>◌, skip}
use port_libyaml.Emitter.Scalars.{is_over}
use port_libyaml.Emitter.Control.{EmitterState, push_state}
use port_libyaml.Emitter.Emit.{
  emit_node, indicator, open_flow, end_comma, close_flow, break_flow, next_flow, close_block,
}
use port_libyaml.Emitter.Safety.Strings.{AreAscii, AreAscii-Whole}
use port_libyaml.Emitter.Safety.Output.{Safe}
use port_libyaml.Emitter.Safety.Writes.{Safe->>, Safe-when, Safe-reading}
use port_libyaml.Emitter.Safety.Columns.{write_indent-Safe}
use port_libyaml.Emitter.Safety.Tags.{write_indicator-Safe}
use port_libyaml.Emitter.Safety.Places.{Continues, Returns, At}
use port_libyaml.Emitter.Safety.Control.{
  Control, Triple, Triple->>, Triple-weaken, Triple-if, Triple-writing,
}
use port_libyaml.Emitter.Safety.Stacks.{
  pushed, popped, unindented, raised, lowered, push_state-Triple, pop_state-Triple,
  pop_indent-Triple, increase_indent-Triple, raise_flow-Triple, lower_flow-Triple,
}
use port_libyaml.Emitter.Safety.NodePlaces.{IsReady, IsAfter, emit_node-Triple}

-- In a collection of flow style, or of block style: its indentation and its level are there.
abbrev pub Within : Bool → List Frame → Control
Within true fs s ss (suc n) (suc fl) = Returns ss fs n fl
Within false fs s ss (suc n) fl = Returns ss fs n fl
Within style fs s ss n fl = ⊥

-- Before a collection is entered
abbrev pub Before : List Frame → Control
Before fs s ss n fl = Returns ss fs n fl

pub indicator-Triple :
    (P : Control) (c : ℕ) (a b d : Bool) → AreAscii (c ∷ []) → Triple P (indicator (c ∷ []) a b d) P
unfolding indicator
indicator-Triple P c a b d h =
    Triple-writing P (write_indicator-Safe (c ∷ []) a b d (AreAscii-Whole (c ∷ []) h))

pub Triple-skip : (P : Control) → Triple P skip P
Triple-skip P = record { run = λ e i. i }

pub open_flow-Triple :
    (fs : List Frame) (c : ℕ)
    → AreAscii (c ∷ [])
    → Triple (Before fs) (open_flow (c ∷ [])) (Within true fs)
unfolding open_flow
open_flow-Triple fs c h =
    let Q = Within true fs in
    Triple->> (indicator-Triple (Before fs) c true true false h) (
      Triple->> (Triple-weaken (λ s ss n fl r. r) (increase_indent-Triple (raised Q) true false))
        (raise_flow-Triple Q))

end_comma-Safe : (first : Bool) → Safe (end_comma first)
unfolding end_comma
end_comma-Safe first = Safe-reading (λ o. Safe-when (o.canonical && not first) (
    Safe->>
      (write_indicator-Safe (b',' ∷ []) false false false (AreAscii-Whole _ (omega arith, tt)))
      write_indent-Safe))

pub break_flow-Safe : Safe break_flow
unfolding break_flow
break_flow-Safe = Safe-reading (λ o. Safe-when (o.canonical || is_over o) write_indent-Safe)

pub next_flow-Triple : (P : Control) (first : Bool) → Triple P (next_flow first) P
unfolding next_flow
next_flow-Triple P first =
    Triple->>
      (Triple-if (not first) (indicator-Triple P b',' false false false (omega arith, tt))
        (Triple-skip P))
      (Triple-writing P break_flow-Safe)

-- The end of a collection leads back to the state on the stack.
closes :
    (event : EventData) (ph : Phase) (fs : List Frame)
    → step event ph ≡ some (Phase.in_document fs)
    → (s : EmitterState) (ss : List EmitterState) (n fl : ℕ) → Returns ss fs n fl
    → popped (IsAfter event ph) s ss n fl
closes event ph fs e s [] n fl r = absurd (elim r [ ])
closes event ph fs e s (t ∷ ss) n fl r = (Phase.in_document fs, e, At.inside r)

leaves_flow :
    (event : EventData) (ph : Phase) (fs : List Frame)
    → step event ph ≡ some (Phase.in_document fs)
    → (s : EmitterState) (ss : List EmitterState) (n fl : ℕ) → Within true fs s ss n fl
    → lowered (unindented (popped (IsAfter event ph))) s ss n fl
leaves_flow event ph fs e s ss (suc n) (suc fl) r = closes event ph fs e s ss n fl r
leaves_flow event ph fs e s ss zero (suc fl) r = absurd r
leaves_flow event ph fs e s ss zero zero r = absurd r
leaves_flow event ph fs e s ss (suc n) zero r = absurd r

leaves_block :
    (event : EventData) (ph : Phase) (fs : List Frame)
    → step event ph ≡ some (Phase.in_document fs)
    → (s : EmitterState) (ss : List EmitterState) (n fl : ℕ) → Within false fs s ss n fl
    → unindented (popped (IsAfter event ph)) s ss n fl
leaves_block event ph fs e s ss (suc n) fl r = closes event ph fs e s ss n fl r
leaves_block event ph fs e s ss zero fl r = absurd r

pub close_flow-Triple :
    (event : EventData) (ph : Phase) (fs : List Frame) (c : ℕ) (first : Bool)
    → AreAscii (c ∷ [])
    → step event ph ≡ some (Phase.in_document fs)
    → Triple (Within true fs) (close_flow (c ∷ []) first) (IsAfter event ph)
unfolding close_flow
close_flow-Triple event ph fs c first h e =
    let P = popped (IsAfter event ph) in
    Triple-weaken (leaves_flow event ph fs e) (
      Triple->> (lower_flow-Triple (unindented P)) (
        Triple->> (pop_indent-Triple P) (
          Triple->> (Triple-writing P (end_comma-Safe first)) (
            Triple->> (indicator-Triple P c false false false h)
              (pop_state-Triple (IsAfter event ph))))))

pub close_block-Triple :
    (event : EventData) (ph : Phase) (fs : List Frame)
    → step event ph ≡ some (Phase.in_document fs)
    → Triple (Within false fs) close_block (IsAfter event ph)
unfolding close_block
close_block-Triple event ph fs e = Triple-weaken (leaves_block event ph fs e) (
    Triple->> (pop_indent-Triple (popped (IsAfter event ph))) (pop_state-Triple (IsAfter event ph)))

-- A node in the next place of the innermost collection.
returns :
    (style : Bool) (ph : Phase) (f : Frame) (fs : List Frame) (t : EmitterState)
    → Continues t f style
    → take_place ph ≡ some (f ∷ fs)
    → (s : EmitterState) (ss : List EmitterState) (n fl : ℕ) → Within style fs s ss n fl
    → pushed t (IsReady ph) s ss n fl
returns true ph f fs t c e s ss (suc n) (suc fl) r = (f ∷ fs, e, Returns.flow c r)
returns false ph f fs t c e s ss (suc n) fl r = (f ∷ fs, e, Returns.block c r)
returns true ph f fs t c e s ss zero (suc fl) r = absurd r
returns true ph f fs t c e s ss zero zero r = absurd r
returns true ph f fs t c e s ss (suc n) zero r = absurd r
returns false ph f fs t c e s ss zero fl r = absurd r

pub item-Triple :
    (style : Bool) (ph : Phase) (f : Frame) (fs : List Frame) (t : EmitterState) (event : EventData)
    (a b c d : Bool)
    → Continues t f style
    → take_place ph ≡ some (f ∷ fs)
    → Triple (Within style fs) (push_state t >> emit_node event a b c d) (IsAfter event ph)
item-Triple style ph f fs t event a b c d k e =
    Triple-weaken (returns style ph f fs t k e)
      (Triple->> (push_state-Triple (IsReady ph) t) (emit_node-Triple ph event a b c d))
