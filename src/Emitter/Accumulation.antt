-- ===== src/Emitter/Accumulation.antt =====
-- How many events wait in the queue of the emitter (original/src/emitter.c).
use port_libyaml.Base.{
  ℕ, zero, suc, ◌≤◌, true, List, [], ◌∷◌, ◌≡◌, refl, length, ap, subst, arith, inl, inr, Bool-cases,
}
use port_libyaml.Types.Events.{EventData}
use port_libyaml.Emitter.State.{Outcome}
use port_libyaml.Emitter.Control.{Emitter, enqueue}
use port_libyaml.Emitter.AnalyzeScalar.{analyze_event}
use port_libyaml.Emitter.Queue.{
  state_machine, accumulates, need_more_events, dequeue, emit_event, emit_events, emit,
}

accumulates-bound :
    (n : ℕ) (events : List EventData) → accumulates n events ≡ true → length events ≤ n
unfolding accumulates
accumulates-bound n events e = ground arith

need_more_events-bound :
    (events : List EventData) → need_more_events events ≡ true → length events ≤ 3
unfolding need_more_events
need_more_events-bound [] e = omega arith
need_more_events-bound (EventData.document_start s ∷ events) e =
    omega (arith, accumulates-bound 1 (EventData.document_start s ∷ events) e)
need_more_events-bound (EventData.sequence_start s ∷ events) e =
    omega (arith, accumulates-bound 2 (EventData.sequence_start s ∷ events) e)
need_more_events-bound (EventData.mapping_start s ∷ events) e =
    omega (arith, accumulates-bound 3 (EventData.mapping_start s ∷ events) e)
need_more_events-bound (EventData.no_event ∷ events) e = absurd (ground arith)
need_more_events-bound (EventData.stream_end ∷ events) e = absurd (ground arith)
need_more_events-bound (EventData.sequence_end ∷ events) e = absurd (ground arith)
need_more_events-bound (EventData.mapping_end ∷ events) e = absurd (ground arith)
need_more_events-bound (EventData.stream_start k ∷ events) e = absurd (ground arith)
need_more_events-bound (EventData.document_end b ∷ events) e = absurd (ground arith)
need_more_events-bound (EventData.alias a ∷ events) e = absurd (ground arith)
need_more_events-bound (EventData.scalar s ∷ events) e = absurd (ground arith)

-- What holds of a result.
abbrev IfDone : (Emitter → Type 0) → Outcome Emitter → Type 0
IfDone Q (Outcome.done e) = Q e
IfDone Q r = Unit

behind :
    (Q : Emitter → Type 0) (r : Outcome Emitter) (k : Emitter → Outcome Emitter)
    → ((e : Emitter) → IfDone Q (k e))
    → IfDone Q (elim r [
      | Outcome.done e ↦ k e
      | Outcome.failed e ↦ Outcome.failed e
      | Outcome.fault ↦ Outcome.fault
    ])
behind Q (Outcome.done e) k h = h e
behind Q (Outcome.failed e) k h = tt
behind Q Outcome.fault k h = tt

-- The events of a queue that is left are those of the list that the loop is at.
dequeued :
    (event : EventData) (events : List EventData) (e : Emitter)
    → IfDone (λ e'. e'.events ≡ events) (emit_event event events e)
unfolding emit_event dequeue
dequeued event events e =
    behind _ (analyze_event event e) _
      (λ e'. behind _ (state_machine e'.state event e') _ (λ e''. refl))

then_done :
    (P Q : Emitter → Type 0) (r : Outcome Emitter) (k : Emitter → Outcome Emitter)
    → IfDone P r
    → ((e : Emitter) → P e → IfDone Q (k e))
    → IfDone Q (elim r [
      | Outcome.done e ↦ k e
      | Outcome.failed e ↦ Outcome.failed e
      | Outcome.fault ↦ Outcome.fault
    ])
then_done P Q (Outcome.done e) k p h = h e p
then_done P Q (Outcome.failed e) k p h = tt
then_done P Q Outcome.fault k p h = tt

-- The queue is short enough to wait.
emit_events-bound :
    (fuel : ℕ) (queue : List EventData) (e : Emitter)
    → e.events ≡ queue
    → IfDone (λ e'. length e'.events ≤ 3) (emit_events fuel queue e)
unfolding emit_events
emit_events-bound fuel [] e h = omega (arith, ap length h)
emit_events-bound zero (event ∷ queue) e h = elim (Bool-cases (need_more_events (event ∷ queue))) [
  | inl more ↦
      rw (more, IfDone) (omega (arith, ap length h, need_more_events-bound (event ∷ queue) more))
  | inr enough ↦ rw (enough, IfDone) tt
]
emit_events-bound (suc fuel) (event ∷ queue) e h =
    elim (Bool-cases (need_more_events (event ∷ queue))) [
      | inl more ↦
          rw (more, IfDone)
            (omega (arith, ap length h, need_more_events-bound (event ∷ queue) more))
      | inr enough ↦ rw enough (
          then_done (λ e'. e'.events ≡ queue) _ (emit_event event queue e) (emit_events fuel queue)
            (dequeued event queue e) (λ e' k. emit_events-bound fuel queue e' k))
    ]

done_of :
    (Q : Emitter → Type 0) (r : Outcome Emitter) (e : Emitter)
    → IfDone Q r
    → r ≡ Outcome.done e
    → Q e
done_of Q (Outcome.done e') e q h = subst Q (injective e' e h) q
  where
    injective :
        (x y : Emitter) → ◌≡◌ {A = Outcome Emitter} (Outcome.done x) (Outcome.done y) → x ≡ y
    injective x y h = cc
done_of Q (Outcome.failed e') e q h = absurd (ground arith)
done_of Q Outcome.fault e q h = absurd (ground arith)

-- Where yaml_emitter_emit succeeds, at most three events wait in the queue.
pub emit-bound :
    (event : EventData) (e e' : Emitter) → emit event e ≡ Outcome.done e' → length e'.events ≤ 3
unfolding emit
emit-bound event e e' h =
    done_of (λ x. length x.events ≤ 3) (emit event e) e'
      (behind _ (enqueue event e) _ (λ x. emit_events-bound (length x.events) x.events x refl)) h
