-- ===== src/Emitter/Safety/Queue.antt =====
-- yaml_emitter_emit on the queue of events (original/src/emitter.c).
use port_libyaml.Base.{
  ℕ, zero, suc, ◌≤◌, Bool, true, false, List, [], ◌∷◌, ◌++◌, some, ◌≡◌, ap, refl, length,
  if◌then◌else◌, arith, inl, inr, Bool-cases, subst, sym,
}
use port_libyaml.Types.Events.{EventData}
use port_libyaml.Grammar.{Phase, step, steps}
use port_libyaml.Emitter.State.{Outcome}
use port_libyaml.Emitter.Control.{Emitter, memory_error, require, enqueue}
use port_libyaml.Emitter.Queue.{need_more_events, emit_event, emit_events, emit}
use port_libyaml.Emitter.Safety.Output.{Holds, Holds->>}
use port_libyaml.Emitter.Safety.Stacks.{IsStored-same}
use port_libyaml.Emitter.Safety.Analyzes.{Holds-weaken}
use port_libyaml.Emitter.Safety.Analysis.{WholeEvent}
use port_libyaml.Emitter.Safety.Stream.{IsAt, emit_event-IsStepped}

abbrev pub WholeEvents : List EventData → Type 0
WholeEvents [] = Unit
WholeEvents (event ∷ events) = WholeEvent event × WholeEvents events

-- Some events of the queue were emitted, as the grammar has them; the others wait.
pub record IsEmitted (ph : Phase) (queue : List EventData) (e : Emitter) : Type 0 where
  pub emitted : List EventData
  pub splits : queue ≡ emitted ++ e.events
  pub phase : Phase
  pub follows : steps emitted ph ≡ some phase
  pub position : IsAt phase e
  pub waiting : WholeEvents e.events

none-IsEmitted :
    (ph : Phase) (e : Emitter) (queue : List EventData)
    → e.events ≡ queue
    → WholeEvents queue
    → IsAt ph e
    → IsEmitted ph queue e
unfolding steps
none-IsEmitted ph e queue h w i = record {
  emitted = [];
  splits = sym h;
  phase = ph;
  follows = refl;
  position = i;
  waiting = subst WholeEvents (sym h) w;
}

steps_cons :
    (event : EventData) (events : List EventData) (ph ph' ph'' : Phase)
    → step event ph ≡ some ph'
    → steps events ph' ≡ some ph''
    → steps (event ∷ events) ph ≡ some ph''
unfolding steps
steps_cons event events ph ph' ph'' h k = rw (h, steps) k

one-IsEmitted :
    (event : EventData) (queue : List EventData) (ph ph' : Phase) (e : Emitter)
    → step event ph ≡ some ph'
    → IsEmitted ph' queue e
    → IsEmitted ph (event ∷ queue) e
one-IsEmitted event queue ph ph' e h i = record {
  emitted = event ∷ i.emitted;
  splits = ap (λ x. event ∷ x) (i.splits);
  phase = i.phase;
  follows = steps_cons event (i.emitted) ph ph' (i.phase) h (i.follows);
  position = i.position;
  waiting = i.waiting;
}

emit_events-IsEmitted :
    (fuel : ℕ) (queue : List EventData) (ph : Phase) (e : Emitter)
    → length queue ≤ fuel
    → e.events ≡ queue
    → WholeEvents queue
    → IsAt ph e
    → Holds (IsEmitted ph queue) (emit_events fuel queue e)
unfolding emit_events
emit_events-IsEmitted fuel [] ph e h k w i = none-IsEmitted ph e [] k w i
emit_events-IsEmitted zero (event ∷ queue) ph e h k w i = absurd (omega arith)
emit_events-IsEmitted (suc fuel) (event ∷ queue) ph e h k w i =
    elim (Bool-cases (need_more_events (event ∷ queue))) [
      | inl more ↦ rw (more, Holds) (none-IsEmitted ph e (event ∷ queue) k w i)
      | inr enough ↦ rw enough (
          Holds->> _ (IsEmitted ph (event ∷ queue)) (emit_event event queue e)
            (emit_events fuel queue) (emit_event-IsStepped event queue ph e w.0 i)
            (λ e' (s, l).
              Holds-weaken (IsEmitted s.phase queue) (IsEmitted ph (event ∷ queue))
                (emit_events fuel queue e')
                (λ e'' j. one-IsEmitted event queue ph s.phase e'' (s.follows) j)
                (emit_events-IsEmitted fuel queue (s.phase) e' (omega arith) l w.1 (s.position))))
    ]

WholeEvents-append :
    (queue : List EventData) (event : EventData)
    → WholeEvents queue
    → WholeEvent event
    → WholeEvents (queue ++ event ∷ [])
WholeEvents-append [] event w v = (v, tt)
WholeEvents-append (x ∷ queue) event w v = (w.0, WholeEvents-append queue event w.1 v)

after_require :
    (ph : Phase) (queue : List EventData) (event : EventData) (e : Emitter) (m : List Bool)
    → e.events ≡ queue
    → WholeEvent event
    → WholeEvents queue
    → IsAt ph e
    → Holds
        (λ e'. IsAt ph e' × (e'.events ≡ queue))
        (elim m [
          | [] ↦ Outcome.done e
          | b ∷ m' ↦
              let e' = record e { memory = m' } in if b then Outcome.done e' else memory_error e'
        ])
unfolding memory_error
after_require ph queue event e [] h v w i = (i, h)
after_require ph queue event e (true ∷ m) h v w i = (
  record {
    stored = IsStored-same e _ refl refl refl refl (i.stored);
    output = i.output;
    place = i.place;
  },
  h,
)
after_require ph queue event e (false ∷ m) h v w i = tt

-- yaml_emitter_emit on an emitter at a place in the grammar of events, whose queue waits there and whose
-- raw buffer is empty, and an event, where all strings fall into characters: it ends, no stack runs
-- empty, no string is read past its end, neither the buffer nor the raw buffer runs over, and what is in
-- the buffer falls into characters. Where it succeeds, the events that it took from the queue, which has
-- the new one last, are steps of the grammar from that place, the emitter is at the place behind them,
-- and its raw buffer is empty.
pub emit-IsEmitted :
    (event : EventData) (ph : Phase) (e : Emitter)
    → WholeEvent event
    → WholeEvents e.events
    → IsAt ph e
    → Holds (IsEmitted ph (e.events ++ event ∷ [])) (emit event e)
unfolding emit enqueue require
emit-IsEmitted event ph e v w i =
    let queue = e.events ++ event ∷ [] in
    Holds->> (λ e'. IsAt ph e' × (e'.events ≡ queue)) (IsEmitted ph queue) (enqueue event e) _
      (Holds->> _ _ (require e) _ (after_require ph e.events event e e.memory refl v w i)
        (λ e' (j, h). (
          record {
            stored = IsStored-same e' _ refl refl refl refl (j.stored);
            output = j.output;
            place = j.place;
          },
          ap (λ x. x ++ event ∷ []) h,
        )))
      (λ e' (j, h).
        subst (λ q. Holds (IsEmitted ph q) (emit_events (length e'.events) e'.events e')) h
          (emit_events-IsEmitted (length e'.events) e'.events ph e' (omega arith) refl
            (subst WholeEvents (sym h) (WholeEvents-append e.events event w v)) j))
