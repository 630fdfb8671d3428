-- ===== src/Dumper/Ready.antt =====
-- The events and the allocations of the dumper (original/src/dumper.c), for an emitter whose queue waits.
use port_libyaml.Base.{
  ℕ, zero, suc, ◌/◌, Bool, true, false, if◌then◌else◌, List, [], ◌∷◌, ◌++◌, Option, none, some,
  Bytes, ◌≡◌, refl, ltb, arith, inl, inr, Bool-cases,
}
use port_libyaml.Types.Events.{EventData}
use port_libyaml.Grammar.{Phase}
use port_libyaml.Emitter.State.{Outcome}
use port_libyaml.Emitter.Control.{Emitter}
use port_libyaml.Emitter.Queue.{emit}
use port_libyaml.Emitter.Safety.Strings.{Whole, AreAscii, AreAscii-Whole}
use port_libyaml.Emitter.Safety.Output.{Holds, Holds->>}
use port_libyaml.Emitter.Safety.Control.{WholeOption}
use port_libyaml.Emitter.Safety.Stacks.{IsStored-same}
use port_libyaml.Emitter.Safety.Analysis.{WholeEvent}
use port_libyaml.Emitter.Safety.Stream.{IsAt}
use port_libyaml.Emitter.Safety.Queue.{WholeEvents, IsEmitted, emit-IsEmitted}
use port_libyaml.Dumper.Anchors.{decimal, pad, generate_anchor}
use port_libyaml.Dumper.Dump.{Dumper, D, issue, allocate, with_anchor}

-- The emitter is at a place of the grammar, and the strings of the events that wait fall into
-- characters.
pub record IsReady (e : Emitter) : Type 0 where
  pub phase : Phase
  pub position : IsAt phase e
  pub waiting : WholeEvents e.events

-- A step that leaves the anchors alone
pub record IsIssued (d d' : Dumper) : Type 0 where
  pub same : d'.anchors ≡ d.anchors
  pub ready : IsReady d'.emitter

issued :
    (d : Dumper) (ph : Phase) (queue : List EventData) (r : Outcome Emitter)
    → Holds (IsEmitted ph queue) r
    → Holds (IsIssued d) (elim r [
      | Outcome.done e ↦ Outcome.done (record d { emitter = e })
      | Outcome.failed e ↦ Outcome.failed (record d { emitter = e })
      | Outcome.fault ↦ Outcome.fault
    ])
issued d ph queue (Outcome.done e) h = record {
  same = refl;
  ready = record { phase = h.phase; position = h.position; waiting = h.waiting };
}
issued d ph queue (Outcome.failed e) h = tt
issued d ph queue Outcome.fault h = absurd h

pub issue-IsIssued :
    (event : EventData) (d : Dumper)
    → WholeEvent event
    → IsReady d.emitter
    → Holds (IsIssued d) (issue event d)
unfolding issue
issue-IsIssued event d w r =
    issued d r.phase (d.emitter.events ++ event ∷ []) (emit event d.emitter)
      (emit-IsEmitted event r.phase d.emitter w r.waiting r.position)

IsReady-memory : (e : Emitter) (m : List Bool) → IsReady e → IsReady (record e { memory = m })
IsReady-memory e m r =
    let i = r.position in
    record {
      phase = r.phase;
      position = record {
        stored = IsStored-same e _ refl refl refl refl (i.stored);
        output = i.output;
        place = i.place;
      };
      waiting = r.waiting;
    }

allocated :
    (d : Dumper) (m : List Bool)
    → IsReady d.emitter
    → Holds (IsIssued d) (elim m [
      | [] ↦ Outcome.done d
      | b ∷ m' ↦
          let d' = record d { emitter = record (d.emitter) { memory = m' } } in
          if b then Outcome.done d' else Outcome.failed d'
    ])
allocated d [] r = record { same = refl; ready = r }
allocated d (true ∷ m) r = record { same = refl; ready = IsReady-memory d.emitter m r }
allocated d (false ∷ m) r = tt

pub allocate-IsIssued : (d : Dumper) → IsReady d.emitter → Holds (IsIssued d) (allocate d)
unfolding allocate
allocate-IsIssued d r = allocated d d.emitter.memory r

-- The names of the anchors
AreAscii-append : (xs ys : List ℕ) → AreAscii xs → AreAscii ys → AreAscii (xs ++ ys)
AreAscii-append [] ys a b = b
AreAscii-append (x ∷ xs) ys a b = (a.0, AreAscii-append xs ys a.1 b)

decimal-AreAscii : (fuel n : ℕ) → AreAscii (decimal fuel n)
unfolding decimal
decimal-AreAscii zero n = tt
decimal-AreAscii (suc fuel) n = elim (Bool-cases (ltb n 10)) [
  | inl less ↦ rw (less, decimal) (ground arith)
  | inr more ↦
      rw (more, decimal)
        (AreAscii-append (decimal fuel (n / 10)) _ (decimal-AreAscii fuel (n / 10))
          (omega arith, tt))
]

pad-AreAscii : (os : List ℕ) → AreAscii os → AreAscii (pad os)
pad-AreAscii [] h = h
pad-AreAscii (a ∷ []) h = (omega arith, (omega arith, h))
pad-AreAscii (a ∷ b ∷ []) h = (omega arith, h)
pad-AreAscii (a ∷ b ∷ c ∷ os) h = h

generate_anchor-Whole : (id : ℕ) → Whole (generate_anchor id)
unfolding generate_anchor
generate_anchor-Whole id =
    AreAscii-Whole _
      (omega arith, (omega arith, pad-AreAscii (decimal 10 id) (decimal-AreAscii 10 id)))

-- An anchor that is there when its number is not 0
abbrev pub Named : ℕ → Option Bytes → Type 0
Named zero anchor = Unit
Named (suc n) none = ⊥
Named (suc n) (some text) = Unit

pub with_anchor-Holds :
    (Q : Dumper → Type 0) (n : ℕ) (k : Option Bytes → D) (d : Dumper)
    → IsReady d.emitter
    → ((anchor : Option Bytes) (d' : Dumper)
        → WholeOption anchor
        → Named n anchor
        → IsIssued d d'
        → Holds Q (k anchor d'))
    → Holds Q (with_anchor n k d)
unfolding with_anchor
with_anchor-Holds Q zero k d r f = f none d tt tt (record { same = refl; ready = r })
with_anchor-Holds Q (suc n) k d r f =
    Holds->> (IsIssued d) Q (allocate d) (k (some (generate_anchor (suc n))))
      (allocate-IsIssued d r)
      (λ d' i. f (some (generate_anchor (suc n))) d' (generate_anchor-Whole (suc n)) tt i)
