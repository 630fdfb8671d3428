-- ===== src/Dumper/Locks.antt =====
-- The two walks over a document, yaml_emitter_anchor_node and yaml_emitter_dump_node
-- (original/src/dumper.c), in step: the second serializes a node where the first visited it first.
use port_libyaml.Base.{
  ℕ, zero, suc, ◌≤◌, ◌<◌, Bool, true, false, List, [], ◌∷◌, Option, none, some, ◌≡◌, refl, ◌∙◌,
  length, arith,
}
use port_libyaml.Types.Events.{EventData}
use port_libyaml.Emitter.State.{Outcome}
use port_libyaml.Emitter.Safety.Output.{Holds, Holds->>}
use port_libyaml.Emitter.Safety.Analyzes.{Holds-weaken}
use port_libyaml.Emitter.Safety.Analysis.{WholeEvent}
use port_libyaml.Dumper.Anchors.{AnchorInfo, Anchoring, anchor_each}
use port_libyaml.Dumper.Dump.{Dumper, D, issue, dump_each}
use port_libyaml.Dumper.Entries.{IsIndex, Zip, Zip-length, Zip-refl, Zip-trans}
use port_libyaml.Dumper.Visits.{
  Numbered, Passed, fresh, fresh-Passed, AreIndices, Reaches, Ends, anchor_each-Reaches,
}
use port_libyaml.Dumper.Ready.{IsReady, IsIssued, issue-IsIssued}

-- The dumper keeps the counts and the anchors.
pub record Kept (x y : AnchorInfo) : Type 0 where
  pub references : y.references ≡ x.references
  pub anchor : y.anchor ≡ x.anchor

pub Kept-refl : (x : AnchorInfo) → Kept x x
Kept-refl x = record { references = refl; anchor = refl }

Kept-trans : (x y z : AnchorInfo) → Kept x y → Kept y z → Kept x z
Kept-trans x y z p q = record {
  references = q.references ∙ p.references;
  anchor = q.anchor ∙ p.anchor;
}

abbrev pub visited : ℕ → Bool
visited zero = false
visited (suc n) = true

-- An entry of the first walk, and the entry of the second walk when it has got as far
pub record Locked (x y : AnchorInfo) : Type 0 where
  pub serialized : y.serialized ≡ visited x.references

-- An entry of the first walk, and the entry when that walk is over
pub record Settled (x y : AnchorInfo) : Type 0 where
  pub bound : x.references ≤ y.references
  pub numbered : Numbered y

Passed-Settled : (x y z : AnchorInfo) → Passed x y → Settled y z → Settled x z
Passed-Settled x y z p s =
    let a = p.grows in let b = s.bound in record { bound = omega arith; numbered = s.numbered }

Settled-Kept : (x y z : AnchorInfo) → Settled x y → Kept y z → Settled x z
Settled-Kept x y z s k =
    let a = s.bound in
    let b = k.references in
    let c = k.anchor in
    record { bound = omega arith; numbered = λ h. let i = s.numbered (omega arith) in omega arith }

-- The second walk has done what the first did to its entries, from the entries `infos`.
pub record IsDumped (xs infos : List AnchorInfo) (d : Dumper) : Type 0 where
  pub after : List AnchorInfo
  pub found : d.anchors ≡ some after
  pub kept : Zip Kept infos after
  pub locked : Zip Locked xs after
  pub ready : IsReady d.emitter

pub IsDumped-after :
    (xs infos infos' : List AnchorInfo) (d : Dumper)
    → Zip Kept infos infos'
    → IsDumped xs infos' d
    → IsDumped xs infos d
IsDumped-after xs infos infos' d k i = record {
  after = i.after;
  found = i.found;
  kept = Zip-trans Kept Kept Kept Kept-trans infos infos' i.after k i.kept;
  locked = i.locked;
  ready = i.ready;
}

-- Where the first walk ends, with entries that settle to `infos`, the second is safe, and in step.
abbrev pub Leads : List AnchorInfo → Outcome Dumper → Option Anchoring → Type 0
Leads infos r none = Unit
Leads infos r (some a) = Zip Settled a.anchors infos → Holds (IsDumped a.anchors infos) r

pub Leads-Kept :
    (infos infos' : List AnchorInfo) (r : Outcome Dumper) (o : Option Anchoring)
    → Zip Kept infos infos'
    → Leads infos' r o
    → Leads infos r o
Leads-Kept infos infos' r none k l = tt
Leads-Kept infos infos' r (some a) k l = λ s.
    Holds-weaken (IsDumped a.anchors infos') (IsDumped a.anchors infos) r
      (λ d i. IsDumped-after a.anchors infos infos' d k i)
      (l (Zip-trans Settled Kept Settled Settled-Kept a.anchors infos infos' s k))

-- A step of both walks, and then the rest
Leads-next :
    (xs infos : List AnchorInfo) (r : Outcome Dumper) (k : D) (o : Option Anchoring)
    → (Zip Settled xs infos → Holds (IsDumped xs infos) r)
    → Reaches xs o
    → ((d : Dumper) (i : IsDumped xs infos d) → Leads i.after (k d) o)
    → Leads infos
        (elim r [
          | Outcome.done d ↦ k d
          | Outcome.failed d ↦ Outcome.failed d
          | Outcome.fault ↦ Outcome.fault
        ])
        o
Leads-next xs infos r k none h p f = tt
Leads-next xs infos r k (some a) h p f = λ s.
    Holds->> (IsDumped xs infos) (IsDumped a.anchors infos) r k
      (h (Zip-trans Passed Settled Settled Passed-Settled xs a.anchors infos p s))
      (λ d i. Leads-Kept infos i.after (k d) (some a) i.kept (f d i) s)

Leads-then :
    (xs infos : List AnchorInfo) (r : Outcome Dumper) (k : D) (o : Option Anchoring)
    (v : Anchoring → Option Anchoring)
    → Leads infos r o
    → Reaches xs o
    → ((a : Anchoring) → Zip Passed xs a.anchors → Reaches a.anchors (v a))
    → ((a : Anchoring) (d : Dumper)
        → Zip Passed xs a.anchors
        → (i : IsDumped a.anchors infos d) → Leads i.after (k d) (v a))
    → Leads infos
        (elim r [
          | Outcome.done d ↦ k d
          | Outcome.failed d ↦ Outcome.failed d
          | Outcome.fault ↦ Outcome.fault
        ])
        (elim o [ none ↦ none | some a ↦ v a ])
Leads-then xs infos r k none v l p g f = absurd p
Leads-then xs infos r k (some a) v l p g f =
    Leads-next a.anchors infos r k (v a) l (g a p) (λ d i. f a d p i)

-- A step that leaves the anchors alone, before the rest, and after it
pub Leads-before :
    (infos : List AnchorInfo) (P : Dumper → Type 0) (r : Outcome Dumper) (k : D)
    (o : Option Anchoring)
    → Holds P r
    → ((d : Dumper) → P d → Leads infos (k d) o)
    → Leads infos
        (elim r [
          | Outcome.done d ↦ k d
          | Outcome.failed d ↦ Outcome.failed d
          | Outcome.fault ↦ Outcome.fault
        ])
        o
Leads-before infos P r k none h f = tt
Leads-before infos P r k (some a) h f =
    λ s. Holds->> P (IsDumped a.anchors infos) r k h (λ d p. f d p s)

IsDumped-IsIssued :
    (xs infos : List AnchorInfo) (d d' : Dumper)
    → IsDumped xs infos d
    → IsIssued d d'
    → IsDumped xs infos d'
IsDumped-IsIssued xs infos d d' i j = record {
  after = i.after;
  found = j.same ∙ i.found;
  kept = i.kept;
  locked = i.locked;
  ready = j.ready;
}

pub Leads-behind :
    (infos : List AnchorInfo) (r : Outcome Dumper) (event : EventData) (o : Option Anchoring)
    → WholeEvent event
    → Leads infos r o
    → Leads infos
        (elim r [
          | Outcome.done d ↦ issue event d
          | Outcome.failed d ↦ Outcome.failed d
          | Outcome.fault ↦ Outcome.fault
        ])
        o
Leads-behind infos r event none w l = tt
Leads-behind infos r event (some a) w l = λ s.
    Holds->> (IsDumped a.anchors infos) (IsDumped a.anchors infos) r (issue event) (l s) (λ d i.
      Holds-weaken (IsIssued d) (IsDumped a.anchors infos) (issue event d)
        (λ d' j. IsDumped-IsIssued a.anchors infos d d' i j) (issue-IsIssued event d w i.ready))

-- A visit of the first walk, and of the second in step with it
abbrev pub Dumps : ℕ → ℕ → (ℕ → Anchoring → Option Anchoring) → (ℕ → D) → Type 0
Dumps n size visit dump =
    (index : ℕ) (a : Anchoring) (infos : List AnchorInfo) (d : Dumper)
    → IsIndex size index
    → length a.anchors ≡ size
    → fresh a.anchors < n
    → d.anchors ≡ some infos
    → Zip Locked a.anchors infos
    → IsReady d.emitter
    → Leads infos (dump index d) (visit index a)

module _ (n size : ℕ) (visit : ℕ → Anchoring → Option Anchoring) (dump : ℕ → D)
    (ends : Ends n size visit) (dumps : Dumps n size visit dump) where
  pub dump_each-Leads :
      (more : List ℕ) (a : Anchoring) (infos : List AnchorInfo) (d : Dumper)
      → AreIndices size more
      → length a.anchors ≡ size
      → fresh a.anchors < n
      → d.anchors ≡ some infos
      → Zip Locked a.anchors infos
      → IsReady d.emitter
      → Leads infos (dump_each dump more d) (anchor_each visit more a)
  unfolding dump_each anchor_each
  dump_each-Leads [] a infos d v h k f z r = λ s. record {
    after = infos;
    found = f;
    kept = Zip-refl Kept Kept-refl infos;
    locked = z;
    ready = r;
  }
  dump_each-Leads (index ∷ more) a infos d v h k f z r =
      let longer : (b : Anchoring) → Zip Passed a.anchors b.anchors → length b.anchors ≡ size =
        λ b p. omega (arith, Zip-length Passed a.anchors b.anchors p) in
      let fewer : (b : Anchoring) → Zip Passed a.anchors b.anchors → fresh b.anchors < n =
        λ b p. omega (arith, fresh-Passed a.anchors b.anchors p) in
      Leads-then a.anchors infos (dump index d) (dump_each dump more) (visit index a)
        (anchor_each visit more) (dumps index a infos d v.0 h k f z r) (ends index a v.0 h k)
        (λ b p. anchor_each-Reaches n size visit ends more v.1 b (longer b p) (fewer b p))
        (λ b d' p i.
          dump_each-Leads more b i.after d' v.1 (longer b p) (fewer b p) i.found i.locked i.ready)
