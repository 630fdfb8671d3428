-- ===== src/Dumper/Nodes.antt =====
-- The parts of yaml_emitter_dump_node (original/src/dumper.c), in step with the first walk.
use port_libyaml.Base.{
  ℕ, zero, suc, ◌+◌, ◌≤◌, true, List, [], ◌∷◌, Option, none, some, Bytes, ◌≡◌, ap, ◌∙◌, subst,
  length, arith, get_elem?,
}
use mathlib.Core.Option.{some_inj}
use port_libyaml.Types.Events.{EventData}
use port_libyaml.Loader.State.{NodeData, Node}
use port_libyaml.Emitter.State.{Outcome}
use port_libyaml.Emitter.Safety.Strings.{Whole}
use port_libyaml.Emitter.Safety.Output.{Holds}
use port_libyaml.Emitter.Safety.Control.{WholeOption}
use port_libyaml.Emitter.Safety.Analyzes.{Holds-weaken}
use port_libyaml.Dumper.Anchors.{
  AnchorInfo, Anchoring, entry, set_entry, children, set_info, anchor_each,
}
use port_libyaml.Dumper.Dump.{
  Dumper, D, dump_alias, dump_scalar, dump_each, dump_content, with_anchor,
}
use port_libyaml.Dumper.Entries.{IsIndex, Zip, Zip-refl, Zip-set_entry_left, Zip_written_entry}
use port_libyaml.Dumper.Ready.{IsReady, IsIssued, issue-IsIssued, Named, with_anchor-Holds}
use port_libyaml.Dumper.Locks.{
  Kept, Kept-refl, visited, Locked, Settled, IsDumped, Leads, Leads-before, Leads-behind,
}

-- The strings of a node fall into characters.
abbrev pub WholeContent : NodeData → Type 0
WholeContent (NodeData.scalar value style) = Whole value
WholeContent content = Unit

pub record WholeNode (node : Node) : Type 0 where
  pub tag : Whole node.tag
  pub content : WholeContent node.content

abbrev pub AreWholeNodes : List Node → Type 0
AreWholeNodes [] = Unit
AreWholeNodes (node ∷ nodes) = WholeNode node × AreWholeNodes nodes

AreWholeNodes-get_elem? :
    (nodes : List Node) (i : ℕ) (node : Node)
    → AreWholeNodes nodes
    → get_elem? nodes i ≡ some node
    → WholeNode node
AreWholeNodes-get_elem? [] i node w h = absurd (ground arith)
AreWholeNodes-get_elem? (x ∷ nodes) zero node w h = subst WholeNode (some_inj.0 h) w.0
AreWholeNodes-get_elem? (x ∷ nodes) (suc i) node w h = AreWholeNodes-get_elem? nodes i node w.1 h

pub AreWholeNodes-entry :
    (nodes : List Node) (index : ℕ) (node : Node)
    → AreWholeNodes nodes
    → entry nodes index ≡ some node
    → WholeNode node
AreWholeNodes-entry nodes zero node w h = absurd (ground arith)
AreWholeNodes-entry nodes (suc i) node w h = AreWholeNodes-get_elem? nodes i node w h

-- The loop over the children of a node, for a dumper with these entries
abbrev pub Loops : (ℕ → D) → List ℕ → List AnchorInfo → Option Anchoring → Type 0
Loops dump more infos o =
    (d : Dumper)
    → d.anchors ≡ some infos
    → IsReady d.emitter
    → Leads infos (dump_each dump more d) o

pub dump_content-Leads :
    (visit : ℕ → Anchoring → Option Anchoring) (dump : ℕ → D) (anchor : Option Bytes) (tag : Bytes)
    (content : NodeData) (b : Anchoring) (infos : List AnchorInfo) (d : Dumper)
    → WholeOption anchor
    → Whole tag
    → WholeContent content
    → d.anchors ≡ some infos
    → Zip Locked b.anchors infos
    → IsReady d.emitter
    → Loops dump (children content) infos (anchor_each visit (children content) b)
    → Leads infos (dump_content dump anchor tag content d) (anchor_each visit (children content) b)
unfolding dump_content dump_scalar children anchor_each
dump_content-Leads visit dump anchor tag (NodeData.scalar value style) b infos d wa wt wv f z r l =
    λ s.
      Holds-weaken (IsIssued d) (IsDumped b.anchors infos) _
        (λ d' j. record {
          after = infos;
          found = j.same ∙ f;
          kept = Zip-refl Kept Kept-refl infos;
          locked = z;
          ready = j.ready;
        })
        (issue-IsIssued _ d (wa, (wt, wv)) r)
dump_content-Leads visit dump anchor tag (NodeData.sequence items style) b infos d wa wt wv f z r
      l =
    Leads-before infos (IsIssued d) _ _ (anchor_each visit items b) (issue-IsIssued _ d (wa, wt) r)
      (λ d' j.
        Leads-behind infos (dump_each dump items d') EventData.sequence_end
          (anchor_each visit items b) tt (l d' (j.same ∙ f) j.ready))
dump_content-Leads visit dump anchor tag (NodeData.mapping pairs style) b infos d wa wt wv f z r l =
    let keys = children (NodeData.mapping pairs style) in
    Leads-before infos (IsIssued d) _ _ (anchor_each visit keys b) (issue-IsIssued _ d (wa, wt) r)
      (λ d' j.
        Leads-behind infos (dump_each dump keys d') EventData.mapping_end (anchor_each visit keys b)
          tt (l d' (j.same ∙ f) j.ready))

pub visited_more : (n : ℕ) → visited (n + 1) ≡ true
visited_more n = let next : n + 1 ≡ suc n = omega arith in ap visited next

-- The dumper after a node is marked as serialized
pub record IsMarked (infos : List AnchorInfo) (d : Dumper) : Type 0 where
  pub found : d.anchors ≡ some infos
  pub ready : IsReady d.emitter

pub set_serialized-IsMarked :
    (index : ℕ) (y : AnchorInfo) (infos : List AnchorInfo) (d : Dumper)
    (o : Option (List AnchorInfo))
    → o ≡ some infos
    → IsReady d.emitter
    → Holds (IsMarked (set_entry infos index (record y { serialized = true }))) (elim o [
      | none ↦ Outcome.fault
      | some anchors ↦
          let a =
            set_info index
              (record y { serialized = true })
              (record { anchors = anchors; last_anchor_id = d.last_anchor_id }) in
          Outcome.done (record d { anchors = some a.anchors })
    ])
unfolding set_info
set_serialized-IsMarked index y infos d none h r = absurd (ground arith)
set_serialized-IsMarked index y infos d (some anchors) h r = record {
  found = ap (λ xs. some (set_entry xs index (record y { serialized = true }))) (some_inj.0 h);
  ready = r;
}

dump_alias-IsIssued :
    (n : ℕ) (anchor : Option Bytes) (d : Dumper)
    → 1 ≤ n
    → Named n anchor
    → WholeOption anchor
    → IsReady d.emitter
    → Holds (IsIssued d) (dump_alias anchor d)
unfolding dump_alias
dump_alias-IsIssued zero anchor d h m w r = absurd (omega arith)
dump_alias-IsIssued (suc n) none d h m w r = absurd m
dump_alias-IsIssued (suc n) (some text) d h m w r = issue-IsIssued (EventData.alias text) d w r

pub Leads-with :
    (n : ℕ) (k : Option Bytes → D) (d : Dumper) (infos : List AnchorInfo) (o : Option Anchoring)
    → IsReady d.emitter
    → ((anchor : Option Bytes) (d' : Dumper)
        → WholeOption anchor
        → IsIssued d d'
        → Leads infos (k anchor d') o)
    → Leads infos (with_anchor n k d) o
Leads-with n k d infos none r f = tt
Leads-with n k d infos (some a) r f =
    λ s. with_anchor-Holds (IsDumped a.anchors infos) n k d r (λ anchor d' w m j. f anchor d' w j s)

-- A second visit, and more
pub alias-Leads :
    (xs infos : List AnchorInfo) (index : ℕ) (w y : AnchorInfo) (d : Dumper)
    → IsIndex (length xs) index
    → 2 ≤ w.references
    → Locked w y
    → entry infos index ≡ some y
    → d.anchors ≡ some infos
    → Zip Locked xs infos
    → IsReady d.emitter
    → Zip Settled (set_entry xs index w) infos
    → Holds (IsDumped (set_entry xs index w) infos) (with_anchor y.anchor dump_alias d)
alias-Leads xs infos index w y d v h l e f z r s =
    let t = Zip_written_entry Settled xs infos index w y v s e in
    let bound = t.bound in
    let named = t.numbered (omega arith) in
    with_anchor-Holds (IsDumped (set_entry xs index w) infos) y.anchor dump_alias d r
      (λ anchor d' wa m j.
        Holds-weaken (IsIssued d') (IsDumped (set_entry xs index w) infos) (dump_alias anchor d')
          (λ d'' i. record {
            after = infos;
            found = i.same ∙ (j.same ∙ f);
            kept = Zip-refl Kept Kept-refl infos;
            locked = Zip-set_entry_left Locked xs infos index w y z e l;
            ready = i.ready;
          })
          (dump_alias-IsIssued y.anchor anchor d' named m wa j.ready))
