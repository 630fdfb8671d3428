-- ===== src/Dumper/Walks.antt =====
-- A visit of yaml_emitter_dump_node (original/src/dumper.c), in step with the first walk.
use port_libyaml.Base.{
  ℕ, zero, suc, ◌+◌, ◌≤◌, Bool, true, false, List, Option, some, ◌≡◌, refl, sym, ◌∙◌, length, arith,
}
use port_libyaml.Loader.State.{Node}
use port_libyaml.Emitter.State.{◌>>◌}
use port_libyaml.Emitter.Safety.Output.{Holds}
use port_libyaml.Dumper.Anchors.{
  AnchorInfo, Anchoring, entry, set_entry, children, set_info, number, anchor_each,
}
use port_libyaml.Dumper.Dump.{Dumper, D, dump_alias, dump_content, with_anchor, set_serialized}
use port_libyaml.Dumper.Entries.{IsIndex, Zip, Zip-length, Zip-set_entry, Zip-write_entry}
use port_libyaml.Dumper.Visits.{Passed, Passed-refl, fresh, fresh-set_entry}
use port_libyaml.Dumper.Ready.{IsReady}
use port_libyaml.Dumper.Locks.{
  Kept, Kept-refl, visited, Locked, Settled, IsDumped, Leads, Leads-Kept, Leads-before,
}
use port_libyaml.Dumper.Nodes.{
  WholeNode, Loops, dump_content-Leads, visited_more, IsMarked, set_serialized-IsMarked, Leads-with,
  alias-Leads,
}

-- The node `index`, with its entries `x` and `y` in the two walks
module _ (visit : ℕ → Anchoring → Option Anchoring) (dump : ℕ → D) (index : ℕ) (node : Node)
    (x y : AnchorInfo) (a : Anchoring) (infos : List AnchorInfo) (whole : WholeNode node)
    (valid : IsIndex (length a.anchors) index) (here : entry a.anchors index ≡ some x)
    (there : entry infos index ≡ some y) (locks : Zip Locked a.anchors infos) where
  -- What the loop over the children meets after the first visit
  abbrev Inner : Type 0
  Inner =
      (b : Anchoring) (infos' : List AnchorInfo)
      → length b.anchors ≡ length a.anchors
      → suc (fresh b.anchors) ≤ fresh a.anchors
      → Zip Locked b.anchors infos'
      → Loops dump (children node.content) infos' (anchor_each visit (children node.content) b)

  first_visit :
      (d : Dumper)
      → x.references ≡ 0
      → d.anchors ≡ some infos
      → IsReady d.emitter
      → Inner
      → let counted = record x { references = x.references + 1 } in
        Leads infos
          (with_anchor y.anchor
            (λ anchor. do set_serialized index y; dump_content dump anchor node.tag node.content)
            d)
          (anchor_each visit (children node.content) (set_info index counted a))
  unfolding set_serialized set_info
  first_visit d h f r inner =
      let counted = record x { references = x.references + 1 } in
      let marked = record y { serialized = true } in
      let infos' = set_entry infos index marked in
      let b : Anchoring = set_info index counted a in
      let o = anchor_each visit (children node.content) b in
      let shorter = fresh-set_entry a.anchors index x counted here h (omega arith) in
      let same = Zip-length Passed a.anchors b.anchors (
        Zip-write_entry Passed Passed-refl a.anchors index x counted here (record {
          grows = omega arith;
          numbers = λ l m. absurd (omega arith);
          serialized = refl;
        })) in
      let z =
        Zip-set_entry Locked a.anchors infos index counted marked locks
          (record { serialized = sym (visited_more x.references) }) in
      let kept =
        Zip-write_entry Kept Kept-refl infos index y marked there
          (record { references = refl; anchor = refl }) in
      Leads-with y.anchor _ d infos o r (λ anchor d' w j.
        Leads-before infos (IsMarked infos') (set_serialized index y d')
          (dump_content dump anchor node.tag node.content) o
          (set_serialized-IsMarked index y infos d' d'.anchors (j.same ∙ f) j.ready)
          (λ d'' m. Leads-Kept infos infos' _ o kept (
            dump_content-Leads visit dump anchor node.tag node.content b infos' d'' w whole.tag
              whole.content m.found z m.ready (inner b infos' same shorter z))))

  next_visit :
      (d : Dumper) (w : AnchorInfo)
      → w.references ≡ x.references + 1
      → 1 ≤ x.references
      → y.serialized ≡ true
      → d.anchors ≡ some infos
      → IsReady d.emitter
      → Zip Settled (set_entry a.anchors index w) infos
      → Holds (IsDumped (set_entry a.anchors index w) infos) (with_anchor y.anchor dump_alias d)
  next_visit d w h l s f r settled =
      alias-Leads a.anchors infos index w y d valid (omega arith)
        (record { serialized = rw (h, s, visited_more x.references) refl }) there f locks r settled

  pub visit-Leads :
      (d : Dumper) (r : ℕ) (s : Bool)
      → x.references ≡ r
      → y.serialized ≡ s
      → s ≡ visited r
      → d.anchors ≡ some infos
      → IsReady d.emitter
      → Inner
      → let counted = record x { references = x.references + 1 } in
        Leads infos
          (with_anchor y.anchor
            (λ anchor. elim s [
              | true ↦ dump_alias anchor
              | false ↦ do set_serialized index y; dump_content dump anchor node.tag node.content
            ])
            d)
          (elim r [
            | zero ↦ anchor_each visit (children node.content) (set_info index counted a)
            | suc zero ↦ some (number index counted a)
            | suc (suc n) ↦ some (set_info index counted a)
          ])
  unfolding set_info number
  visit-Leads d zero true h k e f i inner = absurd (ground arith)
  visit-Leads d zero false h k e f i inner = first_visit d h f i inner
  visit-Leads d (suc r) false h k e f i inner = absurd (ground arith)
  visit-Leads d (suc zero) true h k e f i inner = next_visit d _ refl (omega arith) k f i
  visit-Leads d (suc (suc n)) true h k e f i inner = next_visit d _ refl (omega arith) k f i
