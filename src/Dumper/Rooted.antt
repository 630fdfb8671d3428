-- ===== src/Dumper/Rooted.antt =====
-- Both walks over a document from its root (original/src/dumper.c).
use port_libyaml.Base.{
  ℕ, zero, suc, ◌+◌, List, [], ◌∷◌, Option, none, some, ◌≡◌, refl, sym, subst, length, arith, map,
}
use port_libyaml.Loader.State.{Node}
use port_libyaml.Emitter.State.{Outcome}
use port_libyaml.Emitter.Safety.Output.{Holds}
use port_libyaml.Dumper.Anchors.{AnchorInfo, Anchoring, entry, children, refer, anchor_node}
use port_libyaml.Dumper.Dump.{Dumper, dump_found, info_of, dump_node, unused}
use port_libyaml.Dumper.Entries.{IsIndex, Zip, Zip-entry, entry_found}
use port_libyaml.Dumper.Visits.{
  Passed, fresh, AreLinked, AreLinked-entry, anchor_node-Reaches, Reaches,
}
use port_libyaml.Dumper.Ready.{IsReady}
use port_libyaml.Dumper.Locks.{Locked, Settled, Dumps, dump_each-Leads}
use port_libyaml.Dumper.Nodes.{AreWholeNodes, AreWholeNodes-entry}
use port_libyaml.Dumper.Walks.{visit-Leads}

info_found :
    (o : Option (List AnchorInfo)) (infos : List AnchorInfo) (index : ℕ) (y : AnchorInfo)
    → o ≡ some infos
    → entry infos index ≡ some y
    → elim o [ none ↦ none | some anchors ↦ entry anchors index ] ≡ some y
info_found o infos index y h e = rw h e

pub dump_node-Dumps :
    (nodes : List Node) (n : ℕ)
    → AreLinked (length nodes) nodes
    → AreWholeNodes nodes
    → Dumps n (length nodes) (anchor_node nodes n) (dump_node nodes n)
unfolding anchor_node refer dump_node dump_found info_of
dump_node-Dumps nodes zero l w index a infos d v h k f z r = absurd (omega arith)
dump_node-Dumps nodes (suc n) l w index a infos d v h k f z r =
    let (node, found) = entry_found nodes index v in
    let valid : IsIndex (length a.anchors) index = subst (λ s. IsIndex s index) (sym h) v in
    let (x, here) = entry_found a.anchors index valid in
    let (y, (there, same)) = Zip-entry Locked a.anchors infos index x z here in
    let info = info_found d.anchors infos index y f there in
    rw (found, here, info, anchor_node, dump_node)
      (visit-Leads (anchor_node nodes n) (dump_node nodes n) index node x y a infos
        (AreWholeNodes-entry nodes index node w found) valid here there z d x.references
        y.serialized refl refl (same.serialized) f r
        (λ b infos' long less z' d' f' r'.
          dump_each-Leads n (length nodes) (anchor_node nodes n) (dump_node nodes n)
            (anchor_node-Reaches nodes n l) (dump_node-Dumps nodes n l w) (children node.content) b
            infos' d' (AreLinked-entry (length nodes) nodes index node l found) (omega arith)
            (omega arith) f' z' r'))

-- The entries after memset, and when the first walk is over
pub fresh-map : (nodes : List Node) → fresh (map (λ node. unused) nodes) ≡ length nodes
fresh-map [] = refl
fresh-map (node ∷ nodes) = omega (arith, fresh-map nodes)

pub length-map : (nodes : List Node) → length (map (λ node. unused) nodes) ≡ length nodes
length-map [] = refl
length-map (node ∷ nodes) = omega (arith, length-map nodes)

pub Passed-Locked :
    (nodes : List Node) (infos : List AnchorInfo)
    → Zip Passed (map (λ node. unused) nodes) infos
    → Zip Locked (map (λ node. unused) nodes) infos
Passed-Locked [] [] z = tt
Passed-Locked (node ∷ nodes) (y ∷ infos) z =
    (record { serialized = z.0.serialized }, Passed-Locked nodes infos z.1)
Passed-Locked [] (y ∷ infos) z = absurd z
Passed-Locked (node ∷ nodes) [] z = absurd z

pub map-Settled :
    (nodes : List Node) (infos : List AnchorInfo)
    → Zip Passed (map (λ node. unused) nodes) infos
    → Zip Settled infos infos
map-Settled [] [] z = tt
map-Settled (node ∷ nodes) (y ∷ infos) z = (
  record { bound = omega arith; numbered = z.0.numbers (λ l. absurd (omega arith)) },
  map-Settled nodes infos z.1,
)
map-Settled [] (y ∷ infos) z = absurd z
map-Settled (node ∷ nodes) [] z = absurd z

-- The dumper after the first walk, which starts from `start`
pub record IsAnchored (start : List AnchorInfo) (o : Option Anchoring) (d : Dumper) : Type 0 where
  pub walked : Anchoring
  pub result : o ≡ some walked
  pub found : d.anchors ≡ some walked.anchors
  pub passed : Zip Passed start walked.anchors
  pub ready : IsReady d.emitter

anchored :
    (start : List AnchorInfo) (d : Dumper) (o : Option Anchoring)
    → IsReady d.emitter
    → Reaches start o
    → Holds (IsAnchored start o) (elim o [
      | none ↦ Outcome.fault
      | some a ↦
          Outcome.done (record d { anchors = some a.anchors; last_anchor_id = a.last_anchor_id })
    ])
anchored start d none r p = absurd p
anchored start d (some a) r p = record {
  walked = a;
  result = refl;
  found = refl;
  passed = p;
  ready = r;
}

-- The dumper once the anchors are there
pub record IsCleared (nodes : List Node) (d : Dumper) : Type 0 where
  pub found : d.anchors ≡ some (map (λ node. unused) nodes)
  pub ready : IsReady d.emitter

pub walked :
    (nodes : List Node) (start : List AnchorInfo) (d : Dumper) (o : Option (List AnchorInfo))
    → o ≡ some start
    → IsReady d.emitter
    → let walk : List AnchorInfo → Option Anchoring = λ xs.
      anchor_node nodes
        (length nodes + 1)
        1
        (record { anchors = xs; last_anchor_id = d.last_anchor_id }) in
      Reaches start (walk start)
      → Holds (IsAnchored start (walk start)) (elim o [
        | none ↦ Outcome.fault
        | some anchors ↦ elim (walk anchors) [
          | none ↦ Outcome.fault
          | some a ↦
              Outcome.done
                (record d { anchors = some a.anchors; last_anchor_id = a.last_anchor_id })
        ]
      ])
walked nodes start d o h r p = rw h (anchored start d _ r p)
