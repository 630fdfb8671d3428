-- ===== src/Dumper/Safety.antt =====
-- yaml_emitter_dump (original/src/dumper.c) ends, and is safe.
use port_libyaml.Base.{
  ℕ, ◌+◌, Bool, true, false, not, if◌then◌else◌, List, [], ◌∷◌, Option, none, some, ◌≡◌, refl, ◌∙◌,
  subst, length, arith, map,
}
use port_libyaml.Types.Events.{EventData}
use port_libyaml.Types.Basics.{Encoding}
use port_libyaml.Loader.State.{Node, Document}
use port_libyaml.Emitter.State.{Outcome, when}
use port_libyaml.Emitter.Safety.Output.{Holds, Holds->>}
use port_libyaml.Emitter.Safety.Control.{AreDirectives}
use port_libyaml.Emitter.Safety.Analyzes.{Holds-weaken}
use port_libyaml.Dumper.Anchors.{AnchorInfo, Anchoring, anchor_node}
use port_libyaml.Dumper.Dump.{
  Dumper, dump_node, anchor_document, unused, clear_anchors, dump_document, dump, open_stream,
  close_stream, deleting, delete_document_and_anchors, allocate,
}
use port_libyaml.Dumper.Entries.{IsIndex}
use port_libyaml.Dumper.Visits.{AreLinked, anchor_node-Reaches}
use port_libyaml.Dumper.Ready.{IsReady, IsIssued, issue-IsIssued, allocate-IsIssued}
use port_libyaml.Dumper.Locks.{IsDumped, Leads}
use port_libyaml.Dumper.Nodes.{AreWholeNodes}
use port_libyaml.Dumper.Rooted.{
  dump_node-Dumps, fresh-map, length-map, Passed-Locked, map-Settled, IsAnchored, IsCleared, walked,
}

-- The dumper between two calls of yaml_emitter_dump
pub record IsIdle (d : Dumper) : Type 0 where
  pub ready : IsReady d.emitter
  pub cleared : d.anchors ≡ none

-- A document with strings and links as they should be
module _ (node : Node) (nodes : List Node)
    (linked : AreLinked (length (node ∷ nodes)) (node ∷ nodes))
    (whole : AreWholeNodes (node ∷ nodes)) where
  abbrev all : List Node
  all = node ∷ nodes

  abbrev start : List AnchorInfo
  start = map (λ node. unused) all

  abbrev walk : ℕ → Option Anchoring
  walk id = anchor_node all (length all + 1) 1 (record { anchors = start; last_anchor_id = id })

  first : IsIndex (length all) 1
  first = record { low = omega arith; high = omega arith }

  anchor_document-IsAnchored :
      (d : Dumper)
      → IsCleared all d
      → Holds (IsAnchored start (walk d.last_anchor_id)) (anchor_document all d)
  unfolding anchor_document
  anchor_document-IsAnchored d c = walked all start d d.anchors c.found c.ready (
      anchor_node-Reaches all (length all + 1) linked 1
        (record { anchors = start; last_anchor_id = d.last_anchor_id }) first (length-map all)
        (omega (arith, fresh-map nodes)))

  dump_root :
      (id : ℕ) (d : Dumper)
      → IsAnchored start (walk id) d
      → Holds (λ d'. IsReady d'.emitter) (dump_node all (length all + 1) 1 d)
  dump_root id d i =
      let a = i.walked in
      let infos = a.anchors in
      let leads : Leads infos (dump_node all (length all + 1) 1 d) (walk id) =
        dump_node-Dumps all (length all + 1) linked whole 1
          (record { anchors = start; last_anchor_id = id }) infos d first (length-map all)
          (omega (arith, fresh-map nodes)) i.found (Passed-Locked all infos i.passed) i.ready in
      Holds-weaken (IsDumped infos infos) (λ d'. IsReady d'.emitter) _ (λ d' j. j.ready)
        (subst (Leads infos (dump_node all (length all + 1) 1 d)) i.result leads
          (map-Settled all infos i.passed))

  clear_anchors-IsCleared :
      (d : Dumper) → IsReady d.emitter → Holds (IsCleared all) (clear_anchors all d)
  unfolding clear_anchors
  clear_anchors-IsCleared d r =
      Holds->> (IsIssued d) (IsCleared all) (allocate d) _ (allocate-IsIssued d r)
        (λ d' j. record { found = refl; ready = j.ready })

-- The rest of yaml_emitter_dump
Holds-if :
    {A : Type 0} (Q : A → Type 0) (b : Bool) (x y : Outcome A)
    → (b ≡ true → Holds Q x)
    → (b ≡ false → Holds Q y)
    → Holds Q (if b then x else y)
Holds-if Q true x y h k = h refl
Holds-if Q false x y h k = k refl

-- The stream is open.
record IsOpen (d : Dumper) : Type 0 where
  ready : IsReady d.emitter
  opened : d.opened ≡ true

open_stream-IsOpen :
    (d : Dumper) → d.opened ≡ false → IsReady d.emitter → Holds IsOpen (open_stream d)
unfolding open_stream
open_stream-IsOpen d h r =
    Holds-if IsOpen d.opened _ _ (λ k. absurd (ground arith))
      (λ k.
        Holds->> (IsIssued d) IsOpen _ _
          (issue-IsIssued (EventData.stream_start Encoding.any_encoding) d tt r)
          (λ d' j. record { ready = j.ready; opened = refl }))

when-IsOpen :
    (b : Bool) (d : Dumper)
    → d.opened ≡ b
    → IsReady d.emitter
    → Holds IsOpen (when (not b) open_stream d)
when-IsOpen true d h r = record { ready = r; opened = h }
when-IsOpen false d h r = open_stream-IsOpen d h r

close_stream-IsReady : (d : Dumper) → IsOpen d → Holds (λ d'. IsReady d'.emitter) (close_stream d)
unfolding close_stream
close_stream-IsReady d o =
    let opened = o.opened in
    Holds-if _ (not d.opened) _ _ (λ k. absurd (ground arith))
      (λ k.
        Holds-if _ d.closed _ _ (λ l. o.ready)
          (λ l.
            Holds->> (IsIssued d) _ _ _ (issue-IsIssued EventData.stream_end d tt o.ready)
              (λ d' j. j.ready)))

dump_document-IsReady :
    (document : Document) (nodes : List Node) (d : Dumper)
    → AreLinked (length nodes) nodes
    → AreWholeNodes nodes
    → AreDirectives document.tag_directives
    → IsReady d.emitter
    → Holds (λ d'. IsReady d'.emitter) (dump_document document nodes d)
unfolding dump_document
dump_document-IsReady document [] d l w t r =
    Holds->> IsOpen (λ d'. IsReady d'.emitter) _ close_stream (when-IsOpen d.opened d refl r)
      (λ d' o. close_stream-IsReady d' o)
dump_document-IsReady document (node ∷ nodes) d l w t r =
    let Q = λ (d' : Dumper). IsReady d'.emitter in
    Holds->> IsOpen Q _ _ (when-IsOpen d.opened d refl r) (λ d1 o.
      Holds->> (IsCleared (node ∷ nodes)) Q _ _ (clear_anchors-IsCleared node nodes l w d1 o.ready)
        (λ d2 c.
          Holds->> (IsIssued d2) Q _ _ (issue-IsIssued (EventData.document_start _) d2 t c.ready)
            (λ d3 j.
              Holds->> _ Q _ _
                (anchor_document-IsAnchored node nodes l w d3
                  (record { found = j.same ∙ c.found; ready = j.ready }))
                (λ d4 i.
                  Holds->> Q Q _ _ (dump_root node nodes l w d3.last_anchor_id d4 i) (λ d5 r5.
                    Holds-weaken (IsIssued d5) Q _ (λ d6 k. k.ready)
                      (issue-IsIssued (EventData.document_end document.end_implicit) d5 tt r5))))))

deleted :
    (d : Dumper) (o : Option (List AnchorInfo))
    → d.anchors ≡ o
    → IsReady d.emitter
    → IsIdle (elim o [ none ↦ d | some anchors ↦ record d { anchors = none; last_anchor_id = 0 } ])
deleted d none h r = record { ready = r; cleared = h }
deleted d (some anchors) h r = record { ready = r; cleared = refl }

deleting-IsIdle :
    (r : Outcome Dumper)
    → Holds (λ d'. IsReady d'.emitter) r
    → Holds IsIdle (elim r [
      | Outcome.done d' ↦ Outcome.done (delete_document_and_anchors d')
      | Outcome.failed d' ↦ Outcome.failed (delete_document_and_anchors d')
      | Outcome.fault ↦ Outcome.fault
    ])
unfolding delete_document_and_anchors
deleting-IsIdle (Outcome.done d) h = deleted d d.anchors refl h
deleting-IsIdle (Outcome.failed d) h = tt
deleting-IsIdle Outcome.fault h = absurd h

-- yaml_emitter_dump on a document whose items, keys and values are numbers of its nodes, cycles
-- included, and whose strings fall into characters, with an emitter at a place of the grammar of
-- events, a queue of such events and an empty raw buffer: both recursions end, no assertion fails, no table and no string
-- is read past its end, and every alias has an anchor. Where it succeeds, the emitter is at a place of
-- the grammar again, with such a queue, and the table of anchors is gone.
pub dump-IsIdle :
    (document : Document) (nodes : List Node) (d : Dumper)
    → AreLinked (length nodes) nodes
    → AreWholeNodes nodes
    → AreDirectives document.tag_directives
    → IsReady d.emitter
    → Holds IsIdle (dump document nodes d)
unfolding dump deleting
dump-IsIdle document nodes d l w t r =
    deleting-IsIdle (dump_document document nodes d)
      (dump_document-IsReady document nodes d l w t r)
