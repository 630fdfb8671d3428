-- ===== src/Loader/Steps.antt =====
-- The composer functions of original/src/loader.c, event by event along the grammar.
use port_libyaml.Base.{
  ℕ, ◌-◌, ◌≤◌, Bool, true, false, List, [], ◌∷◌, none, some, Bytes, ◌≡◌, refl, inl, inr, arith,
  length, set, Option-cases,
}
use port_libyaml.Types.Basics.{Mark}
use port_libyaml.Types.Events.{Event, EventData, DocumentStartEvent}
use port_libyaml.Grammar.{Frame, Phase, node, open_with, step, steps}
use port_libyaml.Loader.State.{
  NodeData, Node, AliasData, Loader, Loaded, require, set_composer_error,
}
use port_libyaml.Loader.Compose.{
  find_alias, load_alias, is_sequence, is_mapping, end_collection, load_sequence_end,
  load_mapping_end, load_event, document_end_of, load_nodes, load_document,
}
use port_libyaml.Loader.Open.{length-set, holds, AreOpen, AreOpen-set}
use port_libyaml.Loader.Adding.{
  load_scalar-Composing, load_sequence-Composing, load_mapping-Composing,
}
use port_libyaml.Loader.Composing.{
  AreAnchors, Composing, Yields, and_then-Yields, Same, require-Same, advance,
  load_node_add-Composing,
}

-- The index of an anchor is that of a node.
find_alias-low :
    (anchor : Bytes) (ds : List AliasData) (d : AliasData)
    → AreAnchors ds
    → find_alias anchor ds ≡ some d
    → 1 ≤ d.index
unfolding find_alias
find_alias-low anchor [] d a e = absurd (ground arith)
find_alias-low anchor (c ∷ ds) d a e = ground (arith, find_alias-low anchor ds d)

-- An alias, where a node may stand: an anchor that is not known is an error, and else no assertion
-- fails, and the stack of open collections stands at the next place of the grammar. Before it, the
-- stack stands at the place `fs`.
load_alias-Composing :
    (fs : List Frame) (anchor : Bytes) (mark : Mark) (l : Loader)
    → Composing fs l
    → Yields (Composing (advance fs)) (load_alias anchor mark l)
unfolding load_alias
load_alias-Composing fs anchor mark l c = elim (Option-cases (find_alias anchor l.aliases)) [
  | inl e ↦ rw (e, Yields, load_alias, set_composer_error) tt
  | inr (d, e) ↦
      rw (e, Yields, load_alias)
        (load_node_add-Composing d.index fs l (find_alias-low anchor l.aliases d c.anchors e) c)
]

holds-sequence :
    (content : NodeData) → holds Frame.in_sequence content ≡ true → is_sequence content ≡ true
unfolding holds is_sequence
holds-sequence (NodeData.sequence items style) h = refl
holds-sequence (NodeData.mapping pairs style) h = absurd (ground arith)
holds-sequence (NodeData.scalar value style) h = absurd (ground arith)

holds-mapping :
    (content : NodeData) → holds Frame.before_key content ≡ true → is_mapping content ≡ true
unfolding holds is_mapping
holds-mapping (NodeData.mapping pairs style) h = refl
holds-mapping (NodeData.sequence items style) h = absurd (ground arith)
holds-mapping (NodeData.scalar value style) h = absurd (ground arith)

end_at :
    (right : NodeData → Bool) (f : Frame) (fs : List Frame) (ctx : List ℕ) (end_mark : Mark)
    (l : Loader)
    → ((content : NodeData) → holds f content ≡ true → right content ≡ true)
    → l.ctx ≡ ctx
    → AreOpen (f ∷ fs) ctx l.nodes (length l.nodes)
    → AreAnchors l.aliases
    → Yields (Composing fs) (end_collection right end_mark l)
unfolding end_collection
end_at right f fs [] end_mark l k e o anchors = absurd o
end_at right f fs (i ∷ ctx) end_mark l k e (lo, hi, held, o) anchors =
    let node' : Node = record held.node { end_mark = end_mark } in
    rw (e, held.found, k held.node.content held.waits, Yields, end_collection)
      (record {
        opened =
            AreOpen-set fs ctx l.nodes (i - 1) (length (set l.nodes (i - 1) node')) (i - 1) node'
              (omega arith) (omega (arith, length-set l.nodes (i - 1) node')) o;
        anchors = anchors;
      })

-- The end of a sequence, with a sequence innermost: it leaves the stack.
load_sequence_end-Composing :
    (fs : List Frame) (end_mark : Mark) (l : Loader)
    → Composing (Frame.in_sequence ∷ fs) l
    → Yields (Composing fs) (load_sequence_end end_mark l)
unfolding load_sequence_end
load_sequence_end-Composing fs end_mark l c =
    end_at is_sequence Frame.in_sequence fs l.ctx end_mark l (λ content h. holds-sequence content h)
      refl c.opened c.anchors

-- The end of a mapping, with a mapping innermost that waits for a key: it leaves the stack.
load_mapping_end-Composing :
    (fs : List Frame) (end_mark : Mark) (l : Loader)
    → Composing (Frame.before_key ∷ fs) l
    → Yields (Composing fs) (load_mapping_end end_mark l)
unfolding load_mapping_end
load_mapping_end-Composing fs end_mark l c =
    end_at is_mapping Frame.before_key fs l.ctx end_mark l (λ content h. holds-mapping content h)
      refl c.opened c.anchors

-- Before the root, or behind it and not yet at the end of the document.
unfoldable pub is_inside : Phase → Bool
is_inside Phase.before_root = true
is_inside (Phase.in_document fs) = true
is_inside _ = false

unfoldable pub open_at : Phase → List Frame
open_at (Phase.in_document fs) = fs
open_at _ = []

node-advance :
    (ph ph' : Phase)
    → is_inside ph ≡ true
    → node ph ≡ some ph'
    → ph' ≡ Phase.in_document (advance (open_at ph))
unfolding is_inside node open_at advance
node-advance Phase.before_root ph' h e = ground arith
node-advance (Phase.in_document (Frame.in_sequence ∷ fs)) ph' h e = ground arith
node-advance (Phase.in_document (Frame.before_key ∷ fs)) ph' h e = ground arith
node-advance (Phase.in_document (Frame.before_value ∷ fs)) ph' h e = ground arith
node-advance _ ph' h e = absurd (ground arith)

open_with-advance :
    (f : Frame) (ph ph' : Phase)
    → is_inside ph ≡ true
    → open_with f ph ≡ some ph'
    → ph' ≡ Phase.in_document (f ∷ advance (open_at ph))
unfolding is_inside open_with open_at advance
open_with-advance f Phase.before_root ph' h e = ground arith
open_with-advance f (Phase.in_document (Frame.in_sequence ∷ fs)) ph' h e = ground arith
open_with-advance f (Phase.in_document (Frame.before_key ∷ fs)) ph' h e = ground arith
open_with-advance f (Phase.in_document (Frame.before_value ∷ fs)) ph' h e = ground arith
open_with-advance f _ ph' h e = absurd (ground arith)

-- The loader stands where the grammar does.
pub record Composes (ph : Phase) (l : Loader) : Type 0 where
  pub inside : is_inside ph ≡ true
  pub composing : Composing (open_at ph) l

to_phase :
    (fs : List Frame) (ph : Phase) (r : Loaded)
    → ph ≡ Phase.in_document fs
    → Yields (Composing fs) r
    → Yields (Composes ph) r
unfolding is_inside open_at
to_phase fs ph (Loaded.done l) e c = record { inside = rw e refl; composing = rw e c }
to_phase fs ph (Loaded.failed l) e c = tt
to_phase fs ph Loaded.fault e c = absurd c

load_event-Composes :
    (content : EventData) (start_mark end_mark : Mark) (ph ph' : Phase) (l : Loader)
    → document_end_of content ≡ none
    → step content ph ≡ some ph'
    → Composes ph l
    → Yields (Composes ph') (load_event content start_mark end_mark l)
unfolding load_event step is_inside open_at
load_event-Composes (EventData.alias anchor) m n ph ph' l d e c =
    to_phase _ ph' _ (node-advance ph ph' c.inside e)
      (load_alias-Composing (open_at ph) anchor m l c.composing)
load_event-Composes (EventData.scalar event) m n ph ph' l d e c =
    to_phase _ ph' _ (node-advance ph ph' c.inside e)
      (load_scalar-Composing (open_at ph) event m n l c.composing)
load_event-Composes (EventData.sequence_start event) m n ph ph' l d e c =
    to_phase _ ph' _ (open_with-advance Frame.in_sequence ph ph' c.inside e)
      (load_sequence-Composing (open_at ph) event m n l c.composing)
load_event-Composes (EventData.mapping_start event) m n ph ph' l d e c =
    to_phase _ ph' _ (open_with-advance Frame.before_key ph ph' c.inside e)
      (load_mapping-Composing (open_at ph) event m n l c.composing)
load_event-Composes EventData.sequence_end m n (Phase.in_document (Frame.in_sequence ∷ fs)) ph' l d
      e c =
    to_phase fs ph' _ (ground arith) (load_sequence_end-Composing fs n l c.composing)
load_event-Composes EventData.mapping_end m n (Phase.in_document (Frame.before_key ∷ fs)) ph' l d e
      c =
    to_phase fs ph' _ (ground arith) (load_mapping_end-Composing fs n l c.composing)
load_event-Composes _ m n ph ph' l d e c = let i = c.inside in absurd (ground arith)

abbrev pub contents : List Event → List EventData
contents [] = []
contents (event ∷ events) = event.content ∷ contents events

-- No collection is open at the end of a document.
closed : (ctx : List ℕ) (nodes : List Node) (b : ℕ) → AreOpen [] ctx nodes b → ctx ≡ []
closed [] nodes b o = refl
closed (i ∷ ctx) nodes b o = absurd o

document_end_closed :
    (content : EventData) (implicit : Bool) (ph ph' : Phase) (l : Loader)
    → document_end_of content ≡ some implicit
    → step content ph ≡ some ph'
    → Composes ph l
    → l.ctx ≡ []
unfolding step is_inside open_at
document_end_closed (EventData.document_end b) implicit (Phase.in_document []) ph' l d e c =
    closed l.ctx l.nodes (length l.nodes) c.composing.opened
document_end_closed _ implicit ph ph' l d e c = let i = c.inside in absurd (ground arith)

load_nodes_closed :
    (events : List Event) (ph ph' : Phase) (l : Loader)
    → steps (contents events) ph ≡ some ph'
    → Composes ph l
    → Yields (λ l'. l'.ctx ≡ []) (load_nodes events l)
unfolding load_nodes steps
load_nodes_closed [] ph ph' l e c = tt
load_nodes_closed (event ∷ events) ph ph' l e c = elim (Option-cases (step event.content ph)) [
  | inl s ↦ absurd (ground arith)
  | inr (next, s) ↦
      let rest : steps (contents events) next ≡ some ph' = ground arith in
      elim (Option-cases (document_end_of event.content)) [
        | inr (implicit, d) ↦
            rw (d, Yields, load_nodes) (document_end_closed event.content implicit ph next l d s c)
        | inl d ↦
            rw (d, Yields, load_nodes)
              (and_then-Yields (Composes next) (λ l'. l'.ctx ≡ [])
                (load_event event.content event.start_mark event.end_mark l) (load_nodes events)
                (load_event-Composes event.content event.start_mark event.end_mark ph next l d s c)
                λ l₁ c₁. load_nodes_closed events next ph' l₁ rest c₁)
      ]
]

-- Where the events behind DOCUMENT-START follow the grammar, as those of the parser do, composing a
-- document fails no assertion and reads no node that is not there; where it succeeds, every
-- collection is closed. The table of anchors is empty before.
pub load_document-closed :
    (event : DocumentStartEvent) (start_mark : Mark) (events : List Event) (ph : Phase) (l : Loader)
    → steps (contents events) Phase.before_root ≡ some ph
    → l.aliases ≡ []
    → Yields (λ l'. l'.ctx ≡ []) (load_document event start_mark events l)
unfolding load_document is_inside open_at
load_document-closed event start_mark events ph l e none_yet =
    and_then-Yields (Same _) (λ l'. l'.ctx ≡ []) (require _)
      (λ l'. load_nodes events (record l' { ctx = [] })) (require-Same _)
      λ l₁ s.
        load_nodes_closed events Phase.before_root ph (record l₁ { ctx = [] }) e
          (record {
            inside = refl;
            composing = record { opened = tt; anchors = rw (s.aliases, none_yet) tt };
          })
