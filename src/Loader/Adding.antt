-- ===== src/Loader/Adding.antt =====
-- Scalars and the starts of collections (original/src/loader.c, yaml_parser_load_scalar,
-- yaml_parser_load_sequence and yaml_parser_load_mapping).
use port_libyaml.Base.{
  ℕ, ◌≤◌, Bool, true, false, List, [], ◌∷◌, ◌++◌, Option, none, some, Bytes, ◌≡◌, refl, inl, inr,
  arith, length, Option-cases, Bool-cases,
}
use port_libyaml.Types.Basics.{Mark}
use port_libyaml.Types.Events.{ScalarEvent, SequenceStartEvent, MappingStartEvent}
use port_libyaml.Parser.Node.{is_bang}
use port_libyaml.Grammar.{Frame}
use port_libyaml.Loader.State.{
  NodeData, Node, AliasData, Loader, Loaded, and_then, allocate, require, stack_limit, push_node,
  push_alias, push_ctx, set_composer_error_context,
}
use port_libyaml.Loader.Compose.{
  find_alias, add_anchor, register_anchor, load_node_add, default_scalar_tag, default_sequence_tag,
  default_mapping_tag, with_tag, add_node, load_scalar, open_node, load_collection, load_sequence,
  load_mapping,
}
use port_libyaml.Loader.Open.{holds}
use port_libyaml.Loader.Composing.{
  Composing, Yields, and_then-Yields, Same, require-Same, stack_limit-Same, advance,
}
use port_libyaml.Loader.Opening.{
  Under, Under-Composing, AreAnchors-append, push_node-Under, load_node_add-Under,
}

push_alias-Under :
    (fs : List Frame) (index : ℕ) (node : Node) (d : AliasData) (l : Loader)
    → 1 ≤ d.index
    → Under fs index node l
    → Yields (Under fs index node) (push_alias d l)
unfolding push_alias
push_alias-Under fs index node d l k u =
    and_then-Yields (Same l) (Under fs index node) (require l)
      (λ l'. Loaded.done (record l' { aliases = l'.aliases ++ d ∷ [] })) (require-Same l)
      λ l₁ s. record {
        opened = rw (s.nodes, s.ctx) u.opened;
        low = u.low;
        size = rw s.nodes u.size;
        found = rw s.nodes u.found;
        anchors = rw s.aliases (AreAnchors-append l.aliases d u.anchors k);
      }

register_anchor-Under :
    (fs : List Frame) (index : ℕ) (node : Node) (anchor : Option Bytes) (l : Loader)
    → Under fs index node l
    → Yields (Under fs index node) (register_anchor index anchor l)
unfolding register_anchor add_anchor
register_anchor-Under fs index node none l u = u
register_anchor-Under fs index node (some anchor) l u =
    elim (Option-cases (find_alias anchor l.aliases)) [
      | inr (d, e) ↦
          rw (u.found, e, Yields, register_anchor, add_anchor, set_composer_error_context) tt
      | inl e ↦
          rw (u.found, e, Yields, register_anchor, add_anchor)
            (push_alias-Under fs index node
              (record { anchor = anchor; index = index; mark = node.start_mark }) l u.low u)
    ]

add_node-Yields :
    (P : Loader → Type 0) (fs : List Frame) (node : Node) (anchor : Option Bytes)
    (k : ℕ → Loader → Loaded) (l : Loader)
    → Composing fs l
    → ((index : ℕ) (l' : Loader) → Under (advance fs) index node l' → Yields P (k index l'))
    → Yields P (add_node node anchor k l)
unfolding add_node
add_node-Yields P fs node anchor k l c h =
    and_then-Yields (λ l'. Under fs (length l'.nodes) node l') P (push_node node l)
      (λ l₁.
        and_then (register_anchor (length l₁.nodes) anchor l₁)
          λ l₂. and_then (load_node_add (length l₁.nodes) l₂) (k (length l₁.nodes)))
      (push_node-Under fs node l c)
      λ l₁ u₁.
        let index = length l₁.nodes in
        and_then-Yields (Under fs index node) P (register_anchor index anchor l₁)
          (λ l₂. and_then (load_node_add index l₂) (k index))
          (register_anchor-Under fs index node anchor l₁ u₁)
          λ l₂ u₂.
            and_then-Yields (Under (advance fs) index node) P (load_node_add index l₂) (k index)
              (load_node_add-Under fs index node l₂ u₂) (h index)

allocate_from :
    (P : Loader → Type 0) (given refused : Loader → Loaded) (m : List Bool) (l : Loader)
    → l.memory ≡ m
    → ((l' : Loader) → Same l l' → Yields P (given l'))
    → ((l' : Loader) → Yields P (refused l'))
    → Yields P (allocate given refused l)
unfolding allocate
allocate_from P given refused [] l e g r =
    rw (e, Yields, allocate) (g l (record { nodes = refl; aliases = refl; ctx = refl }))
allocate_from P given refused (true ∷ m) l e g r =
    rw (e, Yields, allocate)
      (g (record l { memory = m }) (record { nodes = refl; aliases = refl; ctx = refl }))
allocate_from P given refused (false ∷ m) l e g r =
    rw (e, Yields, allocate) (r (record l { memory = m }))

with_tag-Yields :
    (P : Loader → Type 0) (default : Bytes) (tag : Option Bytes) (k : Bytes → Loader → Loaded)
    (l : Loader)
    → ((tag' : Bytes) (l' : Loader) → Same l l' → Yields P (k tag' l'))
    → Yields P (with_tag default tag k l)
unfolding with_tag
with_tag-Yields P default none k l h =
    allocate_from P (k default) Loaded.failed l.memory l refl (h default) (λ l'. tt)
with_tag-Yields P default (some tag) k l h = elim (Bool-cases (is_bang (some tag))) [
  | inl e ↦
      rw (e, Yields, with_tag)
        (allocate_from P (k default) Loaded.failed l.memory l refl (h default) (λ l'. tt))
  | inr e ↦ rw (e, Yields, with_tag) (h tag l (record { nodes = refl; aliases = refl; ctx = refl }))
]

pub Composing-Same :
    (fs : List Frame) (l l' : Loader) → Same l l' → Composing fs l → Composing fs l'
Composing-Same fs l l' s c = record {
  opened = rw (s.nodes, s.ctx) c.opened;
  anchors = rw s.aliases c.anchors;
}

pub load_scalar-Composing :
    (fs : List Frame) (event : ScalarEvent) (start_mark end_mark : Mark) (l : Loader)
    → Composing fs l
    → Yields (Composing (advance fs)) (load_scalar event start_mark end_mark l)
unfolding load_scalar
load_scalar-Composing fs event start_mark end_mark l c =
    and_then-Yields (Same l) (Composing (advance fs)) (stack_limit (length l.nodes) l) _
      (stack_limit-Same (length l.nodes) l)
      λ l₁ s₁.
        with_tag-Yields (Composing (advance fs)) default_scalar_tag event.tag _ l₁ λ tag l₂ s₂.
          add_node-Yields (Composing (advance fs)) fs _ event.anchor (λ index. Loaded.done) l₂
            (Composing-Same fs l₁ l₂ s₂ (Composing-Same fs l l₁ s₁ c))
            λ index l₃ u. Under-Composing (advance fs) index _ l₃ u

open_node-Composing :
    (f : Frame) (fs : List Frame) (index : ℕ) (node : Node) (l : Loader)
    → holds f node.content ≡ true
    → Under fs index node l
    → Yields (Composing (f ∷ fs)) (open_node index l)
unfolding open_node push_ctx
open_node-Composing f fs index node l h u =
    and_then-Yields (Same l) (Composing (f ∷ fs)) (stack_limit (length l.ctx) l) (push_ctx index)
      (stack_limit-Same (length l.ctx) l)
      λ l₁ s₁.
        and_then-Yields (Same l₁) (Composing (f ∷ fs)) (require l₁)
          (λ l'. Loaded.done (record l' { ctx = index ∷ l'.ctx })) (require-Same l₁)
          λ l₂ s₂. record {
            opened =
                rw (s₂.nodes, s₁.nodes, s₂.ctx, s₁.ctx)
                  (
                    u.low,
                    rw u.size (omega arith),
                    record { node = node; found = u.found; waits = h },
                    u.opened,
                  );
            anchors = rw (s₂.aliases, s₁.aliases) u.anchors;
          }

load_collection-Composing :
    (f : Frame) (fs : List Frame) (default : Bytes) (tag anchor : Option Bytes) (content : NodeData)
    (start_mark end_mark : Mark) (l : Loader)
    → holds f content ≡ true
    → Composing fs l
    → Yields
        (Composing (f ∷ advance fs))
        (load_collection default tag anchor content start_mark end_mark l)
unfolding load_collection
load_collection-Composing f fs default tag anchor content start_mark end_mark l h c =
    let P = Composing (f ∷ advance fs) in
    and_then-Yields (Same l) P (stack_limit (length l.nodes) l) _
      (stack_limit-Same (length l.nodes) l)
      λ l₁ s₁. with_tag-Yields P default tag _ l₁ λ tag' l₂ s₂.
        and_then-Yields (Same l₂) P (require l₂) _ (require-Same l₂) λ l₃ s₃.
          add_node-Yields P fs _ anchor open_node l₃
            (Composing-Same fs l₂ l₃ s₃ (Composing-Same fs l₁ l₂ s₂ (Composing-Same fs l l₁ s₁ c)))
            λ index l₄ u. open_node-Composing f (advance fs) index _ l₄ h u

pub load_sequence-Composing :
    (fs : List Frame) (event : SequenceStartEvent) (start_mark end_mark : Mark) (l : Loader)
    → Composing fs l
    → Yields
        (Composing (Frame.in_sequence ∷ advance fs))
        (load_sequence event start_mark end_mark l)
unfolding load_sequence holds
load_sequence-Composing fs event start_mark end_mark l c =
    load_collection-Composing Frame.in_sequence fs default_sequence_tag event.tag event.anchor
      (NodeData.sequence [] event.style) start_mark end_mark l refl c

pub load_mapping-Composing :
    (fs : List Frame) (event : MappingStartEvent) (start_mark end_mark : Mark) (l : Loader)
    → Composing fs l
    → Yields (Composing (Frame.before_key ∷ advance fs)) (load_mapping event start_mark end_mark l)
unfolding load_mapping holds
load_mapping-Composing fs event start_mark end_mark l c =
    load_collection-Composing Frame.before_key fs default_mapping_tag event.tag event.anchor
      (NodeData.mapping [] event.style) start_mark end_mark l refl c
