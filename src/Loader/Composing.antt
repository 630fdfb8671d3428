-- ===== src/Loader/Composing.antt =====
-- The stack of open collections through yaml_parser_load_node_add (original/src/loader.c).
use port_libyaml.Base.{
  ℕ, ◌-◌, ◌≤◌, true, false, List, [], ◌∷◌, ◌++◌, some, ◌≡◌, ◌∙◌, refl, arith, length, get_elem?,
}
use port_libyaml.Grammar.{Frame}
use port_libyaml.Loader.State.{
  NodeData, Node, AliasData, Loader, Loaded, and_then, require, stack_limit,
}
use port_libyaml.Loader.Compose.{write_node, add_child, load_node_add}
use port_libyaml.Loader.Open.{
  get_elem?-set, length-set, missing, holds, AreOpen, AreOpen-set, complete_pair_missing,
  complete_pair_complete, missing-append,
}

-- The anchors stand for nodes.
abbrev pub AreAnchors : List AliasData → Type 0
AreAnchors [] = Unit
AreAnchors (d ∷ ds) = (1 ≤ d.index) × AreAnchors ds

pub record Composing (fs : List Frame) (l : Loader) : Type 0 where
  pub opened : AreOpen fs l.ctx l.nodes (length l.nodes)
  pub anchors : AreAnchors l.aliases

-- A function returns 1 with `P`, or 0; no assertion fails.
abbrev pub Yields : (Loader → Type 0) → Loaded → Type 0
Yields P (Loaded.done l) = P l
Yields P (Loaded.failed l) = Unit
Yields P Loaded.fault = ⊥

pub and_then-Yields :
    (Q P : Loader → Type 0) (r : Loaded) (f : Loader → Loaded)
    → Yields Q r
    → ((l : Loader) → Q l → Yields P (f l))
    → Yields P (and_then r f)
and_then-Yields Q P (Loaded.done l) f h k = k l h
and_then-Yields Q P (Loaded.failed l) f h k = tt
and_then-Yields Q P Loaded.fault f h k = absurd h

-- The stacks are as they were.
pub record Same (l l' : Loader) : Type 0 where
  pub nodes : l'.nodes ≡ l.nodes
  pub aliases : l'.aliases ≡ l.aliases
  pub ctx : l'.ctx ≡ l.ctx

pub require-Same : (l : Loader) → Yields (Same l) (require l)
unfolding require
require-Same l = ground arith

pub stack_limit-Same : (size : ℕ) (l : Loader) → Yields (Same l) (stack_limit size l)
unfolding stack_limit
stack_limit-Same size l = ground arith

-- A new node, or the start of a collection, takes the next place of the innermost collection.
unfoldable pub advance : List Frame → List Frame
advance [] = []
advance (Frame.in_sequence ∷ fs) = Frame.in_sequence ∷ fs
advance (Frame.before_key ∷ fs) = Frame.before_value ∷ fs
advance (Frame.before_value ∷ fs) = Frame.before_key ∷ fs

-- The open collection at `at`, that waits as `f` says, over those that `fs` says.
pub record Parent (at : ℕ) (node : Node) (fs : List Frame) (ctx : List ℕ) (l : Loader)
    : Type 0 where
  pub low : 1 ≤ at
  pub high : at ≤ length l.nodes
  pub stack : l.ctx ≡ at ∷ ctx
  pub found : get_elem? l.nodes (at - 1) ≡ some node
  pub outer : AreOpen fs ctx l.nodes (at - 1)
  pub anchors : AreAnchors l.aliases

Parent-Same :
    (at : ℕ) (node : Node) (fs : List Frame) (ctx : List ℕ) (l l' : Loader)
    → Same l l'
    → Parent at node fs ctx l
    → Parent at node fs ctx l'
Parent-Same at node fs ctx l l' s p = record {
  low = p.low;
  high = rw s.nodes p.high;
  stack = s.ctx ∙ p.stack;
  found = rw s.nodes p.found;
  outer = rw s.nodes p.outer;
  anchors = rw s.aliases p.anchors;
}

write_node-Composing :
    (at : ℕ) (node : Node) (content : NodeData) (f : Frame) (fs : List Frame) (ctx : List ℕ)
    (l : Loader)
    → Parent at node fs ctx l
    → holds f content ≡ true
    → Yields (Composing (f ∷ fs)) (write_node at node content l)
unfolding write_node
write_node-Composing at node content f fs ctx l p h =
    let node' : Node = record node { content = content } in
    record {
      opened = rw p.stack (
        p.low,
        rw (length-set l.nodes (at - 1) node') p.high,
        record {
          node = node';
          found = get_elem?-set l.nodes (at - 1) node node' p.found;
          waits = h;
        },
        AreOpen-set fs ctx l.nodes (at - 1) (at - 1) (at - 1) node' (omega arith) (omega arith)
            p.outer,
      );
      anchors = p.anchors;
    }

-- A child is appended within the limit of the stack, if there is memory.
grow-Composing :
    (size at : ℕ) (node : Node) (content : NodeData) (f : Frame) (fs : List Frame) (ctx : List ℕ)
    (l : Loader)
    → Parent at node fs ctx l
    → holds f content ≡ true
    → Yields
        (Composing (f ∷ fs))
        (and_then (stack_limit size l) λ l'. and_then (require l') (write_node at node content))
grow-Composing size at node content f fs ctx l p h =
    and_then-Yields (Same l) (Composing (f ∷ fs)) (stack_limit size l)
      (λ l'. and_then (require l') (write_node at node content)) (stack_limit-Same size l)
      λ l₁ s₁.
        and_then-Yields (Same l₁) (Composing (f ∷ fs)) (require l₁) (write_node at node content)
          (require-Same l₁)
          λ l₂ s₂.
            write_node-Composing at node content f fs ctx l₂
              (Parent-Same at node fs ctx l₁ l₂ s₂ (Parent-Same at node fs ctx l l₁ s₁ p)) h

add_child-Composing :
    (at index : ℕ) (node : Node) (content : NodeData) (f : Frame) (fs : List Frame) (ctx : List ℕ)
    (l : Loader)
    → Parent at node fs ctx l
    → 1 ≤ index
    → holds f content ≡ true
    → Yields (Composing (advance (f ∷ fs))) (add_child at node content index l)
unfolding add_child advance holds
add_child-Composing at index node (NodeData.sequence items style) Frame.in_sequence fs ctx l p k h =
    grow-Composing (length items) at node (NodeData.sequence (items ++ index ∷ []) style)
      Frame.in_sequence fs ctx l p refl
add_child-Composing at index node (NodeData.mapping pairs style) Frame.before_key fs ctx l p k h =
    let complete : missing pairs ≡ false = ground arith in
    rw (complete_pair_complete index pairs complete, Yields, add_child)
      (grow-Composing (length pairs) at node (NodeData.mapping (pairs ++ (index, 0) ∷ []) style)
        Frame.before_value fs ctx l p (missing-append index pairs k))
add_child-Composing at index node (NodeData.mapping pairs style) Frame.before_value fs ctx l p k h =
    let r = complete_pair_missing index pairs k h in
    rw (r.computes, Yields, add_child)
      (write_node-Composing at node (NodeData.mapping r.result style) Frame.before_key fs ctx l p
        (rw r.complete refl))
add_child-Composing at index node _ f fs ctx l p k h = absurd (ground arith)

-- What stands on the stack at a place of the grammar.
load_node_add_at :
    (index : ℕ) (fs : List Frame) (ctx : List ℕ) (l : Loader)
    → 1 ≤ index
    → l.ctx ≡ ctx
    → AreOpen fs ctx l.nodes (length l.nodes)
    → AreAnchors l.aliases
    → Yields (Composing (advance fs)) (load_node_add index l)
unfolding load_node_add advance
load_node_add_at index [] [] l k e o anchors = rw e (record { opened = o; anchors = anchors })
load_node_add_at index (f ∷ fs) (i ∷ ctx) l k e (lo, hi, held, o) anchors =
    rw (e, held.found, Yields, load_node_add)
      (add_child-Composing i index held.node held.node.content f fs ctx l
        (record {
          low = lo;
          high = hi;
          stack = e;
          found = held.found;
          outer = o;
          anchors = anchors;
        })
        k held.waits)
load_node_add_at index _ _ l k e o anchors = absurd o

-- A node with its index put into the innermost open collection: no assertion fails, and the stack of
-- open collections stands at the next place of the grammar, with the last pair of a mapping completed
-- where it waits for a value. Before it, the stack stands at the place `fs`.
pub load_node_add-Composing :
    (index : ℕ) (fs : List Frame) (l : Loader)
    → 1 ≤ index
    → Composing fs l
    → Yields (Composing (advance fs)) (load_node_add index l)
load_node_add-Composing index fs l k c = load_node_add_at index fs l.ctx l k refl c.opened c.anchors
