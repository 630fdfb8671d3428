-- ===== src/Loader/Opening.antt =====
-- The start of a collection, and a scalar: a new node for the next place of the grammar
-- (original/src/loader.c, yaml_parser_load_scalar, yaml_parser_load_sequence and
-- yaml_parser_load_mapping).
use port_libyaml.Base.{
  ℕ, zero, suc, ◌-◌, ◌≤◌, ◌<◌, List, [], ◌∷◌, ◌++◌, some, ◌≡◌, ◌∙◌, refl, inl, inr, arith, length,
  length-append, get_elem?, set, Option-cases,
}
use port_libyaml.Grammar.{Frame}
use port_libyaml.Loader.State.{
  NodeData, Node, AliasData, Loader, Loaded, and_then, require, stack_limit, push_node,
}
use port_libyaml.Loader.Compose.{complete_pair, write_node, add_child, load_node_add}
use port_libyaml.Loader.Open.{length-set, AreOpen, AreOpen-append}
use port_libyaml.Loader.Composing.{
  AreAnchors, Composing, Yields, and_then-Yields, Same, require-Same, stack_limit-Same, advance,
  load_node_add-Composing,
}

pub AreAnchors-append :
    (ds : List AliasData) (d : AliasData) → AreAnchors ds → 1 ≤ d.index → AreAnchors (ds ++ d ∷ [])
AreAnchors-append [] d a k = (k, tt)
AreAnchors-append (c ∷ ds) d a k = (a.0, AreAnchors-append ds d a.1 k)

module _ {ℓ} {A : Type ℓ} where
  get_elem?-set_before :
      (xs : List A) (i j : ℕ) (v : A) → j < i → get_elem? (set xs j v) i ≡ get_elem? xs i
  get_elem?-set_before [] i j v h = refl
  get_elem?-set_before (y ∷ xs) zero j v h = absurd (omega arith)
  get_elem?-set_before (y ∷ xs) (suc i) zero v h = refl
  get_elem?-set_before (y ∷ xs) (suc i) (suc j) v h = get_elem?-set_before xs i j v (omega arith)

  get_elem?-last : (xs : List A) (x : A) → get_elem? (xs ++ x ∷ []) (length xs) ≡ some x
  get_elem?-last [] x = refl
  get_elem?-last (y ∷ xs) x = get_elem?-last xs x

-- The node under construction, at the end of the nodes, over the open collections.
pub record Under (fs : List Frame) (index : ℕ) (node : Node) (l : Loader) : Type 0 where
  pub opened : AreOpen fs l.ctx l.nodes (index - 1)
  pub low : 1 ≤ index
  pub size : length l.nodes ≡ index
  pub found : get_elem? l.nodes (index - 1) ≡ some node
  pub anchors : AreAnchors l.aliases

AreOpen-weaken :
    (fs : List Frame) (ctx : List ℕ) (nodes : List Node) (b c : ℕ)
    → b ≤ c
    → AreOpen fs ctx nodes b
    → AreOpen fs ctx nodes c
AreOpen-weaken [] [] nodes b c h o = tt
AreOpen-weaken (f ∷ fs) (i ∷ ctx) nodes b c h (lo, hi, held, o) = (lo, omega arith, held, o)
AreOpen-weaken _ _ nodes b c h o = absurd o

-- The innermost open collection is at `b` at most.
abbrev IsBelow : List ℕ → ℕ → Type 0
IsBelow [] b = Unit
IsBelow (i ∷ ctx) b = (1 ≤ i) × (i ≤ b)

AreOpen-IsBelow :
    (fs : List Frame) (ctx : List ℕ) (nodes : List Node) (b : ℕ)
    → AreOpen fs ctx nodes b
    → IsBelow ctx b
AreOpen-IsBelow [] [] nodes b o = tt
AreOpen-IsBelow (f ∷ fs) (i ∷ ctx) nodes b (lo, hi, held, o) = (lo, hi)
AreOpen-IsBelow _ _ nodes b o = absurd o

AreOpen-tighten :
    (fs : List Frame) (ctx : List ℕ) (nodes : List Node) (b c : ℕ)
    → IsBelow ctx b
    → AreOpen fs ctx nodes c
    → AreOpen fs ctx nodes b
AreOpen-tighten [] [] nodes b c h o = tt
AreOpen-tighten (f ∷ fs) (i ∷ ctx) nodes b c h (lo, hi, held, o) = (lo, h.1, held, o)
AreOpen-tighten _ _ nodes b c h o = absurd o

-- `P` where the function returns 1.
abbrev Gives : (Loader → Type 0) → Loaded → Type 0
Gives P (Loaded.done l) = P l
Gives P _ = Unit

both :
    (P Q R : Loader → Type 0) (r : Loaded)
    → Yields P r
    → Gives Q r
    → ((l : Loader) → P l → Q l → R l)
    → Yields R r
both P Q R (Loaded.done l) p q k = k l p q
both P Q R (Loaded.failed l) p q k = tt
both P Q R Loaded.fault p q k = absurd p

-- The nodes at `b` and the stack are as they were.
record Kept (b : ℕ) (l l' : Loader) : Type 0 where
  found : get_elem? l'.nodes b ≡ get_elem? l.nodes b
  size : length l'.nodes ≡ length l.nodes
  ctx : l'.ctx ≡ l.ctx

write_node-Kept :
    (at b : ℕ) (node : Node) (content : NodeData) (l : Loader)
    → 1 ≤ at
    → at ≤ b
    → Gives (Kept b l) (write_node at node content l)
unfolding write_node
write_node-Kept at b node content l lo hi =
    let node' : Node = record node { content = content } in
    record {
      found = get_elem?-set_before l.nodes b (at - 1) node' (omega arith);
      size = length-set l.nodes (at - 1) node';
      ctx = refl;
    }

Kept-Same : (b : ℕ) (l l₁ l' : Loader) → Same l l₁ → Kept b l₁ l' → Kept b l l'
Kept-Same b l l₁ l' s k = record {
  found = rw⁻¹ s.nodes k.found;
  size = rw⁻¹ s.nodes k.size;
  ctx = k.ctx ∙ s.ctx;
}

-- Where the stacks stay the same first.
after-Kept :
    (b : ℕ) (l : Loader) (r : Loaded) (f : Loader → Loaded)
    → Yields (Same l) r
    → ((l₁ : Loader) → Gives (Kept b l₁) (f l₁))
    → Gives (Kept b l) (and_then r f)
after-Kept b l (Loaded.done l₁) f s k = go (f l₁) (k l₁)
  where
    go : (r : Loaded) → Gives (Kept b l₁) r → Gives (Kept b l) r
    go (Loaded.done l') h = Kept-Same b l l₁ l' s h
    go (Loaded.failed l') h = tt
    go Loaded.fault h = tt
after-Kept b l (Loaded.failed l₁) f s k = tt
after-Kept b l Loaded.fault f s k = tt

grow-Kept :
    (size at b : ℕ) (node : Node) (content : NodeData) (l : Loader)
    → 1 ≤ at
    → at ≤ b
    → Gives
        (Kept b l)
        (and_then (stack_limit size l) λ l'. and_then (require l') (write_node at node content))
grow-Kept size at b node content l lo hi =
    after-Kept b l (stack_limit size l) (λ l'. and_then (require l') (write_node at node content))
      (stack_limit-Same size l)
      λ l₁.
        after-Kept b l₁ (require l₁) (write_node at node content) (require-Same l₁)
          λ l₂. write_node-Kept at b node content l₂ lo hi

add_child-Kept :
    (at index b : ℕ) (node : Node) (content : NodeData) (l : Loader)
    → 1 ≤ at
    → at ≤ b
    → Gives (Kept b l) (add_child at node content index l)
unfolding add_child
add_child-Kept at index b node (NodeData.sequence items style) l lo hi =
    grow-Kept (length items) at b node (NodeData.sequence (items ++ index ∷ []) style) l lo hi
add_child-Kept at index b node (NodeData.mapping pairs style) l lo hi =
    elim (Option-cases (complete_pair index pairs)) [
      | inr (pairs', e) ↦
          rw (e, Gives, add_child)
            (write_node-Kept at b node (NodeData.mapping pairs' style) l lo hi)
      | inl e ↦
          rw (e, Gives, add_child)
            (grow-Kept (length pairs) at b node (NodeData.mapping (pairs ++ (index, 0) ∷ []) style)
              l lo hi)
    ]
add_child-Kept at index b node (NodeData.scalar value style) l lo hi = tt

load_node_add-Kept :
    (index b : ℕ) (ctx : List ℕ) (l : Loader)
    → l.ctx ≡ ctx
    → IsBelow ctx b
    → Gives (Kept b l) (load_node_add index l)
unfolding load_node_add
load_node_add-Kept index b [] l e h =
    rw (e, Gives, load_node_add) (record { found = refl; size = refl; ctx = refl })
load_node_add-Kept index b (i ∷ ctx) l e h = elim (Option-cases (get_elem? l.nodes (i - 1))) [
  | inl f ↦ rw (e, f, Gives, load_node_add) tt
  | inr (node, f) ↦
      rw (e, f, Gives, load_node_add) (add_child-Kept i index b node node.content l h.0 h.1)
]

pub Under-Composing :
    (fs : List Frame) (index : ℕ) (node : Node) (l : Loader)
    → Under fs index node l
    → Composing fs l
Under-Composing fs index node l u = record {
  opened =
      AreOpen-weaken fs l.ctx l.nodes (index - 1) (length l.nodes) (omega (arith, u.size)) u.opened;
  anchors = u.anchors;
}

pub load_node_add-Under :
    (fs : List Frame) (index : ℕ) (node : Node) (l : Loader)
    → Under fs index node l
    → Yields (Under (advance fs) index node) (load_node_add index l)
load_node_add-Under fs index node l u =
    let below = AreOpen-IsBelow fs l.ctx l.nodes (index - 1) u.opened in
    both (Composing (advance fs)) (Kept (index - 1) l) (Under (advance fs) index node)
      (load_node_add index l)
      (load_node_add-Composing index fs l u.low (Under-Composing fs index node l u))
      (load_node_add-Kept index (index - 1) l.ctx l refl below)
      λ l' c k. record {
        opened =
            AreOpen-tighten (advance fs) l'.ctx l'.nodes (index - 1) (length l'.nodes)
              (rw k.ctx below) c.opened;
        low = u.low;
        size = k.size ∙ u.size;
        found = k.found ∙ u.found;
        anchors = c.anchors;
      }

pub push_node-Under :
    (fs : List Frame) (node : Node) (l : Loader)
    → Composing fs l
    → Yields (λ l'. Under fs (length l'.nodes) node l') (push_node node l)
unfolding push_node
push_node-Under fs node l c =
    and_then-Yields (Same l) (λ l'. Under fs (length l'.nodes) node l') (require l)
      (λ l'. Loaded.done (record l' { nodes = l'.nodes ++ node ∷ [] })) (require-Same l)
      λ l₁ s.
        let size : length (l₁.nodes ++ node ∷ []) ≡ suc (length l₁.nodes) =
          omega (arith, length-append l₁.nodes (node ∷ [])) in
        let less : length (l₁.nodes ++ node ∷ []) - 1 ≡ length l₁.nodes = omega (arith, size) in
        record {
          opened = rw less (
              AreOpen-append fs l₁.ctx l₁.nodes (node ∷ []) (length l₁.nodes) (length l₁.nodes)
                (omega arith) (rw (s.nodes, s.ctx) c.opened));
          low = omega (arith, size);
          size = refl;
          found = rw less (get_elem?-last l₁.nodes node);
          anchors = rw s.aliases c.anchors;
        }
