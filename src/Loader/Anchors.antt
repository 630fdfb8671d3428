-- ===== src/Loader/Anchors.antt =====
-- Anchors and aliases (original/src/loader.c, yaml_parser_register_anchor and
-- yaml_parser_load_alias).
use port_libyaml.Base.{
  ℕ, ◌-◌, List, [], ◌∷◌, ◌++◌, none, some, Bytes, ◌≡◌, ◌≢◌, ◌∙◌, refl, sym, ap, inl, inr, arith,
  get_elem?, set, length, ◌==◌, ◌<◌, not, ◌&&◌, Option, if◌then◌else◌, append_assoc, Option-cases,
  strcmp_eq_refl,
}
use port_libyaml.Types.Basics.{Mark, MappingStyle}
use port_libyaml.Loader.State.{
  AliasData, NodeData, Node, Loader, Loaded, int_max, and_then, allocate, require, stack_limit,
  push_alias,
}
use port_libyaml.Loader.Compose.{
  find_alias, add_anchor, register_anchor, complete_pair, write_node, add_child, load_node_add,
  load_alias,
}

-- Entries that do not have the anchor are passed over.
find_alias-append :
    (anchor : Bytes) (ds es : List AliasData)
    → find_alias anchor ds ≡ none
    → find_alias anchor (ds ++ es) ≡ find_alias anchor es
unfolding find_alias
find_alias-append anchor [] es h = refl
find_alias-append anchor (d ∷ ds) es h = ground (arith, find_alias-append anchor ds es)

find_alias-head : (d : AliasData) (es : List AliasData) → find_alias d.anchor (d ∷ es) ≡ some d
unfolding find_alias
find_alias-head d es = rw (strcmp_eq_refl d.anchor) refl

-- What a successful registration has found and done.
pub record Registered (index : ℕ) (anchor : Bytes) (l l' : Loader) : Type 0 where
  pub mark : Mark
  pub fresh : find_alias anchor l.aliases ≡ none
  pub added : l'.aliases ≡ l.aliases ++ record { anchor = anchor; index = index; mark = mark } ∷ []

push_alias_inverse :
    (d : AliasData) (l l' : Loader)
    → push_alias d l ≡ Loaded.done l'
    → l'.aliases ≡ l.aliases ++ d ∷ []
unfolding push_alias
push_alias_inverse d l l' e = ground arith

add_anchor_inverse :
    (index : ℕ) (anchor : Bytes) (mark : Mark) (l l' : Loader)
    → add_anchor index anchor mark l ≡ Loaded.done l'
    → Registered index anchor l l'
unfolding add_anchor
add_anchor_inverse index anchor mark l l' e = elim (Option-cases (find_alias anchor l.aliases)) [
  | inl f ↦
      let d : AliasData = record { anchor = anchor; index = index; mark = mark } in
      let pushed : add_anchor index anchor mark l ≡ push_alias d l = rw (f, add_anchor) refl in
      record { mark = mark; fresh = f; added = push_alias_inverse d l l' (sym pushed ∙ e) }
  | inr (d, f) ↦ absurd (ground arith)
]

register_anchor_inverse :
    (index : ℕ) (anchor : Bytes) (l l' : Loader)
    → register_anchor index (some anchor) l ≡ Loaded.done l'
    → Registered index anchor l l'
unfolding register_anchor
register_anchor_inverse index anchor l l' e = elim (Option-cases (get_elem? l.nodes (index - 1))) [
  | inl f ↦ absurd (ground arith)
  | inr (node, f) ↦
      let added : register_anchor index (some anchor) l
          ≡ add_anchor index anchor node.start_mark l =
        rw (f, register_anchor) refl in
      add_anchor_inverse index anchor node.start_mark l l' (sym added ∙ e)
]

-- The table of anchors, when others have been registered behind one.
found-later :
    (index : ℕ) (anchor : Bytes) (later : List AliasData) (l₁ l₂ l₃ : Loader)
    → (r : Registered index anchor l₁ l₂) → l₃.aliases ≡ l₂.aliases ++ later
    → find_alias anchor l₃.aliases ≡ some (record { anchor = anchor; index = index; mark = r.mark })
found-later index anchor later l₁ l₂ l₃ r more =
    let d : AliasData = record { anchor = anchor; index = index; mark = r.mark } in
    let table : l₃.aliases ≡ l₁.aliases ++ (d ∷ later) =
      more ∙ rw r.added (append_assoc l₁.aliases (d ∷ []) later) in
    rw table (find_alias-append anchor l₁.aliases (d ∷ later) r.fresh ∙ find_alias-head d later)

-- The pairs with a node more: the value of the last one if that is missing, else a new key.
abbrev pub with_node : ℕ → List (ℕ × ℕ) → List (ℕ × ℕ)
with_node index [] = (index, 0) ∷ []
with_node index ((k, v) ∷ []) =
    if v == 0 && not (k == 0) then (k, index) ∷ [] else (k, v) ∷ (index, 0) ∷ []
with_node index (p ∷ q ∷ ps) = p ∷ with_node index (q ∷ ps)

-- A collection with a node more
abbrev pub with_child : ℕ → NodeData → NodeData
with_child index (NodeData.sequence items style) = NodeData.sequence (items ++ index ∷ []) style
with_child index (NodeData.mapping pairs style) = NodeData.mapping (with_node index pairs) style
with_child index (NodeData.scalar value style) = NodeData.scalar value style

-- A collection that has room for an item or a pair more
abbrev pub HasRoom : NodeData → Type 0
HasRoom (NodeData.sequence items style) = length items < int_max - 1
HasRoom (NodeData.mapping pairs style) = length pairs < int_max - 1
HasRoom (NodeData.scalar value style) = ⊥

abbrev pairs_or : List (ℕ × ℕ) → Option (List (ℕ × ℕ)) → List (ℕ × ℕ)
pairs_or xs none = xs
pairs_or xs (some qs) = qs

abbrev behind : ℕ × ℕ → Option (List (ℕ × ℕ)) → Option (List (ℕ × ℕ))
behind p none = none
behind p (some qs) = some (p ∷ qs)

pairs_or-behind :
    (p : ℕ × ℕ) (o : Option (List (ℕ × ℕ))) (xs ys : List (ℕ × ℕ))
    → pairs_or xs o ≡ ys
    → pairs_or (p ∷ xs) (behind p o) ≡ p ∷ ys
pairs_or-behind p none xs ys h = ap (λ zs. p ∷ zs) h
pairs_or-behind p (some qs) xs ys h = ap (λ zs. p ∷ zs) h

complete_pair-with_node :
    (index : ℕ) (pairs : List (ℕ × ℕ))
    → pairs_or (pairs ++ (index, 0) ∷ []) (complete_pair index pairs) ≡ with_node index pairs
unfolding complete_pair
complete_pair-with_node index [] = refl
complete_pair-with_node index ((k, v) ∷ []) = ground arith
complete_pair-with_node index (p ∷ q ∷ ps) =
    pairs_or-behind p (complete_pair index (q ∷ ps)) ((q ∷ ps) ++ (index, 0) ∷ [])
      (with_node index (q ∷ ps)) (complete_pair-with_node index (q ∷ ps))

stack_limit_room : (size : ℕ) (l : Loader) → size < int_max - 1 → stack_limit size l ≡ Loaded.done l
unfolding stack_limit
stack_limit_room size l h = ground arith

require_memory : (l : Loader) → l.memory ≡ [] → require l ≡ Loaded.done l
unfolding require allocate
require_memory l h = rw h refl

completed :
    (parent index : ℕ) (node : Node) (pairs : List (ℕ × ℕ)) (style : MappingStyle) (l : Loader)
    (o : Option (List (ℕ × ℕ)))
    → length pairs < int_max - 1
    → l.memory ≡ []
    → pairs_or (pairs ++ (index, 0) ∷ []) o ≡ with_node index pairs
    → elim o as (λ x. Loaded) [
      | some pairs' ↦ write_node parent node (NodeData.mapping pairs' style) l
      | none ↦ and_then (stack_limit (length pairs) l) λ l'.
          and_then
            (require l')
            (write_node parent node (NodeData.mapping (pairs ++ (index, 0) ∷ []) style))
    ]
      ≡ write_node parent node (NodeData.mapping (with_node index pairs) style) l
completed parent index node pairs style l none room memory h =
    rw (stack_limit_room (length pairs) l room, require_memory l memory)
      (ap (λ qs. write_node parent node (NodeData.mapping qs style) l) h)
completed parent index node pairs style l (some qs) room memory h =
    ap (λ qs. write_node parent node (NodeData.mapping qs style) l) h

add_child-with_child :
    (parent index : ℕ) (node : Node) (content : NodeData) (l : Loader)
    → HasRoom content
    → l.memory ≡ []
    → add_child parent node content index l ≡ write_node parent node (with_child index content) l
unfolding add_child
add_child-with_child parent index node (NodeData.sequence items style) l room memory =
    rw (stack_limit_room (length items) l room, require_memory l memory) refl
add_child-with_child parent index node (NodeData.mapping pairs style) l room memory =
    completed parent index node pairs style l (complete_pair index pairs) room memory
      (complete_pair-with_node index pairs)
add_child-with_child parent index node (NodeData.scalar value style) l room memory = absurd room

found_parent :
    (parent index : ℕ) (l : Loader) (o : Option Node) (node : Node)
    → o ≡ some node
    → elim o [ none ↦ Loaded.fault | some node ↦ add_child parent node node.content index l ]
      ≡ add_child parent node node.content index l
found_parent parent index l o node h = rw h refl

load_node_add-add_child :
    (parent index : ℕ) (l : Loader) (c ctx : List ℕ) (node : Node)
    → c ≡ parent ∷ ctx
    → get_elem? l.nodes (parent - 1) ≡ some node
    → elim c [
      | [] ↦ Loaded.done l
      | parent ∷ ctx ↦ elim (get_elem? l.nodes (parent - 1)) [
        | none ↦ Loaded.fault
        | some node ↦ add_child parent node node.content index l
      ]
    ]
      ≡ add_child parent node node.content index l
load_node_add-add_child parent index l c ctx node h found =
    rw h (found_parent parent index l (get_elem? l.nodes (parent - 1)) node found)

load_alias_found :
    (anchor : Bytes) (mark : Mark) (l : Loader) (d : AliasData)
    → find_alias anchor l.aliases ≡ some d
    → load_alias anchor mark l ≡ load_node_add d.index l
unfolding load_alias
load_alias_found anchor mark l d h = rw (h, load_alias) refl

-- Where an anchor was registered for a node, and whatever anchors are registered behind it, an alias
-- of that name puts the node into the innermost open collection: behind the items of a sequence; in a
-- mapping as the value of the last pair if that is missing, and as a new key if not. Nothing else
-- changes. The collection has room, and there is memory.
pub load_alias-register_anchor :
    (index parent : ℕ) (anchor : Bytes) (mark : Mark) (later : List AliasData) (ctx : List ℕ)
    (node : Node) (l₁ l₂ l₃ : Loader)
    → register_anchor index (some anchor) l₁ ≡ Loaded.done l₂
    → l₃.aliases ≡ l₂.aliases ++ later
    → l₃.ctx ≡ parent ∷ ctx
    → get_elem? l₃.nodes (parent - 1) ≡ some node
    → HasRoom node.content
    → l₃.memory ≡ []
    → load_alias anchor mark l₃
      ≡ Loaded.done (record l₃ {
        nodes = set l₃.nodes (parent - 1) (record node { content = with_child index node.content });
      })
unfolding load_node_add write_node
load_alias-register_anchor index parent anchor mark later ctx node l₁ l₂ l₃ e more inner found room
      memory =
    let r = register_anchor_inverse index anchor l₁ l₂ e in
    load_alias_found anchor mark l₃ _ (found-later index anchor later l₁ l₂ l₃ r more)
    ∙ load_node_add-add_child parent index l₃ l₃.ctx ctx node inner found
    ∙ add_child-with_child parent index node node.content l₃ room memory

-- An anchor that was registered is not registered again, whatever was registered in between.
pub register_anchor-register_anchor :
    (index again : ℕ) (anchor : Bytes) (later : List AliasData) (l₁ l₂ l₃ l₄ : Loader)
    → register_anchor index (some anchor) l₁ ≡ Loaded.done l₂
    → l₃.aliases ≡ l₂.aliases ++ later
    → register_anchor again (some anchor) l₃ ≢ Loaded.done l₄
register_anchor-register_anchor index again anchor later l₁ l₂ l₃ l₄ e more done_again =
    let r = register_anchor_inverse index anchor l₁ l₂ e in
    let s = register_anchor_inverse again anchor l₃ l₄ done_again in
    let clash = sym s.fresh ∙ found-later index anchor later l₁ l₂ l₃ r more in ground arith
