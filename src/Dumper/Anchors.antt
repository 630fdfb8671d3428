-- ===== src/Dumper/Anchors.antt =====
-- yaml_emitter_anchor_node and yaml_emitter_generate_anchor (original/src/dumper.c): which nodes of a
-- document get an anchor, and what it is called.
use port_libyaml.Base.{
  ℕ, zero, suc, ◌+◌, ◌/◌, ◌%◌, Bool, true, false, List, [], ◌∷◌, ◌++◌, ltb, Option, none, some,
  Bytes, get_elem?, set,
}
use port_libyaml.Loader.State.{NodeData, Node}

-- yaml_anchors_t
pub record AnchorInfo : Type 0 where
  pub references : ℕ
  pub anchor : ℕ
  pub serialized : Bool

-- emitter->anchors and emitter->last_anchor_id; the numbers are not bounded by INT_MAX.
pub record Anchoring : Type 0 where
  pub anchors : List AnchorInfo
  pub last_anchor_id : ℕ

-- `start + index - 1`, `none` out of bounds
abbrev pub entry : {A : Type 0} → List A → ℕ → Option A
entry xs zero = none
entry xs (suc i) = get_elem? xs i

-- A write there; out of bounds it changes nothing.
abbrev pub set_entry : {A : Type 0} → List A → ℕ → A → List A
set_entry xs zero v = xs
set_entry xs (suc i) v = set xs i v

abbrev pub flatten : List (ℕ × ℕ) → List ℕ
flatten [] = []
flatten ((key, value) ∷ pairs) = key ∷ value ∷ flatten pairs

-- The nodes that the loops over a collection visit, in order.
unfoldable pub children : NodeData → List ℕ
children (NodeData.scalar value style) = []
children (NodeData.sequence items style) = items
children (NodeData.mapping pairs style) = flatten pairs

unfoldable pub set_info : ℕ → AnchorInfo → Anchoring → Anchoring
set_info index info a = record a { anchors = set_entry a.anchors index info }

-- `anchor = (++ emitter->last_anchor_id)`
unfoldable pub number : ℕ → AnchorInfo → Anchoring → Anchoring
unfolding set_info
number index info a =
    let id = a.last_anchor_id + 1 in
    record (set_info index (record info { anchor = id }) a) { last_anchor_id = id }

-- The count of the references, and what depends on it; `visit` is the switch on the type of the node.
unfoldable pub refer :
    (Anchoring → Option Anchoring) → ℕ → AnchorInfo → Anchoring → Option Anchoring
unfolding set_info number
refer visit index info a =
    let counted = record info { references = info.references + 1 } in
    elim info.references [
      | zero ↦ visit (set_info index counted a)
      | suc zero ↦ some (number index counted a)
      | suc (suc n) ↦ some (set_info index counted a)
    ]

-- A loop over the children; its body is the recursive call.
unfoldable pub anchor_each :
    (ℕ → Anchoring → Option Anchoring) → List ℕ → Anchoring → Option Anchoring
anchor_each visit [] a = some a
anchor_each visit (index ∷ more) a = elim (visit index a) [
  | none ↦ none
  | some a' ↦ anchor_each visit more a'
]

-- A unit of fuel for each level of the recursion; `none` where it runs out, and for a node that is not
-- there.
unfoldable pub anchor_node : List Node → ℕ → ℕ → Anchoring → Option Anchoring
unfolding refer anchor_each children
anchor_node nodes zero index a = none
anchor_node nodes (suc n) index a = elim (entry nodes index) [
  | none ↦ none
  | some node ↦ elim (entry a.anchors index) [
    | none ↦ none
    | some info ↦ refer (anchor_each (anchor_node nodes n) (children node.content)) index info a
  ]
]

-- %d, with fuel for so many digits
unfoldable pub decimal : ℕ → ℕ → Bytes
decimal zero n = []
decimal (suc fuel) n = elim (ltb n 10) [
  | true ↦ (b'0' + n) ∷ []
  | false ↦ decimal fuel (n / 10) ++ (b'0' + n % 10) ∷ []
]

-- %03d
abbrev pub pad : Bytes → Bytes
pad (a ∷ []) = b'0' ∷ b'0' ∷ a ∷ []
pad (a ∷ b ∷ []) = b'0' ∷ a ∷ b ∷ []
pad text = text

-- An int has ten digits at most.
unfoldable pub generate_anchor : ℕ → Bytes
unfolding decimal
generate_anchor anchor_id = b'i' ∷ b'd' ∷ pad (decimal 10 anchor_id)
