-- ===== src/Dumper/Visits.antt =====
-- yaml_emitter_anchor_node ends (original/src/dumper.c): each level of its recursion is a first visit.
use port_libyaml.Base.{
  ℕ, zero, suc, ◌+◌, ◌≤◌, ◌<◌, List, [], ◌∷◌, Option, none, some, ◌≡◌, ◌∙◌, refl, sym, subst,
  length, set, get_elem?, arith,
}
use mathlib.Core.Option.{some_inj}
use port_libyaml.Loader.State.{Node}
use port_libyaml.Dumper.Anchors.{
  AnchorInfo, Anchoring, entry, set_entry, children, set_info, number, refer, anchor_each,
  anchor_node,
}
use port_libyaml.Dumper.Entries.{
  IsIndex, Zip, Zip-length, Zip-refl, Zip-write_entry, Zip-trans, entry_found,
}

-- A node with two references has an anchor.
abbrev pub Numbered : AnchorInfo → Type 0
Numbered x = 2 ≤ x.references → 1 ≤ x.anchor

-- What a visit does to an entry
pub record Passed (x y : AnchorInfo) : Type 0 where
  pub grows : x.references ≤ y.references
  pub numbers : Numbered x → Numbered y
  pub serialized : y.serialized ≡ x.serialized

pub Passed-refl : (x : AnchorInfo) → Passed x x
Passed-refl x = record { grows = omega arith; numbers = λ h. h; serialized = refl }

Passed-trans : (x y z : AnchorInfo) → Passed x y → Passed y z → Passed x z
Passed-trans x y z p q =
    let a = p.grows in
    let b = q.grows in
    record {
      grows = omega arith;
      numbers = λ h. q.numbers (p.numbers h);
      serialized = q.serialized ∙ p.serialized;
    }

-- The nodes that were not visited yet
abbrev pub fresh : List AnchorInfo → ℕ
fresh [] = 0
fresh (x ∷ xs) = elim x.references [ zero ↦ suc (fresh xs) | suc n ↦ fresh xs ]

pub fresh-Passed : (xs ys : List AnchorInfo) → Zip Passed xs ys → fresh ys ≤ fresh xs
fresh-Passed [] [] z = omega arith
fresh-Passed (x ∷ xs) (y ∷ ys) z = let g = z.0.grows in ground (arith, fresh-Passed xs ys z.1)
fresh-Passed [] (y ∷ ys) z = absurd z
fresh-Passed (x ∷ xs) [] z = absurd z

fresh-set :
    (xs : List AnchorInfo) (i : ℕ) (x y : AnchorInfo)
    → get_elem? xs i ≡ some x
    → x.references ≡ 0
    → y.references ≡ 1
    → suc (fresh (set xs i y)) ≤ fresh xs
fresh-set [] i x y h k l = absurd (ground arith)
fresh-set (x' ∷ xs) zero x y h k l = ground arith
fresh-set (x' ∷ xs) (suc i) x y h k l = ground (arith, fresh-set xs i x y h k l)

pub fresh-set_entry :
    (xs : List AnchorInfo) (index : ℕ) (x y : AnchorInfo)
    → entry xs index ≡ some x
    → x.references ≡ 0
    → y.references ≡ 1
    → suc (fresh (set_entry xs index y)) ≤ fresh xs
fresh-set_entry xs zero x y h k l = absurd (ground arith)
fresh-set_entry xs (suc i) x y h k l = fresh-set xs i x y h k l

-- The items, keys and values of the nodes are numbers of nodes.
abbrev pub AreIndices : ℕ → List ℕ → Type 0
AreIndices n [] = Unit
AreIndices n (index ∷ more) = IsIndex n index × AreIndices n more

abbrev pub AreLinked : ℕ → List Node → Type 0
AreLinked n [] = Unit
AreLinked n (node ∷ nodes) = AreIndices n (children node.content) × AreLinked n nodes

AreLinked-get_elem? :
    (n : ℕ) (nodes : List Node) (i : ℕ) (node : Node)
    → AreLinked n nodes
    → get_elem? nodes i ≡ some node
    → AreIndices n (children node.content)
AreLinked-get_elem? n [] i node l h = absurd (ground arith)
AreLinked-get_elem? n (x ∷ nodes) zero node l h =
    subst (λ x. AreIndices n (children x.content)) (some_inj.0 h) l.0
AreLinked-get_elem? n (x ∷ nodes) (suc i) node l h = AreLinked-get_elem? n nodes i node l.1 h

pub AreLinked-entry :
    (n : ℕ) (nodes : List Node) (index : ℕ) (node : Node)
    → AreLinked n nodes
    → entry nodes index ≡ some node
    → AreIndices n (children node.content)
AreLinked-entry n nodes zero node l h = absurd (ground arith)
AreLinked-entry n nodes (suc i) node l h = AreLinked-get_elem? n nodes i node l h

-- The visit ends, and has passed over the entries.
abbrev pub Reaches : List AnchorInfo → Option Anchoring → Type 0
Reaches xs none = ⊥
Reaches xs (some a) = Zip Passed xs a.anchors

pub Passes-trans :
    (xs ys zs : List AnchorInfo) → Zip Passed xs ys → Zip Passed ys zs → Zip Passed xs zs
Passes-trans = Zip-trans Passed Passed Passed Passed-trans

Reaches-after :
    (xs ys : List AnchorInfo) (o : Option Anchoring)
    → Zip Passed xs ys
    → Reaches ys o
    → Reaches xs o
Reaches-after xs ys none p r = r
Reaches-after xs ys (some a) p r = Passes-trans xs ys a.anchors p r

Reaches-then :
    (xs : List AnchorInfo) (o : Option Anchoring) (k : Anchoring → Option Anchoring)
    → Reaches xs o
    → ((a : Anchoring) → Zip Passed xs a.anchors → Reaches a.anchors (k a))
    → Reaches xs (elim o [ none ↦ none | some a ↦ k a ])
Reaches-then xs none k r f = r
Reaches-then xs (some a) k r f = Reaches-after xs a.anchors (k a) r (f a r)

-- With so much fuel and such a table, the visit of a node with such a number ends.
abbrev pub Ends : ℕ → ℕ → (ℕ → Anchoring → Option Anchoring) → Type 0
Ends n size visit =
    (index : ℕ) (a : Anchoring)
    → IsIndex size index
    → length a.anchors ≡ size
    → fresh a.anchors < n
    → Reaches a.anchors (visit index a)

pub anchor_each-Reaches :
    (n size : ℕ) (visit : ℕ → Anchoring → Option Anchoring)
    → Ends n size visit
    → (more : List ℕ) → AreIndices size more
    → (a : Anchoring) → length a.anchors ≡ size
    → fresh a.anchors < n
    → Reaches a.anchors (anchor_each visit more a)
unfolding anchor_each
anchor_each-Reaches n size visit e [] v a h k = Zip-refl Passed Passed-refl a.anchors
anchor_each-Reaches n size visit e (index ∷ more) v a h k =
    Reaches-then a.anchors (visit index a) (anchor_each visit more) (e index a v.0 h k) (λ a' p.
      anchor_each-Reaches n size visit e more v.1 a'
        (omega (arith, Zip-length Passed a.anchors a'.anchors p))
        (omega (arith, fresh-Passed a.anchors a'.anchors p)))

refer-Reaches :
    (visit : Anchoring → Option Anchoring) (index : ℕ) (info : AnchorInfo) (a : Anchoring) (r : ℕ)
    → info.references ≡ r
    → entry a.anchors index ≡ some info
    → ((b : Anchoring)
        → Zip Passed a.anchors b.anchors
        → suc (fresh b.anchors) ≤ fresh a.anchors
        → Reaches b.anchors (visit b))
    → let counted = record info { references = info.references + 1 } in
      Reaches a.anchors (elim r [
        | zero ↦ visit (set_info index counted a)
        | suc zero ↦ some (number index counted a)
        | suc (suc n) ↦ some (set_info index counted a)
      ])
unfolding set_info number
refer-Reaches visit index info a zero h k f =
    let counted = record info { references = info.references + 1 } in
    let p =
      Zip-write_entry Passed Passed-refl a.anchors index info counted k (record {
        grows = omega arith;
        numbers = λ l m. absurd (omega arith);
        serialized = refl;
      }) in
    Reaches-after a.anchors (set_entry a.anchors index counted) (visit (set_info index counted a)) p
      (f (set_info index counted a) p
        (fresh-set_entry a.anchors index info counted k h (omega arith)))
refer-Reaches visit index info a (suc zero) h k f =
    Zip-write_entry Passed Passed-refl a.anchors index info _ k
      (record { grows = omega arith; numbers = λ l m. omega arith; serialized = refl })
refer-Reaches visit index info a (suc (suc n)) h k f =
    Zip-write_entry Passed Passed-refl a.anchors index info _ k
      (record { grows = omega arith; numbers = λ l m. l (omega arith); serialized = refl })

pub anchor_node-Reaches :
    (nodes : List Node) (n : ℕ)
    → AreLinked (length nodes) nodes
    → Ends n (length nodes) (anchor_node nodes n)
unfolding anchor_node refer
anchor_node-Reaches nodes zero l index a v h k = absurd (omega arith)
anchor_node-Reaches nodes (suc n) l index a v h k =
    let (node, found) = entry_found nodes index v in
    let (info, here) = entry_found a.anchors index (subst (λ s. IsIndex s index) (sym h) v) in
    rw (found, here, anchor_node)
      (refer-Reaches (anchor_each (anchor_node nodes n) (children node.content)) index info a
        info.references refl here
        (λ b p g.
          anchor_each-Reaches n (length nodes) (anchor_node nodes n) (anchor_node-Reaches nodes n l)
            (children node.content) (AreLinked-entry (length nodes) nodes index node l found) b
            (omega (arith, Zip-length Passed a.anchors b.anchors p)) (omega arith)))

fresh-length : (xs : List AnchorInfo) → fresh xs ≤ length xs
fresh-length [] = omega arith
fresh-length (x ∷ xs) = ground (arith, fresh-length xs)

-- yaml_emitter_anchor_node on a document whose items, keys and values are numbers of its nodes, cycles
-- included, and a table with an entry for each node: the recursion ends, no deeper than the number of
-- nodes and one, every node that it meets is there, no count of references falls, and an entry that
-- had an anchor if it had two references has one now if it has two.
pub anchor_node_terminates :
    (nodes : List Node) (index : ℕ) (a : Anchoring)
    → AreLinked (length nodes) nodes
    → IsIndex (length nodes) index
    → length a.anchors ≡ length nodes
    → Reaches a.anchors (anchor_node nodes (length nodes + 1) index a)
anchor_node_terminates nodes index a l v h =
    anchor_node-Reaches nodes (length nodes + 1) l index a v h
      (omega (arith, fresh-length a.anchors))
