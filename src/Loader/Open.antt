-- ===== src/Loader/Open.antt =====
-- The open collections of the loader (original/src/loader.c): what its stack holds at a place in the
-- grammar of events.
use port_libyaml.Base.{
  ℕ, zero, suc, ◌-◌, ◌≤◌, ◌<◌, Bool, true, false, not, ◌&&◌, List, [], ◌∷◌, ◌++◌, none, some, ◌≡◌,
  ◌∙◌, refl, arith, length, get_elem?, set, ◌==◌,
}
use port_libyaml.Grammar.{Frame}
use port_libyaml.Loader.State.{NodeData, Node}
use port_libyaml.Loader.Compose.{complete_pair}

module _ {ℓ} {A : Type ℓ} where
  pub get_elem?-append :
      (xs ys : List A) (i : ℕ) (x : A) → get_elem? xs i ≡ some x → get_elem? (xs ++ ys) i ≡ some x
  get_elem?-append [] ys i x h = absurd (ground arith)
  get_elem?-append (y ∷ xs) ys zero x h = h
  get_elem?-append (y ∷ xs) ys (suc i) x h = get_elem?-append xs ys i x h

  pub get_elem?-set :
      (xs : List A) (i : ℕ) (x v : A) → get_elem? xs i ≡ some x → get_elem? (set xs i v) i ≡ some v
  get_elem?-set [] i x v h = absurd (ground arith)
  get_elem?-set (y ∷ xs) zero x v h = refl
  get_elem?-set (y ∷ xs) (suc i) x v h = get_elem?-set xs i x v h

  pub get_elem?-set_other :
      (xs : List A) (i j : ℕ) (v : A) → i < j → get_elem? (set xs j v) i ≡ get_elem? xs i
  get_elem?-set_other [] i j v h = refl
  get_elem?-set_other (y ∷ xs) i zero v h = absurd (omega arith)
  get_elem?-set_other (y ∷ xs) zero (suc j) v h = refl
  get_elem?-set_other (y ∷ xs) (suc i) (suc j) v h = get_elem?-set_other xs i j v (omega arith)

  pub length-set : (xs : List A) (i : ℕ) (v : A) → length (set xs i v) ≡ length xs
  length-set [] i v = refl
  length-set (y ∷ xs) zero v = refl
  length-set (y ∷ xs) (suc i) v = omega (arith, length-set xs i v)

-- The last pair has no value yet.
unfoldable pub missing : List (ℕ × ℕ) → Bool
missing [] = false
missing ((k, v) ∷ []) = not (k == 0) && v == 0
missing (p ∷ q ∷ ps) = missing (q ∷ ps)

-- A node that waits for what the frame waits for.
unfoldable pub holds : Frame → NodeData → Bool
unfolding missing
holds Frame.in_sequence (NodeData.sequence items style) = true
holds Frame.before_key (NodeData.mapping pairs style) = not (missing pairs)
holds Frame.before_value (NodeData.mapping pairs style) = missing pairs
holds f content = false

pub record IsHeld (f : Frame) (i : ℕ) (nodes : List Node) : Type 0 where
  pub node : Node
  pub found : get_elem? nodes (i - 1) ≡ some node
  pub waits : holds f node.content ≡ true

-- The stack has a node for each frame, each before those that stand over it, the first at `bound` at
-- most.
abbrev pub AreOpen : List Frame → List ℕ → List Node → ℕ → Type 0
AreOpen [] [] nodes bound = Unit
AreOpen (f ∷ fs) (i ∷ ctx) nodes bound =
    (1 ≤ i) × (i ≤ bound) × IsHeld f i nodes × AreOpen fs ctx nodes (i - 1)
AreOpen _ _ nodes bound = ⊥

pub AreOpen-append :
    (fs : List Frame) (ctx : List ℕ) (nodes more : List Node) (b c : ℕ)
    → b ≤ c
    → AreOpen fs ctx nodes b
    → AreOpen fs ctx (nodes ++ more) c
AreOpen-append [] [] nodes more b c h o = tt
AreOpen-append (f ∷ fs) (i ∷ ctx) nodes more b c h (lo, hi, held, o) = (
  lo,
  omega arith,
  record {
    node = held.node;
    found = get_elem?-append nodes more (i - 1) held.node held.found;
    waits = held.waits;
  },
  AreOpen-append fs ctx nodes more (i - 1) (i - 1) (omega arith) o,
)
AreOpen-append _ _ nodes more b c h o = absurd o

-- Nodes at `bound` or behind it may change.
pub AreOpen-set :
    (fs : List Frame) (ctx : List ℕ) (nodes : List Node) (b c i : ℕ) (n : Node)
    → b ≤ i
    → b ≤ c
    → AreOpen fs ctx nodes b
    → AreOpen fs ctx (set nodes i n) c
AreOpen-set [] [] nodes b c i n h k o = tt
AreOpen-set (f ∷ fs) (j ∷ ctx) nodes b c i n h k (lo, hi, held, o) = (
  lo,
  omega arith,
  record {
    node = held.node;
    found = get_elem?-set_other nodes (j - 1) i n (omega arith) ∙ held.found;
    waits = held.waits;
  },
  AreOpen-set fs ctx nodes (j - 1) (j - 1) i n (omega arith) (omega arith) o,
)
AreOpen-set _ _ nodes b c i n h k o = absurd o

-- A pair that has a value now.
pub record IsCompleted (index : ℕ) (pairs : List (ℕ × ℕ)) : Type 0 where
  pub result : List (ℕ × ℕ)
  pub computes : complete_pair index pairs ≡ some result
  pub complete : missing result ≡ false
  pub behind : (p : ℕ × ℕ) → missing (p ∷ result) ≡ false

pub complete_pair_missing :
    (index : ℕ) (pairs : List (ℕ × ℕ)) → 1 ≤ index → missing pairs ≡ true → IsCompleted index pairs
unfolding complete_pair missing
complete_pair_missing index [] h m = absurd (ground arith)
complete_pair_missing index ((k, v) ∷ []) h m = record {
  result = (k, index) ∷ [];
  computes = ground arith;
  complete = ground arith;
  behind = λ p. ground arith;
}
complete_pair_missing index (p ∷ q ∷ ps) h m =
    let r = complete_pair_missing index (q ∷ ps) h m in
    record {
      result = p ∷ r.result;
      computes = rw r.computes refl;
      complete = r.behind p;
      behind = λ x. r.behind p;
    }

pub complete_pair_complete :
    (index : ℕ) (pairs : List (ℕ × ℕ)) → missing pairs ≡ false → complete_pair index pairs ≡ none
unfolding complete_pair missing
complete_pair_complete index [] m = refl
complete_pair_complete index ((k, v) ∷ []) m = ground arith
complete_pair_complete index (p ∷ q ∷ ps) m = rw (complete_pair_complete index (q ∷ ps) m) refl

pub missing-append :
    (index : ℕ) (pairs : List (ℕ × ℕ)) → 1 ≤ index → missing (pairs ++ (index, 0) ∷ []) ≡ true
unfolding missing
missing-append index [] h = ground arith
missing-append index (p ∷ []) h = ground arith
missing-append index (p ∷ q ∷ ps) h = missing-append index (q ∷ ps) h
