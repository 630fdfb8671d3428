-- ===== src/Dumper/Entries.antt =====
-- Two arrays related entry by entry, as the anchors are before and after a step (original/src/dumper.c).
use port_libyaml.Base.{
  ℕ, zero, suc, ◌≤◌, List, [], ◌∷◌, some, ◌≡◌, refl, get_elem?, set, length, arith, subst, sym,
}
use mathlib.Core.Option.{some_inj}
use port_libyaml.Dumper.Anchors.{entry, set_entry}

pub record IsIndex (n index : ℕ) : Type 0 where
  pub low : 1 ≤ index
  pub high : index ≤ n

module _ {A B : Type 0} (R : A → B → Type 0) where
  abbrev pub Zip : List A → List B → Type 0
  Zip [] [] = Unit
  Zip (x ∷ xs) (y ∷ ys) = R x y × Zip xs ys
  Zip _ _ = ⊥

  pub Zip-length : (xs : List A) (ys : List B) → Zip xs ys → length ys ≡ length xs
  Zip-length [] [] z = refl
  Zip-length (x ∷ xs) (y ∷ ys) z = omega (arith, Zip-length xs ys z.1)
  Zip-length [] (y ∷ ys) z = absurd z
  Zip-length (x ∷ xs) [] z = absurd z

  -- The entry at the same place
  Zip-get_elem? :
      (xs : List A) (ys : List B) (i : ℕ) (x : A)
      → Zip xs ys
      → get_elem? xs i ≡ some x
      → (y : B) × ((get_elem? ys i ≡ some y) × R x y)
  Zip-get_elem? [] ys i x z h = absurd (ground arith)
  Zip-get_elem? (x' ∷ xs) [] i x z h = absurd z
  Zip-get_elem? (x' ∷ xs) (y ∷ ys) zero x z h = (y, (refl, subst (λ a. R a y) (some_inj.0 h) z.0))
  Zip-get_elem? (x' ∷ xs) (y ∷ ys) (suc i) x z h = Zip-get_elem? xs ys i x z.1 h

  pub Zip-entry :
      (xs : List A) (ys : List B) (index : ℕ) (x : A)
      → Zip xs ys
      → entry xs index ≡ some x
      → (y : B) × ((entry ys index ≡ some y) × R x y)
  Zip-entry xs ys zero x z h = absurd (ground arith)
  Zip-entry xs ys (suc i) x z h = Zip-get_elem? xs ys i x z h

  -- A write on both sides
  Zip-set :
      (xs : List A) (ys : List B) (i : ℕ) (x : A) (y : B)
      → Zip xs ys
      → R x y
      → Zip (set xs i x) (set ys i y)
  Zip-set [] [] i x y z r = tt
  Zip-set (x' ∷ xs) (y' ∷ ys) zero x y z r = (r, z.1)
  Zip-set (x' ∷ xs) (y' ∷ ys) (suc i) x y z r = (z.0, Zip-set xs ys i x y z.1 r)
  Zip-set [] (y' ∷ ys) i x y z r = absurd z
  Zip-set (x' ∷ xs) [] i x y z r = absurd z

  pub Zip-set_entry :
      (xs : List A) (ys : List B) (index : ℕ) (x : A) (y : B)
      → Zip xs ys
      → R x y
      → Zip (set_entry xs index x) (set_entry ys index y)
  Zip-set_entry xs ys zero x y z r = z
  Zip-set_entry xs ys (suc i) x y z r = Zip-set xs ys i x y z r

  -- A write on one side
  Zip-set_left :
      (xs : List A) (ys : List B) (i : ℕ) (x : A) (y : B)
      → Zip xs ys
      → get_elem? ys i ≡ some y
      → R x y
      → Zip (set xs i x) ys
  Zip-set_left [] ys i x y z h r = z
  Zip-set_left (x' ∷ xs) (y' ∷ ys) zero x y z h r = (subst (λ b. R x b) (sym (some_inj.0 h)) r, z.1)
  Zip-set_left (x' ∷ xs) (y' ∷ ys) (suc i) x y z h r = (z.0, Zip-set_left xs ys i x y z.1 h r)
  Zip-set_left (x' ∷ xs) [] i x y z h r = absurd z

  pub Zip-set_entry_left :
      (xs : List A) (ys : List B) (index : ℕ) (x : A) (y : B)
      → Zip xs ys
      → entry ys index ≡ some y
      → R x y
      → Zip (set_entry xs index x) ys
  Zip-set_entry_left xs ys zero x y z h r = z
  Zip-set_entry_left xs ys (suc i) x y z h r = Zip-set_left xs ys i x y z h r

  -- What was written is related to the entry at the same place.
  Zip_written :
      (xs : List A) (ys : List B) (i : ℕ) (x : A) (y : B)
      → suc i ≤ length xs
      → Zip (set xs i x) ys
      → get_elem? ys i ≡ some y
      → R x y
  Zip_written [] ys i x y l z h = absurd (omega arith)
  Zip_written (x' ∷ xs) [] i x y l z h = absurd (ground arith)
  Zip_written (x' ∷ xs) (y' ∷ ys) zero x y l z h = subst (λ b. R x b) (some_inj.0 h) z.0
  Zip_written (x' ∷ xs) (y' ∷ ys) (suc i) x y l z h = Zip_written xs ys i x y (omega arith) z.1 h

  pub Zip_written_entry :
      (xs : List A) (ys : List B) (index : ℕ) (x : A) (y : B)
      → IsIndex (length xs) index
      → Zip (set_entry xs index x) ys
      → entry ys index ≡ some y
      → R x y
  Zip_written_entry xs ys zero x y l z h = absurd (ground arith)
  Zip_written_entry xs ys (suc i) x y l z h = Zip_written xs ys i x y l.high z h

module _ {A : Type 0} (R : A → A → Type 0) where
  pub Zip-refl : ((x : A) → R x x) → (xs : List A) → Zip R xs xs
  Zip-refl f [] = tt
  Zip-refl f (x ∷ xs) = (f x, Zip-refl f xs)

  Zip-write :
      ((x : A) → R x x)
      → (xs : List A) (i : ℕ) (x y : A) → get_elem? xs i ≡ some x
      → R x y
      → Zip R xs (set xs i y)
  Zip-write f [] i x y h r = tt
  Zip-write f (x' ∷ xs) zero x y h r = (subst (λ a. R a y) (sym (some_inj.0 h)) r, Zip-refl f xs)
  Zip-write f (x' ∷ xs) (suc i) x y h r = (f x', Zip-write f xs i x y h r)

  -- A write over an entry that is related to what is written
  pub Zip-write_entry :
      ((x : A) → R x x)
      → (xs : List A) (index : ℕ) (x y : A) → entry xs index ≡ some x
      → R x y
      → Zip R xs (set_entry xs index y)
  Zip-write_entry f xs zero x y h r = Zip-refl f xs
  Zip-write_entry f xs (suc i) x y h r = Zip-write f xs i x y h r

module _ {A B C : Type 0} (R : A → B → Type 0) (S : B → C → Type 0) (T : A → C → Type 0) where
  pub Zip-trans :
      ((x : A) (y : B) (z : C) → R x y → S y z → T x z)
      → (xs : List A) (ys : List B) (zs : List C) → Zip R xs ys
      → Zip S ys zs
      → Zip T xs zs
  Zip-trans f [] [] [] p q = tt
  Zip-trans f (x ∷ xs) (y ∷ ys) (z ∷ zs) p q = (f x y z p.0 q.0, Zip-trans f xs ys zs p.1 q.1)
  Zip-trans f [] [] (z ∷ zs) p q = absurd q
  Zip-trans f (x ∷ xs) (y ∷ ys) [] p q = absurd q
  Zip-trans f [] (y ∷ ys) zs p q = absurd p
  Zip-trans f (x ∷ xs) [] zs p q = absurd p

get_elem?_found :
    {A : Type 0} (xs : List A) (i : ℕ) → suc i ≤ length xs → (x : A) × (get_elem? xs i ≡ some x)
get_elem?_found [] i h = absurd (omega arith)
get_elem?_found (x ∷ xs) zero h = (x, refl)
get_elem?_found (x ∷ xs) (suc i) h = get_elem?_found xs i (omega arith)

pub entry_found :
    {A : Type 0} (xs : List A) (index : ℕ)
    → IsIndex (length xs) index
    → (x : A) × (entry xs index ≡ some x)
entry_found xs zero h = let low = h.low in absurd (omega arith)
entry_found xs (suc i) h = get_elem?_found xs i h.high
