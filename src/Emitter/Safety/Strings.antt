-- ===== src/Emitter/Safety/Strings.antt =====
-- Strings that fall into characters, as MOVE and COPY take them (original/src/yaml_private.h).
use port_libyaml.Base.{
  ℕ, zero, suc, ◌≤◌, ◌<◌, List, [], ◌∷◌, ◌++◌, Option, none, some, ◌==◌, ◌≡◌, ◌∙◌, sym, ap, subst,
  refl, inl, inr, arith, length, Bool-cases,
}
use port_libyaml.Base.Bits.{high_1}
use port_libyaml.Reader.Decode.{utf8_width}
use port_libyaml.Reader.Utf8Checks.{AreBytes}
use port_libyaml.Emitter.Characters.{split, character}

pub data Whole : List ℕ → Type 0 where
  nil : Whole []
  next :
      {o : ℕ} {os c rest : List ℕ}
      → AreBytes c
      → character (o ∷ os) ≡ some (c, rest)
      → Whole rest
      → Whole (o ∷ os)

-- What a split finds.
pub record IsSplit (n : ℕ) (os c rest : List ℕ) : Type 0 where
  pub joins : os ≡ c ++ rest
  pub counts : length c ≡ n
  pub extends : (more : List ℕ) → split n (os ++ more) ≡ some (c, rest ++ more)
  pub alone : split n c ≡ some (c, [])

pub pair_eq :
    {xs ys us vs : List ℕ}
    → ◌≡◌ {A = Option (List ℕ × List ℕ)} (some (xs, us)) (some (ys, vs))
    → (xs ≡ ys) × (us ≡ vs)
pair_eq e = (cc, cc)

-- A split of a longer string, from the split of its tail.
cons_split :
    (n o : ℕ) (os c rest : List ℕ) (r : Option (List ℕ × List ℕ))
    → split n os ≡ r
    → ((d left : List ℕ) → split n os ≡ some (d, left) → IsSplit n os d left)
    → ◌≡◌ {A = Option (List ℕ × List ℕ)}
        (elim r [ none ↦ none | some (d, left) ↦ some (o ∷ d, left) ])
        (some (c, rest))
    → IsSplit (suc n) (o ∷ os) c rest
unfolding split
cons_split n o os c rest none s ih e = absurd (ground arith)
cons_split n o os c rest (some (d, left)) s ih e =
    let (first, behind) = pair_eq e in
    let i = ih d left s in
    rw (← first, ← behind)
      (record {
        joins = rw (i.joins) refl;
        counts = omega (arith, i.counts);
        extends = λ more. rw (i.extends more) refl;
        alone = rw (i.alone) refl;
      })

split_lem : (n : ℕ) (os c rest : List ℕ) → split n os ≡ some (c, rest) → IsSplit n os c rest
unfolding split
split_lem zero os c rest e =
    let (nothing, all) = pair_eq e in
    rw (← nothing, ← all)
      (record { joins = refl; counts = refl; extends = λ more. refl; alone = refl })
split_lem (suc n) [] c rest e = absurd (ground arith)
split_lem (suc n) (o ∷ os) c rest e = cons_split n o os c rest (split n os) refl (split_lem n os) e

-- What MOVE and COPY find.
pub record IsCharacter (o : ℕ) (os c rest : List ℕ) : Type 0 where
  pub joins : o ∷ os ≡ c ++ rest
  pub counts : length c ≡ utf8_width o
  pub positive : 1 ≤ length c
  pub short : length c ≤ 4
  pub extends : (more : List ℕ) → character (o ∷ (os ++ more)) ≡ some (c, rest ++ more)
  pub alone : (a : ℕ) (more : List ℕ) → c ≡ a ∷ more → character (a ∷ more) ≡ some (c, [])

width-bound : (o : ℕ) → utf8_width o ≤ 4
unfolding utf8_width
width-bound o = ground arith

first_eq : (x y : ℕ) (xs ys : List ℕ) → x ∷ xs ≡ y ∷ ys → x ≡ y
first_eq x y xs ys e = cc

pub character_lem :
    (o : ℕ) (os c rest : List ℕ) → character (o ∷ os) ≡ some (c, rest) → IsCharacter o os c rest
unfolding character
character_lem o os c rest e = elim (Bool-cases (utf8_width o == 0)) [
  | inl z ↦ absurd (ground arith)
  | inr z ↦
      let s : split (utf8_width o) (o ∷ os) ≡ some (c, rest) = ground arith in
      let i = split_lem (utf8_width o) (o ∷ os) c rest s in
      record {
        joins = i.joins;
        counts = i.counts;
        positive = ground (arith, i.counts);
        short = omega (arith, i.counts, width-bound o);
        extends = λ more. rw z (i.extends more);
        alone = λ a more h.
            let same : o ≡ a = first_eq o a os (more ++ rest) (i.joins ∙ ap (λ x. x ++ rest) h) in
            rw (← same, z)
              (subst (λ l. split (utf8_width o) l ≡ some (c, []))
                (h ∙ ap (λ x. x ∷ more) (sym same)) (i.alone));
      }
]

pub Whole-append : (xs ys : List ℕ) → Whole xs → Whole ys → Whole (xs ++ ys)
Whole-append [] ys w v = v
Whole-append (o ∷ os) ys (next {c = c} {rest = rest} b e w) v =
    next b ((character_lem o os c rest e).extends ys) (Whole-append rest ys w v)

-- A whole string in front is read first.
pub Whole-behind : (xs ys : List ℕ) → Whole xs → Whole (xs ++ ys) → Whole ys
Whole-behind [] ys w v = v
Whole-behind (o ∷ os) ys (next {c = c} {rest = rest} b e w) (next {c = d} {rest = more} b₁ f v) =
    let (same, left) = pair_eq (sym ((character_lem o os c rest e).extends ys) ∙ f) in
    Whole-behind rest ys w (rw left v)

-- A character by itself
pub Whole-character :
    (o : ℕ) (os c rest : List ℕ) → AreBytes c → character (o ∷ os) ≡ some (c, rest) → Whole c
Whole-character o os c rest b e = go c b (character_lem o os c rest e)
  where
    go : (c : List ℕ) → AreBytes c → IsCharacter o os c rest → Whole c
    go [] b i = absurd (omega (arith, i.positive))
    go (a ∷ more) b i = next b (i.alone a more refl) nil

width_ascii : (o : ℕ) → o < 0x80 → utf8_width o ≡ 1
unfolding utf8_width
width_ascii o h = ground (arith, high_1 o)

ascii_character : (o : ℕ) (os : List ℕ) → o < 0x80 → character (o ∷ os) ≡ some (o ∷ [], os)
unfolding character split
ascii_character o os h = rw (width_ascii o h) refl

abbrev pub AreAscii : List ℕ → Type 0
AreAscii [] = Unit
AreAscii (o ∷ os) = (o < 0x80) × AreAscii os

pub AreAscii-Whole : (os : List ℕ) → AreAscii os → Whole os
AreAscii-Whole [] h = nil
AreAscii-Whole (o ∷ os) h =
    next (omega arith, tt) (ascii_character o os h.0) (AreAscii-Whole os h.1)
