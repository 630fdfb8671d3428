-- ===== src/Emitter/Safety/Recoding.antt =====
-- The recoding of a buffer that falls into characters (original/src/writer.c).
use port_libyaml.Base.{
  ℕ, zero, suc, ◌-◌, ◌≤◌, Bool, List, [], ◌∷◌, ◌++◌, Option, none, some, ◌==◌, ◌≡◌, ap, subst, refl,
  inl, inr, arith, length, length-append, Bool-cases,
}
use port_libyaml.Reader.Decode.{utf8_width, leading_value, add_octet}
use port_libyaml.Writer.Recode.{read_octets, read_character, utf16_octets, recode}
use port_libyaml.Emitter.Characters.{split, character}
use port_libyaml.Emitter.Safety.Strings.{Whole, next, character_lem, pair_eq}

abbrev IsRead : ℕ → List ℕ → List ℕ → ℕ → Type 0
IsRead n os rest value = (x : ℕ) × (read_octets n os value ≡ some (x, rest))

IsRead-cons :
    (n o : ℕ) (os c rest : List ℕ) (r : Option (List ℕ × List ℕ)) (value : ℕ)
    → ((d : List ℕ) → r ≡ some (d, rest) → IsRead n os rest (add_octet value o))
    → ◌≡◌ {A = Option (List ℕ × List ℕ)}
        (elim r [ none ↦ none | some (d, left) ↦ some (o ∷ d, left) ])
        (some (c, rest))
    → IsRead (suc n) (o ∷ os) rest value
unfolding read_octets
IsRead-cons n o os c rest none value ih e = absurd (ground arith)
IsRead-cons n o os c rest (some (d, left)) value ih e = ih d (rw ((pair_eq e).1) refl)

read_octets_lem :
    (n : ℕ) (os c rest : List ℕ) (value : ℕ) → split n os ≡ some (c, rest) → IsRead n os rest value
unfolding split read_octets
read_octets_lem zero os c rest value e = (value, rw ((pair_eq e).1) refl)
read_octets_lem (suc n) [] c rest value e = absurd (ground arith)
read_octets_lem (suc n) (o ∷ os) c rest value e =
    IsRead-cons n o os c rest (split n os) value
      (λ d f. read_octets_lem n os d rest (add_octet value o) f) e

behind_split :
    (o : ℕ) (c rest : List ℕ) (r : Option (List ℕ × List ℕ))
    → ◌≡◌ {A = Option (List ℕ × List ℕ)}
        (elim r [ none ↦ none | some (d, left) ↦ some (o ∷ d, left) ])
        (some (c, rest))
    → (d : List ℕ) × (r ≡ some (d, rest))
behind_split o c rest none e = absurd (ground arith)
behind_split o c rest (some (d, left)) e = (d, rw ((pair_eq e).1) refl)

positive_split :
    (w n o : ℕ) (os c rest : List ℕ)
    → w ≡ suc n
    → split w (o ∷ os) ≡ some (c, rest)
    → (d : List ℕ) × (split n os ≡ some (d, rest))
unfolding split
positive_split w n o os c rest h e =
    behind_split o c rest (split n os) (subst (λ k. split k (o ∷ os) ≡ some (c, rest)) h e)

pub read_character_lem :
    (o : ℕ) (os c rest : List ℕ)
    → character (o ∷ os) ≡ some (c, rest)
    → (x : ℕ) × (read_character (o ∷ os) ≡ some (x, rest))
unfolding character read_character
read_character_lem o os c rest e = elim (Bool-cases (utf8_width o == 0)) [
  | inl z ↦ absurd (ground arith)
  | inr z ↦
      let s : split (utf8_width o) (o ∷ os) ≡ some (c, rest) = ground arith in
      let (d, f) = positive_split (utf8_width o) (utf8_width o - 1) o os c rest (ground arith) s in
      let (x, g) = read_octets_lem (utf8_width o - 1) os d rest (leading_value o) f in (x, rw z g)
]

pub recode-Whole :
    (little : Bool) (fuel : ℕ) (os : List ℕ)
    → Whole os
    → length os ≤ fuel
    → (raw : List ℕ) × (recode little fuel os ≡ some raw)
unfolding recode
recode-Whole little fuel [] w h = ([], refl)
recode-Whole little zero (o ∷ os) w h = absurd (omega arith)
recode-Whole little (suc fuel) (o ∷ os) (next {c = c} {rest = rest} b e w) h =
    let i = character_lem o os c rest e in
    let (x, f) = read_character_lem o os c rest e in
    let shorter : length rest ≤ fuel =
      omega (arith, ap length (i.joins), length-append c rest, i.positive) in
    let (raw, g) = recode-Whole little fuel rest w shorter in
    (utf16_octets little x ++ raw, rw (f, g, recode) refl)
