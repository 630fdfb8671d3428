-- ===== src/Api/Utf8Characters.antt =====
-- What yaml_check_utf8 (original/src/api.c) means for the emitter.
use port_libyaml.Base.{
  ℕ, zero, suc, ◌-◌, true, false, List, [], ◌∷◌, Option, some, ◌==◌, ◌≡◌, refl, inl, inr, arith,
  length, Option-cases, subst,
}
use port_libyaml.Reader.Decode.{utf8_width, leading_value, add_octet}
use port_libyaml.Reader.Utf8Checks.{AreBytes}
use port_libyaml.Api.Utf8.{check_trailing, check_sequence, check_utf8_from, check_utf8}
use port_libyaml.Emitter.Characters.{split, character}
use port_libyaml.Emitter.Safety.Strings.{Whole, nil, next}

-- The octets that were read are those that a split takes.
record IsTaken (n : ℕ) (os rest : List ℕ) : Type 0 where
  octets : List ℕ
  takes : split n os ≡ some (octets, rest)
  bytes : AreBytes os → AreBytes octets × AreBytes rest

rest_eq :
    (x y : ℕ) (xs ys : List ℕ)
    → ◌≡◌ {A = Option (ℕ × List ℕ)} (some (x, xs)) (some (y, ys))
    → xs ≡ ys
rest_eq x y xs ys e = cc

taken :
    (n : ℕ) (os rest : List ℕ) (v x : ℕ)
    → check_trailing n os v ≡ some (x, rest)
    → IsTaken n os rest
unfolding check_trailing split
taken zero os rest v x e =
    let same = rest_eq v x os rest e in
    record { octets = []; takes = rw same refl; bytes = λ b. (tt, subst AreBytes same b) }
taken (suc n) [] rest v x e = absurd (ground arith)
taken (suc n) (o ∷ os) rest v x e =
    let i = taken n os rest (add_octet v o) x (ground arith) in
    record {
      octets = o ∷ i.octets;
      takes = rw (i.takes) refl;
      bytes = λ b. let (c, d) = i.bytes b.1 in ((b.0, c), d);
    }

-- A round of the check and a move over a character
record IsMoved (o : ℕ) (os rest : List ℕ) : Type 0 where
  octets : List ℕ
  moves : character (o ∷ os) ≡ some (octets, rest)
  bytes : AreBytes (o ∷ os) → AreBytes octets × AreBytes rest

IsMoved-width :
    (o n : ℕ) (os rest : List ℕ) → utf8_width o ≡ suc n → IsTaken n os rest → IsMoved o os rest
unfolding character split
IsMoved-width o n os rest w i =
    let positive : (suc n == 0) ≡ false = ground arith in
    record {
      octets = o ∷ i.octets;
      moves = rw (w, positive, i.takes) refl;
      bytes = λ b. let (c, d) = i.bytes b.1 in ((b.0, c), d);
    }

moved : (o : ℕ) (os rest : List ℕ) → check_sequence o os ≡ some rest → IsMoved o os rest
unfolding check_sequence
moved o os rest e = elim (Option-cases (check_trailing (utf8_width o - 1) os (leading_value o))) [
  | inl t ↦ absurd (ground arith)
  | inr ((x, r), t) ↦
      let same : r ≡ rest = ground arith in
      IsMoved-width o (utf8_width o - 1) os rest (ground arith) (
        taken (utf8_width o - 1) os rest (leading_value o) x (
          subst (λ l. check_trailing (utf8_width o - 1) os (leading_value o) ≡ some (x, l)) same t))
]

checked :
    (fuel : ℕ) (octets : List ℕ)
    → AreBytes octets
    → check_utf8_from fuel octets ≡ true
    → Whole octets
unfolding check_utf8_from
checked fuel [] b e = nil
checked zero (o ∷ os) b e = absurd (ground arith)
checked (suc fuel) (o ∷ os) b e = elim (Option-cases (check_sequence o os)) [
  | inl n ↦ absurd (ground arith)
  | inr (rest, t) ↦
      let left : check_utf8_from fuel rest ≡ true = ground arith in
      let m = moved o os rest t in
      let (c, d) = m.bytes b in next c (m.moves) (checked fuel rest d left)
]

-- A string that yaml_check_utf8 accepts falls into characters, as the emitter moves over them and
-- copies them.
pub check_utf8-Whole : (octets : List ℕ) → AreBytes octets → check_utf8 octets ≡ true → Whole octets
unfolding check_utf8
check_utf8-Whole octets b e = checked (length octets) octets b e
