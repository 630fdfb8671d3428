-- ===== src/Api/Utf8Exact.antt =====
-- What yaml_check_utf8 accepts (original/src/api.c).
use port_libyaml.Base.{
  ℕ, zero, suc, ◌+◌, ◌-◌, ◌*◌, ◌≤◌, ◌<◌, true, List, [], ◌∷◌, ◌++◌, Option, some, ◌≡◌, ◌↔◌, ◌∙◌,
  ◌⊎◌, sym, refl, inl, inr, arith, length, Option-cases,
}
use native.Mathlib.Decide.{dec_lt}
use port_libyaml.Base.Bits.{high_2}
use port_libyaml.Reader.Decode.{utf8_width, leading_value, utf8_octets}
use port_libyaml.Reader.Utf8.{IsTrailing, width-lead, value-lead}
use port_libyaml.Reader.Utf8RoundTrip.{octets_one}
use port_libyaml.Reader.Utf8Checks.{AreBytes, regroup_two, regroup_three, regroup_four}
use port_libyaml.Writer.Valid.{utf8_text}
use port_libyaml.Api.Utf8.{check_trailing, is_shortest, check_sequence, check_utf8_from, check_utf8}
use port_libyaml.Api.Utf8Rounds.{check_next, check_end, check_text, AreValues}

-- A sequence that a round accepts.
record IsSequence (octets rest : List ℕ) : Type 0 where
  value : ℕ
  bound : value < 0x200000
  splits : octets ≡ utf8_octets value ++ rest

check_trailing_inverse :
    (left o v x : ℕ) (os rest : List ℕ)
    → o < 256
    → check_trailing (suc left) (o ∷ os) v ≡ some (x, rest)
    → IsTrailing o
unfolding check_trailing
check_trailing_inverse left o v x os rest h e = ground (arith, high_2 o)

is_shortest_inverse :
    (w x : ℕ)
    → is_shortest w x ≡ true
    → (w ≡ 2 → 0x80 ≤ x) × (w ≡ 3 → 0x800 ≤ x) × (w ≡ 4 → 0x10000 ≤ x)
unfolding is_shortest
is_shortest_inverse w x h = ground arith

-- What a round that accepts has found.
record Accepted (a left : ℕ) (os rest : List ℕ) : Type 0 where
  value : ℕ
  read : check_trailing left os (leading_value a) ≡ some (value, rest)
  shortest : is_shortest (suc left) value ≡ true
  enough : left ≤ length os

sequence_inverse :
    (a left : ℕ) (os rest : List ℕ)
    → utf8_width a ≡ suc left
    → check_sequence a os ≡ some rest
    → Accepted a left os rest
unfolding check_sequence
sequence_inverse a left os rest width e =
    let counted : utf8_width a - 1 ≡ left = omega (arith, width) in
    elim (Option-cases (check_trailing (utf8_width a - 1) os (leading_value a))) [
      | inl t ↦ absurd (ground arith)
      | inr ((x, r), t) ↦
          let same : r ≡ rest = ground arith in
          record {
            value = x;
            read = rw (← counted, ← same) t;
            shortest = rw (← width) (ground arith);
            enough = ground arith;
          }
    ]

pair_eq :
    (x y : ℕ) (xs ys : List ℕ)
    → ◌≡◌ {A = Option (ℕ × List ℕ)} (some (x, xs)) (some (y, ys))
    → (x ≡ y) × (xs ≡ ys)
pair_eq x y xs ys e = (cc, cc)

sound_one :
    (a : ℕ) (os rest : List ℕ)
    → a < 0x80
    → check_sequence a os ≡ some rest
    → IsSequence (a ∷ os) rest
sound_one a os rest h e =
    let s = sequence_inverse a 0 os rest (ground (arith, width-lead a)) e in
    let value : leading_value a ≡ a = ground (arith, value-lead a) in
    let (_, same) = pair_eq _ _ os rest (sym (check_end (leading_value a) os) ∙ s.read) in
    record { value = a; bound = omega arith; splits = rw (octets_one a h, same) refl }

sound_two :
    (a : ℕ) (os rest : List ℕ)
    → 0xC0 ≤ a
    → a < 0xE0
    → AreBytes os
    → check_sequence a os ≡ some rest
    → IsSequence (a ∷ os) rest
sound_two a os rest h k bytes e =
    go os bytes (sequence_inverse a 1 os rest (ground (arith, width-lead a)) e)
  where
    go : (os : List ℕ) → AreBytes os → Accepted a 1 os rest → IsSequence (a ∷ os) rest
    go [] bytes s = absurd (omega (arith, s.enough))
    go (b ∷ os) bytes s =
        let t = check_trailing_inverse 0 b (leading_value a) s.value os rest bytes.0 s.read in
        let value : leading_value a ≡ a - 0xC0 = ground (arith, value-lead a) in
        let n = (a - 0xC0) * 64 + (b - 0x80) in
        let read : check_trailing 1 (b ∷ os) (a - 0xC0) ≡ some (s.value, rest) =
          rw (← value) s.read in
        let (same, left) =
          pair_eq n s.value os rest
            (sym (check_end n os) ∙ sym (check_next 0 b (a - 0xC0) os t (omega arith)) ∙ read) in
        let long = (is_shortest_inverse 2 s.value s.shortest).0 refl in
        record {
          value = n;
          bound = omega arith;
          splits = rw (regroup_two a b n h k t refl (rw same long), left) refl;
        }

sound_three :
    (a : ℕ) (os rest : List ℕ)
    → 0xE0 ≤ a
    → a < 0xF0
    → AreBytes os
    → check_sequence a os ≡ some rest
    → IsSequence (a ∷ os) rest
sound_three a os rest h k bytes e =
    go os bytes (sequence_inverse a 2 os rest (ground (arith, width-lead a)) e)
  where
    go : (os : List ℕ) → AreBytes os → Accepted a 2 os rest → IsSequence (a ∷ os) rest
    go (b ∷ c ∷ os) bytes s =
        let t = check_trailing_inverse 1 b (leading_value a) s.value (c ∷ os) rest bytes.0 s.read in
        let value : leading_value a ≡ a - 0xE0 = ground (arith, value-lead a) in
        let m = (a - 0xE0) * 64 + (b - 0x80) in
        let n = m * 64 + (c - 0x80) in
        let read : check_trailing 2 (b ∷ c ∷ os) (a - 0xE0) ≡ some (s.value, rest) =
          rw (← value) s.read in
        let read₁ = sym (check_next 1 b (a - 0xE0) (c ∷ os) t (omega arith)) ∙ read in
        let u = check_trailing_inverse 0 c m s.value os rest bytes.1.0 read₁ in
        let (same, left) =
          pair_eq n s.value os rest
            (sym (check_end n os) ∙ sym (check_next 0 c m os u (omega arith)) ∙ read₁) in
        let long = (is_shortest_inverse 3 s.value s.shortest).1 refl in
        record {
          value = n;
          bound = omega arith;
          splits = rw (regroup_three a b c n h k t u refl (rw same long), left) refl;
        }
    go _ bytes s = absurd (omega (arith, s.enough))

sound_four :
    (a : ℕ) (os rest : List ℕ)
    → 0xF0 ≤ a
    → a < 0xF8
    → AreBytes os
    → check_sequence a os ≡ some rest
    → IsSequence (a ∷ os) rest
sound_four a os rest h k bytes e =
    go os bytes (sequence_inverse a 3 os rest (ground (arith, width-lead a)) e)
  where
    go : (os : List ℕ) → AreBytes os → Accepted a 3 os rest → IsSequence (a ∷ os) rest
    go (b ∷ c ∷ d ∷ os) bytes s =
        let t =
          check_trailing_inverse 2 b (leading_value a) s.value (c ∷ d ∷ os) rest bytes.0 s.read in
        let value : leading_value a ≡ a - 0xF0 = ground (arith, value-lead a) in
        let l = (a - 0xF0) * 64 + (b - 0x80) in
        let m = l * 64 + (c - 0x80) in
        let n = m * 64 + (d - 0x80) in
        let read : check_trailing 3 (b ∷ c ∷ d ∷ os) (a - 0xF0) ≡ some (s.value, rest) =
          rw (← value) s.read in
        let read₁ = sym (check_next 2 b (a - 0xF0) (c ∷ d ∷ os) t (omega arith)) ∙ read in
        let u = check_trailing_inverse 1 c l s.value (d ∷ os) rest bytes.1.0 read₁ in
        let read₂ = sym (check_next 1 c l (d ∷ os) u (omega arith)) ∙ read₁ in
        let x = check_trailing_inverse 0 d m s.value os rest bytes.1.1.0 read₂ in
        let (same, left) =
          pair_eq n s.value os rest
            (sym (check_end n os) ∙ sym (check_next 0 d m os x (omega arith)) ∙ read₂) in
        let long = (is_shortest_inverse 4 s.value s.shortest).2 refl in
        record {
          value = n;
          bound = omega arith;
          splits = rw (regroup_four a b c d n h t u x refl (rw same long) (omega arith), left) refl;
        }
    go _ bytes s = absurd (omega (arith, s.enough))

leads_sequence :
    (a : ℕ) (os rest : List ℕ)
    → a < 256
    → check_sequence a os ≡ some rest
    → (a < 0x80) ⊎ ((0xC0 ≤ a) × (a < 0xF8))
unfolding check_sequence
leads_sequence a os rest h e = ground (arith, width-lead a)

IsSequence-sound :
    (a : ℕ) (os rest : List ℕ)
    → AreBytes (a ∷ os)
    → check_sequence a os ≡ some rest
    → IsSequence (a ∷ os) rest
IsSequence-sound a os rest h e = elim (leads_sequence a os rest h.0 e) [
  | inl lo ↦ sound_one a os rest lo e
  | inr (lo, hi) ↦ elim (dec_lt a 0xE0) [
    | yes k ↦ sound_two a os rest lo k h.1 e
    | no k ↦ elim (dec_lt a 0xF0) [
      | yes l ↦ sound_three a os rest (omega arith) l h.1 e
      | no l ↦ sound_four a os rest (omega arith) hi h.1 e
    ]
  ]
]

-- The values that a text encodes.
pub record Encoding (octets : List ℕ) : Type 0 where
  pub values : List ℕ
  pub bounds : AreValues values
  pub splits : octets ≡ utf8_text values

AreBytes-append : (xs ys : List ℕ) → AreBytes (xs ++ ys) → AreBytes ys
AreBytes-append [] ys h = h
AreBytes-append (x ∷ xs) ys h = AreBytes-append xs ys h.1

encoding :
    (fuel : ℕ) (octets : List ℕ)
    → AreBytes octets
    → check_utf8_from fuel octets ≡ true
    → Encoding octets
unfolding check_utf8_from
encoding fuel [] bytes e = record { values = []; bounds = tt; splits = refl }
encoding zero (o ∷ os) bytes e = absurd (ground arith)
encoding (suc fuel) (o ∷ os) bytes e = elim (Option-cases (check_sequence o os)) [
  | inl n ↦ absurd (ground arith)
  | inr (rest, t) ↦
      let s = IsSequence-sound o os rest bytes t in
      let left : check_utf8_from fuel rest ≡ true = ground arith in
      let c =
        encoding fuel rest (AreBytes-append (utf8_octets s.value) rest (rw (← s.splits) bytes))
          left in
      record {
        values = s.value ∷ c.values;
        bounds = (s.bound, c.bounds);
        splits = rw (s.splits, c.splits) refl;
      }
]

-- yaml_check_utf8 accepts a string of bytes exactly where it is the UTF-8 of a list of values below
-- 0x200000, each in the shortest form.
pub check_utf8-utf8_text :
    (octets : List ℕ) → AreBytes octets → (check_utf8 octets ≡ true) ↔ Encoding octets
unfolding check_utf8
check_utf8-utf8_text octets bytes = (
  encoding (length octets) octets bytes,
  λ c. rw (c.splits) (check_text (length (utf8_text c.values)) c.values c.bounds (omega arith)),
)
