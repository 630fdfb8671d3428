-- ===== src/Writer/Valid.antt =====
-- What the writer makes of a buffer that holds valid UTF-8 (original/src/writer.c).
use port_libyaml.Base.{
  ℕ, zero, suc, ◌+◌, ◌-◌, ◌*◌, ◌/◌, ◌%◌, ◌^◌, ◌≤◌, ◌<◌, Bool, false, List, [], ◌∷◌, ◌++◌, some, ◌≡◌,
  refl, arith, ◌==◌, length, length-append, ◌∙◌,
}
use native.Mathlib.Decide.{dec_lt}
use port_libyaml.Reader.Decode.{utf8_width, leading_value, utf8_octets}
use port_libyaml.Reader.Utf8.{
  IsScalar, IsTrailing, width-lead, value-lead, add_octet_lem, value_two, value_three, value_four,
}
use port_libyaml.Reader.Utf8RoundTrip.{octets_one, octets_two, octets_three, octets_four}
use port_libyaml.Writer.Recode.{read_octets, read_character, utf16_octets, recode}

read_lead :
    (o n v : ℕ) (os : List ℕ)
    → utf8_width o ≡ suc n
    → leading_value o ≡ v
    → read_character (o ∷ os) ≡ read_octets n os v
unfolding read_character
read_lead o n v os width value =
    let less : suc n - 1 ≡ n = omega arith in
    let positive : (suc n == 0) ≡ false = ground arith in rw (width, positive, less, value)

read_next :
    (n o v : ℕ) (os : List ℕ)
    → IsTrailing o
    → v < 2 ^ 20
    → read_octets (suc n) (o ∷ os) v ≡ read_octets n os (v * 64 + (o - 0x80))
unfolding read_octets
read_next n o v os t h =
    let added : v * 64 + o % 64 ≡ v * 64 + (o - 0x80) = omega arith in
    rw (add_octet_lem v o h (omega arith), added)

read_done : (v : ℕ) (os : List ℕ) → read_octets 0 os v ≡ some (v, os)
unfolding read_octets
read_done v os = refl

-- The writer reads the encoding of a scalar value, and leaves what follows it.
pub read_character-utf8_octets :
    (v : ℕ) (rest : List ℕ) → IsScalar v → read_character (utf8_octets v ++ rest) ≡ some (v, rest)
read_character-utf8_octets v rest s = elim (dec_lt v 0x80) [
  | yes h ↦ rw (octets_one v h) (
      read_lead v 0 v rest (ground (arith, width-lead v)) (ground (arith, value-lead v))
      ∙ read_done v rest)
  | no h ↦ elim (dec_lt v 0x800) [
    | yes k ↦ rw (octets_two v (omega arith) k) (
        let a = 0xC0 + v / 64 in
        read_lead a 1 (a - 0xC0) _ (ground (arith, width-lead a)) (ground (arith, value-lead a))
        ∙ read_next 0 _ _ rest (omega arith) (omega arith)
        ∙ rw (value_two v) (read_done v rest))
    | no k ↦ elim (dec_lt v 0x10000) [
      | yes l ↦ rw (octets_three v (omega arith) l) (
          let a = 0xE0 + v / 4096 in
          read_lead a 2 (a - 0xE0) _ (ground (arith, width-lead a)) (ground (arith, value-lead a))
          ∙ read_next 1 _ _ _ (omega arith) (omega arith)
          ∙ read_next 0 _ _ rest (omega arith) (omega arith)
          ∙ rw (value_three v) (read_done v rest))
      | no l ↦ rw (octets_four v (omega arith) (omega arith)) (
          let a = 0xF0 + v / 262144 in
          read_lead a 3 (a - 0xF0) _ (ground (arith, width-lead a)) (ground (arith, value-lead a))
          ∙ read_next 2 _ _ _ (omega arith) (omega arith)
          ∙ read_next 1 _ _ _ (omega arith) (omega arith)
          ∙ read_next 0 _ _ rest (omega arith) (omega arith)
          ∙ rw (value_four v) (read_done v rest))
    ]
  ]
]

abbrev pub AreScalars : List ℕ → Type 0
AreScalars [] = Unit
AreScalars (v ∷ vs) = IsScalar v × AreScalars vs

-- A text in UTF-8, and in UTF-16 as the writer writes each character.
abbrev pub utf8_text : List ℕ → List ℕ
utf8_text [] = []
utf8_text (v ∷ vs) = utf8_octets v ++ utf8_text vs

abbrev pub utf16_text : Bool → List ℕ → List ℕ
utf16_text little [] = []
utf16_text little (v ∷ vs) = utf16_octets little v ++ utf16_text little vs

octets_nonempty : (v : ℕ) → IsScalar v → 1 ≤ length (utf8_octets v)
unfolding utf8_octets
octets_nonempty v s = ground arith

recode_round :
    (little : Bool) (fuel v : ℕ) (os rest raw : List ℕ)
    → read_character os ≡ some (v, rest)
    → recode little fuel rest ≡ some raw
    → recode little (suc fuel) os ≡ some (utf16_octets little v ++ raw)
recode_round little fuel v [] rest raw h e = unfold read_character in cc
recode_round little fuel v (o ∷ os) rest raw h e = unfold recode in rw (h, e, recode)

-- The loop of yaml_emitter_flush recodes a whole text, character by character.
pub recode-utf8_text :
    (little : Bool) (fuel : ℕ) (vs : List ℕ)
    → AreScalars vs
    → length (utf8_text vs) ≤ fuel
    → recode little fuel (utf8_text vs) ≡ some (utf16_text little vs)
recode-utf8_text little fuel [] s h = unfold recode in refl
recode-utf8_text little zero (v ∷ vs) s h =
    absurd (omega (arith, octets_nonempty v s.0, length-append (utf8_octets v) (utf8_text vs)))
recode-utf8_text little (suc fuel) (v ∷ vs) s h =
    recode_round little fuel v _ (utf8_text vs) _ (read_character-utf8_octets v (utf8_text vs) s.0)
      (recode-utf8_text little fuel vs s.1
        (omega (arith, octets_nonempty v s.0, length-append (utf8_octets v) (utf8_text vs))))
