-- ===== src/Api/Utf8Rounds.antt =====
-- Texts through yaml_check_utf8 (original/src/api.c).
use Prim.Native.Nat.{bit_and}
use port_libyaml.Base.{
  ℕ, zero, suc, ◌+◌, ◌-◌, ◌*◌, ◌/◌, ◌%◌, ◌^◌, ◌≤◌, ◌<◌, true, false, List, [], ◌∷◌, ◌++◌, some,
  ◌==◌, ◌≡◌, ◌∙◌, refl, arith, length, length-append, ltb_not,
}
use native.Mathlib.Decide.{dec_lt}
use port_libyaml.Base.Bits.{high_2}
use port_libyaml.Reader.Decode.{utf8_width, leading_value, add_octet, utf8_octets}
use port_libyaml.Reader.Utf8.{
  IsTrailing, width-lead, value-lead, add_octet_lem, value_two, value_three, value_four,
}
use port_libyaml.Reader.Utf8RoundTrip.{octets_one, octets_two, octets_three, octets_four}
use port_libyaml.Writer.Valid.{utf8_text}
use port_libyaml.Api.Utf8.{check_trailing, is_shortest, check_sequence, check_utf8_from}

pub check_next :
    (left o v : ℕ) (os : List ℕ)
    → IsTrailing o
    → v < 2 ^ 20
    → check_trailing (suc left) (o ∷ os) v ≡ check_trailing left os (v * 64 + (o - 0x80))
unfolding check_trailing
check_next left o v os t h =
    let masked : bit_and o 0xC0 ≡ 0x80 = omega (arith, high_2 o) in
    let added : add_octet v o ≡ v * 64 + (o - 0x80) = omega (arith, add_octet_lem v o) in
    rw (masked, added)

pub check_end : (v : ℕ) (os : List ℕ) → check_trailing 0 os v ≡ some (v, os)
unfolding check_trailing
check_end v os = refl

-- A complete sequence whose octets are read.
sequence_lem :
    (a left v x : ℕ) (os rest : List ℕ)
    → utf8_width a ≡ suc left
    → leading_value a ≡ v
    → left ≤ length os
    → check_trailing left os v ≡ some (x, rest)
    → is_shortest (suc left) x ≡ true
    → check_sequence a os ≡ some rest
unfolding check_sequence
sequence_lem a left v x os rest width value enough trailing shortest =
    let counted : suc left - 1 ≡ left = omega arith in
    let positive : (suc left == 0) ≡ false = ground arith in
    rw
      (
        width,
        value,
        ltb_not (length os + 1) (suc left) (omega arith),
        counted,
        positive,
        trailing,
        width,
        shortest,
      )
      refl

module _ (v : ℕ) (rest : List ℕ) where
  sequence_one : v < 0x80 → check_sequence v rest ≡ some rest
  unfolding is_shortest
  sequence_one h =
      sequence_lem v 0 v v rest rest (ground (arith, width-lead v)) (ground (arith, value-lead v))
        (omega arith) (check_end v rest) refl

  sequence_two :
      0x80 ≤ v → v < 0x800 → check_sequence (0xC0 + v / 64) ((0x80 + v % 64) ∷ rest) ≡ some rest
  unfolding is_shortest
  sequence_two lo hi =
      let a = 0xC0 + v / 64 in
      sequence_lem a 1 (a - 0xC0) v _ rest (ground (arith, width-lead a))
        (ground (arith, value-lead a)) (omega arith)
        (check_next 0 _ _ rest (omega arith) (omega arith) ∙ rw (value_two v) (check_end v rest))
        (ground arith)

  sequence_three :
      0x800 ≤ v
      → v < 0x10000
      → check_sequence (0xE0 + v / 4096) ((0x80 + v / 64 % 64) ∷ (0x80 + v % 64) ∷ rest) ≡ some rest
  unfolding is_shortest
  sequence_three lo hi =
      let a = 0xE0 + v / 4096 in
      sequence_lem a 2 (a - 0xE0) v _ rest (ground (arith, width-lead a))
        (ground (arith, value-lead a)) (omega arith)
        (check_next 1 _ _ _ (omega arith) (omega arith)
          ∙ check_next 0 _ _ rest (omega arith) (omega arith)
          ∙ rw (value_three v) (check_end v rest))
        (ground arith)

  sequence_four :
      0x10000 ≤ v
      → v < 0x200000
      → check_sequence
          (0xF0 + v / 262144)
          ((0x80 + v / 4096 % 64) ∷ (0x80 + v / 64 % 64) ∷ (0x80 + v % 64) ∷ rest)
        ≡ some rest
  unfolding is_shortest
  sequence_four lo hi =
      let a = 0xF0 + v / 262144 in
      sequence_lem a 3 (a - 0xF0) v _ rest (ground (arith, width-lead a))
        (ground (arith, value-lead a)) (omega arith)
        (check_next 2 _ _ _ (omega arith) (omega arith)
          ∙ check_next 1 _ _ _ (omega arith) (omega arith)
          ∙ check_next 0 _ _ rest (omega arith) (omega arith)
          ∙ rw (value_four v) (check_end v rest))
        (ground arith)

check_octets :
    (fuel v : ℕ) (rest : List ℕ)
    → v < 0x200000
    → check_utf8_from (suc fuel) (utf8_octets v ++ rest) ≡ check_utf8_from fuel rest
unfolding check_utf8_from
check_octets fuel v rest h = elim (dec_lt v 0x80) [
  | yes k ↦ rw (octets_one v k, sequence_one v rest k, check_utf8_from) refl
  | no k ↦ elim (dec_lt v 0x800) [
    | yes l ↦
        rw (octets_two v (omega arith) l, sequence_two v rest (omega arith) l, check_utf8_from) refl
    | no l ↦ elim (dec_lt v 0x10000) [
      | yes m ↦
          rw
            (octets_three v (omega arith) m, sequence_three v rest (omega arith) m, check_utf8_from)
            refl
      | no m ↦
          rw (octets_four v (omega arith) h, sequence_four v rest (omega arith) h, check_utf8_from)
            refl
    ]
  ]
]

-- Values that the check takes for encoded: those of 21 bits.
abbrev pub AreValues : List ℕ → Type 0
AreValues [] = Unit
AreValues (v ∷ vs) = (v < 0x200000) × AreValues vs

octets_nonempty : (v : ℕ) → v < 0x200000 → 1 ≤ length (utf8_octets v)
unfolding utf8_octets
octets_nonempty v h = ground arith

pub check_text :
    (fuel : ℕ) (vs : List ℕ)
    → AreValues vs
    → length (utf8_text vs) ≤ fuel
    → check_utf8_from fuel (utf8_text vs) ≡ true
check_text fuel [] h k = unfold check_utf8_from in ground arith
check_text zero (v ∷ vs) h k =
    absurd (omega (arith, octets_nonempty v h.0, length-append (utf8_octets v) (utf8_text vs)))
check_text (suc fuel) (v ∷ vs) h k =
    check_octets fuel v (utf8_text vs) h.0
    ∙ check_text fuel vs h.1
        (omega (arith, octets_nonempty v h.0, length-append (utf8_octets v) (utf8_text vs)))
