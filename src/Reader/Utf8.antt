-- ===== src/Reader/Utf8.antt =====
-- decode_utf8 and utf8_octets in plain arithmetic (original/src/reader.c).
use Prim.Native.Nat.{bit_and}
use port_libyaml.Base.{
  ℕ, suc, ◌+◌, ◌-◌, ◌*◌, ◌/◌, ◌%◌, ◌^◌, ◌≤◌, ◌<◌, Bool, false, List, [], ◌∷◌, ◌≡◌, refl, ◌∙◌, ◌⊎◌,
  arith, ◌==◌, ltb, ltb_not, length, if◌then◌else◌,
}
use port_libyaml.Base.Bits.{
  low_3, low_4, low_5, low_6, low_7, high_1, high_2, high_3, high_4, high_5,
}
use port_libyaml.Reader.Decode.{
  Decoded, utf8_width, leading_value, add_octet, check_utf8_value, trailing_octets, decode_utf8,
  utf8_octets,
}

-- A Unicode scalar value: a code point that is no surrogate.
abbrev pub IsScalar : ℕ → Type 0
IsScalar v = (v < 0xD800) ⊎ ((0xE000 ≤ v) × (v ≤ 0x10FFFF))

pub width-lead :
    (o : ℕ)
    → o < 256
    → utf8_width o ≡ (
        if ltb o 0x80
        then 1
        else if ltb o 0xC0
        then 0
        else if ltb o 0xE0
        then 2
        else if ltb o 0xF0
        then 3
        else if ltb o 0xF8
        then 4
        else 0)
unfolding utf8_width
width-lead o h = ground (arith, high_1 o, high_3 o, high_4 o, high_5 o)

pub value-lead :
    (o : ℕ)
    → o < 256
    → leading_value o ≡ (
        if ltb o 0x80
        then o
        else if ltb o 0xC0
        then 0
        else if ltb o 0xE0
        then o - 0xC0
        else if ltb o 0xF0
        then o - 0xE0
        else if ltb o 0xF8
        then o - 0xF0
        else 0)
unfolding leading_value
value-lead o h =
    ground (arith, high_1 o, high_3 o, high_4 o, high_5 o, low_7 o, low_5 o, low_4 o, low_3 o)

pub add_octet_lem : (v o : ℕ) → v < 2 ^ 20 → o < 256 → add_octet v o ≡ v * 64 + o % 64
unfolding add_octet
add_octet_lem v o h k = omega (arith, low_6 o)

-- One round of the loop on a trailing octet.
pub trailing_octet :
    (left k o w v : ℕ) (os : List ℕ)
    → 0x80 ≤ o
    → o < 0xC0
    → v < 2 ^ 20
    → trailing_octets (suc left) k (o ∷ os) w v
      ≡ trailing_octets left (k + 1) os w (v * 64 + (o - 0x80))
unfolding trailing_octets
trailing_octet left k o w v os lo hi h =
    let masked : bit_and o 0xC0 ≡ 0x80 = omega (arith, high_2 o) in
    let added : add_octet v o ≡ v * 64 + (o - 0x80) = omega (arith, add_octet_lem v o) in
    rw (masked, added)

pub decode_one :
    (o : ℕ) (os : List ℕ) (eof : Bool) → o < 0x80 → decode_utf8 (o ∷ os) eof ≡ check_utf8_value 1 o
unfolding decode_utf8 trailing_octets
decode_one o os eof h = ground (arith, width-lead o, value-lead o)

-- The loop ends in the checks.
pub trailing_done : (k w v : ℕ) (os : List ℕ) → trailing_octets 0 k os w v ≡ check_utf8_value w v
unfolding trailing_octets
trailing_done k w v os = refl

-- The start of a sequence that is complete in the raw buffer.
pub decode_start :
    (a left v : ℕ) (os : List ℕ) (eof : Bool)
    → utf8_width a ≡ suc left
    → leading_value a ≡ v
    → left ≤ length os
    → decode_utf8 (a ∷ os) eof ≡ trailing_octets left 1 os (suc left) v
unfolding decode_utf8
decode_start a left v os eof width value enough =
    let counted : suc left - 1 ≡ left = omega arith in
    let positive : (suc left == 0) ≡ false = ground arith in
    rw (width, value, ltb_not (length os + 1) (suc left) (omega arith), counted, positive) refl

abbrev pub IsTrailing : ℕ → Type 0
IsTrailing o = (0x80 ≤ o) × (o < 0xC0)

pub decode_two :
    (a b : ℕ) (os : List ℕ) (eof : Bool)
    → 0xC0 ≤ a
    → a < 0xE0
    → IsTrailing b
    → decode_utf8 (a ∷ b ∷ os) eof ≡ check_utf8_value 2 ((a - 0xC0) * 64 + (b - 0x80))
decode_two a b os eof h₁ h₂ tb =
    decode_start a 1 (a - 0xC0) (b ∷ os) eof (ground (arith, width-lead a))
      (ground (arith, value-lead a)) (omega arith)
    ∙ trailing_octet 0 1 b 2 (a - 0xC0) os tb.0 tb.1 (omega arith)
    ∙ trailing_done 2 2 _ os

pub decode_three :
    (a b c : ℕ) (os : List ℕ) (eof : Bool)
    → 0xE0 ≤ a
    → a < 0xF0
    → IsTrailing b
    → IsTrailing c
    → decode_utf8 (a ∷ b ∷ c ∷ os) eof
      ≡ check_utf8_value 3 (((a - 0xE0) * 64 + (b - 0x80)) * 64 + (c - 0x80))
decode_three a b c os eof h₁ h₂ tb tc =
    decode_start a 2 (a - 0xE0) (b ∷ c ∷ os) eof (ground (arith, width-lead a))
      (ground (arith, value-lead a)) (omega arith)
    ∙ trailing_octet 1 1 b 3 (a - 0xE0) (c ∷ os) tb.0 tb.1 (omega arith)
    ∙ trailing_octet 0 2 c 3 _ os tc.0 tc.1 (omega arith)
    ∙ trailing_done 3 3 _ os

pub decode_four :
    (a b c d : ℕ) (os : List ℕ) (eof : Bool)
    → 0xF0 ≤ a
    → a < 0xF8
    → IsTrailing b
    → IsTrailing c
    → IsTrailing d
    → decode_utf8 (a ∷ b ∷ c ∷ d ∷ os) eof
      ≡ check_utf8_value 4 ((((a - 0xF0) * 64 + (b - 0x80)) * 64 + (c - 0x80)) * 64 + (d - 0x80))
decode_four a b c d os eof h₁ h₂ tb tc td =
    decode_start a 3 (a - 0xF0) (b ∷ c ∷ d ∷ os) eof (ground (arith, width-lead a))
      (ground (arith, value-lead a)) (omega arith)
    ∙ trailing_octet 2 1 b 4 (a - 0xF0) (c ∷ d ∷ os) tb.0 tb.1 (omega arith)
    ∙ trailing_octet 1 2 c 4 _ (d ∷ os) tc.0 tc.1 (omega arith)
    ∙ trailing_octet 0 3 d 4 _ os td.0 td.1 (omega arith)
    ∙ trailing_done 4 4 _ os

-- The bytes of a value, in plain arithmetic.
pub utf8_octets_lem :
    (v : ℕ)
    → v < 0x200000
    → utf8_octets v ≡ (
        if ltb v 0x80
        then v ∷ []
        else if ltb v 0x800
        then (0xC0 + v / 64) ∷ (0x80 + v % 64) ∷ []
        else if ltb v 0x10000
        then (0xE0 + v / 4096) ∷ (0x80 + v / 64 % 64) ∷ (0x80 + v % 64) ∷ []
        else (0xF0 + v / 262144)
          ∷ (0x80 + v / 4096 % 64)
          ∷ (0x80 + v / 64 % 64)
          ∷ (0x80 + v % 64)
          ∷ [])
unfolding utf8_octets
utf8_octets_lem v h = ground (arith, low_6 v, low_6 (v / 64), low_6 (v / 4096))

pub check_one : (v : ℕ) → v < 0x80 → check_utf8_value 1 v ≡ Decoded.char v 1
unfolding check_utf8_value
check_one v h = ground arith

pub check_two : (v : ℕ) → 0x80 ≤ v → v < 0x800 → check_utf8_value 2 v ≡ Decoded.char v 2
unfolding check_utf8_value
check_two v h k = ground arith

pub check_three :
    (v : ℕ) → 0x800 ≤ v → v < 0x10000 → IsScalar v → check_utf8_value 3 v ≡ Decoded.char v 3
unfolding check_utf8_value
check_three v h k s = ground arith

pub check_four : (v : ℕ) → 0x10000 ≤ v → v < 0x110000 → check_utf8_value 4 v ≡ Decoded.char v 4
unfolding check_utf8_value
check_four v h k = ground arith

-- The value of a sequence, put together again.
pub value_two : (v : ℕ) → (0xC0 + v / 64 - 0xC0) * 64 + (0x80 + v % 64 - 0x80) ≡ v
value_two v = omega arith

pub value_three :
    (v : ℕ)
    → ((0xE0 + v / 4096 - 0xE0) * 64 + (0x80 + v / 64 % 64 - 0x80)) * 64 + (0x80 + v % 64 - 0x80)
      ≡ v
value_three v = omega arith

pub value_four :
    (v : ℕ)
    → (((0xF0 + v / 262144 - 0xF0) * 64 + (0x80 + v / 4096 % 64 - 0x80)) * 64
            + (0x80 + v / 64 % 64 - 0x80))
          * 64
        + (0x80 + v % 64 - 0x80)
      ≡ v
value_four v = omega arith
