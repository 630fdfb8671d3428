-- ===== src/Reader/Utf8RoundTrip.antt =====
-- decode_utf8 on what utf8_octets has written (original/src/reader.c).
use port_libyaml.Base.{
  ℕ, ◌+◌, ◌/◌, ◌%◌, ◌≤◌, ◌<◌, Bool, List, [], ◌∷◌, ◌++◌, ◌≡◌, ◌∙◌, arith, length,
}
use native.Mathlib.Decide.{dec_lt}
use port_libyaml.Reader.Decode.{Decoded, decode_utf8, utf8_octets}
use port_libyaml.Reader.Utf8.{
  IsScalar, utf8_octets_lem, decode_one, decode_two, decode_three, decode_four, check_one,
  check_two, check_three, check_four, value_two, value_three, value_four,
}

pub octets_one : (v : ℕ) → v < 0x80 → utf8_octets v ≡ v ∷ []
octets_one v h = ground (arith, utf8_octets_lem v)

pub octets_two :
    (v : ℕ) → 0x80 ≤ v → v < 0x800 → utf8_octets v ≡ (0xC0 + v / 64) ∷ (0x80 + v % 64) ∷ []
octets_two v h k = ground (arith, utf8_octets_lem v)

pub octets_three :
    (v : ℕ)
    → 0x800 ≤ v
    → v < 0x10000
    → utf8_octets v ≡ (0xE0 + v / 4096) ∷ (0x80 + v / 64 % 64) ∷ (0x80 + v % 64) ∷ []
octets_three v h k = ground (arith, utf8_octets_lem v)

pub octets_four :
    (v : ℕ)
    → 0x10000 ≤ v
    → v < 0x200000
    → utf8_octets v
      ≡ (0xF0 + v / 262144) ∷ (0x80 + v / 4096 % 64) ∷ (0x80 + v / 64 % 64) ∷ (0x80 + v % 64) ∷ []
octets_four v h k = ground (arith, utf8_octets_lem v)

-- The switch on the encoding decodes the UTF-8 encoding of every Unicode scalar value.
pub decode_utf8-utf8_octets :
    (v : ℕ) (rest : List ℕ) (eof : Bool)
    → IsScalar v
    → decode_utf8 (utf8_octets v ++ rest) eof ≡ Decoded.char v (length (utf8_octets v))
decode_utf8-utf8_octets v rest eof s = elim (dec_lt v 0x80) [
  | yes h ↦ rw (octets_one v h) (decode_one v rest eof h ∙ check_one v h)
  | no h ↦ elim (dec_lt v 0x800) [
    | yes k ↦ rw (octets_two v (omega arith) k) (
        decode_two _ _ rest eof (omega arith) (omega arith) (omega arith)
        ∙ rw (value_two v) (check_two v (omega arith) k))
    | no k ↦ elim (dec_lt v 0x10000) [
      | yes l ↦ rw (octets_three v (omega arith) l) (
          decode_three _ _ _ rest eof (omega arith) (omega arith) (omega arith) (omega arith)
          ∙ rw (value_three v) (check_three v (omega arith) l s))
      | no l ↦ rw (octets_four v (omega arith) (omega arith)) (
          decode_four _ _ _ _ rest eof (omega arith) (omega arith) (omega arith) (omega arith)
            (omega arith)
          ∙ rw (value_four v) (check_four v (omega arith) (omega arith)))
    ]
  ]
]
