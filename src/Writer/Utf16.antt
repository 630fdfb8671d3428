-- ===== src/Writer/Utf16.antt =====
-- What the writer recodes, read back by the reader (original/src/writer.c, original/src/reader.c).
use Prim.Native.String.{String}
use port_libyaml.Base.{
  ℕ, ◌+◌, ◌-◌, ◌*◌, ◌/◌, ◌%◌, ◌^◌, ◌≤◌, ◌<◌, Bool, true, false, List, [], ◌∷◌, ◌++◌, ◌≡◌, refl, ◌∙◌,
  arith, Option, some, ◌⊎◌, ltb, ◌==◌, if◌then◌else◌,
}
use port_libyaml.Base.Bits.{low_8, low_10, high_6}
use port_libyaml.Types.Basics.{Encoding}
use port_libyaml.Reader.Decode.{
  Decoded, unit, decode_low_surrogate, decode_utf16, is_allowed, check_range, decode,
}
use port_libyaml.Reader.Ranges.{printable_or_refused, check_range_lem}
use port_libyaml.Reader.Utf8.{IsScalar}
use port_libyaml.Writer.Recode.{in_order, utf16_octets}

abbrev pub utf16_encoding : Bool → Encoding
utf16_encoding little = if little then Encoding.utf16le_encoding else Encoding.utf16be_encoding

decode-utf16_encoding :
    (little : Bool) (raw : List ℕ) (eof : Bool)
    → decode (utf16_encoding little) raw eof ≡ check_range (decode_utf16 little raw eof)
unfolding decode
decode-utf16_encoding true raw eof = refl
decode-utf16_encoding false raw eof = refl

decode_utf16-utf16_octets :
    (little : Bool) (v : ℕ) (rest : List ℕ) (eof : Bool)
    → IsScalar v
    → v < 0x10000
    → decode_utf16 little (utf16_octets little v ++ rest) eof ≡ Decoded.char v 2
unfolding utf16_octets decode_utf16 unit
decode_utf16-utf16_octets true v rest eof s h = ground (arith, low_8 v, high_6 v)
decode_utf16-utf16_octets false v rest eof s h = ground (arith, low_8 v, high_6 v)

-- On what the writer has written for a character of the basic multilingual plane, in either byte
-- order and whatever follows, the reader decodes the character, from two bytes, where YAML has it for
-- printable; any other it refuses as a control character.
pub decode-utf16_octets :
    (little : Bool) (v : ℕ) (rest : List ℕ) (eof : Bool)
    → IsScalar v
    → v < 0x10000
    → decode (utf16_encoding little) (utf16_octets little v ++ rest) eof ≡ printable_or_refused v 2
decode-utf16_octets little v rest eof s h =
    rw (decode-utf16_encoding little, decode_utf16-utf16_octets little v rest eof s h)
      (check_range_lem v 2)

-- The four bytes of a supplementary character, in the order of little endian: the high byte of the
-- second unit has more than its two bits.
pair_octets :
    (little : Bool) (v : ℕ)
    → 0x10000 ≤ v
    → v < 0x110000
    → utf16_octets little v
      ≡ in_order little
          (0xD8 + (v - 0x10000) / 2 ^ 18)
          ((v - 0x10000) / 2 ^ 10 % 256)
          (in_order little (0xDC + (v - 0x10000) / 2 ^ 8 % 256) ((v - 0x10000) % 256) [])
unfolding utf16_octets
pair_octets little v h k =
    let u = v - 0x10000 in ground (arith, low_8 u, low_8 (u / 2 ^ 8), low_8 (u / 2 ^ 10))

-- The units that the reader makes of them.
abbrev first_unit : ℕ → ℕ
first_unit u = (0xD8 + u / 2 ^ 18) * 256 + u / 2 ^ 10 % 256

abbrev pub second_unit : ℕ → ℕ
second_unit u = (0xDC + u / 2 ^ 8 % 256) % 256 * 256 + u % 256

-- What the reader makes of two units, the first of which is a high surrogate.
decode_pair :
    (little eof : Bool) (a b c d : ℕ) (rest : List ℕ)
    → unit little a b / 1024 % 64 ≡ 54
    → decode_utf16 little (a ∷ b ∷ c ∷ d ∷ rest) eof ≡ (
        if unit little c d / 1024 % 64 == 55
        then Decoded.char (0x10000 + unit little a b % 1024 * 1024 + unit little c d % 1024) 4
        else Decoded.error "expected low surrogate area" 2 (some (unit little c d)))
unfolding decode_utf16 decode_low_surrogate
decode_pair little eof a b c d rest h = ground (
  arith,
  high_6 (unit little a b),
  high_6 (unit little c d),
  low_10 (unit little a b),
  low_10 (unit little c d),
)

-- The two units as the reader finds them, in either order.
abbrev units : Bool → ℕ → List ℕ → List ℕ
units little u rest =
    in_order little (0xD8 + u / 2 ^ 18) (u / 2 ^ 10 % 256)
      (in_order little (0xDC + u / 2 ^ 8 % 256) (u % 256) rest)

in_order-append :
    (little : Bool) (high low : ℕ) (xs ys : List ℕ)
    → in_order little high low xs ++ ys ≡ in_order little high low (xs ++ ys)
unfolding in_order
in_order-append true high low xs ys = refl
in_order-append false high low xs ys = refl

decode_units :
    (little : Bool) (u : ℕ) (rest : List ℕ) (eof : Bool)
    → u < 0x100000
    → decode_utf16 little (units little u rest) eof ≡ (
        if second_unit u / 1024 % 64 == 55
        then Decoded.char (0x10000 + first_unit u % 1024 * 1024 + second_unit u % 1024) 4
        else Decoded.error "expected low surrogate area" 2 (some (second_unit u)))
decode_units true u rest eof h =
    let first : unit true (u / 2 ^ 10 % 256 % 256) ((0xD8 + u / 2 ^ 18) % 256) ≡ first_unit u =
      unfold unit in omega arith in
    let second : unit true (u % 256 % 256) ((0xDC + u / 2 ^ 8 % 256) % 256) ≡ second_unit u =
      unfold unit in omega arith in
    unfold in_order in
    decode_pair true eof _ _ _ _ rest (rw first (omega arith)) ∙ rw (first, second)
decode_units false u rest eof h =
    let first : unit false ((0xD8 + u / 2 ^ 18) % 256) (u / 2 ^ 10 % 256 % 256) ≡ first_unit u =
      unfold unit in omega arith in
    let second : unit false ((0xDC + u / 2 ^ 8 % 256) % 256) (u % 256 % 256) ≡ second_unit u =
      unfold unit in omega arith in
    unfold in_order in
    decode_pair false eof _ _ _ _ rest (rw first (omega arith)) ∙ rw (first, second)

decode_utf16-utf16_octets_pair :
    (little : Bool) (v : ℕ) (rest : List ℕ) (eof : Bool)
    → 0x10000 ≤ v
    → v < 0x110000
    → decode_utf16 little (utf16_octets little v ++ rest) eof ≡ (
        if (v - 0x10000) / 1024 % 64 == 0
        then Decoded.char v 4
        else Decoded.error "expected low surrogate area" 2 (some (second_unit (v - 0x10000))))
decode_utf16-utf16_octets_pair little v rest eof lo hi =
    let u = v - 0x10000 in
    let read = decode_units little u rest eof (omega arith) in
    rw (pair_octets little v lo hi, in_order-append, in_order-append, read) (ground arith)

pair_range :
    (v : ℕ) (b : Bool) (problem : String) (distance : ℕ) (value : Option ℕ)
    → 0x10000 ≤ v
    → v < 0x110000
    → check_range (if b then Decoded.char v 4 else Decoded.error problem distance value)
      ≡ (if b then Decoded.char v 4 else Decoded.error problem distance value)
unfolding check_range is_allowed
pair_range v true problem distance value lo hi = ground arith
pair_range v false problem distance value lo hi = refl

-- On what the writer has written for a character past the basic multilingual plane, in either byte
-- order and whatever follows, the reader decodes the character, from four bytes, when bits 10 to 15
-- of its offset from U+10000 are 0. Otherwise the writer lets those bits run over the marker of the
-- low surrogate, and the reader refuses the second unit: it expected a low surrogate there.
pub decode-utf16_octets_pair :
    (little : Bool) (v : ℕ) (rest : List ℕ) (eof : Bool)
    → 0x10000 ≤ v
    → v < 0x110000
    → decode (utf16_encoding little) (utf16_octets little v ++ rest) eof ≡ (
        if (v - 0x10000) / 1024 % 64 == 0
        then Decoded.char v 4
        else Decoded.error "expected low surrogate area" 2 (some (second_unit (v - 0x10000))))
decode-utf16_octets_pair little v rest eof lo hi =
    rw (decode-utf16_encoding little, decode_utf16-utf16_octets_pair little v rest eof lo hi)
      (pair_range v ((v - 0x10000) / 1024 % 64 == 0) "expected low surrogate area" 2 _ lo hi)

-- UTF-16: the bytes of a unit, and of a character, as a unit or a surrogate pair.
abbrev pub unit_bytes : Bool → ℕ → List ℕ
unit_bytes little u = if little then u % 256 ∷ u / 256 ∷ [] else u / 256 ∷ u % 256 ∷ []

abbrev pub utf16_bytes : Bool → ℕ → List ℕ
utf16_bytes little v =
    if ltb v 0x10000
    then unit_bytes little v
    else unit_bytes little (0xD800 + (v - 0x10000) / 1024)
      ++ unit_bytes little (0xDC00 + (v - 0x10000) % 1024)

-- A scalar value whose bits 10 to 15, behind the first plane, do not run over the marker.
pub record IsEncodable (v : ℕ) : Type 0 where
  pub scalar : IsScalar v
  pub clear : (v < 0x10000) ⊎ ((v - 0x10000) / 1024 % 64 ≡ 0)

pub utf16_octets-utf16_bytes :
    (little : Bool) (v : ℕ) → IsEncodable v → utf16_octets little v ≡ utf16_bytes little v
unfolding utf16_octets in_order
utf16_octets-utf16_bytes little v e =
    let u = v - 0x10000 in
    let s = e.scalar in
    let c = e.clear in ground (arith, low_8 v, low_8 u, low_8 (u / 2 ^ 8), low_8 (u / 2 ^ 10))
