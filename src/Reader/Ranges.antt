-- ===== src/Reader/Ranges.antt =====
-- The reader on what utf8_octets has written, with the check of the range (original/src/reader.c).
use port_libyaml.Base.{
  ℕ, Bool, false, ◌&&◌, ◌||◌, List, [], ◌∷◌, ◌++◌, some, ◌≡◌, refl, leb, arith, length,
  if◌then◌else◌,
}
use port_libyaml.Types.Basics.{Encoding}
use port_libyaml.Reader.Decode.{Decoded, is_allowed, check_range, decode, utf8_octets}
use port_libyaml.Reader.Utf8.{IsScalar}
use port_libyaml.Reader.Utf8RoundTrip.{decode_utf8-utf8_octets}

-- The printable characters of YAML 1.1: the first and the last of each range.
abbrev pub yaml_ranges : List (ℕ × ℕ)
yaml_ranges =
    (0x09, 0x0A)
    ∷ (0x0D, 0x0D)
    ∷ (0x20, 0x7E)
    ∷ (0x85, 0x85)
    ∷ (0xA0, 0xD7FF)
    ∷ (0xE000, 0xFFFD)
    ∷ (0x10000, 0x10FFFF)
    ∷ []

abbrev pub is_within : List (ℕ × ℕ) → ℕ → Bool
is_within [] v = false
is_within ((first, last) ∷ ranges) v = (leb first v && leb v last) || is_within ranges v

-- A character that is decoded where it is printable, and refused as a control character elsewhere.
abbrev pub printable_or_refused : ℕ → ℕ → Decoded
printable_or_refused v width =
    if is_within yaml_ranges v
    then Decoded.char v width
    else Decoded.error "control characters are not allowed" 0 (some v)

is_allowed-is_within : (v : ℕ) → is_allowed v ≡ is_within yaml_ranges v
unfolding is_allowed
is_allowed-is_within v = ground arith

pub check_range_lem : (v w : ℕ) → check_range (Decoded.char v w) ≡ printable_or_refused v w
unfolding check_range
check_range_lem v w = rw (is_allowed-is_within v) refl

-- On the UTF-8 encoding of a Unicode scalar value, whatever follows it in the raw buffer and whether
-- the input has ended or not, the reader decodes the value where YAML has it for printable, and takes
-- the bytes of the encoding; any other value it refuses as a control character.
pub decode-utf8_octets :
    (v : ℕ) (rest : List ℕ) (eof : Bool)
    → IsScalar v
    → decode Encoding.utf8_encoding (utf8_octets v ++ rest) eof
      ≡ printable_or_refused v (length (utf8_octets v))
unfolding decode
decode-utf8_octets v rest eof s =
    rw (decode_utf8-utf8_octets v rest eof s) (check_range_lem v (length (utf8_octets v)))
