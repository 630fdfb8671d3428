-- ===== src/Reader/Decode.antt =====
-- The decoding of one character in yaml_parser_update_buffer (original/src/reader.c), and its
-- encoding into the buffer.
use Prim.Native.Nat.{bit_and}
use Prim.Native.String.{String}
use port_libyaml.Base.{
  ℕ, zero, suc, ◌+◌, ◌-◌, ◌*◌, ◌/◌, ◌%◌, ◌^◌, Bool, true, false, not, ◌&&◌, ◌||◌, List, [], ◌∷◌,
  Option, none, some, ◌==◌, ltb, leb, length, if◌then◌else◌,
}
use port_libyaml.Types.Basics.{Encoding}

-- What the switch on the encoding leaves: a value and its width; `incomplete`; an error with its
-- problem, its distance from the current offset and its value, `none` for -1; or `fault`, a read past
-- the raw buffer.
pub data Decoded : Type 0 where
  char : ℕ → ℕ → Decoded
  incomplete : Decoded
  error : String → ℕ → Option ℕ → Decoded
  fault : Decoded

unfoldable pub utf8_width : ℕ → ℕ
utf8_width octet =
    if bit_and octet 0x80 == 0x00
    then 1
    else if bit_and octet 0xE0 == 0xC0
    then 2
    else if bit_and octet 0xF0 == 0xE0
    then 3
    else if bit_and octet 0xF8 == 0xF0
    then 4
    else 0

unfoldable pub leading_value : ℕ → ℕ
leading_value octet =
    if bit_and octet 0x80 == 0x00
    then bit_and octet 0x7F
    else if bit_and octet 0xE0 == 0xC0
    then bit_and octet 0x1F
    else if bit_and octet 0xF0 == 0xE0
    then bit_and octet 0x0F
    else if bit_and octet 0xF8 == 0xF0
    then bit_and octet 0x07
    else 0

-- `(value << 6) + (octet & 0x3F)`, an unsigned int
unfoldable pub add_octet : ℕ → ℕ → ℕ
add_octet value octet = (value * 64 + bit_and octet 0x3F) % 2 ^ 32

-- "Check the length of the sequence against the value", and "Check the range of the value".
unfoldable pub check_utf8_value : ℕ → ℕ → Decoded
check_utf8_value width value =
    if not (
      width == 1
      || (width == 2 && leb 0x80 value)
      || (width == 3 && leb 0x800 value)
      || (width == 4 && leb 0x10000 value))
    then Decoded.error "invalid length of a UTF-8 sequence" 0 none
    else if (leb 0xD800 value && leb value 0xDFFF) || ltb 0x10FFFF value
    then Decoded.error "invalid Unicode character" 0 (some value)
    else Decoded.char value width

-- The for loop over the trailing octets: how many are left, `k`, the octets from `k` on, the value.
unfoldable pub trailing_octets : ℕ → ℕ → List ℕ → ℕ → ℕ → Decoded
trailing_octets zero k octets width value = check_utf8_value width value
trailing_octets (suc left) k [] width value = Decoded.fault
trailing_octets (suc left) k (octet ∷ octets) width value =
    if not (bit_and octet 0xC0 == 0x80)
    then Decoded.error "invalid trailing UTF-8 octet" k (some octet)
    else trailing_octets left (k + 1) octets width (add_octet value octet)

-- `case YAML_UTF8_ENCODING`, on the unread bytes of the raw buffer
unfoldable pub decode_utf8 : List ℕ → Bool → Decoded
decode_utf8 [] eof = Decoded.fault
decode_utf8 (octet ∷ octets) eof =
    let width = utf8_width octet in
    if width == 0
    then Decoded.error "invalid leading UTF-8 octet" 0 (some octet)
    else if ltb (length octets + 1) width
    then if eof then Decoded.error "incomplete UTF-8 octet sequence" 0 none else Decoded.incomplete
    else trailing_octets (width - 1) 1 octets width (leading_value octet)

-- `pointer[low] + (pointer[high] << 8)`, from two bytes; the flag is that for little endian.
unfoldable pub unit : Bool → ℕ → ℕ → ℕ
unit little first second = if little then first + second * 256 else second + first * 256

-- The second half of a surrogate pair.
unfoldable pub decode_low_surrogate : Bool → Bool → ℕ → List ℕ → Decoded
decode_low_surrogate little eof value (third ∷ fourth ∷ _) =
    let value2 = unit little third fourth in
    if not (bit_and value2 0xFC00 == 0xDC00)
    then Decoded.error "expected low surrogate area" 2 (some value2)
    else Decoded.char ((0x10000 + bit_and value 0x3FF * 1024 + bit_and value2 0x3FF) % 2 ^ 32) 4
decode_low_surrogate little eof value _ =
    if eof then Decoded.error "incomplete UTF-16 surrogate pair" 0 none else Decoded.incomplete

-- `case YAML_UTF16LE_ENCODING` and `case YAML_UTF16BE_ENCODING`
unfoldable pub decode_utf16 : Bool → List ℕ → Bool → Decoded
decode_utf16 little (first ∷ second ∷ octets) eof =
    let value = unit little first second in
    if bit_and value 0xFC00 == 0xDC00
    then Decoded.error "unexpected low surrogate area" 0 (some value)
    else if bit_and value 0xFC00 == 0xD800
    then decode_low_surrogate little eof value octets
    else Decoded.char value 2
decode_utf16 little _ eof =
    if eof then Decoded.error "incomplete UTF-16 character" 0 none else Decoded.incomplete

-- "Check if the character is in the allowed range"
unfoldable pub is_allowed : ℕ → Bool
is_allowed value =
    value == 0x09
    || value == 0x0A
    || value == 0x0D
    || (leb 0x20 value && leb value 0x7E)
    || value == 0x85
    || (leb 0xA0 value && leb value 0xD7FF)
    || (leb 0xE000 value && leb value 0xFFFD)
    || (leb 0x10000 value && leb value 0x10FFFF)

unfoldable pub check_range : Decoded → Decoded
unfolding is_allowed
check_range (Decoded.char value width) =
    if is_allowed value
    then Decoded.char value width
    else Decoded.error "control characters are not allowed" 0 (some value)
check_range decoded = decoded

-- A round of the loop up to the move of the pointers. The encoding is determined before it.
unfoldable pub decode : Encoding → List ℕ → Bool → Decoded
unfolding decode_utf8 decode_utf16 check_range
decode Encoding.any_encoding raw eof = Decoded.fault
decode Encoding.utf8_encoding raw eof = check_range (decode_utf8 raw eof)
decode Encoding.utf16le_encoding raw eof = check_range (decode_utf16 true raw eof)
decode Encoding.utf16be_encoding raw eof = check_range (decode_utf16 false raw eof)

-- A store into a yaml_char_t.
abbrev pub octet_of : ℕ → ℕ
octet_of n = n % 256

-- "Finally put the character into the buffer": the bytes that are appended.
unfoldable pub utf8_octets : ℕ → List ℕ
utf8_octets value =
    if leb value 0x7F
    then octet_of value ∷ []
    else if leb value 0x7FF
    then octet_of (0xC0 + value / 2 ^ 6) ∷ octet_of (0x80 + bit_and value 0x3F) ∷ []
    else if leb value 0xFFFF
    then octet_of (0xE0 + value / 2 ^ 12)
      ∷ octet_of (0x80 + bit_and (value / 2 ^ 6) 0x3F)
      ∷ octet_of (0x80 + bit_and value 0x3F)
      ∷ []
    else octet_of (0xF0 + value / 2 ^ 18)
      ∷ octet_of (0x80 + bit_and (value / 2 ^ 12) 0x3F)
      ∷ octet_of (0x80 + bit_and (value / 2 ^ 6) 0x3F)
      ∷ octet_of (0x80 + bit_and value 0x3F)
      ∷ []
