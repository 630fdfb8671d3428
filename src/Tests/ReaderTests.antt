-- ===== src/Tests/ReaderTests.antt =====
-- Characters that the reader decodes and refuses.
use port_libyaml.Base.{true, false, [], ◌∷◌, ◌++◌, none, some, ◌≡◌, refl, inl, arith, length}
use port_libyaml.Reader.Decode.{
  Decoded, utf8_width, leading_value, add_octet, check_utf8_value, trailing_octets, decode_utf8,
  unit, decode_low_surrogate, decode_utf16, utf8_octets, is_allowed, check_range, decode,
}
use port_libyaml.Types.Basics.{Encoding}
use port_libyaml.Reader.Ranges.{printable_or_refused, decode-utf8_octets}
use port_libyaml.Reader.Utf8Checks.{Encodes}
use port_libyaml.Reader.Utf8Sound.{decode_utf8_sound}

-- The euro sign, and what follows it.
euro : decode_utf8 (0xE2 ∷ 0x82 ∷ 0xAC ∷ 0x20 ∷ []) false ≡ Decoded.char 0x20AC 3
unfolding decode_utf8 utf8_width leading_value trailing_octets add_octet check_utf8_value
euro = refl

-- An overlong encoding of '/'.
overlong :
    decode_utf8 (0xC0 ∷ 0xAF ∷ []) true ≡ Decoded.error "invalid length of a UTF-8 sequence" 0 none
unfolding decode_utf8 utf8_width leading_value trailing_octets add_octet check_utf8_value
overlong = refl

-- A surrogate pair in little endian.
pair : decode_utf16 true (0x3D ∷ 0xD8 ∷ 0x00 ∷ 0xDE ∷ []) true ≡ Decoded.char 0x1F600 4
unfolding decode_utf16 decode_low_surrogate unit
pair = refl

-- U+0080 is refused, and the euro sign is not.
control :
    decode Encoding.utf8_encoding (0xC2 ∷ 0x80 ∷ []) true
    ≡ Decoded.error "control characters are not allowed" 0 (some 0x80)
unfolding decode decode_utf8 utf8_width leading_value trailing_octets add_octet check_utf8_value
    check_range is_allowed
control = refl

decode-utf8_octets_example :
    decode Encoding.utf8_encoding (utf8_octets 0x20AC ++ 0x20 ∷ []) false
    ≡ printable_or_refused 0x20AC (length (utf8_octets 0x20AC))
decode-utf8_octets_example = decode-utf8_octets 0x20AC (0x20 ∷ []) false (inl (omega arith))

decode_utf8_sound_example : Encodes (0xE2 ∷ 0x82 ∷ 0xAC ∷ 0x20 ∷ []) 0x20AC 3
decode_utf8_sound_example =
    decode_utf8_sound (0xE2 ∷ 0x82 ∷ 0xAC ∷ 0x20 ∷ []) 0x20AC 3 false (omega arith) euro
