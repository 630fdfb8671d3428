-- ===== src/Writer/Recode.antt =====
-- The recoding of one character in yaml_emitter_flush (original/src/writer.c). The macros of the
-- reader stand here once more, with no check: the buffer is assumed to hold valid UTF-8.
use Prim.Native.Nat.{bit_and}
use port_libyaml.Base.{
  ℕ, zero, suc, ◌+◌, ◌-◌, ◌/◌, ◌^◌, Bool, List, [], ◌∷◌, ◌++◌, Option, none, some, ◌==◌, ltb,
  if◌then◌else◌,
}
use port_libyaml.Reader.Decode.{utf8_width, leading_value, add_octet, octet_of}

-- The for loop over the trailing octets, of which so many are read; `none` for a read past the end
-- of the buffer. It leaves the value and the octets behind the character.
unfoldable pub read_octets : ℕ → List ℕ → ℕ → Option (ℕ × List ℕ)
read_octets zero octets value = some (value, octets)
read_octets (suc left) [] value = none
read_octets (suc left) (octet ∷ octets) value = read_octets left octets (add_octet value octet)

-- "Read the next UTF-8 character." On an octet that starts none the width is 0, and C would read
-- the same octet for ever: here `none`, too.
unfoldable pub read_character : List ℕ → Option (ℕ × List ℕ)
read_character [] = none
read_character (octet ∷ octets) =
    let width = utf8_width octet in
    if width == 0 then none else read_octets (width - 1) octets (leading_value octet)

-- Two bytes, `last[high]` and `last[low]`, in the order of the encoding; the flag is that for little
-- endian.
unfoldable pub in_order : Bool → ℕ → ℕ → List ℕ → List ℕ
in_order little high low rest =
    if little then octet_of low ∷ octet_of high ∷ rest else octet_of high ∷ octet_of low ∷ rest

-- "Write the character.": the bytes that are appended to the raw buffer.
unfoldable pub utf16_octets : Bool → ℕ → List ℕ
unfolding in_order
utf16_octets little value =
    if ltb value 0x10000
    then in_order little (value / 2 ^ 8) (bit_and value 0xFF) []
    else let value' = value - 0x10000 in
      in_order little (0xD8 + value' / 2 ^ 18) (bit_and (value' / 2 ^ 10) 0xFF)
        (in_order little (0xDC + bit_and (value' / 2 ^ 8) 0xFF) (bit_and value' 0xFF) [])

-- The loop over the buffer, with a round for each unit of fuel: what it appends to the raw buffer.
-- `none` where C has undefined behaviour: behind an incomplete character it reads on past the end of
-- the buffer, and at an octet that starts none it stands still and appends for ever, past the end of
-- the raw buffer. It stands for used up fuel too, which the length of the buffer does not come to.
unfoldable pub recode : Bool → ℕ → List ℕ → Option (List ℕ)
recode little fuel [] = some []
recode little zero (o ∷ os) = none
recode little (suc fuel) (o ∷ os) = elim (read_character (o ∷ os)) [
  | none ↦ none
  | some (value, rest) ↦ elim (recode little fuel rest) [
    | none ↦ none
    | some raw ↦ some (utf16_octets little value ++ raw)
  ]
]
