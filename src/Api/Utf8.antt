-- ===== src/Api/Utf8.antt =====
-- yaml_check_utf8 (original/src/api.c).
use Prim.Native.Nat.{bit_and}
use port_libyaml.Base.{
  ℕ, zero, suc, ◌+◌, ◌-◌, Bool, true, false, not, ◌&&◌, ◌||◌, List, [], ◌∷◌, Option, none, some,
  ◌==◌, ltb, leb, length, if◌then◌else◌,
}
use port_libyaml.Reader.Decode.{utf8_width, leading_value, add_octet}

-- The for loop over the trailing octets, of which so many are read: the value, and what is left.
unfoldable pub check_trailing : ℕ → List ℕ → ℕ → Option (ℕ × List ℕ)
check_trailing zero octets value = some (value, octets)
check_trailing (suc left) [] value = none
check_trailing (suc left) (octet ∷ octets) value =
    let rest = check_trailing left octets (add_octet value octet) in
    if not (bit_and octet 0xC0 == 0x80) then none else rest

-- "The length of the sequence against the value"
unfoldable pub is_shortest : ℕ → ℕ → Bool
is_shortest width value =
    width == 1
    || (width == 2 && leb 0x80 value)
    || (width == 3 && leb 0x800 value)
    || (width == 4 && leb 0x10000 value)

-- One round of the loop: what is left of the string, `none` for `return 0`.
unfoldable pub check_sequence : ℕ → List ℕ → Option (List ℕ)
check_sequence octet octets =
    let width = utf8_width octet in
    if width == 0
    then none
    else if ltb (length octets + 1) width
    then none
    else elim (check_trailing (width - 1) octets (leading_value octet)) [
      | none ↦ none
      | some (value, rest) ↦ if is_shortest width value then some rest else none
    ]

-- The loop, with a round for each unit of fuel; a round takes an octet at least.
unfoldable pub check_utf8_from : ℕ → List ℕ → Bool
unfolding check_sequence
check_utf8_from fuel [] = true
check_utf8_from zero (octet ∷ octets) = false
check_utf8_from (suc fuel) (octet ∷ octets) = elim (check_sequence octet octets) [
  | none ↦ false
  | some rest ↦ check_utf8_from fuel rest
]

unfoldable pub check_utf8 : List ℕ → Bool
unfolding check_utf8_from
check_utf8 octets = check_utf8_from (length octets) octets
