-- ===== src/Emitter/Characters.antt =====
-- The macros of original/src/yaml_private.h on the octets of a string from `pointer` to `end`. Behind
-- the last octet stands the closing NUL.
use port_libyaml.Base.{
  ℕ, zero, suc, Bool, not, ◌&&◌, ◌||◌, List, [], ◌∷◌, Option, none, some, ◌==◌, ltb, leb,
  if◌then◌else◌,
}
use port_libyaml.Reader.Decode.{utf8_width}

-- `string.pointer[offset]`. Past the closing NUL nothing is read: a test with && and || stops at the NUL
-- before it, so the value there does not matter.
unfoldable pub octet_at : List ℕ → ℕ → ℕ
octet_at [] offset = 0
octet_at (o ∷ os) zero = o
octet_at (o ∷ os) (suc offset) = octet_at os offset

unfoldable pub check_at : List ℕ → ℕ → ℕ → Bool
check_at string octet offset = octet_at string offset == octet

unfoldable pub check : List ℕ → ℕ → Bool
unfolding check_at
check string octet = check_at string octet 0

unfoldable pub is_alpha : ℕ → Bool
is_alpha o =
    (leb b'0' o && leb o b'9')
    || (leb b'A' o && leb o b'Z')
    || (leb b'a' o && leb o b'z')
    || o == b'_'
    || o == b'-'

unfoldable pub is_ascii : List ℕ → Bool
is_ascii string = leb (octet_at string 0) 0x7F

unfoldable pub is_printable : List ℕ → Bool
is_printable string =
    let o = octet_at string 0 in
    let p = octet_at string 1 in
    let q = octet_at string 2 in
    o == 0x0A
    || (leb 0x20 o && leb o 0x7E)
    || (o == 0xC2 && leb 0xA0 p)
    || (ltb 0xC2 o && ltb o 0xED)
    || (o == 0xED && ltb p 0xA0)
    || o == 0xEE
    || (o == 0xEF && not (p == 0xBB && q == 0xBF) && not (p == 0xBF && (q == 0xBE || q == 0xBF)))

unfoldable pub is_z : List ℕ → Bool
is_z string = octet_at string 0 == 0

unfoldable pub is_bom : List ℕ → Bool
is_bom string = octet_at string 0 == 0xEF && octet_at string 1 == 0xBB && octet_at string 2 == 0xBF

unfoldable pub is_space : List ℕ → Bool
is_space string = octet_at string 0 == 0x20

unfoldable pub is_blank : List ℕ → Bool
unfolding is_space
is_blank string = is_space string || octet_at string 0 == 0x09

unfoldable pub is_break : List ℕ → Bool
is_break string =
    let o = octet_at string 0 in
    let p = octet_at string 1 in
    let q = octet_at string 2 in
    o == 0x0D
    || o == 0x0A
    || (o == 0xC2 && p == 0x85)
    || (o == 0xE2 && p == 0x80 && q == 0xA8)
    || (o == 0xE2 && p == 0x80 && q == 0xA9)

unfoldable pub is_blankz : List ℕ → Bool
unfolding is_blank is_break is_z
is_blankz string = is_blank string || (is_break string || is_z string)

-- The first octets, so many of them, and the octets behind them.
unfoldable pub split : ℕ → List ℕ → Option (List ℕ × List ℕ)
split zero os = some ([], os)
split (suc n) [] = none
split (suc n) (o ∷ os) = elim (split n os) [ none ↦ none | some (c, rest) ↦ some (o ∷ c, rest) ]

-- The character at `pointer`, as MOVE and COPY take it, and what is behind it; `none` where it has no
-- width, or goes past the end.
unfoldable pub character : List ℕ → Option (List ℕ × List ℕ)
unfolding split
character [] = none
character (o ∷ os) = if utf8_width o == 0 then none else split (utf8_width o) (o ∷ os)
