-- ===== src/Reader/Utf8Checks.antt =====
-- What a decoded UTF-8 sequence has passed: its lead, its trailing octets, its value
-- (original/src/reader.c).
use port_libyaml.Base.{
  ℕ, suc, ◌+◌, ◌-◌, ◌*◌, ◌/◌, ◌%◌, ◌≤◌, ◌<◌, Bool, List, [], ◌∷◌, ◌++◌, ◌≡◌, sym, subst, ◌∙◌, ◌⊎◌,
  arith, length,
}
use port_libyaml.Base.Bits.{high_2}
use port_libyaml.Reader.Decode.{
  Decoded, utf8_width, check_utf8_value, trailing_octets, decode_utf8, utf8_octets,
}
use port_libyaml.Reader.Utf8.{IsScalar, IsTrailing, width-lead}
use port_libyaml.Reader.Utf8RoundTrip.{octets_two, octets_three, octets_four}

abbrev pub AreBytes : List ℕ → Type 0
AreBytes [] = Unit
AreBytes (b ∷ bs) = (b < 256) × AreBytes bs

-- `raw` begins with the encoding of the scalar value `v`, and `w` is its length.
pub record Encodes (raw : List ℕ) (v w : ℕ) : Type 0 where
  pub scalar : IsScalar v
  pub rest : List ℕ
  pub splits : raw ≡ utf8_octets v ++ rest
  pub width : w ≡ length (utf8_octets v)

-- What the checks at the end of the sequence establish.
pub check_inverse :
    (w n x y : ℕ)
    → check_utf8_value w n ≡ Decoded.char x y
    → (x ≡ n)
      × (y ≡ w)
      × IsScalar n
      × ((w ≡ 2 → 0x80 ≤ n) × (w ≡ 3 → 0x800 ≤ n) × (w ≡ 4 → 0x10000 ≤ n))
unfolding check_utf8_value
check_inverse w n x y e = ground arith

-- The loop goes on past trailing octets alone.
pub IsTrailing-inverse :
    (left k o w n x y : ℕ) (os : List ℕ)
    → o < 256
    → trailing_octets (suc left) k (o ∷ os) w n ≡ Decoded.char x y
    → IsTrailing o
unfolding trailing_octets
IsTrailing-inverse left k o w n x y os h e = ground (arith, high_2 o)

-- A sequence that is decoded is complete.
pub enough_octets :
    (a left x y : ℕ) (os : List ℕ) (eof : Bool)
    → utf8_width a ≡ suc left
    → decode_utf8 (a ∷ os) eof ≡ Decoded.char x y
    → left ≤ length os
unfolding decode_utf8
enough_octets a left x y os eof width e = ground arith

pub leads :
    (a x y : ℕ) (os : List ℕ) (eof : Bool)
    → a < 256
    → decode_utf8 (a ∷ os) eof ≡ Decoded.char x y
    → (a < 0x80) ⊎ ((0xC0 ≤ a) × (a < 0xF8))
unfolding decode_utf8
leads a x y os eof h e = ground (arith, width-lead a)

-- From the value that the checks accept to the claim.
pub encodes :
    (raw octets rest : List ℕ) (v w n k : ℕ)
    → check_utf8_value k n ≡ Decoded.char v w
    → utf8_octets n ≡ octets
    → raw ≡ octets ++ rest
    → k ≡ length octets
    → Encodes raw v w
encodes raw octets rest v w n k e o r l =
    let (ev, ew, scalar, _) = check_inverse k n v w e in
    record {
      scalar = subst IsScalar (sym ev) scalar;
      rest = rest;
      splits = rw (ev, o) r;
      width = rw (ev, o) (ew ∙ l);
    }

-- The value of two octets, and its octets.
pub regroup_two :
    (a b n : ℕ)
    → 0xC0 ≤ a
    → a < 0xE0
    → IsTrailing b
    → n ≡ (a - 0xC0) * 64 + (b - 0x80)
    → 0x80 ≤ n
    → utf8_octets n ≡ a ∷ b ∷ []
regroup_two a b n h₁ h₂ tb en lo =
    let first : 0xC0 + n / 64 ≡ a = omega arith in
    let second : 0x80 + n % 64 ≡ b = omega arith in
    octets_two n lo (omega arith) ∙ rw (first, second)

pub regroup_three :
    (a b c n : ℕ)
    → 0xE0 ≤ a
    → a < 0xF0
    → IsTrailing b
    → IsTrailing c
    → n ≡ ((a - 0xE0) * 64 + (b - 0x80)) * 64 + (c - 0x80)
    → 0x800 ≤ n
    → utf8_octets n ≡ a ∷ b ∷ c ∷ []
regroup_three a b c n h₁ h₂ tb tc en lo =
    let first : 0xE0 + n / 4096 ≡ a = omega arith in
    let second : 0x80 + n / 64 % 64 ≡ b = omega arith in
    let third : 0x80 + n % 64 ≡ c = omega arith in
    octets_three n lo (omega arith) ∙ rw (first, second, third)

pub regroup_four :
    (a b c d n : ℕ)
    → 0xF0 ≤ a
    → IsTrailing b
    → IsTrailing c
    → IsTrailing d
    → n ≡ (((a - 0xF0) * 64 + (b - 0x80)) * 64 + (c - 0x80)) * 64 + (d - 0x80)
    → 0x10000 ≤ n
    → n < 0x200000
    → utf8_octets n ≡ a ∷ b ∷ c ∷ d ∷ []
regroup_four a b c d n h₁ tb tc td en lo hi =
    let first : 0xF0 + n / 262144 ≡ a = omega arith in
    let second : 0x80 + n / 4096 % 64 ≡ b = omega arith in
    let third : 0x80 + n / 64 % 64 ≡ c = omega arith in
    let fourth : 0x80 + n % 64 ≡ d = omega arith in
    octets_four n lo hi ∙ rw (first, second, third, fourth)
