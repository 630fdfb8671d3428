-- ===== src/Writer/Bounds.antt =====
-- How much the loop puts into the raw buffer of the writer (original/src/writer.c).
use port_libyaml.Base.{
  ℕ, zero, suc, ◌+◌, ◌-◌, ◌*◌, ◌≤◌, ◌<◌, Bool, false, List, [], ◌∷◌, ◌++◌, some, ◌≡◌, refl, ap,
  arith, ltb, ◌==◌, length, length-append, if◌then◌else◌, Option-cases, inl, inr,
}
use port_libyaml.Base.Bits.{low_3, low_4, low_5, low_6, low_7, high_1, high_3, high_4, high_5}
use port_libyaml.Reader.Decode.{utf8_width, leading_value, add_octet}
use port_libyaml.Writer.Flush.{output_buffer_size, output_raw_buffer_size}
use port_libyaml.Emitter.Safety.Strings.{Whole}
use port_libyaml.Emitter.Safety.Recoding.{recode-Whole}
use port_libyaml.Writer.Recode.{read_octets, read_character, utf16_octets, recode}

length-utf16_octets :
    (little : Bool) (v : ℕ) → length (utf16_octets little v) ≡ (if ltb v 0x10000 then 2 else 4)
unfolding utf16_octets
length-utf16_octets little v = ground arith

-- The greatest value of the first octet of a sequence with so many trailing octets.
abbrev greatest_lead : ℕ → ℕ
greatest_lead zero = 127
greatest_lead (suc zero) = 31
greatest_lead (suc (suc zero)) = 15
greatest_lead (suc (suc (suc n))) = 7

lead-le : (o n : ℕ) → utf8_width o ≡ suc n → (leading_value o ≤ greatest_lead n) × (n ≤ 3)
unfolding utf8_width leading_value
lead-le o n h =
    ground (arith, high_1 o, high_3 o, high_4 o, high_5 o, low_7 o, low_5 o, low_4 o, low_3 o)

-- The greatest value after so many more octets.
abbrev greatest : ℕ → ℕ → ℕ
greatest zero m = m
greatest (suc n) m = greatest n (m * 64 + 63)

add_octet-le : (v o m : ℕ) → v ≤ m → add_octet v o ≤ m * 64 + 63
unfolding add_octet
add_octet-le v o m h = omega (arith, low_6 o)

read_octets-le :
    (n v m v' : ℕ) (os rest : List ℕ)
    → v ≤ m
    → read_octets n os v ≡ some (v', rest)
    → (v' ≤ greatest n m) × (length rest + n ≡ length os)
unfolding read_octets
read_octets-le zero v m v' os rest h e = ground arith
read_octets-le (suc n) v m v' [] rest h e = cc
read_octets-le (suc n) v m v' (o ∷ os) rest h e =
    let (le, len) =
      read_octets-le n (add_octet v o) (m * 64 + 63) v' os rest (add_octet-le v o m h) e in
    (le, omega arith)

-- A character of one to three octets is below U+10000.
greatest-lt : (n : ℕ) → n ≤ 2 → greatest n (greatest_lead n) < 0x10000
greatest-lt zero h = omega arith
greatest-lt (suc zero) h = omega arith
greatest-lt (suc (suc zero)) h = omega arith
greatest-lt (suc (suc (suc n))) h = absurd (omega arith)

-- The first octet of a character that is read has a width.
lead_of :
    (o v : ℕ) (os rest : List ℕ)
    → read_character (o ∷ os) ≡ some (v, rest)
    → (n : ℕ) × (utf8_width o ≡ suc n) × (read_octets n os (leading_value o) ≡ some (v, rest))
lead_of o v os rest e = from (utf8_width o) refl
  where
    from :
        (w : ℕ)
        → utf8_width o ≡ w
        → (n : ℕ) × (utf8_width o ≡ suc n) × (read_octets n os (leading_value o) ≡ some (v, rest))
    from zero h = absurd (unfold read_character in ground arith)
    from (suc n) h =
        let less : suc n - 1 ≡ n = omega arith in
        let positive : (suc n == 0) ≡ false = ground arith in
        (n, h, unfold read_character in (rw (h, positive, less) at e))

-- A character takes no more than twice its octets in UTF-16.
read_character-bound :
    (little : Bool) (o v : ℕ) (os rest : List ℕ)
    → read_character (o ∷ os) ≡ some (v, rest)
    → (length (utf16_octets little v) + 2 * length rest ≤ 2 * length (o ∷ os))
      × (length rest ≤ length os)
read_character-bound little o v os rest e =
    let (n, width, read) = lead_of o v os rest e in
    let (lead, three) = lead-le o n width in
    let (le, len) = read_octets-le n (leading_value o) (greatest_lead n) v os rest lead read in
    ground (arith, length-utf16_octets little v, greatest-lt n)

-- What is recoded is no more than twice as long.
pub recode-bound :
    (little : Bool) (fuel : ℕ) (os raw : List ℕ)
    → recode little fuel os ≡ some raw
    → length raw ≤ 2 * length os
unfolding recode
recode-bound little fuel [] raw e = ground arith
recode-bound little zero (o ∷ os) raw e = cc
recode-bound little (suc fuel) (o ∷ os) raw e = elim (Option-cases (read_character (o ∷ os))) [
  | inl h ↦ absurd (ground (arith, rw (h, recode) at e))
  | inr ((v, rest), h) ↦ elim (Option-cases (recode little fuel rest)) [
    | inl k ↦ absurd (ground (arith, rw (h, k, recode) at e))
    | inr (raw', k) ↦
        let (bound, _) = read_character-bound little o v os rest h in
        let whole : utf16_octets little v ++ raw' ≡ raw = ground (arith, rw (h, k, recode) at e) in
        omega (
          arith,
          bound,
          ap length whole,
          length-append (utf16_octets little v) raw',
          recode-bound little fuel rest raw' k,
        )
  ]
]

-- Where the buffer has OUTPUT_BUFFER_SIZE bytes at most and they fall into characters, the loop ends
-- within as many rounds as there are bytes, reads past no end, and what it makes is at most twice as
-- long and fits an empty raw buffer of OUTPUT_RAW_BUFFER_SIZE bytes.
pub length-recode :
    (little : Bool) (os : List ℕ)
    → Whole os
    → length os ≤ output_buffer_size
    → (raw : List ℕ) × ((recode little (length os) os ≡ some raw)
        × ((length raw ≤ 2 * length os) × (length raw ≤ output_raw_buffer_size)))
length-recode little os w h =
    let (raw, e) = recode-Whole little (length os) os w (omega arith) in
    let twice = recode-bound little (length os) os raw e in (raw, (e, (twice, omega arith)))
