-- ===== src/Reader/Utf8Sound.antt =====
-- What decode_utf8 accepts (original/src/reader.c).
use port_libyaml.Base.{
  ℕ, ◌+◌, ◌-◌, ◌*◌, ◌≤◌, ◌<◌, Bool, List, [], ◌∷◌, ◌≡◌, refl, sym, ◌∙◌, inl, inr, arith, length,
}
use native.Mathlib.Decide.{dec_lt}
use port_libyaml.Reader.Decode.{Decoded, decode_utf8}
use port_libyaml.Reader.Utf8.{
  width-lead, value-lead, decode_one, decode_start, trailing_octet, trailing_done,
}
use port_libyaml.Reader.Utf8RoundTrip.{octets_one}
use port_libyaml.Reader.Utf8Checks.{
  AreBytes, Encodes, check_inverse, IsTrailing-inverse, enough_octets, leads, encodes, regroup_two,
  regroup_three, regroup_four,
}

Encodes-one :
    (a v w : ℕ) (os : List ℕ) (eof : Bool)
    → a < 0x80
    → decode_utf8 (a ∷ os) eof ≡ Decoded.char v w
    → Encodes (a ∷ os) v w
Encodes-one a v w os eof h e =
    encodes (a ∷ os) (a ∷ []) os v w a 1 (sym (decode_one a os eof h) ∙ e) (octets_one a h) refl
      refl

Encodes-two :
    (a b v w : ℕ) (os : List ℕ) (eof : Bool)
    → 0xC0 ≤ a
    → a < 0xE0
    → b < 256
    → decode_utf8 (a ∷ b ∷ os) eof ≡ Decoded.char v w
    → Encodes (a ∷ b ∷ os) v w
Encodes-two a b v w os eof h₁ h₂ hb e =
    let n = (a - 0xC0) * 64 + (b - 0x80) in
    let start =
      decode_start a 1 (a - 0xC0) (b ∷ os) eof (ground (arith, width-lead a))
        (ground (arith, value-lead a)) (omega arith) in
    let e₁ = sym start ∙ e in
    let tb = IsTrailing-inverse 0 1 b 2 (a - 0xC0) v w os hb e₁ in
    let e₂ =
      sym (trailing_done 2 2 n os)
      ∙ sym (trailing_octet 0 1 b 2 (a - 0xC0) os tb.0 tb.1 (omega arith))
      ∙ e₁ in
    let (_, _, _, (long, _, _)) = check_inverse 2 n v w e₂ in
    encodes (a ∷ b ∷ os) (a ∷ b ∷ []) os v w n 2 e₂ (regroup_two a b n h₁ h₂ tb refl (long refl))
      refl refl

Encodes-three :
    (a b c v w : ℕ) (os : List ℕ) (eof : Bool)
    → 0xE0 ≤ a
    → a < 0xF0
    → b < 256
    → c < 256
    → decode_utf8 (a ∷ b ∷ c ∷ os) eof ≡ Decoded.char v w
    → Encodes (a ∷ b ∷ c ∷ os) v w
Encodes-three a b c v w os eof h₁ h₂ hb hc e =
    let m = (a - 0xE0) * 64 + (b - 0x80) in
    let n = m * 64 + (c - 0x80) in
    let start =
      decode_start a 2 (a - 0xE0) (b ∷ c ∷ os) eof (ground (arith, width-lead a))
        (ground (arith, value-lead a)) (omega arith) in
    let e₁ = sym start ∙ e in
    let tb = IsTrailing-inverse 1 1 b 3 (a - 0xE0) v w (c ∷ os) hb e₁ in
    let e₂ = sym (trailing_octet 1 1 b 3 (a - 0xE0) (c ∷ os) tb.0 tb.1 (omega arith)) ∙ e₁ in
    let tc = IsTrailing-inverse 0 2 c 3 m v w os hc e₂ in
    let e₃ =
      sym (trailing_done 3 3 n os)
      ∙ sym (trailing_octet 0 2 c 3 m os tc.0 tc.1 (omega arith))
      ∙ e₂ in
    let (_, _, _, (_, long, _)) = check_inverse 3 n v w e₃ in
    encodes (a ∷ b ∷ c ∷ os) (a ∷ b ∷ c ∷ []) os v w n 3 e₃
      (regroup_three a b c n h₁ h₂ tb tc refl (long refl)) refl refl

Encodes-four :
    (a b c d v w : ℕ) (os : List ℕ) (eof : Bool)
    → 0xF0 ≤ a
    → a < 0xF8
    → b < 256
    → c < 256
    → d < 256
    → decode_utf8 (a ∷ b ∷ c ∷ d ∷ os) eof ≡ Decoded.char v w
    → Encodes (a ∷ b ∷ c ∷ d ∷ os) v w
Encodes-four a b c d v w os eof h₁ h₂ hb hc hd e =
    let l = (a - 0xF0) * 64 + (b - 0x80) in
    let m = l * 64 + (c - 0x80) in
    let n = m * 64 + (d - 0x80) in
    let start =
      decode_start a 3 (a - 0xF0) (b ∷ c ∷ d ∷ os) eof (ground (arith, width-lead a))
        (ground (arith, value-lead a)) (omega arith) in
    let e₁ = sym start ∙ e in
    let tb = IsTrailing-inverse 2 1 b 4 (a - 0xF0) v w (c ∷ d ∷ os) hb e₁ in
    let e₂ = sym (trailing_octet 2 1 b 4 (a - 0xF0) (c ∷ d ∷ os) tb.0 tb.1 (omega arith)) ∙ e₁ in
    let tc = IsTrailing-inverse 1 2 c 4 l v w (d ∷ os) hc e₂ in
    let e₃ = sym (trailing_octet 1 2 c 4 l (d ∷ os) tc.0 tc.1 (omega arith)) ∙ e₂ in
    let td = IsTrailing-inverse 0 3 d 4 m v w os hd e₃ in
    let e₄ =
      sym (trailing_done 4 4 n os)
      ∙ sym (trailing_octet 0 3 d 4 m os td.0 td.1 (omega arith))
      ∙ e₃ in
    let (_, _, scalar, (_, _, long)) = check_inverse 4 n v w e₄ in
    encodes (a ∷ b ∷ c ∷ d ∷ os) (a ∷ b ∷ c ∷ d ∷ []) os v w n 4 e₄
      (regroup_four a b c d n h₁ tb tc td refl (long refl) (omega arith)) refl refl

Encodes-lead_two :
    (a v w : ℕ) (os : List ℕ) (eof : Bool)
    → 0xC0 ≤ a
    → a < 0xE0
    → AreBytes os
    → 1 ≤ length os
    → decode_utf8 (a ∷ os) eof ≡ Decoded.char v w
    → Encodes (a ∷ os) v w
Encodes-lead_two a v w [] eof h₁ h₂ hs l e = absurd (omega arith)
Encodes-lead_two a v w (b ∷ os) eof h₁ h₂ hs l e = Encodes-two a b v w os eof h₁ h₂ hs.0 e

Encodes-lead_three :
    (a v w : ℕ) (os : List ℕ) (eof : Bool)
    → 0xE0 ≤ a
    → a < 0xF0
    → AreBytes os
    → 2 ≤ length os
    → decode_utf8 (a ∷ os) eof ≡ Decoded.char v w
    → Encodes (a ∷ os) v w
Encodes-lead_three a v w (b ∷ c ∷ os) eof h₁ h₂ hs l e =
    Encodes-three a b c v w os eof h₁ h₂ hs.0 hs.1.0 e
Encodes-lead_three a v w _ eof h₁ h₂ hs l e = absurd (omega arith)

Encodes-lead_four :
    (a v w : ℕ) (os : List ℕ) (eof : Bool)
    → 0xF0 ≤ a
    → a < 0xF8
    → AreBytes os
    → 3 ≤ length os
    → decode_utf8 (a ∷ os) eof ≡ Decoded.char v w
    → Encodes (a ∷ os) v w
Encodes-lead_four a v w (b ∷ c ∷ d ∷ os) eof h₁ h₂ hs l e =
    Encodes-four a b c d v w os eof h₁ h₂ hs.0 hs.1.0 hs.1.1.0 e
Encodes-lead_four a v w _ eof h₁ h₂ hs l e = absurd (omega arith)

-- Where the reader decodes a character from bytes, the raw buffer begins with the UTF-8 encoding of
-- that character, a Unicode scalar value, and the width is the encoding's length: overlong forms,
-- surrogates, values past 0x10FFFF and stray octets are all refused.
pub decode_utf8_sound :
    (raw : List ℕ) (v w : ℕ) (eof : Bool)
    → AreBytes raw
    → decode_utf8 raw eof ≡ Decoded.char v w
    → Encodes raw v w
decode_utf8_sound [] v w eof h e = unfold decode_utf8 in absurd (ground arith)
decode_utf8_sound (a ∷ os) v w eof h e = elim (leads a v w os eof h.0 e) [
  | inl lo ↦ Encodes-one a v w os eof lo e
  | inr (lo, hi) ↦ elim (dec_lt a 0xE0) [
    | yes k ↦
        Encodes-lead_two a v w os eof lo k h.1
          (enough_octets a 1 v w os eof (ground (arith, width-lead a)) e) e
    | no k ↦ elim (dec_lt a 0xF0) [
      | yes l ↦
          Encodes-lead_three a v w os eof (omega arith) l h.1
            (enough_octets a 2 v w os eof (ground (arith, width-lead a)) e) e
      | no l ↦
          Encodes-lead_four a v w os eof (omega arith) hi h.1
            (enough_octets a 3 v w os eof (ground (arith, width-lead a)) e) e
    ]
  ]
]
