-- ===== src/Writer/Texts.antt =====
-- Texts in the encoding of the output (original/src/writer.c).
use port_libyaml.Base.{
  ℕ, ◌*◌, ◌≤◌, ◌∷◌, Bool, true, false, List, [], ◌++◌, ◌≡◌, refl, arith, length,
}
use port_libyaml.Types.Basics.{Encoding}
use port_libyaml.Writer.Bounds.{recode-bound}
use port_libyaml.Writer.Utf16.{utf16_bytes, IsEncodable, utf16_octets-utf16_bytes}
use port_libyaml.Writer.Valid.{AreScalars, utf8_text, utf16_text, recode-utf8_text}

-- A text in UTF-16, and in the encoding of the output.
abbrev pub utf16_bytes_text : Bool → List ℕ → List ℕ
utf16_bytes_text little [] = []
utf16_bytes_text little (v ∷ vs) = utf16_bytes little v ++ utf16_bytes_text little vs

abbrev pub text_in : Encoding → List ℕ → List ℕ
text_in Encoding.utf8_encoding vs = utf8_text vs
text_in Encoding.utf16le_encoding vs = utf16_bytes_text true vs
text_in _ vs = utf16_bytes_text false vs

abbrev pub AreEncodable : List ℕ → Type 0
AreEncodable [] = Unit
AreEncodable (v ∷ vs) = IsEncodable v × AreEncodable vs

-- The texts that the writer can put into an encoding: all into UTF-8; into UTF-16 those without the
-- characters whose surrogate pair it breaks.
abbrev pub AreWritable : Encoding → List ℕ → Type 0
AreWritable Encoding.utf8_encoding vs = AreScalars vs
AreWritable _ vs = AreEncodable vs

pub AreEncodable-AreScalars : (vs : List ℕ) → AreEncodable vs → AreScalars vs
AreEncodable-AreScalars [] s = tt
AreEncodable-AreScalars (v ∷ vs) s = (s.0.scalar, AreEncodable-AreScalars vs s.1)

pub utf16_text-utf16_bytes_text :
    (little : Bool) (vs : List ℕ)
    → AreEncodable vs
    → utf16_text little vs ≡ utf16_bytes_text little vs
utf16_text-utf16_bytes_text little [] s = refl
utf16_text-utf16_bytes_text little (v ∷ vs) s =
    rw (utf16_octets-utf16_bytes little v s.0, utf16_text-utf16_bytes_text little vs s.1) refl

pub length-utf16_text :
    (little : Bool) (vs : List ℕ)
    → AreScalars vs
    → length (utf16_text little vs) ≤ 2 * length (utf8_text vs)
length-utf16_text little vs s =
    recode-bound little (length (utf8_text vs)) (utf8_text vs) (utf16_text little vs)
      (recode-utf8_text little (length (utf8_text vs)) vs s (omega arith))
