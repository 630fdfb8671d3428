-- ===== src/Tests/WriterTests.antt =====
-- Texts that the writer recodes.
use port_libyaml.Base.{
  ℕ, Bool, List, none, ◌-◌, ◌*◌, ◌/◌, ◌%◌, ◌≤◌, true, false, [], ◌∷◌, ◌++◌, some, ◌≡◌, refl, inl,
  inr, arith, length, ◌==◌, if◌then◌else◌,
}
use port_libyaml.Reader.Decode.{Decoded, utf8_width, leading_value, add_octet, utf8_octets}
use port_libyaml.Writer.Recode.{read_octets, read_character, utf16_octets, recode}
use port_libyaml.Writer.Bounds.{length-recode}
use port_libyaml.Writer.Utf16.{second_unit, decode-utf16_octets, decode-utf16_octets_pair}
use port_libyaml.Reader.Decode.{decode}
use port_libyaml.Reader.Ranges.{printable_or_refused}
use port_libyaml.Emitter.Characters.{split, character}
use port_libyaml.Emitter.Safety.Strings.{Whole}
use port_libyaml.Writer.Texts.{utf16_bytes_text, AreEncodable}
use port_libyaml.Writer.Valid.{utf8_text, utf16_text, recode-utf8_text}
use port_libyaml.Types.Basics.{Encoding, ErrorType}
use port_libyaml.Writer.Flush.{Writer, flush, none_filled, is_set, output_raw_buffer_size}
use port_libyaml.Writer.Delivery.{Delivered, Doubled, after_failure, flush-text_in, flush-flush}

-- "a€" in big endian.
recode_text :
    recode false 4 (0x61 ∷ 0xE2 ∷ 0x82 ∷ 0xAC ∷ []) ≡ some (0x00 ∷ 0x61 ∷ 0x20 ∷ 0xAC ∷ [])
unfolding recode read_character read_octets utf16_octets utf8_width leading_value add_octet
recode_text = refl

-- U+10400: the high byte of the second unit is 0xE0, where 0xDC is right.
broken_pair : utf16_octets false 0x10400 ≡ 0xD8 ∷ 0x01 ∷ 0xE0 ∷ 0x00 ∷ []
unfolding utf16_octets
broken_pair = refl

abbrev text : List ℕ
text = 0x61 ∷ 0xE2 ∷ 0x82 ∷ 0xAC ∷ []

text-Whole : Whole text
unfolding character split utf8_width
text-Whole =
    Whole.next {o = 0x61} {c = 0x61 ∷ []} (omega arith, tt) refl
      (Whole.next {o = 0xE2} {c = 0xE2 ∷ 0x82 ∷ 0xAC ∷ []}
        (omega arith, (omega arith, (omega arith, tt))) refl Whole.nil)

length-recode_example :
    (raw : List ℕ) × ((recode false 4 text ≡ some raw)
      × ((length raw ≤ 2 * 4) × (length raw ≤ output_raw_buffer_size)))
length-recode_example = length-recode false text text-Whole (omega arith)

recode-utf8_text_example :
    recode true 8 (utf8_text (0x61 ∷ 0x20AC ∷ [])) ≡ some (utf16_text true (0x61 ∷ 0x20AC ∷ []))
recode-utf8_text_example =
    recode-utf8_text true 8 (0x61 ∷ 0x20AC ∷ []) (inl (omega arith), (inl (omega arith), tt))
      (unfold utf8_octets in omega arith)

decode-utf16_octets_example :
    decode Encoding.utf16le_encoding (utf16_octets true 0x20AC ++ 0x20 ∷ []) false
    ≡ printable_or_refused 0x20AC 2
decode-utf16_octets_example =
    decode-utf16_octets true 0x20AC (0x20 ∷ []) false (inl (omega arith)) (omega arith)

decode-utf16_octets_pair_example :
    decode Encoding.utf16be_encoding (utf16_octets false 0x10400 ++ []) true ≡ (
      if (0x10400 - 0x10000) / 1024 % 64 == 0
      then Decoded.char 0x10400 4
      else Decoded.error "expected low surrogate area" 2 (some (second_unit (0x10400 - 0x10000))))
decode-utf16_octets_pair_example =
    decode-utf16_octets_pair false 0x10400 [] true (omega arith) (omega arith)

-- A handler that keeps what it takes, and one that refuses the first call.
abbrev keep : List ℕ → List ℕ → Bool × List ℕ
keep sink bytes = (true, sink ++ bytes)

abbrev refuse_first : List ℕ → List ℕ → Bool × List ℕ
refuse_first [] bytes = (false, 1 ∷ [])
refuse_first (o ∷ os) bytes = (true, bytes)

abbrev filled_writer : List ℕ → Writer (List ℕ)
filled_writer text = record {
  encoding = Encoding.utf16be_encoding;
  written = text;
  filled = [];
  raw = [];
  error = ErrorType.no_error;
  problem = none;
  sink = [];
}

-- "a€", and U+10001.
abbrev letters : List ℕ
letters = 0x61 ∷ 0x20AC ∷ 0x10001 ∷ []

letters-AreEncodable : AreEncodable letters
letters-AreEncodable = (
  record { scalar = inl (omega arith); clear = inl (omega arith) },
  (
    record { scalar = inl (omega arith); clear = inl (omega arith) },
    (record { scalar = inr (omega arith, omega arith); clear = inr (omega arith) }, tt),
  ),
)

letters_bytes :
    utf16_bytes_text false letters ≡ 0x00 ∷ 0x61 ∷ 0x20 ∷ 0xAC ∷ 0xD8 ∷ 0x00 ∷ 0xDC ∷ 0x01 ∷ []
letters_bytes = refl

flush-text_in_example :
    Delivered true
      (filled_writer (utf8_text letters))
      (utf16_bytes_text false letters)
      (flush keep (filled_writer (utf8_text letters)))
unfolding is_set none_filled utf8_octets
flush-text_in_example =
    flush-text_in keep (filled_writer (utf8_text letters)) letters true
      (utf16_bytes_text false letters) letters-AreEncodable refl (omega arith) refl refl refl refl

flush-flush_example :
    Doubled true
      (utf16_bytes_text false letters ++ utf16_bytes_text false letters)
      (utf16_bytes_text false letters)
      (after_failure (flush refuse_first) (flush refuse_first (filled_writer (utf8_text letters))))
unfolding none_filled utf8_octets
flush-flush_example =
    flush-flush refuse_first false (filled_writer (utf8_text letters)) letters (1 ∷ []) true
      (utf16_bytes_text false letters ++ utf16_bytes_text false letters) letters-AreEncodable refl
      (omega arith) refl refl refl refl refl
