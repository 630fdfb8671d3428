-- ===== src/Tests/ApiTests.antt =====
-- The API on small inputs.
use port_libyaml.Base.{◌↔◌, true, false, [], ◌∷◌, none, some, Bytes, ◌≡◌, refl, arith}
use port_libyaml.Types.Basics.{ScalarStyle, SequenceStyle, MappingStyle, TagDirective}
use port_libyaml.Types.Events.{EventData}
use port_libyaml.Api.Events.{
  Made, has_memory, allocate, copy_text, copy_optional, up_to_nul, value_of, copy_value, take_value,
  octets_of, alias_event_initialize, sequence_start_event_initialize,
  mapping_start_event_initialize, scalar_event_initialize, document_start_event_initialize,
}
use port_libyaml.Api.EventStrings.{Makes, text_of}
use port_libyaml.Api.EventsWhole.{
  start_event_initialize-IsMade, IsMade, scalar_event_initialize-IsMade,
  document_start_event_initialize-IsMade,
}
use port_libyaml.Reader.Decode.{utf8_width, leading_value, add_octet}
use port_libyaml.Api.Utf8.{check_utf8, check_utf8_from, check_sequence, check_trailing, is_shortest}
use port_libyaml.Emitter.Safety.Strings.{Whole}
use port_libyaml.Api.Utf8Characters.{check_utf8-Whole}
use port_libyaml.Api.Utf8Exact.{Encoding, check_utf8-utf8_text}

-- A surrogate, which the reader refuses.
surrogate : check_utf8 (0xED ∷ 0xA0 ∷ 0x80 ∷ []) ≡ true
unfolding check_utf8 check_utf8_from check_sequence check_trailing is_shortest utf8_width
    leading_value add_octet
surrogate = refl

-- 0x110000, which no encoding of Unicode has.
above : check_utf8 (0xF4 ∷ 0x90 ∷ 0x80 ∷ 0x80 ∷ []) ≡ true
unfolding check_utf8 check_utf8_from check_sequence check_trailing is_shortest utf8_width
    leading_value add_octet
above = refl

check_utf8-utf8_text_example :
    (check_utf8 (0xE2 ∷ 0x82 ∷ 0xAC ∷ []) ≡ true) ↔ Encoding (0xE2 ∷ 0x82 ∷ 0xAC ∷ [])
check_utf8-utf8_text_example =
    check_utf8-utf8_text (0xE2 ∷ 0x82 ∷ 0xAC ∷ []) (omega arith, (omega arith, (omega arith, tt)))

check_utf8-Whole_example : Whole (0xED ∷ 0xA0 ∷ 0x80 ∷ [])
check_utf8-Whole_example =
    check_utf8-Whole (0xED ∷ 0xA0 ∷ 0x80 ∷ []) (omega arith, (omega arith, (omega arith, tt)))
      surrogate

abbrev anchor_text : Bytes
anchor_text = b'a' ∷ b'1' ∷ []

abbrev value_text : Bytes
value_text = b'v' ∷ 0xc3 ∷ 0xa9 ∷ 0 ∷ b'x' ∷ []

scalar_test :
    scalar_event_initialize
      (some anchor_text)
      none
      value_text
      none
      true
      false
      ScalarStyle.plain_scalar
      []
    ≡ Made.made
        (EventData.scalar (record {
          anchor = some anchor_text;
          tag = none;
          value = b'v' ∷ 0xc3 ∷ 0xa9 ∷ [];
          plain_implicit = true;
          quoted_implicit = false;
          style = ScalarStyle.plain_scalar;
        }))
        []
unfolding scalar_event_initialize copy_optional copy_text copy_value value_of take_value octets_of
    up_to_nul allocate has_memory check_utf8 check_utf8_from check_sequence check_trailing
    is_shortest utf8_width add_octet leading_value
scalar_test = refl

refused_test : alias_event_initialize (0xff ∷ []) [] ≡ Made.refused []
unfolding alias_event_initialize copy_text check_utf8 check_utf8_from check_sequence utf8_width
refused_test = refl

scalar_event_initialize-IsMade_example :
    Makes
      (IsMade (
        EventData.scalar (record {
          anchor = some anchor_text;
          tag = none;
          value = text_of value_text (some 3);
          plain_implicit = true;
          quoted_implicit = false;
          style = ScalarStyle.plain_scalar;
        })))
      (scalar_event_initialize
        (some anchor_text)
        none
        value_text
        (some 3)
        true
        false
        ScalarStyle.plain_scalar
        [])
scalar_event_initialize-IsMade_example =
    scalar_event_initialize-IsMade (some anchor_text) none value_text (some 3) true false
      ScalarStyle.plain_scalar [] (omega arith, (omega arith, tt)) tt
      (omega arith, (omega arith, (omega arith, (omega arith, (omega arith, tt))))) (omega arith)

abbrev local : TagDirective
local = record { handle = b'!' ∷ []; prefix = b'!' ∷ b'l' ∷ [] }

document_start_event_initialize-IsMade_example :
    Makes
      (IsMade (
        EventData.document_start
          (record { version_directive = none; tag_directives = local ∷ []; implicit = false })))
      (document_start_event_initialize none (local ∷ []) false [])
document_start_event_initialize-IsMade_example =
    document_start_event_initialize-IsMade none (local ∷ []) false []
      ((omega arith, tt), ((omega arith, (omega arith, tt)), tt))

start_event_initialize-IsMade_example :
    Makes
      (IsMade (
        EventData.sequence_start (record {
          anchor = some anchor_text;
          tag = none;
          implicit = true;
          style = SequenceStyle.flow_sequence;
        })))
      (sequence_start_event_initialize
        (some anchor_text)
        none
        true
        SequenceStyle.flow_sequence
        (true ∷ []))
    × Makes
        (IsMade (
          EventData.mapping_start (record {
            anchor = some anchor_text;
            tag = none;
            implicit = true;
            style = MappingStyle.block_mapping;
          })))
        (mapping_start_event_initialize
          (some anchor_text)
          none
          true
          MappingStyle.block_mapping
          (true ∷ []))
start_event_initialize-IsMade_example =
    start_event_initialize-IsMade (some anchor_text) none true SequenceStyle.flow_sequence
      MappingStyle.block_mapping (true ∷ []) (omega arith, (omega arith, tt)) tt
