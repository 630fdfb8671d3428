-- ===== src/Types/Basics.antt =====
-- Encodings, errors, marks, directives and styles (original/include/yaml.h).
use port_libyaml.Base.{ℕ, Bool, true, false, Bytes}

pub data Encoding : Type 0 where
  any_encoding utf8_encoding utf16le_encoding utf16be_encoding : Encoding

pub data ErrorType : Type 0 where
  no_error memory_error reader_error scanner_error parser_error : ErrorType
  composer_error writer_error emitter_error : ErrorType

-- `if (error)`
abbrev pub is_error : ErrorType → Bool
is_error ErrorType.no_error = false
is_error _ = true

pub record Mark : Type 0 where
  pub index : ℕ
  pub line : ℕ
  pub column : ℕ

pub record VersionDirective : Type 0 where
  pub major : ℕ
  pub minor : ℕ

pub record TagDirective : Type 0 where
  pub handle : Bytes
  pub prefix : Bytes

pub data ScalarStyle : Type 0 where
  any_scalar plain_scalar single_quoted_scalar double_quoted_scalar : ScalarStyle
  literal_scalar folded_scalar : ScalarStyle

unfoldable pub is_plain : ScalarStyle → Bool
is_plain ScalarStyle.plain_scalar = true
is_plain _ = false

pub data SequenceStyle : Type 0 where
  any_sequence block_sequence flow_sequence : SequenceStyle

pub data MappingStyle : Type 0 where
  any_mapping block_mapping flow_mapping : MappingStyle
