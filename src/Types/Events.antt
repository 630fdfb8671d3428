-- ===== src/Types/Events.antt =====
-- Events (original/include/yaml.h): the type and its member of the union are one constructor.
use port_libyaml.Base.{Bool, Option, List, Bytes}
use port_libyaml.Types.Basics.{
  Encoding, Mark, VersionDirective, TagDirective, ScalarStyle, SequenceStyle, MappingStyle,
}

pub record ScalarEvent : Type 0 where
  pub anchor : Option Bytes
  pub tag : Option Bytes
  pub value : Bytes
  pub plain_implicit : Bool
  pub quoted_implicit : Bool
  pub style : ScalarStyle

pub record SequenceStartEvent : Type 0 where
  pub anchor : Option Bytes
  pub tag : Option Bytes
  pub implicit : Bool
  pub style : SequenceStyle

pub record MappingStartEvent : Type 0 where
  pub anchor : Option Bytes
  pub tag : Option Bytes
  pub implicit : Bool
  pub style : MappingStyle

pub record DocumentStartEvent : Type 0 where
  pub version_directive : Option VersionDirective
  pub tag_directives : List TagDirective
  pub implicit : Bool

pub data EventData : Type 0 where
  no_event stream_end sequence_end mapping_end : EventData
  stream_start : Encoding → EventData
  document_start : DocumentStartEvent → EventData
  document_end : Bool → EventData
  alias : Bytes → EventData
  scalar : ScalarEvent → EventData
  sequence_start : SequenceStartEvent → EventData
  mapping_start : MappingStartEvent → EventData

pub record Event : Type 0 where
  pub content : EventData
  pub start_mark : Mark
  pub end_mark : Mark
