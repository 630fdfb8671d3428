-- ===== src/Api/EventsWhole.antt =====
-- The functions yaml_*_event_initialize (original/src/api.c) make events that the emitter can take.
use port_libyaml.Base.{ℕ, Bool, true, ◌&&◌, List, [], ◌∷◌, Option, none, some, Bytes, ◌≡◌, refl}
use port_libyaml.Types.Basics.{
  VersionDirective, TagDirective, ScalarStyle, SequenceStyle, MappingStyle,
}
use port_libyaml.Types.Events.{EventData}
use port_libyaml.Reader.Utf8Checks.{AreBytes}
use port_libyaml.Api.Utf8.{check_utf8}
use port_libyaml.Api.Utf8Characters.{check_utf8-Whole}
use port_libyaml.Api.Events.{
  sequence_start_event_initialize, mapping_start_event_initialize, scalar_event_initialize,
  copy_directive, copy_directives, copy_all_directives, copy_version,
  document_start_event_initialize,
}
use port_libyaml.Api.EventStrings.{
  Makes, Makes->>=, require-Makes, has_memory-Makes, allocate-Makes, IsCopy, copy_value-Makes,
  BytesOption, IsCopyOption, copy_optional-Makes, IsReadable, text_of, IsText, value_of-Makes,
}
use port_libyaml.Emitter.Safety.Strings.{Whole}
use port_libyaml.Emitter.Safety.Control.{AreDirectives}
use port_libyaml.Emitter.Safety.Analysis.{WholeEvent}

-- What is made is this event, and its strings fall into characters.
pub record IsMade (expected event : EventData) : Type 0 where
  pub same : event ≡ expected
  pub whole : WholeEvent event

-- yaml_scalar_event_initialize on strings of bytes, with a length that is negative where the value is
-- shorter than INT_MAX, or within the value and below INT_MAX: it reads past no end, and no int
-- overflows. Where it succeeds, the event has the arguments, its value is the given number
-- of octets, or those up to the NUL where the length is negative, and its strings fall into characters.
pub scalar_event_initialize-IsMade :
    (anchor tag : Option Bytes) (value : List ℕ) (size : Option ℕ)
    (plain_implicit quoted_implicit : Bool) (style : ScalarStyle) (memory : List Bool)
    → BytesOption anchor
    → BytesOption tag
    → AreBytes value
    → IsReadable value size
    → Makes
        (IsMade (
          EventData.scalar (record {
            anchor = anchor;
            tag = tag;
            value = text_of value size;
            plain_implicit = plain_implicit;
            quoted_implicit = quoted_implicit;
            style = style;
          })))
        (scalar_event_initialize anchor tag value size plain_implicit quoted_implicit style memory)
unfolding scalar_event_initialize
scalar_event_initialize-IsMade anchor tag value size plain quoted style memory a t v r =
    Makes->>= (IsCopyOption anchor) _ _ _ (copy_optional-Makes anchor memory a) (λ x m i.
      Makes->>= (IsCopyOption tag) _ _ _ (copy_optional-Makes tag m t) (λ y m1 j.
        Makes->>= (IsText value size) _ _ _ (value_of-Makes value size m1 v r) (λ octets m2 k.
          Makes->>= (IsCopy octets) _ _ _ (copy_value-Makes octets m2 k.octets k.short) (λ z m3 l.
            record {
              same = rw (i.same, j.same, l.same, k.same) refl;
              whole = (i.whole, (j.whole, l.whole));
            }))))

abbrev pub BytesDirectives : List TagDirective → Type 0
BytesDirectives [] = Unit
BytesDirectives (d ∷ ds) = AreBytes d.handle × (AreBytes d.prefix × BytesDirectives ds)

record IsCopyDirective (d copy : TagDirective) : Type 0 where
  same : copy ≡ d
  handle : Whole copy.handle
  prefix : Whole copy.prefix

copy_directive-Makes :
    (d : TagDirective) (memory : List Bool)
    → AreBytes d.handle
    → AreBytes d.prefix
    → Makes (IsCopyDirective d) (copy_directive d memory)
unfolding copy_directive
copy_directive-Makes d memory h p =
    Makes->>= (λ u. check_utf8 d.handle ≡ true) _ _ _ (require-Makes (check_utf8 d.handle) memory)
      (λ u m i.
        Makes->>= (λ u. check_utf8 d.prefix ≡ true) _ _ _ (require-Makes (check_utf8 d.prefix) m)
          (λ u1 m1 j.
            Makes->>= (λ b. Unit) _ _ _ (has_memory-Makes m1)
              (λ b m2 k.
                Makes->>= (λ b. Unit) _ _ _ (has_memory-Makes m2)
                  (λ b' m3 k'.
                    Makes->>= (λ u. (b && b') ≡ true) _ _ _ (require-Makes (b && b') m3)
                      (λ u2 m4 l.
                        Makes->>= (λ u. Unit) _ _ _ (allocate-Makes m4)
                          (λ u3 m5 l'. record {
                            same = refl;
                            handle = check_utf8-Whole d.handle h i;
                            prefix = check_utf8-Whole d.prefix p j;
                          }))))))

record IsCopyDirectives (ds copies : List TagDirective) : Type 0 where
  same : copies ≡ ds
  whole : AreDirectives copies

copy_directives-Makes :
    (ds : List TagDirective) (memory : List Bool)
    → BytesDirectives ds
    → Makes (IsCopyDirectives ds) (copy_directives ds memory)
unfolding copy_directives
copy_directives-Makes [] memory b = record { same = refl; whole = tt }
copy_directives-Makes (d ∷ ds) memory b =
    Makes->>= (IsCopyDirective d) _ _ _ (copy_directive-Makes d memory b.0 b.1.0) (λ c m i.
      Makes->>= (IsCopyDirectives ds) _ _ _ (copy_directives-Makes ds m b.1.1) (λ cs m1 j. record {
        same = rw (i.same, j.same) refl;
        whole = (i.handle, (i.prefix, j.whole));
      }))

copy_all_directives-Makes :
    (ds : List TagDirective) (memory : List Bool)
    → BytesDirectives ds
    → Makes (IsCopyDirectives ds) (copy_all_directives ds memory)
unfolding copy_all_directives
copy_all_directives-Makes [] memory b = record { same = refl; whole = tt }
copy_all_directives-Makes (d ∷ ds) memory b =
    Makes->>= (λ u. Unit) _ _ _ (allocate-Makes memory)
      (λ u m t. copy_directives-Makes (d ∷ ds) m b)

copy_version-Makes :
    (v : Option VersionDirective) (memory : List Bool) → Makes (λ c. c ≡ v) (copy_version v memory)
unfolding copy_version
copy_version-Makes none memory = refl
copy_version-Makes (some v) memory =
    Makes->>= (λ u. Unit) _ _ _ (allocate-Makes memory) (λ u m t. refl)

-- yaml_document_start_event_initialize on tag directives whose strings are bytes: where it succeeds, the
-- event has the version directive, all tag directives in their order and the flag, and the strings of
-- the directives fall into characters.
pub document_start_event_initialize-IsMade :
    (version : Option VersionDirective) (ds : List TagDirective) (implicit : Bool)
    (memory : List Bool)
    → BytesDirectives ds
    → Makes
        (IsMade (
          EventData.document_start
            (record { version_directive = version; tag_directives = ds; implicit = implicit })))
        (document_start_event_initialize version ds implicit memory)
unfolding document_start_event_initialize
document_start_event_initialize-IsMade version ds implicit memory b =
    Makes->>= (λ c. c ≡ version) _ _ _ (copy_version-Makes version memory)
      (λ v m i.
        Makes->>= (IsCopyDirectives ds) _ _ _ (copy_all_directives-Makes ds m b)
          (λ cs m1 j. record { same = rw (i, j.same) refl; whole = j.whole }))

-- yaml_sequence_start_event_initialize and yaml_mapping_start_event_initialize on strings of bytes:
-- where they succeed, the event has the arguments, and its strings fall into characters.
pub start_event_initialize-IsMade :
    (anchor tag : Option Bytes) (implicit : Bool) (sequence_style : SequenceStyle)
    (mapping_style : MappingStyle) (memory : List Bool)
    → BytesOption anchor
    → BytesOption tag
    → Makes
        (IsMade (
          EventData.sequence_start
            (record { anchor = anchor; tag = tag; implicit = implicit; style = sequence_style })))
        (sequence_start_event_initialize anchor tag implicit sequence_style memory)
      × Makes
          (IsMade (
            EventData.mapping_start
              (record { anchor = anchor; tag = tag; implicit = implicit; style = mapping_style })))
          (mapping_start_event_initialize anchor tag implicit mapping_style memory)
unfolding sequence_start_event_initialize mapping_start_event_initialize
start_event_initialize-IsMade anchor tag implicit sequence_style mapping_style memory a t = (
  Makes->>= (IsCopyOption anchor) _ _ _ (copy_optional-Makes anchor memory a) (λ x m i.
      Makes->>= (IsCopyOption tag) _ _ _ (copy_optional-Makes tag m t)
        (λ y m1 j. record { same = rw (i.same, j.same) refl; whole = (i.whole, j.whole) })),
  Makes->>= (IsCopyOption anchor) _ _ _ (copy_optional-Makes anchor memory a) (λ x m i.
      Makes->>= (IsCopyOption tag) _ _ _ (copy_optional-Makes tag m t)
        (λ y m1 j. record { same = rw (i.same, j.same) refl; whole = (i.whole, j.whole) })),
)
