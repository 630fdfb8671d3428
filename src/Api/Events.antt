-- ===== src/Api/Events.antt =====
-- The functions yaml_*_event_initialize that copy strings (original/src/api.c). A pointer that may not
-- be NULL is a string, one that may is an option.
use port_libyaml.Base.{
  ℕ, zero, suc, ◌%◌, ◌^◌, Bool, true, false, ◌&&◌, List, [], ◌∷◌, Option, none, some, Bytes, ◌==◌,
  ltb, leb, length, if◌then◌else◌,
}
use port_libyaml.Types.Basics.{
  VersionDirective, TagDirective, ScalarStyle, SequenceStyle, MappingStyle,
}
use port_libyaml.Types.Events.{EventData}
use port_libyaml.Loader.State.{int_max}
use port_libyaml.Api.Utf8.{check_utf8}

-- `return 1` with the event, `return 0`, and a read past the end of a string; what is left of the
-- oracle of allocations.
pub data Made (A : Type 0) : Type 0 where
  made : A → List Bool → Made A
  refused : List Bool → Made A
  fault : Made A

abbrev pub Maker : Type 0 → Type 0
Maker A = List Bool → Made A

infixl 5 ◌>>=◌
abbrev pub ◌>>=◌ : {A B : Type 0} → Maker A → (A → Maker B) → Maker B
◌>>=◌ m k memory = elim (m memory) [
  | Made.made a memory' ↦ k a memory'
  | Made.refused memory' ↦ Made.refused memory'
  | Made.fault ↦ Made.fault
]

abbrev pub give : {A : Type 0} → A → Maker A
give a memory = Made.made a memory

-- yaml_malloc, and yaml_strdup: is there memory?
unfoldable pub has_memory : Maker Bool
has_memory [] = Made.made true []
has_memory (b ∷ memory) = Made.made b memory

-- `goto error`
abbrev pub require : Bool → Maker Unit
require true memory = Made.made tt memory
require false memory = Made.refused memory

unfoldable pub allocate : Maker Unit
unfolding has_memory
allocate = has_memory >>= require

-- A string that is checked and then copied
unfoldable pub copy_text : Bytes → Maker Bytes
unfolding check_utf8 allocate
copy_text text = require (check_utf8 text) >>= λ u. allocate >>= λ u'. give text

unfoldable pub copy_optional : Option Bytes → Maker (Option Bytes)
unfolding copy_text
copy_optional none = give none
copy_optional (some text) = copy_text text >>= λ copy. give (some copy)

unfoldable pub alias_event_initialize : Bytes → Maker EventData
unfolding copy_text
alias_event_initialize anchor = copy_text anchor >>= λ copy. give (EventData.alias copy)

-- The first octets of a value; `none` where they are not there
unfoldable pub octets_of : ℕ → List ℕ → Option Bytes
octets_of zero value = some []
octets_of (suc n) [] = none
octets_of (suc n) (octet ∷ value) = elim (octets_of n value) [
  | none ↦ none
  | some octets ↦ some (octet ∷ octets)
]

-- strlen: the octets up to the NUL, which is there behind the others
unfoldable pub up_to_nul : List ℕ → Bytes
up_to_nul [] = []
up_to_nul (octet ∷ value) = let rest = up_to_nul value in if octet == 0 then [] else octet ∷ rest

-- A read past the end of a string: yaml_check_utf8 is on its way there unless it refuses the string.
unfoldable pub run_past : Bytes → Maker Bytes
unfolding check_utf8
run_past text = require (check_utf8 text) >>= λ u memory. Made.fault

-- The first octets, so many of them
unfoldable pub take_value : List ℕ → ℕ → Maker Bytes
unfolding octets_of
take_value value n memory = elim (octets_of n value) [
  | none ↦ Made.fault
  | some octets ↦ Made.made octets memory
]

-- The value of a scalar by its length, an int, where a negative one is `none`. Then it is strlen, which
-- is narrowed to an int: where that is negative, yaml_check_utf8 takes it for a size_t and reads past
-- the end.
unfoldable pub value_of : List ℕ → Option ℕ → Maker Bytes
unfolding take_value up_to_nul run_past
value_of value none =
    let text = up_to_nul value in
    let narrowed = length text % 2 ^ 32 in
    if leb narrowed int_max then take_value text narrowed else run_past text
value_of value (some n) = take_value value n

-- The check and the copy of the value. `length+1` is an int, which overflows at INT_MAX.
unfoldable pub copy_value : Bytes → Maker Bytes
unfolding check_utf8 allocate
copy_value octets = require (check_utf8 octets) >>= λ u.
    if ltb (length octets) int_max then (allocate >>= λ u'. give octets) else (λ memory. Made.fault)

unfoldable pub scalar_event_initialize :
    Option Bytes → Option Bytes → List ℕ → Option ℕ → Bool → Bool → ScalarStyle → Maker EventData
unfolding copy_value copy_optional value_of
scalar_event_initialize anchor tag value size plain_implicit quoted_implicit style =
    copy_optional anchor >>= λ anchor_copy. copy_optional tag >>= λ tag_copy.
    value_of value size >>= λ octets. copy_value octets >>= λ value_copy. give (
      EventData.scalar (record {
        anchor = anchor_copy;
        tag = tag_copy;
        value = value_copy;
        plain_implicit = plain_implicit;
        quoted_implicit = quoted_implicit;
        style = style;
      }))

unfoldable pub sequence_start_event_initialize :
    Option Bytes → Option Bytes → Bool → SequenceStyle → Maker EventData
unfolding copy_optional
sequence_start_event_initialize anchor tag implicit style = copy_optional anchor >>= λ anchor_copy.
    copy_optional tag >>= λ tag_copy. give (
      EventData.sequence_start
        (record { anchor = anchor_copy; tag = tag_copy; implicit = implicit; style = style }))

unfoldable pub mapping_start_event_initialize :
    Option Bytes → Option Bytes → Bool → MappingStyle → Maker EventData
unfolding copy_optional
mapping_start_event_initialize anchor tag implicit style = copy_optional anchor >>= λ anchor_copy.
    copy_optional tag >>= λ tag_copy. give (
      EventData.mapping_start
        (record { anchor = anchor_copy; tag = tag_copy; implicit = implicit; style = style }))

-- A round of the loop over the tag directives, with the two copies and the PUSH
unfoldable pub copy_directive : TagDirective → Maker TagDirective
unfolding check_utf8 has_memory allocate
copy_directive d = require (check_utf8 d.handle) >>= λ u. require (check_utf8 d.prefix) >>= λ u1.
    has_memory >>= λ first.
    has_memory >>= λ second. require (first && second) >>= λ u2. allocate >>= λ u3. give d

unfoldable pub copy_directives : List TagDirective → Maker (List TagDirective)
unfolding copy_directive
copy_directives [] = give []
copy_directives (d ∷ ds) =
    copy_directive d >>= λ copy. copy_directives ds >>= λ copies. give (copy ∷ copies)

-- STACK_INIT and the loop, where there are directives
unfoldable pub copy_all_directives : List TagDirective → Maker (List TagDirective)
unfolding copy_directives allocate
copy_all_directives [] = give []
copy_all_directives (d ∷ ds) = allocate >>= λ u. copy_directives (d ∷ ds)

unfoldable pub copy_version : Option VersionDirective → Maker (Option VersionDirective)
unfolding allocate
copy_version none = give none
copy_version (some v) = allocate >>= λ u. give (some v)

unfoldable pub document_start_event_initialize :
    Option VersionDirective → List TagDirective → Bool → Maker EventData
unfolding copy_version copy_all_directives
document_start_event_initialize version_directive tag_directives implicit =
    copy_version version_directive >>= λ version_copy.
    copy_all_directives tag_directives >>= λ directives_copy. give (
      EventData.document_start (record {
        version_directive = version_copy;
        tag_directives = directives_copy;
        implicit = implicit;
      }))
