-- ===== src/Emitter/Process.antt =====
-- The choice of a scalar's style, and the writing of anchors, tags and scalars as they were analyzed
-- (original/src/emitter.c).
use port_libyaml.Base.{
  ℕ, ◌+◌, Bool, true, false, not, ◌&&◌, ◌||◌, List, [], ◌∷◌, Option, none, some, Bytes, ◌==◌, leb,
  length, if◌then◌else◌,
}
use port_libyaml.Types.Basics.{ScalarStyle}
use port_libyaml.Types.Events.{EventData, ScalarEvent}
use port_libyaml.Emitter.State.{Outcome, ◌>>◌, skip, W}
use port_libyaml.Emitter.Write.{write_indicator, write_anchor, write_tag_handle, write_tag_content}
use port_libyaml.Emitter.Scalars.{
  write_plain_scalar, write_single_quoted_scalar, write_double_quoted_scalar,
}
use port_libyaml.Emitter.Blocks.{write_literal_scalar, write_folded_scalar}
use port_libyaml.Emitter.Control.{
  Emitter, E, AnchorData, TagData, ScalarData, writing, set_emitter_error,
}

-- `emitter->events.tail - emitter->events.head < 2`, and the types of the first two
unfoldable pub check_empty_sequence : List EventData → Bool
check_empty_sequence (EventData.sequence_start s ∷ EventData.sequence_end ∷ events) = true
check_empty_sequence _ = false

unfoldable pub check_empty_mapping : List EventData → Bool
check_empty_mapping (EventData.mapping_start s ∷ EventData.mapping_end ∷ events) = true
check_empty_mapping _ = false

unfoldable pub length_of : Option Bytes → ℕ
length_of none = 0
length_of (some bytes) = length bytes

-- `length > 128` is refused.
unfoldable pub is_short : ℕ → Bool
is_short n = leb n 128

unfoldable pub collection_length : Emitter → ℕ
unfolding length_of
collection_length e =
    length_of e.anchor_data.anchor + length_of e.tag_data.handle + length_of e.tag_data.suffix

unfoldable pub check_simple_key_of : List EventData → Emitter → Bool
unfolding length_of is_short collection_length check_empty_sequence check_empty_mapping
check_simple_key_of (EventData.alias a ∷ events) e = is_short (length_of e.anchor_data.anchor)
check_simple_key_of (EventData.scalar s ∷ events) e =
    not e.scalar_data.multiline && is_short (collection_length e + length e.scalar_data.value)
check_simple_key_of (EventData.sequence_start s ∷ events) e =
    check_empty_sequence (EventData.sequence_start s ∷ events) && is_short (collection_length e)
check_simple_key_of (EventData.mapping_start s ∷ events) e =
    check_empty_mapping (EventData.mapping_start s ∷ events) && is_short (collection_length e)
check_simple_key_of _ e = false

unfoldable pub check_simple_key : Emitter → Bool
unfolding check_simple_key_of
check_simple_key e = check_simple_key_of e.events e

unfoldable pub is_none : Option Bytes → Bool
is_none none = true
is_none (some b) = false

-- `no_tag`
unfoldable pub no_tag : TagData → Bool
unfolding is_none
no_tag t = is_none t.handle && is_none t.suffix

-- The style in canonical mode, and of a multiline simple key
unfoldable pub forced_style : Bool → ScalarStyle → ScalarStyle
forced_style force ScalarStyle.any_scalar =
    if force then ScalarStyle.double_quoted_scalar else ScalarStyle.plain_scalar
forced_style force style = if force then ScalarStyle.double_quoted_scalar else style

-- What takes the place of a plain style that is not allowed.
unfoldable pub plain_style : Bool → Bool → Bool → ScalarStyle → ScalarData → ScalarStyle
plain_style flow key untagged ScalarStyle.plain_scalar s =
    if (flow && not s.flow_plain_allowed)
      || (not flow && not s.block_plain_allowed)
      || (length s.value == 0 && (flow || key))
      || untagged
    then ScalarStyle.single_quoted_scalar
    else ScalarStyle.plain_scalar
plain_style flow key untagged style s = style

unfoldable pub single_quoted_style : ScalarStyle → ScalarData → ScalarStyle
single_quoted_style ScalarStyle.single_quoted_scalar s =
    if s.single_quoted_allowed
    then ScalarStyle.single_quoted_scalar
    else ScalarStyle.double_quoted_scalar
single_quoted_style style s = style

unfoldable pub block_style : Bool → Bool → ScalarStyle → ScalarData → ScalarStyle
block_style flow key ScalarStyle.literal_scalar s =
    if not s.block_allowed || flow || key
    then ScalarStyle.double_quoted_scalar
    else ScalarStyle.literal_scalar
block_style flow key ScalarStyle.folded_scalar s =
    if not s.block_allowed || flow || key
    then ScalarStyle.double_quoted_scalar
    else ScalarStyle.folded_scalar
block_style flow key style s = style

unfoldable pub scalar_style : ScalarEvent → Emitter → ScalarStyle
unfolding no_tag forced_style plain_style single_quoted_style block_style
scalar_style s e =
    let data' = e.scalar_data in
    let flow = not (e.flow_level == 0) in
    let key = e.simple_key_context in
    let forced = forced_style (e.output.canonical || (key && data'.multiline)) s.style in
    let plain = plain_style flow key (no_tag e.tag_data && not s.plain_implicit) forced data' in
    block_style flow key (single_quoted_style plain data') data'

unfoldable pub is_not_plain : ScalarStyle → Bool
is_not_plain ScalarStyle.plain_scalar = false
is_not_plain style = true

-- The non-specific tag of a scalar that is not plain
unfoldable pub tag_of_style : Bool → ScalarStyle → TagData → TagData
unfolding is_not_plain
tag_of_style untagged style t =
    if untagged && is_not_plain style then record t { handle = some (b'!' ∷ []) } else t

unfoldable pub select_scalar_style : ScalarEvent → E
unfolding no_tag scalar_style tag_of_style set_emitter_error
select_scalar_style s e =
    if no_tag e.tag_data && not s.plain_implicit && not s.quoted_implicit
    then set_emitter_error "neither tag nor implicit flags are specified" e
    else let style = scalar_style s e in
      Outcome.done (record e {
        tag_data = tag_of_style (no_tag e.tag_data && not s.quoted_implicit) style e.tag_data;
        scalar_data = record (e.scalar_data) { style = style };
      })

unfoldable pub write_anchor_data : AnchorData → W
unfolding write_indicator write_anchor
write_anchor_data a = elim a.anchor [
  | none ↦ skip
  | some anchor ↦ do
    write_indicator ((if a.alias then b'*' else b'&') ∷ []) true false false
    write_anchor anchor
]

unfoldable pub process_anchor : E
unfolding write_anchor_data
process_anchor e = writing (write_anchor_data e.anchor_data) e

unfoldable pub write_tag_data : Option Bytes → Option Bytes → W
unfolding write_tag_handle write_tag_content write_indicator
write_tag_data none none = skip
write_tag_data (some handle) none = write_tag_handle handle
write_tag_data (some handle) (some suffix) = do
  write_tag_handle handle
  write_tag_content suffix false
write_tag_data none (some suffix) = do
  write_indicator (b'!' ∷ b'<' ∷ []) true false false
  write_tag_content suffix false
  write_indicator (b'>' ∷ []) false false false

unfoldable pub process_tag : E
unfolding write_tag_data
process_tag e = writing (write_tag_data e.tag_data.handle e.tag_data.suffix) e

-- `default` is reached by no style that was selected; it returns 0.
unfoldable pub write_scalar : ScalarStyle → Bytes → ℕ → Bool → W
unfolding write_plain_scalar write_single_quoted_scalar write_double_quoted_scalar
    write_literal_scalar write_folded_scalar
write_scalar ScalarStyle.any_scalar value flow_level key = Outcome.failed
write_scalar ScalarStyle.plain_scalar value flow_level key =
    write_plain_scalar flow_level value (not key)
write_scalar ScalarStyle.single_quoted_scalar value flow_level key =
    write_single_quoted_scalar value (not key)
write_scalar ScalarStyle.double_quoted_scalar value flow_level key =
    write_double_quoted_scalar value (not key)
write_scalar ScalarStyle.literal_scalar value flow_level key = write_literal_scalar value
write_scalar ScalarStyle.folded_scalar value flow_level key = write_folded_scalar value

unfoldable pub process_scalar : E
unfolding write_scalar
process_scalar e =
    writing (write_scalar e.scalar_data.style e.scalar_data.value e.flow_level e.simple_key_context)
      e
