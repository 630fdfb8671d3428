-- ===== src/Emitter/Analyze.antt =====
-- The analysis of directives, anchors and tags (original/src/emitter.c).
use port_libyaml.Base.{
  Bool, true, false, not, ◌&&◌, ◌||◌, List, [], ◌∷◌, Option, none, some, Bytes, ◌==◌, strcmp_eq,
  if◌then◌else◌,
}
use port_libyaml.Types.Basics.{VersionDirective, TagDirective}
use port_libyaml.Emitter.Characters.{is_alpha}
use port_libyaml.Emitter.State.{Outcome, ◌>>◌, skip}
use port_libyaml.Emitter.Control.{E, TagData, set_emitter_error, push_tag_directive}

unfoldable pub analyze_version_directive : VersionDirective → E
unfolding set_emitter_error
analyze_version_directive v =
    if not (v.major == 1) || (not (v.minor == 1) && not (v.minor == 2))
    then set_emitter_error "incompatible %YAML directive"
    else skip

-- `handle.end[-1] == '!'`
unfoldable pub ends_with_mark : Bytes → Bool
ends_with_mark [] = false
ends_with_mark (o ∷ []) = o == b'!'
ends_with_mark (o ∷ p ∷ os) = ends_with_mark (p ∷ os)

-- `while (handle.pointer < handle.end-1)`
unfoldable pub is_handle_text : Bytes → Bool
unfolding is_alpha
is_handle_text [] = true
is_handle_text (o ∷ []) = true
is_handle_text (o ∷ p ∷ os) = is_alpha o && is_handle_text (p ∷ os)

unfoldable pub analyze_prefix : Bytes → E
unfolding set_emitter_error
analyze_prefix [] = set_emitter_error "tag prefix must not be empty"
analyze_prefix (o ∷ os) = skip

unfoldable pub analyze_handle : Bytes → E
unfolding set_emitter_error ends_with_mark is_handle_text
analyze_handle [] = set_emitter_error "tag handle must not be empty"
analyze_handle (o ∷ os) =
    if not (o == b'!')
    then set_emitter_error "tag handle must start with '!'"
    else if not (ends_with_mark (o ∷ os))
    then set_emitter_error "tag handle must end with '!'"
    else if not (is_handle_text os)
    then set_emitter_error "tag handle must contain alphanumerical characters only"
    else skip

unfoldable pub analyze_tag_directive : TagDirective → E
unfolding analyze_handle analyze_prefix
analyze_tag_directive d = do analyze_handle d.handle; analyze_prefix d.prefix

-- The loop over the directives that are there already.
unfoldable pub has_handle : Bytes → List TagDirective → Bool
unfolding strcmp_eq
has_handle handle [] = false
has_handle handle (d ∷ ds) = strcmp_eq handle d.handle || has_handle handle ds

unfoldable pub append_tag_directive : TagDirective → Bool → E
unfolding has_handle set_emitter_error push_tag_directive
append_tag_directive value allow_duplicates e =
    if has_handle value.handle e.tag_directives
    then (if allow_duplicates
        then Outcome.done e
        else set_emitter_error "duplicate %TAG directive" e)
    else push_tag_directive value e

unfoldable pub all_alpha : Bytes → Bool
unfolding is_alpha
all_alpha [] = true
all_alpha (o ∷ os) = is_alpha o && all_alpha os

unfoldable pub set_anchor : Bytes → Bool → E
set_anchor anchor alias e =
    Outcome.done (record e { anchor_data = record { anchor = some anchor; alias = alias } })

unfoldable pub analyze_anchor : Bytes → Bool → E
unfolding set_emitter_error all_alpha set_anchor
analyze_anchor [] alias =
    set_emitter_error
      (if alias then "alias value must not be empty" else "anchor value must not be empty")
analyze_anchor (o ∷ os) alias =
    if all_alpha (o ∷ os)
    then set_anchor (o ∷ os) alias
    else set_emitter_error (
        if alias
        then "alias value must contain alphanumerical characters only"
        else "anchor value must contain alphanumerical characters only")

-- `prefix_length < length && strncmp(prefix, string, prefix_length) == 0`: what is behind the prefix
unfoldable pub behind_prefix : Bytes → Bytes → Option Bytes
behind_prefix [] [] = none
behind_prefix [] (o ∷ os) = some (o ∷ os)
behind_prefix (p ∷ ps) [] = none
behind_prefix (p ∷ ps) (o ∷ os) = let rest = behind_prefix ps os in if p == o then rest else none

-- The loop over the directives
unfoldable pub find_tag : Bytes → List TagDirective → TagData
unfolding behind_prefix
find_tag tag [] = record { handle = none; suffix = some tag }
find_tag tag (d ∷ ds) = elim (behind_prefix d.prefix tag) [
  | none ↦ find_tag tag ds
  | some suffix ↦ record { handle = some d.handle; suffix = some suffix }
]

unfoldable pub set_tag : Bytes → E
unfolding find_tag
set_tag tag e = Outcome.done (record e { tag_data = find_tag tag e.tag_directives })

unfoldable pub analyze_tag : Bytes → E
unfolding set_emitter_error set_tag
analyze_tag [] = set_emitter_error "tag value must not be empty"
analyze_tag (o ∷ os) = set_tag (o ∷ os)
