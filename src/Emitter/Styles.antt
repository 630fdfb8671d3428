-- ===== src/Emitter/Styles.antt =====
-- The style that a scalar is written in (original/src/emitter.c).
use port_libyaml.Base.{
  Bool, true, false, not, ◌&&◌, ◌||◌, ◌≡◌, refl, length, ◌==◌, if◌then◌else◌, arith,
}
use port_libyaml.Types.Basics.{ScalarStyle}
use port_libyaml.Types.Events.{ScalarEvent}
use port_libyaml.Emitter.Control.{Emitter, ScalarData}
use port_libyaml.Emitter.Process.{
  no_tag, forced_style, plain_style, single_quoted_style, block_style, scalar_style,
}

-- The style that is asked for: double-quoted in canonical mode and for a multiline simple key, plain for
-- any.
abbrev pub wanted_style : Bool → ScalarStyle → ScalarStyle
wanted_style true style = ScalarStyle.double_quoted_scalar
wanted_style false ScalarStyle.any_scalar = ScalarStyle.plain_scalar
wanted_style false style = style

-- Is a style allowed? A plain scalar is not, either, where nothing says its tag.
abbrev pub allows : Bool → Bool → Bool → ScalarData → ScalarStyle → Bool
allows flow key untagged s ScalarStyle.any_scalar = false
allows flow key untagged s ScalarStyle.plain_scalar =
    (if flow then s.flow_plain_allowed else s.block_plain_allowed)
    && not (length s.value == 0 && (flow || key))
    && not untagged
allows flow key untagged s ScalarStyle.single_quoted_scalar = s.single_quoted_allowed
allows flow key untagged s ScalarStyle.double_quoted_scalar = true
allows flow key untagged s ScalarStyle.literal_scalar = s.block_allowed && not (flow || key)
allows flow key untagged s ScalarStyle.folded_scalar = s.block_allowed && not (flow || key)

-- The style that is asked for where it is allowed; a plain scalar is single-quoted otherwise, where that
-- is allowed; the rest is double-quoted.
abbrev pub best_style : Bool → Bool → Bool → ScalarData → ScalarStyle → ScalarStyle
best_style flow key untagged s ScalarStyle.plain_scalar =
    if allows flow key untagged s ScalarStyle.plain_scalar
    then ScalarStyle.plain_scalar
    else if allows flow key untagged s ScalarStyle.single_quoted_scalar
    then ScalarStyle.single_quoted_scalar
    else ScalarStyle.double_quoted_scalar
best_style flow key untagged s style =
    if allows flow key untagged s style then style else ScalarStyle.double_quoted_scalar

-- The steps of scalar_style
chosen :
    (flow key untagged force : Bool) (style : ScalarStyle) (s : ScalarData)
    → block_style flow key
        (single_quoted_style (plain_style flow key untagged (forced_style force style) s) s)
        s
      ≡ best_style flow key untagged s (wanted_style force style)
unfolding forced_style plain_style single_quoted_style block_style
chosen flow key untagged true ScalarStyle.any_scalar s = refl
chosen flow key untagged true ScalarStyle.plain_scalar s = refl
chosen flow key untagged true ScalarStyle.single_quoted_scalar s = refl
chosen flow key untagged true ScalarStyle.double_quoted_scalar s = refl
chosen flow key untagged true ScalarStyle.literal_scalar s = refl
chosen flow key untagged true ScalarStyle.folded_scalar s = refl
chosen flow key untagged false ScalarStyle.any_scalar s = ground arith
chosen flow key untagged false ScalarStyle.plain_scalar s = ground arith
chosen flow key untagged false ScalarStyle.single_quoted_scalar s = ground arith
chosen flow key untagged false ScalarStyle.double_quoted_scalar s = refl
chosen flow key untagged false ScalarStyle.literal_scalar s = ground arith
chosen flow key untagged false ScalarStyle.folded_scalar s = ground arith

-- The style that yaml_emitter_select_scalar_style takes is the one asked for where the analysis of the
-- scalar allows it; a plain scalar is single-quoted otherwise, where that is allowed, and the rest is
-- double-quoted. Double-quoted is asked for in canonical mode and for a multiline simple key, plain
-- where any style is. Plain is allowed as the analysis says for flow and for block context, but not for
-- an empty scalar in flow context or as a simple key, nor without a tag for a scalar that is not plain
-- implicit; single-quoted as the analysis says; literal and folded where it allows block scalars,
-- outside of flow context and of simple keys.
pub scalar_style-best_style :
    (s : ScalarEvent) (e : Emitter)
    → scalar_style s e
      ≡ best_style
          (not (e.flow_level == 0))
          e.simple_key_context
          (no_tag e.tag_data && not s.plain_implicit)
          e.scalar_data
          (wanted_style
            (e.output.canonical || (e.simple_key_context && e.scalar_data.multiline))
            s.style)
unfolding scalar_style
scalar_style-best_style s e =
    chosen (not (e.flow_level == 0)) e.simple_key_context
      (no_tag e.tag_data && not s.plain_implicit)
      (e.output.canonical || (e.simple_key_context && e.scalar_data.multiline)) s.style
      e.scalar_data
