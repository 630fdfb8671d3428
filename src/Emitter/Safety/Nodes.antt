-- ===== src/Emitter/Safety/Nodes.antt =====
-- Anchors, tags and scalars as they were analyzed (original/src/emitter.c).
use port_libyaml.Base.{
  ℕ, Bool, true, false, not, ◌&&◌, [], ◌∷◌, Option, none, some, Bytes, if◌then◌else◌, arith, inl,
  inr, Bool-cases,
}
use port_libyaml.Types.Basics.{ScalarStyle}
use port_libyaml.Types.Events.{ScalarEvent}
use port_libyaml.Emitter.Write.{write_indicator}
use port_libyaml.Emitter.Control.{TagData, set_emitter_error}
use port_libyaml.Emitter.Process.{
  no_tag, tag_of_style, select_scalar_style, write_anchor_data, process_anchor, write_tag_data,
  process_tag, write_scalar, process_scalar,
}
use port_libyaml.Emitter.Emit.{end_alias}
use port_libyaml.Emitter.Safety.Strings.{Whole, AreAscii-Whole}
use port_libyaml.Emitter.Safety.Output.{Safe}
use port_libyaml.Emitter.Safety.Writes.{Safe->>, Safe-skip, Safe-when, put-Safe}
use port_libyaml.Emitter.Safety.Tags.{
  write_indicator-Safe, write_anchor-Safe, write_tag_handle-Safe, write_tag_content-Safe,
}
use port_libyaml.Emitter.Safety.Scalars.{
  write_plain_scalar-Safe, write_single_quoted_scalar-Safe, write_double_quoted_scalar-Safe,
}
use port_libyaml.Emitter.Safety.Blocks.{write_literal_scalar-Safe, write_folded_scalar-Safe}
use port_libyaml.Emitter.Safety.Control.{WholeOption, Control, Triple, Triple-writing}

anchor_indicator :
    (b : Bool) → Safe (write_indicator ((if b then b'*' else b'&') ∷ []) true false false)
anchor_indicator true =
    write_indicator-Safe (b'*' ∷ []) true false false (AreAscii-Whole _ (omega arith, tt))
anchor_indicator false =
    write_indicator-Safe (b'&' ∷ []) true false false (AreAscii-Whole _ (omega arith, tt))

write_anchor_data-Safe :
    (anchor : Option Bytes) (alias : Bool)
    → WholeOption anchor
    → Safe (write_anchor_data (record { anchor = anchor; alias = alias }))
unfolding write_anchor_data
write_anchor_data-Safe none alias w = Safe-skip
write_anchor_data-Safe (some anchor) alias w =
    Safe->> (anchor_indicator alias) (write_anchor-Safe anchor w)

write_tag_data-Safe :
    (handle suffix : Option Bytes)
    → WholeOption handle
    → WholeOption suffix
    → Safe (write_tag_data handle suffix)
unfolding write_tag_data
write_tag_data-Safe none none w v = Safe-skip
write_tag_data-Safe (some handle) none w v = write_tag_handle-Safe handle w
write_tag_data-Safe (some handle) (some suffix) w v =
    Safe->> (write_tag_handle-Safe handle w) (write_tag_content-Safe suffix false v)
write_tag_data-Safe none (some suffix) w v =
    Safe->>
      (write_indicator-Safe (b'!' ∷ b'<' ∷ []) true false false
        (AreAscii-Whole _ (omega arith, (omega arith, tt))))
      (Safe->> (write_tag_content-Safe suffix false v)
        (write_indicator-Safe (b'>' ∷ []) false false false (AreAscii-Whole _ (omega arith, tt))))

write_scalar-Safe :
    (style : ScalarStyle) (value : Bytes) (flow : ℕ) (key : Bool)
    → Whole value
    → Safe (write_scalar style value flow key)
unfolding write_scalar
write_scalar-Safe ScalarStyle.any_scalar value flow key w = record { run = λ o i. tt }
write_scalar-Safe ScalarStyle.plain_scalar value flow key w =
    write_plain_scalar-Safe flow value (not key) w
write_scalar-Safe ScalarStyle.single_quoted_scalar value flow key w =
    write_single_quoted_scalar-Safe value (not key) w
write_scalar-Safe ScalarStyle.double_quoted_scalar value flow key w =
    write_double_quoted_scalar-Safe value (not key) w
write_scalar-Safe ScalarStyle.literal_scalar value flow key w = write_literal_scalar-Safe value w
write_scalar-Safe ScalarStyle.folded_scalar value flow key w = write_folded_scalar-Safe value w

module _ (P : Control) where
  pub process_anchor-Triple : Triple P process_anchor P
  unfolding process_anchor
  process_anchor-Triple = record {
    run = λ e i.
        (Triple-writing P
            (write_anchor_data-Safe e.anchor_data.anchor e.anchor_data.alias (i.stored.anchor))).run
          e i;
  }

  pub process_tag-Triple : Triple P process_tag P
  unfolding process_tag
  process_tag-Triple = record {
    run = λ e i.
        (Triple-writing P (
            write_tag_data-Safe e.tag_data.handle e.tag_data.suffix (i.stored.handle)
              (i.stored.suffix))).run
          e i;
  }

  pub process_scalar-Triple : Triple P process_scalar P
  unfolding process_scalar
  process_scalar-Triple = record {
    run = λ e i.
        (Triple-writing P (
            write_scalar-Safe e.scalar_data.style e.scalar_data.value e.flow_level
              e.simple_key_context (i.stored.value))).run
          e i;
  }

  pub end_alias-Triple : Triple P end_alias P
  unfolding end_alias
  end_alias-Triple = record {
    run = λ e i.
        (Triple-writing P (Safe-when e.simple_key_context (put-Safe 0x20 (omega arith)))).run e i;
  }

  non_specific :
      (b : Bool) (t : TagData)
      → WholeOption t.handle
      → WholeOption (if b then record t { handle = some (b'!' ∷ []) } else t).handle
  non_specific true t w = AreAscii-Whole _ (omega arith, tt)
  non_specific false t w = w

  same_suffix :
      (b : Bool) (t : TagData)
      → WholeOption t.suffix
      → WholeOption (if b then record t { handle = some (b'!' ∷ []) } else t).suffix
  same_suffix true t w = w
  same_suffix false t w = w

  pub select_scalar_style-Triple : (s : ScalarEvent) → Triple P (select_scalar_style s) P
  unfolding select_scalar_style set_emitter_error tag_of_style
  select_scalar_style-Triple s = record {
    run = λ e i.
        elim (Bool-cases (no_tag e.tag_data && not s.plain_implicit && not s.quoted_implicit)) [
          | inl b ↦ rw b tt
          | inr b ↦ rw b (record {
            stored = record {
              directives = i.stored.directives;
              anchor = i.stored.anchor;
              handle = non_specific _ e.tag_data (i.stored.handle);
              suffix = same_suffix _ e.tag_data (i.stored.suffix);
              value = i.stored.value;
            };
            output = i.output;
            control = i.control;
          })
        ];
  }
