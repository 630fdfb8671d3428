-- ===== src/Tests/EmitterTests.antt =====
-- The emitter on small inputs.
use port_libyaml.Base.{
  ℕ, List, true, false, [], ◌∷◌, ◌++◌, ◌≤◌, length, arith, none, some, ◌≡◌, refl,
}
use port_libyaml.Types.Basics.{Encoding, ErrorType, ScalarStyle}
use port_libyaml.Types.Events.{EventData, ScalarEvent}
use port_libyaml.Emitter.State.{Outcome, Break}
use port_libyaml.Emitter.Control.{Emitter, EmitterState}
use port_libyaml.Grammar.{Phase}
use port_libyaml.Emitter.State.{set_open_ended}
use port_libyaml.Emitter.Control.{require, enqueue, set_state}
use port_libyaml.Emitter.AnalyzeScalar.{clear_analysis, analyze_content, analyze_event}
use port_libyaml.Emitter.Process.{is_none, no_tag, scalar_style}
use port_libyaml.Emitter.Documents.{
  choose_encoding, choose_indent, choose_width, choose_break, start_output, is_utf8, start_text,
  emit_stream_start_content, emit_stream_start,
}
use port_libyaml.Emitter.Queue.{
  state_machine, need_more_events, dequeue, emit_event, emit_events, emit,
}
use port_libyaml.Emitter.Accumulation.{emit-bound}
use port_libyaml.Emitter.Styles.{scalar_style-best_style}
use port_libyaml.Emitter.Characters.{is_printable, is_bom, is_break, is_blankz}
use port_libyaml.Emitter.AnalyzeScalar.{is_document_mark}
use port_libyaml.Emitter.Safety.Ends.{LooksNoFurther, two_spaces, tests-LooksNoFurther}
use port_libyaml.Emitter.Safety.Strings.{Whole}
use port_libyaml.Emitter.Safety.Output.{Holds}
use port_libyaml.Emitter.Safety.Places.{At}
use port_libyaml.Emitter.Safety.Stream.{IsAt}
use port_libyaml.Emitter.Safety.Queue.{IsEmitted, emit-IsEmitted}

abbrev pub fresh : Emitter
fresh = record {
  output = record {
    writer = record {
      encoding = Encoding.any_encoding;
      written = [];
      filled = [];
      raw = [];
      error = ErrorType.no_error;
      problem = none;
      sink = record { answers = []; taken = [] };
    };
    canonical = false;
    best_indent = 0;
    best_width = some 0;
    unicode = false;
    line_break = Break.any_break;
    indent = some 0;
    line = 0;
    column = 0;
    whitespace = false;
    indention = false;
    open_ended = 0;
  };
  memory = [];
  states = [];
  state = EmitterState.stream_start;
  events = [];
  indents = [];
  tag_directives = [];
  flow_level = 0;
  root_context = false;
  sequence_context = false;
  mapping_context = false;
  simple_key_context = false;
  anchor_data = record { anchor = none; alias = false };
  tag_data = record { handle = none; suffix = none };
  scalar_data = record {
    value = [];
    multiline = false;
    flow_plain_allowed = false;
    block_plain_allowed = false;
    single_quoted_allowed = false;
    block_allowed = false;
    style = ScalarStyle.any_scalar;
  };
}

pub fresh-IsAt : IsAt Phase.before_stream fresh
fresh-IsAt = record {
  stored = record { directives = tt; anchor = tt; handle = tt; suffix = tt; value = Whole.nil };
  output = record { whole = Whole.nil; room = omega arith; raw = refl };
  place = At.before_stream;
}

emit-IsEmitted_example :
    Holds
      (IsEmitted Phase.before_stream
        (fresh.events ++ EventData.stream_start Encoding.utf8_encoding ∷ []))
      (emit (EventData.stream_start Encoding.utf8_encoding) fresh)
emit-IsEmitted_example =
    emit-IsEmitted (EventData.stream_start Encoding.utf8_encoding) Phase.before_stream fresh tt tt
      fresh-IsAt

abbrev started : Emitter
unfolding emit
started = elim (emit (EventData.stream_start Encoding.utf8_encoding) fresh) [
  | Outcome.done e ↦ e
  | Outcome.failed e ↦ e
  | Outcome.fault ↦ fresh
]

emits : emit (EventData.stream_start Encoding.utf8_encoding) fresh ≡ Outcome.done started
unfolding started emit enqueue require emit_events need_more_events emit_event analyze_event
    clear_analysis analyze_content state_machine emit_stream_start emit_stream_start_content
    set_open_ended start_output choose_encoding choose_indent choose_width choose_break start_text
    is_utf8 set_state dequeue
emits = refl

emit-bound_example : length started.events ≤ 3
emit-bound_example = emit-bound (EventData.stream_start Encoding.utf8_encoding) fresh started emits

abbrev any_text : ScalarEvent
any_text = record {
  anchor = none;
  tag = none;
  value = b'a' ∷ [];
  plain_implicit = true;
  quoted_implicit = true;
  style = ScalarStyle.any_scalar;
}

-- An analyzed text, which may be plain in block context only.
abbrev analyzed : Emitter
analyzed = record fresh {
  scalar_data = record {
    value = b'a' ∷ [];
    multiline = false;
    flow_plain_allowed = false;
    block_plain_allowed = true;
    single_quoted_allowed = true;
    block_allowed = true;
    style = ScalarStyle.any_scalar;
  };
}

scalar_style-best_style_example : scalar_style any_text analyzed ≡ ScalarStyle.plain_scalar
unfolding no_tag is_none
scalar_style-best_style_example = scalar_style-best_style any_text analyzed

-- In flow context it is single-quoted.
in_flow :
    scalar_style any_text (record analyzed { flow_level = 1 }) ≡ ScalarStyle.single_quoted_scalar
unfolding no_tag is_none
in_flow = scalar_style-best_style any_text (record analyzed { flow_level = 1 })

-- A string that ends in the first octet of a break
abbrev cut : List ℕ
cut = b'a' ∷ 0xE2 ∷ []

tests-LooksNoFurther_example :
    LooksNoFurther is_printable cut (0x80 ∷ [])
    × (LooksNoFurther is_bom cut (0x80 ∷ [])
        × (LooksNoFurther is_break cut (0x80 ∷ [])
            × (LooksNoFurther is_blankz cut (0x80 ∷ [])
                × (LooksNoFurther is_document_mark cut (0x80 ∷ [])
                    × LooksNoFurther two_spaces cut (0x80 ∷ [])))))
tests-LooksNoFurther_example = tests-LooksNoFurther cut (0x80 ∷ [])
