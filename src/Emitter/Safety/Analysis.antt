-- ===== src/Emitter/Safety/Analysis.antt =====
-- The analysis of an event (original/src/emitter.c).
use port_libyaml.Base.{
  ℕ, zero, suc, ◌≤◌, Bool, true, false, not, ◌||◌, List, [], ◌∷◌, ◌++◌, Option, none, some, ◌≡◌, ap,
  refl, Bytes, length, length-append, if◌then◌else◌, ◌==◌, arith, inl, inr, Bool-cases,
  Option-cases, subst,
}
use port_libyaml.Types.Basics.{TagDirective}
use port_libyaml.Types.Events.{EventData}
use port_libyaml.Emitter.Control.{TagData, ScalarData}
use port_libyaml.Emitter.Analyze.{
  all_alpha, set_anchor, analyze_anchor, behind_prefix, find_tag, set_tag, analyze_tag,
}
use port_libyaml.Emitter.AnalyzeScalar.{
  Scan, empty_scalar, scan, scan_character, start_scan, allowed, set_scalar, analyze_scalar,
  analyze_optional_anchor, analyze_optional_tag, clear_analysis, analyze_content, analyze_event,
}
use port_libyaml.Emitter.Safety.Strings.{Whole, nil, next, Whole-behind, character_lem}
use port_libyaml.Emitter.Safety.Output.{Holds}
use port_libyaml.Emitter.Safety.Control.{WholeOption, AreDirectives}
use port_libyaml.Emitter.Safety.Analyzes.{
  Analyzes, Analyzes->>, same_control, Analyzes-skip, Analyzes-error, Analyzes-if, Analyzes-when,
}

set_anchor-Analyzes :
    (anchor : Bytes) (alias : Bool) → Whole anchor → Analyzes (set_anchor anchor alias)
unfolding set_anchor
set_anchor-Analyzes anchor alias w = record {
  run = λ e i.
      same_control e _
        (record {
          directives = i.directives;
          anchor = w;
          handle = i.handle;
          suffix = i.suffix;
          value = i.value;
        })
        refl refl refl refl refl;
}

analyze_anchor-Analyzes :
    (anchor : Bytes) (alias : Bool) → Whole anchor → Analyzes (analyze_anchor anchor alias)
unfolding analyze_anchor
analyze_anchor-Analyzes [] alias w =
    Analyzes-error
      (if alias then "alias value must not be empty" else "anchor value must not be empty")
analyze_anchor-Analyzes (o ∷ os) alias w =
    Analyzes-if (all_alpha (o ∷ os)) (set_anchor-Analyzes (o ∷ os) alias w) (
      Analyzes-error (
        if alias
        then "alias value must contain alphanumerical characters only"
        else "anchor value must contain alphanumerical characters only"))

behind_prefix_lem : (p os suffix : Bytes) → behind_prefix p os ≡ some suffix → os ≡ p ++ suffix
unfolding behind_prefix
behind_prefix_lem [] [] suffix e = absurd (ground arith)
behind_prefix_lem [] (o ∷ os) suffix e = cc
behind_prefix_lem (p ∷ ps) [] suffix e = absurd (ground arith)
behind_prefix_lem (p ∷ ps) (o ∷ os) suffix e = elim (Bool-cases (p == o)) [
  | inl h ↦
      let rest : behind_prefix ps os ≡ some suffix = ground arith in
      let same : p ≡ o = ground arith in rw (same, behind_prefix_lem ps os suffix rest) refl
  | inr h ↦ absurd (ground arith)
]

-- The tag as it was found
record IsFound (t : TagData) : Type 0 where
  handle : WholeOption t.handle
  suffix : WholeOption t.suffix

find_tag-IsFound :
    (tag : Bytes) (ds : List TagDirective)
    → Whole tag
    → AreDirectives ds
    → IsFound (find_tag tag ds)
unfolding find_tag
find_tag-IsFound tag [] w h = record { handle = tt; suffix = w }
find_tag-IsFound tag (d ∷ ds) w h = elim (Option-cases (behind_prefix d.prefix tag)) [
  | inl e ↦ rw (e, find_tag) (find_tag-IsFound tag ds w h.1.1)
  | inr (suffix, e) ↦
      rw (e, find_tag)
        (record {
          handle = h.0;
          suffix =
              Whole-behind d.prefix suffix h.1.0
                (subst Whole (behind_prefix_lem d.prefix tag suffix e) w);
        })
]

set_tag-Analyzes : (tag : Bytes) → Whole tag → Analyzes (set_tag tag)
unfolding set_tag
set_tag-Analyzes tag w = record {
  run = λ e i.
      let f = find_tag-IsFound tag e.tag_directives w (i.directives) in
      same_control e _
        (record {
          directives = i.directives;
          anchor = i.anchor;
          handle = f.handle;
          suffix = f.suffix;
          value = i.value;
        })
        refl refl refl refl refl;
}

analyze_tag-Analyzes : (tag : Bytes) → Whole tag → Analyzes (analyze_tag tag)
unfolding analyze_tag
analyze_tag-Analyzes [] w = Analyzes-error "tag value must not be empty"
analyze_tag-Analyzes (o ∷ os) w = set_tag-Analyzes (o ∷ os) w

scan-Whole :
    (unicode : Bool) (fuel : ℕ) (s : Scan) (string : List ℕ)
    → Whole string
    → length string ≤ fuel
    → (s' : Scan) × (scan unicode fuel s string ≡ some s')
unfolding scan
scan-Whole unicode fuel s [] w h = (s, refl)
scan-Whole unicode zero s (o ∷ os) w h = absurd (omega arith)
scan-Whole unicode (suc fuel) s (o ∷ os) (next {c = c} {rest = rest} b e w) h =
    let i = character_lem o os c rest e in
    let shorter : length rest ≤ fuel =
      omega (arith, ap length (i.joins), length-append c rest, i.positive) in
    let (s', f) = scan-Whole unicode fuel (scan_character unicode (o ∷ os) rest s) rest w shorter in
    (s', rw (e, scan) f)

set_scalar-Analyzes :
    (f : ScalarData → ScalarData)
    → ((old : ScalarData) → Whole (f old).value)
    → Analyzes (set_scalar f)
unfolding set_scalar
set_scalar-Analyzes f w = record {
  run = λ e i.
      same_control e _
        (record {
          directives = i.directives;
          anchor = i.anchor;
          handle = i.handle;
          suffix = i.suffix;
          value = w e.scalar_data;
        })
        refl refl refl refl refl;
}

analyze_scalar-Analyzes : (value : Bytes) → Whole value → Analyzes (analyze_scalar value)
unfolding analyze_scalar allowed
analyze_scalar-Analyzes [] w = record {
  run = λ e i. (set_scalar-Analyzes empty_scalar (λ old. nil)).run e i;
}
analyze_scalar-Analyzes (o ∷ os) w = record {
  run = λ e i.
      let (s, f) =
        scan-Whole e.output.unicode (length (o ∷ os)) (start_scan (o ∷ os)) (o ∷ os) w
          (omega arith) in
      rw (f, Holds) ((set_scalar-Analyzes (allowed (o ∷ os) s) (λ old. w)).run e i);
}

analyze_optional_anchor-Analyzes :
    (anchor : Option Bytes) → WholeOption anchor → Analyzes (analyze_optional_anchor anchor)
unfolding analyze_optional_anchor
analyze_optional_anchor-Analyzes none w = Analyzes-skip
analyze_optional_anchor-Analyzes (some anchor) w = analyze_anchor-Analyzes anchor false w

analyze_optional_tag-Analyzes :
    (tag : Option Bytes) (implicit : Bool)
    → WholeOption tag
    → Analyzes (analyze_optional_tag tag implicit)
unfolding analyze_optional_tag
analyze_optional_tag-Analyzes none implicit w = Analyzes-skip
analyze_optional_tag-Analyzes (some tag) implicit w = record {
  run = λ e i.
      (Analyzes-when (e.output.canonical || not implicit) (analyze_tag-Analyzes tag w)).run e i;
}

-- The strings of an event fall into characters.
abbrev pub WholeEvent : EventData → Type 0
WholeEvent (EventData.alias a) = Whole a
WholeEvent (EventData.scalar s) = WholeOption s.anchor × (WholeOption s.tag × Whole s.value)
WholeEvent (EventData.sequence_start s) = WholeOption s.anchor × WholeOption s.tag
WholeEvent (EventData.mapping_start s) = WholeOption s.anchor × WholeOption s.tag
WholeEvent (EventData.document_start d) = AreDirectives d.tag_directives
WholeEvent event = Unit

analyze_content-Analyzes : (event : EventData) → WholeEvent event → Analyzes (analyze_content event)
unfolding analyze_content
analyze_content-Analyzes (EventData.alias a) w = analyze_anchor-Analyzes a true w
analyze_content-Analyzes (EventData.scalar s) w =
    Analyzes->> (analyze_optional_anchor-Analyzes s.anchor w.0) (
      Analyzes->>
        (analyze_optional_tag-Analyzes s.tag (s.plain_implicit || s.quoted_implicit) w.1.0)
        (analyze_scalar-Analyzes s.value w.1.1))
analyze_content-Analyzes (EventData.sequence_start s) w =
    Analyzes->> (analyze_optional_anchor-Analyzes s.anchor w.0)
      (analyze_optional_tag-Analyzes s.tag s.implicit w.1)
analyze_content-Analyzes (EventData.mapping_start s) w =
    Analyzes->> (analyze_optional_anchor-Analyzes s.anchor w.0)
      (analyze_optional_tag-Analyzes s.tag s.implicit w.1)
analyze_content-Analyzes EventData.no_event w = Analyzes-skip
analyze_content-Analyzes EventData.stream_end w = Analyzes-skip
analyze_content-Analyzes EventData.sequence_end w = Analyzes-skip
analyze_content-Analyzes EventData.mapping_end w = Analyzes-skip
analyze_content-Analyzes (EventData.stream_start k) w = Analyzes-skip
analyze_content-Analyzes (EventData.document_start d) w = Analyzes-skip
analyze_content-Analyzes (EventData.document_end b) w = Analyzes-skip

clear_analysis-Analyzes : Analyzes clear_analysis
unfolding clear_analysis
clear_analysis-Analyzes = record {
  run = λ e i.
      same_control e _
        (record { directives = i.directives; anchor = tt; handle = tt; suffix = tt; value = nil })
        refl refl refl refl refl;
}

pub analyze_event-Analyzes : (event : EventData) → WholeEvent event → Analyzes (analyze_event event)
unfolding analyze_event
analyze_event-Analyzes event w =
    Analyzes->> clear_analysis-Analyzes (analyze_content-Analyzes event w)
