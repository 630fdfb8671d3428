-- ===== src/Emitter/Safety/Documents.antt =====
-- The start and the end of documents and of the stream (original/src/emitter.c).
use port_libyaml.Base.{
  ℕ, Bool, true, false, not, ◌&&◌, ◌||◌, List, [], ◌∷◌, Option, none, some, ◌≡◌, refl, Bytes,
  if◌then◌else◌, ◌==◌, ◌<◌, arith,
}
use port_libyaml.Grammar.{Phase, take_place, step}
use port_libyaml.Types.Basics.{VersionDirective, TagDirective}
use port_libyaml.Types.Events.{EventData, DocumentStartEvent}
use port_libyaml.Emitter.Write.{write_indicator}
use port_libyaml.Emitter.Control.{EmitterState, set_state}
use port_libyaml.Emitter.Documents.{
  write_document_mark, has_version, has_directives, close_last_document, write_version,
  write_directives, write_document_start, is_implicit, write_document, start_document, end_stream,
  emit_document_start, end_open_scalar, emit_document_content, write_document_end, clear_directives,
  emit_document_end,
}
use port_libyaml.Emitter.Safety.Strings.{AreAscii, AreAscii-Whole}
use port_libyaml.Emitter.Safety.Output.{Safe}
use port_libyaml.Emitter.Safety.Writes.{
  Safe->>, Safe-when, Safe-skip, Safe-reading, Safe-test, set_open_ended-Safe,
}
use port_libyaml.Emitter.Safety.Columns.{write_indent-Safe}
use port_libyaml.Emitter.Safety.Tags.{
  write_indicator-Safe, write_tag_handle-Safe, write_tag_content-Safe,
}
use port_libyaml.Emitter.Safety.Places.{
  Returns, At, document_start-step, stream_end_step, document_end_step,
}
use port_libyaml.Emitter.Safety.Control.{
  AreDirectives, Control, Triple, Triple->>, Triple-weaken, Triple-error, Triple-writing,
}
use port_libyaml.Emitter.Safety.Stacks.{at_state, pushed, set_state-Triple, push_state-Triple}
use port_libyaml.Emitter.Safety.NodePlaces.{IsReady, IsAfter, emit_node-Triple}
use port_libyaml.Emitter.Safety.Directives.{
  flush_output-Safe, analyze_version-Triple, append_directives-Triple,
  append_default_directives-Triple,
}

three : (c : ℕ) → c < 0x80 → AreAscii (c ∷ c ∷ c ∷ [])
three c h = (h, (h, (h, tt)))

ascii_indicator :
    (bytes : Bytes) (a b c : Bool) → AreAscii bytes → Safe (write_indicator bytes a b c)
ascii_indicator bytes a b c h = write_indicator-Safe bytes a b c (AreAscii-Whole bytes h)

write_document_mark-Safe : (mark : Bytes) → AreAscii mark → Safe (write_document_mark mark)
unfolding write_document_mark
write_document_mark-Safe mark h =
    Safe->> (ascii_indicator mark true false false h) write_indent-Safe

close_last_document-Safe : (b : Bool) → Safe (close_last_document b)
unfolding close_last_document
close_last_document-Safe b = Safe-reading (λ o.
    Safe->>
      (Safe-when (b && not (o.open_ended == 0))
        (write_document_mark-Safe (b'.' ∷ b'.' ∷ b'.' ∷ []) (three b'.' (omega arith))))
      (set_open_ended-Safe 0))

minor_digit : (b : Bool) → (if b then b'1' else b'2') < 0x80
minor_digit true = omega arith
minor_digit false = omega arith

write_version-Safe : (v : Option VersionDirective) → Safe (write_version v)
unfolding write_version
write_version-Safe none = Safe-skip
write_version-Safe (some v) =
    Safe->>
      (ascii_indicator (b'%' ∷ b'Y' ∷ b'A' ∷ b'M' ∷ b'L' ∷ []) true false false
        (omega arith, (omega arith, (omega arith, (omega arith, (omega arith, tt))))))
      (write_document_mark-Safe (b'1' ∷ b'.' ∷ (if v.minor == 1 then b'1' else b'2') ∷ [])
        (omega arith, (omega arith, (minor_digit (v.minor == 1), tt))))

write_directives-Safe : (ds : List TagDirective) → AreDirectives ds → Safe (write_directives ds)
unfolding write_directives
write_directives-Safe [] h = Safe-skip
write_directives-Safe (d ∷ ds) h =
    Safe->>
      (ascii_indicator (b'%' ∷ b'T' ∷ b'A' ∷ b'G' ∷ []) true false false
        (omega arith, (omega arith, (omega arith, (omega arith, tt)))))
      (Safe->> (write_tag_handle-Safe d.handle h.0) (
        Safe->> (write_tag_content-Safe d.prefix true h.1.0)
          (Safe->> write_indent-Safe (write_directives-Safe ds h.1.1))))

write_document_start-Safe : (implicit : Bool) → Safe (write_document_start implicit)
unfolding write_document_start
write_document_start-Safe implicit = Safe-reading (λ o. Safe-when (not implicit) (
    Safe->> write_indent-Safe (
      Safe->>
        (ascii_indicator (b'-' ∷ b'-' ∷ b'-' ∷ []) true false false (three b'-' (omega arith)))
        (Safe-reading (λ o'. Safe-when o'.canonical write_indent-Safe)))))

write_document-Safe :
    (d : DocumentStartEvent) (first : Bool)
    → AreDirectives d.tag_directives
    → Safe (write_document d first)
unfolding write_document
write_document-Safe d first h = Safe-reading (λ o.
    Safe->>
      (close_last_document-Safe
        (has_version d.version_directive || has_directives d.tag_directives))
      (Safe->> (write_version-Safe d.version_directive) (
        Safe->> (write_directives-Safe d.tag_directives h)
          (Safe->> (write_document_start-Safe (is_implicit d first o)) (set_open_ended-Safe 0)))))

-- Between two documents, and at the root
abbrev pub Empty : Control
Empty s ss n fl = (ss ≡ []) × (n ≡ 0) × (fl ≡ 0)

leads :
    (event : EventData) (ph ph' : Phase) (t : EmitterState)
    → step event ph ≡ some ph'
    → At t [] ph' 0 0
    → (s : EmitterState) (ss : List EmitterState) (n fl : ℕ) → Empty s ss n fl
    → at_state t (IsAfter event ph) s ss n fl
leads event ph ph' t e a s ss n fl (h, i, j) = (ph', e, rw (h, i, j) a)

pub leads-Triple :
    (event : EventData) (ph ph' : Phase) (t : EmitterState)
    → step event ph ≡ some ph'
    → At t [] ph' 0 0
    → Triple Empty (set_state t) (IsAfter event ph)
leads-Triple event ph ph' t e a =
    Triple-weaken (leads event ph ph' t e a) (set_state-Triple (IsAfter event ph) t)

start_document-Triple :
    (d : DocumentStartEvent) (first : Bool)
    → AreDirectives d.tag_directives
    → Triple Empty
        (start_document d first)
        (IsAfter (EventData.document_start d) Phase.between_documents)
unfolding start_document
start_document-Triple d first h = Triple->> (analyze_version-Triple Empty d.version_directive) (
    Triple->> (append_directives-Triple Empty d.tag_directives h) (
      Triple->> (append_default_directives-Triple Empty) (
        Triple->> (Triple-writing Empty (write_document-Safe d first h)) (
          leads-Triple _ Phase.between_documents Phase.before_root EmitterState.document_content
            (document_start-step d) At.before_root))))

end_open_scalar-Safe : Safe end_open_scalar
unfolding end_open_scalar
end_open_scalar-Safe = Safe-reading (λ o. Safe-when (o.open_ended == 2) (
    Safe->> (ascii_indicator (b'.' ∷ b'.' ∷ b'.' ∷ []) true false false (three b'.' (omega arith)))
      (Safe->> (set_open_ended-Safe 0) write_indent-Safe)))

end_stream-Triple : Triple Empty end_stream (IsAfter EventData.stream_end Phase.between_documents)
unfolding end_stream
end_stream-Triple = Triple->> (Triple-writing Empty end_open_scalar-Safe) (
    Triple->> (Triple-writing Empty flush_output-Safe) (
      leads-Triple EventData.stream_end Phase.between_documents Phase.after_stream EmitterState.end
        stream_end_step At.after_stream))

-- The strings of an event that the emitter writes or looks at
abbrev pub WholeDirectives : EventData → Type 0
WholeDirectives (EventData.document_start d) = AreDirectives d.tag_directives
WholeDirectives event = Unit

pub emit_document_start-Triple :
    (event : EventData) (first : Bool)
    → WholeDirectives event
    → Triple Empty (emit_document_start event first) (IsAfter event Phase.between_documents)
unfolding emit_document_start
emit_document_start-Triple (EventData.document_start d) first h = start_document-Triple d first h
emit_document_start-Triple EventData.stream_end first h = end_stream-Triple
emit_document_start-Triple EventData.no_event first h = Triple-error _
emit_document_start-Triple EventData.sequence_end first h = Triple-error _
emit_document_start-Triple EventData.mapping_end first h = Triple-error _
emit_document_start-Triple (EventData.stream_start k) first h = Triple-error _
emit_document_start-Triple (EventData.document_end b) first h = Triple-error _
emit_document_start-Triple (EventData.alias a) first h = Triple-error _
emit_document_start-Triple (EventData.scalar s) first h = Triple-error _
emit_document_start-Triple (EventData.sequence_start s) first h = Triple-error _
emit_document_start-Triple (EventData.mapping_start s) first h = Triple-error _

write_document_end-Safe : (implicit : Bool) → Safe (write_document_end implicit)
unfolding write_document_end
write_document_end-Safe implicit =
    Safe-test (λ o. not implicit)
      (Safe->>
        (ascii_indicator (b'.' ∷ b'.' ∷ b'.' ∷ []) true false false (three b'.' (omega arith)))
        (Safe->> (set_open_ended-Safe 0) write_indent-Safe))
      (Safe-reading (λ o. Safe-when (o.open_ended == 0) (set_open_ended-Safe 1)))

clear_directives-Triple : (P : Control) → Triple P clear_directives P
unfolding clear_directives
clear_directives-Triple P = record {
  run = λ e i. record {
    stored = record {
      directives = tt;
      anchor = i.stored.anchor;
      handle = i.stored.handle;
      suffix = i.stored.suffix;
      value = i.stored.value;
    };
    output = i.output;
    control = i.control;
  };
}

document_end-Triple :
    (b : Bool)
    → Triple Empty
        (emit_document_end (EventData.document_end b))
        (IsAfter (EventData.document_end b) (Phase.in_document []))
unfolding emit_document_end
document_end-Triple b =
    let Q = IsAfter (EventData.document_end b) (Phase.in_document []) in
    Triple->> (Triple-writing Empty write_indent-Safe) (
      Triple->> (Triple-writing Empty (write_document_end-Safe b)) (
        Triple->> (Triple-writing Empty flush_output-Safe) (
          Triple->>
            (leads-Triple (EventData.document_end b) (Phase.in_document []) Phase.between_documents
              EmitterState.document_start (document_end_step b) At.next_document)
            (clear_directives-Triple Q))))

pub emit_document_end-Triple :
    (event : EventData)
    → Triple Empty (emit_document_end event) (IsAfter event (Phase.in_document []))
unfolding emit_document_end
emit_document_end-Triple (EventData.document_end b) = document_end-Triple b
emit_document_end-Triple EventData.no_event = Triple-error _
emit_document_end-Triple EventData.stream_end = Triple-error _
emit_document_end-Triple EventData.sequence_end = Triple-error _
emit_document_end-Triple EventData.mapping_end = Triple-error _
emit_document_end-Triple (EventData.stream_start k) = Triple-error _
emit_document_end-Triple (EventData.document_start d) = Triple-error _
emit_document_end-Triple (EventData.alias a) = Triple-error _
emit_document_end-Triple (EventData.scalar s) = Triple-error _
emit_document_end-Triple (EventData.sequence_start s) = Triple-error _
emit_document_end-Triple (EventData.mapping_start s) = Triple-error _

root_returns :
    (s : EmitterState) (ss : List EmitterState) (n fl : ℕ)
    → Empty s ss n fl
    → pushed EmitterState.document_end (IsReady Phase.before_root) s ss n fl
unfolding take_place
root_returns s ss n fl (h, i, j) = ([], refl, rw (h, i, j) Returns.bottom)

pub emit_document_content-Triple :
    (event : EventData)
    → Triple Empty (emit_document_content event) (IsAfter event Phase.before_root)
unfolding emit_document_content
emit_document_content-Triple event = Triple-weaken root_returns (
    Triple->> (push_state-Triple (IsReady Phase.before_root) EmitterState.document_end)
      (emit_node-Triple Phase.before_root event true false false false))
