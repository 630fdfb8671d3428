-- ===== src/Emitter/Documents.antt =====
-- The stream and its documents (original/src/emitter.c).
use port_libyaml.Base.{
  ℕ, ◌*◌, Bool, true, false, not, ◌&&◌, ◌||◌, List, [], ◌∷◌, Option, none, some, Bytes, ◌==◌, ltb,
  leb, if◌then◌else◌,
}
use port_libyaml.Types.Basics.{Encoding, VersionDirective, TagDirective}
use port_libyaml.Types.Events.{EventData, DocumentStartEvent}
use port_libyaml.Emitter.State.{
  Outcome, ◌>>◌, skip, when, Output, W, Break, flush_output, set_open_ended,
}
use port_libyaml.Emitter.Write.{
  write_bom, write_indent, write_indicator, write_tag_handle, write_tag_content,
}
use port_libyaml.Emitter.Control.{
  E, EmitterState, writing, set_emitter_error, push_state, set_state,
}
use port_libyaml.Emitter.Analyze.{
  analyze_version_directive, analyze_tag_directive, append_tag_directive,
}
use port_libyaml.Emitter.Emit.{emit_node}

-- INT_MAX
abbrev pub int_max : ℕ
int_max = 2147483647

unfoldable pub choose_encoding : Encoding → Encoding → Encoding
choose_encoding Encoding.any_encoding Encoding.any_encoding = Encoding.utf8_encoding
choose_encoding Encoding.any_encoding encoding = encoding
choose_encoding encoding given = encoding

unfoldable pub choose_indent : ℕ → ℕ
choose_indent n = if ltb n 2 || ltb 9 n then 2 else n

unfoldable pub choose_width : Option ℕ → ℕ → Option ℕ
choose_width none indent = some int_max
choose_width (some n) indent = if leb n (indent * 2) then some 80 else some n

unfoldable pub choose_break : Break → Break
choose_break Break.any_break = Break.ln_break
choose_break b = b

unfoldable pub start_output : Encoding → W
unfolding choose_encoding choose_indent choose_width choose_break
start_output given o = Outcome.done (record o {
  writer = record (o.writer) { encoding = choose_encoding o.writer.encoding given };
  best_indent = choose_indent o.best_indent;
  best_width = choose_width o.best_width (choose_indent o.best_indent);
  line_break = choose_break o.line_break;
  indent = none;
  line = 0;
  column = 0;
  whitespace = true;
  indention = true;
})

unfoldable pub is_utf8 : Encoding → Bool
is_utf8 Encoding.utf8_encoding = true
is_utf8 encoding = false

unfoldable pub start_text : W
unfolding is_utf8 write_bom
start_text o = when (not (is_utf8 o.writer.encoding)) write_bom o

unfoldable pub emit_stream_start_content : EventData → E
unfolding start_output start_text set_state set_emitter_error
emit_stream_start_content (EventData.stream_start encoding) = do
  writing (start_output encoding)
  writing start_text
  set_state EmitterState.first_document_start
emit_stream_start_content _ = set_emitter_error "expected STREAM-START"

unfoldable pub emit_stream_start : EventData → E
unfolding set_open_ended emit_stream_start_content
emit_stream_start event = do writing (set_open_ended 0); emit_stream_start_content event

unfoldable pub analyze_optional_version : Option VersionDirective → E
unfolding analyze_version_directive
analyze_optional_version none = skip
analyze_optional_version (some v) = analyze_version_directive v

unfoldable pub append_directives : List TagDirective → E
unfolding analyze_tag_directive append_tag_directive
append_directives [] = skip
append_directives (d ∷ ds) = do
  analyze_tag_directive d
  append_tag_directive d false
  append_directives ds

-- "tag:yaml.org,2002:"
abbrev pub yaml_prefix : Bytes
yaml_prefix =
    b't' ∷ b'a' ∷ b'g' ∷ b':' ∷ b'y' ∷ b'a' ∷ b'm' ∷ b'l' ∷ b'.' ∷ b'o' ∷ b'r' ∷ b'g' ∷ b',' ∷ b'2'
    ∷ b'0' ∷ b'0' ∷ b'2' ∷ b':' ∷ []

unfoldable pub append_default_directives : E
unfolding append_tag_directive
append_default_directives = do
  append_tag_directive (record { handle = b'!' ∷ []; prefix = b'!' ∷ [] }) true
  append_tag_directive (record { handle = b'!' ∷ b'!' ∷ []; prefix = yaml_prefix }) true

unfoldable pub write_document_mark : Bytes → W
unfolding write_indicator write_indent
write_document_mark mark = do write_indicator mark true false false; write_indent

unfoldable pub has_version : Option VersionDirective → Bool
has_version none = false
has_version (some v) = true

unfoldable pub has_directives : List TagDirective → Bool
has_directives [] = false
has_directives (d ∷ ds) = true

-- "..." before directives, where the last document is open
unfoldable pub close_last_document : Bool → W
unfolding write_document_mark set_open_ended
close_last_document directives o =
    (do
      when (directives && not (o.open_ended == 0)) (write_document_mark (b'.' ∷ b'.' ∷ b'.' ∷ []))
      set_open_ended 0)
      o

unfoldable pub write_version : Option VersionDirective → W
unfolding write_indicator write_document_mark
write_version none = skip
write_version (some v) = do
  write_indicator (b'%' ∷ b'Y' ∷ b'A' ∷ b'M' ∷ b'L' ∷ []) true false false
  write_document_mark (b'1' ∷ b'.' ∷ (if v.minor == 1 then b'1' else b'2') ∷ [])

unfoldable pub write_directives : List TagDirective → W
unfolding write_indicator write_tag_handle write_tag_content write_indent
write_directives [] = skip
write_directives (d ∷ ds) = do
  write_indicator (b'%' ∷ b'T' ∷ b'A' ∷ b'G' ∷ []) true false false
  write_tag_handle d.handle
  write_tag_content d.prefix true
  write_indent
  write_directives ds

unfoldable pub write_document_start : Bool → W
unfolding write_indent write_document_mark write_indicator
write_document_start implicit o =
    when (not implicit)
      (do
        write_indent
        write_indicator (b'-' ∷ b'-' ∷ b'-' ∷ []) true false false
        λ o'. when o'.canonical write_indent o')
      o

-- `implicit`, as the text of the document takes it; yaml_emitter_check_empty_document returns 0.
unfoldable pub is_implicit : DocumentStartEvent → Bool → Output → Bool
unfolding has_version has_directives
is_implicit d first o =
    d.implicit
    && first
    && not o.canonical
    && not (has_version d.version_directive || has_directives d.tag_directives)

unfoldable pub write_document : DocumentStartEvent → Bool → W
unfolding close_last_document has_version has_directives write_version write_directives
    write_document_start is_implicit set_open_ended
write_document d first o =
    (do
      close_last_document (has_version d.version_directive || has_directives d.tag_directives)
      write_version d.version_directive
      write_directives d.tag_directives
      write_document_start (is_implicit d first o)
      set_open_ended 0)
      o

unfoldable pub start_document : DocumentStartEvent → Bool → E
unfolding analyze_optional_version append_directives append_default_directives write_document
    set_state
start_document d first = do
  analyze_optional_version d.version_directive
  append_directives d.tag_directives
  append_default_directives
  writing (write_document d first)
  set_state EmitterState.document_content

-- "This can happen if a block scalar with trailing empty lines is at the end of the stream"
unfoldable pub end_open_scalar : W
unfolding write_indicator set_open_ended write_indent
end_open_scalar o =
    when (o.open_ended == 2)
      (do
        write_indicator (b'.' ∷ b'.' ∷ b'.' ∷ []) true false false
        set_open_ended 0
        write_indent)
      o

unfoldable pub end_stream : E
unfolding end_open_scalar flush_output set_state
end_stream = do writing end_open_scalar; writing flush_output; set_state EmitterState.end

unfoldable pub emit_document_start : EventData → Bool → E
unfolding start_document end_stream set_emitter_error
emit_document_start (EventData.document_start d) first = start_document d first
emit_document_start EventData.stream_end first = end_stream
emit_document_start event first = set_emitter_error "expected DOCUMENT-START or STREAM-END"

unfoldable pub emit_document_content : EventData → E
unfolding push_state emit_node
emit_document_content event = do
  push_state EmitterState.document_end
  emit_node event true false false false

unfoldable pub write_document_end : Bool → W
unfolding write_indicator set_open_ended write_indent
write_document_end implicit o =
    if not implicit
    then (do
      write_indicator (b'.' ∷ b'.' ∷ b'.' ∷ []) true false false
      set_open_ended 0
      write_indent)
        o
    else when (o.open_ended == 0) (set_open_ended 1) o

unfoldable pub clear_directives : E
clear_directives e = Outcome.done (record e { tag_directives = [] })

unfoldable pub emit_document_end : EventData → E
unfolding write_indent write_document_end flush_output set_state clear_directives set_emitter_error
emit_document_end (EventData.document_end implicit) = do
  writing write_indent
  writing (write_document_end implicit)
  writing flush_output
  set_state EmitterState.document_start
  clear_directives
emit_document_end _ = set_emitter_error "expected DOCUMENT-END"
