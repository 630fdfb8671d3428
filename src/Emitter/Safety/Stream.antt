-- ===== src/Emitter/Safety/Stream.antt =====
-- The start of the stream, and yaml_emitter_emit on the queue of events (original/src/emitter.c).
use port_libyaml.Base.{ℕ, [], ◌≤◌, true, not, List, some, ◌≡◌, refl, length, arith, subst, sym}
use port_libyaml.Types.Basics.{Encoding}
use port_libyaml.Types.Events.{EventData}
use port_libyaml.Grammar.{Phase, step}
use port_libyaml.Writer.Flush.{is_set, output_buffer_size}
use port_libyaml.Emitter.State.{◌>>◌, Output, set_open_ended}
use port_libyaml.Emitter.Control.{EmitterState, Emitter, writing, set_emitter_error, set_state}
use port_libyaml.Emitter.AnalyzeScalar.{analyze_event}
use port_libyaml.Emitter.Documents.{
  choose_encoding, choose_indent, start_output, is_utf8, start_text, emit_stream_start_content,
  emit_stream_start,
}
use port_libyaml.Emitter.Queue.{state_machine, dequeue, emit_event}
use port_libyaml.Emitter.Safety.Strings.{Whole}
use port_libyaml.Emitter.Safety.Output.{Holds, Holds->>, IsOutput, Safe}
use port_libyaml.Emitter.Safety.Writes.{Safe-when, Safe-reading}
use port_libyaml.Emitter.Safety.Tags.{write_bom-Safe}
use port_libyaml.Emitter.Safety.Places.{At, stream_start_step}
use port_libyaml.Emitter.Safety.Control.{IsStored, Sound, Triple, Triple->>, Triple-writing}
use port_libyaml.Emitter.Safety.Stacks.{IsStored-same}
use port_libyaml.Emitter.Safety.NodePlaces.{IsAfter}
use port_libyaml.Emitter.Safety.Documents.{Empty, leads-Triple}
use port_libyaml.Emitter.Safety.Analyzes.{IsAnalyzed}
use port_libyaml.Emitter.Safety.Analysis.{WholeEvent, analyze_event-Analyzes}
use port_libyaml.Emitter.Safety.Machine.{Started, state_machine-Triple}

-- Before the stream the encoding and the indentation are not chosen yet.
pub record IsUnopened (o : Output) : Type 0 where
  pub whole : Whole o.writer.written
  pub room : length o.writer.written ≤ output_buffer_size
  pub raw : o.writer.raw ≡ []

abbrev pub IsOpened : Phase → Output → Type 0
IsOpened Phase.before_stream o = IsUnopened o
IsOpened ph o = IsOutput o

choose_encoding-is_set : (a b : Encoding) → is_set (choose_encoding a b) ≡ true
unfolding is_set choose_encoding
choose_encoding-is_set a b = ground arith

choose_indent-bound : (n : ℕ) → choose_indent n ≤ 9
unfolding choose_indent
choose_indent-bound n = ground arith

start_text-Safe : Safe start_text
unfolding start_text
start_text-Safe = Safe-reading (λ o. Safe-when (not (is_utf8 o.writer.encoding)) write_bom-Safe)

stream_opens :
    (k : Encoding)
    → Triple Empty
        (writing start_text >> set_state EmitterState.first_document_start)
        (IsAfter (EventData.stream_start k) Phase.before_stream)
stream_opens k = Triple->> (Triple-writing Empty start_text-Safe) (
    leads-Triple (EventData.stream_start k) Phase.before_stream Phase.between_documents
      EmitterState.first_document_start (stream_start_step k) At.first_document)

module _ (e : Emitter) (stored : IsStored e) (o : IsUnopened e.output)
    (empty : Empty e.state e.states (length e.indents) e.flow_level) where
  stream_start_lem :
      (k : Encoding)
      → Holds
          (Sound (IsAfter (EventData.stream_start k) Phase.before_stream))
          (emit_stream_start (EventData.stream_start k) e)
  unfolding emit_stream_start emit_stream_start_content set_open_ended start_output
  stream_start_lem k = (stream_opens k).run _ (record {
    stored = IsStored-same e _ refl refl refl refl stored;
    output = record {
      whole = o.whole;
      room = o.room;
      raw = o.raw;
      encoded = choose_encoding-is_set e.output.writer.encoding k;
      small = choose_indent-bound e.output.best_indent;
    };
    control = empty;
  })

  pub emit_stream_start-IsAfter :
      (event : EventData)
      → Holds (Sound (IsAfter event Phase.before_stream)) (emit_stream_start event e)
  unfolding emit_stream_start emit_stream_start_content set_open_ended set_emitter_error
  emit_stream_start-IsAfter (EventData.stream_start k) = stream_start_lem k
  emit_stream_start-IsAfter EventData.no_event = tt
  emit_stream_start-IsAfter EventData.stream_end = tt
  emit_stream_start-IsAfter EventData.sequence_end = tt
  emit_stream_start-IsAfter EventData.mapping_end = tt
  emit_stream_start-IsAfter (EventData.document_start d) = tt
  emit_stream_start-IsAfter (EventData.document_end b) = tt
  emit_stream_start-IsAfter (EventData.alias a) = tt
  emit_stream_start-IsAfter (EventData.scalar s) = tt
  emit_stream_start-IsAfter (EventData.sequence_start s) = tt
  emit_stream_start-IsAfter (EventData.mapping_start s) = tt

-- An emitter at a place in the grammar.
pub record IsAt (ph : Phase) (e : Emitter) : Type 0 where
  pub stored : IsStored e
  pub output : IsOpened ph e.output
  pub place : At e.state e.states ph (length e.indents) e.flow_level

at_start :
    (s : EmitterState) (ss : List EmitterState) (n fl : ℕ)
    → At s ss Phase.before_stream n fl
    → (s ≡ EmitterState.stream_start) × Empty s ss n fl
at_start _ _ _ _ At.before_stream = (refl, (refl, refl, refl))

module _ (e : Emitter) (event : EventData) (w : WholeEvent event) (stored : IsStored e) where
  stream_machine :
      (s : EmitterState)
      → s ≡ EmitterState.stream_start
      → IsUnopened e.output
      → Empty e.state e.states (length e.indents) e.flow_level
      → Holds (Sound (IsAfter event Phase.before_stream)) (state_machine s event e)
  unfolding state_machine
  stream_machine s h o empty = rw h (emit_stream_start-IsAfter e stored o empty event)

  later_machine :
      (ph : Phase)
      → Started ph
      → IsOutput e.output
      → At e.state e.states ph (length e.indents) e.flow_level
      → Holds (Sound (IsAfter event ph)) (state_machine e.state event e)
  later_machine ph h o place =
      (state_machine-Triple event w e.state e.states ph (length e.indents) e.flow_level place h).run
        e (record { stored = stored; output = o; control = (refl, refl, refl) })

  machine_lem :
      (ph : Phase)
      → IsOpened ph e.output
      → At e.state e.states ph (length e.indents) e.flow_level
      → Holds (Sound (IsAfter event ph)) (state_machine e.state event e)
  machine_lem Phase.before_stream o place =
      let (h, empty) = at_start e.state e.states (length e.indents) e.flow_level place in
      stream_machine e.state h o empty
  machine_lem Phase.between_documents o place = later_machine Phase.between_documents tt o place
  machine_lem Phase.before_root o place = later_machine Phase.before_root tt o place
  machine_lem Phase.after_stream o place = later_machine Phase.after_stream tt o place
  machine_lem (Phase.in_document fs) o place = later_machine (Phase.in_document fs) tt o place

IsOpened-output : (ph : Phase) (o : Output) → IsOutput o → IsOpened ph o
IsOpened-output Phase.before_stream o i = record { whole = i.whole; room = i.room; raw = i.raw }
IsOpened-output Phase.between_documents o i = i
IsOpened-output Phase.before_root o i = i
IsOpened-output Phase.after_stream o i = i
IsOpened-output (Phase.in_document fs) o i = i

-- An emitter at the place that the grammar has behind the event.
pub record IsStepped (event : EventData) (ph : Phase) (e : Emitter) : Type 0 where
  pub phase : Phase
  pub follows : step event ph ≡ some phase
  pub position : IsAt phase e

stepped :
    (event : EventData) (ph : Phase) (e : Emitter)
    → Sound (IsAfter event ph) e
    → IsStepped event ph e
stepped event ph e i =
    let (ph', f, place) = i.control in
    record {
      phase = ph';
      follows = f;
      position = record {
        stored = i.stored;
        output = IsOpened-output ph' e.output (i.output);
        place = place;
      };
    }

IsAnalyzed-IsAt : (ph : Phase) (e e' : Emitter) → IsAt ph e → IsAnalyzed e e' → IsAt ph e'
IsAnalyzed-IsAt ph e e' i a = record {
  stored = a.stored;
  output = subst (IsOpened ph) (sym (a.output)) (i.output);
  place = rw (a.state, a.states, a.indents, a.flow_level) (i.place);
}

requeued :
    (event : EventData) (ph : Phase) (events : List EventData) (e : Emitter)
    → IsStepped event ph e
    → IsStepped event ph (record e { events = events })
requeued event ph events e i = record {
  phase = i.phase;
  follows = i.follows;
  position = record {
    stored = IsStored-same e _ refl refl refl refl (i.position.stored);
    output = i.position.output;
    place = i.position.place;
  };
}

pub emit_event-IsStepped :
    (event : EventData) (events : List EventData) (ph : Phase) (e : Emitter)
    → WholeEvent event
    → IsAt ph e
    → Holds (λ e'. IsStepped event ph e' × (e'.events ≡ events)) (emit_event event events e)
unfolding emit_event dequeue
emit_event-IsStepped event events ph e w i =
    Holds->> (IsAnalyzed e) _ (analyze_event event e) _
      ((analyze_event-Analyzes event w).run e (i.stored))
      (λ e' a.
        let j = IsAnalyzed-IsAt ph e e' i a in
        Holds->> (Sound (IsAfter event ph)) _ (state_machine e'.state event e') _
          (machine_lem e' event w (j.stored) ph (j.output) (j.place))
          (λ e'' s. (requeued event ph events e'' (stepped event ph e'' s), refl)))
