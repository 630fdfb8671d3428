-- ===== src/Emitter/Safety/Places.antt =====
-- Where the states and the stacks of the emitter stand in the grammar of events
-- (original/src/emitter.c).
use port_libyaml.Base.{ℕ, suc, Bool, true, false, List, [], ◌∷◌, some, ◌≡◌, refl}
use port_libyaml.Types.Basics.{Encoding}
use port_libyaml.Types.Events.{EventData, DocumentStartEvent}
use port_libyaml.Grammar.{
  Frame, Phase, step, start_stream, start_document, end_stream, end_document,
}
use port_libyaml.Emitter.Control.{EmitterState}

-- The states before the first item of a collection, with what it waits for and whether it is in flow
-- style.
pub data Opens : EmitterState → Frame → Bool → Type 0 where
  flow_sequence : Opens EmitterState.flow_sequence_first_item Frame.in_sequence true
  flow_mapping : Opens EmitterState.flow_mapping_first_key Frame.before_key true
  block_sequence : Opens EmitterState.block_sequence_first_item Frame.in_sequence false
  block_mapping : Opens EmitterState.block_mapping_first_key Frame.before_key false

-- The states in a collection
pub data Continues : EmitterState → Frame → Bool → Type 0 where
  flow_item : Continues EmitterState.flow_sequence_item Frame.in_sequence true
  flow_key : Continues EmitterState.flow_mapping_key Frame.before_key true
  flow_simple_value : Continues EmitterState.flow_mapping_simple_value Frame.before_value true
  flow_value : Continues EmitterState.flow_mapping_value Frame.before_value true
  block_item : Continues EmitterState.block_sequence_item Frame.in_sequence false
  block_key : Continues EmitterState.block_mapping_key Frame.before_key false
  block_simple_value : Continues EmitterState.block_mapping_simple_value Frame.before_value false
  block_value : Continues EmitterState.block_mapping_value Frame.before_value false

-- States to return to, the open collections, the levels of indentation and the flow level.
pub data Returns : List EmitterState → List Frame → ℕ → ℕ → Type 0 where
  bottom : Returns (EmitterState.document_end ∷ []) [] 0 0
  flow :
      {s : EmitterState} {f : Frame} {ss : List EmitterState} {fs : List Frame} {n fl : ℕ}
      → Continues s f true
      → Returns ss fs n fl
      → Returns (s ∷ ss) (f ∷ fs) (suc n) (suc fl)
  block :
      {s : EmitterState} {f : Frame} {ss : List EmitterState} {fs : List Frame} {n fl : ℕ}
      → Continues s f false
      → Returns ss fs n fl
      → Returns (s ∷ ss) (f ∷ fs) (suc n) fl

-- The state, the stack of states, the place in the grammar, the levels of indentation and of flow.
pub data At : EmitterState → List EmitterState → Phase → ℕ → ℕ → Type 0 where
  before_stream : At EmitterState.stream_start [] Phase.before_stream 0 0
  first_document : At EmitterState.first_document_start [] Phase.between_documents 0 0
  next_document : At EmitterState.document_start [] Phase.between_documents 0 0
  before_root : At EmitterState.document_content [] Phase.before_root 0 0
  after_stream : At EmitterState.end [] Phase.after_stream 0 0
  opening :
      {s : EmitterState} {f : Frame} {style : Bool} {ss : List EmitterState} {fs : List Frame}
      {n fl : ℕ}
      → Opens s f style
      → Returns ss fs n fl
      → At s ss (Phase.in_document (f ∷ fs)) n fl
  inside :
      {s : EmitterState} {ss : List EmitterState} {fs : List Frame} {n fl : ℕ}
      → Returns (s ∷ ss) fs n fl
      → At s ss (Phase.in_document fs) n fl

-- The steps of the grammar outside of documents
pub stream_start_step :
    (k : Encoding)
    → step (EventData.stream_start k) Phase.before_stream ≡ some Phase.between_documents
unfolding step start_stream
stream_start_step k = refl

pub document_start-step :
    (d : DocumentStartEvent)
    → step (EventData.document_start d) Phase.between_documents ≡ some Phase.before_root
unfolding step start_document
document_start-step d = refl

pub stream_end_step : step EventData.stream_end Phase.between_documents ≡ some Phase.after_stream
unfolding step end_stream
stream_end_step = refl

pub document_end_step :
    (b : Bool)
    → step (EventData.document_end b) (Phase.in_document []) ≡ some Phase.between_documents
unfolding step end_document
document_end_step b = refl
