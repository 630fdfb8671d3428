-- ===== src/Grammar.antt =====
-- The grammar of events that original/include/yaml.h documents and that the loader and the emitter
-- rely on: a stream of documents, each with one root node; in a mapping keys and values alternate.
use port_libyaml.Base.{List, [], ◌∷◌, Option, none, some}
use port_libyaml.Types.Events.{EventData}

-- What an open collection waits for.
pub data Frame : Type 0 where
  in_sequence before_key before_value : Frame

-- Where a prefix of the events has got to. `in_document []` has its root, complete.
pub data Phase : Type 0 where
  before_stream between_documents before_root after_stream : Phase
  in_document : List Frame → Phase

-- A complete node, or the start of a collection, takes the next place of the innermost collection.
unfoldable pub take_place : Phase → Option (List Frame)
take_place Phase.before_root = some []
take_place (Phase.in_document (Frame.in_sequence ∷ fs)) = some (Frame.in_sequence ∷ fs)
take_place (Phase.in_document (Frame.before_key ∷ fs)) = some (Frame.before_value ∷ fs)
take_place (Phase.in_document (Frame.before_value ∷ fs)) = some (Frame.before_key ∷ fs)
take_place _ = none

unfoldable pub node : Phase → Option Phase
unfolding take_place
node ph = elim (take_place ph) [ none ↦ none | some fs ↦ some (Phase.in_document fs) ]

unfoldable pub open_with : Frame → Phase → Option Phase
unfolding take_place
open_with f ph = elim (take_place ph) [ none ↦ none | some fs ↦ some (Phase.in_document (f ∷ fs)) ]

unfoldable pub end_sequence : Phase → Option Phase
end_sequence (Phase.in_document (Frame.in_sequence ∷ fs)) = some (Phase.in_document fs)
end_sequence _ = none

unfoldable pub end_mapping : Phase → Option Phase
end_mapping (Phase.in_document (Frame.before_key ∷ fs)) = some (Phase.in_document fs)
end_mapping _ = none

unfoldable pub start_stream : Phase → Option Phase
start_stream Phase.before_stream = some Phase.between_documents
start_stream _ = none

unfoldable pub end_stream : Phase → Option Phase
end_stream Phase.between_documents = some Phase.after_stream
end_stream _ = none

unfoldable pub start_document : Phase → Option Phase
start_document Phase.between_documents = some Phase.before_root
start_document _ = none

unfoldable pub end_document : Phase → Option Phase
end_document (Phase.in_document []) = some Phase.between_documents
end_document _ = none

-- The phase after an event, `none` where the grammar has no such event.
unfoldable pub step : EventData → Phase → Option Phase
unfolding node open_with end_sequence end_mapping start_stream end_stream start_document
    end_document
step EventData.no_event ph = none
step EventData.stream_end ph = end_stream ph
step EventData.sequence_end ph = end_sequence ph
step EventData.mapping_end ph = end_mapping ph
step (EventData.stream_start _) ph = start_stream ph
step (EventData.document_start _) ph = start_document ph
step (EventData.document_end _) ph = end_document ph
step (EventData.alias _) ph = node ph
step (EventData.scalar _) ph = node ph
step (EventData.sequence_start _) ph = open_with Frame.in_sequence ph
step (EventData.mapping_start _) ph = open_with Frame.before_key ph

-- The phase after a list of events.
unfoldable pub steps : List EventData → Phase → Option Phase
unfolding step
steps [] ph = some ph
steps (e ∷ es) ph = elim (step e ph) [ none ↦ none | some ph' ↦ steps es ph' ]
