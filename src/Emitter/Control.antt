-- ===== src/Emitter/Control.antt =====
-- yaml_emitter_t (original/include/yaml.h) but for its output, and the error setter, the stacks and
-- the queue of original/src/emitter.c.
use Prim.Native.String.{String}
use port_libyaml.Base.{
  ℕ, ◌+◌, Bool, ◌&&◌, List, [], ◌∷◌, ◌++◌, Option, none, some, Bytes, if◌then◌else◌,
}
use port_libyaml.Types.Basics.{ErrorType, TagDirective, ScalarStyle}
use port_libyaml.Types.Events.{EventData}
use port_libyaml.Emitter.State.{Outcome, Op, ◌>>◌, Output, W}

-- yaml_emitter_state_t
pub data EmitterState : Type 0 where
  stream_start first_document_start document_start document_content document_end : EmitterState
  flow_sequence_first_item flow_sequence_item : EmitterState
  flow_mapping_first_key flow_mapping_key flow_mapping_simple_value flow_mapping_value :
      EmitterState
  block_sequence_first_item block_sequence_item : EmitterState
  block_mapping_first_key block_mapping_key block_mapping_simple_value block_mapping_value :
      EmitterState
  end : EmitterState

-- "Anchor analysis", "Tag analysis" and "Scalar analysis". The lengths are those of the strings, 0
-- for NULL.
pub record AnchorData : Type 0 where
  pub anchor : Option Bytes
  pub alias : Bool

pub record TagData : Type 0 where
  pub handle : Option Bytes
  pub suffix : Option Bytes

pub record ScalarData : Type 0 where
  pub value : Bytes
  pub multiline : Bool
  pub flow_plain_allowed : Bool
  pub block_plain_allowed : Bool
  pub single_quoted_allowed : Bool
  pub block_allowed : Bool
  pub style : ScalarStyle

-- `states` and `indents` have their top first, `tag_directives` its bottom, `events` the head of the
-- queue. `memory` says which of the next allocations succeed; past its end all do.
pub record Emitter : Type 0 where
  pub output : Output
  pub memory : List Bool
  pub states : List EmitterState
  pub state : EmitterState
  pub events : List EventData
  pub indents : List (Option ℕ)
  pub tag_directives : List TagDirective
  pub flow_level : ℕ
  pub root_context : Bool
  pub sequence_context : Bool
  pub mapping_context : Bool
  pub simple_key_context : Bool
  pub anchor_data : AnchorData
  pub tag_data : TagData
  pub scalar_data : ScalarData

abbrev pub E : Type 0
E = Op Emitter

-- A function that works on the output alone.
abbrev pub writing : W → E
writing m e = elim (m e.output) [
  | Outcome.done o ↦ Outcome.done (record e { output = o })
  | Outcome.failed o ↦ Outcome.failed (record e { output = o })
  | Outcome.fault ↦ Outcome.fault
]

-- The error stands with the writer's.
unfoldable pub set_error : ErrorType → Option String → Output → Output
set_error error problem o = record o {
  writer = record (o.writer) { error = error; problem = problem };
}

unfoldable pub set_emitter_error : String → E
unfolding set_error
set_emitter_error problem e =
    Outcome.failed (record e { output = set_error ErrorType.emitter_error (some problem) e.output })

-- The macro leaves `problem` alone.
unfoldable pub memory_error : E
unfolding set_error
memory_error e =
    Outcome.failed
      (record e { output = set_error ErrorType.memory_error e.output.writer.problem e.output })

unfoldable pub require : E
unfolding memory_error
require e = elim e.memory [
  | [] ↦ Outcome.done e
  | b ∷ m ↦ let e' = record e { memory = m } in if b then Outcome.done e' else memory_error e'
]

unfoldable pub push_state : EmitterState → E
unfolding require
push_state s = do require; λ e. Outcome.done (record e { states = s ∷ e.states })

-- emitter->state = POP(emitter, emitter->states)
unfoldable pub pop_state : E
pop_state e = elim e.states [
  | [] ↦ Outcome.fault
  | s ∷ ss ↦ Outcome.done (record e { state = s; states = ss })
]

unfoldable pub set_state : EmitterState → E
set_state s e = Outcome.done (record e { state = s })

unfoldable pub set_indent : Option ℕ → Output → Output
set_indent indent o = record o { indent = indent }

-- emitter->indent = POP(emitter, emitter->indents)
unfoldable pub pop_indent : E
unfolding set_indent
pop_indent e = elim e.indents [
  | [] ↦ Outcome.fault
  | i ∷ is ↦ Outcome.done (record e { indents = is; output = set_indent i e.output })
]

unfoldable pub new_indent : Bool → Bool → Output → Option ℕ
new_indent flow indentless o = elim o.indent [
  | none ↦ if flow then some o.best_indent else some 0
  | some n ↦ if indentless then some n else some (n + o.best_indent)
]

unfoldable pub increase_indent : Bool → Bool → E
unfolding require set_indent new_indent
increase_indent flow indentless = do
  require
  λ e. Outcome.done (record e {
    indents = e.output.indent ∷ e.indents;
    output = set_indent (new_indent flow indentless e.output) e.output;
  })

-- The two calls of yaml_strdup, both of which are made.
unfoldable pub duplicate : E
unfolding memory_error
duplicate e = elim e.memory [
  | [] ↦ Outcome.done e
  | b ∷ [] ↦ let e' = record e { memory = [] } in if b then Outcome.done e' else memory_error e'
  | b ∷ c ∷ m ↦
      let e' = record e { memory = m } in if b && c then Outcome.done e' else memory_error e'
]

unfoldable pub push_tag_directive : TagDirective → E
unfolding duplicate require
push_tag_directive d = do
  duplicate
  require
  λ e. Outcome.done (record e { tag_directives = e.tag_directives ++ (d ∷ []) })

unfoldable pub enqueue : EventData → E
unfolding require
enqueue event = do require; λ e. Outcome.done (record e { events = e.events ++ (event ∷ []) })
