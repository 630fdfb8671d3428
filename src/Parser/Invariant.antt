-- ===== src/Parser/Invariant.antt =====
-- The invariant of the parser between two calls: which states can stand on the stack, how many marks
-- go with them, and the phase of the event grammar that the states stand for.
use port_libyaml.Base.{Bool, true, false, not, ◌&&◌, List, [], ◌∷◌, ◌++◌, some, ◌≡◌, refl, arith}
use port_libyaml.Types.Basics.{Mark, is_error}
use port_libyaml.Types.Events.{Event}
use port_libyaml.Grammar.{Frame, Phase, step}
use port_libyaml.Parser.State.{ParserState, Parser, Outcome, done, failed, fault}

-- What a state is, as the one to go on with when a node is complete: the end of a document, or an
-- open collection, with a mark on the stack of marks or with none.
pub data Role : Type 0 where
  root marked unmarked never : Role

unfoldable pub role : ParserState → Role
role ParserState.document_end = Role.root
role ParserState.block_sequence_entry = Role.marked
role ParserState.indentless_sequence_entry = Role.unmarked
role ParserState.block_mapping_key = Role.marked
role ParserState.block_mapping_value = Role.marked
role ParserState.flow_sequence_entry = Role.marked
role ParserState.flow_sequence_entry_mapping_value = Role.marked
role ParserState.flow_sequence_entry_mapping_end = Role.marked
role ParserState.flow_mapping_key = Role.marked
role ParserState.flow_mapping_value = Role.marked
role ParserState.flow_mapping_empty_value = Role.marked
role _ = Role.never

unfoldable pub is_nil {ℓ} : {A : Type ℓ} → List A → Bool
is_nil [] = true
is_nil (x ∷ xs) = false

-- A mark on the stack, over a stack of marks that `f` accepts.
unfoldable pub marked_over : (List Mark → Bool) → List Mark → Bool
marked_over f [] = false
marked_over f (m ∷ ms) = f ms

-- The state of the head may be gone on with, over a stack of states that is `empty`, and that `f`
-- accepts.
unfoldable pub returns_by : Role → Bool → (List Mark → Bool) → List Mark → Bool
unfolding is_nil marked_over
returns_by Role.root empty f ms = empty && is_nil ms
returns_by Role.marked empty f ms = marked_over f ms
returns_by Role.unmarked empty f ms = f ms
returns_by Role.never empty f ms = false

-- A stack of states that can be popped when a node is complete, and its marks.
unfoldable pub returns : List ParserState → List Mark → Bool
unfolding returns_by role is_nil
returns [] ms = false
returns (s ∷ ss) ms = returns_by (role s) (is_nil ss) (returns ss) ms

-- `ss` holds the state `document_end` alone.
unfoldable pub is_root_stack : List ParserState → Bool
is_root_stack (ParserState.document_end ∷ []) = true
is_root_stack _ = false

unfoldable pub well_formed : ParserState → List ParserState → List Mark → Bool
unfolding returns is_root_stack is_nil marked_over
well_formed ParserState.stream_start ss ms = is_nil ss && is_nil ms
well_formed ParserState.implicit_document_start ss ms = is_nil ss && is_nil ms
well_formed ParserState.document_start ss ms = is_nil ss && is_nil ms
well_formed ParserState.end ss ms = is_nil ss && is_nil ms
well_formed ParserState.document_content ss ms = is_root_stack ss && is_nil ms
well_formed ParserState.block_node ss ms = is_root_stack ss && is_nil ms
well_formed ParserState.block_node_or_indentless_sequence ss ms = false
well_formed ParserState.flow_node ss ms = false
well_formed ParserState.block_sequence_first_entry ss ms = returns ss ms
well_formed ParserState.block_mapping_first_key ss ms = returns ss ms
well_formed ParserState.flow_sequence_first_entry ss ms = returns ss ms
well_formed ParserState.flow_mapping_first_key ss ms = returns ss ms
well_formed ParserState.flow_sequence_entry_mapping_key ss ms = marked_over (returns ss) ms
well_formed s ss ms = returns (s ∷ ss) ms

-- The states that read the head of the queue with no test for NULL.
unfoldable pub is_first : ParserState → Bool
is_first ParserState.block_sequence_first_entry = true
is_first ParserState.block_mapping_first_key = true
is_first ParserState.flow_sequence_first_entry = true
is_first ParserState.flow_mapping_first_key = true
is_first _ = false

-- The collections that a state on the stack stands for, innermost first.
unfoldable pub frames_of : ParserState → List Frame
frames_of ParserState.block_sequence_entry = Frame.in_sequence ∷ []
frames_of ParserState.block_sequence_first_entry = Frame.in_sequence ∷ []
frames_of ParserState.indentless_sequence_entry = Frame.in_sequence ∷ []
frames_of ParserState.block_mapping_first_key = Frame.before_key ∷ []
frames_of ParserState.block_mapping_key = Frame.before_key ∷ []
frames_of ParserState.block_mapping_value = Frame.before_value ∷ []
frames_of ParserState.flow_sequence_first_entry = Frame.in_sequence ∷ []
frames_of ParserState.flow_sequence_entry = Frame.in_sequence ∷ []
frames_of ParserState.flow_sequence_entry_mapping_key = Frame.before_key ∷ Frame.in_sequence ∷ []
frames_of ParserState.flow_sequence_entry_mapping_value =
    Frame.before_value ∷ Frame.in_sequence ∷ []
frames_of ParserState.flow_sequence_entry_mapping_end = Frame.before_key ∷ Frame.in_sequence ∷ []
frames_of ParserState.flow_mapping_first_key = Frame.before_key ∷ []
frames_of ParserState.flow_mapping_key = Frame.before_key ∷ []
frames_of ParserState.flow_mapping_value = Frame.before_value ∷ []
frames_of ParserState.flow_mapping_empty_value = Frame.before_value ∷ []
frames_of _ = []

unfoldable pub frames : List ParserState → List Frame
unfolding frames_of
frames [] = []
frames (s ∷ ss) = frames_of s ++ frames ss

unfoldable pub phase : ParserState → List ParserState → Phase
unfolding frames
phase ParserState.stream_start ss = Phase.before_stream
phase ParserState.implicit_document_start ss = Phase.between_documents
phase ParserState.document_start ss = Phase.between_documents
phase ParserState.end ss = Phase.after_stream
phase ParserState.document_content ss = Phase.before_root
phase ParserState.block_node ss = Phase.before_root
phase s ss = Phase.in_document (frames (s ∷ ss))

pub record Invariant (p : Parser) : Type 0 where
  pub stacks : well_formed p.state p.states p.marks ≡ true
  pub ready : (is_first p.state && is_nil p.tokens) ≡ false

abbrev pub phase_of : Parser → Phase
phase_of p = phase p.state p.states

-- A function returns with `Q`, or fails with an error set; it never faults.
abbrev pub Ensures {ℓ} : {A : Type ℓ} → (A → Parser → Type 0) → Outcome A → Type 0
Ensures Q (done a p) = Q a p
Ensures Q (failed p) = is_error p.error ≡ true
Ensures Q fault = ⊥

-- What a state function may do in the phase `ph`: return an event that the grammar has there, with
-- the invariant kept; or fail with an error set.
abbrev pub Good : Phase → Outcome Event → Type 0
Good ph = Ensures (λ e p. Invariant p × (step e.content ph ≡ some (phase_of p)))

-- The state that is popped from such a stack.
pub record Popped (s : ParserState) (ss : List ParserState) (ms : List Mark) : Type 0 where
  pub stacks : well_formed s ss ms ≡ true
  pub ready : is_first s ≡ false
  pub shown : phase s ss ≡ Phase.in_document (frames (s ∷ ss))

pub returns-Popped :
    (s : ParserState) (ss : List ParserState) (ms : List Mark)
    → returns (s ∷ ss) ms ≡ true
    → Popped s ss ms
unfolding well_formed phase is_first
returns-Popped ParserState.document_end ss ms h = ground arith
returns-Popped _ ss ms h = ground arith

pub record Top (ss : List ParserState) (ms : List Mark) : Type 0 where
  pub top : ParserState
  pub rest : List ParserState
  pub splits : ss ≡ top ∷ rest
  pub popped : Popped top rest ms

pub returns-Top : (ss : List ParserState) (ms : List Mark) → returns ss ms ≡ true → Top ss ms
unfolding returns
returns-Top [] ms h = absurd (ground arith)
returns-Top (s ∷ ss) ms h = record {
  top = s;
  rest = ss;
  splits = refl;
  popped = returns-Popped s ss ms h;
}

-- A step that leaves both stacks alone, with a token at the head of the queue after it.
pub record Kept (p p' : Parser) : Type 0 where
  pub states : p'.states ≡ p.states
  pub marks : p'.marks ≡ p.marks
  pub ready : is_nil p'.tokens ≡ false

abbrev pub Keeps {ℓ} : {A : Type ℓ} → Parser → Outcome A → Type 0
Keeps p = Ensures (λ _ p'. Kept p p')

-- The rule for `>>=` where the second step is the rest of a state function.
pub >>=-Good {ℓ} :
    {A : Type ℓ} (ph : Phase) (Q : A → Parser → Type 0) (r : Outcome A)
    (f : A → Parser → Outcome Event)
    → Ensures Q r
    → ((a : A) (p : Parser) → Q a p → Good ph (f a p))
    → Good ph (elim r [ done a p ↦ f a p | failed p ↦ failed p | fault ↦ fault ])
>>=-Good ph Q (done a p) f k g = g a p k
>>=-Good ph Q (failed p) f k g = k
>>=-Good ph Q fault f k g = k

-- A step that puts a state on the stack and changes nothing else that matters here.
pub record Pushed (s : ParserState) (p p' : Parser) : Type 0 where
  pub states : p'.states ≡ s ∷ p.states
  pub marks : p'.marks ≡ p.marks

-- A step that leaves both stacks alone.
pub record Same (p p' : Parser) : Type 0 where
  pub states : p'.states ≡ p.states
  pub marks : p'.marks ≡ p.marks

-- What stands when the current token of a collection has been looked at: the stack of states as it
-- was, a mark for the collection over those of the stack, and a token in the queue.
pub record Inside (p p' : Parser) : Type 0 where
  pub states : p'.states ≡ p.states
  pub marks : marked_over (returns p.states) p'.marks ≡ true
  pub ready : is_nil p'.tokens ≡ false

-- What the state functions that take `first` find: before the opening token, or behind it.
unfoldable pub openable : Bool → Parser → Bool
unfolding returns marked_over is_nil
openable true p = returns p.states p.marks && not (is_nil p.tokens)
openable false p = marked_over (returns p.states) p.marks

-- The mark of a collection, and what stands under it.
pub record Enclosed (ss : List ParserState) (ms : List Mark) : Type 0 where
  pub mark : Mark
  pub outer : List Mark
  pub splits : ms ≡ mark ∷ outer
  pub top : Top ss outer

pub marked_over-Enclosed :
    (ss : List ParserState) (ms : List Mark) → marked_over (returns ss) ms ≡ true → Enclosed ss ms
unfolding marked_over
marked_over-Enclosed ss [] h = absurd (ground arith)
marked_over-Enclosed ss (m ∷ ms) h = record {
  mark = m;
  outer = ms;
  splits = refl;
  top = returns-Top ss ms h;
}

-- The rule for `>>=` in general.
pub >>=-Ensures {ℓ κ} :
    {A : Type ℓ} {B : Type κ} (Q : A → Parser → Type 0) (P : B → Parser → Type 0) (r : Outcome A)
    (f : A → Parser → Outcome B)
    → Ensures Q r
    → ((a : A) (p : Parser) → Q a p → Ensures P (f a p))
    → Ensures P (elim r [ done a p ↦ f a p | failed p ↦ failed p | fault ↦ fault ])
>>=-Ensures Q P (done a p) f k g = g a p k
>>=-Ensures Q P (failed p) f k g = k
>>=-Ensures Q P fault f k g = k
