-- ===== src/Parser/State.antt =====
-- The parser's part of yaml_parser_t (original/include/yaml.h), the macros PUSH, POP, PEEK_TOKEN and
-- SKIP_TOKEN, and the error setters of original/src/parser.c.
use Prim.Native.String.{String}
use port_libyaml.Base.{
  ℕ, ◌+◌, ◌%◌, ◌^◌, Bool, true, false, List, [], ◌∷◌, ◌++◌, Option, some, if◌then◌else◌,
}
use port_libyaml.Types.Basics.{ErrorType, Mark, TagDirective}
use port_libyaml.Types.Tokens.{Token, TokenType, is}

pub data ParserState : Type 0 where
  stream_start implicit_document_start document_start document_content : ParserState
  document_end block_node block_node_or_indentless_sequence flow_node : ParserState
  block_sequence_first_entry block_sequence_entry indentless_sequence_entry : ParserState
  block_mapping_first_key block_mapping_key block_mapping_value : ParserState
  flow_sequence_first_entry flow_sequence_entry : ParserState
  flow_sequence_entry_mapping_key flow_sequence_entry_mapping_value : ParserState
  flow_sequence_entry_mapping_end flow_mapping_first_key flow_mapping_key : ParserState
  flow_mapping_value flow_mapping_empty_value end : ParserState

-- `tokens` are those that the scanner has still to hand over, the queue's head first: after the last
-- one yaml_parser_fetch_more_tokens fails. `memory` says which of the next allocations succeed; past
-- its end all do. The stacks `states` and `marks` have their top first, `tag_directives` its bottom.
pub record Parser : Type 0 where
  pub tokens : List Token
  pub memory : List Bool
  pub error : ErrorType
  pub problem : Option String
  pub problem_mark : Option Mark
  pub context : Option String
  pub context_mark : Option Mark
  pub token_available : Bool
  pub tokens_parsed : ℕ
  pub stream_end_produced : Bool
  pub states : List ParserState
  pub state : ParserState
  pub marks : List Mark
  pub tag_directives : List TagDirective

-- `done` for a result, `failed` for `return 0`, and `fault` for what C leaves undefined: a pop of an
-- empty stack, a null token that is read, and a token taken from an empty queue.
pub data Outcome {ℓ} (A : Type ℓ) : Type ℓ where
  done : A → Parser → Outcome A
  failed : Parser → Outcome A
  fault : Outcome A

abbrev pub M {ℓ} : Type ℓ → Type ℓ
M A = Parser → Outcome A

infixl 5 ◌>>=◌ ◌>>◌
abbrev pub ◌>>=◌ {ℓ κ} : {A : Type ℓ} {B : Type κ} → M A → (A → M B) → M B
◌>>=◌ m f p = elim (m p) [ done a p' ↦ f a p' | failed p' ↦ failed p' | fault ↦ fault ]

abbrev pub ◌>>◌ {ℓ} : {B : Type ℓ} → M (Unit {0}) → M B → M B
m >> k = m >>= λ _. k

abbrev pub pure {ℓ} : {A : Type ℓ} → A → M A
pure a p = done a p

abbrev pub set_state : ParserState → M (Unit {0})
set_state s p = done tt (record p { state = s })

abbrev pub size_t_mod : ℕ
size_t_mod = 2 ^ 64

-- One allocation: does it succeed?
unfoldable pub allocate : M Bool
allocate p = elim p.memory [ [] ↦ done true p | b ∷ m ↦ done b (record p { memory = m }) ]

unfoldable pub memory_error {ℓ} : {A : Type ℓ} → M A
memory_error p = failed (record p { error = ErrorType.memory_error })

-- An allocation whose failure ends the function.
unfoldable pub require : M (Unit {0})
unfolding allocate memory_error
require p = elim (allocate p) [
  | done b p' ↦ if b then done tt p' else memory_error p'
  | failed p' ↦ failed p'
  | fault ↦ fault
]

-- PUSH(parser, parser->states, s), with the allocation of yaml_stack_extend
unfoldable pub push_state : ParserState → M (Unit {0})
unfolding require
push_state s = do require; λ p. done tt (record p { states = s ∷ p.states })

unfoldable pub push_mark : Mark → M (Unit {0})
unfolding require
push_mark m = do require; λ p. done tt (record p { marks = m ∷ p.marks })

unfoldable pub push_tag_directive : TagDirective → M (Unit {0})
unfolding require
push_tag_directive d = do
  require
  λ p. done tt (record p { tag_directives = p.tag_directives ++ (d ∷ []) })

-- parser->state = POP(parser, parser->states)
unfoldable pub pop_state : M (Unit {0})
pop_state p = elim p.states [ [] ↦ fault | s ∷ ss ↦ done tt (record p { state = s; states = ss }) ]

unfoldable pub pop_mark : M Mark
pop_mark p = elim p.marks [ [] ↦ fault | m ∷ ms ↦ done m (record p { marks = ms }) ]

-- token = PEEK_TOKEN(parser); if (!token) return 0;
unfoldable pub peek_token : M Token
peek_token p = elim p.tokens [
  | [] ↦ failed (record p { error = ErrorType.scanner_error })
  | t ∷ ts ↦ done t (record p { token_available = true })
]

-- token = PEEK_TOKEN(parser), where the token is then read with no test for NULL
unfoldable pub peek_token_unchecked : M Token
peek_token_unchecked p = elim p.tokens [
  | [] ↦ fault
  | t ∷ ts ↦ done t (record p { token_available = true })
]

unfoldable pub skip_token : M (Unit {0})
unfolding is
skip_token p = elim p.tokens [
  | [] ↦ fault
  | t ∷ ts ↦ done tt (record p {
    tokens = ts;
    token_available = false;
    tokens_parsed = (p.tokens_parsed + 1) % size_t_mod;
    stream_end_produced = is TokenType.stream_end t;
  })
]

unfoldable pub set_parser_error {ℓ} : {A : Type ℓ} → String → Mark → M A
set_parser_error problem problem_mark p = failed (record p {
  error = ErrorType.parser_error;
  problem = some problem;
  problem_mark = some problem_mark;
})

unfoldable pub set_parser_error_context {ℓ} : {A : Type ℓ} → String → Mark → String → Mark → M A
set_parser_error_context context context_mark problem problem_mark p = failed (record p {
  error = ErrorType.parser_error;
  context = some context;
  context_mark = some context_mark;
  problem = some problem;
  problem_mark = some problem_mark;
})
