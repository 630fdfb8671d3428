-- ===== src/Loader/State.antt =====
-- The state that original/src/loader.c works on: the document (original/include/yaml.h), the
-- parser's table of anchors, and the stack of open collections; and its error setters.
use Prim.Native.String.{String}
use port_libyaml.Base.{ℕ, ◌-◌, Bool, List, [], ◌∷◌, ◌++◌, Option, some, Bytes, ltb, if◌then◌else◌}
use port_libyaml.Types.Basics.{
  ErrorType, Mark, VersionDirective, TagDirective, ScalarStyle, SequenceStyle, MappingStyle,
}

-- yaml_node_t; items, keys and values are indices of nodes, from 1 on, and a value that is still
-- missing is 0.
pub data NodeData : Type 0 where
  scalar : Bytes → ScalarStyle → NodeData
  sequence : List ℕ → SequenceStyle → NodeData
  mapping : List (ℕ × ℕ) → MappingStyle → NodeData

pub record Node : Type 0 where
  pub tag : Bytes
  pub content : NodeData
  pub start_mark : Mark
  pub end_mark : Mark

-- yaml_alias_data_t
pub record AliasData : Type 0 where
  pub anchor : Bytes
  pub index : ℕ
  pub mark : Mark

-- yaml_document_t, but for its nodes
pub record Document : Type 0 where
  pub version_directive : Option VersionDirective
  pub tag_directives : List TagDirective
  pub start_implicit : Bool
  pub end_implicit : Bool
  pub start_mark : Mark
  pub end_mark : Mark

-- `nodes` and `aliases` have the bottom of the stack first, `ctx` its top. `memory` says which of the
-- next allocations succeed; past its end all do.
pub record Loader : Type 0 where
  pub nodes : List Node
  pub aliases : List AliasData
  pub ctx : List ℕ
  pub document : Document
  pub memory : List Bool
  pub error : ErrorType
  pub problem : Option String
  pub problem_mark : Option Mark
  pub context : Option String
  pub context_mark : Option Mark

-- `return 1`, `return 0`, and a failed assertion or a node that is not there.
pub data Loaded : Type 0 where
  done failed : Loader → Loaded
  fault : Loaded

-- `if (!f(...)) return 0;`, and what follows it
abbrev pub and_then : Loaded → (Loader → Loaded) → Loaded
and_then (Loaded.done l) f = f l
and_then (Loaded.failed l) f = Loaded.failed l
and_then Loaded.fault f = Loaded.fault

-- INT_MAX
abbrev pub int_max : ℕ
int_max = 2147483647

unfoldable pub memory_error : Loader → Loaded
memory_error l = Loaded.failed (record l { error = ErrorType.memory_error })

-- STACK_LIMIT(parser, stack, INT_MAX-1), for a stack with so many elements
unfoldable pub stack_limit : ℕ → Loader → Loaded
unfolding memory_error
stack_limit size l = if ltb size (int_max - 1) then Loaded.done l else memory_error l

-- An allocation: what follows its success, and what follows its failure.
unfoldable pub allocate : (Loader → Loaded) → (Loader → Loaded) → Loader → Loaded
allocate given refused l = elim l.memory [
  | [] ↦ given l
  | b ∷ m ↦ let l' = record l { memory = m } in if b then given l' else refused l'
]

-- The allocation of STACK_INIT or PUSH
unfoldable pub require : Loader → Loaded
unfolding allocate memory_error
require = allocate Loaded.done memory_error

unfoldable pub push_node : Node → Loader → Loaded
unfolding require
push_node node l =
    and_then (require l) (λ l'. Loaded.done (record l' { nodes = l'.nodes ++ node ∷ [] }))

unfoldable pub push_alias : AliasData → Loader → Loaded
unfolding require
push_alias d l =
    and_then (require l) (λ l'. Loaded.done (record l' { aliases = l'.aliases ++ d ∷ [] }))

unfoldable pub push_ctx : ℕ → Loader → Loaded
unfolding require
push_ctx index l = and_then (require l) (λ l'. Loaded.done (record l' { ctx = index ∷ l'.ctx }))

unfoldable pub set_composer_error : String → Mark → Loader → Loaded
set_composer_error problem problem_mark l = Loaded.failed (record l {
  error = ErrorType.composer_error;
  problem = some problem;
  problem_mark = some problem_mark;
})

unfoldable pub set_composer_error_context : String → Mark → String → Mark → Loader → Loaded
set_composer_error_context context context_mark problem problem_mark l = Loaded.failed (record l {
  error = ErrorType.composer_error;
  context = some context;
  context_mark = some context_mark;
  problem = some problem;
  problem_mark = some problem_mark;
})
