-- ===== src/Loader/Compose.antt =====
-- The composer functions of original/src/loader.c.
use port_libyaml.Base.{
  ℕ, ◌-◌, Bool, true, false, not, ◌&&◌, List, [], ◌∷◌, ◌++◌, Option, none, some, Bytes, length,
  get_elem?, set, ◌==◌, strcmp_eq, if◌then◌else◌,
}
use port_libyaml.Types.Basics.{Mark}
use port_libyaml.Types.Events.{
  Event, EventData, ScalarEvent, SequenceStartEvent, MappingStartEvent, DocumentStartEvent,
}
use port_libyaml.Parser.Directives.{yaml_prefix}
use port_libyaml.Parser.Node.{is_bang}
use port_libyaml.Loader.State.{
  NodeData, Node, AliasData, Loader, Loaded, and_then, allocate, require, stack_limit, push_node,
  push_alias, push_ctx, set_composer_error, set_composer_error_context,
}

-- The loop over parser->aliases: the first entry with this anchor.
unfoldable pub find_alias : Bytes → List AliasData → Option AliasData
unfolding strcmp_eq
find_alias anchor [] = none
find_alias anchor (d ∷ ds) =
    let rest = find_alias anchor ds in if strcmp_eq d.anchor anchor then some d else rest

-- A new entry with the mark of its node, unless there is one with the same anchor.
unfoldable pub add_anchor : ℕ → Bytes → Mark → Loader → Loaded
unfolding find_alias push_alias set_composer_error_context
add_anchor index anchor mark l = elim (find_alias anchor l.aliases) [
  | some d ↦
      set_composer_error_context "found duplicate anchor; first occurrence" d.mark
        "second occurrence" mark l
  | none ↦ push_alias (record { anchor = anchor; index = index; mark = mark }) l
]

unfoldable pub register_anchor : ℕ → Option Bytes → Loader → Loaded
unfolding add_anchor
register_anchor index none l = Loaded.done l
register_anchor index (some anchor) l = elim (get_elem? l.nodes (index - 1)) [
  | none ↦ Loaded.fault
  | some node ↦ add_anchor index anchor node.start_mark l
]

-- The value of the last pair, where it is missing.
unfoldable pub complete_pair : ℕ → List (ℕ × ℕ) → Option (List (ℕ × ℕ))
complete_pair index [] = none
complete_pair index ((k, v) ∷ []) = if not (k == 0) && v == 0 then some ((k, index) ∷ []) else none
complete_pair index (p ∷ q ∷ ps) = elim (complete_pair index (q ∷ ps)) [
  | none ↦ none
  | some qs ↦ some (p ∷ qs)
]

unfoldable pub write_node : ℕ → Node → NodeData → Loader → Loaded
write_node at node content l =
    Loaded.done (record l { nodes = set l.nodes (at - 1) (record node { content = content }) })

-- The parent `node`, at the index `at`, takes the child `index`.
unfoldable pub add_child : ℕ → Node → NodeData → ℕ → Loader → Loaded
unfolding stack_limit require complete_pair write_node
add_child at node (NodeData.sequence items style) index l =
    and_then (stack_limit (length items) l) λ l'.
      and_then (require l') (write_node at node (NodeData.sequence (items ++ index ∷ []) style))
add_child at node (NodeData.mapping pairs style) index l = elim (complete_pair index pairs) [
  | some pairs' ↦ write_node at node (NodeData.mapping pairs' style) l
  | none ↦ and_then (stack_limit (length pairs) l) λ l'.
      and_then (require l') (write_node at node (NodeData.mapping (pairs ++ (index, 0) ∷ []) style))
]
add_child at node (NodeData.scalar value style) index l = Loaded.fault

unfoldable pub load_node_add : ℕ → Loader → Loaded
unfolding add_child
load_node_add index l = elim l.ctx [
  | [] ↦ Loaded.done l
  | parent ∷ ctx ↦ elim (get_elem? l.nodes (parent - 1)) [
    | none ↦ Loaded.fault
    | some node ↦ add_child parent node node.content index l
  ]
]

unfoldable pub load_alias : Bytes → Mark → Loader → Loaded
unfolding find_alias load_node_add set_composer_error
load_alias anchor start_mark l = elim (find_alias anchor l.aliases) [
  | some d ↦ load_node_add d.index l
  | none ↦ set_composer_error "found undefined alias" start_mark l
]

-- YAML_DEFAULT_SCALAR_TAG, YAML_DEFAULT_SEQUENCE_TAG and YAML_DEFAULT_MAPPING_TAG
abbrev pub default_scalar_tag : Bytes
default_scalar_tag = yaml_prefix ++ b's' ∷ b't' ∷ b'r' ∷ []

abbrev pub default_sequence_tag : Bytes
default_sequence_tag = yaml_prefix ++ b's' ∷ b'e' ∷ b'q' ∷ []

abbrev pub default_mapping_tag : Bytes
default_mapping_tag = yaml_prefix ++ b'm' ∷ b'a' ∷ b'p' ∷ []

-- The tag of a node, with what follows: a copy of the default where there is none or it is "!". A
-- failure of yaml_strdup is `goto error`, which sets no error.
unfoldable pub with_tag : Bytes → Option Bytes → (Bytes → Loader → Loaded) → Loader → Loaded
unfolding is_bang allocate
with_tag default none k l = allocate (k default) Loaded.failed l
with_tag default (some tag) k l =
    if is_bang (some tag) then allocate (k default) Loaded.failed l else k tag l

-- The new node is pushed, its anchor registered, and it is put into its parent; `k` is what follows,
-- with the index of the node.
unfoldable pub add_node : Node → Option Bytes → (ℕ → Loader → Loaded) → Loader → Loaded
unfolding push_node register_anchor load_node_add
add_node node anchor k l = and_then (push_node node l) λ l₁.
    let index = length l₁.nodes in
    and_then (register_anchor index anchor l₁) λ l₂. and_then (load_node_add index l₂) (k index)

unfoldable pub load_scalar : ScalarEvent → Mark → Mark → Loader → Loaded
unfolding stack_limit with_tag add_node
load_scalar event start_mark end_mark l = and_then (stack_limit (length l.nodes) l) (
    with_tag default_scalar_tag event.tag λ tag.
      add_node
        (record {
          tag = tag;
          content = NodeData.scalar event.value event.style;
          start_mark = start_mark;
          end_mark = end_mark;
        })
        event.anchor (λ index. Loaded.done))

-- "if (!STACK_LIMIT(parser, *ctx, INT_MAX-1)) return 0; if (!PUSH(parser, *ctx, index)) return 0;"
unfoldable pub open_node : ℕ → Loader → Loaded
unfolding stack_limit push_ctx
open_node index l = and_then (stack_limit (length l.ctx) l) (push_ctx index)

-- A collection with no children yet. The first allocation is that of its children's stack.
unfoldable pub load_collection :
    Bytes → Option Bytes → Option Bytes → NodeData → Mark → Mark → Loader → Loaded
unfolding stack_limit with_tag require add_node open_node
load_collection default tag anchor content start_mark end_mark l =
    and_then (stack_limit (length l.nodes) l) (
      with_tag default tag λ tag' l₁. and_then (require l₁) (
        add_node
          (record { tag = tag'; content = content; start_mark = start_mark; end_mark = end_mark })
          anchor open_node))

unfoldable pub load_sequence : SequenceStartEvent → Mark → Mark → Loader → Loaded
unfolding load_collection
load_sequence event start_mark end_mark =
    load_collection default_sequence_tag event.tag event.anchor (NodeData.sequence [] event.style)
      start_mark end_mark

unfoldable pub load_mapping : MappingStartEvent → Mark → Mark → Loader → Loaded
unfolding load_collection
load_mapping event start_mark end_mark =
    load_collection default_mapping_tag event.tag event.anchor (NodeData.mapping [] event.style)
      start_mark end_mark

unfoldable pub is_sequence : NodeData → Bool
is_sequence (NodeData.sequence items style) = true
is_sequence _ = false

unfoldable pub is_mapping : NodeData → Bool
is_mapping (NodeData.mapping pairs style) = true
is_mapping _ = false

-- The open collection is of the right kind; it gets its end, and leaves the stack.
unfoldable pub end_collection : (NodeData → Bool) → Mark → Loader → Loaded
end_collection right end_mark l = elim l.ctx [
  | [] ↦ Loaded.fault
  | index ∷ ctx ↦ elim (get_elem? l.nodes (index - 1)) [
    | none ↦ Loaded.fault
    | some node ↦
        if right node.content
        then Loaded.done (record l {
          nodes = set l.nodes (index - 1) (record node { end_mark = end_mark });
          ctx = ctx;
        })
        else Loaded.fault
  ]
]

unfoldable pub load_sequence_end : Mark → Loader → Loaded
unfolding end_collection is_sequence
load_sequence_end = end_collection is_sequence

unfoldable pub load_mapping_end : Mark → Loader → Loaded
unfolding end_collection is_mapping
load_mapping_end = end_collection is_mapping

-- The switch over the event's type, but for DOCUMENT-END
unfoldable pub load_event : EventData → Mark → Mark → Loader → Loaded
unfolding load_alias load_scalar load_sequence load_sequence_end load_mapping load_mapping_end
load_event (EventData.alias anchor) start_mark end_mark = load_alias anchor start_mark
load_event (EventData.scalar event) start_mark end_mark = load_scalar event start_mark end_mark
load_event (EventData.sequence_start event) start_mark end_mark =
    load_sequence event start_mark end_mark
load_event EventData.sequence_end start_mark end_mark = load_sequence_end end_mark
load_event (EventData.mapping_start event) start_mark end_mark =
    load_mapping event start_mark end_mark
load_event EventData.mapping_end start_mark end_mark = load_mapping_end end_mark
load_event _ start_mark end_mark = λ l. Loaded.fault

abbrev pub document_end_of : EventData → Option Bool
document_end_of (EventData.document_end implicit) = some implicit
document_end_of _ = none

-- The loop over the events that yaml_parser_parse returns; it fails after the last.
unfoldable pub load_nodes : List Event → Loader → Loaded
unfolding load_event
load_nodes [] l = Loaded.failed l
load_nodes (event ∷ events) l = elim (document_end_of event.content) [
  | some implicit ↦ Loaded.done (record l {
    document = record l.document { end_implicit = implicit; end_mark = event.end_mark };
  })
  | none ↦ and_then (load_event event.content event.start_mark event.end_mark l) (load_nodes events)
]

-- A document from its DOCUMENT-START event on.
unfoldable pub load_document : DocumentStartEvent → Mark → List Event → Loader → Loaded
unfolding require load_nodes
load_document event start_mark events l =
    and_then
      (require (record l {
        document = record l.document {
          version_directive = event.version_directive;
          tag_directives = event.tag_directives;
          start_implicit = event.implicit;
          start_mark = start_mark;
        };
      }))
      (λ l'. load_nodes events (record l' { ctx = [] }))
