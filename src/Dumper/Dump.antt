-- ===== src/Dumper/Dump.antt =====
-- yaml_emitter_open, yaml_emitter_close, yaml_emitter_dump and the functions that serialize a node
-- (original/src/dumper.c). The document is an argument: it does not change until it is deleted.
use port_libyaml.Base.{
  ℕ, zero, suc, ◌+◌, Bool, true, false, not, List, [], ◌∷◌, Option, none, some, Bytes, map, length,
  strcmp_eq, if◌then◌else◌,
}
use port_libyaml.Types.Basics.{Encoding, ScalarStyle}
use port_libyaml.Types.Events.{EventData}
use port_libyaml.Loader.State.{NodeData, Node, Document}
use port_libyaml.Loader.Compose.{default_scalar_tag, default_sequence_tag, default_mapping_tag}
use port_libyaml.Emitter.State.{Outcome, Op, ◌>>◌, when, fail}
use port_libyaml.Emitter.Control.{Emitter}
use port_libyaml.Emitter.Queue.{emit}
use port_libyaml.Dumper.Anchors.{
  AnchorInfo, entry, children, set_info, anchor_node, generate_anchor,
}

-- The fields of yaml_emitter_t that only the dumper uses, beside the emitter's. `anchors` is `none`
-- for NULL.
pub record Dumper : Type 0 where
  pub emitter : Emitter
  pub opened : Bool
  pub closed : Bool
  pub anchors : Option (List AnchorInfo)
  pub last_anchor_id : ℕ

abbrev pub D : Type 0
D = Op Dumper

-- yaml_emitter_emit
unfoldable pub issue : EventData → D
unfolding emit
issue event d = elim (emit event d.emitter) [
  | Outcome.done e ↦ Outcome.done (record d { emitter = e })
  | Outcome.failed e ↦ Outcome.failed (record d { emitter = e })
  | Outcome.fault ↦ Outcome.fault
]

-- yaml_malloc, whose failure sets no error
unfoldable pub allocate : D
allocate d = elim d.emitter.memory [
  | [] ↦ Outcome.done d
  | b ∷ m ↦
      let d' = record d { emitter = record (d.emitter) { memory = m } } in
      if b then Outcome.done d' else Outcome.failed d'
]

unfoldable pub open_stream : D
unfolding issue
open_stream d =
    if d.opened
    then Outcome.fault
    else (do
      issue (EventData.stream_start Encoding.any_encoding)
      λ d'. Outcome.done (record d' { opened = true }))
        d

unfoldable pub close_stream : D
unfolding issue
close_stream d =
    if not d.opened
    then Outcome.fault
    else if d.closed
    then Outcome.done d
    else (do issue EventData.stream_end; λ d'. Outcome.done (record d' { closed = true })) d

-- yaml_emitter_delete_document_and_anchors, but for the memory that it frees
unfoldable pub delete_document_and_anchors : Dumper → Dumper
delete_document_and_anchors d = elim d.anchors [
  | none ↦ d
  | some anchors ↦ record d { anchors = none; last_anchor_id = 0 }
]

-- `goto error`, and the deletion at the end of a success
unfoldable pub deleting : D → D
unfolding delete_document_and_anchors
deleting m d = elim (m d) [
  | Outcome.done d' ↦ Outcome.done (delete_document_and_anchors d')
  | Outcome.failed d' ↦ Outcome.failed (delete_document_and_anchors d')
  | Outcome.fault ↦ Outcome.fault
]

-- An alias without an anchor is a read at NULL.
unfoldable pub dump_alias : Option Bytes → D
unfolding issue
dump_alias none = fail
dump_alias (some anchor) = issue (EventData.alias anchor)

unfoldable pub dump_scalar : Option Bytes → Bytes → Bytes → ScalarStyle → D
unfolding issue strcmp_eq
dump_scalar anchor tag value style =
    let implicit = strcmp_eq tag default_scalar_tag in
    issue (
      EventData.scalar (record {
        anchor = anchor;
        tag = some tag;
        value = value;
        plain_implicit = implicit;
        quoted_implicit = implicit;
        style = style;
      }))

-- The loop over the children, whose body is the recursive call
unfoldable pub dump_each : (ℕ → D) → List ℕ → D
dump_each visit [] d = Outcome.done d
dump_each visit (index ∷ more) d = (do visit index; dump_each visit more) d

-- The switch on the type of the node, with dump_sequence and dump_mapping
unfoldable pub dump_content : (ℕ → D) → Option Bytes → Bytes → NodeData → D
unfolding issue strcmp_eq dump_scalar dump_each children
dump_content visit anchor tag (NodeData.scalar value style) = dump_scalar anchor tag value style
dump_content visit anchor tag (NodeData.sequence items style) = do
  issue (
      EventData.sequence_start (record {
        anchor = anchor;
        tag = some tag;
        implicit = strcmp_eq tag default_sequence_tag;
        style = style;
      }))
  dump_each visit (children (NodeData.sequence items style))
  issue EventData.sequence_end
dump_content visit anchor tag (NodeData.mapping pairs style) = do
  issue (
      EventData.mapping_start (record {
        anchor = anchor;
        tag = some tag;
        implicit = strcmp_eq tag default_mapping_tag;
        style = style;
      }))
  dump_each visit (children (NodeData.mapping pairs style))
  issue EventData.mapping_end

unfoldable pub with_anchor : ℕ → (Option Bytes → D) → D
unfolding allocate generate_anchor
with_anchor zero k = k none
with_anchor (suc n) k = do allocate; k (some (generate_anchor (suc n)))

unfoldable pub set_serialized : ℕ → AnchorInfo → D
unfolding set_info
set_serialized index info d = elim d.anchors [
  | none ↦ Outcome.fault
  | some anchors ↦
      let a =
        set_info index (record info { serialized = true })
          (record { anchors = anchors; last_anchor_id = d.last_anchor_id }) in
      Outcome.done (record d { anchors = some a.anchors })
]

-- The entry of a node in the anchors
unfoldable pub info_of : ℕ → Dumper → Option AnchorInfo
info_of index d = elim d.anchors [ none ↦ none | some anchors ↦ entry anchors index ]

-- What is left of dump_node when the node and its entry are found; `visit` is the recursive call.
unfoldable pub dump_found : (ℕ → D) → ℕ → Node → AnchorInfo → D
unfolding with_anchor dump_alias set_serialized dump_content
dump_found visit index node info = with_anchor info.anchor λ anchor. elim info.serialized [
  | true ↦ dump_alias anchor
  | false ↦ do set_serialized index info; dump_content visit anchor node.tag node.content
]

-- A unit of fuel for each level of the recursion.
unfoldable pub dump_node : List Node → ℕ → ℕ → D
unfolding dump_found info_of
dump_node nodes zero index d = Outcome.fault
dump_node nodes (suc n) index d = elim (entry nodes index) [
  | none ↦ Outcome.fault
  | some node ↦ elim (info_of index d) [
    | none ↦ Outcome.fault
    | some info ↦ dump_found (dump_node nodes n) index node info d
  ]
]

-- yaml_emitter_anchor_node (emitter, 1)
unfoldable pub anchor_document : List Node → D
unfolding anchor_node
anchor_document nodes d = elim d.anchors [
  | none ↦ Outcome.fault
  | some anchors ↦
      elim (anchor_node nodes (length nodes + 1) 1
        (record { anchors = anchors; last_anchor_id = d.last_anchor_id })) [
          | none ↦ Outcome.fault
          | some a ↦
              Outcome.done
                (record d { anchors = some a.anchors; last_anchor_id = a.last_anchor_id })
        ]
]

abbrev pub unused : AnchorInfo
unused = record { references = 0; anchor = 0; serialized = false }

-- The allocation of the anchors, and memset
unfoldable pub clear_anchors : List Node → D
unfolding allocate
clear_anchors nodes = do
  allocate
  λ d. Outcome.done (record d { anchors = some (map (λ node. unused) nodes) })

unfoldable pub dump_document : Document → List Node → D
unfolding open_stream close_stream issue anchor_document dump_node clear_anchors
dump_document document [] = do λ d. when (not d.opened) open_stream d; close_stream
dump_document document (node ∷ nodes) = do
  λ d. when (not d.opened) open_stream d
  clear_anchors (node ∷ nodes)
  issue (
      EventData.document_start (record {
        version_directive = document.version_directive;
        tag_directives = document.tag_directives;
        implicit = document.start_implicit;
      }))
  anchor_document (node ∷ nodes)
  dump_node (node ∷ nodes) (length (node ∷ nodes) + 1) 1
  issue (EventData.document_end document.end_implicit)

unfoldable pub dump : Document → List Node → D
unfolding dump_document deleting
dump document nodes = deleting (dump_document document nodes)
