-- ===== src/Tests/LoaderTests.antt =====
-- A document with an anchor, through the loader.
use port_libyaml.Base.{
  ℕ, true, false, List, [], ◌∷◌, Option, none, some, Bytes, ◌≡◌, ◌≢◌, refl, arith, strcmp_eq,
}
use port_libyaml.Types.Basics.{Mark, ErrorType, ScalarStyle, SequenceStyle, MappingStyle}
use port_libyaml.Types.Events.{Event, EventData}
use port_libyaml.Parser.Node.{is_bang}
use port_libyaml.Loader.State.{
  NodeData, Node, AliasData, Loader, Loaded, memory_error, stack_limit, allocate, require,
  push_node, push_alias, push_ctx, set_composer_error, set_composer_error_context,
}
use port_libyaml.Loader.Compose.{
  find_alias, add_anchor, register_anchor, complete_pair, write_node, add_child, load_node_add,
  load_alias, with_tag, add_node, load_scalar, open_node, load_collection, load_sequence,
  load_mapping, is_sequence, is_mapping, end_collection, load_sequence_end, load_mapping_end,
  load_event, load_nodes, load_document,
}
use port_libyaml.Grammar.{Frame, Phase, steps}
use port_libyaml.Loader.Open.{missing, holds}
use port_libyaml.Loader.Composing.{Composing, Yields, advance, load_node_add-Composing}
use port_libyaml.Loader.Steps.{load_document-closed}
use port_libyaml.Loader.Anchors.{load_alias-register_anchor, register_anchor-register_anchor}

abbrev at : ℕ → Mark
at i = record { index = i; line = 0; column = i }

abbrev event : EventData → Event
event content = record { content = content; start_mark = at 0; end_mark = at 1 }

abbrev x_node : Node
x_node = record {
  tag = b't' ∷ [];
  content = NodeData.scalar (b'v' ∷ []) ScalarStyle.plain_scalar;
  start_mark = at 0;
  end_mark = at 1;
}

abbrev loader : List AliasData → Loader
loader aliases = record {
  nodes = x_node ∷ [];
  aliases = aliases;
  ctx = [];
  document = record {
    version_directive = none;
    tag_directives = [];
    start_implicit = true;
    end_implicit = true;
    start_mark = at 0;
    end_mark = at 0;
  };
  memory = [];
  error = ErrorType.no_error;
  problem = none;
  problem_mark = none;
  context = none;
  context_mark = none;
}

abbrev anchored : Bytes → AliasData
anchored anchor = record { anchor = anchor; index = 1; mark = at 0 }

-- A sequence that is open, beside the node with the anchor.
abbrev open_sequence : List ℕ → Node
open_sequence items = record {
  tag = [];
  content = NodeData.sequence items SequenceStyle.any_sequence;
  start_mark = at 0;
  end_mark = at 0;
}

abbrev in_sequence : List AliasData → List ℕ → Loader
in_sequence aliases items = record (loader aliases) {
  nodes = x_node ∷ open_sequence items ∷ [];
  ctx = 2 ∷ [];
}

load_alias-register_anchor_example :
    load_alias
      (b'x' ∷ [])
      (at 9)
      (in_sequence (anchored (b'x' ∷ []) ∷ anchored (b'y' ∷ []) ∷ []) (7 ∷ []))
    ≡ Loaded.done (in_sequence (anchored (b'x' ∷ []) ∷ anchored (b'y' ∷ []) ∷ []) (7 ∷ 1 ∷ []))
unfolding register_anchor add_anchor find_alias push_alias require allocate strcmp_eq
load_alias-register_anchor_example =
    load_alias-register_anchor 1 2 (b'x' ∷ []) (at 9) (anchored (b'y' ∷ []) ∷ []) []
      (open_sequence (7 ∷ [])) (loader []) (loader (anchored (b'x' ∷ []) ∷ []))
      (in_sequence (anchored (b'x' ∷ []) ∷ anchored (b'y' ∷ []) ∷ []) (7 ∷ [])) refl refl refl refl
      (omega arith) refl

register_anchor-register_anchor_example :
    register_anchor 1 (some (b'x' ∷ [])) (loader (anchored (b'x' ∷ []) ∷ anchored (b'y' ∷ []) ∷ []))
    ≢ Loaded.done (loader [])
unfolding register_anchor add_anchor find_alias push_alias require allocate strcmp_eq
register_anchor-register_anchor_example =
    register_anchor-register_anchor 1 1 (b'x' ∷ []) (anchored (b'y' ∷ []) ∷ []) (loader [])
      (loader (anchored (b'x' ∷ []) ∷ []))
      (loader (anchored (b'x' ∷ []) ∷ anchored (b'y' ∷ []) ∷ [])) (loader []) refl refl

-- {a: [&x b, *x]}: the sequence holds node 4 twice.
abbrev word : Option Bytes → Bytes → Event
word anchor value = event (
    EventData.scalar (record {
      anchor = anchor;
      tag = none;
      value = value;
      plain_implicit = true;
      quoted_implicit = false;
      style = ScalarStyle.plain_scalar;
    }))

abbrev pairs_of : List (ℕ × ℕ) → List ℕ
pairs_of [] = []
pairs_of ((k, v) ∷ ps) = k ∷ v ∷ pairs_of ps

abbrev children_of : NodeData → List ℕ
children_of (NodeData.scalar value style) = []
children_of (NodeData.sequence items style) = items
children_of (NodeData.mapping pairs style) = pairs_of pairs

abbrev node_children : List Node → List (List ℕ)
node_children [] = []
node_children (n ∷ ns) = children_of n.content ∷ node_children ns

abbrev children : Loaded → List (List ℕ)
children (Loaded.done l) = node_children l.nodes
children _ = []

abbrev document_events : List Event
document_events =
    event (
      EventData.mapping_start
        (record { anchor = none; tag = none; implicit = true; style = MappingStyle.flow_mapping }))
    ∷ word none (b'a' ∷ [])
    ∷ event (
        EventData.sequence_start (record {
          anchor = none;
          tag = none;
          implicit = true;
          style = SequenceStyle.flow_sequence;
        }))
    ∷ word (some (b'x' ∷ [])) (b'b' ∷ [])
    ∷ event (EventData.alias (b'x' ∷ []))
    ∷ event EventData.sequence_end
    ∷ event EventData.mapping_end
    ∷ event (EventData.document_end true)
    ∷ []

composed :
    children (load_nodes document_events (record (loader []) { nodes = [] }))
    ≡ (2 ∷ 3 ∷ []) ∷ [] ∷ (4 ∷ 4 ∷ []) ∷ [] ∷ []
unfolding load_nodes load_event load_alias load_scalar load_sequence load_mapping load_sequence_end
    load_mapping_end load_collection open_node add_node with_tag is_bang load_node_add add_child
    write_node complete_pair register_anchor add_anchor find_alias push_alias push_node push_ctx
    require allocate stack_limit memory_error strcmp_eq set_composer_error
    set_composer_error_context is_sequence is_mapping end_collection
composed = refl

-- A sequence in a mapping that waits for its value: node 2 is the open sequence.
abbrev nested : Loader
nested = record (loader []) {
  nodes =
      record x_node { content = NodeData.mapping ((1, 0) ∷ []) MappingStyle.flow_mapping }
      ∷ record x_node { content = NodeData.sequence [] SequenceStyle.flow_sequence }
      ∷ [];
  aliases = anchored (b'x' ∷ []) ∷ [];
  ctx = 2 ∷ 1 ∷ [];
}

abbrev nested-Composing : Composing (Frame.in_sequence ∷ Frame.before_value ∷ []) nested
nested-Composing = record {
  opened = (
    omega arith,
    omega arith,
    record { node = _; found = refl; waits = unfold holds in refl },
    (
      omega arith,
      omega arith,
      record { node = _; found = refl; waits = unfold holds missing in refl },
      tt,
    ),
  );
  anchors = (omega arith, tt);
}

load_node_add-Composing_example :
    Yields
      (Composing (advance (Frame.in_sequence ∷ Frame.before_value ∷ [])))
      (load_node_add 2 nested)
load_node_add-Composing_example =
    load_node_add-Composing 2 (Frame.in_sequence ∷ Frame.before_value ∷ []) nested (omega arith)
      nested-Composing

load_document-closed_example :
    Yields
      (λ l. l.ctx ≡ [])
      (load_document
        (record { version_directive = none; tag_directives = []; implicit = true })
        (at 0)
        document_events
        (record (loader []) { nodes = [] }))
unfolding steps
load_document-closed_example =
    load_document-closed (record { version_directive = none; tag_directives = []; implicit = true })
      (at 0) document_events Phase.between_documents (record (loader []) { nodes = [] }) refl refl
