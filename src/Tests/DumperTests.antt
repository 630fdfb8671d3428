-- ===== src/Tests/DumperTests.antt =====
-- The dumper on a document whose root holds itself.
use port_libyaml.Base.{true, false, [], ◌∷◌, length, arith, none, some, ◌≡◌, refl, map, List}
use port_libyaml.Types.Basics.{Mark, SequenceStyle}
use port_libyaml.Loader.State.{NodeData, Node, Document}
use port_libyaml.Grammar.{Phase}
use port_libyaml.Emitter.Safety.Strings.{AreAscii-Whole}
use port_libyaml.Emitter.Safety.Output.{Holds}
use port_libyaml.Dumper.Anchors.{
  Anchoring, anchor_node, anchor_each, refer, number, set_info, children, generate_anchor, decimal,
}
use port_libyaml.Dumper.Dump.{Dumper, unused, dump}
use port_libyaml.Dumper.Entries.{IsIndex}
use port_libyaml.Dumper.Visits.{AreLinked, Reaches, anchor_node_terminates}
use port_libyaml.Dumper.Nodes.{AreWholeNodes}
use port_libyaml.Dumper.Safety.{IsIdle, dump-IsIdle}
use port_libyaml.Tests.EmitterTests.{fresh, fresh-IsAt}

abbrev start_mark : Mark
start_mark = record { index = 0; line = 0; column = 0 }

abbrev cycle : List Node
cycle =
    record {
      tag = b'!' ∷ [];
      content = NodeData.sequence (1 ∷ 1 ∷ []) SequenceStyle.any_sequence;
      start_mark = start_mark;
      end_mark = start_mark;
    }
    ∷ []

abbrev document : Document
document = record {
  version_directive = none;
  tag_directives = [];
  start_implicit = true;
  end_implicit = true;
  start_mark = start_mark;
  end_mark = start_mark;
}

abbrev dumper : Dumper
dumper = record {
  emitter = fresh;
  opened = false;
  closed = false;
  anchors = none;
  last_anchor_id = 0;
}

abbrev table : Anchoring
table = record { anchors = map (λ node. unused) cycle; last_anchor_id = 0 }

root : IsIndex 1 1
root = record { low = omega arith; high = omega arith }

cycle-AreLinked : AreLinked (length cycle) cycle
unfolding children
cycle-AreLinked = ((root, (root, tt)), tt)

cycle-AreWholeNodes : AreWholeNodes cycle
cycle-AreWholeNodes =
    (record { tag = AreAscii-Whole (b'!' ∷ []) (omega arith, tt); content = tt }, tt)

walk_test :
    anchor_node cycle 2 1 table
    ≡ some (record {
      anchors = record { references = 3; anchor = 1; serialized = false } ∷ [];
      last_anchor_id = 1;
    })
unfolding anchor_node anchor_each refer number set_info children
walk_test = refl

name_test : generate_anchor 12 ≡ b'i' ∷ b'd' ∷ b'0' ∷ b'1' ∷ b'2' ∷ []
unfolding generate_anchor decimal
name_test = refl

anchor_node_terminates_example : Reaches (map (λ node. unused) cycle) (anchor_node cycle 2 1 table)
anchor_node_terminates_example = anchor_node_terminates cycle 1 table cycle-AreLinked root refl

dump-IsIdle_example : Holds IsIdle (dump document cycle dumper)
dump-IsIdle_example =
    dump-IsIdle document cycle dumper cycle-AreLinked cycle-AreWholeNodes tt
      (record { phase = Phase.before_stream; position = fresh-IsAt; waiting = tt })
