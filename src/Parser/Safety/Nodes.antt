-- ===== src/Parser/Safety/Nodes.antt =====
-- parse_node in any phase where a node may stand (original/src/parser.c, yaml_parser_parse_node).
use port_libyaml.Base.{
  Bool, true, false, ◌&&◌, Option, none, some, List, Bytes, ◌≡◌, refl, ◌∷◌, inl, inr, arith,
  Option-cases, Bool-cases,
}
use port_libyaml.Types.Basics.{Mark, SequenceStyle, MappingStyle}
use port_libyaml.Types.Tokens.{Token, ScalarToken, TokenType, is, scalar_of, alias_of}
use port_libyaml.Types.Events.{Event}
use port_libyaml.Grammar.{Frame, Phase, take_place, step}
use port_libyaml.Parser.State.{
  Parser, ParserState, ◌>>=◌, ◌>>◌, pure, set_state, skip_token, require, set_parser_error_context,
  pop_state, push_state, peek_token,
}
use port_libyaml.Parser.Node.{
  Properties, sequence_start, mapping_start, bare_scalar, scalar_event, is_null, parse_collection,
  parse_content, parse_properties, resolve_tag, parse_alias, parse_properties_node, parse_node,
}
use port_libyaml.Parser.Invariant.{
  Same, Kept, Keeps, Ensures, Pushed, >>=-Good, Good, returns, returns-Top, frames, phase,
  well_formed, is_first, is_nil,
}

-- A complete node: the top state is popped.
pop-Good :
    (ph : Phase) (p : Parser) (e : Event)
    → returns p.states p.marks ≡ true
    → step e.content ph ≡ some (Phase.in_document (frames p.states))
    → Good ph ((pop_state >>= λ _. pure e) p)
unfolding pop_state
pop-Good ph p e h st = ground (arith, returns-Top p.states p.marks h)

-- A collection is opened: its first state is set, and the stack is left alone.
opened-Good :
    (ph : Phase) (s : ParserState) (p : Parser) (e : Event)
    → well_formed s p.states p.marks ≡ true
    → (is_first s && is_nil p.tokens) ≡ false
    → step e.content ph ≡ some (phase s p.states)
    → Good ph ((set_state s >>= λ _. pure e) p)
opened-Good ph s p e stacks ready st = (record { stacks = stacks; ready = ready }, st)

sequence-step :
    (ph : Phase) (fs : List Frame) (props : Properties) (tag : Option Bytes) (style : SequenceStyle)
    (m : Mark)
    → take_place ph ≡ some fs
    → step (sequence_start props tag style m).content ph
      ≡ some (Phase.in_document (Frame.in_sequence ∷ fs))
unfolding step sequence_start
sequence-step ph fs props tag style m h = ground arith

mapping-step :
    (ph : Phase) (fs : List Frame) (props : Properties) (tag : Option Bytes) (style : MappingStyle)
    (m : Mark)
    → take_place ph ≡ some fs
    → step (mapping_start props tag style m).content ph
      ≡ some (Phase.in_document (Frame.before_key ∷ fs))
unfolding step mapping_start
mapping-step ph fs props tag style m h = ground arith

require-Same : (p : Parser) → Ensures (λ _ p'. Same p p') (require p)
unfolding require
require-Same p = ground arith

bare_scalar-Good :
    (ph : Phase) (props : Properties) (tag : Option Bytes) (p : Parser)
    → returns p.states p.marks ≡ true
    → take_place ph ≡ some (frames p.states)
    → Good ph ((require >> (pop_state >> pure (bare_scalar props tag))) p)
unfolding bare_scalar step
bare_scalar-Good ph props tag p h room =
    >>=-Good ph (λ _. Same p) (require p) (λ _. pop_state >> pure (bare_scalar props tag))
      (require-Same p)
      (λ _ p₁ k. pop-Good ph p₁ (bare_scalar props tag) (ground arith) (ground arith))

scalar-Good :
    (ph : Phase) (props : Properties) (tag : Option Bytes) (scalar : ScalarToken) (m : Mark)
    (p : Parser)
    → returns p.states p.marks ≡ true
    → take_place ph ≡ some (frames p.states)
    → is_nil p.tokens ≡ false
    → Good ph ((pop_state >> (skip_token >> pure (scalar_event props tag scalar m))) p)
unfolding pop_state skip_token scalar_event step is_nil
scalar-Good ph props tag scalar m p h room ready = ground (arith, returns-Top p.states p.marks h)

-- What follows the properties, where it is no scalar.
parse_collection-Good :
    (ph : Phase) (block : Bool) (props : Properties) (tag : Option Bytes) (p : Parser)
    → returns p.states p.marks ≡ true
    → take_place ph ≡ some (frames p.states)
    → is_nil p.tokens ≡ false
    → Good ph (parse_collection block props tag p)
unfolding parse_collection set_parser_error_context well_formed phase is_first frames
parse_collection-Good ph block props tag p h room ready =
    let token = props.token in
    let fs = frames p.states in
    elim (Bool-cases (is TokenType.flow_sequence_start token)) [
      | inl e ↦ rw e (
          opened-Good ph ParserState.flow_sequence_first_entry p
            (sequence_start props tag SequenceStyle.flow_sequence token.end_mark) h ready
            (sequence-step ph fs props tag _ token.end_mark room))
      | inr e ↦ rw e (elim (Bool-cases (is TokenType.flow_mapping_start token)) [
        | inl e ↦ rw e (
            opened-Good ph ParserState.flow_mapping_first_key p
              (mapping_start props tag MappingStyle.flow_mapping token.end_mark) h ready
              (mapping-step ph fs props tag _ token.end_mark room))
        | inr e ↦ rw e (elim (Bool-cases (block && is TokenType.block_sequence_start token)) [
          | inl e ↦ rw e (
              opened-Good ph ParserState.block_sequence_first_entry p
                (sequence_start props tag SequenceStyle.block_sequence token.end_mark) h ready
                (sequence-step ph fs props tag _ token.end_mark room))
          | inr e ↦ rw e (elim (Bool-cases (block && is TokenType.block_mapping_start token)) [
            | inl e ↦ rw e (
                opened-Good ph ParserState.block_mapping_first_key p
                  (mapping_start props tag MappingStyle.block_mapping token.end_mark) h ready
                  (mapping-step ph fs props tag _ token.end_mark room))
            | inr e ↦ rw e (elim (Bool-cases (is_null props.anchor && is_null tag)) [
              | inl e ↦ rw e refl
              | inr e ↦ rw e (bare_scalar-Good ph props tag p h room)
            ])
          ])
        ])
      ])
    ]

parse_content-Good :
    (ph : Phase) (block indentless_sequence : Bool) (props : Properties) (tag : Option Bytes)
    (p : Parser)
    → returns p.states p.marks ≡ true
    → take_place ph ≡ some (frames p.states)
    → is_nil p.tokens ≡ false
    → Good ph (parse_content block indentless_sequence props tag p)
unfolding parse_content well_formed phase is_first frames
parse_content-Good ph block indentless props tag p h room ready =
    let token = props.token in
    elim (Bool-cases (indentless && is TokenType.block_entry token)) [
      | inl e ↦ rw e (
          opened-Good ph ParserState.indentless_sequence_entry p
            (sequence_start props tag SequenceStyle.block_sequence token.end_mark) h refl
            (sequence-step ph (frames p.states) props tag _ token.end_mark room))
      | inr e ↦ rw e (elim (Option-cases (scalar_of token)) [
        | inl e ↦ rw e (parse_collection-Good ph block props tag p h room ready)
        | inr (scalar, e) ↦ rw e (scalar-Good ph props tag scalar token.end_mark p h room ready)
      ])
    ]

parse_properties-Keeps :
    (first : Token) (p : Parser) → is_nil p.tokens ≡ false → Keeps p (parse_properties first p)
unfolding parse_properties is_nil
parse_properties-Keeps first p h = ground arith

resolve_tag-Keeps :
    (props : Properties) (p : Parser) → is_nil p.tokens ≡ false → Keeps p (resolve_tag props p)
unfolding resolve_tag
resolve_tag-Keeps props p h = ground arith

parse_properties_node-Good :
    (ph : Phase) (block indentless_sequence : Bool) (token : Token) (p : Parser)
    → returns p.states p.marks ≡ true
    → take_place ph ≡ some (frames p.states)
    → is_nil p.tokens ≡ false
    → Good ph (parse_properties_node block indentless_sequence token p)
unfolding parse_properties_node
parse_properties_node-Good ph block indentless token p h room ready =
    >>=-Good ph (λ _. Kept p) (parse_properties token p)
      (λ props. resolve_tag props >>= λ tag. parse_content block indentless props tag)
      (parse_properties-Keeps token p ready)
      (λ props p₁ k₁.
        >>=-Good ph (λ _. Kept p₁) (resolve_tag props p₁)
          (λ tag. parse_content block indentless props tag) (resolve_tag-Keeps props p₁ k₁.ready)
          (λ tag p₂ k₂.
            parse_content-Good ph block indentless props tag p₂ (ground arith) (ground arith)
              k₂.ready))

parse_alias-Good :
    (ph : Phase) (anchor : Bytes) (token : Token) (p : Parser)
    → returns p.states p.marks ≡ true
    → take_place ph ≡ some (frames p.states)
    → is_nil p.tokens ≡ false
    → Good ph (parse_alias anchor token p)
unfolding parse_alias step is_nil
parse_alias-Good ph anchor token p h room ready = ground (arith, returns-Top p.states p.marks h)

pub peek_token-Keeps : (p : Parser) → Keeps p (peek_token p)
unfolding peek_token is_nil
peek_token-Keeps p = ground arith

-- A node may stand in the phase `ph`, and its place is the one that the stack goes on with.
pub parse_node-Good :
    (ph : Phase) (block indentless_sequence : Bool) (p : Parser)
    → returns p.states p.marks ≡ true
    → take_place ph ≡ some (frames p.states)
    → Good ph (parse_node block indentless_sequence p)
unfolding parse_node
parse_node-Good ph block indentless p h room =
    >>=-Good ph (λ _. Kept p) (peek_token p)
      (λ token. elim (alias_of token) [
        | some anchor ↦ parse_alias anchor token
        | none ↦ parse_properties_node block indentless token
      ])
      (peek_token-Keeps p)
      (λ token p₁ k. elim (Option-cases (alias_of token)) [
        | inl e ↦ rw e (
            parse_properties_node-Good ph block indentless token p₁ (ground arith) (ground arith)
              k.ready)
        | inr (anchor, e) ↦
            rw e (parse_alias-Good ph anchor token p₁ (ground arith) (ground arith) k.ready)
      ])

pub push_state-Pushed :
    (s : ParserState) (p : Parser) → Ensures (λ _ p'. Pushed s p p') (push_state s p)
unfolding push_state
push_state-Pushed s p = ground arith

-- A node with the state to go on with put on the stack first.
pub push_node-Good :
    (ph : Phase) (next : ParserState) (block indentless_sequence : Bool) (p : Parser)
    → returns (next ∷ p.states) p.marks ≡ true
    → take_place ph ≡ some (frames (next ∷ p.states))
    → Good ph ((push_state next >> parse_node block indentless_sequence) p)
push_node-Good ph next block indentless p h room =
    >>=-Good ph (λ _ p'. Pushed next p p') (push_state next p) (λ _. parse_node block indentless)
      (push_state-Pushed next p)
      (λ _ p₁ k. parse_node-Good ph block indentless p₁ (ground arith) (ground arith))
