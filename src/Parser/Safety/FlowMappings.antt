-- ===== src/Parser/Safety/FlowMappings.antt =====
-- The state functions for flow mappings against the invariant (original/src/parser.c).
use port_libyaml.Base.{Bool, true, false, ◌≡◌, refl, inl, inr, arith, Bool-cases, if◌then◌else◌}
use port_libyaml.Types.Tokens.{Token, TokenType, is}
use port_libyaml.Grammar.{Frame, take_place, step}
use port_libyaml.Parser.State.{Parser, ParserState, peek_token}
use port_libyaml.Parser.Block.{collection_error}
use port_libyaml.Parser.Flow.{
  next_token, flow_mapping_item, flow_mapping_separated, flow_mapping_key, parse_flow_mapping_key,
  flow_mapping_value, parse_flow_mapping_value,
}
use port_libyaml.Parser.Invariant.{
  Kept, >>=-Good, Good, returns, frames, marked_over, is_nil, openable,
}
use port_libyaml.Parser.Safety.Nodes.{peek_token-Keeps}
use port_libyaml.Parser.Safety.Collections.{
  push_next-Good, empty_next-Good, close_collection-Good, collection_error-Good, in_collection-Good,
}
use port_libyaml.Parser.Safety.Flows.{within, IsNext-marked, next_token-Keeps, flow_node_after-Good}

flow_mapping_item-Good :
    (token : Token) (p : Parser)
    → marked_over (returns p.states) p.marks ≡ true
    → is_nil p.tokens ≡ false
    → Good (within Frame.before_key p) (flow_mapping_item token p)
unfolding flow_mapping_item
flow_mapping_item-Good token p h ready =
    let ph = within Frame.before_key p in
    let keyed =
      IsNext-marked ParserState.flow_mapping_value Frame.before_key p (unfold returns in h)
        (unfold take_place frames in refl) in
    let bare =
      IsNext-marked ParserState.flow_mapping_empty_value Frame.before_key p (unfold returns in h)
        (unfold take_place frames in refl) in
    elim (Bool-cases (is TokenType.key token)) [
      | inl e ↦ rw e (flow_node_after-Good ph _ _ p keyed ready)
      | inr e ↦ rw e (elim (Bool-cases (is TokenType.flow_mapping_end token)) [
        | inl c ↦ rw c (close_collection-Good ph _ token p h ready (unfold step in refl))
        | inr c ↦ rw c (push_next-Good ph _ false false p bare)
      ])
    ]

flow_mapping_separated-Good :
    (p : Parser)
    → marked_over (returns p.states) p.marks ≡ true
    → is_nil p.tokens ≡ false
    → Good (within Frame.before_key p) (flow_mapping_separated p)
unfolding flow_mapping_separated
flow_mapping_separated-Good p h ready =
    >>=-Good _ (λ _. Kept p) (next_token p) flow_mapping_item (next_token-Keeps p ready)
      (λ token p₁ k. rw (← k.states) (flow_mapping_item-Good token p₁ (ground arith) k.ready))

flow_mapping_key-Good :
    (first : Bool) (token : Token) (p : Parser)
    → marked_over (returns p.states) p.marks ≡ true
    → is_nil p.tokens ≡ false
    → Good (within Frame.before_key p) (flow_mapping_key first token p)
unfolding flow_mapping_key
flow_mapping_key-Good first token p h ready =
    let ph = within Frame.before_key p in
    elim (Bool-cases (is TokenType.flow_mapping_end token)) [
      | inl c ↦ rw c (close_collection-Good ph _ token p h ready (unfold step in refl))
      | inr c ↦
          rw c
            (elim first
              as (λ b. Good ph (
                (if b
                    then flow_mapping_item token
                    else if is TokenType.flow_entry token
                    then flow_mapping_separated
                    else collection_error "while parsing a flow mapping"
                        "did not find expected ',' or '}'" token)
                  p)) [
                    | true ↦ flow_mapping_item-Good token p h ready
                    | false ↦ elim (Bool-cases (is TokenType.flow_entry token)) [
                      | inl e ↦ rw e (flow_mapping_separated-Good p h ready)
                      | inr e ↦ rw e (collection_error-Good ph _ _ token p h)
                    ]
                  ])
    ]

pub parse_flow_mapping_key-Good :
    (first : Bool) (p : Parser)
    → openable first p ≡ true
    → Good (within Frame.before_key p) (parse_flow_mapping_key first p)
unfolding parse_flow_mapping_key
parse_flow_mapping_key-Good first p h =
    in_collection-Good _ first (flow_mapping_key first) p h (λ token p₁ k.
      rw (← k.states) (flow_mapping_key-Good first token p₁ (rw k.states k.marks) k.ready))

flow_mapping_value-Good :
    (empty : Bool) (token : Token) (p : Parser)
    → marked_over (returns p.states) p.marks ≡ true
    → is_nil p.tokens ≡ false
    → Good (within Frame.before_value p) (flow_mapping_value empty token p)
unfolding flow_mapping_value
flow_mapping_value-Good true token p h ready = empty_next-Good _ ParserState.flow_mapping_key _ p (
    IsNext-marked ParserState.flow_mapping_key Frame.before_value p (unfold returns in h)
      (unfold take_place frames in refl))
flow_mapping_value-Good false token p h ready =
    let ph = within Frame.before_value p in
    let next =
      IsNext-marked ParserState.flow_mapping_key Frame.before_value p (unfold returns in h)
        (unfold take_place frames in refl) in
    elim (Bool-cases (is TokenType.value token)) [
      | inl e ↦ rw e (flow_node_after-Good ph _ _ p next ready)
      | inr e ↦ rw e (empty_next-Good ph _ _ p next)
    ]

pub parse_flow_mapping_value-Good :
    (empty : Bool) (p : Parser)
    → marked_over (returns p.states) p.marks ≡ true
    → Good (within Frame.before_value p) (parse_flow_mapping_value empty p)
unfolding parse_flow_mapping_value
parse_flow_mapping_value-Good empty p h =
    >>=-Good _ (λ _. Kept p) (peek_token p) (flow_mapping_value empty) (peek_token-Keeps p)
      (λ token p₁ k.
        rw (← k.states) (flow_mapping_value-Good empty token p₁ (ground arith) k.ready))
