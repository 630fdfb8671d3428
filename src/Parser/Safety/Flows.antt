-- ===== src/Parser/Safety/Flows.antt =====
-- The state functions for flow sequences against the invariant (original/src/parser.c).
use port_libyaml.Base.{
  Bool, true, false, not, ◌&&◌, ◌∷◌, some, ◌≡◌, refl, inl, inr, arith, Bool-cases, if◌then◌else◌,
}
use port_libyaml.Types.Tokens.{Token, TokenType, is}
use port_libyaml.Grammar.{Frame, Phase, take_place, step}
use port_libyaml.Parser.State.{Parser, ParserState, ◌>>◌, peek_token, skip_token, push_state}
use port_libyaml.Parser.Node.{parse_node}
use port_libyaml.Parser.Block.{empty_value, collection_error}
use port_libyaml.Parser.Flow.{
  next_token, flow_sequence_item, flow_sequence_separated, flow_sequence_entry,
  parse_flow_sequence_entry, flow_sequence_entry_mapping_key, parse_flow_sequence_entry_mapping_key,
  flow_node_after, flow_sequence_entry_mapping_value, parse_flow_sequence_entry_mapping_value,
  parse_flow_sequence_entry_mapping_end,
}
use port_libyaml.Parser.Invariant.{
  Kept, Keeps, Same, >>=-Good, Good, returns, frames, phase, marked_over, well_formed, is_first,
  is_nil, openable,
}
use port_libyaml.Parser.Safety.Nodes.{peek_token-Keeps}
use port_libyaml.Parser.Safety.Collections.{
  IsNext, IsNext-Same, Kept-Same, skip_token-Same, push_next-Good, empty_next-Good,
  close_collection-Good, collection_error-Good, in_collection-Good,
}

abbrev pub within : Frame → Parser → Phase
within f p = Phase.in_document (f ∷ frames p.states)

-- A flow collection in which `next` is what a node is followed by.
pub IsNext-marked :
    (next : ParserState) (f : Frame) (p : Parser)
    → returns (next ∷ p.states) p.marks ≡ true
    → take_place (within f p) ≡ some (frames (next ∷ p.states))
    → IsNext (within f p) next p
IsNext-marked next f p h room = record { stacks = h; room = room }

pub next_token-Keeps : (p : Parser) → is_nil p.tokens ≡ false → Keeps p (next_token p)
unfolding next_token is_nil
next_token-Keeps p h = ground arith

pub flow_node_after-Good :
    (ph : Phase) (next : ParserState) (begins_no_node : Token → Bool) (p : Parser)
    → IsNext ph next p
    → is_nil p.tokens ≡ false
    → Good ph (flow_node_after next begins_no_node p)
unfolding flow_node_after
flow_node_after-Good ph next begins_no_node p n ready =
    >>=-Good ph (λ _. Kept p) (next_token p)
      (λ token.
        if not (begins_no_node token)
        then (push_state next >> parse_node false false)
        else empty_value next token.start_mark)
      (next_token-Keeps p ready)
      (λ token p₁ k.
        let n₁ = IsNext-Same p p₁ n (Kept-Same k) in
        elim (Bool-cases (begins_no_node token)) [
          | inl e ↦ rw e (empty_next-Good ph next token.start_mark p₁ n₁)
          | inr e ↦ rw e (push_next-Good ph next false false p₁ n₁)
        ])

flow_sequence_item-Good :
    (token : Token) (p : Parser)
    → marked_over (returns p.states) p.marks ≡ true
    → is_nil p.tokens ≡ false
    → Good (within Frame.in_sequence p) (flow_sequence_item token p)
unfolding flow_sequence_item
flow_sequence_item-Good token p h ready =
    let ph = within Frame.in_sequence p in
    let next =
      IsNext-marked ParserState.flow_sequence_entry Frame.in_sequence p (unfold returns in h)
        (unfold take_place frames in refl) in
    elim (Bool-cases (is TokenType.key token)) [
      | inl e ↦
          rw e (unfold skip_token is_nil step phase frames well_formed is_first in ground arith)
      | inr e ↦ rw e (elim (Bool-cases (is TokenType.flow_sequence_end token)) [
        | inl c ↦ rw c (close_collection-Good ph _ token p h ready (unfold step in refl))
        | inr c ↦ rw c (push_next-Good ph _ false false p next)
      ])
    ]

flow_sequence_separated-Good :
    (p : Parser)
    → marked_over (returns p.states) p.marks ≡ true
    → is_nil p.tokens ≡ false
    → Good (within Frame.in_sequence p) (flow_sequence_separated p)
unfolding flow_sequence_separated
flow_sequence_separated-Good p h ready =
    >>=-Good _ (λ _. Kept p) (next_token p) flow_sequence_item (next_token-Keeps p ready)
      (λ token p₁ k. rw (← k.states) (flow_sequence_item-Good token p₁ (ground arith) k.ready))

flow_sequence_entry-Good :
    (first : Bool) (token : Token) (p : Parser)
    → marked_over (returns p.states) p.marks ≡ true
    → is_nil p.tokens ≡ false
    → Good (within Frame.in_sequence p) (flow_sequence_entry first token p)
unfolding flow_sequence_entry
flow_sequence_entry-Good first token p h ready =
    let ph = within Frame.in_sequence p in
    elim (Bool-cases (is TokenType.flow_sequence_end token)) [
      | inl c ↦ rw c (close_collection-Good ph _ token p h ready (unfold step in refl))
      | inr c ↦
          rw c
            (elim first
              as (λ b. Good ph (
                (if b
                    then flow_sequence_item token
                    else if is TokenType.flow_entry token
                    then flow_sequence_separated
                    else collection_error "while parsing a flow sequence"
                        "did not find expected ',' or ']'" token)
                  p)) [
                    | true ↦ flow_sequence_item-Good token p h ready
                    | false ↦ elim (Bool-cases (is TokenType.flow_entry token)) [
                      | inl e ↦ rw e (flow_sequence_separated-Good p h ready)
                      | inr e ↦ rw e (collection_error-Good ph _ _ token p h)
                    ]
                  ])
    ]

pub parse_flow_sequence_entry-Good :
    (first : Bool) (p : Parser)
    → openable first p ≡ true
    → Good (within Frame.in_sequence p) (parse_flow_sequence_entry first p)
unfolding parse_flow_sequence_entry
parse_flow_sequence_entry-Good first p h =
    in_collection-Good _ first (flow_sequence_entry first) p h (λ token p₁ k.
      rw (← k.states) (flow_sequence_entry-Good first token p₁ (rw k.states k.marks) k.ready))

-- The phase inside the pair that stands for an entry of a flow sequence.
abbrev pub in_pair : Frame → Parser → Phase
in_pair f p = Phase.in_document (f ∷ Frame.in_sequence ∷ frames p.states)

flow_sequence_entry_mapping_key-Good :
    (token : Token) (p : Parser)
    → marked_over (returns p.states) p.marks ≡ true
    → is_nil p.tokens ≡ false
    → Good (in_pair Frame.before_key p) (flow_sequence_entry_mapping_key token p)
unfolding flow_sequence_entry_mapping_key
flow_sequence_entry_mapping_key-Good token p h ready =
    let ph = in_pair Frame.before_key p in
    let next : IsNext ph ParserState.flow_sequence_entry_mapping_value p = record {
      stacks = unfold returns in h;
      room = unfold take_place frames in refl;
    } in
    elim (Bool-cases (
      not (is TokenType.value token)
      && not (is TokenType.flow_entry token)
      && not (is TokenType.flow_sequence_end token))) [
        | inl e ↦ rw e (push_next-Good ph _ false false p next)
        | inr e ↦ rw e (
            >>=-Good ph (λ _. Same p) (skip_token p) _ (skip_token-Same p ready)
              (λ _ p₁ k. empty_next-Good ph _ token.end_mark p₁ (IsNext-Same p p₁ next k)))
      ]

pub parse_flow_sequence_entry_mapping_key-Good :
    (p : Parser)
    → marked_over (returns p.states) p.marks ≡ true
    → Good (in_pair Frame.before_key p) (parse_flow_sequence_entry_mapping_key p)
unfolding parse_flow_sequence_entry_mapping_key
parse_flow_sequence_entry_mapping_key-Good p h =
    >>=-Good _ (λ _. Kept p) (peek_token p) flow_sequence_entry_mapping_key (peek_token-Keeps p)
      (λ token p₁ k.
        rw (← k.states) (flow_sequence_entry_mapping_key-Good token p₁ (ground arith) k.ready))

flow_sequence_entry_mapping_value-Good :
    (token : Token) (p : Parser)
    → marked_over (returns p.states) p.marks ≡ true
    → is_nil p.tokens ≡ false
    → Good (in_pair Frame.before_value p) (flow_sequence_entry_mapping_value token p)
unfolding flow_sequence_entry_mapping_value
flow_sequence_entry_mapping_value-Good token p h ready =
    let ph = in_pair Frame.before_value p in
    let next : IsNext ph ParserState.flow_sequence_entry_mapping_end p = record {
      stacks = unfold returns in h;
      room = unfold take_place frames in refl;
    } in
    elim (Bool-cases (is TokenType.value token)) [
      | inl e ↦ rw e (flow_node_after-Good ph _ _ p next ready)
      | inr e ↦ rw e (empty_next-Good ph _ _ p next)
    ]

pub parse_flow_sequence_entry_mapping_value-Good :
    (p : Parser)
    → marked_over (returns p.states) p.marks ≡ true
    → Good (in_pair Frame.before_value p) (parse_flow_sequence_entry_mapping_value p)
unfolding parse_flow_sequence_entry_mapping_value
parse_flow_sequence_entry_mapping_value-Good p h =
    >>=-Good _ (λ _. Kept p) (peek_token p) flow_sequence_entry_mapping_value (peek_token-Keeps p)
      (λ token p₁ k.
        rw (← k.states) (flow_sequence_entry_mapping_value-Good token p₁ (ground arith) k.ready))

pub parse_flow_sequence_entry_mapping_end-Good :
    (p : Parser)
    → marked_over (returns p.states) p.marks ≡ true
    → Good (in_pair Frame.before_key p) (parse_flow_sequence_entry_mapping_end p)
unfolding parse_flow_sequence_entry_mapping_end step phase frames well_formed is_first
parse_flow_sequence_entry_mapping_end-Good p h = ground arith
