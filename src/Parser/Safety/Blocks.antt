-- ===== src/Parser/Safety/Blocks.antt =====
-- The state functions for block collections against the invariant (original/src/parser.c).
use port_libyaml.Base.{Bool, true, false, ◌∷◌, ◌≡◌, refl, inl, inr, arith, Bool-cases}
use port_libyaml.Types.Tokens.{Token, TokenType, is}
use port_libyaml.Grammar.{Frame, Phase, take_place, step}
use port_libyaml.Parser.State.{Parser, ParserState, peek_token}
use port_libyaml.Parser.Block.{
  block_sequence_entry, parse_block_sequence_entry, indentless_sequence_entry,
  parse_indentless_sequence_entry, block_mapping_key, parse_block_mapping_key, block_mapping_value,
  parse_block_mapping_value,
}
use port_libyaml.Parser.Invariant.{
  Kept, >>=-Good, Good, returns, returns-Top, frames, marked_over, is_nil, openable,
}
use port_libyaml.Parser.Safety.Nodes.{peek_token-Keeps}
use port_libyaml.Parser.Safety.Collections.{
  IsNext, entry_node-Good, empty_next-Good, close_collection-Good, collection_error-Good,
  in_collection-Good,
}

abbrev within : Frame → Parser → Phase
within f p = Phase.in_document (f ∷ frames p.states)

block_sequence_entry-Good :
    (token : Token) (p : Parser)
    → marked_over (returns p.states) p.marks ≡ true
    → is_nil p.tokens ≡ false
    → Good (within Frame.in_sequence p) (block_sequence_entry token p)
unfolding block_sequence_entry
block_sequence_entry-Good token p h ready =
    let ph = within Frame.in_sequence p in
    let next : IsNext ph ParserState.block_sequence_entry p = record {
      stacks = unfold returns in h;
      room = unfold take_place frames in refl;
    } in
    elim (Bool-cases (is TokenType.block_entry token)) [
      | inl e ↦ rw e (entry_node-Good ph _ _ _ _ _ p next ready)
      | inr e ↦ rw e (elim (Bool-cases (is TokenType.block_end token)) [
        | inl c ↦ rw c (close_collection-Good ph _ token p h ready (unfold step in refl))
        | inr c ↦ rw c (collection_error-Good ph _ _ token p h)
      ])
    ]

pub parse_block_sequence_entry-Good :
    (first : Bool) (p : Parser)
    → openable first p ≡ true
    → Good (within Frame.in_sequence p) (parse_block_sequence_entry first p)
unfolding parse_block_sequence_entry
parse_block_sequence_entry-Good first p h =
    in_collection-Good _ first block_sequence_entry p h (λ token p₁ k.
      rw (← k.states) (block_sequence_entry-Good token p₁ (rw k.states k.marks) k.ready))

indentless_sequence_entry-Good :
    (token : Token) (p : Parser)
    → returns p.states p.marks ≡ true
    → is_nil p.tokens ≡ false
    → Good (within Frame.in_sequence p) (indentless_sequence_entry token p)
unfolding indentless_sequence_entry step
indentless_sequence_entry-Good token p h ready =
    let ph = within Frame.in_sequence p in
    let next : IsNext ph ParserState.indentless_sequence_entry p = record {
      stacks = unfold returns in h;
      room = unfold take_place frames in refl;
    } in
    elim (Bool-cases (is TokenType.block_entry token)) [
      | inl e ↦ rw e (entry_node-Good ph _ _ _ _ _ p next ready)
      | inr e ↦ rw e (ground (arith, returns-Top p.states p.marks h))
    ]

pub parse_indentless_sequence_entry-Good :
    (p : Parser)
    → returns p.states p.marks ≡ true
    → Good (within Frame.in_sequence p) (parse_indentless_sequence_entry p)
unfolding parse_indentless_sequence_entry
parse_indentless_sequence_entry-Good p h =
    >>=-Good _ (λ _. Kept p) (peek_token p) indentless_sequence_entry (peek_token-Keeps p)
      (λ token p₁ k.
        rw (← k.states) (indentless_sequence_entry-Good token p₁ (ground arith) k.ready))

block_mapping_key-Good :
    (token : Token) (p : Parser)
    → marked_over (returns p.states) p.marks ≡ true
    → is_nil p.tokens ≡ false
    → Good (within Frame.before_key p) (block_mapping_key token p)
unfolding block_mapping_key
block_mapping_key-Good token p h ready =
    let ph = within Frame.before_key p in
    let next : IsNext ph ParserState.block_mapping_value p = record {
      stacks = unfold returns in h;
      room = unfold take_place frames in refl;
    } in
    elim (Bool-cases (is TokenType.key token)) [
      | inl e ↦ rw e (entry_node-Good ph _ _ _ _ _ p next ready)
      | inr e ↦ rw e (elim (Bool-cases (is TokenType.block_end token)) [
        | inl c ↦ rw c (close_collection-Good ph _ token p h ready (unfold step in refl))
        | inr c ↦ rw c (collection_error-Good ph _ _ token p h)
      ])
    ]

pub parse_block_mapping_key-Good :
    (first : Bool) (p : Parser)
    → openable first p ≡ true
    → Good (within Frame.before_key p) (parse_block_mapping_key first p)
unfolding parse_block_mapping_key
parse_block_mapping_key-Good first p h =
    in_collection-Good _ first block_mapping_key p h (λ token p₁ k.
      rw (← k.states) (block_mapping_key-Good token p₁ (rw k.states k.marks) k.ready))

block_mapping_value-Good :
    (token : Token) (p : Parser)
    → marked_over (returns p.states) p.marks ≡ true
    → is_nil p.tokens ≡ false
    → Good (within Frame.before_value p) (block_mapping_value token p)
unfolding block_mapping_value
block_mapping_value-Good token p h ready =
    let ph = within Frame.before_value p in
    let next : IsNext ph ParserState.block_mapping_key p = record {
      stacks = unfold returns in h;
      room = unfold take_place frames in refl;
    } in
    elim (Bool-cases (is TokenType.value token)) [
      | inl e ↦ rw e (entry_node-Good ph _ _ _ _ _ p next ready)
      | inr e ↦ rw e (empty_next-Good ph _ _ p next)
    ]

pub parse_block_mapping_value-Good :
    (p : Parser)
    → marked_over (returns p.states) p.marks ≡ true
    → Good (within Frame.before_value p) (parse_block_mapping_value p)
unfolding parse_block_mapping_value
parse_block_mapping_value-Good p h =
    >>=-Good _ (λ _. Kept p) (peek_token p) block_mapping_value (peek_token-Keeps p)
      (λ token p₁ k. rw (← k.states) (block_mapping_value-Good token p₁ (ground arith) k.ready))
