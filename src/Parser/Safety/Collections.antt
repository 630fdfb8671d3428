-- ===== src/Parser/Safety/Collections.antt =====
-- The steps that the state functions of all collections share.
use Prim.Native.String.{String}
use port_libyaml.Base.{
  Bool, true, false, not, ◌∷◌, some, ◌≡◌, ◌∙◌, inl, inr, arith, Bool-cases, if◌then◌else◌,
}
use port_libyaml.Types.Basics.{Mark}
use port_libyaml.Types.Tokens.{Token}
use port_libyaml.Types.Events.{Event, EventData}
use port_libyaml.Grammar.{Phase, take_place, node, step}
use port_libyaml.Parser.State.{Parser, ParserState, M, ◌>>◌, push_state, skip_token, peek_token}
use port_libyaml.Parser.Directives.{process_empty_scalar}
use port_libyaml.Parser.Node.{parse_node}
use port_libyaml.Parser.Block.{
  open_collection, close_collection, collection_error, in_collection, entry_node, empty_value,
}
use port_libyaml.Parser.Invariant.{
  Kept, Same, Inside, Ensures, >>=-Good, Good, returns, returns-Popped, marked_over-Enclosed,
  openable, frames, phase, marked_over, well_formed, is_first, is_nil,
}
use port_libyaml.Parser.Safety.Nodes.{peek_token-Keeps, push_node-Good}

pub skip_token-Same :
    (p : Parser) → is_nil p.tokens ≡ false → Ensures (λ _ p'. Same p p') (skip_token p)
unfolding skip_token is_nil
skip_token-Same p h = ground arith

-- An empty node; `next` becomes the current state.
pub empty_value-Good :
    (ph : Phase) (next : ParserState) (mark : Mark) (p : Parser)
    → well_formed next p.states p.marks ≡ true
    → is_first next ≡ false
    → node ph ≡ some (phase next p.states)
    → Good ph (empty_value next mark p)
unfolding empty_value process_empty_scalar step
empty_value-Good ph next mark p h nf place = ground arith

pub Kept-Same : {p p' : Parser} → Kept p p' → Same p p'
Kept-Same k = record { states = k.states; marks = k.marks }

-- A state that a node is followed by, as the current state.
pub record IsNext (ph : Phase) (next : ParserState) (p : Parser) : Type 0 where
  pub stacks : returns (next ∷ p.states) p.marks ≡ true
  pub room : take_place ph ≡ some (frames (next ∷ p.states))

pub IsNext-Same :
    {ph : Phase} {next : ParserState} (p p' : Parser)
    → IsNext ph next p
    → Same p p'
    → IsNext ph next p'
IsNext-Same p p' n k = record { stacks = ground arith; room = ground arith }

pub empty_next-Good :
    (ph : Phase) (next : ParserState) (mark : Mark) (p : Parser)
    → IsNext ph next p
    → Good ph (empty_value next mark p)
unfolding node
empty_next-Good ph next mark p n =
    let t = returns-Popped next p.states p.marks n.stacks in
    let room = n.room in empty_value-Good ph next mark p t.stacks t.ready (ground arith)

pub push_next-Good :
    (ph : Phase) (next : ParserState) (block indentless_sequence : Bool) (p : Parser)
    → IsNext ph next p
    → Good ph ((push_state next >> parse_node block indentless_sequence) p)
push_next-Good ph next block indentless p n =
    push_node-Good ph next block indentless p n.stacks n.room

pub entry_node-Good :
    (ph : Phase) (block indentless_sequence : Bool) (next : ParserState)
    (begins_no_node : Token → Bool) (mark : Mark) (p : Parser)
    → IsNext ph next p
    → is_nil p.tokens ≡ false
    → Good ph (entry_node block indentless_sequence next begins_no_node mark p)
unfolding entry_node
entry_node-Good ph block indentless next begins_no_node mark p n ready =
    >>=-Good ph (λ _. Same p) (skip_token p) _ (skip_token-Same p ready)
      (λ _ p₁ k₁.
        >>=-Good ph (λ _. Kept p₁) (peek_token p₁)
          (λ token.
            if not (begins_no_node token)
            then (push_state next >> parse_node block indentless)
            else empty_value next mark)
          (peek_token-Keeps p₁)
          (λ token p₂ k₂.
            let n₂ = IsNext-Same p₁ p₂ (IsNext-Same p p₁ n k₁) (Kept-Same k₂) in
            elim (Bool-cases (begins_no_node token)) [
              | inl e ↦ rw e (empty_next-Good ph next mark p₂ n₂)
              | inr e ↦ rw e (push_next-Good ph next block indentless p₂ n₂)
            ]))

pub close_collection-Good :
    (ph : Phase) (content : EventData) (token : Token) (p : Parser)
    → marked_over (returns p.states) p.marks ≡ true
    → is_nil p.tokens ≡ false
    → step content ph ≡ some (Phase.in_document (frames p.states))
    → Good ph (close_collection content token p)
unfolding close_collection is_nil
close_collection-Good ph content token p h ready place =
    ground (arith, marked_over-Enclosed p.states p.marks h)

pub collection_error-Good :
    (ph : Phase) (context problem : String) (token : Token) (p : Parser)
    → marked_over (returns p.states) p.marks ≡ true
    → Good ph (collection_error context problem token p)
unfolding collection_error
collection_error-Good ph context problem token p h =
    ground (arith, marked_over-Enclosed p.states p.marks h)

open_collection-Inside :
    (first : Bool) (p : Parser)
    → openable first p ≡ true
    → Ensures
        (λ _ p'. (p'.states ≡ p.states) × (marked_over (returns p.states) p'.marks ≡ true))
        (open_collection first p)
unfolding open_collection openable marked_over is_nil
open_collection-Inside first p h = ground arith

pub in_collection-Good :
    (ph : Phase) (first : Bool) (body : Token → M Event) (p : Parser)
    → openable first p ≡ true
    → ((token : Token) (p' : Parser) → Inside p p' → Good ph (body token p'))
    → Good ph (in_collection first body p)
unfolding in_collection
in_collection-Good ph first body p h good =
    >>=-Good ph (λ _ p'. (p'.states ≡ p.states) × (marked_over (returns p.states) p'.marks ≡ true))
      (open_collection first p) _ (open_collection-Inside first p h)
      (λ _ p₁ (states, marks).
        >>=-Good ph (λ _. Kept p₁) (peek_token p₁) body (peek_token-Keeps p₁)
          (λ token p₂ k.
            good token p₂
              (record { states = k.states ∙ states; marks = rw k.marks marks; ready = k.ready })))
