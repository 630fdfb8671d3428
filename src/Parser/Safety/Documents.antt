-- ===== src/Parser/Safety/Documents.antt =====
-- The state functions for the stream and its documents against the invariant (original/src/parser.c).
use port_libyaml.Base.{Bool, true, false, not, ◌&&◌, List, [], ◌≡◌, inl, inr, arith, Bool-cases}
use port_libyaml.Types.Basics.{Mark}
use port_libyaml.Types.Tokens.{Token, TokenType, is}
use port_libyaml.Grammar.{Phase, take_place, step}
use port_libyaml.Parser.State.{Parser, ParserState, ◌>>◌, peek_token, pop_state, push_state}
use port_libyaml.Parser.Directives.{process_directives, process_empty_scalar}
use port_libyaml.Parser.Node.{parse_node}
use port_libyaml.Parser.Document.{
  parse_stream_start, document_start_event, start_implicit_document, start_explicit_document,
  end_stream, document_start, starts_explicitly, ends_content, first_token, parse_document_start,
  document_content, parse_document_content, parse_document_end,
}
use port_libyaml.Parser.Invariant.{
  Kept, Keeps, Pushed, >>=-Good, Good, returns, frames, phase, well_formed, is_root_stack, is_first,
  is_nil,
}
use port_libyaml.Parser.Safety.Nodes.{peek_token-Keeps, push_state-Pushed, parse_node-Good}
use port_libyaml.Parser.Safety.Directives.{process_directives-Keeps, skip_all_document_ends-Keeps}

-- Between documents both stacks are empty.
pub record IsIdle (p : Parser) : Type 0 where
  pub states : is_nil p.states ≡ true
  pub marks : is_nil p.marks ≡ true

IsIdle-Kept : {p p' : Parser} → IsIdle p → Kept p p' → IsIdle p'
IsIdle-Kept i k = record { states = rw k.states i.states; marks = rw k.marks i.marks }

pub parse_stream_start-Good :
    (p : Parser) → IsIdle p → Good Phase.before_stream (parse_stream_start p)
unfolding parse_stream_start step phase well_formed is_first
parse_stream_start-Good p i = ground arith

start_implicit_document-Good :
    (token : Token) (p : Parser)
    → IsIdle p
    → Good Phase.between_documents (start_implicit_document token p)
unfolding start_implicit_document document_start_event step phase well_formed is_root_stack is_first
start_implicit_document-Good token p i =
    >>=-Good _ (λ _. Kept p) (process_directives p) _ (process_directives-Keeps p)
      (λ ds p₁ k₁.
        >>=-Good _ (λ _. Pushed ParserState.document_end p₁)
          (push_state ParserState.document_end p₁) _ (push_state-Pushed ParserState.document_end p₁)
          (λ _ p₂ k₂. ground arith))

start_explicit_document-Good :
    (token : Token) (p : Parser)
    → IsIdle p
    → Good Phase.between_documents (start_explicit_document token p)
unfolding start_explicit_document document_start_event step phase well_formed is_root_stack is_first
start_explicit_document-Good first p i =
    >>=-Good _ (λ _. Kept p) (process_directives p) _ (process_directives-Keeps p)
      (λ ds p₁ k₁.
        >>=-Good _ (λ _. Kept p₁) (peek_token p₁) _ (peek_token-Keeps p₁)
          (λ token p₂ k₂.
            let j = IsIdle-Kept (IsIdle-Kept i k₁) k₂ in let ready = k₂.ready in ground arith))

end_stream-Good :
    (token : Token) (p : Parser)
    → IsIdle p
    → is_nil p.tokens ≡ false
    → Good Phase.between_documents (end_stream token p)
unfolding end_stream step phase well_formed is_first
end_stream-Good token p i ready = ground arith

document_start-Good :
    (implicit : Bool) (token : Token) (p : Parser)
    → IsIdle p
    → is_nil p.tokens ≡ false
    → Good Phase.between_documents (document_start implicit token p)
unfolding document_start
document_start-Good implicit token p i ready =
    elim (Bool-cases (implicit && not (starts_explicitly token))) [
      | inl e ↦ rw e (start_implicit_document-Good token p i)
      | inr e ↦ rw e (elim (Bool-cases (is TokenType.stream_end token)) [
        | inl c ↦ rw c (end_stream-Good token p i ready)
        | inr c ↦ rw c (start_explicit_document-Good token p i)
      ])
    ]

first_token-Keeps : (implicit : Bool) (p : Parser) → Keeps p (first_token implicit p)
unfolding first_token
first_token-Keeps true p = peek_token-Keeps p
first_token-Keeps false p = skip_all_document_ends-Keeps p

pub parse_document_start-Good :
    (implicit : Bool) (p : Parser)
    → IsIdle p
    → Good Phase.between_documents (parse_document_start implicit p)
unfolding parse_document_start
parse_document_start-Good implicit p i =
    >>=-Good _ (λ _. Kept p) (first_token implicit p) (document_start implicit)
      (first_token-Keeps implicit p)
      (λ token p₁ k. document_start-Good implicit token p₁ (IsIdle-Kept i k) k.ready)

-- The root of a document is to come: what is on the stacks.
pub record IsRoot (p : Parser) : Type 0 where
  pub states : is_root_stack p.states ≡ true
  pub marks : is_nil p.marks ≡ true

pub root-returns :
    (ss : List ParserState) (ms : List Mark)
    → is_root_stack ss ≡ true
    → is_nil ms ≡ true
    → (returns ss ms ≡ true) × (frames ss ≡ [])
unfolding is_root_stack returns frames
root-returns ss ms h k = ground arith

-- A node at the root.
pub root_node-Good : (p : Parser) → IsRoot p → Good Phase.before_root (parse_node true false p)
unfolding take_place
root_node-Good p i =
    let (h, e) = root-returns p.states p.marks i.states i.marks in
    parse_node-Good Phase.before_root true false p h (rw e)

empty_root-Good :
    (mark : Mark) (p : Parser)
    → IsRoot p
    → Good Phase.before_root ((pop_state >> process_empty_scalar mark) p)
unfolding pop_state process_empty_scalar step well_formed phase frames is_first is_root_stack
empty_root-Good mark p i = ground arith

document_content-Good :
    (token : Token) (p : Parser) → IsRoot p → Good Phase.before_root (document_content token p)
unfolding document_content
document_content-Good token p i = elim (Bool-cases (ends_content token)) [
  | inl e ↦ rw e (empty_root-Good token.start_mark p i)
  | inr e ↦ rw e (root_node-Good p i)
]

pub parse_document_content-Good :
    (p : Parser) → IsRoot p → Good Phase.before_root (parse_document_content p)
unfolding parse_document_content
parse_document_content-Good p i =
    >>=-Good _ (λ _. Kept p) (peek_token p) document_content (peek_token-Keeps p)
      (λ token p₁ k.
        document_content-Good token p₁
          (record { states = rw k.states i.states; marks = rw k.marks i.marks }))

pub parse_document_end-Good :
    (p : Parser) → IsIdle p → Good (Phase.in_document []) (parse_document_end p)
unfolding parse_document_end step phase well_formed is_first
parse_document_end-Good p i = ground arith
