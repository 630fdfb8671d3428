-- ===== src/Parser/Safety/Directives.antt =====
-- The loops over directives and over document ends against the invariant (original/src/parser.c).
use port_libyaml.Base.{
  Bool, true, false, List, [], ◌∷◌, ◌≡◌, ◌∙◌, refl, inl, inr, arith, Bool-cases, Option-cases,
}
use port_libyaml.Types.Basics.{Mark, VersionDirective, TagDirective}
use port_libyaml.Types.Tokens.{Token, TokenType, is, version_of, tag_directive_of}
use port_libyaml.Parser.State.{
  Parser, Outcome, done, failed, fault, M, ◌>>=◌, require, peek_token, skip_token,
}
use port_libyaml.Parser.Directives.{
  Directives, append_tag_directive, version_step, tag_step, directive_body, is_directive,
  directives_round, directives_loop, none_yet, append_defaults, default_tag_directives,
  process_directives,
}
use port_libyaml.Parser.Document.{skip_document_ends, document_ends_round}
use port_libyaml.Parser.Invariant.{Kept, Keeps, Ensures, >>=-Ensures, is_nil}

-- A step that leaves the stacks and the queue alone.
pub record Unmoved (p p' : Parser) : Type 0 where
  pub states : p'.states ≡ p.states
  pub marks : p'.marks ≡ p.marks
  pub tokens : p'.tokens ≡ p.tokens

append_tag_directive-Unmoved :
    (value : TagDirective) (allow : Bool) (mark : Mark) (p : Parser)
    → Ensures (λ _. Unmoved p) (append_tag_directive value allow mark p)
unfolding append_tag_directive
append_tag_directive-Unmoved value allow mark p = ground arith

version_step-Unmoved :
    (v : VersionDirective) (mark : Mark) (ds : Directives) (p : Parser)
    → Ensures (λ _. Unmoved p) (version_step v mark ds p)
unfolding version_step
version_step-Unmoved v mark ds p = ground arith

Unmoved-trans : {p q r : Parser} → Unmoved p q → Unmoved q r → Unmoved p r
Unmoved-trans k l = record {
  states = l.states ∙ k.states;
  marks = l.marks ∙ k.marks;
  tokens = l.tokens ∙ k.tokens;
}

pub require-Unmoved : (p : Parser) → Ensures (λ _. Unmoved p) (require p)
unfolding require
require-Unmoved p = ground arith

tag_step-Unmoved :
    (d : TagDirective) (mark : Mark) (ds : Directives) (p : Parser)
    → Ensures (λ _. Unmoved p) (tag_step d mark ds p)
unfolding tag_step
tag_step-Unmoved d mark ds p =
    >>=-Ensures (λ _. Unmoved p) (λ _. Unmoved p) (append_tag_directive d false mark p) _
      (append_tag_directive-Unmoved d false mark p)
      (λ _ p₁ k₁.
        >>=-Ensures (λ _. Unmoved p₁) (λ _. Unmoved p) (require p₁) _ (require-Unmoved p₁)
          (λ _ p₂ k₂. Unmoved-trans k₁ k₂))

directive_body-Unmoved :
    (token : Token) (ds : Directives) (p : Parser)
    → Ensures (λ _. Unmoved p) (directive_body token ds p)
unfolding directive_body
directive_body-Unmoved token ds p = elim (Option-cases (version_of token)) [
  | inr (v, e) ↦ rw (e, directive_body) (version_step-Unmoved v token.start_mark ds p)
  | inl e ↦ elim (Option-cases (tag_directive_of token)) [
    | inr (d, e') ↦ rw (e, e', directive_body) (tag_step-Unmoved d token.start_mark ds p)
    | inl e' ↦ rw (e, e', directive_body) (record { states = refl; marks = refl; tokens = refl })
  ]
]

-- What a round leaves: the stacks as they were, and the queue `ts`.
record Left (ts : List Token) (p p' : Parser) : Type 0 where
  states : p'.states ≡ p.states
  marks : p'.marks ≡ p.marks
  tokens : p'.tokens ≡ ts

peek-Left :
    (t : Token) (ts : List Token) (p : Parser)
    → p.tokens ≡ t ∷ ts
    → Ensures (λ _. Left (t ∷ ts) p) (peek_token p)
unfolding peek_token
peek-Left t ts p h = ground arith

skip-Left :
    (t : Token) (ts : List Token) (p : Parser)
    → p.tokens ≡ t ∷ ts
    → Ensures (λ _. Left ts p) (skip_token p)
unfolding skip_token
skip-Left t ts p h = ground arith

peek_empty {ℓ} :
    {A : Type ℓ} (Q : A → Parser → Type 0) (f : Token → M A) (p : Parser)
    → p.tokens ≡ []
    → Ensures Q ((peek_token >>= f) p)
unfolding peek_token
peek_empty Q f p h = rw h refl

-- Keeping what was kept before.
pub Ensures-Kept {ℓ} :
    {A : Type ℓ} (p q : Parser) (r : Outcome A)
    → q.states ≡ p.states
    → q.marks ≡ p.marks
    → Keeps q r
    → Keeps p r
Ensures-Kept p q (done a p') es em k = record {
  states = k.states ∙ es;
  marks = k.marks ∙ em;
  ready = k.ready;
}
Ensures-Kept p q (failed p') es em k = k
Ensures-Kept p q fault es em k = k

directives_loop-Keeps :
    (queue : List Token) (ds : Directives) (p : Parser)
    → p.tokens ≡ queue
    → Keeps p (directives_loop queue ds p)
unfolding directives_loop directives_round
directives_loop-Keeps [] ds p h = peek_empty _ _ p h
directives_loop-Keeps (t ∷ queue) ds p h =
    >>=-Ensures (λ _. Left (t ∷ queue) p) (λ _. Kept p) (peek_token p) _ (peek-Left t queue p h)
      (λ token p₁ k₁. elim (Bool-cases (is_directive token)) [
        | inr e ↦ rw e (record {
          states = k₁.states;
          marks = k₁.marks;
          ready = rw k₁.tokens (unfold is_nil in refl);
        })
        | inl e ↦ rw e (
            >>=-Ensures (λ _. Unmoved p₁) (λ _. Kept p) (directive_body token ds p₁) _
              (directive_body-Unmoved token ds p₁)
              (λ ds' p₂ k₂.
                >>=-Ensures (λ _. Left queue p₂) (λ _. Kept p) (skip_token p₂) _
                  (skip-Left t queue p₂ (k₂.tokens ∙ k₁.tokens))
                  (λ _ p₃ k₃.
                    Ensures-Kept p p₃ _ (k₃.states ∙ k₂.states ∙ k₁.states)
                      (k₃.marks ∙ k₂.marks ∙ k₁.marks)
                      (directives_loop-Keeps queue ds' p₃ k₃.tokens))))
      ])

skip_document_ends-Keeps :
    (queue : List Token) (p : Parser) → p.tokens ≡ queue → Keeps p (skip_document_ends queue p)
unfolding skip_document_ends document_ends_round
skip_document_ends-Keeps [] p h = peek_empty _ _ p h
skip_document_ends-Keeps (t ∷ queue) p h =
    >>=-Ensures (λ _. Left (t ∷ queue) p) (λ _. Kept p) (peek_token p) _ (peek-Left t queue p h)
      (λ token p₁ k₁. elim (Bool-cases (is TokenType.document_end token)) [
        | inr e ↦ rw e (record {
          states = k₁.states;
          marks = k₁.marks;
          ready = rw k₁.tokens (unfold is_nil in refl);
        })
        | inl e ↦ rw e (
            >>=-Ensures (λ _. Left queue p₁) (λ _. Kept p) (skip_token p₁) _
              (skip-Left t queue p₁ k₁.tokens)
              (λ _ p₂ k₂.
                Ensures-Kept p p₂ _ (k₂.states ∙ k₁.states) (k₂.marks ∙ k₁.marks)
                  (skip_document_ends-Keeps queue p₂ k₂.tokens)))
      ])

pub skip_all_document_ends-Keeps : (p : Parser) → Keeps p (skip_document_ends p.tokens p)
skip_all_document_ends-Keeps p = skip_document_ends-Keeps p.tokens p refl

append_defaults-Keeps :
    (ds : List TagDirective) (mark : Mark) (p : Parser)
    → is_nil p.tokens ≡ false
    → Keeps p (append_defaults ds mark p)
unfolding append_defaults
append_defaults-Keeps [] mark p h = record { states = refl; marks = refl; ready = h }
append_defaults-Keeps (d ∷ ds) mark p h =
    >>=-Ensures (λ _. Unmoved p) (λ _. Kept p) (append_tag_directive d true mark p) _
      (append_tag_directive-Unmoved d true mark p)
      (λ _ p₁ k.
        Ensures-Kept p p₁ _ k.states k.marks (append_defaults-Keeps ds mark p₁ (rw k.tokens h)))

pub process_directives-Keeps : (p : Parser) → Keeps p (process_directives p)
unfolding process_directives
process_directives-Keeps p =
    >>=-Ensures (λ _. Unmoved p) (λ _. Kept p) (require p) _ (require-Unmoved p)
      (λ _ p₁ k₁.
        >>=-Ensures (λ _. Kept p₁) (λ _. Kept p) (directives_loop p₁.tokens none_yet p₁) _
          (directives_loop-Keeps p₁.tokens none_yet p₁ refl)
          (λ (ds, token) p₂ k₂.
            >>=-Ensures (λ _. Kept p₂) (λ _. Kept p)
              (append_defaults default_tag_directives token.start_mark p₂) _
              (append_defaults-Keeps default_tag_directives token.start_mark p₂ k₂.ready)
              (λ _ p₃ k₃. record {
                states = k₃.states ∙ k₂.states ∙ k₁.states;
                marks = k₃.marks ∙ k₂.marks ∙ k₁.marks;
                ready = k₃.ready;
              })))
