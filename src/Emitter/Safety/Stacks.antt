-- ===== src/Emitter/Safety/Stacks.antt =====
-- The stacks and levels of the emitter, an operation at a time (original/src/emitter.c).
use port_libyaml.Base.{
  ℕ, zero, suc, ◌-◌, Bool, true, false, List, [], ◌∷◌, Option, ◌≡◌, refl, length, if◌then◌else◌,
  arith, subst, sym,
}
use port_libyaml.Emitter.State.{Outcome, Output}
use port_libyaml.Emitter.Control.{
  EmitterState, Emitter, memory_error, require, push_state, pop_state, set_state, set_indent,
  pop_indent, increase_indent,
}
use port_libyaml.Emitter.Emit.{raise_flow, lower_flow, set_context}
use port_libyaml.Emitter.Safety.Strings.{Whole}
use port_libyaml.Emitter.Safety.Output.{Holds, IsOutput}
use port_libyaml.Emitter.Safety.Control.{
  WholeOption, AreDirectives, IsStored, Control, Sound, Triple, Triple->>,
}

-- What the predicate says of the control before an operation.
abbrev pub pushed : EmitterState → Control → Control
pushed t Q s ss n fl = Q s (t ∷ ss) n fl

abbrev pub popped : Control → Control
popped Q s [] n fl = ⊥
popped Q s (t ∷ ss) n fl = Q t ss n fl

abbrev pub at_state : EmitterState → Control → Control
at_state t Q s ss n fl = Q t ss n fl

abbrev pub indented : Control → Control
indented Q s ss n fl = Q s ss (suc n) fl

abbrev pub unindented : Control → Control
unindented Q s ss zero fl = ⊥
unindented Q s ss (suc n) fl = Q s ss n fl

abbrev pub raised : Control → Control
raised Q s ss n fl = Q s ss n (suc fl)

abbrev pub lowered : Control → Control
lowered Q s ss n zero = ⊥
lowered Q s ss n (suc fl) = Q s ss n fl

-- The stored strings are the same ones.
pub IsStored-same :
    (e e' : Emitter)
    → e'.tag_directives ≡ e.tag_directives
    → e'.anchor_data ≡ e.anchor_data
    → e'.tag_data ≡ e.tag_data
    → e'.scalar_data ≡ e.scalar_data
    → IsStored e
    → IsStored e'
IsStored-same e e' d a t s i = record {
  directives = subst AreDirectives (sym d) (i.directives);
  anchor = subst (λ x. WholeOption x.anchor) (sym a) (i.anchor);
  handle = subst (λ x. WholeOption x.handle) (sym t) (i.handle);
  suffix = subst (λ x. WholeOption x.suffix) (sym t) (i.suffix);
  value = subst (λ x. Whole x.value) (sym s) (i.value);
}

require_memory :
    (P : Control) (e : Emitter) (m : List Bool)
    → Sound P e
    → Holds (Sound P) (elim m [
      | [] ↦ Outcome.done e
      | b ∷ m' ↦ let e' = record e { memory = m' } in if b then Outcome.done e' else memory_error e'
    ])
unfolding memory_error
require_memory P e [] i = i
require_memory P e (true ∷ m) i = record {
  stored = IsStored-same e _ refl refl refl refl (i.stored);
  output = i.output;
  control = i.control;
}
require_memory P e (false ∷ m) i = tt

pub Triple-require : (P : Control) → Triple P require P
unfolding require
Triple-require P = record { run = λ e i. require_memory P e e.memory i }

module _ (Q : Control) where
  pub push_state-Triple : (t : EmitterState) → Triple (pushed t Q) (push_state t) Q
  unfolding push_state
  push_state-Triple t = Triple->> (Triple-require (pushed t Q)) (record {
    run = λ e i. record {
      stored = IsStored-same e _ refl refl refl refl (i.stored);
      output = i.output;
      control = i.control;
    };
  })

  pub set_state-Triple : (t : EmitterState) → Triple (at_state t Q) (set_state t) Q
  unfolding set_state
  set_state-Triple t = record {
    run = λ e i. record {
      stored = IsStored-same e _ refl refl refl refl (i.stored);
      output = i.output;
      control = i.control;
    };
  }

  pop_states :
      (e : Emitter) (ss : List EmitterState)
      → IsStored e
      → IsOutput e.output
      → popped Q e.state ss (length e.indents) e.flow_level
      → Holds (Sound Q) (elim ss [
        | [] ↦ Outcome.fault
        | s ∷ ss' ↦ Outcome.done (record e { state = s; states = ss' })
      ])
  pop_states e [] t o h = absurd h
  pop_states e (s ∷ ss) t o h = record {
    stored = IsStored-same e _ refl refl refl refl t;
    output = o;
    control = h;
  }

  pub pop_state-Triple : Triple (popped Q) pop_state Q
  unfolding pop_state
  pop_state-Triple = record { run = λ e i. pop_states e e.states (i.stored) (i.output) (i.control) }

  indented_output : (o : Output) (n : Option ℕ) → IsOutput o → IsOutput (set_indent n o)
  unfolding set_indent
  indented_output o n i = record {
    whole = i.whole;
    room = i.room;
    raw = i.raw;
    encoded = i.encoded;
    small = i.small;
  }

  pop_indents :
      (e : Emitter) (ns : List (Option ℕ))
      → IsStored e
      → IsOutput e.output
      → unindented Q e.state e.states (length ns) e.flow_level
      → Holds (Sound Q) (elim ns [
        | [] ↦ Outcome.fault
        | i ∷ is' ↦ Outcome.done (record e { indents = is'; output = set_indent i e.output })
      ])
  pop_indents e [] t o h = absurd h
  pop_indents e (n ∷ ns) t o h = record {
    stored = IsStored-same e _ refl refl refl refl t;
    output = indented_output e.output n o;
    control = h;
  }

  pub pop_indent-Triple : Triple (unindented Q) pop_indent Q
  unfolding pop_indent
  pop_indent-Triple = record {
    run = λ e i. pop_indents e e.indents (i.stored) (i.output) (i.control);
  }

  pub increase_indent-Triple :
      (flow indentless : Bool) → Triple (indented Q) (increase_indent flow indentless) Q
  unfolding increase_indent
  increase_indent-Triple flow indentless = Triple->> (Triple-require (indented Q)) (record {
    run = λ e i. record {
      stored = IsStored-same e _ refl refl refl refl (i.stored);
      output = indented_output e.output _ (i.output);
      control = i.control;
    };
  })

  pub raise_flow-Triple : Triple (raised Q) raise_flow Q
  unfolding raise_flow
  raise_flow-Triple = record {
    run = λ e i. record {
      stored = IsStored-same e _ refl refl refl refl (i.stored);
      output = i.output;
      control = subst (λ x. Q e.state e.states (length e.indents) x) (omega arith) (i.control);
    };
  }

  lowered_level :
      (s : EmitterState) (ss : List EmitterState) (n fl : ℕ)
      → lowered Q s ss n fl
      → Q s ss n (fl - 1)
  lowered_level s ss n zero h = absurd h
  lowered_level s ss n (suc fl) h = subst (λ x. Q s ss n x) (omega arith) h

  pub lower_flow-Triple : Triple (lowered Q) lower_flow Q
  unfolding lower_flow
  lower_flow-Triple = record {
    run = λ e i. record {
      stored = IsStored-same e _ refl refl refl refl (i.stored);
      output = i.output;
      control = lowered_level e.state e.states (length e.indents) e.flow_level (i.control);
    };
  }

  pub set_context-Triple :
      (root sequence mapping key : Bool) → Triple Q (set_context root sequence mapping key) Q
  unfolding set_context
  set_context-Triple root sequence mapping key = record {
    run = λ e i. record {
      stored = IsStored-same e _ refl refl refl refl (i.stored);
      output = i.output;
      control = i.control;
    };
  }
