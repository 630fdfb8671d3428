-- ===== src/Emitter/Safety/Control.antt =====
-- The stacks and levels of the emitter, an operation at a time (original/src/emitter.c).
use Prim.Native.String.{String}
use port_libyaml.Base.{
  ℕ, Bool, true, false, List, [], ◌∷◌, Option, none, some, ◌≡◌, refl, Bytes, length, if◌then◌else◌,
  inl, inr, Bool-cases,
}
use port_libyaml.Types.Basics.{TagDirective}
use port_libyaml.Emitter.State.{Outcome, ◌>>◌, Output, W}
use port_libyaml.Emitter.Control.{EmitterState, Emitter, E, writing, set_emitter_error}
use port_libyaml.Emitter.Safety.Strings.{Whole}
use port_libyaml.Emitter.Safety.Output.{Holds, Holds->>, IsOutput, Safe}

abbrev pub WholeOption : Option Bytes → Type 0
WholeOption none = Unit
WholeOption (some bytes) = Whole bytes

abbrev pub AreDirectives : List TagDirective → Type 0
AreDirectives [] = Unit
AreDirectives (d ∷ ds) = Whole d.handle × (Whole d.prefix × AreDirectives ds)

-- The strings that the emitter keeps fall into characters.
pub record IsStored (e : Emitter) : Type 0 where
  pub directives : AreDirectives e.tag_directives
  pub anchor : WholeOption e.anchor_data.anchor
  pub handle : WholeOption e.tag_data.handle
  pub suffix : WholeOption e.tag_data.suffix
  pub value : Whole e.scalar_data.value

-- Of the state, the stack of states, the number of indentations and the flow level.
abbrev pub Control : Type 1
Control = EmitterState → List EmitterState → ℕ → ℕ → Type 0

pub record Sound (P : Control) (e : Emitter) : Type 0 where
  pub stored : IsStored e
  pub output : IsOutput e.output
  pub control : P e.state e.states (length e.indents) e.flow_level

pub record Triple (P : Control) (m : E) (Q : Control) : Type 0 where
  pub run : (e : Emitter) → Sound P e → Holds (Sound Q) (m e)

module _ {P Q R : Control} where
  pub Triple->> : {m k : E} → Triple P m R → Triple R k Q → Triple P (m >> k) Q
  Triple->> {m} {k} s t = record {
    run = λ e i. Holds->> (Sound R) (Sound Q) (m e) k (s.run e i) (t.run);
  }

  pub Triple-weaken :
      {m : E}
      → ((s : EmitterState) (ss : List EmitterState) (n fl : ℕ) → R s ss n fl → P s ss n fl)
      → Triple P m Q
      → Triple R m Q
  Triple-weaken h t = record {
    run = λ e i.
        t.run e (record { stored = i.stored; output = i.output; control = h _ _ _ _ (i.control) });
  }

module _ {P Q : Control} where
  pub Triple-if :
      (b : Bool) {m k : E} → Triple P m Q → Triple P k Q → Triple P (if b then m else k) Q
  Triple-if true s t = s
  Triple-if false s t = t

  pub Triple-decide :
      (b : Bool) {m k : E}
      → (b ≡ true → Triple P m Q)
      → Triple P k Q
      → Triple P (if b then m else k) Q
  Triple-decide true s t = s refl
  Triple-decide false s t = t

  pub Triple-test :
      (b : Emitter → Bool) {m k : E}
      → Triple P m Q
      → Triple P k Q
      → Triple P (λ e. if b e then m e else k e) Q
  Triple-test b s t = record {
    run = λ e i. elim (Bool-cases (b e)) [ inl h ↦ rw h (s.run e i) | inr h ↦ rw h (t.run e i) ];
  }

  pub Triple-error : (problem : String) → Triple P (set_emitter_error problem) Q
  unfolding set_emitter_error
  Triple-error problem = record { run = λ e i. tt }

  pub Triple-reading :
      {k : Emitter → E} → ((e : Emitter) → Triple P (k e) Q) → Triple P (λ e. k e e) Q
  Triple-reading s = record { run = λ e. (s e).run e }

written :
    (P : Control) (e : Emitter) (r : Outcome Output)
    → Sound P e
    → Holds IsOutput r
    → Holds (Sound P) (elim r [
      | Outcome.done o ↦ Outcome.done (record e { output = o })
      | Outcome.failed o ↦ Outcome.failed (record e { output = o })
      | Outcome.fault ↦ Outcome.fault
    ])
written P e (Outcome.done o) i h = record {
  stored = record {
    directives = i.stored.directives;
    anchor = i.stored.anchor;
    handle = i.stored.handle;
    suffix = i.stored.suffix;
    value = i.stored.value;
  };
  output = h;
  control = i.control;
}
written P e (Outcome.failed o) i h = tt
written P e Outcome.fault i h = absurd h

pub Triple-writing : (P : Control) {w : W} → Safe w → Triple P (writing w) P
Triple-writing P {w} s = record {
  run = λ e i. written P e (w e.output) i (s.run e.output (i.output));
}
