-- ===== src/Emitter/Safety/Analyzes.antt =====
-- Functions that analyze, one after the other (original/src/emitter.c).
use Prim.Native.String.{String}
use port_libyaml.Base.{Bool, true, false, ◌≡◌, ◌∙◌, refl, if◌then◌else◌}
use port_libyaml.Emitter.State.{Outcome, ◌>>◌, skip, when}
use port_libyaml.Emitter.Control.{Emitter, E, set_emitter_error}
use port_libyaml.Emitter.Safety.Output.{Holds, Holds->>}
use port_libyaml.Emitter.Safety.Control.{IsStored}

-- Analysis leaves the output and the control as they are.
pub record IsAnalyzed (e e' : Emitter) : Type 0 where
  pub stored : IsStored e'
  pub output : e'.output ≡ e.output
  pub state : e'.state ≡ e.state
  pub states : e'.states ≡ e.states
  pub indents : e'.indents ≡ e.indents
  pub flow_level : e'.flow_level ≡ e.flow_level

pub record Analyzes (m : E) : Type 0 where
  pub run : (e : Emitter) → IsStored e → Holds (IsAnalyzed e) (m e)

IsAnalyzed-trans : (e e' e'' : Emitter) → IsAnalyzed e e' → IsAnalyzed e' e'' → IsAnalyzed e e''
IsAnalyzed-trans e e' e'' i j = record {
  stored = j.stored;
  output = j.output ∙ i.output;
  state = j.state ∙ i.state;
  states = j.states ∙ i.states;
  indents = j.indents ∙ i.indents;
  flow_level = j.flow_level ∙ i.flow_level;
}

pub Holds-weaken :
    {A : Type 0} (P Q : A → Type 0) (r : Outcome A) → ((a : A) → P a → Q a) → Holds P r → Holds Q r
Holds-weaken P Q (Outcome.done a) h p = h a p
Holds-weaken P Q (Outcome.failed a) h p = tt
Holds-weaken P Q Outcome.fault h p = absurd p

pub Analyzes->> : {m k : E} → Analyzes m → Analyzes k → Analyzes (m >> k)
Analyzes->> {m} {k} s t = record {
  run = λ e i. Holds->> (IsAnalyzed e) (IsAnalyzed e) (m e) k (s.run e i) (λ e' j.
      Holds-weaken (IsAnalyzed e') (IsAnalyzed e) (k e') (λ e'' l. IsAnalyzed-trans e e' e'' j l)
        (t.run e' (j.stored)));
}

pub same_control :
    (e e' : Emitter)
    → IsStored e'
    → e'.output ≡ e.output
    → e'.state ≡ e.state
    → e'.states ≡ e.states
    → e'.indents ≡ e.indents
    → e'.flow_level ≡ e.flow_level
    → IsAnalyzed e e'
same_control e e' s o a b c d = record {
  stored = s;
  output = o;
  state = a;
  states = b;
  indents = c;
  flow_level = d;
}

pub Analyzes-skip : Analyzes skip
Analyzes-skip = record { run = λ e i. same_control e e i refl refl refl refl refl }

pub Analyzes-error : (problem : String) → Analyzes (set_emitter_error problem)
unfolding set_emitter_error
Analyzes-error problem = record { run = λ e i. tt }

pub Analyzes-if : (b : Bool) {m k : E} → Analyzes m → Analyzes k → Analyzes (if b then m else k)
Analyzes-if true s t = s
Analyzes-if false s t = t

pub Analyzes-when : (b : Bool) {m : E} → Analyzes m → Analyzes (when b m)
Analyzes-when b s = Analyzes-if b s Analyzes-skip
