-- ===== src/Emitter/Safety/Directives.antt =====
-- The tag directives of a document (original/src/emitter.c).
use port_libyaml.Base.{
  Bool, true, false, not, ◌&&◌, ◌||◌, List, [], ◌∷◌, ◌++◌, Option, none, some, refl, Bytes,
  if◌then◌else◌, ◌==◌, arith,
}
use port_libyaml.Types.Basics.{VersionDirective, TagDirective}
use port_libyaml.Emitter.State.{Outcome, Output, flush_output}
use port_libyaml.Emitter.Control.{Emitter, memory_error, duplicate, push_tag_directive}
use port_libyaml.Emitter.Analyze.{
  analyze_version_directive, analyze_prefix, analyze_handle, analyze_tag_directive,
  append_tag_directive, has_handle, ends_with_mark, is_handle_text,
}
use port_libyaml.Emitter.Documents.{
  analyze_optional_version, append_directives, yaml_prefix, append_default_directives,
}
use port_libyaml.Emitter.Safety.Strings.{Whole, AreAscii-Whole}
use port_libyaml.Emitter.Safety.Output.{Holds, IsOutput, Safe, IsRoomy, flush_output-IsRoomy}
use port_libyaml.Emitter.Safety.Control.{
  AreDirectives, Control, Sound, Triple, Triple->>, Triple-if, Triple-error, Triple-test,
}
use port_libyaml.Emitter.Safety.Stacks.{Triple-require, IsStored-same}
use port_libyaml.Emitter.Safety.Items.{Triple-skip}

pub flush_output-Safe : Safe flush_output
flush_output-Safe = record { run = λ o i. weaken (flush_output o) (flush_output-IsRoomy o i) }
  where
    weaken : (r : Outcome Output) → Holds IsRoomy r → Holds IsOutput r
    weaken (Outcome.done o) i = i.output
    weaken (Outcome.failed o) i = tt
    weaken Outcome.fault i = absurd i

module _ (P : Control) where
  pub analyze_version-Triple :
      (v : Option VersionDirective) → Triple P (analyze_optional_version v) P
  unfolding analyze_optional_version analyze_version_directive
  analyze_version-Triple none = Triple-skip P
  analyze_version-Triple (some v) =
      Triple-if (not (v.major == 1) || (not (v.minor == 1) && not (v.minor == 2)))
        (Triple-error "incompatible %YAML directive") (Triple-skip P)

  analyze_handle-Triple : (handle : Bytes) → Triple P (analyze_handle handle) P
  unfolding analyze_handle
  analyze_handle-Triple [] = Triple-error _
  analyze_handle-Triple (o ∷ os) =
      Triple-if (not (o == b'!')) (Triple-error "tag handle must start with '!'") (
        Triple-if (not (ends_with_mark (o ∷ os))) (Triple-error "tag handle must end with '!'") (
          Triple-if (not (is_handle_text os))
            (Triple-error "tag handle must contain alphanumerical characters only")
            (Triple-skip P)))

  analyze_prefix-Triple : (prefix : Bytes) → Triple P (analyze_prefix prefix) P
  unfolding analyze_prefix
  analyze_prefix-Triple [] = Triple-error _
  analyze_prefix-Triple (o ∷ os) = Triple-skip P

  duplicate_memory :
      (e : Emitter) (m : List Bool)
      → Sound P e
      → Holds (Sound P) (elim m [
        | [] ↦ Outcome.done e
        | b ∷ [] ↦
            let e' = record e { memory = [] } in if b then Outcome.done e' else memory_error e'
        | b ∷ c ∷ m ↦
            let e' = record e { memory = m } in if b && c then Outcome.done e' else memory_error e'
      ])
  unfolding memory_error
  duplicate_memory e [] i = i
  duplicate_memory e (true ∷ []) i = record {
    stored = IsStored-same e _ refl refl refl refl (i.stored);
    output = i.output;
    control = i.control;
  }
  duplicate_memory e (false ∷ []) i = tt
  duplicate_memory e (true ∷ true ∷ m) i = record {
    stored = IsStored-same e _ refl refl refl refl (i.stored);
    output = i.output;
    control = i.control;
  }
  duplicate_memory e (true ∷ false ∷ m) i = tt
  duplicate_memory e (false ∷ c ∷ m) i = tt

  duplicate-Triple : Triple P duplicate P
  unfolding duplicate
  duplicate-Triple = record { run = λ e i. duplicate_memory e e.memory i }

  AreDirectives-append :
      (ds : List TagDirective) (d : TagDirective)
      → AreDirectives ds
      → Whole d.handle
      → Whole d.prefix
      → AreDirectives (ds ++ (d ∷ []))
  AreDirectives-append [] d h w v = (w, (v, tt))
  AreDirectives-append (x ∷ ds) d h w v = (h.0, (h.1.0, AreDirectives-append ds d h.1.1 w v))

  push_tag_directive-Triple :
      (d : TagDirective) → Whole d.handle → Whole d.prefix → Triple P (push_tag_directive d) P
  unfolding push_tag_directive
  push_tag_directive-Triple d w v = Triple->> duplicate-Triple (
      Triple->> (Triple-require P) (record {
        run = λ e i. record {
          stored = record {
            directives = AreDirectives-append e.tag_directives d (i.stored.directives) w v;
            anchor = i.stored.anchor;
            handle = i.stored.handle;
            suffix = i.stored.suffix;
            value = i.stored.value;
          };
          output = i.output;
          control = i.control;
        };
      }))

  append_tag_directive-Triple :
      (d : TagDirective) (b : Bool)
      → Whole d.handle
      → Whole d.prefix
      → Triple P (append_tag_directive d b) P
  unfolding append_tag_directive
  append_tag_directive-Triple d b w v =
      Triple-test (λ e. has_handle d.handle e.tag_directives)
        (Triple-test (λ e. b) (Triple-skip P) (Triple-error "duplicate %TAG directive"))
        (push_tag_directive-Triple d w v)

  pub append_directives-Triple :
      (ds : List TagDirective) → AreDirectives ds → Triple P (append_directives ds) P
  unfolding append_directives analyze_tag_directive
  append_directives-Triple [] h = Triple-skip P
  append_directives-Triple (d ∷ ds) h =
      Triple->> (Triple->> (analyze_handle-Triple d.handle) (analyze_prefix-Triple d.prefix)) (
        Triple->> (append_tag_directive-Triple d false h.0 h.1.0)
          (append_directives-Triple ds h.1.1))

  pub append_default_directives-Triple : Triple P append_default_directives P
  unfolding append_default_directives
  append_default_directives-Triple =
      Triple->>
        (append_tag_directive-Triple (record { handle = b'!' ∷ []; prefix = b'!' ∷ [] }) true
          (AreAscii-Whole _ (omega arith, tt)) (AreAscii-Whole _ (omega arith, tt)))
        (append_tag_directive-Triple (record { handle = b'!' ∷ b'!' ∷ []; prefix = yaml_prefix })
          true (AreAscii-Whole _ (omega arith, (omega arith, tt)))
          (AreAscii-Whole yaml_prefix (
            omega arith,
            (
              omega arith,
              (
                omega arith,
                (
                  omega arith,
                  (
                    omega arith,
                    (
                      omega arith,
                      (
                        omega arith,
                        (
                          omega arith,
                          (
                            omega arith,
                            (
                              omega arith,
                              (
                                omega arith,
                                (
                                  omega arith,
                                  (
                                    omega arith,
                                    (
                                      omega arith,
                                      (
                                        omega arith,
                                        (omega arith, (omega arith, (omega arith, tt))),
                                      ),
                                    ),
                                  ),
                                ),
                              ),
                            ),
                          ),
                        ),
                      ),
                    ),
                  ),
                ),
              ),
            ),
          )))
