-- ===== src/Emitter/Safety/Writes.antt =====
-- The macros PUT, WRITE and their kin, indentation, indicators, anchors and tags
-- (original/src/emitter.c).
use port_libyaml.Base.{
  ℕ, zero, suc, ◌≤◌, ◌<◌, Bool, true, false, List, [], ◌∷◌, some, ◌≡◌, sym, ap, subst, refl, inl,
  inr, arith, length, length-append, Bool-cases, if◌then◌else◌,
}
use port_libyaml.Reader.Utf8Checks.{AreBytes}
use port_libyaml.Writer.Flush.{is_set, output_buffer_size}
use port_libyaml.Emitter.Characters.{character, check}
use port_libyaml.Emitter.State.{
  Outcome, ◌>>◌, skip, when, Output, W, Break, make_room, append, next_column, next_line, put,
  break_octets, put_break, copy, write, ignoring, write_break, set_indention, set_whitespace,
  set_open_ended,
}
use port_libyaml.Emitter.Write.{loop, write_string}
use port_libyaml.Emitter.Safety.Strings.{
  Whole, next, Whole-character, AreAscii, AreAscii-Whole, character_lem,
}
use port_libyaml.Emitter.Safety.Output.{
  Holds, Holds->>, IsOutput, IsRoomy, Safe, make_room-IsRoomy, append-IsOutput, append-Succeeds,
  Succeeds, Succeeds-Holds, make_room_lem,
}

pub Safe->> : {m k : W} → Safe m → Safe k → Safe (m >> k)
Safe->> {m} {k} s t = record { run = λ o i. Holds->> IsOutput IsOutput (m o) k (s.run o i) (t.run) }

pub Safe-if : (b : Bool) {m k : W} → Safe m → Safe k → Safe (if b then m else k)
Safe-if true s t = s
Safe-if false s t = t

pub Safe-skip : Safe skip
Safe-skip = record { run = λ o i. i }

pub Safe-when : (b : Bool) {m : W} → Safe m → Safe (when b m)
Safe-when true s = s
Safe-when false s = Safe-skip

-- A function that first looks at the output.
pub Safe-reading : {k : Output → W} → ((o : Output) → Safe (k o)) → Safe (λ o. k o o)
Safe-reading s = record { run = λ o. (s o).run o }

pub Safe-test :
    (b : Output → Bool) {m k : W} → Safe m → Safe k → Safe (λ o. if b o then m o else k o)
Safe-test b {m} {k} s t = record {
  run = λ o i. elim (Bool-cases (b o)) [ inl e ↦ rw e (s.run o i) | inr e ↦ rw e (t.run o i) ];
}

-- FLUSH, then octets of one character, then what has nothing to do with the buffer.
with_room :
    (m k : W)
    → ((o : Output) → IsRoomy o → Holds IsOutput (m o))
    → Safe k
    → Safe (make_room >> (m >> k))
with_room m k s t = record {
  run = λ o i.
      Holds->> IsRoomy IsOutput (make_room o) (m >> k) (make_room-IsRoomy o i)
        (λ o' r. Holds->> IsOutput IsOutput (m o') k (s o' r) (t.run));
}

-- An assignment that the buffer has no part in.
kept :
    {f : Output → Output}
    → ((o : Output) → IsOutput o → IsOutput (f o))
    → Safe (λ o. Outcome.done (f o))
kept h = record { run = h }

same :
    (o o' : Output)
    → o'.writer ≡ o.writer
    → o'.best_indent ≡ o.best_indent
    → IsOutput o
    → IsOutput o'
same o o' w n i = record {
  whole = subst (λ x. Whole x.written) (sym w) (i.whole);
  room = subst (λ x. length x.written ≤ output_buffer_size) (sym w) (i.room);
  raw = subst (λ x. x.raw ≡ []) (sym w) (i.raw);
  encoded = subst (λ x. is_set x.encoding ≡ true) (sym w) (i.encoded);
  small = omega (arith, n, i.small);
}

next_column-Safe : Safe next_column
unfolding next_column
next_column-Safe = kept (λ o i. same o _ refl refl i)

next_line-Safe : Safe next_line
unfolding next_line
next_line-Safe = kept (λ o i. same o _ refl refl i)

pub set_indention-Safe : (b : Bool) → Safe (set_indention b)
unfolding set_indention
set_indention-Safe b = kept (λ o i. same o _ refl refl i)

pub set_whitespace-Safe : (b : Bool) → Safe (set_whitespace b)
unfolding set_whitespace
set_whitespace-Safe b = kept (λ o i. same o _ refl refl i)

pub set_open_ended-Safe : (n : ℕ) → Safe (set_open_ended n)
unfolding set_open_ended
set_open_ended-Safe n = kept (λ o i. same o _ refl refl i)

append-ascii :
    (c : List ℕ)
    → AreAscii c
    → length c ≤ 5
    → (o : Output) → IsRoomy o
    → Succeeds IsOutput (append c o)
append-ascii c a h o i = append-Succeeds c o (AreAscii-Whole c a) h i

pub put-Safe : (v : ℕ) → v < 0x80 → Safe (put v)
unfolding put
put-Safe v h =
    with_room (append (v ∷ [])) next_column
      (λ o i. Succeeds-Holds IsOutput _ (append-ascii (v ∷ []) (h, tt) (omega arith) o i))
      next_column-Safe

append_break : (b : Break) (o : Output) → IsRoomy o → Succeeds IsOutput (append (break_octets b) o)
unfolding break_octets
append_break Break.any_break = append-ascii [] tt (omega arith)
append_break Break.cr_break = append-ascii (b'\r' ∷ []) (omega arith, tt) (omega arith)
append_break Break.ln_break = append-ascii (b'\n' ∷ []) (omega arith, tt) (omega arith)
append_break Break.crln_break =
    append-ascii (b'\r' ∷ b'\n' ∷ []) (omega arith, (omega arith, tt)) (omega arith)

pub put_break-Safe : Safe put_break
unfolding put_break
put_break-Safe =
    with_room (λ o. append (break_octets o.line_break) o) next_line
      (λ o i. Succeeds-Holds IsOutput _ (append_break o.line_break o i)) next_line-Safe

-- PUT_BREAK behind FLUSH does not fail.
then_next_line :
    (r : Outcome Output)
    → Succeeds IsOutput r
    → Succeeds IsOutput (elim r [
      | Outcome.done o ↦ next_line o
      | Outcome.failed o ↦ Outcome.failed o
      | Outcome.fault ↦ Outcome.fault
    ])
unfolding next_line
then_next_line (Outcome.done o) i = record {
  whole = i.whole;
  room = i.room;
  raw = i.raw;
  encoded = i.encoded;
  small = i.small;
}
then_next_line (Outcome.failed o) i = absurd i
then_next_line Outcome.fault i = absurd i

ignored :
    (r : Outcome Output)
    → Succeeds IsOutput r
    → Holds IsOutput (elim r [
      | Outcome.done o ↦ Outcome.done o
      | Outcome.failed o ↦ Outcome.done o
      | Outcome.fault ↦ Outcome.fault
    ])
ignored (Outcome.done o) i = i
ignored (Outcome.failed o) i = absurd i
ignored Outcome.fault i = absurd i

put_break-Succeeds : (o : Output) → IsRoomy o → Succeeds IsOutput (put_break o)
unfolding put_break
put_break-Succeeds o i =
    rw (make_room_lem o i, Succeeds)
      (then_next_line (append (break_octets o.line_break) o) (append_break o.line_break o i))

ignoring_break : (o : Output) → IsRoomy o → Holds IsOutput (ignoring put_break o)
unfolding ignoring
ignoring_break o i = ignored (put_break o) (put_break-Succeeds o i)

copy-IsOutput :
    (o : ℕ) (os c rest : List ℕ)
    → AreBytes c
    → character (o ∷ os) ≡ some (c, rest)
    → (out : Output) → IsRoomy out
    → Holds IsOutput (copy (o ∷ os) out)
unfolding copy
copy-IsOutput o os c rest b e out i =
    let k = character_lem o os c rest e in
    rw (e, Holds)
      (append-IsOutput c out (Whole-character o os c rest b e) (omega (arith, k.short)) i)

module _ (o : ℕ) (os c rest : List ℕ) (b : AreBytes c)
    (e : character (o ∷ os) ≡ some (c, rest)) where
  pub write-Safe : Safe (write (o ∷ os))
  unfolding write
  write-Safe =
      with_room (copy (o ∷ os)) next_column (copy-IsOutput o os c rest b e) next_column-Safe

  break_text : (out : Output) → IsRoomy out → Holds IsOutput ((copy (o ∷ os) >> next_line) out)
  break_text out i =
      Holds->> IsOutput IsOutput (copy (o ∷ os) out) next_line (copy-IsOutput o os c rest b e out i)
        (next_line-Safe.run)

  break_or_copy :
      (newline : Bool) (out : Output)
      → IsRoomy out
      → Holds IsOutput ((if newline then ignoring put_break else (copy (o ∷ os) >> next_line)) out)
  break_or_copy true out i = ignoring_break out i
  break_or_copy false out i = break_text out i

  pub write_break-Safe : Safe (write_break (o ∷ os))
  unfolding write_break
  write_break-Safe = record {
    run = λ out i.
        Holds->> IsRoomy IsOutput (make_room out) _ (make_room-IsRoomy out i)
          (break_or_copy (check (o ∷ os) b'\n'));
  }

-- The loop ends, and is safe where its rounds are.
pub loop-Safe :
    {S : Type 0} (body : S → List ℕ → W) (step : S → List ℕ → S) (after : S → W)
    → ((s : S) (o : ℕ) (os c rest : List ℕ)
        → AreBytes c
        → character (o ∷ os) ≡ some (c, rest)
        → Safe (body s (o ∷ os)))
    → ((s : S) → Safe (after s))
    → (fuel : ℕ) (s : S) (string : List ℕ) → Whole string
    → length string ≤ fuel
    → Safe (loop body step after fuel s string)
unfolding loop
loop-Safe body step after rounds ends fuel s [] w h = ends s
loop-Safe body step after rounds ends zero s (o ∷ os) w h = absurd (omega arith)
loop-Safe body step after rounds ends (suc fuel) s (o ∷ os) (next {c = c} {rest = rest} b e w) h =
    let i = character_lem o os c rest e in
    let shorter : length rest ≤ fuel =
      omega (arith, ap length (i.joins), length-append c rest, i.positive) in
    rw (e, loop)
      (Safe->> (rounds s o os c rest b e)
        (loop-Safe body step after rounds ends fuel (step s (o ∷ os)) rest w shorter))

pub write_string-Safe : (string : List ℕ) → Whole string → Safe (write_string string)
unfolding write_string
write_string-Safe string w =
    loop-Safe (λ s. write) (λ s string'. s) (λ s. skip) (λ s. write-Safe) (λ s. Safe-skip)
      (length string) tt string w (omega arith)
