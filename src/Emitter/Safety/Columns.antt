-- ===== src/Emitter/Safety/Columns.antt =====
-- The loop of yaml_emitter_write_indent (original/src/emitter.c) ends.
use port_libyaml.Base.{
  ℕ, zero, suc, ◌+◌, ◌≤◌, true, false, List, [], ◌∷◌, ◌≡◌, refl, inl, inr, arith, Bool-cases, ltb,
  length,
}
use port_libyaml.Writer.Flush.{Flushed, flush, output_buffer_size}
use port_libyaml.Emitter.State.{
  Outcome, Sink, write_handler, Output, W, flush_output, make_room, append, next_column, put,
}
use port_libyaml.Emitter.Write.{pad, level, needs_break, write_indent}
use port_libyaml.Emitter.Safety.Output.{Holds, Holds->>, IsOutput, Safe}
use port_libyaml.Emitter.Safety.Writes.{
  Safe->>, Safe-reading, Safe-when, put-Safe, put_break-Safe, set_indention-Safe,
  set_whitespace-Safe,
}

-- What holds where the function succeeds.
abbrev After : (Output → Type 0) → Outcome Output → Type 0
After Q (Outcome.done o) = Q o
After Q r = Unit

After-then :
    (P Q : Output → Type 0) (r : Outcome Output) (k : W)
    → After P r
    → ((o : Output) → P o → After Q (k o))
    → After Q (elim r [
      | Outcome.done o ↦ k o
      | Outcome.failed o ↦ Outcome.failed o
      | Outcome.fault ↦ Outcome.fault
    ])
After-then P Q (Outcome.done o) k h f = f o h
After-then P Q (Outcome.failed o) k h f = tt
After-then P Q Outcome.fault k h f = tt

flushed_column :
    (o : Output) (r : Flushed Sink)
    → After
        (λ o'. o'.column ≡ o.column)
        (elim r [
          | Flushed.success w ↦ Outcome.done (record o { writer = w })
          | Flushed.failure w ↦ Outcome.failed (record o { writer = w })
          | Flushed.fault ↦ Outcome.fault
        ])
flushed_column o (Flushed.success w) = refl
flushed_column o (Flushed.failure w) = tt
flushed_column o Flushed.fault = tt

make_room_column : (o : Output) → After (λ o'. o'.column ≡ o.column) (make_room o)
unfolding make_room flush_output
make_room_column o = elim (Bool-cases (ltb (length o.writer.written + 5) output_buffer_size)) [
  | inl e ↦ rw (e, After) refl
  | inr e ↦ rw (e, After) (flushed_column o (flush write_handler o.writer))
]

append_column :
    (c : List ℕ) (n : ℕ) (o : Output) → o.column ≡ n → After (λ o'. o'.column ≡ n) (append c o)
unfolding append
append_column c n o h = ground arith

put_column : (v : ℕ) (o : Output) → After (λ o'. o'.column ≡ o.column + 1) (put v o)
unfolding put next_column
put_column v o =
    After-then (λ o'. o'.column ≡ o.column) _ (make_room o) _ (make_room_column o)
      (λ o' h.
        After-then (λ o'. o'.column ≡ o.column) _ (append (v ∷ []) o') _
          (append_column (v ∷ []) o.column o' h) (λ o'' k. omega arith))

both :
    (P Q : Output → Type 0) (r : Outcome Output) → Holds P r → After Q r → Holds (λ o. P o × Q o) r
both P Q (Outcome.done o) h k = (h, k)
both P Q (Outcome.failed o) h k = tt
both P Q Outcome.fault h k = absurd h

-- As many rounds as columns are missing.
pub pad-Safe :
    (fuel indent : ℕ) (o : Output)
    → IsOutput o
    → indent ≤ fuel + o.column
    → Holds IsOutput (pad fuel indent o)
unfolding pad
pad-Safe zero indent o i h =
    let enough : ltb o.column indent ≡ false = ground arith in rw (enough, Holds) i
pad-Safe (suc fuel) indent o i h = elim (Bool-cases (ltb o.column indent)) [
  | inr e ↦ rw (e, Holds) i
  | inl e ↦ rw e (
      Holds->> (λ o'. IsOutput o' × (o'.column ≡ o.column + 1)) IsOutput (put 0x20 o)
        (pad fuel indent)
        (both IsOutput _ (put 0x20 o) ((put-Safe 0x20 (omega arith)).run o i) (put_column 0x20 o))
        (λ o' (j, k). pad-Safe fuel indent o' j (omega arith)))
]

pub write_indent-Safe : Safe write_indent
unfolding write_indent
write_indent-Safe = Safe-reading (λ o.
    let n = level o.indent in
    Safe->> (Safe-when (needs_break n o) put_break-Safe) (
      Safe->> (record { run = λ o' j. pad-Safe n n o' j (omega arith) })
        (Safe->> (set_whitespace-Safe true) (set_indention-Safe true))))
