-- ===== src/Emitter/Safety/Output.antt =====
-- The buffer of the output (original/src/emitter.c).
use port_libyaml.Base.{
  ℕ, ◌+◌, ◌≤◌, ◌<◌, Bool, true, false, List, [], ◌∷◌, ◌++◌, ◌≡◌, refl, ap, inl, inr, arith, length,
  length-append, Bool-cases, ltb, leb, if◌then◌else◌,
}
use port_libyaml.Types.Basics.{Encoding}
use port_libyaml.Writer.Flush.{
  Writer, Flushed, flush, flush_filled, flush_utf8, flush_utf16, write_raw, set_writer_error,
  none_filled, is_set, output_buffer_size, output_raw_buffer_size,
}
use port_libyaml.Emitter.State.{
  Outcome, Op, Sink, write_handler, Output, W, flush_output, make_room, append,
}
use port_libyaml.Emitter.Safety.Strings.{Whole, nil, Whole-append}
use port_libyaml.Writer.Bounds.{length-recode}

-- No undefined behaviour, and where the function succeeds the predicate holds of the result.
abbrev pub Holds : {A : Type 0} → (A → Type 0) → Outcome A → Type 0
Holds Q (Outcome.done a) = Q a
Holds Q (Outcome.failed a) = Unit
Holds Q Outcome.fault = ⊥

pub Holds->> :
    {A : Type 0} (P Q : A → Type 0) (r : Outcome A) (k : Op A)
    → Holds P r
    → ((a : A) → P a → Holds Q (k a))
    → Holds Q (elim r [
      | Outcome.done a' ↦ k a'
      | Outcome.failed a' ↦ Outcome.failed a'
      | Outcome.fault ↦ Outcome.fault
    ])
Holds->> P Q (Outcome.done a) k h f = f a h
Holds->> P Q (Outcome.failed a) k h f = tt
Holds->> P Q Outcome.fault k h f = absurd h

-- An output whose buffer falls into characters and has not run over, and whose raw buffer is empty, as
-- every flush leaves it but one that the write handler refused.
pub record IsOutput (o : Output) : Type 0 where
  pub whole : Whole o.writer.written
  pub room : length o.writer.written ≤ output_buffer_size
  pub raw : o.writer.raw ≡ []
  pub encoded : is_set o.writer.encoding ≡ true
  pub small : o.best_indent ≤ 9

pub record Safe (m : W) : Type 0 where
  pub run : (o : Output) → IsOutput o → Holds IsOutput (m o)

-- What a flush leaves.
record IsFlushed (encoding : Encoding) (w' : Writer Sink) : Type 0 where
  whole : Whole w'.written
  empty : length w'.written ≡ 0
  raw : w'.raw ≡ []
  encoded : w'.encoding ≡ encoding

abbrev Flushes : Encoding → Flushed Sink → Type 0
Flushes k (Flushed.success w') = IsFlushed k w'
Flushes k (Flushed.failure w') = Unit
Flushes k Flushed.fault = ⊥

answered :
    (k : Encoding) (b : Bool) (x y : Writer Sink)
    → IsFlushed k x
    → Flushes k (if b then Flushed.success x else Flushed.failure y)
answered k true x y h = h
answered k false x y h = tt

flush_utf8-Flushes :
    (w : Writer Sink) → w.raw ≡ [] → Flushes w.encoding (flush_utf8 write_handler w)
unfolding flush_utf8 set_writer_error
flush_utf8-Flushes w r =
    let (done, sink) = write_handler w.sink w.filled in
    answered w.encoding done _ _ (record { whole = nil; empty = refl; raw = r; encoded = refl })

write_raw-Flushes : (w : Writer Sink) → Flushes w.encoding (write_raw write_handler w)
unfolding write_raw set_writer_error
write_raw-Flushes w =
    let (done, sink) = write_handler w.sink w.raw in
    answered w.encoding done _ _ (record { whole = nil; empty = refl; raw = refl; encoded = refl })

flush_utf16-Flushes :
    (little : Bool) (w : Writer Sink)
    → Whole w.filled
    → length w.filled ≤ output_buffer_size
    → w.raw ≡ []
    → Flushes w.encoding (flush_utf16 write_handler little w)
unfolding flush_utf16
flush_utf16-Flushes little w h l r =
    let (raw, (e, (_, bound))) = length-recode little w.filled h l in
    let fits : leb (length w.raw + length raw) output_raw_buffer_size ≡ true =
      let none_left = ap (λ xs. length xs) r in ground arith in
    rw (e, fits, Flushes)
      (write_raw-Flushes (record w { written = w.filled; filled = []; raw = w.raw ++ raw }))

module _ (w : Writer Sink) (h : Whole w.filled) (l : length w.filled ≤ output_buffer_size)
    (r : w.raw ≡ []) where
  flush_filled-Flushes : (k : Encoding) → Flushes w.encoding (flush_filled write_handler k w)
  unfolding flush_filled
  flush_filled-Flushes Encoding.any_encoding = flush_utf16-Flushes false w h l r
  flush_filled-Flushes Encoding.utf8_encoding = flush_utf8-Flushes w r
  flush_filled-Flushes Encoding.utf16le_encoding = flush_utf16-Flushes true w h l r
  flush_filled-Flushes Encoding.utf16be_encoding = flush_utf16-Flushes false w h l r

  begun-Flushes :
      (written : List ℕ)
      → IsFlushed w.encoding w
      → Flushes w.encoding (
          if none_filled written
          then Flushed.success w
          else flush_filled write_handler w.encoding w)
  unfolding none_filled
  begun-Flushes [] i = i
  begun-Flushes (o ∷ os) i = flush_filled-Flushes w.encoding

flush-Flushes :
    (w : Writer Sink)
    → Whole w.written
    → length w.written ≤ output_buffer_size
    → w.raw ≡ []
    → is_set w.encoding ≡ true
    → Flushes w.encoding (flush write_handler w)
unfolding flush
flush-Flushes w h l r e = rw e (
    begun-Flushes (record w { written = []; filled = w.written }) h l r w.written
      (record { whole = nil; empty = refl; raw = r; encoded = refl }))

-- An output with room for a character more.
pub record IsRoomy (o : Output) : Type 0 where
  pub output : IsOutput o
  pub left : length o.writer.written + 5 < output_buffer_size

flushed :
    (o : Output) (r : Flushed Sink)
    → IsOutput o
    → Flushes o.writer.encoding r
    → Holds IsRoomy (elim r [
      | Flushed.success w ↦ Outcome.done (record o { writer = w })
      | Flushed.failure w ↦ Outcome.failed (record o { writer = w })
      | Flushed.fault ↦ Outcome.fault
    ])
flushed o (Flushed.success w) i f = record {
  output = record {
    whole = f.whole;
    room = omega (arith, f.empty);
    raw = f.raw;
    encoded = rw (f.encoded) (i.encoded);
    small = i.small;
  };
  left = omega (arith, f.empty);
}
flushed o (Flushed.failure w) i f = tt
flushed o Flushed.fault i f = absurd f

pub flush_output-IsRoomy : (o : Output) → IsOutput o → Holds IsRoomy (flush_output o)
unfolding flush_output
flush_output-IsRoomy o i =
    flushed o (flush write_handler o.writer) i
      (flush-Flushes o.writer i.whole i.room i.raw i.encoded)

pub make_room-IsRoomy : (o : Output) → IsOutput o → Holds IsRoomy (make_room o)
unfolding make_room
make_room-IsRoomy o i = elim (Bool-cases (ltb (length o.writer.written + 5) output_buffer_size)) [
  | inl e ↦ rw e (record { output = i; left = ground arith })
  | inr e ↦ rw e (flush_output-IsRoomy o i)
]

-- Success
abbrev pub Succeeds : {A : Type 0} → (A → Type 0) → Outcome A → Type 0
Succeeds Q (Outcome.done a) = Q a
Succeeds Q r = ⊥

pub Succeeds-Holds : {A : Type 0} (Q : A → Type 0) (r : Outcome A) → Succeeds Q r → Holds Q r
Succeeds-Holds Q (Outcome.done a) h = h
Succeeds-Holds Q (Outcome.failed a) h = tt
Succeeds-Holds Q Outcome.fault h = absurd h

pub append-Succeeds :
    (c : List ℕ) (o : Output) → Whole c → length c ≤ 5 → IsRoomy o → Succeeds IsOutput (append c o)
unfolding append
append-Succeeds c o w h i =
    let fits : leb (length o.writer.written + length c) output_buffer_size ≡ true =
      ground (arith, i.left) in
    rw (fits, Succeeds)
      (record {
        whole = Whole-append o.writer.written c (i.output.whole) w;
        room = omega (arith, i.left, length-append o.writer.written c);
        raw = i.output.raw;
        encoded = i.output.encoded;
        small = i.output.small;
      })

pub append-IsOutput :
    (c : List ℕ) (o : Output) → Whole c → length c ≤ 5 → IsRoomy o → Holds IsOutput (append c o)
append-IsOutput c o w h i = Succeeds-Holds IsOutput (append c o) (append-Succeeds c o w h i)

-- FLUSH has nothing to do.
pub make_room_lem : (o : Output) → IsRoomy o → make_room o ≡ Outcome.done o
unfolding make_room
make_room_lem o i =
    let fits : ltb (length o.writer.written + 5) output_buffer_size ≡ true =
      ground (arith, i.left) in
    rw fits refl
