-- ===== src/Emitter/State.antt =====
-- yaml_emitter_t (original/include/yaml.h), and the macros FLUSH, PUT, PUT_BREAK, WRITE and
-- WRITE_BREAK of original/src/emitter.c.
use port_libyaml.Base.{
  ℕ, ◌+◌, Bool, true, false, List, [], ◌∷◌, ◌++◌, Option, none, some, Bytes, ltb, leb, length,
  if◌then◌else◌,
}
use port_libyaml.Writer.Flush.{Writer, Flushed, flush, output_buffer_size}
use port_libyaml.Emitter.Characters.{character, check}

-- `return 1`, `return 0`, and `fault` for what C leaves undefined: a pop of an empty stack, a read
-- past the end of a string, a write past the end of the buffer, a failed assertion; and for a loop
-- that does not end.
pub data Outcome (A : Type 0) : Type 0 where
  done failed : A → Outcome A
  fault : Outcome A

abbrev pub Op : Type 0 → Type 0
Op A = A → Outcome A

-- `if (!m) return 0;`, and what follows it
infixl 5 ◌>>◌
abbrev pub ◌>>◌ : {A : Type 0} → Op A → Op A → Op A
◌>>◌ m k a = elim (m a) [
  | Outcome.done a' ↦ k a'
  | Outcome.failed a' ↦ Outcome.failed a'
  | Outcome.fault ↦ Outcome.fault
]

abbrev pub skip : {A : Type 0} → Op A
skip a = Outcome.done a

abbrev pub fail : {A : Type 0} → Op A
fail a = Outcome.fault

abbrev pub when : {A : Type 0} → Bool → Op A → Op A
when b m = if b then m else skip

-- What the emitter sees of the application's write handler: its answers, and past their end it takes
-- all. `taken` are the strings that it took.
pub record Sink : Type 0 where
  pub answers : List Bool
  pub taken : List Bytes

unfoldable pub write_handler : Sink → List ℕ → Bool × Sink
write_handler s octets = elim s.answers [
  | [] ↦ (true, record s { taken = s.taken ++ octets ∷ [] })
  | true ∷ more ↦ (true, record { answers = more; taken = s.taken ++ octets ∷ [] })
  | false ∷ more ↦ (false, record s { answers = more })
]

pub data Break : Type 0 where
  any_break cr_break ln_break crln_break : Break

-- The output and its settings. A level of indentation and a width that are -1 are `none`.
pub record Output : Type 0 where
  pub writer : Writer Sink
  pub canonical : Bool
  pub best_indent : ℕ
  pub best_width : Option ℕ
  pub unicode : Bool
  pub line_break : Break
  pub indent : Option ℕ
  pub line : ℕ
  pub column : ℕ
  pub whitespace : Bool
  pub indention : Bool
  pub open_ended : ℕ

abbrev pub W : Type 0
W = Op Output

unfoldable pub flush_output : W
unfolding flush
flush_output o = elim (flush write_handler o.writer) [
  | Flushed.success w ↦ Outcome.done (record o { writer = w })
  | Flushed.failure w ↦ Outcome.failed (record o { writer = w })
  | Flushed.fault ↦ Outcome.fault
]

-- FLUSH
unfoldable pub make_room : W
unfolding flush_output
make_room o =
    if ltb (length o.writer.written + 5) output_buffer_size then Outcome.done o else flush_output o

-- `*(emitter->buffer.pointer++) = …`, for so many octets
unfoldable pub append : List ℕ → W
append octets o =
    if leb (length o.writer.written + length octets) output_buffer_size
    then Outcome.done
        (record o { writer = record (o.writer) { written = o.writer.written ++ octets } })
    else Outcome.fault

unfoldable pub next_column : W
next_column o = Outcome.done (record o { column = o.column + 1 })

unfoldable pub next_line : W
next_line o = Outcome.done (record o { column = 0; line = o.line + 1 })

unfoldable pub put : ℕ → W
unfolding make_room append next_column
put value = do make_room; append (value ∷ []); next_column

unfoldable pub break_octets : Break → List ℕ
break_octets Break.any_break = []
break_octets Break.cr_break = b'\r' ∷ []
break_octets Break.ln_break = b'\n' ∷ []
break_octets Break.crln_break = b'\r' ∷ b'\n' ∷ []

unfoldable pub put_break : W
unfolding make_room append next_line break_octets
put_break = do make_room; λ o. append (break_octets o.line_break) o; next_line

-- COPY
unfoldable pub copy : List ℕ → W
unfolding append
copy string = elim (character string) [ none ↦ fail | some (c, rest) ↦ append c ]

unfoldable pub write : List ℕ → W
unfolding make_room copy next_column
write string = do make_room; copy string; next_column

-- A result that is not looked at
unfoldable pub ignoring : W → W
ignoring m o = elim (m o) [
  | Outcome.done o' ↦ Outcome.done o'
  | Outcome.failed o' ↦ Outcome.done o'
  | Outcome.fault ↦ Outcome.fault
]

unfoldable pub write_break : List ℕ → W
unfolding make_room copy next_line put_break ignoring
write_break string = do
  make_room
  if check string b'\n' then ignoring put_break else (do copy string; next_line)

unfoldable pub set_indention : Bool → W
set_indention b o = Outcome.done (record o { indention = b })

unfoldable pub set_whitespace : Bool → W
set_whitespace b o = Outcome.done (record o { whitespace = b })

unfoldable pub set_open_ended : ℕ → W
set_open_ended n o = Outcome.done (record o { open_ended = n })
