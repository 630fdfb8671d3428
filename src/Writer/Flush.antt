-- ===== src/Writer/Flush.antt =====
-- yaml_emitter_flush and yaml_emitter_set_writer_error (original/src/writer.c).
use Prim.Native.String.{String}
use port_libyaml.Base.{
  ℕ, ◌*◌, ◌+◌, Bool, true, false, List, [], ◌∷◌, ◌++◌, Option, none, some, leb, length,
  if◌then◌else◌,
}
use port_libyaml.Types.Basics.{Encoding, ErrorType}
use port_libyaml.Writer.Recode.{recode}

-- OUTPUT_BUFFER_SIZE and OUTPUT_RAW_BUFFER_SIZE
abbrev pub output_buffer_size : ℕ
output_buffer_size = 16384

abbrev pub output_raw_buffer_size : ℕ
output_raw_buffer_size = output_buffer_size * 2 + 2

-- The writer's part of yaml_emitter_t. `written` is the buffer from `start` to `pointer`, `filled`
-- that from `pointer` to `last`, `raw` the raw buffer from `start` to `last`. `sink` is the state of
-- the application's write handler.
pub record Writer (S : Type 0) : Type 0 where
  pub encoding : Encoding
  pub written : List ℕ
  pub filled : List ℕ
  pub raw : List ℕ
  pub error : ErrorType
  pub problem : Option String
  pub sink : S

-- The return value and the emitter; `fault` where an assertion fails, or the loop reads past the end
-- of the buffer, does not end, or writes past the end of the raw buffer.
pub data Flushed (S : Type 0) : Type 0 where
  success : Writer S → Flushed S
  failure : Writer S → Flushed S
  fault : Flushed S

-- `start == last`
unfoldable pub none_filled : List ℕ → Bool
none_filled [] = true
none_filled (o ∷ os) = false

-- `assert(emitter->encoding)`
unfoldable pub is_set : Encoding → Bool
is_set Encoding.any_encoding = false
is_set _ = true

-- The write handler is the application's: it says whether the bytes were written.
module _ {S : Type 0} (write_handler : S → List ℕ → Bool × S) where
  unfoldable pub set_writer_error : String → Writer S → Flushed S
  set_writer_error problem w =
      Flushed.failure (record w { error = ErrorType.writer_error; problem = some problem })

  -- `encoding == YAML_UTF8_ENCODING`: the buffer is handed over as it is.
  unfoldable pub flush_utf8 : Writer S → Flushed S
  unfolding set_writer_error
  flush_utf8 w =
      let (done, sink) = write_handler w.sink w.filled in
      if done
      then Flushed.success (record w { written = []; filled = []; sink = sink })
      else set_writer_error "write error" (record w { sink = sink })

  -- "Write the raw buffer."
  unfoldable pub write_raw : Writer S → Flushed S
  unfolding set_writer_error
  write_raw w =
      let (done, sink) = write_handler w.sink w.raw in
      if done
      then Flushed.success (record w { written = []; filled = []; raw = []; sink = sink })
      else set_writer_error "write error" (record w { sink = sink })

  -- The loop that recodes the buffer, and what follows it. A character is an octet at least. The loop
  -- only ever appends to the raw buffer, so it has run over where the result does not fit.
  unfoldable pub flush_utf16 : Bool → Writer S → Flushed S
  unfolding write_raw
  flush_utf16 little w = elim (recode little (length w.filled) w.filled) [
    | none ↦ Flushed.fault
    | some raw ↦
        if leb (length w.raw + length raw) output_raw_buffer_size
        then write_raw (record w { written = w.filled; filled = []; raw = w.raw ++ raw })
        else Flushed.fault
  ]

  unfoldable pub flush_filled : Encoding → Writer S → Flushed S
  unfolding flush_utf8 flush_utf16
  flush_filled Encoding.utf8_encoding w = flush_utf8 w
  flush_filled Encoding.utf16le_encoding w = flush_utf16 true w
  flush_filled _ w = flush_utf16 false w

  unfoldable pub flush : Writer S → Flushed S
  unfolding flush_filled none_filled is_set
  flush w =
      let begun = record w { written = []; filled = w.written } in
      if is_set w.encoding
      then (if none_filled w.written then Flushed.success begun else flush_filled w.encoding begun)
      else Flushed.fault
