-- ===== src/Writer/Delivery.antt =====
-- What yaml_emitter_flush hands to the write handler, and the emitter it leaves behind
-- (original/src/writer.c).
use port_libyaml.Base.{
  ℕ, ◌+◌, ◌≤◌, leb, ap, Bool, true, false, List, [], ◌++◌, some, ◌≡◌, ◌∙◌, refl, arith, append-nil,
  length, if◌then◌else◌,
}
use port_libyaml.Types.Basics.{Encoding, ErrorType}
use port_libyaml.Writer.Recode.{recode}
use port_libyaml.Writer.Utf16.{utf16_encoding}
use port_libyaml.Writer.Flush.{
  Writer, Flushed, none_filled, is_set, flush, flush_filled, flush_utf8, flush_utf16, write_raw,
  output_buffer_size, output_raw_buffer_size,
}
use port_libyaml.Writer.Valid.{AreScalars, utf8_text, utf16_text, recode-utf8_text}
use port_libyaml.Writer.Texts.{
  utf16_bytes_text, text_in, AreEncodable, AreWritable, AreEncodable-AreScalars,
  utf16_text-utf16_bytes_text, length-utf16_text,
}

-- Where the handler has taken the bytes, the buffers are empty; where it has not, the writer's error
-- is set, and the buffer still holds the text.
abbrev pub Delivered : {S : Type 0} → Bool → Writer S → S → Flushed S → Type 0
Delivered true w sink (Flushed.success w') =
    (w'.written ≡ []) × (w'.filled ≡ []) × (w'.raw ≡ []) × (w'.sink ≡ sink) × (w'.error ≡ w.error)
Delivered false w sink (Flushed.failure w') =
    (w'.written ++ w'.filled ≡ w.written) × (w'.sink ≡ sink) × (w'.error ≡ ErrorType.writer_error)
Delivered done w sink r = ⊥

-- Another call, where the first has failed.
abbrev pub after_failure : {S : Type 0} → (Writer S → Flushed S) → Flushed S → Flushed S
after_failure f (Flushed.success w) = Flushed.success w
after_failure f (Flushed.failure w) = f w
after_failure f Flushed.fault = Flushed.fault

-- A call that has handed over `bytes`: the raw buffer is empty, or still holds them.
abbrev pub Handed : {S : Type 0} → Bool → S → List ℕ → Flushed S → Type 0
Handed true sink bytes (Flushed.success w) = (w.raw ≡ []) × (w.sink ≡ sink)
Handed false sink bytes (Flushed.failure w) = (w.raw ≡ bytes) × (w.sink ≡ sink)
Handed done sink bytes r = ⊥

-- The same, where the bytes fit the raw buffer; it is run over elsewhere.
abbrev pub Fitting : {S : Type 0} → Bool → Bool → S → List ℕ → Flushed S → Type 0
Fitting true done sink bytes r = Handed done sink bytes r
Fitting false done sink bytes r = r ≡ Flushed.fault

-- A call that hands a text over twice.
abbrev pub Doubled : {S : Type 0} → Bool → S → List ℕ → Flushed S → Type 0
Doubled done sink text r =
    Fitting (leb (length text + length text) output_raw_buffer_size) done sink (text ++ text) r

module _ {S : Type 0} (write_handler : S → List ℕ → Bool × S) where
  write_raw-Delivered :
      (w₀ w : Writer S) (done : Bool) (sink : S)
      → write_handler w.sink w.raw ≡ (done, sink)
      → w.written ++ w.filled ≡ w₀.written
      → w.error ≡ w₀.error
      → Delivered done w₀ sink (write_raw write_handler w)
  unfolding write_raw
  write_raw-Delivered w₀ w true sink h kept e = rw h (refl, refl, refl, refl, e)
  write_raw-Delivered w₀ w false sink h kept e = rw h (kept, refl, refl)

  flush_utf8-Delivered :
      (w₀ w : Writer S) (done : Bool) (sink : S)
      → write_handler w.sink w.filled ≡ (done, sink)
      → w.written ++ w.filled ≡ w₀.written
      → w.raw ≡ []
      → w.error ≡ w₀.error
      → Delivered done w₀ sink (flush_utf8 write_handler w)
  unfolding flush_utf8
  flush_utf8-Delivered w₀ w true sink h kept raw e = rw h (refl, refl, raw, refl, e)
  flush_utf8-Delivered w₀ w false sink h kept raw e = rw h (kept, refl, refl)

  -- The loop appends the recoded text to the raw buffer, whatever stands there, and runs over it where
  -- it does not fit.
  flush_utf16_lem :
      (little : Bool) (w : Writer S) (vs : List ℕ)
      → AreScalars vs
      → w.filled ≡ utf8_text vs
      → flush_utf16 write_handler little w ≡ (
          if leb (length w.raw + length (utf16_text little vs)) output_raw_buffer_size
          then write_raw write_handler
              (record w { written = w.filled; filled = []; raw = w.raw ++ utf16_text little vs })
          else Flushed.fault)
  unfolding flush_utf16
  flush_utf16_lem little w vs s h =
      let recoded : recode little (length w.filled) w.filled ≡ some (utf16_text little vs) =
        rw h (recode-utf8_text little (length (utf8_text vs)) vs s (omega arith)) in
      rw (recoded, flush_utf16) refl

  flush_utf16-Delivered :
      (little : Bool) (w₀ w : Writer S) (vs : List ℕ) (done : Bool) (sink : S)
      → AreEncodable vs
      → w.filled ≡ utf8_text vs
      → length w.filled ≤ output_buffer_size
      → w.raw ≡ []
      → write_handler w.sink (utf16_bytes_text little vs) ≡ (done, sink)
      → w.filled ≡ w₀.written
      → w.error ≡ w₀.error
      → Delivered done w₀ sink (flush_utf16 write_handler little w)
  flush_utf16-Delivered little w₀ w vs done sink encodable text l raw h kept e =
      let scalars = AreEncodable-AreScalars vs encodable in
      let t = utf16_text little vs in
      let handed : w.raw ++ t ≡ utf16_bytes_text little vs =
        rw raw (utf16_text-utf16_bytes_text little vs encodable) in
      let fits : leb (length w.raw + length t) output_raw_buffer_size ≡ true =
        let none_left = ap (λ xs. length xs) raw in
        let same = ap (λ xs. length xs) text in
        ground (arith, length-utf16_text little vs scalars) in
      rw (flush_utf16_lem little w vs scalars text, fits)
        (write_raw-Delivered w₀ (record w { written = w.filled; filled = []; raw = w.raw ++ t })
          done sink (rw handed h) (append-nil w.filled ∙ kept) e)

  filled-Delivered :
      (encoding : Encoding) (w₀ w : Writer S) (vs : List ℕ) (done : Bool) (sink : S)
      → is_set encoding ≡ true
      → AreWritable encoding vs
      → w.filled ≡ utf8_text vs
      → length w.filled ≤ output_buffer_size
      → w.raw ≡ []
      → w.written ≡ []
      → write_handler w.sink (text_in encoding vs) ≡ (done, sink)
      → w.filled ≡ w₀.written
      → w.error ≡ w₀.error
      → Delivered done w₀ sink (flush_filled write_handler encoding w)
  unfolding flush_filled is_set
  filled-Delivered Encoding.any_encoding w₀ w vs done sink set scalars text l raw start h kept e =
      absurd (ground arith)
  filled-Delivered Encoding.utf8_encoding w₀ w vs done sink set scalars text l raw start h kept e =
      flush_utf8-Delivered w₀ w done sink (rw text h) (rw start kept) raw e
  filled-Delivered Encoding.utf16le_encoding w₀ w vs done sink set scalars text l raw start h kept
        e =
      flush_utf16-Delivered true w₀ w vs done sink scalars text l raw h kept e
  filled-Delivered Encoding.utf16be_encoding w₀ w vs done sink set scalars text l raw start h kept
        e =
      flush_utf16-Delivered false w₀ w vs done sink scalars text l raw h kept e

  -- yaml_emitter_flush, with a text in the buffer, which has no more than OUTPUT_BUFFER_SIZE bytes: the
  -- write handler is called with the text in the encoding of the output. Where it takes the bytes, the
  -- buffers are empty and no error is set; where it does not, the writer's error is set and the buffer
  -- holds the text. The encoding is set, the text is not empty, and the raw buffer is empty before; for
  -- UTF-16, bits 10 to 15 of the offset from U+10000 are 0 in every character past the first plane.
  pub flush-text_in :
      (w : Writer S) (vs : List ℕ) (done : Bool) (sink : S)
      → AreWritable w.encoding vs
      → w.written ≡ utf8_text vs
      → length w.written ≤ output_buffer_size
      → w.raw ≡ []
      → is_set w.encoding ≡ true
      → none_filled w.written ≡ false
      → write_handler w.sink (text_in w.encoding vs) ≡ (done, sink)
      → Delivered done w sink (flush write_handler w)
  unfolding flush
  flush-text_in w vs done sink writable text l raw set filled h =
      rw (set, filled)
        (filled-Delivered w.encoding w (record w { written = []; filled = w.written }) vs done sink
          set writable text l raw refl h refl refl)

  -- flush_utf16 behind the checks of flush.
  flush-flush_utf16 :
      (little : Bool) (w : Writer S)
      → w.encoding ≡ utf16_encoding little
      → none_filled w.written ≡ false
      → flush write_handler w
        ≡ flush_utf16 write_handler little (record w { written = []; filled = w.written })
  unfolding flush flush_filled is_set
  flush-flush_utf16 true w e filled = rw (e, filled) refl
  flush-flush_utf16 false w e filled = rw (e, filled) refl

  write_raw_refused :
      (w : Writer S) (refused : S)
      → write_handler w.sink w.raw ≡ (false, refused)
      → write_raw write_handler w
        ≡ Flushed.failure (record w {
          error = ErrorType.writer_error;
          problem = some "write error";
          sink = refused;
        })
  unfolding write_raw
  write_raw_refused w refused h = rw h refl

  write_raw-Handed :
      (w : Writer S) (done : Bool) (sink : S) (bytes : List ℕ)
      → w.raw ≡ bytes
      → write_handler w.sink bytes ≡ (done, sink)
      → Handed done sink bytes (write_raw write_handler w)
  unfolding write_raw
  write_raw-Handed w true sink bytes e h = rw (e, h) (refl, refl)
  write_raw-Handed w false sink bytes e h = rw (e, h) (refl, refl)

  doubled :
      (b done : Bool) (sink : S) (bytes : List ℕ) (r : Flushed S)
      → Handed done sink bytes r
      → Fitting b done sink bytes (if b then r else Flushed.fault)
  doubled true done sink bytes r h = h
  doubled false done sink bytes r h = refl

  second_flush :
      (little : Bool) (w : Writer S) (t : List ℕ) (vs : List ℕ) (done : Bool) (sink : S)
      → AreScalars vs
      → w.filled ≡ utf8_text vs
      → utf16_text little vs ≡ t
      → w.raw ≡ t
      → write_handler w.sink (t ++ t) ≡ (done, sink)
      → Doubled done sink t (flush_utf16 write_handler little w)
  second_flush little w t vs done sink scalars text same raw h =
      let room : leb (length w.raw + length t) output_raw_buffer_size
          ≡ leb (length t + length t) output_raw_buffer_size =
        ap (λ xs. leb (length xs + length t) output_raw_buffer_size) raw in
      rw (flush_utf16_lem little w vs scalars text, same, room)
        (doubled (leb (length t + length t) output_raw_buffer_size) done sink (t ++ t) _ (
          write_raw-Handed (record w { written = w.filled; filled = []; raw = w.raw ++ t }) done
            sink (t ++ t) (ap (λ xs. xs ++ t) raw) h))

  -- In UTF-16, with a text of no more than OUTPUT_BUFFER_SIZE bytes in the buffer: where the write
  -- handler refuses the text, the next yaml_emitter_flush recodes it behind the bytes that are still in
  -- the raw buffer, and hands it over twice where both fit there; where they do not, it writes past the
  -- end of the raw buffer. The text is not empty, bits 10 to 15 of the offset from U+10000 are 0 in
  -- every character past the first plane, and the raw buffer is empty before.
  pub flush-flush :
      (little : Bool) (w : Writer S) (vs : List ℕ) (refused : S) (done : Bool) (sink : S)
      → AreEncodable vs
      → w.written ≡ utf8_text vs
      → length w.written ≤ output_buffer_size
      → w.raw ≡ []
      → w.encoding ≡ utf16_encoding little
      → none_filled w.written ≡ false
      → write_handler w.sink (utf16_bytes_text little vs) ≡ (false, refused)
      → write_handler refused (utf16_bytes_text little vs ++ utf16_bytes_text little vs)
        ≡ (done, sink)
      → Doubled done sink
          (utf16_bytes_text little vs)
          (after_failure (flush write_handler) (flush write_handler w))
  flush-flush little w vs refused done sink encodable text l raw e filled h₁ h₂ =
      let scalars = AreEncodable-AreScalars vs encodable in
      let t = utf16_text little vs in
      let same = utf16_text-utf16_bytes_text little vs encodable in
      let first : w.raw ++ t ≡ utf16_bytes_text little vs = rw raw same in
      let fits : leb (length w.raw + length t) output_raw_buffer_size ≡ true =
        let none_left = ap (λ xs. length xs) raw in
        let whole = ap (λ xs. length xs) text in
        ground (arith, length-utf16_text little vs scalars) in
      let w₁ = record w { filled = []; raw = w.raw ++ t } in
      let w₂ = record w₁ {
        error = ErrorType.writer_error;
        problem = some "write error";
        sink = refused;
      } in
      let recoded : flush_utf16 write_handler little (record w { written = []; filled = w.written })
          ≡ write_raw write_handler w₁ =
        flush_utf16_lem little (record w { written = []; filled = w.written }) vs scalars text
        ∙ rw fits refl in
      let failed : flush write_handler w ≡ Flushed.failure w₂ =
        flush-flush_utf16 little w e filled
        ∙ recoded
        ∙ write_raw_refused w₁ refused (rw first h₁) in
      rw (failed, flush-flush_utf16 little w₂ e filled)
        (second_flush little (record w₂ { written = []; filled = w.written })
          (utf16_bytes_text little vs) vs done sink scalars text same first h₂)
