-- ===== src/Emitter/Safety/Scalars.antt =====
-- Plain and quoted scalars (original/src/emitter.c).
use Prim.Native.Nat.{bit_and}
use port_libyaml.Base.{
  ℕ, zero, suc, ◌*◌, ◌/◌, ◌^◌, ◌<◌, Bool, true, false, not, ◌&&◌, ◌||◌, List, [], ◌∷◌, ◌≡◌, inl,
  inr, arith, Bytes, length, leb, ◌==◌, Option-cases, some,
}
use port_libyaml.Base.Bits.{low_4}
use port_libyaml.Reader.Utf8Checks.{AreBytes}
use port_libyaml.Emitter.Characters.{octet_at, character, check, is_space, is_break}
use port_libyaml.Emitter.Write.{hex_digit, after_text}
use port_libyaml.Emitter.Scalars.{
  Loop, is_over, write_space, write_line_break, write_text, next_plain, write_plain_character,
  at_start, write_plain_scalar, write_quote, write_single_quoted_character, after_single_quoted,
  write_single_quoted_scalar, is_special, escape_letter, put_digits, put_code, write_escape,
  write_special, write_double_quoted_space, write_double_quoted_character, next_double_quoted,
  after_double_quoted, write_double_quoted_scalar,
}
use port_libyaml.Emitter.Safety.Strings.{Whole, AreAscii-Whole}
use port_libyaml.Emitter.Safety.Recoding.{read_character_lem}
use port_libyaml.Emitter.Safety.Output.{Safe}
use port_libyaml.Emitter.Safety.Writes.{
  Safe->>, Safe-if, Safe-test, Safe-when, Safe-skip, put-Safe, put_break-Safe, write-Safe,
  write_break-Safe, loop-Safe, set_indention-Safe,
}
use port_libyaml.Emitter.Safety.Columns.{write_indent-Safe}
use port_libyaml.Emitter.Safety.Tags.{
  separate-Safe, write_indicator-Safe, after_text-Safe, hex_digit-bound,
}

module _ (o : ℕ) (os c rest : List ℕ) (b : AreBytes c)
    (e : character (o ∷ os) ≡ some (c, rest)) where
  pub write_space-Safe : (may_break : Bool) → Safe (write_space may_break (o ∷ os))
  unfolding write_space
  write_space-Safe may_break =
      Safe-test (λ out. may_break && is_over out) write_indent-Safe (write-Safe o os c rest b e)

  write_line_break-Safe : (breaks : Bool) → Safe (write_line_break breaks (o ∷ os))
  unfolding write_line_break
  write_line_break-Safe breaks =
      Safe->> (Safe-when (not breaks && check (o ∷ os) b'\n') put_break-Safe)
        (Safe->> (write_break-Safe o os c rest b e) (set_indention-Safe true))

  pub write_text-Safe : (breaks : Bool) → Safe (write_text breaks (o ∷ os))
  unfolding write_text
  write_text-Safe breaks =
      Safe->> (Safe-when breaks write_indent-Safe)
        (Safe->> (write-Safe o os c rest b e) (set_indention-Safe false))

  write_plain_character-Safe :
      (allow : Bool) (s : Loop) → Safe (write_plain_character allow s (o ∷ os))
  unfolding write_plain_character
  write_plain_character-Safe allow s =
      Safe-if (is_space (o ∷ os)) (write_space-Safe _)
        (Safe-if (is_break (o ∷ os)) (write_line_break-Safe s.breaks) (write_text-Safe s.breaks))

  write_quote-Safe : Safe (write_quote (o ∷ os))
  unfolding write_quote
  write_quote-Safe = Safe-when (check (o ∷ os) b'\'') (put-Safe b'\'' (omega arith))

  write_single_quoted_character-Safe :
      (allow : Bool) (s : Loop) → Safe (write_single_quoted_character allow s (o ∷ os))
  unfolding write_single_quoted_character
  write_single_quoted_character-Safe allow s = Safe-if (is_space (o ∷ os)) (write_space-Safe _) (
      Safe-if (is_break (o ∷ os)) (write_line_break-Safe s.breaks) (
        Safe->> (Safe-when s.breaks write_indent-Safe) (
          Safe->> write_quote-Safe
            (Safe->> (write-Safe o os c rest b e) (set_indention-Safe false)))))

pub write_plain_scalar-Safe :
    (flow : ℕ) (value : Bytes) (allow : Bool)
    → Whole value
    → Safe (write_plain_scalar flow value allow)
unfolding write_plain_scalar
write_plain_scalar-Safe flow value allow w =
    Safe->> (separate-Safe (not (length value == 0) || not (flow == 0))) (
      loop-Safe (write_plain_character allow) next_plain (λ s. after_text)
        (λ s o os c rest b e. write_plain_character-Safe o os c rest b e allow s)
        (λ s. after_text-Safe) (length value) at_start value w (omega arith))

after_single_quoted-Safe : (s : Loop) → Safe (after_single_quoted s)
unfolding after_single_quoted
after_single_quoted-Safe s = Safe->> (Safe-when s.breaks write_indent-Safe) (
    Safe->>
      (write_indicator-Safe (b'\'' ∷ []) false false false (AreAscii-Whole _ (omega arith, tt)))
      after_text-Safe)

pub write_single_quoted_scalar-Safe :
    (value : Bytes) (allow : Bool) → Whole value → Safe (write_single_quoted_scalar value allow)
unfolding write_single_quoted_scalar
write_single_quoted_scalar-Safe value allow w =
    Safe->>
      (write_indicator-Safe (b'\'' ∷ []) true false false (AreAscii-Whole _ (omega arith, tt)))
      (loop-Safe (write_single_quoted_character allow) next_plain after_single_quoted
        (λ s o os c rest b e. write_single_quoted_character-Safe o os c rest b e allow s)
        after_single_quoted-Safe (length value) at_start value w (omega arith))

put_digits-Safe : (k value : ℕ) → Safe (put_digits k value)
unfolding put_digits
put_digits-Safe zero value = Safe-skip
put_digits-Safe (suc k) value =
    let digit = bit_and (value / 2 ^ (k * 4)) 0x0F in
    Safe->>
      (put-Safe (hex_digit digit)
        (hex_digit-bound digit (omega (arith, low_4 (value / 2 ^ (k * 4))))))
      (put_digits-Safe k value)

put_code-Safe : (value : ℕ) → Safe (put_code value)
unfolding put_code
put_code-Safe value =
    Safe-if (leb value 0xFF) (Safe->> (put-Safe b'x' (omega arith)) (put_digits-Safe 2 value)) (
      Safe-if (leb value 0xFFFF) (Safe->> (put-Safe b'u' (omega arith)) (put_digits-Safe 4 value))
        (Safe->> (put-Safe b'U' (omega arith)) (put_digits-Safe 8 value)))

escape_letter-bound : (value c : ℕ) → escape_letter value ≡ some c → c < 0x80
unfolding escape_letter
escape_letter-bound value c e = ground arith

write_escape-Safe : (value : ℕ) → Safe (write_escape value)
unfolding write_escape
write_escape-Safe value =
    Safe->> (put-Safe b'\\' (omega arith)) (elim (Option-cases (escape_letter value)) [
      | inl e ↦ rw e (put_code-Safe value)
      | inr (c, e) ↦ rw e (put-Safe c (escape_letter-bound value c e))
    ])

module _ (o : ℕ) (os c rest : List ℕ) (b : AreBytes c)
    (e : character (o ∷ os) ≡ some (c, rest)) where
  write_special-Safe : Safe (write_special (o ∷ os))
  unfolding write_special
  write_special-Safe =
      let (x, f) = read_character_lem o os c rest e in rw (f, write_special) (write_escape-Safe x)

  write_double_quoted_space-Safe :
      (may_break : Bool) → Safe (write_double_quoted_space may_break (o ∷ os))
  unfolding write_double_quoted_space
  write_double_quoted_space-Safe may_break =
      Safe-test (λ out. may_break && is_over out)
        (Safe->> write_indent-Safe
          (Safe-when (octet_at (o ∷ os) 1 == 0x20) (put-Safe b'\\' (omega arith))))
        (write-Safe o os c rest b e)

  write_double_quoted_character-Safe :
      (allow : Bool) (s : Loop) → Safe (write_double_quoted_character allow s (o ∷ os))
  unfolding write_double_quoted_character
  write_double_quoted_character-Safe allow s =
      Safe-test (λ out. is_special out.unicode (o ∷ os)) write_special-Safe
        (Safe-test (λ out. is_space (o ∷ os))
          (write_double_quoted_space-Safe
            (allow && not s.spaces && not s.first && not (length (o ∷ os) == 1)))
          (write-Safe o os c rest b e))

after_double_quoted-Safe : Safe after_double_quoted
unfolding after_double_quoted
after_double_quoted-Safe =
    Safe->>
      (write_indicator-Safe (b'"' ∷ []) false false false (AreAscii-Whole _ (omega arith, tt)))
      after_text-Safe

pub write_double_quoted_scalar-Safe :
    (value : Bytes) (allow : Bool) → Whole value → Safe (write_double_quoted_scalar value allow)
unfolding write_double_quoted_scalar
write_double_quoted_scalar-Safe value allow w =
    Safe->> (write_indicator-Safe (b'"' ∷ []) true false false (AreAscii-Whole _ (omega arith, tt)))
      (loop-Safe (write_double_quoted_character allow) next_double_quoted (λ s. after_double_quoted)
        (λ s o os c rest b e. write_double_quoted_character-Safe o os c rest b e allow s)
        (λ s. after_double_quoted-Safe) (length value) at_start value w (omega arith))
