-- ===== src/Emitter/Safety/Blocks.antt =====
-- Literal and folded scalars (original/src/emitter.c).
use Prim.Native.Nat.{bit_and}
use port_libyaml.Base.{
  refl, ℕ, ◌+◌, ◌≤◌, Bool, true, false, not, ◌||◌, List, [], ◌∷◌, ◌≡◌, inl, inr, arith, Bytes,
  length, Bool-cases, ◌==◌, some,
}
use port_libyaml.Base.Bits.{high_1, high_2, high_3, high_4, high_5}
use port_libyaml.Reader.Decode.{utf8_width}
use port_libyaml.Reader.Utf8Checks.{AreBytes}
use port_libyaml.Emitter.Characters.{character, is_space, is_break}
use port_libyaml.Emitter.State.{skip}
use port_libyaml.Emitter.Blocks.{
  move_back, reverse_onto, keep_hint, strip_hint, write_second_hint, write_last_hint,
  write_chomp_hint, write_indent_hint, write_block_scalar_hints, write_block_header,
  write_literal_character, next_literal, write_literal_scalar, Folded, next_folded,
  write_folded_break, write_folded_text, write_folded_character, write_folded_scalar,
}
use port_libyaml.Emitter.Safety.Strings.{Whole, next, AreAscii-Whole, character_lem}
use port_libyaml.Emitter.Safety.Output.{Safe}
use port_libyaml.Emitter.Safety.Writes.{
  Safe->>, Safe-if, Safe-when, Safe-skip, put_break-Safe, write_break-Safe, loop-Safe,
  set_indention-Safe, set_whitespace-Safe, set_open_ended-Safe,
}
use port_libyaml.Emitter.Safety.Columns.{write_indent-Safe}
use port_libyaml.Emitter.Safety.Tags.{write_indicator-Safe}
use port_libyaml.Emitter.Safety.Scalars.{write_space-Safe, write_text-Safe}

-- The octets before the pointer, the last one first, end with one that starts a character.
StartsWell : List ℕ → Type 0
StartsWell [] = ⊥
StartsWell (o ∷ []) = (bit_and o 0xC0 == 0x80) ≡ false
StartsWell (o ∷ p ∷ os) = StartsWell (p ∷ os)

-- Where a pointer moves back to.
record Back (before string : List ℕ) : Type 0 where
  left : List ℕ
  found : List ℕ
  moves : move_back before string ≡ some (left, found)
  well : (o : ℕ) (os : List ℕ) → left ≡ o ∷ os → StartsWell left

move_back_lem : (before string : List ℕ) → StartsWell before → Back before string
unfolding move_back StartsWell
move_back_lem [] string h = absurd h
move_back_lem (o ∷ []) string h = record {
  left = [];
  found = o ∷ string;
  moves = rw h refl;
  well = λ o os e. absurd (ground arith);
}
move_back_lem (o ∷ p ∷ os) string h = elim (Bool-cases (bit_and o 0xC0 == 0x80)) [
  | inl e ↦
      let b = move_back_lem (p ∷ os) (o ∷ string) h in
      record { left = b.left; found = b.found; moves = rw (e, move_back) (b.moves); well = b.well }
  | inr e ↦ record {
    left = p ∷ os;
    found = o ∷ string;
    moves = rw (e, move_back) refl;
    well = λ a as' f. h;
  }
]

StartsWell-reverse_onto :
    (os before : List ℕ) → StartsWell before → StartsWell (reverse_onto os before)
unfolding reverse_onto StartsWell
StartsWell-reverse_onto [] before h = h
StartsWell-reverse_onto (o ∷ os) [] h = absurd h
StartsWell-reverse_onto (o ∷ os) (p ∷ before) h = StartsWell-reverse_onto os (o ∷ p ∷ before) h

width-positive : (o : ℕ) → 1 ≤ utf8_width o → (bit_and o 0xC0 == 0x80) ≡ false
unfolding utf8_width
width-positive o h = ground (arith, high_1 o, high_2 o, high_3 o, high_4 o, high_5 o)

Whole-StartsWell : (o : ℕ) (os : List ℕ) → Whole (o ∷ os) → StartsWell (reverse_onto (o ∷ os) [])
unfolding reverse_onto StartsWell
Whole-StartsWell o os (next {c = c} {rest = rest} b e w) =
    let i = character_lem o os c rest e in
    StartsWell-reverse_onto os (o ∷ []) (width-positive o (omega (arith, i.positive, i.counts)))

strip_hint-Safe : Safe strip_hint
unfolding strip_hint
strip_hint-Safe =
    write_indicator-Safe (b'-' ∷ []) false false false (AreAscii-Whole _ (omega arith, tt))

keep_hint-Safe : Safe keep_hint
unfolding keep_hint
keep_hint-Safe =
    Safe->> (set_open_ended-Safe 2)
      (write_indicator-Safe (b'+' ∷ []) false false false (AreAscii-Whole _ (omega arith, tt)))

write_second_hint-Safe :
    (before string : List ℕ) → StartsWell before → Safe (write_second_hint before string)
unfolding write_second_hint
write_second_hint-Safe before string h =
    let b = move_back_lem before string h in
    rw (b.moves, write_second_hint) (Safe-if (is_break b.found) keep_hint-Safe Safe-skip)

write_last_hint-Safe :
    (before string : List ℕ)
    → ((o : ℕ) (os : List ℕ) → before ≡ o ∷ os → StartsWell before)
    → Safe (write_last_hint before string)
unfolding write_last_hint
write_last_hint-Safe [] string h = Safe-if (not (is_break string)) strip_hint-Safe keep_hint-Safe
write_last_hint-Safe (o ∷ before) string h =
    Safe-if (not (is_break string)) strip_hint-Safe
      (write_second_hint-Safe (o ∷ before) string (h o before refl))

write_chomp_hint-Safe : (value : Bytes) → Whole value → Safe (write_chomp_hint value)
unfolding write_chomp_hint
write_chomp_hint-Safe [] w = strip_hint-Safe
write_chomp_hint-Safe (o ∷ os) w =
    let b = move_back_lem (reverse_onto (o ∷ os) []) [] (Whole-StartsWell o os w) in
    rw (b.moves, write_chomp_hint) (write_last_hint-Safe b.left b.found (b.well))

-- The hint is a digit.
write_indent_hint-Safe : (value : Bytes) → Safe (write_indent_hint value)
unfolding write_indent_hint
write_indent_hint-Safe value = record {
  run = λ o i.
      (Safe-when (is_space value || is_break value) (
          write_indicator-Safe ((b'0' + o.best_indent) ∷ []) false false false
            (AreAscii-Whole _ (omega (arith, i.small), tt)))).run
        o i;
}

write_block_header-Safe :
    (indicator value : Bytes)
    → Whole indicator
    → Whole value
    → Safe (write_block_header indicator value)
unfolding write_block_header write_block_scalar_hints
write_block_header-Safe indicator value v w =
    Safe->> (write_indicator-Safe indicator true false false v) (
      Safe->>
        (Safe->> (write_indent_hint-Safe value)
          (Safe->> (set_open_ended-Safe 0) (write_chomp_hint-Safe value w)))
        (Safe->> put_break-Safe (Safe->> (set_indention-Safe true) (set_whitespace-Safe true))))

module _ (o : ℕ) (os c rest : List ℕ) (b : AreBytes c)
    (e : character (o ∷ os) ≡ some (c, rest)) where
  write_literal_character-Safe : (breaks : Bool) → Safe (write_literal_character breaks (o ∷ os))
  unfolding write_literal_character
  write_literal_character-Safe breaks =
      Safe-if (is_break (o ∷ os))
        (Safe->> (write_break-Safe o os c rest b e) (set_indention-Safe true))
        (write_text-Safe o os c rest b e breaks)

  write_folded_break-Safe : (s : Folded) → Safe (write_folded_break s (o ∷ os))
  unfolding write_folded_break
  write_folded_break-Safe s =
      Safe->> (Safe-when _ put_break-Safe)
        (Safe->> (write_break-Safe o os c rest b e) (set_indention-Safe true))

  write_folded_text-Safe : (s : Folded) → Safe (write_folded_text s (o ∷ os))
  unfolding write_folded_text
  write_folded_text-Safe s =
      Safe->> (Safe-when s.breaks write_indent-Safe)
        (Safe->> (write_space-Safe o os c rest b e _) (set_indention-Safe false))

  write_folded_character-Safe : (s : Folded) → Safe (write_folded_character s (o ∷ os))
  unfolding write_folded_character
  write_folded_character-Safe s =
      Safe-if (is_break (o ∷ os)) (write_folded_break-Safe s) (write_folded_text-Safe s)

pub write_literal_scalar-Safe : (value : Bytes) → Whole value → Safe (write_literal_scalar value)
unfolding write_literal_scalar
write_literal_scalar-Safe value w =
    Safe->> (write_block_header-Safe (b'|' ∷ []) value (AreAscii-Whole _ (omega arith, tt)) w) (
      loop-Safe write_literal_character next_literal (λ s. skip)
        (λ s o os c rest b e. write_literal_character-Safe o os c rest b e s) (λ s. Safe-skip)
        (length value) true value w (omega arith))

pub write_folded_scalar-Safe : (value : Bytes) → Whole value → Safe (write_folded_scalar value)
unfolding write_folded_scalar
write_folded_scalar-Safe value w =
    Safe->> (write_block_header-Safe (b'>' ∷ []) value (AreAscii-Whole _ (omega arith, tt)) w) (
      loop-Safe write_folded_character next_folded (λ s. skip)
        (λ s o os c rest b e. write_folded_character-Safe o os c rest b e s) (λ s. Safe-skip)
        (length value) (record { breaks = true; leading_spaces = true }) value w (omega arith))
