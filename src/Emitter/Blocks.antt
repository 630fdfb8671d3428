-- ===== src/Emitter/Blocks.antt =====
-- Literal and folded scalars (original/src/emitter.c).
use Prim.Native.Nat.{bit_and}
use port_libyaml.Base.{
  ℕ, zero, suc, ◌+◌, Bool, true, false, not, ◌&&◌, ◌||◌, List, [], ◌∷◌, Option, none, some, Bytes,
  ◌==◌, length, if◌then◌else◌,
}
use port_libyaml.Reader.Decode.{utf8_width}
use port_libyaml.Emitter.Characters.{octet_at, check, is_space, is_blank, is_blankz, is_break}
use port_libyaml.Emitter.State.{
  ◌>>◌, skip, fail, when, W, put_break, write_break, set_indention, set_whitespace, set_open_ended,
}
use port_libyaml.Emitter.Write.{loop, write_indent, write_indicator}
use port_libyaml.Emitter.Scalars.{write_space, write_text}

-- `do string.pointer --; while ((*string.pointer & 0xC0) == 0x80)`: the octets before the pointer,
-- the last one first, and those from it on; `none` where it leaves the string.
unfoldable pub move_back : List ℕ → List ℕ → Option (List ℕ × List ℕ)
move_back [] string = none
move_back (o ∷ before) string =
    let rest = move_back before (o ∷ string) in
    if bit_and o 0xC0 == 0x80 then rest else some (before, o ∷ string)

unfoldable pub reverse_onto : List ℕ → List ℕ → List ℕ
reverse_onto [] before = before
reverse_onto (o ∷ os) before = reverse_onto os (o ∷ before)

unfoldable pub keep_hint : W
unfolding write_indicator set_open_ended
keep_hint = do set_open_ended 2; write_indicator (b'+' ∷ []) false false false

unfoldable pub strip_hint : W
unfolding write_indicator
strip_hint = write_indicator (b'-' ∷ []) false false false

-- The character before the last one, a break
unfoldable pub write_second_hint : List ℕ → List ℕ → W
unfolding move_back is_break keep_hint
write_second_hint before string = elim (move_back before string) [
  | none ↦ fail
  | some (before', string') ↦ if is_break string' then keep_hint else skip
]

-- The last character, and the octets before it
unfoldable pub write_last_hint : List ℕ → List ℕ → W
unfolding is_break write_second_hint strip_hint keep_hint
write_last_hint [] string = if not (is_break string) then strip_hint else keep_hint
write_last_hint (o ∷ before) string =
    if not (is_break string) then strip_hint else write_second_hint (o ∷ before) string

unfoldable pub write_chomp_hint : Bytes → W
unfolding move_back reverse_onto write_last_hint strip_hint
write_chomp_hint [] = strip_hint
write_chomp_hint (o ∷ os) = elim (move_back (reverse_onto (o ∷ os) []) []) [
  | none ↦ fail
  | some (before, string) ↦ write_last_hint before string
]

-- `indent_hint[0] = '0' + (char)emitter->best_indent`
unfoldable pub write_indent_hint : Bytes → W
unfolding is_space is_break write_indicator
write_indent_hint string o =
    when (is_space string || is_break string)
      (write_indicator ((b'0' + o.best_indent) ∷ []) false false false) o

unfoldable pub write_block_scalar_hints : Bytes → W
unfolding write_indent_hint set_open_ended write_chomp_hint
write_block_scalar_hints string = do
  write_indent_hint string
  set_open_ended 0
  write_chomp_hint string

-- What comes before the lines of a block scalar
unfoldable pub write_block_header : Bytes → Bytes → W
unfolding write_indicator write_block_scalar_hints put_break set_indention set_whitespace
write_block_header indicator value = do
  write_indicator indicator true false false
  write_block_scalar_hints value
  put_break
  set_indention true
  set_whitespace true

-- `breaks`
unfoldable pub write_literal_character : Bool → List ℕ → W
unfolding is_break write_break set_indention write_text
write_literal_character breaks string =
    if is_break string
    then (do write_break string; set_indention true)
    else write_text breaks string

unfoldable pub next_literal : Bool → List ℕ → Bool
unfolding is_break
next_literal breaks string = is_break string

unfoldable pub write_literal_scalar : Bytes → W
unfolding write_block_header loop write_literal_character next_literal
write_literal_scalar value = do
  write_block_header (b'|' ∷ []) value
  loop write_literal_character next_literal (λ s. skip) (length value) true value

-- The loop's variables: `breaks` and `leading_spaces`.
pub record Folded : Type 0 where
  pub breaks : Bool
  pub leading_spaces : Bool

unfoldable pub drop : ℕ → List ℕ → List ℕ
drop zero os = os
drop (suc n) [] = []
drop (suc n) (o ∷ os) = drop n os

-- `while (IS_BREAK_AT(string, k)) k += WIDTH_AT(string, k)`: the string from `k` on. A round for each
-- unit of fuel.
unfoldable pub skip_breaks : ℕ → List ℕ → List ℕ
unfolding is_break octet_at drop
skip_breaks zero string = string
skip_breaks (suc n) string =
    let rest = skip_breaks n (drop (utf8_width (octet_at string 0)) string) in
    if is_break string then rest else string

-- `leading_spaces` where it is read
unfoldable pub leading : Folded → List ℕ → Bool
unfolding is_blank
leading s string = if s.breaks then is_blank string else s.leading_spaces

unfoldable pub next_folded : Folded → List ℕ → Folded
unfolding is_break leading
next_folded s string =
    if is_break string
    then record { breaks = true; leading_spaces = s.leading_spaces }
    else record { breaks = false; leading_spaces = leading s string }

unfoldable pub write_folded_break : Folded → List ℕ → W
unfolding check skip_breaks is_blankz put_break write_break set_indention
write_folded_break s string = do
  when
      (not s.breaks
        && not s.leading_spaces
        && check string b'\n'
        && not (is_blankz (skip_breaks (length string) string)))
      put_break
  write_break string
  set_indention true

unfoldable pub write_folded_text : Folded → List ℕ → W
unfolding write_indent is_space octet_at write_space set_indention
write_folded_text s string = do
  when s.breaks write_indent
  write_space (not s.breaks && is_space string && not (octet_at string 1 == 0x20)) string
  set_indention false

unfoldable pub write_folded_character : Folded → List ℕ → W
unfolding is_break write_folded_break write_folded_text
write_folded_character s string =
    if is_break string then write_folded_break s string else write_folded_text s string

unfoldable pub write_folded_scalar : Bytes → W
unfolding write_block_header loop write_folded_character next_folded
write_folded_scalar value = do
  write_block_header (b'>' ∷ []) value
  loop write_folded_character next_folded (λ s. skip) (length value)
      (record { breaks = true; leading_spaces = true }) value
