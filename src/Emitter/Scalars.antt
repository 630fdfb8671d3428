-- ===== src/Emitter/Scalars.antt =====
-- Plain, single-quoted and double-quoted scalars (original/src/emitter.c).
use Prim.Native.Nat.{bit_and}
use port_libyaml.Base.{
  ℕ, zero, suc, ◌*◌, ◌/◌, ◌^◌, Bool, true, false, not, ◌&&◌, ◌||◌, List, [], ◌∷◌, Option, none,
  some, Bytes, ◌==◌, ltb, leb, length, if◌then◌else◌,
}
use port_libyaml.Writer.Recode.{read_character}
use port_libyaml.Emitter.Characters.{
  octet_at, check, is_ascii, is_printable, is_bom, is_space, is_break,
}
use port_libyaml.Emitter.State.{
  ◌>>◌, skip, fail, when, Output, W, put, put_break, write, write_break, set_indention,
}
use port_libyaml.Emitter.Write.{
  loop, write_indent, separate, write_indicator, after_text, hex_digit,
}

-- The loop's variables: `pointer == start`, `spaces` and `breaks`.
pub record Loop : Type 0 where
  pub first : Bool
  pub spaces : Bool
  pub breaks : Bool

-- `column > best_width`
unfoldable pub is_over : Output → Bool
is_over o = elim o.best_width [ none ↦ true | some n ↦ ltb n o.column ]

-- A space, which a break takes the place of where the line is full.
unfoldable pub write_space : Bool → List ℕ → W
unfolding is_over write_indent write
write_space may_break string o = if may_break && is_over o then write_indent o else write string o

unfoldable pub write_line_break : Bool → List ℕ → W
unfolding check put_break write_break set_indention
write_line_break breaks string = do
  when (not breaks && check string b'\n') put_break
  write_break string
  set_indention true

unfoldable pub write_text : Bool → List ℕ → W
unfolding write_indent write set_indention
write_text breaks string = do when breaks write_indent; write string; set_indention false

abbrev pub at_start : Loop
at_start = record { first = true; spaces = false; breaks = false }

-- `spaces` and `breaks` behind a character
unfoldable pub next_plain : Loop → List ℕ → Loop
unfolding is_space is_break
next_plain s string =
    if is_space string
    then record { first = false; spaces = true; breaks = s.breaks }
    else if is_break string
    then record { first = false; spaces = s.spaces; breaks = true }
    else record { first = false; spaces = false; breaks = false }

unfoldable pub write_plain_character : Bool → Loop → List ℕ → W
unfolding is_space is_break octet_at write_space write_line_break write_text
write_plain_character allow_breaks s string =
    if is_space string
    then write_space (allow_breaks && not s.spaces && not (octet_at string 1 == 0x20)) string
    else if is_break string
    then write_line_break s.breaks string
    else write_text s.breaks string

-- `!emitter->whitespace && (length || emitter->flow_level)`
unfoldable pub write_plain_scalar : ℕ → Bytes → Bool → W
unfolding separate loop write_plain_character next_plain after_text
write_plain_scalar flow_level value allow_breaks = do
  separate (not (length value == 0) || not (flow_level == 0))
  loop (write_plain_character allow_breaks) next_plain (λ s. after_text) (length value) at_start
      value

unfoldable pub write_quote : List ℕ → W
unfolding check put
write_quote string = when (check string b'\'') (put b'\'')

unfoldable pub write_single_quoted_character : Bool → Loop → List ℕ → W
unfolding is_space is_break octet_at write_space write_line_break write_indent write_quote write
    set_indention
write_single_quoted_character allow_breaks s string =
    if is_space string
    then write_space
        (allow_breaks
          && not s.spaces
          && not s.first
          && not (length string == 1)
          && not (octet_at string 1 == 0x20))
        string
    else if is_break string
    then write_line_break s.breaks string
    else (do when s.breaks write_indent; write_quote string; write string; set_indention false)

unfoldable pub after_single_quoted : Loop → W
unfolding write_indent write_indicator after_text
after_single_quoted s = do
  when s.breaks write_indent
  write_indicator (b'\'' ∷ []) false false false
  after_text

unfoldable pub write_single_quoted_scalar : Bytes → Bool → W
unfolding write_indicator loop write_single_quoted_character next_plain after_single_quoted
write_single_quoted_scalar value allow_breaks = do
  write_indicator (b'\'' ∷ []) true false false
  loop (write_single_quoted_character allow_breaks) next_plain after_single_quoted (length value)
      at_start value

-- The characters that are escaped
unfoldable pub is_special : Bool → List ℕ → Bool
unfolding is_printable is_ascii is_bom is_break check
is_special unicode string =
    not (is_printable string)
    || (not unicode && not (is_ascii string))
    || is_bom string
    || is_break string
    || check string b'"'
    || check string b'\\'

-- The cases of the switch with a letter of their own
unfoldable pub escape_letter : ℕ → Option ℕ
escape_letter value =
    if value == 0x00
    then some b'0'
    else if value == 0x07
    then some b'a'
    else if value == 0x08
    then some b'b'
    else if value == 0x09
    then some b't'
    else if value == 0x0A
    then some b'n'
    else if value == 0x0B
    then some b'v'
    else if value == 0x0C
    then some b'f'
    else if value == 0x0D
    then some b'r'
    else if value == 0x1B
    then some b'e'
    else if value == 0x22
    then some b'"'
    else if value == 0x5C
    then some b'\\'
    else if value == 0x85
    then some b'N'
    else if value == 0xA0
    then some b'_'
    else if value == 0x2028
    then some b'L'
    else if value == 0x2029
    then some b'P'
    else none

-- `for (k = (width-1)*4; k >= 0; k -= 4)`
unfoldable pub put_digits : ℕ → ℕ → W
unfolding put hex_digit
put_digits zero value = skip
put_digits (suc k) value = do
  put (hex_digit (bit_and (value / 2 ^ (k * 4)) 0x0F))
  put_digits k value

unfoldable pub put_code : ℕ → W
unfolding put put_digits
put_code value =
    if leb value 0xFF
    then (do put b'x'; put_digits 2 value)
    else if leb value 0xFFFF
    then (do put b'u'; put_digits 4 value)
    else (do put b'U'; put_digits 8 value)

unfoldable pub write_escape : ℕ → W
unfolding put escape_letter put_code
write_escape value = do
  put b'\\'
  elim (escape_letter value) [ none ↦ put_code value | some c ↦ put c ]

unfoldable pub write_special : List ℕ → W
unfolding read_character write_escape
write_special string = elim (read_character string) [
  | none ↦ fail
  | some (value, rest) ↦ write_escape value
]

-- A space, which a break takes the place of where the line is full; a space behind it is escaped.
unfoldable pub write_double_quoted_space : Bool → List ℕ → W
unfolding is_over write_indent octet_at put write
write_double_quoted_space may_break string o =
    if may_break && is_over o
    then (do write_indent; when (octet_at string 1 == 0x20) (put b'\\')) o
    else write string o

unfoldable pub write_double_quoted_character : Bool → Loop → List ℕ → W
unfolding is_special is_space write_special write_double_quoted_space write
write_double_quoted_character allow_breaks s string o =
    if is_special o.unicode string
    then write_special string o
    else if is_space string
    then write_double_quoted_space
        (allow_breaks && not s.spaces && not s.first && not (length string == 1)) string o
    else write string o

-- `spaces` behind a character: a special one is no space.
unfoldable pub next_double_quoted : Loop → List ℕ → Loop
unfolding is_space
next_double_quoted s string = record { first = false; spaces = is_space string; breaks = false }

unfoldable pub after_double_quoted : W
unfolding write_indicator after_text
after_double_quoted = do write_indicator (b'"' ∷ []) false false false; after_text

unfoldable pub write_double_quoted_scalar : Bytes → Bool → W
unfolding write_indicator loop write_double_quoted_character next_double_quoted after_double_quoted
write_double_quoted_scalar value allow_breaks = do
  write_indicator (b'"' ∷ []) true false false
  loop (write_double_quoted_character allow_breaks) next_double_quoted (λ s. after_double_quoted)
      (length value) at_start value
