-- ===== src/Emitter/Write.antt =====
-- The writing of indicators, anchors and tags (original/src/emitter.c).
use Prim.Native.Nat.{bit_and}
use port_libyaml.Base.{
  ℕ, zero, suc, ◌+◌, ◌-◌, ◌/◌, ◌^◌, Bool, true, false, not, ◌&&◌, ◌||◌, List, [], ◌∷◌, Option, none,
  some, Bytes, ◌==◌, ltb, length, if◌then◌else◌,
}
use port_libyaml.Emitter.Characters.{octet_at, is_alpha, character}
use port_libyaml.Emitter.State.{
  Outcome, ◌>>◌, skip, fail, when, Output, W, make_room, append, put, put_break, write,
  set_indention, set_whitespace,
}

-- `while (string.pointer != string.end)`, where each round moves on by a character: what a round
-- does, what it makes of the loop's variables, and what follows the loop. There is a round for each
-- unit of fuel.
unfoldable pub loop :
    {S : Type 0} → (S → List ℕ → W) → (S → List ℕ → S) → (S → W) → ℕ → S → List ℕ → W
loop body next after fuel s [] = after s
loop body next after zero s (o ∷ os) = fail
loop body next after (suc n) s (o ∷ os) = elim (character (o ∷ os)) [
  | none ↦ fail
  | some (c, rest) ↦ do body s (o ∷ os); loop body next after n (next s (o ∷ os)) rest
]

unfoldable pub write_string : List ℕ → W
unfolding loop write
write_string string = loop (λ s. write) (λ s string'. s) (λ s. skip) (length string) tt string

unfoldable pub write_bom : W
unfolding make_room append
write_bom = do make_room; append (0xEF ∷ 0xBB ∷ 0xBF ∷ [])

-- `while (emitter->column < indent) PUT(emitter, ' ')`, with a round for each unit of fuel
unfoldable pub pad : ℕ → ℕ → W
unfolding put
pad zero indent o = if ltb o.column indent then Outcome.fault else Outcome.done o
pad (suc n) indent o =
    let rest = pad n indent in if ltb o.column indent then (do put 0x20; rest) o else Outcome.done o

unfoldable pub level : Option ℕ → ℕ
level none = 0
level (some n) = n

unfoldable pub needs_break : ℕ → Output → Bool
needs_break indent o =
    not o.indention || ltb indent o.column || (o.column == indent && not o.whitespace)

unfoldable pub write_indent : W
unfolding put_break pad set_whitespace set_indention needs_break level
write_indent o =
    let indent = level o.indent in
    (do
      when (needs_break indent o) put_break
      pad indent indent
      set_whitespace true
      set_indention true)
      o

-- `if (need_whitespace && !emitter->whitespace) PUT(emitter, ' ')`
unfoldable pub separate : Bool → W
unfolding put
separate need_whitespace o = when (need_whitespace && not o.whitespace) (put 0x20) o

unfoldable pub write_indicator : Bytes → Bool → Bool → Bool → W
unfolding separate write_string set_whitespace set_indention
write_indicator indicator need_whitespace is_whitespace is_indention = do
  separate need_whitespace
  write_string indicator
  set_whitespace is_whitespace
  λ o. set_indention (o.indention && is_indention) o

-- `emitter->whitespace = 0; emitter->indention = 0;`
unfoldable pub after_text : W
unfolding set_whitespace set_indention
after_text = do set_whitespace false; set_indention false

unfoldable pub write_anchor : Bytes → W
unfolding write_string after_text
write_anchor value = do write_string value; after_text

unfoldable pub write_tag_handle : Bytes → W
unfolding separate write_string after_text
write_tag_handle value = do separate true; write_string value; after_text

unfoldable pub one_of : List ℕ → ℕ → Bool
one_of [] o = false
one_of (c ∷ cs) o = o == c || one_of cs o

unfoldable pub is_uri : ℕ → Bool
unfolding is_alpha one_of
is_uri o =
    is_alpha o
    || one_of
        (b';' ∷ b'/' ∷ b'?' ∷ b':' ∷ b'@' ∷ b'&' ∷ b'=' ∷ b'+' ∷ b'$' ∷ b',' ∷ b'_' ∷ b'.' ∷ b'~'
          ∷ b'*' ∷ b'\'' ∷ b'(' ∷ b')' ∷ b'[' ∷ b']' ∷ [])
        o

unfoldable pub hex_digit : ℕ → ℕ
hex_digit digit = digit + (if ltb digit 10 then b'0' else b'A' - 10)

-- `while (width --)`
unfoldable pub put_escaped : List ℕ → W
unfolding put hex_digit
put_escaped [] = skip
put_escaped (o ∷ os) = do
  put b'%'
  put (hex_digit (o / 2 ^ 4))
  put (hex_digit (bit_and o 0x0F))
  put_escaped os

unfoldable pub write_uri : List ℕ → W
unfolding is_uri write put_escaped
write_uri string =
    if is_uri (octet_at string 0)
    then write string
    else elim (character string) [ none ↦ fail | some (c, rest) ↦ put_escaped c ]

unfoldable pub write_tag_content : Bytes → Bool → W
unfolding separate loop write_uri after_text
write_tag_content value need_whitespace = do
  separate need_whitespace
  loop (λ s. write_uri) (λ s string'. s) (λ s. after_text) (length value) tt value
