-- ===== src/Emitter/Safety/Tags.antt =====
-- Indicators, anchors and tags (original/src/emitter.c).
use Prim.Native.Nat.{bit_and}
use port_libyaml.Base.{
  refl, ℕ, ◌/◌, ◌^◌, ◌<◌, Bool, true, false, not, ◌&&◌, List, [], ◌∷◌, ◌≡◌, arith, Bytes, length,
  some,
}
use port_libyaml.Base.Bits.{low_4}
use port_libyaml.Reader.Utf8Checks.{AreBytes}
use port_libyaml.Reader.Decode.{utf8_width}
use port_libyaml.Emitter.Characters.{octet_at, character, split}
use port_libyaml.Emitter.State.{make_room}
use port_libyaml.Emitter.Write.{
  write_bom, separate, write_indicator, after_text, write_anchor, write_tag_handle, is_uri,
  hex_digit, put_escaped, write_uri, write_tag_content,
}
use port_libyaml.Emitter.Safety.Strings.{Whole, nil, next}
use port_libyaml.Emitter.Safety.Output.{
  Holds->>, IsOutput, IsRoomy, Safe, make_room-IsRoomy, append-IsOutput,
}
use port_libyaml.Emitter.Safety.Writes.{
  Safe->>, Safe-if, Safe-when, Safe-skip, Safe-reading, put-Safe, write-Safe, write_string-Safe,
  loop-Safe, set_indention-Safe, set_whitespace-Safe,
}

-- The octets of the mark are no character of one octet, and are bytes.
bom_Whole : Whole (0xEF ∷ 0xBB ∷ 0xBF ∷ [])
unfolding character split utf8_width
bom_Whole = next (omega arith, (omega arith, (omega arith, tt))) refl nil

pub write_bom-Safe : Safe write_bom
unfolding write_bom
write_bom-Safe = record {
  run = λ o i.
      Holds->> IsRoomy IsOutput (make_room o) _ (make_room-IsRoomy o i)
        (λ o' r. append-IsOutput (0xEF ∷ 0xBB ∷ 0xBF ∷ []) o' bom_Whole (omega arith) r);
}

pub separate-Safe : (b : Bool) → Safe (separate b)
unfolding separate
separate-Safe b =
    Safe-reading (λ o. Safe-when (b && not o.whitespace) (put-Safe 0x20 (omega arith)))

pub write_indicator-Safe :
    (bytes : Bytes) (a b c : Bool) → Whole bytes → Safe (write_indicator bytes a b c)
unfolding write_indicator
write_indicator-Safe bytes a b c w = Safe->> (separate-Safe a) (
    Safe->> (write_string-Safe bytes w)
      (Safe->> (set_whitespace-Safe b) (Safe-reading (λ o. set_indention-Safe (o.indention && c)))))

pub after_text-Safe : Safe after_text
unfolding after_text
after_text-Safe = Safe->> (set_whitespace-Safe false) (set_indention-Safe false)

pub write_anchor-Safe : (value : Bytes) → Whole value → Safe (write_anchor value)
unfolding write_anchor
write_anchor-Safe value w = Safe->> (write_string-Safe value w) after_text-Safe

pub write_tag_handle-Safe : (value : Bytes) → Whole value → Safe (write_tag_handle value)
unfolding write_tag_handle
write_tag_handle-Safe value w =
    Safe->> (separate-Safe true) (Safe->> (write_string-Safe value w) after_text-Safe)

pub hex_digit-bound : (n : ℕ) → n < 16 → hex_digit n < 0x80
unfolding hex_digit
hex_digit-bound n h = ground arith

put_escaped-Safe : (c : List ℕ) → AreBytes c → Safe (put_escaped c)
unfolding put_escaped
put_escaped-Safe [] b = Safe-skip
put_escaped-Safe (o ∷ os) b = Safe->> (put-Safe b'%' (omega arith)) (
    Safe->> (put-Safe (hex_digit (o / 2 ^ 4)) (hex_digit-bound (o / 2 ^ 4) (omega (arith, b.0)))) (
      Safe->>
        (put-Safe (hex_digit (bit_and o 0x0F))
          (hex_digit-bound (bit_and o 0x0F) (omega (arith, low_4 o))))
        (put_escaped-Safe os b.1)))

write_uri-Safe :
    (o : ℕ) (os c rest : List ℕ)
    → AreBytes c
    → character (o ∷ os) ≡ some (c, rest)
    → Safe (write_uri (o ∷ os))
unfolding write_uri
write_uri-Safe o os c rest b e =
    rw e
      (Safe-if (is_uri (octet_at (o ∷ os) 0)) (write-Safe o os c rest b e) (put_escaped-Safe c b))

pub write_tag_content-Safe :
    (value : Bytes) (b : Bool) → Whole value → Safe (write_tag_content value b)
unfolding write_tag_content
write_tag_content-Safe value b w = Safe->> (separate-Safe b) (
    loop-Safe (λ s. write_uri) (λ s string'. s) (λ s. after_text) (λ s. write_uri-Safe)
      (λ s. after_text-Safe) (length value) tt value w (omega arith))
