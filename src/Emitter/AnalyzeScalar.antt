-- ===== src/Emitter/AnalyzeScalar.antt =====
-- The analysis of scalars and events (original/src/emitter.c).
use port_libyaml.Base.{
  ℕ, zero, suc, Bool, true, false, not, ◌&&◌, ◌||◌, List, [], ◌∷◌, Option, none, some, Bytes, ◌==◌,
  length, if◌then◌else◌,
}
use port_libyaml.Types.Events.{EventData}
use port_libyaml.Emitter.Characters.{
  octet_at, check_at, is_printable, is_ascii, is_break, is_space, is_blankz, character,
}
use port_libyaml.Emitter.State.{Outcome, ◌>>◌, skip, when}
use port_libyaml.Emitter.Write.{one_of}
use port_libyaml.Emitter.Control.{E, ScalarData}
use port_libyaml.Emitter.Analyze.{analyze_anchor, analyze_tag}

-- The local variables. `first` is `string.start == string.pointer`.
pub record Scan : Type 0 where
  pub first : Bool
  pub block_indicators : Bool
  pub flow_indicators : Bool
  pub line_breaks : Bool
  pub special_characters : Bool
  pub leading_space : Bool
  pub leading_break : Bool
  pub trailing_space : Bool
  pub trailing_break : Bool
  pub break_space : Bool
  pub space_break : Bool
  pub preceded_by_whitespace : Bool
  pub previous_space : Bool
  pub previous_break : Bool

abbrev first_indicators : List ℕ
first_indicators =
    b'#' ∷ b',' ∷ b'[' ∷ b']' ∷ b'{' ∷ b'}' ∷ b'&' ∷ b'*' ∷ b'!' ∷ b'|' ∷ b'>' ∷ b'\'' ∷ b'"' ∷ b'%'
    ∷ b'@' ∷ b'`' ∷ []

abbrev later_indicators : List ℕ
later_indicators = b',' ∷ b'?' ∷ b'[' ∷ b']' ∷ b'{' ∷ b'}' ∷ []

-- What the first character sets: the indicators in flow context, and in block context.
unfoldable pub scan_first : ℕ → Bool → Bool × Bool
unfolding one_of
scan_first o followed =
    let special = one_of first_indicators o in
    let mark = o == b'?' || o == b':' in
    let dash = o == b'-' && followed in
    (special || mark || dash, special || (mark && followed) || dash)

unfoldable pub scan_later : ℕ → Bool → Bool → Bool × Bool
unfolding one_of
scan_later o followed preceded =
    let comment = o == b'#' && preceded in
    (one_of later_indicators o || o == b':' || comment, (o == b':' && followed) || comment)

-- `IS_SPACE`, `IS_BREAK`, and neither; `last` is `string.pointer+WIDTH(string) == string.end`.
unfoldable pub scan_white : List ℕ → Bool → Scan → Scan
unfolding is_space is_break
scan_white string last s =
    if is_space string
    then record s {
      leading_space = s.leading_space || s.first;
      trailing_space = s.trailing_space || last;
      break_space = s.break_space || s.previous_break;
      previous_space = true;
      previous_break = false;
    }
    else if is_break string
    then record s {
      leading_break = s.leading_break || s.first;
      trailing_break = s.trailing_break || last;
      space_break = s.space_break || s.previous_space;
      previous_space = false;
      previous_break = true;
    }
    else record s { previous_space = false; previous_break = false }

unfoldable pub is_end : List ℕ → Bool
is_end [] = true
is_end (o ∷ os) = false

-- One round, on the string from `pointer` and what is behind its first character.
unfoldable pub scan_character : Bool → List ℕ → List ℕ → Scan → Scan
unfolding octet_at is_blankz scan_first scan_later is_printable is_ascii is_break scan_white is_end
scan_character unicode string rest s =
    let o = octet_at string 0 in
    let followed = is_blankz rest in
    let (flow, block) =
      if s.first then scan_first o followed else scan_later o followed s.preceded_by_whitespace in
    let white = scan_white string (is_end rest) s in
    record white {
      first = false;
      flow_indicators = s.flow_indicators || flow;
      block_indicators = s.block_indicators || block;
      special_characters =
          s.special_characters
          || not (is_printable string)
          || (not (is_ascii string) && not unicode);
      line_breaks = s.line_breaks || is_break string;
      preceded_by_whitespace = is_blankz string;
    }

-- The loop over the string, with a round for each unit of fuel; `none` where a character is
-- incomplete or has no width.
unfoldable pub scan : Bool → ℕ → Scan → List ℕ → Option Scan
unfolding character scan_character
scan unicode fuel s [] = some s
scan unicode zero s (o ∷ os) = none
scan unicode (suc n) s (o ∷ os) = elim (character (o ∷ os)) [
  | none ↦ none
  | some (c, rest) ↦ scan unicode n (scan_character unicode (o ∷ os) rest s) rest
]

-- "---" or "..." at the start
unfoldable pub is_document_mark : List ℕ → Bool
unfolding check_at
is_document_mark string =
    (check_at string b'-' 0 && check_at string b'-' 1 && check_at string b'-' 2)
    || (check_at string b'.' 0 && check_at string b'.' 1 && check_at string b'.' 2)

unfoldable pub start_scan : List ℕ → Scan
unfolding is_document_mark
start_scan string = record {
  first = true;
  block_indicators = is_document_mark string;
  flow_indicators = is_document_mark string;
  line_breaks = false;
  special_characters = false;
  leading_space = false;
  leading_break = false;
  trailing_space = false;
  trailing_break = false;
  break_space = false;
  space_break = false;
  preceded_by_whitespace = true;
  previous_space = false;
  previous_break = false;
}

-- What the loop found, as the styles that it allows; the style itself is what it was.
unfoldable pub allowed : Bytes → Scan → ScalarData → ScalarData
allowed value s old =
    let edges = s.leading_space || s.leading_break || s.trailing_space || s.trailing_break in
    let inner = s.space_break || s.special_characters in
    let plain = not edges && not s.break_space && not inner && not s.line_breaks in
    record old {
      value = value;
      multiline = s.line_breaks;
      flow_plain_allowed = plain && not s.flow_indicators;
      block_plain_allowed = plain && not s.block_indicators;
      single_quoted_allowed = not s.break_space && not inner;
      block_allowed = not s.trailing_space && not inner;
    }

unfoldable pub set_scalar : (ScalarData → ScalarData) → E
set_scalar f e = Outcome.done (record e { scalar_data = f e.scalar_data })

abbrev pub empty_scalar : ScalarData → ScalarData
empty_scalar old = record old {
  value = [];
  multiline = false;
  flow_plain_allowed = false;
  block_plain_allowed = true;
  single_quoted_allowed = true;
  block_allowed = false;
}

unfoldable pub analyze_scalar : Bytes → E
unfolding set_scalar scan start_scan allowed
analyze_scalar [] e = set_scalar empty_scalar e
analyze_scalar (o ∷ os) e =
    elim (scan e.output.unicode (length (o ∷ os)) (start_scan (o ∷ os)) (o ∷ os)) [
      | none ↦ Outcome.fault
      | some s ↦ set_scalar (allowed (o ∷ os) s) e
    ]

unfoldable pub analyze_optional_anchor : Option Bytes → E
unfolding analyze_anchor
analyze_optional_anchor none = skip
analyze_optional_anchor (some anchor) = analyze_anchor anchor false

-- A tag is looked at in canonical mode, and where it is not implicit.
unfoldable pub analyze_optional_tag : Option Bytes → Bool → E
unfolding analyze_tag
analyze_optional_tag none implicit e = Outcome.done e
analyze_optional_tag (some tag) implicit e =
    when (e.output.canonical || not implicit) (analyze_tag tag) e

unfoldable pub clear_analysis : E
clear_analysis e = Outcome.done (record e {
  anchor_data = record (e.anchor_data) { anchor = none };
  tag_data = record { handle = none; suffix = none };
  scalar_data = record (e.scalar_data) { value = [] };
})

unfoldable pub analyze_content : EventData → E
unfolding analyze_anchor analyze_optional_anchor analyze_optional_tag analyze_scalar
analyze_content (EventData.alias anchor) = analyze_anchor anchor true
analyze_content (EventData.scalar s) = do
  analyze_optional_anchor s.anchor
  analyze_optional_tag s.tag (s.plain_implicit || s.quoted_implicit)
  analyze_scalar s.value
analyze_content (EventData.sequence_start s) = do
  analyze_optional_anchor s.anchor
  analyze_optional_tag s.tag s.implicit
analyze_content (EventData.mapping_start s) = do
  analyze_optional_anchor s.anchor
  analyze_optional_tag s.tag s.implicit
analyze_content _ = skip

unfoldable pub analyze_event : EventData → E
unfolding clear_analysis analyze_content
analyze_event event = do clear_analysis; analyze_content event
