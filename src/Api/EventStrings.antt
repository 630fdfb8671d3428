-- ===== src/Api/EventStrings.antt =====
-- The events that yaml_*_event_initialize make (original/src/api.c), as the emitter takes them.
use port_libyaml.Base.{
  ℕ, zero, suc, ◌≤◌, ◌<◌, ◌%◌, ◌^◌, ◌∙◌, leb, ltb, if◌then◌else◌, Bool, true, false, List, [], ◌∷◌,
  Option, none, some, Bytes, ◌≡◌, refl, ap, length, arith, ◌==◌, inl, inr, Bool-cases,
}
use port_libyaml.Reader.Utf8Checks.{AreBytes}
use port_libyaml.Loader.State.{int_max}
use port_libyaml.Api.Utf8.{check_utf8}
use port_libyaml.Api.Utf8Characters.{check_utf8-Whole}
use port_libyaml.Api.Events.{
  Made, Maker, require, has_memory, allocate, copy_text, copy_optional, octets_of, up_to_nul,
  take_value, run_past, copy_value, value_of,
}
use port_libyaml.Emitter.Safety.Strings.{Whole}
use port_libyaml.Emitter.Safety.Control.{WholeOption}

-- No read past an end, and what is made is as it should be.
abbrev pub Makes : {A : Type 0} → (A → Type 0) → Made A → Type 0
Makes Q (Made.made a memory) = Q a
Makes Q (Made.refused memory) = Unit
Makes Q Made.fault = ⊥

pub Makes->>= :
    {A B : Type 0} (P : A → Type 0) (Q : B → Type 0) (r : Made A) (k : A → Maker B)
    → Makes P r
    → ((a : A) (memory : List Bool) → P a → Makes Q (k a memory))
    → Makes Q (elim r [
      | Made.made a memory ↦ k a memory
      | Made.refused memory ↦ Made.refused memory
      | Made.fault ↦ Made.fault
    ])
Makes->>= P Q (Made.made a memory) k h f = f a memory h
Makes->>= P Q (Made.refused memory) k h f = tt
Makes->>= P Q Made.fault k h f = absurd h

pub require-Makes : (b : Bool) (memory : List Bool) → Makes (λ u. b ≡ true) (require b memory)
require-Makes true memory = refl
require-Makes false memory = tt

pub has_memory-Makes : (memory : List Bool) → Makes (λ b. Unit) (has_memory memory)
unfolding has_memory
has_memory-Makes [] = tt
has_memory-Makes (b ∷ memory) = tt

pub allocate-Makes : (memory : List Bool) → Makes (λ u. Unit) (allocate memory)
unfolding allocate
allocate-Makes memory =
    Makes->>= (λ b. Unit) (λ u. Unit) (has_memory memory) require (has_memory-Makes memory)
      (λ b m u. after b m)
  where
    after : (b : Bool) (m : List Bool) → Makes (λ u. Unit) (require b m)
    after true m = tt
    after false m = tt

-- A copy of a string that falls into characters
pub record IsCopy (text copy : Bytes) : Type 0 where
  pub same : copy ≡ text
  pub whole : Whole copy

pub copy_text-Makes :
    (text : Bytes) (memory : List Bool)
    → AreBytes text
    → Makes (IsCopy text) (copy_text text memory)
unfolding copy_text
copy_text-Makes text memory b =
    Makes->>= (λ u. check_utf8 text ≡ true) (IsCopy text) _ _
      (require-Makes (check_utf8 text) memory)
      (λ u m h.
        Makes->>= (λ u. Unit) (IsCopy text) _ _ (allocate-Makes m)
          (λ u' m' t. record { same = refl; whole = check_utf8-Whole text b h }))

abbrev pub BytesOption : Option Bytes → Type 0
BytesOption none = Unit
BytesOption (some text) = AreBytes text

pub record IsCopyOption (text copy : Option Bytes) : Type 0 where
  pub same : copy ≡ text
  pub whole : WholeOption copy

pub copy_optional-Makes :
    (text : Option Bytes) (memory : List Bool)
    → BytesOption text
    → Makes (IsCopyOption text) (copy_optional text memory)
unfolding copy_optional
copy_optional-Makes none memory b = record { same = refl; whole = tt }
copy_optional-Makes (some text) memory b =
    Makes->>= (IsCopy text) (IsCopyOption (some text)) _ _ (copy_text-Makes text memory b)
      (λ c m i. record { same = ap (λ x. some x) i.same; whole = i.whole })

-- The length is negative, and strlen is below INT_MAX; or it is below INT_MAX itself, and so many octets
-- are there.
abbrev pub IsReadable : List ℕ → Option ℕ → Type 0
IsReadable value none = length value < int_max
IsReadable value (some n) = (n ≤ length value) × (n < int_max)

abbrev take_octets : ℕ → List ℕ → Bytes
take_octets zero value = []
take_octets (suc n) [] = []
take_octets (suc n) (octet ∷ value) = octet ∷ take_octets n value

abbrev pub text_of : List ℕ → Option ℕ → Bytes
unfolding up_to_nul
text_of value none = up_to_nul value
text_of value (some n) = take_octets n value

take_octets-AreBytes : (n : ℕ) (value : List ℕ) → AreBytes value → AreBytes (take_octets n value)
take_octets-AreBytes zero value b = tt
take_octets-AreBytes (suc n) [] b = tt
take_octets-AreBytes (suc n) (octet ∷ value) b = (b.0, take_octets-AreBytes n value b.1)

up_to_nul-AreBytes : (value : List ℕ) → AreBytes value → AreBytes (up_to_nul value)
unfolding up_to_nul
up_to_nul-AreBytes [] b = tt
up_to_nul-AreBytes (octet ∷ value) b = elim (Bool-cases (octet == 0)) [
  | inl nul ↦ rw (nul, up_to_nul) tt
  | inr more ↦ rw (more, up_to_nul) (b.0, up_to_nul-AreBytes value b.1)
]

octets_of-take_octets :
    (n : ℕ) (value : List ℕ) → n ≤ length value → octets_of n value ≡ some (take_octets n value)
unfolding octets_of
octets_of-take_octets zero value h = refl
octets_of-take_octets (suc n) [] h = absurd (omega arith)
octets_of-take_octets (suc n) (octet ∷ value) h =
    rw (octets_of-take_octets n value (omega arith), octets_of) refl

length-up_to_nul : (value : List ℕ) → length (up_to_nul value) ≤ length value
unfolding up_to_nul
length-up_to_nul [] = omega arith
length-up_to_nul (octet ∷ value) = ground (arith, length-up_to_nul value)

length-take_octets : (n : ℕ) (value : List ℕ) → length (take_octets n value) ≤ n
length-take_octets zero value = omega arith
length-take_octets (suc n) [] = omega arith
length-take_octets (suc n) (octet ∷ value) = omega (arith, length-take_octets n value)

take_octets-all : (value : List ℕ) → take_octets (length value) value ≡ value
take_octets-all [] = refl
take_octets-all (octet ∷ value) = ap (λ xs. octet ∷ xs) (take_octets-all value)

pub record IsText (value : List ℕ) (size : Option ℕ) (text : Bytes) : Type 0 where
  pub same : text ≡ text_of value size
  pub octets : AreBytes text
  pub short : length text < int_max

take_value-Makes :
    (value : List ℕ) (n : ℕ) (memory : List Bool)
    → n ≤ length value
    → take_value value n memory ≡ Made.made (take_octets n value) memory
unfolding take_value
take_value-Makes value n memory h = rw (octets_of-take_octets n value h, take_value) refl

narrowed_value :
    (text : Bytes) (memory : List Bool)
    → length text < int_max
    → (if leb (length text % 2 ^ 32) int_max
          then take_value text (length text % 2 ^ 32)
          else run_past text)
        memory
      ≡ Made.made text memory
narrowed_value text memory h =
    let narrowed : length text % 2 ^ 32 ≡ length text = omega arith in
    let fits : leb (length text) int_max ≡ true = ground arith in
    rw (narrowed, fits)
      (take_value-Makes text (length text) memory (omega arith)
        ∙ ap (λ xs. Made.made xs memory) (take_octets-all text))

pub value_of-Makes :
    (value : List ℕ) (size : Option ℕ) (memory : List Bool)
    → AreBytes value
    → IsReadable value size
    → Makes (IsText value size) (value_of value size memory)
unfolding value_of
value_of-Makes value none memory b r =
    let short = length-up_to_nul value in
    rw (narrowed_value (up_to_nul value) memory (omega arith), Makes)
      (record { same = refl; octets = up_to_nul-AreBytes value b; short = omega arith })
value_of-Makes value (some n) memory b r =
    let (there, small) = r in
    rw (take_value-Makes value n memory there, Makes)
      (record {
        same = refl;
        octets = take_octets-AreBytes n value b;
        short = omega (arith, length-take_octets n value);
      })

pub copy_value-Makes :
    (text : Bytes) (memory : List Bool)
    → AreBytes text
    → length text < int_max
    → Makes (IsCopy text) (copy_value text memory)
unfolding copy_value
copy_value-Makes text memory b s =
    let fits : ltb (length text) int_max ≡ true = ground arith in
    Makes->>= (λ u. check_utf8 text ≡ true) (IsCopy text) _ _
      (require-Makes (check_utf8 text) memory)
      (λ u m h. rw fits (
        Makes->>= (λ u. Unit) (IsCopy text) _ _ (allocate-Makes m)
          (λ u' m' t. record { same = refl; whole = check_utf8-Whole text b h })))
