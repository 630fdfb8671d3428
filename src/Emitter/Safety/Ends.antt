-- ===== src/Emitter/Safety/Ends.antt =====
-- The tests of original/src/yaml_private.h at the end of a string: behind its closing NUL they do not
-- look.
use port_libyaml.Base.{ℕ, Bool, List, [], ◌∷◌, ◌++◌, ◌≡◌, ◌==◌, ◌&&◌, refl, arith}
use port_libyaml.Emitter.Characters.{
  octet_at, check_at, is_printable, is_z, is_bom, is_space, is_blank, is_break, is_blankz,
}
use port_libyaml.Emitter.AnalyzeScalar.{is_document_mark}

-- A test that finds the same whatever stands behind the closing NUL
abbrev pub LooksNoFurther : (List ℕ → Bool) → List ℕ → List ℕ → Type 0
LooksNoFurther test string behind = test (string ++ 0 ∷ behind) ≡ test string

is_printable-LooksNoFurther : (string behind : List ℕ) → LooksNoFurther is_printable string behind
unfolding is_printable octet_at
is_printable-LooksNoFurther [] behind = ground arith
is_printable-LooksNoFurther (a ∷ []) behind = ground arith
is_printable-LooksNoFurther (a ∷ b ∷ []) behind = refl
is_printable-LooksNoFurther (a ∷ b ∷ c ∷ string) behind = refl

is_bom-LooksNoFurther : (string behind : List ℕ) → LooksNoFurther is_bom string behind
unfolding is_bom octet_at
is_bom-LooksNoFurther [] behind = refl
is_bom-LooksNoFurther (a ∷ []) behind = ground arith
is_bom-LooksNoFurther (a ∷ b ∷ []) behind = refl
is_bom-LooksNoFurther (a ∷ b ∷ c ∷ string) behind = refl

is_break-LooksNoFurther : (string behind : List ℕ) → LooksNoFurther is_break string behind
unfolding is_break octet_at
is_break-LooksNoFurther [] behind = ground arith
is_break-LooksNoFurther (a ∷ []) behind = ground arith
is_break-LooksNoFurther (a ∷ b ∷ []) behind = refl
is_break-LooksNoFurther (a ∷ b ∷ c ∷ string) behind = refl

is_blankz-LooksNoFurther : (string behind : List ℕ) → LooksNoFurther is_blankz string behind
unfolding is_blankz is_blank is_space is_break is_z octet_at
is_blankz-LooksNoFurther [] behind = ground arith
is_blankz-LooksNoFurther (a ∷ []) behind = ground arith
is_blankz-LooksNoFurther (a ∷ b ∷ []) behind = refl
is_blankz-LooksNoFurther (a ∷ b ∷ c ∷ string) behind = refl

is_document_mark-LooksNoFurther :
    (string behind : List ℕ) → LooksNoFurther is_document_mark string behind
unfolding is_document_mark check_at octet_at
is_document_mark-LooksNoFurther [] behind = refl
is_document_mark-LooksNoFurther (a ∷ []) behind = ground arith
is_document_mark-LooksNoFurther (a ∷ b ∷ []) behind = refl
is_document_mark-LooksNoFurther (a ∷ b ∷ c ∷ string) behind = refl

-- The test for a second space, which the writers of scalars make behind a first one
abbrev pub two_spaces : List ℕ → Bool
unfolding is_space octet_at
two_spaces string = is_space string && octet_at string 1 == 0x20

two_spaces-LooksNoFurther : (string behind : List ℕ) → LooksNoFurther two_spaces string behind
unfolding two_spaces is_space octet_at
two_spaces-LooksNoFurther [] behind = refl
two_spaces-LooksNoFurther (a ∷ []) behind = ground arith
two_spaces-LooksNoFurther (a ∷ b ∷ string) behind = refl

-- The tests of the emitter that look at more than one octet of a string find the same whatever stands
-- behind its closing NUL: for a printable character, a byte order mark, a break, a blank or a break or
-- the end, a document mark, and a second space.
pub tests-LooksNoFurther :
    (string behind : List ℕ)
    → LooksNoFurther is_printable string behind
      × (LooksNoFurther is_bom string behind
          × (LooksNoFurther is_break string behind
              × (LooksNoFurther is_blankz string behind
                  × (LooksNoFurther is_document_mark string behind
                      × LooksNoFurther two_spaces string behind))))
tests-LooksNoFurther string behind = (
  is_printable-LooksNoFurther string behind,
  (
    is_bom-LooksNoFurther string behind,
    (
      is_break-LooksNoFurther string behind,
      (
        is_blankz-LooksNoFurther string behind,
        (is_document_mark-LooksNoFurther string behind, two_spaces-LooksNoFurther string behind),
      ),
    ),
  ),
)
