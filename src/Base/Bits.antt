-- ===== src/Base/Bits.antt =====
-- Masks as arithmetic: `a & m` one bit at a time, and the masks that the reader and the writer use.
use Prim.Native.Nat.{
  ℕ, zero, suc, ◌+◌, ◌*◌, ◌/◌, ◌%◌, ◌^◌, ◌≤◌, min, bit_and, digits, bit_and-bitwise,
}
use mathlib.Core.Path.{◌≡◌, refl, ◌∙◌}
use native.Mathlib.Nat.{div-div-eq-div-mul}
use native.Mathlib.Omega.{arith}

abbrev meet : ℕ → ℕ → ℕ → ℕ
meet rounds a b = digits (λ rest. zero) min rounds a b

-- The rounds past the number's own do nothing.
meet_rounds : (r s b : ℕ) (a : ℕ) → a ≤ r → a ≤ s → meet r a b ≡ meet s a b
meet_rounds zero zero b zero hr hs = refl
meet_rounds zero (suc s) b zero hr hs = refl
meet_rounds (suc r) zero b zero hr hs = refl
meet_rounds (suc r) (suc s) b zero hr hs = refl
meet_rounds zero s b (suc a) hr hs = absurd (omega arith)
meet_rounds (suc r) zero b (suc a) hr hs = absurd (omega arith)
meet_rounds (suc r) (suc s) b (suc a) hr hs =
    let half = suc a / 2 in omega (arith, meet_rounds r s (b / 2) half (omega arith) (omega arith))

-- The lowest bit, and the rest.
pub bit_and_split : (a b : ℕ) → bit_and a b ≡ min (a % 2) (b % 2) + 2 * bit_and (a / 2) (b / 2)
bit_and_split zero b = omega (arith, bit_and-bitwise 0 b, bit_and-bitwise 0 (b / 2))
bit_and_split (suc a) b =
    let half = suc a / 2 in
    omega (
      arith,
      bit_and-bitwise (suc a) b,
      bit_and-bitwise half (b / 2),
      meet_rounds a half (b / 2) half (omega arith) (omega arith),
    )

bit_and-zero_rounds : (n a : ℕ) → a ≤ n → bit_and a 0 ≡ 0
bit_and-zero_rounds n zero h = refl
bit_and-zero_rounds zero (suc a) h = absurd (omega arith)
bit_and-zero_rounds (suc n) (suc a) h =
    omega (arith, bit_and_split (suc a) 0, bit_and-zero_rounds n (suc a / 2) (omega arith))

-- The masks of 1 to 10 ones.
low_1 : (a : ℕ) → bit_and a 0x1 ≡ a % 2
low_1 a = omega (arith, bit_and_split a 0x1, bit_and-zero_rounds (a / 2) (a / 2) (omega arith))

low_2 : (a : ℕ) → bit_and a 0x3 ≡ a % 4
low_2 a = omega (arith, bit_and_split a 0x3, low_1 (a / 2))

pub low_3 : (a : ℕ) → bit_and a 0x7 ≡ a % 8
low_3 a = omega (arith, bit_and_split a 0x7, low_2 (a / 2))

pub low_4 : (a : ℕ) → bit_and a 0xf ≡ a % 16
low_4 a = omega (arith, bit_and_split a 0xf, low_3 (a / 2))

pub low_5 : (a : ℕ) → bit_and a 0x1f ≡ a % 32
low_5 a = omega (arith, bit_and_split a 0x1f, low_4 (a / 2))

pub low_6 : (a : ℕ) → bit_and a 0x3f ≡ a % 64
low_6 a = omega (arith, bit_and_split a 0x3f, low_5 (a / 2))

pub low_7 : (a : ℕ) → bit_and a 0x7f ≡ a % 128
low_7 a = omega (arith, bit_and_split a 0x7f, low_6 (a / 2))

pub low_8 : (a : ℕ) → bit_and a 0xff ≡ a % 256
low_8 a = omega (arith, bit_and_split a 0xff, low_7 (a / 2))

low_9 : (a : ℕ) → bit_and a 0x1ff ≡ a % 512
low_9 a = omega (arith, bit_and_split a 0x1ff, low_8 (a / 2))

pub low_10 : (a : ℕ) → bit_and a 0x3ff ≡ a % 1024
low_10 a = omega (arith, bit_and_split a 0x3ff, low_9 (a / 2))

-- A mask with zeros below it, one bit at a time, and all of them at once.
bit_and-double : (a m : ℕ) → bit_and a (2 * m) ≡ 2 * bit_and (a / 2) m
bit_and-double a m =
    let none : 2 * m % 2 ≡ 0 = omega arith in
    let half : 2 * m / 2 ≡ m = omega arith in
    let split : bit_and a (2 * m) ≡ min (a % 2) 0 + 2 * bit_and (a / 2) m =
      bit_and_split a (2 * m) ∙ rw (none, half) in
    omega (arith, split)

bit_and-shift : (n a m : ℕ) → bit_and a (2 ^ n * m) ≡ 2 ^ n * bit_and (a / 2 ^ n) m
bit_and-shift zero a m =
    let whole : a / 1 ≡ a = omega arith in
    let same : 1 * m ≡ m = omega arith in rw (whole, same) (omega arith)
bit_and-shift (suc n) a m =
    let power : 2 ^ suc n ≡ 2 * 2 ^ n = omega arith in
    let grouped : 2 * 2 ^ n * m ≡ 2 * (2 ^ n * m) = omega arith in
    rw
      (
        power,
        grouped,
        bit_and-double a (2 ^ n * m),
        bit_and-shift n (a / 2) m,
        div-div-eq-div-mul a 2 (2 ^ n),
      )
      (omega arith)

-- Masks of the high bits of a byte.
pub high_1 : (a : ℕ) → bit_and a 0x80 ≡ a / 128 % 2 * 128
high_1 a = omega (arith, bit_and-shift 7 a 0x1, low_1 (a / 128))

pub high_2 : (a : ℕ) → bit_and a 0xc0 ≡ a / 64 % 4 * 64
high_2 a = omega (arith, bit_and-shift 6 a 0x3, low_2 (a / 64))

pub high_3 : (a : ℕ) → bit_and a 0xe0 ≡ a / 32 % 8 * 32
high_3 a = omega (arith, bit_and-shift 5 a 0x7, low_3 (a / 32))

pub high_4 : (a : ℕ) → bit_and a 0xf0 ≡ a / 16 % 16 * 16
high_4 a = omega (arith, bit_and-shift 4 a 0xf, low_4 (a / 16))

pub high_5 : (a : ℕ) → bit_and a 0xf8 ≡ a / 8 % 32 * 8
high_5 a = omega (arith, bit_and-shift 3 a 0x1f, low_5 (a / 8))

-- The six high bits of a 16-bit unit.
pub high_6 : (a : ℕ) → bit_and a 0xfc00 ≡ a / 1024 % 64 * 1024
high_6 a = omega (arith, bit_and-shift 10 a 0x3f, low_6 (a / 1024))
