-- ===== src/Word/Mask.antt =====
-- `x & mask` for the masks of the program, from the digits that the operation stands for.
use Prim.Native.Nat.{bit_and, digits, bit_and-bitwise, min}
use meshlite.Base.{
  ℕ, zero, suc, ◌+◌, ◌*◌, ◌/◌, ◌%◌, ◌≤◌, ◌<◌, ◌≡◌, refl, if◌then◌else◌, false, Bool, true, arith,
  ◌==◌, ==_iff,
}

-- The digits of `a & b`, with at most `rounds` of them.
abbrev low_digits : ℕ → ℕ → ℕ → ℕ
low_digits rounds a b = digits (λ _. 0) min rounds a b

low_digits_enough : (r s : ℕ) (a b : ℕ) → a ≤ r → a ≤ s → low_digits r a b ≡ low_digits s a b
low_digits_enough zero zero a b h k = refl
low_digits_enough zero (suc s) zero b h k = refl
low_digits_enough (suc r) zero zero b h k = refl
low_digits_enough (suc r) (suc s) zero b h k = refl
low_digits_enough zero (suc s) (suc a) b h k = absurd (omega arith)
low_digits_enough (suc r) zero (suc a) b h k = absurd (omega arith)
low_digits_enough (suc r) (suc s) (suc a) b h k =
    let ih = low_digits_enough r s (suc a / 2) (b / 2) (omega arith) (omega arith) in omega arith

nothing-bit_and : (b : ℕ) → bit_and 0 b ≡ 0
nothing-bit_and b = bit_and-bitwise 0 b

-- The last digit of `a & b`, and the others.
pub bit_and_halves : (a b : ℕ) → bit_and a b ≡ 2 * bit_and (a / 2) (b / 2) + min (a % 2) (b % 2)
bit_and_halves zero b = omega (arith, nothing-bit_and b, nothing-bit_and (b / 2))
bit_and_halves (suc a) b =
    let whole = bit_and-bitwise (suc a) b in
    let half = bit_and-bitwise (suc a / 2) (b / 2) in
    let same = low_digits_enough a (suc a / 2) (suc a / 2) (b / 2) (omega arith) (omega arith) in
    omega (arith, whole, half, same)

bit_and_empty_rounds : (r a : ℕ) → a ≤ r → bit_and a 0 ≡ 0
bit_and_empty_rounds zero zero h = nothing-bit_and 0
bit_and_empty_rounds zero (suc a) h = absurd (omega arith)
bit_and_empty_rounds (suc r) a h =
    let ih = bit_and_empty_rounds r (a / 2) (omega arith) in omega (arith, bit_and_halves a 0)

pub bit_and_empty : (a : ℕ) → bit_and a 0 ≡ 0
bit_and_empty a = bit_and_empty_rounds a a (omega arith)

-- Four digits at a time.
bit_and_15 : (a : ℕ) → bit_and a 15 ≡ a % 16
bit_and_15 a = omega (
  arith,
  bit_and_halves a 15,
  bit_and_halves (a / 2) 7,
  bit_and_halves (a / 2 / 2) 3,
  bit_and_halves (a / 2 / 2 / 2) 1,
  bit_and_empty (a / 2 / 2 / 2 / 2),
)

bit_and_255 : (a : ℕ) → bit_and a 255 ≡ a % 256
bit_and_255 a = omega (
  arith,
  bit_and_halves a 255,
  bit_and_halves (a / 2) 127,
  bit_and_halves (a / 2 / 2) 63,
  bit_and_halves (a / 2 / 2 / 2) 31,
  bit_and_15 (a / 2 / 2 / 2 / 2),
)

bit_and_4095 : (a : ℕ) → bit_and a 4095 ≡ a % 4096
bit_and_4095 a = omega (
  arith,
  bit_and_halves a 4095,
  bit_and_halves (a / 2) 2047,
  bit_and_halves (a / 2 / 2) 1023,
  bit_and_halves (a / 2 / 2 / 2) 511,
  bit_and_255 (a / 2 / 2 / 2 / 2),
)

pub bit_and_low16 : (a : ℕ) → bit_and a 0xFFFF ≡ a % 65536
bit_and_low16 a = omega (
  arith,
  bit_and_halves a 65535,
  bit_and_halves (a / 2) 32767,
  bit_and_halves (a / 2 / 2) 16383,
  bit_and_halves (a / 2 / 2 / 2) 8191,
  bit_and_4095 (a / 2 / 2 / 2 / 2),
)

bit_and_mid4 : (a : ℕ) → a < 1048576 → bit_and a 0xFFFF0 ≡ a / 16 * 16
bit_and_mid4 a h = omega (
  arith,
  bit_and_halves a 1048560,
  bit_and_halves (a / 2) 524280,
  bit_and_halves (a / 2 / 2) 262140,
  bit_and_halves (a / 2 / 2 / 2) 131070,
  bit_and_low16 (a / 2 / 2 / 2 / 2),
)

bit_and_mid8 : (a : ℕ) → a < 16777216 → bit_and a 0xFFFF00 ≡ a / 256 * 256
bit_and_mid8 a h = omega (
  arith,
  bit_and_halves a 16776960,
  bit_and_halves (a / 2) 8388480,
  bit_and_halves (a / 2 / 2) 4194240,
  bit_and_halves (a / 2 / 2 / 2) 2097120,
  bit_and_mid4 (a / 2 / 2 / 2 / 2) (omega arith),
)

bit_and_mid12 : (a : ℕ) → a < 268435456 → bit_and a 0xFFFF000 ≡ a / 4096 * 4096
bit_and_mid12 a h = omega (
  arith,
  bit_and_halves a 268431360,
  bit_and_halves (a / 2) 134215680,
  bit_and_halves (a / 2 / 2) 67107840,
  bit_and_halves (a / 2 / 2 / 2) 33553920,
  bit_and_mid8 (a / 2 / 2 / 2 / 2) (omega arith),
)

pub bit_and_high16 : (a : ℕ) → a < 4294967296 → bit_and a 0xFFFF0000 ≡ a / 65536 * 65536
bit_and_high16 a h = omega (
  arith,
  bit_and_halves a 4294901760,
  bit_and_halves (a / 2) 2147450880,
  bit_and_halves (a / 2 / 2) 1073725440,
  bit_and_halves (a / 2 / 2 / 2) 536862720,
  bit_and_mid12 (a / 2 / 2 / 2 / 2) (omega arith),
)

-- A test that passes on every number below a bound, found by running it.
passes_below : (ℕ → Bool) → ℕ → Bool
passes_below test zero = true
passes_below test (suc bound) = if test bound then passes_below test bound else false

passes_at :
    (test : ℕ → Bool) (bound x : ℕ) → x < bound → passes_below test bound ≡ true → test x ≡ true
unfolding passes_below
passes_at test (suc bound) x below passed = ground (arith, passes_at test bound x)
passes_at test zero x below passed = elim below [ ]

-- A mask of two bits, by the two digits that it keeps.
abbrev pub digit : ℕ → ℕ → ℕ
digit x k = x / k % 2

flags_table : passes_below (λ x. bit_and x 0x12 == digit x 16 * 16 + digit x 2 * 2) 256 ≡ true
unfolding passes_below
flags_table = refl

pub bit_and_0x12 : (x : ℕ) → x < 256 → bit_and x 0x12 ≡ digit x 16 * 16 + digit x 2 * 2
bit_and_0x12 x h =
    (==_iff _ _).0
      (passes_at (λ y. bit_and y 0x12 == digit y 16 * 16 + digit y 2 * 2) 256 x h flags_table)
