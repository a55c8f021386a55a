-- ===== src/Prelude/Bits.antt =====
-- The lowest binary digits of a number, and what single flags of it are.
use Prim.Native.Nat.{ℕ, zero, suc, ◌+◌, ◌*◌, ◌/◌, ◌%◌, ◌≤◌, min, bit_and, digits, bit_and-bitwise}
use mathlib.Core.Path.{◌≡◌, refl}
use native.Mathlib.Omega.{arith}

-- The digits of both numbers, with a count of the digits to go.
abbrev common_digits : ℕ → ℕ → ℕ → ℕ
common_digits count a b = digits (λ rest. zero) min count a b

-- More digits to go than there are make no difference.
common_digits_enough :
    (count more a b : ℕ) → a ≤ count → a ≤ more → common_digits more a b ≡ common_digits count a b
common_digits_enough zero zero a b low high = refl
common_digits_enough (suc count) zero zero b low high = refl
common_digits_enough (suc count) zero (suc a) b low high = absurd (omega arith)
common_digits_enough zero (suc more) zero b low high = refl
common_digits_enough zero (suc more) (suc a) b low high = absurd (omega arith)
common_digits_enough (suc count) (suc more) zero b low high = refl
common_digits_enough (suc count) (suc more) (suc a) b low high =
    omega (arith, common_digits_enough count more (suc a / 2) (b / 2) (omega arith) (omega arith))

no-bit_and : (b : ℕ) → bit_and 0 b ≡ 0
no-bit_and b = bit_and-bitwise 0 b

-- The lowest digit, and the others.
bit_and_lowest : (a b : ℕ) → bit_and a b ≡ min (a % 2) (b % 2) + 2 * bit_and (a / 2) (b / 2)
bit_and_lowest zero b = omega (arith, no-bit_and b, no-bit_and (b / 2))
bit_and_lowest (suc a) b =
    let half = suc a / 2 in
    omega (
      arith,
      common_digits_enough half a half (b / 2) (omega arith) (omega arith),
      bit_and-bitwise half (b / 2),
      bit_and-bitwise (suc a) b,
    )

bit_and-none_below : (bound a : ℕ) → a ≤ bound → bit_and a 0 ≡ 0
bit_and-none_below bound zero h = refl
bit_and-none_below zero (suc a) h = absurd (omega arith)
bit_and-none_below (suc bound) (suc a) h =
    omega (arith, bit_and-none_below bound (suc a / 2) (omega arith), bit_and_lowest (suc a) 0)

bit_and-none : (a : ℕ) → bit_and a 0 ≡ 0
bit_and-none a = bit_and-none_below a a (omega arith)

pub bit_and-one : (a : ℕ) → bit_and a 1 ≡ a % 2
bit_and-one a = omega (arith, bit_and-none (a / 2), bit_and_lowest a 1)

pub bit_and-two : (a : ℕ) → bit_and a 2 ≡ a / 2 % 2 * 2
bit_and-two a = omega (arith, bit_and-one (a / 2), bit_and_lowest a 2)

pub bit_and-three : (a : ℕ) → bit_and a 3 ≡ a % 4
bit_and-three a = omega (arith, bit_and-one (a / 2), bit_and_lowest a 3)

bit_and-eight : (a : ℕ) → bit_and a 8 ≡ a / 8 % 2 * 8
bit_and-eight a =
    omega (arith, bit_and-two (a / 2 / 2), bit_and_lowest (a / 2) 4, bit_and_lowest a 8)

pub bit_and-sixty_four : (a : ℕ) → bit_and a 64 ≡ a / 64 % 2 * 64
bit_and-sixty_four a = omega (
  arith,
  bit_and-eight (a / 2 / 2 / 2),
  bit_and_lowest (a / 2 / 2) 16,
  bit_and_lowest (a / 2) 32,
  bit_and_lowest a 64,
)
