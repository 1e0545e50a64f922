-- ===== src/Prelude/Bits.antt =====
-- Bit operations on words: a mask of ones is a remainder, and fields that do not overlap add up.
use Prim.Native.Nat.{
  ℕ, zero, suc, ◌+◌, ◌*◌, ◌/◌, ◌%◌, ◌^◌, ◌≤◌, ◌<◌, min, max, bit_and, bit_or, digits,
  bit_and-bitwise, bit_or-bitwise,
}
use mathlib.Core.Path.{◌≡◌, refl, ap, ◌∙◌}
use native.Mathlib.Omega.{arith}
use native.Mathlib.Nat.{pow-suc}

module _ (last : ℕ → ℕ) (op : ℕ → ℕ → ℕ) where
  -- Any count of rounds that covers `x` gives the same digits.
  enough_rounds : (x y k l : ℕ) → x ≤ k → x ≤ l → digits last op k x y ≡ digits last op l x y
  enough_rounds x y zero zero h g = refl
  enough_rounds zero y zero (suc l) h g = refl
  enough_rounds (suc x) y zero (suc l) h g = absurd (omega arith)
  enough_rounds zero y (suc k) zero h g = refl
  enough_rounds (suc x) y (suc k) zero h g = absurd (omega arith)
  enough_rounds zero y (suc k) (suc l) h g = refl
  enough_rounds (suc x) y (suc k) (suc l) h g =
      ap (λ v. v * 2 + op (suc x % 2) (y % 2))
        (enough_rounds (suc x / 2) (y / 2) k l (omega arith) (omega arith))

  lowest_digit :
      (x y : ℕ)
      → digits last op (suc x) (suc x) y
        ≡ digits last op (suc x / 2) (suc x / 2) (y / 2) * 2 + op (suc x % 2) (y % 2)
  lowest_digit x y =
      ap (λ v. v * 2 + op (suc x % 2) (y % 2))
        (enough_rounds (suc x / 2) (y / 2) x (suc x / 2) (omega arith) (omega arith))

or_lowest : (x y : ℕ) → bit_or x y ≡ bit_or (x / 2) (y / 2) * 2 + max (x % 2) (y % 2)
or_lowest zero y = omega (arith, bit_or-bitwise 0 y, bit_or-bitwise 0 (y / 2))
or_lowest (suc x) y = omega (
  arith,
  bit_or-bitwise (suc x) y,
  bit_or-bitwise (suc x / 2) (y / 2),
  lowest_digit (λ b. b) max x y,
)

and_lowest : (x y : ℕ) → bit_and x y ≡ bit_and (x / 2) (y / 2) * 2 + min (x % 2) (y % 2)
and_lowest zero y = omega (arith, bit_and-bitwise 0 y, bit_and-bitwise 0 (y / 2))
and_lowest (suc x) y = omega (
  arith,
  bit_and-bitwise (suc x) y,
  bit_and-bitwise (suc x / 2) (y / 2),
  lowest_digit (λ _. 0) min x y,
)

or_zero : (rounds x : ℕ) → x ≤ rounds → bit_or x 0 ≡ x
or_zero rounds zero h = refl
or_zero zero (suc x) h = absurd (omega arith)
or_zero (suc rounds) (suc x) h =
    omega (arith, or_lowest (suc x) 0, or_zero rounds (suc x / 2) (omega arith))

double_power : (high k : ℕ) → high * 2 ^ suc k ≡ (high * 2 ^ k) * 2
double_power high k = omega (arith, ap (λ (p : ℕ). high * p) (pow-suc 2 k))

-- A shifted high part and a low part of `k` bits.
pub bit_or-add : (k high low : ℕ) → low < 2 ^ k → bit_or (high * 2 ^ k) low ≡ high * 2 ^ k + low
bit_or-add zero high zero h = or_zero (high * 1) (high * 1) (omega arith) ∙ omega arith
bit_or-add zero high (suc low) h = absurd (omega arith)
bit_or-add (suc k) high low h = omega (
  arith,
  or_lowest (high * 2 ^ suc k) low,
  double_power high k,
  ap (λ (v : ℕ). bit_or v (low / 2)) (half_double high k),
  bit_or-add k high (low / 2) (omega (arith, pow-suc 2 k)),
)
  where
    half_double : (a k : ℕ) → a * 2 ^ suc k / 2 ≡ a * 2 ^ k
    half_double a k = omega (arith, double_power a k)

mask_double : (x m : ℕ) → bit_and x (2 * m + 1) ≡ bit_and (x / 2) m * 2 + x % 2
mask_double x m =
    omega (arith, and_lowest x (2 * m + 1), ap (λ (v : ℕ). bit_and (x / 2) v) (half m))
  where
    half : (v : ℕ) → (2 * v + 1) / 2 ≡ v
    half v = omega arith

-- `x & 4095`, one digit at a time.
and_zero : (rounds x : ℕ) → x ≤ rounds → bit_and x 0 ≡ 0
and_zero rounds zero h = refl
and_zero zero (suc x) h = absurd (omega arith)
and_zero (suc rounds) (suc x) h =
    omega (arith, and_lowest (suc x) 0, and_zero rounds (suc x / 2) (omega arith))

and_15 : (x : ℕ) → bit_and x 15 ≡ x % 16
and_15 x = omega (
  arith,
  mask_double x 7,
  mask_double (x / 2) 3,
  mask_double (x / 2 / 2) 1,
  mask_double (x / 2 / 2 / 2) 0,
  and_zero (x / 2 / 2 / 2 / 2) (x / 2 / 2 / 2 / 2) (omega arith),
)

and_255 : (x : ℕ) → bit_and x 255 ≡ x % 256
and_255 x = omega (
  arith,
  mask_double x 127,
  mask_double (x / 2) 63,
  mask_double (x / 2 / 2) 31,
  mask_double (x / 2 / 2 / 2) 15,
  and_15 (x / 2 / 2 / 2 / 2),
)

pub bit_and_4095 : (x : ℕ) → bit_and x 4095 ≡ x % 4096
bit_and_4095 x = omega (
  arith,
  mask_double x 2047,
  mask_double (x / 2) 1023,
  mask_double (x / 2 / 2) 511,
  mask_double (x / 2 / 2 / 2) 255,
  and_255 (x / 2 / 2 / 2 / 2),
)
