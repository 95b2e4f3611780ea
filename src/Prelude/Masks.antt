-- ===== src/Prelude/Masks.antt =====
-- `bit_and` with a mask of ones that are shifted left, for words of any width.
use Prim.Native.Nat.{
  ℕ, zero, suc, ◌+◌, ◌*◌, ◌/◌, ◌%◌, ◌^◌, ◌≤◌, ◌<◌, min, bit_and, digits, bit_and-bitwise,
}
use mathlib.Core.Path.{◌≡◌, refl, ap, sym, ◌∙◌}
use native.Mathlib.Omega.{arith}
use native.Mathlib.Nat.{pow-suc}

-- The digits of the conjunction, as the native operation computes them on `fuel` steps.
abbrev conj : ℕ → ℕ → ℕ → ℕ
conj fuel x y = digits (λ y. zero) min fuel x y

-- Steps beyond the size of the first number change nothing.
spare_fuel : (fuel more x y : ℕ) → x ≤ fuel → fuel ≤ more → conj more x y ≡ conj fuel x y
spare_fuel fuel more zero y h le = none_left more ∙ sym (none_left fuel)
  where
    none_left : (n : ℕ) → conj n 0 y ≡ 0
    none_left zero = refl
    none_left (suc n) = refl
spare_fuel (suc fuel) (suc more) (suc x) y h le =
    omega (arith, spare_fuel fuel more (suc x / 2) (y / 2) (omega arith) (omega arith))
spare_fuel zero more (suc x) y h le = absurd (omega arith)
spare_fuel (suc fuel) zero (suc x) y h le = absurd (omega arith)

split : (fuel x y : ℕ) → x ≤ fuel → conj fuel x y ≡ bit_and x y
split fuel x y h = spare_fuel x fuel x y (omega arith) h ∙ sym (bit_and-bitwise x y)

bit_and-halves : (x y : ℕ) → bit_and x y ≡ bit_and (x / 2) (y / 2) * 2 + min (x % 2) (y % 2)
bit_and-halves zero y = omega (arith, bit_and-bitwise 0 y, bit_and-bitwise 0 (y / 2))
bit_and-halves (suc x) y =
    omega (arith, bit_and-bitwise (suc x) y, split x (suc x / 2) (y / 2) (omega arith))

-- `k` ones.
abbrev pub ones : ℕ → ℕ
ones zero = 0
ones (suc k) = 2 * ones k + 1

-- `k` zeros behind `m`.
abbrev pub shifted : ℕ → ℕ → ℕ
shifted zero m = m
shifted (suc k) m = 2 * shifted k m

abbrev pub halved : ℕ → ℕ → ℕ
halved zero x = x
halved (suc k) x = halved k (x / 2)

pub bit_and-ones : (k y : ℕ) → y < 2 ^ k → bit_and y (ones k) ≡ y
bit_and-ones zero y h = omega (arith, bit_and-bitwise 0 0, ap (λ z. bit_and z 0) (zero_of y h))
  where
    zero_of : (y : ℕ) → y < 2 ^ 0 → y ≡ 0
    zero_of y h = omega arith
bit_and-ones (suc k) y h =
    omega (arith, bit_and-halves y (ones (suc k)), bit_and-ones k (y / 2) (half y h), mask)
  where
    half : (y : ℕ) → y < 2 ^ suc k → y / 2 < 2 ^ k
    half y h = omega (arith, pow-suc 2 k)

    mask : bit_and (y / 2) (ones (suc k) / 2) ≡ bit_and (y / 2) (ones k)
    mask = ap (bit_and (y / 2)) (omega arith)

pub bit_and-shifted : (k m x : ℕ) → bit_and x (shifted k m) ≡ shifted k (bit_and (halved k x) m)
bit_and-shifted zero m x = refl
bit_and-shifted (suc k) m x =
    omega (arith, bit_and-halves x (shifted (suc k) m), bit_and-shifted k m (x / 2), mask)
  where
    mask : bit_and (x / 2) (shifted (suc k) m / 2) ≡ bit_and (x / 2) (shifted k m)
    mask = ap (bit_and (x / 2)) (omega arith)
