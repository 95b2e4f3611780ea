-- ===== src/Prelude/Bits.antt =====
-- Single bits of a byte: `x | (1 << b)`, `x & !(1 << b)` and `x & (1 << b) != 0` on a `u8`.
-- A byte has 256 values and 8 bits, so the laws are tables that are evaluated once.
use Prim.Native.Nat.{ℕ, zero, suc, ◌-◌, ◌^◌, ◌<◌, bit_and, bit_or}
use mathlib.Core.Path.{◌≡◌, refl}
use mathlib.Core.Bool.{Bool, true, false, ◌&&◌, not}
use native.Mathlib.Omega.{arith}
use nonameos.Prelude.Tests.{ltb, ◌==◌, if◌then◌else◌}

unfoldable pub set_bit_of : ℕ → ℕ → ℕ
set_bit_of x b = bit_or x (2 ^ b)

unfoldable pub clear_bit_of : ℕ → ℕ → ℕ
clear_bit_of x b = bit_and x (255 - 2 ^ b)

unfoldable pub test_bit_of : ℕ → ℕ → Bool
test_bit_of x b = not (bit_and x (2 ^ b) == 0)

-- A table of Booleans, read at every number below a bound.
unfoldable pub all_below : ℕ → (ℕ → Bool) → Bool
all_below zero row = true
all_below (suc bound) row = all_below bound row && row bound

pub all_below_sound :
    (row : ℕ → Bool) (bound : ℕ)
    → all_below bound row ≡ true
    → (at : ℕ) → at < bound
    → row at ≡ true
unfolding all_below
all_below_sound row zero all at lt = absurd (omega arith)
all_below_sound row (suc bound) all at lt =
    let earlier : (all_below bound row ≡ true → at < bound → row at ≡ true) =
      (λ below near. all_below_sound row bound below at near) in
    ground arith

abbrev same : Bool → Bool → Bool
same true b = b
same false b = not b

eq_of_same : (a b : Bool) → same a b ≡ true → a ≡ b
eq_of_same true b h = ground arith
eq_of_same false b h = ground arith

-- A check over bytes and two bit numbers.
over_bits : (ℕ → ℕ → ℕ → Bool) → Bool
unfolding all_below
over_bits p = all_below 256 (λ x. all_below 8 (λ b. all_below 8 (λ c. p x b c)))

over_bits_sound :
    (p : ℕ → ℕ → ℕ → Bool) (x b c : ℕ)
    → over_bits p ≡ true
    → x < 256
    → b < 8
    → c < 8
    → p x b c ≡ true
unfolding over_bits
over_bits_sound p x b c h hx hb hc =
    all_below_sound (p x b) 8
      (all_below_sound (λ b. all_below 8 (p x b)) 8
        (all_below_sound (λ x. all_below 8 (λ b. all_below 8 (p x b))) 256 h x hx) b hb)
      c hc

set_table :
    over_bits
      (λ x b c. same (test_bit_of (set_bit_of x b) c) (if b == c then true else test_bit_of x c))
    ≡ true
unfolding over_bits test_bit_of set_bit_of
set_table = refl

clear_table :
    over_bits
      (λ x b c. same (test_bit_of (clear_bit_of x b) c) (if b == c then false else test_bit_of x c))
    ≡ true
unfolding over_bits test_bit_of clear_bit_of
clear_table = refl

range_table : over_bits (λ x b c. ltb (set_bit_of x b) 256 && ltb (clear_bit_of x b) 256) ≡ true
unfolding over_bits set_bit_of clear_bit_of
range_table = refl

module _ (x b : ℕ) (hx : x < 256) (hb : b < 8) where
  -- Setting a bit sets that bit and no other.
  pub test-set :
      (c : ℕ) → c < 8 → test_bit_of (set_bit_of x b) c ≡ (if b == c then true else test_bit_of x c)
  test-set c hc = eq_of_same _ _ (over_bits_sound _ x b c set_table hx hb hc)

  pub test-clear :
      (c : ℕ)
      → c < 8
      → test_bit_of (clear_bit_of x b) c ≡ (if b == c then false else test_bit_of x c)
  test-clear c hc = eq_of_same _ _ (over_bits_sound _ x b c clear_table hx hb hc)

  in_range : (ltb (set_bit_of x b) 256 && ltb (clear_bit_of x b) 256) ≡ true
  in_range = over_bits_sound _ x b 0 range_table hx hb (omega arith)

  pub set_bit_of-lt : set_bit_of x b < 256
  set_bit_of-lt = ground (arith, in_range)

  pub clear_bit_of-lt : clear_bit_of x b < 256
  clear_bit_of-lt = ground (arith, in_range)
