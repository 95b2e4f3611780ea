-- ===== src/Prelude/Counting.antt =====
-- The number of entries of a table that pass a test.
use Prim.Native.Nat.{ℕ, zero, suc, ◌+◌, ◌<◌, ◌≤◌}
use mathlib.Core.Path.{◌≡◌}
use mathlib.Core.Bool.{Bool, true}
use mathlib.Core.List.{List, [], ◌∷◌}
use native.Mathlib.Omega.{arith}
use nonameos.Prelude.Tests.{if◌then◌else◌}
use nonameos.Prelude.Lists.{length, get_or, set}

module _ {ℓ} {A : Type ℓ} (p : A → Bool) where
  unfoldable pub count_if : List A → ℕ
  count_if [] = 0
  count_if (x ∷ xs) = (if p x then 1 else 0) + count_if xs

  -- A write trades the old entry for the new one.
  pub count_if-set :
      (xs : List A) (i : ℕ) (v d : A)
      → i < length xs
      → count_if (set xs i v) + (if p (get_or xs i d) then 1 else 0)
        ≡ count_if xs + (if p v then 1 else 0)
  unfolding count_if
  count_if-set [] i v d lt = absurd (omega arith)
  count_if-set (x ∷ xs) zero v d lt = omega arith
  count_if-set (x ∷ xs) (suc i) v d lt = omega (arith, count_if-set xs i v d (omega arith))

  -- An entry that passes is counted.
  pub count_if-pos :
      (xs : List A) (i : ℕ) (d : A) → i < length xs → p (get_or xs i d) ≡ true → 0 < count_if xs
  unfolding count_if
  count_if-pos [] i d lt h = absurd (omega arith)
  count_if-pos (x ∷ xs) zero d lt h = ground (arith, h)
  count_if-pos (x ∷ xs) (suc i) d lt h = omega (arith, count_if-pos xs i d (omega arith) h)

  pub count_if-le : (xs : List A) → count_if xs ≤ length xs
  unfolding count_if
  count_if-le [] = omega arith
  count_if-le (x ∷ xs) = ground (arith, count_if-le xs)
