-- ===== src/Prelude/Find.antt =====
-- The kernel's tables are scanned by `for i in 0..N { if free(T[i]) { return Some(i); } }`.
use Prim.Native.Nat.{ℕ, zero, suc, ◌<◌}
use mathlib.Core.Path.{◌≡◌, refl, ap₂}
use mathlib.Core.Logic.{◌⊎◌, inl, inr}
use mathlib.Core.Bool.{Bool, true, false}
use mathlib.Core.List.{List, [], ◌∷◌, map}
use mathlib.Core.Option.{Option, none, some}
use native.Mathlib.Omega.{arith}
use nonameos.Prelude.Tests.{if◌then◌else◌, Bool-cases}
use nonameos.Prelude.Lists.{length, get_elem?, get_or}

abbrev pub next_index : Option ℕ → Option ℕ
next_index none = none
next_index (some i) = some (suc i)

module _ {ℓ} {A : Type ℓ} (p : A → Bool) where
  -- The first index, in scan order, whose entry passes the test.
  unfoldable pub find_index : List A → Option ℕ
  find_index [] = none
  find_index (x ∷ xs) = if p x then some 0 else next_index (find_index xs)

  -- No entry passes.
  abbrev pub NonePasses : List A → Type ℓ
  NonePasses xs = (j : ℕ) (a : A) → get_elem? xs j ≡ some a → p a ≡ false

  pub record IsFirst (xs : List A) (i : ℕ) : Type ℓ where
    pub entry : A
    pub there : get_elem? xs i ≡ some entry
    pub passes : p entry ≡ true
    pub earlier : (j : ℕ) (a : A) → j < i → get_elem? xs j ≡ some a → p a ≡ false

  NonePasses-cons : (x : A) (xs : List A) → p x ≡ false → NonePasses xs → NonePasses (x ∷ xs)
  NonePasses-cons x xs h rest zero a e = ground arith
  NonePasses-cons x xs h rest (suc j) a e = rest j a e

  earlier-cons :
      (x : A) (xs : List A) (i : ℕ)
      → p x ≡ false
      → ((j : ℕ) (a : A) → j < i → get_elem? xs j ≡ some a → p a ≡ false)
      → (j : ℕ) (a : A) → j < suc i
      → get_elem? (x ∷ xs) j ≡ some a
      → p a ≡ false
  earlier-cons x xs i h rest zero a lt e = ground arith
  earlier-cons x xs i h rest (suc j) a lt e = rest j a (omega arith) e

  abbrev pub Finds : List A → Type ℓ
  Finds xs =
      ((find_index xs ≡ none) × NonePasses xs) ⊎ ((i : ℕ) × (find_index xs ≡ some i) × IsFirst xs i)

  -- The scan fails only where no entry passes, and else stops at the first that does.
  pub find_index_cases : (xs : List A) → Finds xs
  unfolding find_index
  find_index_cases [] = inl (refl, λ j a e. absurd (cc))
  find_index_cases (x ∷ xs) = elim (Bool-cases (p x)) [
    | inl hit ↦ inr (
      0,
      rw hit,
      record { entry = x; there = refl; passes = hit; earlier = λ j a lt e. elim lt [ ] },
    )
    | inr miss ↦ elim (find_index_cases xs) [
      | inl (e, no_hit) ↦ inl (rw (miss, e), NonePasses-cons x xs miss no_hit)
      | inr (i, e, first) ↦ inr (
        suc i,
        rw (miss, e),
        record {
          entry = first.entry;
          there = first.there;
          passes = first.passes;
          earlier = earlier-cons x xs i miss first.earlier;
        },
      )
    ]
  ]

module _ {ℓ κ} {A : Type ℓ} {B : Type κ} (f : A → B) (p : B → Bool) (q : A → Bool) where
  -- A scan of the images, where the two tests agree on every entry.
  pub find_index-map :
      (xs : List A) (d : A)
      → ((i : ℕ) → i < length xs → q (get_or xs i d) ≡ p (f (get_or xs i d)))
      → find_index q xs ≡ find_index p (map f xs)
  unfolding find_index
  find_index-map [] d h = refl
  find_index-map (x ∷ xs) d h =
      ap₂ (λ b r. if b then some 0 else next_index r) (h 0 (omega arith))
        (find_index-map xs d (λ i lt. h (suc i) (omega arith)))
