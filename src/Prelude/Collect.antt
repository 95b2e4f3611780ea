-- ===== src/Prelude/Collect.antt =====
-- A list given by its length and its entries, and what a ring of slots holds.
use Prim.Native.Nat.{ℕ, zero, suc, ◌+◌, ◌-◌, ◌%◌, ◌<◌}
use mathlib.Core.Path.{◌≡◌, refl, ap, ap₂, ◌∙◌}
use mathlib.Core.Logic.{◌≢◌}
use mathlib.Core.List.{List, [], ◌∷◌, ◌++◌}
use native.Mathlib.Omega.{arith}
use native.Mathlib.Nat.{mod-eq_of_lt, mod-add-mod, add-zero}
use nonameos.Prelude.Lists.{length, get_or, set, get_or-set_self, get_or-set_ne}

module _ {ℓ} {A : Type ℓ} where
  abbrev pub collect : ℕ → (ℕ → A) → List A
  collect zero f = []
  collect (suc n) f = f 0 ∷ collect n (λ k. f (suc k))

  pub length-collect : (n : ℕ) (f : ℕ → A) → length (collect n f) ≡ n
  length-collect zero f = refl
  length-collect (suc n) f = ap suc (length-collect n (λ k. f (suc k)))

  pub collect_congr :
      (n : ℕ) (f g : ℕ → A) → ((k : ℕ) → k < n → f k ≡ g k) → collect n f ≡ collect n g
  collect_congr zero f g h = refl
  collect_congr (suc n) f g h =
      ap₂ ◌∷◌ (h 0 (omega arith))
        (collect_congr n (λ k. f (suc k)) (λ k. g (suc k)) (λ k lt. h (suc k) (omega arith)))

  pub collect-suc : (n : ℕ) (f : ℕ → A) → collect (suc n) f ≡ collect n f ++ (f n ∷ [])
  collect-suc zero f = refl
  collect-suc (suc n) f = ap (◌∷◌ (f 0)) (collect-suc n (λ k. f (suc k)))

-- `cap` slots used in a circle: `n` of them hold data, the oldest at `start`.
module _ {ℓ} {A : Type ℓ} (cap : ℕ) (d : A) where
  abbrev pub ring : List A → ℕ → ℕ → List A
  ring slots start n = collect n (λ k. get_or slots ((start + k) % cap) d)

  slot-ne : (start k n : ℕ) → k < n → n < cap → (start + n) % cap ≢ (start + k) % cap
  slot-ne start k n p q = grind arith

  -- A write to the slot behind the newest appends one entry.
  pub ring-set :
      (slots : List A) (start n : ℕ) (v : A)
      → length slots ≡ cap
      → n < cap
      → ring (set slots ((start + n) % cap) v) start (suc n) ≡ ring slots start n ++ (v ∷ [])
  ring-set slots start n v len room =
      collect-suc n (λ k. get_or (set slots w v) ((start + k) % cap) d)
      ∙ ap₂ (λ front back. front ++ (back ∷ []))
          (collect_congr n (λ k. get_or (set slots w v) ((start + k) % cap) d)
            (λ k. get_or slots ((start + k) % cap) d)
            (λ k lt. get_or-set_ne slots w ((start + k) % cap) v d (slot-ne start k n lt room)))
          (get_or-set_self slots w v d (omega (arith, len)))
    where
      w : ℕ
      w = (start + n) % cap

  -- A read of the oldest slot splits off the first entry.
  pub ring-step :
      (slots : List A) (start n : ℕ)
      → start < cap
      → ring slots start (suc n) ≡ get_or slots start d ∷ ring slots ((start + 1) % cap) n
  ring-step slots start n h = ap₂ ◌∷◌ (ap (λ i. get_or slots i d) (rw add-zero (mod-eq_of_lt h))) (
      collect_congr n (λ k. get_or slots ((start + suc k) % cap) d)
        (λ k. get_or slots (((start + 1) % cap + k) % cap) d)
        (λ k lt. ap (λ i. get_or slots i d) (shift k)))
    where
      shift : (k : ℕ) → (start + suc k) % cap ≡ ((start + 1) % cap + k) % cap
      shift k = rw mod-add-mod (ap (λ i. i % cap) (omega arith))

  pub length-ring : (slots : List A) (start n : ℕ) → length (ring slots start n) ≡ n
  length-ring slots start n = length-collect n (λ k. get_or slots ((start + k) % cap) d)

  -- As the code tests for emptiness.
  pub ring-step_of_ne_zero :
      (slots : List A) (start n : ℕ)
      → start < cap
      → n ≢ 0
      → ring slots start n ≡ get_or slots start d ∷ ring slots ((start + 1) % cap) (n - 1)
  ring-step_of_ne_zero slots start zero h ne = absurd (ne refl)
  ring-step_of_ne_zero slots start (suc n) h ne =
      ring-step slots start n h
      ∙ ap (λ m. get_or slots start d ∷ ring slots ((start + 1) % cap) m) (omega arith)
