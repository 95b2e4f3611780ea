-- ===== src/Prelude/Lists.antt =====
-- Fixed-size arrays as lists, measured and indexed by native numbers.
use Prim.Native.Nat.{ℕ, zero, suc, ◌+◌, ◌≤◌, ◌<◌, min}
use mathlib.Core.Path.{◌≡◌, refl, ap}
use mathlib.Core.Logic.{◌≢◌, ◌⊎◌, inl, inr}
use mathlib.Core.Bool.{Bool, true, false}
use mathlib.Core.List.{List, [], ◌∷◌, ◌++◌, map}
use mathlib.Core.Option.{Option, none, some}
use native.Mathlib.Omega.{arith}
use nonameos.Prelude.Tests.{◌==◌, if◌then◌else◌}

module _ {ℓ} {A : Type ℓ} where
  abbrev pub length : List A → ℕ
  length [] = 0
  length (x ∷ xs) = suc (length xs)

  abbrev pub get_elem? : List A → ℕ → Option A
  get_elem? [] i = none
  get_elem? (x ∷ xs) zero = some x
  get_elem? (x ∷ xs) (suc i) = get_elem? xs i

  abbrev pub get_or : List A → ℕ → A → A
  get_or [] i d = d
  get_or (x ∷ xs) zero d = x
  get_or (x ∷ xs) (suc i) d = get_or xs i d

  -- A write out of bounds changes nothing; the code never makes one.
  abbrev pub set : List A → ℕ → A → List A
  set [] i v = []
  set (x ∷ xs) zero v = v ∷ xs
  set (x ∷ xs) (suc i) v = x ∷ set xs i v

  abbrev pub take : ℕ → List A → List A
  take zero xs = []
  take (suc n) [] = []
  take (suc n) (x ∷ xs) = x ∷ take n xs

  abbrev pub drop : ℕ → List A → List A
  drop zero xs = xs
  drop (suc n) [] = []
  drop (suc n) (x ∷ xs) = drop n xs

  abbrev pub replicate : ℕ → A → List A
  replicate zero a = []
  replicate (suc n) a = a ∷ replicate n a

  pub length-append : (xs ys : List A) → length (xs ++ ys) ≡ length xs + length ys
  length-append [] ys = omega arith
  length-append (x ∷ xs) ys = omega (arith, length-append xs ys)

  pub length-set : (xs : List A) (i : ℕ) (v : A) → length (set xs i v) ≡ length xs
  length-set [] i v = refl
  length-set (x ∷ xs) zero v = refl
  length-set (x ∷ xs) (suc i) v = ap suc (length-set xs i v)

  pub length-take : (n : ℕ) (xs : List A) → length (take n xs) ≡ min n (length xs)
  length-take zero xs = omega arith
  length-take (suc n) [] = omega arith
  length-take (suc n) (x ∷ xs) = omega (arith, length-take n xs)

  pub length-replicate : (n : ℕ) (a : A) → length (replicate n a) ≡ n
  length-replicate zero a = refl
  length-replicate (suc n) a = ap suc (length-replicate n a)

  pub get_elem?-replicate : (n i : ℕ) (a : A) → i < n → get_elem? (replicate n a) i ≡ some a
  get_elem?-replicate zero i a h = absurd (omega arith)
  get_elem?-replicate (suc n) zero a h = refl
  get_elem?-replicate (suc n) (suc i) a h = get_elem?-replicate n i a (omega arith)

  pub get_elem?-eq-get_or :
      (xs : List A) (i : ℕ) (d : A) → i < length xs → get_elem? xs i ≡ some (get_or xs i d)
  get_elem?-eq-get_or [] i d h = absurd (omega arith)
  get_elem?-eq-get_or (x ∷ xs) zero d h = refl
  get_elem?-eq-get_or (x ∷ xs) (suc i) d h = get_elem?-eq-get_or xs i d (omega arith)

  pub get_or_of_get_elem? :
      (xs : List A) (i : ℕ) (d a : A) → get_elem? xs i ≡ some a → get_or xs i d ≡ a
  get_or_of_get_elem? [] i d a h = cc
  get_or_of_get_elem? (x ∷ xs) zero d a h = cc
  get_or_of_get_elem? (x ∷ xs) (suc i) d a h = get_or_of_get_elem? xs i d a h

  pub lt-length_of_get_elem? :
      (xs : List A) (i : ℕ) (a : A) → get_elem? xs i ≡ some a → i < length xs
  lt-length_of_get_elem? [] i a h = absurd (cc)
  lt-length_of_get_elem? (x ∷ xs) zero a h = omega arith
  lt-length_of_get_elem? (x ∷ xs) (suc i) a h = omega (arith, lt-length_of_get_elem? xs i a h)

  -- Reading an array after a write.
  pub get_or-set :
      (xs : List A) (i j : ℕ) (v d : A)
      → i < length xs
      → get_or (set xs i v) j d ≡ (if i == j then v else get_or xs j d)
  get_or-set [] i j v d h = absurd (omega arith)
  get_or-set (x ∷ xs) zero zero v d h = refl
  get_or-set (x ∷ xs) zero (suc j) v d h = ground arith
  get_or-set (x ∷ xs) (suc i) zero v d h = ground arith
  get_or-set (x ∷ xs) (suc i) (suc j) v d h = ground (arith, get_or-set xs i j v d)

  pub get_elem?-set :
      (xs : List A) (i j : ℕ) (v : A)
      → i < length xs
      → get_elem? (set xs i v) j ≡ (if i == j then some v else get_elem? xs j)
  get_elem?-set [] i j v h = absurd (omega arith)
  get_elem?-set (x ∷ xs) zero zero v h = refl
  get_elem?-set (x ∷ xs) zero (suc j) v h = ground arith
  get_elem?-set (x ∷ xs) (suc i) zero v h = ground arith
  get_elem?-set (x ∷ xs) (suc i) (suc j) v h = ground (arith, get_elem?-set xs i j v)

  pub get_or-set_self :
      (xs : List A) (i : ℕ) (v d : A) → i < length xs → get_or (set xs i v) i d ≡ v
  get_or-set_self xs i v d h = ground (arith, get_or-set xs i i v d)

  pub get_or-set_ne :
      (xs : List A) (i j : ℕ) (v d : A) → i ≢ j → get_or (set xs i v) j d ≡ get_or xs j d
  get_or-set_ne [] i j v d h = refl
  get_or-set_ne (x ∷ xs) zero zero v d h = absurd (h refl)
  get_or-set_ne (x ∷ xs) zero (suc j) v d h = refl
  get_or-set_ne (x ∷ xs) (suc i) zero v d h = refl
  get_or-set_ne (x ∷ xs) (suc i) (suc j) v d h = get_or-set_ne xs i j v d (λ e. h (ap suc e))

  -- Whatever the index, an entry after a write is the value written or an old one.
  pub get_or-set_cases :
      (xs : List A) (i j : ℕ) (v d : A)
      → (get_or (set xs i v) j d ≡ v) ⊎ (get_or (set xs i v) j d ≡ get_or xs j d)
  get_or-set_cases [] i j v d = inr refl
  get_or-set_cases (x ∷ xs) zero zero v d = inl refl
  get_or-set_cases (x ∷ xs) zero (suc j) v d = inr refl
  get_or-set_cases (x ∷ xs) (suc i) zero v d = inr refl
  get_or-set_cases (x ∷ xs) (suc i) (suc j) v d = get_or-set_cases xs i j v d

  pub get_elem?-none : (xs : List A) (i : ℕ) → length xs ≤ i → get_elem? xs i ≡ none
  get_elem?-none [] i h = refl
  get_elem?-none (x ∷ xs) zero h = absurd (omega arith)
  get_elem?-none (x ∷ xs) (suc i) h = get_elem?-none xs i (omega arith)

  pub get_or-replicate : (n i : ℕ) (d : A) → get_or (replicate n d) i d ≡ d
  get_or-replicate zero i d = refl
  get_or-replicate (suc n) zero d = refl
  get_or-replicate (suc n) (suc i) d = get_or-replicate n i d

  pub take-append : (xs ys : List A) → take (length xs) (xs ++ ys) ≡ xs
  take-append [] ys = refl
  take-append (x ∷ xs) ys = ap (◌∷◌ x) (take-append xs ys)

  pub take-all : (n : ℕ) (xs : List A) → length xs ≤ n → take n xs ≡ xs
  take-all zero [] h = refl
  take-all zero (x ∷ xs) h = absurd (omega arith)
  take-all (suc n) [] h = refl
  take-all (suc n) (x ∷ xs) h = ap (◌∷◌ x) (take-all n xs (omega arith))

  pub length-drop_add : (n : ℕ) (xs : List A) → n ≤ length xs → n + length (drop n xs) ≡ length xs
  length-drop_add zero xs h = omega arith
  length-drop_add (suc n) [] h = absurd (omega arith)
  length-drop_add (suc n) (x ∷ xs) h = omega (arith, length-drop_add n xs (omega arith))

module _ {ℓ κ} {A : Type ℓ} {B : Type κ} (f : A → B) where
  pub map-set : (xs : List A) (i : ℕ) (v : A) → map f (set xs i v) ≡ set (map f xs) i (f v)
  map-set [] i v = refl
  map-set (x ∷ xs) zero v = refl
  map-set (x ∷ xs) (suc i) v = ap (◌∷◌ (f x)) (map-set xs i v)

  pub get_elem?-map :
      (xs : List A) (i : ℕ) (d : A)
      → i < length xs
      → get_elem? (map f xs) i ≡ some (f (get_or xs i d))
  get_elem?-map [] i d h = absurd (omega arith)
  get_elem?-map (x ∷ xs) zero d h = refl
  get_elem?-map (x ∷ xs) (suc i) d h = get_elem?-map xs i d (omega arith)

  pub length-map : (xs : List A) → length (map f xs) ≡ length xs
  length-map [] = refl
  length-map (x ∷ xs) = ap suc (length-map xs)

-- `dst[..src.len()].copy_from_slice(src)` for a source that is not longer.
abbrev pub copy_prefix {ℓ} : {A : Type ℓ} → List A → List A → List A
copy_prefix src dst = src ++ drop (length src) dst

pub length-copy_prefix {ℓ} :
    {A : Type ℓ} (src dst : List A)
    → length src ≤ length dst
    → length (copy_prefix src dst) ≡ length dst
length-copy_prefix src dst h =
    omega (arith, length-append src (drop (length src) dst), length-drop_add (length src) dst h)

-- Equality of two slices of bytes.
abbrev pub bytes_eq : List ℕ → List ℕ → Bool
bytes_eq [] [] = true
bytes_eq [] (y ∷ ys) = false
bytes_eq (x ∷ xs) [] = false
bytes_eq (x ∷ xs) (y ∷ ys) = if x == y then bytes_eq xs ys else false

pub bytes_eq_refl : (xs : List ℕ) → bytes_eq xs xs ≡ true
bytes_eq_refl [] = refl
bytes_eq_refl (x ∷ xs) = ground (arith, bytes_eq_refl xs)

pub eq_of_bytes_eq : (xs ys : List ℕ) → bytes_eq xs ys ≡ true → xs ≡ ys
eq_of_bytes_eq [] [] h = refl
eq_of_bytes_eq [] (y ∷ ys) h = cc
eq_of_bytes_eq (x ∷ xs) [] h = cc
eq_of_bytes_eq (x ∷ xs) (y ∷ ys) h = ground (arith, eq_of_bytes_eq xs ys)

pub length_of_bytes_eq : (xs ys : List ℕ) → bytes_eq xs ys ≡ true → length xs ≡ length ys
length_of_bytes_eq xs ys h = ap length (eq_of_bytes_eq xs ys h)
