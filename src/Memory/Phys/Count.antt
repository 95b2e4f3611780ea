-- ===== src/Memory/Phys/Count.antt =====
-- Counting the frames that a predicate leaves free.
use nonameos.Prelude.{
  ℕ, zero, suc, ◌+◌, ◌≤◌, ◌<◌, ◌≡◌, refl, ap, ap₂, Bool, true, false, arith, ◌==◌, if◌then◌else◌,
  inl, inr, Bool-cases, eq_of_test,
}

-- The free frames below `n`.
unfoldable pub count_free : (ℕ → Bool) → ℕ → ℕ
count_free u zero = 0
count_free u (suc n) = count_free u n + (if u n then 0 else 1)

pub count_free_congr :
    (u w : ℕ → Bool) (n : ℕ) → ((g : ℕ) → g < n → u g ≡ w g) → count_free u n ≡ count_free w n
unfolding count_free
count_free_congr u w zero h = refl
count_free_congr u w (suc n) h =
    ap₂ (λ c b. c + (if b then 0 else 1)) (count_free_congr u w n (λ g lt. h g (omega arith)))
      (h n (omega arith))

pub count_free-le : (u : ℕ → Bool) (n : ℕ) → count_free u n ≤ n
unfolding count_free
count_free-le u zero = omega arith
count_free-le u (suc n) = ground (arith, count_free-le u n)

-- Frames that are all used leave none free, and the other way round.
pub count_free-zero : (u : ℕ → Bool) (n : ℕ) → ((g : ℕ) → g < n → u g ≡ true) → count_free u n ≡ 0
unfolding count_free
count_free-zero u zero h = refl
count_free-zero u (suc n) h =
    ground (arith, count_free-zero u n (λ g lt. h g (omega arith)), h n (omega arith))

-- All free.
pub count_free-all : (u : ℕ → Bool) (n : ℕ) → ((g : ℕ) → g < n → u g ≡ false) → count_free u n ≡ n
unfolding count_free
count_free-all u zero h = refl
count_free-all u (suc n) h =
    ground (arith, count_free-all u n (λ g lt. h g (omega arith)), h n (omega arith))

abbrev pub update : (ℕ → Bool) → ℕ → Bool → ℕ → Bool
update u i b g = if i == g then b else u g

update-above : (u : ℕ → Bool) (i n : ℕ) (b : Bool) → n ≤ i → (g : ℕ) → g < n → update u i b g ≡ u g
update-above u i n b h g lt = ground arith

-- Taking a free frame below the bound lowers the count by one.
pub count_free-take :
    (u : ℕ → Bool) (i n : ℕ)
    → i < n
    → u i ≡ false
    → suc (count_free (update u i true) n) ≡ count_free u n
unfolding count_free
count_free-take u i zero lt e = absurd (omega arith)
count_free-take u i (suc n) lt e = elim (Bool-cases (i == n)) [
  | inl last ↦ ground (
    arith,
    count_free_congr (update u i true) u n (update-above u i n true (ground arith)),
    ap u (eq_of_test i n last),
  )
  | inr below ↦ ground (arith, count_free-take u i n (ground arith) e)
]

update-update :
    (u : ℕ → Bool) (i : ℕ) → u i ≡ true → (g : ℕ) → update (update u i false) i true g ≡ u g
update-update u i e g = elim (Bool-cases (i == g)) [
  | inl here ↦ rw here (ground (arith, ap u (eq_of_test i g here)))
  | inr there ↦ rw there
]

-- Giving one back raises it.
pub count_free-give :
    (u : ℕ → Bool) (i n : ℕ)
    → i < n
    → u i ≡ true
    → count_free (update u i false) n ≡ suc (count_free u n)
count_free-give u i n lt e = ground (
  arith,
  count_free-take (update u i false) i n lt (ground arith),
  count_free_congr (update (update u i false) i true) u n (λ g _. update-update u i e g),
)
