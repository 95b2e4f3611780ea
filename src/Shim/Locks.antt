-- ===== src/Shim/Locks.antt =====
-- `SpinLock` of kernel/src/drivers/linux_shim/mod.rs under every interleaving of any number of
-- threads. A step is one atomic operation on the flag, and only a thread that is inside unlocks.
use nonameos.Prelude.{
  ℕ, zero, suc, ◌+◌, ◌≤◌, ◌<◌, ◌≡◌, refl, Bool, true, false, List, [], ◌∷◌, length, get_or, set,
  if◌then◌else◌, arith, replicate,
}
use nonameos.Prelude.Counting.{count_if, count_if-set, count_if-pos}

-- `compare_exchange(false, true)`: whether it succeeds, and the flag after it.
unfoldable pub compare_exchange : Bool → Bool × Bool
compare_exchange false = (true, true)
compare_exchange true = (false, true)

-- `SpinLock::try_lock`, and one round of `SpinLock::lock`.
abbrev pub try_lock : Bool → Bool × Bool
try_lock = compare_exchange

-- `SpinLock::unlock`
abbrev pub unlock : Bool → Bool
unlock locked = false

-- Where a thread stands: before the lock, in the rounds of `lock`, or behind it.
pub data Stage : Type 0 where
  outside spinning inside : Stage

abbrev pub is_inside : Stage → Bool
is_inside inside = true
is_inside _ = false

-- The flag and the threads.
pub record System : Type 0 where
  pub locked : Bool
  pub threads : List Stage

abbrev pub stage : System → ℕ → Stage
stage s i = get_or s.threads i outside

abbrev pub moves : ℕ → Stage → System → System
moves i st s = record s { threads = set s.threads i st }

-- One step of the thread `i`. `lock` spins for as long as the
-- exchange fails, and the weak one may fail although the flag is free.
pub data Step (s : System) : System → Type 0 where
  starts : (i : ℕ) → i < length s.threads → stage s i ≡ outside → Step s (moves i spinning s)
  spins :
      (i : ℕ)
      → stage s i ≡ spinning
      → (compare_exchange s.locked).0 ≡ false
      → Step s (record s { locked = (compare_exchange s.locked).1 })
  fails_weakly : (i : ℕ) → stage s i ≡ spinning → Step s s
  enters :
      (i : ℕ)
      → i < length s.threads
      → stage s i ≡ spinning
      → (compare_exchange s.locked).0 ≡ true
      → Step s (record (moves i inside s) { locked = (compare_exchange s.locked).1 })
  tries :
      (i : ℕ)
      → i < length s.threads
      → stage s i ≡ outside
      → Step s (record (moves i (if (try_lock s.locked).0 then inside else outside) s) {
        locked = (try_lock s.locked).1;
      })
  leaves :
      (i : ℕ)
      → i < length s.threads
      → stage s i ≡ inside
      → Step s (record (moves i outside s) { locked = unlock s.locked })

-- Any number of steps, the latest first.
pub data Steps (s : System) : System → Type 0 where
  here : Steps s s
  then_step : {t u : System} → Steps s t → Step t u → Steps s u

abbrev pub insiders : System → ℕ
insiders s = count_if is_inside s.threads

-- The flag says how many threads are inside.
abbrev pub IsExclusive : System → Type 0
IsExclusive s = insiders s ≡ (if s.locked then 1 else 0)

-- Moving a thread changes the count by what it is before and after.
moved :
    (s : System) (i : ℕ) (old new : Stage)
    → i < length s.threads
    → stage s i ≡ old
    → count_if is_inside (set s.threads i new) + (if is_inside old then 1 else 0)
      ≡ insiders s + (if is_inside new then 1 else 0)
moved s i old new lt e = rw (← e) (count_if-set is_inside s.threads i new outside lt)

some_inside : (s : System) (i : ℕ) → i < length s.threads → stage s i ≡ inside → 0 < insiders s
some_inside s i lt e = count_if-pos is_inside s.threads i outside lt (rw e)

Step-IsExclusive : {s t : System} → Step s t → IsExclusive s → IsExclusive t
unfolding compare_exchange
Step-IsExclusive {s} (starts i lt e) h = omega (arith, moved s i outside spinning lt e, h)
Step-IsExclusive {s} (spins i e busy) h = ground (arith, h)
Step-IsExclusive {s} (fails_weakly i e) h = h
Step-IsExclusive {s} (enters i lt e free) h = ground (arith, h, moved s i spinning inside lt e)
Step-IsExclusive {s} (tries i lt e) h =
    ground (arith, h, moved s i outside inside lt e, moved s i outside outside lt e)
Step-IsExclusive {s} (leaves i lt e) h =
    ground (arith, h, moved s i inside outside lt e, some_inside s i lt e)

within :
    (threads : List Stage) (i : ℕ)
    → get_or threads i outside ≡ inside
    → 0 < count_if is_inside threads
unfolding count_if
within [] i e = cc
within (x ∷ xs) zero e = ground (arith, e)
within (x ∷ xs) (suc i) e = omega (arith, within xs i e)

only_one :
    (threads : List Stage) (i j : ℕ)
    → count_if is_inside threads ≤ 1
    → get_or threads i outside ≡ inside
    → get_or threads j outside ≡ inside
    → i ≡ j
unfolding count_if
only_one [] i j h a b = cc
only_one (x ∷ xs) zero zero h a b = refl
only_one (x ∷ xs) zero (suc j) h a b = ground (arith, a, within xs j b)
only_one (x ∷ xs) (suc i) zero h a b = ground (arith, b, within xs i a)
only_one (x ∷ xs) (suc i) (suc j) h a b = omega (arith, only_one xs i j (omega arith) a b)

all_outside : (n : ℕ) → count_if is_inside (replicate n outside) ≡ 0
unfolding count_if
all_outside zero = refl
all_outside (suc n) = omega (arith, all_outside n)

-- `SpinLock::new`, with `n` threads.
abbrev pub fresh_lock : ℕ → System
fresh_lock n = record { locked = false; threads = replicate n outside }

Steps-IsExclusive : (n : ℕ) {t : System} → Steps (fresh_lock n) t → IsExclusive t
Steps-IsExclusive n here = all_outside n
Steps-IsExclusive n (then_step ss s) = Step-IsExclusive s (Steps-IsExclusive n ss)

-- From a new lock on, whatever any number of threads do with `lock`, `try_lock` and `unlock`, in
-- any order, where only a thread that holds the lock unlocks it: two threads that are behind the
-- lock are the same one, and the flag is set.
pub lock-excludes :
    (n : ℕ) {t : System} (i j : ℕ)
    → Steps (fresh_lock n) t
    → stage t i ≡ inside
    → stage t j ≡ inside
    → (i ≡ j) × (t.locked ≡ true)
lock-excludes n {t} i j ss a b =
    ground (arith, Steps-IsExclusive n ss, only_one t.threads i j, within t.threads i a)
