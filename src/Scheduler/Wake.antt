-- ===== src/Scheduler/Wake.antt =====
-- Sleeping threads: which of them `wake_sleeping_threads` wakes.
use mathlib.Core.Option
use nonameos.Prelude.{
  ℕ, zero, suc, ◌+◌, ◌<◌, ◌≡◌, refl, subst, Bool, ◌&&◌, List, [], ◌∷◌, Option, arith, get_or, set,
  inl, inr, ltb, leb, ◌==◌, if◌then◌else◌, Bool-cases, eq_of_test,
}
use nonameos.Task.{Thread}
use nonameos.Scheduler.Edits.{thread-edit}
use nonameos.Scheduler.{
  Scheduler, max_threads, thread, wake, wake_due, wake_from, wake_sleeping_threads, is_due,
}

abbrev pub Tables : Type 0
Tables = List (Option Thread) × List ℕ

abbrev deadline : Tables → ℕ → ℕ
deadline tables j = get_or tables.1 j 0

set_zero : (xs : List ℕ) (i j : ℕ) → get_or (set xs i 0) j 0 ≡ (if i == j then 0 else get_or xs j 0)
set_zero [] i j = ground arith
set_zero (x ∷ xs) zero zero = refl
set_zero (x ∷ xs) zero (suc j) = ground arith
set_zero (x ∷ xs) (suc i) zero = ground arith
set_zero (x ∷ xs) (suc i) (suc j) = ground (arith, set_zero xs i j)

-- The entries at `j` after the rounds `i..i + n`.
abbrev due_in : ℕ → ℕ → ℕ → ℕ → Tables → Bool
due_in now n i j tables = (leb i j && ltb j (i + n)) && is_due now (deadline tables j)

record Woken (now n i : ℕ) (tables q : Tables) (j : ℕ) : Type 0 where
  entry :
      thread q.0 j
      ≡ (if due_in now n i j tables then Option.map wake (thread tables.0 j) else thread tables.0 j)
  until : deadline q j ≡ (if due_in now n i j tables then 0 else deadline tables j)

-- The same for the one index that a round looks at.
record Round (now i : ℕ) (tables q : Tables) (j : ℕ) : Type 0 where
  entry : thread q.0 j ≡ (
      if i == j && is_due now (deadline tables j)
      then Option.map wake (thread tables.0 j)
      else thread tables.0 j)
  until : deadline q j ≡ (if i == j && is_due now (deadline tables j) then 0 else deadline tables j)

round_lem : (now i j : ℕ) (tables : Tables) → Round now i tables (wake_due now i tables) j
unfolding wake_due
round_lem now i j (ts, until) = elim (Bool-cases (i == j)) [
  | inl here ↦
      subst (λ k. Round now i (ts, until) (wake_due now i (ts, until)) k) (eq_of_test i j here)
        (record {
          entry = ground (arith, thread-edit wake i ts i);
          until = ground (arith, set_zero until i i);
        })
  | inr there ↦ record {
    entry = ground (arith, there, thread-edit wake i ts j);
    until = ground (arith, there, set_zero until i j);
  }
]

Woken-suc :
    (now n i j : ℕ) (tables m q : Tables)
    → Round now i tables m j
    → Woken now n (i + 1) m q j
    → Woken now (suc n) i tables q j
Woken-suc now n i j tables m q first rest = record {
  entry = ground (arith, first.entry, first.until, rest.entry);
  until = ground (arith, first.entry, first.until, rest.until);
}

wake_from-Woken :
    (now n i j : ℕ) (tables : Tables) → Woken now n i tables (wake_from now n i tables) j
unfolding wake_from
wake_from-Woken now zero i j tables = record { entry = ground arith; until = ground arith }
wake_from-Woken now (suc n) i j tables =
    Woken-suc now n i j tables _ _ (round_lem now i j tables)
      (wake_from-Woken now n (i + 1) j (wake_due now i tables))

-- The outcome of `wake_sleeping_threads` for one thread.
pub record WakesDue (s q : Scheduler) (j : ℕ) : Type 0 where
  pub entry : thread q.threads j ≡ (
      if is_due s.tick_count (get_or s.sleep_until j 0)
      then Option.map wake (thread s.threads j)
      else thread s.threads j)
  pub until :
      get_or q.sleep_until j 0
      ≡ (if is_due s.tick_count (get_or s.sleep_until j 0) then 0 else get_or s.sleep_until j 0)

-- For every index of the table, `wake_sleeping_threads` clears the timer exactly if it is set and
-- has run out, and then makes the thread Ready if it is Blocked; every other thread and timer stays
-- as it was.
pub wake_sleeping_lem :
    (s : Scheduler) (j : ℕ) → j < max_threads → WakesDue s (wake_sleeping_threads s) j
unfolding wake_sleeping_threads
wake_sleeping_lem s j lt = record {
  entry = ground (arith, all.entry);
  until = ground (arith, all.until);
}
  where
    all :
        Woken s.tick_count max_threads 0
          (s.threads, s.sleep_until)
          (wake_from s.tick_count max_threads 0 (s.threads, s.sleep_until))
          j
    all = wake_from-Woken s.tick_count max_threads 0 j (s.threads, s.sleep_until)
