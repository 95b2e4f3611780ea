-- ===== src/Scheduler/Sleeper.antt =====
-- A woken thread gets to run.
use mathlib.Core.Option
use mathlib.Core.Bool.{false≢true}
use nonameos.Prelude.{
  ℕ, ◌+◌, ◌≤◌, ◌<◌, ◌≡◌, ◌≢◌, refl, sym, ap, ◌∙◌, Bool, true, false, List, Option, none, some,
  arith, get_or, inl, inr, ◌==◌, if◌then◌else◌, Bool-cases, eq_of_test, ◌⊎◌, add_usize, usize_mod,
}
use nonameos.Task.{TaskState, is_ready, is_running, is_blocked, rank, Thread}
use nonameos.Scheduler.Select.{ready, rank_of}
use nonameos.Scheduler.Edits.{thread-edit}
use nonameos.Scheduler.Valid.{IsValid, looked_at, woken-IsValid}
use nonameos.Scheduler.Choice.{Chose, stays, picks, schedule-Chose}
use nonameos.Scheduler.{
  Scheduler, max_threads, thread, preempt, wake, wake_sleeping_threads, is_due, timer_tick,
  schedule,
}
use nonameos.Scheduler.Wake.{wake_sleeping_lem}

-- Neither waking nor preempting changes a priority.
rank-wake : (o : Option Thread) → rank_of (Option.map wake o) ≡ rank_of o
unfolding wake
rank-wake none = refl
rank-wake (some t) = ground arith

rank-preempt : (o : Option Thread) → rank_of (Option.map preempt o) ≡ rank_of o
unfolding preempt
rank-preempt none = refl
rank-preempt (some t) = ground arith

rank-looked_at :
    (cur j : ℕ) (ts : List (Option Thread))
    → rank_of (thread (looked_at cur ts) j) ≡ rank_of (thread ts j)
rank-looked_at cur j ts = ap rank_of (thread-edit preempt cur ts j) ∙ cases (Bool-cases (cur == j))
  where
    cases :
        ((cur == j) ≡ true) ⊎ ((cur == j) ≡ false)
        → rank_of (if cur == j then Option.map preempt (thread ts cur) else thread ts j)
          ≡ rank_of (thread ts j)
    cases (inl here) =
        rw here
          (rank-preempt (thread ts cur) ∙ ap (λ k. rank_of (thread ts k)) (eq_of_test cur j here))
    cases (inr there) = rw there

ready-preempt : (o : Option Thread) → ready o ≡ true → ready (Option.map preempt o) ≡ true
unfolding preempt is_running is_ready
ready-preempt none r = r
ready-preempt (some t) r = ground arith

-- Nor does preempting take a ready thread out of the running.
ready-looked_at :
    (cur j : ℕ) (ts : List (Option Thread))
    → ready (thread ts j) ≡ true
    → ready (thread (looked_at cur ts) j) ≡ true
ready-looked_at cur j ts r = ap ready (thread-edit preempt cur ts j) ∙ cases (Bool-cases (cur == j))
  where
    cases :
        ((cur == j) ≡ true) ⊎ ((cur == j) ≡ false)
        → ready (if cur == j then Option.map preempt (thread ts cur) else thread ts j) ≡ true
    cases (inl here) =
        rw here (
          ready-preempt (thread ts cur) (ap (λ k. ready (thread ts k)) (eq_of_test cur j here) ∙ r))
    cases (inr there) = rw there r

-- The sleeper `j` is due at the next tick and outranks everybody else.
pub record Due (s : Scheduler) (j : ℕ) (t : Thread) : Type 0 where
  pub within : j < max_threads
  pub entry : thread s.threads j ≡ some t
  pub blocked : t.state ≡ TaskState.blocked
  pub timer : 0 < get_or s.sleep_until j 0
  pub expired : get_or s.sleep_until j 0 ≤ s.tick_count + 1
  pub no_wrap : s.tick_count + 1 < usize_mod
  pub outranks : (k : ℕ) → k < max_threads → k ≢ j → rank_of (thread s.threads k) < rank t.priority

-- A priority survives the waking.
rank-woken :
    (s : Scheduler) (j : ℕ)
    → j < max_threads
    → rank_of (thread (wake_sleeping_threads s).threads j) ≡ rank_of (thread s.threads j)
rank-woken s j lt =
    ap rank_of (wake_sleeping_lem s j lt).entry
    ∙ cases (is_due s.tick_count (get_or s.sleep_until j 0))
  where
    cases :
        (b : Bool)
        → rank_of (if b then Option.map wake (thread s.threads j) else thread s.threads j)
          ≡ rank_of (thread s.threads j)
    cases true = rank-wake (thread s.threads j)
    cases false = refl

active-woken : (s : Scheduler) → (wake_sleeping_threads s).active ≡ s.active
unfolding wake_sleeping_threads
active-woken s = refl

module _ (s : Scheduler) (j : ℕ) (t : Thread) (v : IsValid s) (d : Due s j t) where
  ticked : Scheduler
  ticked = record s { tick_count = add_usize s.tick_count 1 }

  ticked-IsValid : IsValid ticked
  unfolding ticked
  ticked-IsValid = record { cur = v.cur; current = v.current; table = v.table }

  woken : Scheduler
  woken = wake_sleeping_threads ticked

  woken-valid : IsValid woken
  unfolding woken
  woken-valid = woken-IsValid ticked ticked-IsValid

  now_ready : ready (thread woken.threads j) ≡ true
  unfolding woken ticked wake is_due is_blocked is_ready
  now_ready =
      ap ready (wake_sleeping_lem ticked j d.within).entry
      ∙ ground (arith, d.entry, d.blocked, d.timer, d.expired, d.no_wrap)

  looked : List (Option Thread)
  looked = looked_at woken-valid.cur woken.threads

  rank-looked : (k : ℕ) → k < max_threads → rank_of (thread looked k) ≡ rank_of (thread s.threads k)
  unfolding looked woken ticked
  rank-looked k lt = rank-looked_at woken-valid.cur k woken.threads ∙ rank-woken ticked k lt

  looked-ready : ready (thread looked j) ≡ true
  unfolding looked
  looked-ready = ready-looked_at woken-valid.cur j woken.threads now_ready

  winner : (x : ℕ) → x < max_threads → rank_of (thread looked j) ≤ rank_of (thread looked x) → x ≡ j
  winner x lt le = elim (Bool-cases (x == j)) [
    | inl same ↦ eq_of_test x j same
    | inr other ↦ absurd (
        omega (
          arith,
          le,
          rank-looked x lt,
          rank-looked j d.within,
          ap rank_of d.entry,
          d.outranks x lt (ground arith),
        ))
  ]

  chosen : (q : Scheduler) → Chose woken woken-valid.cur q → q.current ≡ some j
  unfolding looked
  chosen q (stays nobody _ _) = absurd (false≢true (sym (nobody j d.within) ∙ looked-ready))
  chosen q (picks x lt r top e run) = e ∙ ap some (winner x lt (top j d.within looked-ready))

  -- In a valid and active scheduler, a sleeping thread runs on time: at the tick at which its timer
  -- has run out, if it outranks all other threads and the tick counter does not wrap, `timer_tick`
  -- wakes it and switches to it.
  pub due_sleeper_runs : s.active ≡ true → (timer_tick s).current ≡ some j
  unfolding timer_tick woken ticked
  due_sleeper_runs on =
      chosen (schedule woken) (schedule-Chose woken woken-valid (active-woken ticked ∙ on))
