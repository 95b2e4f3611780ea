-- ===== src/Scheduler/History.antt =====
-- What the calls on existing threads keep, and the state after `init`.
use mathlib.Core.Bool.{false≢true}
use nonameos.Prelude.{
  true, replicate, add_usize, ℕ, zero, suc, ◌≡◌, refl, sym, ap, ◌∙◌, subst, List, ◌∷◌, Option, none,
  some, arith, set, get_or-replicate, inl, inr, ltb, ◌==◌, Option-cases, Bool-cases,
}
use nonameos.Task.{TaskState, Thread}
use nonameos.Task.Context.{Cpu}
use nonameos.Scheduler.Edits.{running, OnlyRunning, edit_other}
use nonameos.Scheduler.{
  Scheduler, max_threads, boot, edit, set_state, wake, init, schedule, sleep_ticks, timer_tick,
  exit_current, block_current, unblock_thread, schedule_from, dispatch, switch,
  wake_sleeping_threads,
}
use nonameos.Scheduler.Valid.{IsValid, wake-keeps, schedule-IsValid, leave-IsValid, woken-IsValid}

-- The calls that drive the threads there are.
pub data Call : Type 0 where
  yields ticks exits blocks : Call
  sleeps unblocks : ℕ → Call

unfoldable pub step : Call → Scheduler → Scheduler
step yields s = schedule s
step ticks s = timer_tick s
step exits s = exit_current s
step blocks s = block_current s
step (sleeps n) s = sleep_ticks n s
step (unblocks i) s = unblock_thread i s

-- With a current thread, these calls change its state and go on as `schedule`.
module _ (s : Scheduler) (cur : ℕ) (e : s.current ≡ some cur) where
  abbrev left : TaskState → Scheduler
  left st = record s { threads = edit (set_state st) cur s.threads }

  exit_on : exit_current s ≡ schedule (left TaskState.dead)
  unfolding exit_current
  exit_on = ground (arith, e)

  block_on : block_current s ≡ schedule (left TaskState.blocked)
  unfolding block_current
  block_on = ground (arith, e)

  pub sleep_on :
      (n : ℕ)
      → sleep_ticks n s
        ≡ schedule (record (left TaskState.blocked) {
          sleep_until = set s.sleep_until cur (add_usize s.tick_count n);
        })
  unfolding sleep_ticks
  sleep_on n = ground (arith, e)

pub exit_current-IsValid : (s : Scheduler) → IsValid s → IsValid (exit_current s)
exit_current-IsValid s v =
    subst IsValid (sym (exit_on s v.cur v.current)) (leave-IsValid s v TaskState.dead _ refl refl)

pub step-IsValid : (c : Call) (s : Scheduler) → IsValid s → IsValid (step c s)
unfolding step timer_tick unblock_thread
step-IsValid yields s v = schedule-IsValid s v
step-IsValid ticks s v =
    schedule-IsValid _
      (woken-IsValid _ (record { cur = v.cur; current = v.current; table = v.table }))
step-IsValid exits s v = exit_current-IsValid s v
step-IsValid blocks s v =
    subst IsValid (sym (block_on s v.cur v.current))
      (leave-IsValid s v TaskState.blocked _ refl refl)
step-IsValid (sleeps n) s v =
    subst IsValid (sym (sleep_on s v.cur v.current n))
      (leave-IsValid s v TaskState.blocked _ refl refl)
step-IsValid (unblocks i) s v = elim (Bool-cases (ltb i max_threads)) [
  | inl within ↦ rw within (record {
    cur = v.cur;
    current = v.current;
    table = edit_other wake i v.cur s.threads wake-keeps v.table;
  })
  | inr out ↦ rw out v
]

dispatch-active :
    (cur : ℕ) (ts : List (Option Thread)) (s : Scheduler) (o : Option ℕ)
    → (dispatch cur ts s o).active ≡ s.active
unfolding dispatch switch
dispatch-active cur ts s none = refl
dispatch-active cur ts s (some next) = elim (Bool-cases (next == cur)) [
  | inl same ↦ rw same refl
  | inr other ↦ rw other refl
]

schedule-active : (s : Scheduler) → (schedule s).active ≡ s.active
unfolding schedule schedule_from
schedule-active s = elim (Bool-cases s.active) [
  | inl on ↦ elim (Option-cases s.current) [
    | inl nobody ↦ rw (schedule, on, nobody) on
    | inr (cur, e) ↦ rw (schedule, on, e) (dispatch-active cur _ s _ ∙ on)
  ]
  | inr off ↦ rw (schedule, off) refl
]

-- No call turns the scheduler off.
pub step-active : (c : Call) (s : Scheduler) → (step c s).active ≡ s.active
unfolding step timer_tick wake_sleeping_threads unblock_thread exit_current block_current
    sleep_ticks
step-active yields s = schedule-active s
step-active ticks s = schedule-active _
step-active exits s = elim (Option-cases s.current) [
  | inl nobody ↦ rw (exit_current, nobody) refl
  | inr (cur, e) ↦ ap (λ (q : Scheduler). q.active) (exit_on s cur e) ∙ schedule-active _
]
step-active blocks s = elim (Option-cases s.current) [
  | inl nobody ↦ rw (block_current, nobody) refl
  | inr (cur, e) ↦ ap (λ (q : Scheduler). q.active) (block_on s cur e) ∙ schedule-active _
]
step-active (sleeps n) s = elim (Option-cases s.current) [
  | inl nobody ↦ rw (sleep_ticks, nobody) refl
  | inr (cur, e) ↦ ap (λ (q : Scheduler). q.active) (sleep_on s cur e n) ∙ schedule-active _
]
step-active (unblocks i) s = ground arith

only_first : (n : ℕ) (t : Thread) → OnlyRunning 0 (some t ∷ replicate n none)
only_first n t zero r = refl
only_first n t (suc i) r =
    absurd (false≢true (sym (ap running (get_or-replicate {A = Option Thread} n i none)) ∙ r))

-- `init` makes the calling code the current thread of an empty table.
pub init-IsValid :
    (kernel_name idle_name : List ℕ) (cpu : Cpu) → IsValid (init kernel_name idle_name (boot cpu))
unfolding init boot
init-IsValid kernel_name idle_name cpu = record {
  cur = 0;
  current = refl;
  table = record { size = refl; within = omega arith; there = refl; only = only_first 63 _ };
}

pub init-active :
    (kernel_name idle_name : List ℕ) (cpu : Cpu)
    → (init kernel_name idle_name (boot cpu)).active ≡ true
unfolding init
init-active kernel_name idle_name cpu = refl
