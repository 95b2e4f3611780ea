-- ===== src/Scheduler/Valid.antt =====
-- The invariant of the scheduler: at most one thread is Running, and that is the current one.
use nonameos.Prelude.{
  ℕ, zero, suc, ◌+◌, ◌<◌, ◌≡◌, refl, sym, ◌∙◌, subst, true, false, List, Option, none, some, arith,
  length, get_or, inl, inr, ◌==◌, Bool-cases,
}
use nonameos.Task.{TaskState, is_running, is_blocked, Thread}
use nonameos.Task.Context.{switch_to}
use nonameos.Scheduler.Select.{ready, Selects, somebody, select-Selects}
use nonameos.Scheduler.Edits.{
  length-edit, occupied, IsCurrent, NoneRunning, edit_self, edit_other, preempted, edit_none,
  occupied-edit,
}
use nonameos.Scheduler.{
  Scheduler, max_threads, thread, edit, set_state, preempt, resume, wake, save_rsp, saved_rsp,
  switch, dispatch, schedule_from, schedule, wake_due, wake_from, wake_sleeping_threads, is_due,
}

-- There is a current thread, in the table; no other is Running.
pub record IsValid (s : Scheduler) : Type 0 where
  pub cur : ℕ
  pub current : s.current ≡ some cur
  pub table : IsCurrent cur s.threads

pub wake-keeps : (t : Thread) → is_running (wake t).state ≡ true → is_running t.state ≡ true
unfolding wake is_running is_blocked
wake-keeps t r = ground arith

occupied_of_ready : (o : Option Thread) → ready o ≡ true → occupied o ≡ true
occupied_of_ready none r = r
occupied_of_ready (some t) r = refl

-- The table in which `schedule` looks for the next thread.
abbrev pub looked_at : ℕ → List (Option Thread) → List (Option Thread)
looked_at cur ts = edit preempt cur ts

module _ (cur : ℕ) (ts : List (Option Thread)) (v : IsCurrent cur ts) where
  quiet : NoneRunning (looked_at cur ts)
  quiet = preempted cur ts v

  looked_at-size : length (looked_at cur ts) ≡ max_threads
  looked_at-size = length-edit preempt cur ts ∙ v.size

  -- A thread that is there is set Running.
  started :
      (f : Thread → Thread) (next : ℕ)
      → next < max_threads
      → occupied (thread (looked_at cur ts) next) ≡ true
      → IsCurrent next (edit f next (looked_at cur ts))
  started f next lt there = record {
    size = length-edit f next (looked_at cur ts) ∙ looked_at-size;
    within = lt;
    there = occupied-edit f next next (looked_at cur ts) ∙ there;
    only = edit_none f next (looked_at cur ts) quiet;
  }

  cur_there : occupied (thread (looked_at cur ts) cur) ≡ true
  cur_there = occupied-edit preempt cur cur ts ∙ v.there

save_rsp-keeps :
    (rsp : ℕ) (t : Thread) → is_running (save_rsp rsp t).state ≡ true → is_running t.state ≡ true
save_rsp-keeps rsp t r = r

switched :
    (cur next : ℕ) (s : Scheduler)
    → IsCurrent next (edit (set_state TaskState.running) next s.threads)
    → IsCurrent next (switch cur next s).threads
unfolding switch
switched cur next s v =
    let ts = edit (set_state TaskState.running) next s.threads in
    let old_rsp = (switch_to (saved_rsp (thread ts next)) s.cpu).0 in
    edit_other (save_rsp old_rsp) cur next ts (save_rsp-keeps old_rsp) v

dispatch-IsValid :
    (s : Scheduler) (cur : ℕ) (o : Option ℕ)
    → s.current ≡ some cur
    → IsCurrent cur s.threads
    → Selects (edit preempt cur s.threads) o
    → IsValid (dispatch cur (edit preempt cur s.threads) s o)
unfolding dispatch switch
dispatch-IsValid s cur none e v pick = record {
  cur = cur;
  current = e;
  table = started cur s.threads v resume cur v.within (cur_there cur s.threads v);
}
dispatch-IsValid s cur (some next) e v (somebody _ lt r _) = elim (Bool-cases (next == cur)) [
  | inl same ↦ rw same (record {
    cur = cur;
    current = e;
    table =
        started cur s.threads v (set_state TaskState.running) cur v.within
          (cur_there cur s.threads v);
  })
  | inr other ↦ rw other (record {
    cur = next;
    current = refl;
    table =
        switched cur next (record s { threads = edit preempt cur s.threads })
          (started cur s.threads v (set_state TaskState.running) next lt (occupied_of_ready _ r));
  })
]

pub schedule_on :
    (s : Scheduler) (cur : ℕ)
    → s.active ≡ true
    → s.current ≡ some cur
    → schedule s ≡ schedule_from cur s
unfolding schedule
schedule_on s cur on e = ground arith

schedule_off : (s : Scheduler) → s.active ≡ false → schedule s ≡ s
unfolding schedule
schedule_off s off = ground arith

pub schedule-IsValid : (s : Scheduler) → IsValid s → IsValid (schedule s)
unfolding schedule_from
schedule-IsValid s v = elim (Bool-cases s.active) [
  | inl on ↦
      subst IsValid (sym (schedule_on s v.cur on v.current))
        (dispatch-IsValid s v.cur _ v.current v.table (select-Selects _ v.cur v.table.within))
  | inr off ↦ subst IsValid (sym (schedule_off s off)) v
]

-- The current thread changes its state, and `schedule` runs.
pub leave-IsValid :
    (s : Scheduler) (v : IsValid s) (st : TaskState) (q : Scheduler)
    → q.current ≡ s.current
    → q.threads ≡ edit (set_state st) v.cur s.threads
    → IsValid (schedule q)
leave-IsValid s v st q same ts = schedule-IsValid q (record {
  cur = v.cur;
  current = same ∙ v.current;
  table = subst (IsCurrent v.cur) (sym ts) (edit_self (set_state st) v.cur s.threads v.table);
})

wake_due-IsCurrent :
    (now i cur : ℕ) (tables : List (Option Thread) × List ℕ)
    → IsCurrent cur tables.0
    → IsCurrent cur (wake_due now i tables).0
unfolding wake_due
wake_due-IsCurrent now i cur (ts, until) v = elim (Bool-cases (is_due now (get_or until i 0))) [
  | inl due ↦ rw due (edit_other wake i cur ts wake-keeps v)
  | inr later ↦ rw later v
]

wake_from-IsCurrent :
    (now n i cur : ℕ) (tables : List (Option Thread) × List ℕ)
    → IsCurrent cur tables.0
    → IsCurrent cur (wake_from now n i tables).0
unfolding wake_from
wake_from-IsCurrent now zero i cur tables v = v
wake_from-IsCurrent now (suc n) i cur tables v =
    wake_from-IsCurrent now n (i + 1) cur _ (wake_due-IsCurrent now i cur tables v)

pub woken-IsValid : (s : Scheduler) → IsValid s → IsValid (wake_sleeping_threads s)
unfolding wake_sleeping_threads
woken-IsValid s v = record {
  cur = v.cur;
  current = v.current;
  table = wake_from-IsCurrent s.tick_count max_threads 0 v.cur (s.threads, s.sleep_until) v.table;
}

-- The calls that drive the scheduler.
