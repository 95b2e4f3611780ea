-- ===== src/Scheduler/Choice.antt =====
-- What one call of `schedule` does, on each branch.
use mathlib.Core.Option
use nonameos.Prelude.{
  ℕ, ◌≤◌, ◌<◌, ◌≡◌, refl, sym, ap, ◌∙◌, subst, true, false, List, Option, none, some, arith, inl,
  inr, ◌==◌, Bool-cases, eq_of_test, ==_refl,
}
use native.Mathlib.Nat.{le_refl}
use nonameos.Task.{TaskState, is_ready, is_running, rank, Thread}
use nonameos.Task.Context.{switch_to}
use nonameos.Scheduler.Select.{
  ready, rank_of, Selects, nobody, somebody, select-Selects, select_self,
}
use nonameos.Scheduler.Edits.{thread-edit, running, IsCurrent}
use nonameos.Scheduler.Valid.{IsValid, looked_at, schedule_on}
use nonameos.Scheduler.{
  Scheduler, max_threads, thread, edit, set_state, preempt, resume, select, save_rsp, saved_rsp,
  switch, dispatch, schedule_from, schedule,
}

-- The outcome `q` of `schedule` at `s`, whose current thread is `cur`.
pub data Chose (s : Scheduler) (cur : ℕ) (q : Scheduler) : Type 0 where
  -- Nobody can run: the current thread goes on, and no thread changes.
  stays :
      ((j : ℕ) → j < max_threads → ready (thread (looked_at cur s.threads) j) ≡ false)
      → q.current ≡ some cur
      → ((j : ℕ) → thread q.threads j ≡ thread s.threads j)
      → Chose s cur q
  -- A ready thread of the highest priority runs, the current one counted as ready if it was Running.
  picks :
      (x : ℕ)
      → x < max_threads
      → ready (thread (looked_at cur s.threads) x) ≡ true
      → ((j : ℕ)
          → j < max_threads
          → ready (thread (looked_at cur s.threads) j) ≡ true
          → rank_of (thread (looked_at cur s.threads) j)
            ≤ rank_of (thread (looked_at cur s.threads) x))
      → q.current ≡ some x
      → running (thread q.threads x) ≡ true
      → Chose s cur q

set_running :
    (o : Option Thread)
    → ready o ≡ true
    → running (Option.map (set_state TaskState.running) o) ≡ true
unfolding is_running is_ready
set_running none r = r
set_running (some t) r = refl

save-running : (rsp : ℕ) (o : Option Thread) → running (Option.map (save_rsp rsp) o) ≡ running o
save-running rsp none = refl
save-running rsp (some t) = refl

-- `preempt` and `resume` change nothing in a thread that is not ready in between.
untouched :
    (o : Option Thread)
    → ready (Option.map preempt o) ≡ false
    → Option.map resume (Option.map preempt o) ≡ o
unfolding preempt resume is_running is_ready
untouched none h = refl
untouched (some t) h = ground arith

edit_at :
    (f : Thread → Thread) (i : ℕ) (ts : List (Option Thread))
    → thread (edit f i ts) i ≡ Option.map f (thread ts i)
edit_at f i ts = thread-edit f i ts i ∙ rw (==_refl i)

edit_away :
    (f : Thread → Thread) (i j : ℕ) (ts : List (Option Thread))
    → (i == j) ≡ false
    → thread (edit f i ts) j ≡ thread ts j
edit_away f i j ts other = thread-edit f i ts j ∙ rw other

-- The thread that `switch` turns to is the current one, and Running.
switch-current : (cur x : ℕ) (s : Scheduler) → (switch cur x s).current ≡ some x
unfolding switch
switch-current cur x s = refl

switch-running :
    (cur x : ℕ) (s : Scheduler)
    → (x == cur) ≡ false
    → ready (thread s.threads x) ≡ true
    → running (thread (switch cur x s).threads x) ≡ true
unfolding switch
switch-running cur x s other r =
    let ts = edit (set_state TaskState.running) x s.threads in
    let old_rsp = (switch_to (saved_rsp (thread ts x)) s.cpu).0 in
    ap running (edit_away (save_rsp old_rsp) cur x ts (ground arith))
    ∙ ap running (edit_at (set_state TaskState.running) x s.threads)
    ∙ set_running _ r

module _ (s : Scheduler) (cur : ℕ) (e : s.current ≡ some cur) (v : IsCurrent cur s.threads) where
  abbrev ts : List (Option Thread)
  ts = looked_at cur s.threads

  same_after :
      ready (thread ts cur) ≡ false → (j : ℕ) → thread (edit resume cur ts) j ≡ thread s.threads j
  same_after idle j = elim (Bool-cases (cur == j)) [
    | inl here ↦
        subst (λ k. thread (edit resume cur ts) k ≡ thread s.threads k) (eq_of_test cur j here)
          (edit_at resume cur ts
            ∙ ap (Option.map resume) (edit_at preempt cur s.threads)
            ∙ untouched (thread s.threads cur)
                (sym (ap ready (edit_at preempt cur s.threads)) ∙ idle))
    | inr there ↦ edit_away resume cur j ts there ∙ edit_away preempt cur j s.threads there
  ]

  dispatch-Chose : (o : Option ℕ) → Selects ts o → Chose s cur (dispatch cur ts s o)
  unfolding dispatch
  dispatch-Chose none (nobody idle) = stays idle e (same_after (idle cur v.within))
  dispatch-Chose (some x) (somebody _ lt r top) = elim (Bool-cases (x == cur)) [
    | inl same ↦ rw same (
        picks x lt r top (e ∙ ap some (sym (eq_of_test x cur same))) (
          subst (λ k. running (thread (edit (set_state TaskState.running) k ts) x) ≡ true)
            (eq_of_test x cur same)
            (ap running (edit_at (set_state TaskState.running) x ts) ∙ set_running _ r)))
    | inr other ↦
        rw other (picks x lt r top (switch-current cur x _) (switch-running cur x _ other r))
  ]

-- In a valid and active scheduler, `schedule` either finds no thread ready, the current one counted
-- as ready if it was Running, and changes no thread; or it makes Running and current a ready thread
-- than which no ready thread has a higher priority.
pub schedule-Chose : (s : Scheduler) (v : IsValid s) → s.active ≡ true → Chose s v.cur (schedule s)
unfolding schedule_from
schedule-Chose s v on =
    subst (Chose s v.cur) (sym (schedule_on s v.cur on v.current))
      (dispatch-Chose s v.cur v.current v.table _ (select-Selects _ v.cur v.table.within))

-- `schedule` at `s` has left everything as it was.
pub record NoSwitch (s q : Scheduler) : Type 0 where
  pub current : q.current ≡ s.current
  pub cpu : q.cpu ≡ s.cpu
  pub threads : (j : ℕ) → thread q.threads j ≡ thread s.threads j

-- The current thread is Running, and no ready thread has a higher priority.
pub record Dominates (s : Scheduler) (cur : ℕ) (t : Thread) : Type 0 where
  pub current : s.current ≡ some cur
  pub within : cur < max_threads
  pub entry : thread s.threads cur ≡ some t
  pub runs : t.state ≡ TaskState.running
  pub top :
      (j : ℕ)
      → j < max_threads
      → ready (thread s.threads j) ≡ true
      → rank_of (thread s.threads j) ≤ rank t.priority

module _ (s : Scheduler) (cur : ℕ) (t : Thread) (d : Dominates s cur t) where
  seen : thread (looked_at cur s.threads) cur ≡ some (set_state TaskState.ready t)
  unfolding preempt is_running
  seen =
      edit_at preempt cur s.threads
      ∙ ap (Option.map preempt) d.entry
      ∙ (let run : t.state ≡ TaskState.running = d.runs in ground arith)

  seen-top :
      (j : ℕ)
      → j < max_threads
      → ready (thread (looked_at cur s.threads) j) ≡ true
      → rank_of (thread (looked_at cur s.threads) j) ≤ rank t.priority
  seen-top j lt r = elim (Bool-cases (cur == j)) [
    | inl here ↦
        subst (λ k. rank_of (thread (looked_at cur s.threads) k) ≤ rank t.priority)
          (eq_of_test cur j here) (subst (λ o. rank_of o ≤ rank t.priority) (sym seen) (le_refl _))
    | inr there ↦
        subst (λ o. rank_of o ≤ rank t.priority) (sym (edit_away preempt cur j s.threads there))
          (d.top j lt (sym (ap ready (edit_away preempt cur j s.threads there)) ∙ r))
  ]

  own_choice : select (looked_at cur s.threads) cur ≡ some cur
  unfolding is_ready
  own_choice =
      select_self (looked_at cur s.threads) cur d.within (set_state TaskState.ready t) seen refl
        seen-top

  again :
      (j : ℕ)
      → thread (edit (set_state TaskState.running) cur (looked_at cur s.threads)) j
        ≡ thread s.threads j
  again j = elim (Bool-cases (cur == j)) [
    | inl here ↦
        subst
          (λ k.
            thread (edit (set_state TaskState.running) cur (looked_at cur s.threads)) k
            ≡ thread s.threads k)
          (eq_of_test cur j here)
          (edit_at (set_state TaskState.running) cur (looked_at cur s.threads)
            ∙ ap (Option.map (set_state TaskState.running)) seen
            ∙ ap some (ap (λ st. set_state st t) (sym d.runs))
            ∙ sym d.entry)
    | inr there ↦
        edit_away (set_state TaskState.running) cur j (looked_at cur s.threads) there
        ∙ edit_away preempt cur j s.threads there
  ]

  kept : Scheduler
  kept = record s { threads = edit (set_state TaskState.running) cur (looked_at cur s.threads) }

  kept-NoSwitch : NoSwitch s kept
  unfolding kept
  kept-NoSwitch = record { current = refl; cpu = refl; threads = again }

  schedule_keeps : s.active ≡ true → schedule s ≡ kept
  unfolding schedule_from dispatch kept
  schedule_keeps on =
      schedule_on s cur on d.current
      ∙ ap (dispatch cur (looked_at cur s.threads) s) own_choice
      ∙ rw (==_refl cur)

  -- Equal priorities do not take turns: while the scheduler is active, the current thread is
  -- Running and no ready thread has a strictly higher priority, `schedule` switches to nobody,
  -- however many threads of the same priority are ready.
  pub no_round_robin : s.active ≡ true → NoSwitch s (schedule s)
  no_round_robin on = subst (NoSwitch s) (sym (schedule_keeps on)) kept-NoSwitch
