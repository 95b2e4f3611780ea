-- ===== src/Scheduler.antt =====
-- kernel/src/scheduler.rs: the thread table and the choice of the next thread.
-- An index past a table is ruled out by `Scheduler.Valid`; a write there changes nothing here.
pub mod Select
pub mod Edits
pub mod Valid
pub mod Choice
pub mod Wake
pub mod Spawn
pub mod History
pub mod Life
pub mod Sleeper
mod Tests
use mathlib.Core.Option
use nonameos.Prelude.{
  ℕ, zero, suc, ◌+◌, ◌%◌, Bool, true, false, not, ◌&&◌, List, [], ◌∷◌, Option, none, some, get_or,
  set, replicate, ltb, leb, ◌==◌, if◌then◌else◌, add_usize,
}
use nonameos.Prelude.Counting.{count_if}
use nonameos.Task.{
  TaskState, is_ready, is_running, is_blocked, is_dead, Priority, rank, Thread, new_thread,
  set_thread_name, Process, new_process, set_process_name, Ids, alloc_pid, alloc_tid,
}
use nonameos.Task.Context.{Cpu, switch_to}

abbrev pub max_threads : ℕ
max_threads = 64

abbrev pub max_processes : ℕ
max_processes = 16

-- The statics of the module, with the machine that `switch_to` runs on. `current` is
-- CURRENT_THREAD: `none` for -1, the only negative value it ever has.
pub record Scheduler : Type 0 where
  pub threads : List (Option Thread)
  pub processes : List (Option Process)
  pub current : Option ℕ
  pub tick_count : ℕ
  pub active : Bool
  pub sleep_until : List ℕ
  pub ids : Ids
  pub cpu : Cpu

unfoldable pub boot : Cpu → Scheduler
boot cpu = record {
  threads = replicate max_threads none;
  processes = replicate max_processes none;
  current = none;
  tick_count = 0;
  active = false;
  sleep_until = replicate max_threads 0;
  ids = record { next_pid = 1; next_tid = 1 };
  cpu = cpu;
}

abbrev pub thread : List (Option Thread) → ℕ → Option Thread
thread ts i = get_or ts i none

-- `if let Some(ref mut t) = THREADS[i] { *t = f(t) }`
unfoldable pub edit : (Thread → Thread) → ℕ → List (Option Thread) → List (Option Thread)
edit f i ts = set ts i (Option.map f (thread ts i))

abbrev pub set_state : TaskState → Thread → Thread
set_state st t = record t { state = st }

-- The changes of state that the operations make under a test.
unfoldable pub preempt : Thread → Thread
preempt t = if is_running t.state then set_state TaskState.ready t else t

unfoldable pub resume : Thread → Thread
resume t = if is_ready t.state then set_state TaskState.running t else t

unfoldable pub wake : Thread → Thread
wake t = if is_blocked t.state then set_state TaskState.ready t else t

-- `init`: the calling code becomes the idle thread.
unfoldable pub init : List ℕ → List ℕ → Scheduler → Scheduler
init kernel_name idle_name s =
    let (pid, ids) = alloc_pid s.ids in
    let proc = record (set_process_name kernel_name (new_process pid 0)) {
      state = TaskState.running;
      thread_count = 1;
    } in
    let (tid, ids') = alloc_tid ids in
    let idle = record (set_thread_name idle_name (new_thread tid pid 0 0)) {
      state = TaskState.running;
      priority = Priority.idle;
    } in
    record s {
      processes = set s.processes 0 (some proc);
      threads = set s.threads 0 (some idle);
      current = some 0;
      active = true;
      ids = ids';
    }

-- The best thread so far, with the priority to beat.
pub record Best : Type 0 where
  pub priority : Priority
  pub next : Option ℕ

unfoldable pub consider : ℕ → Option Thread → Best → Best
consider idx none b = b
consider idx (some t) b =
    if is_ready t.state && leb (rank b.priority) (rank t.priority)
    then record { priority = t.priority; next = some idx }
    else b

-- `for i in i..i + n { let idx = (cur + 1 + i) % MAX_THREADS; … }`
unfoldable pub scan : ℕ → ℕ → List (Option Thread) → ℕ → Best → Best
scan zero i ts cur b = b
scan (suc n) i ts cur b =
    let idx = (cur + 1 + i) % max_threads in scan n (i + 1) ts cur (consider idx (thread ts idx) b)

unfoldable pub select : List (Option Thread) → ℕ → Option ℕ
select ts cur = (scan max_threads 0 ts cur (record { priority = Priority.idle; next = none })).next

-- The stack pointer that a thread was left with.
unfoldable pub saved_rsp : Option Thread → ℕ
saved_rsp none = 0
saved_rsp (some t) = t.context.rsp

abbrev pub save_rsp : ℕ → Thread → Thread
save_rsp rsp t = record t { context = record (t.context) { rsp = rsp } }

-- The last part of `schedule`: mark the next thread, and call `switch_to`.
unfoldable pub switch : ℕ → ℕ → Scheduler → Scheduler
switch cur next s =
    let ts = edit (set_state TaskState.running) next s.threads in
    let (old_rsp, cpu) = switch_to (saved_rsp (thread ts next)) s.cpu in
    record s { threads = edit (save_rsp old_rsp) cur ts; current = some next; cpu = cpu }

-- What `schedule` does with its choice, once the current thread is Ready again in `ts`.
unfoldable pub dispatch : ℕ → List (Option Thread) → Scheduler → Option ℕ → Scheduler
dispatch cur ts s none = record s { threads = edit resume cur ts }
dispatch cur ts s (some next) =
    if next == cur
    then record s { threads = edit (set_state TaskState.running) cur ts }
    else switch cur next (record s { threads = ts })

unfoldable pub schedule_from : ℕ → Scheduler → Scheduler
schedule_from cur s = let ts = edit preempt cur s.threads in dispatch cur ts s (select ts cur)

unfoldable pub schedule : Scheduler → Scheduler
schedule s =
    if not s.active then s else elim s.current [ none ↦ s | some cur ↦ schedule_from cur s ]

unfoldable pub sleep_ticks : ℕ → Scheduler → Scheduler
sleep_ticks ticks s = elim s.current [
  | none ↦ s
  | some idx ↦ schedule (record s {
    sleep_until = set s.sleep_until idx (add_usize s.tick_count ticks);
    threads = edit (set_state TaskState.blocked) idx s.threads;
  })
]

-- One round of the loop of `wake_sleeping_threads`, on the entries of one index.
unfoldable pub is_due : ℕ → ℕ → Bool
is_due now until = ltb 0 until && leb until now

unfoldable pub wake_due : ℕ → ℕ → List (Option Thread) × List ℕ → List (Option Thread) × List ℕ
wake_due now i (ts, until) =
    if is_due now (get_or until i 0) then (edit wake i ts, set until i 0) else (ts, until)

-- `for i in i..i + n`
unfoldable pub wake_from : ℕ → ℕ → ℕ → List (Option Thread) × List ℕ → List (Option Thread) × List ℕ
wake_from now zero i tables = tables
wake_from now (suc n) i tables = wake_from now n (i + 1) (wake_due now i tables)

unfoldable pub wake_sleeping_threads : Scheduler → Scheduler
wake_sleeping_threads s =
    let (ts, until) = wake_from s.tick_count max_threads 0 (s.threads, s.sleep_until) in
    record s { threads = ts; sleep_until = until }

unfoldable pub timer_tick : Scheduler → Scheduler
timer_tick s = schedule (wake_sleeping_threads (record s { tick_count = add_usize s.tick_count 1 }))

unfoldable pub exit_current : Scheduler → Scheduler
exit_current s = elim s.current [
  | none ↦ s
  | some cur ↦ schedule (record s { threads = edit (set_state TaskState.dead) cur s.threads })
]

unfoldable pub block_current : Scheduler → Scheduler
block_current s = elim s.current [
  | none ↦ s
  | some cur ↦ schedule (record s { threads = edit (set_state TaskState.blocked) cur s.threads })
]

unfoldable pub unblock_thread : ℕ → Scheduler → Scheduler
unblock_thread idx s =
    if ltb idx max_threads then record s { threads = edit wake idx s.threads } else s

unfoldable pub current_pid : Scheduler → ℕ
current_pid s = elim s.current [
  | none ↦ 0
  | some cur ↦ elim (thread s.threads cur) [ none ↦ 0 | some t ↦ t.pid ]
]

unfoldable pub current_tid : Scheduler → ℕ
current_tid s = elim s.current [
  | none ↦ 0
  | some cur ↦ elim (thread s.threads cur) [ none ↦ 0 | some t ↦ t.tid ]
]

abbrev is_live : Option Thread → Bool
is_live none = false
is_live (some t) = not (is_dead t.state)

abbrev is_occupied : Option Process → Bool
is_occupied none = false
is_occupied (some p) = true

unfoldable pub thread_count : Scheduler → ℕ
thread_count s = count_if is_live s.threads

unfoldable pub process_count : Scheduler → ℕ
process_count s = count_if is_occupied s.processes
