-- ===== src/Scheduler/Tests.antt =====
-- Three threads: one idle, one at work, and one that waits or sleeps.
use nonameos.Prelude.{
  ℕ, zero, suc, ◌≤◌, ◌<◌, ◌≡◌, ◌≢◌, refl, sym, ap, ◌∙◌, subst, Bool, true, false, get_or, List, [],
  ◌∷◌, Option, none, some, arith, replicate, get_or-replicate,
}
use mathlib.Core.Option
use mathlib.Core.Bool.{false≢true}
use nonameos.Task.{
  alloc_tid, alloc_pid, set_thread_name, empty_context, new_process, set_process_name, write_name,
  TaskState, Priority, is_running, is_ready, rank, Thread, new_thread,
}
use nonameos.Prelude.Find.{find_index}
use nonameos.Prelude.Bits.{set_bit_of, test_bit_of}
use nonameos.Task.Context.{Cpu}
use nonameos.Memory.Phys
use nonameos.Memory.Phys.{Phys}
use nonameos.Memory.Phys.Init.{Started, managed, init_lem}
use nonameos.Scheduler.Spawn.{
  start_thread, place_thread, initial_frame, spawn, spawn_on, alloc_kernel_stack, alloc_pages,
  spawn_kernel_thread, spawn_kernel_thread_with_priority,
}
use nonameos.Scheduler.Spawn.Start.{Spawned, spawn_kernel_thread-Spawned}
use nonameos.Scheduler.Select.{ready, rank_of}
use nonameos.Scheduler.Edits.{running, OnlyRunning}
use nonameos.Scheduler.Valid.{IsValid}
use nonameos.Scheduler.History
use nonameos.Scheduler.History.{yields, ticks, sleeps, blocks, unblocks}
use nonameos.Scheduler.Life.{
  Event, calls, spawns, spawns_with, System, live, happen, IsSystem, Settled, live-IsValid,
}
use nonameos.Scheduler.Choice.{Chose, NoSwitch, Dominates, schedule-Chose, no_round_robin}
use nonameos.Scheduler.Sleeper.{Due, due_sleeper_runs}
use nonameos.Scheduler.{
  Scheduler, max_threads, boot, thread, init, schedule, timer_tick, schedule_from, dispatch, switch,
  select, scan, consider, edit, preempt, resume, saved_rsp,
}

abbrev machine : Cpu
machine = record {
  rsp = 0x9000;
  rbp = 0;
  rbx = 0;
  r12 = 0;
  r13 = 0;
  r14 = 0;
  r15 = 0;
  rip = 0x100400;
  mem = λ a. 0;
}

abbrev thread_of : ℕ → TaskState → Priority → Thread
thread_of tid state priority = record (new_thread tid 1 0x100400 0x9000) {
  state = state;
  priority = priority;
}

abbrev table : Thread → List (Option Thread)
table third =
    some (thread_of 1 TaskState.ready Priority.idle)
    ∷ some (thread_of 2 TaskState.running Priority.normal)
    ∷ some third
    ∷ replicate 61 none

abbrev three : Thread → Scheduler
three third = record {
  threads = table third;
  processes = replicate 16 none;
  current = some 1;
  tick_count = 4;
  active = true;
  sleep_until = 0 ∷ 0 ∷ 5 ∷ replicate 61 0;
  ids = record { next_pid = 2; next_tid = 4 };
  cpu = machine;
}

beyond : (i : ℕ) → get_or (replicate {A = Option Thread} 61 none) i none ≡ none
beyond i = get_or-replicate {A = Option Thread} 61 i none

module _ (third : Thread) (still : is_running third.state ≡ false) where
  only_second : OnlyRunning 1 (table third)
  unfolding is_running
  only_second zero r = absurd (false≢true r)
  only_second (suc zero) r = refl
  only_second (suc (suc zero)) r = absurd (false≢true (sym still ∙ r))
  only_second (suc (suc (suc i))) r = absurd (false≢true (sym (ap running (beyond i)) ∙ r))

  three-IsValid : IsValid (three third)
  three-IsValid = record {
    cur = 1;
    current = refl;
    table = record { size = refl; within = omega arith; there = refl; only = only_second };
  }

-- The third thread is ready, and of the priority of the second.
abbrev equal : Thread
equal = thread_of 3 TaskState.ready Priority.normal

equal-IsValid : IsValid (three equal)
unfolding is_running
equal-IsValid = three-IsValid equal refl

schedule-Chose_example : Chose (three equal) equal-IsValid.cur (schedule (three equal))
schedule-Chose_example = schedule-Chose (three equal) equal-IsValid refl

equal-Dominates : Dominates (three equal) 1 (thread_of 2 TaskState.running Priority.normal)
unfolding rank is_ready
equal-Dominates = record {
  current = refl;
  within = omega arith;
  entry = refl;
  runs = refl;
  top = top;
}
  where
    top :
        (j : ℕ)
        → j < max_threads
        → ready (thread (table equal) j) ≡ true
        → rank_of (thread (table equal) j) ≤ 2
    top zero lt r = omega arith
    top (suc zero) lt r = omega arith
    top (suc (suc zero)) lt r = omega arith
    top (suc (suc (suc j))) lt r = absurd (false≢true (sym (ap ready (beyond j)) ∙ r))

no_round_robin_example : NoSwitch (three equal) (schedule (three equal))
no_round_robin_example =
    no_round_robin (three equal) 1 (thread_of 2 TaskState.running Priority.normal) equal-Dominates
      refl

-- The third thread sleeps until tick 5, and outranks the others.
abbrev sleeper : Thread
sleeper = thread_of 3 TaskState.blocked Priority.high

sleeper-IsValid : IsValid (three sleeper)
unfolding is_running
sleeper-IsValid = three-IsValid sleeper refl

sleeper-Due : Due (three sleeper) 2 sleeper
unfolding rank
sleeper-Due = record {
  within = omega arith;
  entry = refl;
  blocked = refl;
  timer = omega arith;
  expired = omega arith;
  no_wrap = omega arith;
  outranks = outranks;
}
  where
    outranks : (k : ℕ) → k < max_threads → k ≢ 2 → rank_of (thread (table sleeper) k) < 3
    outranks zero lt ne = omega arith
    outranks (suc zero) lt ne = omega arith
    outranks (suc (suc zero)) lt ne = absurd (ne refl)
    outranks (suc (suc (suc k))) lt ne = subst (λ o. rank_of o < 3) (sym (beyond k)) (omega arith)

due_sleeper_runs_example : (timer_tick (three sleeper)).current ≡ some 2
due_sleeper_runs_example =
    due_sleeper_runs (three sleeper) 2 sleeper sleeper-IsValid sleeper-Due refl

abbrev frames :
    (q : Phys) × (Phys.init 0x200000 0x100000 0x103800 Phys.boot ≡ some q)
    × Started (managed 0x200000 0x100000 0x103800) 0x100000 0x103800 q
frames = init_lem 0x200000 0x100000 0x103800 (omega arith) (omega arith) (omega arith) (omega arith)

spawn_kernel_thread-Spawned_example :
    Spawned frames.0
      (three equal)
      0x100800
      Priority.normal
      (spawn_kernel_thread 0x100800 (119 ∷ []) frames.0 (three equal))
    × Spawned frames.0
        (three equal)
        0x100800
        Priority.high
        (spawn_kernel_thread_with_priority 0x100800 (119 ∷ []) Priority.high frames.0 (three equal))
spawn_kernel_thread-Spawned_example =
    spawn_kernel_thread-Spawned 0x100800 (119 ∷ []) Priority.high frames.0 (three equal)
      frames.2.valid

-- Two threads are spawned, and take turns with the idle thread.
abbrev events : List Event
events =
    spawns 0x100800 (119 ∷ [])
    ∷ calls yields
    ∷ spawns_with 0x100c00 (120 ∷ []) Priority.high
    ∷ calls ticks
    ∷ calls (sleeps 5)
    ∷ calls (unblocks 2)
    ∷ calls blocks
    ∷ []

live-IsValid_example :
    (m : System) × (live events (frames.0, init [] [] (boot machine)) ≡ some m)
    × IsSystem m
    × Settled (schedule m.1)
live-IsValid_example = live-IsValid [] [] machine frames.0 events frames.2.valid

-- Behind a `schedule`, the current thread is the spawned one, in slot 1, and the idle thread waits.
abbrev four_frames : Phys
four_frames = record { bitmap = 0 ∷ []; total_frames = 4; free_frames = 4 }

abbrev looks : Option System → Option (Option ℕ × Bool × Bool)
looks o =
    Option.map
      (λ (m : System).
        (m.1.current, running (thread m.1.threads 0), running (thread m.1.threads 1)))
      o

first_turn :
    looks (
      live
        (spawns 0x100800 (119 ∷ []) ∷ calls yields ∷ [])
        (four_frames, init [] [] (boot machine)))
    ≡ some (some 1, false, true)
unfolding live happen History.step spawn_kernel_thread spawn spawn_on alloc_kernel_stack alloc_pages
    Phys.alloc_frame Phys.alloc_from Phys.test_bit Phys.set_bit start_thread place_thread
    initial_frame find_index alloc_tid alloc_pid new_thread set_thread_name empty_context init boot
    new_process set_process_name schedule schedule_from dispatch switch select scan consider edit
    preempt resume is_ready is_running rank set_bit_of test_bit_of saved_rsp write_name
first_turn = refl
