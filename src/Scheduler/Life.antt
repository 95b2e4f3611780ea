-- ===== src/Scheduler/Life.antt =====
-- kernel/src/scheduler.rs: histories in which threads are spawned too, over the frames of
-- kernel/src/memory/phys.rs.
use mathlib.Core.Bool.{false≢true}
use mathlib.Core.Option
use nonameos.Prelude.{
  ℕ, ◌<◌, ◌≡◌, refl, sym, ap, ◌∙◌, subst, true, false, List, [], ◌∷◌, Option, none, some, ◌>>=◌,
  arith, length, set, get_or-set, length-set, ◌⊎◌, inl, inr, ◌==◌, if◌then◌else◌, Bool-cases,
  eq_of_test, lt-length_of_get_elem?,
}
use nonameos.Memory.Phys.{Phys}
use nonameos.Memory.Phys.Alloc
use nonameos.Task.{Priority, Thread, is_ready, is_running}
use nonameos.Task.Context.{Cpu}
use nonameos.Scheduler.{Scheduler, max_threads, boot, thread, preempt, init, schedule}
use nonameos.Scheduler.Select.{ready}
use nonameos.Scheduler.Edits.{thread-edit, running, occupied, IsCurrent}
use nonameos.Scheduler.Valid.{IsValid}
use nonameos.Scheduler.Choice.{Chose, stays, picks, schedule-Chose}
use nonameos.Scheduler.History
use nonameos.Scheduler.History.{step-IsValid, step-active, init-IsValid, init-active}
use nonameos.Scheduler.Spawn.{spawn_kernel_thread, spawn_kernel_thread_with_priority}
use nonameos.Scheduler.Spawn.Start.{
  Continues, Placed, no_slot, placed, Spawned, no_memory, on_stack, spawn_kernel_thread-Spawned,
}

pub data Event : Type 0 where
  calls : History.Call → Event
  spawns : ℕ → List ℕ → Event
  spawns_with : ℕ → List ℕ → Priority → Event

-- The frame allocator and the scheduler.
abbrev pub System : Type 0
System = Phys × Scheduler

abbrev pub left_by : Option ℕ × Phys × Scheduler → System
left_by (tid, p, s) = (p, s)

-- `none` is a panic in the allocator.
unfoldable pub happen : Event → System → Option System
happen (calls c) (p, s) = some (p, History.step c s)
happen (spawns entry name) (p, s) = Option.map left_by (spawn_kernel_thread entry name p s)
happen (spawns_with entry name priority) (p, s) =
    Option.map left_by (spawn_kernel_thread_with_priority entry name priority p s)

unfoldable pub live : List Event → System → Option System
live [] m = some m
live (e ∷ es) m = happen e m >>= live es

-- A new thread in a slot that was free.
set-IsCurrent :
    (cur i : ℕ) (ts : List (Option Thread)) (t : Thread)
    → IsCurrent cur ts
    → i < length ts
    → is_running t.state ≡ false
    → IsCurrent cur (set ts i (some t))
set-IsCurrent cur i ts t v lt idle = record {
  size = length-set ts i (some t) ∙ v.size;
  within = v.within;
  there = ap occupied (at cur) ∙ there (Bool-cases (i == cur));
  only = λ j r. only j (sym (ap running (at j)) ∙ r) (Bool-cases (i == j));
}
  where
    at : (j : ℕ) → thread (set ts i (some t)) j ≡ (if i == j then some t else thread ts j)
    at j = get_or-set ts i j (some t) none lt

    there :
        ((i == cur) ≡ true) ⊎ ((i == cur) ≡ false)
        → occupied (if i == cur then some t else thread ts cur) ≡ true
    there (inl same) = rw same refl
    there (inr other) = rw other v.there

    only :
        (j : ℕ)
        → running (if i == j then some t else thread ts j) ≡ true
        → ((i == j) ≡ true) ⊎ ((i == j) ≡ false)
        → j ≡ cur
    only j r (inl same) = absurd (false≢true (sym idle ∙ (rw same at r)))
    only j r (inr other) = v.only j (rw other at r)

idle_of_ready : (t : Thread) → is_ready t.state ≡ true → is_running t.state ≡ false
unfolding is_ready is_running
idle_of_ready t r = ground arith

-- A search for a slot keeps the invariant.
Placed-IsValid :
    (s : Scheduler) (entry top : ℕ) (priority : Priority) {r : Option ℕ × Scheduler}
    → IsValid s
    → Placed s entry top priority r
    → Continues s r.1
    → IsValid r.1
Placed-IsValid s entry top priority v (no_slot q none_free same) c = record {
  cur = v.cur;
  current = c.current ∙ v.current;
  table = subst (IsCurrent v.cur) (sym same) v.table;
}
Placed-IsValid s entry top priority v (placed i t q first there starts) c = record {
  cur = v.cur;
  current = c.current ∙ v.current;
  table = subst (IsCurrent v.cur) (sym there) (
      set-IsCurrent v.cur i s.threads t v.table
        (lt-length_of_get_elem? s.threads i first.entry first.there)
        (idle_of_ready t starts.ready));
}

-- What every event keeps.
pub record IsSystem (m : System) : Type 0 where
  pub frames : Alloc.IsValid m.0
  pub threads : IsValid m.1
  pub active : m.1.active ≡ true

-- A history that ends, with its result.
pub Ends : Option System → Type 0
Ends r = (m : System) × (r ≡ some m) × IsSystem m

Spawned-Ends :
    (entry : ℕ) (priority : Priority) (m : System) {r : Option (Option ℕ × Phys × Scheduler)}
    → IsSystem m
    → Spawned m.0 m.1 entry priority r
    → Ends (Option.map left_by r)
unfolding Ends
Spawned-Ends entry priority (p, s) v (no_memory p' q w few none_left same c) = (
  (p', q),
  refl,
  record {
    frames = w;
    threads = record {
      cur = v.threads.cur;
      current = c.current ∙ v.threads.current;
      table = subst (IsCurrent v.threads.cur) (sym same) v.threads.table;
    };
    active = c.active ∙ v.active;
  },
)
Spawned-Ends entry priority (p, s) v (on_stack frame p' r low busy takes there c) = (
  (p', r.1),
  refl,
  record {
    frames = takes.valid;
    threads = Placed-IsValid s entry _ priority v.threads there c;
    active = c.active ∙ v.active;
  },
)

happen-Ends : (e : Event) (m : System) → IsSystem m → Ends (happen e m)
unfolding happen Ends
happen-Ends (calls c) (p, s) v = (
  (p, History.step c s),
  refl,
  record {
    frames = v.frames;
    threads = step-IsValid c s v.threads;
    active = step-active c s ∙ v.active;
  },
)
happen-Ends (spawns entry name) (p, s) v =
    Spawned-Ends entry Priority.normal (p, s) v
      (spawn_kernel_thread-Spawned entry name Priority.normal p s v.frames).0
happen-Ends (spawns_with entry name priority) (p, s) v =
    Spawned-Ends entry priority (p, s) v
      (spawn_kernel_thread-Spawned entry name priority p s v.frames).1

live-Ends : (es : List Event) (m : System) → IsSystem m → Ends (live es m)
unfolding live Ends
live-Ends [] m v = (m, refl, v)
live-Ends (e ∷ es) m v =
    let (m', happened, v') = happen-Ends e m v in rw happened (live-Ends es m' v')

not_ready : (o : Option Thread) → ready (Option.map preempt o) ≡ false → ready o ≡ false
unfolding preempt is_running is_ready
not_ready none h = refl
not_ready (some t) h = ground arith

-- The processor is at work, unless there is none to work on: behind `schedule` the current thread is
-- Running, or no thread is Ready.
pub data Settled (q : Scheduler) : Type 0 where
  at_work : (x : ℕ) → q.current ≡ some x → running (thread q.threads x) ≡ true → Settled q
  no_work : ((j : ℕ) → j < max_threads → ready (thread q.threads j) ≡ false) → Settled q

Chose-Settled : (s q : Scheduler) (cur : ℕ) → Chose s cur q → Settled q
Chose-Settled s q cur (picks x lt r top now runs) = at_work x now runs
Chose-Settled s q cur (stays idle now same) =
    no_work (λ j lt. ap ready (same j) ∙ was_idle j lt (Bool-cases (cur == j)))
  where
    moved :
        (j : ℕ)
        → (cur == j) ≡ true
        → Option.map preempt (thread s.threads cur) ≡ Option.map preempt (thread s.threads j)
    moved j same_one = ap (λ k. Option.map preempt (thread s.threads k)) (eq_of_test cur j same_one)

    was_idle :
        (j : ℕ)
        → j < max_threads
        → ((cur == j) ≡ true) ⊎ ((cur == j) ≡ false)
        → ready (thread s.threads j) ≡ false
    was_idle j lt (inl same_one) = not_ready (thread s.threads j) (
        sym (ap ready (thread-edit preempt cur s.threads j ∙ rw same_one (moved j same_one)))
        ∙ idle j lt)
    was_idle j lt (inr other) =
        sym (ap ready (thread-edit preempt cur s.threads j ∙ rw other)) ∙ idle j lt

-- From `init` on, with a valid frame allocator, any sequence of spawning, scheduling, ticks,
-- sleeping, exits, blocking and unblocking ends without a panic. The allocator is valid then, the
-- current thread stands in the table, no other thread is Running, and the scheduler is on; and one
-- `schedule` more leaves the current thread Running, or no thread of the table is Ready.
pub live-IsValid :
    (kernel_name idle_name : List ℕ) (cpu : Cpu) (p : Phys) (es : List Event)
    → Alloc.IsValid p
    → (m : System) × (live es (p, init kernel_name idle_name (boot cpu)) ≡ some m)
      × IsSystem m
      × Settled (schedule m.1)
unfolding Ends
live-IsValid kernel_name idle_name cpu p es frames =
    let (m, ends, v) =
      live-Ends es (p, init kernel_name idle_name (boot cpu))
        (record {
          frames = frames;
          threads = init-IsValid kernel_name idle_name cpu;
          active = init-active kernel_name idle_name cpu;
        }) in
    (m, ends, v, Chose-Settled m.1 _ v.threads.cur (schedule-Chose m.1 v.threads v.active))
