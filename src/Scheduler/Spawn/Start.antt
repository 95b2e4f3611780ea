-- ===== src/Scheduler/Spawn/Start.antt =====
-- What the spawning functions of kernel/src/scheduler.rs leave: the frames, the slot and the first
-- turn of the thread.
use mathlib.Core.Option
use nonameos.Prelude.{
  ℕ, ◌+◌, ◌*◌, ◌<◌, ◌≡◌, refl, ap, subst, true, List, Option, none, some, arith, set, ◌∙◌,
  add_usize, usize_mod, Option-cases, inl, inr,
}
use nonameos.Prelude.Find.{find_index, find_index_cases, IsFirst, NonePasses}
use nonameos.Memory.{page_size}
use nonameos.Memory.Phys.{Phys, max_frames}
use nonameos.Memory.Phys.Alloc.{IsValid}
use nonameos.Memory.Phys.Bitmap.{used}
use nonameos.Task.{is_ready, Priority, normal, Thread, new_thread, set_thread_name}
use nonameos.Task.Context.{Cpu, restore}
use nonameos.Task.Context.Restore.{Resumes, Frame, restore-Resumes}
use nonameos.Scheduler.{Scheduler}
use nonameos.Scheduler.Spawn.Stack.{
  Takes, IsLowest, StackFrom, no_stack, stack, alloc_kernel_stack-StackFrom,
}
use nonameos.Scheduler.Spawn.{
  kernel_stack_size, initial_frame, is_none, place_thread, start_thread, spawn_on, spawn,
  spawn_kernel_thread, spawn_kernel_thread_with_priority,
}

-- Physical memory ends at 512 MiB.
abbrev memory_end : ℕ
memory_end = max_frames * page_size

-- The machine at the entry of a thread.
abbrev pub at_entry : ℕ → ℕ → Cpu
at_entry entry top = record {
  rsp = top;
  rbp = 0;
  rbx = 0;
  r12 = 0;
  r13 = 0;
  r14 = 0;
  r15 = 0;
  rip = entry;
  mem = λ a. 0;
}

module _ (entry top base : ℕ) (mem : ℕ → ℕ) (at : top ≡ base + 56)
    (fits : base + 56 < usize_mod) where
  frame_at : (initial_frame entry top mem).0 ≡ base
  unfolding initial_frame
  frame_at = omega (arith, at, fits)

  words_at : Frame (at_entry entry top) base (initial_frame entry top mem).1
  unfolding initial_frame
  words_at = record {
    r15 = ground (arith, at);
    r14 = ground (arith, at);
    r13 = ground (arith, at);
    r12 = ground (arith, at);
    rbx = ground (arith, at);
    rbp = ground (arith, at);
    rip = ground (arith, at);
  }

-- `t` is ready, has `priority`, and `switch_to` its stack pointer, on memory as `s` has it, arrives at `entry` with the
-- stack pointer at `top`, the end of its stack, and the saved registers cleared.
pub record Starts (s : Scheduler) (entry top : ℕ) (priority : Priority) (t : Thread) : Type 0 where
  pub ready : is_ready t.state ≡ true
  pub ranked : t.priority ≡ priority
  pub kernel_stack : t.kernel_stack ≡ top
  pub arrives : Resumes (at_entry entry top) (restore (record (s.cpu) { rsp = t.context.rsp }))

-- The outcome of a search for a slot that has left `q`.
pub data Placed (s : Scheduler) (entry top : ℕ) (priority : Priority)
    : Option ℕ × Scheduler → Type 0 where
  no_slot :
      (q : Scheduler)
      → NonePasses is_none s.threads
      → q.threads ≡ s.threads
      → Placed s entry top priority (none, q)
  placed :
      (i : ℕ) (t : Thread) (q : Scheduler)
      → IsFirst is_none s.threads i
      → q.threads ≡ set s.threads i (some t)
      → Starts q entry top priority t
      → Placed s entry top priority (some t.tid, q)

-- The current thread is the same, and the scheduler is on as before.
pub record Continues (s q : Scheduler) : Type 0 where
  pub current : q.current ≡ s.current
  pub active : q.active ≡ s.active

-- The outcome of a spawning function. The current thread goes on in every case.
pub data Spawned (p : Phys) (s : Scheduler) (entry : ℕ) (priority : Priority)
    : Option (Option ℕ × Phys × Scheduler) → Type 0 where
  no_memory :
      (p' : Phys) (q : Scheduler)
      → IsValid p'
      → p.free_frames < 4
      → p'.free_frames ≡ 0
      → q.threads ≡ s.threads
      → Continues s q
      → Spawned p s entry priority (some (none, p', q))
  on_stack :
      (frame : ℕ) (p' : Phys) (r : Option ℕ × Scheduler)
      → IsLowest p frame
      → used p' frame ≡ true
      → Takes 4 p p'
      → Placed s entry (frame * page_size + 16384) priority r
      → Continues s r.1
      → Spawned p s entry priority (some (r.0, p', r.1))

-- The machine with the initial frame of a stack at `bottom`, on its stack pointer.
abbrev on_frame : ℕ → ℕ → Scheduler → Cpu
on_frame entry bottom s = record (s.cpu) {
  mem = (initial_frame entry (add_usize bottom kernel_stack_size) s.cpu.mem).1;
  rsp = (initial_frame entry (add_usize bottom kernel_stack_size) s.cpu.mem).0;
}

enters :
    (entry bottom : ℕ) (s : Scheduler)
    → bottom < memory_end
    → Resumes
        (at_entry entry (add_usize bottom kernel_stack_size))
        (restore (on_frame entry bottom s))
enters entry bottom s lt =
    restore-Resumes (at_entry entry top) (on_frame entry bottom s) base at fits
      (frame_at entry top base s.cpu.mem at fits) (words_at entry top base s.cpu.mem at fits)
  where
    top : ℕ
    top = add_usize bottom kernel_stack_size

    base : ℕ
    base = bottom + 16328

    at : add_usize bottom kernel_stack_size ≡ bottom + 16328 + 56
    at = omega (arith, lt)

    fits : bottom + 16328 + 56 < usize_mod
    fits = omega (arith, lt)

module _ (adjust : Thread → Thread) (priority : Priority)
    (gives : (t : Thread) → t.priority ≡ normal → (adjust t).priority ≡ priority)
    (keeps : (t : Thread) → (adjust t).state ≡ t.state)
    (keeps_stack : (t : Thread) → (adjust t).kernel_stack ≡ t.kernel_stack) where
  place_thread-Placed :
      (s s' : Scheduler) (entry top : ℕ) (t : Thread)
      → s'.threads ≡ s.threads
      → Starts s' entry top priority t
      → Placed s entry top priority (place_thread t s')
  unfolding place_thread
  place_thread-Placed s s' entry top t same starts = elim (find_index_cases is_none s'.threads) [
    | inl (e, none_free) ↦
        rw (place_thread, e) (no_slot s' (subst (NonePasses is_none) same none_free) same)
    | inr (i, e, first) ↦
        rw (place_thread, e)
          (placed i t _ (subst (λ ts. IsFirst is_none ts i) same first)
            (ap (λ ts. set ts i (some t)) same)
            (record {
              ready = starts.ready;
              ranked = starts.ranked;
              kernel_stack = starts.kernel_stack;
              arrives = starts.arrives;
            }))
  ]

  place_thread-Continues : (t : Thread) (s : Scheduler) → Continues s (place_thread t s).1
  unfolding place_thread
  place_thread-Continues t s = elim (Option-cases (find_index is_none s.threads)) [
    | inl e ↦ rw (place_thread, e) (record { current = refl; active = refl })
    | inr (i, e) ↦ rw (place_thread, e) (record { current = refl; active = refl })
  ]

  start_thread-Placed :
      (entry bottom : ℕ) (name : List ℕ) (s s' : Scheduler)
      → bottom < memory_end
      → s'.threads ≡ s.threads
      → Placed s entry (bottom + 16384) priority (start_thread adjust entry name bottom s')
  unfolding start_thread is_ready new_thread set_thread_name
  start_thread-Placed entry bottom name s s' lt same =
      place_thread-Placed s _ entry (bottom + 16384) _ same (record {
        ready = ap is_ready (keeps _);
        ranked = gives _ refl;
        kernel_stack = keeps_stack _ ∙ top;
        arrives =
            subst (λ k. Resumes (at_entry entry k) (restore (on_frame entry bottom s'))) top
              (enters entry bottom s' lt);
      })
    where
      top : add_usize bottom kernel_stack_size ≡ bottom + 16384
      top = omega (arith, lt)

  start_thread-Continues :
      (entry bottom : ℕ) (name : List ℕ) (s : Scheduler)
      → Continues s (start_thread adjust entry name bottom s).1
  unfolding start_thread
  start_thread-Continues entry bottom name s =
      let c = place_thread-Continues _ _ in record { current = c.current; active = c.active }

  spawn_on-Spawned :
      (entry : ℕ) (name : List ℕ) (p : Phys) (s : Scheduler)
      (o : Option (Option ℕ × Phys × (ℕ → ℕ)))
      → IsValid p
      → StackFrom p o
      → Spawned p s entry priority (Option.map (spawn_on adjust entry name s) o)
  unfolding spawn_on
  spawn_on-Spawned entry name p s _ v (no_stack q mem w few none_left) =
      no_memory q _ w few none_left refl (record { current = refl; active = refl })
  spawn_on-Spawned entry name p s _ v (stack frame q mem low busy takes) =
      let s' = record s { cpu = record (s.cpu) { mem = mem } } in
      let c = start_thread-Continues entry (frame * page_size) name s' in
      on_stack frame q (start_thread adjust entry name (frame * page_size) s') low busy takes
        (start_thread-Placed entry (frame * page_size) name s s'
          (omega (arith, low.within, v.total)) refl)
        (record { current = c.current; active = c.active })

  spawn-Spawned :
      (entry : ℕ) (name : List ℕ) (p : Phys) (s : Scheduler)
      → IsValid p
      → Spawned p s entry priority (spawn adjust entry name p s)
  unfolding spawn
  spawn-Spawned entry name p s v =
      spawn_on-Spawned entry name p s _ v (alloc_kernel_stack-StackFrom p s.cpu.mem v)

-- With a valid frame allocator, both spawning functions end without a panic, keep the allocator
-- valid, and leave the current thread and the state of the scheduler (on or off) as they were. With
-- fewer than four free frames they fail: all frames are in use then, and no thread changes.
-- Otherwise exactly four more frames are in use, the lowest free one among them, and none is given
-- back. Then either every slot of the table is taken, and no thread changes; or the first free
-- slot, and no other, holds a ready thread, of normal priority or of the one asked for, the number
-- of which is returned; its stack ends 16384 bytes above the start of that lowest frame, and a
-- switch to its stack pointer arrives at its entry point, with the stack pointer at the end of the
-- stack and the saved registers cleared.
pub spawn_kernel_thread-Spawned :
    (entry : ℕ) (name : List ℕ) (priority : Priority) (p : Phys) (s : Scheduler)
    → IsValid p
    → Spawned p s entry normal (spawn_kernel_thread entry name p s)
      × Spawned p s entry priority (spawn_kernel_thread_with_priority entry name priority p s)
unfolding spawn_kernel_thread spawn_kernel_thread_with_priority
spawn_kernel_thread-Spawned entry name priority p s v = (
  spawn-Spawned (λ t. t) normal (λ t e. e) (λ t. refl) (λ t. refl) entry name p s v,
  spawn-Spawned (λ t. record t { priority = priority }) priority (λ t e. refl) (λ t. refl)
      (λ t. refl) entry name p s v,
)
