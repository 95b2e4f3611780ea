-- ===== src/Scheduler/Spawn.antt =====
-- The creation of kernel threads in kernel/src/scheduler.rs, over the frame allocator.
-- `none` is a panic in the allocator.
pub mod Stack
pub mod Start
use mathlib.Core.Option
use nonameos.Prelude.{
  ℕ, zero, suc, ◌+◌, ◌&&◌, Bool, true, false, List, Option, none, some, ◌>>=◌, get_or, set, ltb,
  leb, ◌==◌, if◌then◌else◌, add_usize, sub_usize,
}
use nonameos.Prelude.Find.{find_index}
use nonameos.Memory.Phys.{Phys, alloc_frame}
use nonameos.Task.{
  TaskState, Priority, Thread, new_thread, set_thread_name, Process, Ids, alloc_tid,
}
use nonameos.Task.Context.{Cpu, store}
use nonameos.Scheduler.{Scheduler}

abbrev pub stack_pages : ℕ
stack_pages = 4

abbrev pub kernel_stack_size : ℕ
kernel_stack_size = 16384

-- `write_bytes(addr, 0, 4096)`, on the words of memory.
abbrev pub zero_page : ℕ → (ℕ → ℕ) → ℕ → ℕ
zero_page addr mem a = if leb addr a && ltb a (addr + 4096) then 0 else mem a

-- The rounds `i..i + n` of `alloc_kernel_stack`, with `base` so far. The pages of a stack that cannot
-- be completed are not given back.
unfoldable pub alloc_pages : ℕ → ℕ → ℕ → Phys → (ℕ → ℕ) → Option (Option ℕ × Phys × (ℕ → ℕ))
alloc_pages zero i base p mem = some (some base, p, mem)
alloc_pages (suc n) i base p mem = do
  (page, q) ← alloc_frame p
  elim page [
    | none ↦ some (none, q, mem)
    | some addr ↦ alloc_pages n (i + 1) (if i == 0 then addr else base) q (zero_page addr mem)
  ]

unfoldable pub alloc_kernel_stack : Phys → (ℕ → ℕ) → Option (Option ℕ × Phys × (ℕ → ℕ))
alloc_kernel_stack p mem = alloc_pages stack_pages 0 0 p mem

-- `let sp = sp.sub(1); *sp = v;` for the stack pointer `sp`.
abbrev pub below : ℕ → ℕ
below sp = sub_usize sp 8

-- The frame that the first `switch_to` pops: where it starts, and memory with it.
unfoldable pub initial_frame : ℕ → ℕ → (ℕ → ℕ) → ℕ × (ℕ → ℕ)
initial_frame entry top mem =
    let s1 = below top in
    let s2 = below s1 in
    let s3 = below s2 in
    let s4 = below s3 in
    let s5 = below s4 in
    let s6 = below s5 in
    let s7 = below s6 in
    (
      s7,
      store (store (store (store (store (store (store mem s1 entry) s2 0) s3 0) s4 0) s5 0) s6 0) s7
          0,
    )

abbrev pub is_none : Option Thread → Bool
is_none none = true
is_none (some t) = false

-- `if let Some(ref mut p) = PROCESSES[0] { p.thread_count += 1; }`
abbrev pub count_thread : List (Option Process) → List (Option Process)
count_thread ps = set ps 0 (
    Option.map (λ (p : Process). record p { thread_count = add_usize p.thread_count 1 })
      (get_or ps 0 none))

-- The search for a free slot.
unfoldable pub place_thread : Thread → Scheduler → Option ℕ × Scheduler
place_thread t s = elim (find_index is_none s.threads) [
  | none ↦ (none, s)
  | some i ↦ (
    some t.tid,
    record s { threads = set s.threads i (some t); processes = count_thread s.processes },
  )
]

-- The thread on the stack at `stack_bottom`, with what `adjust` sets in it.
unfoldable pub start_thread : (Thread → Thread) → ℕ → List ℕ → ℕ → Scheduler → Option ℕ × Scheduler
start_thread adjust entry name stack_bottom s =
    let stack_top = add_usize stack_bottom kernel_stack_size in
    let (tid, ids) = alloc_tid s.ids in
    let (sp, mem) = initial_frame entry stack_top s.cpu.mem in
    let t = set_thread_name name (new_thread tid 0 entry stack_top) in
    let t' = adjust (record t { state = TaskState.ready; kernel_stack = stack_top }) in
    place_thread (record t' { context = record (t'.context) { rsp = sp } })
      (record s { ids = ids; cpu = record (s.cpu) { mem = mem } })

-- What the spawning functions do with the outcome of `alloc_kernel_stack`.
unfoldable pub spawn_on :
    (Thread → Thread)
    → ℕ
    → List ℕ
    → Scheduler
    → Option ℕ × Phys × (ℕ → ℕ)
    → Option ℕ × Phys × Scheduler
spawn_on adjust entry name s (stack, p, mem) =
    let s' = record s { cpu = record (s.cpu) { mem = mem } } in
    elim stack [
      | none ↦ (none, p, s')
      | some bottom ↦ let (tid, s'') = start_thread adjust entry name bottom s' in (tid, p, s'')
    ]

unfoldable pub spawn :
    (Thread → Thread) → ℕ → List ℕ → Phys → Scheduler → Option (Option ℕ × Phys × Scheduler)
spawn adjust entry name p s =
    Option.map (spawn_on adjust entry name s) (alloc_kernel_stack p s.cpu.mem)

unfoldable pub spawn_kernel_thread :
    ℕ → List ℕ → Phys → Scheduler → Option (Option ℕ × Phys × Scheduler)
spawn_kernel_thread entry name p s = spawn (λ t. t) entry name p s

unfoldable pub spawn_kernel_thread_with_priority :
    ℕ → List ℕ → Priority → Phys → Scheduler → Option (Option ℕ × Phys × Scheduler)
spawn_kernel_thread_with_priority entry name priority p s =
    spawn (λ t. record t { priority = priority }) entry name p s
