-- ===== src/Task.antt =====
-- kernel/src/task.rs: threads, processes, and the counters of their numbers.
pub mod Context
mod Tests
use nonameos.Prelude.{
  ℕ, Bool, true, false, min, List, length, set, take, replicate, copy_prefix, add_usize,
}

pub data TaskState : Type 0 where
  created ready running blocked dead : TaskState

unfoldable pub is_ready : TaskState → Bool
is_ready TaskState.ready = true
is_ready _ = false

unfoldable pub is_running : TaskState → Bool
is_running TaskState.running = true
is_running _ = false

unfoldable pub is_blocked : TaskState → Bool
is_blocked TaskState.blocked = true
is_blocked _ = false

unfoldable pub is_dead : TaskState → Bool
is_dead TaskState.dead = true
is_dead _ = false

pub data Priority : Type 0 where
  idle low normal high realtime : Priority

-- The discriminants, by which priorities are ordered.
unfoldable pub rank : Priority → ℕ
rank idle = 0
rank low = 1
rank normal = 2
rank high = 3
rank realtime = 4

pub record CpuContext : Type 0 where
  pub rsp : ℕ
  pub rbp : ℕ
  pub rbx : ℕ
  pub r12 : ℕ
  pub r13 : ℕ
  pub r14 : ℕ
  pub r15 : ℕ
  pub rip : ℕ
  pub rflags : ℕ

unfoldable pub empty_context : CpuContext
empty_context = record {
  rsp = 0;
  rbp = 0;
  rbx = 0;
  r12 = 0;
  r13 = 0;
  r14 = 0;
  r15 = 0;
  rip = 0;
  rflags = 0x200;
}

pub record Thread : Type 0 where
  pub tid : ℕ
  pub pid : ℕ
  pub state : TaskState
  pub priority : Priority
  pub context : CpuContext
  pub kernel_stack : ℕ
  pub name : List ℕ

-- `Thread::new`
unfoldable pub new_thread : ℕ → ℕ → ℕ → ℕ → Thread
unfolding empty_context
new_thread tid pid entry_point stack_top = record {
  tid = tid;
  pid = pid;
  state = TaskState.created;
  priority = normal;
  context = record empty_context { rip = entry_point; rsp = stack_top };
  kernel_stack = 0;
  name = replicate 32 0;
}

-- The name, cut to the array but for its last byte, with a 0 behind it.
unfoldable pub write_name : ℕ → List ℕ → List ℕ → List ℕ
write_name limit bytes name =
    let len = min (length bytes) limit in set (copy_prefix (take len bytes) name) len 0

-- `Thread::set_name`
unfoldable pub set_thread_name : List ℕ → Thread → Thread
unfolding write_name
set_thread_name bytes t = record t { name = write_name 31 bytes t.name }

pub record Process : Type 0 where
  pub pid : ℕ
  pub cr3 : ℕ
  pub state : TaskState
  pub name : List ℕ
  pub thread_count : ℕ

-- `Process::new`
unfoldable pub new_process : ℕ → ℕ → Process
new_process pid cr3 = record {
  pid = pid;
  cr3 = cr3;
  state = TaskState.created;
  name = replicate 64 0;
  thread_count = 0;
}

-- `Process::set_name`
unfoldable pub set_process_name : List ℕ → Process → Process
unfolding write_name
set_process_name bytes p = record p { name = write_name 63 bytes p.name }

-- The statics NEXT_PID and NEXT_TID.
pub record Ids : Type 0 where
  pub next_pid : ℕ
  pub next_tid : ℕ

unfoldable pub alloc_pid : Ids → ℕ × Ids
alloc_pid ids = (ids.next_pid, record ids { next_pid = add_usize ids.next_pid 1 })

unfoldable pub alloc_tid : Ids → ℕ × Ids
alloc_tid ids = (ids.next_tid, record ids { next_tid = add_usize ids.next_tid 1 })
