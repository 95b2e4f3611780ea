-- ===== src/Syscall/Invariant.antt =====
-- Every call of kernel/src/syscall.rs keeps the tables of Ipc and Scheduler valid.
use nonameos.Prelude.{ℕ, ◌≡◌, Option, some}
use mathlib.Core.Option
use nonameos.Ipc
use nonameos.Ipc.{register_endpoint}
use nonameos.Ipc.Valid.{IsTable}
use nonameos.Scheduler.Valid.{IsValid}
use nonameos.Vfs.{Vfs}
use nonameos.Vfs.Api
use nonameos.Syscall.{Kernel}

pub record IsKernel (k : Kernel) : Type 0 where
  pub table : IsTable k.endpoints
  pub threads : IsValid k.scheduler

-- What a call that does not panic leaves behind.
abbrev IsKept : Option (ℕ × Kernel) → Type 0
IsKept r = (n : ℕ) (k' : Kernel) → r ≡ some (n, k') → IsKernel k'
