-- ===== src/Syscall.antt =====
-- kernel/src/syscall.rs: the dispatch by number and the calls behind it. A pointer is an address in
-- the bytes of memory that the file system's pages stand in too, and no call checks it. A call gives
-- its result and the kernel after it; `none` is a panic of the frame allocator.
pub mod Invariant
pub mod Channel
pub mod Standard
mod Tests
use mathlib.Core.Option
use nonameos.Prelude.{
  ℕ, zero, suc, ◌+◌, ◌-◌, ◌*◌, ◌%◌, ◌^◌, min, Bool, true, false, not, List, [], ◌∷◌, ◌++◌, Option,
  none, some, take, replicate, leb, ltb, ◌==◌, if◌then◌else◌,
}
use nonameos.Ipc
use nonameos.Ipc.{Message, Endpoints, make_request, register_endpoint}
use nonameos.Scheduler.{Scheduler, schedule, exit_current, current_pid}
use nonameos.Vfs.{Vfs}
use nonameos.Vfs.Api
use nonameos.Vfs.Ramfs.{Isize, minus_one, bytes, read_bytes, copy_bytes}

-- The parts of the kernel that the calls use, and the characters printed so far.
pub record Kernel : Type 0 where
  pub fs : Vfs
  pub endpoints : Endpoints
  pub scheduler : Scheduler
  pub screen : List ℕ

-- `u64::MAX`
abbrev pub failure : ℕ
failure = 2 ^ 64 - 1

abbrev pub user_bytes : ℕ → ℕ → Kernel → List ℕ
user_bytes ptr len k = read_bytes k.fs.mem ptr len

abbrev pub put_user : ℕ → List ℕ → Vfs → Vfs
put_user ptr src fs = record fs { mem = copy_bytes fs.mem ptr src }

abbrev pub number_or_failure : Option ℕ → ℕ
number_or_failure none = failure
number_or_failure (some n) = n

abbrev pub count_or_failure : Isize → ℕ
count_or_failure minus_one = failure
count_or_failure (bytes n) = n

unfoldable pub sys_write : ℕ → ℕ → ℕ → Kernel → Option (ℕ × Kernel)
sys_write fd buf_ptr len k =
    if fd == 1
    then some (len, record k { screen = k.screen ++ user_bytes buf_ptr len k })
    else Option.map (λ (r : Isize × Vfs). (count_or_failure r.0, record k { fs = r.1 }))
        (Api.write fd (user_bytes buf_ptr (min len 4096) k) k.fs)

-- What `sys_read` makes of the result of `vfs::read`.
unfoldable pub read_result : ℕ → Isize × List ℕ × Vfs → Kernel → ℕ × Kernel
read_result buf_ptr (minus_one, tmp, fs) k = (failure, record k { fs = fs })
read_result buf_ptr (bytes n, tmp, fs) k =
    if n == 0
    then (0, record k { fs = fs })
    else (n, record k { fs = put_user buf_ptr (take n tmp) fs })

unfoldable pub sys_read : ℕ → ℕ → ℕ → Kernel → ℕ × Kernel
unfolding read_result
sys_read fd buf_ptr len k =
    if fd == 0
    then (0, k)
    else read_result buf_ptr (Api.read fd (replicate (min len 4096) 0) k.fs) k

-- The bytes up to the first zero, `rounds` at most.
unfoldable pub c_string : ℕ → ℕ → Kernel → List ℕ
c_string zero ptr k = []
c_string (suc rounds) ptr k =
    let rest = c_string rounds (ptr + 1) k in if k.fs.mem ptr == 0 then [] else k.fs.mem ptr ∷ rest

unfoldable pub sys_open : ℕ → ℕ → Kernel → ℕ × Kernel
unfolding c_string
sys_open path_ptr flags k =
    let (fd, fs) = Api.open_path (c_string 255 path_ptr k) (flags % 2 ^ 32) k.fs in
    (number_or_failure fd, record k { fs = fs })

abbrev pub sys_close : ℕ → Kernel → ℕ × Kernel
sys_close fd k = (0, record k { fs = Api.close fd k.fs })

abbrev pub sys_exit : Kernel → ℕ × Kernel
sys_exit k = (0, record k { scheduler = exit_current k.scheduler })

abbrev pub sys_yield : Kernel → ℕ × Kernel
sys_yield k = (0, record k { scheduler = schedule k.scheduler })

abbrev pub sys_getpid : Kernel → ℕ
sys_getpid k = current_pid k.scheduler

abbrev pub send_code : Ipc.SendResult → ℕ
send_code Ipc.ok = 0
send_code (Ipc.err e) = failure

unfoldable pub sys_ipc_send : ℕ → ℕ → ℕ → Kernel → ℕ × Kernel
sys_ipc_send endpoint_id buf_ptr len k =
    let msg = make_request 0 (user_bytes buf_ptr (min len 256) k) in
    let (sent, endpoints) = Ipc.send endpoint_id msg k.endpoints in
    (send_code sent, record k { endpoints = endpoints })

-- The payload of a received message, at the buffer.
unfoldable pub deliver : ℕ → Option Message → Kernel → ℕ × Kernel
deliver buf_ptr none k = (0, k)
deliver buf_ptr (some msg) k =
    (msg.payload_len, record k { fs = put_user buf_ptr (take msg.payload_len msg.payload) k.fs })

unfoldable pub sys_ipc_recv : ℕ → ℕ → Kernel → ℕ × Kernel
unfolding deliver
sys_ipc_recv endpoint_id buf_ptr k =
    let (msg, endpoints) = Ipc.receive endpoint_id k.endpoints in
    deliver buf_ptr msg (record k { endpoints = endpoints })

unfoldable pub sys_ipc_register : ℕ → ℕ → Kernel → ℕ × Kernel
sys_ipc_register name_ptr name_len k =
    let name = user_bytes name_ptr (min name_len 32) k in
    let (id, endpoints) = register_endpoint name (current_pid k.scheduler) k.endpoints in
    (number_or_failure id, record k { endpoints = endpoints })

-- The arms of the `match` on the number, with the arguments that they pass on.
pub data Request : Type 0 where
  reads writes sends : ℕ → ℕ → ℕ → Request
  opens receives registers : ℕ → ℕ → Request
  closes : ℕ → Request
  exits yields gets_pid unknown : Request

unfoldable pub decode : ℕ → ℕ → ℕ → ℕ → Request
decode nr arg0 arg1 arg2 =
    if nr == 1
    then writes arg0 arg1 arg2
    else if nr == 0
    then reads arg0 arg1 arg2
    else if nr == 2
    then opens arg0 arg1
    else if nr == 3
    then closes arg0
    else if nr == 4
    then exits
    else if nr == 5
    then yields
    else if nr == 6
    then gets_pid
    else if nr == 8
    then sends arg0 arg1 arg2
    else if nr == 9
    then receives arg0 arg1
    else if nr == 10
    then registers arg0 arg1
    else unknown

unfoldable pub perform : Request → Kernel → Option (ℕ × Kernel)
unfolding sys_write sys_read sys_open sys_ipc_send sys_ipc_recv sys_ipc_register
perform (writes fd buf_ptr len) k = sys_write fd buf_ptr len k
perform (reads fd buf_ptr len) k = some (sys_read fd buf_ptr len k)
perform (opens path_ptr flags) k = some (sys_open path_ptr flags k)
perform (closes fd) k = some (sys_close fd k)
perform exits k = some (sys_exit k)
perform yields k = some (sys_yield k)
perform gets_pid k = some (sys_getpid k, k)
perform (sends endpoint_id buf_ptr len) k = some (sys_ipc_send endpoint_id buf_ptr len k)
perform (receives endpoint_id buf_ptr) k = some (sys_ipc_recv endpoint_id buf_ptr k)
perform (registers name_ptr name_len) k = some (sys_ipc_register name_ptr name_len k)
perform unknown k = some (failure, k)

unfoldable pub syscall_dispatch_inner : ℕ → ℕ → ℕ → ℕ → Kernel → Option (ℕ × Kernel)
unfolding decode perform
syscall_dispatch_inner nr arg0 arg1 arg2 k = perform (decode nr arg0 arg1 arg2) k
