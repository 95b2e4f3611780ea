-- ===== src/Syscall/Tests.antt =====
-- The calls on the kernel after boot.
use nonameos.Prelude.{ℕ, ◌≡◌, ◌⊎◌, refl, true, [], ◌∷◌, replicate, arith, ◌%◌, ◌==◌, if◌then◌else◌}
use nonameos.Ipc
use nonameos.Ipc.{Endpoints, endpoint, register_endpoint}
use nonameos.Ipc.Valid.{IsTable, register-IsTable, boot-IsTable}
use nonameos.Scheduler.{boot, init}
use nonameos.Task.Context.{Cpu}
use nonameos.Memory.Phys
use nonameos.Prelude.Find.{find_index}
use nonameos.Vfs
use nonameos.Vfs.{Vfs, empty_inode, empty_dentry, empty_file, path_lookup}
use nonameos.Vfs.Api.{open_path, open_inode}
use nonameos.Syscall.{Kernel, failure, sys_open, sys_read, sys_ipc_send, sys_ipc_recv}
use nonameos.Syscall.Channel.{Carried, sys_ipc_send-sys_ipc_recv}
use nonameos.Syscall.Standard.{sys_open-sys_read}

abbrev machine : Cpu
machine = record {
  rsp = 0x9000;
  rbp = 0;
  rbx = 0;
  r12 = 0;
  r13 = 0;
  r14 = 0;
  r15 = 0;
  rip = 0x100400;
  mem = λ a. 0;
}

-- The endpoint 0 is registered, and memory holds `a % 256` at `a`.
abbrev kernel : Kernel
kernel = record {
  fs = Vfs.boot Phys.boot (λ a. a % 256);
  endpoints = (register_endpoint (65 ∷ []) 1 Ipc.boot).1;
  scheduler = init [] [] (boot machine);
  screen = [];
}

kernel-IsTable : IsTable kernel.endpoints
kernel-IsTable = register-IsTable (65 ∷ []) 1 Ipc.boot boot-IsTable

registered : (endpoint kernel.endpoints 0).active ≡ true
unfolding Ipc.boot register_endpoint find_index Ipc.empty_endpoint Ipc.claim
registered = refl

empty : (endpoint kernel.endpoints 0).queue_count ≡ 0
unfolding Ipc.boot register_endpoint find_index Ipc.empty_endpoint Ipc.claim
empty = refl

sys_ipc_send-sys_ipc_recv_example :
    ((sys_ipc_send 0 0x41 5 kernel).0 ≡ 0)
    × Carried kernel
        (sys_ipc_recv 0 0x7000 (sys_ipc_send 0 0x41 5 kernel).1).1
        0x41
        0x7000
        5
        (sys_ipc_recv 0 0x7000 (sys_ipc_send 0 0x41 5 kernel).1).0
sys_ipc_send-sys_ipc_recv_example =
    sys_ipc_send-sys_ipc_recv 0 0x41 0x7000 5 kernel kernel-IsTable (omega arith) registered empty

-- The root directory, and its path at 0x41.
abbrev rooted : Kernel
rooted = record kernel {
  fs = record (Vfs.boot Phys.boot (λ a. if a == 0x41 then 47 else 0)) {
    inodes = record empty_inode { active = true } ∷ replicate 255 empty_inode;
    dentries = record empty_dentry { active = true } ∷ replicate 255 empty_dentry;
  };
}

no_files : rooted.fs.files ≡ empty_file ∷ replicate 127 empty_file
unfolding Vfs.boot
no_files = refl

opened : (sys_open 0x41 0 rooted).0 ≡ 0
unfolding sys_open Vfs.boot find_index open_path path_lookup Vfs.lookup_from Vfs.get_dentry
    Vfs.get_inode open_inode
opened = refl

sys_open-sys_read_example :
    ((sys_open 0x41 0 rooted).0 ≡ failure)
    ⊎ (((sys_open 0x41 0 rooted).0 ≡ 0)
        × ((buf_ptr len : ℕ)
            → sys_read (sys_open 0x41 0 rooted).0 buf_ptr len (sys_open 0x41 0 rooted).1
              ≡ (0, (sys_open 0x41 0 rooted).1)))
sys_open-sys_read_example =
    sys_open-sys_read rooted empty_file (replicate 127 empty_file) 0x41 0 no_files refl
