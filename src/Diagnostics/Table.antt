-- ===== src/Diagnostics/Table.antt =====
-- kernel/src/ktest.rs: the table of diagnostic tests, and the quick checks at run time. The functions
-- that look at the other subsystems are fields of `Checks`.
use nonameos.Prelude.{
  ◌+◌, Bool, true, false, List, [], ◌∷◌, Option, none, some, ◌>>=◌, leb, ◌==◌, if◌then◌else◌,
}
use nonameos.Memory.Phys.{Phys, alloc_frame, free_frame}
use nonameos.Diagnostics.{
  critical, required, optional, memory, vfs, ipc, drivers, scheduler, syscall, DiagTest,
}

pub record Checks {ℓ} (S : Type ℓ) : Type ℓ where
  pub test_phys_alloc_and_free : S → Bool × S
  pub test_phys_alloc_aligned : S → Bool × S
  pub test_phys_free_restores : S → Bool × S
  pub test_phys_double_free : S → Bool × S
  pub test_vfs_root_exists : S → Bool × S
  pub test_vfs_lookup_dev : S → Bool × S
  pub test_vfs_lookup_nonexistent : S → Bool × S
  pub test_vfs_create_and_write : S → Bool × S
  pub test_vfs_create_and_read : S → Bool × S
  pub test_ipc_register : S → Bool × S
  pub test_ipc_send_receive : S → Bool × S
  pub test_ipc_queue_overflow : S → Bool × S
  pub test_driver_register_device : S → Bool × S
  pub test_driver_match : S → Bool × S
  pub test_sched_init_state : S → Bool × S
  pub test_sched_thread_count : S → Bool × S
  pub test_shim_kmalloc : S → Bool × S
  pub test_shim_spinlock : S → Bool × S
  pub recovery_memory : S → Bool × S
  pub recovery_vfs : S → Bool × S
  pub recovery_scheduler : S → Bool × S

-- The table, over the functions that it names.
abbrev pub diag_tests {ℓ} : {S : Type ℓ} → Checks S → List (DiagTest S)
diag_tests c =
    (record {
      name = "phys::alloc_and_free";
      subsystem = memory;
      severity = critical;
      func = c.test_phys_alloc_and_free;
      recovery = some c.recovery_memory;
    })
    ∷ (record {
      name = "phys::alloc_returns_aligned";
      subsystem = memory;
      severity = critical;
      func = c.test_phys_alloc_aligned;
      recovery = some c.recovery_memory;
    })
    ∷ (record {
      name = "phys::free_restores_count";
      subsystem = memory;
      severity = required;
      func = c.test_phys_free_restores;
      recovery = none;
    })
    ∷ (record {
      name = "phys::double_free_safe";
      subsystem = memory;
      severity = optional;
      func = c.test_phys_double_free;
      recovery = none;
    })
    ∷ (record {
      name = "vfs::root_exists";
      subsystem = vfs;
      severity = critical;
      func = c.test_vfs_root_exists;
      recovery = some c.recovery_vfs;
    })
    ∷ (record {
      name = "vfs::lookup_dev";
      subsystem = vfs;
      severity = required;
      func = c.test_vfs_lookup_dev;
      recovery = some c.recovery_vfs;
    })
    ∷ (record {
      name = "vfs::lookup_nonexistent";
      subsystem = vfs;
      severity = optional;
      func = c.test_vfs_lookup_nonexistent;
      recovery = none;
    })
    ∷ (record {
      name = "vfs::create_and_write";
      subsystem = vfs;
      severity = required;
      func = c.test_vfs_create_and_write;
      recovery = none;
    })
    ∷ (record {
      name = "vfs::create_and_read";
      subsystem = vfs;
      severity = required;
      func = c.test_vfs_create_and_read;
      recovery = none;
    })
    ∷ (record {
      name = "ipc::register_endpoint";
      subsystem = ipc;
      severity = required;
      func = c.test_ipc_register;
      recovery = none;
    })
    ∷ (record {
      name = "ipc::send_receive";
      subsystem = ipc;
      severity = required;
      func = c.test_ipc_send_receive;
      recovery = none;
    })
    ∷ (record {
      name = "ipc::queue_overflow";
      subsystem = ipc;
      severity = optional;
      func = c.test_ipc_queue_overflow;
      recovery = none;
    })
    ∷ (record {
      name = "drivers::register_device";
      subsystem = drivers;
      severity = required;
      func = c.test_driver_register_device;
      recovery = none;
    })
    ∷ (record {
      name = "drivers::driver_match";
      subsystem = drivers;
      severity = optional;
      func = c.test_driver_match;
      recovery = none;
    })
    ∷ (record {
      name = "sched::init_state";
      subsystem = scheduler;
      severity = critical;
      func = c.test_sched_init_state;
      recovery = some c.recovery_scheduler;
    })
    ∷ (record {
      name = "sched::thread_count";
      subsystem = scheduler;
      severity = required;
      func = c.test_sched_thread_count;
      recovery = none;
    })
    ∷ (record {
      name = "shim::kmalloc_kfree";
      subsystem = syscall;
      severity = required;
      func = c.test_shim_kmalloc;
      recovery = none;
    })
    ∷ (record {
      name = "shim::spinlock";
      subsystem = syscall;
      severity = optional;
      func = c.test_shim_spinlock;
      recovery = none;
    })
    ∷ []

-- `phys::free_count` is the field. `none` is a panic of the allocator.
unfoldable pub test_phys_alloc_and_free : Phys → Option (Bool × Phys)
test_phys_alloc_and_free p = do
  (frame, p1) ← alloc_frame p
  elim frame [
    | none ↦ some (false, p1)
    | some addr ↦
        if leb p.free_frames p1.free_frames
        then some (false, p1)
        else free_frame addr p1 >>= λ p2. some (p2.free_frames == p.free_frames, p2)
  ]

unfoldable pub test_phys_double_free : Phys → Option (Bool × Phys)
test_phys_double_free p = do
  (frame, p1) ← alloc_frame p
  elim frame [
    | none ↦ some (false, p1)
    | some addr ↦ free_frame addr p1 >>= λ p2.
        free_frame addr p2 >>= λ p3. some (leb p3.free_frames (p.free_frames + 1), p3)
  ]

unfoldable pub quick_check_memory : Phys → Option (Bool × Phys)
quick_check_memory p = do
  (frame, p1) ← alloc_frame p
  elim frame [ some addr ↦ free_frame addr p1 >>= λ p2. some (true, p2) | none ↦ some (false, p1) ]
