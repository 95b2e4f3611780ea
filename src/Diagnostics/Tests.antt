-- ===== src/Diagnostics/Tests.antt =====
-- Runs of the diagnostics. The state is a number: memory works from 1 on, which its recovery sets.
use nonameos.Prelude.{ℕ, ◌*◌, ◌+◌, ◌≡◌, refl, true, false, some, none, leb, length}
use nonameos.Prelude.Counting.{count_if}
use nonameos.Diagnostics.{boot, normal, recovered, degraded, health, memory, vfs}
use nonameos.Diagnostics.Select.{run_all}
use nonameos.Diagnostics.Counts.{Sound, run_of, run_all-Sound}
use nonameos.Diagnostics.Mode.{mode_of, mode_for, healths_of, run_all-mode}
use nonameos.Diagnostics.Table.{Checks, diag_tests}

abbrev checks : Checks ℕ
checks = record {
  test_phys_alloc_and_free = λ s. (leb 1 s, s);
  test_phys_alloc_aligned = λ s. (true, s);
  test_phys_free_restores = λ s. (true, s);
  test_phys_double_free = λ s. (true, s);
  test_vfs_root_exists = λ s. (true, s);
  test_vfs_lookup_dev = λ s. (true, s);
  test_vfs_lookup_nonexistent = λ s. (true, s);
  test_vfs_create_and_write = λ s. (false, s);
  test_vfs_create_and_read = λ s. (true, s);
  test_ipc_register = λ s. (true, s);
  test_ipc_send_receive = λ s. (true, s);
  test_ipc_queue_overflow = λ s. (true, s);
  test_driver_register_device = λ s. (true, s);
  test_driver_match = λ s. (true, s);
  test_sched_init_state = λ s. (true, s);
  test_sched_thread_count = λ s. (true, s);
  test_shim_kmalloc = λ s. (true, s);
  test_shim_spinlock = λ s. (true, s);
  recovery_memory = λ s. (true, 1);
  recovery_vfs = λ s. (true, s);
  recovery_scheduler = λ s. (true, s);
}

abbrev broken : Checks ℕ
broken = record {
  test_phys_alloc_and_free = λ s. (leb 1 s, s);
  test_phys_alloc_aligned = λ s. (true, s);
  test_phys_free_restores = λ s. (true, s);
  test_phys_double_free = λ s. (true, s);
  test_vfs_root_exists = λ s. (true, s);
  test_vfs_lookup_dev = λ s. (true, s);
  test_vfs_lookup_nonexistent = λ s. (true, s);
  test_vfs_create_and_write = λ s. (false, s);
  test_vfs_create_and_read = λ s. (true, s);
  test_ipc_register = λ s. (true, s);
  test_ipc_send_receive = λ s. (true, s);
  test_ipc_queue_overflow = λ s. (true, s);
  test_driver_register_device = λ s. (true, s);
  test_driver_match = λ s. (true, s);
  test_sched_init_state = λ s. (true, s);
  test_sched_thread_count = λ s. (true, s);
  test_shim_kmalloc = λ s. (true, s);
  test_shim_spinlock = λ s. (true, s);
  recovery_memory = λ s. (false, s);
  recovery_vfs = λ s. (true, s);
  recovery_scheduler = λ s. (true, s);
}

table_length : length (diag_tests checks) ≡ 18
table_length = refl

memory_recovers : health memory (run_of (run_all (diag_tests checks) 0 boot)).diag ≡ recovered
unfolding run_all health count_if
memory_recovers = refl

vfs_degrades : health vfs (run_of (run_all (diag_tests checks) 0 boot)).diag ≡ degraded
unfolding run_all health count_if
vfs_degrades = refl

boots : mode_of (run_all (diag_tests checks) 0 boot) ≡ some normal
unfolding run_all count_if
boots = refl

halts : mode_of (run_all (diag_tests broken) 0 boot) ≡ none
unfolding run_all count_if
halts = refl

run_all-Sound_example :
    Sound
      (length (diag_tests checks))
      (3 * length (diag_tests checks) + 7)
      (run_of (run_all (diag_tests checks) 0 boot))
run_all-Sound_example = run_all-Sound (diag_tests checks) 0

run_all-mode_example :
    mode_of (run_all (diag_tests broken) 0 boot)
    ≡ mode_for (healths_of (run_all (diag_tests broken) 0 boot))
run_all-mode_example = run_all-mode (diag_tests broken) 0
