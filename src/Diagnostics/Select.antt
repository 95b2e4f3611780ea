-- ===== src/Diagnostics/Select.antt =====
-- kernel/src/ktest.rs, the end of `run_all`: the health of each subsystem, and the boot mode.
use nonameos.Prelude.{
  ℕ, zero, suc, ◌+◌, Bool, true, false, ◌||◌, List, [], ◌∷◌, length, set, ltb, leb, if◌then◌else◌,
}
use nonameos.Diagnostics.{
  Health, unknown, healthy, recovered, degraded, failed, BootMode, normal, safe, minimal, index,
  memory, vfs, scheduler, subsystem_count, subsystem_degraded, safe_mode_entered, Diag, log_event,
  degraded_count, flag, attempts_at, DiagTest, Run, start, run_tests,
}

abbrev pub any_true : List Bool → Bool
any_true [] = false
any_true (b ∷ bs) = b || any_true bs

-- `BOOT_MODE == BootMode::Normal`
abbrev pub is_normal : BootMode → Bool
is_normal normal = true
is_normal _ = false

abbrev pub set_health : ℕ → Health → Diag → Diag
set_health i h d = record d { health = set d.health i h }

pub record TestResults : Type 0 where
  pub total : ℕ
  pub passed : ℕ
  pub failed : ℕ
  pub recovered : ℕ
  pub boot_mode : BootMode

-- Without memory the kernel stops: `loop { cli; hlt }`.
pub data Boot {ℓ} (S : Type ℓ) : Type ℓ where
  halted : Run S → Boot S
  booted : TestResults → Run S → Boot S

module _ {ℓ} {S : Type ℓ} where
  -- The new health of a subsystem.
  unfoldable pub classify : Run S → ℕ → Health
  classify r i =
      if flag r.tested i
      then if flag r.critical_fail i
        then failed
        else if flag r.any_fail i
        then degraded
        else if ltb 0 (attempts_at r.diag i)
        then recovered
        else healthy
      else unknown

  unfoldable pub update_one : ℕ → Run S → Run S
  unfolding classify log_event
  update_one i r =
      let d = set_health i (classify r i) r.diag in
      record r {
        diag = elim (classify r i) [ degraded ↦ log_event i subsystem_degraded 0 d | _ ↦ d ];
      }

  -- `for i in 0..SUBSYSTEM_COUNT`
  unfoldable pub update_health : ℕ → ℕ → Run S → Run S
  unfolding update_one
  update_health zero i r = r
  update_health (suc n) i r = update_health n (i + 1) (update_one i r)

  abbrev pub with_mode : BootMode → Run S → Run S
  with_mode mode r = record r { diag = record r.diag { boot_mode = mode } }

  unfoldable pub scheduler_mode : Run S → Run S
  scheduler_mode r = if flag r.critical_fail (index scheduler) then with_mode minimal r else r

  unfoldable pub vfs_mode : Run S → Run S
  vfs_mode r =
      if flag r.critical_fail (index vfs)
      then if is_normal r.diag.boot_mode then with_mode safe r else r
      else r

  unfoldable pub degraded_mode : Run S → Run S
  unfolding log_event
  degraded_mode r =
      if leb 2 (degraded_count r.diag)
      then if is_normal r.diag.boot_mode
        then (record r {
          diag = log_event (index memory) safe_mode_entered 0 (record r.diag { boot_mode = safe });
        })
        else r
      else r

  abbrev pub results : ℕ → Run S → TestResults
  results total r = record {
    total = total;
    passed = r.passed;
    failed = r.failed;
    recovered = r.recovered;
    boot_mode = r.diag.boot_mode;
  }

  unfoldable pub choose_mode : ℕ → Run S → Boot S
  unfolding scheduler_mode vfs_mode degraded_mode
  choose_mode total r =
      let finish : Run S → Boot S = λ s. let s' = degraded_mode s in booted (results total s') s' in
      if any_true r.critical_fail
      then if flag r.critical_fail (index memory)
        then halted r
        else finish (vfs_mode (scheduler_mode r))
      else finish r

  unfoldable pub run_all : List (DiagTest S) → S → Diag → Boot S
  unfolding run_tests update_health choose_mode
  run_all tests sys d =
      let tested = run_tests 0 tests (start sys d) in
      choose_mode (length tests) (update_health subsystem_count 0 tested)
