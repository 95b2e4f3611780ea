-- ===== src/Diagnostics/Mode.antt =====
-- kernel/src/ktest.rs: how the boot mode that `run_all` chooses follows from the health of the
-- subsystems.
use nonameos.Prelude.{
  ℕ, zero, suc, ◌+◌, ◌≤◌, ◌<◌, ◌≡◌, ◌∙◌, sym, ap, get_or-replicate, refl, Bool, true, false, List,
  [], ◌∷◌, Option, none, some, length, set, get_or-set, length-set, leb, if◌then◌else◌, arith,
}
use nonameos.Prelude.Counting.{count_if}
use nonameos.Diagnostics.{
  Health, unknown, failed, BootMode, normal, safe, minimal, boot, is_impaired, health_at, flag,
  DiagTest, Run, start, index, memory, vfs, scheduler, subsystem_count, run_tests,
}
use nonameos.Diagnostics.Select.{
  any_true, classify, update_one, update_health, choose_mode, run_all, Boot, halted, booted,
}
use nonameos.Diagnostics.Flags.{Tested, Fresh, run_tests-Tested, run_tests-Fresh}

abbrev pub has_failed : Health → Bool
has_failed failed = true
has_failed _ = false

-- The mode by the health alone; `none` stops the kernel.
abbrev pub mode_for : List Health → Option BootMode
mode_for healths =
    if has_failed (health_at healths (index memory))
    then none
    else if has_failed (health_at healths (index scheduler))
    then some minimal
    else if has_failed (health_at healths (index vfs))
    then some safe
    else if leb 2 (count_if is_impaired healths)
    then some safe
    else some normal

any_true_of : (flags : List Bool) (i : ℕ) → flag flags i ≡ true → any_true flags ≡ true
any_true_of [] i h = h
any_true_of (b ∷ bs) zero h = ground arith
any_true_of (b ∷ bs) (suc i) h = ground (arith, any_true_of bs i h)

module _ {ℓ} {S : Type ℓ} where
  abbrev pub healths_of : Boot S → List Health
  healths_of (halted r) = r.diag.health
  healths_of (booted results r) = r.diag.health

  abbrev pub mode_of : Boot S → Option BootMode
  mode_of (halted r) = none
  mode_of (booted results r) = some results.boot_mode

  classify-failed :
      (r : Run S) (i : ℕ) → Tested r → has_failed (classify r i) ≡ flag r.critical_fail i
  unfolding classify
  classify-failed r i h = ground (arith, h i)

  module _ (i : ℕ) (r : Run S) where
    update_one-classify : (j : ℕ) → classify (update_one i r) j ≡ classify r j
    unfolding update_one
    update_one-classify j = unfold classify in ground arith

    update_one-health : (update_one i r).diag.health ≡ set r.diag.health i (classify r i)
    unfolding update_one
    update_one-health = ground arith

    update_one-kept :
        ((update_one i r).critical_fail ≡ r.critical_fail)
        × ((update_one i r).diag.boot_mode ≡ r.diag.boot_mode)
    unfolding update_one
    update_one-kept = ground arith

  -- The health that the loop leaves, for the subsystems that it has passed.
  update_health-classify :
      (k i : ℕ) (r : Run S) (j : ℕ)
      → length r.diag.health ≡ 6
      → i + k ≤ 6
      → j < i + k
      → (j < i → health_at r.diag.health j ≡ classify r j)
      → health_at (update_health k i r).diag.health j ≡ classify r j
  unfolding update_health
  update_health-classify zero i r j len le lt done = done (omega arith)
  update_health-classify (suc k) i r j len le lt done =
      update_health-classify k (i + 1) (update_one i r) j
        (rw (update_one-health i r) (length-set r.diag.health i (classify r i) ∙ len)) (omega arith)
        (omega arith) (λ below. seen below)
      ∙ update_one-classify i r j
    where
      seen : j < i + 1 → health_at (update_one i r).diag.health j ≡ classify (update_one i r) j
      seen below =
          rw (update_one-health i r, update_one-classify i r j)
            (ground
              (arith, get_or-set r.diag.health i j (classify r i) unknown (omega (arith, len))))

  update_health-kept :
      (k i : ℕ) (r : Run S)
      → ((update_health k i r).critical_fail ≡ r.critical_fail)
        × ((update_health k i r).diag.boot_mode ≡ r.diag.boot_mode)
  unfolding update_health
  update_health-kept zero i r = (refl, refl)
  update_health-kept (suc k) i r =
      let (critical, mode) = update_health-kept k (i + 1) (update_one i r) in
      let (critical', mode') = update_one-kept i r in (critical ∙ critical', mode ∙ mode')

  choose_mode-mode :
      (total : ℕ) (r : Run S)
      → r.diag.boot_mode ≡ normal
      → ((i : ℕ) → i < 6 → has_failed (health_at r.diag.health i) ≡ flag r.critical_fail i)
      → mode_of (choose_mode total r) ≡ mode_for (healths_of (choose_mode total r))
  unfolding choose_mode
  choose_mode-mode total r n h = ground (
    arith,
    h 0 (omega arith),
    h 1 (omega arith),
    h 4 (omega arith),
    any_true_of r.critical_fail 0,
    any_true_of r.critical_fail 1,
    any_true_of r.critical_fail 4,
  )

  -- From boot on, whatever the tests and their recoveries do, the boot mode follows from the health
  -- that `run_all` gives the subsystems: it stops if the memory failed, else chooses Minimal if the
  -- scheduler failed, else Safe if the file system failed or at least two subsystems are degraded
  -- or failed, else Normal.
  pub run_all-mode :
      (tests : List (DiagTest S)) (sys : S)
      → mode_of (run_all tests sys boot) ≡ mode_for (healths_of (run_all tests sys boot))
  unfolding run_all
  run_all-mode tests sys =
      choose_mode-mode (length tests) (update_health subsystem_count 0 tested) (mode ∙ fresh.1)
        (λ i lt.
          ap has_failed (
            update_health-classify subsystem_count 0 tested i fresh.0 (omega arith) lt
              (λ below. absurd (omega arith)))
          ∙ classify-failed tested i tested-Tested
          ∙ ap (λ flags. flag flags i) (sym critical))
    where
      tested : Run S
      tested = run_tests 0 tests (start sys boot)

      fresh : Fresh tested
      fresh = run_tests-Fresh 0 tests (start sys boot) (refl, refl)

      tested-Tested : Tested tested
      tested-Tested =
          run_tests-Tested 0 tests (start sys boot) refl
            (λ i h. cc (h, get_or-replicate {A = Bool} subsystem_count i false))

      critical : (update_health subsystem_count 0 tested).critical_fail ≡ tested.critical_fail
      critical = (update_health-kept subsystem_count 0 tested).0

      mode : (update_health subsystem_count 0 tested).diag.boot_mode ≡ tested.diag.boot_mode
      mode = (update_health-kept subsystem_count 0 tested).1
