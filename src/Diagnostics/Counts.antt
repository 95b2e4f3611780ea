-- ===== src/Diagnostics/Counts.antt =====
-- The loop over the tests in kernel/src/ktest.rs, whatever the tests and recoveries do.
use nonameos.Prelude.{
  ℕ, zero, suc, ◌+◌, ◌*◌, ◌≤◌, ◌<◌, ◌≡◌, inl, inr, Bool, List, [], ◌∷◌, Option, none, some, length,
  get_or-set_cases, get_or-replicate, Bool-cases, arith,
}
use nonameos.Diagnostics.{
  boot, DiagTest, Run, start, attempts_at, index, subsystem_count, recheck, recover, try_recovery,
  run_test, run_tests,
}
use nonameos.Diagnostics.Select.{
  update_one, update_health, choose_mode, run_all, Boot, halted, booted,
}

-- Where the run ended.
abbrev pub run_of {ℓ} : {S : Type ℓ} → Boot S → Run S
run_of (halted r) = r
run_of (booted results r) = r

module _ {ℓ} {S : Type ℓ} where
  -- After `n` tests.
  pub record Counted (n : ℕ) (r : Run S) : Type 0 where
    pub all_counted : r.passed + r.failed ≡ n
    pub among_passed : r.recovered ≤ r.passed
    pub logged : r.diag.boot_log_count ≤ 3 * n

  abbrev pub Tally : ℕ → ℕ → Run S → Type 0
  Tally n events r =
      (r.passed + r.failed ≡ n) × (r.recovered ≤ r.passed) × (r.diag.boot_log_count ≤ events)

  recheck-Tally :
      (n idx : ℕ) (t : DiagTest S) (r : Run S)
      → Tally n (2 + 3 * n) r
      → Tally (suc n) (3 * suc n) (recheck idx t r)
  unfolding recheck
  recheck-Tally n idx t r h = ground arith

  recover-Tally :
      (n idx : ℕ) (t : DiagTest S) (f : S → Bool × S) (r : Run S)
      → Tally n (1 + 3 * n) r
      → Tally (suc n) (3 * suc n) (recover idx t f r)
  unfolding recover
  recover-Tally n idx t f r h = ground (arith, recheck-Tally n idx t)

  try_recovery-Tally :
      (n idx : ℕ) (t : DiagTest S) (o : Option (S → Bool × S)) (r : Run S)
      → Tally n (1 + 3 * n) r
      → Tally (suc n) (3 * suc n) (try_recovery idx t o r)
  unfolding try_recovery
  try_recovery-Tally n idx t none r h = ground arith
  try_recovery-Tally n idx t (some f) r h = ground (arith, recover-Tally n idx t f r h)

  run_test-Tally :
      (n idx : ℕ) (t : DiagTest S) (r : Run S)
      → Tally n (3 * n) r
      → Tally (suc n) (3 * suc n) (run_test idx t r)
  unfolding run_test
  run_test-Tally n idx t r h = elim (Bool-cases (t.func r.sys).0) [
    | inl passes ↦ rw (run_test, passes) (ground arith)
    | inr fails ↦ rw (run_test, fails) (try_recovery-Tally n idx t t.recovery _ (ground arith))
  ]

  run_tests-Tally :
      (n idx : ℕ) (ts : List (DiagTest S)) (r : Run S)
      → Tally n (3 * n) r
      → Tally (n + length ts) (3 * (n + length ts)) (run_tests idx ts r)
  unfolding run_tests
  run_tests-Tally n idx [] r h = omega arith
  run_tests-Tally n idx (t ∷ ts) r h =
      omega (
        arith,
        run_tests-Tally (suc n) (idx + 1) ts (run_test idx t r) (run_test-Tally n idx t r h),
      )

  -- No subsystem had more than three attempts.
  abbrev pub Bounded : Run S → Type 0
  Bounded r = (i : ℕ) → attempts_at r.diag i ≤ 3

  try_recovery-Bounded :
      (idx : ℕ) (t : DiagTest S) (o : Option (S → Bool × S)) (r : Run S)
      → Bounded r
      → Bounded (try_recovery idx t o r)
  unfolding try_recovery
  try_recovery-Bounded idx t none r h i = ground (arith, h i)
  try_recovery-Bounded idx t (some f) r h i = ground (
    arith,
    h i,
    get_or-set_cases r.diag.recovery_attempts (index t.subsystem) i
        (attempts_at r.diag (index t.subsystem) + 1) 0,
  )

  run_test-Bounded : (idx : ℕ) (t : DiagTest S) (r : Run S) → Bounded r → Bounded (run_test idx t r)
  unfolding run_test
  run_test-Bounded idx t r h = elim (Bool-cases (t.func r.sys).0) [
    | inl passes ↦ rw (run_test, passes) (λ i. ground (arith, h i))
    | inr fails ↦
        rw (run_test, fails) (try_recovery-Bounded idx t t.recovery _ (λ i. ground (arith, h i)))
  ]

  run_tests-Bounded :
      (idx : ℕ) (ts : List (DiagTest S)) (r : Run S) → Bounded r → Bounded (run_tests idx ts r)
  unfolding run_tests
  run_tests-Bounded idx [] r h = h
  run_tests-Bounded idx (t ∷ ts) r h =
      run_tests-Bounded (idx + 1) ts (run_test idx t r) (run_test-Bounded idx t r h)

  abbrev pub Sound : ℕ → ℕ → Run S → Type 0
  Sound n events r = Tally n events r × Bounded r

  update_one-Sound :
      (i n events : ℕ) (r : Run S) → Sound n events r → Sound n (suc events) (update_one i r)
  unfolding update_one
  update_one-Sound i n events r h = (ground arith, λ j. ground (arith, h.1 j))

  update_health-Sound :
      (k i n events total : ℕ) (r : Run S)
      → events + k ≤ total
      → Sound n events r
      → Sound n total (update_health k i r)
  unfolding update_health
  update_health-Sound zero i n events total r le h = (ground arith, h.1)
  update_health-Sound (suc k) i n events total r le h =
      update_health-Sound k (i + 1) n (suc events) total (update_one i r) (omega arith)
        (update_one-Sound i n events r h)

  choose_mode-Sound :
      (n events bound total : ℕ) (r : Run S)
      → events < bound
      → Sound n events r
      → Sound n bound (run_of (choose_mode total r))
  unfolding choose_mode
  choose_mode-Sound n events bound total r le h = (ground arith, λ i. ground (arith, h.1 i))

  module _ (tests : List (DiagTest S)) (sys : S) where
    -- From boot on, whatever the tests and their recoveries do, at the end of `run_all` the passed
    -- and failed tests are all of them, the recovered ones are among the passed, no subsystem had
    -- more than three recovery attempts, and the log has at most three events for each test and
    -- seven more. For the table of 18 tests these are 61, so that none of them finds the 64 entries
    -- full.
    pub run_all-Sound :
        Sound (length tests) (3 * length tests + 7) (run_of (run_all tests sys boot))
    unfolding run_all
    run_all-Sound =
        choose_mode-Sound (length tests) (3 * length tests + 6) _ (length tests)
          (update_health subsystem_count 0 tested) (omega arith)
          (update_health-Sound subsystem_count 0 (length tests) (3 * length tests) _ tested
            (omega arith) tested-Sound)
      where
        tested : Run S
        tested = run_tests 0 tests (start sys boot)

        tested-Sound : Sound (length tests) (3 * length tests) tested
        tested-Sound = (
          omega (arith, run_tests-Tally 0 0 tests (start sys boot) (omega arith)),
          run_tests-Bounded 0 tests (start sys boot)
              (λ i. omega (arith, get_or-replicate {A = ℕ} subsystem_count i 0)),
        )
