-- ===== src/Diagnostics/Flags.antt =====
-- The loop over the tests in kernel/src/ktest.rs: which flags it raises, and what it leaves alone.
use nonameos.Prelude.{
  ℕ, ◌+◌, ◌<◌, ◌≡◌, ◌∙◌, refl, ◌⊎◌, inl, inr, Bool, true, false, List, [], ◌∷◌, Option, none, some,
  length, set, get_or-set, get_or-set_ne, length-set, Bool-cases, arith,
}
use nonameos.Diagnostics.{
  normal, flag, DiagTest, Run, is_critical, fail_test, recheck, recover, try_recovery, index,
  Subsystem, memory, vfs, ipc, drivers, scheduler, syscall, run_test, run_tests,
}

index_bound : (s : Subsystem) → index s < 6
index_bound memory = omega arith
index_bound vfs = omega arith
index_bound ipc = omega arith
index_bound drivers = omega arith
index_bound scheduler = omega arith
index_bound syscall = omega arith

module _ {ℓ} {S : Type ℓ} where
  -- A subsystem with a failure has been tested.
  abbrev pub Tested : Run S → Type 0
  Tested r = (i : ℕ) → flag r.critical_fail i ≡ true → flag r.tested i ≡ true

  -- The later stages of a test leave `tested` alone and touch one flag of `critical_fail`.
  abbrev Touches : ℕ → Run S → Run S → Type 0
  Touches sub r r' =
      (r'.tested ≡ r.tested)
      × ((r'.critical_fail ≡ r.critical_fail) ⊎ (r'.critical_fail ≡ set r.critical_fail sub true))

  fail_test-Touches : (t : DiagTest S) (r : Run S) → Touches (index t.subsystem) r (fail_test t r)
  unfolding fail_test
  fail_test-Touches t r = elim (Bool-cases (is_critical t.severity)) [
    | inl yes' ↦ (refl, inr (rw (fail_test, yes')))
    | inr no' ↦ (refl, inl (rw (fail_test, no')))
  ]

  recheck-Touches :
      (idx : ℕ) (t : DiagTest S) (r : Run S) → Touches (index t.subsystem) r (recheck idx t r)
  unfolding recheck
  recheck-Touches idx t r = ground arith

  recover-Touches :
      (idx : ℕ) (t : DiagTest S) (f : S → Bool × S) (r : Run S)
      → Touches (index t.subsystem) r (recover idx t f r)
  unfolding recover
  recover-Touches idx t f r = ground (arith, recheck-Touches idx t)

  try_recovery-Touches :
      (idx : ℕ) (t : DiagTest S) (o : Option (S → Bool × S)) (r : Run S)
      → Touches (index t.subsystem) r (try_recovery idx t o r)
  unfolding try_recovery
  try_recovery-Touches idx t none r = fail_test-Touches t r
  try_recovery-Touches idx t (some f) r = ground (arith, recover-Touches idx t f r)

  run_test-Touches :
      (idx : ℕ) (t : DiagTest S) (r : Run S)
      → ((run_test idx t r).tested ≡ set r.tested (index t.subsystem) true)
        × (((run_test idx t r).critical_fail ≡ r.critical_fail)
            ⊎ ((run_test idx t r).critical_fail ≡ set r.critical_fail (index t.subsystem) true))
  unfolding run_test
  run_test-Touches idx t r = elim (Bool-cases (t.func r.sys).0) [
    | inl passes ↦ (rw (run_test, passes), inl (rw (run_test, passes)))
    | inr fails ↦ rw (run_test, fails) (try_recovery-Touches idx t t.recovery _)
  ]

  run_test-Tested :
      (idx : ℕ) (t : DiagTest S) (r : Run S)
      → length r.tested ≡ 6
      → Tested r
      → (length (run_test idx t r).tested ≡ 6) × Tested (run_test idx t r)
  run_test-Tested idx t r len h =
      let (tested, critical) = run_test-Touches idx t r in
      (
        rw tested (length-set r.tested (index t.subsystem) true ∙ len),
        λ i raised. rw tested (
            ground (
              arith,
              h i,
              critical,
              raised,
              index_bound t.subsystem,
              get_or-set r.tested (index t.subsystem) i true false,
              get_or-set_ne r.critical_fail (index t.subsystem) i true false,
            )),
      )

  pub run_tests-Tested :
      (idx : ℕ) (ts : List (DiagTest S)) (r : Run S)
      → length r.tested ≡ 6
      → Tested r
      → Tested (run_tests idx ts r)
  unfolding run_tests
  run_tests-Tested idx [] r len h = h
  run_tests-Tested idx (t ∷ ts) r len h =
      let (len', h') = run_test-Tested idx t r len h in
      run_tests-Tested (idx + 1) ts (run_test idx t r) len' h'

  -- The tests leave the health and the mode alone.
  abbrev pub Fresh : Run S → Type 0
  Fresh r = (length r.diag.health ≡ 6) × (r.diag.boot_mode ≡ normal)

  recover-Fresh :
      (idx : ℕ) (t : DiagTest S) (f : S → Bool × S) (r : Run S)
      → Fresh r
      → Fresh (recover idx t f r)
  unfolding recover
  recover-Fresh idx t f r h = ground arith

  try_recovery-Fresh :
      (idx : ℕ) (t : DiagTest S) (o : Option (S → Bool × S)) (r : Run S)
      → Fresh r
      → Fresh (try_recovery idx t o r)
  unfolding try_recovery
  try_recovery-Fresh idx t none r h = ground arith
  try_recovery-Fresh idx t (some f) r h = ground (arith, recover-Fresh idx t f r h)

  run_test-Fresh : (idx : ℕ) (t : DiagTest S) (r : Run S) → Fresh r → Fresh (run_test idx t r)
  unfolding run_test
  run_test-Fresh idx t r h = elim (Bool-cases (t.func r.sys).0) [
    | inl passes ↦ rw (run_test, passes) (ground arith)
    | inr fails ↦ rw (run_test, fails) (try_recovery-Fresh idx t t.recovery _ (ground arith))
  ]

  pub run_tests-Fresh :
      (idx : ℕ) (ts : List (DiagTest S)) (r : Run S) → Fresh r → Fresh (run_tests idx ts r)
  unfolding run_tests
  run_tests-Fresh idx [] r h = h
  run_tests-Fresh idx (t ∷ ts) r h =
      run_tests-Fresh (idx + 1) ts (run_test idx t r) (run_test-Fresh idx t r h)
