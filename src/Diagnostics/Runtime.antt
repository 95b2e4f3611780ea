-- ===== src/Diagnostics/Runtime.antt =====
-- kernel/src/ktest.rs, `runtime_health_check`, over the quick checks that it is given.
use nonameos.Prelude.{
  ℕ, ◌+◌, ◌≡◌, ◌∙◌, ap, refl, get_or-set_ne, Bool, true, false, not, ◌&&◌, List, [], ◌∷◌,
  if◌then◌else◌, arith,
}
use nonameos.Diagnostics.{
  Health, healthy, degraded, unknown, Subsystem, memory, vfs, scheduler, index, Diag, health_at,
}
use nonameos.Diagnostics.Select.{set_health}

abbrev pub is_healthy : Health → Bool
is_healthy healthy = true
is_healthy _ = false

abbrev pub QuickCheck {ℓ} : Type ℓ → Type ℓ
QuickCheck S = Subsystem × (S → Bool × S)

-- The loop's new static variables.
abbrev marked : Subsystem → Bool → Diag → Diag
marked sub worse d = if worse then set_health (index sub) degraded d else d

marked-kept :
    (sub : Subsystem) (worse : Bool) (d : Diag) (i : ℕ)
    → (worse ≡ true → is_healthy (health_at d.health (index sub)) ≡ true)
    → is_healthy (health_at d.health i) ≡ false
    → health_at (marked sub worse d).health i ≡ health_at d.health i
marked-kept sub true d i was h =
    get_or-set_ne d.health (index sub) i degraded unknown
      (λ e. cc (was refl, h, ap (λ j. is_healthy (health_at d.health j)) e))
marked-kept sub false d i was h = refl

module _ {ℓ} {S : Type ℓ} where
  -- `let checks = [(Memory, …), (Vfs, …), (Scheduler, …)]`
  abbrev pub quick_checks : (S → Bool × S) → (S → Bool × S) → (S → Bool × S) → List (QuickCheck S)
  quick_checks on_memory on_vfs on_scheduler =
      (memory, on_memory) ∷ (vfs, on_vfs) ∷ (scheduler, on_scheduler) ∷ []

  -- The loop, with the problems counted so far.
  pub health_check : List (QuickCheck S) → ℕ → S → Diag → ℕ × S × Diag
  health_check [] problems sys d = (problems, sys, d)
  health_check ((sub, check_fn) ∷ checks) problems sys d =
      let (ok, sys') = check_fn sys in
      let worse = not ok && is_healthy (health_at d.health (index sub)) in
      health_check checks (if worse then problems + 1 else problems) sys'
        (if worse then set_health (index sub) degraded d else d)

  unfoldable pub runtime_health_check : List (QuickCheck S) → S → Diag → ℕ × S × Diag
  unfolding health_check
  runtime_health_check checks sys d = health_check checks 0 sys d

  -- Only a healthy subsystem can be found ill: any other keeps its health, whatever its check says.
  health_check-kept :
      (checks : List (QuickCheck S)) (problems : ℕ) (sys : S) (d : Diag) (i : ℕ)
      → is_healthy (health_at d.health i) ≡ false
      → health_at (health_check checks problems sys d).2.health i ≡ health_at d.health i
  unfolding health_check
  health_check-kept [] problems sys d i h = refl
  health_check-kept ((sub, check_fn) ∷ checks) problems sys d i h =
      health_check-kept checks _ _ (marked sub worse d) i (rw same h) ∙ same
    where
      worse : Bool
      worse = not (check_fn sys).0 && is_healthy (health_at d.health (index sub))

      same : health_at (marked sub worse d).health i ≡ health_at d.health i
      same = marked-kept sub worse d i (λ w. ground arith) h
