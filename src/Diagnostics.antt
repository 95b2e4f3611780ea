-- ===== src/Diagnostics.antt =====
-- kernel/src/ktest.rs: the diagnostics at boot, with recovery, and the choice of the boot mode.
-- A test or a recovery is a function on the state of the system, which is a parameter here. Its
-- verdict and the printed lines aside, a run changes only what stands in `Run`.
pub mod Select
pub mod Table
pub mod Counts
pub mod Flags
pub mod Mode
pub mod Runtime
pub mod Frames
mod Tests
use Prim.Native.String.{String}
use nonameos.Prelude.{
  ℕ, zero, suc, ◌+◌, ◌%◌, Bool, true, false, not, ◌&&◌, ◌||◌, List, [], ◌∷◌, Option, none, some,
  length, get_or, set, replicate, ltb, leb, if◌then◌else◌,
}
use nonameos.Prelude.Counting.{count_if}

pub data Severity : Type 0 where
  critical required optional : Severity

pub data Health : Type 0 where
  unknown healthy recovered degraded failed : Health

pub data BootMode : Type 0 where
  normal safe minimal : BootMode

pub data Subsystem : Type 0 where
  memory vfs ipc drivers scheduler syscall : Subsystem

-- `as usize`
abbrev pub index : Subsystem → ℕ
index memory = 0
index vfs = 1
index ipc = 2
index drivers = 3
index scheduler = 4
index syscall = 5

abbrev pub subsystem_count : ℕ
subsystem_count = 6

-- One diagnostic test, over the state that its function looks at.
pub record DiagTest {ℓ} (S : Type ℓ) : Type ℓ where
  pub name : String
  pub subsystem : Subsystem
  pub severity : Severity
  pub func : S → Bool × S
  pub recovery : Option (S → Bool × S)

abbrev pub max_recovery_attempts : ℕ
max_recovery_attempts = 3

abbrev pub boot_log_size : ℕ
boot_log_size = 64

pub data BootEventType : Type 0 where
  no_event test_pass test_fail recovery_attempt recovery_success recovery_failed subsystem_degraded
        safe_mode_entered :
      BootEventType

pub record BootEvent : Type 0 where
  pub subsystem : ℕ
  pub event_type : BootEventType
  pub test_index : ℕ

abbrev pub empty_event : BootEvent
empty_event = record { subsystem = 0; event_type = no_event; test_index = 0 }

-- The static variables.
pub record Diag : Type 0 where
  pub health : List Health
  pub boot_mode : BootMode
  pub recovery_attempts : List ℕ
  pub boot_log : List BootEvent
  pub boot_log_count : ℕ

abbrev pub boot : Diag
boot = record {
  health = replicate subsystem_count unknown;
  boot_mode = normal;
  recovery_attempts = replicate subsystem_count 0;
  boot_log = replicate boot_log_size empty_event;
  boot_log_count = 0;
}

unfoldable pub log_event : ℕ → BootEventType → ℕ → Diag → Diag
log_event subsystem event test_idx d =
    if ltb d.boot_log_count boot_log_size
    then (record d {
      boot_log =
          set d.boot_log d.boot_log_count
            (record { subsystem = subsystem; event_type = event; test_index = test_idx });
      boot_log_count = d.boot_log_count + 1;
    })
    else d

abbrev pub health_at : List Health → ℕ → Health
health_at healths i = get_or healths i unknown

unfoldable pub health : Subsystem → Diag → Health
health sub d = health_at d.health (index sub)

-- `h == Health::Healthy || h == Health::Recovered`
abbrev pub is_ok : Health → Bool
is_ok healthy = true
is_ok recovered = true
is_ok _ = false

unfoldable pub is_subsystem_ok : Subsystem → Diag → Bool
unfolding health
is_subsystem_ok sub d = is_ok (health sub d)

-- `HEALTH[i] == Health::Degraded || HEALTH[i] == Health::Failed`
abbrev pub is_impaired : Health → Bool
is_impaired degraded = true
is_impaired failed = true
is_impaired _ = false

abbrev pub degraded_count : Diag → ℕ
degraded_count d = count_if is_impaired d.health

-- `sub_has_critical_fail[i]` and the like; an index is below 6.
abbrev pub flag : List Bool → ℕ → Bool
flag flags i = get_or flags i false

abbrev pub attempts_at : Diag → ℕ → ℕ
attempts_at d i = get_or d.recovery_attempts i 0

-- The local variables of `run_all`, with the system and the static variables.
pub record Run {ℓ} (S : Type ℓ) : Type ℓ where
  pub sys : S
  pub diag : Diag
  pub passed : ℕ
  pub failed : ℕ
  pub recovered : ℕ
  pub critical_fail : List Bool
  pub any_fail : List Bool
  pub tested : List Bool

abbrev pub is_critical : Severity → Bool
is_critical critical = true
is_critical _ = false

abbrev pub is_optional : Severity → Bool
is_optional optional = true
is_optional _ = false

-- `*attempts += 1`
abbrev pub count_attempt : ℕ → Diag → Diag
count_attempt sub d = record d {
  recovery_attempts = set d.recovery_attempts sub (attempts_at d sub + 1);
}

module _ {ℓ} {S : Type ℓ} where
  abbrev pub start : S → Diag → Run S
  start sys d = record {
    sys = sys;
    diag = d;
    passed = 0;
    failed = 0;
    recovered = 0;
    critical_fail = replicate subsystem_count false;
    any_fail = replicate subsystem_count false;
    tested = replicate subsystem_count false;
  }

  -- `log_event(test.subsystem, event, test_idx as u8)`
  unfoldable pub note : ℕ → BootEventType → ℕ → Run S → Run S
  unfolding log_event
  note sub event idx r = record r { diag = log_event sub event (idx % 256) r.diag }

  -- The test has failed for good.
  unfoldable pub fail_test : DiagTest S → Run S → Run S
  fail_test t r =
      let sub = index t.subsystem in
      record r {
        failed = r.failed + 1;
        any_fail = set r.any_fail sub true;
        critical_fail =
            if is_critical t.severity then set r.critical_fail sub true else r.critical_fail;
      }

  unfoldable pub pass_test : ℕ → DiagTest S → Run S → Run S
  unfolding note
  pass_test idx t r =
      let logged = note (index t.subsystem) test_pass idx r in
      record logged { passed = logged.passed + 1 }

  unfoldable pub pass_recovered : ℕ → DiagTest S → Run S → Run S
  unfolding note
  pass_recovered idx t r =
      let logged = note (index t.subsystem) recovery_success idx r in
      record logged { recovered = logged.recovered + 1; passed = logged.passed + 1 }

  unfoldable pub fail_recovery : ℕ → DiagTest S → Run S → Run S
  unfolding note fail_test
  fail_recovery idx t r = fail_test t (note (index t.subsystem) recovery_failed idx r)

  -- The test again, after a recovery that reports success.
  unfoldable pub recheck : ℕ → DiagTest S → Run S → Run S
  unfolding pass_recovered fail_recovery
  recheck idx t r =
      let (passes, sys) = t.func r.sys in
      let r' : Run S = record r { sys = sys } in
      if passes then pass_recovered idx t r' else fail_recovery idx t r'

  unfoldable pub recover : ℕ → DiagTest S → (S → Bool × S) → Run S → Run S
  unfolding note recheck fail_recovery
  recover idx t recover_fn r =
      let sub = index t.subsystem in
      let tried = note sub recovery_attempt idx (record r { diag = count_attempt sub r.diag }) in
      let (recovery_ok, sys) = recover_fn tried.sys in
      let r' : Run S = record tried { sys = sys } in
      if recovery_ok then recheck idx t r' else fail_recovery idx t r'

  -- A recovery is tried unless the test is optional, has none, or the subsystem had three.
  unfoldable pub try_recovery : ℕ → DiagTest S → Option (S → Bool × S) → Run S → Run S
  unfolding recover fail_test
  try_recovery idx t none r = fail_test t r
  try_recovery idx t (some recover_fn) r =
      if not (is_optional t.severity)
        && ltb (attempts_at r.diag (index t.subsystem)) max_recovery_attempts
      then recover idx t recover_fn r
      else fail_test t r

  -- One round of the loop over the tests.
  unfoldable pub run_test : ℕ → DiagTest S → Run S → Run S
  unfolding note pass_test try_recovery
  run_test idx t r =
      let sub = index t.subsystem in
      let (result, sys) = t.func r.sys in
      let r' : Run S = record r { sys = sys; tested = set r.tested sub true } in
      if result
      then pass_test idx t r'
      else try_recovery idx t t.recovery (note sub test_fail idx r')

  unfoldable pub run_tests : ℕ → List (DiagTest S) → Run S → Run S
  unfolding run_test
  run_tests idx [] r = r
  run_tests idx (t ∷ ts) r = run_tests (idx + 1) ts (run_test idx t r)
