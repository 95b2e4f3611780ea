-- ===== src/Status/Mapping.antt =====
-- The conversions of kernel/src/win32/error.rs in both directions, and the severities.
use nonameos.Prelude.{
  ℕ, ◌≡◌, ◌↔◌, ◌≢◌, Bool, true, false, List, [], ◌∷◌, ◌==◌, if◌then◌else◌, arith,
}
use nonameos.Status.{
  is_success, ntstatuses, ntstatus_to_win32_error, win32_error_to_ntstatus, error_success,
  error_mr_mid_not_found, status_pending,
}

-- Some row of the table is for the code.
abbrev pub is_listed : ℕ → List (ℕ × ℕ) → Bool
is_listed code [] = false
is_listed code ((c, a) ∷ rows) = if code == c then true else is_listed code rows

-- Converting a Win32 code to an NTSTATUS and back gives the same code, for each code that the first
-- conversion knows; for every other it gives ERROR_MR_MID_NOT_FOUND.
pub win32-ntstatus-win32 :
    (error : ℕ)
    → ntstatus_to_win32_error (win32_error_to_ntstatus error)
      ≡ (if is_listed error ntstatuses then error else error_mr_mid_not_found)
unfolding ntstatus_to_win32_error win32_error_to_ntstatus
win32-ntstatus-win32 error = ground arith

-- The conversion answers success for no failure: only for a status of success or information other
-- than `STATUS_PENDING`, and for each of these.
pub success_reported :
    (status : ℕ)
    → (ntstatus_to_win32_error status ≡ error_success)
      ↔ ((is_success status ≡ true) × (status ≢ status_pending))
unfolding ntstatus_to_win32_error is_success
success_reported status = ground arith
