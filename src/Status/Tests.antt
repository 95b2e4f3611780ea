-- ===== src/Status/Tests.antt =====
-- Runs of the conversions.
use nonameos.Prelude.{◌≡◌, refl, if◌then◌else◌}
use nonameos.Status.{
  severity, ntstatus_name, ntstatus_to_win32_error, win32_error_to_ntstatus, ntstatuses,
  error_access_denied, error_success, error_mr_mid_not_found, status_access_denied,
  status_buffer_overflow, status_image_machine_type_mismatch,
}
use nonameos.Status.Mapping.{is_listed, win32-ntstatus-win32}

severities : severity status_buffer_overflow ≡ "WARNING"
unfolding severity
severities = refl

named : ntstatus_name status_access_denied ≡ "STATUS_ACCESS_DENIED"
unfolding ntstatus_name
named = refl

-- The status of a 32-bit image counts as success.
mismatch_is_success : ntstatus_to_win32_error status_image_machine_type_mismatch ≡ error_success
unfolding ntstatus_to_win32_error
mismatch_is_success = refl

win32-ntstatus-win32_example :
    ntstatus_to_win32_error (win32_error_to_ntstatus error_access_denied) ≡ (
      if is_listed error_access_denied ntstatuses
      then error_access_denied
      else error_mr_mid_not_found)
win32-ntstatus-win32_example = win32-ntstatus-win32 error_access_denied
