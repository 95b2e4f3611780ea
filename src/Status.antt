-- ===== src/Status.antt =====
-- kernel/src/win32/error.rs and the status words of kernel/src/win32/types.rs.
-- A status is its 32-bit word. A `match` on constants is a table, of which the first row counts.
pub mod Mapping
mod Tests
use Prim.Native.String.{String}
use nonameos.Prelude.{
  ℕ, ◌-◌, ◌/◌, ◌%◌, ◌^◌, Bool, ◌&&◌, List, [], ◌∷◌, Option, none, some, leb, ltb, ◌==◌,
  if◌then◌else◌,
}
use nonameos.Objects.{is_error}
pub use nonameos.Objects.{
  status_success, status_invalid_handle, status_object_name_not_found,
  status_insufficient_resources,
}

abbrev pub status_pending : ℕ
status_pending = 0x00000103

abbrev pub status_buffer_overflow : ℕ
status_buffer_overflow = 0x80000005

abbrev pub status_buffer_too_small : ℕ
status_buffer_too_small = 0x80000023

abbrev pub status_access_denied : ℕ
status_access_denied = 0xC0000022

abbrev pub status_invalid_parameter : ℕ
status_invalid_parameter = 0xC000000D

abbrev pub status_no_memory : ℕ
status_no_memory = 0xC0000017

abbrev pub status_object_name_collision : ℕ
status_object_name_collision = 0xC0000035

abbrev pub status_object_path_not_found : ℕ
status_object_path_not_found = 0xC000003A

abbrev pub status_not_implemented : ℕ
status_not_implemented = 0xC0000002

abbrev pub status_not_supported : ℕ
status_not_supported = 0xC00000BB

abbrev pub status_info_length_mismatch : ℕ
status_info_length_mismatch = 0xC0000004

abbrev pub status_access_violation : ℕ
status_access_violation = 0xC0000005

abbrev pub status_end_of_file : ℕ
status_end_of_file = 0xC0000011

abbrev pub status_no_such_file : ℕ
status_no_such_file = 0xC000000F

abbrev pub status_file_is_a_directory : ℕ
status_file_is_a_directory = 0xC00000BA

abbrev pub status_directory_not_empty : ℕ
status_directory_not_empty = 0xC0000101

abbrev pub status_sharing_violation : ℕ
status_sharing_violation = 0xC0000043

abbrev pub status_object_name_invalid : ℕ
status_object_name_invalid = 0xC0000033

abbrev pub status_invalid_image_format : ℕ
status_invalid_image_format = 0xC000007B

abbrev pub status_invalid_image_not_mz : ℕ
status_invalid_image_not_mz = 0xC000012F

abbrev pub status_image_machine_type_mismatch : ℕ
status_image_machine_type_mismatch = 0x4000000E

abbrev pub error_success : ℕ
error_success = 0

abbrev pub error_invalid_function : ℕ
error_invalid_function = 1

abbrev pub error_file_not_found : ℕ
error_file_not_found = 2

abbrev pub error_path_not_found : ℕ
error_path_not_found = 3

abbrev pub error_access_denied : ℕ
error_access_denied = 5

abbrev pub error_invalid_handle : ℕ
error_invalid_handle = 6

abbrev pub error_not_enough_memory : ℕ
error_not_enough_memory = 8

abbrev pub error_outofmemory : ℕ
error_outofmemory = 14

abbrev pub error_no_more_files : ℕ
error_no_more_files = 18

abbrev pub error_sharing_violation : ℕ
error_sharing_violation = 32

abbrev pub error_invalid_parameter : ℕ
error_invalid_parameter = 87

abbrev pub error_insufficient_buffer : ℕ
error_insufficient_buffer = 122

abbrev pub error_invalid_name : ℕ
error_invalid_name = 123

abbrev pub error_mod_not_found : ℕ
error_mod_not_found = 126

abbrev pub error_dir_not_empty : ℕ
error_dir_not_empty = 145

abbrev pub error_already_exists : ℕ
error_already_exists = 183

abbrev pub error_more_data : ℕ
error_more_data = 234

abbrev pub error_directory : ℕ
error_directory = 267

abbrev pub error_io_pending : ℕ
error_io_pending = 997

abbrev pub error_noaccess : ℕ
error_noaccess = 998

abbrev pub error_not_supported : ℕ
error_not_supported = 50

module _ {ℓ} {A : Type ℓ} where
  -- `match code { c1 => a1, c2 => a2, … }`
  abbrev pub match_code : ℕ → List (ℕ × A) → Option A
  match_code code [] = none
  match_code code ((c, a) ∷ rows) = if code == c then some a else match_code code rows

  -- With the arm `_ => otherwise`.
  abbrev pub otherwise : A → Option A → A
  otherwise a none = a
  otherwise a (some b) = b

-- `NTSTATUS::is_success`, `is_warning`, `is_info`
unfoldable pub is_success : ℕ → Bool
is_success status = ltb status 0x80000000

unfoldable pub is_warning : ℕ → Bool
is_warning status = leb 0x80000000 status && ltb status 0xC0000000

unfoldable pub is_info : ℕ → Bool
is_info status = leb 0x40000000 status && ltb status 0x80000000

unfoldable pub facility : ℕ → ℕ
facility status = status / 2 ^ 16 % 2 ^ 13

unfoldable pub code : ℕ → ℕ
code status = status % 2 ^ 16

-- The severity that `Debug` prints.
unfoldable pub severity : ℕ → String
severity status = otherwise "?" (
    match_code (status / 2 ^ 30)
      ((0, "SUCCESS") ∷ (1, "INFO") ∷ (2, "WARNING") ∷ (3, "ERROR") ∷ []))

-- `ERROR_MR_MID_NOT_FOUND`
abbrev pub error_mr_mid_not_found : ℕ
error_mr_mid_not_found = 317

abbrev pub status_unsuccessful : ℕ
status_unsuccessful = 0xC0000001

abbrev pub win32_errors : List (ℕ × ℕ)
win32_errors =
    (status_success, error_success)
    ∷ (status_pending, error_io_pending)
    ∷ (status_buffer_overflow, error_more_data)
    ∷ (status_object_name_not_found, error_file_not_found)
    ∷ (status_object_path_not_found, error_path_not_found)
    ∷ (status_no_such_file, error_file_not_found)
    ∷ (status_access_denied, error_access_denied)
    ∷ (status_access_violation, error_noaccess)
    ∷ (status_invalid_handle, error_invalid_handle)
    ∷ (status_no_memory, error_not_enough_memory)
    ∷ (status_insufficient_resources, error_outofmemory)
    ∷ (status_invalid_parameter, error_invalid_parameter)
    ∷ (status_object_name_collision, error_already_exists)
    ∷ (status_sharing_violation, error_sharing_violation)
    ∷ (status_directory_not_empty, error_dir_not_empty)
    ∷ (status_file_is_a_directory, error_directory)
    ∷ (status_object_name_invalid, error_invalid_name)
    ∷ (status_end_of_file, error_no_more_files)
    ∷ (status_not_implemented, error_invalid_function)
    ∷ (status_not_supported, error_not_supported)
    ∷ (status_buffer_too_small, error_insufficient_buffer)
    ∷ (status_info_length_mismatch, error_insufficient_buffer)
    ∷ (status_invalid_image_format, error_mod_not_found)
    ∷ []

unfoldable pub ntstatus_to_win32_error : ℕ → ℕ
unfolding is_success
ntstatus_to_win32_error status =
    otherwise (if is_success status then error_success else error_mr_mid_not_found)
      (match_code status win32_errors)

abbrev pub ntstatuses : List (ℕ × ℕ)
ntstatuses =
    (error_success, status_success)
    ∷ (error_file_not_found, status_object_name_not_found)
    ∷ (error_path_not_found, status_object_path_not_found)
    ∷ (error_access_denied, status_access_denied)
    ∷ (error_invalid_handle, status_invalid_handle)
    ∷ (error_not_enough_memory, status_no_memory)
    ∷ (error_invalid_parameter, status_invalid_parameter)
    ∷ (error_already_exists, status_object_name_collision)
    ∷ (error_sharing_violation, status_sharing_violation)
    ∷ (error_insufficient_buffer, status_buffer_too_small)
    ∷ (error_not_supported, status_not_supported)
    ∷ []

unfoldable pub win32_error_to_ntstatus : ℕ → ℕ
win32_error_to_ntstatus error = otherwise status_unsuccessful (match_code error ntstatuses)

abbrev pub ntstatus_names : List (ℕ × String)
ntstatus_names =
    (status_success, "STATUS_SUCCESS")
    ∷ (status_pending, "STATUS_PENDING")
    ∷ (status_access_denied, "STATUS_ACCESS_DENIED")
    ∷ (status_invalid_parameter, "STATUS_INVALID_PARAMETER")
    ∷ (status_no_memory, "STATUS_NO_MEMORY")
    ∷ (status_object_name_not_found, "STATUS_OBJECT_NAME_NOT_FOUND")
    ∷ (status_object_path_not_found, "STATUS_OBJECT_PATH_NOT_FOUND")
    ∷ (status_invalid_handle, "STATUS_INVALID_HANDLE")
    ∷ (status_not_implemented, "STATUS_NOT_IMPLEMENTED")
    ∷ (status_access_violation, "STATUS_ACCESS_VIOLATION")
    ∷ (status_invalid_image_format, "STATUS_INVALID_IMAGE_FORMAT")
    ∷ (status_sharing_violation, "STATUS_SHARING_VIOLATION")
    ∷ (status_end_of_file, "STATUS_END_OF_FILE")
    ∷ (status_buffer_overflow, "STATUS_BUFFER_OVERFLOW")
    ∷ (status_buffer_too_small, "STATUS_BUFFER_TOO_SMALL")
    ∷ []

unfoldable pub ntstatus_name : ℕ → String
ntstatus_name status = otherwise "STATUS_UNKNOWN" (match_code status ntstatus_names)
