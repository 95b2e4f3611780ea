-- ===== src/Objects.antt =====
-- kernel/src/win32/object.rs: the handle table of a process, and the kernel's pool of objects.
-- An index past a table is ruled out by the guards; a read of one gives a free entry here.
pub mod Handles
pub mod Pool
pub mod References
pub mod Sharing
pub mod Duplicates
pub mod Store
mod Tests
use mathlib.Core.Option
use nonameos.Prelude.{
  ℕ, ◌+◌, ◌-◌, ◌*◌, ◌/◌, ◌%◌, min, Bool, true, false, not, ◌&&◌, ◌||◌, List, Option, none, some,
  length, get_or, set, take, drop, replicate, copy_prefix, bytes_eq, leb, ◌==◌, if◌then◌else◌,
  add_usize, sub_usize,
}
use nonameos.Prelude.Find.{find_index}

pub data ObjectType : Type 0 where
  directory symbolic_link file process thread section mutant event semaphore timer key io_completion
        token window_station desktop :
      ObjectType

-- The discriminants, by which types are compared.
unfoldable pub type_code : ObjectType → ℕ
type_code directory = 0
type_code symbolic_link = 1
type_code file = 2
type_code process = 3
type_code thread = 4
type_code section = 5
type_code mutant = 6
type_code event = 7
type_code semaphore = 8
type_code timer = 9
type_code key = 10
type_code io_completion = 11
type_code token = 12
type_code window_station = 13
type_code desktop = 14

pub data ObjectBody : Type 0 where
  no_body : ObjectBody
  file_body : (path : List ℕ) (path_len position access size : ℕ) → ObjectBody
  process_body : (pid exit_code : ℕ) (terminated : Bool) → ObjectBody
  thread_body : (tid owner_pid exit_code : ℕ) (terminated : Bool) → ObjectBody
  mutant_body : (owner_tid recursion_count : ℕ) (signaled : Bool) → ObjectBody
  event_body : (manual_reset signaled : Bool) → ObjectBody
  semaphore_body : (current_count maximum_count : ℕ) → ObjectBody
  key_body : (path : List ℕ) (path_len : ℕ) → ObjectBody
  section_body : (base_address size : ℕ) → ObjectBody

pub record ObjectHeader : Type 0 where
  pub object_type : ObjectType
  pub ref_count : ℕ
  pub handle_count : ℕ
  pub name : List ℕ
  pub name_len : ℕ
  pub permanent : Bool
  pub body : ObjectBody

-- `u32::MAX`, the object index of a free entry.
abbrev pub no_object : ℕ
no_object = 4294967295

pub record HandleEntry : Type 0 where
  pub object_index : ℕ
  pub access_mask : ℕ
  pub inherit : Bool
  pub protect : Bool

abbrev pub empty_entry : HandleEntry
empty_entry = record { object_index = no_object; access_mask = 0; inherit = false; protect = false }

abbrev pub is_free : HandleEntry → Bool
is_free e = e.object_index == no_object

abbrev pub handle_table_size : ℕ
handle_table_size = 256

abbrev pub HandleTable : Type 0
HandleTable = List HandleEntry

unfoldable pub new_table : HandleTable
new_table = replicate handle_table_size empty_entry

abbrev pub entry : HandleTable → ℕ → HandleEntry
entry table index = get_or table index empty_entry

-- `HANDLE::INVALID`
abbrev pub invalid : ℕ
invalid = 18446744073709551615

abbrev pub status_success : ℕ
status_success = 0

abbrev pub status_invalid_handle : ℕ
status_invalid_handle = 0xC0000008

abbrev pub status_handle_not_closable : ℕ
status_handle_not_closable = 0xC0000235

abbrev pub status_object_name_not_found : ℕ
status_object_name_not_found = 0xC0000034

abbrev pub status_object_type_mismatch : ℕ
status_object_type_mismatch = 0xC0000024

abbrev pub status_insufficient_resources : ℕ
status_insufficient_resources = 0xC000009A

-- `NTSTATUS::is_error`
abbrev pub is_error : ℕ → Bool
is_error status = leb 0xC0000000 status

-- `HandleTable::alloc`: the entry of index 0 is reserved.
unfoldable pub alloc : ℕ → ℕ → HandleTable → ℕ × HandleTable
alloc object_index access table = elim (find_index is_free (drop 1 table)) [
  | none ↦ (invalid, table)
  | some i ↦ (
    (i + 1) * 4,
    set table (i + 1) (record {
      object_index = object_index;
      access_mask = access;
      inherit = false;
      protect = false;
    }),
  )
]

-- `HandleTable::get`
unfoldable pub get : ℕ → HandleTable → Option HandleEntry
get handle table =
    let index = handle / 4 in
    if index == 0 || leb handle_table_size index
    then none
    else if is_free (entry table index)
    then none
    else some (entry table index)

-- `HandleTable::close`
unfoldable pub close : ℕ → HandleTable → ℕ × HandleTable
close handle table =
    let index = handle / 4 in
    if index == 0 || leb handle_table_size index
    then (status_invalid_handle, table)
    else if is_free (entry table index)
    then (status_invalid_handle, table)
    else if (entry table index).protect
    then (status_handle_not_closable, table)
    else (status_success, set table index empty_entry)

-- `HandleTable::duplicate`
unfoldable pub duplicate : ℕ → ℕ → HandleTable → ℕ × HandleTable
duplicate source new_access table =
    let src_index = source / 4 in
    if src_index == 0 || leb handle_table_size src_index
    then (invalid, table)
    else if is_free (entry table src_index)
    then (invalid, table)
    else alloc (entry table src_index).object_index new_access table
