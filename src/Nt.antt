-- ===== src/Nt.antt =====
-- kernel/src/win32/ntapi.rs: the system services over a handle table and the pool of objects. What a
-- service ignores is no parameter here; that `object_name` is null is a Boolean.
pub mod Services
mod Tests
use nonameos.Prelude.{
  ℕ, ◌+◌, ◌*◌, ◌/◌, ◌%◌, Bool, true, false, not, List, [], Option, none, some, replicate, ◌==◌,
  if◌then◌else◌, add_usize,
}
use nonameos.Objects.{
  ObjectType, file, section, mutant, event, key, ObjectBody, file_body, mutant_body, event_body,
  key_body, section_body, HandleTable, status_success, status_insufficient_resources,
}
use nonameos.Objects.Store.{
  ObjectPool, create_object, OpenResult, opened, failed, open_handle, close_handle,
}

abbrev pub status_object_name_invalid : ℕ
status_object_name_invalid = 0xC0000033

abbrev pub status_not_implemented : ℕ
status_not_implemented = 0xC0000002

-- The handle for a new object, which is given up where there is none.
abbrev pub handle_for :
    ℕ → HandleTable → Option ℕ × ObjectPool → OpenResult × HandleTable × ObjectPool
handle_for access table (none, pool) = (failed status_insufficient_resources, table, pool)
handle_for access table (some obj_index, pool) = open_handle obj_index access table pool

-- An object without a name and a handle for it: the common body of the services.
unfoldable pub make_object :
    ObjectType → ObjectBody → ℕ → HandleTable → ObjectPool → OpenResult × HandleTable × ObjectPool
make_object obj_type body access table pool =
    handle_for access table (create_object obj_type [] body pool)

unfoldable pub nt_create_event :
    ℕ → Bool → Bool → HandleTable → ObjectPool → OpenResult × HandleTable × ObjectPool
unfolding make_object
nt_create_event desired_access manual_reset initial_state =
    make_object event (event_body manual_reset initial_state) desired_access

unfoldable pub nt_create_mutant :
    ℕ → Bool → HandleTable → ObjectPool → OpenResult × HandleTable × ObjectPool
unfolding make_object
nt_create_mutant desired_access initial_owner =
    let once : ℕ = if initial_owner then 1 else 0 in
    make_object mutant (mutant_body once once (not initial_owner)) desired_access

unfoldable pub nt_open_key : ℕ → HandleTable → ObjectPool → OpenResult × HandleTable × ObjectPool
unfolding make_object
nt_open_key desired_access = make_object key (key_body (replicate 256 0) 0) desired_access

unfoldable pub nt_create_section :
    ℕ → ℕ → HandleTable → ObjectPool → OpenResult × HandleTable × ObjectPool
unfolding make_object
nt_create_section desired_access maximum_size =
    make_object section (section_body 0 maximum_size) desired_access

pub record IoStatusBlock : Type 0 where
  pub status : ℕ
  pub information : ℕ

-- The handle is made, and then dropped: the caller sees the status only.
abbrev pub report : IoStatusBlock → OpenResult → ℕ × IoStatusBlock
report io (opened handle) = (status_success, record { status = status_success; information = 0 })
report io (failed status) = (status, record io { status = status })

unfoldable pub nt_create_file :
    ℕ
    → Bool
    → IoStatusBlock
    → HandleTable
    → ObjectPool
    → ℕ × IoStatusBlock × HandleTable × ObjectPool
unfolding make_object
nt_create_file desired_access name_is_null io table pool =
    if name_is_null
    then (
      status_object_name_invalid,
      record io { status = status_object_name_invalid },
      table,
      pool,
    )
    else let body = file_body (replicate 256 0) 0 0 desired_access 0 in
      let (result, table', pool') = make_object file body desired_access table pool in
      let (status, io') = report io result in (status, io', table', pool')

abbrev pub nt_close : ℕ → HandleTable → ObjectPool → ℕ × HandleTable × ObjectPool
nt_close = close_handle

-- The status, the base address and the size of the region. Nothing is mapped.
unfoldable pub nt_allocate_virtual_memory : ℕ → ℕ → ℕ × ℕ × ℕ
nt_allocate_virtual_memory base_address region_size = (
  status_success,
  if base_address == 0 then 0x10000 else base_address,
  add_usize region_size 0xFFF / 4096 * 4096,
)

abbrev pub nt_free_virtual_memory : ℕ
nt_free_virtual_memory = status_success

abbrev pub nt_terminate_process : ℕ
nt_terminate_process = status_success

abbrev pub nt_wait_for_single_object : ℕ
nt_wait_for_single_object = status_success

abbrev pub nt_delay_execution : ℕ
nt_delay_execution = status_success

abbrev pub nt_query_information_process : ℕ
nt_query_information_process = status_not_implemented
