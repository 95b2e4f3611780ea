-- ===== src/Objects/Store.antt =====
-- The pool of objects in kernel/src/win32/object.rs, and the calls on a table and the pool.
use mathlib.Core.Option
use nonameos.Prelude.{
  ℕ, ◌+◌, ◌-◌, ◌%◌, min, Bool, true, false, not, ◌&&◌, List, Option, none, some, length, get_or,
  set, take, replicate, copy_prefix, bytes_eq, ◌==◌, if◌then◌else◌, add_usize, sub_usize,
}
use nonameos.Prelude.Find.{find_index}
use nonameos.Objects.{
  ObjectType, type_code, ObjectBody, ObjectHeader, HandleTable, invalid, status_success,
  status_invalid_handle, status_object_name_not_found, status_object_type_mismatch,
  status_insufficient_resources, is_error, alloc, get, close,
}

abbrev pub max_objects : ℕ
max_objects = 1024

pub record ObjectPool : Type 0 where
  pub objects : List (Option ObjectHeader)
  pub count : ℕ

unfoldable pub empty_pool : ObjectPool
empty_pool = record { objects = replicate max_objects none; count = 0 }

abbrev pub object : ObjectPool → ℕ → Option ObjectHeader
object pool index = get_or pool.objects index none

abbrev pub is_vacant : Option ObjectHeader → Bool
is_vacant none = true
is_vacant (some o) = false

-- The header that `create_object` puts into a slot.
unfoldable pub new_header : ObjectType → List ℕ → ObjectBody → ObjectHeader
new_header obj_type name body =
    let len = min (length name) 127 in
    record {
      object_type = obj_type;
      ref_count = 1;
      handle_count = 0;
      name = copy_prefix (take len name) (replicate 128 0);
      name_len = len;
      permanent = false;
      body = body;
    }

unfoldable pub create_object : ObjectType → List ℕ → ObjectBody → ObjectPool → Option ℕ × ObjectPool
create_object obj_type name body pool = elim (find_index is_vacant pool.objects) [
  | none ↦ (none, pool)
  | some i ↦ (
    some i,
    record {
      objects = set pool.objects i (some (new_header obj_type name body));
      count = add_usize pool.count 1;
    },
  )
]

abbrev pub u32_mod : ℕ
u32_mod = 4294967296

unfoldable pub reference_object : ℕ → ObjectPool → ℕ × ObjectPool
reference_object index pool = elim (object pool index) [
  | none ↦ (status_invalid_handle, pool)
  | some o ↦ (
    status_success,
    record pool {
      objects =
          set pool.objects index (some (record o { ref_count = (o.ref_count + 1) % u32_mod }));
    },
  )
]

-- `dereference_object` on an object that has a reference.
unfoldable pub drop_reference : ℕ → ObjectHeader → ObjectPool → ObjectPool
drop_reference index o pool =
    let left = o.ref_count - 1 in
    if (left == 0) && not o.permanent
    then record { objects = set pool.objects index none; count = sub_usize pool.count 1 }
    else record pool { objects = set pool.objects index (some (record o { ref_count = left })) }

unfoldable pub dereference_object : ℕ → ObjectPool → ℕ × ObjectPool
dereference_object index pool = elim (object pool index) [
  | none ↦ (status_invalid_handle, pool)
  | some o ↦
      if o.ref_count == 0
      then (status_invalid_handle, pool)
      else (status_success, drop_reference index o pool)
]

unfoldable pub is_named : List ℕ → Option ObjectHeader → Bool
is_named name none = false
is_named name (some o) = (o.name_len == length name) && bytes_eq (take o.name_len o.name) name

unfoldable pub lookup_object : List ℕ → ObjectPool → Option ℕ
lookup_object name pool = find_index (is_named name) pool.objects

abbrev pub get_object_type : ℕ → ObjectPool → Option ObjectType
get_object_type index pool = Option.map (λ (o : ObjectHeader). o.object_type) (object pool index)

pub data OpenResult : Type 0 where
  opened failed : ℕ → OpenResult

-- The last step of `open_object`: a handle for the object, or the reference taken back.
unfoldable pub open_handle :
    ℕ → ℕ → HandleTable → ObjectPool → OpenResult × HandleTable × ObjectPool
open_handle index access table pool =
    let (handle, table') = alloc index access table in
    if handle == invalid
    then (failed status_insufficient_resources, table', (dereference_object index pool).1)
    else (opened handle, table', pool)

-- `open_object` once the name is found.
unfoldable pub open_index :
    ℕ → ObjectType → ℕ → HandleTable → ObjectPool → OpenResult × HandleTable × ObjectPool
open_index index expected_type access table pool = elim (get_object_type index pool) [
  | none ↦ (failed status_invalid_handle, table, pool)
  | some obj_type ↦
      let (status, pool') = reference_object index pool in
      if not (type_code obj_type == type_code expected_type)
      then (failed status_object_type_mismatch, table, pool)
      else if is_error status
      then (failed status, table, pool')
      else open_handle index access table pool'
]

unfoldable pub open_object :
    List ℕ → ObjectType → ℕ → HandleTable → ObjectPool → OpenResult × HandleTable × ObjectPool
open_object name expected_type access table pool = elim (lookup_object name pool) [
  | none ↦ (failed status_object_name_not_found, table, pool)
  | some index ↦ open_index index expected_type access table pool
]

-- `close_handle` (NtClose)
unfoldable pub close_handle : ℕ → HandleTable → ObjectPool → ℕ × HandleTable × ObjectPool
close_handle handle table pool = elim (get handle table) [
  | none ↦ (status_invalid_handle, table, pool)
  | some e ↦
      let (status, table') = close handle table in
      if is_error status
      then (status, table', pool)
      else let (result, pool') = dereference_object e.object_index pool in (result, table', pool')
]
