-- ===== src/Vfs/Api.antt =====
-- The calls of kernel/src/vfs/mod.rs on open files, and `create`.
use mathlib.Core.Option
use nonameos.Prelude.{
  ℕ, Bool, true, false, not, ◌||◌, List, Option, none, some, set, ltb, leb, if◌then◌else◌,
  add_usize,
}
use nonameos.Prelude.Find.{find_index}
use nonameos.Vfs.{
  InodeType, is_directory, Operation, null_op, ramfs_op, File, Vfs, inode, open_file, max_inodes,
  max_open_files, get_inode, get_dentry, path_lookup,
}
use nonameos.Vfs.Ramfs.Mount
use nonameos.Vfs.Ramfs.{Isize, minus_one, bytes, ramfs_read, ramfs_write, ramfs_create}

abbrev pub put_file : ℕ → File → Vfs → Vfs
put_file fd f v = record v { files = set v.files fd f }

-- `open` once the inode is known.
unfoldable pub open_inode : ℕ → ℕ → Vfs → Option ℕ × Vfs
open_inode inode_idx mode v = elim (find_index (λ (f : File). not f.active) v.files) [
  | none ↦ (none, v)
  | some fd ↦ (
    some fd,
    put_file fd (record { inode_idx = inode_idx; offset = 0; mode = mode; active = true }) v,
  )
]

unfoldable pub open_path : List ℕ → ℕ → Vfs → Option ℕ × Vfs
open_path path mode v = elim (path_lookup path v) [
  | none ↦ (none, v)
  | some dentry_idx ↦ elim (get_dentry dentry_idx v) [
    | none ↦ (none, v)
    | some d ↦ elim (get_inode d.inode_idx v) [
      | none ↦ (none, v)
      | some i ↦ open_inode d.inode_idx mode v
    ]
  ]
]

-- The test with which `read`, `write` and `seek` refuse a descriptor.
abbrev pub is_closed : ℕ → Vfs → Bool
is_closed fd v = leb max_open_files fd || not (open_file v fd).active

abbrev pub is_missing : ℕ → Vfs → Bool
is_missing idx v = leb max_inodes idx || not (inode v idx).active

-- `if n > 0 { FILES[fd].offset += n }`
unfoldable pub advance : ℕ → Isize → Vfs → Vfs
advance fd minus_one v = v
advance fd (bytes n) v =
    let f = open_file v fd in
    if ltb 0 n then put_file fd (record f { offset = add_usize f.offset n }) v else v

unfoldable pub call_read : Operation → ℕ → ℕ → List ℕ → Vfs → Isize × List ℕ
call_read null_op inode_idx offset buf v = (bytes 0, buf)
call_read ramfs_op inode_idx offset buf v = ramfs_read inode_idx offset buf v

unfoldable pub call_write : Operation → ℕ → ℕ → List ℕ → Vfs → Option (Isize × Vfs)
call_write null_op inode_idx offset src v = some (bytes 0, v)
call_write ramfs_op inode_idx offset src v = ramfs_write inode_idx offset src v

unfoldable pub read : ℕ → List ℕ → Vfs → Isize × List ℕ × Vfs
read fd buf v =
    let f = open_file v fd in
    if is_closed fd v || is_missing f.inode_idx v
    then (minus_one, buf, v)
    else let (n, buf') = call_read (inode v f.inode_idx).file_ops.read f.inode_idx f.offset buf v in
      (n, buf', advance fd n v)

unfoldable pub write : ℕ → List ℕ → Vfs → Option (Isize × Vfs)
write fd src v =
    let f = open_file v fd in
    if is_closed fd v || is_missing f.inode_idx v
    then some (minus_one, v)
    else Option.map (λ (r : Isize × Vfs). (r.0, advance fd r.0 r.1))
        (call_write (inode v f.inode_idx).file_ops.write f.inode_idx f.offset src v)

unfoldable pub close : ℕ → Vfs → Vfs
close fd v =
    if ltb fd max_open_files then put_file fd (record (open_file v fd) { active = false }) v else v

unfoldable pub seek : ℕ → ℕ → Vfs → Bool × Vfs
seek fd offset v =
    if is_closed fd v
    then (false, v)
    else (true, put_file fd (record (open_file v fd) { offset = offset }) v)

unfoldable pub call_create : Operation → ℕ → List ℕ → InodeType → Vfs → Option (Option ℕ × Vfs)
call_create null_op inode_idx name itype v = some (none, v)
call_create ramfs_op inode_idx name itype v = ramfs_create inode_idx name itype v

unfoldable pub create : List ℕ → List ℕ → InodeType → Vfs → Option (Option ℕ × Vfs)
create parent_path name itype v = elim (path_lookup parent_path v) [
  | none ↦ some (none, v)
  | some dentry_idx ↦ elim (get_dentry dentry_idx v) [
    | none ↦ some (none, v)
    | some d ↦ elim (get_inode d.inode_idx v) [
      | none ↦ some (none, v)
      | some i ↦
          if not (is_directory i.itype)
          then some (none, v)
          else call_create i.inode_ops.create d.inode_idx name itype v
    ]
  ]
]

unfoldable pub init : Vfs → Option Vfs
init v = Mount.init v
