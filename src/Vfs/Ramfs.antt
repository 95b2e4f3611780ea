-- ===== src/Vfs/Ramfs.antt =====
-- kernel/src/vfs/ramfs.rs: files of one page each, in physical memory.
-- `none` is a panic: in the frame allocator, or in an `unwrap`.
pub mod Mount
use mathlib.Core.Option
use nonameos.Prelude.{
  ℕ, zero, suc, ◌+◌, ◌-◌, min, true, false, not, ◌&&◌, List, [], ◌∷◌, Option, none, some, ◌>>=◌,
  length, get_or, set, take, copy_prefix, ltb, leb, ◌==◌, if◌then◌else◌, add_usize,
}
use nonameos.Prelude.Find.{find_index}
use nonameos.Memory.{page_size}
use nonameos.Memory.Phys
use nonameos.Vfs.{
  InodeType, is_file, ramfs_op, null_inode_ops, null_file_ops, Superblock, Inode, Dentry, Vfs,
  set_name, name_eq, has_parent, alloc_superblock, get_superblock, alloc_inode_slot, get_inode,
  alloc_dentry, get_dentry,
}

abbrev pub put_inode : ℕ → Inode → Vfs → Vfs
put_inode idx i v = record v { inodes = set v.inodes idx i }

abbrev pub put_dentry : ℕ → Dentry → Vfs → Vfs
put_dentry idx d v = record v { dentries = set v.dentries idx d }

abbrev pub put_superblock : ℕ → Superblock → Vfs → Vfs
put_superblock idx s v = record v { superblocks = set v.superblocks idx s }

-- The operations of a new inode. Other types keep those that are in the slot.
unfoldable pub with_operations : InodeType → Inode → Inode
with_operations InodeType.directory i = record i {
  inode_ops = record { lookup = ramfs_op; create = ramfs_op };
  file_ops = null_file_ops;
}
with_operations InodeType.file i = record i {
  inode_ops = null_inode_ops;
  file_ops = record { read = ramfs_op; write = ramfs_op };
}
with_operations _ i = i

unfoldable pub ramfs_alloc_inode : ℕ → InodeType → Vfs → Option ℕ × Vfs
ramfs_alloc_inode sb_idx itype v =
    let (slot, v') = alloc_inode_slot v in
    elim slot [
      | none ↦ (none, v')
      | some idx ↦ elim (get_inode idx v') [
        | none ↦ (none, v')
        | some i ↦ (
          some idx,
          put_inode idx
              (with_operations itype (record i {
                itype = itype;
                size = 0;
                sb_idx = sb_idx;
                nlink = 1;
                data_page = 0;
                data_size = 0;
              }))
              v',
        )
      ]
    ]

unfoldable pub ramfs_free_inode : ℕ → Vfs → Option Vfs
ramfs_free_inode inode_idx v = elim (get_inode inode_idx v) [
  | none ↦ some v
  | some i ↦
      if i.data_page == 0
      then some (put_inode inode_idx (record i { active = false }) v)
      else Option.map
          (λ p. record (put_inode inode_idx (record i { data_page = 0; active = false }) v) {
            phys = p;
          })
          (Phys.free_frame i.data_page v.phys)
]

-- The first active dentry of an inode, and the first child of a dentry with a name.
abbrev pub dentry_of : ℕ → Vfs → Option ℕ
dentry_of inode_idx v =
    find_index (λ (d : Dentry). d.active && (d.inode_idx == inode_idx)) v.dentries

unfoldable pub ramfs_lookup : ℕ → List ℕ → Vfs → Option ℕ
ramfs_lookup dir_inode_idx name v = do
  parent_idx ← dentry_of dir_inode_idx v
  find_index (λ (d : Dentry). d.active && has_parent parent_idx d && name_eq name d) v.dentries

-- `write_bytes(addr, 0, len)` and `copy_nonoverlapping(src, addr, len)` on memory.
abbrev pub zero_bytes : (ℕ → ℕ) → ℕ → ℕ → ℕ → ℕ
zero_bytes mem addr len a = if leb addr a && ltb a (addr + len) then 0 else mem a

abbrev pub copy_bytes : (ℕ → ℕ) → ℕ → List ℕ → ℕ → ℕ
copy_bytes mem addr src a =
    if leb addr a && ltb a (addr + length src) then get_or src (a - addr) 0 else mem a

abbrev pub read_bytes : (ℕ → ℕ) → ℕ → ℕ → List ℕ
read_bytes mem addr zero = []
read_bytes mem addr (suc n) = mem addr ∷ read_bytes mem (addr + 1) n

-- A frame from the allocator, filled with zeros.
unfoldable pub zeroed_page : Vfs → Option (Option ℕ × Vfs)
zeroed_page v = do
  (page, p) ← Phys.alloc_frame v.phys
  some (elim page [
    | none ↦ (none, record v { phys = p })
    | some addr ↦ (some addr, record v { phys = p; mem = zero_bytes v.mem addr page_size })
  ])

-- `if let Some(inode) = get_inode_mut(idx) { inode.data_page = page; }`
unfoldable pub set_page : ℕ → ℕ → Vfs → Vfs
set_page idx page v = elim (get_inode idx v) [
  | none ↦ v
  | some i ↦ put_inode idx (record i { data_page = page }) v
]

-- The data page of a new file. Without a free frame the file starts without one.
unfoldable pub give_page : ℕ → InodeType → Vfs → Option Vfs
give_page idx itype v = if not (is_file itype) then some v else do
  (page, v') ← zeroed_page v
  some (elim page [ none ↦ v' | some addr ↦ set_page idx addr v' ])

-- A new dentry, as `ramfs_create`, `init` and `create_subdir` make one.
unfoldable pub place_dentry : List ℕ → ℕ → Option ℕ → ℕ → Vfs → Option ℕ × Vfs
place_dentry name inode_idx parent_idx sb_idx v = elim (alloc_dentry v) [
  | none ↦ (none, v)
  | some idx ↦ elim (get_dentry idx v) [
    | none ↦ (none, v)
    | some d ↦ (
      some idx,
      put_dentry idx
          (record (set_name name d) {
            inode_idx = inode_idx;
            parent_idx = parent_idx;
            active = true;
            sb_idx = sb_idx;
          })
          v,
    )
  ]
]

unfoldable pub ramfs_create : ℕ → List ℕ → InodeType → Vfs → Option (Option ℕ × Vfs)
ramfs_create dir_inode_idx name itype v = elim (get_inode dir_inode_idx v) [
  | none ↦ some (none, v)
  | some dir ↦
      let (created, v1) = ramfs_alloc_inode dir.sb_idx itype v in
      elim created [
        | none ↦ some (none, v1)
        | some idx ↦
            Option.map (λ v2. place_dentry name idx (dentry_of dir_inode_idx v2) dir.sb_idx v2)
              (give_page idx itype v1)
      ]
]

-- An `isize` that the code returns.
pub data Isize : Type 0 where
  minus_one : Isize
  bytes : ℕ → Isize

-- The count, and the buffer that is read into.
unfoldable pub ramfs_read : ℕ → ℕ → List ℕ → Vfs → Isize × List ℕ
ramfs_read inode_idx offset buf v = elim (get_inode inode_idx v) [
  | none ↦ (minus_one, buf)
  | some i ↦
      if i.data_page == 0
      then (bytes 0, buf)
      else if leb i.data_size offset
      then (bytes 0, buf)
      else let to_read = min (length buf) (i.data_size - offset) in
        (bytes to_read, copy_prefix (read_bytes v.mem (add_usize i.data_page offset) to_read) buf)
]

-- `ramfs_write` once the inode has a page.
unfoldable pub write_page : ℕ → ℕ → List ℕ → Inode → Vfs → Isize × Vfs
write_page inode_idx offset src i v =
    if leb page_size offset
    then (bytes 0, put_inode inode_idx i v)
    else let to_write = min (length src) (page_size - offset) in
      let new_end = add_usize offset to_write in
      let mem = copy_bytes v.mem (add_usize i.data_page offset) (take to_write src) in
      let i' =
        if ltb i.data_size new_end then record i { data_size = new_end; size = new_end } else i in
      (bytes to_write, record (put_inode inode_idx i' v) { mem = mem })

unfoldable pub ramfs_write : ℕ → ℕ → List ℕ → Vfs → Option (Isize × Vfs)
ramfs_write inode_idx offset src v = elim (get_inode inode_idx v) [
  | none ↦ some (minus_one, v)
  | some i ↦
      if not (i.data_page == 0)
      then some (write_page inode_idx offset src i v)
      else Option.map
          (λ (r : Option ℕ × Vfs). elim r.0 [
            | none ↦ (minus_one, r.1)
            | some page ↦ write_page inode_idx offset src (record i { data_page = page }) r.1
          ])
          (zeroed_page v)
]
