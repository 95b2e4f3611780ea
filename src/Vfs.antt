-- ===== src/Vfs.antt =====
-- kernel/src/vfs/mod.rs: the tables of the virtual file system, their slots, and path lookup.
-- A table index is below the table's size wherever the code reads; a read elsewhere gives an empty
-- entry here.
pub mod Ramfs
pub mod Api
pub mod Path
pub mod Creation
pub mod Contents
pub mod Transfer
pub mod RoundTrip
pub mod Seeking
mod Tests
use nonameos.Prelude.{
  ℕ, zero, suc, ◌+◌, ◌-◌, min, Bool, true, false, not, ◌&&◌, ◌||◌, List, [], ◌∷◌, Option, none,
  some, length, get_or, set, take, drop, replicate, copy_prefix, bytes_eq, ltb, ◌==◌, if◌then◌else◌,
  add_usize,
}
use nonameos.Prelude.Find.{find_index}
use nonameos.Memory.Phys
use nonameos.Memory.Phys.{Phys}

pub data InodeType : Type 0 where
  file directory symlink device pipe : InodeType

unfoldable pub is_file : InodeType → Bool
is_file InodeType.file = true
is_file _ = false

unfoldable pub is_directory : InodeType → Bool
is_directory InodeType.directory = true
is_directory _ = false

abbrev pub max_superblocks : ℕ
max_superblocks = 8

abbrev pub max_inodes : ℕ
max_inodes = 256

abbrev pub max_dentries : ℕ
max_dentries = 256

abbrev pub max_open_files : ℕ
max_open_files = 128

abbrev pub max_name_len : ℕ
max_name_len = 64

-- A function pointer of an operation table: the stub, or the function of ramfs.
pub data Operation : Type 0 where
  null_op ramfs_op : Operation

pub record SuperOps : Type 0 where
  pub alloc_inode : Operation
  pub free_inode : Operation

pub record InodeOps : Type 0 where
  pub lookup : Operation
  pub create : Operation

pub record FileOps : Type 0 where
  pub read : Operation
  pub write : Operation

abbrev pub null_inode_ops : InodeOps
null_inode_ops = record { lookup = null_op; create = null_op }

abbrev pub null_file_ops : FileOps
null_file_ops = record { read = null_op; write = null_op }

pub record Superblock : Type 0 where
  pub fs_type : List ℕ
  pub fs_type_len : ℕ
  pub active : Bool
  pub root_inode : ℕ
  pub ops : SuperOps

abbrev pub empty_superblock : Superblock
empty_superblock = record {
  fs_type = replicate 16 0;
  fs_type_len = 0;
  active = false;
  root_inode = 0;
  ops = record { alloc_inode = null_op; free_inode = null_op };
}

pub record Inode : Type 0 where
  pub ino : ℕ
  pub itype : InodeType
  pub size : ℕ
  pub sb_idx : ℕ
  pub active : Bool
  pub nlink : ℕ
  pub inode_ops : InodeOps
  pub file_ops : FileOps
  pub data_page : ℕ
  pub data_size : ℕ

abbrev pub empty_inode : Inode
empty_inode = record {
  ino = 0;
  itype = InodeType.file;
  size = 0;
  sb_idx = 0;
  active = false;
  nlink = 0;
  inode_ops = null_inode_ops;
  file_ops = null_file_ops;
  data_page = 0;
  data_size = 0;
}

-- `parent_idx` is `none` for -1, the only negative value it ever has.
pub record Dentry : Type 0 where
  pub name : List ℕ
  pub name_len : ℕ
  pub inode_idx : ℕ
  pub parent_idx : Option ℕ
  pub active : Bool
  pub sb_idx : ℕ

abbrev pub empty_dentry : Dentry
empty_dentry = record {
  name = replicate max_name_len 0;
  name_len = 0;
  inode_idx = 0;
  parent_idx = none;
  active = false;
  sb_idx = 0;
}

-- `Dentry::set_name`
unfoldable pub set_name : List ℕ → Dentry → Dentry
set_name n d =
    let len = min (length n) (max_name_len - 1) in
    record d { name = set (copy_prefix (take len n) d.name) len 0; name_len = len }

-- `Dentry::name_eq`
abbrev pub name_eq : List ℕ → Dentry → Bool
name_eq n d = (d.name_len == length n) && bytes_eq (take d.name_len d.name) n

pub record File : Type 0 where
  pub inode_idx : ℕ
  pub offset : ℕ
  pub mode : ℕ
  pub active : Bool

abbrev pub empty_file : File
empty_file = record { inode_idx = 0; offset = 0; mode = 0; active = false }

-- The statics of the module, with the frame allocator and the bytes of physical memory, which ramfs
-- reaches by address.
pub record Vfs : Type 0 where
  pub superblocks : List Superblock
  pub inodes : List Inode
  pub dentries : List Dentry
  pub files : List File
  pub next_ino : ℕ
  pub phys : Phys
  pub mem : ℕ → ℕ

unfoldable pub boot : Phys → (ℕ → ℕ) → Vfs
boot phys mem = record {
  superblocks = replicate max_superblocks empty_superblock;
  inodes = replicate max_inodes empty_inode;
  dentries = replicate max_dentries empty_dentry;
  files = replicate max_open_files empty_file;
  next_ino = 1;
  phys = phys;
  mem = mem;
}

abbrev pub inode : Vfs → ℕ → Inode
inode v i = get_or v.inodes i empty_inode

abbrev pub dentry : Vfs → ℕ → Dentry
dentry v i = get_or v.dentries i empty_dentry

abbrev pub open_file : Vfs → ℕ → File
open_file v fd = get_or v.files fd empty_file

unfoldable pub alloc_superblock : Vfs → Option ℕ
alloc_superblock v = find_index (λ (s : Superblock). not s.active) v.superblocks

-- `get_superblock` and `get_superblock_mut`, and so on for the other tables.
unfoldable pub get_superblock : ℕ → Vfs → Option Superblock
get_superblock idx v =
    let s = get_or v.superblocks idx empty_superblock in
    if ltb idx max_superblocks && s.active then some s else none

unfoldable pub alloc_inode_slot : Vfs → Option ℕ × Vfs
alloc_inode_slot v = elim (find_index (λ (i : Inode). not i.active) v.inodes) [
  | none ↦ (none, v)
  | some i ↦ (
    some i,
    record v {
      inodes = set v.inodes i (record (inode v i) { active = true; ino = v.next_ino });
      next_ino = add_usize v.next_ino 1;
    },
  )
]

unfoldable pub get_inode : ℕ → Vfs → Option Inode
get_inode idx v = if ltb idx max_inodes && (inode v idx).active then some (inode v idx) else none

unfoldable pub alloc_dentry : Vfs → Option ℕ
alloc_dentry v = find_index (λ (d : Dentry). not d.active) v.dentries

unfoldable pub get_dentry : ℕ → Vfs → Option Dentry
get_dentry idx v =
    if ltb idx max_dentries && (dentry v idx).active then some (dentry v idx) else none

-- `None` for no parent never equals an index.
abbrev pub has_parent : ℕ → Dentry → Bool
has_parent idx d = elim d.parent_idx [ none ↦ false | some p ↦ p == idx ]

unfoldable pub find_child_dentry : ℕ → List ℕ → Vfs → Option ℕ
find_child_dentry parent name v =
    find_index (λ (d : Dentry). d.active && has_parent parent d && name_eq name d) v.dentries

-- `/`
abbrev pub slash : ℕ
slash = 47

-- `path[pos..end]`, for the loop that moves `end` to the next `/`.
unfoldable pub component : List ℕ → List ℕ
component [] = []
component (c ∷ cs) = if c == slash then [] else c ∷ component cs

-- The loop of `path_lookup` on `path[pos..]`, with `fuel` rounds left.
unfoldable pub lookup_from : ℕ → List ℕ → ℕ → Vfs → Option ℕ
lookup_from zero rest current v = some current
lookup_from (suc fuel) [] current v = some current
lookup_from (suc fuel) (c ∷ cs) current v = elim (component (c ∷ cs)) [
  | [] ↦ lookup_from fuel cs current v
  | x ∷ xs ↦ elim (find_child_dentry current (x ∷ xs) v) [
    | none ↦ none
    | some child ↦ lookup_from fuel (drop (length (x ∷ xs) + 1) (c ∷ cs)) child v
  ]
]

-- Every round drops a byte, so the length of the path is fuel enough.
unfoldable pub path_lookup : List ℕ → Vfs → Option ℕ
path_lookup [] v = none
path_lookup (c ∷ cs) v =
    let rest = if c == slash then cs else c ∷ cs in lookup_from (length rest) rest 0 v
