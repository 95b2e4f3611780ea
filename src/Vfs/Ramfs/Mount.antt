-- ===== src/Vfs/Ramfs/Mount.antt =====
-- The set-up of the root file system in kernel/src/vfs/ramfs.rs.

use nonameos.Prelude.{ℕ, true, List, [], ◌∷◌, Option, none, some, copy_prefix}
use nonameos.Vfs.{InodeType, ramfs_op, Vfs, alloc_superblock, get_superblock, alloc_dentry}
use nonameos.Vfs.Ramfs.{put_superblock, ramfs_alloc_inode, place_dentry}

unfoldable pub create_subdir : ℕ → ℕ → List ℕ → Vfs → Vfs
create_subdir parent_dentry_idx sb_idx name v =
    let (created, v1) = ramfs_alloc_inode sb_idx InodeType.directory v in
    elim created [
      | none ↦ v1
      | some idx ↦ (place_dentry name idx (some parent_dentry_idx) sb_idx v1).1
    ]

unfoldable pub create_subdirs : ℕ → ℕ → List (List ℕ) → Vfs → Vfs
create_subdirs parent_dentry_idx sb_idx [] v = v
create_subdirs parent_dentry_idx sb_idx (name ∷ names) v =
    create_subdirs parent_dentry_idx sb_idx names (create_subdir parent_dentry_idx sb_idx name v)

-- `dev`, `sys`, `proc`, `mnt`, `tmp` and `drives`.
abbrev pub base_directories : List (List ℕ)
base_directories =
    (100 ∷ 101 ∷ 118 ∷ [])
    ∷ (115 ∷ 121 ∷ 115 ∷ [])
    ∷ (112 ∷ 114 ∷ 111 ∷ 99 ∷ [])
    ∷ (109 ∷ 110 ∷ 116 ∷ [])
    ∷ (116 ∷ 109 ∷ 112 ∷ [])
    ∷ (100 ∷ 114 ∷ 105 ∷ 118 ∷ 101 ∷ 115 ∷ [])
    ∷ []

-- `init` from its third step on.
unfoldable pub init_tree : ℕ → ℕ → Vfs → Vfs
init_tree sb_idx root_inode_idx v = elim (alloc_dentry v) [
  | none ↦ v
  | some root ↦
      create_subdirs root sb_idx base_directories
        (place_dentry (47 ∷ []) root_inode_idx none sb_idx v).1
]

unfoldable pub init_root : ℕ → Vfs → Vfs
init_root sb_idx v =
    let (created, v1) = ramfs_alloc_inode sb_idx InodeType.directory v in
    elim created [
      | none ↦ v1
      | some idx ↦ elim (get_superblock sb_idx v1) [
        | none ↦ init_tree sb_idx idx v1
        | some s ↦ init_tree sb_idx idx (put_superblock sb_idx (record s { root_inode = idx }) v1)
      ]
    ]

-- `ramfs`, as bytes.
abbrev pub ramfs_name : List ℕ
ramfs_name = 114 ∷ 97 ∷ 109 ∷ 102 ∷ 115 ∷ []

unfoldable pub init : Vfs → Option Vfs
init v = elim (alloc_superblock v) [
  | none ↦ some v
  | some sb_idx ↦ elim (get_superblock sb_idx v) [
    | none ↦ none
    | some s ↦ some (
        init_root sb_idx (
          put_superblock sb_idx
            (record s {
              fs_type = copy_prefix ramfs_name s.fs_type;
              fs_type_len = 5;
              active = true;
              ops = record { alloc_inode = ramfs_op; free_inode = ramfs_op };
            })
            v))
  ]
]
