-- ===== src/Vfs/Tests.antt =====
-- A small tree: `/tmp/a`.
use nonameos.Prelude.{ℕ, ◌≡◌, arith, refl, true, List, [], ◌∷◌, some, replicate}
use nonameos.Prelude.Find.{find_index}
use nonameos.Memory.Phys
use nonameos.Vfs.{
  InodeType, Dentry, Vfs, Inode, empty_inode, empty_file, ramfs_op, boot, empty_dentry, path_lookup,
  lookup_from, component, find_child_dentry,
}
use nonameos.Vfs.Path.{names, resolve, path_lookup-resolve}
use nonameos.Vfs.Creation.{NothingNew, create-NothingNew}
use nonameos.Vfs.Api.{create, write, read, seek}
use nonameos.Vfs.Ramfs.{bytes}
use nonameos.Vfs.Contents.{IsStored, written}
use nonameos.Vfs.Transfer.{IsOpen}
use nonameos.Vfs.RoundTrip.{Wrote, write-Wrote}
use nonameos.Vfs.Seeking.{ReadsBack, write-seek-read}

abbrev named : List ℕ → ℕ → ℕ → Dentry
named name inode_idx parent = record empty_dentry {
  name = name;
  name_len = 3;
  inode_idx = inode_idx;
  parent_idx = some parent;
  active = true;
}

abbrev tmp : List ℕ
tmp = 116 ∷ 109 ∷ 112 ∷ []

abbrev tree : Vfs
tree = record (boot Phys.boot (λ a. 0)) {
  dentries =
      record empty_dentry { active = true }
      ∷ named tmp 1 0
      ∷ named (97 ∷ 97 ∷ 97 ∷ []) 2 1
      ∷ replicate 253 empty_dentry;
}

-- `//tmp/aaa/`
abbrev path : List ℕ
path = 47 ∷ 47 ∷ 116 ∷ 109 ∷ 112 ∷ 47 ∷ 97 ∷ 97 ∷ 97 ∷ 47 ∷ []

found : path_lookup path tree ≡ some 2
unfolding path_lookup lookup_from component find_child_dentry find_index
found = refl

path_lookup-resolve_example : path_lookup path tree ≡ resolve (names path) 0 tree
path_lookup-resolve_example =
    path_lookup-resolve 47 (47 ∷ 116 ∷ 109 ∷ 112 ∷ 47 ∷ 97 ∷ 97 ∷ 97 ∷ 47 ∷ []) tree

create-NothingNew_example : NothingNew tree (create path tmp InodeType.file tree)
create-NothingNew_example = create-NothingNew tree path tmp InodeType.file

-- A file of 3 bytes in the page at 3 MiB, open at offset 2.
abbrev stored : Inode
stored = record empty_inode {
  active = true;
  file_ops = record { read = ramfs_op; write = ramfs_op };
  data_page = 0x300000;
  data_size = 3;
  size = 3;
}

abbrev open_state : Vfs
open_state = record tree {
  inodes = stored ∷ replicate 255 empty_inode;
  files = record { inode_idx = 0; offset = 2; mode = 0; active = true } ∷ replicate 127 empty_file;
}

stored-IsStored : IsStored open_state.mem stored
unfolding boot
stored-IsStored = record { space = omega arith; size = omega arith; rest = λ a low high. refl }

open-IsOpen : IsOpen open_state 0
open-IsOpen = record {
  files = refl;
  inodes = refl;
  fd_within = omega arith;
  active = refl;
  idx_within = omega arith;
  linked = refl;
  reads = refl;
  writes = refl;
  page = refl;
  stored = stored-IsStored;
}

write-Wrote_example :
    (q : Vfs) × (write 0 (7 ∷ 8 ∷ []) open_state ≡ some (bytes (written 2 2), q))
    × Wrote open_state 0 (7 ∷ 8 ∷ []) (written 2 2) q
write-Wrote_example = write-Wrote open_state 0 open-IsOpen (7 ∷ 8 ∷ [])

write-seek-read_example :
    (q : Vfs) × (write 0 (7 ∷ 8 ∷ []) open_state ≡ some (bytes 2, q))
    × ReadsBack (7 ∷ 8 ∷ []) (read 0 (0 ∷ 0 ∷ []) (seek 0 2 q).1)
write-seek-read_example =
    write-seek-read open_state 0 (7 ∷ 8 ∷ []) (0 ∷ 0 ∷ []) open-IsOpen (omega arith) refl
