-- ===== src/Syscall/Standard.antt =====
-- The descriptors 0 and 1 in kernel/src/syscall.rs, which stand for the keyboard and the screen.
use nonameos.Prelude.{
  ℕ, ◌≡◌, refl, ap, ◌⊎◌, false, List, ◌∷◌, Option, none, some, Option-cases, inl, inr, ◌^◌, ◌%◌,
}
use nonameos.Prelude.Find.{find_index}
use nonameos.Vfs.{Vfs, File, get_dentry, get_inode, path_lookup}
use nonameos.Vfs.Api.{open_path, open_inode}
use nonameos.Syscall.{Kernel, failure, number_or_failure, c_string, sys_open, sys_read}

-- While the first slot is free, a file that is opened gets descriptor 0.
abbrev IsFirst : Option ℕ → Type 0
IsFirst fd = (fd ≡ none) ⊎ (fd ≡ some 0)

open_inode-IsFirst :
    (f : File) (files : List File) (idx mode : ℕ) (v : Vfs)
    → v.files ≡ f ∷ files
    → f.active ≡ false
    → IsFirst (open_inode idx mode v).0
unfolding open_inode find_index
open_inode-IsFirst f files idx mode v e free = inr (rw (open_inode, e, free))

open_path-IsFirst :
    (f : File) (files : List File) (path : List ℕ) (mode : ℕ) (v : Vfs)
    → v.files ≡ f ∷ files
    → f.active ≡ false
    → IsFirst (open_path path mode v).0
unfolding open_path
open_path-IsFirst f files path mode v e free = elim (Option-cases (path_lookup path v)) [
  | inl lost ↦ inl (rw (open_path, lost))
  | inr (d, found) ↦ elim (Option-cases (get_dentry d v)) [
    | inl lost ↦ inl (rw (open_path, found, lost))
    | inr (dentry, named) ↦ elim (Option-cases (get_inode dentry.inode_idx v)) [
      | inl lost ↦ inl (rw (open_path, found, named, lost))
      | inr (i, there) ↦
          rw (open_path, found, named, there)
            (open_inode-IsFirst f files dentry.inode_idx mode v e free)
    ]
  ]
]

first_number :
    (fd : Option ℕ) → IsFirst fd → (number_or_failure fd ≡ failure) ⊎ (number_or_failure fd ≡ 0)
first_number fd (inl refused) = inl (ap number_or_failure refused)
first_number fd (inr first) = inr (ap number_or_failure first)

sys_read_standard : (fd buf_ptr len : ℕ) (k : Kernel) → fd ≡ 0 → sys_read fd buf_ptr len k ≡ (0, k)
unfolding sys_read
sys_read_standard fd buf_ptr len k e = rw (e) refl

sys_open_first :
    (k : Kernel) (f : File) (files : List File) (path_ptr flags : ℕ)
    → k.fs.files ≡ f ∷ files
    → f.active ≡ false
    → ((sys_open path_ptr flags k).0 ≡ failure) ⊎ ((sys_open path_ptr flags k).0 ≡ 0)
unfolding sys_open
sys_open_first k f files path_ptr flags e free =
    let path = c_string 255 path_ptr k in
    let mode = flags % 2 ^ 32 in
    first_number (open_path path mode k.fs).0 (open_path-IsFirst f files path mode k.fs e free)

-- While the first slot for open files is free, `sys_open` fails or returns 0; and `sys_read` with
-- the descriptor that it returned then reads nothing, whatever the file holds.
pub sys_open-sys_read :
    (k : Kernel) (f : File) (files : List File) (path_ptr flags : ℕ)
    → k.fs.files ≡ f ∷ files
    → f.active ≡ false
    → ((sys_open path_ptr flags k).0 ≡ failure)
      ⊎ (((sys_open path_ptr flags k).0 ≡ 0)
          × ((buf_ptr len : ℕ)
              → sys_read (sys_open path_ptr flags k).0 buf_ptr len (sys_open path_ptr flags k).1
                ≡ (0, (sys_open path_ptr flags k).1)))
sys_open-sys_read k f files path_ptr flags e free =
    elim (sys_open_first k f files path_ptr flags e free) [
      | inl refused ↦ inl refused
      | inr first ↦ inr (first, λ buf_ptr len. sys_read_standard _ buf_ptr len _ first)
    ]
