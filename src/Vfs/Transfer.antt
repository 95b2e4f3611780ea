-- ===== src/Vfs/Transfer.antt =====
-- `write`, `seek` and `read` on an open file of ramfs that has its page.

use nonameos.Prelude.{
  ℕ, ◌+◌, ◌-◌, ◌≤◌, ◌<◌, ◌≡◌, refl, sym, ap, ◌∙◌, subst, true, false, ◌&&◌, List, some, arith,
  length, get_or, set, get_or-set_self, length-set, ltb, leb, ◌==◌, if◌then◌else◌, add_usize,
  usize_mod, inl, inr, Bool-cases,
}
use nonameos.Memory.{page_size}
use nonameos.Vfs.{
  Inode, Vfs, inode, empty_inode, empty_file, open_file, get_inode, max_inodes, max_open_files,
  ramfs_op, File, FileOps,
}
use nonameos.Vfs.Ramfs.{put_inode, Isize, bytes, write_page, ramfs_write}
use nonameos.Vfs.Api.{write, advance, call_write}
use nonameos.Vfs.Contents.{
  byte_of, IsStored, amount, after, grown, grown-byte, grown-IsStored, amount_lem, grown-size,
  grown-active, grown-file_ops, grown-page, write_page-near,
}

-- The descriptor `fd` is open on a file of ramfs, whose bytes are in a page.
pub record IsOpen (v : Vfs) (fd : ℕ) : Type 0 where
  pub files : length v.files ≡ max_open_files
  pub inodes : length v.inodes ≡ max_inodes
  pub fd_within : fd < max_open_files
  pub active : (open_file v fd).active ≡ true
  pub idx_within : (open_file v fd).inode_idx < max_inodes
  pub linked : (inode v (open_file v fd).inode_idx).active ≡ true
  pub reads : (inode v (open_file v fd).inode_idx).file_ops.read ≡ ramfs_op
  pub writes : (inode v (open_file v fd).inode_idx).file_ops.write ≡ ramfs_op
  pub page : ((inode v (open_file v fd).inode_idx).data_page == 0) ≡ false
  pub stored : IsStored v.mem (inode v (open_file v fd).inode_idx)

-- The byte of the open file at `a`, and where the next transfer starts.
abbrev pub byte : Vfs → ℕ → ℕ → ℕ
byte v fd a = byte_of v.mem (inode v (open_file v fd).inode_idx) a

abbrev pub offset : Vfs → ℕ → ℕ
offset v fd = (open_file v fd).offset

-- `q` is `v` but for the offset of `fd`, which is `n` further on.
pub record Advanced (v : Vfs) (fd n : ℕ) (q : Vfs) : Type 0 where
  pub files : length q.files ≡ length v.files
  pub inodes : q.inodes ≡ v.inodes
  pub mem : q.mem ≡ v.mem
  pub inode_idx : (open_file q fd).inode_idx ≡ (open_file v fd).inode_idx
  pub active : (open_file q fd).active ≡ (open_file v fd).active
  pub offset : offset q fd ≡ offset v fd + n

pub advance-Advanced :
    (v : Vfs) (fd n : ℕ)
    → fd < length v.files
    → offset v fd + n < usize_mod
    → Advanced v fd n (advance fd (bytes n) v)
unfolding advance
advance-Advanced v fd n lt fits = elim (Bool-cases (ltb 0 n)) [
  | inl some_read ↦
      rw (advance, some_read)
        (record {
          files = length-set v.files fd _;
          inodes = refl;
          mem = refl;
          inode_idx = ap (λ (f : File). f.inode_idx) (here (add_usize (offset v fd) n));
          active = ap (λ (f : File). f.active) (here (add_usize (offset v fd) n));
          offset =
              ap (λ (f : File). f.offset) (here (add_usize (offset v fd) n)) ∙ omega (arith, fits);
        })
  | inr nothing ↦
      rw (advance, nothing)
        (record {
          files = refl;
          inodes = refl;
          mem = refl;
          inode_idx = refl;
          active = refl;
          offset = ground (arith, nothing);
        })
]
  where
    here :
        (k : ℕ)
        → get_or (set v.files fd (record (open_file v fd) { offset = k })) fd empty_file
          ≡ record (open_file v fd) { offset = k }
    here k = get_or-set_self v.files fd (record (open_file v fd) { offset = k }) empty_file lt

module _ (v : Vfs) (fd : ℕ) (o : IsOpen v fd) where
  abbrev pub idx : ℕ
  idx = (open_file v fd).inode_idx

  pub inode_there : get_inode idx v ≡ some (inode v idx)
  unfolding get_inode
  inode_there = ground (arith, o.idx_within, o.linked)

  pub write_on :
      (src : List ℕ)
      → write fd src v
        ≡ some (
          (write_page idx (offset v fd) src (inode v idx) v).0,
          advance fd
              (write_page idx (offset v fd) src (inode v idx) v).0
              (write_page idx (offset v fd) src (inode v idx) v).1,
        )
  unfolding write call_write ramfs_write
  write_on src =
      rw
        (
          write, o.active, closed, o.linked, missing, o.writes, call_write, ramfs_write,
          inode_there, o.page,
        )
        refl
    where
      closed : leb max_open_files fd ≡ false
      closed = ground (arith, o.fd_within)

      missing : leb max_inodes idx ≡ false
      missing = ground (arith, o.idx_within)

  module _ (src : List ℕ) (near : offset v fd < page_size) where
    abbrev pub file : Inode
    file = inode v idx

    abbrev pub result : Vfs
    result = record (put_inode idx (grown v.mem file o.stored (offset v fd) src near) v) {
      mem = after v.mem file o.stored (offset v fd) src near;
    }

    abbrev pub taken : ℕ
    taken = amount v.mem file o.stored (offset v fd) src near

    pub written_on : write fd src v ≡ some (bytes taken, advance fd (bytes taken) result)
    written_on =
        write_on src
        ∙ ap (λ (r : Isize × Vfs). some (r.0, advance fd r.0 r.1))
            (write_page-near v idx file o.stored (offset v fd) src near)

    abbrev pub final : Vfs
    final = advance fd (bytes taken) result

    pub step : Advanced result fd taken final
    step =
        advance-Advanced result fd taken (omega (arith, o.files, o.fd_within))
          (room taken (omega (arith, amount_lem v.mem file o.stored (offset v fd) src near)))
      where
        room : (n : ℕ) → n ≤ page_size → offset v fd + n < usize_mod
        room n le = omega (arith, near)

    inode-result : inode result idx ≡ grown v.mem file o.stored (offset v fd) src near
    inode-result =
        get_or-set_self v.inodes idx _ empty_inode (omega (arith, o.inodes, o.idx_within))

    inode-final :
        inode final (open_file final fd).inode_idx
        ≡ grown v.mem file o.stored (offset v fd) src near
    inode-final =
        ap (λ is. get_or is (open_file final fd).inode_idx empty_inode) step.inodes
        ∙ ap (λ k. get_or result.inodes k empty_inode) step.inode_idx
        ∙ inode-result

    pub final-IsOpen : IsOpen final fd
    final-IsOpen = record {
      files = step.files ∙ o.files;
      inodes =
          ap (λ (is : List Inode). length is) step.inodes ∙ length-set v.inodes idx _ ∙ o.inodes;
      fd_within = o.fd_within;
      active = step.active ∙ o.active;
      idx_within = subst (λ k. k < max_inodes) (sym step.inode_idx) o.idx_within;
      linked =
          ap (λ (i : Inode). i.active) inode-final
          ∙ grown-active v.mem file o.stored (offset v fd) src near
          ∙ o.linked;
      reads =
          ap (λ (i : Inode). i.file_ops.read) inode-final
          ∙ ap (λ (f : FileOps). f.read) (grown-file_ops v.mem file o.stored (offset v fd) src near)
          ∙ o.reads;
      writes =
          ap (λ (i : Inode). i.file_ops.write) inode-final
          ∙ ap (λ (f : FileOps). f.write)
              (grown-file_ops v.mem file o.stored (offset v fd) src near)
          ∙ o.writes;
      page =
          ap (λ (i : Inode). i.data_page == 0) inode-final
          ∙ ap (λ p. p == 0) (grown-page v.mem file o.stored (offset v fd) src near)
          ∙ o.page;
      stored =
          subst (λ m. IsStored m (inode final (open_file final fd).inode_idx)) (sym step.mem)
            (subst (IsStored (after v.mem file o.stored (offset v fd) src near)) (sym inode-final)
              (grown-IsStored v.mem file o.stored (offset v fd) src near));
    }

    pub final-byte :
        (a : ℕ)
        → a < page_size
        → byte final fd a ≡ (
            if leb (offset v fd) a && ltb a (offset v fd + taken)
            then get_or src (a - offset v fd) 0
            else byte v fd a)
    final-byte a lt =
        ap (λ m. byte_of m (inode final (open_file final fd).inode_idx) a) step.mem
        ∙ ap (λ i. byte_of (after v.mem file o.stored (offset v fd) src near) i a) inode-final
        ∙ grown-byte v.mem file o.stored (offset v fd) src near a lt

    pub final-reach : offset v fd + taken ≤ (inode final (open_file final fd).inode_idx).data_size
    final-reach = ground (
      arith,
      ap (λ (i : Inode). i.data_size) inode-final
          ∙ grown-size v.mem file o.stored (offset v fd) src near,
    )
