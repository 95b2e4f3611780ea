-- ===== src/Vfs/RoundTrip.antt =====
-- Writing to a file, going back and reading.
use nonameos.Prelude.{
  ℕ, zero, suc, ◌+◌, ◌-◌, ◌≤◌, ◌<◌, ◌≡◌, refl, sym, ap, ◌∙◌, subst, min, true, false, ◌&&◌, List,
  [], ◌∷◌, ◌++◌, some, arith, length, get_or, set, copy_prefix, length-copy_prefix, ltb, leb,
  if◌then◌else◌, add_usize, inl, inr, Bool-cases,
}
use nonameos.Memory.{page_size}
use nonameos.Vfs.{Vfs, inode, empty_inode, open_file, max_inodes, max_open_files}
use nonameos.Vfs.Ramfs.{put_inode, read_bytes, Isize, bytes, write_page, ramfs_read}
use nonameos.Vfs.Api.{write, read, advance, call_read}
use nonameos.Vfs.Contents.{written, amount_lem}
use nonameos.Vfs.Transfer.{
  IsOpen, byte, offset, idx, inode_there, write_on, file, written_on, final, step, final-IsOpen,
  final-byte, final-reach,
}

-- `write` has put the first `n` bytes of `src` into the file, and left `q`.
pub record Wrote (v : Vfs) (fd : ℕ) (src : List ℕ) (n : ℕ) (q : Vfs) : Type 0 where
  pub still : IsOpen q fd
  pub further : offset q fd ≡ offset v fd + n
  pub reach : 0 < n → offset v fd + n ≤ (inode q (open_file q fd).inode_idx).data_size
  pub content :
      (a : ℕ)
      → a < page_size
      → byte q fd a ≡ (
          if leb (offset v fd) a && ltb a (offset v fd + n)
          then get_or src (a - offset v fd) 0
          else byte v fd a)

set-get_or {ℓ} : {A : Type ℓ} (xs : List A) (i : ℕ) (d : A) → set xs i (get_or xs i d) ≡ xs
set-get_or [] i d = refl
set-get_or (x ∷ xs) zero d = refl
set-get_or (x ∷ xs) (suc i) d = ap (◌∷◌ x) (set-get_or xs i d)

module _ (v : Vfs) (fd : ℕ) (o : IsOpen v fd) (src : List ℕ) where
  abbrev Writable : ℕ → Type 0
  Writable n = (q : Vfs) × (write fd src v ≡ some (bytes n, q)) × Wrote v fd src n q

  near_written : offset v fd < page_size → Writable (written (offset v fd) (length src))
  near_written near =
      subst Writable
        (amount_lem v.mem (file v fd o src near) o.stored (offset v fd) src near ∙ limit near)
        (
          final v fd o src near,
          written_on v fd o src near,
          record {
            still = final-IsOpen v fd o src near;
            further = (step v fd o src near).offset;
            reach = λ some_bytes. final-reach v fd o src near;
            content = final-byte v fd o src near;
          },
        )
    where
      limit :
          offset v fd < page_size
          → min (length src) (page_size - offset v fd) ≡ written (offset v fd) (length src)
      limit near = ground (arith, near)

  same_inode : put_inode (idx v fd o) (inode v (idx v fd o)) v ≡ v
  same_inode = ap (λ is. record v { inodes = is }) (set-get_or v.inodes (idx v fd o) empty_inode)

  beyond :
      page_size ≤ offset v fd
      → write_page (idx v fd o) (offset v fd) src (inode v (idx v fd o)) v ≡ (bytes 0, v)
  unfolding write_page
  beyond far = rw (write_page, past far) (ap (λ q. (bytes 0, q)) same_inode)
    where
      past : page_size ≤ offset v fd → leb page_size (offset v fd) ≡ true
      past far = ground (arith, far)

  far_written : page_size ≤ offset v fd → Writable (written (offset v fd) (length src))
  unfolding advance
  far_written far = subst Writable (none_fit far) (
    v,
    write_on v fd o src ∙ ap (λ (r : Isize × Vfs). some (r.0, advance fd r.0 r.1)) (beyond far),
    record {
      still = o;
      further = omega arith;
      reach = λ none. absurd (omega (arith, none));
      content = λ a lt. ground (arith, far, lt);
    },
  )
    where
      none_fit : page_size ≤ offset v fd → 0 ≡ written (offset v fd) (length src)
      none_fit far = ground (arith, far)

  -- On an open file of ramfs that has its page, `write` takes what fits into the 4096 bytes of the
  -- page and returns how much. It puts these bytes at the offset, moves the offset behind them,
  -- leaves every other byte of the page's file as it was, also where it writes behind the end, and
  -- the file stays open and valid.
  pub write-Wrote :
      (q : Vfs) × (write fd src v ≡ some (bytes (written (offset v fd) (length src)), q))
      × Wrote v fd src (written (offset v fd) (length src)) q
  write-Wrote = elim (Bool-cases (leb page_size (offset v fd))) [
    | inl far ↦ far_written (ground (arith, far))
    | inr near ↦ near_written (ground (arith, near))
  ]

length-read_bytes : (mem : ℕ → ℕ) (addr n : ℕ) → length (read_bytes mem addr n) ≡ n
length-read_bytes mem addr zero = refl
length-read_bytes mem addr (suc n) = ap suc (length-read_bytes mem (addr + 1) n)

get_or-read_bytes :
    (mem : ℕ → ℕ) (addr n k : ℕ) (tail : List ℕ)
    → k < n
    → get_or (read_bytes mem addr n ++ tail) k 0 ≡ mem (addr + k)
get_or-read_bytes mem addr zero k tail lt = absurd (omega arith)
get_or-read_bytes mem addr (suc n) zero tail lt = ap mem (omega arith)
get_or-read_bytes mem addr (suc n) (suc k) tail lt =
    get_or-read_bytes mem (addr + 1) n k tail (omega arith) ∙ ap mem (omega arith)

-- `read` has returned `r` for a buffer of this length: the bytes of the file from the offset on, as
-- many as there are and fit.
pub record Read (v : Vfs) (fd room n : ℕ) (r : Isize × List ℕ × Vfs) : Type 0 where
  pub count : r.0 ≡ bytes n
  pub size : length r.1 ≡ room
  pub content : (k : ℕ) → k < n → get_or r.1 k 0 ≡ byte v fd (offset v fd + k)

module _ (v : Vfs) (fd : ℕ) (o : IsOpen v fd) (buf : List ℕ) where
  -- How many bytes there are and fit.
  abbrev pub readable : ℕ
  readable = min (length buf) ((inode v (idx v fd o)).data_size - offset v fd)

  abbrev got : List ℕ
  got = copy_prefix (read_bytes v.mem ((inode v (idx v fd o)).data_page + offset v fd) readable) buf

  ramfs_read_on : ramfs_read (idx v fd o) (offset v fd) buf v ≡ (bytes readable, got)
  unfolding ramfs_read
  ramfs_read_on = elim (Bool-cases (leb (inode v (idx v fd o)).data_size (offset v fd))) [
    | inl past ↦ rw (ramfs_read, inode_there v fd o, o.page, past) (nothing past)
    | inr within ↦
        rw (ramfs_read, inode_there v fd o, o.page, within)
          (ap (λ p. (bytes readable, copy_prefix (read_bytes v.mem p readable) buf)) (place within))
  ]
    where
      place :
          leb (inode v (idx v fd o)).data_size (offset v fd) ≡ false
          → add_usize (inode v (idx v fd o)).data_page (offset v fd)
            ≡ (inode v (idx v fd o)).data_page + offset v fd
      place within = ground (arith, within, o.stored.size, o.stored.space)

      nothing :
          leb (inode v (idx v fd o)).data_size (offset v fd) ≡ true
          → ◌≡◌ {A = Isize × List ℕ} (bytes 0, buf) (bytes readable, got)
      nothing past =
          let none_left : (0 ≡ readable) = ground (arith, past) in
          ap {A = ℕ}
            (λ n. (
              bytes n,
              copy_prefix (read_bytes v.mem ((inode v (idx v fd o)).data_page + offset v fd) n) buf,
            ))
            none_left

  read_on : read fd buf v ≡ (bytes readable, got, advance fd (bytes readable) v)
  unfolding read call_read
  read_on =
      rw (read, o.active, closed, o.linked, missing, o.reads, call_read)
        (ap (λ (r : Isize × List ℕ). (r.0, r.1, advance fd r.0 v)) ramfs_read_on)
    where
      closed : leb max_open_files fd ≡ false
      closed = ground (arith, o.fd_within)

      missing : leb max_inodes (idx v fd o) ≡ false
      missing = ground (arith, o.idx_within)

  got-byte : (k : ℕ) → k < readable → get_or got k 0 ≡ byte v fd (offset v fd + k)
  got-byte k lt =
      get_or-read_bytes v.mem ((inode v (idx v fd o)).data_page + offset v fd) readable k _ lt
      ∙ ap v.mem (omega arith)
      ∙ sym (inside (ground (arith, lt)))
    where
      inside :
          ltb (offset v fd + k) (inode v (idx v fd o)).data_size ≡ true
          → byte v fd (offset v fd + k)
            ≡ v.mem ((inode v (idx v fd o)).data_page + (offset v fd + k))
      inside within = rw within refl

  -- On an open file of ramfs that has its page, `read` returns the bytes from the offset on, as
  -- many as the file has and the buffer takes, and keeps the buffer's size.
  pub read-Read : Read v fd (length buf) readable (read fd buf v)
  read-Read = subst (Read v fd (length buf) readable) (sym read_on) (record {
    count = refl;
    size =
        length-copy_prefix
          (read_bytes v.mem ((inode v (idx v fd o)).data_page + offset v fd) readable) buf
          (omega (
            arith,
            length-read_bytes v.mem ((inode v (idx v fd o)).data_page + offset v fd) readable,
          ));
    content = got-byte;
  })
