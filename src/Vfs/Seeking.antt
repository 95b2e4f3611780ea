-- ===== src/Vfs/Seeking.antt =====
-- What is written and read back.
use nonameos.Prelude.{
  ℕ, zero, suc, ◌+◌, ◌-◌, ◌≤◌, ◌<◌, ◌≡◌, refl, sym, ap, ap₂, ◌∙◌, subst, min, Bool, true, false,
  ◌&&◌, List, [], ◌∷◌, some, arith, length, get_or, get_or-set_self, length-set, ltb, leb, ◌==◌,
  if◌then◌else◌,
}
use nonameos.Memory.{page_size}
use nonameos.Vfs.{Inode, Vfs, inode, empty_file, open_file, max_inodes, max_open_files, File}
use nonameos.Vfs.Ramfs.{Isize, bytes}
use nonameos.Vfs.Api.{write, read, seek, put_file}
use nonameos.Vfs.Contents.{byte_of, IsStored, written}
use nonameos.Vfs.Transfer.{IsOpen, byte, offset}
use nonameos.Vfs.RoundTrip.{Wrote, write-Wrote, Read, read-Read, readable}

list_ext :
    (xs ys : List ℕ)
    → length xs ≡ length ys
    → ((k : ℕ) → k < length ys → get_or xs k 0 ≡ get_or ys k 0)
    → xs ≡ ys
list_ext [] [] same each = refl
list_ext [] (y ∷ ys) same each = absurd (omega (arith, same))
list_ext (x ∷ xs) [] same each = absurd (omega (arith, same))
list_ext (x ∷ xs) (y ∷ ys) same each =
    ap₂ ◌∷◌ (each 0 (omega arith))
      (list_ext xs ys (omega (arith, same)) (λ k lt. each (suc k) (omega (arith, lt))))

module _ (v : Vfs) (fd : ℕ) (o : IsOpen v fd) (place : ℕ) where
  moved : File
  moved = record (open_file v fd) { offset = place }

  -- The state after `seek`.
  abbrev back : Vfs
  back = put_file fd (record (open_file v fd) { offset = place }) v

  seek_on : seek fd place v ≡ (true, back)
  unfolding seek
  seek_on = rw (seek, o.active, closed) refl
    where
      closed : leb max_open_files fd ≡ false
      closed = ground (arith, o.fd_within)

  back_file : open_file back fd ≡ record (open_file v fd) { offset = place }
  back_file = get_or-set_self v.files fd _ empty_file (omega (arith, o.files, o.fd_within))

  same_index : (open_file back fd).inode_idx ≡ (open_file v fd).inode_idx
  same_index = ap (λ (f : File). f.inode_idx) back_file

  same_inode : inode v (open_file back fd).inode_idx ≡ inode v (open_file v fd).inode_idx
  same_inode = ap (λ k. inode v k) same_index

  back-IsOpen : IsOpen back fd
  back-IsOpen = record {
    files = length-set v.files fd _ ∙ o.files;
    inodes = o.inodes;
    fd_within = o.fd_within;
    active = ap (λ (f : File). f.active) back_file ∙ o.active;
    idx_within = subst (λ k. k < max_inodes) (sym same_index) o.idx_within;
    linked = ap (λ (i : Inode). i.active) same_inode ∙ o.linked;
    reads = ap (λ (i : Inode). i.file_ops.read) same_inode ∙ o.reads;
    writes = ap (λ (i : Inode). i.file_ops.write) same_inode ∙ o.writes;
    page = ap (λ (i : Inode). i.data_page == 0) same_inode ∙ o.page;
    stored = subst (IsStored v.mem) (sym same_inode) o.stored;
  }

  back-byte : (a : ℕ) → byte back fd a ≡ byte v fd a
  back-byte a = ap (λ i. byte_of v.mem i a) same_inode

  back-offset : offset back fd ≡ place
  back-offset = ap (λ (f : File). f.offset) back_file

-- `read` of `src` into a buffer, whatever happens to the state.
pub record ReadsBack (src : List ℕ) (r : Isize × List ℕ × Vfs) : Type 0 where
  pub count : r.0 ≡ bytes (length src)
  pub content : r.1 ≡ src

module _ (v : Vfs) (fd : ℕ) (src buf : List ℕ) (same : length buf ≡ length src) where
  readable_all :
      (n size : ℕ)
      → n ≡ length src
      → (0 < n → offset v fd + n ≤ size)
      → min (length buf) (size - offset v fd) ≡ length src
  readable_all zero size e reach = omega (arith, e, same)
  readable_all (suc n) size e reach = omega (arith, e, same, reach (omega arith))

  module _ (n : ℕ) (whole : n ≡ length src) (fits : offset v fd + length src ≤ page_size) (q : Vfs)
      (w : Wrote v fd src n q) where
    abbrev rewound : Vfs
    rewound = back q fd w.still (offset v fd)

    rewound-IsOpen : IsOpen rewound fd
    rewound-IsOpen = back-IsOpen q fd w.still (offset v fd)

    written_byte :
        (k : ℕ) → k < length src → byte rewound fd (offset rewound fd + k) ≡ get_or src k 0
    written_byte k lt =
        ap (λ p. byte rewound fd (p + k)) (back-offset q fd w.still (offset v fd))
        ∙ back-byte q fd w.still (offset v fd) (offset v fd + k)
        ∙ w.content (offset v fd + k) (omega (arith, lt, fits))
        ∙ inside
      where
        inside :
            (if leb (offset v fd) (offset v fd + k) && ltb (offset v fd + k) (offset v fd + n)
              then get_or src (offset v fd + k - offset v fd) 0
              else byte v fd (offset v fd + k))
            ≡ get_or src k 0
        inside =
            let here : (leb (offset v fd) (offset v fd + k)
                  && ltb (offset v fd + k) (offset v fd + n)
                ≡ true) =
              ground (arith, lt, whole) in
            rw here (ap (λ j. get_or src j 0) (omega arith))

    enough : readable rewound fd rewound-IsOpen buf ≡ length src
    enough =
        ap₂ (λ s p. min (length buf) (s - p))
          (ap (λ (i : Inode). i.data_size) (same_inode q fd w.still (offset v fd)))
          (back-offset q fd w.still (offset v fd))
        ∙ readable_all n _ whole w.reach

    reads_back : ReadsBack src (read fd buf rewound)
    reads_back = gathered (read-Read rewound fd rewound-IsOpen buf)
      where
        gathered :
            Read rewound fd
              (length buf)
              (readable rewound fd rewound-IsOpen buf)
              (read fd buf rewound)
            → ReadsBack src (read fd buf rewound)
        gathered r = record {
          count = r.count ∙ ap bytes enough;
          content =
              list_ext (read fd buf rewound).1 src (r.size ∙ same)
                (λ k lt. r.content k (omega (arith, lt, enough)) ∙ written_byte k lt);
        }

-- On an open file of ramfs that has its page, bytes that fit into the page behind the offset are
-- all written, and `seek` back to that offset followed by `read` into a buffer of their size brings
-- them back.
pub write-seek-read :
    (v : Vfs) (fd : ℕ) (src buf : List ℕ)
    → IsOpen v fd
    → offset v fd + length src ≤ page_size
    → length buf ≡ length src
    → (q : Vfs) × (write fd src v ≡ some (bytes (length src), q))
      × ReadsBack src (read fd buf (seek fd (offset v fd) q).1)
write-seek-read v fd src buf o fits same =
    let (q, wrote, w) = write-Wrote v fd o src in
    (
      q,
      wrote ∙ ap (λ n. some (bytes n, q)) whole,
      subst (λ (r : Bool × Vfs). ReadsBack src (read fd buf r.1))
          (sym (seek_on q fd w.still (offset v fd)))
          (reads_back v fd src buf same (written (offset v fd) (length src)) whole fits q w),
    )
  where
    whole : written (offset v fd) (length src) ≡ length src
    whole = ground (arith, fits)
