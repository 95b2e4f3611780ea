-- ===== src/Vfs/Contents.antt =====
-- A file as its bytes: what `ramfs_write` and `ramfs_read` make of one page.
use nonameos.Prelude.{
  ℕ, zero, suc, ◌+◌, ◌-◌, ◌≤◌, ◌<◌, ◌≡◌, ◌⊎◌, refl, ap, ◌∙◌, min, true, false, ◌&&◌, List, [], ◌∷◌,
  arith, length, get_or, take, length-take, ltb, leb, if◌then◌else◌, add_usize, usize_mod, inl, inr,
  Bool-cases,
}
use nonameos.Memory.{page_size}
use nonameos.Vfs.{Inode, Vfs}
use nonameos.Vfs.Ramfs.{put_inode, copy_bytes, bytes, write_page}

-- The byte of a file at an offset: 0 behind its end.
abbrev pub byte_of : (ℕ → ℕ) → Inode → ℕ → ℕ
byte_of mem i a = if ltb a i.data_size then mem (i.data_page + a) else 0

-- The file fits its page, which lies in the address space, and the rest of the page is zero.
pub record IsStored (mem : ℕ → ℕ) (i : Inode) : Type 0 where
  pub space : i.data_page + page_size ≤ usize_mod
  pub size : i.data_size ≤ page_size
  pub rest : (a : ℕ) → i.data_size ≤ a → a < page_size → mem (i.data_page + a) ≡ 0

-- How many of `len` bytes a write at `offset` takes.
abbrev pub written : ℕ → ℕ → ℕ
written offset len = if leb page_size offset then 0 else min len (page_size - offset)

get_or-take : (n k : ℕ) (xs : List ℕ) → k < n → get_or (take n xs) k 0 ≡ get_or xs k 0
get_or-take zero k xs lt = absurd (omega arith)
get_or-take (suc n) k [] lt = refl
get_or-take (suc n) zero (x ∷ xs) lt = refl
get_or-take (suc n) (suc k) (x ∷ xs) lt = get_or-take n k xs (omega arith)

-- A byte of the page and the size before and after a copy of `n` bytes to `o`.
overlaid :
    (size size' m m' s a o n : ℕ)
    → size' ≡ (if ltb size (o + n) then o + n else size)
    → m' ≡ (if leb o a && ltb a (o + n) then s else m)
    → (size ≤ a → m ≡ 0)
    → (if ltb a size' then m' else 0)
      ≡ (if leb o a && ltb a (o + n) then s else if ltb a size then m else 0)
overlaid size size' m m' s a o n longer new zero_behind = ground arith

module _ (mem : ℕ → ℕ) (i : Inode) (v : IsStored mem i) (offset : ℕ) (src : List ℕ)
    (near : offset < page_size) where
  pub amount : ℕ
  amount = min (length src) (page_size - offset)

  start : add_usize i.data_page offset ≡ i.data_page + offset
  start = omega (arith, v.space)

  pub after : ℕ → ℕ
  after = copy_bytes mem (add_usize i.data_page offset) (take amount src)

  amount_taken : length (take amount src) ≡ amount
  unfolding amount
  amount_taken = omega (arith, length-take amount src)

  -- The test of the copy at an address of the page.
  same_test :
      (a : ℕ)
      → (leb (add_usize i.data_page offset) (i.data_page + a)
          && ltb (i.data_page + a) (add_usize i.data_page offset + length (take amount src)))
        ≡ (leb offset a && ltb a (offset + amount))
  same_test a = ground (arith, start, amount_taken)

  copied_byte :
      (a : ℕ)
      → (leb offset a && ltb a (offset + amount)) ≡ true
      → get_or (take amount src) (i.data_page + a - add_usize i.data_page offset) 0
        ≡ get_or src (a - offset) 0
  copied_byte a here =
      let place : (i.data_page + a - add_usize i.data_page offset ≡ a - offset) =
        omega (arith, start) in
      ap (λ k. get_or (take amount src) k 0) place
      ∙ get_or-take amount (a - offset) src (ground (arith, here))

  -- A byte of the page after the copy.
  copied :
      (a : ℕ)
      → after (i.data_page + a) ≡ (
          if leb offset a && ltb a (offset + amount)
          then get_or src (a - offset) 0
          else mem (i.data_page + a))
  unfolding after
  copied a = elim (Bool-cases (leb offset a && ltb a (offset + amount))) [
    | inl here ↦ rw (here, same_test a, here) (copied_byte a here)
    | inr there ↦ rw (there, same_test a, there) refl
  ]

  pub untouched : (p : ℕ) → (p < i.data_page) ⊎ (i.data_page + page_size ≤ p) → after p ≡ mem p
  unfolding after amount
  untouched p (inl low) = ground (arith, start, amount_taken)
  untouched p (inr high) = ground (arith, start, amount_taken, near)

  new_end : add_usize offset amount ≡ offset + amount
  unfolding amount
  new_end = omega (arith, near)

  abbrev pub grown : Inode
  grown =
      if ltb i.data_size (add_usize offset amount)
      then record i { data_size = add_usize offset amount; size = add_usize offset amount }
      else i

  pub grown-page : grown.data_page ≡ i.data_page
  grown-page = elim (Bool-cases (ltb i.data_size (add_usize offset amount))) [
    | inl longer ↦ rw longer refl
    | inr same ↦ rw same refl
  ]

  pub amount_lem : amount ≡ min (length src) (page_size - offset)
  unfolding amount
  amount_lem = refl

  pub grown-active : grown.active ≡ i.active
  grown-active = elim (Bool-cases (ltb i.data_size (add_usize offset amount))) [
    | inl longer ↦ rw longer refl
    | inr same ↦ rw same refl
  ]

  pub grown-file_ops : grown.file_ops ≡ i.file_ops
  grown-file_ops = elim (Bool-cases (ltb i.data_size (add_usize offset amount))) [
    | inl longer ↦ rw longer refl
    | inr same ↦ rw same refl
  ]

  size_for :
      (e : ℕ)
      → (if ltb i.data_size e then record i { data_size = e; size = e } else i).data_size
        ≡ (if ltb i.data_size e then e else i.data_size)
  size_for e = elim (Bool-cases (ltb i.data_size e)) [
    | inl longer ↦ rw longer refl
    | inr same ↦ rw same refl
  ]

  pub grown-size :
      grown.data_size ≡ (if ltb i.data_size (offset + amount) then offset + amount else i.data_size)
  grown-size =
      size_for (add_usize offset amount)
      ∙ ap (λ e. if ltb i.data_size e then e else i.data_size) new_end

  moved : (a : ℕ) → after (grown.data_page + a) ≡ after (i.data_page + a)
  moved a = ap (λ p. after (p + a)) grown-page

  pub grown-byte :
      (a : ℕ)
      → a < page_size
      → byte_of after grown a ≡ (
          if leb offset a && ltb a (offset + amount)
          then get_or src (a - offset) 0
          else byte_of mem i a)
  grown-byte a lt =
      overlaid i.data_size grown.data_size (mem (i.data_page + a)) (after (grown.data_page + a))
        (get_or src (a - offset) 0) a offset amount grown-size (moved a ∙ copied a)
        (λ behind. v.rest a behind lt)

  pub grown-IsStored : IsStored after grown
  unfolding amount
  grown-IsStored = record {
    space = omega (arith, grown-page, v.space);
    size = ground (arith, grown-size, v.size, near);
    rest = λ a behind lt. moved a ∙ copied a ∙ ground (arith, grown-size, behind, v.rest a);
  }

-- A write to a page that is there, in these terms.
pub write_page-near :
    (fs : Vfs) (idx : ℕ) (i : Inode) (v : IsStored fs.mem i) (offset : ℕ) (src : List ℕ)
    (near : offset < page_size)
    → write_page idx offset src i fs ≡ (
      bytes (amount fs.mem i v offset src near),
      record (put_inode idx (grown fs.mem i v offset src near) fs) {
        mem = after fs.mem i v offset src near;
      },
    )
unfolding write_page amount after
write_page-near fs idx i v offset src near = rw (ltb_far offset near) refl
  where
    ltb_far : (offset : ℕ) → offset < page_size → leb page_size offset ≡ false
    ltb_far offset near = ground (arith, near)
