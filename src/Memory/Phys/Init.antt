-- ===== src/Memory/Phys/Init.antt =====
-- `init`: which frames are reserved when the allocator starts.
use nonameos.Prelude.{
  usize_mod, ℕ, zero, suc, ◌+◌, ◌-◌, ◌*◌, ◌/◌, ◌%◌, ◌≤◌, ◌<◌, ◌≡◌, refl, sym, ap, ◌∙◌, Bool, true,
  false, some, arith, eq_of_test, ◌==◌, ltb, leb, ◌&&◌, ◌||◌, if◌then◌else◌, inl, inr, Bool-cases,
  min, get_or, length, length-replicate, get_or-replicate, bit_and, not, ◌^◌,
}
use Prim.Native.Nat.{bit_and-bitwise}
use nonameos.Prelude.Bits.{test_bit_of}
use nonameos.Memory.{page_size, align_up}
use nonameos.Memory.Align.{align_up_page}
use nonameos.Memory.Phys.{
  Phys, boot, cleared, bitmap_size, max_frames, test_bit, take_one, reserve, reserve_clear, init,
}
use nonameos.Memory.Phys.Bitmap.{IsBitmap, used, test_bit_lem, set_bit_lem}
use nonameos.Memory.Phys.Count.{count_free-all}
use nonameos.Memory.Phys.Alloc.{IsValid, Marked, taken}

-- The frames `i..i + n`.
abbrev pub in_range : ℕ → ℕ → ℕ → Bool
in_range i n g = leb i g && ltb g (i + n)

-- The frames `i..i + n` of `p` are taken, which leaves `q`.
record Reserved (p : Phys) (i n : ℕ) (q : Phys) : Type 0 where
  now_used : (g : ℕ) → used q g ≡ (if in_range i n g then true else used p g)
  total : q.total_frames ≡ p.total_frames
  valid : IsValid q

Reserved-zero : (p : Phys) (i : ℕ) → IsValid p → Reserved p i 0 p
Reserved-zero p i v = record { now_used = λ g. ground arith; total = refl; valid = v }

-- One more frame in front, which was taken just now or before.
Reserved-suc :
    (p : Phys) (i n : ℕ) (m q : Phys)
    → ((g : ℕ) → used m g ≡ (if i == g then true else used p g))
    → m.total_frames ≡ p.total_frames
    → Reserved m (i + 1) n q
    → Reserved p i (suc n) q
Reserved-suc p i n m q first total rest = record {
  now_used = λ g. ground (arith, first g, rest.now_used g);
  total = rest.total ∙ total;
  valid = rest.valid;
}

reserve_lem :
    (n i : ℕ) (p : Phys)
    → IsValid p
    → i + n ≤ p.total_frames
    → ((g : ℕ) → i ≤ g → used p g ≡ false)
    → (q : Phys) × (reserve n i p ≡ some q) × Reserved p i n q
unfolding reserve
reserve_lem zero i p v h free = (p, refl, Reserved-zero p i v)
reserve_lem (suc n) i p v h free =
    let (m, wrote, w) = set_bit_lem p v.bitmap i (omega (arith, v.total)) in
    let mark : Marked p i (take_one m) = taken p v i (omega arith) (free i (omega arith)) m w in
    let (q, done, r) =
      reserve_lem n (i + 1) (take_one m) mark.valid (omega (arith, mark.total))
        (λ g le. ground (arith, mark.now_used g, free g)) in
    (q, rw (wrote, done), Reserved-suc p i n (take_one m) q mark.now_used mark.total r)

reserve_clear_lem :
    (n i : ℕ) (p : Phys)
    → IsValid p
    → i + n ≤ p.total_frames
    → (q : Phys) × (reserve_clear n i p ≡ some q) × Reserved p i n q
unfolding reserve_clear
reserve_clear_lem zero i p v h = (p, refl, Reserved-zero p i v)
reserve_clear_lem (suc n) i p v h = elim (Bool-cases (used p i)) [
  | inl busy ↦
      let (q, done, r) = reserve_clear_lem n (i + 1) p v (omega arith) in
      (q, rw (read, busy, done), Reserved-suc p i n p q (kept busy) refl r)
  | inr free ↦
      let (m, wrote, w) = set_bit_lem p v.bitmap i (omega (arith, v.total)) in
      let mark : Marked p i (take_one m) = taken p v i (omega arith) free m w in
      let (q, done, r) =
        reserve_clear_lem n (i + 1) (take_one m) mark.valid (omega (arith, mark.total)) in
      (
        q,
        rw (read, free, wrote, done),
        Reserved-suc p i n (take_one m) q mark.now_used mark.total r,
      )
]
  where
    read : test_bit i p ≡ some (used p i)
    read = test_bit_lem p i v.bitmap (omega (arith, v.total))

    kept : used p i ≡ true → (g : ℕ) → used p g ≡ (if i == g then true else used p g)
    kept busy g = elim (Bool-cases (i == g)) [
      | inl here ↦ ground (arith, ap (used p) (eq_of_test i g here))
      | inr there ↦ rw there
    ]

cleared-used : (size g : ℕ) → used (cleared size) g ≡ false
unfolding used cleared test_bit_of
cleared-used size g =
    ap (λ b. not (bit_and b (2 ^ (g % 8)) == 0)) (get_or-replicate size (g / 8) 0)
    ∙ ap (λ b. not (b == 0)) (bit_and-bitwise 0 (2 ^ (g % 8)))

cleared-size : (size : ℕ) → length (cleared size).bitmap ≡ size
unfolding cleared
cleared-size size = length-replicate size 0

cleared-bytes : (size k : ℕ) → get_or (cleared size).bitmap k 0 < 256
unfolding cleared
cleared-bytes size k = omega (arith, get_or-replicate {A = ℕ} size k 0)

-- At boot the bitmap is in order and no frame is used.
boot-IsBitmap : IsBitmap boot
unfolding boot
boot-IsBitmap = record { size = cleared-size bitmap_size; bytes = cleared-bytes bitmap_size }

boot-used : (g : ℕ) → used boot g ≡ false
unfolding boot
boot-used g = cleared-used bitmap_size g

-- The frames of the first MiB, and those of the kernel image.
abbrev pub low_frames : ℕ
low_frames = 256

abbrev pub end_frame : ℕ → ℕ
end_frame kernel_end = (kernel_end + (page_size - 1)) / page_size

-- `init` has set the allocator up over `total` frames.
pub record Started (total kernel_start kernel_end : ℕ) (q : Phys) : Type 0 where
  pub total_frames : q.total_frames ≡ total
  pub reserved :
      (g : ℕ)
      → used q g
        ≡ (ltb g low_frames || (leb (kernel_start / page_size) g && ltb g (end_frame kernel_end)))
  pub valid : IsValid q

module _ (memory_size kernel_start kernel_end : ℕ) where
  abbrev pub managed : ℕ
  managed = min (memory_size / page_size) max_frames

  opened : Phys
  opened = record boot { total_frames = managed; free_frames = managed }

  opened-used : (g : ℕ) → used opened g ≡ false
  unfolding opened used
  opened-used g = boot-used g

  opened-IsValid : IsValid opened
  unfolding opened used
  opened-IsValid = record {
    bitmap = record { size = boot-IsBitmap.size; bytes = boot-IsBitmap.bytes };
    total = omega arith;
    counted = sym (count_free-all (used opened) managed (λ g _. opened-used g));
  }

  opened-total : opened.total_frames ≡ managed
  unfolding opened
  opened-total = refl

  -- From boot, with at least 1 MiB of memory that holds the whole kernel image, and a kernel end
  -- that can be rounded up, `init` does not panic. It reserves the frames of the first MiB and of
  -- the kernel, no other, and leaves a valid allocator.
  pub init_lem :
      low_frames * page_size ≤ memory_size
      → kernel_start ≤ kernel_end
      → kernel_end + (page_size - 1) < usize_mod
      → end_frame kernel_end ≤ managed
      → (q : Phys) × (init memory_size kernel_start kernel_end boot ≡ some q)
        × Started managed kernel_start kernel_end q
  unfolding init opened
  init_lem enough order fits inside =
      let (m, low, r) =
        reserve_lem low_frames 0 opened opened-IsValid (omega (arith, opened-total))
          (λ g _. opened-used g) in
      let (q, image, r') =
        reserve_clear_lem (end_frame kernel_end - kernel_start / page_size)
          (kernel_start / page_size) m r.valid (omega (arith, r.total, opened-total)) in
      (
        q,
        rw (low_count, kernel_count, low) image,
        record {
          total_frames = r'.total ∙ r.total ∙ opened-total;
          reserved = λ g. ground (arith, r'.now_used g, r.now_used g, opened-used g);
          valid = r'.valid;
        },
      )
    where
      low_count : align_up (1024 * 1024) page_size / page_size ≡ low_frames
      low_count = omega (arith, align_up_page (1024 * 1024) (omega arith))

      kernel_count : align_up kernel_end page_size / page_size ≡ end_frame kernel_end
      kernel_count = omega (arith, align_up_page kernel_end fits)
