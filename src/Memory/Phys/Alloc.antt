-- ===== src/Memory/Phys/Alloc.antt =====
-- The invariant of the allocator, and what `alloc_frame` and `free_frame` do.
use nonameos.Prelude.{
  usize_mod, ℕ, zero, suc, ◌+◌, ◌-◌, ◌*◌, ◌/◌, ◌≤◌, ◌<◌, ◌≡◌, refl, sym, ap, ◌∙◌, true, false,
  Option, none, some, arith, eq_of_test, ◌==◌, if◌then◌else◌, ◌⊎◌, inl, inr, Bool-cases,
}
use nonameos.Memory.{page_size}
use nonameos.Memory.Phys.{
  Phys, max_frames, test_bit, take_one, give_one, alloc_from, alloc_frame, free_frame,
}
use nonameos.Memory.Phys.Bitmap.{IsBitmap, Wrote, used, test_bit_lem, set_bit_lem, clear_bit_lem}
use nonameos.Memory.Phys.Count.{
  count_free, count_free_congr, count_free-le, count_free-zero, update, count_free-take,
  count_free-give,
}

-- FREE_FRAMES is the number of clear bits below TOTAL_FRAMES.
pub record IsValid (p : Phys) : Type 0 where
  pub bitmap : IsBitmap p
  pub total : p.total_frames ≤ max_frames
  pub counted : p.free_frames ≡ count_free (used p) p.total_frames

-- A free frame of `p` is taken, which leaves `q`.
pub record Marked (p : Phys) (frame : ℕ) (q : Phys) : Type 0 where
  pub now_used : (g : ℕ) → used q g ≡ (if frame == g then true else used p g)
  pub counted : q.free_frames + 1 ≡ p.free_frames
  pub total : q.total_frames ≡ p.total_frames
  pub valid : IsValid q

-- `alloc_frame` at `p` has handed out `frame`, and left `q`.
pub record Allocated (p : Phys) (frame : ℕ) (q : Phys) : Type 0 where
  pub within : frame < p.total_frames
  pub was_free : used p frame ≡ false
  pub lowest : (g : ℕ) → g < frame → used p g ≡ true
  pub marked : Marked p frame q

abbrev pub AllocatesFrom : Phys → Option (Option ℕ × Phys) → Type 0
AllocatesFrom p r =
    ((r ≡ some (none, p)) × ((g : ℕ) → g < p.total_frames → used p g ≡ true) × (p.free_frames ≡ 0))
    ⊎ ((frame : ℕ) × (q : Phys) × (r ≡ some (some (frame * page_size), q)) × Allocated p frame q)

module _ (p : Phys) (v : IsValid p) where
  pub taken :
      (i : ℕ)
      → i < p.total_frames
      → used p i ≡ false
      → (q : Phys) → Wrote p i true q
      → Marked p i (take_one q)
  unfolding used
  taken i lt free q w = record {
    now_used = same;
    counted = omega (arith, tally, w.free, v.counted, small);
    total = w.total;
    valid = record {
      bitmap = record { size = w.still.size; bytes = w.still.bytes };
      total = omega (arith, v.total, w.total);
      counted =
          omega
            (arith, tally, w.free, v.counted, small, ap (count_free (used (take_one q))) w.total);
    };
  }
    where
      same : (g : ℕ) → used (take_one q) g ≡ (if i == g then true else used p g)
      same = w.update

      tally :
          suc (count_free (used (take_one q)) p.total_frames) ≡ count_free (used p) p.total_frames
      tally =
          ap suc (
            count_free_congr (used (take_one q)) (update (used p) i true) p.total_frames
              (λ g _. same g))
          ∙ count_free-take (used p) i p.total_frames lt free

      small : p.free_frames < usize_mod
      small = omega (arith, v.counted, v.total, count_free-le (used p) p.total_frames)

  still_used :
      (i : ℕ)
      → used p i ≡ true
      → ((g : ℕ) → g < i → used p g ≡ true)
      → (g : ℕ) → g < i + 1
      → used p g ≡ true
  still_used i busy below g lt = elim (Bool-cases (i == g)) [
    | inl here ↦ ground (arith, ap (used p) (eq_of_test i g here))
    | inr there ↦ below g (ground arith)
  ]

  alloc_from_lem :
      (n i : ℕ)
      → i + n ≡ p.total_frames
      → ((g : ℕ) → g < i → used p g ≡ true)
      → AllocatesFrom p (alloc_from n i p)
  unfolding alloc_from
  alloc_from_lem zero i e below = inl (
    refl,
    λ g lt. below g (omega arith),
    v.counted ∙ count_free-zero (used p) p.total_frames (λ g lt. below g (omega arith)),
  )
  alloc_from_lem (suc n) i e below = elim (Bool-cases (used p i)) [
    | inl busy ↦ rw (read, busy) (alloc_from_lem n (i + 1) (omega arith) (still_used i busy below))
    | inr free ↦
        let (q, wrote, w) = set_bit_lem p v.bitmap i (omega (arith, v.total)) in
        rw (read, free, wrote)
          (inr (
            i,
            take_one q,
            refl,
            record {
              within = omega arith;
              was_free = free;
              lowest = below;
              marked = taken i (omega arith) free q w;
            },
          ))
  ]
    where
      read : test_bit i p ≡ some (used p i)
      read = test_bit_lem p i v.bitmap (omega (arith, v.total))

-- In a valid allocator, `alloc_frame` does not panic. It fails only when every frame is used, and
-- otherwise hands out the lowest free frame, marks it and no other, lowers the count by one and
-- keeps the allocator valid.
pub alloc_frame_lem : (p : Phys) → IsValid p → AllocatesFrom p (alloc_frame p)
unfolding alloc_frame
alloc_frame_lem p v = alloc_from_lem p v p.total_frames 0 (omega arith) (λ g lt. elim lt [ ])

-- `free_frame` at the address `addr` has left `q`.
pub record Freed (p : Phys) (frame : ℕ) (q : Phys) : Type 0 where
  pub now_free : (g : ℕ) → used q g ≡ (if frame == g then false else used p g)
  pub counted : q.free_frames ≡ p.free_frames + (if used p frame then 1 else 0)
  pub total : q.total_frames ≡ p.total_frames
  pub valid : IsValid q

module _ (p : Phys) (v : IsValid p) (frame : ℕ) (lt : frame < p.total_frames) where
  given : (q : Phys) → used p frame ≡ true → Wrote p frame false q → Freed p frame (give_one q)
  unfolding used
  given q busy w = record {
    now_free = same;
    counted = ground (arith, tally, w.free, v.counted, small);
    total = w.total;
    valid = record {
      bitmap = record { size = w.still.size; bytes = w.still.bytes };
      total = omega (arith, v.total, w.total);
      counted =
          omega
            (arith, tally, w.free, v.counted, small, ap (count_free (used (give_one q))) w.total);
    };
  }
    where
      same : (g : ℕ) → used (give_one q) g ≡ (if frame == g then false else used p g)
      same = w.update

      tally :
          count_free (used (give_one q)) p.total_frames ≡ suc (count_free (used p) p.total_frames)
      tally =
          count_free_congr (used (give_one q)) (update (used p) frame false) p.total_frames
            (λ g _. same g)
          ∙ count_free-give (used p) frame p.total_frames lt busy

      small : p.free_frames < usize_mod - 1
      small = omega (arith, v.counted, v.total, count_free-le (used p) p.total_frames)

  not_given : used p frame ≡ false → Freed p frame p
  not_given free = record {
    now_free = λ g. elim (Bool-cases (frame == g)) [
      | inl here ↦ rw here (sym (ap (used p) (eq_of_test frame g here)) ∙ free)
      | inr there ↦ rw there
    ];
    counted = rw free (omega arith);
    total = refl;
    valid = v;
  }

  -- In a valid allocator, freeing any address inside a managed frame does not panic. It clears that
  -- frame's bit and no other, counts the frame only if it was used, so that a double free changes
  -- nothing, and keeps the allocator valid.
  pub free_frame_lem :
      (offset : ℕ)
      → offset < page_size
      → (q : Phys) × (free_frame (frame * page_size + offset) p ≡ some q) × Freed p frame q
  unfolding free_frame
  free_frame_lem offset small = elim (Bool-cases (used p frame)) [
    | inl busy ↦
        let (q, wrote, w) = clear_bit_lem p v.bitmap frame (omega (arith, v.total)) in
        (give_one q, rw (at_frame, read, busy, at_frame, wrote), given q busy w)
    | inr free ↦ (p, rw (at_frame, read, free), not_given free)
  ]
    where
      at_frame : (frame * page_size + offset) / page_size ≡ frame
      at_frame = omega arith

      read : test_bit frame p ≡ some (used p frame)
      read = test_bit_lem p frame v.bitmap (omega (arith, v.total))
