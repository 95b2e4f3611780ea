-- ===== src/Scheduler/Spawn/Stack.antt =====
-- The frames of a kernel stack, in kernel/src/scheduler.rs.
use nonameos.Prelude.{
  ℕ, zero, suc, ◌+◌, ◌*◌, ◌<◌, ◌≡◌, refl, true, Option, none, some, arith, ◌∙◌, false, ==_refl,
  ◌==◌, inl, inr,
}
use nonameos.Memory.{page_size}
use nonameos.Memory.Phys.{Phys}
use nonameos.Memory.Phys.Alloc.{IsValid, Marked, Allocated, alloc_frame_lem}
use nonameos.Memory.Phys.Bitmap.{used}
use nonameos.Scheduler.Spawn.{alloc_pages, alloc_kernel_stack}

-- `n` frames more are in use, and none is given back.
pub record Takes (n : ℕ) (p q : Phys) : Type 0 where
  pub valid : IsValid q
  pub counted : q.free_frames + n ≡ p.free_frames
  pub keeps : (g : ℕ) → used p g ≡ true → used q g ≡ true

-- The outcome of the loop over `n` pages: where one is missing, all frames are in use afterwards.
data TakesFrom (n base : ℕ) (p : Phys) : Option (Option ℕ × Phys × (ℕ → ℕ)) → Type 0 where
  no_page :
      (q : Phys) (mem : ℕ → ℕ)
      → IsValid q
      → p.free_frames < n
      → q.free_frames ≡ 0
      → TakesFrom n base p (some (none, q, mem))
  pages : (q : Phys) (mem : ℕ → ℕ) → Takes n p q → TakesFrom n base p (some (some base, q, mem))

-- One frame before the others.
one_more :
    (n base frame : ℕ) (p q : Phys) {r : Option (Option ℕ × Phys × (ℕ → ℕ))}
    → Marked p frame q
    → TakesFrom n base q r
    → TakesFrom (suc n) base p r
one_more n base frame p q m (no_page q' mem v few none_left) =
    no_page q' mem v (omega (arith, few, m.counted)) none_left
one_more n base frame p q m (pages q' mem t) = pages q' mem (record {
  valid = t.valid;
  counted = omega (arith, t.counted, m.counted);
  keeps = λ g u. t.keeps g (ground (arith, m.now_used g, u));
})

-- The rounds behind the first keep the base.
alloc_pages-TakesFrom :
    (n i base : ℕ) (p : Phys) (mem : ℕ → ℕ)
    → (i == 0) ≡ false
    → IsValid p
    → TakesFrom n base p (alloc_pages n i base p mem)
unfolding alloc_pages
alloc_pages-TakesFrom zero i base p mem later v =
    pages p mem (record { valid = v; counted = omega arith; keeps = λ g u. u })
alloc_pages-TakesFrom (suc n) i base p mem later v = elim (alloc_frame_lem p v) [
  | inl (none_left, _, none_free) ↦
      rw (alloc_pages, none_left) (no_page p mem v (omega (arith, none_free)) none_free)
  | inr (frame, q, got, a) ↦
      rw (alloc_pages, got, later)
        (one_more n base frame p q a.marked
          (alloc_pages-TakesFrom n (i + 1) base q _ (ground arith) a.marked.valid))
]

-- A frame that `alloc_frame` would hand out.
pub record IsLowest (p : Phys) (frame : ℕ) : Type 0 where
  pub within : frame < p.total_frames
  pub was_free : used p frame ≡ false
  pub lowest : (g : ℕ) → g < frame → used p g ≡ true

-- The outcome of `alloc_kernel_stack`: all frames are in use without four that were free; or four are
-- taken, and the stack starts at the lowest.
pub data StackFrom (p : Phys) : Option (Option ℕ × Phys × (ℕ → ℕ)) → Type 0 where
  no_stack :
      (q : Phys) (mem : ℕ → ℕ)
      → IsValid q
      → p.free_frames < 4
      → q.free_frames ≡ 0
      → StackFrom p (some (none, q, mem))
  stack :
      (frame : ℕ) (q : Phys) (mem : ℕ → ℕ)
      → IsLowest p frame
      → used q frame ≡ true
      → Takes 4 p q
      → StackFrom p (some (some (frame * page_size), q, mem))

after_first :
    (frame : ℕ) (p q : Phys) {r : Option (Option ℕ × Phys × (ℕ → ℕ))}
    → Allocated p frame q
    → TakesFrom 3 (frame * page_size) q r
    → StackFrom p r
after_first frame p q a (no_page q' mem v few none_left) =
    no_stack q' mem v (omega (arith, few, a.marked.counted)) none_left
after_first frame p q a (pages q' mem t) =
    stack frame q' mem (record { within = a.within; was_free = a.was_free; lowest = a.lowest })
      (t.keeps frame (a.marked.now_used frame ∙ rw (==_refl frame)))
      (record {
        valid = t.valid;
        counted = omega (arith, t.counted, a.marked.counted);
        keeps = λ g u. t.keeps g (ground (arith, a.marked.now_used g, u));
      })

pub alloc_kernel_stack-StackFrom :
    (p : Phys) (mem : ℕ → ℕ) → IsValid p → StackFrom p (alloc_kernel_stack p mem)
unfolding alloc_kernel_stack alloc_pages
alloc_kernel_stack-StackFrom p mem v = elim (alloc_frame_lem p v) [
  | inl (none_left, _, none_free) ↦
      rw (alloc_pages, none_left) (no_stack p mem v (omega (arith, none_free)) none_free)
  | inr (frame, q, got, a) ↦
      rw (alloc_pages, got)
        (after_first frame p q a
          (alloc_pages-TakesFrom 3 1 (frame * page_size) q _ refl a.marked.valid))
]
