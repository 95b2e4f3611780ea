-- ===== src/Diagnostics/Frames.antt =====
-- The memory tests of kernel/src/ktest.rs on a valid frame allocator.
use native.Mathlib.Nat.{add-zero}
use nonameos.Prelude.{ℕ, ◌*◌, ◌<◌, ◌≢◌, ◌≡◌, ◌∙◌, inl, inr, true, false, some, leb, ==_refl, arith}
use nonameos.Memory.{page_size}
use nonameos.Memory.Phys.{Phys, free_frame}
use nonameos.Memory.Phys.Bitmap.{used}
use nonameos.Memory.Phys.Alloc.{IsValid, Allocated, alloc_frame_lem, free_frame_lem}
use nonameos.Diagnostics.Table.{test_phys_alloc_and_free, quick_check_memory}

-- A frame that was just handed out can be given back: the count is what it was before.
give_back :
    (p : Phys) {frame : ℕ} {p1 : Phys}
    → Allocated p frame p1
    → (q : Phys) × (free_frame (frame * page_size) p1 ≡ some q)
      × (q.free_frames ≡ p.free_frames)
      × IsValid q
give_back p {frame} {p1} a =
    let lt : frame < p1.total_frames = omega (arith, a.within, a.marked.total) in
    let (q, gave, f) = free_frame_lem p1 a.marked.valid frame lt 0 (omega arith) in
    let busy : used p1 frame ≡ true = a.marked.now_used frame ∙ rw (==_refl frame) in
    (q, rw (add-zero (frame * page_size)) at gave, f.counted ∙ rw busy (a.marked.counted), f.valid)

module _ (p : Phys) (v : IsValid p) (some_free : p.free_frames ≢ 0) where
  -- The first memory test and the quick check take a frame and give it back: they pass, and no frame
  -- is lost.
  memory_checks-pass :
      (q : Phys) × (test_phys_alloc_and_free p ≡ some (true, q))
      × (quick_check_memory p ≡ some (true, q))
      × (q.free_frames ≡ p.free_frames)
      × IsValid q
  unfolding test_phys_alloc_and_free quick_check_memory
  memory_checks-pass = elim (alloc_frame_lem p v) [
    | inl (failed, all_used, none_free) ↦ absurd (some_free none_free)
    | inr (frame, p1, took, a) ↦
        let (q, gave, count, valid) = give_back p a in
        let fewer : leb p.free_frames p1.free_frames ≡ false = ground (arith, a.marked.counted) in
        (q, rw (took, fewer, gave, count, ==_refl p.free_frames), rw (took, gave), count, valid)
  ]
