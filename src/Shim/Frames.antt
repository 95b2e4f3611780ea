-- ===== src/Shim/Frames.antt =====
-- kmalloc of two pages and kfree of the result, in kernel/src/drivers/linux_shim/mod.rs.
use native.Mathlib.Nat.{add-zero}
use nonameos.Prelude.{
  ℕ, ◌+◌, ◌*◌, ◌/◌, ◌≤◌, ◌<◌, ◌≡◌, ◌≢◌, ◌∙◌, refl, ap, subst, true, false, List, [], ◌∷◌, some,
  replicate, ltb, ◌==◌, Bool-cases, ==_refl, inl, inr, arith,
}
use nonameos.Prelude.Find.{find_index}
use nonameos.Memory.{page_size, align_up, align_down}
use nonameos.Memory.Align.{align_up_page, align_down_page}
use nonameos.Memory.Phys.{Phys, alloc_frame, free_frame}
use nonameos.Memory.Phys.Bitmap.{used}
use nonameos.Memory.Phys.Alloc.{IsValid, Marked, Freed, alloc_frame_lem, free_frame_lem}
use nonameos.Shim.{
  Shim, AllocEntry, empty_alloc, alloc_table_insert, alloc_table_remove, take_frames, give_block,
  hand_out, kmalloc, kfree,
}

-- The lowest free frame.
pub record IsNext (p : Phys) (f : ℕ) : Type 0 where
  pub within : f < p.total_frames
  pub is_free : used p f ≡ false
  pub lowest : (h : ℕ) → h < f → used p h ≡ true

module _ (p : Phys) (v : IsValid p) (f : ℕ) where
  alloc_next :
      IsNext p f → (q : Phys) × (alloc_frame p ≡ some (some (f * page_size), q)) × Marked p f q
  alloc_next n = elim (alloc_frame_lem p v) [
    | inl (e, all_used, none_free) ↦ absurd (cc (all_used f n.within, n.is_free))
    | inr (frame, q, e, a) ↦ elim (Bool-cases (ltb frame f)) [
      | inl below ↦ absurd (cc (n.lowest frame (ground arith), a.was_free))
      | inr above ↦ elim (Bool-cases (ltb f frame)) [
        | inl below ↦ absurd (cc (a.lowest f (ground arith), n.is_free))
        | inr same ↦
            let here : frame ≡ f = ground arith in
            (
              q,
              e ∙ ap (λ (k : ℕ). some (some (k * page_size), q)) here,
              subst (λ (k : ℕ). Marked p k q) here a.marked,
            )
      ]
    ]
  ]

  free_at : f < p.total_frames → (q : Phys) × (free_frame (f * page_size) p ≡ some q) × Freed p f q
  free_at lt =
      let (q, e, freed) = free_frame_lem p v f lt 0 (omega arith) in
      (q, rw (add-zero (f * page_size)) at e, freed)

take_two :
    (p p1 p2 : Phys) (a b : ℕ)
    → alloc_frame p ≡ some (some a, p1)
    → alloc_frame p1 ≡ some (some b, p2)
    → take_frames 2 [] p ≡ some (some (a ∷ b ∷ []), p2)
unfolding take_frames
take_two p p1 p2 a b e1 e2 = rw (take_frames, e1, e2)

-- The table with one allocation in it, and the allocation taken out again.
abbrev untouched : List AllocEntry
untouched = replicate 256 empty_alloc

inserted :
    (a : ℕ)
    → alloc_table_insert a 2 untouched
      ≡ record { addr = a; page_count = 2 } ∷ replicate 255 empty_alloc
unfolding alloc_table_insert find_index
inserted a = refl

removed :
    (a : ℕ)
    → alloc_table_remove a (record { addr = a; page_count = 2 } ∷ replicate 255 empty_alloc)
      ≡ (2, untouched)
unfolding alloc_table_remove
removed a = rw (alloc_table_remove, found)
  where
    found :
        find_index
          (λ (e : AllocEntry). e.addr == a)
          (record { addr = a; page_count = 2 } ∷ replicate 255 empty_alloc)
        ≡ some 0
    found = unfold find_index in rw (==_refl a)

give_two :
    (p p1 p2 : Phys) (a : ℕ)
    → free_frame a p ≡ some p1
    → free_frame (a + page_size) p1 ≡ some p2
    → give_block 2 a p ≡ some p2
unfolding give_block
give_two p p1 p2 a e1 e2 = rw (give_block, e1, e2)

two_pages :
    (size : ℕ) → page_size < size → size ≤ 2 * page_size → align_up size page_size / page_size ≡ 2
two_pages size lo hi = omega (arith, align_up_page size)

module _ (s : Shim) (p : Phys) (size flags a b : ℕ) (p1 : Phys) (lo : page_size < size)
    (hi : size ≤ 2 * page_size) (fresh : s.alloc_table ≡ untouched) where
  after_kmalloc : (p2 : Phys) → Shim
  after_kmalloc p2 = (hand_out 2 flags (some (a ∷ b ∷ [])) p2 s).1

  kmalloc_two :
      (p2 : Phys)
      → alloc_frame s.phys ≡ some (some a, p1)
      → alloc_frame p1 ≡ some (some b, p2)
      → kmalloc size flags s ≡ some (a, after_kmalloc p2)
  unfolding kmalloc after_kmalloc
  kmalloc_two p2 e1 e2 =
      let nonzero : (size == 0) ≡ false = ground arith in
      rw (kmalloc, nonzero, two_pages size lo hi, take_two s.phys p1 p2 a b e1 e2)

  after_kfree : Phys → Shim
  after_kfree q = record s { alloc_table = untouched; phys = q; mem = (after_kmalloc q).mem }

  kfree_two :
      (p2 q1 q2 : Phys)
      → align_down a page_size ≡ a
      → a ≢ 0
      → free_frame a p2 ≡ some q1
      → free_frame (a + page_size) q1 ≡ some q2
      → kfree a (after_kmalloc p2) ≡ some (after_kfree q2)
  unfolding kfree after_kmalloc after_kfree hand_out
  kfree_two p2 q1 q2 down pos g1 g2 =
      let nonzero : (a == 0) ≡ false = ground arith in
      rw (kfree, fresh, down, inserted a, removed a, nonzero, give_two p2 q1 q2 a g1 g2)

module _ (s : Shim) (v : IsValid s.phys) (fresh : s.alloc_table ≡ untouched) (f g : ℕ) where
  -- The two lowest free frames are not neighbours.
  pub record IsApart : Type 0 where
    pub next : IsNext s.phys f
    pub positive : 0 < f
    pub above : f + 1 < g
    pub within : g < s.phys.total_frames
    pub second_free : used s.phys g ≡ false
    pub between : (h : ℕ) → f < h → h < g → used s.phys h ≡ true

  second_next : (n : IsApart) (p1 : Phys) → Marked s.phys f p1 → IsNext p1 g
  second_next n p1 m = record {
    within = omega (arith, n.within, m.total);
    is_free = ground (arith, m.now_used g, n.above, n.second_free);
    lowest = λ h lt. ground (arith, m.now_used h, n.next.lowest h, n.between h);
  }

  -- `kfree` of what `kmalloc` handed out took the frame behind the first one from its owner, and
  -- left the second frame taken.
  pub record Steals (size flags : ℕ) : Type 0 where
    pub mallocd : Shim
    pub freed : Shim
    pub kmalloc_lem : kmalloc size flags s ≡ some (f * page_size, mallocd)
    pub kfree_lem : kfree (f * page_size) mallocd ≡ some freed
    pub was_used : used s.phys (f + 1) ≡ true
    pub now_free : used freed.phys (f + 1) ≡ false
    pub still_used : used freed.phys g ≡ true

  swapped :
      IsApart
      → (p1 p2 q1 q2 : Phys) → Marked p1 g p2
      → Freed p2 f q1
      → Freed q1 (f + 1) q2
      → (used q2 (f + 1) ≡ false) × (used q2 g ≡ true)
  swapped n p1 p2 q1 q2 m2 fr1 fr2 = (
    fr2.now_free (f + 1) ∙ rw (==_refl (f + 1)),
    ground (arith, fr2.now_free g, fr1.now_free g, m2.now_used g, n.above),
  )

  aligned : IsApart → align_down (f * page_size) page_size ≡ f * page_size
  aligned n = omega (arith, align_down_page (f * page_size), n.above, n.within, v.total)

  -- With a valid frame allocator whose two lowest free frames are not neighbours, and an empty
  -- table of allocations, `kmalloc` of more than one page and at most two succeeds; `kfree` of the
  -- result frees the frame behind the first one, which was in use before, and leaves the second of
  -- the two frames in use.
  pub kfree-Steals :
      (size flags : ℕ) → IsApart → page_size < size → size ≤ 2 * page_size → Steals size flags
  unfolding after_kfree
  kfree-Steals size flags n lo hi =
      let (p1, e1, m1) = alloc_next s.phys v f n.next in
      let (p2, e2, m2) = alloc_next p1 m1.valid g (second_next n p1 m1) in
      let (q1, g1, fr1) =
        free_at p2 m2.valid f (omega (arith, n.next.within, m1.total, m2.total)) in
      let (q2, g2, fr2) =
        free_at q1 fr1.valid (f + 1)
          (omega (arith, n.above, n.within, m1.total, m2.total, fr1.total)) in
      let b = g * page_size in
      let a = f * page_size in
      record {
        mallocd = after_kmalloc s s.phys size flags a b p1 lo hi fresh p2;
        freed = after_kfree s s.phys size flags a b p1 lo hi fresh q2;
        kmalloc_lem = kmalloc_two s s.phys size flags a b p1 lo hi fresh p2 e1 e2;
        kfree_lem =
            kfree_two s s.phys size flags a b p1 lo hi fresh p2 q1 q2 (aligned n)
              (λ e. absurd (omega (arith, n.positive, e))) g1 (rw next_page at g2);
        was_used = n.between (f + 1) (omega arith) n.above;
        now_free = (swapped n p1 p2 q1 q2 m2 fr1 fr2).0;
        still_used = (swapped n p1 p2 q1 q2 m2 fr1 fr2).1;
      }
    where
      next_page : (f + 1) * page_size ≡ f * page_size + page_size
      next_page = omega arith
