-- ===== src/Userspace/Space.antt =====
-- What a new address space of kernel/src/userspace.rs maps.
use nonameos.Prelude.{
  ◌⊎◌, ◌==◌, Bool-cases, sym, refl, eq_of_test, ℕ, zero, suc, ◌+◌, ◌*◌, ◌^◌, ◌≤◌, ◌<◌, ◌≡◌, ap,
  subst, ◌∙◌, Option, none, some, inl, inr, Option-cases, arith,
}
use nonameos.Memory.Phys.{Phys, alloc_frame}
use nonameos.Paging.{write_u64, Machine, entry, set_entry, zero_frame, pml4_index}
use nonameos.Paging.Words.{
  IsBytes, read_u64_congr, read_u64-write_u64, read_u64-lt, write_u64-IsBytes, write_u64-elsewhere,
  read_u64-zero, translate, translate_empty,
}
use nonameos.Userspace.{new_space, copy_entries, create_address_space}

-- The lower half of the table is zero.
abbrev LowerZero : ℕ → Machine → Type 0
LowerZero table m = (x : ℕ) → table ≤ x → x < table + 2048 → m.mem x ≡ 0

copy_entries-LowerZero :
    (n i table : ℕ) (m : Machine)
    → 256 ≤ i
    → LowerZero table m
    → LowerZero table (copy_entries n i table m)
unfolding copy_entries
copy_entries-LowerZero zero i table m le h = h
copy_entries-LowerZero (suc n) i table m le h =
    copy_entries-LowerZero n (i + 1) table (set_entry table i (entry m.cr3 i m) m) (omega arith)
      (λ x lo hi.
        write_u64-elsewhere m.mem (table + 8 * i) (entry m.cr3 i m) x (inl (omega arith))
        ∙ h x lo hi)

entry-zero : (table i : ℕ) (m : Machine) → i < 256 → LowerZero table m → entry table i m ≡ 0
entry-zero table i m lt h =
    read_u64-zero m.mem (table + 8 * i) (λ x lo hi. h x (omega arith) (omega arith))

zeroed : (table : ℕ) (m : Machine) → LowerZero table (zero_frame table m)
zeroed table m x lo hi = ground arith

-- Copying touches the copied entries only.
copy_entries-elsewhere :
    (n i table x : ℕ) (m : Machine)
    → (x < table + 8 * i) ⊎ (table + 8 * (i + n) ≤ x)
    → (copy_entries n i table m).mem x ≡ m.mem x
unfolding copy_entries
copy_entries-elsewhere zero i table x m out = refl
copy_entries-elsewhere (suc n) i table x m (inl low) =
    copy_entries-elsewhere n (i + 1) table x (set_entry table i (entry m.cr3 i m) m)
      (inl (omega (arith, low)))
    ∙ write_u64-elsewhere m.mem (table + 8 * i) (entry m.cr3 i m) x (inl low)
copy_entries-elsewhere (suc n) i table x m (inr high) =
    copy_entries-elsewhere n (i + 1) table x (set_entry table i (entry m.cr3 i m) m)
      (inr (omega (arith, high)))
    ∙ write_u64-elsewhere m.mem (table + 8 * i) (entry m.cr3 i m) x (inr (omega (arith, high)))

abbrev pub Apart : ℕ → ℕ → Type 0
Apart a b = (a + 4096 ≤ b) ⊎ (b + 4096 ≤ a)

copy_entries-copied :
    (n i j table : ℕ) (m : Machine)
    → IsBytes m.mem
    → Apart table m.cr3
    → i + n ≤ 512
    → i ≤ j
    → j < i + n
    → entry table j (copy_entries n i table m) ≡ entry m.cr3 j m
unfolding copy_entries
copy_entries-copied zero i j table m b apart fits lo hi = absurd (omega (arith, lo, hi))
copy_entries-copied (suc n) i j table m b apart fits lo hi =
    let m1 = set_entry table i (entry m.cr3 i m) m in
    elim (Bool-cases (j == i)) [
      | inl here ↦
          subst (λ (k : ℕ). entry table k (copy_entries n (i + 1) table m1) ≡ entry m.cr3 k m)
            (sym (eq_of_test j i here)) first
      | inr on ↦
          copy_entries-copied n (i + 1) j table m1
            (write_u64-IsBytes m.mem (table + 8 * i) (entry m.cr3 i m) b) apart
            (omega (arith, fits)) (ground (arith, lo, on)) (omega (arith, hi))
          ∙ read_u64_congr m1.mem m.mem (m.cr3 + 8 * j) (λ x low high.
            write_u64-elsewhere m.mem (table + 8 * i) (entry m.cr3 i m) x (outside x low high))
    ]
  where
    first :
        entry table i (copy_entries n (i + 1) table (set_entry table i (entry m.cr3 i m) m))
        ≡ entry m.cr3 i m
    first =
        read_u64_congr _ (write_u64 m.mem (table + 8 * i) (entry m.cr3 i m)) (table + 8 * i)
          (λ x low high.
            copy_entries-elsewhere n (i + 1) table x (set_entry table i (entry m.cr3 i m) m)
              (inl (omega (arith, high))))
        ∙ read_u64-write_u64 m.mem (table + 8 * i) (entry m.cr3 i m)
            (read_u64-lt m.mem (m.cr3 + 8 * i) b)

    outside :
        (x : ℕ)
        → m.cr3 + 8 * j ≤ x
        → x < m.cr3 + 8 * j + 8
        → (x < table + 8 * i) ⊎ (table + 8 * i + 8 ≤ x)
    outside x low high = elim apart [
      | inl above ↦ inr (omega (arith, above, low, fits))
      | inr below ↦ inl (omega (arith, below, high, hi, fits))
    ]

-- The kernel's half of a table is that of the current one.
abbrev pub UpperSame : ℕ → Machine → Machine → Type 0
UpperSame table m m' = (i : ℕ) → 256 ≤ i → i < 512 → entry table i m' ≡ entry m.cr3 i m

zeroed-IsBytes : (table : ℕ) (m : Machine) → IsBytes m.mem → IsBytes (zero_frame table m).mem
zeroed-IsBytes table m b x = ground (arith, b x)

copied-UpperSame :
    (table : ℕ) (m : Machine) (p : Phys)
    → IsBytes m.mem
    → Apart table m.cr3
    → UpperSame table m (copy_entries 256 256 table (zero_frame table (record m { phys = p })))
copied-UpperSame table m p b apart i lo hi =
    copy_entries-copied 256 256 i table (zero_frame table (record m { phys = p }))
      (zeroed-IsBytes table (record m { phys = p }) b) apart (omega arith) lo (omega (arith, hi))
    ∙ read_u64_congr (zero_frame table (record m { phys = p })).mem m.mem (m.cr3 + 8 * i)
        (λ x low high. ground (arith, low, high, hi, apart))

new_space-LowerZero :
    (found : Option ℕ) (p : Phys) (m m' : Machine) (space : ℕ)
    → new_space found p m ≡ (some space, m')
    → LowerZero space m'
unfolding new_space
new_space-LowerZero none p m m' space e = absurd (cc e)
new_space-LowerZero (some frame) p m m' space e =
    let start = zero_frame frame (record m { phys = p }) in
    let lower =
      copy_entries-LowerZero 256 256 frame start (omega arith)
        (zeroed frame (record m { phys = p })) in
    let here : frame ≡ space = cc e in
    let same : copy_entries 256 256 frame start ≡ m' = ap (λ (r : Option ℕ × Machine). r.1) e in
    subst (λ (k : ℕ). LowerZero k m') here (subst (LowerZero frame) same lower)

new_space-UpperSame :
    (found : Option ℕ) (p : Phys) (m m' : Machine) (space : ℕ)
    → IsBytes m.mem
    → Apart space m.cr3
    → new_space found p m ≡ (some space, m')
    → UpperSame space m m'
unfolding new_space
new_space-UpperSame none p m m' space b apart e = absurd (cc e)
new_space-UpperSame (some frame) p m m' space b apart e =
    let here : space ≡ frame = cc e in
    let same : copy_entries 256 256 frame (zero_frame frame (record m { phys = p })) ≡ m' =
      ap (λ (r : Option ℕ × Machine). r.1) e in
    subst (λ (k : ℕ). UpperSame k m m') (sym here)
      (subst (UpperSame frame m) same
        (copied-UpperSame frame m p b (subst (λ (k : ℕ). Apart k m.cr3) here apart)))

module _ (m m' : Machine) (space : ℕ) where
  step :
      (found : Option ℕ) (p : Phys)
      → alloc_frame m.phys ≡ some (found, p)
      → create_address_space m ≡ some (some space, m')
      → new_space found p m ≡ (some space, m')
  unfolding create_address_space
  step found p reads e = let made_space = rw (create_address_space, reads) at e in cc made_space

  made : create_address_space m ≡ some (some space, m') → LowerZero space m'
  unfolding create_address_space
  made e = elim (Option-cases (alloc_frame m.phys)) [
    | inl stops ↦ absurd (cc (e, stops))
    | inr ((found, p), reads) ↦ new_space-LowerZero found p m m' space (step found p reads e)
  ]

  kernel_half :
      IsBytes m.mem
      → Apart space m.cr3
      → create_address_space m ≡ some (some space, m')
      → UpperSame space m m'
  unfolding create_address_space
  kernel_half b apart e = elim (Option-cases (alloc_frame m.phys)) [
    | inl stops ↦ absurd (cc (e, stops))
    | inr ((found, p), reads) ↦
        new_space-UpperSame found p m m' space b apart (step found p reads e)
  ]

-- A table with an empty lower half and the upper half of the current one.
pub record IsNewSpace (space : ℕ) (m m' : Machine) : Type 0 where
  pub lower : (virt : ℕ) → virt < 2 ^ 47 → translate space virt m' ≡ none
  pub upper : (i : ℕ) → 256 ≤ i → i < 512 → entry space i m' ≡ entry m.cr3 i m

-- Where `create_address_space` succeeds, over a memory of bytes and with a frame that does not
-- overlap the current table, the new table has the upper half of the current one and translates no
-- address of the lower half: whatever the current table maps there, the new one does not.
pub create_address_space-IsNewSpace :
    (m m' : Machine) (space : ℕ)
    → IsBytes m.mem
    → Apart space m.cr3
    → create_address_space m ≡ some (some space, m')
    → IsNewSpace space m m'
create_address_space-IsNewSpace m m' space b apart e = record {
  lower = λ virt lt.
      translate_empty space virt m'
        (entry-zero space (pml4_index virt) m' (omega (arith, lt)) (made m m' space e));
  upper = kernel_half m m' space b apart e;
}
