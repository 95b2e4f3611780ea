-- ===== src/Userspace/Tests.antt =====
-- A new address space in a machine of eight frames.
use nonameos.Prelude.{
  inr, ℕ, ◌-◌, ◌≡◌, refl, ap, ◌∷◌, Option, none, some, replicate, arith, if◌then◌else◌, ◌==◌,
}
use nonameos.Memory.Phys.{alloc_frame, alloc_from, test_bit, set_bit, bitmap_size}
use nonameos.Prelude.Bits.{test_bit_of}
use nonameos.Paging.{Machine}
use nonameos.Paging.Words.{IsBytes}
use nonameos.Userspace.{create_address_space}
use nonameos.Userspace.Space.{IsNewSpace, create_address_space-IsNewSpace}

-- The entries of the current table are those at boot: the first leads to the next table.
abbrev boot_machine : Machine
boot_machine = record {
  phys = record { bitmap = 3 ∷ replicate (bitmap_size - 1) 0; total_frames = 8; free_frames = 6 };
  mem = λ a. if a == 4096 then 3 else 0;
  cr3 = 4096;
}

abbrev space : Option (Option ℕ × Machine)
space = create_address_space boot_machine

abbrev found : Option (Option ℕ × Machine) → Option ℕ
found none = none
found (some (frame, m)) = frame

abbrev machine_of : Option (Option ℕ × Machine) → Machine
machine_of none = boot_machine
machine_of (some (frame, after)) = after

made :
    (r : Option (Option ℕ × Machine)) (frame : ℕ)
    → found r ≡ some frame
    → r ≡ some (some frame, machine_of r)
made none frame e = absurd (cc e)
made (some (none, m)) frame e = absurd (cc e)
made (some (some k, m)) frame e =
    let same : k ≡ frame = cc e in ap (λ (j : ℕ). some (some j, m)) same

found_frame : found space ≡ some 8192
unfolding create_address_space alloc_frame alloc_from test_bit set_bit test_bit_of
found_frame = refl

boot-IsBytes : IsBytes boot_machine.mem
boot-IsBytes x = ground arith

create_address_space-IsNewSpace_example : IsNewSpace 8192 boot_machine (machine_of space)
create_address_space-IsNewSpace_example =
    create_address_space-IsNewSpace boot_machine (machine_of space) 8192 boot-IsBytes
      (inr (omega arith)) (made space 8192 found_frame)
