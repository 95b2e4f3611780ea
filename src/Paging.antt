-- ===== src/Paging.antt =====
-- kernel/src/memory/paging.rs: page tables in physical memory, over the frames of Memory/Phys. An
-- entry is eight bytes, little-endian. `none` is a panic: the allocator's, or that of `expect`.
pub mod Words
use nonameos.Prelude.{
  ℕ, ◌+◌, ◌-◌, ◌*◌, ◌/◌, ◌%◌, ◌^◌, Bool, true, false, not, ◌&&◌, Option, none, some, ◌>>=◌, ltb,
  leb, ◌==◌, if◌then◌else◌, bit_and, bit_or, usize_mod,
}
use nonameos.Memory.{page_size, complement}
use nonameos.Memory.Phys.{Phys, alloc_frame}
use nonameos.Vfs.Ramfs.{zero_bytes}

-- The frame allocator, the bytes of physical memory, and CR3.
pub record Machine : Type 0 where
  pub phys : Phys
  pub mem : ℕ → ℕ
  pub cr3 : ℕ

abbrev pub present_flag : ℕ
present_flag = 1

abbrev pub writable_flag : ℕ
writable_flag = 2

abbrev pub user_flag : ℕ
user_flag = 4

abbrev pub address_mask : ℕ
address_mask = 0x000FFFFFFFFFF000

-- `PageEntry::new`, `is_present`, `address`, `flags`
unfoldable pub new_entry : ℕ → ℕ → ℕ
new_entry phys_addr flags = bit_or (bit_and phys_addr address_mask) flags

unfoldable pub is_present : ℕ → Bool
is_present entry = not (bit_and entry present_flag == 0)

unfoldable pub address : ℕ → ℕ
address entry = bit_and entry address_mask

unfoldable pub flags : ℕ → ℕ
flags entry = bit_and entry (complement address_mask)

abbrev pub pml4_index : ℕ → ℕ
pml4_index virt = virt / 2 ^ 39 % 512

abbrev pub pdpt_index : ℕ → ℕ
pdpt_index virt = virt / 2 ^ 30 % 512

abbrev pub pd_index : ℕ → ℕ
pd_index virt = virt / 2 ^ 21 % 512

abbrev pub pt_index : ℕ → ℕ
pt_index virt = virt / 2 ^ 12 % 512

unfoldable pub read_u64 : (ℕ → ℕ) → ℕ → ℕ
read_u64 mem a =
    mem a
    + 0x100 * mem (a + 1)
    + 0x10000 * mem (a + 2)
    + 0x1000000 * mem (a + 3)
    + 0x100000000 * mem (a + 4)
    + 0x10000000000 * mem (a + 5)
    + 0x1000000000000 * mem (a + 6)
    + 0x100000000000000 * mem (a + 7)

unfoldable pub write_u64 : (ℕ → ℕ) → ℕ → ℕ → ℕ → ℕ
write_u64 mem a value x = if leb a x && ltb x (a + 8) then value / 256 ^ (x - a) % 256 else mem x

-- `table.entries[i]`
abbrev pub entry : ℕ → ℕ → Machine → ℕ
entry table i m = read_u64 m.mem (table + 8 * i)

abbrev pub set_entry : ℕ → ℕ → ℕ → Machine → Machine
set_entry table i value m = record m { mem = write_u64 m.mem (table + 8 * i) value }

abbrev pub zero_frame : ℕ → Machine → Machine
zero_frame addr m = record m { mem = zero_bytes m.mem addr page_size }

-- A new table for an entry that is not present.
unfoldable pub add_table : ℕ → ℕ → ℕ → Machine → Option Machine
add_table table i base_flags m = do
  (frame, p) ← alloc_frame m.phys
  elim frame [
    | none ↦ none
    | some addr ↦
        some
          (set_entry table i (new_entry addr base_flags) (zero_frame addr (record m { phys = p })))
  ]

-- The table below an entry, made where it is missing.
unfoldable pub next_table : ℕ → ℕ → ℕ → Machine → Option (ℕ × Machine)
unfolding add_table
next_table table i base_flags m =
    (if is_present (entry table i m) then some m else add_table table i base_flags m)
    >>= λ (m' : Machine). some (address (entry table i m'), m')

abbrev pub base_flags_of : Bool → ℕ
base_flags_of user = bit_or (bit_or present_flag writable_flag) (if user then user_flag else 0)

unfoldable pub map_page : ℕ → ℕ → ℕ → Bool → Machine → Option Machine
unfolding next_table
map_page pml4 virt_addr phys_addr user m = do
  let base_flags = base_flags_of user
  (pdpt, m1) ← next_table pml4 (pml4_index virt_addr) base_flags m
  (pd, m2) ← next_table pdpt (pdpt_index virt_addr) base_flags m1
  (pt, m3) ← next_table pd (pd_index virt_addr) base_flags m2
  some (set_entry pt (pt_index virt_addr) (new_entry phys_addr base_flags) m3)

unfoldable pub unmap_page : ℕ → ℕ → Machine → Machine
unmap_page pml4 virt_addr m =
    let e4 = entry pml4 (pml4_index virt_addr) m in
    let e3 = entry (address e4) (pdpt_index virt_addr) m in
    let e2 = entry (address e3) (pd_index virt_addr) m in
    if not (is_present e4)
    then m
    else if not (is_present e3)
    then m
    else if not (is_present e2)
    then m
    else set_entry (address e2) (pt_index virt_addr) 0 m
