-- ===== src/Shim.antt =====
-- kernel/src/drivers/linux_shim/mod.rs: kmalloc and kfree over the frames of Memory/Phys, the lock and
-- the atomic numbers. A pointer is its address, and null is 0. `none` is a panic of the allocator.
pub mod Frames
pub mod Locks
mod Tests
use mathlib.Core.Option
use nonameos.Prelude.{
  ℕ, zero, suc, ◌+◌, ◌-◌, ◌*◌, ◌/◌, ◌%◌, Bool, true, false, not, ◌&&◌, List, [], ◌∷◌, ◌++◌, Option,
  none, some, ◌>>=◌, get_or, set, replicate, ltb, leb, ◌==◌, if◌then◌else◌, add_usize, bit_and,
  bit_or,
}
use nonameos.Prelude.Find.{find_index}
use nonameos.Memory.{page_size, align_down, align_up}
use nonameos.Memory.Phys.{Phys, alloc_frame, free_frame}
use nonameos.Objects.Store.{u32_mod}
use nonameos.Vfs.Ramfs.{zero_bytes}

pub record AllocEntry : Type 0 where
  pub addr : ℕ
  pub page_count : ℕ

abbrev pub empty_alloc : AllocEntry
empty_alloc = record { addr = 0; page_count = 0 }

abbrev pub max_alloc_entries : ℕ
max_alloc_entries = 256

-- ALLOC_TABLE, the frame allocator and the bytes of physical memory. The spin lock is held within
-- `alloc_table_insert` and `alloc_table_remove`.
pub record Shim : Type 0 where
  pub alloc_table : List AllocEntry
  pub phys : Phys
  pub mem : ℕ → ℕ

unfoldable pub alloc_table_insert : ℕ → ℕ → List AllocEntry → List AllocEntry
alloc_table_insert addr pages table = elim (find_index (λ (e : AllocEntry). e.addr == 0) table) [
  | none ↦ table
  | some i ↦ set table i (record { addr = addr; page_count = pages })
]

unfoldable pub alloc_table_remove : ℕ → List AllocEntry → ℕ × List AllocEntry
alloc_table_remove addr table = elim (find_index (λ (e : AllocEntry). e.addr == addr) table) [
  | none ↦ (0, table)
  | some i ↦ ((get_or table i empty_alloc).page_count, set table i empty_alloc)
]

abbrev pub gfp_zero : ℕ
gfp_zero = 0x8

abbrev pub max_pages_per_alloc : ℕ
max_pages_per_alloc = 64

-- `for j in 0..allocated { phys::free_frame(frames[j]); }`
unfoldable pub give_frames : List ℕ → Phys → Option Phys
give_frames [] p = some p
give_frames (addr ∷ frames) p = free_frame addr p >>= give_frames frames

-- The loop over the pages, with the frames so far; `none` in the result when one is missing.
unfoldable pub take_frames : ℕ → List ℕ → Phys → Option (Option (List ℕ) × Phys)
unfolding give_frames
take_frames zero frames p = some (some frames, p)
take_frames (suc n) frames p = do
  (frame, q) ← alloc_frame p
  elim frame [
    | some addr ↦ take_frames n (frames ++ (addr ∷ [])) q
    | none ↦ Option.map (λ (r : Phys). (none, r)) (give_frames frames q)
  ]

-- The frames are taken to be one block, which starts at the first.
unfoldable pub hand_out : ℕ → ℕ → Option (List ℕ) → Phys → Shim → ℕ × Shim
unfolding alloc_table_insert
hand_out pages flags none p s = (0, record s { phys = p })
hand_out pages flags (some frames) p s =
    let ptr = get_or frames 0 0 in
    (
      ptr,
      record {
        alloc_table = alloc_table_insert ptr pages s.alloc_table;
        phys = p;
        mem =
            if bit_and flags gfp_zero == 0 then s.mem else zero_bytes s.mem ptr (pages * page_size);
      },
    )

unfoldable pub kmalloc : ℕ → ℕ → Shim → Option (ℕ × Shim)
unfolding take_frames hand_out
kmalloc size flags s =
    let pages_needed = align_up size page_size / page_size in
    if size == 0
    then some (0, s)
    else if ltb max_pages_per_alloc pages_needed
    then some (0, s)
    else take_frames pages_needed [] s.phys >>= λ (r : Option (List ℕ) × Phys).
        some (hand_out pages_needed flags r.0 r.1 s)

abbrev pub kzalloc : ℕ → ℕ → Shim → Option (ℕ × Shim)
kzalloc size flags = kmalloc size (bit_or flags gfp_zero)

-- `for i in 0..pages { phys::free_frame(frame_addr + i * PAGE_SIZE); }`
unfoldable pub give_block : ℕ → ℕ → Phys → Option Phys
give_block zero addr p = some p
give_block (suc n) addr p = free_frame addr p >>= give_block n (addr + page_size)

unfoldable pub kfree : ℕ → Shim → Option Shim
unfolding alloc_table_remove give_block
kfree ptr s =
    let frame_addr = align_down ptr page_size in
    let (pages, table) = alloc_table_remove frame_addr s.alloc_table in
    if ptr == 0
    then some s
    else Option.map (λ (p : Phys). record s { alloc_table = table; phys = p })
        (if pages == 0 then free_frame frame_addr s.phys else give_block pages frame_addr s.phys)

abbrev pub identity_map_limit : ℕ
identity_map_limit = 0x4000_0000

abbrev pub ioremap : ℕ → Option ℕ
ioremap phys_addr = if ltb phys_addr identity_map_limit then some phys_addr else none

-- `AtomicInt` and `AtomicUint` by their bit patterns: the old value and the new one.
unfoldable pub fetch_add : ℕ → ℕ → ℕ × ℕ
fetch_add val old = (old, (old + val) % u32_mod)

unfoldable pub fetch_sub : ℕ → ℕ → ℕ × ℕ
fetch_sub val old = (old, (old + u32_mod - val) % u32_mod)

pub data LogLevel : Type 0 where
  emergency alert critical error warning notice info debug : LogLevel

abbrev pub level_code : LogLevel → ℕ
level_code emergency = 0
level_code alert = 1
level_code critical = 2
level_code error = 3
level_code warning = 4
level_code notice = 5
level_code info = 6
level_code debug = 7

-- The test of `driver_log!`.
abbrev pub is_logged : LogLevel → LogLevel → Bool
is_logged level current = leb (level_code level) (level_code current)
