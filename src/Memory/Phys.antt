-- ===== src/Memory/Phys.antt =====
-- kernel/src/memory/phys.rs: the allocator of physical frames over a bitmap.
-- `none` is a panic: an index past the bitmap. The counters wrap as a `usize` does.
pub mod Bitmap
pub mod Count
pub mod Alloc
pub mod Init
use mathlib.Core.Option
use nonameos.Prelude.{
  ℕ, zero, suc, ◌+◌, ◌-◌, ◌*◌, ◌/◌, ◌%◌, min, Bool, true, false, List, Option, none, some,
  get_elem?, set, ◌>>=◌, replicate, usize_mod, add_usize, sub_usize,
}
use nonameos.Prelude.Bits.{set_bit_of, clear_bit_of, test_bit_of}
use nonameos.Memory.{page_size, align_up}

abbrev pub max_frames : ℕ
max_frames = 131072

abbrev pub bitmap_size : ℕ
bitmap_size = max_frames / 8

-- The static variables BITMAP, TOTAL_FRAMES and FREE_FRAMES.
pub record Phys : Type 0 where
  pub bitmap : List ℕ
  pub total_frames : ℕ
  pub free_frames : ℕ

cleared : ℕ → Phys
cleared size = record { bitmap = replicate size 0; total_frames = 0; free_frames = 0 }

-- The `.bss` section at boot.
pub boot : Phys
unfolding cleared
boot = cleared bitmap_size

unfoldable pub set_bit : ℕ → Phys → Option Phys
set_bit frame p = do
  byte ← get_elem? p.bitmap (frame / 8)
  some (record p { bitmap = set p.bitmap (frame / 8) (set_bit_of byte (frame % 8)) })

pub clear_bit : ℕ → Phys → Option Phys
clear_bit frame p = do
  byte ← get_elem? p.bitmap (frame / 8)
  some (record p { bitmap = set p.bitmap (frame / 8) (clear_bit_of byte (frame % 8)) })

unfoldable pub test_bit : ℕ → Phys → Option Bool
test_bit frame p = do byte ← get_elem? p.bitmap (frame / 8); some (test_bit_of byte (frame % 8))

abbrev pub addr_to_frame : ℕ → ℕ
addr_to_frame addr = addr / page_size

abbrev pub frame_to_addr : ℕ → ℕ
frame_to_addr frame = frame * page_size

-- `FREE_FRAMES -= 1` and `FREE_FRAMES += 1`.
abbrev pub take_one : Phys → Phys
take_one p = record p { free_frames = sub_usize p.free_frames 1 }

abbrev pub give_one : Phys → Phys
give_one p = record p { free_frames = add_usize p.free_frames 1 }

-- `for i in i..i + n { set_bit(i); FREE_FRAMES -= 1; }`
pub reserve : ℕ → ℕ → Phys → Option Phys
reserve zero i p = some p
reserve (suc n) i p = do q ← set_bit i p; reserve n (i + 1) (take_one q)

-- `for i in i..i + n { if !test_bit(i) { set_bit(i); FREE_FRAMES -= 1; } }`
pub reserve_clear : ℕ → ℕ → Phys → Option Phys
reserve_clear zero i p = some p
reserve_clear (suc n) i p = do
  used ← test_bit i p
  q ← elim used [ true ↦ some p | false ↦ Option.map take_one (set_bit i p) ]
  reserve_clear n (i + 1) q

pub init : ℕ → ℕ → ℕ → Phys → Option Phys
init memory_size kernel_start kernel_end p = do
  let total = min (memory_size / page_size) max_frames
  let reserved_frames = align_up (1024 * 1024) page_size / page_size
  let kstart_frame = addr_to_frame kernel_start
  let kend_frame = addr_to_frame (align_up kernel_end page_size)
  q ← reserve reserved_frames 0 (record p { total_frames = total; free_frames = total })
  reserve_clear (kend_frame - kstart_frame) kstart_frame q

-- The scan of `alloc_frame` over the frames `i..i + n`.
unfoldable pub alloc_from : ℕ → ℕ → Phys → Option (Option ℕ × Phys)
alloc_from zero i p = some (none, p)
alloc_from (suc n) i p = do
  used ← test_bit i p
  elim used [
    | true ↦ alloc_from n (i + 1) p
    | false ↦ Option.map (λ q. (some (frame_to_addr i), take_one q)) (set_bit i p)
  ]

unfoldable pub alloc_frame : Phys → Option (Option ℕ × Phys)
alloc_frame p = alloc_from p.total_frames 0 p

pub free_frame : ℕ → Phys → Option Phys
free_frame addr p = do
  used ← test_bit (addr_to_frame addr) p
  elim used [ true ↦ Option.map give_one (clear_bit (addr_to_frame addr) p) | false ↦ some p ]

pub free_memory_kb : Phys → ℕ
free_memory_kb p = p.free_frames * (page_size / 1024) % usize_mod

pub total_memory_kb : Phys → ℕ
total_memory_kb p = p.total_frames * (page_size / 1024) % usize_mod
