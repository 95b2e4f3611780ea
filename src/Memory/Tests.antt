-- ===== src/Memory/Tests.antt =====
-- Runs of the frame allocator over 2 MiB of memory with a kernel of four pages.
use nonameos.Prelude.{ℕ, ◌≤◌, ◌<◌, ◌≡◌, ◌*◌, ◌+◌, some, arith}
use nonameos.Memory.{page_size}
use nonameos.Memory.Phys.{Phys, boot, init, alloc_frame, free_frame}
use nonameos.Memory.Phys.Alloc.{IsValid, AllocatesFrom, Freed, alloc_frame_lem, free_frame_lem}
use nonameos.Memory.Phys.Init.{Started, managed, end_frame, init_lem}

abbrev memory_size : ℕ
memory_size = 0x200000

abbrev kernel_start : ℕ
kernel_start = 0x100000

abbrev kernel_end : ℕ
kernel_end = 0x103800

inside : end_frame kernel_end ≤ managed memory_size kernel_start kernel_end
inside = omega arith

init_lem_example :
    (q : Phys) × (init memory_size kernel_start kernel_end boot ≡ some q)
    × Started (managed memory_size kernel_start kernel_end) kernel_start kernel_end q
init_lem_example =
    init_lem memory_size kernel_start kernel_end (omega arith) (omega arith) (omega arith) inside

abbrev fresh : Phys
fresh = init_lem_example.0

abbrev fresh-IsValid : IsValid fresh
fresh-IsValid = init_lem_example.2.valid

alloc_frame_lem_example : AllocatesFrom fresh (alloc_frame fresh)
alloc_frame_lem_example = alloc_frame_lem fresh fresh-IsValid

managed_here : 300 < fresh.total_frames
managed_here = omega (arith, init_lem_example.2.total_frames)

free_frame_lem_example :
    (q : Phys) × (free_frame (300 * page_size + 12) fresh ≡ some q) × Freed fresh 300 q
free_frame_lem_example = free_frame_lem fresh fresh-IsValid 300 managed_here 12 (omega arith)
