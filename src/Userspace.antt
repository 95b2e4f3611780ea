-- ===== src/Userspace.antt =====
-- kernel/src/userspace.rs: address spaces and the pages of an image, over Paging.
mod Tests
pub mod Space
use mathlib.Core.Option
use nonameos.Prelude.{
  ℕ, zero, suc, ◌+◌, ◌-◌, ◌*◌, ◌/◌, ◌%◌, min, Bool, true, false, List, [], Option, none, some,
  ◌>>=◌, length, take, drop, ltb, leb, ◌==◌, if◌then◌else◌, add_usize, sub_usize,
}
use nonameos.Memory.{page_size}
use nonameos.Task.{Ids, alloc_pid, alloc_tid}
use nonameos.Memory.Phys.{Phys, alloc_frame}
use nonameos.Vfs.Ramfs.{copy_bytes}
use nonameos.Paging.{Machine, entry, set_entry, zero_frame, map_page}

abbrev pub user_image_base : ℕ
user_image_base = 0x400000

abbrev pub user_stack_top : ℕ
user_stack_top = 0x7FFFFFFF0000

abbrev pub user_stack_size : ℕ
user_stack_size = 16 * 4096

abbrev pub max_image_pages : ℕ
max_image_pages = 256

-- `for i in 256..512`: the kernel's half of the current space.
unfoldable pub copy_entries : ℕ → ℕ → ℕ → Machine → Machine
copy_entries zero i new_pml4 m = m
copy_entries (suc n) i new_pml4 m =
    copy_entries n (i + 1) new_pml4 (set_entry new_pml4 i (entry m.cr3 i m) m)

-- The new table, cleared, with the kernel's half of the current one.
unfoldable pub new_space : Option ℕ → Phys → Machine → Option ℕ × Machine
unfolding copy_entries
new_space none p m = (none, record m { phys = p })
new_space (some new_pml4) p m =
    (some new_pml4, copy_entries 256 256 new_pml4 (zero_frame new_pml4 (record m { phys = p })))

unfoldable pub create_address_space : Machine → Option (Option ℕ × Machine)
unfolding new_space
create_address_space m = do (frame, p) ← alloc_frame m.phys; some (new_space frame p m)

-- The part of the image for the page at `offset`, in a cleared frame.
unfoldable pub fill_frame : ℕ → List ℕ → ℕ → Machine → Machine
fill_frame frame file offset m =
    let cleared = zero_frame frame m in
    let len = min (offset + page_size) (length file) - offset in
    if ltb offset (length file)
    then record cleared { mem = copy_bytes cleared.mem frame (take len (drop offset file)) }
    else cleared

-- `for i in 0..num_pages`
unfoldable pub map_pages : ℕ → ℕ → ℕ → ℕ → List ℕ → Machine → Option (Bool × Machine)
unfolding fill_frame
map_pages zero i cr3 virt_base file m = some (true, m)
map_pages (suc n) i cr3 virt_base file m = do
  let offset = i * page_size
  (frame, p) ← alloc_frame m.phys
  elim frame [
    | none ↦ some (false, record m { phys = p })
    | some addr ↦
        map_page cr3 (add_usize virt_base offset) addr true
          (fill_frame addr file offset (record m { phys = p }))
        >>= map_pages n (i + 1) cr3 virt_base file
  ]

abbrev pub num_pages : ℕ → ℕ
num_pages total_size = sub_usize (add_usize total_size page_size) 1 / page_size

unfoldable pub map_user_pages : ℕ → ℕ → List ℕ → ℕ → Machine → Option (Bool × Machine)
unfolding map_pages
map_user_pages cr3 virt_base file total_size m =
    if ltb max_image_pages (num_pages total_size)
    then some (false, m)
    else map_pages (num_pages total_size) 0 cr3 virt_base file m

-- `if map_user_pages(..) { Some(USER_STACK_TOP) } else { None }`
abbrev pub stack_or_none : Bool × Machine → Option ℕ × Machine
stack_or_none (mapped, m) = (if mapped then some user_stack_top else none, m)

unfoldable pub alloc_user_stack : ℕ → Machine → Option (Option ℕ × Machine)
unfolding map_user_pages
alloc_user_stack cr3 m =
    Option.map stack_or_none
      (map_user_pages cr3 (user_stack_top - user_stack_size) [] user_stack_size m)

pub record UserProcess : Type 0 where
  pub pid : ℕ
  pub tid : ℕ
  pub cr3 : ℕ
  pub entry_point : ℕ
  pub stack_top : ℕ

unfoldable pub map_process : ℕ → List ℕ → ℕ → Machine → Option (Option ℕ × Machine)
unfolding alloc_user_stack
map_process cr3 image image_size m = do
  (mapped, m') ← map_user_pages cr3 user_image_base image image_size m
  elim mapped [ false ↦ some (none, m') | true ↦ alloc_user_stack cr3 m' ]

-- The numbers are taken when everything is mapped. The `Process` that the source builds is dropped.
unfoldable pub number_process :
    ℕ → ℕ → Option ℕ × Machine → Ids → Option UserProcess × Ids × Machine
unfolding alloc_pid alloc_tid
number_process cr3 entry_rva (none, m) ids = (none, ids, m)
number_process cr3 entry_rva (some stack_top, m) ids =
    let (pid, ids1) = alloc_pid ids in
    let (tid, ids2) = alloc_tid ids1 in
    (
      some (record {
        pid = pid;
        tid = tid;
        cr3 = cr3;
        entry_point = add_usize user_image_base entry_rva;
        stack_top = stack_top;
      }),
      ids2,
      m,
    )

unfoldable pub create_process :
    List ℕ → ℕ → ℕ → Ids → Machine → Option (Option UserProcess × Ids × Machine)
unfolding create_address_space map_process number_process
create_process image image_size entry_rva ids m = do
  (space, m') ← create_address_space m
  elim space [
    | none ↦ some (none, ids, m')
    | some cr3 ↦
        Option.map (λ r. number_process cr3 entry_rva r ids) (map_process cr3 image image_size m')
  ]
