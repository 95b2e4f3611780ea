-- ===== src/Lib.antt =====
-- NoNameOS: the state machines of the kernel under kernel/src.
--
-- The kernel keeps its state in static variables, each owned by one source file. A model of a file is
-- a record of its statics, and every function of the file is a function from that record to its
-- result and the next record. Machine integers are natural numbers; where the source adds or
-- subtracts on `usize`, `u64` or `u32`, the model wraps around at the width, which is what the release
-- build does. An access to the frame bitmap past its end is a panic and gives `none`. The other tables
-- have fixed sizes and are accessed below tests or loop bounds on the index.
--
-- The parts and their files:
--   Prelude     shared tests, lists, counts, bits, masks, wrap-around and the search for a first match.
--   Memory      kernel/src/memory/mod.rs: align_down, align_up. Memory/Phys is memory/phys.rs: the
--               bitmap (set_bit, clear_bit, test_bit), init, alloc_frame, free_frame.
--               Specification: `Bitmap.used`, the frames in use; the counter counts the others.
--   Task        kernel/src/task.rs: Thread, Process, names, numbers. Task/Context is the assembly
--               routine switch_to of scheduler.rs, on registers and a memory of 8-byte words.
--   Scheduler   kernel/src/scheduler.rs: init, schedule (its parts preempt, select, dispatch and
--               switch are named after what they do), timer_tick, sleep_ticks, wake_sleeping_threads,
--               exit_current, block_current, unblock_thread and the queries. The scheduler calls
--               switch_to of Task/Context, and the timer interrupt calls timer_tick. Scheduler/Spawn
--               is alloc_kernel_stack (its frames in Spawn/Stack), over the frames of Memory/Phys,
--               spawn_kernel_thread and spawn_kernel_thread_with_priority (Spawn/Start). Scheduler/Life
--               has the histories of all of these from init on, over the frame allocator too.
--   Ipc         kernel/src/ipc.rs: messages, rings, and the table of endpoints. Ipc/Spec is the
--               abstract registry: channels with a bounded FIFO each.
--   Keyboard    kernel/src/keyboard.rs: the interrupt's side (handle_scancode) and the reader's side
--               (read_char), which meet in a ring of 256 characters.
--   Objects     kernel/src/win32/object.rs: HandleTable (alloc, get, close, duplicate). Objects/Store
--               is the pool (create_object, reference_object, dereference_object, lookup_object) and,
--               across both, open_object and close_handle. Specification: a table maps handles to
--               entries, and every handle is covered by a reference.
--   Vfs         kernel/src/vfs/mod.rs: the tables, their slots and path_lookup. Vfs/Ramfs, with
--               Vfs/Ramfs/Mount for its init, is vfs/ramfs.rs, over the frames of Memory/Phys and the
--               bytes of physical memory. Vfs/Api is the calls on paths and descriptors; `open_path`
--               is the source's `open`. A function pointer of an operation table is a tag, and
--               call_read, call_write and call_create call what it stands for. Specification: a path
--               is the list of its names, and a file is its bytes.
--   Status      kernel/src/win32/error.rs and the status words of win32/types.rs: severities, and the
--               conversions between NTSTATUS and Win32 codes.
--   Pe          kernel/src/win32/pe.rs: Pe/Layout is the packed structures, and Pe the checks, over a
--               file as a list of bytes. Specification: `Verdict.IsImage`, the format as facts about
--               the bytes. Pe/Imports is section_name, rva_to_offset and log_imports of loader.rs.
--   Nt          kernel/src/win32/ntapi.rs: the services over the handle table and the pool of Objects.
--   Drivers     kernel/src/drivers/mod.rs: devices, drivers, and how they are matched. A probe is a
--               function on the device.
--   Paging      kernel/src/memory/paging.rs: map_page and unmap_page over tables in physical memory.
--               Paging/Words has the walk of the processor.
--   Userspace   kernel/src/userspace.rs: address spaces, the pages of an image, the stack of a process.
--   Loader      kernel/src/loader.rs, load_pe and load_raw_binary: the checks of Pe, then the mapping by
--               Userspace, as one chain that ends at the first error.
--   Shim        kernel/src/drivers/linux_shim/mod.rs: kmalloc and kfree over the frames of Memory/Phys
--               and the table of allocations. Shim/Locks is the spin lock as a step relation.
--   Syscall     kernel/src/syscall.rs: the dispatch by number and the calls, over Vfs, Ipc and Scheduler.
--               A pointer of the user is an address in the memory that the file system's pages are in.
--   Multiboot   kernel/src/multiboot2.rs: the iterator over the tags of the boot loader, and what is
--               looked up in them. Specification: `Walk.Tags`, the chain of the tags in memory.
--   Screen      kernel/src/vga.rs: the writer, over the cells of the text buffer.
--   Diagnostics kernel/src/ktest.rs: run_all in two parts, the loop over the tests (Diagnostics) and
--               the choice of health and boot mode (Diagnostics/Select), runtime_health_check
--               (Diagnostics/Runtime), and the table of tests with the memory checks
--               (Diagnostics/Table). Specification: the boot mode as a function of the health.
--
-- Loops run over fixed tables, so each is recursion on the number of rounds left, with the bound that
-- the source writes. The loop of path_lookup has fuel, the length of the path, and each of its
-- rounds consumes a byte. The walk over the imports has as fuel the end of the last section and one
-- round more: it stops at the latest where its address leaves the sections. The walk over the boot
-- tags has as fuel the size of the information, since a tag takes at least 8 bytes.
--
-- The keyboard's state and the object pool are behind mutexes that are held within one call, so a
-- history of calls is a sequence of whole steps. The scheduler, the endpoint table and the file system
-- are statics without a lock; their histories are taken as sequences of whole calls too, which leaves
-- out an interrupt in the middle of one. Shim/Locks takes the atomic operations of a lock one by one, in
-- any order.
--
-- Parameters: the diagnostic tests and recoveries, the quick checks and the probes of drivers are
-- functions on the state that they look at, and the test of a command line for UTF-8 is one on bytes;
-- the theorems hold for all of them, or name what they need.
--
-- Not modelled: port and MSR access and descriptor tables (gdt.rs, idt.rs, pic.rs, serial.rs,
-- drivers/bus/pci.rs), the pixels of framebuffer.rs, formatted printing, the boot sequence
-- (lib.rs), the entries into the kernel and into user mode, the declarations of win32/subsys.rs and
-- the rest of win32/types.rs, the device access and the delays of the Linux shim, and the test
-- functions of ktest.rs but for the memory checks.
pub mod Prelude
pub mod Diagnostics
pub mod Drivers
pub mod Ipc
pub mod Keyboard
pub mod Loader
pub mod Memory
pub mod Multiboot
pub mod Nt
pub mod Objects
pub mod Paging
pub mod Pe
pub mod Scheduler
pub mod Screen
pub mod Shim
pub mod Status
pub mod Syscall
pub mod Task
pub mod Userspace
pub mod Vfs
