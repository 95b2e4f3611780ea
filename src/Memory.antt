-- ===== src/Memory.antt =====
-- kernel/src/memory/mod.rs: page size and alignment of addresses, and the frame allocator below it.
pub mod Phys
pub mod Align
mod Tests
use nonameos.Prelude.{ℕ, ◌+◌, ◌-◌, ◌%◌, bit_and, usize_mod}

abbrev pub page_size : ℕ
page_size = 4096

-- `!x` on a `usize`.
abbrev pub complement : ℕ → ℕ
complement x = usize_mod - 1 - x

unfoldable pub align_down : ℕ → ℕ → ℕ
align_down addr align = bit_and addr (complement (align - 1))

unfoldable pub align_up : ℕ → ℕ → ℕ
align_up addr align = bit_and ((addr + align - 1) % usize_mod) (complement (align - 1))
