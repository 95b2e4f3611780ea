-- ===== src/Prelude/Words.antt =====
-- `usize` and `u64` arithmetic, which wraps.
use Prim.Native.Nat.{ℕ, ◌+◌, ◌-◌, ◌%◌, ◌^◌}

abbrev pub usize_mod : ℕ
usize_mod = 2 ^ 64

abbrev pub add_usize : ℕ → ℕ → ℕ
add_usize a b = (a + b) % usize_mod

-- For operands below the modulus.
abbrev pub sub_usize : ℕ → ℕ → ℕ
sub_usize a b = (a + usize_mod - b) % usize_mod
