-- ===== src/Paging/Words.antt =====
-- Entries in memory, and the walk that the processor makes through the tables.
use nonameos.Prelude.{
  ◌*◌, ◌/◌, ◌%◌, ◌^◌, ◌-◌, ℕ, ◌+◌, ◌≤◌, ◌<◌, ◌≡◌, ◌⊎◌, inl, inr, Option, none, some, if◌then◌else◌,
  arith,
}
use nonameos.Paging.{
  Machine, read_u64, write_u64, is_present, address, entry, pml4_index, pdpt_index, pd_index,
  pt_index,
}

-- A write does not touch the bytes outside of its eight.
pub write_u64-elsewhere :
    (mem : ℕ → ℕ) (a v x : ℕ) → (x < a) ⊎ (a + 8 ≤ x) → write_u64 mem a v x ≡ mem x
unfolding write_u64
write_u64-elsewhere mem a v x (inl below) = ground arith
write_u64-elsewhere mem a v x (inr above) = ground arith

-- A word of zero bytes is 0.
pub read_u64-zero :
    (mem : ℕ → ℕ) (a : ℕ) → ((x : ℕ) → a ≤ x → x < a + 8 → mem x ≡ 0) → read_u64 mem a ≡ 0
unfolding read_u64
read_u64-zero mem a h = omega (
  arith,
  h a (omega arith) (omega arith),
  h (a + 1) (omega arith) (omega arith),
  h (a + 2) (omega arith) (omega arith),
  h (a + 3) (omega arith) (omega arith),
  h (a + 4) (omega arith) (omega arith),
  h (a + 5) (omega arith) (omega arith),
  h (a + 6) (omega arith) (omega arith),
  h (a + 7) (omega arith) (omega arith),
)

-- The frame that the processor finds for a virtual address, through tables of four levels.
abbrev pub descend : ℕ → ℕ → Machine → Option ℕ
descend table i m = if is_present (entry table i m) then some (address (entry table i m)) else none

abbrev pub below : Option ℕ → (ℕ → Option ℕ) → Option ℕ
below none walk = none
below (some table) walk = walk table

pub translate : ℕ → ℕ → Machine → Option ℕ
translate pml4 virt m = below (descend pml4 (pml4_index virt) m) (λ pdpt.
    below (descend pdpt (pdpt_index virt) m)
      (λ pd. below (descend pd (pd_index virt) m) (λ pt. descend pt (pt_index virt) m)))

-- An empty entry of the first table leads nowhere.
pub translate_empty :
    (pml4 virt : ℕ) (m : Machine)
    → entry pml4 (pml4_index virt) m ≡ 0
    → translate pml4 virt m ≡ none
unfolding translate is_present
translate_empty pml4 virt m e = rw (translate, e)

-- A word that was written is read back.
byte_at : (mem : ℕ → ℕ) (a v k : ℕ) → k < 8 → write_u64 mem a v (a + k) ≡ v / 256 ^ k % 256
unfolding write_u64
byte_at mem a v k lt = let back : a + k - a ≡ k = omega arith in ground (arith, lt, back)

digits_back :
    (v : ℕ)
    → v < 2 ^ 64
    → v / 256 ^ 0 % 256
        + 0x100 * (v / 256 ^ 1 % 256)
        + 0x10000 * (v / 256 ^ 2 % 256)
        + 0x1000000 * (v / 256 ^ 3 % 256)
        + 0x100000000 * (v / 256 ^ 4 % 256)
        + 0x10000000000 * (v / 256 ^ 5 % 256)
        + 0x1000000000000 * (v / 256 ^ 6 % 256)
        + 0x100000000000000 * (v / 256 ^ 7 % 256)
      ≡ v
digits_back v lt = omega (arith, lt)

first_byte : (mem : ℕ → ℕ) (a v : ℕ) → write_u64 mem a v a ≡ v % 256
unfolding write_u64
first_byte mem a v = let back : a - a ≡ 0 = omega arith in ground (arith, back)

pub read_u64-write_u64 : (mem : ℕ → ℕ) (a v : ℕ) → v < 2 ^ 64 → read_u64 (write_u64 mem a v) a ≡ v
unfolding read_u64
read_u64-write_u64 mem a v lt = omega (
  arith,
  first_byte mem a v,
  byte_at mem a v 1 (omega arith),
  byte_at mem a v 2 (omega arith),
  byte_at mem a v 3 (omega arith),
  byte_at mem a v 4 (omega arith),
  byte_at mem a v 5 (omega arith),
  byte_at mem a v 6 (omega arith),
  byte_at mem a v 7 (omega arith),
  digits_back v lt,
)

pub read_u64_congr :
    (mem mem' : ℕ → ℕ) (a : ℕ)
    → ((x : ℕ) → a ≤ x → x < a + 8 → mem x ≡ mem' x)
    → read_u64 mem a ≡ read_u64 mem' a
unfolding read_u64
read_u64_congr mem mem' a h = omega (
  arith,
  h a (omega arith) (omega arith),
  h (a + 1) (omega arith) (omega arith),
  h (a + 2) (omega arith) (omega arith),
  h (a + 3) (omega arith) (omega arith),
  h (a + 4) (omega arith) (omega arith),
  h (a + 5) (omega arith) (omega arith),
  h (a + 6) (omega arith) (omega arith),
  h (a + 7) (omega arith) (omega arith),
)

abbrev pub IsBytes : (ℕ → ℕ) → Type 0
IsBytes mem = (x : ℕ) → mem x < 256

pub read_u64-lt : (mem : ℕ → ℕ) (a : ℕ) → IsBytes mem → read_u64 mem a < 2 ^ 64
unfolding read_u64
read_u64-lt mem a b =
    omega (arith, b a, b (a + 1), b (a + 2), b (a + 3), b (a + 4), b (a + 5), b (a + 6), b (a + 7))

pub write_u64-IsBytes : (mem : ℕ → ℕ) (a v : ℕ) → IsBytes mem → IsBytes (write_u64 mem a v)
unfolding write_u64
write_u64-IsBytes mem a v b x = ground (arith, b x)
