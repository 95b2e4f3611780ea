-- ===== src/Shim/Tests.antt =====
-- An allocator with eight frames, of which the frames 1 and 3 are free.
use nonameos.Prelude.{
  ℕ, zero, suc, [], ◌-◌, ◌<◌, ◌≡◌, refl, ap, true, ◌∷◌, replicate, get_or, length-replicate,
  get_or-replicate, arith,
}
use nonameos.Prelude.Bits.{test_bit_of}
use nonameos.Memory.Phys.{Phys, bitmap_size}
use nonameos.Memory.Phys.Bitmap.{used}
use nonameos.Memory.Phys.Count.{count_free}
use nonameos.Memory.Phys.Alloc.{IsValid}
use nonameos.Shim.{Shim, empty_alloc, fetch_sub}
use nonameos.Shim.Locks.{
  System, inside, spinning, Steps, here, then_step, starts, tries, fresh_lock, compare_exchange,
  lock-excludes,
}
use nonameos.Shim.Frames.{IsApart, Steals, kfree-Steals}

abbrev eight : Phys
eight = record { bitmap = 245 ∷ replicate (bitmap_size - 1) 0; total_frames = 8; free_frames = 2 }

small_bytes : (k : ℕ) → get_or eight.bitmap k 0 < 256
small_bytes zero = omega arith
small_bytes (suc k) = omega (arith, get_or-replicate {A = ℕ} (bitmap_size - 1) k 0)

eight-IsValid : IsValid eight
unfolding used count_free test_bit_of
eight-IsValid = record {
  bitmap = record {
    size = ap suc (length-replicate {A = ℕ} (bitmap_size - 1) 0);
    bytes = small_bytes;
  };
  total = omega arith;
  counted = refl;
}

abbrev shim : Shim
shim = record { alloc_table = replicate 256 empty_alloc; phys = eight; mem = λ a. 0 }

between : (h : ℕ) → 1 < h → h < 3 → used eight h ≡ true
unfolding used test_bit_of
between zero lo hi = absurd (omega arith)
between (suc zero) lo hi = absurd (omega arith)
between (suc (suc zero)) lo hi = refl
between (suc (suc (suc h))) lo hi = absurd (omega arith)

below : (h : ℕ) → h < 1 → used eight h ≡ true
unfolding used test_bit_of
below zero lt = refl
below (suc h) lt = absurd (omega arith)

apart : IsApart shim eight-IsValid refl 1 3
unfolding used test_bit_of
apart = record {
  next = record { within = omega arith; is_free = refl; lowest = below };
  positive = omega arith;
  above = omega arith;
  within = omega arith;
  second_free = refl;
  between = between;
}

kfree-Steals_example : Steals shim eight-IsValid refl 1 3 5000 0
kfree-Steals_example =
    kfree-Steals shim eight-IsValid refl 1 3 5000 0 apart (omega arith) (omega arith)

wraps : fetch_sub 1 0 ≡ (0, 0xFFFFFFFF)
unfolding fetch_sub
wraps = refl

-- The first of two threads is let in, the second spins.
abbrev contended : System
contended = record { locked = true; threads = inside ∷ spinning ∷ [] }

run : Steps (fresh_lock 2) contended
unfolding compare_exchange
run = then_step (then_step here (tries 0 (omega arith) refl)) (starts 1 (omega arith) refl)

lock-excludes_example : ◌≡◌ {A = ℕ} 0 0 × (contended.locked ≡ true)
lock-excludes_example = lock-excludes 2 {t = contended} 0 0 run refl refl
