-- ===== src/Memory/Phys/Bitmap.antt =====
-- The bitmap as a predicate on frames: what the three bit operations read and write.
use nonameos.Prelude.{
  ℕ, ◌/◌, ◌%◌, ◌<◌, ◌≡◌, refl, ap, ◌∙◌, ◌≢◌, Bool, true, false, some, arith, length, get_or, set,
  length-set, get_or-set, get_or-set_ne, get_elem?-eq-get_or, ◌==◌, if◌then◌else◌, inl, inr,
  Bool-cases, eq_of_test,
}
use nonameos.Prelude.Bits.{
  set_bit_of, clear_bit_of, test_bit_of, test-set, test-clear, set_bit_of-lt, clear_bit_of-lt,
}
use nonameos.Memory.Phys.{Phys, max_frames, bitmap_size, set_bit, clear_bit, test_bit}

-- The byte that holds a frame's bit.
abbrev byte_of : Phys → ℕ → ℕ
byte_of p frame = get_or p.bitmap (frame / 8) 0

-- The frame's bit is 1.
unfoldable pub used : Phys → ℕ → Bool
used p frame = test_bit_of (byte_of p frame) (frame % 8)

-- The array has its size, and every entry is a byte.
pub record IsBitmap (p : Phys) : Type 0 where
  pub size : length p.bitmap ≡ bitmap_size
  pub bytes : (k : ℕ) → get_or p.bitmap k 0 < 256

index-lt : (p : Phys) (frame : ℕ) → IsBitmap p → frame < max_frames → frame / 8 < length p.bitmap
index-lt p frame v h = omega (arith, v.size)

pub test_bit_lem :
    (p : Phys) (frame : ℕ)
    → IsBitmap p
    → frame < max_frames
    → test_bit frame p ≡ some (used p frame)
unfolding test_bit used
test_bit_lem p frame v h =
    ground (arith, get_elem?-eq-get_or p.bitmap (frame / 8) 0 (index-lt p frame v h))

-- What a write of one byte does to the predicate.
module _ (p : Phys) (v : IsBitmap p) (frame byte : ℕ) (h : frame < max_frames)
    (small : byte < 256) where
  abbrev written : Phys
  written = record p { bitmap = set p.bitmap (frame / 8) byte }

  written-IsBitmap : IsBitmap written
  written-IsBitmap = record {
    size = length-set p.bitmap (frame / 8) byte ∙ v.size;
    bytes = λ k.
        ground (arith, v.bytes k, get_or-set p.bitmap (frame / 8) k byte 0 (index-lt p frame v h));
  }

  -- A frame of another byte.
  used-elsewhere : (g : ℕ) → frame / 8 ≢ g / 8 → used written g ≡ used p g
  unfolding used
  used-elsewhere g ne =
      ap (λ b. test_bit_of b (g % 8)) (get_or-set_ne p.bitmap (frame / 8) (g / 8) byte 0 ne)

  -- A frame of the same byte.
  used-here : (g : ℕ) → frame / 8 ≡ g / 8 → used written g ≡ test_bit_of byte (g % 8)
  unfolding used
  used-here g e =
      ap (λ b. test_bit_of b (g % 8))
        (ground (arith, get_or-set p.bitmap (frame / 8) (g / 8) byte 0 (index-lt p frame v h)))

  used-update :
      (bit : Bool)
      → ((c : ℕ)
          → c < 8
          → test_bit_of byte c
            ≡ (if (frame % 8) == c then bit else test_bit_of (byte_of p frame) c))
      → (g : ℕ) → used written g ≡ (if frame == g then bit else used p g)
  unfolding used
  used-update bit law g = elim (Bool-cases (frame / 8 == g / 8)) [
    | inl same ↦ ground (
      arith,
      used-here g (ground arith),
      law (g % 8) (omega arith),
      ap (λ k. get_or p.bitmap k 0) (eq_of_test (frame / 8) (g / 8) same),
    )
    | inr other ↦ ground (arith, used-elsewhere g (ground arith))
  ]

-- The outcome of a bit operation: `frame`'s bit is `bit`, and all else is as it was.
pub record Wrote (p : Phys) (frame : ℕ) (bit : Bool) (q : Phys) : Type 0 where
  pub still : IsBitmap q
  pub update : (g : ℕ) → used q g ≡ (if frame == g then bit else used p g)
  pub total : q.total_frames ≡ p.total_frames
  pub free : q.free_frames ≡ p.free_frames

module _ (p : Phys) (v : IsBitmap p) (frame : ℕ) (h : frame < max_frames) where
  pub set_bit_lem : (q : Phys) × (set_bit frame p ≡ some q) × Wrote p frame true q
  unfolding set_bit
  set_bit_lem = (
    written p v frame (set_bit_of (byte_of p frame) (frame % 8)) h small,
    ground (arith, get_elem?-eq-get_or p.bitmap (frame / 8) 0 (index-lt p frame v h)),
    record {
      still = written-IsBitmap p v frame _ h small;
      update =
          used-update p v frame _ h small true (test-set _ (frame % 8) (v.bytes _) (omega arith));
      total = refl;
      free = refl;
    },
  )
    where
      small : set_bit_of (byte_of p frame) (frame % 8) < 256
      small = set_bit_of-lt (byte_of p frame) (frame % 8) (v.bytes _) (omega arith)

  pub clear_bit_lem : (q : Phys) × (clear_bit frame p ≡ some q) × Wrote p frame false q
  unfolding clear_bit
  clear_bit_lem = (
    written p v frame (clear_bit_of (byte_of p frame) (frame % 8)) h small,
    ground (arith, get_elem?-eq-get_or p.bitmap (frame / 8) 0 (index-lt p frame v h)),
    record {
      still = written-IsBitmap p v frame _ h small;
      update =
          used-update p v frame _ h small false
            (test-clear _ (frame % 8) (v.bytes _) (omega arith));
      total = refl;
      free = refl;
    },
  )
    where
      small : clear_bit_of (byte_of p frame) (frame % 8) < 256
      small = clear_bit_of-lt (byte_of p frame) (frame % 8) (v.bytes _) (omega arith)
