-- ===== src/Memory/Align.antt =====
-- Alignment to pages, against division.
use nonameos.Prelude.{ℕ, ◌+◌, ◌*◌, ◌/◌, ◌%◌, ◌-◌, ◌≤◌, ◌<◌, ◌≡◌, ap, ◌∙◌, arith, bit_and, usize_mod}
use nonameos.Prelude.Masks.{ones, shifted, halved, bit_and-ones, bit_and-shifted}
use nonameos.Memory.{page_size, complement, align_down, align_up}

page_mask :
    (x : ℕ) → x < usize_mod → bit_and x (complement (page_size - 1)) ≡ x / page_size * page_size
page_mask x h = bit_and-shifted 12 (ones 52) x ∙ ap (shifted 12) kept ∙ regroup
  where
    kept : bit_and (halved 12 x) (ones 52) ≡ halved 12 x
    kept = bit_and-ones 52 (halved 12 x) (omega arith)

    regroup : shifted 12 (halved 12 x) ≡ x / page_size * page_size
    regroup = omega arith

-- Aligning an address down to a page drops its offset.
pub align_down_page : (x : ℕ) → x < usize_mod → align_down x page_size ≡ x / page_size * page_size
unfolding align_down
align_down_page x h = page_mask x h

pub align_up_page :
    (x : ℕ)
    → x + (page_size - 1) < usize_mod
    → align_up x page_size ≡ (x + (page_size - 1)) / page_size * page_size
unfolding align_up
align_up_page x h =
    page_mask ((x + page_size - 1) % usize_mod) (omega arith)
    ∙ ap (λ y. y / page_size * page_size) (omega arith)

-- Where the rounding does not overflow, `align_up` gives the least multiple of the page size that
-- is not below the address.
align_up_least :
    (x : ℕ)
    → x + (page_size - 1) < usize_mod
    → (align_up x page_size % page_size ≡ 0)
      × (x ≤ align_up x page_size)
      × (align_up x page_size < x + page_size)
align_up_least x h = omega (arith, align_up_page x h)
