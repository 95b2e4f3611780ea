-- ===== src/Multiboot/Walk.antt =====
-- The tags of kernel/src/multiboot2.rs, as the format lays them out, and the walk over them.
use mathlib.Core.Option
use nonameos.Prelude.{
  ℕ, zero, suc, ◌+◌, ◌*◌, ◌/◌, ◌^◌, ◌≡◌, ◌≢◌, ◌≤◌, ◌<◌, refl, ap, ◌∙◌, List, [], ◌∷◌, Option, none,
  some, leb, ltb, ◌==◌, if◌then◌else◌, Bool-cases, inl, inr, arith, bit_and, add_usize,
}
use nonameos.Prelude.Masks.{ones, shifted, halved, bit_and-ones, bit_and-shifted}
use nonameos.Multiboot.{
  Memory, read_u32, tag_type, tag_size, TagIterator, new_iterator, next, next_offset, find_tag,
  walk_fuel, find_from, find_framebuffer, framebuffer_at, tag_framebuffer,
}

-- A tag is followed by the next multiple of 8.
next_offset_up : (size : ℕ) → size < 2 ^ 32 → next_offset size ≡ (size + 7) / 8 * 8
next_offset_up size lt =
    bit_and-shifted 3 (ones 61) (add_usize size 7) ∙ ap (shifted 3) kept ∙ regroup
  where
    kept : bit_and (halved 3 (add_usize size 7)) (ones 61) ≡ halved 3 (add_usize size 7)
    kept = bit_and-ones 61 (halved 3 (add_usize size 7)) (omega arith)

    regroup : shifted 3 (halved 3 (add_usize size 7)) ≡ (size + 7) / 8 * 8
    regroup = omega (arith, lt)

-- The addresses of the tags from `at` on.
pub data Tags (mem : Memory) (limit : ℕ) : ℕ → List ℕ → Type 0 where
  past : {at : ℕ} → limit ≤ at → Tags mem limit at []
  last : {at : ℕ} → at < limit → tag_type mem at ≡ 0 → Tags mem limit at []
  broken : {at : ℕ} → at < limit → tag_size mem at < 8 → Tags mem limit at []
  tag :
      {at : ℕ} {rest : List ℕ}
      → at < limit
      → tag_type mem at ≢ 0
      → 8 ≤ tag_size mem at
      → Tags mem limit (at + (tag_size mem at + 7) / 8 * 8) rest
      → Tags mem limit at (at ∷ rest)

-- The first tag of a type.
pub first_of : Memory → ℕ → List ℕ → Option ℕ
first_of mem kind [] = none
first_of mem kind (at ∷ rest) = if tag_type mem at == kind then some at else first_of mem kind rest

module _ (mem : Memory) (bytes : (a : ℕ) → mem a < 256) (limit : ℕ) (room : limit < 2 ^ 63) where
  u32_lt : (a : ℕ) → read_u32 mem a < 2 ^ 32
  u32_lt a = omega (arith, bytes a, bytes (a + 1), bytes (a + 2), bytes (a + 3))

  abbrev iterator : ℕ → TagIterator
  iterator at = record { current = at; end_of_tags = limit }

  abbrev after : ℕ → ℕ
  after at = at + (tag_size mem at + 7) / 8 * 8

  next_tag :
      (at : ℕ)
      → at < limit
      → tag_type mem at ≢ 0
      → 8 ≤ tag_size mem at
      → next mem (iterator at) ≡ some (at, iterator (after at))
  unfolding next
  next_tag at lt kind size =
      let moved : add_usize at (next_offset (tag_size mem at)) ≡ after at =
        omega
          (arith, next_offset_up (tag_size mem at) (u32_lt (at + 4)), u32_lt (at + 4), lt, room) in
      ground (arith, lt, kind, size, moved)

  Walked : ℕ → ℕ → ℕ → Type 0
  Walked fuel at kind =
      (tags : List ℕ) × Tags mem limit at tags
      × (find_tag (suc fuel) mem kind (iterator at) ≡ some (first_of mem kind tags))

  stopped :
      (fuel at kind : ℕ)
      → Tags mem limit at []
      → next mem (iterator at) ≡ none
      → Walked fuel at kind
  unfolding Walked find_tag first_of
  stopped fuel at kind stops e = ([], stops, rw (find_tag, e) refl)

  stepped :
      (fuel at kind : ℕ)
      → at < limit
      → tag_type mem at ≢ 0
      → 8 ≤ tag_size mem at
      → Walked fuel (after at) kind
      → Walked (suc fuel) at kind
  unfolding Walked find_tag first_of
  stepped fuel at kind lt typed size (tags, there, found) =
      let e = next_tag at lt typed size in
      (
        at ∷ tags,
        tag lt typed size there,
        elim (Bool-cases (tag_type mem at == kind)) [
          | inl same ↦ rw (find_tag, e, same) refl
          | inr other ↦ rw (find_tag, e, other) found
        ],
      )

  stops_or_goes_on :
      (fuel at kind : ℕ)
      → (at < limit → tag_type mem at ≢ 0 → 8 ≤ tag_size mem at → Walked fuel at kind)
      → Walked fuel at kind
  unfolding next
  stops_or_goes_on fuel at kind on = elim (Bool-cases (leb limit at)) [
    | inl beyond ↦ stopped fuel at kind (past (ground arith)) (ground arith)
    | inr inside ↦ elim (Bool-cases (tag_type mem at == 0)) [
      | inl is_end ↦ stopped fuel at kind (last (ground arith) (ground arith)) (ground arith)
      | inr typed ↦ elim (Bool-cases (ltb (tag_size mem at) 8)) [
        | inl small ↦ stopped fuel at kind (broken (ground arith) (ground arith)) (ground arith)
        | inr sized ↦ on (ground (arith, inside)) (ground (arith, typed)) (ground (arith, sized))
      ]
    ]
  ]

  walked : (fuel at kind : ℕ) → limit ≤ at + fuel → Walked fuel at kind
  walked zero at kind enough =
      stops_or_goes_on zero at kind (λ lt typed size. absurd (omega (arith, enough, lt)))
  walked (suc fuel) at kind enough = stops_or_goes_on (suc fuel) at kind (λ lt typed size.
      stepped fuel at kind lt typed size
        (walked fuel (after at) kind (omega (arith, enough, size))))

-- The walk starts behind the header, without a wrap.
module _ (mem : Memory) (info_addr : ℕ) (bytes : (a : ℕ) → mem a < 256)
    (low : info_addr < 2 ^ 62) where
  limit_of : ℕ
  limit_of = info_addr + read_u32 mem info_addr

  room_of : limit_of < 2 ^ 63
  unfolding limit_of
  room_of = omega (arith, u32_lt mem bytes 0 (omega arith) info_addr, low)

  starts : new_iterator mem info_addr ≡ record { current = info_addr + 8; end_of_tags = limit_of }
  unfolding new_iterator limit_of
  starts = ground (arith, u32_lt mem bytes 0 (omega arith) info_addr, low)

  found_from :
      (kind : ℕ)
      → (tags : List ℕ) × Tags mem limit_of (info_addr + 8) tags
        × (find_from mem kind info_addr ≡ some (first_of mem kind tags))
  unfolding Walked limit_of
  found_from kind =
      let (tags, there, found) =
        walked mem bytes limit_of room_of (read_u32 mem info_addr) (info_addr + 8) kind
          (omega arith) in
      (tags, there, ap (find_tag (walk_fuel mem info_addr) mem kind) starts ∙ found)

-- For every content of memory and every boot information below 2^62, the walk over the tags ends:
-- the fuel of the search is never used up. The tags that it passes are those that the format
-- chains, each at the next multiple of 8 behind the one before, up to the end tag, a tag that is
-- too small, or the end of the information; and `find_framebuffer` returns the fields of the first
-- of them that is a framebuffer, or `None` if there is none.
pub find_framebuffer-Tags :
    (mem : Memory) (info_addr : ℕ)
    → ((a : ℕ) → mem a < 256)
    → info_addr < 2 ^ 62
    → (tags : List ℕ) × Tags mem (info_addr + read_u32 mem info_addr) (info_addr + 8) tags
      × (find_framebuffer mem info_addr
          ≡ some (Option.map (framebuffer_at mem) (first_of mem tag_framebuffer tags)))
unfolding find_framebuffer limit_of
find_framebuffer-Tags mem info_addr bytes low =
    let (tags, there, found) = found_from mem info_addr bytes low tag_framebuffer in
    (tags, there, ap (Option.map (Option.map (framebuffer_at mem))) found)
