-- ===== src/Multiboot.antt =====
-- kernel/src/multiboot2.rs: the tags that the boot loader leaves in memory, and what the kernel looks
-- up in them. A walk is recursion on fuel; a result of `none` says that the fuel was used up, and
-- Multiboot/Walk shows that it never is.
pub mod Walk
mod Tests
use mathlib.Core.Option
use nonameos.Prelude.{
  ℕ, zero, suc, ◌+◌, ◌-◌, ◌*◌, Bool, true, false, not, List, [], ◌∷◌, Option, none, some, ltb, leb,
  ◌==◌, ◌||◌, if◌then◌else◌, add_usize, bit_and,
}
use nonameos.Memory.{complement}

abbrev pub tag_end : ℕ
tag_end = 0

abbrev pub tag_cmdline : ℕ
tag_cmdline = 1

abbrev pub tag_framebuffer : ℕ
tag_framebuffer = 8

-- The bytes of physical memory.
abbrev pub Memory : Type 0
Memory = ℕ → ℕ

abbrev pub read_u32 : Memory → ℕ → ℕ
read_u32 mem a = mem a + 0x100 * mem (a + 1) + 0x10000 * mem (a + 2) + 0x1000000 * mem (a + 3)

abbrev pub read_u64 : Memory → ℕ → ℕ
read_u64 mem a = read_u32 mem a + 0x100000000 * read_u32 mem (a + 4)

-- The fields of a `TagHeader`.
abbrev pub tag_type : Memory → ℕ → ℕ
tag_type mem tag = read_u32 mem tag

abbrev pub tag_size : Memory → ℕ → ℕ
tag_size mem tag = read_u32 mem (tag + 4)

pub record TagIterator : Type 0 where
  pub current : ℕ
  pub end_of_tags : ℕ

-- `TagIterator::new`
unfoldable pub new_iterator : Memory → ℕ → TagIterator
new_iterator mem info_addr = record {
  current = add_usize info_addr 8;
  end_of_tags = add_usize info_addr (read_u32 mem info_addr);
}

abbrev pub next_offset : ℕ → ℕ
next_offset size = bit_and (add_usize size 7) (complement 7)

-- `Iterator::next`: the tag, and the iterator behind it.
unfoldable pub next : Memory → TagIterator → Option (ℕ × TagIterator)
next mem it =
    let tag = it.current in
    if leb it.end_of_tags tag
    then none
    else if tag_type mem tag == tag_end
    then none
    else if ltb (tag_size mem tag) 8
    then none
    else some (tag, record it { current = add_usize tag (next_offset (tag_size mem tag)) })

-- `for tag_ptr in iter`, up to the first tag of a type.
unfoldable pub find_tag : ℕ → Memory → ℕ → TagIterator → Option (Option ℕ)
find_tag zero mem kind it = none
find_tag (suc fuel) mem kind it = elim (next mem it) [
  | none ↦ some none
  | some (tag, it') ↦
      let rest = find_tag fuel mem kind it' in
      if tag_type mem tag == kind then some (some tag) else rest
]

-- More than the tags that fit into the size that is given.
abbrev pub walk_fuel : Memory → ℕ → ℕ
walk_fuel mem info_addr = suc (read_u32 mem info_addr)

abbrev pub find_from : Memory → ℕ → ℕ → Option (Option ℕ)
find_from mem kind info_addr =
    find_tag (walk_fuel mem info_addr) mem kind (new_iterator mem info_addr)

pub data FramebufferType : Type 0 where
  indexed rgb ega_text : FramebufferType
  unknown : ℕ → FramebufferType

abbrev pub framebuffer_type : ℕ → FramebufferType
framebuffer_type raw =
    if raw == 0
    then indexed
    else if raw == 1
    then rgb
    else if raw == 2
    then ega_text
    else FramebufferType.unknown raw

pub record FramebufferInfo : Type 0 where
  pub addr : ℕ
  pub pitch : ℕ
  pub width : ℕ
  pub height : ℕ
  pub bpp : ℕ
  pub fb_type : FramebufferType

-- The fields of a packed `FramebufferTag`.
unfoldable pub framebuffer_at : Memory → ℕ → FramebufferInfo
framebuffer_at mem tag = record {
  addr = read_u64 mem (tag + 8);
  pitch = read_u32 mem (tag + 16);
  width = read_u32 mem (tag + 20);
  height = read_u32 mem (tag + 24);
  bpp = mem (tag + 28);
  fb_type = framebuffer_type (mem (tag + 29));
}

unfoldable pub find_framebuffer : Memory → ℕ → Option (Option FramebufferInfo)
unfolding find_tag framebuffer_at
find_framebuffer mem info_addr =
    Option.map (Option.map (framebuffer_at mem)) (find_from mem tag_framebuffer info_addr)

-- `while len < str_len && *str_ptr.add(len) != 0`, as the bytes passed.
unfoldable pub c_bytes : ℕ → Memory → ℕ → List ℕ
c_bytes zero mem at = []
c_bytes (suc left) mem at =
    let rest = c_bytes left mem (at + 1) in if mem at == 0 then [] else mem at ∷ rest

-- The command line of a tag. `is_utf8` stands for `core::str::from_utf8`.
unfoldable pub cmdline_at : (List ℕ → Bool) → Memory → ℕ → Option (List ℕ)
unfolding c_bytes
cmdline_at is_utf8 mem tag =
    let line = c_bytes (tag_size mem tag - 8) mem (tag + 8) in
    if leb (tag_size mem tag) 8 then none else if is_utf8 line then some line else none

unfoldable pub find_cmdline : (List ℕ → Bool) → Memory → ℕ → Option (Option (List ℕ))
unfolding find_tag cmdline_at
find_cmdline is_utf8 mem info_addr =
    Option.map (λ (tag : Option ℕ). elim tag [ none ↦ none | some t ↦ cmdline_at is_utf8 mem t ])
      (find_from mem tag_cmdline info_addr)
