-- ===== src/Multiboot/Tests.antt =====
-- A boot information with a command line and a framebuffer.
use mathlib.Core.Option
use nonameos.Prelude.{ℕ, ◌-◌, ◌+◌, ◌%◌, ◌≡◌, refl, true, List, ◌∷◌, ◌++◌, some, get_or, arith}
use nonameos.Prelude.Text.{codes}
use nonameos.Pe.Sample.{little_endian}
use nonameos.Multiboot.{
  Memory, next, new_iterator, framebuffer_at, rgb, find_framebuffer, find_cmdline, tag_framebuffer,
  read_u32,
}
use nonameos.Multiboot.Walk.{Tags, first_of, find_framebuffer-Tags}

abbrev info : List ℕ
info =
    little_endian 8 64
    ++ (little_endian 4 1
        ++ (little_endian 4 11
            ++ (codes "hi"
                ++ (little_endian 6 0
                    ++ (little_endian 4 8
                        ++ (little_endian 4 31
                            ++ (little_endian 8 0xFD000000
                                ++ (little_endian 4 3200
                                    ++ (little_endian 4 800
                                        ++ (little_endian 4 600
                                            ++ (32
                                                ∷ 1
                                                ∷ 0
                                                ∷ 0
                                                ∷ little_endian 8 0x800000000)))))))))))

abbrev memory : Memory
memory a = get_or info (a - 0x1000) 0 % 256

framebuffer_found :
    find_framebuffer memory 0x1000
    ≡ some (
        some (record {
          addr = 0xFD000000;
          pitch = 3200;
          width = 800;
          height = 600;
          bpp = 32;
          fb_type = rgb;
        }))
unfolding find_framebuffer new_iterator next
framebuffer_found = refl

cmdline_found : find_cmdline (λ line. true) memory 0x1000 ≡ some (some (codes "hi"))
unfolding find_cmdline new_iterator next
cmdline_found = refl

find_framebuffer-Tags_example :
    (tags : List ℕ) × Tags memory (0x1000 + read_u32 memory 0x1000) (0x1000 + 8) tags
    × (find_framebuffer memory 0x1000
        ≡ some (Option.map (framebuffer_at memory) (first_of memory tag_framebuffer tags)))
find_framebuffer-Tags_example = find_framebuffer-Tags memory 0x1000 (λ a. omega arith) (omega arith)
