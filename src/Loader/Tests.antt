-- ===== src/Loader/Tests.antt =====
-- A program image, loaded into a machine of 64 frames.
use nonameos.Prelude.{◌-◌, ◌≡◌, refl, ap, [], ◌∷◌, Option, none, some, replicate}
use nonameos.Memory.Phys.{alloc_frame, alloc_from, test_bit, set_bit, bitmap_size}
use nonameos.Prelude.Bits.{test_bit_of, set_bit_of}
use nonameos.Pe.{
  parse_pe, validate_dos_header, validate_pe_header, validate_optional_header, get_section_headers,
  dos_header_at, file_header_at, optional_header64_at, sections_at, section_header_at,
  data_directory_at, import_descriptor_at,
}
use nonameos.Pe.Imports.{log_imports, rva_to_offset, dll_name}
use nonameos.Userspace.{create_address_space, map_user_pages, alloc_user_stack}
use nonameos.Paging.{map_page, is_present, address, new_entry, read_u64, write_u64}
use mathlib.Core.Option
use nonameos.Pe.Sample.{image}
use nonameos.Pe.Verdict.{IsImage, image_info}
use nonameos.Pe.Tests.{image-IsSlice}
use nonameos.Loader.Accepted.{Loaded, load_pe-Loaded}
use nonameos.Paging.{Machine}
use nonameos.Loader.{Result, done, failed, LoadedImage, load_pe, load_raw_binary}

abbrev small_machine : Machine
small_machine = record {
  phys = record { bitmap = 3 ∷ replicate (bitmap_size - 1) 0; total_frames = 64; free_frames = 62 };
  mem = λ a. 0;
  cr3 = 4096;
}

abbrev image_in : Option (Result LoadedImage × Machine) → Option LoadedImage
image_in none = none
image_in (some (failed e, m)) = none
image_in (some (done image, m)) = some image

abbrev machine_of : Machine → Option (Result LoadedImage × Machine) → Machine
machine_of m none = m
machine_of m (some (r, after)) = after

loads :
    (m : Machine) (r : Option (Result LoadedImage × Machine)) (image : LoadedImage)
    → image_in r ≡ some image
    → r ≡ some (done image, machine_of m r)
loads m none image e = absurd (cc e)
loads m (some (failed x, after)) image e = absurd (cc e)
loads m (some (done i, after)) image e =
    let same : i ≡ image = cc e in ap (λ (k : LoadedImage). some (done k, after)) same

raw_loads :
    Option.map
      (λ (i : LoadedImage). i.image_size)
      (image_in (load_raw_binary (0x90 ∷ []) small_machine))
    ≡ some 4096
unfolding load_raw_binary create_address_space map_user_pages map_page alloc_user_stack alloc_frame
    alloc_from test_bit set_bit test_bit_of set_bit_of is_present address new_entry read_u64
    write_u64
raw_loads = refl

abbrev run : Option (Result LoadedImage × Machine)
run = load_pe image small_machine

abbrev loaded_image : LoadedImage
loaded_image = record {
  entry_point = 0x401000;
  image_base = 0x400000;
  image_size = 0x2000;
  sections_loaded = 1;
  subsystem = 0;
  machine = 0x8664;
  cr3 = 8192;
  user_stack_top = 0x7FFFFFFF0000;
}

image_loads : image_in run ≡ some loaded_image
unfolding load_pe parse_pe validate_dos_header validate_pe_header validate_optional_header
    dos_header_at file_header_at optional_header64_at get_section_headers sections_at
    section_header_at create_address_space map_user_pages map_page alloc_user_stack alloc_frame
    alloc_from test_bit set_bit test_bit_of set_bit_of is_present address new_entry read_u64
    write_u64 log_imports data_directory_at rva_to_offset import_descriptor_at dll_name
image_loads = refl

load_pe-Loaded_example : IsImage image × Loaded image loaded_image (image_info image)
load_pe-Loaded_example =
    load_pe-Loaded image loaded_image small_machine (machine_of small_machine run) image-IsSlice
      (loads small_machine run loaded_image image_loads)
