-- ===== src/Pe/Layout.antt =====
-- kernel/src/win32/pe.rs, the structures of an image file. Fields stand packed and little-endian.
-- A file is the list of its bytes; a signed field is its bit pattern.
use nonameos.Prelude.{ℕ, ◌+◌, ◌*◌, ◌^◌, ◌-◌, Bool, not, List, ltb, get_or, if◌then◌else◌}
use nonameos.Prelude.Collect.{collect}

abbrev pub u8_at : List ℕ → ℕ → ℕ
u8_at file offset = get_or file offset 0

abbrev pub u16_at : List ℕ → ℕ → ℕ
u16_at file offset = u8_at file offset + 0x100 * u8_at file (offset + 1)

abbrev pub u32_at : List ℕ → ℕ → ℕ
u32_at file offset = u16_at file offset + 0x10000 * u16_at file (offset + 2)

abbrev pub u64_at : List ℕ → ℕ → ℕ
u64_at file offset = u32_at file offset + 0x100000000 * u32_at file (offset + 4)

-- A `LONG`, by its bit pattern.
abbrev pub is_negative : ℕ → Bool
is_negative long = not (ltb long 0x80000000)

-- `as usize` extends the sign.
abbrev pub long_as_usize : ℕ → ℕ
long_as_usize long = if ltb long 0x80000000 then long else long + (2 ^ 64 - 2 ^ 32)

-- The DOS header.
pub record ImageDosHeader : Type 0 where
  pub e_magic : ℕ
  pub e_cblp : ℕ
  pub e_cp : ℕ
  pub e_crlc : ℕ
  pub e_cparhdr : ℕ
  pub e_minalloc : ℕ
  pub e_maxalloc : ℕ
  pub e_ss : ℕ
  pub e_sp : ℕ
  pub e_csum : ℕ
  pub e_ip : ℕ
  pub e_cs : ℕ
  pub e_lfarlc : ℕ
  pub e_ovno : ℕ
  pub e_res : List ℕ
  pub e_oemid : ℕ
  pub e_oeminfo : ℕ
  pub e_res2 : List ℕ
  pub e_lfanew : ℕ

abbrev pub sizeof_dos_header : ℕ
sizeof_dos_header = 64

unfoldable pub dos_header_at : List ℕ → ℕ → ImageDosHeader
dos_header_at file offset = record {
  e_magic = u16_at file offset;
  e_cblp = u16_at file (offset + 2);
  e_cp = u16_at file (offset + 4);
  e_crlc = u16_at file (offset + 6);
  e_cparhdr = u16_at file (offset + 8);
  e_minalloc = u16_at file (offset + 10);
  e_maxalloc = u16_at file (offset + 12);
  e_ss = u16_at file (offset + 14);
  e_sp = u16_at file (offset + 16);
  e_csum = u16_at file (offset + 18);
  e_ip = u16_at file (offset + 20);
  e_cs = u16_at file (offset + 22);
  e_lfarlc = u16_at file (offset + 24);
  e_ovno = u16_at file (offset + 26);
  e_res = collect 4 (λ k. u16_at file (offset + 28 + 2 * k));
  e_oemid = u16_at file (offset + 36);
  e_oeminfo = u16_at file (offset + 38);
  e_res2 = collect 10 (λ k. u16_at file (offset + 40 + 2 * k));
  e_lfanew = u32_at file (offset + 60);
}

-- The COFF header.
pub record ImageFileHeader : Type 0 where
  pub machine : ℕ
  pub number_of_sections : ℕ
  pub time_date_stamp : ℕ
  pub pointer_to_symbol_table : ℕ
  pub number_of_symbols : ℕ
  pub size_of_optional_header : ℕ
  pub characteristics : ℕ

abbrev pub sizeof_file_header : ℕ
sizeof_file_header = 20

unfoldable pub file_header_at : List ℕ → ℕ → ImageFileHeader
file_header_at file offset = record {
  machine = u16_at file offset;
  number_of_sections = u16_at file (offset + 2);
  time_date_stamp = u32_at file (offset + 4);
  pointer_to_symbol_table = u32_at file (offset + 8);
  number_of_symbols = u32_at file (offset + 12);
  size_of_optional_header = u16_at file (offset + 16);
  characteristics = u16_at file (offset + 18);
}

-- The optional header of PE32+, without its data directories.
pub record ImageOptionalHeader64 : Type 0 where
  pub magic : ℕ
  pub major_linker_version : ℕ
  pub minor_linker_version : ℕ
  pub size_of_code : ℕ
  pub size_of_initialized_data : ℕ
  pub size_of_uninitialized_data : ℕ
  pub address_of_entry_point : ℕ
  pub base_of_code : ℕ
  pub image_base : ℕ
  pub section_alignment : ℕ
  pub file_alignment : ℕ
  pub major_os_version : ℕ
  pub minor_os_version : ℕ
  pub major_image_version : ℕ
  pub minor_image_version : ℕ
  pub major_subsystem_version : ℕ
  pub minor_subsystem_version : ℕ
  pub win32_version_value : ℕ
  pub size_of_image : ℕ
  pub size_of_headers : ℕ
  pub checksum : ℕ
  pub subsystem : ℕ
  pub dll_characteristics : ℕ
  pub size_of_stack_reserve : ℕ
  pub size_of_stack_commit : ℕ
  pub size_of_heap_reserve : ℕ
  pub size_of_heap_commit : ℕ
  pub loader_flags : ℕ
  pub number_of_rva_and_sizes : ℕ

abbrev pub sizeof_optional_header64 : ℕ
sizeof_optional_header64 = 112

unfoldable pub optional_header64_at : List ℕ → ℕ → ImageOptionalHeader64
optional_header64_at file offset = record {
  magic = u16_at file offset;
  major_linker_version = u8_at file (offset + 2);
  minor_linker_version = u8_at file (offset + 3);
  size_of_code = u32_at file (offset + 4);
  size_of_initialized_data = u32_at file (offset + 8);
  size_of_uninitialized_data = u32_at file (offset + 12);
  address_of_entry_point = u32_at file (offset + 16);
  base_of_code = u32_at file (offset + 20);
  image_base = u64_at file (offset + 24);
  section_alignment = u32_at file (offset + 32);
  file_alignment = u32_at file (offset + 36);
  major_os_version = u16_at file (offset + 40);
  minor_os_version = u16_at file (offset + 42);
  major_image_version = u16_at file (offset + 44);
  minor_image_version = u16_at file (offset + 46);
  major_subsystem_version = u16_at file (offset + 48);
  minor_subsystem_version = u16_at file (offset + 50);
  win32_version_value = u32_at file (offset + 52);
  size_of_image = u32_at file (offset + 56);
  size_of_headers = u32_at file (offset + 60);
  checksum = u32_at file (offset + 64);
  subsystem = u16_at file (offset + 68);
  dll_characteristics = u16_at file (offset + 70);
  size_of_stack_reserve = u64_at file (offset + 72);
  size_of_stack_commit = u64_at file (offset + 80);
  size_of_heap_reserve = u64_at file (offset + 88);
  size_of_heap_commit = u64_at file (offset + 96);
  loader_flags = u32_at file (offset + 104);
  number_of_rva_and_sizes = u32_at file (offset + 108);
}

-- An entry of the data directories.
pub record ImageDataDirectory : Type 0 where
  pub virtual_address : ℕ
  pub size : ℕ

abbrev pub sizeof_data_directory : ℕ
sizeof_data_directory = 8

unfoldable pub data_directory_at : List ℕ → ℕ → ImageDataDirectory
data_directory_at file offset = record {
  virtual_address = u32_at file offset;
  size = u32_at file (offset + 4);
}

-- A section header.
pub record ImageSectionHeader : Type 0 where
  pub name : List ℕ
  pub virtual_size : ℕ
  pub virtual_address : ℕ
  pub size_of_raw_data : ℕ
  pub pointer_to_raw_data : ℕ
  pub pointer_to_relocations : ℕ
  pub pointer_to_linenumbers : ℕ
  pub number_of_relocations : ℕ
  pub number_of_linenumbers : ℕ
  pub characteristics : ℕ

abbrev pub sizeof_section_header : ℕ
sizeof_section_header = 40

unfoldable pub section_header_at : List ℕ → ℕ → ImageSectionHeader
section_header_at file offset = record {
  name = collect 8 (λ k. u8_at file (offset + k));
  virtual_size = u32_at file (offset + 8);
  virtual_address = u32_at file (offset + 12);
  size_of_raw_data = u32_at file (offset + 16);
  pointer_to_raw_data = u32_at file (offset + 20);
  pointer_to_relocations = u32_at file (offset + 24);
  pointer_to_linenumbers = u32_at file (offset + 28);
  number_of_relocations = u16_at file (offset + 32);
  number_of_linenumbers = u16_at file (offset + 34);
  characteristics = u32_at file (offset + 36);
}

-- An entry of the import directory.
pub record ImageImportDescriptor : Type 0 where
  pub original_first_thunk : ℕ
  pub time_date_stamp : ℕ
  pub forwarder_chain : ℕ
  pub name : ℕ
  pub first_thunk : ℕ

abbrev pub sizeof_import_descriptor : ℕ
sizeof_import_descriptor = 20

unfoldable pub import_descriptor_at : List ℕ → ℕ → ImageImportDescriptor
import_descriptor_at file offset = record {
  original_first_thunk = u32_at file offset;
  time_date_stamp = u32_at file (offset + 4);
  forwarder_chain = u32_at file (offset + 8);
  name = u32_at file (offset + 12);
  first_thunk = u32_at file (offset + 16);
}
