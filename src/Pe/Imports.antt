-- ===== src/Pe/Imports.antt =====
-- kernel/src/loader.rs, `section_name`, `rva_to_offset` and `log_imports`: the names of the libraries
-- that an image imports, as they are printed.
pub mod Walk
use nonameos.Prelude.{
  ℕ, zero, suc, ◌+◌, ◌-◌, ◌*◌, max, ◌≤◌, ◌<◌, ◌≡◌, ◌≢◌, refl, Bool, true, false, not, ◌&&◌, ◌||◌,
  List, [], ◌∷◌, Option, none, some, length, take, drop, get_or, ltb, leb, ◌==◌, if◌then◌else◌,
  Bool-cases, Option-cases, inl, inr, arith,
}
use nonameos.Pe.{
  u8_at, ImageDataDirectory, ImageSectionHeader, PeInfo, long_as_usize, sizeof_file_header,
  sizeof_optional_header64, data_directory_at, import_descriptor_at, sizeof_import_descriptor,
}

abbrev pub image_directory_entry_import : ℕ
image_directory_entry_import = 1

-- `section_name`: the name up to its first zero byte.
name_prefix : List ℕ → List ℕ
name_prefix [] = []
name_prefix (b ∷ bs) = if b == 0 then [] else b ∷ name_prefix bs

unfoldable pub section_name : ImageSectionHeader → List ℕ
unfolding name_prefix
section_name section = name_prefix (take 8 section.name)

-- The size that a section takes in memory: `rva_to_offset` and `load_pe` choose it alike.
abbrev pub section_size : ImageSectionHeader → ℕ
section_size section =
    if ltb 0 section.virtual_size then section.virtual_size else section.size_of_raw_data

abbrev pub holds_rva : ℕ → ImageSectionHeader → Bool
holds_rva rva section =
    leb section.virtual_address rva && ltb rva (section.virtual_address + section_size section)

unfoldable pub rva_to_offset : ℕ → List ImageSectionHeader → Option ℕ
rva_to_offset rva [] = none
rva_to_offset rva (section ∷ sections) =
    if holds_rva rva section
    then some (section.pointer_to_raw_data + (rva - section.virtual_address))
    else rva_to_offset rva sections

-- `while name_offset + name_len < len && data[name_offset + name_len] != 0`, for the rounds left.
pub name_length : ℕ → List ℕ → ℕ → ℕ
name_length zero file at = 0
name_length (suc rounds) file at =
    if ltb at (length file) && not (u8_at file at == 0)
    then suc (name_length rounds file (at + 1))
    else 0

-- The rounds end when `name_len` passes 128.
abbrev pub max_name_rounds : ℕ
max_name_rounds = 129

-- What one descriptor adds to the output. The slice of a name that starts past the file panics.
pub data DllName : Type 0 where
  unnamed panics : DllName
  named : List ℕ → DllName

abbrev pub slice_name : List ℕ → ℕ → ℕ → DllName
slice_name file at len =
    if leb (at + len) (length file) then DllName.named (take len (drop at file)) else DllName.panics

unfoldable pub dll_name : List ℕ → PeInfo → ℕ → DllName
unfolding rva_to_offset name_length
dll_name file pe name = elim (rva_to_offset name pe.sections) [
  | none ↦ DllName.unnamed
  | some at ↦ slice_name file at (name_length max_name_rounds file at)
]

-- The output of the walk; `unfinished` has no counterpart in the source.
pub data Listing : Type 0 where
  listed : List (List ℕ) → Listing
  panicked unfinished : Listing

pub prepend : DllName → Listing → Listing
prepend DllName.unnamed rest = rest
prepend DllName.panics rest = panicked
prepend (DllName.named name) (listed names) = listed (name ∷ names)
prepend (DllName.named name) panicked = panicked
prepend (DllName.named name) unfinished = unfinished

-- Past the end of every section.
pub sections_end : List ImageSectionHeader → ℕ
sections_end [] = 0
sections_end (section ∷ sections) =
    max (section.virtual_address + section_size section) (sections_end sections)

module _ (file : List ℕ) (pe : PeInfo) where
  abbrev pub is_last : ℕ → Bool
  is_last at =
      let desc = import_descriptor_at file at in desc.name == 0 && desc.original_first_thunk == 0

  unfoldable pub walk : ℕ → ℕ → Listing
  unfolding prepend
  walk zero rva = unfinished
  walk (suc fuel) rva =
      let rest = walk fuel (rva + sizeof_import_descriptor) in
      elim (rva_to_offset rva pe.sections) [
        | none ↦ listed []
        | some at ↦
            if ltb (length file) (at + sizeof_import_descriptor)
            then listed []
            else if is_last at
            then listed []
            else prepend (dll_name file pe (import_descriptor_at file at).name) rest
      ]

  -- The walk leaves the sections before its fuel is used up.
  abbrev pub walk_fuel : ℕ
  walk_fuel = suc (sections_end pe.sections)

  -- The directories follow the optional header.
  abbrev pub dir_offset : ℕ
  dir_offset = long_as_usize pe.dos.e_lfanew + 4 + (sizeof_file_header + sizeof_optional_header64)

  abbrev pub import_dir : ImageDataDirectory
  import_dir = data_directory_at file (dir_offset + image_directory_entry_import * 8)

  abbrev pub no_directory : Bool
  no_directory = leb pe.optional.number_of_rva_and_sizes image_directory_entry_import

  abbrev pub cut_directories : Bool
  cut_directories = ltb (length file) (dir_offset + pe.optional.number_of_rva_and_sizes * 8)

  abbrev pub no_imports : Bool
  no_imports = import_dir.virtual_address == 0 || import_dir.size == 0

  unfoldable pub log_imports : Listing
  unfolding walk sections_end
  log_imports =
      if no_directory
      then listed []
      else if cut_directories
      then listed []
      else if no_imports
      then listed []
      else walk walk_fuel import_dir.virtual_address
