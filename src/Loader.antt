-- ===== src/Loader.antt =====
-- kernel/src/loader.rs, `load_pe` and `load_raw_binary`: an image is checked with Pe and mapped with
-- Userspace. A call gives its result and the machine after it, and `none` where the kernel panics:
-- in the allocator, in `map_page`, or in `log_imports`. The messages on the screen are left out.
pub mod Bounds
pub mod Accepted
mod Tests
use nonameos.Prelude.{
  ℕ, zero, suc, ◌+◌, ◌*◌, ◌/◌, ◌%◌, ◌^◌, Bool, true, false, not, List, [], ◌∷◌, Option, none, some,
  length, take, drop, ltb, leb, ◌==◌, ◌&&◌, if◌then◌else◌, add_usize, bit_and,
}
use nonameos.Prelude.Outcome.{Outcome, ok, err, fault}
use nonameos.Status.{status_invalid_image_format}
use nonameos.Pe.{PeInfo, ImageSectionHeader, parse_pe}
use nonameos.Pe.Imports.{Listing, listed, panicked, unfinished, log_imports, section_size}
use nonameos.Paging.{Machine}
use nonameos.Userspace.{create_address_space, map_user_pages, alloc_user_stack, user_image_base}

pub record LoadedImage : Type 0 where
  pub entry_point : ℕ
  pub image_base : ℕ
  pub image_size : ℕ
  pub sections_loaded : ℕ
  pub subsystem : ℕ
  pub machine : ℕ
  pub cr3 : ℕ
  pub user_stack_top : ℕ

pub data LoadError : Type 0 where
  invalid_pe : ℕ → LoadError
  wrong_architecture not_executable out_of_memory section_too_large image_too_large : LoadError

-- `Result<A, LoadError>`
pub data Result (A : Type 0) : Type 0 where
  failed : LoadError → Result A
  done : A → Result A

abbrev pub Load : Type 0 → Type 0
Load A = Machine → Option (Result A × Machine)

abbrev pub next : {A B : Type 0} → (A → Load B) → Result A × Machine → Option (Result B × Machine)
next g (failed e, m) = some (failed e, m)
next g (done a, m) = g a m

-- `?`
infixl 5 ◌>>=◌
abbrev pub ◌>>=◌ : {A B : Type 0} → Load A → (A → Load B) → Load B
(f >>= g) m = elim (f m) [ none ↦ none | some r ↦ next g r ]

infixl 5 ◌>>◌
abbrev pub ◌>>◌ : {B : Type 0} → Load (Unit {0}) → Load B → Load B
f >> g = f >>= (λ (done_it : Unit {0}). g)

abbrev pub pure : {A : Type 0} → A → Load A
pure a m = some (done a, m)

abbrev pub fail : {A : Type 0} → LoadError → Load A
fail e m = some (failed e, m)

-- `return Err(e)` unless the condition holds.
abbrev pub require : Bool → LoadError → Load (Unit {0})
require holds e = elim holds [ false ↦ fail e | true ↦ pure tt ]

-- `ok_or(LoadError::OutOfMemory)?`
abbrev pub ok_or_memory : {A : Type 0} → Option (Option A × Machine) → Option (Result A × Machine)
ok_or_memory none = none
ok_or_memory (some (none, m)) = some (failed out_of_memory, m)
ok_or_memory (some (some a, m)) = some (done a, m)

-- `if !map_user_pages(..) { return Err(LoadError::OutOfMemory); }`
abbrev pub or_memory : Option (Bool × Machine) → Option (Result (Unit {0}) × Machine)
or_memory none = none
or_memory (some (false, m)) = some (failed out_of_memory, m)
or_memory (some (true, m)) = some (done tt, m)

abbrev pub new_address_space : Load ℕ
new_address_space m = ok_or_memory (create_address_space m)

abbrev pub map_all : ℕ → ℕ → List ℕ → ℕ → Load (Unit {0})
map_all cr3 base file size m = or_memory (map_user_pages cr3 base file size m)

abbrev pub new_stack : ℕ → Load ℕ
new_stack cr3 m = ok_or_memory (alloc_user_stack cr3 m)

-- `parse_pe(data).map_err(LoadError::InvalidPe)?`
abbrev pub parsed : Outcome ℕ PeInfo → Load PeInfo
parsed fault m = none
parsed (err status) m = some (failed (invalid_pe status), m)
parsed (ok pe) m = some (done pe, m)

abbrev pub image_file_machine_amd64 : ℕ
image_file_machine_amd64 = 0x8664

abbrev pub image_file_dll : ℕ
image_file_dll = 0x2000

abbrev pub max_image_size : ℕ
max_image_size = 16 * 1024 * 1024

abbrev pub max_section_size : ℕ
max_section_size = 4 * 1024 * 1024

-- The part of the file that a section names; empty where it does not lie in the file.
unfoldable pub section_data : List ℕ → ImageSectionHeader → List ℕ
section_data file section =
    let raw_size = section.size_of_raw_data in
    let raw_offset = section.pointer_to_raw_data in
    if ltb 0 raw_size && leb (raw_offset + raw_size) (length file)
    then take raw_size (drop raw_offset file)
    else []

-- One round over the sections, with the number loaded so far.
unfoldable pub load_section : ℕ → ℕ → List ℕ → ImageSectionHeader → ℕ → Load ℕ
unfolding section_data
load_section cr3 image_base file section loaded =
    if section_size section == 0 then pure loaded else do
      require (not (ltb max_section_size (section_size section))) section_too_large
      map_all cr3 (add_usize image_base section.virtual_address) (section_data file section)
          (section_size section)
      pure (loaded + 1)

unfoldable pub load_sections : ℕ → ℕ → List ℕ → List ImageSectionHeader → ℕ → Load ℕ
unfolding load_section
load_sections cr3 image_base file [] loaded = pure loaded
load_sections cr3 image_base file (section ∷ sections) loaded =
    load_section cr3 image_base file section loaded >>= load_sections cr3 image_base file sections

-- `log_imports` prints; its panic ends the kernel.
unfoldable pub show_imports : List ℕ → PeInfo → Load (Unit {0})
show_imports file pe = elim (log_imports file pe) [
  | listed names ↦ pure tt
  | panicked ↦ λ m. none
  | unfinished ↦ λ m. none
]

-- What `load_pe` tests before it takes memory.
unfoldable pub check_image : PeInfo → Load (Unit {0})
check_image pe = do
  require (pe.coff.machine == image_file_machine_amd64) wrong_architecture
  require (bit_and pe.coff.characteristics image_file_dll == 0) not_executable
  require (not (ltb max_image_size pe.optional.size_of_image)) image_too_large

unfoldable pub map_headers : ℕ → List ℕ → PeInfo → Load (Unit {0})
map_headers cr3 file pe = do
  let headers_size = pe.optional.size_of_headers
  require (leb headers_size (length file)) (invalid_pe status_invalid_image_format)
  map_all cr3 pe.optional.image_base (take headers_size file) headers_size

abbrev pub image_of : PeInfo → ℕ → ℕ → ℕ → LoadedImage
image_of pe cr3 sections_loaded user_stack_top = record {
  entry_point = add_usize pe.optional.image_base pe.optional.address_of_entry_point;
  image_base = pe.optional.image_base;
  image_size = pe.optional.size_of_image;
  sections_loaded = sections_loaded;
  subsystem = pe.optional.subsystem;
  machine = pe.coff.machine;
  cr3 = cr3;
  user_stack_top = user_stack_top;
}

-- The imports and the stack, and the image.
unfoldable pub finish : List ℕ → PeInfo → ℕ → ℕ → Load LoadedImage
unfolding show_imports
finish file pe cr3 sections_loaded = do
  show_imports file pe
  top ← new_stack cr3
  pure (image_of pe cr3 sections_loaded top)

unfoldable pub map_image : List ℕ → PeInfo → ℕ → Load LoadedImage
unfolding map_headers load_sections finish
map_image file pe cr3 = do
  map_headers cr3 file pe
  sections_loaded ← load_sections cr3 pe.optional.image_base file pe.sections 0
  finish file pe cr3 sections_loaded

unfoldable pub load_parsed : List ℕ → PeInfo → Load LoadedImage
unfolding check_image map_image
load_parsed file pe = do check_image pe; cr3 ← new_address_space; map_image file pe cr3

unfoldable pub load_pe : List ℕ → Load LoadedImage
unfolding load_parsed
load_pe file = do pe ← parsed (parse_pe file); load_parsed file pe

-- The size of a raw program in whole pages.
abbrev pub raw_image_size : List ℕ → ℕ
raw_image_size code = add_usize (length code) 4095 / 4096 * 4096

unfoldable pub load_raw_binary : List ℕ → Load LoadedImage
load_raw_binary code = do
  cr3 ← new_address_space
  map_all cr3 user_image_base code (raw_image_size code)
  user_stack_top ← new_stack cr3
  pure (record {
    entry_point = user_image_base;
    image_base = user_image_base;
    image_size = raw_image_size code % 2 ^ 32;
    sections_loaded = 1;
    subsystem = 0;
    machine = image_file_machine_amd64;
    cr3 = cr3;
    user_stack_top = user_stack_top;
  })
