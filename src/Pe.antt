-- ===== src/Pe.antt =====
-- kernel/src/win32/pe.rs: the checks of an image file. `fault` is an access outside the file, which
-- the raw pointers of the source do not check. Sums of `usize` wrap, as in a release build.
mod Layout
pub mod Verdict
pub mod Imports
pub mod Sample
pub mod Tests
unfoldable pub use Layout.*
use nonameos.Prelude.{
  ℕ, ◌+◌, ◌*◌, not, ◌||◌, List, length, ltb, leb, ◌==◌, if◌then◌else◌, add_usize,
}
use nonameos.Prelude.Collect.{collect}
use nonameos.Prelude.Outcome.{Outcome, ok, fault, ◌>>=◌, ◌>>◌, guard}
use nonameos.Status.{
  status_invalid_image_format, status_invalid_image_not_mz, status_image_machine_type_mismatch,
}

abbrev pub image_dos_signature : ℕ
image_dos_signature = 0x5A4D

abbrev pub image_nt_signature : ℕ
image_nt_signature = 0x00004550

abbrev pub image_nt_optional_hdr64_magic : ℕ
image_nt_optional_hdr64_magic = 0x20B

-- A structure of `size` bytes behind a pointer into the file.
abbrev pub deref {ℓ κ} : {E : Type ℓ} {A : Type κ} → List ℕ → ℕ → ℕ → (List ℕ → ℕ → A) → Outcome E A
deref file offset size at = if leb (offset + size) (length file) then ok (at file offset) else fault

unfoldable pub validate_dos_header : List ℕ → Outcome ℕ ImageDosHeader
validate_dos_header file = do
  guard (not (ltb (length file) sizeof_dos_header)) status_invalid_image_format
  dos ← deref file 0 sizeof_dos_header dos_header_at
  guard (dos.e_magic == image_dos_signature) status_invalid_image_not_mz
  guard (not (is_negative dos.e_lfanew || leb (length file) (long_as_usize dos.e_lfanew)))
      status_invalid_image_format
  ok dos

unfoldable pub validate_pe_header : List ℕ → ImageDosHeader → Outcome ℕ ImageFileHeader
validate_pe_header file dos = do
  let pe_offset = long_as_usize dos.e_lfanew
  guard (leb (add_usize pe_offset 4) (length file)) status_invalid_image_format
  pe_sig ← deref file pe_offset 4 u32_at
  guard (pe_sig == image_nt_signature) status_invalid_image_format
  let coff_offset = add_usize pe_offset 4
  guard (leb (add_usize coff_offset sizeof_file_header) (length file)) status_invalid_image_format
  deref file coff_offset sizeof_file_header file_header_at

unfoldable pub validate_optional_header : List ℕ → ImageDosHeader → Outcome ℕ ImageOptionalHeader64
validate_optional_header file dos = do
  let opt_offset = add_usize (add_usize (long_as_usize dos.e_lfanew) 4) sizeof_file_header
  guard (leb (add_usize opt_offset sizeof_optional_header64) (length file))
      status_invalid_image_format
  opt ← deref file opt_offset sizeof_optional_header64 optional_header64_at
  guard (opt.magic == image_nt_optional_hdr64_magic) status_image_machine_type_mismatch
  ok opt

-- A slice of section headers.
unfoldable pub sections_at : ℕ → List ℕ → ℕ → List ImageSectionHeader
sections_at num file offset =
    collect num (λ k. section_header_at file (offset + k * sizeof_section_header))

unfoldable pub get_section_headers :
    List ℕ → ImageDosHeader → ImageFileHeader → Outcome ℕ (List ImageSectionHeader)
get_section_headers file dos coff = do
  let headers = add_usize (add_usize (long_as_usize dos.e_lfanew) 4) sizeof_file_header
  let sections_offset = add_usize headers coff.size_of_optional_header
  let num = coff.number_of_sections
  let total_size = num * sizeof_section_header
  guard (leb (add_usize sections_offset total_size) (length file)) status_invalid_image_format
  deref file sections_offset total_size (sections_at num)

pub record PeInfo : Type 0 where
  pub dos : ImageDosHeader
  pub coff : ImageFileHeader
  pub optional : ImageOptionalHeader64
  pub sections : List ImageSectionHeader

unfoldable pub parse_pe : List ℕ → Outcome ℕ PeInfo
parse_pe file = do
  dos ← validate_dos_header file
  coff ← validate_pe_header file dos
  optional ← validate_optional_header file dos
  sections ← get_section_headers file dos coff
  ok (record { dos = dos; coff = coff; optional = optional; sections = sections })
