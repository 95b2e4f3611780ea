-- ===== src/Pe/Tests.antt =====
-- Runs of the parser and of the walk over the imports.
use nonameos.Prelude.{
  ℕ, ◌<◌, ◌≡◌, ◌⊎◌, refl, Bool, true, ◌&&◌, zero, suc, List, [], ◌∷◌, length, ltb, arith,
}
use nonameos.Prelude.Text.{codes}
use nonameos.Prelude.Outcome.{ok, err}
use nonameos.Status.{status_image_machine_type_mismatch}
use nonameos.Pe.{
  u8_at, parse_pe, validate_dos_header, validate_pe_header, validate_optional_header,
  get_section_headers, sections_at, dos_header_at, file_header_at, optional_header64_at,
  section_header_at, data_directory_at, import_descriptor_at,
}
use nonameos.Pe.Verdict.{IsSlice, IsImage, Refused, image_info, parse_pe-Verdict}
use nonameos.Pe.Imports.{listed, panicked, rva_to_offset, dll_name, log_imports}
use nonameos.Pe.Imports.Walk.{Ended, log_imports-Ended, StrayName, log_imports-panics}
use nonameos.Pe.Sample.{image, image_with, stray_image}

sample_size : length image ≡ 302
sample_size = refl

image_parses : parse_pe image ≡ ok (image_info image)
unfolding parse_pe image_info validate_dos_header validate_pe_header validate_optional_header
    get_section_headers dos_header_at file_header_at optional_header64_at
image_parses = refl

pe32_refused : parse_pe (image_with 0x10B 0) ≡ err status_image_machine_type_mismatch
unfolding parse_pe validate_dos_header validate_pe_header validate_optional_header dos_header_at
    file_header_at optional_header64_at
pe32_refused = refl

image_imports : log_imports image (image_info image) ≡ listed (codes "a.dll" ∷ [])
unfolding image_info rva_to_offset dll_name log_imports dos_header_at file_header_at
    optional_header64_at sections_at section_header_at data_directory_at import_descriptor_at
image_imports = refl

all_bytes : List ℕ → Bool
all_bytes [] = true
all_bytes (b ∷ bs) = ltb b 256 && all_bytes bs

bytes_of : (file : List ℕ) → all_bytes file ≡ true → (i : ℕ) → u8_at file i < 256
unfolding all_bytes
bytes_of [] h i = omega arith
bytes_of (b ∷ bs) h zero = ground arith
bytes_of (b ∷ bs) h (suc i) = bytes_of bs (ground arith) i

pub image-IsSlice : IsSlice image
unfolding all_bytes
image-IsSlice = record { bytes = bytes_of image refl; short = omega arith }

parse_pe-Verdict_example :
    (IsImage image × (parse_pe image ≡ ok (image_info image)))
    ⊎ ((e : ℕ) × Refused image e × (parse_pe image ≡ err e))
parse_pe-Verdict_example = parse_pe-Verdict image image-IsSlice

log_imports-Ended_example : Ended (log_imports image (image_info image))
log_imports-Ended_example = log_imports-Ended image (image_info image)

stray : StrayName stray_image (image_info stray_image)
unfolding image_info rva_to_offset dll_name log_imports dos_header_at file_header_at
    optional_header64_at sections_at section_header_at data_directory_at import_descriptor_at
stray = record {
  has_directory = refl;
  uncut = refl;
  has_imports = refl;
  at = 256;
  first = refl;
  first_fits = omega arith;
  has_name = omega arith;
  name_at = 496;
  stray = refl;
  outside = omega arith;
}

log_imports-panics_example : log_imports stray_image (image_info stray_image) ≡ panicked
log_imports-panics_example = log_imports-panics stray_image (image_info stray_image) stray
