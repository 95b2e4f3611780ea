-- ===== src/Pe/Verdict.antt =====
-- `parse_pe` of kernel/src/win32/pe.rs against the format: which images it takes, and which check
-- refuses each other file.
use nonameos.Prelude.{
  ℕ, ◌+◌, ◌*◌, ◌^◌, ◌≤◌, ◌<◌, ◌≡◌, ◌≢◌, ◌⊎◌, inl, inr, List, length, ltb, leb, ◌==◌, Bool-cases,
  arith,
}
use nonameos.Prelude.Outcome.{ok, err}
use nonameos.Status.{
  status_invalid_image_format, status_invalid_image_not_mz, status_image_machine_type_mismatch,
}
use nonameos.Pe.{
  u8_at, u16_at, u32_at, dos_header_at, file_header_at, optional_header64_at, sections_at,
  validate_dos_header, validate_pe_header, validate_optional_header, get_section_headers, PeInfo,
  parse_pe,
}

-- Bytes in memory: a slice is at most `isize::MAX` bytes long.
pub record IsSlice (file : List ℕ) : Type 0 where
  pub bytes : (i : ℕ) → u8_at file i < 256
  pub short : length file < 2 ^ 63

module _ (file : List ℕ) where
  -- Where the PE signature is said to stand.
  abbrev pub pe_at : ℕ
  pe_at = u32_at file 60

  -- Where the section headers are said to start, and to end.
  abbrev pub table_at : ℕ
  table_at = pe_at + 24 + u16_at file (pe_at + 20)

  abbrev pub table_end : ℕ
  table_end = table_at + u16_at file (pe_at + 6) * 40

  pub record HasDos : Type 0 where
    pub dos_fits : 64 ≤ length file
    pub mz : u16_at file 0 ≡ 0x5A4D
    pub positive : pe_at < 2 ^ 31
    pub inside : pe_at < length file

  pub record HasPe : Type 0 where
    pub has_dos : HasDos
    pub coff_fits : pe_at + 24 ≤ length file
    pub signature : u32_at file pe_at ≡ 0x4550

  pub record HasOptional : Type 0 where
    pub has_pe : HasPe
    pub optional_fits : pe_at + 136 ≤ length file
    pub plus : u16_at file (pe_at + 24) ≡ 0x20B

  pub record IsImage : Type 0 where
    pub has_optional : HasOptional
    pub table_fits : table_end ≤ length file

  unfoldable pub image_info : PeInfo
  image_info = record {
    dos = dos_header_at file 0;
    coff = file_header_at file (pe_at + 4);
    optional = optional_header64_at file (pe_at + 24);
    sections = sections_at (u16_at file (pe_at + 6)) file table_at;
  }

  -- The first check that a file fails, and its status.
  pub data Refused : ℕ → Type 0 where
    no_dos_header : length file < 64 → Refused status_invalid_image_format
    no_mz : 64 ≤ length file → u16_at file 0 ≢ 0x5A4D → Refused status_invalid_image_not_mz
    bad_lfanew :
        64 ≤ length file
        → u16_at file 0 ≡ 0x5A4D
        → (2 ^ 31 ≤ pe_at) ⊎ (length file ≤ pe_at)
        → Refused status_invalid_image_format
    no_signature :
        HasDos
        → (length file < pe_at + 4) ⊎ (u32_at file pe_at ≢ 0x4550)
        → Refused status_invalid_image_format
    no_coff_header :
        HasDos
        → u32_at file pe_at ≡ 0x4550
        → length file < pe_at + 24
        → Refused status_invalid_image_format
    no_optional_header : HasPe → length file < pe_at + 136 → Refused status_invalid_image_format
    not_plus :
        HasPe
        → pe_at + 136 ≤ length file
        → u16_at file (pe_at + 24) ≢ 0x20B
        → Refused status_image_machine_type_mismatch
    no_sections : HasOptional → length file < table_end → Refused status_invalid_image_format

  abbrev DosVerdict : Type 0
  DosVerdict =
      (HasDos × (validate_dos_header file ≡ ok (dos_header_at file 0)))
      ⊎ ((e : ℕ) × Refused e × (validate_dos_header file ≡ err e))

  dos_verdict : DosVerdict
  unfolding validate_dos_header dos_header_at
  dos_verdict = elim (Bool-cases (ltb (length file) 64)) [
    | inl short ↦ inr (status_invalid_image_format, no_dos_header (ground arith), ground arith)
    | inr long ↦ elim (Bool-cases (u16_at file 0 == 0x5A4D)) [
      | inr not_mz ↦
          inr (status_invalid_image_not_mz, no_mz (ground arith) (ground arith), ground arith)
      | inl mz ↦ elim (Bool-cases (ltb pe_at (2 ^ 31))) [
        | inr negative ↦ inr (
          status_invalid_image_format,
          bad_lfanew (ground arith) (ground arith) (inl (ground arith)),
          ground arith,
        )
        | inl positive ↦ elim (Bool-cases (ltb pe_at (length file))) [
          | inr outside ↦ inr (
            status_invalid_image_format,
            bad_lfanew (ground arith) (ground arith) (inr (ground arith)),
            ground arith,
          )
          | inl inside ↦ inl (ground arith, ground arith)
        ]
      ]
    ]
  ]

  u16_lt : IsSlice file → (offset : ℕ) → u16_at file offset < 65536
  u16_lt s offset = omega (arith, s.bytes offset, s.bytes (offset + 1))

  module _ (s : IsSlice file) where
    pe_verdict :
        HasDos
        → (HasPe
            × (validate_pe_header file (dos_header_at file 0)
                ≡ ok (file_header_at file (pe_at + 4))))
          ⊎ ((e : ℕ) × Refused e × (validate_pe_header file (dos_header_at file 0) ≡ err e))
    unfolding validate_pe_header dos_header_at
    pe_verdict d = elim (Bool-cases (leb (pe_at + 4) (length file))) [
      | inr short ↦
          inr (status_invalid_image_format, no_signature d (inl (ground arith)), ground arith)
      | inl long ↦ elim (Bool-cases (u32_at file pe_at == 0x4550)) [
        | inr not_pe ↦
            inr (status_invalid_image_format, no_signature d (inr (ground arith)), ground arith)
        | inl pe ↦ elim (Bool-cases (leb (pe_at + 24) (length file))) [
          | inr cut ↦ inr (
            status_invalid_image_format,
            no_coff_header d (ground arith) (ground arith),
            ground arith,
          )
          | inl fits ↦ inl (
            record { has_dos = d; coff_fits = ground arith; signature = ground arith },
            ground arith,
          )
        ]
      ]
    ]

    optional_verdict :
        HasPe
        → (HasOptional
            × (validate_optional_header file (dos_header_at file 0)
                ≡ ok (optional_header64_at file (pe_at + 24))))
          ⊎ ((e : ℕ) × Refused e × (validate_optional_header file (dos_header_at file 0) ≡ err e))
    unfolding validate_optional_header dos_header_at optional_header64_at
    optional_verdict p = elim (Bool-cases (leb (pe_at + 136) (length file))) [
      | inr short ↦
          inr (status_invalid_image_format, no_optional_header p (ground arith), ground arith)
      | inl long ↦ elim (Bool-cases (u16_at file (pe_at + 24) == 0x20B)) [
        | inr other ↦ inr (
          status_image_machine_type_mismatch,
          not_plus p (ground arith) (ground arith),
          ground arith,
        )
        | inl plus ↦
            inl (
              record { has_pe = p; optional_fits = ground arith; plus = ground arith },
              ground arith,
            )
      ]
    ]

    table_verdict :
        HasOptional
        → (IsImage
            × (get_section_headers file (dos_header_at file 0) (file_header_at file (pe_at + 4))
                ≡ ok (sections_at (u16_at file (pe_at + 6)) file table_at)))
          ⊎ ((e : ℕ) × Refused e
              × (get_section_headers file (dos_header_at file 0) (file_header_at file (pe_at + 4))
                  ≡ err e))
    unfolding get_section_headers dos_header_at file_header_at
    table_verdict o = elim (Bool-cases (leb table_end (length file))) [
      | inr short ↦ inr (
        status_invalid_image_format,
        no_sections o (ground arith),
        ground (arith, u16_lt s (pe_at + 20), u16_lt s (pe_at + 6)),
      )
      | inl fits ↦ inl (
        record { has_optional = o; table_fits = ground arith },
        ground (arith, u16_lt s (pe_at + 20), u16_lt s (pe_at + 6)),
      )
    ]

    -- For every byte slice, `parse_pe` reads nothing outside of it. Either the file is an image,
    -- that is, it has the signatures MZ, PE and 0x20B where they belong, and all headers and
    -- section headers fit into it, and the result is the structures that stand at the places the
    -- format names; or the file is refused, with the status of the first check that it fails.
    pub parse_pe-Verdict :
        (IsImage × (parse_pe file ≡ ok image_info))
        ⊎ ((e : ℕ) × Refused e × (parse_pe file ≡ err e))
    unfolding parse_pe image_info
    parse_pe-Verdict = elim dos_verdict [
      | inr (e, why, refused) ↦ inr (e, why, rw refused)
      | inl (d, dos) ↦ elim (pe_verdict d) [
        | inr (e, why, refused) ↦ inr (e, why, rw (dos, refused))
        | inl (p, coff) ↦ elim (optional_verdict p) [
          | inr (e, why, refused) ↦ inr (e, why, rw (dos, coff, refused))
          | inl (o, optional) ↦ elim (table_verdict o) [
            | inr (e, why, refused) ↦ inr (e, why, rw (dos, coff, optional, refused))
            | inl (i, sections) ↦ inl (i, rw (dos, coff, optional, sections))
          ]
        ]
      ]
    ]
