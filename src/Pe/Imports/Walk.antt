-- ===== src/Pe/Imports/Walk.antt =====
-- `log_imports` of kernel/src/loader.rs on every file: it ends, what it prints, and where it panics.
use nonameos.Prelude.{
  ℕ, zero, suc, ◌+◌, ◌≤◌, ◌<◌, ◌≡◌, ◌≢◌, refl, Bool, true, false, List, [], ◌∷◌, some, length, drop,
  length-take, ltb, leb, if◌then◌else◌, Bool-cases, Option-cases, inl, inr, arith,
}
use nonameos.Pe.{ImageSectionHeader, PeInfo, import_descriptor_at}
use nonameos.Pe.Imports.{
  rva_to_offset, name_length, slice_name, is_last, DllName, dll_name, Listing, listed, panicked,
  prepend, sections_end, walk, walk_fuel, no_directory, cut_directories, no_imports, import_dir,
  log_imports,
}

rva-lt-end :
    (rva : ℕ) (sections : List ImageSectionHeader) (at : ℕ)
    → rva_to_offset rva sections ≡ some at
    → rva < sections_end sections
unfolding rva_to_offset sections_end
rva-lt-end rva [] at h = cc
rva-lt-end rva (s ∷ sections) at h = ground (arith, rva-lt-end rva sections at)

name_length_bound : (rounds : ℕ) (file : List ℕ) (at : ℕ) → name_length rounds file at ≤ rounds
unfolding name_length
name_length_bound zero file at = omega arith
name_length_bound (suc rounds) file at = ground (arith, name_length_bound rounds file (at + 1))

-- The names are cut to 129 bytes.
abbrev pub AllShort : List (List ℕ) → Type 0
AllShort [] = Unit {0}
AllShort (name ∷ names) = (length name ≤ 129) × AllShort names

-- The walk printed names, or it panicked: it did not run on.
pub data Ended : Listing → Type 0 where
  printed : {names : List (List ℕ)} → AllShort names → Ended (listed names)
  stopped : Ended panicked

abbrev IsShort : DllName → Type 0
IsShort (DllName.named name) = length name ≤ 129
IsShort _ = Unit {0}

prepend-Ended :
    (name : DllName) {rest : Listing} → IsShort name → Ended rest → Ended (prepend name rest)
unfolding prepend
prepend-Ended DllName.unnamed h r = r
prepend-Ended DllName.panics h r = stopped
prepend-Ended (DllName.named name) h (printed hs) = printed (h, hs)
prepend-Ended (DllName.named name) h stopped = stopped

Ended-unless : (b : Bool) {l : Listing} → (b ≡ false → Ended l) → Ended (if b then listed [] else l)
Ended-unless true h = printed tt
Ended-unless false h = h refl

module _ (file : List ℕ) (pe : PeInfo) where
  slice_name-IsShort : (at len : ℕ) → len ≤ 129 → IsShort (slice_name file at len)
  slice_name-IsShort at len h = elim (Bool-cases (leb (at + len) (length file))) [
    | inl fits ↦ rw fits (omega (arith, length-take len (drop at file)))
    | inr past ↦ rw past tt
  ]

  dll_name-IsShort : (name : ℕ) → IsShort (dll_name file pe name)
  unfolding dll_name
  dll_name-IsShort name = elim (Option-cases (rva_to_offset name pe.sections)) [
    | inl outside ↦ rw (dll_name, outside) tt
    | inr (at, inside) ↦
        rw (dll_name, inside)
          (slice_name-IsShort at (name_length 129 file at) (name_length_bound 129 file at))
  ]

  walk-Ended :
      (fuel rva : ℕ)
      → sections_end pe.sections < fuel + rva
      → 0 < fuel
      → Ended (walk file pe fuel rva)
  unfolding walk
  walk-Ended zero rva h pos = absurd (omega arith)
  walk-Ended (suc fuel) rva h pos = elim (Option-cases (rva_to_offset rva pe.sections)) [
    | inl outside ↦ rw (walk, outside) (printed tt)
    | inr (at, inside) ↦
        rw (walk, inside)
          (Ended-unless (ltb (length file) (at + 20)) (λ fits.
            Ended-unless (is_last file pe at) (λ more. prepend-Ended _ (dll_name-IsShort _) (
              walk-Ended fuel (rva + 20) (omega arith)
                (omega (arith, rva-lt-end rva pe.sections at inside))))))
  ]

  -- `log_imports` ends on every file and every result of the parser, whatever the sections and the
  -- import directory hold: by a panic, or with a list of names of at most 129 bytes each. The fuel
  -- of the walk is never used up.
  pub log_imports-Ended : Ended (log_imports file pe)
  unfolding log_imports
  log_imports-Ended = Ended-unless (no_directory file pe) (λ a.
      Ended-unless (cut_directories file pe) (λ b. Ended-unless (no_imports file pe) (λ c.
        walk-Ended (walk_fuel file pe) (import_dir file pe).virtual_address (omega arith)
          (omega arith))))

  -- The first import has a name, which by the section table stands past the end of the file.
  pub record StrayName : Type 0 where
    pub has_directory : no_directory file pe ≡ false
    pub uncut : cut_directories file pe ≡ false
    pub has_imports : no_imports file pe ≡ false
    pub at : ℕ
    pub first : rva_to_offset (import_dir file pe).virtual_address pe.sections ≡ some at
    pub first_fits : at + 20 ≤ length file
    pub has_name : (import_descriptor_at file at).name ≢ 0
    pub name_at : ℕ
    pub stray : rva_to_offset (import_descriptor_at file at).name pe.sections ≡ some name_at
    pub outside : length file < name_at

  dll_name-panics :
      (name at : ℕ)
      → rva_to_offset name pe.sections ≡ some at
      → length file < at
      → dll_name file pe name ≡ DllName.panics
  unfolding dll_name name_length
  dll_name-panics name at e h =
      rw (dll_name, e)
        (let past : ltb at (length file) ≡ false = ground arith in rw past (ground arith))

  is_named : (at : ℕ) → (import_descriptor_at file at).name ≢ 0 → is_last file pe at ≡ false
  is_named at h = ground arith

  walk-panics :
      (fuel : ℕ)
      → StrayName
      → walk file pe (suc fuel) (import_dir file pe).virtual_address ≡ panicked
  unfolding walk prepend
  walk-panics fuel h =
      let fits : ltb (length file) (h.at + 20) ≡ false = ground arith in
      rw (
        walk,
        h.first,
        fits,
        is_named h.at h.has_name,
        dll_name-panics _ h.name_at h.stray h.outside,
      )

  -- A file whose first import has a name that by the section table stands past the end of the file
  -- makes `log_imports` panic.
  pub log_imports-panics : StrayName → log_imports file pe ≡ panicked
  unfolding log_imports
  log_imports-panics h =
      rw (log_imports, h.has_directory, h.uncut, h.has_imports)
        (walk-panics (sections_end pe.sections) h)
