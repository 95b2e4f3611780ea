-- ===== src/Loader/Bounds.antt =====
-- How large the parts of a loaded image are, in kernel/src/loader.rs.
use nonameos.Prelude.{
  ℕ, ◌+◌, ◌*◌, ◌^◌, ◌≤◌, ◌<◌, ◌≡◌, refl, ap, Bool, true, false, not, List, [], ◌∷◌, Option, none,
  some, Bool-cases, inl, inr, arith, ltb, ◌==◌, if◌then◌else◌, add_usize,
}
use nonameos.Prelude.Counting.{count_if}
use nonameos.Pe.{ImageSectionHeader}
use nonameos.Pe.Imports.{section_size}
use nonameos.Paging.{Machine}
use nonameos.Userspace.{map_user_pages, num_pages, max_image_pages}
use nonameos.Loader.{
  LoadError, Result, done, failed, Load, next, ◌>>=◌, ◌>>◌, section_too_large, section_data, pure,
  require, or_memory, map_all, load_section, load_sections, max_section_size,
}

-- A chain that is done: its first part was done, and then the rest.
pub record Parts {A B : Type 0} (f : Load A) (g : A → Load B) (m : Machine) (b : B) (m' : Machine)
    : Type 0 where
  pub first : A
  pub between : Machine
  pub did_first : f m ≡ some (done first, between)
  pub did_rest : g first between ≡ some (done b, m')

chain_of :
    {A B : Type 0} (f : Load A) (g : A → Load B) (m : Machine) (b : B) (m' : Machine)
    (r : Option (Result A × Machine))
    → f m ≡ r
    → ◌≡◌ {A = Option (Result B × Machine)}
        (elim r [ none ↦ none | some q ↦ next g q ])
        (some (done b, m'))
    → Parts f g m b m'
chain_of f g m b m' none e h = absurd (cc h)
chain_of f g m b m' (some (failed x, m1)) e h = absurd (cc h)
chain_of f g m b m' (some (done a, m1)) e h = record {
  first = a;
  between = m1;
  did_first = e;
  did_rest = h;
}

pub parts :
    {A B : Type 0} (f : Load A) (g : A → Load B) (m : Machine) (b : B) (m' : Machine)
    → (f >>= g) m ≡ some (done b, m')
    → Parts f g m b m'
parts f g m b m' h = chain_of f g m b m' (f m) refl h

pub required :
    (holds : Bool) (e : LoadError) (m : Machine) (t : Unit {0}) (m' : Machine)
    → require holds e m ≡ some (done t, m')
    → (holds ≡ true)
required true e m t m' h = refl
required false e m t m' h = absurd (cc h)

mapped :
    (r : Option (Bool × Machine)) (t : Unit {0}) (m' : Machine)
    → or_memory r ≡ some (done t, m')
    → r ≡ some (true, m')
mapped none t m' h = absurd (cc h)
mapped (some (false, m)) t m' h = absurd (cc h)
mapped (some (true, m)) t m' h =
    let same : m ≡ m' = cc h in ap (λ (k : Machine). some (true, k)) same

few_pages :
    (cr3 base size : ℕ) (file : List ℕ) (m m' : Machine)
    → map_user_pages cr3 base file size m ≡ some (true, m')
    → num_pages size ≤ max_image_pages
unfolding map_user_pages
few_pages cr3 base size file m m' h = elim (Bool-cases (ltb max_image_pages (num_pages size))) [
  | inl big ↦ absurd (cc (rw (map_user_pages, big) at h))
  | inr small ↦ ground (arith, small)
]

-- The largest size that `map_user_pages` maps.
abbrev pub max_mapped : ℕ
max_mapped = 256 * 4096

pub bounded :
    (cr3 base size : ℕ) (file : List ℕ) (m : Machine) (t : Unit {0}) (m' : Machine)
    → size < 2 ^ 63
    → map_all cr3 base file size m ≡ some (done t, m')
    → size ≤ max_mapped
bounded cr3 base size file m t m' lt h =
    omega (arith, few_pages cr3 base size file m m' (mapped _ t m' h))

abbrev pub is_large : ImageSectionHeader → Bool
is_large section = ltb max_mapped (section_size section)

abbrev pub takes_memory : ImageSectionHeader → Bool
takes_memory section = not (section_size section == 0)

record Round (section : ImageSectionHeader) (loaded after : ℕ) : Type 0 where
  small : section_size section ≤ max_mapped
  counted : after ≡ loaded + (if takes_memory section then 1 else 0)

load_section-Round :
    (cr3 base : ℕ) (file : List ℕ) (section : ImageSectionHeader) (loaded : ℕ) (m : Machine)
    (after : ℕ) (m' : Machine)
    → load_section cr3 base file section loaded m ≡ some (done after, m')
    → Round section loaded after
unfolding load_section
load_section-Round cr3 base file section loaded m after m' h =
    elim (Bool-cases (section_size section == 0)) [
      | inl empty ↦
          let same : loaded ≡ after = cc (rw (load_section, empty) at h) in
          record { small = ground (arith, empty); counted = ground (arith, same, empty) }
      | inr full ↦
          let limit =
            require (not (ltb max_section_size (section_size section))) section_too_large in
          let place =
            map_all cr3 (add_usize base section.virtual_address) (section_data file section)
              (section_size section) in
          let count = pure (loaded + 1) in
          let checked =
            parts limit (λ (t : Unit {0}). place >> count) m after m'
              (rw (load_section, full) at h) in
          let below =
            required _ section_too_large m checked.first checked.between checked.did_first in
          let shown =
            parts place (λ (t : Unit {0}). count) checked.between after m' checked.did_rest in
          let small =
            bounded cr3 _ (section_size section) _ checked.between shown.first shown.between
              (ground (arith, below)) shown.did_first in
          let same : loaded + 1 ≡ after = cc (shown.did_rest) in
          record { small = small; counted = ground (arith, same, full) }
    ]

pub load_sections-all :
    (cr3 base : ℕ) (file : List ℕ) (sections : List ImageSectionHeader) (loaded : ℕ) (m : Machine)
    (after : ℕ) (m' : Machine)
    → load_sections cr3 base file sections loaded m ≡ some (done after, m')
    → (count_if is_large sections ≡ 0) × (after ≡ loaded + count_if takes_memory sections)
unfolding load_sections count_if
load_sections-all cr3 base file [] loaded m after m' h =
    let same : loaded ≡ after = cc h in (refl, omega (arith, same))
load_sections-all cr3 base file (section ∷ sections) loaded m after m' h =
    let p =
      parts (load_section cr3 base file section loaded) (load_sections cr3 base file sections) m
        after m' h in
    let r = load_section-Round cr3 base file section loaded m p.first p.between p.did_first in
    let (none_large, counted) =
      load_sections-all cr3 base file sections p.first p.between after m' p.did_rest in
    (ground (arith, none_large, r.small), omega (arith, counted, r.counted))
