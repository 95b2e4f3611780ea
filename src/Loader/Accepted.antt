-- ===== src/Loader/Accepted.antt =====
-- What `load_pe` of kernel/src/loader.rs says about the images that it loads.
use mathlib.Core.Option
use nonameos.Prelude.{
  ℕ, ◌+◌, ◌^◌, ◌≤◌, ◌<◌, ◌≡◌, ap, sym, subst, ◌∙◌, Bool, true, false, not, List, Option, none, some,
  inl, inr, arith, ltb, leb, ◌==◌, length, bit_and, take, ◌%◌,
}
use nonameos.Prelude.Counting.{count_if}
use nonameos.Prelude.Outcome.{Outcome, ok, err, fault}
use nonameos.Pe.{PeInfo, parse_pe}
use nonameos.Paging.{Machine}
use nonameos.Status.{status_invalid_image_format}
use nonameos.Userspace.{alloc_user_stack, stack_or_none, user_stack_top}
use nonameos.Loader.Bounds.{
  parts, required, bounded, max_mapped, is_large, takes_memory, load_sections-all,
}
use nonameos.Pe.Verdict.{IsSlice, IsImage, image_info, parse_pe-Verdict}
use nonameos.Loader.{
  done, ◌>>=◌, ◌>>◌, pure, require, map_all, parsed, load_sections, load_pe, LoadedImage,
  check_image, map_headers, finish, map_image, load_parsed, show_imports, new_stack,
  new_address_space, image_of, image_too_large, not_executable, wrong_architecture,
  image_file_machine_amd64, image_file_dll, max_image_size, invalid_pe, ok_or_memory,
}

-- What an image that `load_pe` accepts is like.
module _ (file : List ℕ) (image : LoadedImage) where
  pub record Loaded (pe : PeInfo) : Type 0 where
    pub amd64 : pe.coff.machine ≡ 0x8664
    pub no_dll : bit_and pe.coff.characteristics 0x2000 ≡ 0
    pub small : pe.optional.size_of_image ≤ 2 ^ 24
    pub headers_inside : pe.optional.size_of_headers ≤ length file
    pub headers_small : pe.optional.size_of_headers ≤ max_mapped
    pub none_large : count_if is_large pe.sections ≡ 0
    pub counted : image.sections_loaded ≡ count_if takes_memory pe.sections
    pub entry :
        image.entry_point ≡ (pe.optional.image_base + pe.optional.address_of_entry_point) % 2 ^ 64
    pub stack : image.user_stack_top ≡ user_stack_top

module _ (pe : PeInfo) where
  record Checked : Type 0 where
    amd64 : pe.coff.machine ≡ 0x8664
    no_dll : bit_and pe.coff.characteristics 0x2000 ≡ 0
    small : pe.optional.size_of_image ≤ 2 ^ 24

module _ (pe : PeInfo) (m m' : Machine) where
  check_image-Checked : (t : Unit {0}) → check_image pe m ≡ some (done t, m') → Checked pe
  unfolding check_image
  check_image-Checked t h =
      let last = require (not (ltb max_image_size pe.optional.size_of_image)) image_too_large in
      let no_dll = require (bit_and pe.coff.characteristics image_file_dll == 0) not_executable in
      let arch = require (pe.coff.machine == image_file_machine_amd64) wrong_architecture in
      let p = parts arch (λ (u : Unit {0}). no_dll >> last) m t m' h in
      let q = parts no_dll (λ (u : Unit {0}). last) p.between t m' p.did_rest in
      record {
        amd64 = ground (arith, required _ wrong_architecture m p.first p.between p.did_first);
        no_dll = ground (arith, required _ not_executable p.between q.first q.between q.did_first);
        small = ground (arith, required _ image_too_large q.between t m' q.did_rest);
      }

  module _ (file : List ℕ) (cr3 : ℕ) (short : length file < 2 ^ 63) where
    map_headers-Fits :
        (t : Unit {0})
        → map_headers cr3 file pe m ≡ some (done t, m')
        → (pe.optional.size_of_headers ≤ length file) × (pe.optional.size_of_headers ≤ max_mapped)
    unfolding map_headers
    map_headers-Fits t h =
        let size = pe.optional.size_of_headers in
        let inside = require (leb size (length file)) (invalid_pe status_invalid_image_format) in
        let place = map_all cr3 pe.optional.image_base (take size file) size in
        let p = parts inside (λ (u : Unit {0}). place) m t m' h in
        let fits : size ≤ length file =
          ground (arith, required _ _ m p.first p.between p.did_first) in
        (fits, bounded cr3 _ size _ p.between t m' (omega (arith, fits, short)) p.did_rest)

top_of :
    (r : Option (Bool × Machine)) (top : ℕ) (m' : Machine)
    → ok_or_memory (Option.map stack_or_none r) ≡ some (done top, m')
    → top ≡ user_stack_top
top_of none top m' h = absurd (cc h)
top_of (some (false, m)) top m' h = absurd (cc h)
top_of (some (true, m)) top m' h = cc h

new_stack-top :
    (cr3 top : ℕ) (m m' : Machine) → new_stack cr3 m ≡ some (done top, m') → top ≡ user_stack_top
unfolding alloc_user_stack
new_stack-top cr3 top m m' h = top_of _ top m' h

module _ (file : List ℕ) (pe : PeInfo) where
  record Finished (cr3 sections_loaded : ℕ) (image : LoadedImage) : Type 0 where
    counted : image.sections_loaded ≡ sections_loaded
    entry :
        image.entry_point ≡ (pe.optional.image_base + pe.optional.address_of_entry_point) % 2 ^ 64
    stack : image.user_stack_top ≡ user_stack_top

  finish-Finished :
      (cr3 sections_loaded : ℕ) (image : LoadedImage) (m m' : Machine)
      → finish file pe cr3 sections_loaded m ≡ some (done image, m')
      → Finished cr3 sections_loaded image
  unfolding finish
  finish-Finished cr3 sections_loaded image m m' h =
      let build = λ (top : ℕ). pure (image_of pe cr3 sections_loaded top) in
      let p =
        parts (show_imports file pe) (λ (t : Unit {0}). new_stack cr3 >>= build) m image m' h in
      let q = parts (new_stack cr3) build p.between image m' p.did_rest in
      let top = new_stack-top cr3 q.first p.between q.between q.did_first in
      let same : image_of pe cr3 sections_loaded q.first ≡ image = cc (q.did_rest) in
      record {
        counted = sym (ap (λ (i : LoadedImage). i.sections_loaded) same);
        entry = sym (ap (λ (i : LoadedImage). i.entry_point) same);
        stack = sym (ap (λ (i : LoadedImage). i.user_stack_top) same) ∙ top;
      }

  map_image-Loaded :
      (cr3 : ℕ) (image : LoadedImage) (m m1 m' : Machine)
      → length file < 2 ^ 63
      → Checked pe
      → map_image file pe cr3 m1 ≡ some (done image, m')
      → Loaded file image pe
  unfolding map_image
  map_image-Loaded cr3 image m m1 m' short c h =
      let rest = λ (loaded : ℕ). finish file pe cr3 loaded in
      let sections = load_sections cr3 pe.optional.image_base file pe.sections 0 in
      let p = parts (map_headers cr3 file pe) (λ (t : Unit {0}). sections >>= rest) m1 image m' h in
      let q = parts sections rest p.between image m' p.did_rest in
      let (inside, headers) = map_headers-Fits pe m1 p.between file cr3 short p.first p.did_first in
      let (none_large, count) =
        load_sections-all cr3 _ file pe.sections 0 p.between q.first q.between q.did_first in
      let f = finish-Finished cr3 q.first image q.between m' q.did_rest in
      record {
        amd64 = c.amd64;
        no_dll = c.no_dll;
        small = c.small;
        headers_inside = inside;
        headers_small = headers;
        none_large = none_large;
        counted = omega (arith, f.counted, count);
        entry = f.entry;
        stack = f.stack;
      }

parsed_as :
    (file : List ℕ) (pe : PeInfo) (m m1 : Machine) (o : Outcome ℕ PeInfo)
    → parsed o m ≡ some (done pe, m1)
    → o ≡ ok pe
parsed_as file pe m m1 fault h = absurd (cc h)
parsed_as file pe m m1 (err e) h = absurd (cc h)
parsed_as file pe m m1 (ok other) h = let same : other ≡ pe = cc h in ap ok same

load_parsed-Loaded :
    (file : List ℕ) (pe : PeInfo) (image : LoadedImage) (m m' : Machine)
    → length file < 2 ^ 63
    → load_parsed file pe m ≡ some (done image, m')
    → Loaded file image pe
unfolding load_parsed
load_parsed-Loaded file pe image m m' short h =
    let p =
      parts (check_image pe) (λ (t : Unit {0}). new_address_space >>= map_image file pe) m image m'
        h in
    let q = parts new_address_space (map_image file pe) p.between image m' p.did_rest in
    let c = check_image-Checked pe m p.between p.first p.did_first in
    map_image-Loaded file pe q.first image m q.between m' short c q.did_rest

-- For every byte slice that `load_pe` loads, on any machine: it is an image in the format, for
-- AMD64, no DLL, of at most 16 MiB; its headers lie in the file; its headers and each of its
-- sections take at most 1 MiB; the sections counted as loaded are those that take memory; and the
-- entry point and the stack are where the file and the layout of user space put them.
pub load_pe-Loaded :
    (file : List ℕ) (image : LoadedImage) (m m' : Machine)
    → IsSlice file
    → load_pe file m ≡ some (done image, m')
    → IsImage file × Loaded file image (image_info file)
unfolding load_pe
load_pe-Loaded file image m m' s h =
    let p = parts (parsed (parse_pe file)) (load_parsed file) m image m' h in
    let is_parsed = parsed_as file p.first m p.between _ p.did_first in
    let l = load_parsed-Loaded file p.first image p.between m' s.short p.did_rest in
    elim (parse_pe-Verdict file s) [
      | inl (i, e) ↦
          let same : p.first ≡ image_info file = cc (is_parsed, e) in
          (i, subst (Loaded file image) same l)
      | inr (e, why, refused) ↦ absurd (cc (is_parsed, refused))
    ]
