-- ===== src/Objects/Handles.antt =====
-- The handle table as a map from handles to entries.
use nonameos.Prelude.{
  ℕ, zero, suc, ◌+◌, ◌*◌, ◌/◌, ◌<◌, ◌≡◌, refl, ap, ◌∙◌, true, false, ◌||◌, List, [], ◌∷◌, none,
  some, arith, length, get_or, set, get_or-set, get_elem?-eq-get_or, get_or_of_get_elem?,
  lt-length_of_get_elem?, leb, ◌==◌, if◌then◌else◌, inl, inr, Bool-cases,
}
use nonameos.Prelude.Find.{find_index, find_index_cases, Finds, IsFirst, NonePasses}
use nonameos.Objects.{
  HandleEntry, HandleTable, empty_entry, is_free, no_object, handle_table_size, entry, invalid,
  alloc, get, close, status_success, status_invalid_handle, status_handle_not_closable,
}

abbrev pub Sized : HandleTable → Type 0
Sized table = length table ≡ handle_table_size

abbrev pub new_entry : ℕ → ℕ → HandleEntry
new_entry object_index access = record {
  object_index = object_index;
  access_mask = access;
  inherit = false;
  protect = false;
}

-- A write changes what one slot of handles means.
get-set :
    (h i : ℕ) (e : HandleEntry) (table : HandleTable)
    → Sized table
    → 0 < i
    → i < handle_table_size
    → get h (set table i e)
      ≡ (if i == h / 4 then (if is_free e then none else some e) else get h table)
unfolding get
get-set h i e table sized low high =
    ground (arith, get_or-set table i (h / 4) e empty_entry, sized, low, high)

-- The outcome of `alloc` for an object that may be named.
pub data Allocates (object access : ℕ) (table : HandleTable) : ℕ × HandleTable → Type 0 where
  -- All handles are taken.
  full :
      ((i : ℕ) → 0 < i → i < handle_table_size → is_free (entry table i) ≡ false)
      → Allocates object access table (invalid, table)
  -- The lowest free handle now means the object, and no other handle changes its meaning.
  made :
      (i : ℕ)
      → 0 < i
      → i < handle_table_size
      → is_free (entry table i) ≡ true
      → ((j : ℕ) → 0 < j → j < i → is_free (entry table j) ≡ false)
      → ((h : ℕ)
          → get h (set table i (new_entry object access))
            ≡ (if i == h / 4 then some (new_entry object access) else get h table))
      → Allocates object access table (i * 4, set table i (new_entry object access))

-- The entries behind the reserved one.
taken_all :
    (reserved : HandleEntry) (es : List HandleEntry)
    → length es ≡ 255
    → NonePasses is_free es
    → (i : ℕ) → 0 < i
    → i < handle_table_size
    → is_free (entry (reserved ∷ es) i) ≡ false
taken_all reserved es size none_free zero low high = absurd (omega arith)
taken_all reserved es size none_free (suc i) low high =
    none_free i (get_or es i empty_entry) (get_elem?-eq-get_or es i empty_entry (omega arith))

module _ (object access : ℕ) (ne : (object == no_object) ≡ false) (reserved : HandleEntry)
    (es : List HandleEntry) (size : length es ≡ 255) where
  abbrev whole : HandleTable
  whole = reserved ∷ es

  earlier_taken :
      (i : ℕ) → IsFirst is_free es i → (j : ℕ) → 0 < j → j < i + 1 → is_free (entry whole j) ≡ false
  earlier_taken i first zero low lt = absurd (omega arith)
  earlier_taken i first (suc j) low lt = first.earlier j (get_or es j empty_entry) (omega arith) (
      get_elem?-eq-get_or es j empty_entry
        (omega (arith, lt-length_of_get_elem? es i first.entry first.there)))

  slot_free : (i : ℕ) → IsFirst is_free es i → is_free (entry whole (i + 1)) ≡ true
  slot_free i first =
      ap is_free
        (at (i + 1) (omega arith) ∙ get_or_of_get_elem? es i empty_entry first.entry first.there)
      ∙ first.passes
    where
      at : (k : ℕ) → k ≡ suc i → entry whole k ≡ get_or es i empty_entry
      at k e = ap (entry whole) e

  alloc_behind : Finds is_free es → Allocates object access whole (alloc object access whole)
  unfolding alloc find_index
  alloc_behind (inl (none_found, none_free)) =
      rw none_found (full (taken_all reserved es size none_free))
  alloc_behind (inr (i, found, first)) = rw found (
      made (i + 1) (omega arith) (omega (arith, bound)) (slot_free i first) (earlier_taken i first)
        (λ h. meaning h))
    where
      bound : i < length es
      bound = lt-length_of_get_elem? es i first.entry first.there

      meaning :
          (h : ℕ)
          → get h (set whole (i + 1) (new_entry object access))
            ≡ (if (i + 1) == h / 4 then some (new_entry object access) else get h whole)
      meaning h = ground (
        arith,
        ne,
        get-set h (i + 1) (new_entry object access) whole (omega (arith, size)) (omega arith)
            (omega (arith, bound, size)),
      )

-- In a table of 256 entries, for an object index that is not the mark of a free entry, `alloc`
-- fails only when no entry but the reserved one is free. Otherwise it returns the lowest free
-- handle, a multiple of 4 that is not 0, and changes the meaning of the handles of that entry only.
pub alloc_lem :
    (object access : ℕ) (table : HandleTable)
    → (object == no_object) ≡ false
    → Sized table
    → Allocates object access table (alloc object access table)
alloc_lem object access [] ne size = absurd (omega (arith, size))
alloc_lem object access (reserved ∷ es) ne size =
    alloc_behind object access ne reserved es (omega (arith, size)) (find_index_cases is_free es)

-- The outcome of `close`.
pub data Closes (handle : ℕ) (table : HandleTable) : ℕ × HandleTable → Type 0 where
  unknown : get handle table ≡ none → Closes handle table (status_invalid_handle, table)
  protected :
      (e : HandleEntry)
      → get handle table ≡ some e
      → e.protect ≡ true
      → Closes handle table (status_handle_not_closable, table)
  closed :
      (e : HandleEntry)
      → get handle table ≡ some e
      → e.protect ≡ false
      → ((h : ℕ)
          → get h (set table (handle / 4) empty_entry)
            ≡ (if handle / 4 == h / 4 then none else get h table))
      → Closes handle table (status_success, set table (handle / 4) empty_entry)

-- In a table of 256 entries, `close` refuses a handle that means nothing and one that is protected,
-- and leaves the table as it was. Otherwise the handle, whatever its two low bits are, means
-- nothing afterwards, and every handle of another entry means what it meant.
pub close_lem :
    (handle : ℕ) (table : HandleTable) → Sized table → Closes handle table (close handle table)
unfolding close get
close_lem handle table sized =
    elim (Bool-cases (handle / 4 == 0 || leb handle_table_size (handle / 4))) [
      | inl out ↦ rw out (unknown (rw out refl))
      | inr within ↦ elim (Bool-cases (is_free (entry table (handle / 4)))) [
        | inl free ↦ rw (within, free) (unknown (rw (within, free) refl))
        | inr busy ↦ elim (Bool-cases (entry table (handle / 4)).protect) [
          | inl kept ↦
              rw (within, busy, kept)
                (protected (entry table (handle / 4)) (rw (within, busy) refl) kept)
          | inr gone ↦
              rw (within, busy, gone)
                (closed (entry table (handle / 4)) (rw (within, busy) refl) gone (λ h.
                  get-set h (handle / 4) empty_entry table sized (ground (arith, within))
                    (ground (arith, within))))
        ]
      ]
    ]
