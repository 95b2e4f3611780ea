-- ===== src/Objects/Duplicates.antt =====
-- `duplicate` takes no reference for the handle that it makes.
use mathlib.Core.Bool.{false≢true}
use nonameos.Prelude.{
  ℕ, ◌*◌, ◌/◌, ◌<◌, ◌≡◌, ◌≢◌, refl, sym, ap, ◌∙◌, subst, Bool, true, false, Option, none, some,
  arith, set, ◌==◌, if◌then◌else◌, inl, inr, Bool-cases, length-set, get_or-set, eq_of_test,
}
use nonameos.Objects.Handles.{
  Sized, new_entry, Allocates, full, made, alloc_lem, Closes, unknown, protected, closed, close_lem,
}
use nonameos.Objects.References.{Means, get-Means}
use nonameos.Objects.Pool.{within_of_object}
use nonameos.Objects.{
  HandleEntry, HandleTable, entry, is_free, get, close, alloc, duplicate, invalid,
  handle_table_size, ObjectHeader, is_error,
}
use nonameos.Objects.Store.{ObjectPool, object, drop_reference, dereference_object, close_handle}

-- The handle `copy` means an object that is gone.
pub record Dangles (copy index access : ℕ) (table : HandleTable) (pool : ObjectPool) : Type 0 where
  pub meaning : get copy table ≡ some (new_entry index access)
  pub gone : object pool index ≡ none

abbrev entry_protect : Option HandleEntry → Bool
entry_protect none = false
entry_protect (some e) = e.protect

module _ (table : HandleTable) (pool : ObjectPool) (handle access : ℕ) (e : HandleEntry)
    (o : ObjectHeader) (sized : Sized table) (found : get handle table ≡ some e)
    (open_ended : e.protect ≡ false) (there : object pool e.object_index ≡ some o)
    (single : o.ref_count ≡ 1) (transient : o.permanent ≡ false) where
  means : Means handle table e
  means = get-Means handle table e found

  duplicate-alloc : duplicate handle access table ≡ alloc e.object_index access table
  unfolding duplicate
  duplicate-alloc = ground (arith, means.here, means.positive, means.within, means.busy)

  destroyed : object (dereference_object e.object_index pool).1 e.object_index ≡ none
  unfolding dereference_object drop_reference
  destroyed = ground (
    arith,
    there,
    single,
    transient,
    get_or-set pool.objects e.object_index e.object_index none none
        (within_of_object pool.objects e.object_index o there),
  )

  -- The copy stands in a free entry, so it is another one.
  module _ (k : ℕ) (lt : k < handle_table_size) (free : is_free (entry table k) ≡ true)
      (meaning : (h : ℕ)
        → get h (set table k (new_entry e.object_index access))
          ≡ (if k == h / 4 then some (new_entry e.object_index access) else get h table)) where
    abbrev copied : HandleTable
    copied = set table k (new_entry e.object_index access)

    other : (k == handle / 4) ≡ false
    other = elim (Bool-cases (k == handle / 4)) [
      | inl same ↦ absurd (
          false≢true (
            sym means.busy
            ∙ sym (ap is_free (ap (entry table) (eq_of_test k (handle / 4) same) ∙ means.here))
            ∙ free))
      | inr differs ↦ differs
    ]

    still : get handle copied ≡ some e
    still = meaning handle ∙ rw other found

    here : k * 4 / 4 ≡ k
    here = omega arith

    copy_alone :
        (if handle / 4 == k * 4 / 4 then none else get (k * 4) copied)
        ≡ some (new_entry e.object_index access)
    copy_alone = ground (arith, here, other, meaning (k * 4))

    outlived :
        (r : ℕ × HandleTable)
        → Closes handle copied r
        → (is_error r.0 ≡ false) × (get (k * 4) r.1 ≡ some (new_entry e.object_index access))
    outlived r (unknown nothing) = cc (sym still ∙ nothing)
    outlived r (protected e' same kept) =
        absurd (false≢true (sym open_ended ∙ ap entry_protect (sym still ∙ same) ∙ kept))
    outlived r (closed _ _ _ gone) = (refl, gone (k * 4) ∙ copy_alone)

  dangling :
      (r : ℕ × HandleTable)
      → Allocates e.object_index access table r
      → r.0 ≢ invalid
      → Dangles r.0 e.object_index access
          (close_handle handle r.1 pool).1
          (close_handle handle r.1 pool).2
  unfolding close_handle
  dangling r (full _) works = absurd (works refl)
  dangling r (made k low lt free lowest meaning) works =
      let done = outlived k lt free meaning (close handle (copied k lt free meaning)) (
        close_lem handle (copied k lt free meaning)
          (length-set table k (new_entry e.object_index access) ∙ sized)) in
      rw (close_handle, still k lt free meaning, done.0)
        (record { meaning = done.1; gone = destroyed })

  -- A handle that is not protected is duplicated, which succeeds, and then closed. If its object
  -- had one reference and is not permanent, the object is gone, and the copy still means it.
  pub duplicate-Dangles :
      (duplicate handle access table).0 ≢ invalid
      → Dangles
          (duplicate handle access table).0
          e.object_index
          access
          (close_handle handle (duplicate handle access table).1 pool).1
          (close_handle handle (duplicate handle access table).1 pool).2
  duplicate-Dangles =
      subst
        (λ r.
          r.0 ≢ invalid
          → Dangles r.0 e.object_index access (close_handle handle r.1 pool).1
              (close_handle handle r.1 pool).2)
        (sym duplicate-alloc)
        (dangling (alloc e.object_index access table)
          (alloc_lem e.object_index access table means.busy sized))
