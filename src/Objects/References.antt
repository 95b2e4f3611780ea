-- ===== src/Objects/References.antt =====
-- References of the pool against handles of a table: which calls keep a handle from outliving its
-- object.
use nonameos.Prelude.{
  ℕ, ◌+◌, ◌-◌, ◌/◌, ◌%◌, ◌≤◌, ◌<◌, ◌≡◌, true, false, List, Option, none, some, arith, length,
  get_or, set, get_or-set, ◌==◌, if◌then◌else◌, inl, inr, Bool-cases, Option-cases, eq_of_test,
}
use nonameos.Prelude.Counting.{count_if, count_if-set}
use nonameos.Objects.Handles.{new_entry}
use nonameos.Objects.Pool.{within_of_object}
use nonameos.Objects.{
  ObjectHeader, HandleEntry, HandleTable, empty_entry, is_free, no_object, handle_table_size, entry,
  get,
}
use nonameos.Objects.Store.{
  max_objects, ObjectPool, object, reference_object, drop_reference, dereference_object, u32_mod,
}

-- The handles for the object `i`, and the references that it counts.
unfoldable pub handles_of : ℕ → HandleTable → ℕ
handles_of i table = count_if (λ (e : HandleEntry). e.object_index == i) table

abbrev pub ref_count_of : Option ObjectHeader → ℕ
ref_count_of none = 0
ref_count_of (some o) = o.ref_count

abbrev pub refs : ObjectPool → ℕ → ℕ
refs pool i = ref_count_of (object pool i)

-- Each object counts a reference for each of its handles, and nothing else has a handle.
pub record Covers (table : HandleTable) (pool : ObjectPool) : Type 0 where
  pub covered : (i : ℕ) → (i == no_object) ≡ false → handles_of i table ≤ refs pool i

pub object_within :
    (pool : ObjectPool) (i : ℕ) (o : ObjectHeader)
    → length pool.objects ≡ max_objects
    → object pool i ≡ some o
    → i < max_objects
object_within pool i o size e = omega (arith, size, within_of_object pool.objects i o e)

pub refs-set :
    (objects : List (Option ObjectHeader)) (i j : ℕ) (o : Option ObjectHeader)
    → i < length objects
    → ref_count_of (get_or (set objects i o) j none)
      ≡ (if i == j then ref_count_of o else ref_count_of (get_or objects j none))
refs-set objects i j o lt = ground (arith, get_or-set objects i j o none lt)

module _ (pool : ObjectPool) (i : ℕ) where
  pub refs-reference :
      (o : ObjectHeader)
      → object pool i ≡ some o
      → o.ref_count < u32_mod - 1
      → (j : ℕ) → refs (reference_object i pool).1 j ≡ refs pool j + (if i == j then 1 else 0)
  unfolding reference_object
  refs-reference o e room j = ground (
    arith,
    e,
    room,
    eq_of_test i j,
    refs-set pool.objects i j (some (record o { ref_count = (o.ref_count + 1) % u32_mod }))
        (within_of_object pool.objects i o e),
  )

  refs-drop :
      (o : ObjectHeader)
      → object pool i ≡ some o
      → (j : ℕ) → refs (drop_reference i o pool) j ≡ refs pool j - (if i == j then 1 else 0)
  unfolding drop_reference
  refs-drop o e j = ground (
    arith,
    e,
    eq_of_test i j,
    refs-set pool.objects i j (some (record o { ref_count = o.ref_count - 1 }))
        (within_of_object pool.objects i o e),
    refs-set pool.objects i j none (within_of_object pool.objects i o e),
  )

  pub refs-dereference :
      (j : ℕ) → refs (dereference_object i pool).1 j ≡ refs pool j - (if i == j then 1 else 0)
  unfolding dereference_object
  refs-dereference j = elim (Option-cases (object pool i)) [
    | inl e ↦ rw (dereference_object, e) (ground (arith, e, eq_of_test i j))
    | inr (o, e) ↦ elim (Bool-cases (o.ref_count == 0)) [
      | inl spent ↦ rw (dereference_object, e, spent) (ground (arith, e, spent, eq_of_test i j))
      | inr more ↦ rw (dereference_object, e, more) (refs-drop o e j)
    ]
  ]

-- A write to the table trades the handle of the old entry for that of the new one.
handles-set :
    (table : HandleTable) (i j : ℕ) (e : HandleEntry)
    → i < length table
    → handles_of j (set table i e) + (if (entry table i).object_index == j then 1 else 0)
      ≡ handles_of j table + (if e.object_index == j then 1 else 0)
unfolding handles_of
handles-set table i j e lt =
    count_if-set (λ (e : HandleEntry). e.object_index == j) table i e empty_entry lt

pub handles-made :
    (table : HandleTable) (i j object access : ℕ)
    → i < length table
    → (j == no_object) ≡ false
    → is_free (entry table i) ≡ true
    → handles_of j (set table i (new_entry object access))
      ≡ handles_of j table + (if object == j then 1 else 0)
handles-made table i j object access lt ne free = ground (
  arith,
  ne,
  free,
  eq_of_test (entry table i).object_index no_object,
  handles-set table i j (new_entry object access) lt,
)

pub handles-closed :
    (table : HandleTable) (i j : ℕ)
    → i < length table
    → (j == no_object) ≡ false
    → handles_of j (set table i empty_entry) + (if (entry table i).object_index == j then 1 else 0)
      ≡ handles_of j table
handles-closed table i j lt ne = ground (arith, ne, handles-set table i j empty_entry lt)

-- A handle that means something names an entry that is not free.
pub record Means (handle : ℕ) (table : HandleTable) (e : HandleEntry) : Type 0 where
  pub here : entry table (handle / 4) ≡ e
  pub positive : 0 < handle / 4
  pub within : handle / 4 < handle_table_size
  pub busy : is_free e ≡ false

pub get-Means :
    (handle : ℕ) (table : HandleTable) (e : HandleEntry)
    → get handle table ≡ some e
    → Means handle table e
unfolding get
get-Means handle table e found = record {
  here = ground (arith, found);
  positive = ground (arith, found);
  within = ground (arith, found);
  busy = ground (arith, found);
}
