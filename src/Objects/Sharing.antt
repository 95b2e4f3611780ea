-- ===== src/Objects/Sharing.antt =====
-- `open_object`, `close_handle` and `duplicate` against the references of the pool.
use nonameos.Prelude.{
  ℕ, ◌-◌, ◌*◌, ◌/◌, ◌<◌, ◌≡◌, refl, ap, ◌∙◌, subst, true, false, List, none, some, arith, length,
  set, length-set, ◌==◌, if◌then◌else◌, inl, inr, Bool-cases, Option-cases, ==_refl,
}
use nonameos.Prelude.Counting.{count_if-pos}
use nonameos.Objects.Handles.{
  Sized, new_entry, Allocates, full, made, alloc_lem, Closes, unknown, protected, closed, close_lem,
}
use nonameos.Objects.References.{
  handles_of, refs, ref_count_of, Covers, Means, get-Means, object_within, refs-reference,
  refs-dereference, handles-made, handles-closed,
}
use nonameos.Objects.{
  ObjectType, type_code, ObjectHeader, HandleEntry, HandleTable, empty_entry, is_free, no_object,
  handle_table_size, entry, invalid, alloc, get, close, status_success,
  status_insufficient_resources, is_error,
}
use nonameos.Objects.Store.{
  max_objects, ObjectPool, object, reference_object, drop_reference, dereference_object,
  lookup_object, OpenResult, opened, failed, open_handle, open_index, open_object, close_handle,
  u32_mod,
}

-- Where every handle is covered by a reference, a handle that means something names an object that
-- is there and has a reference.
no_dangling :
    (table : HandleTable) (pool : ObjectPool) (handle : ℕ) (e : HandleEntry)
    → Sized table
    → Covers table pool
    → get handle table ≡ some e
    → 0 < refs pool e.object_index
unfolding handles_of
no_dangling table pool handle e sized c found =
    let m = get-Means handle table e found in
    omega (
      arith,
      c.covered e.object_index m.busy,
      count_if-pos (λ (x : HandleEntry). x.object_index == e.object_index) table (handle / 4)
          empty_entry (omega (arith, sized, m.within))
          (ap (λ (x : HandleEntry). x.object_index == e.object_index) m.here
            ∙ ==_refl e.object_index),
    )

-- Everything that is needed of a table and a pool.
pub record Sound (table : HandleTable) (pool : ObjectPool) : Type 0 where
  pub table_size : Sized table
  pub pool_size : length pool.objects ≡ max_objects
  pub covers : Covers table pool

length-reference :
    (i : ℕ) (pool : ObjectPool) → length (reference_object i pool).1.objects ≡ length pool.objects
unfolding reference_object
length-reference i pool = elim (Option-cases (object pool i)) [
  | inl e ↦ rw (reference_object, e) refl
  | inr (o, e) ↦ rw (reference_object, e) (length-set pool.objects i _)
]

pub length-dereference :
    (i : ℕ) (pool : ObjectPool) → length (dereference_object i pool).1.objects ≡ length pool.objects
unfolding dereference_object drop_reference
length-dereference i pool = elim (Option-cases (object pool i)) [
  | inl e ↦ rw (dereference_object, e) refl
  | inr (o, e) ↦ ground (
    arith,
    e,
    length-set pool.objects i none,
    length-set pool.objects i (some (record o { ref_count = o.ref_count - 1 })),
  )
]

-- What `open_object` and `close_handle` leave.
abbrev StillSound : OpenResult × HandleTable × ObjectPool → Type 0
StillSound r = Sound r.1 r.2

module _ (table : HandleTable) (pool : ObjectPool) (v : Sound table pool) where
  -- The reference that is taken before the handle is made.
  module _ (i access : ℕ) (o : ObjectHeader) (e : object pool i ≡ some o)
      (room : o.ref_count < u32_mod - 1) where
    held : ObjectPool
    held = (reference_object i pool).1

    named : (i == no_object) ≡ false
    named = ground (arith, object_within pool i o v.pool_size e)

    -- Without a handle the reference is given back; with one it is covered.
    refused-Sound : Sound table (dereference_object i held).1
    unfolding held
    refused-Sound = record {
      table_size = v.table_size;
      pool_size = length-dereference i held ∙ length-reference i pool ∙ v.pool_size;
      covers = record {
        covered = λ j ne. omega (
          arith,
          v.covers.covered j ne,
          refs-dereference held i j,
          refs-reference pool i o e room j,
        );
      };
    }

    granted-Sound :
        (k : ℕ)
        → k < handle_table_size
        → is_free (entry table k) ≡ true
        → Sound (set table k (new_entry i access)) held
    unfolding held
    granted-Sound k lt free = record {
      table_size = length-set table k (new_entry i access) ∙ v.table_size;
      pool_size = length-reference i pool ∙ v.pool_size;
      covers = record {
        covered = λ j ne. omega (
          arith,
          v.covers.covered j ne,
          handles-made table k j i access (omega (arith, lt, v.table_size)) ne free,
          refs-reference pool i o e room j,
        );
      };
    }

    given-Sound :
        (r : ℕ × HandleTable)
        → Allocates i access table r
        → StillSound (
            if r.0 == invalid
            then (failed status_insufficient_resources, r.1, (dereference_object i held).1)
            else (opened r.0, r.1, held))
    given-Sound r (full taken) = refused-Sound
    given-Sound r (made k low lt free lowest meaning) =
        let valid : ((k * 4 == invalid) ≡ false) = ground (arith, lt) in
        rw valid (granted-Sound k lt free)

    index-Sound : (obj_type : ObjectType) → StillSound (open_index i obj_type access table pool)
    unfolding open_index open_handle held
    index-Sound obj_type = elim (Bool-cases (type_code o.object_type == type_code obj_type)) [
      | inl same ↦
          rw (open_index, e, same, taken)
            (given-Sound (alloc i access table) (alloc_lem i access table named v.table_size))
      | inr other ↦ rw (open_index, e, other) v
    ]
      where
        taken : (reference_object i pool).0 ≡ status_success
        taken = unfold reference_object in ground (arith, e)

  -- With a handle table and a pool of full size in which every handle is covered by a reference of
  -- its object, and no count about to wrap around, `open_object` keeps every handle covered, on
  -- success and on every failure.
  pub open_object-Sound :
      (name : List ℕ) (expected_type : ObjectType) (access : ℕ)
      → ((i : ℕ) → refs pool i < u32_mod - 1)
      → Sound
          (open_object name expected_type access table pool).1
          (open_object name expected_type access table pool).2
  unfolding open_object open_index
  open_object-Sound name expected_type access room = elim (Option-cases (lookup_object name pool)) [
    | inl e ↦ rw (open_object, e) v
    | inr (i, found) ↦ elim (Option-cases (object pool i)) [
      | inl gone ↦ rw (open_object, found, open_index, gone) v
      | inr (o, e) ↦
          rw (open_object, found)
            (index-Sound i access o e (subst (λ x. ref_count_of x < u32_mod - 1) e (room i))
              expected_type)
    ]
  ]

  closed-Sound :
      (handle : ℕ) (e : HandleEntry)
      → Means handle table e
      → Sound (set table (handle / 4) empty_entry) (dereference_object e.object_index pool).1
  closed-Sound handle e m = record {
    table_size = length-set table (handle / 4) empty_entry ∙ v.table_size;
    pool_size = length-dereference e.object_index pool ∙ v.pool_size;
    covers = record {
      covered = λ j ne. ground (
        arith,
        v.covers.covered j ne,
        m.here,
        handles-closed table (handle / 4) j (omega (arith, m.within, v.table_size)) ne,
        refs-dereference pool e.object_index j,
      );
    };
  }

  -- With a handle table and a pool of full size in which every handle is covered by a reference of
  -- its object, `close_handle` keeps every handle covered, on success and on every failure.
  pub close_handle-Sound :
      (handle : ℕ) → Sound (close_handle handle table pool).1 (close_handle handle table pool).2
  unfolding close_handle
  close_handle-Sound handle = elim (Option-cases (get handle table)) [
    | inl none_there ↦ rw (close_handle, none_there) v
    | inr (e, there) ↦
        rw (close_handle, there)
          (settled e there (close handle table) (close_lem handle table v.table_size))
  ]
    where
      settled :
          (e : HandleEntry)
          → get handle table ≡ some e
          → (r : ℕ × HandleTable) → Closes handle table r
          → (λ (q : ℕ × HandleTable × ObjectPool). Sound q.1 q.2)
              (if is_error r.0 then (r.0, r.1, pool) else (
                (dereference_object e.object_index pool).0,
                r.1,
                (dereference_object e.object_index pool).1,
              ))
      settled e there r (unknown _) = v
      settled e there r (protected _ _ _) = v
      settled e there r (closed _ _ _ _) = closed-Sound handle e (get-Means handle table e there)
