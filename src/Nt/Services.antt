-- ===== src/Nt/Services.antt =====
-- The services of kernel/src/win32/ntapi.rs that make an object, against the references of the pool.
use nonameos.Prelude.{
  ℕ, ◌*◌, ◌/◌, ◌<◌, ◌≡◌, refl, ◌∙◌, true, false, not, replicate, Bool, [], Option, none, some,
  arith, length, set, length-set, ap, get_or-set, get_or_of_get_elem?, lt-length_of_get_elem?, ◌==◌,
  if◌then◌else◌, inl, inr, eq_of_test, add_usize,
}
use nonameos.Prelude.Find.{find_index, find_index_cases, IsFirst, NonePasses}
use nonameos.Objects.Handles.{new_entry, Allocates, full, made, alloc_lem}
use nonameos.Objects.References.{ref_count_of, refs, refs-set, refs-dereference, handles-made}
use nonameos.Objects.Sharing.{Sound, length-dereference}
use nonameos.Objects.{
  ObjectType, file, section, mutant, event, key, file_body, mutant_body, event_body, key_body,
  section_body, ObjectBody, ObjectHeader, HandleTable, is_free, no_object, handle_table_size, entry,
  invalid, alloc, get, status_insufficient_resources,
}
use nonameos.Objects.Store.{
  max_objects, ObjectPool, object, is_vacant, new_header, create_object, dereference_object,
  OpenResult, opened, failed, open_handle,
}
use nonameos.Nt.{
  make_object, nt_create_event, nt_create_mutant, nt_open_key, nt_create_section, nt_create_file,
  IoStatusBlock,
}

none_of_vacant : (o : Option ObjectHeader) → is_vacant o ≡ true → o ≡ none
none_of_vacant none h = refl
none_of_vacant (some o) h = cc

-- What a service leaves: a failure, and why, with the objects and handles that there were; or an object
-- in the first vacant slot, with the one reference that its new handle needs. The handle is the lowest
-- free one.
pub data Makes (table : HandleTable) (pool : ObjectPool) (obj_type : ObjectType) (body : ObjectBody)
    (access : ℕ) : OpenResult × HandleTable × ObjectPool → Type 0 where
  no_slot :
      NonePasses is_vacant pool.objects
      → Makes table pool obj_type body access (failed status_insufficient_resources, table, pool)
  no_handle :
      (pool' : ObjectPool)
      → ((k : ℕ) → 0 < k → k < handle_table_size → is_free (entry table k) ≡ false)
      → ((j : ℕ) → refs pool' j ≡ refs pool j)
      → Sound table pool'
      → Makes table pool obj_type body access (failed status_insufficient_resources, table, pool')
  makes :
      (k i : ℕ) (pool' : ObjectPool)
      → IsFirst is_vacant pool.objects i
      → 0 < k
      → k < handle_table_size
      → is_free (entry table k) ≡ true
      → ((j : ℕ) → 0 < j → j < k → is_free (entry table j) ≡ false)
      → ((j : ℕ)
          → object pool' j ≡ (if i == j then some (new_header obj_type [] body) else object pool j))
      → ((h : ℕ)
          → get h (set table k (new_entry i access))
            ≡ (if k == h / 4 then some (new_entry i access) else get h table))
      → Sound (set table k (new_entry i access)) pool'
      → Makes table pool obj_type body access
          (opened (k * 4), set table k (new_entry i access), pool')

Makes-Sound :
    {table : HandleTable} {pool : ObjectPool} {obj_type : ObjectType} {body : ObjectBody}
    {access : ℕ} {r : OpenResult × HandleTable × ObjectPool}
    → Sound table pool
    → Makes table pool obj_type body access r
    → Sound r.1 r.2
Makes-Sound v (no_slot none_free) = v
Makes-Sound v (no_handle pool' taken same sound) = sound
Makes-Sound v (makes k i pool' first pos lt free lowest holds means sound) = sound

module _ (table : HandleTable) (pool : ObjectPool) (v : Sound table pool) (obj_type : ObjectType)
    (body : ObjectBody) (access : ℕ) where
  module _ (i : ℕ) (lt : i < max_objects) (vacant : object pool i ≡ none) where
    with_object : ObjectPool
    with_object = record {
      objects = set pool.objects i (some (new_header obj_type [] body));
      count = add_usize pool.count 1;
    }

    with-refs : (j : ℕ) → refs with_object j ≡ (if i == j then 1 else refs pool j)
    unfolding with_object new_header
    with-refs j =
        refs-set pool.objects i j (some (new_header obj_type [] body))
          (omega (arith, lt, v.pool_size))

    with-length : length with_object.objects ≡ max_objects
    unfolding with_object
    with-length = length-set pool.objects i (some (new_header obj_type [] body)) ∙ v.pool_size

    none_yet : refs pool i ≡ 0
    none_yet = ap ref_count_of vacant

    restored : (j : ℕ) → refs (dereference_object i with_object).1 j ≡ refs pool j
    restored j =
        ground (arith, refs-dereference with_object i j, with-refs j, none_yet, eq_of_test i j)

    named : (i == no_object) ≡ false
    named = ground (arith, lt)

    refused-Sound : Sound table (dereference_object i with_object).1
    refused-Sound = record {
      table_size = v.table_size;
      pool_size = length-dereference i with_object ∙ with-length;
      covers = record { covered = λ j ne. omega (arith, restored j, v.covers.covered j ne) };
    }

    made-Sound :
        (k : ℕ)
        → k < handle_table_size
        → is_free (entry table k) ≡ true
        → Sound (set table k (new_entry i access)) with_object
    made-Sound k klt free = record {
      table_size = length-set table k (new_entry i access) ∙ v.table_size;
      pool_size = with-length;
      covers = record {
        covered = λ j ne. ground (
          arith,
          with-refs j,
          none_yet,
          eq_of_test i j,
          v.covers.covered j ne,
          handles-made table k j i access (omega (arith, klt, v.table_size)) ne free,
        );
      };
    }

    holds :
        (j : ℕ)
        → object with_object j
          ≡ (if i == j then some (new_header obj_type [] body) else object pool j)
    unfolding with_object
    holds j =
        get_or-set pool.objects i j (some (new_header obj_type [] body)) none
          (omega (arith, lt, v.pool_size))

    given :
        (first : IsFirst is_vacant pool.objects i) (r : ℕ × HandleTable)
        → Allocates i access table r
        → Makes table pool obj_type body access (
            if r.0 == invalid
            then (failed status_insufficient_resources, r.1, (dereference_object i with_object).1)
            else (opened r.0, r.1, with_object))
    given first r (full taken) =
        no_handle (dereference_object i with_object).1 taken restored refused-Sound
    given first r (made k low klt free lowest meaning) =
        let valid : (k * 4 == invalid) ≡ false = ground (arith, klt) in
        rw valid
          (makes k i with_object first low klt free lowest holds meaning (made-Sound k klt free))

  nothing_created :
      find_index is_vacant pool.objects ≡ none → create_object obj_type [] body pool ≡ (none, pool)
  unfolding create_object
  nothing_created e = rw (create_object, e)

  created :
      (i : ℕ) (lt : i < max_objects) (vacant : object pool i ≡ none)
      → find_index is_vacant pool.objects ≡ some i
      → create_object obj_type [] body pool ≡ (some i, with_object i lt vacant)
  unfolding create_object with_object
  created i lt vacant e = rw (create_object, e)

  pub make_object-Makes :
      Makes table pool obj_type body access (make_object obj_type body access table pool)
  unfolding make_object open_handle
  make_object-Makes = elim (find_index_cases is_vacant pool.objects) [
    | inl (none_found, none_free) ↦ rw (nothing_created none_found) (no_slot none_free)
    | inr (i, found, first) ↦
        let lt : i < max_objects =
          omega
            (arith, v.pool_size, lt-length_of_get_elem? pool.objects i first.entry first.there) in
        let vacant : object pool i ≡ none =
          get_or_of_get_elem? pool.objects i none first.entry first.there
          ∙ none_of_vacant first.entry first.passes in
        rw (created i lt vacant found) (
          given i lt vacant first (alloc i access table)
            (alloc_lem i access table (named i lt vacant) v.table_size))
  ]

module _ (table : HandleTable) (pool : ObjectPool) (v : Sound table pool) (access : ℕ) where
  -- With a handle table and a pool of full size in which every handle is covered by a reference of
  -- its object, each of nt_create_event, nt_create_mutant, nt_open_key and nt_create_section does
  -- one of three things. It fails, changing nothing, when no slot of the pool is vacant. It fails,
  -- with the handle table and every count of references as before, when every entry of the table
  -- but the reserved first is taken. Or it puts the object that it was asked for, with one
  -- reference, into the first vacant slot and changes no other slot, and returns the handle of the
  -- lowest free entry, which means that object with the access asked for, while the handles of all
  -- other entries mean what they meant. In each case every handle stays covered.
  pub services-Make :
      (manual_reset initial_state initial_owner : Bool) (maximum_size : ℕ)
      → Makes table pool event
          (event_body manual_reset initial_state)
          access
          (nt_create_event access manual_reset initial_state table pool)
        × Makes table pool mutant
            (mutant_body
              (if initial_owner then 1 else 0)
              (if initial_owner then 1 else 0)
              (not initial_owner))
            access
            (nt_create_mutant access initial_owner table pool)
        × Makes table pool key (key_body (replicate 256 0) 0) access (nt_open_key access table pool)
        × Makes table pool section
            (section_body 0 maximum_size)
            access
            (nt_create_section access maximum_size table pool)
  unfolding nt_create_event nt_create_mutant nt_open_key nt_create_section
  services-Make manual_reset initial_state initial_owner maximum_size = (
    make_object-Makes table pool v event (event_body manual_reset initial_state) access,
    make_object-Makes table pool v mutant _ access,
    make_object-Makes table pool v key (key_body (replicate 256 0) 0) access,
    make_object-Makes table pool v section (section_body 0 maximum_size) access,
  )

  -- `nt_create_file` keeps every handle covered, with or without a file name.
  pub nt_create_file-Sound :
      (name_is_null : Bool) (io : IoStatusBlock)
      → Sound
          (nt_create_file access name_is_null io table pool).2
          (nt_create_file access name_is_null io table pool).3
  unfolding nt_create_file
  nt_create_file-Sound true io = v
  nt_create_file-Sound false io =
      Makes-Sound v
        (make_object-Makes table pool v file (file_body (replicate 256 0) 0 0 access 0) access)
