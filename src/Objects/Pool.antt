-- ===== src/Objects/Pool.antt =====
-- The pool's counter against the objects that are there.
use nonameos.Prelude.{
  ℕ, zero, suc, ◌+◌, ◌-◌, ◌%◌, ◌≤◌, ◌<◌, ◌≡◌, refl, sym, ◌∙◌, Bool, true, not, ◌&&◌, List, [], ◌∷◌,
  Option, none, some, arith, length, get_or, set, length-set, length-replicate, replicate,
  get_or_of_get_elem?, lt-length_of_get_elem?, ◌==◌, inl, inr, Bool-cases, add_usize, sub_usize,
  Option-cases,
}
use nonameos.Prelude.Find.{find_index_cases}
use nonameos.Prelude.Counting.{count_if, count_if-set, count_if-le}
use nonameos.Objects.{ObjectType, ObjectBody, ObjectHeader}
use nonameos.Objects.Store.{
  ObjectPool, max_objects, object, is_vacant, empty_pool, new_header, create_object,
  reference_object, dereference_object, drop_reference, u32_mod,
}

abbrev pub is_live : Option ObjectHeader → Bool
is_live o = not (is_vacant o)

pub record IsPool (pool : ObjectPool) : Type 0 where
  pub size : length pool.objects ≡ max_objects
  pub counted : pool.count ≡ count_if is_live pool.objects

none_live : (n : ℕ) → count_if is_live (replicate n none) ≡ 0
unfolding count_if
none_live zero = refl
none_live (suc n) = omega (arith, none_live n)

empty-IsPool : IsPool empty_pool
unfolding empty_pool
empty-IsPool = record {
  size = length-replicate {A = Option ObjectHeader} max_objects none;
  counted = sym (none_live max_objects);
}

-- A slot that holds an object lies in the table.
pub within_of_object :
    (objects : List (Option ObjectHeader)) (i : ℕ) (o : ObjectHeader)
    → get_or objects i none ≡ some o
    → i < length objects
within_of_object [] i o e = absurd (cc)
within_of_object (x ∷ xs) zero o e = omega arith
within_of_object (x ∷ xs) (suc i) o e = omega (arith, within_of_object xs i o e)

module _ (pool : ObjectPool) (v : IsPool pool) where
  small : pool.count ≤ max_objects
  small = omega (arith, v.size, v.counted, count_if-le is_live pool.objects)

  -- Replacing an object by another leaves the count alone.
  replaced-IsPool :
      (i : ℕ) (o o' : ObjectHeader)
      → object pool i ≡ some o
      → IsPool (record pool { objects = set pool.objects i (some o') })
  replaced-IsPool i o o' e = record {
    size = length-set pool.objects i (some o') ∙ v.size;
    counted = ground (
      arith,
      e,
      v.counted,
      count_if-set is_live pool.objects i (some o') none (within_of_object pool.objects i o e),
    );
  }

  removed-IsPool :
      (i : ℕ) (o : ObjectHeader)
      → object pool i ≡ some o
      → IsPool (record { objects = set pool.objects i none; count = sub_usize pool.count 1 })
  removed-IsPool i o e = record {
    size = length-set pool.objects i none ∙ v.size;
    counted = ground (
      arith,
      e,
      small,
      v.counted,
      count_if-set is_live pool.objects i none none (within_of_object pool.objects i o e),
    );
  }

  added-IsPool :
      (i : ℕ) (o : ObjectHeader)
      → i < length pool.objects
      → object pool i ≡ none
      → IsPool (record { objects = set pool.objects i (some o); count = add_usize pool.count 1 })
  added-IsPool i o lt e = record {
    size = length-set pool.objects i (some o) ∙ v.size;
    counted =
        ground (arith, e, small, v.counted, count_if-set is_live pool.objects i (some o) none lt);
  }

  reference-IsPool : (i : ℕ) → IsPool (reference_object i pool).1
  unfolding reference_object
  reference-IsPool i = elim (Option-cases (object pool i)) [
    | inl e ↦ rw (reference_object, e) v
    | inr (o, e) ↦
        rw (reference_object, e)
          (replaced-IsPool i o (record o { ref_count = (o.ref_count + 1) % u32_mod }) e)
  ]

  drop-IsPool :
      (i : ℕ) (o : ObjectHeader) → object pool i ≡ some o → IsPool (drop_reference i o pool)
  unfolding drop_reference
  drop-IsPool i o e = elim (Bool-cases ((o.ref_count - 1 == 0) && not o.permanent)) [
    | inl last ↦ rw last (removed-IsPool i o e)
    | inr more ↦ rw more (replaced-IsPool i o (record o { ref_count = o.ref_count - 1 }) e)
  ]

  dereference-IsPool : (i : ℕ) → IsPool (dereference_object i pool).1
  unfolding dereference_object
  dereference-IsPool i = elim (Option-cases (object pool i)) [
    | inl e ↦ rw (dereference_object, e) v
    | inr (o, e) ↦ elim (Bool-cases (o.ref_count == 0)) [
      | inl spent ↦ rw (dereference_object, e, spent) v
      | inr more ↦ rw (dereference_object, e, more) (drop-IsPool i o e)
    ]
  ]

  create-IsPool :
      (obj_type : ObjectType) (name : List ℕ) (body : ObjectBody)
      → IsPool (create_object obj_type name body pool).1
  unfolding create_object
  create-IsPool obj_type name body = elim (find_index_cases is_vacant pool.objects) [
    | inl (e, _) ↦ rw (create_object, e) v
    | inr (i, e, first) ↦
        rw (create_object, e)
          (added-IsPool i (new_header obj_type name body)
            (lt-length_of_get_elem? pool.objects i first.entry first.there)
            (get_or_of_get_elem? pool.objects i none first.entry first.there
              ∙ vacant first.entry first.passes))
  ]
    where
      vacant : (o : Option ObjectHeader) → is_vacant o ≡ true → o ≡ none
      vacant none h = refl
      vacant (some o) h = cc

pub data Call : Type 0 where
  creates : ObjectType → List ℕ → ObjectBody → Call
  references dereferences : ℕ → Call

unfoldable pub after : List Call → ObjectPool
after [] = empty_pool
after (creates obj_type name body ∷ earlier) = (create_object obj_type name body (after earlier)).1
after (references i ∷ earlier) = (reference_object i (after earlier)).1
after (dereferences i ∷ earlier) = (dereference_object i (after earlier)).1

-- After any history of create_object, reference_object and dereference_object, latest first, the
-- pool has 1024 slots and its counter is the number of those that hold an object.
after-IsPool : (history : List Call) → IsPool (after history)
unfolding after
after-IsPool [] = empty-IsPool
after-IsPool (creates obj_type name body ∷ earlier) =
    create-IsPool (after earlier) (after-IsPool earlier) obj_type name body
after-IsPool (references i ∷ earlier) = reference-IsPool (after earlier) (after-IsPool earlier) i
after-IsPool (dereferences i ∷ earlier) =
    dereference-IsPool (after earlier) (after-IsPool earlier) i
