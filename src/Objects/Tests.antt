-- ===== src/Objects/Tests.antt =====
-- An event object that is opened, duplicated and closed.
use nonameos.Prelude.{
  ℕ, zero, suc, ◌≤◌, ◌<◌, ◌≡◌, ◌-◌, refl, true, false, List, [], ◌∷◌, Option, none, some, arith,
  sym, subst, get_or-replicate, replicate, ◌==◌,
}
use nonameos.Prelude.Find.{find_index}
use nonameos.Prelude.Counting.{count_if}
use nonameos.Objects.Handles.{new_entry, Allocates, alloc_lem, Closes, close_lem}
use nonameos.Objects.References.{refs, ref_count_of, handles_of}
use nonameos.Objects.Sharing.{Sound, open_object-Sound, close_handle-Sound}
use nonameos.Objects.Duplicates.{Dangles, duplicate-Dangles}
use nonameos.Objects.{
  ObjectType, ObjectHeader, event_body, HandleTable, empty_entry, no_object, alloc, get, close,
  duplicate,
}
use nonameos.Objects.Store.{ObjectPool, open_object, close_handle, u32_mod}

abbrev name : List ℕ
name = 101 ∷ 118 ∷ []

abbrev header : ObjectHeader
header = record {
  object_type = ObjectType.event;
  ref_count = 1;
  handle_count = 0;
  name = 101 ∷ 118 ∷ replicate 126 0;
  name_len = 2;
  permanent = false;
  body = event_body true false;
}

-- The object 0 with one reference, and the handle 4 for it.
abbrev pool : ObjectPool
pool = record { objects = some header ∷ replicate 1023 none; count = 1 }

abbrev table : HandleTable
table = empty_entry ∷ new_entry 0 3 ∷ replicate 254 empty_entry

alloc_lem_example : Allocates 5 1 table (alloc 5 1 table)
alloc_lem_example = alloc_lem 5 1 table refl refl

close_lem_example : Closes 6 table (close 6 table)
close_lem_example = close_lem 6 table refl

no_handles : (n i : ℕ) → (i == no_object) ≡ false → handles_of i (replicate n empty_entry) ≡ 0
unfolding handles_of count_if
no_handles zero i ne = refl
no_handles (suc n) i ne = ground (arith, ne, no_handles n i ne)

others : (i : ℕ) → (suc i == no_object) ≡ false → handles_of (suc i) table ≡ 0
unfolding handles_of count_if
others i ne = ground (arith, ne, no_handles 254 (suc i) ne)

one_handle : (i : ℕ) → (i == no_object) ≡ false → handles_of i table ≤ refs pool i
unfolding handles_of count_if
one_handle zero ne = omega (arith, no_handles 254 0 ne)
one_handle (suc i) ne = subst (λ n. n ≤ refs pool (suc i)) (sym (others i ne)) (omega arith)

sound : Sound table pool
sound = record { table_size = refl; pool_size = refl; covers = record { covered = one_handle } }

room : (i : ℕ) → refs pool i < u32_mod - 1
room zero = omega arith
room (suc i) =
    subst (λ o. ref_count_of o < u32_mod - 1)
      (sym (get_or-replicate {A = Option ObjectHeader} 1023 i none)) (omega arith)

open_object-Sound_example :
    Sound
      (open_object name ObjectType.event 1 table pool).1
      (open_object name ObjectType.event 1 table pool).2
open_object-Sound_example = open_object-Sound table pool sound name ObjectType.event 1 room

close_handle-Sound_example : Sound (close_handle 4 table pool).1 (close_handle 4 table pool).2
close_handle-Sound_example = close_handle-Sound table pool sound 4

works : (duplicate 4 1 table).0 ≡ 8
unfolding duplicate alloc find_index
works = refl

duplicate-Dangles_example :
    Dangles
      (duplicate 4 1 table).0
      0
      1
      (close_handle 4 (duplicate 4 1 table).1 pool).1
      (close_handle 4 (duplicate 4 1 table).1 pool).2
unfolding get
duplicate-Dangles_example =
    duplicate-Dangles table pool 4 1 (new_entry 0 3) header refl refl refl refl refl refl
      (λ e. absurd (omega (arith, works, e)))
