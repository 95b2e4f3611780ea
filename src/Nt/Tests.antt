-- ===== src/Nt/Tests.antt =====
-- The services on an empty table and an empty pool.
use nonameos.Prelude.{ℕ, zero, suc, ◌≡◌, refl, true, false, arith, replicate, ◌==◌}
use nonameos.Prelude.Find.{find_index}
use nonameos.Prelude.Counting.{count_if}
use nonameos.Objects.{
  event, mutant, key, section, event_body, mutant_body, key_body, section_body, empty_entry,
  no_object, new_table, alloc,
}
use nonameos.Objects.Store.{empty_pool, opened, create_object, open_handle}
use nonameos.Objects.References.{handles_of}
use nonameos.Objects.Sharing.{Sound}
use nonameos.Nt.{
  nt_create_event, nt_create_mutant, nt_open_key, nt_create_section, nt_allocate_virtual_memory,
}
use nonameos.Nt.Services.{Makes, services-Make}

no_handles : (n j : ℕ) → (j == no_object) ≡ false → handles_of j (replicate n empty_entry) ≡ 0
unfolding handles_of count_if
no_handles zero j ne = refl
no_handles (suc n) j ne = ground (arith, no_handles n j ne)

empty-Sound : Sound new_table empty_pool
unfolding new_table empty_pool
empty-Sound = record {
  table_size = refl;
  pool_size = refl;
  covers = record { covered = λ j ne. omega (arith, no_handles 256 j ne) };
}

services-Make_example :
    Makes new_table empty_pool event
      (event_body true false)
      3
      (nt_create_event 3 true false new_table empty_pool)
    × Makes new_table empty_pool mutant
        (mutant_body 1 1 false)
        3
        (nt_create_mutant 3 true new_table empty_pool)
    × Makes new_table empty_pool key
        (key_body (replicate 256 0) 0)
        3
        (nt_open_key 3 new_table empty_pool)
    × Makes new_table empty_pool section
        (section_body 0 4096)
        3
        (nt_create_section 3 4096 new_table empty_pool)
services-Make_example = services-Make new_table empty_pool empty-Sound 3 true false true 4096

first_handle : (nt_create_event 3 true false new_table empty_pool).0 ≡ opened 4
unfolding nt_create_event create_object open_handle alloc find_index new_table empty_pool
first_handle = refl

one_page : nt_allocate_virtual_memory 0 1 ≡ (0, 0x10000, 4096)
unfolding nt_allocate_virtual_memory
one_page = refl
