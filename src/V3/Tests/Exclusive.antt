-- ===== src/V3/Tests/Exclusive.antt =====
-- A client that holds one of the three blocks of a span.
use my_memory_pool.Prelude.{Ptr, ◌≡◌, refl, arith, ap, inl, inr, Bool-cases, ◌==◌, [], ◌∷◌}
use my_memory_pool.Prelude.Assoc.{lookup}
use my_memory_pool.Prelude.Command.{Returns, returns, weaken}
use my_memory_pool.V3.Sample.{linux}
use my_memory_pool.V3.SizeClass.{
  get_index, get_size, make_index_map, fill_map, advance, size_class_table,
}
use my_memory_pool.V3.World.{World, Run, done, fault, out_of_fuel}
use my_memory_pool.V3.ThreadCache.{ThreadCache, empty_cache, allocate, get_batch_num}
use my_memory_pool.V3.ThreadCache.Take.{allocate-OnShelf}
use my_memory_pool.V3.ThreadCache.Client.{OfClass, Client, begins, takes}
use my_memory_pool.V3.ThreadCache.Exclusive.{Exclusive, Client-Exclusive}
use my_memory_pool.V3.Tests.Shelf.{block, all_free, three_pages, unused, unused-Shelf}

cache_after : Run World (Ptr × ThreadCache) → ThreadCache
cache_after (done (q, t) w) = t
cache_after fault = empty_cache
cache_after out_of_fuel = empty_cache

world_after : Run World (Ptr × ThreadCache) → World
world_after (done (q, t) w) = w
world_after fault = unused
world_after out_of_fuel = unused

returned :
    {r : Run World (Ptr × ThreadCache)} (a : Ptr)
    → Returns (λ (q, t) w. q ≡ a) r
    → r ≡ done (a, cache_after r) (world_after r)
unfolding cache_after world_after
returned a (returns {a = (q, t)} {w = w} e) = ap (λ b. done (b, t) w) e

abbrev first_run : Run World (Ptr × ThreadCache)
first_run = allocate linux empty_cache 262000 unused

size-OfClass : OfClass 55 262000
unfolding get_index fill_map advance make_index_map size_class_table
size-OfClass = record { some_byte = omega arith; small = omega arith; chosen = refl }

first_served : Returns (λ (q, t) w. q ≡ block) first_run
unfolding get_size get_batch_num size_class_table
first_served =
    weaken
      (allocate-OnShelf linux refl 55 1 3 three_pages empty_cache 262000 block []
        (block ∷ 524288 ∷ 786432 ∷ []) (524288 ∷ 786432 ∷ []) unused (omega arith) (omega arith)
        size-OfClass.chosen (λ _. omega arith) unused-Shelf refl)
      (λ (q, t) w (at, shelf). at)

one_taken :
    Client linux 55 1 3 three_pages block
      (block ∷ [])
      (cache_after first_run)
      (world_after first_run)
unfolding get_size get_batch_num size_class_table lookup
one_taken =
    takes 262000
      (begins (block ∷ 524288 ∷ 786432 ∷ [])
        ([], (block ∷ 524288 ∷ 786432 ∷ [], (refl, unused-Shelf))) refl
        (λ a on. elim (Bool-cases (a == block)) [
          | inl at_first ↦ (0, ground arith)
          | inr later ↦ elim (Bool-cases (a == 524288)) [
            | inl at_second ↦ (1, ground arith)
            | inr at_third ↦ (2, ground arith)
          ]
        ]))
      size-OfClass (λ _. (all_free, (refl, omega arith))) (omega arith)
      (returned block first_served)

Client-Exclusive_example :
    Exclusive linux 55 1 3 block (block ∷ []) (cache_after first_run) (world_after first_run)
Client-Exclusive_example =
    Client-Exclusive linux refl 55 1 3 three_pages block (omega arith) one_taken
