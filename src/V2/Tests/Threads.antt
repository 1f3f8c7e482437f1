-- ===== src/V2/Tests/Threads.antt =====
-- A thread's list and the central list of the class of 64 bytes as one stack.
use my_memory_pool.Prelude.{
  null, update, ℕ, ◌-◌, ◌*◌, ◌/◌, ◌≡◌, refl, arith, [], ◌∷◌, leb→le, ==_refl,
}
use my_memory_pool.Prelude.Command.{Returns}
use my_memory_pool.Prelude.Blocks.{end, link}
use my_memory_pool.V2.SizeTable.{
  get_size, size_class_table, make_small_index_map, fill_map, advance,
}
use my_memory_pool.Prelude.Assoc.{lower_bound}
use my_memory_pool.V3.CentralCache.Carve.{block_addresses}
use my_memory_pool.V2.Sample.{linux}
use my_memory_pool.V2.SizeClass.{get_index}
use my_memory_pool.V2.World.{World, empty_world}
use my_memory_pool.V2.ThreadCache.{empty_cache, allocate, deallocate}
use my_memory_pool.V2.ThreadCache.Cut.{Free, StackIs}
use my_memory_pool.V2.ThreadCache.Stack.{allocate-StackIs, deallocate-StackIs}
use my_memory_pool.V2.ThreadCache.Refill.{allocate-Free}

no_block-Free : Free (get_index 64) empty_cache empty_world [] []
no_block-Free = record {
  own = end;
  counted = refl;
  bounded = omega arith;
  central = end;
  apart = λ a h. refl;
}

deallocate-StackIs_example :
    Returns
      (StackIs (get_index 64) (4096 ∷ []))
      (deallocate linux 10 empty_cache 4096 64 empty_world)
deallocate-StackIs_example =
    deallocate-StackIs linux 10 empty_cache 4096 64 [] [] empty_world (omega arith) (ground arith)
      refl no_block-Free (omega arith, omega arith)

-- one block on the central list
one_central : World
one_central = record empty_world {
  central_free_list = update (λ (_ : ℕ). null) (get_index 64) 4096;
}

one_central-Free : Free (get_index 64) empty_cache one_central [] (4096 ∷ [])
unfolding one_central
one_central-Free = record {
  own = end;
  counted = refl;
  bounded = omega arith;
  central = rw (==_refl (get_index 64)) (link (ground arith) refl refl end);
  apart = λ a h. ground arith;
}

allocate-StackIs_example :
    Returns
      (λ (r, t') w'. (r ≡ 4096) × StackIs (get_index 64) [] t' w')
      (allocate linux 10 empty_cache 64 one_central)
allocate-StackIs_example =
    allocate-StackIs linux 10 empty_cache 64 [] (4096 ∷ []) 4096 [] one_central (omega arith)
      (omega arith) (omega arith) one_central-Free refl

allocate-Free_example :
    Returns
      (λ (r, t') w'.
        (r ≡ 1073741824)
        × Free (get_index 64) t' w' [] (
            block_addresses
              (8 * 4096 / get_size (get_index 64) - 1)
              1
              1073741824
              (get_size (get_index 64))))
      (allocate linux 10 empty_cache 64 empty_world)
unfolding get_index get_size size_class_table make_small_index_map fill_map advance lower_bound
allocate-Free_example =
    allocate-Free linux 10 empty_cache 64 1073741824 empty_world (omega arith) (omega arith)
      (omega arith) (leb→le _ _ refl) no_block-Free refl refl (ground arith) (ground arith)
