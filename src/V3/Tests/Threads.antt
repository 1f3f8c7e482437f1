-- ===== src/V3/Tests/Threads.antt =====
-- A thread's cache on concrete requests.
use my_memory_pool.Prelude.{false, ℕ, ◌+◌, ◌*◌, ◌%◌, ◌^◌, ◌≡◌, ◌≤◌, refl, arith, inl, ltb→lt}
use my_memory_pool.V3.Sample.{linux}
use my_memory_pool.V3.SizeClass.{get_index, get_size, make_small_index_map, fill_map, advance}
use my_memory_pool.V3.World.{◌>>=◌, empty_world, done}
use my_memory_pool.Prelude.Command.{Returns}
use my_memory_pool.V3.ThreadCache.{
  empty_cache, max_cached_blocks, allocate, allocate_small, allocate_aligned, deallocate,
  deallocate_sized,
}
use my_memory_pool.V3.ThreadCache.Aligned.{zero_size_unaligned, allocate_aligned-get_size}
use my_memory_pool.V3.ThreadCache.Refusal.{deallocate-refused}
use my_memory_pool.Prelude.Assoc.{lookup}
use my_memory_pool.V3.ThreadCache.Reuse.{allocate-deallocate_sized}

zero_size_unaligned_example : allocate_aligned linux empty_cache 0 64 ≡ allocate linux empty_cache 8
zero_size_unaligned_example = zero_size_unaligned linux empty_cache 6 (omega arith) (omega arith)

allocate_aligned-get_size_example :
    (index : ℕ) × ((allocate_aligned linux empty_cache 100 (2 ^ 6)
        ≡ allocate_small linux empty_cache index)
      × ((100 ≤ get_size index)
          × ((page_addr block : ℕ)
              → page_addr % 2 ^ 6 ≡ 0
              → (page_addr + block * get_size index) % 2 ^ 6 ≡ 0)))
allocate_aligned-get_size_example =
    allocate_aligned-get_size linux empty_cache 100 6 (omega arith) (omega arith) (omega arith)
      (omega arith)

allocate-deallocate_sized_example :
    Returns
      (λ (p, t') _.
        (p ≡ 4096)
        × ((j : ℕ) → t'.free_list j ≡ empty_cache.free_list j)
        × ((j : ℕ) → t'.free_list_size j ≡ empty_cache.free_list_size j))
      ((do (freed, t') ← deallocate_sized linux empty_cache 4096 64; allocate linux t' 60)
        empty_world)
unfolding get_index get_size max_cached_blocks make_small_index_map fill_map advance
allocate-deallocate_sized_example =
    allocate-deallocate_sized linux refl empty_cache 4096 64 60 empty_world (ground arith)
      (omega arith) (omega arith) (omega arith) (omega arith) refl (ltb→lt _ _ refl)

deallocate-refused_example :
    (deallocate linux empty_cache 20000 empty_world ≡ done (false, empty_cache) empty_world)
    × (deallocate_sized linux empty_cache 20000 300000 empty_world
        ≡ done (false, empty_cache) empty_world)
unfolding lookup
deallocate-refused_example =
    deallocate-refused linux empty_cache 20000 empty_world (ground arith) refl 300000
      (inl (omega arith))
