-- ===== src/V3/Tests/History.antt =====
-- The page cache through three calls: three pages are mapped, given back, and two of them reused.
use my_memory_pool.Prelude.{◌+◌, ◌^◌, ◌≡◌, refl, arith, [], ◌∷◌, true}
use my_memory_pool.Prelude.Blocks.Held.{without}
use my_memory_pool.Prelude.Assoc.{lookup, insert, erase, lower_bound}
use my_memory_pool.V3.Sample.{linux}
use my_memory_pool.V3.World.{
  World, Span, done, empty_world, default_span, alloc_pages, new_span, read_span, write_span,
  page_size, alloc_granularity,
}
use my_memory_pool.V3.PageCache.{
  allocate_span, deallocate_span, map_span, system_alloc, mapping_bytes, record_mapping,
  register_pages, map_pages, reuse_span, split_span, push_free_span, coalesce, merge_next,
  merge_prev, retire_span, find_span_locked, page_id,
}
use my_memory_pool.V3.PageCache.History.{Safe, begins, grants, takes_back, History-Safe}
use my_memory_pool.V3.PageCache.Promise.{Promised}
use my_memory_pool.V3.Tests.PageCache.{linux-Granular, linux-Promised}

abbrev three_pages : Span
three_pages = record default_span {
  page_addr = 2 ^ 30;
  num_pages = 3;
  origin_addr = 2 ^ 30;
  origin_pages = 3;
}

abbrev in_use : World
in_use = record empty_world {
  spans = (1, three_pages) ∷ [];
  next_span = 2;
  page_map = (262144, 1) ∷ (262145, 1) ∷ (262146, 1) ∷ [];
  system_allocs = (2 ^ 30, 12288) ∷ [];
  system_calls = 1;
}

abbrev given_back : World
given_back = record in_use {
  spans = (1, record three_pages { in_free_list = true }) ∷ [];
  free_spans = (3, 1) ∷ [];
  cached_free_pages = 3;
}

abbrev reused : World
reused = record in_use {
  spans =
      (1, record three_pages { num_pages = 2 })
      ∷ (2, record three_pages { page_addr = 2 ^ 30 + 8192; num_pages = 1; in_free_list = true })
      ∷ [];
  next_span = 3;
  free_spans = (1, 2) ∷ [];
  page_map = (262144, 1) ∷ (262145, 1) ∷ (262146, 2) ∷ [];
  cached_free_pages = 1;
}

mapped : allocate_span linux 3 empty_world ≡ done 1 in_use
unfolding allocate_span map_span system_alloc alloc_pages mapping_bytes record_mapping
    register_pages map_pages new_span read_span page_size alloc_granularity lookup insert
    lower_bound
mapped = refl

returned : deallocate_span linux 1 in_use ≡ done tt given_back
unfolding deallocate_span coalesce merge_next merge_prev retire_span find_span_locked page_id
    push_free_span read_span write_span page_size lookup insert
returned = refl

cut : allocate_span linux 2 given_back ≡ done 1 reused
unfolding allocate_span reuse_span split_span push_free_span register_pages map_pages new_span
    read_span write_span page_size lookup insert erase lower_bound
cut = refl

next_mapping : Promised linux given_back 8192
unfolding lookup page_size
next_mapping = record {
  nonnull = ground arith;
  page_aligned = λ ok. refl;
  unused = λ ok i h. ground arith;
}

History-Safe_example : Safe linux (1 ∷ []) reused
unfolding mapping_bytes page_size alloc_granularity without
History-Safe_example = History-Safe linux 12 linux-Granular (
    grants 2 (takes_back 1 (grants 3 (begins) (linux-Promised _) mapped) refl returned) next_mapping
      cut)
