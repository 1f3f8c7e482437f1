-- ===== src/V3/Tests/Shelf.antt =====
-- The largest class, of which a thread keeps one block: a batch of one from a span of three blocks,
-- and a block that takes the thread's list over its limit.
use my_memory_pool.Prelude.{null, update, ℕ, Ptr, List, ◌≡◌, refl, true, arith, [], ◌∷◌}
use my_memory_pool.Prelude.Command.{Returns}
use my_memory_pool.Prelude.Assoc.{lookup}
use my_memory_pool.Prelude.Blocks.{end, link}
use my_memory_pool.V3.Sample.{linux}
use my_memory_pool.V3.SizeClass.{
  get_index, get_size, make_index_map, fill_map, advance, size_class_table,
}
use my_memory_pool.V3.World.{World, Span, default_span, empty_world, page_size}
use my_memory_pool.V3.PageCache.{page_id}
use my_memory_pool.V3.ThreadCache.{
  ThreadCache, empty_cache, set_list, max_cached_blocks, get_batch_num, allocate, deallocate_sized,
}
use my_memory_pool.V3.ThreadCache.Shelf.{Shelf, OnShelf}
use my_memory_pool.V3.ThreadCache.Take.{allocate-OnShelf}
use my_memory_pool.V3.ThreadCache.Flush.{Reshelved}
use my_memory_pool.V3.ThreadCache.Release.{deallocate_sized-Reshelved}

abbrev pub block : ℕ
block = 262144

abbrev three_blocks : Span
three_blocks = record default_span {
  page_addr = block;
  num_pages = 192;
  size_class = 55;
  block_size = block;
  block_count = 3;
}

abbrev pub three_pages : List (ℕ × Ptr)
three_pages = (64, 1) ∷ (128, 1) ∷ (192, 1) ∷ []

abbrev large_pages : World
large_pages = record empty_world { next_span = 2; page_map = three_pages; partial = λ _. 1 }

abbrev pub all_free : Span
all_free = record three_blocks { free_count = 3; free_list = block }

abbrev pub unused : World
unused = record large_pages {
  word = update (update (λ _. null) block 524288) 524288 786432;
  spans = (1, all_free) ∷ [];
}

pub unused-Shelf :
    Shelf linux 55 1 3 three_pages empty_cache [] (block ∷ 524288 ∷ 786432 ∷ []) unused
unfolding lookup page_id page_size
unused-Shelf = record {
  own = end;
  own_counted = refl;
  bounded = omega arith;
  span = all_free;
  owner = record {
    some_span = ground arith;
    alive = refl;
    class = refl;
    total = refl;
    blocks =
        link (ground arith) refl refl
          (link (ground arith) refl refl (link (ground arith) refl refl end));
    counted = refl;
  };
  heads = λ _. refl;
  apart = λ a h. ground arith;
  mapped = refl;
  own_pages = λ a h. ground arith;
  span_pages = λ a h. ground arith;
}

allocate-OnShelf_example :
    Returns
      (λ (r, t') w'. (r ≡ block) × OnShelf linux 55 1 3 three_pages (524288 ∷ 786432 ∷ []) t' w')
      (allocate linux empty_cache 262000 unused)
unfolding get_index get_size max_cached_blocks fill_map advance get_batch_num make_index_map
allocate-OnShelf_example =
    allocate-OnShelf linux refl 55 1 3 three_pages empty_cache 262000 block []
      (block ∷ 524288 ∷ 786432 ∷ []) (524288 ∷ 786432 ∷ []) unused (omega arith) (omega arith) refl
      (λ _. omega arith) unused-Shelf refl

abbrev one_cached : ThreadCache
one_cached = set_list empty_cache 55 block 1

abbrev none_free : World
none_free = record large_pages { spans = (1, three_blocks) ∷ [] }

none_free-Shelf : Shelf linux 55 1 3 three_pages one_cached (block ∷ []) [] none_free
unfolding lookup page_id page_size get_size max_cached_blocks
none_free-Shelf = record {
  own = link (ground arith) refl refl end;
  own_counted = refl;
  bounded = omega arith;
  span = three_blocks;
  owner = record {
    some_span = ground arith;
    alive = refl;
    class = refl;
    total = refl;
    blocks = end;
    counted = refl;
  };
  heads = λ _. refl;
  apart = λ a h. ground arith;
  mapped = refl;
  own_pages = λ a h. ground arith;
  span_pages = λ a h. ground arith;
}

deallocate_sized-Reshelved_example :
    Returns
      (λ (freed, t') w'.
        (freed ≡ true) × Reshelved linux 55 1 3 three_pages (786432 ∷ block ∷ []) t' w')
      (deallocate_sized linux one_cached 786432 262000 none_free)
unfolding get_index fill_map advance lookup page_id page_size make_index_map size_class_table
deallocate_sized-Reshelved_example =
    deallocate_sized-Reshelved linux 55 1 3 three_pages one_cached 786432 262000 (block ∷ []) []
      none_free refl (omega arith) (omega arith) refl (ground arith) (ground arith) refl
      (omega arith) none_free-Shelf
