-- ===== src/V3/Tests/Whole.antt =====
-- A span with one block in use, which comes back.
use my_memory_pool.Prelude.{null, ◌≡◌, refl, arith, [], ◌∷◌}
use my_memory_pool.Prelude.Command.{Returns}
use my_memory_pool.Prelude.Assoc.{lookup}
use my_memory_pool.Prelude.Blocks.{end, link}
use my_memory_pool.V3.Sample.{linux}
use my_memory_pool.V3.World.{World, Span, default_span, empty_world, page_size}
use my_memory_pool.V3.PageCache.{page_id, deallocate_span}
use my_memory_pool.V3.PageCache.Invariant.{Inv, total_free}
use my_memory_pool.V3.PageCache.Kept.{Keeps}
use my_memory_pool.V3.CentralCache.{return_block}
use my_memory_pool.V3.CentralCache.Owner.{Owner}
use my_memory_pool.V3.CentralCache.Whole.{whole_world, return_block-Whole}

abbrev one_used : Span
one_used = record default_span {
  page_addr = 4096;
  num_pages = 1;
  origin_addr = 4096;
  origin_pages = 1;
  size_class = 27;
  block_size = 2048;
  block_count = 2;
  free_count = 1;
  free_list = 4096;
}

abbrev last_used : World
last_used = record empty_world {
  word = λ _. null;
  spans = (1, one_used) ∷ [];
  next_span = 2;
  page_map = (1, 1) ∷ [];
  system_allocs = (4096, 4096) ∷ [];
  partial = λ _. 1;
}

last_used-Inv : Inv linux last_used
unfolding lookup page_size total_free
last_used-Inv = record {
  mapped = record {
    sorted = (omega arith, tt);
    next_pos = omega arith;
    fresh = λ p s e. ground arith;
    nonempty = λ p s e. ground arith;
    above_null = λ p s e. ground arith;
    aligned = λ p s e. ground arith;
    registered = λ p s i e lt. ground arith;
    owned = λ j p e. (one_used, ground arith, ground arith, ground arith);
  };
  listed = record { keys = tt; lists = λ k p e. cc; counted = refl };
}

one_used-Owner : Owner 27 1 2 one_used (4096 ∷ []) last_used
unfolding lookup
one_used-Owner = record {
  some_span = ground arith;
  alive = refl;
  class = refl;
  total = refl;
  blocks = link (ground arith) refl refl end;
  counted = refl;
}

return_block-Whole_example :
    ((whole_world 27 6144 1 one_used last_used).partial 27 ≡ one_used.next)
    × (return_block linux 27 6144 last_used
        ≡ deallocate_span linux 1 (whole_world 27 6144 1 one_used last_used))
    × Returns (λ _ w'. Inv linux w' × Keeps 1 last_used 1 w') (return_block linux 27 6144 last_used)
unfolding lookup page_id page_size
return_block-Whole_example =
    return_block-Whole linux 27 6144 1 2 one_used (4096 ∷ []) last_used (ground arith) refl
      (omega arith) refl one_used-Owner last_used-Inv refl
