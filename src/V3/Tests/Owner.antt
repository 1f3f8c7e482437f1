-- ===== src/V3/Tests/Owner.antt =====
-- A span with one free block, and two blocks that come back to it.
use my_memory_pool.Prelude.{null, update, refl, arith, [], ◌∷◌}
use my_memory_pool.Prelude.Command.{Returns}
use my_memory_pool.Prelude.Assoc.{lookup}
use my_memory_pool.Prelude.Blocks.{end, link}
use my_memory_pool.V3.Sample.{linux}
use my_memory_pool.V3.World.{World, Span, default_span, empty_world, page_size}
use my_memory_pool.V3.PageCache.{page_id}
use my_memory_pool.V3.CentralCache.{return_range}
use my_memory_pool.V3.CentralCache.Owner.{Owner, Back, return_range-Owner}

abbrev one_free : Span
one_free = record default_span {
  page_addr = 4096;
  num_pages = 1;
  block_size = 8;
  block_count = 512;
  free_count = 1;
  free_list = 4096;
}

abbrev two_used : World
two_used = record empty_world {
  word = update (λ _. null) 4104 4112;
  spans = (1, one_free) ∷ [];
  next_span = 2;
  page_map = (1, 1) ∷ [];
  partial = λ _. 1;
}

one_free-Owner : Owner 0 1 512 one_free (4096 ∷ []) two_used
unfolding lookup
one_free-Owner = record {
  some_span = ground arith;
  alive = refl;
  class = refl;
  total = refl;
  blocks = link (ground arith) refl refl end;
  counted = refl;
}

return_range-Owner_example :
    Returns
      (λ _ w'. Back 0 1 512 (4104 ∷ 4112 ∷ []) (4096 ∷ []) (4112 ∷ 4104 ∷ 4096 ∷ []) two_used w')
      (return_range linux 4104 2 0 two_used)
unfolding lookup page_id page_size
return_range-Owner_example =
    return_range-Owner linux 0 4104 2 1 512 one_free (4104 ∷ 4112 ∷ []) (4096 ∷ []) two_used
      (omega arith) (link (ground arith) refl refl (link (ground arith) refl refl end))
      (omega arith) (refl, (refl, tt)) (λ a h. ground arith) (omega arith) one_free-Owner
