-- ===== src/V3/Tests/Batch.antt =====
-- A shard whose first span has three free blocks, and a batch of two.
use my_memory_pool.Prelude.{null, update, ◌≡◌, refl, arith, [], ◌∷◌}
use my_memory_pool.Prelude.Command.{Returns}
use my_memory_pool.Prelude.Assoc.{lookup}
use my_memory_pool.Prelude.Blocks.{Blocks, end, link}
use my_memory_pool.V3.Sample.{linux}
use my_memory_pool.V3.World.{World, Span, default_span, empty_world}
use my_memory_pool.V3.CentralCache.{fetch_range}
use my_memory_pool.V3.CentralCache.Source.{Source, Remains}
use my_memory_pool.V3.CentralCache.Batch.{fetch_range-Remains}

abbrev three_free : Span
three_free = record default_span {
  page_addr = 4096;
  num_pages = 1;
  block_size = 8;
  block_count = 512;
  free_count = 3;
  free_list = 4096;
}

abbrev one_source : World
one_source = record empty_world {
  word = update (update (λ _. null) 4096 4104) 4104 4112;
  spans = (1, three_free) ∷ [];
  next_span = 2;
  partial = λ _. 1;
}

three_free-Source : Source 0 1 three_free (4096 ∷ 4104 ∷ 4112 ∷ []) one_source
unfolding lookup
three_free-Source = record {
  heads = refl;
  some_span = ground arith;
  alive = refl;
  blocks =
      link (ground arith) refl refl
        (link (ground arith) refl refl (link (ground arith) refl refl end));
  counted = refl;
}

fetch_range-Remains_example :
    Returns
      (λ (start, fetched) w'.
        Blocks w'.word start (4096 ∷ 4104 ∷ [])
        × ((fetched ≡ 2) × Remains 0 1 0 512 null [] (4112 ∷ []) w'))
      (fetch_range linux 0 2 one_source)
fetch_range-Remains_example =
    fetch_range-Remains linux 0 2 1 three_free (4096 ∷ 4104 ∷ 4112 ∷ []) one_source (omega arith)
      (omega arith) (omega arith) three_free-Source
