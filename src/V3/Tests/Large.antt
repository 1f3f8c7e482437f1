-- ===== src/V3/Tests/Large.antt =====
-- Large blocks: one from the system, and one that goes back.
use my_memory_pool.Prelude.{
  if◌then◌else◌, ◌&&◌, ltb, leb, null, ℕ, ◌+◌, ◌≡◌, ◌⊎◌, refl, arith, [], ◌∷◌, some, true,
}
use my_memory_pool.Prelude.Assoc.{lookup}
use my_memory_pool.V3.Sample.{linux}
use my_memory_pool.V3.World.{World, Span, default_span, empty_world, page_size, pure, and_then}
use my_memory_pool.Prelude.Command.{Returns}
use my_memory_pool.V3.PageCache.Invariant.{Inv, total_free}
use my_memory_pool.V3.PageCache.{map_pages, deallocate_span}
use my_memory_pool.V3.PageCache.Kept.{Keeps}
use my_memory_pool.V3.PageCache.Pages.{lookup-map_pages}
use my_memory_pool.V3.PageCache.Initial.{empty_world-Inv}
use my_memory_pool.V3.Tests.PageCache.{linux-Granular, linux-Promised}
use my_memory_pool.V3.ThreadCache.{empty_cache, allocate_large, deallocate}
use my_memory_pool.V3.ThreadCache.Large.{
  LargeBlock, allocate_large-LargeBlock, deallocate-LargeBlock,
}

allocate_large-LargeBlock_example :
    Returns
      (λ ptr w'. Inv linux w' × ((ptr ≡ null) ⊎ LargeBlock linux 300000 ptr w'))
      (allocate_large linux 300000 empty_world)
allocate_large-LargeBlock_example =
    allocate_large-LargeBlock linux empty_world 12 300000 (empty_world-Inv linux) linux-Granular
      (omega arith) (linux-Promised _)

abbrev big_span : Span
big_span = record default_span {
  page_addr = 8192;
  num_pages = 74;
  origin_addr = 8192;
  origin_pages = 74;
  is_large = true;
}

abbrev big_world : World
big_world = record empty_world {
  spans = (1, big_span) ∷ [];
  next_span = 2;
  page_map = map_pages 74 2 1 [];
  system_allocs = (8192, 303104) ∷ [];
}

page_at :
    (j : ℕ)
    → lookup j (map_pages 74 2 1 []) ≡ (if leb 2 j && ltb j (2 + 74) then some 1 else lookup j [])
page_at j = lookup-map_pages 74 2 1 j []

big_world-Inv : Inv linux big_world
unfolding lookup page_size total_free
big_world-Inv = record {
  mapped = record {
    sorted = (omega arith, tt);
    next_pos = omega arith;
    fresh = λ p s e. ground arith;
    nonempty = λ p s e. ground arith;
    above_null = λ p s e. ground arith;
    aligned = λ p s e. ground arith;
    registered = λ p s i e lt. ground (arith, page_at (2 + i));
    owned = λ j p e.
        (big_span, ground (arith, page_at j), ground (arith, page_at j), ground (arith, page_at j));
  };
  listed = record { keys = tt; lists = λ k p e. cc; counted = refl };
}

big_block : LargeBlock linux 300000 8192 big_world
unfolding lookup page_size
big_block = record {
  span = big_span;
  at = 1;
  alive = refl;
  start = refl;
  large = refl;
  in_use = refl;
  holds = omega arith;
}

deallocate-LargeBlock_example :
    (deallocate linux empty_cache 8192 big_world
      ≡ and_then (deallocate_span linux 1 big_world) (λ _. pure (true, empty_cache)))
    × Returns
        (λ (freed, t') w'.
          (freed ≡ true) × (t' ≡ empty_cache) × Inv linux w' × Keeps 1 big_world 1 w')
        (deallocate linux empty_cache 8192 big_world)
unfolding big_block
deallocate-LargeBlock_example =
    deallocate-LargeBlock linux big_world empty_cache 300000 8192 refl big_world-Inv big_block
      (omega arith)
